-- ===== src/Database/Confirmed.antt =====
-- The confirmation of escrow transactions (database/mod.rs, `confirm_bond_txids`).
use taptrade_core.Prelude.{
  String, ◌≡◌, refl, ◌∙◌, ap, Bool, true, false, ◌||◌, some, inl, inr, List, [], ◌∷◌, str_eq,
  str_eq_iff, contains, Bool-cases, ◌==◌, arith,
}
use mathlib.Core.Option
use taptrade_core.Prelude.Result.{ok}
use taptrade_core.Sql.{fetch_optional}
use taptrade_core.Sql.Rows.{Disjoint, fetch-update, fetch-update_other}
use taptrade_core.Database.Tables.{CoordinatorDb, TakenOffer}
use taptrade_core.Database.Taken.{
  txid_is, update_taken, set_confirmed, confirm_bond_txids, get_txid_confirmation_status,
}

txid_is-Disjoint : (s t : String) → str_eq s t ≡ false → Disjoint (txid_is s) (txid_is t)
txid_is-Disjoint s t ne r h =
    ground (arith, str_eq_iff r.escrow_psbt_txid s, str_eq_iff r.escrow_psbt_txid t, str_eq_iff s t)

or_true : (b : Bool) → (b || true) ≡ true
or_true true = refl
or_true false = refl

-- A transaction that a trade waits for counts as confirmed after the call exactly if it is one of
-- the transactions of the call, or was confirmed before.
pub get_txid_confirmation_status-confirm_bond_txids :
    (txids : List String) (t : String) (db : CoordinatorDb) {row : TakenOffer}
    → fetch_optional (txid_is t) db.taken_offers ≡ some row
    → get_txid_confirmation_status t (confirm_bond_txids txids db).1
      ≡ ok (contains t txids || row.escrow_psbt_is_confirmed == 1)
unfolding confirm_bond_txids get_txid_confirmation_status
get_txid_confirmation_status-confirm_bond_txids [] t db found = rw found refl
get_txid_confirmation_status-confirm_bond_txids (s ∷ txids) t db {row} found =
    elim (Bool-cases (str_eq s t)) [
      | inl e ↦
          let same = (str_eq_iff s t).0 e in
          let after : fetch_optional (txid_is t)
                (update_taken (txid_is s) set_confirmed db).taken_offers
              ≡ some (set_confirmed row) =
            rw same (
              fetch-update (txid_is t) set_confirmed db.taken_offers (λ r. refl)
              ∙ ap (Option.map set_confirmed) found) in
          rw e (
            get_txid_confirmation_status-confirm_bond_txids txids t
              (update_taken (txid_is s) set_confirmed db) after
            ∙ ap ok (or_true (contains t txids)))
      | inr e ↦
          let after : fetch_optional (txid_is t)
                (update_taken (txid_is s) set_confirmed db).taken_offers
              ≡ some row =
            fetch-update_other (txid_is s) (txid_is t) set_confirmed db.taken_offers
              (txid_is-Disjoint s t e) (λ r. refl)
            ∙ found in
          rw e (
            get_txid_confirmation_status-confirm_bond_txids txids t
              (update_taken (txid_is s) set_confirmed db) after)
    ]

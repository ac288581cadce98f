-- ===== src/System/Verdicts.antt =====
-- What a round of the operator's interface keeps (coordinator/escrow_cli.rs): it decides the
-- disputes that were open when it began, each of them while it is still open.
use taptrade_core.Prelude.{
  String, ◌≡◌, refl, ◌∙◌, true, false, some, List, [], ◌∷◌, map, str_eq, str_eq_iff, Option-cases,
  inl, inr,
}
use taptrade_core.Externals.{Externals}
use taptrade_core.Sql.{select}
use taptrade_core.Sql.Rows.{All, fetch-update_other}
use taptrade_core.Sql.Unique.{
  All-both, All-map, All-select, select-All, select-Distinct, each-found, none-All, flip_false,
}
use taptrade_core.Sql.Keys.{Distinct}
use taptrade_core.Database.Tables.{CoordinatorDb, TakenOffer}
use taptrade_core.Database.Invariant.{IsValid, taken_key}
use taptrade_core.Database.Taken.{offer_is}
use taptrade_core.Database.Trade.{
  is_ongoing, resolve, resolve_escrow, escrow_case, get_open_escrows,
}
use taptrade_core.Database.Writes.{Write, run_write}
use taptrade_core.Coordinator.State.{Coordinator}
use taptrade_core.Monitor.EscrowCli.{
  get_coordinator_cli_input, winner_id, decide_case, decide_cases, escrow_cli_round,
}
use taptrade_core.Protocol.Updates.{row_of, offer_is-Disjoint}
use taptrade_core.System.Stable.{Stable}

-- The row is in the database as it was read, and is in dispute.
abbrev IsOpen : CoordinatorDb → TakenOffer → Type 0
IsOpen db r = (row_of r.offer_id db ≡ some r) × (is_ongoing r ≡ true)

-- A decision leaves the other open disputes as they are.
decided-IsOpen :
    (db : CoordinatorDb) (r : TakenOffer) (winner : String) (rest : List TakenOffer)
    → All (λ o. str_eq o.offer_id r.offer_id ≡ false) rest
    → All (IsOpen db) rest
    → All (IsOpen (resolve_escrow r.offer_id winner db).1) rest
unfolding resolve_escrow
decided-IsOpen db r winner rest others open_rows =
    All-map (λ o. (str_eq o.offer_id r.offer_id ≡ false) × IsOpen db o)
      (IsOpen (resolve_escrow r.offer_id winner db).1) rest
      (λ o h. (
        fetch-update_other (offer_is r.offer_id) (offer_is o.offer_id) (resolve winner)
              db.taken_offers
              (offer_is-Disjoint r.offer_id o.offer_id
                (flip_false str_eq str_eq_iff taken_key o.offer_id r.offer_id h.0))
              (λ t. refl)
            ∙ h.1.0,
        h.1.1,
      ))
      (All-both _ _ rest others open_rows)

module _ {New : String → CoordinatorDb → Type 0} (x : Externals) (P : Coordinator → Type 0)
    (s : Stable x New P) where
  decide_cases-keeps :
      (rows : List TakenOffer) (lines : List String) (c : Coordinator)
      → Distinct str_eq taken_key rows
      → All (IsOpen c.db) rows
      → P c
      → P (record c { db = decide_cases (map (escrow_case x) rows) lines c.db })
  unfolding decide_cases decide_case run_write
  decide_cases-keeps [] lines c d o p = p
  decide_cases-keeps (r ∷ rs) lines c d o p =
      elim (Option-cases (get_coordinator_cli_input lines)) [
        | inl f ↦ rw (decide_cases, f) p
        | inr ((w, rest), f) ↦
            let winner = winner_id w (escrow_case x r) in
            rw (decide_cases, f)
              (decide_cases-keeps rs rest (record c { db = decide_case (escrow_case x r) w c.db })
                d.1
                (decided-IsOpen c.db r winner rs
                  (none-All (λ o. str_eq o.offer_id r.offer_id) rs d.0) o.1)
                (s.write (Write.resolve_escrow r.offer_id winner) c
                  (record { row = r; found = o.0.0; ongoing = o.0.1 }) p))
      ]

  pub verdicts-keeps :
      (lines : List String) (c : Coordinator)
      → IsValid c.db
      → P c
      → P (record c { db = escrow_cli_round x lines c.db })
  unfolding escrow_cli_round get_open_escrows
  verdicts-keeps lines c v p =
      let rows = c.db.taken_offers in
      decide_cases-keeps (select is_ongoing rows) lines c
        (select-Distinct str_eq str_eq_iff taken_key is_ongoing rows v.taken_keys)
        (All-both _ _ (select is_ongoing rows)
          (All-select _ is_ongoing rows (each-found str_eq str_eq_iff taken_key rows v.taken_keys))
          (select-All is_ongoing rows))
        p

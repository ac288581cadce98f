-- ===== src/Monitor/Soundness.antt =====
-- What the rounds of the confirmation task may conclude
-- (coordinator/tx_confirmation_monitoring.rs).
use taptrade_core.Prelude.{
  ℕ, ◌<◌, String, ◌≡◌, ◌⊎◌, refl, sym, ◌∙◌, Bool, true, false, ◌||◌, none, some, inl, inr, List, [],
  ◌∷◌, str_eq, str_eq_iff, contains, ltb, ◌==◌, ==_iff, map, Bool-cases, arith,
}
use taptrade_core.Prelude.Result.{Result, ok, err, panic, and_then-ok, ok-injective}
use taptrade_core.Errors.{AnyError}
use taptrade_core.Sql.{fetch_optional, select}
use taptrade_core.Database.Tables.{CoordinatorDb, TakenOffer}
use taptrade_core.Database.Taken.{
  txid, is_unconfirmed, txid_is, get_txid_confirmation_status, fetch_unconfirmed_escrow_txids,
}
use taptrade_core.Database.Confirmed.{get_txid_confirmation_status-confirm_bond_txids}
use taptrade_core.Monitor.Confirmations.{
  TxInfo, found, unknown, failed, with_info, or_none, get_confirmations,
  update_transaction_confirmations,
}

-- more than three confirmations
pub record IsDeep (i : TxInfo) : Type 0 where
  pub confirmations : ℕ
  pub is_found : i ≡ found (some confirmations)
  pub enough : 3 < confirmations

module _ (is_txid : String → Bool) (info : String → TxInfo) where
  none_confirmed :
      (t : String) (txids : List String) → txids ≡ [] → contains t txids ≡ true → IsDeep (info t)
  none_confirmed t txids e h = cc (rw e at h)

  with_info-IsDeep :
      (s t : String) (i : TxInfo) (later : Result AnyError (List String)) {txids : List String}
      → info s ≡ i
      → with_info s i later ≡ ok txids
      → ((ts : List String) → later ≡ ok ts → contains t ts ≡ true → IsDeep (info t))
      → contains t txids ≡ true
      → IsDeep (info t)
  with_info-IsDeep s t unknown later e h ih c = ih _ h c
  with_info-IsDeep s t failed later e h ih c = cc
  with_info-IsDeep s t (found none) later {txids} e h ih c =
      let (ts, l, k) = and_then-ok later _ h in ih ts l (rw (ok-injective k) c)
  with_info-IsDeep s t (found (some n)) later {txids} e h ih c =
      let (ts, l, k) = and_then-ok later _ h in
      elim (Bool-cases (ltb 3 n)) [
        | inr f ↦ ih ts l (rw (ok-injective (rw f at k)) c)
        | inl f ↦ elim (Bool-cases (str_eq s t)) [
          | inl g ↦ record {
            confirmations = n;
            is_found = rw (← (str_eq_iff s t).0 g) e;
            enough = ground arith;
          }
          | inr g ↦ ih ts l (rw g at (rw (← ok-injective (rw f at k)) at c))
        ]
      ]

  get_confirmations-IsDeep :
      (t : String) (unconfirmed : List String) {txids : List String}
      → get_confirmations is_txid info unconfirmed ≡ ok txids
      → contains t txids ≡ true
      → IsDeep (info t)
  unfolding get_confirmations
  get_confirmations-IsDeep t [] h c = none_confirmed t _ (sym (ok-injective h)) c
  get_confirmations-IsDeep t (s ∷ ss) h c = elim (Bool-cases (is_txid s)) [
    | inl e ↦
        with_info-IsDeep s t (info s) (get_confirmations is_txid info ss) refl (rw e at h)
          (λ ts k d. get_confirmations-IsDeep t ss k d) c
    | inr e ↦ cc (rw e at h)
  ]

  or_none-contains :
      (t : String) (r : Result AnyError (List String))
      → contains t (or_none r) ≡ true
      → (ts : List String) × (r ≡ ok ts) × (contains t ts ≡ true)
  or_none-contains t (ok ts) h = (ts, refl, h)
  or_none-contains t (err e) h = cc
  or_none-contains t panic h = cc

  or_cases : (a b : Bool) → (a || b) ≡ true → (a ≡ true) ⊎ (b ≡ true)
  or_cases true b h = inl refl
  or_cases false b h = inr h

  -- A transaction that a trade waits for counts as confirmed after a round only if it was confirmed
  -- before or the node reports more than three confirmations of it.
  pub update_transaction_confirmations-IsDeep :
      (t : String) (db : CoordinatorDb) {row : TakenOffer}
      → fetch_optional (txid_is t) db.taken_offers ≡ some row
      → get_txid_confirmation_status t (update_transaction_confirmations is_txid info db) ≡ ok true
      → (row.escrow_psbt_is_confirmed ≡ 1) ⊎ IsDeep (info t)
  unfolding update_transaction_confirmations fetch_unconfirmed_escrow_txids
  update_transaction_confirmations-IsDeep t db {row} present h =
      let all = map txid (select is_unconfirmed db.taken_offers) in
      let seen = or_none (get_confirmations is_txid info all) in
      let status =
        ok-injective
          (sym (get_txid_confirmation_status-confirm_bond_txids seen t db present) ∙ h) in
      elim (or_cases (contains t seen) (row.escrow_psbt_is_confirmed == 1) status) [
        | inl c ↦
            let (ts, e, d) = or_none-contains t (get_confirmations is_txid info all) c in
            inr (get_confirmations-IsDeep t all e d)
        | inr c ↦ inl ((==_iff row.escrow_psbt_is_confirmed 1).0 c)
      ]

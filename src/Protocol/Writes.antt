-- ===== src/Protocol/Writes.antt =====
-- Each method of `CoordinatorDB` that writes, as steps of the protocol (database/mod.rs).
use taptrade_core.Prelude.{
  String, ◌≡◌, refl, sym, ◌∙◌, ap, inl, inr, Bool, true, false, is_some, ◌==◌, Option, none, some,
  List, [], ◌∷◌, str_eq, Bool-cases, arith,
}
use mathlib.Core.Path.{subst}
use taptrade_core.Prelude.Result.{resume-cases, ok_or-ok}
use taptrade_core.Errors.{row_not_found}
use taptrade_core.Externals.{Externals}
use taptrade_core.Api.{PsbtSubmissionRequest}
use taptrade_core.Sql.{fetch_one}
use taptrade_core.Sql.Others.{update-update}
use taptrade_core.Database.Tables.{TakenOffer, CoordinatorDb}
use taptrade_core.Database.Invariant.{set_happy-key, set_signed-key, set_partial-key}
use taptrade_core.Database.Taken.{
  offer_is, txid_is, update_taken, set_confirmed, confirm_bond_txids, is_maker_in_taken_offers,
  signed_escrow_psbt_of, set_signed_escrow_psbt, insert_signed_escrow_psbt,
}
use taptrade_core.Database.Trade.{
  set_happy, set_ongoing, is_ongoing, happiness, toggle, toggle_processing, resolve, resolve_escrow,
  set_trader_happy_field,
}
use taptrade_core.Database.Payout.{
  set_payout_psbt, insert_keyspend_payout_psbt, partial_sig_of, set_partial_sig, insert_partial_sig,
}
use taptrade_core.Coordinator.Trades.{both_happy}
use taptrade_core.Protocol.{
  Move, Steps-trans, here, confirms, signs, accepts, complains, decides, pays_out, submits,
}
use taptrade_core.Protocol.View.{trade_view, Forward}
use taptrade_core.Protocol.Updates.{row_of, one-Move, no_change, update-Forward, update_one-Forward}

-- The escrow transaction of the trade counts as confirmed.
pub record Confirmed (offer_id : String) (db : CoordinatorDb) : Type 0 where
  pub row : TakenOffer
  pub found : row_of offer_id db ≡ some row
  pub deep : (row.escrow_psbt_is_confirmed == 1) ≡ true

-- The trade is in dispute.
pub record Disputed (offer_id : String) (db : CoordinatorDb) : Type 0 where
  pub row : TakenOffer
  pub found : row_of offer_id db ≡ some row
  pub ongoing : is_ongoing row ≡ true

-- Both traders are happy, and the trade has no payout psbt yet.
pub record Payable (offer_id : String) (db : CoordinatorDb) : Type 0 where
  pub row : TakenOffer
  pub found : row_of offer_id db ≡ some row
  pub happy : both_happy (happiness row) ≡ true
  pub unpaid : row.payout_transaction_psbt_hex ≡ none

some-eq : {A : Type 0} {a b : A} → ◌≡◌ {A = Option A} (some a) (some b) → a ≡ b
some-eq h = cc

-- The row found is the one that is known to be there.
the_row :
    (offer_id : String) (db : CoordinatorDb) (P : TakenOffer → Type 0) (row r : TakenOffer)
    → row_of offer_id db ≡ some row
    → row_of offer_id db ≡ some r
    → P row
    → P r
the_row offer_id db P row r found e p = subst P (some-eq (sym found ∙ e)) p

free_of_not_some : (o : Option String) → is_some o ≡ false → o ≡ none
free_of_not_some none h = refl
free_of_not_some (some s) h = cc

paid :
    (r : TakenOffer)
    → both_happy (happiness r) ≡ true
    → ((trade_view r).maker_happy ≡ true) × ((trade_view r).taker_happy ≡ true)
paid r h = ground arith

signs-Move :
    (maker : Bool) (psbt : String) (r : TakenOffer)
    → signed_escrow_psbt_of maker r ≡ none
    → Move (trade_view r) (trade_view (set_signed_escrow_psbt maker psbt r))
signs-Move true psbt r free = signs (trade_view r) true psbt free
signs-Move false psbt r free = signs (trade_view r) false psbt free

submits-Move :
    (maker : Bool) (sig : String) (r : TakenOffer)
    → (r.escrow_psbt_is_confirmed == 1) ≡ true
    → partial_sig_of maker r ≡ none
    → Move (trade_view r) (trade_view (set_partial_sig maker sig r))
submits-Move true sig r c free = submits (trade_view r) true sig c free
submits-Move false sig r c free = submits (trade_view r) false sig c free

accepts-Move :
    (maker : Bool) (r : TakenOffer)
    → (r.escrow_psbt_is_confirmed == 1) ≡ true
    → Move (trade_view r) (trade_view (set_happy maker (some 1) r))
accepts-Move true r c = accepts (trade_view r) true c
accepts-Move false r c = accepts (trade_view r) false c

complains-Move :
    (maker : Bool) (r : TakenOffer)
    → (r.escrow_psbt_is_confirmed == 1) ≡ true
    → Move (trade_view r) (trade_view (set_ongoing (set_happy maker none r)))
complains-Move true r c = complains (trade_view r) true c
complains-Move false r c = complains (trade_view r) false c

module _ {N : Type 0} (offer_id : String) where
  pub toggle_processing-Forward :
      (other : String) (db : CoordinatorDb) → Forward N offer_id db (toggle_processing other db).1
  unfolding toggle_processing
  toggle_processing-Forward other db =
      resume-cases (Forward N offer_id db) (fetch_one (offer_is other) db.taken_offers) db _ here
        (λ _ _.
          update_one-Forward offer_id db other toggle (λ r. refl) (λ r _. no_change (trade_view r)))

  pub resolve_escrow-Forward :
      (other winner : String) (db : CoordinatorDb)
      → Disputed other db
      → Forward N offer_id db (resolve_escrow other winner db).1
  unfolding resolve_escrow
  resolve_escrow-Forward other winner db d =
      update_one-Forward offer_id db other (resolve winner) (λ r. refl)
        (λ r e. one-Move (
          decides (trade_view r) winner
            (the_row other db (λ r. is_ongoing r ≡ true) d.row r d.found e d.ongoing)))

  pub confirm_bond_txids-Forward :
      (txids : List String) (db : CoordinatorDb)
      → Forward N offer_id db (confirm_bond_txids txids db).1
  unfolding confirm_bond_txids
  confirm_bond_txids-Forward [] db = here
  confirm_bond_txids-Forward (t ∷ txids) db =
      Steps-trans
        (update-Forward offer_id db (txid_is t) set_confirmed (λ r. refl)
          (λ r _ _. one-Move (confirms (trade_view r))))
        (confirm_bond_txids-Forward txids (update_taken (txid_is t) set_confirmed db))

  pub insert_keyspend_payout_psbt-Forward :
      (other psbt : String) (db : CoordinatorDb)
      → Payable other db
      → Forward N offer_id db (insert_keyspend_payout_psbt other psbt db).1
  unfolding insert_keyspend_payout_psbt
  insert_keyspend_payout_psbt-Forward other psbt db p =
      update_one-Forward offer_id db other (set_payout_psbt psbt) (λ r. refl)
        (λ r e.
          let happy =
            the_row other db (λ r. both_happy (happiness r) ≡ true) p.row r p.found e p.happy in
          let unpaid =
            the_row other db (λ r. r.payout_transaction_psbt_hex ≡ none) p.row r p.found e
              p.unpaid in
          one-Move (pays_out (trade_view r) psbt (paid r happy).0 (paid r happy).1 unpaid))

  module _ (x : Externals) where
    pub insert_signed_escrow_psbt-Forward :
        (p : PsbtSubmissionRequest) (db : CoordinatorDb)
        → Forward N offer_id db (insert_signed_escrow_psbt x p db).1
    unfolding insert_signed_escrow_psbt
    insert_signed_escrow_psbt-Forward p db =
        resume-cases (Forward N offer_id db)
          (is_maker_in_taken_offers x p.offer_id_hex p.robohash_hex db) db _ here
          (λ maker _.
            resume-cases (Forward N offer_id db)
              (fetch_one (offer_is p.offer_id_hex) db.taken_offers) db _ here
              (λ row found. elim (Bool-cases (is_some (signed_escrow_psbt_of maker row))) [
                | inl e ↦ rw e here
                | inr e ↦ rw e (
                    update_one-Forward offer_id db p.offer_id_hex
                      (set_signed_escrow_psbt maker p.signed_psbt_hex)
                      (set_signed-key maker p.signed_psbt_hex)
                      (λ r f. one-Move (
                        signs-Move maker p.signed_psbt_hex r (
                          the_row p.offer_id_hex db (λ r. signed_escrow_psbt_of maker r ≡ none) row
                            r (ok_or-ok _ row_not_found found) f
                            (free_of_not_some (signed_escrow_psbt_of maker row) e)))))
              ]))

    pub insert_partial_sig-Forward :
        (sig other robohash : String) (db : CoordinatorDb)
        → Confirmed other db
        → Forward N offer_id db (insert_partial_sig x sig other robohash db).1
    unfolding insert_partial_sig
    insert_partial_sig-Forward sig other robohash db c =
        resume-cases (Forward N offer_id db) (is_maker_in_taken_offers x other robohash db) db _
          here
          (λ maker _.
            resume-cases (Forward N offer_id db) (fetch_one (offer_is other) db.taken_offers) db _
              here
              (λ row found. elim (Bool-cases (is_some (partial_sig_of maker row))) [
                | inl e ↦ rw e here
                | inr e ↦ rw e (
                    update_one-Forward offer_id db other (set_partial_sig maker sig)
                      (set_partial-key maker sig)
                      (λ r f. one-Move (
                        submits-Move maker sig r
                          (the_row other db (λ r. (r.escrow_psbt_is_confirmed == 1) ≡ true) c.row r
                            c.found f c.deep)
                          (the_row other db (λ r. partial_sig_of maker r ≡ none) row r
                            (ok_or-ok _ row_not_found found) f
                            (free_of_not_some (partial_sig_of maker row) e)))))
              ]))

    pub set_trader_happy_field-Forward :
        (other robohash : String) (happy : Bool) (db : CoordinatorDb)
        → Confirmed other db
        → Forward N offer_id db (set_trader_happy_field x other robohash happy db).1
    unfolding set_trader_happy_field
    set_trader_happy_field-Forward other robohash true db c =
        resume-cases (Forward N offer_id db) (is_maker_in_taken_offers x other robohash db) db _
          here
          (λ maker _.
            update_one-Forward offer_id db other (set_happy maker (some 1))
              (set_happy-key maker (some 1))
              (λ r f. one-Move (
                accepts-Move maker r (
                  the_row other db (λ r. (r.escrow_psbt_is_confirmed == 1) ≡ true) c.row r c.found f
                    c.deep))))
    set_trader_happy_field-Forward other robohash false db c =
        resume-cases (Forward N offer_id db) (is_maker_in_taken_offers x other robohash db) db _
          here
          (λ maker _.
            rw
              (update-update (offer_is other) (set_happy maker none) set_ongoing db.taken_offers
                (λ r. ap (λ i. str_eq i other) (set_happy-key maker none r)))
              (update_one-Forward offer_id db other (λ r. set_ongoing (set_happy maker none r))
                (set_happy-key maker none)
                (λ r f. one-Move (
                  complains-Move maker r (
                    the_row other db (λ r. (r.escrow_psbt_is_confirmed == 1) ≡ true) c.row r c.found
                      f c.deep)))))

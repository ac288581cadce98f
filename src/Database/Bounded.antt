-- ===== src/Database/Bounded.antt =====
-- Each method of `CoordinatorDB` that writes, and the sizes of the offers (database/mod.rs).
use taptrade_core.Prelude.{
  ◌≡◌, String, Bool, is_some, Option, none, Bool-cases, inl, inr, refl, some,
}
use mathlib.Core.Path.{subst}
use taptrade_core.Prelude.Result.{Keeps-resume, resume-cases, ok_or-ok, ok, ok-injective, resume-ok}
use taptrade_core.Errors.{row_not_found}
use taptrade_core.Externals.{Externals}
use taptrade_core.Api.{
  OfferRequest, BondRequirementResponse, BondSubmissionRequest, OfferPsbtRequest,
  PsbtSubmissionRequest,
}
use taptrade_core.Types.{EscrowPsbt}
use taptrade_core.Sql.{fetch_one, fetch_optional}
use taptrade_core.Sql.Rows.{fetch-All, All-delete, All-insert}
use taptrade_core.Database.Tables.{ActiveMakerOffer, CoordinatorDb, bool_to_sql_int}
use taptrade_core.Database.Orderbook
use taptrade_core.Database.Requests.{
  decode_hex, robohash_is, request_row, insert_new_maker_request, AwaitingBondOffer,
  fetch_and_delete_offer_from_bond_table,
}
use taptrade_core.Database.Orderbook.{
  active_row, awaiting_taker_offer, move_offer_to_active, remove_violating_bond, remove_from,
  fetch_and_delete_offer_from_public_offers_table,
}
use taptrade_core.Database.Taken.{
  offer_is, taken_row, add_taker_info_and_move_table, is_maker_in_taken_offers,
  signed_escrow_psbt_of, set_signed_escrow_psbt, insert_signed_escrow_psbt,
}
use taptrade_core.Database.Trade.{set_happy, set_ongoing, set_trader_happy_field}
use taptrade_core.Database.Payout.{set_partial_sig, partial_sig_of, insert_partial_sig}
use taptrade_core.Database.Writes.{Write, run_write}
use taptrade_core.Database.Bounds.{
  IsSized, IsSizedRequest, IsSizedOffer, IsSizedTrade, InBounds, KeepsBounds, Fits,
  update_taken-InBounds, remove_violating_bond-InBounds, confirm_bond_txids-InBounds,
  toggle_processing-InBounds, set_signed-IsSized, set_partial-IsSized, set_happy-IsSized,
  delete_complete_offer-InBounds, resolve_escrow-InBounds, insert_keyspend_payout_psbt-InBounds,
}

module _ (x : Externals) where
  insert_new_maker_request-InBounds :
      (o : OfferRequest) (b : BondRequirementResponse) (db : CoordinatorDb)
      → IsSized o.amount_satoshi o.bond_ratio b.locking_amount_sat
      → InBounds db
      → InBounds (insert_new_maker_request x o b db).1
  unfolding insert_new_maker_request
  insert_new_maker_request-InBounds o b db sized v =
      resume-cases InBounds (decode_hex x o.robohash_hex) db _ v (λ robohash _. record {
        requests =
            All-insert IsSizedRequest (robohash_is robohash) (request_row robohash o b)
              db.maker_requests sized v.requests;
        offers = v.offers;
        trades = v.trades;
      })

  fetch_request-InBounds :
      (robohash : String) → KeepsBounds (fetch_and_delete_offer_from_bond_table x robohash)
  unfolding fetch_and_delete_offer_from_bond_table
  fetch_request-InBounds robohash db v =
      Keeps-resume InBounds (decode_hex x robohash) db _ v (λ key s v.
        Keeps-resume InBounds (fetch_one (robohash_is key) s.maker_requests) s _ v (λ row s v.
          Keeps-resume InBounds (decode_hex x robohash) s _ v (λ again s v. record {
            requests = All-delete IsSizedRequest (robohash_is again) s.maker_requests v.requests;
            offers = v.offers;
            trades = v.trades;
          })))

  -- a request that is fetched has been stored
  fetch_request-IsSized :
      (robohash : String) (db : CoordinatorDb) {info : AwaitingBondOffer}
      → InBounds db
      → (fetch_and_delete_offer_from_bond_table x robohash db).0 ≡ ok info
      → IsSized info.amount_satoshi info.bond_ratio info.bond_amount_sat
  unfolding fetch_and_delete_offer_from_bond_table
  fetch_request-IsSized robohash db {info} v e =
      let (key, k, e1) = resume-ok (decode_hex x robohash) db _ e in
      let (row, found, e2) = resume-ok (fetch_one (robohash_is key) db.maker_requests) db _ e1 in
      let (again, a, e3) = resume-ok (decode_hex x robohash) db _ e2 in
      let sized : IsSizedRequest row =
        fetch-All IsSizedRequest (robohash_is key) db.maker_requests row v.requests
          (ok_or-ok (fetch_optional (robohash_is key) db.maker_requests) row_not_found found) in
      subst (λ i. IsSized i.amount_satoshi i.bond_ratio i.bond_amount_sat) (ok-injective e3) sized

  move_offer_to_active-InBounds :
      (b : BondSubmissionRequest) (id address : String)
      → KeepsBounds (move_offer_to_active x b id address)
  unfolding move_offer_to_active
  move_offer_to_active-InBounds b id address db w =
      resume-cases InBounds (fetch_and_delete_offer_from_bond_table x b.robohash_hex db).0
        (fetch_and_delete_offer_from_bond_table x b.robohash_hex db).1 _
        (fetch_request-InBounds b.robohash_hex db w)
        (λ info e.
          Keeps-resume InBounds (decode_hex x b.robohash_hex) _ _
            (fetch_request-InBounds b.robohash_hex db w)
            (λ robohash s v. record {
              requests = v.requests;
              offers =
                  All-insert IsSizedOffer (Orderbook.offer_is id)
                    (active_row id robohash info b address) s.active_maker_offers
                    (fetch_request-IsSized b.robohash_hex db w e) v.offers;
              trades = v.trades;
            }))

  add_taker_info_and_move_table-InBounds :
      (q : OfferPsbtRequest) (escrow : EscrowPsbt)
      → KeepsBounds (add_taker_info_and_move_table x q escrow)
  unfolding add_taker_info_and_move_table fetch_and_delete_offer_from_public_offers_table
  add_taker_info_and_move_table-InBounds q escrow db v = by_fetched _ refl
    where
      by_fetched :
          (o : Option ActiveMakerOffer)
          → fetch_optional (Orderbook.offer_is q.offer.offer_id_hex) db.active_maker_offers ≡ o
          → InBounds (add_taker_info_and_move_table x q escrow db).1
      by_fetched none e = rw e v
      by_fetched (some row) e =
          let sized : IsSizedOffer row =
            fetch-All IsSizedOffer (Orderbook.offer_is q.offer.offer_id_hex) _ row v.offers e in
          let left = All-delete IsSizedOffer (Orderbook.offer_is q.offer.offer_id_hex) _ v.offers in
          rw e (
            Keeps-resume InBounds (decode_hex x q.trade_data.robohash_hex) _ _
              (record { requests = v.requests; offers = left; trades = v.trades })
              (λ taker s v. record {
                requests = v.requests;
                offers = v.offers;
                trades =
                    All-insert IsSizedTrade (offer_is q.offer.offer_id_hex)
                      (taken_row (awaiting_taker_offer x q.offer.offer_id_hex row) taker q escrow)
                      s.taken_offers sized v.trades;
              }))

  insert_signed_escrow_psbt-InBounds :
      (signed : PsbtSubmissionRequest) → KeepsBounds (insert_signed_escrow_psbt x signed)
  unfolding insert_signed_escrow_psbt
  insert_signed_escrow_psbt-InBounds signed db v =
      Keeps-resume InBounds (is_maker_in_taken_offers x signed.offer_id_hex signed.robohash_hex db)
        db _ v
        (λ is_maker s v.
          Keeps-resume InBounds (fetch_one (offer_is signed.offer_id_hex) s.taken_offers) s _ v
            (λ row s v. elim (Bool-cases (is_some (signed_escrow_psbt_of is_maker row))) [
              | inl e ↦ rw e v
              | inr e ↦ rw e (
                  update_taken-InBounds (offer_is signed.offer_id_hex)
                    (set_signed_escrow_psbt is_maker signed.signed_psbt_hex) s
                    (set_signed-IsSized is_maker signed.signed_psbt_hex) v)
            ]))

  insert_partial_sig-InBounds :
      (sig offer_id robohash_hex : String)
      → KeepsBounds (insert_partial_sig x sig offer_id robohash_hex)
  unfolding insert_partial_sig
  insert_partial_sig-InBounds sig offer_id robohash_hex db v =
      Keeps-resume InBounds (is_maker_in_taken_offers x offer_id robohash_hex db) db _ v
        (λ is_maker s v.
          Keeps-resume InBounds (fetch_one (offer_is offer_id) s.taken_offers) s _ v (λ row s v.
            elim (Bool-cases (is_some (partial_sig_of is_maker row))) [
              | inl e ↦ rw e v
              | inr e ↦ rw e (
                  update_taken-InBounds (offer_is offer_id) (set_partial_sig is_maker sig) s
                    (set_partial-IsSized is_maker sig) v)
            ]))

  set_trader_happy_field-InBounds :
      (offer_id robohash : String) (is_happy : Bool)
      → KeepsBounds (set_trader_happy_field x offer_id robohash is_happy)
  unfolding set_trader_happy_field
  set_trader_happy_field-InBounds offer_id robohash is_happy db v =
      Keeps-resume InBounds (is_maker_in_taken_offers x offer_id robohash db) db _ v
        (λ is_maker s v.
          let answered =
            update_taken-InBounds (offer_is offer_id)
              (set_happy is_maker (bool_to_sql_int is_happy)) s
              (set_happy-IsSized is_maker (bool_to_sql_int is_happy)) v in
          let disputed =
            update_taken-InBounds (offer_is offer_id) set_ongoing _ (λ r p. p) answered in
          elim (Bool-cases is_happy) [
            | inl e ↦ rw e (rw e at answered)
            | inr e ↦ rw e (rw e at disputed)
          ])

  -- Every method that writes keeps the sizes; a new request has to have them.
  pub run_write-InBounds :
      (w : Write) (db : CoordinatorDb) → Fits w → InBounds db → InBounds (run_write x w db)
  unfolding run_write
  run_write-InBounds (Write.insert_new_maker_request o b) db f =
      insert_new_maker_request-InBounds o b db f
  run_write-InBounds (Write.move_offer_to_active b i a) db f =
      move_offer_to_active-InBounds b i a db
  run_write-InBounds (Write.add_taker_info_and_move_table q e) db f =
      add_taker_info_and_move_table-InBounds q e db
  run_write-InBounds (Write.remove_violating_bond b) db f = remove_violating_bond-InBounds b db
  run_write-InBounds (Write.confirm_bond_txids ts) db f = confirm_bond_txids-InBounds ts db
  run_write-InBounds (Write.insert_signed_escrow_psbt p) db f =
      insert_signed_escrow_psbt-InBounds p db
  run_write-InBounds (Write.set_trader_happy_field i r h) db f =
      set_trader_happy_field-InBounds i r h db
  run_write-InBounds (Write.insert_keyspend_payout_psbt i p) db f =
      insert_keyspend_payout_psbt-InBounds i p db
  run_write-InBounds (Write.insert_partial_sig s i r) db f = insert_partial_sig-InBounds s i r db
  run_write-InBounds (Write.toggle_processing i) db f = toggle_processing-InBounds i db
  run_write-InBounds (Write.delete_complete_offer i) db f = delete_complete_offer-InBounds i db
  run_write-InBounds (Write.resolve_escrow i w) db f = resolve_escrow-InBounds i w db

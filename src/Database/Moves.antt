-- ===== src/Database/Moves.antt =====
-- An offer's way from `maker_requests` through the orderbook to `taken_offers` (database/mod.rs).
use taptrade_core.Prelude.{String, ◌≡◌, refl, false, none, some, Bytes, bytes_eq_refl, str_eq_refl}
use mathlib.Core.Option
use taptrade_core.Prelude.Result.{ok, err}
use taptrade_core.Errors.{row_not_found, invalid_hex}
use taptrade_core.Externals.{Externals}
use taptrade_core.Api.{
  OfferRequest, BondRequirementResponse, BondSubmissionRequest, OfferPsbtRequest,
}
use taptrade_core.Types.{BondRequirements, EscrowPsbt}
use taptrade_core.Sql.{fetch_optional}
use taptrade_core.Sql.Rows.{fetch-insert_self, fetch-delete_self}
use taptrade_core.Database.Tables.{CoordinatorDb, MakerRequest, ActiveMakerOffer}
use taptrade_core.Database.Requests.{
  robohash_is, request_row, awaiting_bond_offer, insert_new_maker_request, fetch_bond_requirements,
  fetch_and_delete_offer_from_bond_table,
}
use taptrade_core.Database.Orderbook
use taptrade_core.Database.Orderbook.{
  active_row, public_offer, awaiting_taker_offer, move_offer_to_active,
  fetch_taker_bond_requirements, fetch_and_delete_offer_from_public_offers_table,
}
use taptrade_core.Database.Taken
use taptrade_core.Database.Taken.{
  taken_row, add_taker_info_and_move_table, fetch_escrow_output_information,
  fetch_escrow_tx_confirmation_status,
}

module _ (x : Externals) where
  -- the bond that is asked for an offer of the orderbook
  abbrev pub requirements_at : String → MakerRequest → BondRequirements
  requirements_at address row = record {
    bond_address = address;
    locking_amount_sat = row.bond_amount_sat;
    min_input_sum_sat = row.amount_sat;
  }

  -- When the robohash decodes and has a pending request, its move to the orderbook succeeds with
  -- the request's duration; the request is then no longer pending, and the orderbook asks takers of
  -- the new offer for the request's bond amount, at the address given and for the request's amount.
  pub move_offer_to_active-moves :
      (bond : BondSubmissionRequest) (offer_id address : String) (db : CoordinatorDb)
      {robohash : Bytes} {row : MakerRequest}
      → x.hex_decode bond.robohash_hex ≡ some robohash
      → fetch_optional (robohash_is robohash) db.maker_requests ≡ some row
      → ((move_offer_to_active x bond offer_id address db).0 ≡ ok row.offer_duration_ts)
        × (fetch_bond_requirements x bond.robohash_hex
              (move_offer_to_active x bond offer_id address db).1
            ≡ err row_not_found)
        × (fetch_taker_bond_requirements offer_id
              (move_offer_to_active x bond offer_id address db).1
            ≡ ok (requirements_at address row))
  unfolding move_offer_to_active fetch_bond_requirements fetch_taker_bond_requirements
      fetch_and_delete_offer_from_bond_table
  move_offer_to_active-moves bond offer_id address db {robohash} {row} h found =
      rw (h, found)
        (
          refl,
          rw (fetch-delete_self (robohash_is robohash) db.maker_requests) refl,
          rw
              (fetch-insert_self (Orderbook.offer_is offer_id)
                (active_row offer_id robohash (awaiting_bond_offer x row) bond address)
                db.active_maker_offers (str_eq_refl offer_id))
              refl,
        )

  -- A request that is inserted and then moved to the orderbook is shown to takers with its amount
  -- and bond amount, but the bond amount stands also where the request had the amount that the
  -- inputs of the escrow transaction must cover, whatever that amount was.
  pub locking_input_overwritten :
      (order : OfferRequest) (b : BondRequirementResponse) (bond : BondSubmissionRequest)
      (offer_id address : String) (db : CoordinatorDb) {robohash : Bytes}
      → x.hex_decode order.robohash_hex ≡ some robohash
      → x.hex_decode bond.robohash_hex ≡ some robohash
      → Option.map public_offer (
          fetch_optional
            (Orderbook.offer_is offer_id)
            (move_offer_to_active x bond offer_id address
              (insert_new_maker_request x order b db).1).1.active_maker_offers)
        ≡ some (record {
          amount_sat = order.amount_satoshi;
          offer_id_hex = offer_id;
          bond_requirements = record {
            bond_address = address;
            locking_amount_sat = b.locking_amount_sat;
            escrow_locking_input_amount_without_trade_sum = b.locking_amount_sat;
          };
        })
  unfolding move_offer_to_active insert_new_maker_request fetch_and_delete_offer_from_bond_table
  locking_input_overwritten order b bond offer_id address db {robohash} first h =
      rw (first, h)
        (rw
          (fetch-insert_self (robohash_is robohash) (request_row robohash order b) db.maker_requests
            (bytes_eq_refl robohash))
          (rw
            (fetch-insert_self (Orderbook.offer_is offer_id)
              (active_row offer_id robohash (awaiting_bond_offer x (request_row robohash order b))
                bond address)
              db.active_maker_offers (str_eq_refl offer_id))
            refl))

  -- When the taker's robohash decodes and the offer is in the orderbook, the trade's start succeeds:
  -- the offer leaves the orderbook, and its escrow transaction is the one given, unconfirmed.
  pub add_taker_info_and_move_table-moves :
      (info : OfferPsbtRequest) (escrow : EscrowPsbt) (db : CoordinatorDb) {robohash : Bytes}
      {row : ActiveMakerOffer}
      → x.hex_decode info.trade_data.robohash_hex ≡ some robohash
      → fetch_optional (Orderbook.offer_is info.offer.offer_id_hex) db.active_maker_offers
        ≡ some row
      → ((add_taker_info_and_move_table x info escrow db).0 ≡ ok tt)
        × (fetch_taker_bond_requirements info.offer.offer_id_hex
              (add_taker_info_and_move_table x info escrow db).1
            ≡ err row_not_found)
        × (fetch_escrow_output_information info.offer.offer_id_hex
              (add_taker_info_and_move_table x info escrow db).1
            ≡ ok (some escrow))
        × (fetch_escrow_tx_confirmation_status info.offer.offer_id_hex
              (add_taker_info_and_move_table x info escrow db).1
            ≡ ok false)
  unfolding add_taker_info_and_move_table fetch_taker_bond_requirements
      fetch_escrow_output_information fetch_escrow_tx_confirmation_status
      fetch_and_delete_offer_from_public_offers_table
  add_taker_info_and_move_table-moves info escrow db {robohash} {row} h found =
      let id = info.offer.offer_id_hex in
      let kept =
        fetch-insert_self (Taken.offer_is id)
          (taken_row (awaiting_taker_offer x id row) robohash info escrow) db.taken_offers
          (str_eq_refl id) in
      rw (h, found)
        (
          refl,
          rw (fetch-delete_self (Orderbook.offer_is id) db.active_maker_offers) refl,
          rw kept refl,
          rw kept refl,
        )

  -- When the offer is in the orderbook and the taker's robohash is no hex text, the trade's start
  -- fails with the offer gone from the orderbook, and no trade has been added.
  pub add_taker_info_and_move_table-loses :
      (info : OfferPsbtRequest) (escrow : EscrowPsbt) (db : CoordinatorDb) {row : ActiveMakerOffer}
      → x.hex_decode info.trade_data.robohash_hex ≡ none
      → fetch_optional (Orderbook.offer_is info.offer.offer_id_hex) db.active_maker_offers
        ≡ some row
      → ((add_taker_info_and_move_table x info escrow db).0 ≡ err invalid_hex)
        × (fetch_taker_bond_requirements info.offer.offer_id_hex
              (add_taker_info_and_move_table x info escrow db).1
            ≡ err row_not_found)
        × ((add_taker_info_and_move_table x info escrow db).1.taken_offers ≡ db.taken_offers)
  unfolding add_taker_info_and_move_table fetch_taker_bond_requirements
      fetch_and_delete_offer_from_public_offers_table
  add_taker_info_and_move_table-loses info escrow db h found =
      rw (h, found)
        (
          refl,
          rw (fetch-delete_self (Orderbook.offer_is info.offer.offer_id_hex) db.active_maker_offers)
              refl,
          refl,
        )

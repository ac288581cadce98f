-- ===== src/Coordinator/Offers.antt =====
-- Creating, listing and taking offers (coordinator/mod.rs).
use taptrade_core.Prelude.{ℕ, ◌/◌, Option, none, some, List}
use taptrade_core.Prelude.Result.{
  Result, ok, err, Action, pure, lift, map_err, and_then, ◌>>=◌, ◌>>◌,
}
use taptrade_core.Prelude.Word.{add_u64, mul_u64}
use taptrade_core.Errors.{
  AnyError, BondError, invalid_bond, bond_not_found, FetchOffersError, no_offers_available,
}
use taptrade_core.Externals.{Externals}
use taptrade_core.Node.{Node}
use taptrade_core.Api.{
  OfferRequest, BondRequirementResponse, BondSubmissionRequest, OfferActivatedResponse,
  OffersRequest, PublicOffer, PublicOffers, OfferPsbtRequest, OfferTakenRequest, OfferTakenResponse,
}
use taptrade_core.Types.{EscrowPsbt}
use taptrade_core.Wallet.Bonds.{validate_bond_tx_hex}
use taptrade_core.Wallet.Escrow.{create_escrow_psbt}
use taptrade_core.Database.Requests.{insert_new_maker_request, fetch_bond_requirements}
use taptrade_core.Database.Orderbook.{
  move_offer_to_active, fetch_suitable_offers, fetch_taker_bond_requirements,
}
use taptrade_core.Database.Taken.{add_taker_info_and_move_table, fetch_escrow_output_information}
use taptrade_core.Coordinator.State.{Coordinator, on_db, query}

-- `absolute_tx_fee`, and the buffer
abbrev pub absolute_tx_fee : ℕ
absolute_tx_fee = 5000

-- (bond ratio * amount) / 100
unfoldable pub bond_amount : OfferRequest → Result AnyError ℕ
bond_amount offer = and_then (mul_u64 offer.bond_ratio offer.amount_satoshi) λ p. ok (p / 100)

-- bond + coordinator fee + absolute fee + buffer
unfoldable pub locking_input : ℕ → ℕ → Result AnyError ℕ
locking_input bond fee =
    and_then (add_u64 bond fee) λ a. and_then (add_u64 a absolute_tx_fee) λ b. add_u64 b 5000

abbrev pub no_offers : Option (List PublicOffer) → Result FetchOffersError PublicOffers
no_offers none = err no_offers_available
no_offers (some offers) = ok (record { offers = some offers })

abbrev pub taken_response : EscrowPsbt → OfferTakenResponse
taken_response e = record {
  escrow_psbt_hex = e.escrow_psbt_hex;
  escrow_output_descriptor = e.escrow_output_descriptor;
  escrow_amount_maker_sat = e.escrow_amount_maker_sat;
  escrow_amount_taker_sat = e.escrow_amount_taker_sat;
  escrow_fee_sat_per_participant = e.escrow_fee_sat_per_participant;
}

abbrev pub if_taken : Option EscrowPsbt → Result FetchOffersError OfferTakenResponse
if_taken (some e) = ok (taken_response e)
if_taken none = err no_offers_available

-- Every error of the query is `BondNotFound`.
abbrev pub as_not_found : AnyError → BondError
as_not_found e = bond_not_found

unfoldable pub get_public_offers : OffersRequest → Action Coordinator FetchOffersError PublicOffers
get_public_offers request = do
  offers ← query FetchOffersError.database (fetch_suitable_offers request)
  lift (no_offers offers)

unfoldable pub get_offer_status_maker :
    OfferTakenRequest → Action Coordinator FetchOffersError OfferTakenResponse
get_offer_status_maker payload = do
  escrow_psbt_data ←
      query FetchOffersError.database (fetch_escrow_output_information payload.offer_id_hex)
  lift (if_taken escrow_psbt_data)

module _ (x : Externals) (n : Node) where
  unfoldable pub bond_requirements_for : OfferRequest → Result AnyError BondRequirementResponse
  unfolding bond_amount locking_input
  bond_requirements_for offer = and_then (bond_amount offer) λ bond.
      and_then (locking_input bond (x.order_fee offer.amount_satoshi)) λ input.
        and_then n.get_address λ address. ok (record {
          bond_address = address;
          locking_amount_sat = bond;
          escrow_locking_input_amount_without_trade_sum = input;
        })

  unfoldable pub process_order : OfferRequest → Action Coordinator AnyError BondRequirementResponse
  unfolding bond_requirements_for
  process_order offer = do
    bond_requirements ← lift (bond_requirements_for offer)
    on_db (λ e. e) (insert_new_maker_request x offer bond_requirements)
    pure bond_requirements

  unfoldable pub handle_maker_bond :
      BondSubmissionRequest → Action Coordinator BondError OfferActivatedResponse
  handle_maker_bond payload = do
    bond_requirements ← query as_not_found (fetch_bond_requirements x payload.robohash_hex)
    lift (map_err invalid_bond (validate_bond_tx_hex x n payload.signed_bond_hex bond_requirements))
    new_taker_bond_address ← lift (map_err BondError.coordinator_error n.get_address)
    bond_locked_until_timestamp ←
        on_db BondError.coordinator_error
          (move_offer_to_active x payload n.random_order_id new_taker_bond_address)
    pure (record {
      offer_id_hex = n.random_order_id;
      bond_locked_until_timestamp = bond_locked_until_timestamp;
    })

  unfoldable pub handle_taker_bond :
      OfferPsbtRequest → Action Coordinator BondError OfferTakenResponse
  handle_taker_bond payload = do
    bond_requirements ←
        query as_not_found (fetch_taker_bond_requirements payload.offer.offer_id_hex)
    lift (
        map_err invalid_bond
          (validate_bond_tx_hex x n payload.trade_data.signed_bond_hex bond_requirements))
    escrow_output_data ← query BondError.coordinator_error (λ db. create_escrow_psbt x n db payload)
    on_db BondError.coordinator_error (add_taker_info_and_move_table x payload escrow_output_data)
    pure (taken_response escrow_output_data)

-- ===== src/Tests/Systems.antt =====
-- The theorems on the whole coordinator, and on the steps of a trade, at concrete inputs.
use taptrade_core.Prelude.{String, ◌≡◌, refl, true, false, some, none, List, [], ◌∷◌, str_eq}
use taptrade_core.Prelude.Result.{ok}
use taptrade_core.Api.{OfferTakenRequest}
use taptrade_core.Types.{PayoutData}
use taptrade_core.Sql.Rows.{All}
use taptrade_core.Database.Invariant.{IsValid}
use taptrade_core.Database.Tables.{TakenOffer}
use taptrade_core.Database.Requests.{fetch_bond_requirements}
use taptrade_core.Database.Taken.{offer_is}
use taptrade_core.Database.Orderbook.{fetch_taker_bond_requirements}
use taptrade_core.Coordinator.Offers.{handle_maker_bond, handle_taker_bond}
use taptrade_core.Coordinator.Trades.{handle_final_payout, payout_response}
use taptrade_core.Coordinator.Bonds.{
  TakesBond, handle_maker_bond-TakesBond, handle_taker_bond-TakesBond,
}
use taptrade_core.Coordinator.Progress.{assembled, assembled_for, handle_final_payout-assembles}
use taptrade_core.Node.{Node}
use taptrade_core.Coordinator.State.{Coordinator}
use taptrade_core.Http.{Request, serve}
use taptrade_core.Http.Answers.{status_only}
use taptrade_core.Monitor.Confirmations.{TxInfo}
use taptrade_core.System.Events.{Event, start, run}
use taptrade_core.System.Runs.{NoBond, Unpunished, run-IsValid, run-NoBond}
use taptrade_core.System.SellOffers.{sell_offers_hidden}
use taptrade_core.Tests.Data.{
  crates, node, order, bond_of, take_by, any_offer, coordinator, requested, listed_db, trading,
  happy_trade,
}
use taptrade_core.Musig.{
  new_from_strings, agg_hex_musig_nonces, get_keyspend_tweak_scalar,
  aggregate_musig_pubkeys_with_tweak,
}
use taptrade_core.Sql.{fetch_optional}
use taptrade_core.Wallet.Payout.{
  assemble_keyspend_payout_psbt, payout_plan, get_escrow_utxo, get_tx_fees_abs_sat,
}

-- an offer is made and its bond handed in; rounds of the tasks; the maker asks for a decision
abbrev pub events : List Event
events =
    Event.request node 50000 (Request.create_offer order)
    ∷ Event.request node 50010 (Request.submit_maker_bond (bond_of "m"))
    ∷ Event.bonds node none
    ∷ Event.request node 50020 (Request.submit_taker_bond (take_by "t"))
    ∷ Event.confirmations (λ t. true) (λ t. TxInfo.found (some 4))
    ∷ Event.request node 50030
        (Request.request_escrow (record { robohash_hex = "m"; offer_id_hex = "77" }))
    ∷ Event.verdicts ("M" ∷ [])
    ∷ Event.bonds node (some "0")
    ∷ []

run-IsValid_example : IsValid (run crates events start).db
run-IsValid_example = run-IsValid crates events

events-Unpunished : All Unpunished events
unfolding str_eq
events-Unpunished = (tt, (tt, (refl, (tt, (tt, (tt, (tt, (refl, tt))))))))

run-NoBond_example : NoBond (run crates events start).broadcasts
run-NoBond_example = run-NoBond crates events events-Unpunished

sell_offers_hidden_example :
    serve crates node 60000
      (Request.fetch_available_offers (any_offer false))
      (run crates events start)
    ≡ (some (status_only 204), run crates events start)
sell_offers_hidden_example = sell_offers_hidden crates events node 60000 (any_offer false) refl

handle_maker_bond-TakesBond_example :
    TakesBond crates node
      (fetch_bond_requirements crates "m" requested)
      "bond"
      (coordinator requested)
      (handle_maker_bond crates node (bond_of "m") (coordinator requested)).1
handle_maker_bond-TakesBond_example =
    handle_maker_bond-TakesBond crates node (bond_of "m") (coordinator requested)

handle_taker_bond-TakesBond_example :
    TakesBond crates node
      (fetch_taker_bond_requirements "77" listed_db)
      "bond"
      (coordinator listed_db)
      (handle_taker_bond crates node (take_by "t") (coordinator listed_db)).1
handle_taker_bond-TakesBond_example =
    handle_taker_bond-TakesBond crates node (take_by "t") (coordinator listed_db)

abbrev agreed : TakenOffer
agreed = record happy_trade { payout_transaction_psbt_hex = none }

abbrev poll : OfferTakenRequest
poll = record { robohash_hex = "t"; offer_id_hex = "77" }

abbrev payout : PayoutData
payout = record {
  escrow_output_descriptor = "tr";
  payout_address_maker = "payout";
  payout_address_taker = "payout";
  payout_amount_maker = 1100000;
  payout_amount_taker = 100000;
  agg_musig_nonce = "nonce";
  aggregated_musig_pubkey_ctx_hex = "musig";
}

handle_final_payout-assembles_example :
    (handle_final_payout crates node poll (coordinator (trading agreed)) ≡ (
      ok (payout_response "psbt" payout),
      assembled_for "77" "psbt" (coordinator (trading agreed)),
    ))
    × (fetch_optional
          (offer_is "77")
          (assembled_for "77" "psbt" (coordinator (trading agreed))).db.taken_offers
        ≡ some (assembled "psbt" agreed))
    × ((later_node : Node) (later : String) (c' : Coordinator)
        → fetch_optional (offer_is "77") c'.db.taken_offers ≡ some (assembled "psbt" agreed)
        → handle_final_payout crates later_node (record poll { robohash_hex = later }) c'
          ≡ (ok (payout_response "psbt" payout), c'))
unfolding new_from_strings agg_hex_musig_nonces get_keyspend_tweak_scalar
    aggregate_musig_pubkeys_with_tweak fetch_optional str_eq assemble_keyspend_payout_psbt
    payout_plan get_escrow_utxo get_tx_fees_abs_sat
handle_final_payout-assembles_example =
    handle_final_payout-assembles crates node poll (coordinator (trading agreed)) "psbt"
      {row = agreed} {payout = payout} refl refl refl refl refl refl refl

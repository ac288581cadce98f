-- ===== src/Tests/Protocols.antt =====
-- The refinement of the protocol of an offer at concrete inputs.
use taptrade_core.Prelude.{◌≡◌, refl, true, some, List, [], ◌∷◌}
use taptrade_core.Prelude.Result.{ok}
use taptrade_core.Node.{Node}
use taptrade_core.Http.{Request}
use taptrade_core.Database.Tables.{TakenOffer}
use taptrade_core.Monitor.Confirmations.{TxInfo}
use taptrade_core.Protocol.Updates.{row_of}
use taptrade_core.System.Events.{Event, start, run, happen}
use taptrade_core.Database.Bounds.{InBounds}
use taptrade_core.System.Sizes.{run-InBounds}
use taptrade_core.System.Refinement.{run-IsOrdered}
use taptrade_core.Prelude.{bytes_eq, str_eq}
use taptrade_core.Sql.{fetch_optional, insert_or_replace, delete, select, update}
use taptrade_core.Api.Validate.{validate}
use taptrade_core.Coordinator.Offers.{process_order, handle_maker_bond, handle_taker_bond}
use taptrade_core.Coordinator.Trades.{initiate_escrow, check_offer_and_confirmation}
use taptrade_core.Database.Requests.{insert_new_maker_request, fetch_bond_requirements}
use taptrade_core.Database.Orderbook.{move_offer_to_active, fetch_taker_bond_requirements}
use taptrade_core.Database.Taken.{
  add_taker_info_and_move_table, confirm_bond_txids, fetch_unconfirmed_escrow_txids,
  is_valid_robohash_in_table, fetch_escrow_tx_confirmation_status,
}
use taptrade_core.Database.Trade.{set_trader_happy_field}
use taptrade_core.Database.Payout.{fetch_maker_escrow_psbt_data, get_escrow_tx_amounts}
use taptrade_core.Wallet.Inputs.{csv_hex_to_bdk_input, input_sum, sum_inputs}
use taptrade_core.Wallet.Escrow.{create_escrow_psbt, escrow_plan, change_amount}
use taptrade_core.Wallet.Bonds.{
  validate_bond_tx_hex, validate_bonds, check_bonds, check_bond, check_amounts, tx_input_sum,
  sum_previous, previous_value, get_output, bond_output_sum, output_to, all_output_sum,
  test_mempool_accept_bonds, ask_chunks, chunks_of_25, chunks_from, rejected_bonds,
  lookup_mempool_inputs, mempool_bonds, spends_known, bond_id, extend,
}
use taptrade_core.Tests.Data.{
  crates, node, funding_tx, order, bond_of, take_by, trade, confirmed_trade, requested, listed_db,
  trading, coordinator,
}

-- a node on which the bond's input is worth two million satoshi
abbrev rich_node : Node
rich_node = record node {
  get_raw_tx = λ t. ok (
      some
        (record funding_tx { output = record { script_pubkey = "other"; value = 2000000 } ∷ [] }));
  new_tr = λ k t. ok "tr";
}

-- an offer is made, listed and taken; its escrow transaction is confirmed, and the maker complains
abbrev events : List Event
events =
    Event.request rich_node 50000 (Request.create_offer order)
    ∷ Event.request rich_node 50010 (Request.submit_maker_bond (bond_of "m"))
    ∷ Event.request rich_node 50020 (Request.submit_taker_bond (take_by "t"))
    ∷ Event.confirmations (λ t. true) (λ t. TxInfo.found (some 4))
    ∷ Event.request rich_node 50030
        (Request.request_escrow (record { robohash_hex = "m"; offer_id_hex = "77" }))
    ∷ []

abbrev disputed : TakenOffer
disputed = record trade { escrow_psbt_is_confirmed = 1; escrow_ongoing = 1 }

order_step :
    happen crates (Event.request rich_node 50000 (Request.create_offer order)) start
    ≡ coordinator requested
unfolding happen validate process_order insert_new_maker_request insert_or_replace
order_step = refl

bond_step :
    happen crates
      (Event.request rich_node 50010 (Request.submit_maker_bond (bond_of "m")))
      (coordinator requested)
    ≡ coordinator listed_db
unfolding happen handle_maker_bond fetch_bond_requirements fetch_optional move_offer_to_active
    insert_or_replace delete validate_bond_tx_hex validate_bonds check_bonds check_bond
    check_amounts tx_input_sum sum_previous previous_value get_output bond_output_sum output_to
    all_output_sum test_mempool_accept_bonds ask_chunks chunks_of_25 chunks_from rejected_bonds
    lookup_mempool_inputs mempool_bonds spends_known bond_id extend str_eq bytes_eq
bond_step = refl

taken_step :
    happen crates
      (Event.request rich_node 50020 (Request.submit_taker_bond (take_by "t")))
      (coordinator listed_db)
    ≡ coordinator (trading trade)
unfolding happen handle_taker_bond fetch_taker_bond_requirements fetch_optional create_escrow_psbt
    fetch_maker_escrow_psbt_data csv_hex_to_bdk_input get_escrow_tx_amounts escrow_plan input_sum
    sum_inputs change_amount add_taker_info_and_move_table insert_or_replace delete
    validate_bond_tx_hex validate_bonds check_bonds check_bond check_amounts tx_input_sum
    sum_previous previous_value get_output bond_output_sum output_to all_output_sum
    test_mempool_accept_bonds ask_chunks chunks_of_25 chunks_from rejected_bonds
    lookup_mempool_inputs mempool_bonds spends_known bond_id extend str_eq bytes_eq
taken_step = refl

confirmed_step :
    happen crates
      (Event.confirmations (λ t. true) (λ t. TxInfo.found (some 4)))
      (coordinator (trading trade))
    ≡ coordinator (trading confirmed_trade)
unfolding happen confirm_bond_txids fetch_unconfirmed_escrow_txids select update str_eq
confirmed_step = refl

complained_step :
    happen crates
      (Event.request rich_node 50030
        (Request.request_escrow (record { robohash_hex = "m"; offer_id_hex = "77" })))
      (coordinator (trading confirmed_trade))
    ≡ coordinator (trading disputed)
unfolding happen initiate_escrow check_offer_and_confirmation is_valid_robohash_in_table
    fetch_optional bytes_eq str_eq fetch_escrow_tx_confirmation_status set_trader_happy_field update
complained_step = refl

found_disputed : row_of "77" (run crates events start).db ≡ some disputed
unfolding run fetch_optional str_eq
found_disputed = rw (order_step, bond_step, taken_step, confirmed_step, complained_step) refl

run-IsOrdered_example : disputed.escrow_psbt_is_confirmed ≡ 1
run-IsOrdered_example = run-IsOrdered crates "77" events {row = disputed} found_disputed refl

run-InBounds_example : InBounds (run crates events start).db
run-InBounds_example = run-InBounds crates events

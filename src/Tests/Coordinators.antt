-- ===== src/Tests/Coordinators.antt =====
-- The theorems on the coordinator at concrete inputs.
use taptrade_core.Prelude.{◌≡◌, refl, Bool, true, false, some, str_eq, bytes_eq, arith}
use taptrade_core.Prelude.Result.{Result, ok}
use taptrade_core.Errors.{AnyError}
use taptrade_core.Api.{
  OfferTakenRequest, TradeObligationsUnsatisfied, PsbtSubmissionRequest, PayoutSignatureRequest,
  PayoutResponse,
}
use taptrade_core.Types.{TraderHappiness, not_ready, deciding_escrow}
use taptrade_core.Musig.{
  agg_hex_musig_nonces, get_keyspend_tweak_scalar, aggregate_musig_pubkeys_with_tweak,
  new_from_strings,
}
use taptrade_core.Sql.{fetch_optional}
use taptrade_core.Database.Requests.{fetch_bond_requirements}
use taptrade_core.Database.Taken.{
  is_valid_robohash_in_table, is_maker_in_taken_offers, fetch_escrow_tx_confirmation_status,
}
use taptrade_core.Database.Trade.{fetch_trader_happiness, set_trader_happy_field}
use taptrade_core.Database.Payout.{fetch_payout_data, fetch_keyspend_payout_psbt}
use taptrade_core.Coordinator.State.{Coordinator}
use taptrade_core.Coordinator.Trades.{
  check_offer_and_confirmation, handle_obligation_confirmation, initiate_escrow,
  handle_payout_signature, handle_signed_escrow_psbt, keyspend_payout, handle_final_payout,
}
use taptrade_core.Coordinator.Gates.{Cleared, Refused, gated}
use taptrade_core.Coordinator.Disputes.{asked, decided, dispute_forgotten}
use taptrade_core.Coordinator.Broadcasts.{
  EscrowOut, KeyspendOut, handle_signed_escrow_psbt-EscrowOut, handle_payout_signature-KeyspendOut,
}
use taptrade_core.Coordinator.Signed.{signed_and_sent, handle_signed_escrow_psbt-completes}
use taptrade_core.Wallet.Escrow.{combine_and_broadcast_escrow_psbt}
use taptrade_core.Coordinator.Payouts.{handle_final_payout-ready}
use taptrade_core.Coordinator.Orders.{Acceptable, requirements, serve-create_offer}
use taptrade_core.Http.{Request, serve}
use taptrade_core.Http.Answers.{json}
use taptrade_core.Http.Answers
use taptrade_core.Tests.Data.{
  crates, node, order, trade, confirmed_trade, happy_trade, trading, requested, coordinator,
}

abbrev confirmed : Coordinator
confirmed = coordinator (trading confirmed_trade)

-- The escrow transaction of the trade is not confirmed.
abbrev waiting : Coordinator
waiting = coordinator (trading trade)

not_confirmed_yet : ◌≡◌ {A = Result AnyError Bool} (ok false) (ok true) → ⊥
not_confirmed_yet e = cc

waiting-blocked : ¬ Cleared crates "77" "m" waiting
unfolding fetch_escrow_tx_confirmation_status fetch_optional str_eq
waiting-blocked c = not_confirmed_yet c.confirmed

gated_example :
    Refused crates "77" "m" waiting
      (handle_obligation_confirmation crates (record { offer_id_hex = "77"; robohash_hex = "m" }))
    × Refused crates "77" "m" waiting
        (initiate_escrow crates (record { offer_id_hex = "77"; robohash_hex = "m" }))
    × Refused crates "77" "m" waiting (
        handle_payout_signature crates node
          (record { partial_sig_hex = "sig"; offer_id_hex = "77"; robohash_hex = "m" }))
gated_example = gated crates node "77" "m" "sig" waiting waiting-blocked

abbrev complaint : TradeObligationsUnsatisfied
complaint = record { robohash_hex = "m"; offer_id_hex = "77" }

abbrev poll : OfferTakenRequest
poll = record { robohash_hex = "t"; offer_id_hex = "77" }

dispute_forgotten_example :
    (handle_final_payout crates node poll (asked crates node complaint confirmed)
      ≡ (ok deciding_escrow, asked crates node complaint confirmed))
    × (handle_final_payout crates node poll (decided crates node complaint "t" confirmed)
        ≡ (ok not_ready, decided crates node complaint "t" confirmed))
unfolding initiate_escrow check_offer_and_confirmation is_valid_robohash_in_table
    is_maker_in_taken_offers fetch_escrow_tx_confirmation_status set_trader_happy_field
    fetch_optional str_eq bytes_eq
dispute_forgotten_example =
    dispute_forgotten crates node complaint "t" "t" confirmed {row = confirmed_trade} refl refl refl

-- The taker's signed psbt is stored.
abbrev half_signed : Coordinator
half_signed = coordinator (trading (record trade { signed_escrow_psbt_hex_taker = some "other" }))

abbrev signed : PsbtSubmissionRequest
signed = record { signed_psbt_hex = "signed"; offer_id_hex = "77"; robohash_hex = "m" }

handle_signed_escrow_psbt-EscrowOut_example :
    EscrowOut crates node signed half_signed
      (handle_signed_escrow_psbt crates node signed half_signed).1
handle_signed_escrow_psbt-EscrowOut_example =
    handle_signed_escrow_psbt-EscrowOut crates node signed half_signed

handle_signed_escrow_psbt-completes_example :
    handle_signed_escrow_psbt crates node signed half_signed
    ≡ (ok tt, signed_and_sent crates node true signed "psbt" half_signed)
unfolding fetch_optional is_valid_robohash_in_table is_maker_in_taken_offers str_eq bytes_eq
    combine_and_broadcast_escrow_psbt
handle_signed_escrow_psbt-completes_example =
    handle_signed_escrow_psbt-completes crates node true signed half_signed "other" "psbt"
      {row = record trade { signed_escrow_psbt_hex_taker = some "other" }} refl refl refl refl refl
      refl

-- The payout psbt and the maker's partial signature are stored.
abbrev half_paid : Coordinator
half_paid = coordinator (trading (record happy_trade { musig_partial_sig_hex_maker = some "sig" }))

abbrev signature : PayoutSignatureRequest
signature = record { partial_sig_hex = "sig"; offer_id_hex = "77"; robohash_hex = "t" }

handle_payout_signature-KeyspendOut_example :
    KeyspendOut crates node signature half_paid
      (handle_payout_signature crates node signature half_paid).1
handle_payout_signature-KeyspendOut_example =
    handle_payout_signature-KeyspendOut crates node signature half_paid

abbrev handed_out : PayoutResponse
handed_out = record {
  payout_psbt_hex = "payout";
  agg_musig_nonce_hex = "nonce";
  agg_musig_pubkey_ctx_hex = "musig";
}

handle_final_payout-ready_example :
    (h : TraderHappiness) × (fetch_trader_happiness "77" (trading happy_trade) ≡ ok h)
    × (h.maker_happy ≡ some true)
    × (h.taker_happy ≡ some true)
unfolding handle_final_payout keyspend_payout fetch_trader_happiness fetch_payout_data
    fetch_keyspend_payout_psbt new_from_strings agg_hex_musig_nonces get_keyspend_tweak_scalar
    aggregate_musig_pubkeys_with_tweak fetch_optional str_eq
handle_final_payout-ready_example =
    handle_final_payout-ready crates node poll (coordinator (trading happy_trade)) handed_out refl

order-Acceptable : Acceptable 50000 order
order-Acceptable = record {
  amount_low = omega arith;
  amount_high = omega arith;
  ratio_low = omega arith;
  ratio_high = omega arith;
  not_too_soon = omega arith;
  not_too_late = omega arith;
}

serve-create_offer_example :
    ((serve crates node 50000 (Request.create_offer order) (coordinator requested)).0
      ≡ some (json (Answers.bond_requirements (requirements "bcrt1" 10000 order))))
    × (fetch_bond_requirements crates "m"
          (serve crates node 50000 (Request.create_offer order) (coordinator requested)).1.db
        ≡ ok (record {
          bond_address = "bcrt1";
          locking_amount_sat = 100000;
          min_input_sum_sat = 1000000;
        }))
serve-create_offer_example =
    serve-create_offer crates node 50000 order (coordinator requested) order-Acceptable refl refl
      (omega arith)

-- ===== src/Coordinator/Trades.antt =====
-- A taken offer: the escrow transaction, the traders' satisfaction and the payout
-- (coordinator/mod.rs, and `check_offer_and_confirmation` of coordinator/coordinator_utils.rs).
use taptrade_core.Prelude.{
  String, Bool, true, false, ◌&&◌, ◌||◌, not, Option, none, some, is_some, str_eq, if◌then◌else◌,
}
use taptrade_core.Prelude.Result.{ok, panic, Action, pure, fail, lift, map_err, ◌>>=◌, ◌>>◌}
use taptrade_core.Errors.{
  RequestError, not_confirmed, psbt_already_submitted, psbt_invalid, FetchEscrowConfirmationError,
}
use taptrade_core.Externals.{Externals}
use taptrade_core.Node.{Node}
use taptrade_core.Api.{
  OfferTakenRequest, PsbtSubmissionRequest, TradeObligationsUnsatisfied, PayoutSignatureRequest,
}
use taptrade_core.Types.{
  PayoutData, KeyspendContext, TraderHappiness, PayoutProcessingResult, ready_psbt, not_ready,
  lost_escrow, deciding_escrow,
}
use taptrade_core.Wallet.Escrow.{validate_escrow_init_psbt, combine_and_broadcast_escrow_psbt}
use taptrade_core.Wallet.Payout.{assemble_keyspend_payout_psbt, broadcast_keyspend_tx}
use taptrade_core.Database.Taken.{
  is_valid_robohash_in_table, fetch_escrow_tx_confirmation_status, insert_signed_escrow_psbt,
  fetch_both_signed_escrow_psbts,
}
use taptrade_core.Database.Trade.{
  set_trader_happy_field, fetch_trader_happiness, fetch_escrow_result, toggle_processing,
  delete_complete_offer,
}
use taptrade_core.Database.Payout.{
  fetch_payout_data, fetch_keyspend_payout_psbt, insert_keyspend_payout_psbt, insert_partial_sig,
  fetch_keyspend_payout_information,
}
use taptrade_core.Coordinator.State.{Coordinator, Broadcast, on_db, query, sent}

-- `match … { Ok(false) => return Err(e), Ok(true) => () }`
abbrev pub or_fail : {E : Type 0} → Bool → E → Action Coordinator E (Unit {0})
or_fail true e = pure tt
or_fail false e = fail e

abbrev pub payout_response : String → PayoutData → PayoutProcessingResult
payout_response psbt payout = ready_psbt (record {
  payout_psbt_hex = psbt;
  agg_musig_nonce_hex = payout.agg_musig_nonce;
  agg_musig_pubkey_ctx_hex = payout.aggregated_musig_pubkey_ctx_hex;
})

-- `is_some_and(|x| x)`
abbrev pub is_happy : Option Bool → Bool
is_happy none = false
is_happy (some b) = b

abbrev pub both_happy : TraderHappiness → Bool
both_happy h = is_happy h.maker_happy && is_happy h.taker_happy

abbrev pub undecided : TraderHappiness → Bool
undecided h = (not (is_some h.maker_happy) || not (is_some h.taker_happy)) && not h.escrow_ongoing

-- The payout to the winner is not implemented: the source panics.
abbrev pub escrow_verdict :
    String → Option String → Action Coordinator RequestError PayoutProcessingResult
escrow_verdict robohash_hex (some escrow_winner) =
    lift (if str_eq escrow_winner robohash_hex then panic else ok lost_escrow)
escrow_verdict robohash_hex none = pure deciding_escrow

module _ (x : Externals) where
  unfoldable pub fetch_escrow_confirmation_status :
      OfferTakenRequest → Action Coordinator FetchEscrowConfirmationError Bool
  fetch_escrow_confirmation_status payload = do
    valid ←
        query FetchEscrowConfirmationError.database
          (is_valid_robohash_in_table x payload.robohash_hex payload.offer_id_hex)
    or_fail valid FetchEscrowConfirmationError.not_found
    query FetchEscrowConfirmationError.database
        (fetch_escrow_tx_confirmation_status payload.offer_id_hex)

  unfoldable pub check_offer_and_confirmation :
      String → String → Action Coordinator RequestError (Unit {0})
  check_offer_and_confirmation offer_id_hex robohash_hex = do
    valid ← query RequestError.database (is_valid_robohash_in_table x robohash_hex offer_id_hex)
    or_fail valid RequestError.not_found
    confirmed ← query RequestError.database (fetch_escrow_tx_confirmation_status offer_id_hex)
    or_fail confirmed not_confirmed

  unfoldable pub handle_obligation_confirmation :
      OfferTakenRequest → Action Coordinator RequestError (Unit {0})
  handle_obligation_confirmation payload = do
    check_offer_and_confirmation payload.offer_id_hex payload.robohash_hex
    on_db RequestError.database
        (set_trader_happy_field x payload.offer_id_hex payload.robohash_hex true)

  unfoldable pub initiate_escrow :
      TradeObligationsUnsatisfied → Action Coordinator RequestError (Unit {0})
  initiate_escrow payload = do
    check_offer_and_confirmation payload.offer_id_hex payload.robohash_hex
    on_db RequestError.database
        (set_trader_happy_field x payload.offer_id_hex payload.robohash_hex false)

module _ (x : Externals) (n : Node) where
  -- if both signed parts are there, they are combined and broadcast
  abbrev pub combine_if_both : Option (String × String) → Action Coordinator RequestError (Unit {0})
  combine_if_both none = pure tt
  combine_if_both (some (maker_psbt, taker_psbt)) = do
    tx ← lift (map_err psbt_invalid (combine_and_broadcast_escrow_psbt x n maker_psbt taker_psbt))
    sent (Broadcast.escrow tx)

  unfoldable pub handle_signed_escrow_psbt :
      PsbtSubmissionRequest → Action Coordinator RequestError (Unit {0})
  handle_signed_escrow_psbt payload = do
    valid ←
        query RequestError.database
          (is_valid_robohash_in_table x payload.robohash_hex payload.offer_id_hex)
    or_fail valid RequestError.not_found
    lift (map_err psbt_invalid (validate_escrow_init_psbt x n payload.signed_psbt_hex))
    inserted ← on_db RequestError.database (insert_signed_escrow_psbt x payload)
    or_fail inserted psbt_already_submitted
    psbts ← query RequestError.database (fetch_both_signed_escrow_psbts payload.offer_id_hex)
    combine_if_both psbts

  -- the payout psbt: the stored one, or a new one made under the `processing` flag
  abbrev pub assemble_payout :
      String → PayoutData → Bool → Action Coordinator RequestError PayoutProcessingResult
  assemble_payout offer_id payout false = pure not_ready
  assemble_payout offer_id payout true = do
    psbt ← lift (map_err RequestError.coordinator_error (assemble_keyspend_payout_psbt n payout))
    on_db RequestError.database (insert_keyspend_payout_psbt offer_id psbt)
    again ← on_db RequestError.database (toggle_processing offer_id)
    pure (payout_response psbt payout)

  abbrev pub stored_or_assembled :
      String → PayoutData → Option String → Action Coordinator RequestError PayoutProcessingResult
  stored_or_assembled offer_id payout (some psbt) = pure (payout_response psbt payout)
  stored_or_assembled offer_id payout none = do
    acquired ← on_db RequestError.database (toggle_processing offer_id)
    assemble_payout offer_id payout acquired

  -- both traders are happy
  unfoldable pub keyspend_payout : String → Action Coordinator RequestError PayoutProcessingResult
  keyspend_payout offer_id = do
    escrow_payout_data ← query RequestError.database (fetch_payout_data x offer_id)
    payout_psbt ← query RequestError.database (fetch_keyspend_payout_psbt offer_id)
    stored_or_assembled offer_id escrow_payout_data payout_psbt

  -- at least one is not
  unfoldable pub disputed_payout :
      OfferTakenRequest → Action Coordinator RequestError PayoutProcessingResult
  disputed_payout payload = do
    potential_escrow_winner ← query RequestError.database (fetch_escrow_result payload.offer_id_hex)
    escrow_verdict payload.robohash_hex potential_escrow_winner

  unfoldable pub handle_final_payout :
      OfferTakenRequest → Action Coordinator RequestError PayoutProcessingResult
  handle_final_payout payload = do
    trader_happiness ← query RequestError.database (fetch_trader_happiness payload.offer_id_hex)
    if both_happy trader_happiness
        then keyspend_payout payload.offer_id_hex
        else (if undecided trader_happiness then pure not_ready else disputed_payout payload)

  abbrev pub finish_payout : String → Option KeyspendContext → Action Coordinator RequestError Bool
  finish_payout offer_id none = pure false
  finish_payout offer_id (some context) = do
    tx ← lift (map_err RequestError.coordinator_error (broadcast_keyspend_tx n context))
    sent (Broadcast.keyspend tx)
    on_db RequestError.database (delete_complete_offer offer_id)
    pure true

  unfoldable pub handle_payout_signature :
      PayoutSignatureRequest → Action Coordinator RequestError Bool
  handle_payout_signature payload = do
    check_offer_and_confirmation x payload.offer_id_hex payload.robohash_hex
    on_db RequestError.database
        (insert_partial_sig x payload.partial_sig_hex payload.offer_id_hex payload.robohash_hex)
    keyspend_information ←
        query RequestError.database (fetch_keyspend_payout_information x payload.offer_id_hex)
    finish_payout payload.offer_id_hex keyspend_information

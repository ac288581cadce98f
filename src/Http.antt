-- ===== src/Http.antt =====
-- The HTTP interface of the coordinator (communication/mod.rs): what each endpoint answers. A
-- handler that panics ends its connection without an answer, `none`.
pub mod Answers
use taptrade_core.Prelude.{ℕ, String, Bool, true, false, Option, none, some, not, if◌then◌else◌}
use taptrade_core.Prelude.Result.{Result, ok, err, panic, Action, pure, ◌>>=◌}
use taptrade_core.Errors.{
  AnyError, BondError, FetchOffersError, FetchEscrowConfirmationError, RequestError,
}
use taptrade_core.Externals.{Externals}
use taptrade_core.Node.{Node}
use taptrade_core.Api.{
  OfferRequest, BondSubmissionRequest, OffersRequest, OfferPsbtRequest, OfferTakenRequest,
  PsbtSubmissionRequest, TradeObligationsUnsatisfied, PayoutSignatureRequest,
}
use taptrade_core.Api.Validate.{validate}
use taptrade_core.Coordinator.State.{Coordinator}
use taptrade_core.Coordinator.Offers.{
  process_order, handle_maker_bond, get_public_offers, handle_taker_bond, get_offer_status_maker,
}
use taptrade_core.Coordinator.Trades.{
  fetch_escrow_confirmation_status, handle_signed_escrow_psbt, handle_obligation_confirmation,
  initiate_escrow, handle_final_payout, handle_payout_signature,
}
use Answers.{
  Response, answer, order_answer, maker_bond_answer, offers_answer, taker_bond_answer,
  offer_status_answer, escrow_psbt_answer, confirmation_answer, obligation_answer, payout_answer,
  signature_answer, bad_request,
}

-- the routes that take a request
pub data Request : Type 0 where
  create_offer : OfferRequest → Request
  submit_maker_bond : BondSubmissionRequest → Request
  fetch_available_offers : OffersRequest → Request
  submit_taker_bond : OfferPsbtRequest → Request
  request_offer_status : OfferTakenRequest → Request
  submit_escrow_psbt : PsbtSubmissionRequest → Request
  poll_escrow_confirmation : OfferTakenRequest → Request
  submit_obligation_confirmation : OfferTakenRequest → Request
  request_escrow : TradeObligationsUnsatisfied → Request
  poll_final_payout : OfferTakenRequest → Request
  submit_payout_signature : PayoutSignatureRequest → Request

module _ (x : Externals) (n : Node) where
  unfoldable pub receive_order : ℕ → OfferRequest → Coordinator → Option Response × Coordinator
  receive_order now offer c =
      if not (validate now offer)
      then (some bad_request, c)
      else answer order_answer (process_order x n offer) c

  -- A request at the time `now`.
  unfoldable pub serve : ℕ → Request → Coordinator → Option Response × Coordinator
  unfolding receive_order
  serve now (create_offer r) = receive_order now r
  serve now (submit_maker_bond r) = answer maker_bond_answer (handle_maker_bond x n r)
  serve now (fetch_available_offers r) = answer offers_answer (get_public_offers r)
  serve now (submit_taker_bond r) = answer taker_bond_answer (handle_taker_bond x n r)
  serve now (request_offer_status r) = answer offer_status_answer (get_offer_status_maker r)
  serve now (submit_escrow_psbt r) = answer escrow_psbt_answer (handle_signed_escrow_psbt x n r)
  serve now (poll_escrow_confirmation r) =
      answer confirmation_answer (fetch_escrow_confirmation_status x r)
  serve now (submit_obligation_confirmation r) =
      answer obligation_answer (handle_obligation_confirmation x r)
  serve now (request_escrow r) = answer obligation_answer (initiate_escrow x r)
  serve now (poll_final_payout r) = answer payout_answer (handle_final_payout x n r)
  serve now (submit_payout_signature r) = answer signature_answer (handle_payout_signature x n r)

-- ===== src/Http/Answers.antt =====
-- The responses, by the outcome of each handler (communication/mod.rs).
use taptrade_core.Prelude.{ℕ, Bool, true, false, Option, none, some}
use taptrade_core.Prelude.Result.{Result, ok, err, panic, Action}
use taptrade_core.Errors.{
  AnyError, BondError, FetchOffersError, FetchEscrowConfirmationError, RequestError,
}
use taptrade_core.Api.{
  BondRequirementResponse, OfferActivatedResponse, PublicOffers, OfferTakenResponse, PayoutResponse,
}
use taptrade_core.Types.{PayoutProcessingResult}
use taptrade_core.Coordinator.State.{Coordinator}

pub data Body : Type 0 where
  empty : Body
  error_text : AnyError → Body
  bond_requirements : BondRequirementResponse → Body
  offer_activated : OfferActivatedResponse → Body
  public_offers : PublicOffers → Body
  offer_taken : OfferTakenResponse → Body
  payout : PayoutResponse → Body

pub record Response : Type 0 where
  pub status : ℕ
  pub body : Body

-- `StatusCode::….into_response()`
abbrev pub status_only : ℕ → Response
status_only s = record { status = s; body = empty }

-- `Json(…).into_response()`
abbrev pub json : Body → Response
json b = record { status = 200; body = b }

abbrev pub bad_request : Response
bad_request = status_only 400

abbrev pub with_result :
    {E A : Type 0}
    → (Result E A → Response)
    → Result E A × Coordinator
    → Option Response × Coordinator
with_result f (ok a, c) = (some (f (ok a)), c)
with_result f (err e, c) = (some (f (err e)), c)
with_result f (panic, c) = (none, c)

abbrev pub answer :
    {E A : Type 0}
    → (Result E A → Response)
    → Action Coordinator E A
    → Coordinator
    → Option Response × Coordinator
answer f m c = with_result f (m c)

-- An `AppError` is answered by 500 and its text.
abbrev pub order_answer : Result AnyError BondRequirementResponse → Response
order_answer (ok r) = json (bond_requirements r)
order_answer (err e) = record { status = 500; body = error_text e }
order_answer panic = status_only 500

abbrev pub bond_error_status : BondError → ℕ
bond_error_status BondError.bond_not_found = 404
bond_error_status (BondError.invalid_bond e) = 406
bond_error_status (BondError.coordinator_error e) = 500

abbrev pub maker_bond_answer : Result BondError OfferActivatedResponse → Response
maker_bond_answer (ok r) = json (offer_activated r)
maker_bond_answer (err e) = status_only (bond_error_status e)
maker_bond_answer panic = status_only 500

abbrev pub taker_bond_answer : Result BondError OfferTakenResponse → Response
taker_bond_answer (ok r) = json (offer_taken r)
taker_bond_answer (err e) = status_only (bond_error_status e)
taker_bond_answer panic = status_only 500

abbrev pub offers_error_status : FetchOffersError → ℕ
offers_error_status FetchOffersError.no_offers_available = 204
offers_error_status (FetchOffersError.database e) = 500

abbrev pub offers_answer : Result FetchOffersError PublicOffers → Response
offers_answer (ok r) = json (public_offers r)
offers_answer (err e) = status_only (offers_error_status e)
offers_answer panic = status_only 500

abbrev pub offer_status_answer : Result FetchOffersError OfferTakenResponse → Response
offer_status_answer (ok r) = json (offer_taken r)
offer_status_answer (err e) = status_only (offers_error_status e)
offer_status_answer panic = status_only 500

abbrev pub escrow_psbt_answer : Result RequestError (Unit {0}) → Response
escrow_psbt_answer (ok _) = status_only 200
escrow_psbt_answer (err RequestError.psbt_already_submitted) = status_only 500
escrow_psbt_answer (err (RequestError.psbt_invalid e)) = status_only 406
escrow_psbt_answer _ = status_only 500

abbrev pub confirmation_answer : Result FetchEscrowConfirmationError Bool → Response
confirmation_answer (ok true) = status_only 200
confirmation_answer (ok false) = status_only 202
confirmation_answer (err FetchEscrowConfirmationError.not_found) = status_only 404
confirmation_answer (err (FetchEscrowConfirmationError.database e)) = status_only 500
confirmation_answer panic = status_only 500

-- of `submit_obligation_confirmation` and `request_escrow`
abbrev pub obligation_answer : Result RequestError (Unit {0}) → Response
obligation_answer (ok _) = status_only 200
obligation_answer (err RequestError.not_found) = status_only 404
obligation_answer (err RequestError.not_confirmed) = status_only 406
obligation_answer (err (RequestError.database e)) = status_only 500
obligation_answer _ = status_only 500

abbrev pub payout_result_answer : PayoutProcessingResult → Response
payout_result_answer PayoutProcessingResult.not_ready = status_only 202
payout_result_answer PayoutProcessingResult.lost_escrow = status_only 410
payout_result_answer (PayoutProcessingResult.ready_psbt p) = json (payout p)
payout_result_answer PayoutProcessingResult.deciding_escrow = status_only 201

abbrev pub payout_answer : Result RequestError PayoutProcessingResult → Response
payout_answer (ok r) = payout_result_answer r
payout_answer (err RequestError.not_confirmed) = status_only 406
payout_answer (err RequestError.not_found) = status_only 404
payout_answer (err (RequestError.database e)) = status_only 500
payout_answer (err (RequestError.coordinator_error e)) = status_only 500
payout_answer _ = status_only 500

abbrev pub signature_answer : Result RequestError Bool → Response
signature_answer (ok true) = status_only 200
signature_answer (ok false) = status_only 202
signature_answer _ = status_only 500

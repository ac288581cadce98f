-- ===== src/Trader/Requests.antt =====
-- What the trader asks the coordinator and what it makes of the answers (communication/mod.rs,
-- communication/taker_requests.rs). Its requests and answers are the records of the coordinator's
-- interface, which both programs spell alike up to the names of some of the types.
use taptrade_core.Prelude.{String, not, ◌&&◌, Option, none, some, List, ◌==◌, if◌then◌else◌}
use taptrade_core.Errors.{AnyError, external}
use taptrade_core.Api.{
  OfferRequest, BondRequirementResponse, BondSubmissionRequest, OfferActivatedResponse,
  OffersRequest, PublicOffer, PublicOffers, OfferTakenResponse, OfferTakenRequest, PayoutResponse,
}
use taptrade_core.Http.{Request}
use taptrade_core.Http.Answers.{Body, Response}
use taptrade_core.Trader.Settings.{TraderSettings, TraderWallet, value, is_buy_order}
use taptrade_core.Trader.Session.{
  Outcome, done, failed, panicked, Program, Verdict, again, finish, stop, present, post, poll_until,
  ◌>>=◌, waiting,
}

-- `res.json::<T>()`: the body, when it is the text of a `T`
abbrev pub json_bond_requirements : Body → Option BondRequirementResponse
json_bond_requirements (Body.bond_requirements r) = some r
json_bond_requirements _ = none

abbrev pub json_offer_activated : Body → Option OfferActivatedResponse
json_offer_activated (Body.offer_activated r) = some r
json_offer_activated _ = none

abbrev pub json_public_offers : Body → Option PublicOffers
json_public_offers (Body.public_offers r) = some r
json_public_offers _ = none

abbrev pub json_offer_taken : Body → Option OfferTakenResponse
json_offer_taken (Body.offer_taken r) = some r
json_offer_taken _ = none

abbrev pub json_payout : Body → Option PayoutResponse
json_payout (Body.payout r) = some r
json_payout _ = none

-- an answer with any other status than 200 is an error
abbrev pub expect_ok : String → Response → Program (Unit {0})
expect_ok text res = if res.status == 200 then stop (done tt) else stop (failed (external text))

-- the decoded value, or the error of its decoding
abbrev pub decoded : {A : Type 0} → Option A → Outcome A
decoded (some a) = done a
decoded none = failed (external "json")

abbrev pub format_order_request : TraderSettings → OfferRequest
format_order_request t = record {
  robohash_hex = t.robosats_robohash_hex;
  amount_satoshi = value t.trade_type;
  is_buy_order = is_buy_order t.trade_type;
  bond_ratio = t.bond_ratio;
  offer_duration_ts = t.duration_unix_ts;
}

-- The status is not looked at, only the body.
unfoldable pub fetch_requirements : TraderSettings → Program BondRequirementResponse
fetch_requirements t = do
  res ← post (Request.create_offer (format_order_request t))
  present (json_bond_requirements res.body) (external "Error fetching bond requirements")

unfoldable pub send_maker : BondSubmissionRequest → Program OfferActivatedResponse
send_maker bond = do
  res ← post (Request.submit_maker_bond bond)
  present (json_offer_activated res.body) (external "Error submitting maker bond")

-- the robot's request about an offer: `OfferTakenRequest`, `IsOfferReadyRequest` and
-- `TradeObligationsSatisfied`
abbrev pub about : TraderSettings → String → OfferTakenRequest
about t offer_id_hex = record {
  robohash_hex = t.robosats_robohash_hex;
  offer_id_hex = offer_id_hex;
}

-- what `OfferTakenResponse::check` makes of an answer; 204 is not taken yet
unfoldable pub taken_verdict : Response → Verdict OfferTakenResponse
taken_verdict res =
    if res.status == 200
    then finish (decoded (json_offer_taken res.body))
    else if res.status == 204
    then again
    else finish (failed (external "Offer status polling returned"))

unfoldable pub submit_escrow_psbt : TraderSettings → String → String → Program (Unit {0})
submit_escrow_psbt t psbt_hex offer_id_hex = do
  res ← post (
      Request.submit_escrow_psbt (record {
        signed_psbt_hex = psbt_hex;
        offer_id_hex = offer_id_hex;
        robohash_hex = t.robosats_robohash_hex;
      }))
  expect_ok "Submitting escrow psbt failed" res

-- `TradeObligationsSatisfied::submit`
unfoldable pub submit_satisfied : TraderSettings → String → Program (Unit {0})
submit_satisfied t offer_id_hex = do
  res ← post (Request.submit_obligation_confirmation (about t offer_id_hex))
  expect_ok "Submitting trade obligations confirmation failed" res

-- `IsOfferReadyRequest::poll`
unfoldable pub ready_verdict : Response → Verdict (Unit {0})
ready_verdict res =
    if res.status == 200
    then finish (done tt)
    else if not (res.status == 202)
    then finish (failed (external "Requesting offer status when waiting on other party failed"))
    else again

unfoldable pub poll : TraderSettings → String → Program (Unit {0})
unfolding ready_verdict
poll t offer_id_hex =
    poll_until (Request.poll_escrow_confirmation (about t offer_id_hex)) ready_verdict

abbrev pub lost_escrow_error : AnyError
lost_escrow_error = external "We lost the escrow, your bond is gone"

abbrev pub payout_failed_error : AnyError
payout_failed_error = external "Requesting final payout when waiting on other party failed"

-- the loop of `poll_payout`
unfoldable pub payout_verdict : Response → Verdict Response
payout_verdict res =
    if res.status == 200
    then finish (done res)
    else if res.status == 202
    then again
    else if res.status == 201
    then again
    else if not (res.status == 410)
    then finish (failed lost_escrow_error)
    else finish (failed payout_failed_error)

-- the psbt, the aggregated nonce and the key aggregation context
unfoldable pub poll_payout :
    TraderWallet → TraderSettings → String → Program (String × String × String)
unfolding payout_verdict
poll_payout w t offer_id_hex = do
  res ← poll_until (Request.poll_final_payout (about t offer_id_hex)) payout_verdict
  payout ← stop (decoded (json_payout res.body))
  final_psbt ← present (w.parse_psbt_hex payout.payout_psbt_hex) (external "psbt")
  agg_nonce ←
      present (w.parse_agg_nonce payout.agg_musig_nonce_hex) (external "Error parsing agg nonce")
  agg_pubk_ctx ←
      present (w.parse_key_agg payout.agg_musig_pubkey_ctx_hex)
        (external "Error parsing agg pubkey ctx")
  stop (done (final_psbt, agg_nonce, agg_pubk_ctx))

unfoldable pub request_escrow : TraderSettings → String → Program (Unit {0})
request_escrow t offer_id_hex = do
  res ← post (
      Request.request_escrow
        (record { robohash_hex = t.robosats_robohash_hex; offer_id_hex = offer_id_hex }))
  expect_ok "Submitting trade obligations unsatisfied failed" res

-- `PayoutSignatureRequest::send`
unfoldable pub send_signature : TraderSettings → String → String → Program (Unit {0})
send_signature t signature offer_id_hex = do
  res ← post (
      Request.submit_payout_signature (record {
        partial_sig_hex = signature;
        offer_id_hex = offer_id_hex;
        robohash_hex = t.robosats_robohash_hex;
      }))
  if not (res.status == 200) && not (res.status == 202)
      then stop (failed (external "Submitting trade obligations unsatisfied failed"))
      else stop (done tt)

-- A buyer looks for offers that are no buy orders, and a seller for buy orders.
abbrev pub offers_request : TraderWallet → TraderSettings → OffersRequest
offers_request w t = record {
  buy_offers = not (is_buy_order t.trade_type);
  amount_min_sat = w.lower_amount (value t.trade_type);
  amount_max_sat = w.upper_amount (value t.trade_type);
}

-- what `PublicOffers::fetch` makes of an answer
unfoldable pub fetched_offers : Response → Outcome PublicOffers
fetched_offers res =
    if res.status == 204
    then done (record { offers = none })
    else decoded (json_public_offers res.body)

-- the loop of `run_taker` around it: an answer without offers is asked for again
abbrev pub offers_verdict : Response → Verdict (List PublicOffer)
offers_verdict res = elim (fetched_offers res) [
  | done p ↦ elim p.offers [ none ↦ again | some offers ↦ finish (done offers) ]
  | failed e ↦ finish (failed e)
  | panicked ↦ finish panicked
  | waiting ↦ finish waiting
]

unfoldable pub taker_request : PublicOffer → BondSubmissionRequest → Program OfferTakenResponse
taker_request offer trade_data = do
  res ← post (Request.submit_taker_bond (record { offer = offer; trade_data = trade_data }))
  if res.status == 200
      then stop (decoded (json_offer_taken res.body))
      else stop (failed (external "Taker bond rejected"))

-- ===== src/Trader/Flows.antt =====
-- The whole of a trade, as its maker and as its taker (trading/mod.rs, wallet/mod.rs).
use taptrade_core.Prelude.{ℕ, zero, suc, String, Option, none, some, List, [], ◌∷◌, if◌then◌else◌}
use taptrade_core.Prelude.Parse.{parse_unsigned, trim}
use taptrade_core.Prelude.Result.{Result, ok, err, and_then, ok_or}
use taptrade_core.Errors.{AnyError, external}
use taptrade_core.Api.{PublicOffer}
use taptrade_core.Http.{Request}
use taptrade_core.Trader.Settings.{TraderSettings, TraderWallet}
use taptrade_core.Trader.Nonce.{MuSigData, get_sec_for_signing}
use taptrade_core.Trader.Requests.{
  submit_escrow_psbt, submit_satisfied, poll, poll_payout, request_escrow, send_signature,
  offers_request, offers_verdict,
}
use taptrade_core.Trader.Offers.{
  ActiveOffer, create, take, wait_until_taken, validate_escrow_psbt, validate_payout_psbt,
  sign_escrow_psbt, fiat_confirmation_cli_input,
}
use taptrade_core.Trader.Session.{
  Outcome, done, panicked, waiting, Program, stop, lift, present, poll_until, ◌>>=◌, ◌>>◌,
  continue_with, outcome,
}

-- the text of a partial signature, unless it is zero
abbrev signature_text : Option String → Result AnyError String
signature_text (some sig) = ok sig
signature_text none = err (external "keyspend sig maybe scalar is Zero")

-- the offer with the index, which panics out of bounds
abbrev pub offer_at : List PublicOffer → ℕ → Outcome PublicOffer
offer_at [] i = panicked
offer_at (o ∷ os) zero = done o
offer_at (o ∷ os) (suc i) = offer_at os i

module _ (w : TraderWallet) where
  unfoldable pub create_keyspend_payout_signature :
      String → String → String → MuSigData → Result AnyError String
  unfolding get_sec_for_signing
  create_keyspend_payout_signature payout_psbt key_agg_context agg_pub_nonce musig =
      and_then (w.keyspend_sighash payout_psbt) λ msg.
        and_then (get_sec_for_signing w musig.nonce) λ secret_nonce.
          and_then (w.sign_partial key_agg_context musig.secret_key secret_nonce agg_pub_nonce msg)
            signature_text

  -- after the trader has confirmed: the wait for the payout, its signature and its submission
  abbrev pub close_trade : TraderSettings → ActiveOffer → Program (Unit {0})
  close_trade t offer = do
    submit_satisfied t offer.offer_id_hex
    payout ← poll_payout w t offer.offer_id_hex
    lift (validate_payout_psbt w payout.0)
    signature ←
        lift (create_keyspend_payout_signature payout.0 payout.2 payout.1 offer.used_musig_config)
    send_signature t signature offer.offer_id_hex

  -- the maker's escrow psbt, from the offer's taking to the confirmation of the transaction
  abbrev pub lock_escrow : TraderSettings → ActiveOffer → Program (Unit {0})
  lock_escrow t offer = do
    escrow_psbt_requirements ← wait_until_taken w t offer
    escrow_psbt ← present (w.parse_psbt escrow_psbt_requirements.escrow_psbt_hex) (external "psbt")
    lift (validate_escrow_psbt w escrow_psbt)
    signed_escrow_psbt ← lift (sign_escrow_psbt w escrow_psbt)
    submit_escrow_psbt t (w.psbt_hex signed_escrow_psbt) offer.offer_id_hex
    poll t offer.offer_id_hex

  abbrev pub mediate : TraderSettings → ActiveOffer → Program (Unit {0})
  mediate t offer = do
    request_escrow t offer.offer_id_hex
    escrow_payout_script_psbt ← poll_payout w t offer.offer_id_hex
    stop (done tt)

  unfoldable pub run_maker : TraderSettings → Program (Unit {0})
  unfolding create_keyspend_payout_signature
  run_maker maker_config = do
    offer ← create w maker_config
    lock_escrow maker_config offer
    satisfied ← fiat_confirmation_cli_input
    if satisfied then close_trade maker_config offer else mediate maker_config offer

  -- `ask_user_to_select`; the index is a `usize` of 64 bits
  abbrev pub ask_user_to_select : List PublicOffer → Program PublicOffer
  ask_user_to_select offers s = elim s.lines [
    | [] ↦ (waiting, s)
    | line ∷ later ↦
        continue_with
          (outcome (ok_or (parse_unsigned 64 (trim line)) (external "Wrong index entered")))
          (record s { lines = later }) (λ index. stop (offer_at offers index))
  ]

  unfoldable pub run_taker : TraderSettings → Program (Unit {0})
  unfolding create_keyspend_payout_signature
  run_taker taker_config = do
    available_offers ←
        poll_until (Request.fetch_available_offers (offers_request w taker_config)) offers_verdict
    selected_offer ← ask_user_to_select available_offers
    accepted_offer ← take w taker_config selected_offer
    poll taker_config accepted_offer.offer_id_hex
    satisfied ← fiat_confirmation_cli_input
    if satisfied then close_trade taker_config accepted_offer else stop panicked

-- ===== src/Trader/Offers.antt =====
-- An offer that the trader makes or takes (trading/maker_utils.rs, trading/taker_utils.rs,
-- trading/utils.rs, wallet/bond.rs, wallet/mod.rs).
use taptrade_core.Prelude.{
  ℕ, String, Bool, true, false, ◌||◌, Option, none, some, List, [], ◌∷◌, str_eq, if◌then◌else◌,
}
use taptrade_core.Prelude.Parse.{trim}
use taptrade_core.Prelude.Result.{Result, ok, err, and_then, ok_or}
use taptrade_core.Prelude.Word.{add_u64}
use taptrade_core.Errors.{AnyError, external}
use taptrade_core.Api.{
  BondRequirementResponse, BondSubmissionRequest, PublicOffer, OfferTakenResponse,
}
use taptrade_core.Http.{Request}
use taptrade_core.Trader.Settings.{OfferType, TraderSettings, TraderWallet, value, is_buy_order}
use taptrade_core.Trader.Nonce
use taptrade_core.Trader.Nonce.{MuSigData, get_pub_for_sharing}
use taptrade_core.Trader.Inputs.{get_escrow_psbt_inputs}
use taptrade_core.Trader.Requests.{
  about, fetch_requirements, send_maker, taken_verdict, submit_escrow_psbt, taker_request,
}
use taptrade_core.Trader.Session.{
  done, waiting, Program, stop, lift, present, poll_until, ◌>>=◌, ◌>>◌,
}

pub record ActiveOffer : Type 0 where
  pub offer_id_hex : String
  pub used_musig_config : MuSigData
  pub used_bond : String
  pub expected_payout_address : String
  pub escrow_psbt : Option String
  pub escrow_change_address : String
  pub psbt_inputs_hex_csv : String

-- the sum that the inputs for the escrow have to cover
unfoldable pub input_amount : OfferType → BondRequirementResponse → Result AnyError ℕ
input_amount t conditions =
    if is_buy_order t
    then ok conditions.escrow_locking_input_amount_without_trade_sum
    else add_u64 conditions.escrow_locking_input_amount_without_trade_sum (value t)

module _ (w : TraderWallet) where
  abbrev finalized_bond : Bool × String → Result AnyError String
  finalized_bond (true, psbt) = ok psbt
  finalized_bond (false, psbt) = err (external "Transaction could not be finalized")

  -- `Bond::assemble`
  unfoldable pub assemble : BondRequirementResponse → TraderSettings → Result AnyError String
  assemble bond_target trader_input =
      and_then (ok_or (w.parse_address bond_target.bond_address) (external "address")) λ address.
        and_then (ok_or (w.regtest_address address) (external "network")) λ checked.
          and_then
            (w.build_bond (value trader_input.trade_type) (w.script_pubkey checked)
              bond_target.locking_amount_sat)
            λ psbt. and_then (w.sign psbt) finalized_bond

  -- the bond, the musig data and the payout address
  unfoldable pub trade_onchain_assembly :
      BondRequirementResponse → TraderSettings → Result AnyError (String × MuSigData × String)
  unfolding assemble
  trade_onchain_assembly offer_conditions trader_config =
      and_then (assemble offer_conditions trader_config) λ bond.
        and_then w.payout_address λ payout_address.
          and_then (Nonce.create w) λ musig_data. ok (bond, musig_data, payout_address)

  -- The request that hands in a bond, and the musig data after its nonce has been shared.
  unfoldable pub bond_submission :
      TraderSettings
      → String
      → MuSigData
      → String
      → String × String
      → Result AnyError BondSubmissionRequest × MuSigData
  unfolding get_pub_for_sharing
  bond_submission t bond musig payout_address (inputs, change_address) =
      let (shared, nonce) = get_pub_for_sharing w musig.nonce in
      (
        and_then shared λ musig_pub_nonce_hex. ok (record {
          robohash_hex = t.robosats_robohash_hex;
          signed_bond_hex = w.bond_tx_hex bond;
          payout_address = payout_address;
          taproot_pubkey_hex = w.taproot_pubkey;
          musig_pub_nonce_hex = musig_pub_nonce_hex;
          musig_pubkey_hex = musig.public_key;
          bdk_psbt_inputs_hex_csv = inputs;
          client_change_address = change_address;
        }),
        record musig { nonce = nonce },
      )

  -- `ActiveOffer::create`
  unfoldable pub create : TraderSettings → Program ActiveOffer
  unfolding trade_onchain_assembly input_amount bond_submission
  create maker_config = do
    offer_conditions ← fetch_requirements maker_config
    assembled ← lift (trade_onchain_assembly offer_conditions maker_config)
    amount ← lift (input_amount maker_config.trade_type offer_conditions)
    inputs ← lift (get_escrow_psbt_inputs w amount)
    bond ← lift (bond_submission maker_config assembled.0 assembled.1 assembled.2 inputs).0
    submission_result ← send_maker bond
    stop (
        done (record {
          offer_id_hex = submission_result.offer_id_hex;
          used_musig_config =
              (bond_submission maker_config assembled.0 assembled.1 assembled.2 inputs).1;
          used_bond = assembled.0;
          expected_payout_address = assembled.2;
          escrow_psbt = none;
          escrow_change_address = inputs.1;
          psbt_inputs_hex_csv = inputs.0;
        }))

  unfoldable pub wait_until_taken : TraderSettings → ActiveOffer → Program OfferTakenResponse
  wait_until_taken t offer =
      poll_until (Request.request_offer_status (about t offer.offer_id_hex)) taken_verdict

  -- placeholders, as in the source
  abbrev pub validate_escrow_psbt : String → Result AnyError (Unit {0})
  validate_escrow_psbt psbt = ok tt

  abbrev pub validate_payout_psbt : String → Result AnyError (Unit {0})
  validate_payout_psbt psbt = ok tt

  -- the psbt with the trader's inputs signed
  unfoldable pub sign_escrow_psbt : String → Result AnyError String
  sign_escrow_psbt psbt = and_then (w.sign psbt) λ (final, signed). ok signed

  -- `ActiveOffer::take`
  unfoldable pub take : TraderSettings → PublicOffer → Program ActiveOffer
  unfolding trade_onchain_assembly input_amount bond_submission sign_escrow_psbt
  take taker_config offer = do
    assembled ← lift (trade_onchain_assembly offer.bond_requirements taker_config)
    amount ← lift (input_amount taker_config.trade_type offer.bond_requirements)
    inputs ← lift (get_escrow_psbt_inputs w amount)
    bond ← lift (bond_submission taker_config assembled.0 assembled.1 assembled.2 inputs).0
    escrow_contract_requirements ← taker_request offer bond
    escrow_psbt ←
        present (w.parse_psbt escrow_contract_requirements.escrow_psbt_hex) (external "psbt")
    lift (validate_escrow_psbt escrow_psbt)
    signed_psbt ← lift (sign_escrow_psbt escrow_psbt)
    submit_escrow_psbt taker_config (w.psbt_hex signed_psbt) offer.offer_id_hex
    stop (
        done (record {
          offer_id_hex = offer.offer_id_hex;
          used_musig_config =
              (bond_submission taker_config assembled.0 assembled.1 assembled.2 inputs).1;
          used_bond = assembled.0;
          expected_payout_address = assembled.2;
          escrow_psbt = some signed_psbt;
          escrow_change_address = inputs.1;
          psbt_inputs_hex_csv = inputs.0;
        }))

-- what a trimmed line says: `y` or `Y` confirms, `M` asks for mediation
abbrev pub says_yes : String → Bool
says_yes line = str_eq line "y" || str_eq line "Y"

-- the answer, and the lines after it
unfoldable pub confirmation : List String → Option (Bool × List String)
confirmation [] = none
confirmation (line ∷ lines) =
    let next = confirmation lines in
    if says_yes (trim line)
    then some (true, lines)
    else if str_eq (trim line) "M"
    then some (false, lines)
    else next

abbrev pub confirmed : Option (Bool × List String) → Program Bool
confirmed none s = (waiting, record s { lines = [] })
confirmed (some (satisfied, later)) s = (done satisfied, record s { lines = later })

-- The same lines are read whichever the trade is; only the prompt differs.
unfoldable pub fiat_confirmation_cli_input : Program Bool
unfolding confirmation
fiat_confirmation_cli_input s = confirmed (confirmation s.lines) s

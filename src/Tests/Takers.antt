-- ===== src/Tests/Takers.antt =====
-- A taker who asks for mediation.
use taptrade_core.Prelude.{◌≡◌, refl, Option, some, List, [], ◌∷◌, str_eq}
use taptrade_core.Api.{PublicOffer}
use taptrade_core.Http.Answers.{Body, Response, status_only, json}
use taptrade_core.Trader.Session.{panicked, poll_on}
use taptrade_core.Trader.Nonce
use taptrade_core.Trader.Nonce.{generate, get_pub_for_sharing}
use taptrade_core.Trader.Inputs.{select_utxos, get_escrow_psbt_inputs, join_comma}
use taptrade_core.Trader.Requests.{
  fetched_offers, taker_request, submit_escrow_psbt, poll, ready_verdict,
}
use taptrade_core.Trader.Offers.{
  confirmation, fiat_confirmation_cli_input, take, input_amount, bond_submission, assemble,
  trade_onchain_assembly, sign_escrow_psbt,
}
use taptrade_core.Trader.Cli.{CliSettings, load_wallet, start_trade_pipeline}
use taptrade_core.Trader.Flows.{run_taker}
use taptrade_core.Prelude.Parse.{parse_unsigned, trim, trim_start, trim_end}
use taptrade_core.Trader.Consent.{Unconfirmed, NoneConsents}
use taptrade_core.Trader.Taking.{start_trade_pipeline-NoneConsents}
use taptrade_core.Tests.Traders.{buyer, session}
use taptrade_core.Tests.Prompts.{machine}

abbrev shown_offer : PublicOffer
shown_offer = record {
  amount_sat = 1000000;
  offer_id_hex = "77";
  bond_requirements = record {
    bond_address = "bcrt1";
    locking_amount_sat = 100000;
    escrow_locking_input_amount_without_trade_sum = 120000;
  };
}

-- the coordinator's answers to a taker up to the confirmation of the escrow
abbrev answers : List (Option Response)
answers =
    some (status_only 204)
    ∷ some (json (Body.public_offers (record { offers = some (shown_offer ∷ []) })))
    ∷ some (
        json (
          Body.offer_taken (record {
            escrow_psbt_hex = "psbt";
            escrow_output_descriptor = "tr";
            escrow_amount_maker_sat = 1100000;
            escrow_amount_taker_sat = 100000;
            escrow_fee_sat_per_participant = 10000;
          })))
    ∷ some (status_only 200)
    ∷ some (status_only 200)
    ∷ []

mediation-Unconfirmed : Unconfirmed ("M" ∷ [])
unfolding confirmation str_eq trim trim_start trim_end
mediation-Unconfirmed later e = cc

start_trade_pipeline-NoneConsents_example :
    NoneConsents
      (start_trade_pipeline machine (CliSettings.taker buyer) (session answers ("0" ∷ "M" ∷ []))).1
start_trade_pipeline-NoneConsents_example =
    start_trade_pipeline-NoneConsents machine (CliSettings.taker buyer)
      (session answers ("0" ∷ "M" ∷ [])) mediation-Unconfirmed tt

-- A taker who asks for mediation ends the program, which has no such request for a taker.
no_mediation :
    (start_trade_pipeline machine (CliSettings.taker buyer) (session answers ("0" ∷ "M" ∷ []))).0
    ≡ panicked
unfolding start_trade_pipeline load_wallet run_taker poll_on fetched_offers parse_unsigned take
    trade_onchain_assembly assemble input_amount get_escrow_psbt_inputs select_utxos join_comma
    bond_submission get_pub_for_sharing generate Nonce.create taker_request sign_escrow_psbt
    submit_escrow_psbt poll ready_verdict fiat_confirmation_cli_input confirmation str_eq trim
    trim_start trim_end
no_mediation = refl

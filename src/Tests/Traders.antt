-- ===== src/Tests/Traders.antt =====
-- The theorems on the trader's program at concrete inputs.
use taptrade_core.Prelude.{
  ◌+◌, ◌-◌, ◌≡◌, refl, String, true, false, Option, none, some, List, [], ◌∷◌, ◌++◌, map, arith,
  inr,
}
use taptrade_core.Prelude.Result.{ok, panic}
use taptrade_core.Api.{PublicOffer, BondSubmissionRequest}
use taptrade_core.Wallet.Inputs.{sum_inputs, input_sum}
use taptrade_core.Wallet.Escrow.{change_amount}
use taptrade_core.Types.{EscrowPsbtConstructionData}
use taptrade_core.Http.{Request, serve}
use taptrade_core.Http.Answers.{Body, Response, status_only, json}
use taptrade_core.Coordinator.Orders.{Acceptable}
use taptrade_core.System.Events.{start, run}
use taptrade_core.Trader.Settings.{buy, sell, TraderSettings, TraderWallet, Utxo}
use taptrade_core.Trader.Session.{failed, Session, again}
use taptrade_core.Trader.Nonce
use taptrade_core.Trader.Nonce.{MuSigData, get_pub_for_sharing, generate}
use taptrade_core.Trader.Inputs.{select_utxos, get_escrow_psbt_inputs, join_comma}
use taptrade_core.Trader.Requests.{
  about, poll, poll_payout, payout_failed_error, offers_request, offers_verdict,
  format_order_request, fetch_requirements, send_maker,
}
use taptrade_core.Trader.Offers.{
  ActiveOffer, input_amount, create, trade_onchain_assembly, assemble, bond_submission,
}
use taptrade_core.Trader.Polling.{polled, poll_outcome, poll_lem, poll_payout-failed}
use taptrade_core.Trader.Selection.{Selection, chosen, select_utxos-Selection}
use taptrade_core.Trader.Funds.{maker_can_pay, taker_falls_short}
use taptrade_core.Trader.Buyers.{buyers_wait}
use taptrade_core.Trader.Sharing.{Spent, create-shares}
use taptrade_core.Tests.Data.{crates, node, side}

abbrev pub coins : List Utxo
coins =
    record { outpoint = "a"; txout_value = 600000 }
    ∷ record { outpoint = "b"; txout_value = 900000 }
    ∷ record { outpoint = "c"; txout_value = 5000 }
    ∷ []

abbrev pub wallet : TraderWallet
wallet = record {
  parse_address = λ s. some s;
  regtest_address = λ s. some s;
  script_pubkey = λ s. s;
  build_bond = λ v s a. ok "bond";
  sign = λ p. ok (true, p);
  payout_address = ok "payout";
  change_address = ok "change";
  bond_tx_hex = λ p. p;
  new_nonce = ok "secret";
  public_nonce = λ s. "public";
  keypair = ok ("pk", "sk");
  taproot_pubkey = "pk";
  list_unspent = ok coins;
  psbt_input_hex = λ u. ok u.outpoint;
  parse_psbt = λ s. some s;
  parse_psbt_hex = λ s. some s;
  psbt_hex = λ s. s;
  parse_agg_nonce = λ s. some s;
  parse_key_agg = λ s. some s;
  keyspend_sighash = λ s. ok s;
  sign_partial = λ a b c d e. ok (some e);
  lower_amount = λ a. a - a;
  upper_amount = λ a. a + a;
}

abbrev seller : TraderSettings
seller = record {
  electrum_endpoint = "tcp://localhost:50001";
  coordinator_endpoint = "http://127.0.0.1:9999";
  robosats_robohash_hex = "m";
  payout_address = "tb1p";
  wallet_xprv = "tprv";
  trade_type = sell 1000000;
  bond_ratio = 10;
  duration_unix_ts = 100000;
}

abbrev pub buyer : TraderSettings
buyer = record seller { trade_type = buy 1000000 }

abbrev pub session : List (Option Response) → List String → Session
session answers lines = record { answers = answers; lines = lines; requests = [] }

poll_lem_example :
    poll seller "77" (
      session
        (map some (status_only 202 ∷ status_only 202 ∷ []) ++ (some (status_only 200) ∷ []))
        [])
    ≡ (
      poll_outcome 200,
      polled
          (status_only 202 ∷ status_only 202 ∷ [])
          (Request.poll_escrow_confirmation (about seller "77"))
          []
          (session [] []),
    )
poll_lem_example =
    poll_lem seller "77" (status_only 202 ∷ status_only 202 ∷ []) (status_only 200) []
      (session [] []) (refl, (refl, tt)) (omega arith)

poll_payout-failed_example :
    poll_payout wallet seller "77"
      (session (map some (status_only 201 ∷ []) ++ (some (status_only 410) ∷ [])) [])
    ≡ (
      failed payout_failed_error,
      polled
          (status_only 201 ∷ [])
          (Request.poll_final_payout (about seller "77"))
          []
          (session [] []),
    )
poll_payout-failed_example =
    poll_payout-failed wallet seller "77" (status_only 201 ∷ []) (status_only 410) []
      (session [] []) (inr refl, tt) (omega arith) (omega arith) (omega arith)

-- the coordinator's answers to a maker up to the confirmation of the escrow
abbrev answers : List (Option Response)
answers =
    some (
      json (
        Body.bond_requirements (record {
          bond_address = "bcrt1";
          locking_amount_sat = 100000;
          escrow_locking_input_amount_without_trade_sum = 120000;
        })))
    ∷ some (
        json (
          Body.offer_activated
            (record { offer_id_hex = "77"; bond_locked_until_timestamp = 100000 })))
    ∷ some (status_only 204)
    ∷ some (
        json (
          Body.offer_taken (record {
            escrow_psbt_hex = "psbt";
            escrow_output_descriptor = "tr";
            escrow_amount_maker_sat = 1100000;
            escrow_amount_taker_sat = 100000;
            escrow_fee_sat_per_participant = 10000;
          })))
    ∷ some (status_only 200)
    ∷ some (status_only 200)
    ∷ some (status_only 200)
    ∷ []

select_utxos-Selection_example : Selection 1120000 coins (
    map chosen (
      (record { outpoint = "a"; txout_value = 600000 }, "a")
      ∷ (record { outpoint = "b"; txout_value = 900000 }, "b")
      ∷ []))
unfolding select_utxos
select_utxos-Selection_example =
    select_utxos-Selection wallet 1120000 coins (omega arith)
      (omega arith, (omega arith, (omega arith, tt))) refl

seller-Acceptable : Acceptable 50000 (format_order_request seller)
seller-Acceptable = record {
  amount_low = omega arith;
  amount_high = omega arith;
  ratio_low = omega arith;
  ratio_high = omega arith;
  not_too_soon = omega arith;
  not_too_late = omega arith;
}

maker_can_pay_example : change_amount side 1100000 10000 ≡ ok 1885000
unfolding input_amount input_sum sum_inputs
maker_can_pay_example =
    maker_can_pay crates 50000 seller "bcrt1" side 10000 {asked = 1120000} {sum = 3000000}
      seller-Acceptable refl refl (omega arith) (omega arith) (omega arith)

-- an offer as the orderbook shows it
abbrev shown : PublicOffer
shown = record {
  amount_sat = 1000000;
  offer_id_hex = "77";
  bond_requirements = record {
    bond_address = "bcrt1";
    locking_amount_sat = 100000;
    escrow_locking_input_amount_without_trade_sum = 100000;
  };
}

abbrev poor : EscrowPsbtConstructionData
poor = record side {
  escrow_input_utxos = record { witness_utxo_value = some 1100000; utxo = "utxo" } ∷ [];
}

taker_falls_short_example : change_amount poor 1100000 10000 ≡ panic
unfolding input_amount input_sum sum_inputs
taker_falls_short_example =
    taker_falls_short seller shown poor 10000 {asked = 1100000} refl refl refl refl

buyers_wait_example :
    (res : Response) × ((serve crates node 60000
        (Request.fetch_available_offers (offers_request wallet buyer))
        (run crates [] start)).0
      ≡ some res)
    × (offers_verdict res ≡ again)
buyers_wait_example = buyers_wait crates [] node 60000 wallet buyer refl

abbrev made : ActiveOffer
made = record {
  offer_id_hex = "77";
  used_musig_config = record {
    nonce = record {
      secret_nonce = "secret";
      accessed_for_signing = false;
      accessed_for_sharing = true;
    };
    public_key = "pk";
    secret_key = "sk";
  };
  used_bond = "bond";
  expected_payout_address = "payout";
  escrow_psbt = none;
  escrow_change_address = "change";
  psbt_inputs_hex_csv = "a,b";
}

create-shares_example :
    (bond : BondSubmissionRequest) × (earlier : List Request) × ((create wallet seller
        (session answers [])).1.requests
      ≡ Request.submit_maker_bond bond ∷ earlier)
    × (bond.musig_pub_nonce_hex ≡ wallet.public_nonce made.used_musig_config.nonce.secret_nonce)
    × Spent wallet made.used_musig_config.nonce
unfolding create fetch_requirements trade_onchain_assembly assemble input_amount bond_submission
    get_escrow_psbt_inputs select_utxos join_comma send_maker generate Nonce.create
    get_pub_for_sharing
create-shares_example = create-shares wallet seller (session answers []) {offer = made} refl

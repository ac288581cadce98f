-- ===== src/Tests/Data.antt =====
-- A small trade for the tests: crates and a node with simple answers, and a row of each table. The
-- hex decoding takes the code of the first character and refuses a text that starts with `z`.
use Prim.Native.Char.{code}
use taptrade_core.Prelude.{
  ◌/◌, ◌==◌, String, Bool, true, false, Option, none, some, [], ◌∷◌, Bytes, if◌then◌else◌,
}
use taptrade_core.Prelude.Result.{ok}
use taptrade_core.Externals.{Externals}
use taptrade_core.Node.{Node, Transaction}
use taptrade_core.Api.{
  OfferRequest, BondRequirementResponse, BondSubmissionRequest, OfferPsbtRequest, OffersRequest,
}
use taptrade_core.Types.{EscrowPsbt, PsbtInput, EscrowPsbtConstructionData}
use taptrade_core.Database.Tables.{CoordinatorDb, MakerRequest, ActiveMakerOffer, TakenOffer}
use taptrade_core.Database.Requests.{request_row, awaiting_bond_offer}
use taptrade_core.Database.Orderbook.{active_row, public_offer, awaiting_taker_offer}
use taptrade_core.Database.Taken.{taken_row}
use taptrade_core.Coordinator.State.{Coordinator}

abbrev pub decode : String → Option Bytes
decode String.[] = some []
decode (String.◌∷◌ c s) = if code c == b'z' then none else some (code c ∷ [])

abbrev pub input : PsbtInput
input = record { witness_utxo_value = some 3000000; utxo = "utxo" }

abbrev pub crates : Externals
crates = record {
  hex_decode = decode;
  hex_encode = λ b. "m";
  null_int = 0;
  null_text = "";
  order_fee = λ a. a / 100;
  escrow_fee = λ a. a / 100;
  psbt_input = λ b. some input;
  parse_descriptor = λ s. some s;
  taproot_tweak = λ s. some s;
  musig_scalar = λ s. some s;
  musig_pubkey = λ s. some s;
  key_agg = λ a b. some a;
  with_tweak = λ a b. some a;
  key_agg_hex = λ s. s;
  pub_nonce = λ s. some s;
  sum_nonces = λ a b. a;
  parse_address = λ s. some s;
  regtest_address = λ s. some s;
  parse_psbt = λ b. some "psbt";
  partial_sig = λ s. some s;
  keyspend_sighash = λ s. some s;
  aggregate_sigs = λ a b c d e. some c;
}

-- 110000 sat in, 100000 sat to the bond address, 10000 sat of fee on 50 virtual bytes
abbrev pub bond_tx : Transaction
bond_tx = record {
  txid = "bond";
  input = record { txid = "funding"; vout = 0 } ∷ [];
  output = record { script_pubkey = "bcrt1"; value = 100000 } ∷ [];
  vsize = 50;
}

abbrev pub funding_tx : Transaction
funding_tx = record {
  txid = "funding";
  input = [];
  output = record { script_pubkey = "other"; value = 110000 } ∷ [];
  vsize = 100;
}

abbrev pub node : Node
node = record {
  get_address = ok "bcrt1";
  taproot_pk = ok "pk";
  random_order_id = "77";
  parse_tx = λ b. some bond_tx;
  verify_tx = λ t. ok tt;
  get_raw_tx = λ t. ok (some funding_tx);
  get_tx = λ t. ok none;
  script_pubkey = λ a. a;
  test_mempool_accept = λ l. ok [];
  utxo_set = λ o. false;
  sha256 = λ b. b;
  broadcast = λ t. ok tt;
  aggregate_musig_pubkeys = λ a b. ok a;
  new_tr = λ k t. ok k;
  descriptor_address = λ d. ok d;
  build_tx = λ p. ok ("psbt", "txid");
  combine = λ a b. some a;
  finalize_psbt = λ p. ok (true, p);
  extract_tx = λ p. p;
  list_unspent = λ d. ok (input ∷ []);
  estimated_fee = some 1001;
  fallback_fee = 5600;
  sign_keyspend = λ p s. ok p;
}

abbrev pub order : OfferRequest
order = record {
  robohash_hex = "m";
  amount_satoshi = 1000000;
  is_buy_order = true;
  bond_ratio = 10;
  offer_duration_ts = 100000;
}

abbrev pub bond_response : BondRequirementResponse
bond_response = record {
  bond_address = "bcrt1";
  locking_amount_sat = 100000;
  escrow_locking_input_amount_without_trade_sum = 120000;
}

abbrev pub bond_of : String → BondSubmissionRequest
bond_of robohash_hex = record {
  robohash_hex = robohash_hex;
  signed_bond_hex = "bond";
  payout_address = "payout";
  taproot_pubkey_hex = "pk";
  musig_pub_nonce_hex = "nonce";
  musig_pubkey_hex = "musig";
  bdk_psbt_inputs_hex_csv = "inputs";
  client_change_address = "change";
}

abbrev pub request : MakerRequest
request = request_row (109 ∷ []) order bond_response

abbrev pub offer : ActiveMakerOffer
offer = active_row "77" (109 ∷ []) (awaiting_bond_offer crates request) (bond_of "m") "bcrt1"

abbrev pub take_by : String → OfferPsbtRequest
take_by robohash_hex = record { offer = public_offer offer; trade_data = bond_of robohash_hex }

abbrev pub escrow : EscrowPsbt
escrow = record {
  escrow_psbt_hex = "psbt";
  escrow_tx_txid = "txid";
  escrow_output_descriptor = "tr";
  coordinator_xonly_escrow_pk = "pk";
  escrow_amount_maker_sat = 100000;
  escrow_amount_taker_sat = 1100000;
  escrow_fee_sat_per_participant = 10000;
}

abbrev pub trade : TakenOffer
trade = taken_row (awaiting_taker_offer crates "77" offer) (116 ∷ []) (take_by "t") escrow

abbrev pub confirmed_trade : TakenOffer
confirmed_trade = record trade { escrow_psbt_is_confirmed = 1 }

-- both traders are happy, and the payout psbt is stored
abbrev pub happy_trade : TakenOffer
happy_trade = record confirmed_trade {
  maker_happy = some 1;
  taker_happy = some 1;
  payout_transaction_psbt_hex = some "payout";
}

abbrev pub requested : CoordinatorDb
requested = record { maker_requests = request ∷ []; active_maker_offers = []; taken_offers = [] }

abbrev pub listed_db : CoordinatorDb
listed_db = record { maker_requests = []; active_maker_offers = offer ∷ []; taken_offers = [] }

abbrev pub trading : TakenOffer → CoordinatorDb
trading t = record { maker_requests = []; active_maker_offers = []; taken_offers = t ∷ [] }

abbrev pub coordinator : CoordinatorDb → Coordinator
coordinator db = record { db = db; broadcasts = [] }

abbrev pub any_offer : Bool → OffersRequest
any_offer buy_offers = record {
  buy_offers = buy_offers;
  amount_min_sat = 10000;
  amount_max_sat = 20000000;
}

abbrev pub side : EscrowPsbtConstructionData
side = record {
  taproot_xonly_pubkey_hex = "pk";
  escrow_input_utxos = input ∷ [];
  change_address = "change";
  musig_pubkey_compressed_hex = "musig";
}

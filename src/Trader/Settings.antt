-- ===== src/Trader/Settings.antt =====
-- The trader's settings (cli/mod.rs), and what its bdk wallet and the musig2 crate answer.
use taptrade_core.Prelude.{ℕ, String, Bool, true, false, Option, List}
use taptrade_core.Prelude.Result.{Result}
use taptrade_core.Errors.{AnyError}

pub data OfferType : Type 0 where
  buy sell : ℕ → OfferType

abbrev pub value : OfferType → ℕ
value (buy v) = v
value (sell v) = v

abbrev pub is_buy_order : OfferType → Bool
is_buy_order (buy v) = true
is_buy_order (sell v) = false

pub record TraderSettings : Type 0 where
  pub electrum_endpoint : String
  pub coordinator_endpoint : String
  pub robosats_robohash_hex : String
  pub trade_type : OfferType
  pub payout_address : String
  pub bond_ratio : ℕ
  pub wallet_xprv : String
  pub duration_unix_ts : ℕ

-- `LocalUtxo`, by the value of its output
pub record Utxo : Type 0 where
  pub outpoint : String
  pub txout_value : ℕ

-- Psbts, transactions, keys and nonces are their texts.
pub record TraderWallet : Type 0 where
  -- `Address::from_str`, `require_network(Regtest)` and `script_pubkey`
  pub parse_address : String → Option String
  pub regtest_address : String → Option String
  pub script_pubkey : String → String
  -- the builder of the bond: the value for the coin selection, the script and the amount
  pub build_bond : ℕ → String → ℕ → Result AnyError String
  -- `wallet.sign`: is the psbt final, and the psbt
  pub sign : String → Result AnyError (Bool × String)
  -- the addresses that `get_address(AddressIndex::New)` gives for payout and change
  pub payout_address : Result AnyError String
  pub change_address : Result AnyError String
  -- `extract_tx` and `serialize_hex`
  pub bond_tx_hex : String → String
  -- the secret nonce of `SecNonceBuilder`, and `public_nonce`
  pub new_nonce : Result AnyError String
  pub public_nonce : String → String
  -- the key pair of the xprv
  pub keypair : Result AnyError (String × String)
  pub taproot_pubkey : String
  -- the unspent outputs after a sync, and `get_psbt_input` of one, serialized
  pub list_unspent : Result AnyError (List Utxo)
  pub psbt_input_hex : Utxo → Result AnyError String
  -- `PartiallySignedTransaction::from_str`, and `deserialize` of hex
  pub parse_psbt : String → Option String
  pub parse_psbt_hex : String → Option String
  pub psbt_hex : String → String
  -- `AggNonce::from_str` and `KeyAggContext::from_hex`
  pub parse_agg_nonce : String → Option String
  pub parse_key_agg : String → Option String
  -- the message that a payout psbt has to be signed for
  pub keyspend_sighash : String → Result AnyError String
  -- `musig2::sign_partial` of context, secret key, secret nonce, nonce and message; `none` is zero
  pub sign_partial : String → String → String → String → String → Result AnyError (Option String)
  -- the bounds of the amounts that a taker asks for
  pub lower_amount : ℕ → ℕ
  pub upper_amount : ℕ → ℕ

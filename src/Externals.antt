-- ===== src/Externals.antt =====
-- What the coordinator takes from crates, SQLite and floating-point arithmetic. Library values
-- (keys, nonces, addresses, transactions) are kept in their text form; `none` is a refusal.
use taptrade_core.Prelude.{ℕ, String, Option, Bytes}
use taptrade_core.Types.{PsbtInput}

pub record Externals : Type 0 where
  -- `hex::decode` and `hex::encode`
  pub hex_decode : String → Option Bytes
  pub hex_encode : Bytes → String
  -- what sqlx's SQLite driver reads from a NULL column as a plain integer, and as a plain `String`
  pub null_int : ℕ
  pub null_text : String
  -- `((coordinator_feerate * amount as f64) / 100.0) as u64`, as `process_order` computes it
  pub order_fee : ℕ → ℕ
  -- `(amount as f64 * (coordinator_feerate / 100.0)) as u64`, as `get_escrow_tx_amounts` does
  pub escrow_fee : ℕ → ℕ
  -- `bincode::deserialize` of a `PsbtInput`
  pub psbt_input : Bytes → Option PsbtInput
  -- `Descriptor::from_str`; the tweak of its tree, for a taproot descriptor
  pub parse_descriptor : String → Option String
  pub taproot_tweak : String → Option String
  -- `Scalar::from_be_bytes` of musig2
  pub musig_scalar : String → Option String
  -- `MuSig2PubKey::from_str`
  pub musig_pubkey : String → Option String
  -- `KeyAggContext::new`, `with_tweak` and `to_bytes` as hex
  pub key_agg : String → String → Option String
  pub with_tweak : String → String → Option String
  pub key_agg_hex : String → String
  -- `MusigPubNonce::from_hex` and `AggNonce::sum`
  pub pub_nonce : String → Option String
  pub sum_nonces : String → String → String
  -- `Address::from_str`, and `require_network(Regtest)` of its result
  pub parse_address : String → Option String
  pub regtest_address : String → Option String
  -- `PartiallySignedTransaction::deserialize`
  pub parse_psbt : Bytes → Option String
  -- `PartialSignature::from_hex`
  pub partial_sig : String → Option String
  -- the taproot key spend signature hash of the first input
  pub keyspend_sighash : String → Option String
  -- `musig2::aggregate_partial_signatures`
  pub aggregate_sigs : String → String → String → String → String → Option String

-- ===== src/Musig.antt =====
-- The MuSig2 data of a payout, assembled from the texts of the database
-- (coordinator/coordinator_utils.rs).
use taptrade_core.Prelude.{ℕ, String}
use taptrade_core.Prelude.Result.{Result, ok, ok_or, and_then}
use taptrade_core.Errors.{AnyError, invalid_hex, external}
use taptrade_core.Externals.{Externals}
use taptrade_core.Types.{PayoutData, KeyspendContext}

infixl 5 ◌>>=◌
abbrev ◌>>=◌ : {E A B : Type 0} → Result E A → (A → Result E B) → Result E B
r >>= f = and_then r f

module _ (x : Externals) where
  unfoldable pub agg_hex_musig_nonces : String → String → Result AnyError String
  agg_hex_musig_nonces maker_nonce taker_nonce = do
    maker ← ok_or (x.pub_nonce maker_nonce) (external "Error decoding maker musig pub nonce")
    taker ← ok_or (x.pub_nonce taker_nonce) (external "Error decoding taker musig pub nonce")
    ok (x.sum_nonces maker taker)

  unfoldable pub get_keyspend_tweak_scalar : String → Result AnyError String
  get_keyspend_tweak_scalar descriptor = do
    tr_descriptor ← ok_or (x.parse_descriptor descriptor) (external "descriptor")
    ok_or (x.taproot_tweak tr_descriptor) (external "not a taproot descriptor")

  unfoldable pub aggregate_musig_pubkeys_with_tweak :
      String → String → String → Result AnyError String
  aggregate_musig_pubkeys_with_tweak maker_musig_pubkey taker_musig_pubkey tweak_scalar = do
    musig_scalar ← ok_or (x.musig_scalar tweak_scalar) (external "scalar")
    maker ← ok_or (x.musig_pubkey maker_musig_pubkey) (external "Error parsing musig pk 1")
    taker ← ok_or (x.musig_pubkey taker_musig_pubkey) (external "Error parsing musig pk 2")
    key_agg_ctx ← ok_or (x.key_agg maker taker) (external "Error aggregating musig pubkeys")
    ok_or (x.with_tweak key_agg_ctx musig_scalar) (external "tweak")

  -- `PayoutData::new_from_strings`
  unfoldable pub new_from_strings :
      String
      → String
      → String
      → ℕ
      → ℕ
      → String
      → String
      → String
      → String
      → Result AnyError PayoutData
  unfolding agg_hex_musig_nonces get_keyspend_tweak_scalar aggregate_musig_pubkeys_with_tweak
  new_from_strings descriptor address_maker address_taker amount_maker amount_taker nonce_maker
        nonce_taker pk_maker pk_taker =
      do
        tweak ← get_keyspend_tweak_scalar descriptor
        key_agg_ctx ← aggregate_musig_pubkeys_with_tweak pk_maker pk_taker tweak
        agg_musig_nonce ← agg_hex_musig_nonces nonce_maker nonce_taker
        escrow_output_descriptor ← ok_or (x.parse_descriptor descriptor) (external "descriptor")
        maker ← ok_or (x.parse_address address_maker) (external "address")
        payout_address_maker ←
            ok_or (x.regtest_address maker) (external "Maker payout address wrong network")
        taker ← ok_or (x.parse_address address_taker) (external "address")
        payout_address_taker ←
            ok_or (x.regtest_address taker) (external "Taker payout address wrong Network")
        ok (record {
          escrow_output_descriptor = escrow_output_descriptor;
          payout_address_maker = payout_address_maker;
          payout_address_taker = payout_address_taker;
          payout_amount_maker = amount_maker;
          payout_amount_taker = amount_taker;
          agg_musig_nonce = agg_musig_nonce;
          aggregated_musig_pubkey_ctx_hex = x.key_agg_hex key_agg_ctx;
        })

  -- `KeyspendContext::from_hex_str`
  unfoldable pub from_hex_str :
      String
      → String
      → String
      → String
      → String
      → String
      → String
      → String
      → Result AnyError KeyspendContext
  unfolding agg_hex_musig_nonces get_keyspend_tweak_scalar aggregate_musig_pubkeys_with_tweak
  from_hex_str maker_sig taker_sig maker_nonce taker_nonce maker_pk taker_pk keyspend_psbt
        descriptor =
      do
        tweak ← get_keyspend_tweak_scalar descriptor
        agg_keyspend_pk ← aggregate_musig_pubkeys_with_tweak maker_pk taker_pk tweak
        agg_nonce ← agg_hex_musig_nonces maker_nonce taker_nonce
        psbt_bytes ← ok_or (x.hex_decode keyspend_psbt) invalid_hex
        psbt ← ok_or (x.parse_psbt psbt_bytes) (external "psbt")
        partial_maker_sig ← ok_or (x.partial_sig maker_sig) (external "partial signature")
        partial_taker_sig ← ok_or (x.partial_sig taker_sig) (external "partial signature")
        msg ← ok_or (x.keyspend_sighash psbt) (external "Failed to create keyspend sighash")
        agg_sig ←
            ok_or
              (x.aggregate_sigs agg_keyspend_pk agg_nonce partial_maker_sig partial_taker_sig msg)
              (external "Aggregating partial signatures failed")
        ok (record {
          agg_sig = agg_sig;
          agg_nonce = agg_nonce;
          agg_keyspend_pk = agg_keyspend_pk;
          keyspend_psbt = psbt;
        })

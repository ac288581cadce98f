-- ===== src/Wallet/Escrow.antt =====
-- The escrow locking transaction (wallet/escrow_psbt.rs).
use taptrade_core.Prelude.{ℕ, ◌/◌, String, Bool, true, false, [], ◌∷◌, ◌++◌}
use taptrade_core.Prelude.Result.{Result, ok, err, ok_or, and_then}
use taptrade_core.Prelude.Word.{add_u64, mul_u64, sub_u64}
use taptrade_core.Errors.{AnyError, invalid_hex, external}
use taptrade_core.Externals.{Externals}
use taptrade_core.Node.{Node, TxPlan, Policy, TapTree, leaf, tree}
use taptrade_core.Api.{OfferPsbtRequest}
use taptrade_core.Types.{EscrowPsbt, EscrowPsbtConstructionData}
use taptrade_core.Wallet.Inputs.{csv_hex_to_bdk_input, input_sum}
use taptrade_core.Database.Tables.{CoordinatorDb}
use taptrade_core.Database.Payout.{
  EscrowAmounts, get_escrow_tx_amounts, fetch_maker_escrow_psbt_data,
}

infixl 5 ◌>>=◌
abbrev ◌>>=◌ : {E A B : Type 0} → Result E A → (A → Result E B) → Result E B
r >>= f = and_then r f

-- the four spending conditions of `build_escrow_transaction_output_descriptor`, in its tree
abbrev pub escrow_tree : String → String → String → TapTree
escrow_tree maker_pk taker_pk coordinator_pk =
    let policy_a = Policy.and (Policy.pk maker_pk) (Policy.pk coordinator_pk) in
    let policy_b = Policy.and (Policy.pk taker_pk) (Policy.pk coordinator_pk) in
    let policy_c = Policy.and (Policy.pk maker_pk) (Policy.after 12228) in
    let policy_d =
      Policy.and (Policy.and (Policy.pk maker_pk) (Policy.pk taker_pk)) (Policy.after 2048) in
    tree (tree (leaf policy_a) (leaf policy_b)) (tree (leaf policy_d) (leaf policy_c))

module _ (n : Node) where
  unfoldable pub build_escrow_transaction_output_descriptor :
      EscrowPsbtConstructionData → EscrowPsbtConstructionData → String → Result AnyError String
  build_escrow_transaction_output_descriptor maker taker coordinator_pk = do
    internal_key ←
        n.aggregate_musig_pubkeys maker.musig_pubkey_compressed_hex
          taker.musig_pubkey_compressed_hex
    n.new_tr internal_key
        (escrow_tree maker.taproot_xonly_pubkey_hex taker.taproot_xonly_pubkey_hex coordinator_pk)

abbrev pub tx_fee_abs : ℕ
tx_fee_abs = 10000

-- `input_sum()? - (escrow_amount + fee + tx_fee_abs / 2)`
unfoldable pub change_amount : EscrowPsbtConstructionData → ℕ → ℕ → Result AnyError ℕ
change_amount d escrow_amount fee = do
  sum ← input_sum d
  with_fee ← add_u64 escrow_amount fee
  needed ← add_u64 with_fee (tx_fee_abs / 2)
  sub_u64 sum needed

-- the outputs, the fee and the inputs that `create_escrow_psbt` hands to the builder
unfoldable pub escrow_plan :
    (String → String)
    → String
    → String
    → EscrowPsbtConstructionData
    → EscrowPsbtConstructionData
    → EscrowAmounts
    → Result AnyError TxPlan
unfolding change_amount
escrow_plan script_pubkey escrow_address fee_address maker taker (amount_maker, amount_taker, fee) =
    do
      change_amount_maker ← change_amount maker amount_maker fee
      change_amount_taker ← change_amount taker amount_taker fee
      amount_escrow ← add_u64 amount_maker amount_taker
      service_fee ← mul_u64 fee 2
      ok (record {
        recipients =
            (script_pubkey escrow_address, amount_escrow)
            ∷ (script_pubkey fee_address, service_fee)
            ∷ (script_pubkey maker.change_address, change_amount_maker)
            ∷ (script_pubkey taker.change_address, change_amount_taker)
            ∷ [];
        foreign_utxos = maker.escrow_input_utxos ++ taker.escrow_input_utxos;
        fee_absolute = tx_fee_abs;
      })

module _ (x : Externals) (n : Node) where
  -- the taker's part, out of its request
  unfoldable pub taker_psbt_input_data :
      OfferPsbtRequest → Result AnyError EscrowPsbtConstructionData
  taker_psbt_input_data req = do
    escrow_input_utxos ← csv_hex_to_bdk_input x req.trade_data.bdk_psbt_inputs_hex_csv
    change_address ←
        ok_or (x.parse_address req.trade_data.client_change_address) (external "address")
    ok (record {
      taproot_xonly_pubkey_hex = req.trade_data.taproot_pubkey_hex;
      escrow_input_utxos = escrow_input_utxos;
      change_address = change_address;
      musig_pubkey_compressed_hex = req.trade_data.musig_pubkey_hex;
    })

  unfoldable pub create_escrow_psbt : CoordinatorDb → OfferPsbtRequest → Result AnyError EscrowPsbt
  unfolding taker_psbt_input_data build_escrow_transaction_output_descriptor
  create_escrow_psbt db req = do
    maker ← fetch_maker_escrow_psbt_data x req.offer.offer_id_hex db
    taker ← taker_psbt_input_data req
    coordinator_escrow_pk ← n.taproot_pk
    descriptor ← build_escrow_transaction_output_descriptor n maker taker coordinator_escrow_pk
    new_address ← n.get_address
    fee_address ← ok_or (x.parse_address new_address) (external "address")
    amounts ← get_escrow_tx_amounts x req.offer.offer_id_hex db
    escrow_address ← n.descriptor_address descriptor
    plan ← escrow_plan n.script_pubkey escrow_address fee_address maker taker amounts
    built ← n.build_tx plan
    ok (record {
      escrow_psbt_hex = built.0;
      escrow_tx_txid = built.1;
      escrow_output_descriptor = descriptor;
      coordinator_xonly_escrow_pk = coordinator_escrow_pk;
      escrow_amount_maker_sat = amounts.0;
      escrow_amount_taker_sat = amounts.1;
      escrow_fee_sat_per_participant = amounts.2;
    })

  -- a placeholder, as in the source
  abbrev pub validate_escrow_init_psbt : String → Result AnyError (Unit {0})
  validate_escrow_init_psbt escrow_init_psbt = ok tt

  abbrev pub if_final : Bool → String → Result AnyError String
  if_final true psbt = ok (n.extract_tx psbt)
  if_final false psbt = err (external "Failed to finalize escrow psbt")

  -- `combine_and_broadcast_escrow_psbt`: the transaction that it broadcasts
  unfoldable pub combine_and_broadcast_escrow_psbt : String → String → Result AnyError String
  combine_and_broadcast_escrow_psbt signed_maker_psbt_hex signed_taker_psbt_hex = do
    maker_bytes ← ok_or (x.hex_decode signed_maker_psbt_hex) invalid_hex
    maker_psbt ← ok_or (x.parse_psbt maker_bytes) (external "psbt")
    taker_bytes ← ok_or (x.hex_decode signed_taker_psbt_hex) invalid_hex
    taker_psbt ← ok_or (x.parse_psbt taker_bytes) (external "psbt")
    combined ← ok_or (n.combine maker_psbt taker_psbt) (external "combine")
    finalized ← n.finalize_psbt combined
    tx ← if_final finalized.0 finalized.1
    sent ← n.broadcast tx
    ok tx

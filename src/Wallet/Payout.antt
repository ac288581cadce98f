-- ===== src/Wallet/Payout.antt =====
-- The payout transaction that spends the escrow output by its key path (wallet/payout_tx.rs).
use taptrade_core.Prelude.{ℕ, ◌/◌, String, Option, none, some, List, [], ◌∷◌}
use taptrade_core.Prelude.Result.{Result, ok, err, and_then}
use taptrade_core.Prelude.Word.{sub_u64}
use taptrade_core.Errors.{AnyError, external}
use taptrade_core.Node.{Node, TxPlan}
use taptrade_core.Types.{PayoutData, KeyspendContext, PsbtInput}

infixl 5 ◌>>=◌
abbrev ◌>>=◌ : {E A B : Type 0} → Result E A → (A → Result E B) → Result E B
r >>= f = and_then r f

-- `available_utxos.len() != 1` is an error
abbrev pub single : List PsbtInput → Result AnyError PsbtInput
single [] = err (external "Expected exactly one utxo")
single (u ∷ []) = ok u
single (u ∷ v ∷ us) = err (external "Expected exactly one utxo")

-- the fee, and the share of each trader
abbrev pub fee_shares : ℕ → ℕ × ℕ
fee_shares fee = (fee, fee / 2)

module _ (n : Node) where
  abbrev pub tx_fee : Option ℕ → ℕ
  tx_fee (some fee) = fee
  tx_fee none = n.fallback_fee

  unfoldable pub get_tx_fees_abs_sat : ℕ × ℕ
  get_tx_fees_abs_sat = fee_shares (tx_fee n.estimated_fee)

  unfoldable pub get_escrow_utxo : String → Result AnyError PsbtInput
  get_escrow_utxo descriptor = do
    available_utxos ← n.list_unspent descriptor
    single available_utxos

  -- the inputs, outputs and fee that `assemble_keyspend_payout_psbt` hands to the builder
  unfoldable pub payout_plan : PayoutData → Result AnyError TxPlan
  unfolding get_tx_fees_abs_sat get_escrow_utxo
  payout_plan payout = do
    utxo ← get_escrow_utxo payout.escrow_output_descriptor
    to_maker ← sub_u64 payout.payout_amount_maker get_tx_fees_abs_sat.1
    to_taker ← sub_u64 payout.payout_amount_taker get_tx_fees_abs_sat.1
    ok (record {
      recipients =
          (n.script_pubkey payout.payout_address_maker, to_maker)
          ∷ (n.script_pubkey payout.payout_address_taker, to_taker)
          ∷ [];
      foreign_utxos = utxo ∷ [];
      fee_absolute = get_tx_fees_abs_sat.0;
    })

  unfoldable pub assemble_keyspend_payout_psbt : PayoutData → Result AnyError String
  unfolding payout_plan
  assemble_keyspend_payout_psbt payout = do
    plan ← payout_plan payout
    built ← n.build_tx plan
    ok built.0

  -- the transaction that it broadcasts
  unfoldable pub broadcast_keyspend_tx : KeyspendContext → Result AnyError String
  broadcast_keyspend_tx ctx = do
    signed_tx ← n.sign_keyspend ctx.keyspend_psbt ctx.agg_sig
    sent ← n.broadcast signed_tx
    ok signed_tx

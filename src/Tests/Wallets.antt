-- ===== src/Tests/Wallets.antt =====
-- The theorems on the wallet at concrete inputs.
use taptrade_core.Prelude.{ℕ, ◌+◌, ◌%◌, ◌≡◌, refl, [], ◌∷◌, str_eq, inl}
use taptrade_core.Prelude.Result.{ok}
use taptrade_core.Node.{TxPlan}
use taptrade_core.Types.{MonitoringBond, PayoutData, orderbook}
use taptrade_core.Wallet.Inputs.{sum_inputs, input_sum}
use taptrade_core.Wallet.Escrow.{change_amount, escrow_plan}
use taptrade_core.Wallet.Payout.{payout_plan, get_escrow_utxo, get_tx_fees_abs_sat}
use taptrade_core.Wallet.Bonds.{
  previous_value, get_output, sum_previous, tx_input_sum, output_to, bond_output_sum,
  all_output_sum, check_amounts, check_bond, validate_bonds, check_bonds, test_mempool_accept_bonds,
  ask_chunks, chunks_of_25, chunks_from, rejected_bonds, lookup_mempool_inputs, mempool_bonds,
  spends_known, bond_id, extend,
}
use taptrade_core.Wallet.Balance.{total, escrow_plan-balanced, payout_plan-balanced}
use taptrade_core.Tests.Data.{crates, node, side, input}
use taptrade_core.Wallet.Completeness.{Upheld, validate_bonds-Upheld}

abbrev bond : MonitoringBond
bond = record {
  bond_tx_hex = "bond";
  trade_id_hex = "77";
  robot = [];
  requirements = record {
    bond_address = "bcrt1";
    locking_amount_sat = 100000;
    min_input_sum_sat = 110000;
  };
  table = orderbook;
}

validate_bonds-Upheld_example : Upheld crates node bond
unfolding validate_bonds check_bonds check_bond check_amounts tx_input_sum sum_previous
    previous_value get_output bond_output_sum output_to all_output_sum test_mempool_accept_bonds
    ask_chunks chunks_of_25 chunks_from rejected_bonds lookup_mempool_inputs mempool_bonds
    spends_known bond_id extend str_eq
validate_bonds-Upheld_example =
    validate_bonds-Upheld crates node (98 ∷ []) bond (bond ∷ []) {invalid = []} refl (inl refl) refl
      refl

abbrev plan : TxPlan
plan = record {
  recipients = ("tr", 1200000) ∷ ("fee", 20000) ∷ ("change", 2885000) ∷ ("change", 1885000) ∷ [];
  foreign_utxos = input ∷ input ∷ [];
  fee_absolute = 10000;
}

escrow_plan-balanced_example :
    (of_maker : ℕ) × (of_taker : ℕ) × (input_sum side ≡ ok of_maker)
    × (input_sum side ≡ ok of_taker)
    × (total plan.recipients + plan.fee_absolute ≡ of_maker + of_taker)
unfolding escrow_plan change_amount input_sum sum_inputs
escrow_plan-balanced_example =
    escrow_plan-balanced (λ a. a) "tr" "fee" side side (100000, 1100000, 10000) {plan = plan} refl

abbrev payout : PayoutData
payout = record {
  escrow_output_descriptor = "tr";
  payout_address_maker = "maker";
  payout_address_taker = "taker";
  payout_amount_maker = 1100000;
  payout_amount_taker = 100000;
  agg_musig_nonce = "nonce";
  aggregated_musig_pubkey_ctx_hex = "ctx";
}

abbrev paid : TxPlan
paid = record {
  recipients = ("maker", 1099500) ∷ ("taker", 99500) ∷ [];
  foreign_utxos = input ∷ [];
  fee_absolute = 1001;
}

-- The fee of 1001 sat is odd.
payout_plan-balanced_example : total paid.recipients + 1001 ≡ 1100000 + 100000 + 1001 % 2
unfolding payout_plan get_escrow_utxo get_tx_fees_abs_sat
payout_plan-balanced_example = payout_plan-balanced node payout {plan = paid} refl

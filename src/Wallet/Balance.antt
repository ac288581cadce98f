-- ===== src/Wallet/Balance.antt =====
-- No coin is made or lost: the amounts of the escrow transaction (wallet/escrow_psbt.rs) and of the
-- payout transaction (wallet/payout_tx.rs).
use taptrade_core.Prelude.{ℕ, ◌+◌, ◌*◌, ◌/◌, ◌%◌, ◌≡◌, String, List, [], ◌∷◌, arith}
use taptrade_core.Prelude.Result.{ok, and_then-ok, ok-injective}
use taptrade_core.Prelude.Word.{in_range-inv, sub_u64-inv, add_u64, mul_u64, sub_u64}
use taptrade_core.Errors.{AnyError}
use taptrade_core.Node.{Node, TxPlan}
use taptrade_core.Types.{EscrowPsbtConstructionData, PayoutData}
use taptrade_core.Wallet.Inputs.{input_sum}
use taptrade_core.Wallet.Escrow.{change_amount, escrow_plan, tx_fee_abs}
use taptrade_core.Wallet.Payout.{payout_plan, get_escrow_utxo, get_tx_fees_abs_sat}
use taptrade_core.Database.Payout.{EscrowAmounts}

abbrev pub total : List (String × ℕ) → ℕ
total [] = 0
total ((script, amount) ∷ rest) = amount + total rest

change_amount-exact :
    (d : EscrowPsbtConstructionData) (amount fee : ℕ) {change : ℕ}
    → change_amount d amount fee ≡ ok change
    → (sum : ℕ) × (input_sum d ≡ ok sum) × (change + (amount + fee + 5000) ≡ sum)
unfolding change_amount
change_amount-exact d amount fee {change} h =
    let (sum, e, h1) = and_then-ok (input_sum d) _ h in
    let (with_fee, e1, h2) = and_then-ok (add_u64 {E = AnyError} amount fee) _ h1 in
    let (needed, e2, h3) = and_then-ok (add_u64 {E = AnyError} with_fee (tx_fee_abs / 2)) _ h2 in
    let a = in_range-inv (amount + fee) e1 in
    let b = in_range-inv (with_fee + tx_fee_abs / 2) e2 in
    let c = sub_u64-inv sum needed h3 in (sum, e, omega arith)

four_outputs :
    (escrow service cm ct m t fee of_m of_t : ℕ)
    → escrow ≡ m + t
    → service ≡ fee * 2
    → cm + (m + fee + 5000) ≡ of_m
    → ct + (t + fee + 5000) ≡ of_t
    → escrow + (service + (cm + (ct + 0))) + 10000 ≡ of_m + of_t
four_outputs escrow service cm ct m t fee of_m of_t a b c d = omega arith

two_outputs :
    (m t fee of_m of_t : ℕ)
    → m + fee / 2 ≡ of_m
    → t + fee / 2 ≡ of_t
    → m + (t + 0) + fee ≡ of_m + of_t + fee % 2
two_outputs m t fee of_m of_t a b = omega arith

-- The builder is asked for outputs and a fee that use up exactly the inputs of the two traders.
pub escrow_plan-balanced :
    (script_pubkey : String → String) (escrow_address fee_address : String)
    (maker taker : EscrowPsbtConstructionData) (amounts : EscrowAmounts) {plan : TxPlan}
    → escrow_plan script_pubkey escrow_address fee_address maker taker amounts ≡ ok plan
    → (of_maker : ℕ) × (of_taker : ℕ) × (input_sum maker ≡ ok of_maker)
      × (input_sum taker ≡ ok of_taker)
      × (total plan.recipients + plan.fee_absolute ≡ of_maker + of_taker)
unfolding escrow_plan
escrow_plan-balanced script_pubkey escrow_address fee_address maker taker (m, t, fee) {plan} h =
    let (change_m, e1, h1) = and_then-ok (change_amount maker m fee) _ h in
    let (change_t, e2, h2) = and_then-ok (change_amount taker t fee) _ h1 in
    let (escrow, e3, h3) = and_then-ok (add_u64 {E = AnyError} m t) _ h2 in
    let (service, e4, h4) = and_then-ok (mul_u64 {E = AnyError} fee 2) _ h3 in
    let (of_m, s1, b1) = change_amount-exact maker m fee e1 in
    let (of_t, s2, b2) = change_amount-exact taker t fee e2 in
    let a = in_range-inv (m + t) e3 in
    let b = in_range-inv (fee * 2) e4 in
    (
      of_m,
      of_t,
      s1,
      s2,
      rw (← ok-injective h4)
          (four_outputs escrow service change_m change_t m t fee of_m of_t a b b1 b2),
    )

-- The payout transaction pays out the two amounts less the fee, but when the fee is odd, its outputs
-- and its fee exceed the two amounts together by one satoshi.
pub payout_plan-balanced :
    (n : Node) (payout : PayoutData) {plan : TxPlan}
    → payout_plan n payout ≡ ok plan
    → total plan.recipients + plan.fee_absolute
      ≡ payout.payout_amount_maker + payout.payout_amount_taker + plan.fee_absolute % 2
unfolding payout_plan get_tx_fees_abs_sat
payout_plan-balanced n payout {plan} h =
    let (utxo, e, h1) = and_then-ok (get_escrow_utxo n payout.escrow_output_descriptor) _ h in
    let (m, e1, h2) =
      and_then-ok (sub_u64 {E = AnyError} payout.payout_amount_maker (get_tx_fees_abs_sat n).1) _
        h1 in
    let (t, e2, h3) =
      and_then-ok (sub_u64 {E = AnyError} payout.payout_amount_taker (get_tx_fees_abs_sat n).1) _
        h2 in
    let a = sub_u64-inv payout.payout_amount_maker (get_tx_fees_abs_sat n).1 e1 in
    let b = sub_u64-inv payout.payout_amount_taker (get_tx_fees_abs_sat n).1 e2 in
    rw (← ok-injective h3) (
      two_outputs m t (get_tx_fees_abs_sat n).0 payout.payout_amount_maker
        payout.payout_amount_taker a b)

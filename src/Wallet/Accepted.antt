-- ===== src/Wallet/Accepted.antt =====
-- What a bond transaction that passes the checks gives the coordinator (wallet/mod.rs,
-- `validate_bonds`).
use taptrade_core.Prelude.{
  ℕ, ◌+◌, ◌*◌, ◌/◌, ◌≤◌, ◌<◌, ◌≡◌, refl, Bool, true, false, ltb, ◌==◌, if◌then◌else◌, arith,
}
use native.Mathlib.Nat.{le-div_iff_mul-le}
use taptrade_core.Prelude.Result.{Result, ok, err, panic, and_then-ok, ok-injective}
use taptrade_core.Prelude.Word.{sub_u64-inv, sub_u64}
use taptrade_core.Errors.{AnyError}
use taptrade_core.Externals.{Externals}
use taptrade_core.Node.{Node, Transaction}
use taptrade_core.Types.{MonitoringBond, BondRequirements}
use taptrade_core.Wallet.Bonds.{
  Check, passed, violated, parse_bond, tx_input_sum, bond_output_sum, all_output_sum, check_amounts,
  check_bond, unless_unverified,
}

-- the sums of a transaction, and what a bond requires of them
pub record Covers (x : Externals) (n : Node) (tx : Transaction) (r : BondRequirements)
    : Type 0 where
  pub inputs : ℕ
  pub to_bond_address : ℕ
  pub outputs : ℕ
  pub inputs_sum : tx_input_sum x n tx ≡ ok inputs
  pub bond_sum : bond_output_sum x n tx r.bond_address ≡ ok to_bond_address
  pub outputs_sum : all_output_sum 0 tx.output ≡ ok outputs
  pub enough_input : r.min_input_sum_sat ≤ inputs
  pub enough_bond : r.locking_amount_sat ≤ to_bond_address
  pub enough_fee : outputs + 200 * tx.vsize ≤ inputs

unless-passed :
    (b : Bool) (e : AnyError) (rest : Result AnyError Check)
    → (if b then ok (violated e) else rest) ≡ ok passed
    → (b ≡ false) × (rest ≡ ok passed)
unless-passed true e rest h = absurd (different (ok-injective h))
  where
    different : violated e ≡ passed → ⊥
    different k = cc
unless-passed false e rest h = (refl, h)

no_panic :
    (b : Bool) (rest : Result AnyError Check)
    → (if b then panic else rest) ≡ ok passed
    → (b ≡ false) × (rest ≡ ok passed)
no_panic true rest h = cc
no_panic false rest h = (refl, h)

not_less : (a b : ℕ) → ltb a b ≡ false → b ≤ a
not_less a b h = ground arith

fee_rate : (fee size : ℕ) → (size == 0) ≡ false → ltb (fee / size) 200 ≡ false → 200 * size ≤ fee
fee_rate fee size nz h = (le-div_iff_mul-le (positive size nz)).0 (not_less (fee / size) 200 h)
  where
    positive : (size : ℕ) → (size == 0) ≡ false → 0 < size
    positive size nz = ground arith

module _ (x : Externals) (n : Node) where
  check_amounts-Covers :
      (tx : Transaction) (r : BondRequirements)
      → check_amounts x n tx r ≡ ok passed
      → Covers x n tx r
  unfolding check_amounts
  check_amounts-Covers tx r h =
      let (i, e, h1) = and_then-ok (tx_input_sum x n tx) _ h in
      let (l, h2) = unless-passed (ltb i r.min_input_sum_sat) _ _ h1 in
      let (b, f, h3) = and_then-ok (bond_output_sum x n tx r.bond_address) _ h2 in
      let (m, h4) = unless-passed (ltb b r.locking_amount_sat) _ _ h3 in
      let (o, g, h5) = and_then-ok (all_output_sum 0 tx.output) _ h4 in
      let (fee, d, h6) = and_then-ok (sub_u64 {E = AnyError} i o) _ h5 in
      let (z, h7) = no_panic (tx.vsize == 0) _ h6 in
      let (q, _) = unless-passed (ltb (fee / tx.vsize) 200) _ _ h7 in
      record {
        inputs = i;
        to_bond_address = b;
        outputs = o;
        inputs_sum = e;
        bond_sum = f;
        outputs_sum = g;
        enough_input = not_less i r.min_input_sum_sat l;
        enough_bond = not_less b r.locking_amount_sat m;
        enough_fee = enough fee o i tx.vsize (sub_u64-inv i o d) (fee_rate fee tx.vsize z q);
      }
    where
      enough : (fee o i size : ℕ) → fee + o ≡ i → 200 * size ≤ fee → o + 200 * size ≤ i
      enough fee o i size p k = omega arith

  true-false : true ≡ false → ⊥
  true-false h = cc

  verified-ok :
      (v : Result AnyError (Unit {0})) (rest : Result AnyError Check)
      → unless_unverified x n v rest ≡ ok passed
      → (v ≡ ok tt) × (rest ≡ ok passed)
  verified-ok (ok _) rest h = (refl, h)
  verified-ok (err e) rest h = absurd (true-false (unless-passed true e rest h).0)
  verified-ok panic rest h = cc

  -- A bond that passes the checks is a transaction that parses and verifies, whose inputs are worth
  -- at least the required input sum, whose first output to the bond address has at least the
  -- locking amount, and which pays a fee of at least 200 satoshi for each virtual byte.
  pub check_bond-Covers :
      (bond : MonitoringBond)
      → check_bond x n bond ≡ ok passed
      → (tx : Transaction) × (parse_bond x n bond ≡ ok tx)
        × (n.verify_tx tx ≡ ok tt)
        × Covers x n tx bond.requirements
  unfolding check_bond
  check_bond-Covers bond h =
      let (tx, e, h1) = and_then-ok (parse_bond x n bond) _ h in
      let (v, h2) = verified-ok (n.verify_tx tx) (check_amounts x n tx bond.requirements) h1 in
      (tx, e, v, check_amounts-Covers tx bond.requirements h2)

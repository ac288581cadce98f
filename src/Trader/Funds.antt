-- ===== src/Trader/Funds.antt =====
-- Whether the inputs that a trader selects pay for its share of the escrow: the maker's program and
-- the taker's (trading/maker_utils.rs, trading/taker_utils.rs) against what the coordinator charges
-- (coordinator/src/wallet/escrow_psbt.rs, coordinator/src/database/mod.rs).
use taptrade_core.Prelude.{
  ℕ, ◌+◌, ◌-◌, ◌*◌, ◌/◌, ◌^◌, ◌≤◌, ◌<◌, String, ◌≡◌, not, arith, if◌then◌else◌,
}
use taptrade_core.Prelude.Result.{Result, ok, panic, ok-injective}
use taptrade_core.Prelude.Word.{in_range-inv, add_u64}
use taptrade_core.Errors.{AnyError}
use taptrade_core.Externals.{Externals}
use taptrade_core.Api.{PublicOffer}
use taptrade_core.Types.{EscrowPsbtConstructionData}
use taptrade_core.Wallet.Inputs.{input_sum}
use taptrade_core.Wallet.Escrow.{change_amount}
use taptrade_core.Database.Payout.{escrow_split}
use taptrade_core.Coordinator.Orders.{Acceptable, product_bound, requirements}
use taptrade_core.Trader.Settings.{OfferType, buy, sell, TraderSettings, value, is_buy_order}
use taptrade_core.Trader.Requests.{format_order_request}
use taptrade_core.Trader.Offers.{input_amount}

change_amount-enough :
    (d : EscrowPsbtConstructionData) (share fee : ℕ) {sum : ℕ}
    → input_sum d ≡ ok sum
    → share + fee + 5000 ≤ sum
    → share + fee + 5000 < 2 ^ 64
    → change_amount d share fee ≡ ok (sum - (share + fee + 5000))
unfolding change_amount
change_amount-enough d share fee e h k = rw e (ground arith)

change_amount-short :
    (d : EscrowPsbtConstructionData) (share fee : ℕ) {sum : ℕ}
    → input_sum d ≡ ok sum
    → sum < share + fee + 5000
    → change_amount d share fee ≡ panic
unfolding change_amount
change_amount-short d share fee e h = rw e (ground arith)

-- the bond for a request of the trader's
abbrev pub bond_for : TraderSettings → ℕ
bond_for t = (t.bond_ratio * value t.trade_type) / 100

-- The share of the maker, the fee and half of the transaction fee, against the inputs.
share_covered :
    (type : OfferType) (bond fee order_fee sum : ℕ) {asked : ℕ}
    → value type ≤ 20000000
    → bond ≤ 10000000
    → ◌≡◌ {A = Result AnyError ℕ}
        (if is_buy_order type
          then ok (bond + order_fee + 10000)
          else add_u64 (bond + order_fee + 10000) (value type))
        (ok asked)
    → asked ≤ sum
    → fee ≤ order_fee + 5000
    → order_fee < 2 ^ 63
    → let share = (escrow_split (is_buy_order type) (value type + bond) bond fee).0 in
      (share + fee + 5000 ≤ sum) × (share + fee + 5000 < 2 ^ 64)
share_covered (buy v) bond fee order_fee sum hv hb h enough close small =
    let same = ok-injective h in (omega arith, omega arith)
share_covered (sell v) bond fee order_fee sum hv hb h enough close small =
    let same = in_range-inv (bond + order_fee + 10000 + v) h in (omega arith, omega arith)

-- A maker whose request is valid, and whose inputs are worth at least what its program selects
-- them for, can pay its share of the escrow: the coordinator computes its change. The fee of the
-- escrow must be at most 5000 sat above the fee of the order, and that fee below 2^63.
pub maker_can_pay :
    (x : Externals) (now : ℕ) (t : TraderSettings) (address : String)
    (d : EscrowPsbtConstructionData) (fee : ℕ) {asked sum : ℕ}
    → Acceptable now (format_order_request t)
    → input_amount t.trade_type
        (requirements address (x.order_fee (value t.trade_type)) (format_order_request t))
      ≡ ok asked
    → input_sum d ≡ ok sum
    → asked ≤ sum
    → fee ≤ x.order_fee (value t.trade_type) + 5000
    → x.order_fee (value t.trade_type) < 2 ^ 63
    → let share =
        (escrow_split
          (is_buy_order t.trade_type)
          (value t.trade_type + bond_for t)
          (bond_for t)
          fee).0 in
      change_amount d share fee ≡ ok (sum - (share + fee + 5000))
unfolding input_amount
maker_can_pay x now t address d fee {asked} {sum} valid h e enough close small =
    let bound =
      product_bound t.bond_ratio (value t.trade_type) valid.ratio_high valid.amount_high in
    let (covered, bounded) =
      share_covered t.trade_type (bond_for t) fee (x.order_fee (value t.trade_type)) sum
        valid.amount_high (omega arith) h enough close small in
    change_amount-enough d _ fee e covered bounded

-- A taker whose inputs are worth exactly what its program selects them for, from an offer that shows
-- the bond amount also where the amount for the inputs belongs, in a trade of the offer's amount,
-- cannot pay its share of the escrow: the coordinator's computation of its change panics.
pub taker_falls_short :
    (t : TraderSettings) (offer : PublicOffer) (d : EscrowPsbtConstructionData) (fee : ℕ)
    {asked : ℕ}
    → offer.bond_requirements.escrow_locking_input_amount_without_trade_sum
      ≡ offer.bond_requirements.locking_amount_sat
    → value t.trade_type ≡ offer.amount_sat
    → input_amount t.trade_type offer.bond_requirements ≡ ok asked
    → input_sum d ≡ ok asked
    → let bond = offer.bond_requirements.locking_amount_sat in
      change_amount d
        (escrow_split (not (is_buy_order t.trade_type)) (offer.amount_sat + bond) bond fee).1
        fee
      ≡ panic
unfolding input_amount
taker_falls_short t offer d fee {asked} overwritten amount h e =
    change_amount-short d _ fee e (short t.trade_type amount h)
  where
    short :
        (type : OfferType)
        → value type ≡ offer.amount_sat
        → ◌≡◌ {A = Result AnyError ℕ}
            (if is_buy_order type
              then ok offer.bond_requirements.escrow_locking_input_amount_without_trade_sum
              else add_u64 offer.bond_requirements.escrow_locking_input_amount_without_trade_sum
                  (value type))
            (ok asked)
        → asked
          < (escrow_split
              (not (is_buy_order type))
              (offer.amount_sat + offer.bond_requirements.locking_amount_sat)
              offer.bond_requirements.locking_amount_sat
              fee).1
            + fee
            + 5000
    short (buy v) a k = let same = ok-injective k in omega arith
    short (sell v) a k =
        let same =
          in_range-inv (offer.bond_requirements.escrow_locking_input_amount_without_trade_sum + v)
            k in
        omega arith

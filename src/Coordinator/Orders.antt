-- ===== src/Coordinator/Orders.antt =====
-- A new offer, from the request to the query for its bond (communication/api.rs,
-- coordinator/mod.rs, database/mod.rs).
use taptrade_core.Prelude.{
  ℕ, ◌+◌, ◌*◌, ◌/◌, ◌^◌, ◌≤◌, ◌<◌, String, ◌≡◌, ◌↔◌, refl, sym, ◌∙◌, ap, true, some, Bytes, arith,
}
use taptrade_core.Prelude.Result.{ok, and_then-ok, ok-injective}
use taptrade_core.Prelude.Word.{in_range-ok}
use taptrade_core.Errors.{AnyError}
use taptrade_core.Externals.{Externals}
use taptrade_core.Node.{Node}
use taptrade_core.Api.{OfferRequest, BondRequirementResponse}
use taptrade_core.Api.Validate.{validate, validate_timestamp}
use taptrade_core.Database.Requests.{fetch_bond_requirements, insert_new_maker_request}
use taptrade_core.Database.Bounds.{IsSized}
use taptrade_core.Database.Tables.{CoordinatorDb}
use taptrade_core.Database.Pending.{fetch-insert_new_maker_request}
use taptrade_core.Coordinator.State.{Coordinator}
use taptrade_core.Coordinator.Offers.{
  bond_amount, locking_input, bond_requirements_for, process_order,
}
use taptrade_core.Http.{Request, serve, receive_order}
use taptrade_core.Http.Answers.{Response, json, order_answer}
use taptrade_core.Http.Answers

-- what the documentation of the API allows
pub record Acceptable (now : ℕ) (o : OfferRequest) : Type 0 where
  pub amount_low : 10000 ≤ o.amount_satoshi
  pub amount_high : o.amount_satoshi ≤ 20000000
  pub ratio_low : 2 ≤ o.bond_ratio
  pub ratio_high : o.bond_ratio ≤ 50
  pub not_too_soon : now + 10800 ≤ o.offer_duration_ts
  pub not_too_late : o.offer_duration_ts ≤ now + 604800

-- A request is valid exactly if its amount is 10000 to 20000000 sat, its bond ratio 2 to 50 percent,
-- and its end between three hours and seven days from now.
pub validate-Acceptable : (now : ℕ) (o : OfferRequest) → (validate now o ≡ true) ↔ Acceptable now o
unfolding validate validate_timestamp
validate-Acceptable now o = ground arith

-- the bond for an offer, at the wallet's next address
abbrev pub requirements : String → ℕ → OfferRequest → BondRequirementResponse
requirements address fee o = record {
  bond_address = address;
  locking_amount_sat = (o.bond_ratio * o.amount_satoshi) / 100;
  escrow_locking_input_amount_without_trade_sum =
      (o.bond_ratio * o.amount_satoshi) / 100 + fee + 10000;
}

pub product_bound : (r a : ℕ) → r ≤ 50 → a ≤ 20000000 → r * a ≤ 1000000000
product_bound r a h k = grind arith

bond_amount-Acceptable :
    (now : ℕ) (o : OfferRequest)
    → Acceptable now o
    → bond_amount o ≡ ok ((o.bond_ratio * o.amount_satoshi) / 100)
unfolding bond_amount
bond_amount-Acceptable now o a =
    let bound = product_bound o.bond_ratio o.amount_satoshi a.ratio_high a.amount_high in
    rw (in_range-ok {E = AnyError} (o.bond_ratio * o.amount_satoshi) (omega arith)) refl

locking_input_lem :
    (bond fee : ℕ) → bond + fee + 10000 < 2 ^ 64 → locking_input bond fee ≡ ok (bond + fee + 10000)
unfolding locking_input
locking_input_lem bond fee h = ground arith

module _ (x : Externals) (n : Node) where
  bond_requirements_for-Acceptable :
      (now : ℕ) (o : OfferRequest) {address : String}
      → Acceptable now o
      → n.get_address ≡ ok address
      → x.order_fee o.amount_satoshi < 2 ^ 63
      → bond_requirements_for x n o ≡ ok (requirements address (x.order_fee o.amount_satoshi) o)
  unfolding bond_requirements_for
  bond_requirements_for-Acceptable now o a h fee =
      let bound = product_bound o.bond_ratio o.amount_satoshi a.ratio_high a.amount_high in
      rw (bond_amount-Acceptable now o a) (
        rw
          (
            locking_input_lem ((o.bond_ratio * o.amount_satoshi) / 100)
                (x.order_fee o.amount_satoshi) (omega arith),
            h,
          )
          refl)

  -- The bond of a valid request is the percentage of its amount that it asks for.
  pub bond_requirements_for-IsSized :
      (now : ℕ) (o : OfferRequest) {b : BondRequirementResponse}
      → validate now o ≡ true
      → bond_requirements_for x n o ≡ ok b
      → IsSized o.amount_satoshi o.bond_ratio b.locking_amount_sat
  unfolding bond_requirements_for
  bond_requirements_for-IsSized now o {b} valid e =
      let a = (validate-Acceptable now o).0 valid in
      let (bond, is_bond, e1) = and_then-ok (bond_amount o) _ e in
      let (input, i, e2) = and_then-ok (locking_input bond (x.order_fee o.amount_satoshi)) _ e1 in
      let (address, d, e3) = and_then-ok n.get_address _ e2 in
      record {
        amount_low = a.amount_low;
        amount_high = a.amount_high;
        ratio_low = a.ratio_low;
        ratio_high = a.ratio_high;
        bond_is =
            sym (ap (λ r. r.locking_amount_sat) (ok-injective e3))
            ∙ ok-injective (sym is_bond ∙ bond_amount-Acceptable now o a);
      }

  insert-ok :
      (o : OfferRequest) (b : BondRequirementResponse) (db : CoordinatorDb) {robohash : Bytes}
      → x.hex_decode o.robohash_hex ≡ some robohash
      → (insert_new_maker_request x o b db).0 ≡ ok tt
  unfolding insert_new_maker_request
  insert-ok o b db decoded = rw decoded refl

  process_order-Acceptable :
      (now : ℕ) (o : OfferRequest) (c : Coordinator) {address : String} {robohash : Bytes}
      → Acceptable now o
      → n.get_address ≡ ok address
      → x.hex_decode o.robohash_hex ≡ some robohash
      → x.order_fee o.amount_satoshi < 2 ^ 63
      → process_order x n o c ≡ (
        ok (requirements address (x.order_fee o.amount_satoshi) o),
        record c {
          db =
              (insert_new_maker_request x o
                (requirements address (x.order_fee o.amount_satoshi) o)
                c.db).1;
        },
      )
  unfolding process_order
  process_order-Acceptable now o c {address} a h decoded fee =
      rw (bond_requirements_for-Acceptable now o a h fee)
        (rw (insert-ok o (requirements address (x.order_fee o.amount_satoshi) o) c.db decoded) refl)

  -- A valid request is answered with the wallet's next address, a bond of exactly the requested
  -- percentage of the amount, rounded down, and that bond plus the fee plus 10000 sat as the sum
  -- that the inputs must cover; the bond can then be queried. The wallet has to give an address, the
  -- robohash to decode and the fee to be below 2^63.
  pub serve-create_offer :
      (now : ℕ) (o : OfferRequest) (c : Coordinator) {address : String} {robohash : Bytes}
      → Acceptable now o
      → n.get_address ≡ ok address
      → x.hex_decode o.robohash_hex ≡ some robohash
      → x.order_fee o.amount_satoshi < 2 ^ 63
      → ((serve x n now (Request.create_offer o) c).0
          ≡ some (
              json (
                Answers.bond_requirements (requirements address (x.order_fee o.amount_satoshi) o))))
        × (fetch_bond_requirements x o.robohash_hex (serve x n now (Request.create_offer o) c).1.db
            ≡ ok (record {
              bond_address = address;
              locking_amount_sat = (o.bond_ratio * o.amount_satoshi) / 100;
              min_input_sum_sat = o.amount_satoshi;
            }))
  unfolding serve receive_order
  serve-create_offer now o c {address} {robohash} a h decoded fee =
      rw ((validate-Acceptable now o).1 a) (
        rw (process_order-Acceptable now o c a h decoded fee) (
          refl,
          fetch-insert_new_maker_request x o (requirements address (x.order_fee o.amount_satoshi) o)
              c.db decoded,
        ))

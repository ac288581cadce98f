-- ===== src/Database/Requests.antt =====
-- Table `maker_requests`: a maker's request, until its bond is accepted (database/mod.rs).
use taptrade_core.Prelude.{ℕ, String, Bool, not, ◌==◌, bytes_eq, Bytes, Option, none, some}
use taptrade_core.Prelude.Result.{
  Result, ok, ok_or, Action, pure, lift, reads, modify, and_then, ◌>>=◌, ◌>>◌,
}
use taptrade_core.Errors.{AnyError, invalid_hex}
use taptrade_core.Externals.{Externals}
use taptrade_core.Api.{OfferRequest, BondRequirementResponse}
use taptrade_core.Types.{BondRequirements}
use taptrade_core.Sql.{fetch_one, delete, insert_or_replace}
use taptrade_core.Database.Tables.{MakerRequest, CoordinatorDb, bool_to_sql_int}

-- WHERE robohash = ?
abbrev pub robohash_is : Bytes → MakerRequest → Bool
robohash_is robohash r = bytes_eq r.robohash robohash

pub record AwaitingBondOffer : Type 0 where
  pub robohash_hex : String
  pub is_buy_order : Bool
  pub amount_satoshi : ℕ
  pub bond_ratio : ℕ
  pub offer_duration_ts : ℕ
  pub bond_address : String
  pub bond_amount_sat : ℕ
  pub escrow_locking_input_amount_without_trade_sum : ℕ

-- the row that `insert_new_maker_request` binds
abbrev pub request_row : Bytes → OfferRequest → BondRequirementResponse → MakerRequest
request_row robohash order bond_requirements = record {
  robohash = robohash;
  is_buy_order = bool_to_sql_int order.is_buy_order;
  amount_sat = order.amount_satoshi;
  bond_ratio = order.bond_ratio;
  offer_duration_ts = order.offer_duration_ts;
  bond_address = bond_requirements.bond_address;
  bond_amount_sat = bond_requirements.locking_amount_sat;
  escrow_locking_input_amount_without_trade_sum =
      bond_requirements.escrow_locking_input_amount_without_trade_sum;
}

module _ (x : Externals) where
  -- `hex::decode(text)?`
  abbrev pub decode_hex : String → Result AnyError Bytes
  decode_hex text = ok_or (x.hex_decode text) invalid_hex

  -- `get::<i64>` and `get::<bool>` of a nullable column
  abbrev pub get_int : Option ℕ → ℕ
  get_int none = x.null_int
  get_int (some n) = n

  abbrev pub get_bool : Option ℕ → Bool
  get_bool v = not (get_int v == 0)

  unfoldable pub insert_new_maker_request :
      OfferRequest → BondRequirementResponse → Action CoordinatorDb AnyError (Unit {0})
  insert_new_maker_request order bond_requirements = do
    robohash ← lift (decode_hex order.robohash_hex)
    modify (λ db. record db {
      maker_requests =
          insert_or_replace (robohash_is robohash) (request_row robohash order bond_requirements)
            db.maker_requests;
    })

  unfoldable pub fetch_bond_requirements : String → CoordinatorDb → Result AnyError BondRequirements
  fetch_bond_requirements robohash_hex db = and_then (decode_hex robohash_hex) λ robohash.
      and_then (fetch_one (robohash_is robohash) db.maker_requests) λ maker_request. ok (record {
        bond_address = maker_request.bond_address;
        locking_amount_sat = maker_request.bond_amount_sat;
        min_input_sum_sat = maker_request.amount_sat;
      })

  -- The last field is `fetched_values.6` again, as in the source.
  abbrev pub awaiting_bond_offer : MakerRequest → AwaitingBondOffer
  awaiting_bond_offer r = record {
    robohash_hex = x.hex_encode r.robohash;
    is_buy_order = get_bool r.is_buy_order;
    amount_satoshi = r.amount_sat;
    bond_ratio = r.bond_ratio;
    offer_duration_ts = r.offer_duration_ts;
    bond_address = r.bond_address;
    bond_amount_sat = r.bond_amount_sat;
    escrow_locking_input_amount_without_trade_sum = r.bond_amount_sat;
  }

  unfoldable pub fetch_and_delete_offer_from_bond_table :
      String → Action CoordinatorDb AnyError AwaitingBondOffer
  fetch_and_delete_offer_from_bond_table robohash_hex = do
    robohash ← lift (decode_hex robohash_hex)
    fetched_values ← reads (λ db. fetch_one (robohash_is robohash) db.maker_requests)
    again ← lift (decode_hex robohash_hex)
    modify (λ db. record db { maker_requests = delete (robohash_is again) db.maker_requests })
    pure (awaiting_bond_offer fetched_values)

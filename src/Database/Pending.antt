-- ===== src/Database/Pending.antt =====
-- A maker's request, from its insertion to the query for its bond (database/mod.rs).
use taptrade_core.Prelude.{◌≡◌, some, Bytes, bytes_eq_refl}
use taptrade_core.Prelude.Result.{ok}
use taptrade_core.Externals.{Externals}
use taptrade_core.Api.{OfferRequest, BondRequirementResponse}
use taptrade_core.Sql.Rows.{fetch-insert_self}
use taptrade_core.Database.Tables.{CoordinatorDb}
use taptrade_core.Database.Requests.{
  robohash_is, request_row, insert_new_maker_request, fetch_bond_requirements,
}

module _ (x : Externals) where
  -- Once a request is inserted, the query by the same robohash returns its bond address, its bond
  -- amount and its trade amount, whatever request the robohash had before.
  pub fetch-insert_new_maker_request :
      (order : OfferRequest) (b : BondRequirementResponse) (db : CoordinatorDb) {robohash : Bytes}
      → x.hex_decode order.robohash_hex ≡ some robohash
      → fetch_bond_requirements x order.robohash_hex (insert_new_maker_request x order b db).1
        ≡ ok (record {
          bond_address = b.bond_address;
          locking_amount_sat = b.locking_amount_sat;
          min_input_sum_sat = order.amount_satoshi;
        })
  unfolding fetch_bond_requirements insert_new_maker_request
  fetch-insert_new_maker_request order b db {robohash} h = rw h (
      rw (
        fetch-insert_self (robohash_is robohash) (request_row robohash order b) db.maker_requests
          (bytes_eq_refl robohash)))

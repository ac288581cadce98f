-- ===== src/Database/Orderbook.antt =====
-- Table `active_maker_offers`, the orderbook (database/mod.rs).
use taptrade_core.Prelude.{
  ℕ, String, Bool, ◌&&◌, str_eq, Bytes, Option, none, some, List, [], ◌∷◌, map,
}
use taptrade_core.Prelude.Result.{
  Result, ok, Action, pure, fail, lift, reads, modify, and_then, ◌>>=◌, ◌>>◌,
}
use taptrade_core.Errors.{AnyError, invalid_table}
use taptrade_core.Externals.{Externals}
use taptrade_core.Api.{BondSubmissionRequest, OffersRequest, PublicOffer}
use taptrade_core.Types.{BondRequirements, MonitoringBond, Table, orderbook, active_trades, memory}
use taptrade_core.Sql.{select, fetch_one, delete, insert_or_replace, sql_eq, between}
use taptrade_core.Database.Tables.{ActiveMakerOffer, CoordinatorDb, bool_to_sql_int, bool_to_int}
use taptrade_core.Database.Requests.{
  AwaitingBondOffer, decode_hex, get_bool, fetch_and_delete_offer_from_bond_table,
}

-- WHERE offer_id = ?
abbrev pub offer_is : String → ActiveMakerOffer → Bool
offer_is offer_id r = str_eq r.offer_id offer_id

-- WHERE is_buy_order = ? AND amount_sat BETWEEN ? AND ?
abbrev pub is_suitable : OffersRequest → ActiveMakerOffer → Bool
is_suitable q r =
    sql_eq r.is_buy_order (bool_to_int q.buy_offers)
    && between r.amount_sat q.amount_min_sat q.amount_max_sat

pub record AwaitingTakerOffer : Type 0 where
  pub offer_id : String
  pub robohash_maker : Bytes
  pub is_buy_order : Bool
  pub amount_sat : ℕ
  pub bond_ratio : ℕ
  pub offer_duration_ts : ℕ
  pub bond_address_maker : String
  pub bond_amount_sat : ℕ
  pub bond_tx_hex_maker : String
  pub payout_address_maker : String
  pub taproot_pubkey_hex_maker : String
  pub musig_pub_nonce_hex_maker : String
  pub musig_pubkey_hex_maker : String

-- the row that `move_offer_to_active` binds
abbrev pub active_row :
    String → Bytes → AwaitingBondOffer → BondSubmissionRequest → String → ActiveMakerOffer
active_row offer_id robohash info bond taker_bond_address = record {
  offer_id = offer_id;
  robohash = robohash;
  is_buy_order = bool_to_sql_int info.is_buy_order;
  amount_sat = info.amount_satoshi;
  bond_ratio = info.bond_ratio;
  offer_duration_ts = info.offer_duration_ts;
  bond_address = info.bond_address;
  bond_amount_sat = info.bond_amount_sat;
  escrow_locking_input_amount_without_trade_sum =
      info.escrow_locking_input_amount_without_trade_sum;
  bond_tx_hex = bond.signed_bond_hex;
  payout_address = bond.payout_address;
  change_address_maker = bond.client_change_address;
  escrow_inputs_hex_maker_csv = bond.bdk_psbt_inputs_hex_csv;
  taproot_pubkey_hex_maker = bond.taproot_pubkey_hex;
  musig_pub_nonce_hex = bond.musig_pub_nonce_hex;
  musig_pubkey_hex = bond.musig_pubkey_hex;
  taker_bond_address = taker_bond_address;
}

abbrev pub public_offer : ActiveMakerOffer → PublicOffer
public_offer r = record {
  amount_sat = r.amount_sat;
  offer_id_hex = r.offer_id;
  bond_requirements = record {
    bond_address = r.taker_bond_address;
    locking_amount_sat = r.bond_amount_sat;
    escrow_locking_input_amount_without_trade_sum = r.escrow_locking_input_amount_without_trade_sum;
  };
}

abbrev pub if_any : List PublicOffer → Option (List PublicOffer)
if_any [] = none
if_any (o ∷ os) = some (o ∷ os)

unfoldable pub fetch_suitable_offers :
    OffersRequest → CoordinatorDb → Result AnyError (Option (List PublicOffer))
fetch_suitable_offers requested_offer db =
    ok (if_any (map public_offer (select (is_suitable requested_offer) db.active_maker_offers)))

unfoldable pub fetch_taker_bond_requirements :
    String → CoordinatorDb → Result AnyError BondRequirements
fetch_taker_bond_requirements offer_id_hex db =
    and_then (fetch_one (offer_is offer_id_hex) db.active_maker_offers) λ r. ok (record {
      bond_address = r.taker_bond_address;
      locking_amount_sat = r.bond_amount_sat;
      min_input_sum_sat = r.amount_sat;
    })

abbrev pub monitoring_bond : ActiveMakerOffer → MonitoringBond
monitoring_bond r = record {
  bond_tx_hex = r.bond_tx_hex;
  trade_id_hex = r.offer_id;
  robot = r.robohash;
  requirements = record {
    bond_address = r.bond_address;
    locking_amount_sat = r.bond_amount_sat;
    min_input_sum_sat = r.amount_sat;
  };
  table = orderbook;
}

unfoldable pub fetch_all_bonds : CoordinatorDb → Result AnyError (List MonitoringBond)
fetch_all_bonds db = ok (map monitoring_bond db.active_maker_offers)

-- the test `bond.table == Table::Orderbook`
abbrev pub remove_from : Table → String → Action CoordinatorDb AnyError (Unit {0})
remove_from orderbook trade_id_hex = modify (λ db. record db {
  active_maker_offers = delete (offer_is trade_id_hex) db.active_maker_offers;
})
remove_from active_trades _ = fail invalid_table
remove_from memory _ = fail invalid_table

unfoldable pub remove_violating_bond : MonitoringBond → Action CoordinatorDb AnyError (Unit {0})
remove_violating_bond bond = remove_from bond.table bond.trade_id_hex

module _ (x : Externals) where
  unfoldable pub move_offer_to_active :
      BondSubmissionRequest → String → String → Action CoordinatorDb AnyError ℕ
  unfolding fetch_and_delete_offer_from_bond_table
  move_offer_to_active bond offer_id taker_bond_address = do
    info ← fetch_and_delete_offer_from_bond_table x bond.robohash_hex
    robohash ← lift (decode_hex x bond.robohash_hex)
    modify (λ db. record db {
      active_maker_offers =
          insert_or_replace (offer_is offer_id)
            (active_row offer_id robohash info bond taker_bond_address) db.active_maker_offers;
    })
    pure info.offer_duration_ts

  abbrev pub awaiting_taker_offer : String → ActiveMakerOffer → AwaitingTakerOffer
  awaiting_taker_offer offer_id r = record {
    offer_id = offer_id;
    robohash_maker = r.robohash;
    is_buy_order = get_bool x r.is_buy_order;
    amount_sat = r.amount_sat;
    bond_ratio = r.bond_ratio;
    offer_duration_ts = r.offer_duration_ts;
    bond_address_maker = r.bond_address;
    bond_amount_sat = r.bond_amount_sat;
    bond_tx_hex_maker = r.bond_tx_hex;
    payout_address_maker = r.payout_address;
    taproot_pubkey_hex_maker = r.taproot_pubkey_hex_maker;
    musig_pub_nonce_hex_maker = r.musig_pub_nonce_hex;
    musig_pubkey_hex_maker = r.musig_pubkey_hex;
  }

  unfoldable pub fetch_and_delete_offer_from_public_offers_table :
      String → Action CoordinatorDb AnyError AwaitingTakerOffer
  fetch_and_delete_offer_from_public_offers_table offer_id_hex = do
    fetched_values ← reads (λ db. fetch_one (offer_is offer_id_hex) db.active_maker_offers)
    modify (λ db. record db {
      active_maker_offers = delete (offer_is offer_id_hex) db.active_maker_offers;
    })
    pure (awaiting_taker_offer offer_id_hex fetched_values)

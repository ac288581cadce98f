-- ===== src/Protocol/View.antt =====
-- What the tables show of an offer (database/mod.rs).
use taptrade_core.Prelude.{String, ◌==◌, Option}
use mathlib.Core.Option
use taptrade_core.Sql.{fetch_optional}
use taptrade_core.Database.Tables.{TakenOffer, ActiveMakerOffer, CoordinatorDb}
use taptrade_core.Database.Orderbook
use taptrade_core.Database.Taken.{offer_is}
use taptrade_core.Database.Trade.{flag, is_ongoing}
use taptrade_core.Coordinator.Trades.{is_happy}
use taptrade_core.Protocol.{Listing, Terms, Trade, Offer, offer, Steps}

abbrev pub trade_terms : TakenOffer → Terms
trade_terms r = record {
  listing = record {
    maker = r.robohash_maker;
    amount = r.amount_sat;
    ratio = r.bond_ratio;
    duration = r.offer_duration_ts;
    bond = r.bond_amount_sat;
    bond_tx = r.bond_tx_hex_maker;
    payout_address = r.payout_address_maker;
  };
  taker = r.robohash_taker;
  txid = r.escrow_psbt_txid;
  descriptor = r.escrow_output_descriptor;
  amount_maker = r.escrow_amount_maker_sat;
  amount_taker = r.escrow_amount_taker_sat;
}

abbrev pub trade_view : TakenOffer → Trade
trade_view r = record {
  terms = trade_terms r;
  confirmed = r.escrow_psbt_is_confirmed == 1;
  signed_maker = r.signed_escrow_psbt_hex_maker;
  signed_taker = r.signed_escrow_psbt_hex_taker;
  maker_happy = is_happy (flag r.maker_happy);
  taker_happy = is_happy (flag r.taker_happy);
  dispute = is_ongoing r;
  winner = r.escrow_winner_robohash;
  payout = r.payout_transaction_psbt_hex;
  sig_maker = r.musig_partial_sig_hex_maker;
  sig_taker = r.musig_partial_sig_hex_taker;
}

abbrev pub row_listing : ActiveMakerOffer → Listing
row_listing r = record {
  maker = r.robohash;
  amount = r.amount_sat;
  ratio = r.bond_ratio;
  duration = r.offer_duration_ts;
  bond = r.bond_amount_sat;
  bond_tx = r.bond_tx_hex;
  payout_address = r.payout_address;
}

abbrev pub listed : String → CoordinatorDb → Option Listing
listed offer_id db =
    Option.map row_listing (fetch_optional (Orderbook.offer_is offer_id) db.active_maker_offers)

abbrev pub traded : String → CoordinatorDb → Option Trade
traded offer_id db = Option.map trade_view (fetch_optional (offer_is offer_id) db.taken_offers)

-- the offer with the id, as the tables show it
abbrev pub view : String → CoordinatorDb → Offer
view offer_id db = offer (listed offer_id db) (traded offer_id db)

-- The offer gets from one database to the other by steps of the protocol.
abbrev pub Forward : Type 0 → String → CoordinatorDb → CoordinatorDb → Type 0
Forward N offer_id db db' = Steps N (view offer_id db) (view offer_id db')

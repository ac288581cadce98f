-- ===== src/Tests/Databases.antt =====
-- The theorems on the database at concrete inputs.
use taptrade_core.Prelude.{◌+◌, ◌*◌, ◌≡◌, ◌↔◌, refl, true, some, inr, [], ◌∷◌, arith, str_eq}
use mathlib.Core.Option
use taptrade_core.Prelude.Result.{ok, err}
use taptrade_core.Errors.{row_not_found, invalid_hex}
use taptrade_core.Sql.{fetch_optional}
use taptrade_core.Sql.Rows.{Elem}
use taptrade_core.Database.Tables.{ActiveMakerOffer, init}
use taptrade_core.Database.Requests.{insert_new_maker_request}
use taptrade_core.Database.Orderbook
use taptrade_core.Database.Orderbook.{
  move_offer_to_active, fetch_taker_bond_requirements, fetch_suitable_offers, public_offer,
  awaiting_taker_offer,
}
use taptrade_core.Database.Taken.{add_taker_info_and_move_table, taken_row}
use taptrade_core.Database.Trade.{toggle_processing}
use taptrade_core.Database.Payout.{escrow_amounts_of, payout_amounts}
use taptrade_core.Database.Suitable.{listed, Suits, listed-Suits}
use taptrade_core.Database.Moves.{locking_input_overwritten, add_taker_info_and_move_table-loses}
use taptrade_core.Database.Processing.{after_calls, toggle_processing-alternates}
use taptrade_core.Database.Amounts.{payout_amounts-escrow_amounts_of}
use taptrade_core.Tests.Data.{
  crates, order, bond_response, bond_of, offer, take_by, escrow, trade, listed_db, trading,
  any_offer,
}

listed-Suits_example :
    Elem (public_offer offer) (listed (fetch_suitable_offers (any_offer true) listed_db)) ↔ (
      (r : ActiveMakerOffer) × Elem r (offer ∷ [])
      × Suits (any_offer true) r
      × (public_offer offer ≡ public_offer r))
listed-Suits_example =
    listed-Suits (any_offer true) listed_db (public_offer offer) (ground arith) (ground arith)
      (ground arith, tt)

locking_input_overwritten_example :
    Option.map public_offer (
      fetch_optional
        (Orderbook.offer_is "77")
        (move_offer_to_active crates
          (bond_of "m")
          "77"
          "bcrt1"
          (insert_new_maker_request crates order bond_response init).1).1.active_maker_offers)
    ≡ some (record {
      amount_sat = 1000000;
      offer_id_hex = "77";
      bond_requirements = record {
        bond_address = "bcrt1";
        locking_amount_sat = 100000;
        escrow_locking_input_amount_without_trade_sum = 100000;
      };
    })
locking_input_overwritten_example =
    locking_input_overwritten crates order bond_response (bond_of "m") "77" "bcrt1" init refl refl

add_taker_info_and_move_table-loses_example :
    ((add_taker_info_and_move_table crates (take_by "zz") escrow listed_db).0 ≡ err invalid_hex)
    × (fetch_taker_bond_requirements "77"
          (add_taker_info_and_move_table crates (take_by "zz") escrow listed_db).1
        ≡ err row_not_found)
    × ((add_taker_info_and_move_table crates (take_by "zz") escrow listed_db).1.taken_offers ≡ [])
unfolding fetch_optional str_eq
add_taker_info_and_move_table-loses_example =
    add_taker_info_and_move_table-loses crates (take_by "zz") escrow listed_db refl refl

toggle_processing-alternates_example :
    (toggle_processing "77" (after_calls 2 "77" (trading trade))).0 ≡ ok true
unfolding fetch_optional str_eq
toggle_processing-alternates_example =
    toggle_processing-alternates 2 "77" (trading trade) {row = trade} refl refl

payout_amounts-escrow_amounts_of_example :
    (100000 + 1100000 ≡ 1000000 + 2 * 100000)
    × (payout_amounts crates
          (taken_row (awaiting_taker_offer crates "77" offer) (116 ∷ []) (take_by "t") escrow)
        ≡ (1100000, 100000))
unfolding escrow_amounts_of
payout_amounts-escrow_amounts_of_example =
    payout_amounts-escrow_amounts_of crates offer (116 ∷ []) (take_by "t") escrow
      (100000, 1100000, 10000) refl (inr refl) refl refl refl

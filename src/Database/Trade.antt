-- ===== src/Database/Trade.antt =====
-- Table `taken_offers` from the confirmed escrow transaction on: satisfaction, disputes, and the
-- end of a trade (database/mod.rs).
use taptrade_core.Prelude.{
  ℕ, String, Bool, true, false, ◌==◌, not, Option, none, some, List, map, if◌then◌else◌,
}
use taptrade_core.Prelude.Result.{Result, ok, Action, pure, reads, modify, and_then, ◌>>=◌, ◌>>◌}
use taptrade_core.Errors.{AnyError}
use taptrade_core.Externals.{Externals}
use taptrade_core.Types.{TraderHappiness, EscrowCase}
use taptrade_core.Sql.{select, fetch_one, delete}
use taptrade_core.Database.Tables.{TakenOffer, CoordinatorDb, bool_to_sql_int}
use taptrade_core.Database.Taken.{offer_is, update_taken, is_maker_in_taken_offers}

abbrev pub set_happy : Bool → Option ℕ → TakenOffer → TakenOffer
set_happy true v r = record r { maker_happy = v }
set_happy false v r = record r { taker_happy = v }

abbrev pub set_ongoing : TakenOffer → TakenOffer
set_ongoing r = record r { escrow_ongoing = 1 }

abbrev pub flag : Option ℕ → Option Bool
flag none = none
flag (some v) = some (not (v == 0))

abbrev pub happiness : TakenOffer → TraderHappiness
happiness r = record {
  maker_happy = flag r.maker_happy;
  taker_happy = flag r.taker_happy;
  escrow_ongoing = not (r.escrow_ongoing == 0);
}

unfoldable pub fetch_trader_happiness : String → CoordinatorDb → Result AnyError TraderHappiness
fetch_trader_happiness offer_id db =
    and_then (fetch_one (offer_is offer_id) db.taken_offers) λ row. ok (happiness row)

unfoldable pub fetch_escrow_result : String → CoordinatorDb → Result AnyError (Option String)
fetch_escrow_result offer_id db =
    and_then (fetch_one (offer_is offer_id) db.taken_offers) λ row. ok row.escrow_winner_robohash

-- CASE WHEN processing = 0 THEN 1 ELSE 0 END
abbrev pub toggle : TakenOffer → TakenOffer
toggle r = record r { processing = if r.processing == 0 then 1 else 0 }

-- The row that RETURNING reads is the one that the UPDATE has written.
unfoldable pub toggle_processing : String → Action CoordinatorDb AnyError Bool
toggle_processing offer_id = do
  row ← reads (λ db. fetch_one (offer_is offer_id) db.taken_offers)
  modify (update_taken (offer_is offer_id) toggle)
  pure ((toggle row).processing == 1)

unfoldable pub delete_complete_offer : String → Action CoordinatorDb AnyError (Unit {0})
delete_complete_offer offer_id =
    modify (λ db. record db { taken_offers = delete (offer_is offer_id) db.taken_offers })

abbrev pub is_ongoing : TakenOffer → Bool
is_ongoing r = r.escrow_ongoing == 1

abbrev pub resolve : String → TakenOffer → TakenOffer
resolve winner_robohash r = record r {
  escrow_ongoing = 0;
  escrow_winner_robohash = some winner_robohash;
}

unfoldable pub resolve_escrow : String → String → Action CoordinatorDb AnyError (Unit {0})
resolve_escrow offer_id winner_robohash =
    modify (update_taken (offer_is offer_id) (resolve winner_robohash))

module _ (x : Externals) where
  unfoldable pub set_trader_happy_field :
      String → String → Bool → Action CoordinatorDb AnyError (Unit {0})
  unfolding is_maker_in_taken_offers
  set_trader_happy_field offer_id robohash is_happy = do
    is_maker ← reads (is_maker_in_taken_offers x offer_id robohash)
    modify (update_taken (offer_is offer_id) (set_happy is_maker (bool_to_sql_int is_happy)))
    if is_happy then pure tt else modify (update_taken (offer_is offer_id) set_ongoing)

  abbrev pub escrow_case : TakenOffer → EscrowCase
  escrow_case r = record {
    maker_id = x.hex_encode r.robohash_maker;
    taker_id = x.hex_encode r.robohash_taker;
    offer_id = r.offer_id;
  }

  unfoldable pub get_open_escrows : CoordinatorDb → Result AnyError (List EscrowCase)
  get_open_escrows db = ok (map escrow_case (select is_ongoing db.taken_offers))

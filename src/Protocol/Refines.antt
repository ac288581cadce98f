-- ===== src/Protocol/Refines.antt =====
-- The methods of `CoordinatorDB` that move an offer from table to table, and all methods that write,
-- as steps of the protocol (database/mod.rs).
use taptrade_core.Prelude.{
  String, ◌≡◌, refl, sym, ◌∙◌, inl, inr, true, is_some, Option, none, some, str_eq, str_eq_iff,
  str_eq_refl, ◌⊎◌, Bool-cases, Bytes,
}
use mathlib.Core.Option
use taptrade_core.Prelude.Result.{resume-cases}
use taptrade_core.Externals.{Externals}
use taptrade_core.Api.{OfferPsbtRequest}
use taptrade_core.Types.{EscrowPsbt}
use taptrade_core.Sql.{fetch_optional, delete, insert_or_replace}
use taptrade_core.Sql.Rows.{fetch-delete_self, fetch-insert_self}
use taptrade_core.Sql.Others.{fetch-delete_other, fetch-insert_other}
use taptrade_core.Database.Tables.{TakenOffer, ActiveMakerOffer, CoordinatorDb}
use taptrade_core.Database.Requests.{decode_hex}
use taptrade_core.Database.Orderbook
use taptrade_core.Database.Orderbook.{
  move_offer_to_active, active_row, awaiting_taker_offer, remove_violating_bond, remove_from,
  fetch_and_delete_offer_from_public_offers_table,
}
use taptrade_core.Database.Taken.{offer_is, taken_row, add_taker_info_and_move_table}
use taptrade_core.Database.Trade.{delete_complete_offer}
use taptrade_core.Database.Writes.{Write, run_write}
use taptrade_core.Protocol.Allowed.{Finished, Allowed}
use taptrade_core.Protocol.{
  Listing, Terms, Trade, Steps, here, next, begins, ends, overwrites, offer, fresh, Exclusive,
}
use taptrade_core.Protocol.View.{trade_view, trade_terms, listed, traded, view, Forward}
use taptrade_core.Protocol.Updates.{row_of, offer_is-Disjoint}
use taptrade_core.Protocol.Listings.{
  NewId, listed_is-Disjoint, delisted-Forward, remove_violating_bond-Forward,
  insert_new_maker_request-Forward, move_offer_to_active-Forward,
}
use taptrade_core.Protocol.Writes.{
  toggle_processing-Forward, resolve_escrow-Forward, confirm_bond_txids-Forward,
  insert_keyspend_payout_psbt-Forward, insert_signed_escrow_psbt-Forward,
  insert_partial_sig-Forward, set_trader_happy_field-Forward,
}

-- the database without the offer, and with its trade
abbrev taken_over :
    Externals
    → OfferPsbtRequest
    → EscrowPsbt
    → ActiveMakerOffer
    → Bytes
    → CoordinatorDb
    → CoordinatorDb
taken_over x q escrow row taker db = record db {
  active_maker_offers = delete (Orderbook.offer_is q.offer.offer_id_hex) db.active_maker_offers;
  taken_offers =
      insert_or_replace (offer_is q.offer.offer_id_hex)
        (taken_row (awaiting_taker_offer x q.offer.offer_id_hex row) taker q escrow)
        db.taken_offers;
}

module _ {N : Type 0} (offer_id : String) where
  finishes :
      (db : CoordinatorDb) (o : Option TakenOffer) (b : Option Listing)
      → ((r : TakenOffer)
          → o ≡ some r
          → (is_some r.musig_partial_sig_hex_maker ≡ true)
            × (is_some r.musig_partial_sig_hex_taker ≡ true))
      → Steps N (offer b (Option.map trade_view o)) (offer b none)
  finishes db none b h = here
  finishes db (some r) b h = next here (ends b (trade_view r) (h r refl).0 (h r refl).1)

  delete_complete_offer-Forward :
      (other : String) (db : CoordinatorDb)
      → Finished other db
      → Forward N offer_id db (delete_complete_offer other db).1
  unfolding delete_complete_offer
  delete_complete_offer-Forward other db f = elim (Bool-cases (str_eq other offer_id)) [
    | inl e ↦
        let same : other ≡ offer_id = (str_eq_iff other offer_id).0 e in
        rw same (
          rw (fetch-delete_self (offer_is offer_id) db.taken_offers) (
            finishes db (row_of offer_id db) (listed offer_id db) (λ r g.
              let there : row_of offer_id db ≡ some f.row = rw (← same) f.found in
              let eq : f.row ≡ r = some-eq (sym there ∙ g) in
              (rw (← eq) f.maker, rw (← eq) f.taker))))
    | inr e ↦
        rw
          (fetch-delete_other (offer_is offer_id) (offer_is other) db.taken_offers
            (offer_is-Disjoint other offer_id e))
          here
  ]
    where
      some-eq : {a b : TakenOffer} → ◌≡◌ {A = Option TakenOffer} (some a) (some b) → a ≡ b
      some-eq h = cc

  module _ (x : Externals) where
    -- The trade of an offer that was in the orderbook begins.
    begun :
        (terms : Terms) (old : Option Trade)
        → Exclusive (offer (some terms.listing) old) ⊎ N
        → Steps N (offer (some terms.listing) old) (offer none (some (fresh terms)))
    begun terms old (inl ex) = rw (ex terms.listing refl) (next here (begins terms))
    begun terms old (inr n) = next here (overwrites n (some terms.listing) terms old)

    taken_over-Forward :
        (q : OfferPsbtRequest) (escrow : EscrowPsbt) (row : ActiveMakerOffer) (taker : Bytes)
        (db : CoordinatorDb)
        → fetch_optional (Orderbook.offer_is q.offer.offer_id_hex) db.active_maker_offers ≡ some row
        → Exclusive (view offer_id db) ⊎ N
        → Forward N offer_id db (taken_over x q escrow row taker db)
    taken_over-Forward q escrow row taker db found ex =
        let other = q.offer.offer_id_hex in
        let new = taken_row (awaiting_taker_offer x other row) taker q escrow in
        elim (Bool-cases (str_eq other offer_id)) [
          | inl e ↦
              let same : other ≡ offer_id = (str_eq_iff other offer_id).0 e in
              let here_ex : Exclusive (view other db) ⊎ N = rw same ex in
              rw (← same) (
                rw (fetch-delete_self (Orderbook.offer_is other) db.active_maker_offers) (
                  rw (fetch-insert_self (offer_is other) new db.taken_offers (str_eq_refl other))
                    (rw found (begun (trade_terms new) (traded other db) (rw found at here_ex)))))
          | inr e ↦
              rw
                (fetch-insert_other (offer_is offer_id) (offer_is other) new db.taken_offers
                  (offer_is-Disjoint other offer_id e) e)
                (rw
                  (fetch-delete_other (Orderbook.offer_is offer_id) (Orderbook.offer_is other)
                    db.active_maker_offers (listed_is-Disjoint other offer_id e))
                  here)
        ]

    add_taker_info_and_move_table-Forward :
        (q : OfferPsbtRequest) (escrow : EscrowPsbt) (db : CoordinatorDb)
        → Exclusive (view offer_id db) ⊎ N
        → Forward N offer_id db (add_taker_info_and_move_table x q escrow db).1
    unfolding add_taker_info_and_move_table fetch_and_delete_offer_from_public_offers_table
    add_taker_info_and_move_table-Forward q escrow db ex = by_fetched _ refl
      where
        by_fetched :
            (o : Option ActiveMakerOffer)
            → fetch_optional (Orderbook.offer_is q.offer.offer_id_hex) db.active_maker_offers ≡ o
            → Forward N offer_id db (add_taker_info_and_move_table x q escrow db).1
        by_fetched none e = rw e here
        by_fetched (some row) e = rw e (
            resume-cases (Forward N offer_id db) (decode_hex x q.trade_data.robohash_hex) _ _
              (delisted-Forward offer_id q.offer.offer_id_hex db ex)
              (λ taker _. taken_over-Forward q escrow row taker db e ex))

    pub run_write-Forward :
        (w : Write) (db : CoordinatorDb)
        → Allowed (NewId N offer_id) w db
        → Exclusive (view offer_id db) ⊎ N
        → Forward N offer_id db (run_write x w db)
    unfolding run_write
    run_write-Forward (Write.insert_new_maker_request o b) db a ex =
        insert_new_maker_request-Forward offer_id x o b db
    run_write-Forward (Write.move_offer_to_active b i address) db a ex =
        move_offer_to_active-Forward offer_id x b i address db a
    run_write-Forward (Write.add_taker_info_and_move_table q e) db a ex =
        add_taker_info_and_move_table-Forward q e db ex
    run_write-Forward (Write.remove_violating_bond b) db a ex =
        remove_violating_bond-Forward offer_id b db ex
    run_write-Forward (Write.confirm_bond_txids ts) db a ex =
        confirm_bond_txids-Forward offer_id ts db
    run_write-Forward (Write.insert_signed_escrow_psbt p) db a ex =
        insert_signed_escrow_psbt-Forward offer_id x p db
    run_write-Forward (Write.set_trader_happy_field i r h) db a ex =
        set_trader_happy_field-Forward offer_id x i r h db a
    run_write-Forward (Write.insert_keyspend_payout_psbt i p) db a ex =
        insert_keyspend_payout_psbt-Forward offer_id i p db a
    run_write-Forward (Write.insert_partial_sig s i r) db a ex =
        insert_partial_sig-Forward offer_id x s i r db a
    run_write-Forward (Write.toggle_processing i) db a ex = toggle_processing-Forward offer_id i db
    run_write-Forward (Write.delete_complete_offer i) db a ex = delete_complete_offer-Forward i db a
    run_write-Forward (Write.resolve_escrow i w) db a ex = resolve_escrow-Forward offer_id i w db a

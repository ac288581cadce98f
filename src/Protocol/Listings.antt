-- ===== src/Protocol/Listings.antt =====
-- The methods of `CoordinatorDB` that put an offer into the orderbook or take it out, as steps of the
-- protocol (database/mod.rs).
use taptrade_core.Prelude.{
  String, ◌≡◌, refl, inl, inr, true, false, none, some, str_eq, str_eq_iff, str_eq_refl, ◌⊎◌, ap,
  Bool-cases,
}
use taptrade_core.Prelude.Result.{resume-cases}
use taptrade_core.Externals.{Externals}
use taptrade_core.Api.{OfferRequest, BondRequirementResponse, BondSubmissionRequest}
use taptrade_core.Types.{MonitoringBond, Table, orderbook, active_trades, memory}
use taptrade_core.Sql.{fetch_one, delete, insert_or_replace}
use taptrade_core.Sql.Rows.{Disjoint, fetch-delete_self, fetch-insert_self}
use taptrade_core.Sql.Others.{fetch-delete_other, fetch-insert_other}
use taptrade_core.Database.Tables.{ActiveMakerOffer, CoordinatorDb}
use taptrade_core.Database.Requests.{
  decode_hex, robohash_is, insert_new_maker_request, fetch_and_delete_offer_from_bond_table,
}
use taptrade_core.Database.Orderbook
use taptrade_core.Database.Orderbook.{
  move_offer_to_active, active_row, awaiting_taker_offer, remove_violating_bond, remove_from,
  fetch_and_delete_offer_from_public_offers_table,
}
use taptrade_core.Protocol.{Steps, here, next, lists, collides, offer, Exclusive, withdrawn}
use taptrade_core.Protocol.View.{row_listing, listed, traded, view, Forward}

-- A new id is that of no offer in the orderbook and of no trade.
abbrev pub NewId : Type 0 → String → String → CoordinatorDb → Type 0
NewId N offer_id id db = (str_eq id offer_id ≡ true → view offer_id db ≡ offer none none) ⊎ N

pub listed_is-Disjoint :
    (a b : String) → str_eq a b ≡ false → Disjoint (Orderbook.offer_is a) (Orderbook.offer_is b)
listed_is-Disjoint a b ne r h = rw ((str_eq_iff r.offer_id a).0 h) ne

-- `s` has the tables of offers and trades that `db` has
abbrev SameTables : CoordinatorDb → CoordinatorDb → Type 0
SameTables db s =
    (s.active_maker_offers ≡ db.active_maker_offers) × (s.taken_offers ≡ db.taken_offers)

fetch_request_same :
    (x : Externals) (robohash : String) (db : CoordinatorDb)
    → SameTables db (fetch_and_delete_offer_from_bond_table x robohash db).1
unfolding fetch_and_delete_offer_from_bond_table
fetch_request_same x robohash db =
    resume-cases (SameTables db) (decode_hex x robohash) db _ (refl, refl)
      (λ key _.
        resume-cases (SameTables db) (fetch_one (robohash_is key) db.maker_requests) db _
          (refl, refl)
          (λ _ _.
            resume-cases (SameTables db) (decode_hex x robohash) db _ (refl, refl)
              (λ _ _. (refl, refl))))

module _ {N : Type 0} (offer_id : String) where
  -- Nothing changes for the offer where its two tables stay.
  same_tables :
      (db db' : CoordinatorDb)
      → db'.active_maker_offers ≡ db.active_maker_offers
      → db'.taken_offers ≡ db.taken_offers
      → Forward N offer_id db db'
  same_tables db db' e f = rw (e, f) here

  -- An offer that is taken out of the orderbook is withdrawn, and the others stay.
  pub delisted-Forward :
      (id : String) (db : CoordinatorDb)
      → Exclusive (view offer_id db) ⊎ N
      → Forward N offer_id db (record db {
        active_maker_offers = delete (Orderbook.offer_is id) db.active_maker_offers;
      })
  delisted-Forward id db ex = elim (Bool-cases (str_eq id offer_id)) [
    | inl e ↦
        let same : id ≡ offer_id = (str_eq_iff id offer_id).0 e in
        rw same (
          rw (fetch-delete_self (Orderbook.offer_is offer_id) db.active_maker_offers)
            (withdrawn (listed offer_id db) (traded offer_id db) ex))
    | inr e ↦
        rw
          (fetch-delete_other (Orderbook.offer_is offer_id) (Orderbook.offer_is id)
            db.active_maker_offers (listed_is-Disjoint id offer_id e))
          here
  ]

  pub remove_violating_bond-Forward :
      (bond : MonitoringBond) (db : CoordinatorDb)
      → Exclusive (view offer_id db) ⊎ N
      → Forward N offer_id db (remove_violating_bond bond db).1
  unfolding remove_violating_bond
  remove_violating_bond-Forward bond db ex = by_table bond.table
    where
      by_table : (t : Table) → Forward N offer_id db (remove_from t bond.trade_id_hex db).1
      by_table orderbook = delisted-Forward bond.trade_id_hex db ex
      by_table active_trades = here
      by_table memory = here

  -- An offer that is put into the orderbook under a new id.
  listed-Forward :
      (row : ActiveMakerOffer) (db : CoordinatorDb)
      → NewId N offer_id row.offer_id db
      → Forward N offer_id db (record db {
        active_maker_offers =
            insert_or_replace (Orderbook.offer_is row.offer_id) row db.active_maker_offers;
      })
  listed-Forward row db new = elim (Bool-cases (str_eq row.offer_id offer_id)) [
    | inl e ↦
        let same : row.offer_id ≡ offer_id = (str_eq_iff row.offer_id offer_id).0 e in
        rw (← same) (
          rw
            (fetch-insert_self (Orderbook.offer_is row.offer_id) row db.active_maker_offers
              (str_eq_refl row.offer_id))
            (elim new [
              | inl unused ↦ from_unused row.offer_id (rw same (unused e))
              | inr n ↦ next here (collides n _ _ (traded row.offer_id db))
            ]))
    | inr e ↦
        rw
          (fetch-insert_other (Orderbook.offer_is offer_id) (Orderbook.offer_is row.offer_id) row
            db.active_maker_offers (listed_is-Disjoint row.offer_id offer_id e) e)
          here
  ]
    where
      from_unused :
          (id : String)
          → view id db ≡ offer none none
          → Steps N (view id db) (offer (some (row_listing row)) (traded id db))
      from_unused id u =
          let no_listing : listed id db ≡ none = ap (λ o. o.listed) u in
          let no_trade : traded id db ≡ none = ap (λ o. o.trade) u in
          rw (no_listing, no_trade) (next here (lists (row_listing row)))

  module _ (x : Externals) where
    pub insert_new_maker_request-Forward :
        (o : OfferRequest) (b : BondRequirementResponse) (db : CoordinatorDb)
        → Forward N offer_id db (insert_new_maker_request x o b db).1
    unfolding insert_new_maker_request
    insert_new_maker_request-Forward o b db =
        resume-cases (Forward N offer_id db) (decode_hex x o.robohash_hex) db _ here (λ _ _. here)

    pub move_offer_to_active-Forward :
        (b : BondSubmissionRequest) (id address : String) (db : CoordinatorDb)
        → NewId N offer_id id db
        → Forward N offer_id db (move_offer_to_active x b id address db).1
    unfolding move_offer_to_active
    move_offer_to_active-Forward b id address db new =
        let s = (fetch_and_delete_offer_from_bond_table x b.robohash_hex db).1 in
        let same = fetch_request_same x b.robohash_hex db in
        resume-cases (Forward N offer_id db)
          (fetch_and_delete_offer_from_bond_table x b.robohash_hex db).0 s _
          (same_tables db s same.0 same.1)
          (λ info _.
            resume-cases (Forward N offer_id db) (decode_hex x b.robohash_hex) s _
              (same_tables db s same.0 same.1)
              (λ robohash _.
                rw (same.0, same.1)
                  (listed-Forward (active_row id robohash info b address) db new)))

-- ===== src/Protocol/Updates.antt =====
-- What a statement on `taken_offers` or the orderbook is to the protocol.
use taptrade_core.Prelude.{
  String, ◌≡◌, refl, sym, ◌∙◌, ap, inl, inr, Bool, true, false, Option, none, some, str_eq,
  str_eq_iff, Bool-cases, if◌then◌else◌,
}
use mathlib.Core.Option
use mathlib.Core.Path.{subst}
use taptrade_core.Sql.{fetch_optional}
use taptrade_core.Sql.Rows.{Disjoint, fetch-test}
use taptrade_core.Sql.Others.{fetch-update_any}
use taptrade_core.Database.Tables.{TakenOffer, CoordinatorDb}
use taptrade_core.Database.Taken.{offer_is, update_taken}
use taptrade_core.Protocol.{Listing, Trade, Move, Steps, offer, here, next, moves}
use taptrade_core.Protocol.View.{trade_view, listed, Forward}

-- the row of `taken_offers` with the id
abbrev pub row_of : String → CoordinatorDb → Option TakenOffer
row_of offer_id db = fetch_optional (offer_is offer_id) db.taken_offers

-- The trade gets there, whether the offer is in the orderbook or not.
abbrev pub Advances : Type 0 → Trade → Trade → Type 0
Advances N t t' = (b : Option Listing) → Steps N (offer b (some t)) (offer b (some t'))

pub one-Move : {N : Type 0} {t t' : Trade} → Move t t' → Advances N t t'
one-Move m b = next here (moves b m)

pub no_change : {N : Type 0} (t : Trade) → Advances N t t
no_change t b = here

pub offer_is-eq : (a : String) (r : TakenOffer) → offer_is a r ≡ true → r.offer_id ≡ a
offer_is-eq a r h = (str_eq_iff r.offer_id a).0 h

pub offer_is-Disjoint : (a b : String) → str_eq a b ≡ false → Disjoint (offer_is a) (offer_is b)
offer_is-Disjoint a b ne r h = rw (offer_is-eq a r h) ne

-- A row found for one id that another id's test accepts is the other's.
same_id :
    (a b : String) (db : CoordinatorDb) (r : TakenOffer)
    → row_of a db ≡ some r
    → offer_is b r ≡ true
    → a ≡ b
same_id a b db r found h =
    sym (offer_is-eq a r (fetch-test (offer_is a) db.taken_offers r found)) ∙ offer_is-eq b r h

module _ {N : Type 0} (offer_id : String) (db : CoordinatorDb) where
  stays :
      (o : Option TakenOffer) (g : TakenOffer → Bool) (f : TakenOffer → TakenOffer)
      (b : Option Listing)
      → ((r : TakenOffer) → o ≡ some r → g r ≡ true → Advances N (trade_view r) (trade_view (f r)))
      → Steps N
          (offer b (Option.map trade_view o))
          (offer b (Option.map trade_view (Option.map (λ r. if g r then f r else r) o)))
  stays none g f b m = here
  stays (some r) g f b m = elim (Bool-cases (g r)) [
    | inl e ↦ rw e (m r refl e b)
    | inr e ↦ rw e here
  ]

  -- An update that leaves the ids alone, and moves the rows that it changes.
  pub update-Forward :
      (g : TakenOffer → Bool) (f : TakenOffer → TakenOffer)
      → ((r : TakenOffer) → (f r).offer_id ≡ r.offer_id)
      → ((r : TakenOffer)
          → row_of offer_id db ≡ some r
          → g r ≡ true
          → Advances N (trade_view r) (trade_view (f r)))
      → Forward N offer_id db (update_taken g f db)
  update-Forward g f keep m =
      rw
        (fetch-update_any (offer_is offer_id) g f db.taken_offers
          (λ r. ap (λ i. str_eq i offer_id) (keep r)))
        (stays (row_of offer_id db) g f (listed offer_id db) m)

  -- An update of one trade.
  pub update_one-Forward :
      (other : String) (f : TakenOffer → TakenOffer)
      → ((r : TakenOffer) → (f r).offer_id ≡ r.offer_id)
      → ((r : TakenOffer) → row_of other db ≡ some r → Advances N (trade_view r) (trade_view (f r)))
      → Forward N offer_id db (update_taken (offer_is other) f db)
  update_one-Forward other f keep m = update-Forward (offer_is other) f keep (λ r found h.
      m r (subst (λ i. row_of i db ≡ some r) (same_id offer_id other db r found h) found))

-- ===== src/Database/Suitable.antt =====
-- What a taker is shown of the orderbook (database/mod.rs, `fetch_suitable_offers`).
use taptrade_core.Prelude.{
  ℕ, ◌^◌, ◌≤◌, ◌<◌, ◌≡◌, ◌↔◌, refl, ap, Bool, true, false, ◌&&◌, Option, none, some, inl, inr, List,
  [], ◌∷◌, map, arith,
}
use taptrade_core.Prelude.Result.{Result, ok, err, panic}
use taptrade_core.Errors.{AnyError}
use taptrade_core.Api.{OffersRequest, PublicOffer}
use taptrade_core.Sql.{select, sql_eq, between}
use taptrade_core.Sql.Rows.{All, Elem, Elem-select}
use taptrade_core.Database.Tables.{ActiveMakerOffer, CoordinatorDb, bool_to_int}
use taptrade_core.Database.Orderbook.{is_suitable, public_offer, if_any, fetch_suitable_offers}
use taptrade_core.Database.Invariant.{HasFlag}

-- the offers in an answer
abbrev pub listed : Result AnyError (Option (List PublicOffer)) → List PublicOffer
listed (ok (some offers)) = offers
listed (ok none) = []
listed (err e) = []
listed panic = []

-- a row of the orderbook that a request asks for
pub record Suits (q : OffersRequest) (r : ActiveMakerOffer) : Type 0 where
  pub direction : r.is_buy_order ≡ some (bool_to_int q.buy_offers)
  pub at_least : q.amount_min_sat ≤ r.amount_sat
  pub at_most : r.amount_sat ≤ q.amount_max_sat

-- no negative `i64`
abbrev pub InI64 : ℕ → Type 0
InI64 n = n < 2 ^ 63

between_iff :
    (v low high : ℕ)
    → InI64 v
    → InI64 low
    → InI64 high
    → (between v low high ≡ true) ↔ ((low ≤ v) × (v ≤ high))
between_iff v low high hv hl hh = ground arith

sql_eq_iff : (v : Option ℕ) (n : ℕ) → (sql_eq v n ≡ true) ↔ (v ≡ some n)
sql_eq_iff none n = ground arith
sql_eq_iff (some m) n = ground arith

and_iff : (a b : Bool) → ((a && b) ≡ true) ↔ ((a ≡ true) × (b ≡ true))
and_iff true b = ground arith
and_iff false b = ground arith

listed-if_any : (offers : List PublicOffer) → listed (ok (if_any offers)) ≡ offers
listed-if_any [] = refl
listed-if_any (o ∷ os) = refl

Elem-of_map :
    (o : PublicOffer) (rs : List ActiveMakerOffer)
    → Elem o (map public_offer rs)
    → (r : ActiveMakerOffer) × Elem r rs × (o ≡ public_offer r)
Elem-of_map o [] h = absurd h
Elem-of_map o (r ∷ rs) (inl e) = (r, inl refl, e)
Elem-of_map o (r ∷ rs) (inr t) = let (r', i, e) = Elem-of_map o rs t in (r', inr i, e)

Elem-map :
    (r : ActiveMakerOffer) (rs : List ActiveMakerOffer)
    → Elem r rs
    → Elem (public_offer r) (map public_offer rs)
Elem-map r [] h = absurd h
Elem-map r (s ∷ rs) (inl e) = inl (ap public_offer e)
Elem-map r (s ∷ rs) (inr t) = inr (Elem-map r rs t)

Elem-All :
    (P : ActiveMakerOffer → Type 0) (r : ActiveMakerOffer) (rs : List ActiveMakerOffer)
    → All P rs
    → Elem r rs
    → P r
Elem-All P r [] a h = absurd h
Elem-All P r (s ∷ rs) a (inl e) = rw e a.0
Elem-All P r (s ∷ rs) a (inr t) = Elem-All P r rs a.1 t

Suits-iff :
    (q : OffersRequest) (r : ActiveMakerOffer)
    → InI64 q.amount_min_sat
    → InI64 q.amount_max_sat
    → InI64 r.amount_sat
    → (is_suitable q r ≡ true) ↔ Suits q r
Suits-iff q r hl hh hv =
    let both =
      and_iff (sql_eq r.is_buy_order (bool_to_int q.buy_offers))
        (between r.amount_sat q.amount_min_sat q.amount_max_sat) in
    let dir = sql_eq_iff r.is_buy_order (bool_to_int q.buy_offers) in
    let range = between_iff r.amount_sat q.amount_min_sat q.amount_max_sat hv hl hh in
    (
      λ h. record {
        direction = dir.0 (both.0 h).0;
        at_least = (range.0 (both.0 h).1).0;
        at_most = (range.0 (both.0 h).1).1;
      },
      λ s. both.1 (dir.1 s.direction, range.1 (s.at_least, s.at_most)),
    )

abbrev pub AmountInI64 : ActiveMakerOffer → Type 0
AmountInI64 r = InI64 r.amount_sat

-- When the bounds asked for and the amounts in the orderbook are no negative `i64`, an offer is in
-- the answer to a request exactly if it shows a row of the orderbook whose direction column equals
-- the direction asked for and whose amount lies between the bounds.
pub listed-Suits :
    (q : OffersRequest) (db : CoordinatorDb) (o : PublicOffer)
    → InI64 q.amount_min_sat
    → InI64 q.amount_max_sat
    → All AmountInI64 db.active_maker_offers
    → Elem o (listed (fetch_suitable_offers q db))
      ↔ ((r : ActiveMakerOffer) × Elem r db.active_maker_offers × Suits q r × (o ≡ public_offer r))
unfolding fetch_suitable_offers
listed-Suits q db o hl hh amounts =
    rw (listed-if_any (map public_offer (select (is_suitable q) db.active_maker_offers))) (
      (λ h.
          let (r, i, e) = Elem-of_map o (select (is_suitable q) db.active_maker_offers) h in
          let (m, t) = (Elem-select (is_suitable q) db.active_maker_offers r).0 i in
          (
            r,
            m,
            (Suits-iff q r hl hh (Elem-All AmountInI64 r db.active_maker_offers amounts m)).0 t,
            e,
          )),
      (λ (r, m, s, e). rw e (
          Elem-map r (select (is_suitable q) db.active_maker_offers) (
            (Elem-select (is_suitable q) db.active_maker_offers r).1 (
              m,
              (Suits-iff q r hl hh (Elem-All AmountInI64 r db.active_maker_offers amounts m)).1 s,
            )))),
    )

none_suitable :
    (q : OffersRequest) (rs : List ActiveMakerOffer)
    → q.buy_offers ≡ false
    → All HasFlag rs
    → select (is_suitable q) rs ≡ []
unfolding select
none_suitable q [] e a = refl
none_suitable q (r ∷ rs) e a = elim a.0 [
  | inl f ↦ rw (e, f) (none_suitable q rs e a.1)
  | inr f ↦ rw (e, f) (none_suitable q rs e a.1)
]

-- `false` is stored as NULL, which equals no bound value: no row suits.
pub fetch_suitable_offers-none :
    (q : OffersRequest) (db : CoordinatorDb)
    → q.buy_offers ≡ false
    → All HasFlag db.active_maker_offers
    → fetch_suitable_offers q db ≡ ok none
unfolding fetch_suitable_offers
fetch_suitable_offers-none q db e a = rw (none_suitable q db.active_maker_offers e a)

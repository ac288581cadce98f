-- ===== src/Protocol.antt =====
-- What the coordinator promises of an offer, as a step relation over what matters of it: whether it
-- is in the orderbook, and how far the trade has got. The system refines it (System/Refinement).
pub mod Order
pub mod View
pub mod Updates
pub mod Writes
pub mod Allowed
pub mod Listings
pub mod Refines
use taptrade_core.Prelude.{
  ℕ, String, ◌≡◌, refl, ◌⊎◌, inl, inr, Bool, true, false, is_some, Option, none, some, Bytes,
}

-- an offer as it stands in the orderbook
pub record Listing : Type 0 where
  pub maker : Bytes
  pub amount : ℕ
  pub ratio : ℕ
  pub duration : ℕ
  pub bond : ℕ
  pub bond_tx : String
  pub payout_address : String

-- what is traded, with whom, and what is locked; nothing of it changes in a trade
pub record Terms : Type 0 where
  pub listing : Listing
  pub taker : Bytes
  pub txid : String
  pub descriptor : String
  pub amount_maker : ℕ
  pub amount_taker : ℕ

pub record Trade : Type 0 where
  pub terms : Terms
  pub confirmed : Bool
  pub signed_maker : Option String
  pub signed_taker : Option String
  pub maker_happy : Bool
  pub taker_happy : Bool
  pub dispute : Bool
  pub winner : Option String
  pub payout : Option String
  pub sig_maker : Option String
  pub sig_taker : Option String

pub record Offer : Type 0 where
  pub listed : Option Listing
  pub trade : Option Trade

abbrev pub offer : Option Listing → Option Trade → Offer
offer listed trade = record { listed = listed; trade = trade }

-- a trade that has just begun
abbrev pub fresh : Terms → Trade
fresh terms = record {
  terms = terms;
  confirmed = false;
  signed_maker = none;
  signed_taker = none;
  maker_happy = false;
  taker_happy = false;
  dispute = false;
  winner = none;
  payout = none;
  sig_maker = none;
  sig_taker = none;
}

-- In what follows `true` stands for the maker and `false` for the taker.
abbrev pub signed_by : Bool → Trade → Option String
signed_by true t = t.signed_maker
signed_by false t = t.signed_taker

abbrev pub sign : Bool → String → Trade → Trade
sign true psbt t = record t { signed_maker = some psbt }
sign false psbt t = record t { signed_taker = some psbt }

abbrev pub sig_by : Bool → Trade → Option String
sig_by true t = t.sig_maker
sig_by false t = t.sig_taker

abbrev pub submit : Bool → String → Trade → Trade
submit true sig t = record t { sig_maker = some sig }
submit false sig t = record t { sig_taker = some sig }

abbrev pub accept : Bool → Trade → Trade
accept true t = record t { maker_happy = true }
accept false t = record t { taker_happy = true }

abbrev pub complain : Bool → Trade → Trade
complain true t = record t { maker_happy = false; dispute = true }
complain false t = record t { taker_happy = false; dispute = true }

abbrev pub decide : String → Trade → Trade
decide w t = record t { dispute = false; winner = some w }

-- how a trade moves on
pub data Move : Trade → Trade → Type 0 where
  confirms : (t : Trade) → Move t (record t { confirmed = true })
  -- a signed escrow psbt is never replaced
  signs :
      (t : Trade) (maker : Bool) (psbt : String)
      → signed_by maker t ≡ none
      → Move t (sign maker psbt t)
  accepts : (t : Trade) (maker : Bool) → t.confirmed ≡ true → Move t (accept maker t)
  complains : (t : Trade) (maker : Bool) → t.confirmed ≡ true → Move t (complain maker t)
  -- the operator's verdict
  decides : (t : Trade) (winner : String) → t.dispute ≡ true → Move t (decide winner t)
  -- the payout psbt is made once, with both traders happy
  pays_out :
      (t : Trade) (psbt : String)
      → t.maker_happy ≡ true
      → t.taker_happy ≡ true
      → t.payout ≡ none
      → Move t (record t { payout = some psbt })
  -- a partial signature is never replaced
  submits :
      (t : Trade) (maker : Bool) (sig : String)
      → t.confirmed ≡ true
      → sig_by maker t ≡ none
      → Move t (submit maker sig t)

-- `Reused` says that ids of offers may be drawn again; when it is empty, the last two steps are none.
pub data Step (Reused : Type 0) : Offer → Offer → Type 0 where
  -- only an id that is not in use is listed
  lists : (l : Listing) → Step Reused (offer none none) (offer (some l) none)
  withdraws : (l : Listing) → Step Reused (offer (some l) none) (offer none none)
  -- a trade begins with the offer that is in the orderbook, which leaves it, and is about that offer
  begins :
      (terms : Terms)
      → Step Reused (offer (some terms.listing) none) (offer none (some (fresh terms)))
  moves :
      (b : Option Listing) {t t' : Trade}
      → Move t t'
      → Step Reused (offer b (some t)) (offer b (some t'))
  -- a trade ends with the signatures of both traders
  ends :
      (b : Option Listing) (t : Trade)
      → is_some t.sig_maker ≡ true
      → is_some t.sig_taker ≡ true
      → Step Reused (offer b (some t)) (offer b none)
  collides :
      Reused → (b b' : Option Listing) (t : Option Trade) → Step Reused (offer b t) (offer b' t)
  overwrites :
      Reused
      → (b : Option Listing) (terms : Terms) (old : Option Trade)
      → Step Reused (offer b old) (offer none (some (fresh terms)))

pub data Steps (Reused : Type 0) (o : Offer) : Offer → Type 0 where
  here : Steps Reused o o
  next : {p q : Offer} → Steps Reused o p → Step Reused p q → Steps Reused o q

pub Steps-trans : {N : Type 0} {o p q : Offer} → Steps N o p → Steps N p q → Steps N o q
Steps-trans r here = r
Steps-trans r (next s st) = next (Steps-trans r s) st

-- An offer is in the orderbook or in a trade, and not in both.
abbrev pub Exclusive : Offer → Type 0
Exclusive o = (l : Listing) → o.listed ≡ some l → o.trade ≡ none

Step-Exclusive : {N : Type 0} {o p : Offer} → Step N o p → Exclusive o ⊎ N → Exclusive p ⊎ N
Step-Exclusive (lists l) e = inl (λ k h. refl)
Step-Exclusive (withdraws l) e = inl (λ k h. refl)
Step-Exclusive (begins terms) e = inl (λ k h. cc)
Step-Exclusive (moves b m) (inl e) = inl (λ k h. none_some (e k h))
  where
    none_some : {t t' : Trade} → ◌≡◌ {A = Option Trade} (some t) none → some t' ≡ none
    none_some h = cc
Step-Exclusive (moves b m) (inr n) = inr n
Step-Exclusive (ends b t m k) e = inl (λ k h. refl)
Step-Exclusive (collides n b b' t) e = inr n
Step-Exclusive (overwrites n b terms old) e = inr n

pub Steps-Exclusive : {N : Type 0} {o p : Offer} → Steps N o p → Exclusive o ⊎ N → Exclusive p ⊎ N
Steps-Exclusive here e = e
Steps-Exclusive (next r st) e = Step-Exclusive st (Steps-Exclusive r e)

-- What is in the orderbook leaves it.
pub withdrawn :
    {N : Type 0} (b : Option Listing) (t : Option Trade)
    → Exclusive (offer b t) ⊎ N
    → Steps N (offer b t) (offer none t)
withdrawn none t e = here
withdrawn (some l) t (inl e) = rw (e l refl) (next here (withdraws l))
withdrawn (some l) t (inr n) = next here (collides n (some l) none t)

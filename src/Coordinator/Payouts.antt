-- ===== src/Coordinator/Payouts.antt =====
-- Who is given a payout psbt to sign (coordinator/mod.rs, `handle_final_payout`).
use taptrade_core.Prelude.{
  String, ◌≡◌, refl, Bool, true, false, ◌&&◌, Option, none, some, inl, inr, Bool-cases,
  if◌then◌else◌, str_eq,
}
use taptrade_core.Prelude.Result.{ok, resume-ok, map_err, map_err-ok, pure}
use taptrade_core.Errors.{RequestError}
use taptrade_core.Externals.{Externals}
use taptrade_core.Node.{Node}
use taptrade_core.Api.{OfferTakenRequest, PayoutResponse}
use taptrade_core.Types.{TraderHappiness, ready_psbt, not_ready}
use taptrade_core.Database.Trade.{fetch_trader_happiness, fetch_escrow_result}
use taptrade_core.Coordinator.State.{Coordinator}
use taptrade_core.Coordinator.Trades.{
  is_happy, both_happy, undecided, escrow_verdict, disputed_payout, keyspend_payout,
  handle_final_payout,
}

is_happy-some : (b : Option Bool) → is_happy b ≡ true → b ≡ some true
is_happy-some none h = cc
is_happy-some (some true) h = refl
is_happy-some (some false) h = cc

and_true : (a b : Bool) → (a && b) ≡ true → (a ≡ true) × (b ≡ true)
and_true true b h = (refl, h)
and_true false b h = cc

verdict-not_ready :
    (robohash : String) (winner : Option String) (c : Coordinator) (p : PayoutResponse)
    → (escrow_verdict robohash winner c).0 ≡ ok (ready_psbt p)
    → ⊥
verdict-not_ready robohash none c p h = cc
verdict-not_ready robohash (some w) c p h = elim (Bool-cases (str_eq w robohash)) [
  | inl e ↦ cc (rw e at h)
  | inr e ↦ cc (rw e at h)
]

module _ (x : Externals) (n : Node) where
  disputed-not_ready :
      (q : OfferTakenRequest) (c : Coordinator) (p : PayoutResponse)
      → (disputed_payout x n q c).0 ≡ ok (ready_psbt p)
      → ⊥
  unfolding disputed_payout
  disputed-not_ready q c p h =
      let (w, _, k) =
        resume-ok (map_err RequestError.database (fetch_escrow_result q.offer_id_hex c.db)) c _ h in
      verdict-not_ready q.robohash_hex w c p k

  by_happiness :
      (q : OfferTakenRequest) (c : Coordinator) (h : TraderHappiness) (p : PayoutResponse)
      → ((if both_happy h
            then keyspend_payout x n q.offer_id_hex
            else (if undecided h then pure not_ready else disputed_payout x n q))
          c).0
        ≡ ok (ready_psbt p)
      → both_happy h ≡ true
  by_happiness q c h p k = elim (Bool-cases (both_happy h)) [
    | inl e ↦ e
    | inr e ↦ elim (Bool-cases (undecided h)) [
      | inl f ↦ cc (rw (e, f) at k)
      | inr f ↦ absurd (disputed-not_ready q c p (rw (e, f) at k))
    ]
  ]

  -- A payout psbt is handed out only for a trade of which both the maker and the taker have
  -- confirmed that the other has met its obligations.
  pub handle_final_payout-ready :
      (q : OfferTakenRequest) (c : Coordinator) (p : PayoutResponse)
      → (handle_final_payout x n q c).0 ≡ ok (ready_psbt p)
      → (h : TraderHappiness) × (fetch_trader_happiness q.offer_id_hex c.db ≡ ok h)
        × (h.maker_happy ≡ some true)
        × (h.taker_happy ≡ some true)
  unfolding handle_final_payout
  handle_final_payout-ready q c p k =
      let (h, e, l) =
        resume-ok (map_err RequestError.database (fetch_trader_happiness q.offer_id_hex c.db)) c _
          k in
      let (maker, taker) =
        and_true (is_happy h.maker_happy) (is_happy h.taker_happy) (by_happiness q c h p l) in
      (
        h,
        map_err-ok RequestError.database (fetch_trader_happiness q.offer_id_hex c.db) e,
        is_happy-some h.maker_happy maker,
        is_happy-some h.taker_happy taker,
      )

-- ===== src/Coordinator/Disputes.antt =====
-- Disputes, from a trader's request for a decision to the polling of the result
-- (coordinator/mod.rs, coordinator/escrow_cli.rs, database/mod.rs).
use taptrade_core.Prelude.{
  ℕ, String, ◌≡◌, refl, ◌∙◌, Bool, true, false, Option, none, some, inl, inr, Bool-cases,
  if◌then◌else◌, arith,
}
use taptrade_core.Prelude.Result.{ok, resume-ok, map_err-ok}
use taptrade_core.Errors.{RequestError}
use taptrade_core.Externals.{Externals}
use taptrade_core.Node.{Node}
use taptrade_core.Api.{OfferTakenRequest, TradeObligationsUnsatisfied}
use taptrade_core.Types.{not_ready, deciding_escrow}
use taptrade_core.Sql.{fetch_optional}
use taptrade_core.Database.Tables.{CoordinatorDb, TakenOffer}
use taptrade_core.Database.Taken.{offer_is, update_taken, is_maker_in_taken_offers}
use taptrade_core.Database.Trade.{
  set_happy, set_ongoing, resolve, happiness, set_trader_happy_field, resolve_escrow,
  fetch_trader_happiness, fetch_escrow_result,
}
use taptrade_core.Database.Once.{KeepsTraders, fetch-update_taken}
use taptrade_core.Coordinator.State.{Coordinator}
use taptrade_core.Coordinator.Trades.{
  both_happy, undecided, escrow_verdict, disputed_payout, handle_final_payout,
  check_offer_and_confirmation, initiate_escrow,
}
use taptrade_core.Coordinator.Gates.{check-state}

set_happy-KeepsTraders : (m : Bool) (v : Option ℕ) → KeepsTraders (set_happy m v)
set_happy-KeepsTraders true v = record {
  same_offer = λ r. refl;
  same_maker = λ r. refl;
  same_taker = λ r. refl;
}
set_happy-KeepsTraders false v = record {
  same_offer = λ r. refl;
  same_maker = λ r. refl;
  same_taker = λ r. refl;
}

set_ongoing-KeepsTraders : KeepsTraders set_ongoing
set_ongoing-KeepsTraders = record {
  same_offer = λ r. refl;
  same_maker = λ r. refl;
  same_taker = λ r. refl;
}

resolve-KeepsTraders : (w : String) → KeepsTraders (resolve w)
resolve-KeepsTraders w = record {
  same_offer = λ r. refl;
  same_maker = λ r. refl;
  same_taker = λ r. refl;
}

-- a row of which one trader has asked for a decision
abbrev disputed : Bool → TakenOffer → TakenOffer
disputed m r = set_ongoing (set_happy m none r)

disputed-both_happy : (m : Bool) (r : TakenOffer) → both_happy (happiness (disputed m r)) ≡ false
disputed-both_happy true r = refl
disputed-both_happy false r = ground arith

disputed-undecided : (m : Bool) (r : TakenOffer) → undecided (happiness (disputed m r)) ≡ false
disputed-undecided true r = refl
disputed-undecided false r = ground arith

resolved-both_happy :
    (m : Bool) (w : String) (r : TakenOffer)
    → both_happy (happiness (resolve w (disputed m r))) ≡ false
resolved-both_happy true w r = refl
resolved-both_happy false w r = ground arith

resolved-undecided :
    (m : Bool) (w : String) (r : TakenOffer)
    → undecided (happiness (resolve w (disputed m r))) ≡ true
resolved-undecided true w r = refl
resolved-undecided false w r = ground arith

disputed-winner :
    (m : Bool) (r : TakenOffer) → (disputed m r).escrow_winner_robohash ≡ r.escrow_winner_robohash
disputed-winner true r = refl
disputed-winner false r = refl

module _ (x : Externals) (n : Node) where
  set_by :
      (m : Bool) (offer_id robohash : String) (db : CoordinatorDb) {row : TakenOffer}
      → fetch_optional (offer_is offer_id) db.taken_offers ≡ some row
      → is_maker_in_taken_offers x offer_id robohash db ≡ ok m
      → fetch_optional
          (offer_is offer_id)
          (set_trader_happy_field x offer_id robohash false db).1.taken_offers
        ≡ some (disputed m row)
  unfolding set_trader_happy_field
  set_by m offer_id robohash db found is_m = rw is_m (
      fetch-update_taken offer_id set_ongoing
        (update_taken (offer_is offer_id) (set_happy m none) db) set_ongoing-KeepsTraders
      ∙ rw
          (fetch-update_taken offer_id (set_happy m none) db (set_happy-KeepsTraders m none), found)
          refl)

  -- the row after a successful request for a decision
  set_trader_happy_field-row :
      (offer_id robohash : String) (db : CoordinatorDb) {row : TakenOffer}
      → fetch_optional (offer_is offer_id) db.taken_offers ≡ some row
      → (set_trader_happy_field x offer_id robohash false db).0 ≡ ok tt
      → (m : Bool) × (fetch_optional
            (offer_is offer_id)
            (set_trader_happy_field x offer_id robohash false db).1.taken_offers
          ≡ some (disputed m row))
  unfolding set_trader_happy_field
  set_trader_happy_field-row offer_id robohash db found h =
      let (m, is_m, _) = resume-ok (is_maker_in_taken_offers x offer_id robohash db) db _ h in
      (m, set_by m offer_id robohash db found is_m)

  initiate_escrow-ok :
      (p : TradeObligationsUnsatisfied) (c : Coordinator)
      → (initiate_escrow x p c).0 ≡ ok tt
      → ((set_trader_happy_field x p.offer_id_hex p.robohash_hex false c.db).0 ≡ ok tt)
        × ((initiate_escrow x p c).1 ≡ record c {
          db = (set_trader_happy_field x p.offer_id_hex p.robohash_hex false c.db).1;
        })
  unfolding initiate_escrow
  initiate_escrow-ok p c h =
      let (u, e, k) =
        resume-ok (check_offer_and_confirmation x p.offer_id_hex p.robohash_hex c).0
          (check_offer_and_confirmation x p.offer_id_hex p.robohash_hex c).1 _ h in
      let same = check-state x p.offer_id_hex p.robohash_hex c in
      (
        map_err-ok RequestError.database
            (set_trader_happy_field x p.offer_id_hex p.robohash_hex false c.db).0 (rw same at k),
        rw (e, same) refl,
      )

  -- the coordinator after the request for a decision, and after the decision
  abbrev pub asked : TradeObligationsUnsatisfied → Coordinator → Coordinator
  asked p c = (initiate_escrow x p c).1

  abbrev pub decided : TradeObligationsUnsatisfied → String → Coordinator → Coordinator
  decided p winner c = record (asked p c) {
    db = (resolve_escrow p.offer_id_hex winner (asked p c).db).1;
  }

  final-of_row :
      (q : OfferTakenRequest) (c : Coordinator) {row : TakenOffer}
      → fetch_optional (offer_is q.offer_id_hex) c.db.taken_offers ≡ some row
      → both_happy (happiness row) ≡ false
      → handle_final_payout x n q c ≡ (
          if undecided (happiness row)
          then (ok not_ready, c)
          else escrow_verdict q.robohash_hex row.escrow_winner_robohash c)
  unfolding handle_final_payout fetch_trader_happiness disputed_payout fetch_escrow_result
  final-of_row q c {row} found b = elim (Bool-cases (undecided (happiness row))) [
    | inl e ↦ rw found (rw (b, e) refl)
    | inr e ↦ rw found (rw (b, e) (rw found refl))
  ]

  asked-row :
      (p : TradeObligationsUnsatisfied) (c : Coordinator) {row : TakenOffer}
      → fetch_optional (offer_is p.offer_id_hex) c.db.taken_offers ≡ some row
      → (initiate_escrow x p c).0 ≡ ok tt
      → (m : Bool) × (fetch_optional (offer_is p.offer_id_hex) (asked p c).db.taken_offers
          ≡ some (disputed m row))
  asked-row p c found h =
      let (set, after) = initiate_escrow-ok p c h in
      rw after (set_trader_happy_field-row p.offer_id_hex p.robohash_hex c.db found set)

  decided-row :
      (p : TradeObligationsUnsatisfied) (winner : String) (c : Coordinator) {row : TakenOffer}
      → fetch_optional (offer_is p.offer_id_hex) (asked p c).db.taken_offers ≡ some row
      → fetch_optional (offer_is p.offer_id_hex) (decided p winner c).db.taken_offers
        ≡ some (resolve winner row)
  unfolding resolve_escrow
  decided-row p winner c found =
      rw
        (
          fetch-update_taken p.offer_id_hex (resolve winner) (asked p c).db
              (resolve-KeepsTraders winner),
          found,
        )
        refl

  -- Once a trader's request for a decision has succeeded, where no decision had been stored
  -- before, polling the payout answers that the escrow is being decided; after a decision for
  -- whichever winner is stored, polling answers "not ready" to every robot, and neither poll
  -- changes anything.
  pub dispute_forgotten :
      (p : TradeObligationsUnsatisfied) (winner robohash_hex : String) (c : Coordinator)
      {row : TakenOffer}
      → fetch_optional (offer_is p.offer_id_hex) c.db.taken_offers ≡ some row
      → row.escrow_winner_robohash ≡ none
      → (initiate_escrow x p c).0 ≡ ok tt
      → (handle_final_payout x n
            (record { robohash_hex = robohash_hex; offer_id_hex = p.offer_id_hex })
            (asked p c)
          ≡ (ok deciding_escrow, asked p c))
        × (handle_final_payout x n
              (record { robohash_hex = robohash_hex; offer_id_hex = p.offer_id_hex })
              (decided p winner c)
            ≡ (ok not_ready, decided p winner c))
  dispute_forgotten p winner robohash_hex c {row} found open_case h =
      let (m, after) = asked-row p c found h in
      let later = decided-row p winner c after in
      let q : OfferTakenRequest = record {
        robohash_hex = robohash_hex;
        offer_id_hex = p.offer_id_hex;
      } in
      (
        final-of_row q (asked p c) after (disputed-both_happy m row)
            ∙ rw (disputed-undecided m row) (rw (disputed-winner m row, open_case) refl),
        final-of_row q (decided p winner c) later (resolved-both_happy m winner row)
            ∙ rw (resolved-undecided m winner row) refl,
      )

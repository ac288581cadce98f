-- ===== src/Monitor/Verdicts.antt =====
-- What a round of the operator's interface decides (coordinator/escrow_cli.rs).
use taptrade_core.Prelude.{
  String, ◌≡◌, refl, Bool, true, false, ◌||◌, sym, ◌∙◌, str_eq_iff, str_eq_refl, if◌then◌else◌,
  some, inl, inr, List, [], ◌∷◌, map, str_eq, contains, Bool-cases,
}
use taptrade_core.Prelude.Result.{ok}
use taptrade_core.Externals.{Externals}
use taptrade_core.Types.{EscrowCase}
use taptrade_core.Sql.{select, update}
use taptrade_core.Sql.Rows.{All}
use taptrade_core.Database.Tables.{CoordinatorDb, TakenOffer}
use taptrade_core.Database.Taken.{offer_is}
use taptrade_core.Database.Trade.{
  is_ongoing, resolve, escrow_case, get_open_escrows, resolve_escrow,
}
use taptrade_core.Monitor.EscrowCli.{
  EscrowWinner, get_coordinator_cli_input, winner_id, decide_case, decide_cases, escrow_cli_round,
}

-- The lines hold a decision for each of the cases.
abbrev pub Decides : List EscrowCase → List String → Type 0
Decides [] lines = Unit {0}
Decides (c ∷ cs) lines =
    (w : EscrowWinner) × (rest : List String) × (get_coordinator_cli_input lines ≡ some (w, rest))
    × Decides cs rest

abbrev case_id : EscrowCase → String
case_id c = c.offer_id

-- a trade that is not in dispute, or is among the cases
abbrev Listed : List EscrowCase → TakenOffer → Type 0
Listed cs r = is_ongoing r ≡ true → contains r.offer_id (map case_id cs) ≡ true

str_eq_flip : (a b : String) → str_eq a b ≡ false → str_eq b a ≡ false
str_eq_flip a b h = elim (Bool-cases (str_eq b a)) [
  | inl e ↦ absurd (true-false (sym (rw ((str_eq_iff b a).0 e) (str_eq_refl a)) ∙ h))
  | inr e ↦ e
]
  where
    true-false : true ≡ false → ⊥
    true-false k = cc

resolved-Listed :
    (c : EscrowCase) (cs : List EscrowCase) (winner : String) (r : TakenOffer)
    → Listed (c ∷ cs) r
    → Listed cs (if offer_is c.offer_id r then resolve winner r else r)
resolved-Listed c cs winner r h = elim (Bool-cases (str_eq r.offer_id c.offer_id)) [
  | inl e ↦ rw e (λ k. absurd (closed k))
  | inr e ↦ rw e (λ k. rw (str_eq_flip r.offer_id c.offer_id e) at (h k))
]
  where
    closed : false ≡ true → ⊥
    closed k = cc

-- Of the trades in dispute, those of one case are resolved by its decision.
resolve-Listed :
    (c : EscrowCase) (cs : List EscrowCase) (winner : String) (rs : List TakenOffer)
    → All (Listed (c ∷ cs)) rs
    → All (Listed cs) (update (offer_is c.offer_id) (resolve winner) rs)
unfolding update
resolve-Listed c cs winner [] h = tt
resolve-Listed c cs winner (r ∷ rs) h =
    (resolved-Listed c cs winner r h.0, resolve-Listed c cs winner rs h.1)

select-Listed : (rs : List TakenOffer) → All (Listed []) rs → select is_ongoing rs ≡ []
unfolding select
select-Listed [] h = refl
select-Listed (r ∷ rs) h = elim (Bool-cases (is_ongoing r)) [
  | inl e ↦ absurd (impossible (h.0 e))
  | inr e ↦ rw e (select-Listed rs h.1)
]
  where
    impossible : false ≡ true → ⊥
    impossible k = cc

module _ (x : Externals) where
  contains_self : (i : String) (is : List String) → contains i (i ∷ is) ≡ true
  contains_self i is = rw (str_eq_refl i) refl

  widen-Listed :
      (c : EscrowCase) (cs : List EscrowCase) (rs : List TakenOffer)
      → All (Listed cs) rs
      → All (Listed (c ∷ cs)) rs
  widen-Listed c cs [] h = tt
  widen-Listed c cs (r ∷ rs) h =
      (λ k. by_first (str_eq c.offer_id r.offer_id) (h.0 k), widen-Listed c cs rs h.1)
    where
      by_first : (b : Bool) {d : Bool} → d ≡ true → (b || d) ≡ true
      by_first true e = refl
      by_first false e = e

  cons-Listed :
      (r : TakenOffer) (rs open_rows : List TakenOffer) (b : Bool)
      → is_ongoing r ≡ b
      → All (Listed (map (escrow_case x) open_rows)) rs
      → All (Listed (map (escrow_case x) (if b then r ∷ open_rows else open_rows))) (r ∷ rs)
  cons-Listed r rs open_rows true e h = (
    λ k. contains_self r.offer_id (map case_id (map (escrow_case x) open_rows)),
    widen-Listed (escrow_case x r) (map (escrow_case x) open_rows) rs h,
  )
  cons-Listed r rs open_rows false e h = (λ k. absurd (closed (sym e ∙ k)), h)
    where
      closed : false ≡ true → ⊥
      closed k = cc

  -- Every trade in dispute is among the open cases.
  open_cases-Listed :
      (rs : List TakenOffer) → All (Listed (map (escrow_case x) (select is_ongoing rs))) rs
  unfolding select
  open_cases-Listed [] = tt
  open_cases-Listed (r ∷ rs) =
      cons-Listed r rs (select is_ongoing rs) (is_ongoing r) refl (open_cases-Listed rs)

  decide_cases-Listed :
      (cs : List EscrowCase) (lines : List String) (db : CoordinatorDb)
      → Decides cs lines
      → All (Listed cs) db.taken_offers
      → All (Listed []) (decide_cases cs lines db).taken_offers
  unfolding decide_cases decide_case resolve_escrow
  decide_cases-Listed [] lines db d h = h
  decide_cases-Listed (c ∷ cs) lines db (w, rest, e, d) h =
      rw (decide_cases, e)
        (decide_cases-Listed cs rest (decide_case c w db) d
          (resolve-Listed c cs (winner_id w c) db.taken_offers h))

  -- When the operator's lines hold a decision for each open case, no case is open after the round.
  pub escrow_cli_round-resolves :
      (lines : List String) (db : CoordinatorDb)
      → Decides (map (escrow_case x) (select is_ongoing db.taken_offers)) lines
      → get_open_escrows x (escrow_cli_round x lines db) ≡ ok []
  unfolding escrow_cli_round get_open_escrows
  escrow_cli_round-resolves lines db d =
      rw
        (select-Listed _ (
          decide_cases-Listed (map (escrow_case x) (select is_ongoing db.taken_offers)) lines db d
            (open_cases-Listed db.taken_offers)))
        refl

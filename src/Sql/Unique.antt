-- ===== src/Sql/Unique.antt =====
-- What distinct keys mean for the rows that statements find.
use taptrade_core.Prelude.{
  ◌≡◌, refl, ◌↔◌, inl, inr, Bool, true, false, none, some, List, [], ◌∷◌, arith, Bool-cases,
}
use taptrade_core.Sql.{fetch_optional, select}
use taptrade_core.Sql.Rows.{All}
use taptrade_core.Sql.Keys.{has_key, Distinct}

module _ {R : Type 0} where
  -- A test that finds nothing holds of no row.
  pub none-All :
      (test : R → Bool) (rs : List R) → fetch_optional test rs ≡ none → All (λ r. test r ≡ false) rs
  unfolding fetch_optional
  none-All test [] h = tt
  none-All test (r ∷ rs) h = elim (Bool-cases (test r)) [
    | inl e ↦ cc (rw e at h)
    | inr e ↦ (e, none-All test rs (rw e at h))
  ]

  fetch-select-none :
      (other test : R → Bool) (rs : List R)
      → fetch_optional other rs ≡ none
      → fetch_optional other (select test rs) ≡ none
  unfolding fetch_optional select
  fetch-select-none other test [] h = refl
  fetch-select-none other test (r ∷ rs) h = ground (arith, fetch-select-none other test rs)

  pub All-select :
      (P : R → Type 0) (test : R → Bool) (rs : List R) → All P rs → All P (select test rs)
  unfolding select
  All-select P test [] a = tt
  All-select P test (r ∷ rs) a = elim (Bool-cases (test r)) [
    | inl e ↦ rw e (a.0, All-select P test rs a.1)
    | inr e ↦ rw e (All-select P test rs a.1)
  ]

  pub select-All : (test : R → Bool) (rs : List R) → All (λ r. test r ≡ true) (select test rs)
  unfolding select
  select-All test [] = tt
  select-All test (r ∷ rs) = elim (Bool-cases (test r)) [
    | inl e ↦ rw e (e, select-All test rs)
    | inr e ↦ rw e (select-All test rs)
  ]

  pub All-map : (P Q : R → Type 0) (rs : List R) → ((r : R) → P r → Q r) → All P rs → All Q rs
  All-map P Q [] f a = tt
  All-map P Q (r ∷ rs) f a = (f r a.0, All-map P Q rs f a.1)

  pub All-both : (P Q : R → Type 0) (rs : List R) → All P rs → All Q rs → All (λ r. P r × Q r) rs
  All-both P Q [] a b = tt
  All-both P Q (r ∷ rs) a b = ((a.0, b.0), All-both P Q rs a.1 b.1)

module _ {R K : Type 0} (eq : K → K → Bool) (eq_iff : (a b : K) → (eq a b ≡ true) ↔ (a ≡ b))
    (key : R → K) where
  pub select-Distinct :
      (test : R → Bool) (rs : List R) → Distinct eq key rs → Distinct eq key (select test rs)
  unfolding select
  select-Distinct test [] d = tt
  select-Distinct test (r ∷ rs) d = elim (Bool-cases (test r)) [
    | inl e ↦
        rw e (fetch-select-none (has_key eq key (key r)) test rs d.0, select-Distinct test rs d.1)
    | inr e ↦ rw e (select-Distinct test rs d.1)
  ]

  pub flip_false : (a b : K) → eq a b ≡ false → eq b a ≡ false
  flip_false a b h = ground (arith, eq_iff a b, eq_iff b a)

  -- Each row is found by its key.
  pub each-found :
      (rs : List R)
      → Distinct eq key rs
      → All (λ r. fetch_optional (has_key eq key (key r)) rs ≡ some r) rs
  unfolding fetch_optional
  each-found [] d = tt
  each-found (x ∷ rs) d = (
    rw ((eq_iff (key x) (key x)).1 refl) refl,
    All-map
        (λ r. (fetch_optional (has_key eq key (key r)) rs ≡ some r) × (eq (key r) (key x) ≡ false))
        (λ r. fetch_optional (has_key eq key (key r)) (x ∷ rs) ≡ some r) rs
        (λ r h. rw (flip_false (key r) (key x) h.1) h.0)
        (All-both _ _ rs (each-found rs d.1) (none-All (has_key eq key (key x)) rs d.0)),
  )

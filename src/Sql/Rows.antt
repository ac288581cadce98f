-- ===== src/Sql/Rows.antt =====
-- What a statement leaves to be found by the statements after it.
use taptrade_core.Prelude.{
  ◌≡◌, refl, ◌⊎◌, inl, inr, ◌↔◌, Bool, true, false, none, some, List, [], ◌∷◌, ◌++◌, arith,
  Bool-cases,
}
use mathlib.Core.Option
use mathlib.Core.Option.{some-injective}
use mathlib.Core.Path.{subst, sym}
use taptrade_core.Sql.{select, fetch_optional, update, delete, insert_or_replace}

module _ {R : Type 0} where
  abbrev pub All : (R → Type 0) → List R → Type 0
  All P [] = Unit
  All P (r ∷ rs) = P r × All P rs

  abbrev pub Elem : R → List R → Type 0
  Elem r [] = ⊥
  Elem r (x ∷ xs) = (r ≡ x) ⊎ Elem r xs

  -- `a` and `b` never hold of one row.
  abbrev pub Disjoint : (R → Bool) → (R → Bool) → Type 0
  Disjoint a b = (r : R) → a r ≡ true → b r ≡ false

module _ {R : Type 0} where
  pub fetch-test :
      (test : R → Bool) (rs : List R) (r : R) → fetch_optional test rs ≡ some r → test r ≡ true
  unfolding fetch_optional
  fetch-test test [] r h = cc
  fetch-test test (x ∷ rs) r h = ground (arith, fetch-test test rs r)

  pub fetch-All :
      (P : R → Type 0) (test : R → Bool) (rs : List R) (r : R)
      → All P rs
      → fetch_optional test rs ≡ some r
      → P r
  unfolding fetch_optional
  fetch-All P test [] r a h = cc
  fetch-All P test (x ∷ rs) r a h = elim (Bool-cases (test x)) [
    | inl e ↦ subst P (some-injective x r (rw e at h)) a.0
    | inr e ↦ fetch-All P test rs r a.1 (rw e at h)
  ]

  pub fetch-update :
      (test : R → Bool) (f : R → R) (rs : List R)
      → ((r : R) → test (f r) ≡ test r)
      → fetch_optional test (update test f rs) ≡ Option.map f (fetch_optional test rs)
  unfolding fetch_optional update
  fetch-update test f [] keep = refl
  fetch-update test f (r ∷ rs) keep = elim (Bool-cases (test r)) [
    | inl e ↦ rw e (rw (keep r) (rw e))
    | inr e ↦ rw e (rw e (fetch-update test f rs keep))
  ]

  pub fetch-update_other :
      (test other : R → Bool) (f : R → R) (rs : List R)
      → Disjoint test other
      → ((r : R) → other (f r) ≡ other r)
      → fetch_optional other (update test f rs) ≡ fetch_optional other rs
  unfolding fetch_optional update
  fetch-update_other test other f [] d keep = refl
  fetch-update_other test other f (r ∷ rs) d keep =
      ground (arith, d r, keep r, fetch-update_other test other f rs d keep)

  pub fetch-delete_self :
      (test : R → Bool) (rs : List R) → fetch_optional test (delete test rs) ≡ none
  unfolding fetch_optional delete
  fetch-delete_self test [] = refl
  fetch-delete_self test (r ∷ rs) = ground (arith, fetch-delete_self test rs)

  fetch-append_none :
      (test : R → Bool) (rs ts : List R)
      → fetch_optional test rs ≡ none
      → fetch_optional test (rs ++ ts) ≡ fetch_optional test ts
  unfolding fetch_optional
  fetch-append_none test [] ts h = refl
  fetch-append_none test (r ∷ rs) ts h = ground (arith, fetch-append_none test rs ts)

  pub fetch-insert_self :
      (test : R → Bool) (r : R) (rs : List R)
      → test r ≡ true
      → fetch_optional test (insert_or_replace test r rs) ≡ some r
  unfolding insert_or_replace
  fetch-insert_self test r rs h =
      rw (fetch-append_none test (delete test rs) (r ∷ []) (fetch-delete_self test rs))
        (unfold fetch_optional in rw h)

  pub All-update :
      (P : R → Type 0) (test : R → Bool) (f : R → R) (rs : List R)
      → ((r : R) → P r → P (f r))
      → All P rs
      → All P (update test f rs)
  unfolding update
  All-update P test f [] keep a = tt
  All-update P test f (r ∷ rs) keep a = elim (Bool-cases (test r)) [
    | inl e ↦ rw e (keep r a.0, All-update P test f rs keep a.1)
    | inr e ↦ rw e (a.0, All-update P test f rs keep a.1)
  ]

  pub All-delete :
      (P : R → Type 0) (test : R → Bool) (rs : List R) → All P rs → All P (delete test rs)
  unfolding delete
  All-delete P test [] a = tt
  All-delete P test (r ∷ rs) a = elim (Bool-cases (test r)) [
    | inl e ↦ rw e (All-delete P test rs a.1)
    | inr e ↦ rw e (a.0, All-delete P test rs a.1)
  ]

  All-append : (P : R → Type 0) (rs ts : List R) → All P rs → All P ts → All P (rs ++ ts)
  All-append P [] ts a b = b
  All-append P (r ∷ rs) ts a b = (a.0, All-append P rs ts a.1 b)

  pub All-insert :
      (P : R → Type 0) (test : R → Bool) (r : R) (rs : List R)
      → P r
      → All P rs
      → All P (insert_or_replace test r rs)
  unfolding insert_or_replace
  All-insert P test r rs p a =
      All-append P (delete test rs) (r ∷ []) (All-delete P test rs a) (p, tt)

  Elem-of_select :
      (test : R → Bool) (rs : List R) (r : R)
      → Elem r (select test rs)
      → Elem r rs × (test r ≡ true)
  unfolding select
  Elem-of_select test [] r h = absurd h
  Elem-of_select test (x ∷ rs) r h = elim (Bool-cases (test x)) [
    | inl e ↦ elim (rw e at h) [
      | inl p ↦ (inl p, rw p e)
      | inr t ↦ let (i, m) = Elem-of_select test rs r t in (inr i, m)
    ]
    | inr e ↦ let (i, m) = Elem-of_select test rs r (rw e at h) in (inr i, m)
  ]

  select_of_Elem :
      (test : R → Bool) (rs : List R) (r : R) → Elem r rs → test r ≡ true → Elem r (select test rs)
  unfolding select
  select_of_Elem test [] r h m = absurd h
  select_of_Elem test (x ∷ rs) r (inl p) m = rw (← p) (rw m (inl refl))
  select_of_Elem test (x ∷ rs) r (inr t) m = elim (Bool-cases (test x)) [
    | inl e ↦ rw e (inr (select_of_Elem test rs r t m))
    | inr e ↦ rw e (select_of_Elem test rs r t m)
  ]

  -- A query returns exactly the rows that meet its test.
  pub Elem-select :
      (test : R → Bool) (rs : List R) (r : R)
      → Elem r (select test rs) ↔ (Elem r rs × (test r ≡ true))
  Elem-select test rs r = (Elem-of_select test rs r, λ h. select_of_Elem test rs r h.0 h.1)

  -- A row that a delete takes out meets its test.
  pub Elem-delete :
      (test : R → Bool) (rs : List R) (r : R)
      → Elem r rs
      → Elem r (delete test rs) ⊎ (test r ≡ true)
  unfolding delete
  Elem-delete test [] r el = absurd el
  Elem-delete test (y ∷ rs) r (inl p) = elim (Bool-cases (test y)) [
    | inl t ↦ inr (rw p t)
    | inr t ↦ inl (rw t (inl p))
  ]
  Elem-delete test (y ∷ rs) r (inr later) = elim (Elem-delete test rs r later) [
    | inl k ↦ elim (Bool-cases (test y)) [ inl t ↦ inl (rw t k) | inr t ↦ inl (rw t (inr k)) ]
    | inr t ↦ inr t
  ]

  pub All-Elem : (P : R → Type 0) (rs : List R) (r : R) → All P rs → Elem r rs → P r
  All-Elem P [] r a el = absurd el
  All-Elem P (x ∷ rs) r a el = elim el [
    | inl e ↦ subst P (sym e) a.0
    | inr later ↦ All-Elem P rs r a.1 later
  ]

  pub All-of_Elem : (P : R → Type 0) (rs : List R) → ((r : R) → Elem r rs → P r) → All P rs
  All-of_Elem P [] f = tt
  All-of_Elem P (x ∷ rs) f = (f x (inl refl), All-of_Elem P rs (λ r el. f r (inr el)))

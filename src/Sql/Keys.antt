-- ===== src/Sql/Keys.antt =====
-- PRIMARY KEY: no two rows of a table have one key, and every statement keeps it so.
use taptrade_core.Prelude.{
  ◌≡◌, refl, ◌↔◌, inl, inr, Bool, true, false, none, List, [], ◌∷◌, ◌++◌, arith, Bool-cases,
}
use taptrade_core.Sql.{fetch_optional, update, delete, insert_or_replace}

module _ {R K : Type 0} (eq : K → K → Bool) (key : R → K) where
  -- WHERE key = k
  abbrev pub has_key : K → R → Bool
  has_key k r = eq (key r) k

  abbrev pub Distinct : List R → Type 0
  Distinct [] = Unit
  Distinct (r ∷ rs) = (fetch_optional (has_key (key r)) rs ≡ none) × Distinct rs

module _ {R K : Type 0} (eq : K → K → Bool) (eq_iff : (a b : K) → (eq a b ≡ true) ↔ (a ≡ b))
    (key : R → K) where
  fetch-delete-none :
      (test other : R → Bool) (rs : List R)
      → fetch_optional other rs ≡ none
      → fetch_optional other (delete test rs) ≡ none
  unfolding fetch_optional delete
  fetch-delete-none test other [] h = refl
  fetch-delete-none test other (r ∷ rs) h = ground (arith, fetch-delete-none test other rs)

  pub delete-Distinct :
      (test : R → Bool) (rs : List R) → Distinct eq key rs → Distinct eq key (delete test rs)
  unfolding delete
  delete-Distinct test [] d = tt
  delete-Distinct test (r ∷ rs) d = elim (Bool-cases (test r)) [
    | inl e ↦ rw e (delete-Distinct test rs d.1)
    | inr e ↦
        rw e (fetch-delete-none test (has_key eq key (key r)) rs d.0, delete-Distinct test rs d.1)
  ]

  fetch-update-none :
      (test : R → Bool) (f : R → R) (k : K) (rs : List R)
      → ((r : R) → key (f r) ≡ key r)
      → fetch_optional (has_key eq key k) rs ≡ none
      → fetch_optional (has_key eq key k) (update test f rs) ≡ none
  unfolding fetch_optional update
  fetch-update-none test f k [] keep h = refl
  fetch-update-none test f k (r ∷ rs) keep h =
      ground (arith, keep r, fetch-update-none test f k rs keep)

  -- An UPDATE that leaves the key column alone keeps the keys distinct.
  pub update-Distinct :
      (test : R → Bool) (f : R → R) (rs : List R)
      → ((r : R) → key (f r) ≡ key r)
      → Distinct eq key rs
      → Distinct eq key (update test f rs)
  unfolding update
  update-Distinct test f [] keep d = tt
  update-Distinct test f (r ∷ rs) keep d = elim (Bool-cases (test r)) [
    | inl e ↦
        rw (e, keep r)
          (fetch-update-none test f (key r) rs keep d.0, update-Distinct test f rs keep d.1)
    | inr e ↦
        rw e (fetch-update-none test f (key r) rs keep d.0, update-Distinct test f rs keep d.1)
  ]

  fetch-append_none :
      (test : R → Bool) (rs : List R) (r : R)
      → fetch_optional test rs ≡ none
      → test r ≡ false
      → fetch_optional test (rs ++ (r ∷ [])) ≡ none
  unfolding fetch_optional
  fetch-append_none test [] r h m = rw m
  fetch-append_none test (x ∷ rs) r h m = ground (arith, fetch-append_none test rs r)

  differs : (a b : K) → eq a b ≡ false → eq b a ≡ false
  differs a b h = ground (arith, eq_iff a b, eq_iff b a)

  pub insert-Distinct :
      (r : R) (rs : List R)
      → Distinct eq key rs
      → Distinct eq key (insert_or_replace (has_key eq key (key r)) r rs)
  unfolding insert_or_replace fetch_optional delete
  insert-Distinct r [] d = (refl, tt)
  insert-Distinct r (x ∷ rs) d = elim (Bool-cases (eq (key x) (key r))) [
    | inl e ↦ rw e (insert-Distinct r rs d.1)
    | inr e ↦ rw e (
      fetch-append_none (has_key eq key (key x)) (delete (has_key eq key (key r)) rs) r
          (fetch-delete-none (has_key eq key (key r)) (has_key eq key (key x)) rs d.0)
          (differs (key x) (key r) e),
      insert-Distinct r rs d.1,
    )
  ]

-- ===== src/Sql/Others.antt =====
-- What a statement leaves of the row that another test finds.
use taptrade_core.Prelude.{
  ◌≡◌, refl, ap, ◌∙◌, inl, inr, Bool, false, List, [], ◌∷◌, ◌++◌, arith, Bool-cases, if◌then◌else◌,
}
use mathlib.Core.Option
use taptrade_core.Sql.{fetch_optional, update, delete, insert_or_replace}
use taptrade_core.Sql.Rows.{Disjoint}

-- Two updates of the same rows are one.
pub update-update :
    {R : Type 0} (test : R → Bool) (f h : R → R) (rs : List R)
    → ((r : R) → test (f r) ≡ test r)
    → update test h (update test f rs) ≡ update test (λ r. h (f r)) rs
unfolding update
update-update test f h [] keep = refl
update-update test f h (r ∷ rs) keep = elim (Bool-cases (test r)) [
  | inl e ↦ rw e (rw (keep r) (rw e (ap (λ l. h (f r) ∷ l) (update-update test f h rs keep))))
  | inr e ↦ rw e (rw e (ap (λ l. r ∷ l) (update-update test f h rs keep)))
]

module _ {R : Type 0} (test : R → Bool) where
  pub fetch-update_any :
      (g : R → Bool) (f : R → R) (rs : List R)
      → ((r : R) → test (f r) ≡ test r)
      → fetch_optional test (update g f rs)
        ≡ Option.map (λ r. if g r then f r else r) (fetch_optional test rs)
  unfolding fetch_optional update
  fetch-update_any g f [] keep = refl
  fetch-update_any g f (r ∷ rs) keep = elim (Bool-cases (g r)) [
    | inl e ↦ elim (Bool-cases (test r)) [
      | inl h ↦ rw (e, h) (rw (keep r) (rw h (rw e refl)))
      | inr h ↦ rw (e, h) (rw (keep r) (rw h (fetch-update_any g f rs keep)))
    ]
    | inr e ↦ elim (Bool-cases (test r)) [
      | inl h ↦ rw (e, h) (rw e refl)
      | inr h ↦ rw (e, h) (fetch-update_any g f rs keep)
    ]
  ]

  pub fetch-delete_other :
      (other : R → Bool) (rs : List R)
      → Disjoint other test
      → fetch_optional test (delete other rs) ≡ fetch_optional test rs
  unfolding fetch_optional delete
  fetch-delete_other other [] d = refl
  fetch-delete_other other (r ∷ rs) d = ground (arith, d r, fetch-delete_other other rs d)

  fetch-append_miss :
      (rs : List R) (r : R)
      → test r ≡ false
      → fetch_optional test (rs ++ (r ∷ [])) ≡ fetch_optional test rs
  unfolding fetch_optional
  fetch-append_miss [] r h = ground arith
  fetch-append_miss (x ∷ rs) r h = ground (arith, fetch-append_miss rs r h)

  pub fetch-insert_other :
      (other : R → Bool) (r : R) (rs : List R)
      → Disjoint other test
      → test r ≡ false
      → fetch_optional test (insert_or_replace other r rs) ≡ fetch_optional test rs
  unfolding insert_or_replace
  fetch-insert_other other r rs d miss =
      fetch-append_miss (delete other rs) r miss ∙ fetch-delete_other other rs d

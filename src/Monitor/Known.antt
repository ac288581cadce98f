-- ===== src/Monitor/Known.antt =====
-- What the mempool task keeps when it looks up and forgets transactions
-- (coordinator/mempool_monitoring.rs).
use mathlib.Core.Path.{subst}
use taptrade_core.Prelude.{
  String, ◌≡◌, refl, sym, ◌⊎◌, true, Option, none, some, List, [], ◌∷◌, ◌++◌, inl, inr, Bool-cases,
  str_eq, str_eq_iff, contains,
}
use taptrade_core.Node.{OutPoint}
use taptrade_core.Sql.Rows.{All, Elem}
use taptrade_core.Monitor.Mempool.{
  MempoolState, contains_key, add_known, learn, retain, spent_outputs, Round,
}

module _ {A : Type 0} where
  Elem-left : (x : A) (xs ys : List A) → Elem x xs → Elem x (xs ++ ys)
  Elem-left x [] ys e = absurd e
  Elem-left x (y ∷ xs) ys (inl p) = inl p
  Elem-left x (y ∷ xs) ys (inr e) = inr (Elem-left x xs ys e)

  Elem-right : (x : A) (xs ys : List A) → Elem x ys → Elem x (xs ++ ys)
  Elem-right x [] ys e = e
  Elem-right x (y ∷ xs) ys e = inr (Elem-right x xs ys e)

  Elem-split : (x : A) (xs ys : List A) → Elem x (xs ++ ys) → Elem x xs ⊎ Elem x ys
  Elem-split x [] ys e = inr e
  Elem-split x (y ∷ xs) ys (inl p) = inl (inl p)
  Elem-split x (y ∷ xs) ys (inr e) = elim (Elem-split x xs ys e) [
    | inl l ↦ inl (inr l)
    | inr r ↦ inr r
  ]

-- an output that a known transaction spends
pub spent-Elem :
    (o : OutPoint) (t : String) (is : List OutPoint) (m : MempoolState)
    → Elem (t, is) m
    → Elem o is
    → Elem o (spent_outputs m)
unfolding spent_outputs
spent-Elem o t is [] e i = absurd e
spent-Elem o t is ((s, js) ∷ m) (inl p) i =
    Elem-left o js (spent_outputs m) (subst (λ x. Elem o x.1) p i)
spent-Elem o t is ((s, js) ∷ m) (inr e) i =
    Elem-right o js (spent_outputs m) (spent-Elem o t is m e i)

-- … and where it comes from
pub Elem-spent :
    (o : OutPoint) (m : MempoolState)
    → Elem o (spent_outputs m)
    → (t : String) × (is : List OutPoint) × Elem (t, is) m × Elem o is
unfolding spent_outputs
Elem-spent o [] e = absurd e
Elem-spent o ((s, js) ∷ m) e = elim (Elem-split o js (spent_outputs m) e) [
  | inl here ↦ (s, js, inl refl, here)
  | inr later ↦ let (t, is, known, i) = Elem-spent o m later in (t, is, inr known, i)
]

pub retain-has :
    (t : String) (is : List OutPoint) (txids : List String) (m : MempoolState)
    → contains t txids ≡ true
    → Elem (t, is) m
    → Elem (t, is) (retain txids m)
unfolding retain
retain-has t is txids [] c e = absurd e
retain-has t is txids ((s, js) ∷ m) c (inl p) =
    let eq : t ≡ s = λ i. (p i).0 in
    let listed : contains s txids ≡ true = rw (← eq) c in rw listed (inl p)
retain-has t is txids ((s, js) ∷ m) c (inr e) = elim (Bool-cases (contains s txids)) [
  | inl k ↦ rw k (inr (retain-has t is txids m c e))
  | inr k ↦ rw k (retain-has t is txids m c e)
]

-- What is known after the others have been forgotten is listed and was known.
pub retain-from :
    (x : String × List OutPoint) (txids : List String) (m : MempoolState)
    → Elem x (retain txids m)
    → (contains x.0 txids ≡ true) × Elem x m
unfolding retain
retain-from x txids [] e = absurd e
retain-from x txids ((s, js) ∷ m) e = elim (Bool-cases (contains s txids)) [
  | inl k ↦ elim (rw k at e) [
    | inl p ↦ (rw p k, inl p)
    | inr later ↦ let (c, f) = retain-from x txids m later in (c, inr f)
  ]
  | inr k ↦ let (c, f) = retain-from x txids m (rw k at e) in (c, inr f)
]

module _ (inputs_of : String → Option (List OutPoint)) where
  -- What is known stays known while the others are looked up.
  pub learn-keeps :
      (x : String × List OutPoint) (txids : List String) (m : MempoolState)
      → Elem x m
      → Elem x (learn inputs_of txids m)
  unfolding learn
  learn-keeps x [] m e = e
  learn-keeps x (t ∷ ts) m e = elim (Bool-cases (contains_key t m)) [
    | inl k ↦ rw k (learn-keeps x ts m e)
    | inr k ↦ rw k (learn-keeps x ts _ (added (inputs_of t)))
  ]
    where
      added : (o : Option (List OutPoint)) → Elem x (add_known t o m)
      added none = e
      added (some is) = inr e

  -- What is known then was known, or the node has just told it.
  pub learn-from :
      (t : String) (is : List OutPoint) (txids : List String) (m : MempoolState)
      → Elem (t, is) (learn inputs_of txids m)
      → Elem (t, is) m ⊎ (inputs_of t ≡ some is)
  unfolding learn
  learn-from t is [] m e = inl e
  learn-from t is (s ∷ ts) m e = elim (Bool-cases (contains_key s m)) [
    | inl k ↦ learn-from t is ts m (rw k at e)
    | inr k ↦ elim (learn-from t is ts (add_known s (inputs_of s) m) (rw k at e)) [
      | inl f ↦ told (inputs_of s) refl f
      | inr g ↦ inr g
    ]
  ]
    where
      told :
          (o : Option (List OutPoint))
          → inputs_of s ≡ o
          → Elem (t, is) (add_known s o m)
          → Elem (t, is) m ⊎ (inputs_of t ≡ some is)
      told none g f = inl f
      told (some js) g (inl p) = inr (subst (λ x. inputs_of x.0 ≡ some x.1) (sym p) g)
      told (some js) g (inr f) = inl f

module _ (inputs : String → List OutPoint) where
  -- The transaction is known with the inputs that it has.
  abbrev pub IsTrue : String × List OutPoint → Type 0
  IsTrue x = x.1 ≡ inputs x.0

  -- What the node tells is true; a transaction's id stands for its inputs.
  abbrev pub IsHonest : Round → Type 0
  IsHonest r = (t : String) (is : List OutPoint) → r.inputs_of t ≡ some is → is ≡ inputs t

  known-Elem :
      (t : String) (m : MempoolState)
      → All IsTrue m
      → contains_key t m ≡ true
      → Elem (t, inputs t) m
  unfolding contains_key
  known-Elem t [] a k = cc
  known-Elem t ((s, js) ∷ m) a k = elim (Bool-cases (str_eq s t)) [
    | inl same ↦
        let eq : s ≡ t = (str_eq_iff s t).0 same in
        let held : js ≡ inputs t = rw eq at a.0 in inl (λ i. (sym eq i, sym held i))
    | inr other ↦ inr (known-Elem t m a.1 (rw other at k))
  ]

  add_known-IsTrue :
      (f : String → Option (List OutPoint)) (s : String) (m : MempoolState)
      → ((t : String) (is : List OutPoint) → f t ≡ some is → is ≡ inputs t)
      → All IsTrue m
      → All IsTrue (add_known s (f s) m)
  add_known-IsTrue f s m honest a = by_answer (f s) refl
    where
      by_answer : (o : Option (List OutPoint)) → f s ≡ o → All IsTrue (add_known s o m)
      by_answer none e = a
      by_answer (some is) e = (honest s is e, a)

  module _ (f : String → Option (List OutPoint))
      (honest : (t : String) (is : List OutPoint) → f t ≡ some is → is ≡ inputs t) where
    pub learn-IsTrue :
        (txids : List String) (m : MempoolState) → All IsTrue m → All IsTrue (learn f txids m)
    unfolding learn
    learn-IsTrue [] m a = a
    learn-IsTrue (t ∷ ts) m a = elim (Bool-cases (contains_key t m)) [
      | inl k ↦ rw k (learn-IsTrue ts m a)
      | inr k ↦ rw k (learn-IsTrue ts (add_known t (f t) m) (add_known-IsTrue f t m honest a))
    ]

    -- What the node tells of a listed transaction is known after it.
    pub learn-has :
        (t : String) (is : List OutPoint) (txids : List String) (m : MempoolState)
        → All IsTrue m
        → f t ≡ some is
        → contains t txids ≡ true
        → Elem (t, inputs t) (learn f txids m)
    unfolding learn
    learn-has t is [] m a e c = cc
    learn-has t is (s ∷ ts) m a e c = elim (Bool-cases (str_eq s t)) [
      | inl same ↦
          let eq : s ≡ t = (str_eq_iff s t).0 same in
          rw eq (elim (Bool-cases (contains_key t m)) [
            | inl k ↦ rw k (learn-keeps f (t, inputs t) ts m (known-Elem t m a k))
            | inr k ↦ rw k (
                rw e (
                  learn-keeps f (t, inputs t) ts ((t, is) ∷ m)
                    (inl (λ i. (t, sym (honest t is e) i)))))
          ])
      | inr other ↦
          let rest : contains t ts ≡ true = rw other at c in
          elim (Bool-cases (contains_key s m)) [
            | inl k ↦ rw k (learn-has t is ts m a e rest)
            | inr k ↦
                rw k
                  (learn-has t is ts (add_known s (f s) m) (add_known-IsTrue f s m honest a) e rest)
          ]
    ]

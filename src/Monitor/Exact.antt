-- ===== src/Monitor/Exact.antt =====
-- What the mempool task has found after any number of rounds (coordinator/mempool_monitoring.rs).
use mathlib.Core.Path.{subst}
use taptrade_core.Prelude.{
  String, ◌≡◌, refl, ◌↔◌, ◌⊎◌, true, Option, none, some, List, [], ◌∷◌, inl, inr, Bool-cases,
  contains,
}
use taptrade_core.Node.{OutPoint}
use taptrade_core.Sql.Rows.{All, Elem, All-Elem}
use taptrade_core.Monitor.Mempool.{
  MempoolState, learn, retain, spent_outputs, mempool_round, listed_round, run_mempool, Round,
  new_mempool,
}
use taptrade_core.Monitor.Known.{
  IsTrue, IsHonest, retain-has, retain-from, learn-keeps, learn-from, learn-IsTrue, learn-has,
  spent-Elem, Elem-spent,
}

-- Which transactions count as known after a round in which the node answers so: those that are
-- listed, if they were known or the node tells their inputs. Without a listing they stay the same.
abbrev pub KnownAfter :
    (String → Option (List OutPoint)) → Option (List String) → (String → Type 0) → String → Type 0
KnownAfter f none Known t = Known t
KnownAfter f (some txids) Known t =
    (contains t txids ≡ true) × (Known t ⊎ ((is : List OutPoint) × (f t ≡ some is)))

-- … and after a list of rounds
abbrev pub IsKnown : List Round → (String → Type 0) → String → Type 0
IsKnown [] Known t = Known t
IsKnown (r ∷ rounds) Known t = IsKnown rounds (KnownAfter r.inputs_of r.listing Known) t

module _ (inputs : String → List OutPoint) where
  -- What the task holds is what is known.
  record Holds (Known : String → Type 0) (s : MempoolState × List OutPoint) : Type 0 where
    known : (t : String) → Known t ↔ Elem (t, inputs t) s.0
    truth : All (IsTrue inputs) s.0
    spent : s.1 ≡ spent_outputs s.0

  retain-IsTrue :
      (txids : List String) (m : MempoolState)
      → All (IsTrue inputs) m
      → All (IsTrue inputs) (retain txids m)
  unfolding retain
  retain-IsTrue txids [] a = tt
  retain-IsTrue txids ((s, js) ∷ m) a = elim (Bool-cases (contains s txids)) [
    | inl k ↦ rw k (a.0, retain-IsTrue txids m a.1)
    | inr k ↦ rw k (retain-IsTrue txids m a.1)
  ]

  round-Holds :
      (f : String → Option (List OutPoint)) (listing : Option (List String))
      (Known : String → Type 0) (s : MempoolState × List OutPoint)
      → ((t : String) (is : List OutPoint) → f t ≡ some is → is ≡ inputs t)
      → Holds Known s
      → Holds (KnownAfter f listing Known) (listed_round f listing s)
  unfolding mempool_round
  round-Holds f none Known s honest h = h
  round-Holds f (some txids) Known s honest h = after_listing
    where
      stored :
          (t : String) → KnownAfter f (some txids) Known t → Elem (t, inputs t) (learn f txids s.0)
      stored t (c, inl k) = learn-keeps f (t, inputs t) txids s.0 ((h.known t).0 k)
      stored t (c, inr (is, e)) = learn-has inputs f honest t is txids s.0 h.truth e c

      source :
          (t : String)
          → Elem (t, inputs t) s.0 ⊎ (f t ≡ some (inputs t))
          → Known t ⊎ ((is : List OutPoint) × (f t ≡ some is))
      source t (inl e) = inl ((h.known t).1 e)
      source t (inr e) = inr (inputs t, e)

      after_listing : Holds (KnownAfter f (some txids) Known) (listed_round f (some txids) s)
      after_listing = record {
        known = λ t. (
          λ k. retain-has t (inputs t) txids _ k.0 (stored t k),
          λ e.
              let (c, g) = retain-from (t, inputs t) txids _ e in
              (c, source t (learn-from f t (inputs t) txids s.0 g)),
        );
        truth = retain-IsTrue txids _ (learn-IsTrue inputs f honest txids s.0 h.truth);
        spent = refl;
      }

  run-Holds :
      (rounds : List Round) (Known : String → Type 0) (s : MempoolState × List OutPoint)
      → All (IsHonest inputs) rounds
      → Holds Known s
      → Holds (IsKnown rounds Known) (run_mempool rounds s)
  unfolding run_mempool
  run-Holds [] Known s a h = h
  run-Holds (r ∷ rounds) Known s a h =
      run-Holds rounds _ _ a.1 (round-Holds r.inputs_of r.listing Known s a.0 h)

  nothing_known : Holds (λ t. ⊥) new_mempool
  unfolding spent_outputs
  nothing_known = record { known = λ t. (λ e. absurd e, λ e. absurd e); truth = tt; spent = refl }

  Holds-spent :
      (o : OutPoint) (Known : String → Type 0) (s : MempoolState × List OutPoint)
      → Holds Known s
      → Elem o s.1 ↔ ((t : String) × Known t × Elem o (inputs t))
  Holds-spent o Known s h = rw h.spent (
    λ e.
        let (t, is, k, i) = Elem-spent o s.0 e in
        let eq : is ≡ inputs t = All-Elem (IsTrue inputs) s.0 (t, is) h.truth k in
        let listed : Elem (t, inputs t) s.0 = subst (λ js. Elem (t, js) s.0) eq k in
        (t, (h.known t).1 listed, subst (Elem o) eq i),
    λ (t, k, i). spent-Elem o t (inputs t) s.0 ((h.known t).0 k) i,
  )

  -- After any rounds since the start, an output counts as spent in the mempool exactly if it is an
  -- input of a known transaction: one that the last listing has and whose inputs the node told in
  -- a round since which every listing has had it. A round whose listing fails changes nothing, and
  -- a transaction whose lookup fails is looked up again in the next round. The condition is that a
  -- transaction's inputs, whenever the node tells them, are always the same.
  pub run_mempool-IsSpent :
      (rounds : List Round) (o : OutPoint)
      → All (IsHonest inputs) rounds
      → Elem o (run_mempool rounds new_mempool).1
        ↔ ((t : String) × IsKnown rounds (λ u. ⊥) t × Elem o (inputs t))
  run_mempool-IsSpent rounds o honest =
      Holds-spent o _ _ (run-Holds rounds (λ u. ⊥) new_mempool honest nothing_known)

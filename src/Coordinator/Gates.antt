-- ===== src/Coordinator/Gates.antt =====
-- Which requests about a taken offer get past `check_offer_and_confirmation`
-- (coordinator/coordinator_utils.rs, coordinator/mod.rs).
use taptrade_core.Prelude.{String, ◌≡◌, ◌≢◌, refl, ◌∙◌, ap, Bool, true, false}
use taptrade_core.Prelude.Result.{
  ok, Action, Keeps-resume, resume, resume-ok, resume_err, map_err, map_err-ok, ◌>>=◌,
}
use taptrade_core.Errors.{RequestError, not_confirmed}
use taptrade_core.Externals.{Externals}
use taptrade_core.Node.{Node}
use taptrade_core.Database.Taken.{is_valid_robohash_in_table, fetch_escrow_tx_confirmation_status}
use taptrade_core.Coordinator.State.{Coordinator}
use taptrade_core.Coordinator.Trades.{
  or_fail, check_offer_and_confirmation, handle_obligation_confirmation, initiate_escrow,
  handle_payout_signature,
}

or_fail-state : {E : Type 0} (b : Bool) (e : E) (c : Coordinator) → (or_fail b e c).1 ≡ c
or_fail-state true e c = refl
or_fail-state false e c = refl

or_fail-ok :
    {E A : Type 0} (b : Bool) (e : E) (c : Coordinator) (f : Unit {0} → Action Coordinator E A)
    {a : A}
    → (resume (or_fail b e c).0 (or_fail b e c).1 f).0 ≡ ok a
    → (b ≡ true) × ((f tt c).0 ≡ ok a)
or_fail-ok true e c f h = (refl, h)
or_fail-ok false e c f h = cc

or_fail-true :
    {E : Type 0} (b : Bool) (e : E) (c : Coordinator) → (or_fail b e c).0 ≡ ok tt → b ≡ true
or_fail-true true e c h = refl
or_fail-true false e c h = cc

module _ (x : Externals) (offer_id robohash_hex : String) where
  -- The robot trades in the offer, and the offer's escrow transaction is confirmed.
  pub record Cleared (c : Coordinator) : Type 0 where
    pub member : is_valid_robohash_in_table x robohash_hex offer_id c.db ≡ ok true
    pub confirmed : fetch_escrow_tx_confirmation_status offer_id c.db ≡ ok true

  pub check-state :
      (c : Coordinator) → (check_offer_and_confirmation x offer_id robohash_hex c).1 ≡ c
  unfolding check_offer_and_confirmation
  check-state c =
      Keeps-resume (λ s. s ≡ c)
        (map_err RequestError.database (is_valid_robohash_in_table x robohash_hex offer_id c.db)) c
        _ refl
        (λ valid s p.
          Keeps-resume (λ s. s ≡ c) (or_fail valid RequestError.not_found s).0
            (or_fail valid RequestError.not_found s).1 _
            (or_fail-state valid RequestError.not_found s ∙ p)
            (λ _ s p.
              Keeps-resume (λ s. s ≡ c)
                (map_err RequestError.database (fetch_escrow_tx_confirmation_status offer_id s.db))
                s _ p (λ confirmed s p. or_fail-state confirmed not_confirmed s ∙ p)))

  pub check-Cleared :
      (c : Coordinator)
      → (check_offer_and_confirmation x offer_id robohash_hex c).0 ≡ ok tt
      → Cleared c
  unfolding check_offer_and_confirmation
  check-Cleared c h =
      let (valid, v, k) =
        resume-ok
          (map_err RequestError.database (is_valid_robohash_in_table x robohash_hex offer_id c.db))
          c _ h in
      let (t, l) = or_fail-ok valid RequestError.not_found c _ k in
      let (confirmed, w, m) =
        resume-ok
          (map_err RequestError.database (fetch_escrow_tx_confirmation_status offer_id c.db)) c _
          l in
      let u = or_fail-true confirmed not_confirmed c m in
      record {
        member =
            map_err-ok RequestError.database
              (is_valid_robohash_in_table x robohash_hex offer_id c.db) v
            ∙ ap ok t;
        confirmed =
            map_err-ok RequestError.database (fetch_escrow_tx_confirmation_status offer_id c.db) w
            ∙ ap ok u;
      }

  -- A handler that starts with the check does nothing when the check does not pass.
  abbrev pub Refused : {A : Type 0} → Coordinator → Action Coordinator RequestError A → Type 0
  Refused {A} c m = ((m c).1 ≡ c) × ((a : A) → (m c).0 ≢ ok a)

  check-Refused :
      {A : Type 0} (c : Coordinator) (f : Unit {0} → Action Coordinator RequestError A)
      → ¬ Cleared c
      → Refused c (check_offer_and_confirmation x offer_id robohash_hex >>= f)
  check-Refused c f blocked =
      let (same, fails) =
        resume_err (check_offer_and_confirmation x offer_id robohash_hex c).0
          (check_offer_and_confirmation x offer_id robohash_hex c).1 f
          (λ _ h. blocked (check-Cleared c h)) in
      (same ∙ check-state c, fails)

-- A robot that does not trade in the offer, or whose escrow transaction is not confirmed, can
-- neither confirm the trade, nor ask for a decision, nor hand in a signature for the payout: each of
-- the three requests fails and leaves the database and the broadcast transactions as they are.
pub gated :
    (x : Externals) (n : Node) (offer_id robohash_hex sig : String) (c : Coordinator)
    → ¬ Cleared x offer_id robohash_hex c
    → Refused x offer_id robohash_hex c (
        handle_obligation_confirmation x
          (record { offer_id_hex = offer_id; robohash_hex = robohash_hex }))
      × Refused x offer_id robohash_hex c
          (initiate_escrow x (record { offer_id_hex = offer_id; robohash_hex = robohash_hex }))
      × Refused x offer_id robohash_hex c (
          handle_payout_signature x n (record {
            partial_sig_hex = sig;
            offer_id_hex = offer_id;
            robohash_hex = robohash_hex;
          }))
unfolding handle_obligation_confirmation initiate_escrow handle_payout_signature
gated x n offer_id robohash_hex sig c blocked = (
  check-Refused x offer_id robohash_hex c _ blocked,
  check-Refused x offer_id robohash_hex c _ blocked,
  check-Refused x offer_id robohash_hex c _ blocked,
)

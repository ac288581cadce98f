-- ===== src/Trader/Polling.antt =====
-- What the polling loops come to (communication/mod.rs, `IsOfferReadyRequest`).
use taptrade_core.Prelude.{
  ℕ, String, ◌≡◌, ◌≢◌, ◌⊎◌, refl, false, Option, some, inl, inr, List, [], ◌∷◌, ◌++◌, map, ◌==◌,
  ==_iff, Bool-cases, if◌then◌else◌,
}
use taptrade_core.Http.{Request}
use taptrade_core.Http.Answers.{Response}
use taptrade_core.Sql.Rows.{All}
use taptrade_core.Errors.{external}
use taptrade_core.Trader.Settings.{TraderSettings, TraderWallet}
use taptrade_core.Trader.Session.{Outcome, done, failed, Session, Verdict, again, finish, poll_on}
use taptrade_core.Trader.Requests.{
  about, ready_verdict, poll, payout_verdict, poll_payout, lost_escrow_error, payout_failed_error,
}

-- as many requests as there are answers, and then those before
abbrev pub repeated : List Response → Request → List Request → List Request
repeated [] r rs = rs
repeated (p ∷ ps) r rs = repeated ps r (r ∷ rs)

-- the session after a loop that has seen these answers and one more
abbrev pub polled : List Response → Request → List (Option Response) → Session → Session
polled ps r later s = record s { answers = later; requests = r ∷ repeated ps r s.requests }

-- A loop sends one request for each answer that it is not content with, and one more.
poll_on-finish :
    {A : Type 0} (r : Request) (judge : Response → Verdict A) (ps : List Response) (a : Response)
    (later : List (Option Response)) (s : Session) {o : Outcome A}
    → All (λ p. judge p ≡ again) ps
    → judge a ≡ finish o
    → poll_on r judge (map some ps ++ (some a ∷ later)) s ≡ (o, polled ps r later s)
unfolding poll_on
poll_on-finish r judge [] a later s h e = rw e refl
poll_on-finish r judge (p ∷ ps) a later s h e = rw h.0 (
    poll_on-finish r judge ps a later
      (record s { answers = map some ps ++ (some a ∷ later); requests = r ∷ s.requests }) h.1 e)

-- an answer to `poll` that the escrow is not confirmed yet
abbrev pub Pending : Response → Type 0
Pending p = p.status ≡ 202

Pending-again : (ps : List Response) → All Pending ps → All (λ p. ready_verdict p ≡ again) ps
unfolding ready_verdict
Pending-again [] h = tt
Pending-again (p ∷ ps) h = (rw h.0 refl, Pending-again ps h.1)

-- the end of `poll` on a status that is not 202
abbrev pub poll_outcome : ℕ → Outcome (Unit {0})
poll_outcome status =
    if status == 200
    then done tt
    else failed (external "Requesting offer status when waiting on other party failed")

ready_verdict-finish :
    (a : Response) → a.status ≢ 202 → ready_verdict a ≡ finish (poll_outcome a.status)
unfolding ready_verdict
ready_verdict-finish a ne = elim (Bool-cases (a.status == 200)) [
  | inl e ↦ rw e refl
  | inr e ↦ elim (Bool-cases (a.status == 202)) [
    | inl f ↦ absurd (ne ((==_iff a.status 202).0 f))
    | inr f ↦ rw (e, f) refl
  ]
]

-- The wait for the confirmation of the escrow goes on for as long as the answers have the status
-- 202, which the coordinator sends, and ends with the first that has not: well if that is 200 and
-- with an error if not, also on the 204 that taptrade_api_mockoon.json documents for a trade that is
-- not ready. It sends one request for each answer.
pub poll_lem :
    (t : TraderSettings) (offer_id : String) (ps : List Response) (a : Response)
    (later : List (Option Response)) (s : Session)
    → All Pending ps
    → a.status ≢ 202
    → poll t offer_id (record s { answers = map some ps ++ (some a ∷ later) }) ≡ (
      poll_outcome a.status,
      polled ps (Request.poll_escrow_confirmation (about t offer_id)) later s,
    )
unfolding poll
poll_lem t offer_id ps a later s pending ne =
    poll_on-finish (Request.poll_escrow_confirmation (about t offer_id)) ready_verdict ps a later
      (record s { answers = map some ps ++ (some a ∷ later) }) (Pending-again ps pending)
      (ready_verdict-finish a ne)

-- an answer to `poll_payout` that the payout is not ready, or that the escrow is being decided
abbrev pub Undecided : Response → Type 0
Undecided p = (p.status ≡ 202) ⊎ (p.status ≡ 201)

Undecided-again : (ps : List Response) → All Undecided ps → All (λ p. payout_verdict p ≡ again) ps
unfolding payout_verdict
Undecided-again [] h = tt
Undecided-again (p ∷ ps) (inl e, h) = (rw e refl, Undecided-again ps h)
Undecided-again (p ∷ ps) (inr e, h) = (rw e refl, Undecided-again ps h)

differs : (a b : ℕ) → a ≢ b → (a == b) ≡ false
differs a b ne = elim (Bool-cases (a == b)) [ inl e ↦ absurd (ne ((==_iff a b).0 e)) | inr e ↦ e ]

-- The wait for the payout ends with an error on the first answer whose status is none of 200, 201
-- and 202: a trader who has lost the escrow, status 410, is told that the request has failed, and on
-- every other status the trader is told that the escrow is lost.
pub poll_payout-failed :
    (w : TraderWallet) (t : TraderSettings) (offer_id : String) (ps : List Response) (a : Response)
    (later : List (Option Response)) (s : Session)
    → All Undecided ps
    → a.status ≢ 200
    → a.status ≢ 201
    → a.status ≢ 202
    → poll_payout w t offer_id (record s { answers = map some ps ++ (some a ∷ later) }) ≡ (
      failed (if a.status == 410 then payout_failed_error else lost_escrow_error),
      polled ps (Request.poll_final_payout (about t offer_id)) later s,
    )
unfolding poll_payout payout_verdict
poll_payout-failed w t offer_id ps a later s undecided n0 n1 n2 =
    rw
      (poll_on-finish (Request.poll_final_payout (about t offer_id)) payout_verdict ps a later
        (record s { answers = map some ps ++ (some a ∷ later) }) (Undecided-again ps undecided)
        (verdict (differs _ _ n0) (differs _ _ n1) (differs _ _ n2)))
      refl
  where
    verdict :
        (a.status == 200) ≡ false
        → (a.status == 201) ≡ false
        → (a.status == 202) ≡ false
        → payout_verdict a
          ≡ finish (failed (if a.status == 410 then payout_failed_error else lost_escrow_error))
    verdict e0 e1 e2 = elim (Bool-cases (a.status == 410)) [
      | inl f ↦ rw (e0, e1, e2, f) refl
      | inr f ↦ rw (e0, e1, e2, f) refl
    ]

-- ===== src/Trader/Silent.antt =====
-- The steps of the trader's program that agree to no payout and read no line (trading/mod.rs).
use taptrade_core.Prelude.{
  String, ◌==◌, ◌≡◌, refl, Bool, true, false, Option, none, some, List, [], ◌∷◌, Bool-cases, inl,
  inr,
}
use taptrade_core.Http.{Request}
use taptrade_core.Http.Answers.{Response}
use taptrade_core.Sql.Rows.{All}
use taptrade_core.Trader.Settings.{TraderSettings, TraderWallet}
use taptrade_core.Trader.Session.{
  Outcome, done, failed, panicked, waiting, Session, Program, Verdict, again, finish, asked, post,
  reply, poll_on, poll_until, continue_with, present, ◌>>=◌, settle, stop, outcome,
}
use taptrade_core.Errors.{AnyError, external}
use taptrade_core.Api.{BondSubmissionRequest}
use taptrade_core.Trader.Requests.{
  expect_ok, json_bond_requirements, json_offer_activated, fetch_requirements, send_maker,
  format_order_request, submit_escrow_psbt, poll, about, ready_verdict, poll_payout, payout_verdict,
  json_payout, decoded, request_escrow, taken_verdict,
}
use taptrade_core.Trader.Offers.{
  trade_onchain_assembly, input_amount, bond_submission, create, ActiveOffer, wait_until_taken,
  sign_escrow_psbt,
}
use taptrade_core.Trader.Inputs.{get_escrow_psbt_inputs}
use taptrade_core.Trader.Flows.{mediate, lock_escrow}

-- the requests by which a trader agrees to the payout
abbrev pub gives_consent : Request → Bool
gives_consent (Request.submit_obligation_confirmation q) = true
gives_consent (Request.submit_payout_signature q) = true
gives_consent _ = false

abbrev pub NoConsent : Request → Type 0
NoConsent r = gives_consent r ≡ false

-- no such request has been sent, and these lines are to come
abbrev pub Silent : List String → Session → Type 0
Silent lines s = All NoConsent s.requests × (s.lines ≡ lines)

abbrev pub Keeps : {A : Type 0} → (Session → Type 0) → Program A → Type 0
Keeps P m = (s : Session) → P s → P (m s).1

pub continue-Keeps :
    {A B : Type 0} (P : Session → Type 0) (o : Outcome A) (s : Session) (f : A → Program B)
    → P s
    → ((a : A) → Keeps P (f a))
    → P (continue_with o s f).1
continue-Keeps P (done a) s f p k = k a s p
continue-Keeps P (failed e) s f p k = p
continue-Keeps P panicked s f p k = p
continue-Keeps P waiting s f p k = p

module _ (lines : List String) where
  reply-Silent :
      (r : Request) (answers : List (Option Response))
      → NoConsent r
      → Keeps (Silent lines) (reply r answers)
  reply-Silent r [] q s p = ((q, p.0), p.1)
  reply-Silent r (none ∷ later) q s p = ((q, p.0), p.1)
  reply-Silent r (some a ∷ later) q s p = ((q, p.0), p.1)

  -- a request that is no consent, and what follows it
  pub post-Silent :
      {B : Type 0} (r : Request) (f : Response → Program B)
      → NoConsent r
      → ((a : Response) → Keeps (Silent lines) (f a))
      → Keeps (Silent lines) (post r >>= f)
  post-Silent r f q k s p =
      continue-Keeps (Silent lines) (reply r s.answers s).0 (reply r s.answers s).1 f
        (reply-Silent r s.answers q s p) k

  verdict-Silent :
      {A : Type 0} (v : Verdict A) (next : Outcome A × Session) (s : Session)
      → Silent lines next.1
      → Silent lines s
      → Silent lines (settle v next s).1
  verdict-Silent again next s n p = n
  verdict-Silent (finish o) next s n p = p

  pub poll_on-Silent :
      {A : Type 0} (r : Request) (judge : Response → Verdict A) (answers : List (Option Response))
      → NoConsent r
      → Keeps (Silent lines) (poll_on r judge answers)
  unfolding poll_on
  poll_on-Silent r judge [] q s p = ((q, p.0), p.1)
  poll_on-Silent r judge (none ∷ later) q s p = ((q, p.0), p.1)
  poll_on-Silent r judge (some a ∷ later) q s p =
      verdict-Silent (judge a) (poll_on r judge later (asked r later s)) (asked r later s)
        (poll_on-Silent r judge later q (asked r later s) ((q, p.0), p.1)) ((q, p.0), p.1)

  pub poll-Silent :
      {A B : Type 0} (r : Request) (judge : Response → Verdict A) (f : A → Program B)
      → NoConsent r
      → ((a : A) → Keeps (Silent lines) (f a))
      → Keeps (Silent lines) (poll_until r judge >>= f)
  poll-Silent r judge f q k s p =
      continue-Keeps (Silent lines) (poll_on r judge s.answers s).0 (poll_on r judge s.answers s).1
        f (poll_on-Silent r judge s.answers q s p) k

  pub stop-Silent :
      {A B : Type 0} (o : Outcome A) (f : A → Program B)
      → ((a : A) → Keeps (Silent lines) (f a))
      → Keeps (Silent lines) (stop o >>= f)
  stop-Silent o f k s p = continue-Keeps (Silent lines) o s f p k

  pub present-Silent :
      {A B : Type 0} (a : Option A) (e : AnyError) (f : A → Program B)
      → ((a : A) → Keeps (Silent lines) (f a))
      → Keeps (Silent lines) (present a e >>= f)
  present-Silent (some a) e f k s p = k a s p
  present-Silent none e f k s p = p

  expect_ok-Silent : (text : String) (res : Response) → Keeps (Silent lines) (expect_ok text res)
  expect_ok-Silent text res s p = elim (Bool-cases (res.status == 200)) [
    | inl e ↦ rw e p
    | inr e ↦ rw e p
  ]

  module _ (w : TraderWallet) (t : TraderSettings) where
    present_end : {A : Type 0} (a : Option A) (e : AnyError) → Keeps (Silent lines) (present a e)
    present_end (some a) e s p = p
    present_end none e s p = p

    send_maker-Silent : (bond : BondSubmissionRequest) → Keeps (Silent lines) (send_maker bond)
    unfolding send_maker
    send_maker-Silent bond =
        post-Silent (Request.submit_maker_bond bond) _ refl
          (λ res s p. present_end (json_offer_activated res.body) _ s p)

    fetch_requirements-Silent : Keeps (Silent lines) (fetch_requirements t)
    unfolding fetch_requirements
    fetch_requirements-Silent =
        post-Silent (Request.create_offer (format_order_request t)) _ refl
          (λ res s p. present_end (json_bond_requirements res.body) _ s p)

    pub create-Silent : Keeps (Silent lines) (create w t)
    unfolding create
    create-Silent s p =
        continue-Keeps (Silent lines) (fetch_requirements t s).0 (fetch_requirements t s).1 _
          (fetch_requirements-Silent s p)
          (λ conditions.
            stop-Silent (outcome (trade_onchain_assembly w conditions t)) _ (λ assembled.
              stop-Silent (outcome (input_amount t.trade_type conditions)) _ (λ amount.
                stop-Silent (outcome (get_escrow_psbt_inputs w amount)) _ (λ inputs.
                  stop-Silent
                    (outcome (bond_submission w t assembled.0 assembled.1 assembled.2 inputs).0) _
                    (λ bond s p.
                      continue-Keeps (Silent lines) (send_maker bond s).0 (send_maker bond s).1 _
                        (send_maker-Silent bond s p) (λ _ s p. p))))))

    pub submit_escrow_psbt-Silent :
        (psbt offer_id : String) → Keeps (Silent lines) (submit_escrow_psbt t psbt offer_id)
    unfolding submit_escrow_psbt
    submit_escrow_psbt-Silent psbt offer_id =
        post-Silent _ _ refl (expect_ok-Silent "Submitting escrow psbt failed")

    pub poll_ready-Silent : (offer_id : String) → Keeps (Silent lines) (poll t offer_id)
    unfolding poll
    poll_ready-Silent offer_id s p =
        poll_on-Silent (Request.poll_escrow_confirmation (about t offer_id)) ready_verdict s.answers
          refl s p

    poll_payout-Silent : (offer_id : String) → Keeps (Silent lines) (poll_payout w t offer_id)
    unfolding poll_payout
    poll_payout-Silent offer_id =
        poll-Silent (Request.poll_final_payout (about t offer_id)) payout_verdict _ refl (λ res.
          stop-Silent (decoded (json_payout res.body)) _ (λ payout.
            present-Silent (w.parse_psbt_hex payout.payout_psbt_hex) (external "psbt") _ (λ psbt.
              present-Silent (w.parse_agg_nonce payout.agg_musig_nonce_hex)
                (external "Error parsing agg nonce") _
                (λ nonce.
                  present-Silent (w.parse_key_agg payout.agg_musig_pubkey_ctx_hex)
                    (external "Error parsing agg pubkey ctx") _ (λ ctx s p. p)))))

    request_escrow-Silent : (offer_id : String) → Keeps (Silent lines) (request_escrow t offer_id)
    unfolding request_escrow
    request_escrow-Silent offer_id =
        post-Silent _ _ refl (expect_ok-Silent "Submitting trade obligations unsatisfied failed")

    pub mediate-Silent : (offer : ActiveOffer) → Keeps (Silent lines) (mediate w t offer)
    mediate-Silent offer s p =
        continue-Keeps (Silent lines) (request_escrow t offer.offer_id_hex s).0
          (request_escrow t offer.offer_id_hex s).1 _ (request_escrow-Silent offer.offer_id_hex s p)
          (λ _ s p.
            continue-Keeps (Silent lines) (poll_payout w t offer.offer_id_hex s).0
              (poll_payout w t offer.offer_id_hex s).1 _ (poll_payout-Silent offer.offer_id_hex s p)
              (λ _ s p. p))

    pub lock_escrow-Silent : (offer : ActiveOffer) → Keeps (Silent lines) (lock_escrow w t offer)
    unfolding wait_until_taken
    lock_escrow-Silent offer =
        poll-Silent (Request.request_offer_status (about t offer.offer_id_hex)) taken_verdict _ refl
          (λ taken. present-Silent (w.parse_psbt taken.escrow_psbt_hex) (external "psbt") _ (λ psbt.
            stop-Silent (outcome (sign_escrow_psbt w psbt)) _ (λ signed s p.
              continue-Keeps (Silent lines)
                (submit_escrow_psbt t (w.psbt_hex signed) offer.offer_id_hex s).0
                (submit_escrow_psbt t (w.psbt_hex signed) offer.offer_id_hex s).1 _
                (submit_escrow_psbt-Silent (w.psbt_hex signed) offer.offer_id_hex s p)
                (λ _. poll_ready-Silent offer.offer_id_hex))))

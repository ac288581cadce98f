-- ===== src/Trader/Sharing.antt =====
-- The nonce of an offer, from its sharing on (trading/maker_utils.rs, wallet/musig2_utils.rs).
use taptrade_core.Prelude.{
  String, ◌≡◌, refl, sym, ap, ◌∙◌, ◌||◌, Option, none, some, List, [], ◌∷◌, Bool-cases, inl, inr,
}
use mathlib.Core.Path.{subst}
use taptrade_core.Prelude.Result.{Result, ok, err, panic, and_then-ok, ok-injective}
use taptrade_core.Errors.{AnyError, external}
use taptrade_core.Api.{BondSubmissionRequest, OfferActivatedResponse}
use taptrade_core.Http.{Request}
use taptrade_core.Http.Answers.{Response}
use taptrade_core.Trader.Settings.{TraderSettings, TraderWallet}
use taptrade_core.Trader.Session.{
  Outcome, done, failed, panicked, waiting, Session, Program, continue_with, outcome, reply,
  present, asked,
}
use taptrade_core.Trader.Nonce.{MusigNonce, MuSigData, get_pub_for_sharing}
use taptrade_core.Trader.Requests.{send_maker, json_offer_activated, fetch_requirements}
use taptrade_core.Trader.Inputs.{get_escrow_psbt_inputs}
use taptrade_core.Trader.Offers.{
  ActiveOffer, input_amount, trade_onchain_assembly, bond_submission, create,
}

-- A program that ends well is one whose first step has, and what followed it.
continue-done :
    {A B : Type 0} (o : Outcome A) (s : Session) (f : A → Program B) {b : B}
    → (continue_with o s f).0 ≡ done b
    → (a : A) × (o ≡ done a) × ((f a s).0 ≡ done b) × ((continue_with o s f).1 ≡ (f a s).1)
continue-done (done a) s f h = (a, refl, h, refl)
continue-done (failed e) s f h = cc
continue-done panicked s f h = cc
continue-done waiting s f h = cc

done-injective : {A : Type 0} {a b : A} → ◌≡◌ {A = Outcome A} (done a) (done b) → a ≡ b
done-injective h = cc

outcome-done : {A : Type 0} (r : Result AnyError A) {a : A} → outcome r ≡ done a → r ≡ ok a
outcome-done (ok a) h = cc
outcome-done (err e) h = cc
outcome-done panic h = cc

-- A bond that is handed in is the last request.
send_maker-requests :
    (bond : BondSubmissionRequest) (s : Session)
    → (send_maker bond s).1.requests ≡ Request.submit_maker_bond bond ∷ s.requests
unfolding send_maker
send_maker-requests bond s = by_answers s.answers
  where
    by_present :
        (a : Option OfferActivatedResponse) (d : Session)
        → (present a (external "Error submitting maker bond") d).1.requests ≡ d.requests
    by_present none d = refl
    by_present (some a) d = refl

    by_answers :
        (answers : List (Option Response))
        → (continue_with
            (reply (Request.submit_maker_bond bond) answers s).0
            (reply (Request.submit_maker_bond bond) answers s).1
            (λ res.
              present
                (json_offer_activated res.body)
                (external "Error submitting maker bond"))).1.requests
          ≡ Request.submit_maker_bond bond ∷ s.requests
    by_answers [] = refl
    by_answers (none ∷ later) = refl
    by_answers (some a ∷ later) =
        by_present (json_offer_activated a.body) (asked (Request.submit_maker_bond bond) later s)

module _ (w : TraderWallet) where
  -- a nonce that has been shared is not shared again
  abbrev pub Spent : MusigNonce → Type 0
  Spent nonce = get_pub_for_sharing w nonce ≡ (err (external "MuSig nonce reused!"), nonce)

  shared-Spent :
      (nonce : MusigNonce) {text : String}
      → (get_pub_for_sharing w nonce).0 ≡ ok text
      → (text ≡ w.public_nonce nonce.secret_nonce)
        × ((get_pub_for_sharing w nonce).1.secret_nonce ≡ nonce.secret_nonce)
        × Spent (get_pub_for_sharing w nonce).1
  unfolding get_pub_for_sharing
  shared-Spent nonce {text} h =
      elim (Bool-cases (nonce.accessed_for_sharing || nonce.accessed_for_signing)) [
        | inl e ↦ absurd (refused (rw e at h))
        | inr e ↦ rw e (accepted (rw e at h), refl, refl)
      ]
    where
      refused :
          ◌≡◌ {A = Result AnyError String} (err (external "MuSig nonce reused!")) (ok text) → ⊥
      refused k = cc

      accepted :
          ◌≡◌ {A = Result AnyError String} (ok (w.public_nonce nonce.secret_nonce)) (ok text)
          → text ≡ w.public_nonce nonce.secret_nonce
      accepted k = cc

  submission-shares :
      (t : TraderSettings) (bond : String) (musig : MuSigData) (address : String)
      (inputs : String × String) {b : BondSubmissionRequest}
      → (bond_submission w t bond musig address inputs).0 ≡ ok b
      → (b.musig_pub_nonce_hex
          ≡ w.public_nonce (bond_submission w t bond musig address inputs).1.nonce.secret_nonce)
        × Spent (bond_submission w t bond musig address inputs).1.nonce
  unfolding bond_submission
  submission-shares t bond musig address (inputs, change) h =
      let (text, e, k) = and_then-ok (get_pub_for_sharing w musig.nonce).0 _ h in
      let (shared, kept, spent) = shared-Spent musig.nonce e in
      (rw kept (sym (ap (λ r. r.musig_pub_nonce_hex) (ok-injective k)) ∙ shared), spent)

  -- When the maker's program has made an offer, the last request that it has sent hands in the bond
  -- together with the public part of the nonce that the offer keeps, and that nonce cannot be shared
  -- again.
  pub create-shares :
      (t : TraderSettings) (s : Session) {offer : ActiveOffer}
      → (create w t s).0 ≡ done offer
      → (bond : BondSubmissionRequest) × (earlier : List Request) × ((create w t s).1.requests
          ≡ Request.submit_maker_bond bond ∷ earlier)
        × (bond.musig_pub_nonce_hex ≡ w.public_nonce offer.used_musig_config.nonce.secret_nonce)
        × Spent offer.used_musig_config.nonce
  unfolding create
  create-shares t s {offer} h =
      let s1 = (fetch_requirements t s).1 in
      let (conditions, _, h1, t1) = continue-done (fetch_requirements t s).0 s1 _ h in
      let (assembled, _, h2, t2) =
        continue-done (outcome (trade_onchain_assembly w conditions t)) s1 _ h1 in
      let (amount, _, h3, t3) =
        continue-done (outcome (input_amount t.trade_type conditions)) s1 _ h2 in
      let (inputs, _, h4, t4) = continue-done (outcome (get_escrow_psbt_inputs w amount)) s1 _ h3 in
      let submission = bond_submission w t assembled.0 assembled.1 assembled.2 inputs in
      let (bond, e5, h5, t5) = continue-done (outcome submission.0) s1 _ h4 in
      let (result, e6, h6, t6) = continue-done (send_maker bond s1).0 (send_maker bond s1).1 _ h5 in
      let (shared, spent) =
        submission-shares t assembled.0 assembled.1 assembled.2 inputs
          (outcome-done submission.0 e5) in
      let same : submission.1 ≡ offer.used_musig_config =
        ap (λ o. o.used_musig_config) (done-injective h6) in
      (
        bond,
        s1.requests,
        ap (λ d. d.requests) (t1 ∙ t2 ∙ t3 ∙ t4 ∙ t5 ∙ t6) ∙ send_maker-requests bond s1,
        shared ∙ ap (λ m. w.public_nonce m.nonce.secret_nonce) same,
        subst (λ m. Spent m.nonce) same spent,
      )

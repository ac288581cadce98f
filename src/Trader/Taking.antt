-- ===== src/Trader/Taking.antt =====
-- What the taker's program, and so the program as a whole, does not do unless its trader says so
-- (trading/mod.rs, `run_taker`; main.rs, `start_trade_pipeline`).
use taptrade_core.Prelude.{
  ℕ, String, ◌==◌, ◌≡◌, ◌≢◌, refl, Bool, true, false, Option, none, some, List, [], ◌∷◌, Bool-cases,
  inl, inr, if◌then◌else◌,
}
use taptrade_core.Prelude.Parse.{parse_unsigned, trim}
use taptrade_core.Prelude.Result.{ok_or}
use taptrade_core.Errors.{external}
use taptrade_core.Api.{PublicOffer, BondSubmissionRequest}
use taptrade_core.Http.{Request}
use taptrade_core.Trader.Settings.{TraderSettings, TraderWallet}
use taptrade_core.Trader.Session.{panicked, Session, Program, continue_with, outcome, stop, poll_on}
use taptrade_core.Trader.Inputs.{get_escrow_psbt_inputs}
use taptrade_core.Trader.Requests.{
  taker_request, submit_escrow_psbt, poll, offers_request, offers_verdict,
}
use taptrade_core.Trader.Offers.{
  ActiveOffer, take, trade_onchain_assembly, input_amount, bond_submission, sign_escrow_psbt,
  confirmation, confirmed, fiat_confirmation_cli_input,
}
use taptrade_core.Trader.Flows.{close_trade, run_taker, ask_user_to_select, offer_at}
use taptrade_core.Trader.Cli.{Machine, CliSettings, load_wallet, start_trade_pipeline}
use taptrade_core.Trader.Silent.{
  Silent, Keeps, post-Silent, poll_on-Silent, stop-Silent, present-Silent,
  submit_escrow_psbt-Silent, poll_ready-Silent, continue-Keeps,
}
use taptrade_core.Trader.Consent.{Unconfirmed, NoneConsents, continue-into, run_maker-NoneConsents}

module _ (lines : List String) (w : TraderWallet) (t : TraderSettings) where
  taker_request-Silent :
      (offer : PublicOffer) (bond : BondSubmissionRequest)
      → Keeps (Silent lines) (taker_request offer bond)
  unfolding taker_request
  taker_request-Silent offer bond =
      post-Silent lines (Request.submit_taker_bond (record { offer = offer; trade_data = bond })) _
        refl (λ res s p. elim (Bool-cases (res.status == 200)) [ inl e ↦ rw e p | inr e ↦ rw e p ])

  take-Silent : (offer : PublicOffer) → Keeps (Silent lines) (take w t offer)
  unfolding take
  take-Silent offer =
      stop-Silent lines (outcome (trade_onchain_assembly w offer.bond_requirements t)) _ (λ a.
        stop-Silent lines (outcome (input_amount t.trade_type offer.bond_requirements)) _ (λ amount.
          stop-Silent lines (outcome (get_escrow_psbt_inputs w amount)) _ (λ inputs.
            stop-Silent lines (outcome (bond_submission w t a.0 a.1 a.2 inputs).0) _ (λ bond s p.
              continue-Keeps (Silent lines) (taker_request offer bond s).0
                (taker_request offer bond s).1 _ (taker_request-Silent offer bond s p)
                (λ taken.
                  present-Silent lines (w.parse_psbt taken.escrow_psbt_hex) (external "psbt") _
                    (λ psbt. stop-Silent lines (outcome (sign_escrow_psbt w psbt)) _ (λ signed s p.
                      continue-Keeps (Silent lines)
                        (submit_escrow_psbt t (w.psbt_hex signed) offer.offer_id_hex s).0
                        (submit_escrow_psbt t (w.psbt_hex signed) offer.offer_id_hex s).1 _
                        (submit_escrow_psbt-Silent lines w t (w.psbt_hex signed) offer.offer_id_hex
                          s p)
                        (λ _ s p. p))))))))

-- After the line that selects the offer, the lines to come do not confirm.
abbrev pub SelectsOnly : List String → Type 0
SelectsOnly [] = Unit {0}
SelectsOnly (index ∷ lines) = Unconfirmed lines

abbrev pub Withheld : CliSettings → List String → Type 0
Withheld (CliSettings.maker t) lines = Unconfirmed lines
Withheld (CliSettings.taker t) lines = SelectsOnly lines
Withheld CliSettings.coordinator lines = Unit {0}

module _ (w : TraderWallet) (t : TraderSettings) where
  decide : ActiveOffer → Bool → Program (Unit {0})
  decide offer satisfied = if satisfied then close_trade w t offer else stop panicked

  decided-NoneConsents :
      (offer : ActiveOffer) (s : Session) (c : Option (Bool × List String))
      → ((later : List String) → c ≢ some (true, later))
      → NoneConsents s
      → NoneConsents (continue_with (confirmed c s).0 (confirmed c s).1 (decide offer)).1
  unfolding decide
  decided-NoneConsents offer s none u q = q
  decided-NoneConsents offer s (some (true, later)) u q = absurd (u later refl)
  decided-NoneConsents offer s (some (false, later)) u q = q

  -- from the selected offer on
  rest_of_trade : PublicOffer → Program (Unit {0})
  rest_of_trade offer s = continue_with (take w t offer s).0 (take w t offer s).1 (λ accepted s1.
      continue_with (poll t accepted.offer_id_hex s1).0 (poll t accepted.offer_id_hex s1).1 (λ _ s2.
        continue_with (fiat_confirmation_cli_input s2).0 (fiat_confirmation_cli_input s2).1
          (decide accepted)))

  rest-NoneConsents :
      (offer : PublicOffer) (s : Session)
      → Unconfirmed s.lines
      → NoneConsents s
      → NoneConsents (rest_of_trade offer s).1
  unfolding rest_of_trade fiat_confirmation_cli_input
  rest-NoneConsents offer s u q =
      let taken = take-Silent s.lines w t offer s (q, refl) in
      continue-into NoneConsents (take w t offer s).0 (take w t offer s).1 _ taken.0 (λ accepted.
        let s1 = (take w t offer s).1 in
        let ready = poll_ready-Silent s.lines w t accepted.offer_id_hex s1 taken in
        continue-into NoneConsents (poll t accepted.offer_id_hex s1).0
          (poll t accepted.offer_id_hex s1).1 _ ready.0
          (λ _.
            decided-NoneConsents accepted (poll t accepted.offer_id_hex s1).1
              (confirmation (poll t accepted.offer_id_hex s1).1.lines) (rw ready.1 u) ready.0))

  -- the selection by a line that is an index or is none
  indexed-NoneConsents :
      (offers : List PublicOffer) (o : Option ℕ) (s : Session)
      → Unconfirmed s.lines
      → NoneConsents s
      → NoneConsents
          (continue_with
            (continue_with
              (outcome (ok_or o (external "Wrong index entered")))
              s
              (λ index. stop (offer_at offers index))).0
            (continue_with
              (outcome (ok_or o (external "Wrong index entered")))
              s
              (λ index. stop (offer_at offers index))).1
            rest_of_trade).1
  indexed-NoneConsents offers none s u q = q
  indexed-NoneConsents offers (some index) s u q =
      continue-into NoneConsents (offer_at offers index) s rest_of_trade q
        (λ offer. rest-NoneConsents offer s u q)

  selected-NoneConsents :
      (offers : List PublicOffer) (lines : List String) (s : Session)
      → s.lines ≡ lines
      → SelectsOnly lines
      → NoneConsents s
      → NoneConsents
          (continue_with
            (ask_user_to_select w offers s).0
            (ask_user_to_select w offers s).1
            rest_of_trade).1
  selected-NoneConsents offers [] s e u q = rw e q
  selected-NoneConsents offers (line ∷ later) s e u q =
      rw e (
        indexed-NoneConsents offers (parse_unsigned 64 (trim line)) (record s { lines = later }) u
          q)

  pub run_taker-NoneConsents :
      (s : Session) → SelectsOnly s.lines → NoneConsents s → NoneConsents (run_taker w t s).1
  unfolding run_taker decide rest_of_trade
  run_taker-NoneConsents s u q =
      let asking = Request.fetch_available_offers (offers_request w t) in
      let shown = poll_on-Silent s.lines asking offers_verdict s.answers refl s (q, refl) in
      continue-into NoneConsents (poll_on asking offers_verdict s.answers s).0
        (poll_on asking offers_verdict s.answers s).1 _ shown.0
        (λ offers. selected-NoneConsents offers s.lines _ shown.1 u shown.0)

module _ (m : Machine) where
  -- A maker whose lines do not confirm the fiat payment before asking for mediation, and a taker
  -- whose lines after the selection of an offer do not, send neither the confirmation that the
  -- trade's obligations are met nor a partial signature for the payout, in a run that starts
  -- without having sent them, whatever the coordinator answers and whatever wallet is loaded.
  pub start_trade_pipeline-NoneConsents :
      (c : CliSettings) (s : Session)
      → Withheld c s.lines
      → NoneConsents s
      → NoneConsents (start_trade_pipeline m c s).1
  unfolding start_trade_pipeline
  start_trade_pipeline-NoneConsents (CliSettings.maker t) s u q =
      continue-into NoneConsents (outcome (load_wallet m t)) s _ q
        (λ w. run_maker-NoneConsents w t s u q)
  start_trade_pipeline-NoneConsents (CliSettings.taker t) s u q =
      continue-into NoneConsents (outcome (load_wallet m t)) s _ q
        (λ w. run_taker-NoneConsents w t s u q)
  start_trade_pipeline-NoneConsents CliSettings.coordinator s u q = q

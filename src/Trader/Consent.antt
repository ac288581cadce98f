-- ===== src/Trader/Consent.antt =====
-- What the maker's program does not do unless its trader says so (trading/mod.rs, `run_maker`).
use taptrade_core.Prelude.{
  String, ◌≢◌, refl, Bool, true, false, Option, none, some, List, if◌then◌else◌,
}
use taptrade_core.Sql.Rows.{All}
use taptrade_core.Trader.Settings.{TraderSettings, TraderWallet}
use taptrade_core.Trader.Session.{
  Outcome, done, failed, panicked, waiting, Session, Program, continue_with,
}
use taptrade_core.Trader.Offers.{
  ActiveOffer, create, confirmation, confirmed, fiat_confirmation_cli_input,
}
use taptrade_core.Trader.Flows.{lock_escrow, close_trade, mediate, run_maker}
use taptrade_core.Trader.Silent.{NoConsent, create-Silent, lock_escrow-Silent, mediate-Silent}

-- The lines to come do not confirm: there is an `M` before any `y`, or neither.
abbrev pub Unconfirmed : List String → Type 0
Unconfirmed lines = (later : List String) → confirmation lines ≢ some (true, later)

-- what holds where a program stops and after it has gone on
pub continue-into :
    {A B : Type 0} (Q : Session → Type 0) (o : Outcome A) (s : Session) (f : A → Program B)
    → Q s
    → ((a : A) → Q (f a s).1)
    → Q (continue_with o s f).1
continue-into Q (done a) s f q k = k a
continue-into Q (failed e) s f q k = q
continue-into Q panicked s f q k = q
continue-into Q waiting s f q k = q

abbrev pub NoneConsents : Session → Type 0
NoneConsents s = All NoConsent s.requests

module _ (w : TraderWallet) (t : TraderSettings) where
  decide : ActiveOffer → Bool → Program (Unit {0})
  decide offer satisfied = if satisfied then close_trade w t offer else mediate w t offer

  decided-NoneConsents :
      (offer : ActiveOffer) (s : Session) (c : Option (Bool × List String))
      → ((later : List String) → c ≢ some (true, later))
      → NoneConsents s
      → NoneConsents (continue_with (confirmed c s).0 (confirmed c s).1 (decide offer)).1
  unfolding decide
  decided-NoneConsents offer s none u q = q
  decided-NoneConsents offer s (some (true, later)) u q = absurd (u later refl)
  decided-NoneConsents offer s (some (false, later)) u q =
      (mediate-Silent later w t offer (record s { lines = later }) (q, refl)).0

  -- When the lines that the trader types do not confirm the fiat payment before asking for
  -- mediation, a run of the maker's program that starts without having sent them sends neither the
  -- confirmation that the trade's obligations are met nor a partial signature for the payout,
  -- whatever the coordinator answers.
  pub run_maker-NoneConsents :
      (s : Session) → Unconfirmed s.lines → NoneConsents s → NoneConsents (run_maker w t s).1
  unfolding run_maker fiat_confirmation_cli_input decide
  run_maker-NoneConsents s u q =
      let created = create-Silent s.lines w t s (q, refl) in
      continue-into NoneConsents (create w t s).0 (create w t s).1 _ created.0 (λ offer.
        let s1 = (create w t s).1 in
        let locked = lock_escrow-Silent s.lines w t offer s1 created in
        continue-into NoneConsents (lock_escrow w t offer s1).0 (lock_escrow w t offer s1).1 _
          locked.0
          (λ _.
            decided-NoneConsents offer (lock_escrow w t offer s1).1
              (confirmation (lock_escrow w t offer s1).1.lines) (rw locked.1 u) locked.0))

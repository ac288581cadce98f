-- ===== src/System/Runs.antt =====
-- What holds of the coordinator whatever has happened to it since its start on an empty database.
use taptrade_core.Prelude.{◌≡◌, false, List, [], ◌∷◌, str_eq}
use taptrade_core.Externals.{Externals}
use taptrade_core.Sql.Rows.{All}
use taptrade_core.Database.Writes.{run_write-IsValid, init-IsValid}
use taptrade_core.Database.Invariant.{IsValid}
use taptrade_core.Coordinator.State.{Coordinator, Broadcast}
use taptrade_core.Monitor.Bonds.{setting}
use taptrade_core.Monitor.Punishment.{monitor_bonds-unpunished}
use taptrade_core.System.Events.{Event, start, happen, run}
use taptrade_core.System.Stable.{Stable}
use taptrade_core.System.Punishments.{monitor_bonds-Keeps}
use taptrade_core.System.Rounds.{AnyId, any_id, serve-keeps, confirmations-keeps}
use taptrade_core.System.Verdicts.{verdicts-keeps}

-- a well-formed database, whatever has been sent out
abbrev pub DbIsValid : Coordinator → Type 0
DbIsValid c = IsValid c.db

-- no transaction that has been sent out is a bond
abbrev pub NoBond : List Broadcast → Type 0
NoBond [] = Unit {0}
NoBond (Broadcast.bond tx ∷ bs) = ⊥
NoBond (Broadcast.escrow tx ∷ bs) = NoBond bs
NoBond (Broadcast.keyspend tx ∷ bs) = NoBond bs

abbrev NoBondSent : Coordinator → Type 0
NoBondSent c = NoBond c.broadcasts

-- PUNISHMENT_ENABLED is not "1" in the event
abbrev pub Unpunished : Event → Type 0
Unpunished (Event.request n now r) = Unit {0}
Unpunished (Event.bonds n s) = str_eq (setting s) "1" ≡ false
Unpunished (Event.confirmations is_txid info) = Unit {0}
Unpunished (Event.verdicts lines) = Unit {0}

module _ (x : Externals) where
  DbIsValid-Stable : Stable x AnyId DbIsValid
  DbIsValid-Stable = record {
    write = λ w c a v. run_write-IsValid x w c.db v;
    escrow = λ tx c v. v;
    keyspend = λ tx c v. v;
  }

  pub happen-IsValid : (e : Event) (c : Coordinator) → IsValid c.db → IsValid (happen x e c).db
  unfolding happen
  happen-IsValid (Event.request n now r) c v =
      serve-keeps x DbIsValid DbIsValid-Stable n now r c (any_id n r c.db) v
  happen-IsValid (Event.bonds n s) c v =
      monitor_bonds-Keeps x DbIsValid DbIsValid-Stable (λ tx c v. v) n s c v
  happen-IsValid (Event.confirmations is_txid info) c v =
      confirmations-keeps x DbIsValid DbIsValid-Stable is_txid info c v
  happen-IsValid (Event.verdicts lines) c v =
      verdicts-keeps x DbIsValid DbIsValid-Stable lines c v v

  run_from : (es : List Event) (c : Coordinator) → IsValid c.db → IsValid (run x es c).db
  unfolding run
  run_from [] c v = v
  run_from (e ∷ es) c v = run_from es (happen x e c) (happen-IsValid e c v)

  -- Whatever requests are served and whatever rounds the background tasks run after the start on an
  -- empty database, in whatever order and whether they succeed, fail or panic: in each table no two
  -- rows share a primary key, `is_buy_order`, `maker_happy` and `taker_happy` hold NULL or 1, and
  -- the other switches of `taken_offers` hold 0 or 1.
  pub run-IsValid : (es : List Event) → IsValid (run x es start).db
  run-IsValid es = run_from es start init-IsValid

  NoBondSent-Stable : Stable x AnyId NoBondSent
  NoBondSent-Stable = record { write = λ w c a b. b; escrow = λ tx c b. b; keyspend = λ tx c b. b }

  happen-NoBond :
      (e : Event) (c : Coordinator)
      → Unpunished e
      → NoBond c.broadcasts
      → NoBond (happen x e c).broadcasts
  unfolding happen
  happen-NoBond (Event.request n now r) c u b =
      serve-keeps x NoBondSent NoBondSent-Stable n now r c (any_id n r c.db) b
  happen-NoBond (Event.bonds n s) c u b = rw (monitor_bonds-unpunished x n s c u) b
  happen-NoBond (Event.confirmations is_txid info) c u b = b
  happen-NoBond (Event.verdicts lines) c u b = b

  run_from-NoBond :
      (es : List Event) (c : Coordinator)
      → All Unpunished es
      → NoBond c.broadcasts
      → NoBond (run x es c).broadcasts
  unfolding run
  run_from-NoBond [] c u b = b
  run_from-NoBond (e ∷ es) c u b = run_from-NoBond es (happen x e c) u.1 (happen-NoBond e c u.0 b)

  -- As long as PUNISHMENT_ENABLED is not "1" in any round of the bond monitoring, no bond is among
  -- the transactions that the coordinator has sent out since its start, whatever requests it has
  -- served and whatever the other tasks have done.
  pub run-NoBond : (es : List Event) → All Unpunished es → NoBond (run x es start).broadcasts
  run-NoBond es u = run_from-NoBond es start u tt

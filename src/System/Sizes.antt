-- ===== src/System/Sizes.antt =====
-- The amounts of the offers in the tables, whatever has happened to the coordinator.
use taptrade_core.Prelude.{List, [], ◌∷◌}
use taptrade_core.Externals.{Externals}
use taptrade_core.Database.Tables.{init}
use taptrade_core.Database.Bounds.{InBounds}
use taptrade_core.Database.Bounded.{run_write-InBounds}
use taptrade_core.Database.Invariant.{IsValid}
use taptrade_core.Database.Writes.{init-IsValid}
use taptrade_core.Coordinator.State.{Coordinator}
use taptrade_core.Protocol.Allowed.{Allowed-Fits}
use taptrade_core.System.Events.{Event, start, happen, run}
use taptrade_core.System.Stable.{Stable}
use taptrade_core.System.Punishments.{monitor_bonds-Keeps}
use taptrade_core.System.Rounds.{AnyId, any_id, serve-keeps, confirmations-keeps}
use taptrade_core.System.Verdicts.{verdicts-keeps}
use taptrade_core.System.Runs.{happen-IsValid}

abbrev DbInBounds : Coordinator → Type 0
DbInBounds c = InBounds c.db

init-InBounds : InBounds init
init-InBounds = record { requests = tt; offers = tt; trades = tt }

module _ (x : Externals) where
  DbInBounds-Stable : Stable x AnyId DbInBounds
  DbInBounds-Stable = record {
    write = λ w c a v. run_write-InBounds x w c.db (Allowed-Fits AnyId w c.db a) v;
    escrow = λ tx c v. v;
    keyspend = λ tx c v. v;
  }

  happen-InBounds :
      (e : Event) (c : Coordinator) → IsValid c.db → InBounds c.db → InBounds (happen x e c).db
  unfolding happen
  happen-InBounds (Event.request n now r) c v b =
      serve-keeps x DbInBounds DbInBounds-Stable n now r c (any_id n r c.db) b
  happen-InBounds (Event.bonds n s) c v b =
      monitor_bonds-Keeps x DbInBounds DbInBounds-Stable (λ tx c v. v) n s c b
  happen-InBounds (Event.confirmations is_txid info) c v b =
      confirmations-keeps x DbInBounds DbInBounds-Stable is_txid info c b
  happen-InBounds (Event.verdicts lines) c v b =
      verdicts-keeps x DbInBounds DbInBounds-Stable lines c v b

  run_from :
      (es : List Event) (c : Coordinator) → IsValid c.db → InBounds c.db → InBounds (run x es c).db
  unfolding run
  run_from [] c v b = b
  run_from (e ∷ es) c v b =
      run_from es (happen x e c) (happen-IsValid x e c v) (happen-InBounds e c v b)

  -- Whatever requests are served and whatever rounds the background tasks run after the start on an
  -- empty database, in whatever order and whether they succeed, fail or panic: every pending
  -- request, every offer of the orderbook and every trade is over 10000 to 20000000 sat, has a bond
  -- ratio of 2 to 50 percent, and its bond is that percentage of its amount, rounded down.
  pub run-InBounds : (es : List Event) → InBounds (run x es start).db
  run-InBounds es = run_from es start init-IsValid init-InBounds

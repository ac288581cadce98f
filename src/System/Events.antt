-- ===== src/System/Events.antt =====
-- What happens to the coordinator (main.rs): a request, or a round of a background task, each with
-- what the node answers meanwhile.
use taptrade_core.Prelude.{ℕ, String, Bool, Option, List, [], ◌∷◌}
use taptrade_core.Externals.{Externals}
use taptrade_core.Node.{Node}
use taptrade_core.Database.Tables.{init}
use taptrade_core.Coordinator.State.{Coordinator}
use taptrade_core.Http.{Request, serve}
use taptrade_core.Monitor.Bonds.{monitor_bonds}
use taptrade_core.Monitor.Confirmations.{TxInfo, update_transaction_confirmations}
use taptrade_core.Monitor.EscrowCli.{escrow_cli_round}

pub data Event : Type 0 where
  -- a request at a time
  request : Node → ℕ → Request → Event
  -- a round of `monitor_bonds`, with PUNISHMENT_ENABLED
  bonds : Node → Option String → Event
  -- a round of `update_transaction_confirmations`
  confirmations : (String → Bool) → (String → TxInfo) → Event
  -- a round of `escrow_cli_loop`, with the operator's lines
  verdicts : List String → Event

-- the coordinator when it starts on an empty database
abbrev pub start : Coordinator
start = record { db = init; broadcasts = [] }

module _ (x : Externals) where
  unfoldable pub happen : Event → Coordinator → Coordinator
  unfolding serve monitor_bonds update_transaction_confirmations escrow_cli_round
  happen (request n now r) c = (serve x n now r c).1
  happen (bonds n punishment_enabled) c = (monitor_bonds x n punishment_enabled c).1
  happen (confirmations is_txid info) c = record c {
    db = update_transaction_confirmations is_txid info c.db;
  }
  happen (verdicts lines) c = record c { db = escrow_cli_round x lines c.db }

  unfoldable pub run : List Event → Coordinator → Coordinator
  unfolding happen
  run [] c = c
  run (e ∷ es) c = run es (happen e c)

-- ===== src/Monitor/EscrowCli.antt =====
-- The operator's verdicts in disputes (coordinator/escrow_cli.rs). Standard input is the list of
-- the lines that are still to come, trimmed; `none` waits for a line that never comes.
use taptrade_core.Prelude.{String, Option, none, some, List, [], ◌∷◌, str_eq, if◌then◌else◌}
use taptrade_core.Prelude.Result.{ok, err, panic}
use taptrade_core.Externals.{Externals}
use taptrade_core.Types.{EscrowCase}
use taptrade_core.Database.Tables.{CoordinatorDb}
use taptrade_core.Database.Trade.{get_open_escrows, resolve_escrow}

pub data EscrowWinner : Type 0 where
  maker taker : EscrowWinner

unfoldable pub get_coordinator_cli_input : List String → Option (EscrowWinner × List String)
get_coordinator_cli_input [] = none
get_coordinator_cli_input (input ∷ lines) =
    let again = get_coordinator_cli_input lines in
    if str_eq input "M"
    then some (maker, lines)
    else if str_eq input "T"
    then some (taker, lines)
    else again

abbrev pub winner_id : EscrowWinner → EscrowCase → String
winner_id maker c = c.maker_id
winner_id taker c = c.taker_id

-- the verdict on one case
unfoldable pub decide_case : EscrowCase → EscrowWinner → CoordinatorDb → CoordinatorDb
decide_case c w db = (resolve_escrow c.offer_id (winner_id w c) db).1

-- the loop over the open cases, until the input ends
unfoldable pub decide_cases : List EscrowCase → List String → CoordinatorDb → CoordinatorDb
unfolding get_coordinator_cli_input decide_case
decide_cases [] lines db = db
decide_cases (c ∷ cs) lines db = elim (get_coordinator_cli_input lines) [
  | none ↦ db
  | some (w, rest) ↦ decide_cases cs rest (decide_case c w db)
]

-- one round of `escrow_cli_loop`
unfoldable pub escrow_cli_round : Externals → List String → CoordinatorDb → CoordinatorDb
unfolding decide_cases
escrow_cli_round x lines db = elim (get_open_escrows x db) [
  | ok open_escrows ↦ decide_cases open_escrows lines db
  | err e ↦ db
  | panic ↦ db
]

-- ===== src/Tests/Monitors.antt =====
-- The theorems on the background tasks at concrete inputs.
use taptrade_core.Prelude.{
  String, ◌≡◌, ◌⊎◌, ◌↔◌, refl, Bool, true, Option, none, some, List, [], ◌∷◌, str_eq, bytes_eq,
}
use taptrade_core.Prelude.Result.{ok}
use taptrade_core.Node.{OutPoint, Node}
use taptrade_core.Types.{MonitoringBond, orderbook}
use taptrade_core.Sql.{fetch_optional, select, update}
use taptrade_core.Sql.Rows.{Elem}
use taptrade_core.Database.Orderbook
use taptrade_core.Database.Taken.{
  confirm_bond_txids, get_txid_confirmation_status, fetch_unconfirmed_escrow_txids,
}
use taptrade_core.Coordinator.State.{Broadcast}
use taptrade_core.Monitor.Bonds.{punish, monitor_bonds}
use taptrade_core.Wallet.Bonds.{validate_bonds, publish_bond_tx_hex}
use taptrade_core.Monitor.Offenders.{Justified, monitor_bonds-Justified}
use taptrade_core.Monitor.Confirmations.{
  TxInfo, found, get_confirmations, update_transaction_confirmations,
}
use taptrade_core.Monitor.Mempool.{
  run_mempool, new_mempool, Round, mempool_round, learn, retain, spent_outputs, contains_key,
}
use taptrade_core.Monitor.Exact.{IsKnown, run_mempool-IsSpent}
use taptrade_core.Monitor.Soundness.{IsDeep, update_transaction_confirmations-IsDeep}
use taptrade_core.Tests.Data.{crates, node, listed_db, trading, trade, coordinator}
use taptrade_core.Database.Tables.{CoordinatorDb}
use taptrade_core.Database.Trade.{get_open_escrows}
use taptrade_core.Monitor.EscrowCli.{escrow_cli_round, EscrowWinner, get_coordinator_cli_input}
use taptrade_core.Monitor.Verdicts.{escrow_cli_round-resolves}

abbrev inputs : String → List OutPoint
inputs t = record { txid = t; vout = 0 } ∷ []

abbrev tells : String → Option (List OutPoint)
tells t = some (inputs t)

abbrev silent : String → Option (List OutPoint)
silent t = none

-- The new transaction's first lookup fails, as does the next listing; then the old one is gone.
abbrev mempool_rounds : List Round
mempool_rounds =
    record { listing = some ("old" ∷ []); inputs_of = tells }
    ∷ record { listing = some ("old" ∷ "new" ∷ []); inputs_of = silent }
    ∷ record { listing = none; inputs_of = silent }
    ∷ record { listing = some ("new" ∷ []); inputs_of = tells }
    ∷ []

silent-honest : (t : String) (is : List OutPoint) → silent t ≡ some is → is ≡ inputs t
silent-honest t is e = cc

tells-honest : (t : String) (is : List OutPoint) → tells t ≡ some is → is ≡ inputs t
tells-honest t is e = cc

spent_output : (run_mempool mempool_rounds new_mempool).1 ≡ inputs "new"
unfolding run_mempool mempool_round learn retain spent_outputs contains_key str_eq bytes_eq
spent_output = refl

run_mempool-IsSpent_example :
    Elem (record { txid = "new"; vout = 0 }) (run_mempool mempool_rounds new_mempool).1 ↔ (
      (t : String) × IsKnown mempool_rounds (λ u. ⊥) t
      × Elem (record { txid = "new"; vout = 0 }) (inputs t))
run_mempool-IsSpent_example =
    run_mempool-IsSpent inputs mempool_rounds (record { txid = "new"; vout = 0 })
      (tells-honest, (silent-honest, (silent-honest, (tells-honest, tt))))

abbrev always : String → Bool
always t = true

abbrev deep : String → TxInfo
deep t = found (some 6)

update_transaction_confirmations-IsDeep_example :
    (trade.escrow_psbt_is_confirmed ≡ 1) ⊎ IsDeep (deep "txid")
unfolding fetch_optional str_eq update_transaction_confirmations fetch_unconfirmed_escrow_txids
    select get_confirmations confirm_bond_txids update get_txid_confirmation_status
update_transaction_confirmations-IsDeep_example =
    update_transaction_confirmations-IsDeep always deep "txid" (trading trade) {row = trade} refl
      refl

abbrev bond : MonitoringBond
bond = record {
  bond_tx_hex = "bond";
  trade_id_hex = "77";
  robot = [];
  requirements = record {
    bond_address = "bcrt1";
    locking_amount_sat = 100000;
    min_input_sum_sat = 110000;
  };
  table = orderbook;
}

-- a node that knows every output to be spent in the mempool
abbrev busy_node : Node
busy_node = record node { utxo_set = λ o. true }

punished :
    (monitor_bonds crates busy_node (some "1") (coordinator listed_db)).1.broadcasts
    ≡ Broadcast.bond "bond" ∷ []
unfolding monitor_bonds Orderbook.fetch_all_bonds validate_bonds bytes_eq str_eq punish
    publish_bond_tx_hex Orderbook.remove_violating_bond
punished = refl

monitor_bonds-Justified_example :
    Justified crates busy_node
      (coordinator listed_db)
      (monitor_bonds crates busy_node (some "1") (coordinator listed_db)).1
monitor_bonds-Justified_example =
    monitor_bonds-Justified crates busy_node (coordinator listed_db) (some "1")

abbrev in_dispute : CoordinatorDb
in_dispute = trading (record trade { escrow_ongoing = 1 })

escrow_cli_round-resolves_example :
    get_open_escrows crates (escrow_cli_round crates ("?" ∷ "T" ∷ []) in_dispute) ≡ ok []
unfolding select get_coordinator_cli_input str_eq
escrow_cli_round-resolves_example =
    escrow_cli_round-resolves crates ("?" ∷ "T" ∷ []) in_dispute (EscrowWinner.taker, [], refl, tt)

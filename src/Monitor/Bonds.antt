-- ===== src/Monitor/Bonds.antt =====
-- The monitoring of bonds (coordinator/bond_monitoring.rs).
use taptrade_core.Prelude.{String, Option, none, some, List, [], ◌∷◌, str_eq, if◌then◌else◌}
use taptrade_core.Prelude.Result.{Action, pure, fail, lift, ◌>>=◌, ◌>>◌}
use taptrade_core.Errors.{AnyError, external}
use taptrade_core.Externals.{Externals}
use taptrade_core.Node.{Node}
use taptrade_core.Types.{MonitoringBond}
use taptrade_core.Wallet.Bonds.{InvalidBonds, validate_bonds, publish_bond_tx_hex}
use taptrade_core.Database.Orderbook.{fetch_all_bonds, remove_violating_bond}
use taptrade_core.Coordinator.State.{Coordinator, Broadcast, on_db, query, sent}

-- PUNISHMENT_ENABLED, "0" if it is not set
abbrev pub setting : Option String → String
setting none = "0"
setting (some s) = s

module _ (x : Externals) (n : Node) where
  unfoldable pub punish : MonitoringBond → Action Coordinator AnyError (Unit {0})
  punish bond = do
    lift (publish_bond_tx_hex x n bond.bond_tx_hex)
    sent (Broadcast.bond bond.bond_tx_hex)
    on_db (λ e. e) (remove_violating_bond bond)

  abbrev pub handle_violation :
      Option String → MonitoringBond → Action Coordinator AnyError (Unit {0})
  handle_violation punishment_enabled bond =
      if str_eq (setting punishment_enabled) "1"
      then punish bond
      else if str_eq (setting punishment_enabled) "0"
      then pure tt
      else fail (external "Invalid PUNISHMENT_ENABLED env var")

  -- the loop over the violations
  unfoldable pub handle_violations :
      Option String → InvalidBonds → Action Coordinator AnyError (Unit {0})
  handle_violations punishment_enabled [] = pure tt
  handle_violations punishment_enabled ((k, bond, e) ∷ rest) =
      let later = handle_violations punishment_enabled rest in
      handle_violation punishment_enabled bond >> later

  -- A round with no bonds skips the validation.
  abbrev pub check_round :
      Option String → List MonitoringBond → Action Coordinator AnyError (Unit {0})
  check_round punishment_enabled [] = pure tt
  check_round punishment_enabled (b ∷ bs) = do
    validation_results ← lift (validate_bonds x n (b ∷ bs))
    handle_violations punishment_enabled validation_results

  -- one round of `monitor_bonds`
  unfoldable pub monitor_bonds : Option String → Action Coordinator AnyError (Unit {0})
  unfolding handle_violations
  monitor_bonds punishment_enabled = do
    bonds ← query (λ e. e) fetch_all_bonds
    check_round punishment_enabled bonds

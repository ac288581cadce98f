-- ===== src/System/Punishments.antt =====
-- What a round of the bond monitoring keeps (coordinator/bond_monitoring.rs).
use taptrade_core.Prelude.{String, Option, List, [], ◌∷◌, str_eq, Bool-cases, inl, inr}
use taptrade_core.Prelude.Result.{Keeps, Keeps-resume}
use taptrade_core.Externals.{Externals}
use taptrade_core.Node.{Node}
use taptrade_core.Types.{MonitoringBond}
use taptrade_core.Wallet.Bonds.{InvalidBonds, validate_bonds, publish_bond_tx_hex}
use taptrade_core.Database.Orderbook.{fetch_all_bonds}
use taptrade_core.Database.Writes.{Write, run_write}
use taptrade_core.Coordinator.State.{Coordinator, Broadcast}
use taptrade_core.Monitor.Bonds.{
  setting, punish, handle_violation, handle_violations, check_round, monitor_bonds,
}
use taptrade_core.Database.Tables.{CoordinatorDb}
use taptrade_core.System.Stable.{Stable}

-- For a condition that the sending of a bond keeps too.
module _ {New : String → CoordinatorDb → Type 0} (x : Externals) (P : Coordinator → Type 0)
    (s : Stable x New P)
    (sends : (tx : String) (c : Coordinator)
      → P c
      → P (record c { broadcasts = Broadcast.bond tx ∷ c.broadcasts }))
    (n : Node) (setting_text : Option String) where
  punish-Keeps : (bond : MonitoringBond) → Keeps P (punish x n bond)
  unfolding punish run_write
  punish-Keeps bond c p =
      Keeps-resume P (publish_bond_tx_hex x n bond.bond_tx_hex) c _ p
        (λ _ d q. s.write (Write.remove_violating_bond bond) _ tt (sends bond.bond_tx_hex d q))

  handle_violation-Keeps :
      (bond : MonitoringBond) → Keeps P (handle_violation x n setting_text bond)
  handle_violation-Keeps bond c p = elim (Bool-cases (str_eq (setting setting_text) "1")) [
    | inl e ↦ rw e (punish-Keeps bond c p)
    | inr e ↦ elim (Bool-cases (str_eq (setting setting_text) "0")) [
      | inl f ↦ rw (e, f) p
      | inr f ↦ rw (e, f) p
    ]
  ]

  handle_violations-Keeps :
      (bonds : InvalidBonds) → Keeps P (handle_violations x n setting_text bonds)
  unfolding handle_violations
  handle_violations-Keeps [] c p = p
  handle_violations-Keeps ((k, bond, e) ∷ rest) c p =
      Keeps-resume P (handle_violation x n setting_text bond c).0
        (handle_violation x n setting_text bond c).1 _ (handle_violation-Keeps bond c p)
        (λ _ d q. handle_violations-Keeps rest d q)

  check_round-Keeps : (bonds : List MonitoringBond) → Keeps P (check_round x n setting_text bonds)
  check_round-Keeps [] c p = p
  check_round-Keeps (b ∷ bs) c p =
      Keeps-resume P (validate_bonds x n (b ∷ bs)) c _ p handle_violations-Keeps

  pub monitor_bonds-Keeps : Keeps P (monitor_bonds x n setting_text)
  unfolding monitor_bonds fetch_all_bonds
  monitor_bonds-Keeps c p = check_round-Keeps _ c p

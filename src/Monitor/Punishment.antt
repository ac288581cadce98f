-- ===== src/Monitor/Punishment.antt =====
-- What a round of the bond monitoring does to the coordinator (coordinator/bond_monitoring.rs).
use taptrade_core.Prelude.{
  String, ◌≡◌, ◌⊎◌, refl, ◌∙◌, false, Option, none, inl, inr, List, [], ◌∷◌, str_eq, Bool-cases,
}
use taptrade_core.Prelude.Result.{Result, ok, err, panic, Keeps-resume}
use taptrade_core.Errors.{AnyError}
use taptrade_core.Externals.{Externals}
use taptrade_core.Node.{Node}
use taptrade_core.Types.{MonitoringBond, orderbook}
use taptrade_core.Sql.{fetch_optional}
use taptrade_core.Sql.Rows.{fetch-delete_self}
use taptrade_core.Wallet.Bonds.{InvalidBonds, validate_bonds, publish_bond_tx_hex}
use taptrade_core.Database.Orderbook
use taptrade_core.Database.Orderbook.{fetch_all_bonds, remove_violating_bond}
use taptrade_core.Coordinator.State.{Coordinator, Broadcast}
use taptrade_core.Monitor.Bonds.{
  setting, punish, handle_violation, handle_violations, check_round, monitor_bonds,
}

module _ (x : Externals) (n : Node) where
  handle_violation-unpunished :
      (s : Option String) (bond : MonitoringBond) (c : Coordinator)
      → str_eq (setting s) "1" ≡ false
      → (handle_violation x n s bond c).1 ≡ c
  handle_violation-unpunished s bond c off = elim (Bool-cases (str_eq (setting s) "0")) [
    | inl e ↦ rw (off, e) refl
    | inr e ↦ rw (off, e) refl
  ]

  handle_violations-unpunished :
      (s : Option String) (violations : InvalidBonds) (c : Coordinator)
      → str_eq (setting s) "1" ≡ false
      → (handle_violations x n s violations c).1 ≡ c
  unfolding handle_violations
  handle_violations-unpunished s [] c off = refl
  handle_violations-unpunished s ((k, bond, e) ∷ rest) c off =
      Keeps-resume (λ s. s ≡ c) (handle_violation x n s bond c).0 (handle_violation x n s bond c).1
        _ (handle_violation-unpunished s bond c off)
        (λ _ d p. handle_violations-unpunished s rest d off ∙ p)

  check_round-unpunished :
      (s : Option String) (bonds : List MonitoringBond) (c : Coordinator)
      → str_eq (setting s) "1" ≡ false
      → (check_round x n s bonds c).1 ≡ c
  check_round-unpunished s [] c off = refl
  check_round-unpunished s (b ∷ bs) c off =
      Keeps-resume (λ s. s ≡ c) (validate_bonds x n (b ∷ bs)) c _ refl
        (λ violations d p. handle_violations-unpunished s violations d off ∙ p)

  -- Unless PUNISHMENT_ENABLED is "1", a round of the bond monitoring neither publishes a bond nor
  -- removes an offer, whatever it finds.
  pub monitor_bonds-unpunished :
      (s : Option String) (c : Coordinator)
      → str_eq (setting s) "1" ≡ false
      → (monitor_bonds x n s c).1 ≡ c
  unfolding monitor_bonds fetch_all_bonds
  monitor_bonds-unpunished s c off = check_round-unpunished s _ c off

  -- Publishing a violating bond of the orderbook, when it succeeds, broadcasts the bond transaction
  -- and takes the offer out of the orderbook; when it fails, the database is as before.
  pub punish-removes :
      (bond : MonitoringBond) (c : Coordinator)
      → bond.table ≡ orderbook
      → (((punish x n bond c).0 ≡ ok tt)
          × ((punish x n bond c).1.broadcasts ≡ Broadcast.bond bond.bond_tx_hex ∷ c.broadcasts)
          × (fetch_optional
                (Orderbook.offer_is bond.trade_id_hex)
                (punish x n bond c).1.db.active_maker_offers
              ≡ none))
        ⊎ ((punish x n bond c).1 ≡ c)
  unfolding punish remove_violating_bond
  punish-removes bond c at_orderbook = by_result (publish_bond_tx_hex x n bond.bond_tx_hex) refl
    where
      by_result :
          (r : Result AnyError (Unit {0}))
          → publish_bond_tx_hex x n bond.bond_tx_hex ≡ r
          → (((punish x n bond c).0 ≡ ok tt)
              × ((punish x n bond c).1.broadcasts ≡ Broadcast.bond bond.bond_tx_hex ∷ c.broadcasts)
              × (fetch_optional
                    (Orderbook.offer_is bond.trade_id_hex)
                    (punish x n bond c).1.db.active_maker_offers
                  ≡ none))
            ⊎ ((punish x n bond c).1 ≡ c)
      by_result (ok _) e =
          rw (e, at_orderbook)
            (inl (
              refl,
              refl,
              fetch-delete_self (Orderbook.offer_is bond.trade_id_hex) c.db.active_maker_offers,
            ))
      by_result (err d) e = rw e (inr refl)
      by_result panic e = rw e (inr refl)

-- ===== src/Monitor/Offenders.antt =====
-- Whom a round of the bond monitoring punishes (coordinator/bond_monitoring.rs, with the validation
-- of wallet/mod.rs).
use taptrade_core.Prelude.{
  String, ◌≡◌, ◌⊎◌, refl, sym, true, Option, inl, inr, List, [], ◌∷◌, Bytes, str_eq, map,
  Bool-cases,
}
use taptrade_core.Prelude.Result.{Keeps-resume, resume-cases}
use taptrade_core.Errors.{AnyError}
use taptrade_core.Externals.{Externals}
use taptrade_core.Node.{Node}
use taptrade_core.Types.{MonitoringBond, Table, orderbook, active_trades, memory}
use taptrade_core.Sql.Rows.{All, Elem, All-of_Elem, Elem-delete}
use taptrade_core.Wallet.Bonds.{InvalidBonds, validate_bonds, publish_bond_tx_hex}
use taptrade_core.Wallet.Offences.{Offends, validate_bonds-Blamed}
use taptrade_core.Database.Tables.{ActiveMakerOffer}
use taptrade_core.Database.Orderbook
use taptrade_core.Database.Orderbook.{
  monitoring_bond, fetch_all_bonds, remove_violating_bond, remove_from,
}
use taptrade_core.Coordinator.State.{Coordinator, Broadcast}
use taptrade_core.Monitor.Bonds.{
  setting, punish, handle_violation, handle_violations, check_round, monitor_bonds,
}

module _ (x : Externals) (n : Node) (c : Coordinator) where
  -- the bonds of the orderbook
  abbrev pub monitored : List MonitoringBond
  monitored = map monitoring_bond c.db.active_maker_offers

  -- a bond of the orderbook that offends
  abbrev pub Offender : MonitoringBond → Type 0
  Offender bond = Elem bond monitored × Offends x n monitored bond

  -- has gone out before, or is the bond of an offender
  abbrev pub SentWell : Broadcast → Type 0
  SentWell b =
      Elem b c.broadcasts
      ⊎ ((bond : MonitoringBond) × (b ≡ Broadcast.bond bond.bond_tx_hex) × Offender bond)

  -- is still in the orderbook, or has the id of an offender
  abbrev pub KeptWell : Coordinator → ActiveMakerOffer → Type 0
  KeptWell d r =
      Elem r d.db.active_maker_offers
      ⊎ ((bond : MonitoringBond) × (Orderbook.offer_is bond.trade_id_hex r ≡ true) × Offender bond)

  abbrev pub Justified : Coordinator → Type 0
  Justified d = All SentWell d.broadcasts × All (KeptWell d) c.db.active_maker_offers

  -- the same, one transaction and one offer at a time
  abbrev Just : Coordinator → Type 0
  Just d =
      ((b : Broadcast) → Elem b d.broadcasts → SentWell b)
      × ((r : ActiveMakerOffer) → Elem r c.db.active_maker_offers → KeptWell d r)

  removed-Just :
      (d : Coordinator) (bond : MonitoringBond) (table : Table)
      → Just d
      → Offender bond
      → (r : ActiveMakerOffer) → Elem r c.db.active_maker_offers
      → Elem r (remove_from table bond.trade_id_hex d.db).1.active_maker_offers
        ⊎ ((b : MonitoringBond) × (Orderbook.offer_is b.trade_id_hex r ≡ true) × Offender b)
  removed-Just d bond active_trades j o r el = j.1 r el
  removed-Just d bond memory j o r el = j.1 r el
  removed-Just d bond orderbook j o r el = elim (j.1 r el) [
    | inl e ↦
        elim (Elem-delete (Orderbook.offer_is bond.trade_id_hex) d.db.active_maker_offers r e) [
          | inl k ↦ inl k
          | inr t ↦ inr (bond, t, o)
        ]
    | inr p ↦ inr p
  ]

  punish-Just :
      (bond : MonitoringBond) (d : Coordinator)
      → Offender bond
      → Just d
      → Just (punish x n bond d).1
  unfolding punish remove_violating_bond
  punish-Just bond d o j =
      resume-cases Just (publish_bond_tx_hex x n bond.bond_tx_hex) d _ j (λ _ _. (
        λ b el. elim el [ inl e ↦ inr (bond, e, o) | inr old ↦ j.0 b old ],
        removed-Just d bond bond.table j o,
      ))

  handle_violation-Just :
      (s : Option String) (bond : MonitoringBond) (d : Coordinator)
      → Offender bond
      → Just d
      → Just (handle_violation x n s bond d).1
  handle_violation-Just s bond d o j = elim (Bool-cases (str_eq (setting s) "1")) [
    | inl e ↦ rw e (punish-Just bond d o j)
    | inr e ↦ elim (Bool-cases (str_eq (setting s) "0")) [
      | inl f ↦ rw (e, f) j
      | inr f ↦ rw (e, f) j
    ]
  ]

  handle_violations-Just :
      (s : Option String) (violations : InvalidBonds) (d : Coordinator)
      → ((k : Bytes) (bond : MonitoringBond) (e : AnyError)
          → Elem (k, bond, e) violations
          → Offender bond)
      → Just d
      → Just (handle_violations x n s violations d).1
  unfolding handle_violations
  handle_violations-Just s [] d o j = j
  handle_violations-Just s ((k, bond, e) ∷ rest) d o j =
      Keeps-resume Just (handle_violation x n s bond d).0 (handle_violation x n s bond d).1 _
        (handle_violation-Just s bond d (o k bond e (inl refl)) j)
        (λ _ d' j'. handle_violations-Just s rest d' (λ l b f el. o l b f (inr el)) j')

  check_round-Just :
      (s : Option String) (bonds : List MonitoringBond)
      → bonds ≡ monitored
      → Just (check_round x n s bonds c).1
  check_round-Just s [] p = (λ b el. inl el, λ r el. inl el)
  check_round-Just s (b ∷ bs) p =
      resume-cases Just (validate_bonds x n (b ∷ bs)) c _ (λ b el. inl el, λ r el. inl el)
        (λ violations q.
          handle_violations-Just s violations c
            (λ k bond e el.
              let (listed, _, why) =
                validate_bonds-Blamed x n monitored k bond e (rw (sym p) q) el in
              (listed, why))
            (λ b el. inl el, λ r el. inl el))

  -- Whatever PUNISHMENT_ENABLED is, each transaction that a round of the bond monitoring has sent
  -- out is the bond of an offer of the orderbook, and each offer that has left the orderbook has the
  -- id of such a bond; these bonds have failed the checks on verification, amounts or fee rate, or
  -- have the transaction id of a refusal by bitcoin core, or spend an output that a transaction
  -- known from the mempool spends.
  pub monitor_bonds-Justified : (s : Option String) → Justified (monitor_bonds x n s c).1
  unfolding monitor_bonds fetch_all_bonds
  monitor_bonds-Justified s =
      let (sends, keeps) = check_round-Just s monitored refl in
      (
        All-of_Elem SentWell (monitor_bonds x n s c).1.broadcasts sends,
        All-of_Elem (KeptWell (monitor_bonds x n s c).1) c.db.active_maker_offers keeps,
      )

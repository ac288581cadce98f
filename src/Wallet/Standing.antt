-- ===== src/Wallet/Standing.antt =====
-- What the validation of a single bond accepts (wallet/mod.rs, `validate_bond_tx_hex`).
use taptrade_core.Prelude.{
  String, ◌≡◌, refl, sym, ◌∙◌, ap, true, false, List, [], ◌∷◌, Bytes, bytes_eq, Bool-cases, inl,
  inr, if◌then◌else◌,
}
use taptrade_core.Prelude.Result.{ok, and_then-ok, ok-injective}
use taptrade_core.Errors.{AnyError, external}
use taptrade_core.Externals.{Externals}
use taptrade_core.Node.{Node, Transaction, MempoolVerdict}
use taptrade_core.Sql.Rows.{All}
use taptrade_core.Types.{MonitoringBond, BondRequirements, memory}
use taptrade_core.Wallet.Bonds.{
  Check, passed, violated, InvalidBonds, insert, extend, parse_bond, bond_id, check_bond,
  record_check, check_bonds, rejected_bonds, ask_chunks, chunks_of_25,
  search_monitoring_bond_by_txid, test_mempool_accept_bonds, spends_known, mempool_bonds,
  lookup_mempool_inputs, validate_bonds, first_error, validate_bond_tx_hex, chunks_from,
}
use taptrade_core.Wallet.Accepted.{Covers, check_bond-Covers}

insert-nonempty :
    (k : Bytes) (b : MonitoringBond) (e : AnyError) (m : InvalidBonds) → insert k b e m ≡ [] → ⊥
unfolding insert
insert-nonempty k b e [] h = cc
insert-nonempty k b e ((j, c, f) ∷ m) h = elim (Bool-cases (bytes_eq j k)) [
  | inl t ↦ absurd (cons_nil (rw t at h))
  | inr t ↦ absurd (cons_nil (rw t at h))
]
  where
    cons_nil :
        {a : Bytes × MonitoringBond × AnyError} {l : InvalidBonds}
        → ◌≡◌ {A = InvalidBonds} (a ∷ l) []
        → ⊥
    cons_nil h = cc

-- A union is empty only if both parts are.
extend-nil : (m rest : InvalidBonds) → extend m rest ≡ [] → (m ≡ []) × (rest ≡ [])
unfolding extend
extend-nil m [] h = (h, refl)
extend-nil m ((k, b, e) ∷ rest) h =
    absurd (insert-nonempty k b e m (extend-nil (insert k b e m) rest h).0)

abbrev pub Allowed : MempoolVerdict → Type 0
Allowed v = v.allowed ≡ true

module _ (x : Externals) (n : Node) where
  first_error-nil : (m : InvalidBonds) → first_error x n m ≡ ok tt → m ≡ []
  first_error-nil [] h = refl
  first_error-nil ((k, b, e) ∷ m) h = cc

  record_check-nil :
      (bond : MonitoringBond) (c : Check) → record_check x n bond c [] ≡ ok [] → c ≡ passed
  record_check-nil bond passed h = refl
  record_check-nil bond (violated e) h =
      let (k, _, g) = and_then-ok (bond_id x n bond) (λ k. ok (insert k bond e [])) h in
      absurd (insert-nonempty k bond e [] (ok-injective g))

  check_bonds-nil :
      (bond : MonitoringBond)
      → check_bonds x n (bond ∷ []) [] ≡ ok []
      → check_bond x n bond ≡ ok passed
  unfolding check_bonds
  check_bonds-nil bond h =
      let (c, e, h1) = and_then-ok (check_bond x n bond) _ h in
      let (m, f, h2) = and_then-ok (record_check x n bond c []) _ h1 in
      e ∙ ap ok (record_check-nil bond c (f ∙ h2))

  mempool_bonds-nil :
      (bond : MonitoringBond) (tx : Transaction)
      → parse_bond x n bond ≡ ok tx
      → mempool_bonds x n (bond ∷ []) [] ≡ ok []
      → spends_known x n tx.input ≡ false
  unfolding mempool_bonds
  mempool_bonds-nil bond tx parsed h =
      let (t, e, h1) = and_then-ok (parse_bond x n bond) _ h in
      let (m, f, h2) = and_then-ok (record_check x n bond _ []) _ h1 in
      rw (sym (ok-injective (sym e ∙ parsed))) (unspent t (record_check-nil bond _ (f ∙ h2)))
    where
      unspent :
          (t : Transaction)
          → (if spends_known x n t.input then violated (external "Input in mempool") else passed)
            ≡ passed
          → spends_known x n t.input ≡ false
      unspent t h = elim (Bool-cases (spends_known x n t.input)) [ inl e ↦ cc | inr e ↦ e ]

  rejected_bonds-nil :
      (bonds : List MonitoringBond) (verdicts : List MempoolVerdict) (m : InvalidBonds)
      → rejected_bonds x n bonds verdicts m ≡ ok []
      → All Allowed verdicts × (m ≡ [])
  unfolding rejected_bonds
  rejected_bonds-nil bonds [] m h = (tt, ok-injective h)
  rejected_bonds-nil bonds (v ∷ vs) m h = elim (Bool-cases v.allowed) [
    | inl e ↦ let (all, empty) = rejected_bonds-nil bonds vs m (rw e at h) in ((e, all), empty)
    | inr e ↦
        let (bond, _, h1) =
          and_then-ok (search_monitoring_bond_by_txid x n bonds v.txid) _ (rw e at h) in
        let (k, _, h2) = and_then-ok (bond_id x n bond) _ h1 in
        absurd (insert-nonempty k bond _ m (rejected_bonds-nil bonds vs _ h2).1)
  ]

  -- the bond that `validate_bond_tx_hex` builds
  abbrev pub in_memory : String → BondRequirements → MonitoringBond
  in_memory bond_tx_hex requirements = record {
    bond_tx_hex = bond_tx_hex;
    trade_id_hex = "0";
    robot = 0 ∷ [];
    requirements = requirements;
    table = memory;
  }

  -- what a bond that stands on its own has to be
  pub record Stands (bond_tx_hex : String) (r : BondRequirements) : Type 0 where
    pub tx : Transaction
    pub parsed : parse_bond x n (in_memory bond_tx_hex r) ≡ ok tx
    pub verified : n.verify_tx tx ≡ ok tt
    pub covers : Covers x n tx r
    pub verdicts : List MempoolVerdict
    pub asked : ask_chunks x n ((bond_tx_hex ∷ []) ∷ []) ≡ ok verdicts
    pub allowed : All Allowed verdicts
    pub unspent : spends_known x n tx.input ≡ false

  -- A submitted bond that is accepted is a transaction that parses and verifies, that covers what is
  -- required of it, that bitcoin core accepts for its mempool, and none of whose inputs is spent by
  -- a transaction known from the mempool.
  pub validate_bond_tx_hex-Stands :
      (bond_tx_hex : String) (r : BondRequirements)
      → validate_bond_tx_hex x n bond_tx_hex r ≡ ok tt
      → Stands bond_tx_hex r
  unfolding validate_bond_tx_hex validate_bonds test_mempool_accept_bonds lookup_mempool_inputs
      chunks_of_25 chunks_from
  validate_bond_tx_hex-Stands bond_tx_hex r h =
      let bond = in_memory bond_tx_hex r in
      let (m, e, h1) = and_then-ok (validate_bonds x n (bond ∷ [])) _ h in
      let (a, checked, e1) = and_then-ok (check_bonds x n (bond ∷ []) []) _ e in
      let (b, asked_all, e2) = and_then-ok (test_mempool_accept_bonds x n (bond ∷ [])) _ e1 in
      let (c, looked_up, e3) = and_then-ok (lookup_mempool_inputs x n (bond ∷ [])) _ e2 in
      let (ab, nc) = extend-nil (extend a b) c (ok-injective e3 ∙ first_error-nil m h1) in
      let (na, nb) = extend-nil a b ab in
      let (verdicts, asked, e4) =
        and_then-ok (ask_chunks x n ((bond_tx_hex ∷ []) ∷ [])) _ asked_all in
      let (tx, parsed, verified, covers) =
        check_bond-Covers x n bond (check_bonds-nil bond (checked ∙ ap ok na)) in
      record {
        tx = tx;
        parsed = parsed;
        verified = verified;
        covers = covers;
        verdicts = verdicts;
        asked = asked;
        allowed = (rejected_bonds-nil (bond ∷ []) verdicts [] (e4 ∙ ap ok nb)).0;
        unspent = mempool_bonds-nil bond tx parsed (looked_up ∙ ap ok nc);
      }

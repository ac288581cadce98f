-- ===== src/Wallet/Completeness.antt =====
-- Which bonds the validation of many bonds leaves out of its answer (wallet/mod.rs,
-- `validate_bonds`).
use taptrade_core.Prelude.{
  ◌≡◌, refl, sym, ◌∙◌, ap, Bool, true, false, ◌||◌, List, [], ◌∷◌, Bytes, bytes_eq, bytes_eq_iff,
  bytes_eq_refl, Bool-cases, inl, inr, if◌then◌else◌, arith,
}
use taptrade_core.Prelude.Result.{ok, and_then-ok, ok-injective}
use taptrade_core.Errors.{AnyError, external}
use taptrade_core.Externals.{Externals}
use taptrade_core.Node.{Node, Transaction}
use taptrade_core.Sql.Rows.{Elem}
use taptrade_core.Types.{MonitoringBond}
use taptrade_core.Wallet.Bonds.{
  Check, passed, violated, InvalidBonds, insert, extend, parse_bond, bond_id, check_bond,
  record_check, check_bonds, test_mempool_accept_bonds, spends_known, mempool_bonds,
  lookup_mempool_inputs, validate_bonds,
}
use taptrade_core.Wallet.Accepted.{Covers, check_bond-Covers}

-- `contains_key`
abbrev pub has_bond : Bytes → InvalidBonds → Bool
has_bond k [] = false
has_bond k ((j, b, e) ∷ m) = bytes_eq j k || has_bond k m

insert_self :
    (k : Bytes) (b : MonitoringBond) (e : AnyError) (m : InvalidBonds)
    → has_bond k (insert k b e m) ≡ true
unfolding insert
insert_self k b e [] = rw (bytes_eq_refl k) refl
insert_self k b e ((j, c, f) ∷ m) = elim (Bool-cases (bytes_eq j k)) [
  | inl t ↦ rw t (rw (bytes_eq_refl k) refl)
  | inr t ↦ rw t (rw t (insert_self k b e m))
]

-- what has been recorded stays recorded
insert-kept :
    (i k : Bytes) (b : MonitoringBond) (e : AnyError) (m : InvalidBonds)
    → has_bond i m ≡ true
    → has_bond i (insert k b e m) ≡ true
unfolding insert
insert-kept i k b e [] h = ground arith
insert-kept i k b e ((j, c, f) ∷ m) h = elim (Bool-cases (bytes_eq j k)) [
  | inl t ↦ rw t (rw (sym ((bytes_eq_iff j k).0 t)) h)
  | inr t ↦ rw t (elim (Bool-cases (bytes_eq j i)) [
    | inl u ↦ rw u refl
    | inr u ↦ rw u (insert-kept i k b e m (rw u at h))
  ])
]

extend-left :
    (i : Bytes) (m rest : InvalidBonds) → has_bond i m ≡ true → has_bond i (extend m rest) ≡ true
unfolding extend
extend-left i m [] h = h
extend-left i m ((k, b, e) ∷ rest) h = extend-left i (insert k b e m) rest (insert-kept i k b e m h)

extend-right :
    (i : Bytes) (m rest : InvalidBonds) → has_bond i rest ≡ true → has_bond i (extend m rest) ≡ true
unfolding extend
extend-right i m [] h = ground arith
extend-right i m ((k, b, e) ∷ rest) h = elim (Bool-cases (bytes_eq k i)) [
  | inl t ↦
      extend-left i (insert k b e m) rest (rw (sym ((bytes_eq_iff k i).0 t)) (insert_self k b e m))
  | inr t ↦ extend-right i (insert k b e m) rest (rw t at h)
]

absent : (b : Bool) → b ≡ false → b ≡ true → ⊥
absent b h k = false-true (sym h ∙ k)
  where
    false-true : false ≡ true → ⊥
    false-true e = cc

unrecorded :
    (i : Bytes) (m later : InvalidBonds)
    → (has_bond i m ≡ true → has_bond i later ≡ true)
    → has_bond i later ≡ false
    → has_bond i m ≡ false
unrecorded i m later kept a = elim (Bool-cases (has_bond i m)) [
  | inl e ↦ absurd (absent (has_bond i later) a (kept e))
  | inr e ↦ e
]

module _ (x : Externals) (n : Node) where
  record_check-kept :
      (i : Bytes) (bond : MonitoringBond) (c : Check) (m : InvalidBonds) {m' : InvalidBonds}
      → record_check x n bond c m ≡ ok m'
      → has_bond i m ≡ true
      → has_bond i m' ≡ true
  record_check-kept i bond passed m h k = rw (sym (ok-injective h)) k
  record_check-kept i bond (violated e) m h k =
      let (j, _, g) = and_then-ok (bond_id x n bond) (λ j. ok (insert j bond e m)) h in
      rw (sym (ok-injective g)) (insert-kept i j bond e m k)

  -- A bond that is not recorded has passed.
  record_check-passed :
      (i : Bytes) (bond : MonitoringBond) (c : Check) (m : InvalidBonds) {m' : InvalidBonds}
      → record_check x n bond c m ≡ ok m'
      → bond_id x n bond ≡ ok i
      → has_bond i m' ≡ false
      → c ≡ passed
  record_check-passed i bond passed m h d a = refl
  record_check-passed i bond (violated e) m {m'} h d a =
      let (j, d', g) = and_then-ok (bond_id x n bond) (λ j. ok (insert j bond e m)) h in
      let same : insert i bond e m ≡ m' =
        ap (λ j. insert j bond e m) (ok-injective (sym d ∙ d')) ∙ ok-injective g in
      absurd (absent (has_bond i m') a (rw (sym same) (insert_self i bond e m)))

  check_bonds-kept :
      (i : Bytes) (bonds : List MonitoringBond) (m : InvalidBonds) {m' : InvalidBonds}
      → check_bonds x n bonds m ≡ ok m'
      → has_bond i m ≡ true
      → has_bond i m' ≡ true
  unfolding check_bonds
  check_bonds-kept i [] m h k = rw (sym (ok-injective h)) k
  check_bonds-kept i (bond ∷ bonds) m h k =
      let (c, _, h1) = and_then-ok (check_bond x n bond) _ h in
      let (m1, e1, h2) = and_then-ok (record_check x n bond c m) _ h1 in
      check_bonds-kept i bonds m1 h2 (record_check-kept i bond c m e1 k)

  -- what the lookup in the mempool says of a transaction
  abbrev pub in_mempool : Transaction → Check
  in_mempool tx =
      if spends_known x n tx.input then violated (external "Input in mempool") else passed

  unspent : (tx : Transaction) → in_mempool tx ≡ passed → spends_known x n tx.input ≡ false
  unspent tx h = elim (Bool-cases (spends_known x n tx.input)) [ inl e ↦ cc | inr e ↦ e ]

  mempool_bonds-kept :
      (i : Bytes) (bonds : List MonitoringBond) (m : InvalidBonds) {m' : InvalidBonds}
      → mempool_bonds x n bonds m ≡ ok m'
      → has_bond i m ≡ true
      → has_bond i m' ≡ true
  unfolding mempool_bonds
  mempool_bonds-kept i [] m h k = rw (sym (ok-injective h)) k
  mempool_bonds-kept i (bond ∷ bonds) m h k =
      let (tx, _, h1) = and_then-ok (parse_bond x n bond) _ h in
      let (m1, e1, h2) = and_then-ok (record_check x n bond (in_mempool tx) m) _ h1 in
      mempool_bonds-kept i bonds m1 h2 (record_check-kept i bond (in_mempool tx) m e1 k)

  -- Of a list of bonds, one that is not recorded afterwards has passed the checks,
  check_bonds-passed :
      (i : Bytes) (bond : MonitoringBond) (bonds : List MonitoringBond) (m : InvalidBonds)
      {m' : InvalidBonds}
      → check_bonds x n bonds m ≡ ok m'
      → Elem bond bonds
      → bond_id x n bond ≡ ok i
      → has_bond i m' ≡ false
      → check_bond x n bond ≡ ok passed
  unfolding check_bonds
  check_bonds-passed i bond [] m h el d a = absurd el
  check_bonds-passed i bond (b ∷ bonds) m {m'} h el d a =
      let (c, e, h1) = and_then-ok (check_bond x n b) _ h in
      let (m1, e1, h2) = and_then-ok (record_check x n b c m) _ h1 in
      elim el [
        | inl same ↦
            let kept : has_bond i m1 ≡ true → has_bond i m' ≡ true =
              check_bonds-kept i bonds m1 h2 in
            let a1 = unrecorded i m1 m' kept a in
            rw same (e ∙ ap ok (record_check-passed i b c m e1 (rw same at d) a1))
        | inr rest ↦ check_bonds-passed i bond bonds m1 h2 rest d a
      ]

  -- and spends no output that a transaction known from the mempool spends.
  mempool_bonds-passed :
      (i : Bytes) (bond : MonitoringBond) (bonds : List MonitoringBond) (m : InvalidBonds)
      {m' : InvalidBonds} {tx : Transaction}
      → mempool_bonds x n bonds m ≡ ok m'
      → Elem bond bonds
      → bond_id x n bond ≡ ok i
      → has_bond i m' ≡ false
      → parse_bond x n bond ≡ ok tx
      → spends_known x n tx.input ≡ false
  unfolding mempool_bonds
  mempool_bonds-passed i bond [] m h el d a parsed = absurd el
  mempool_bonds-passed i bond (b ∷ bonds) m {m'} {tx} h el d a parsed =
      let (t, e, h1) = and_then-ok (parse_bond x n b) _ h in
      let (m1, e1, h2) = and_then-ok (record_check x n b (in_mempool t) m) _ h1 in
      elim el [
        | inl same ↦
            let kept : has_bond i m1 ≡ true → has_bond i m' ≡ true =
              mempool_bonds-kept i bonds m1 h2 in
            let a1 = unrecorded i m1 m' kept a in
            let passes = record_check-passed i b (in_mempool t) m e1 (rw same at d) a1 in
            let tx_same : t ≡ tx = ok-injective (sym e ∙ (rw same at parsed)) in
            rw (sym tx_same) (unspent t passes)
        | inr rest ↦ mempool_bonds-passed i bond bonds m1 h2 rest d a parsed
      ]

  -- what holds of a bond that is found valid
  pub record Upheld (bond : MonitoringBond) : Type 0 where
    pub tx : Transaction
    pub parsed : parse_bond x n bond ≡ ok tx
    pub verified : n.verify_tx tx ≡ ok tt
    pub covers : Covers x n tx bond.requirements
    pub unspent : spends_known x n tx.input ≡ false

  -- When the validation of a list of bonds succeeds, each bond of the list whose id is not among the
  -- invalid ones is a transaction that parses and verifies, that covers what is required of it, and
  -- that spends no output that a transaction known from the mempool spends.
  pub validate_bonds-Upheld :
      (i : Bytes) (bond : MonitoringBond) (bonds : List MonitoringBond) {invalid : InvalidBonds}
      → validate_bonds x n bonds ≡ ok invalid
      → Elem bond bonds
      → bond_id x n bond ≡ ok i
      → has_bond i invalid ≡ false
      → Upheld bond
  unfolding validate_bonds lookup_mempool_inputs
  validate_bonds-Upheld i bond bonds {invalid} h el d a =
      let (m1, e1, h1) = and_then-ok (check_bonds x n bonds []) _ h in
      let (m2, e2, h2) = and_then-ok (test_mempool_accept_bonds x n bonds) _ h1 in
      let (m3, e3, h3) = and_then-ok (lookup_mempool_inputs x n bonds) _ h2 in
      let whole = ok-injective h3 in
      let a' : has_bond i (extend (extend m1 m2) m3) ≡ false = ap (has_bond i) whole ∙ a in
      let a1 =
        unrecorded i m1 (extend (extend m1 m2) m3)
          (λ k. extend-left i (extend m1 m2) m3 (extend-left i m1 m2 k)) a' in
      let a3 = unrecorded i m3 (extend (extend m1 m2) m3) (extend-right i (extend m1 m2) m3) a' in
      let (tx, parsed, verified, covers) =
        check_bond-Covers x n bond (check_bonds-passed i bond bonds [] e1 el d a1) in
      record {
        tx = tx;
        parsed = parsed;
        verified = verified;
        covers = covers;
        unspent = mempool_bonds-passed i bond bonds [] e3 el d a3 parsed;
      }

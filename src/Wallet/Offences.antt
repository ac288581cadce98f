-- ===== src/Wallet/Offences.antt =====
-- Why a bond is in the answer of the validation of many bonds (wallet/mod.rs, `validate_bonds`).
use taptrade_core.Prelude.{
  ◌≡◌, refl, sym, ◌∙◌, ap, true, false, String, List, [], ◌∷◌, Bytes, bytes_eq, str_eq, map,
  Bool-cases, inl, inr,
}
use taptrade_core.Prelude.Result.{ok, and_then-ok, ok-injective}
use taptrade_core.Errors.{AnyError}
use taptrade_core.Externals.{Externals}
use taptrade_core.Node.{Node, Transaction, MempoolVerdict}
use taptrade_core.Sql.Rows.{All, Elem, All-Elem}
use taptrade_core.Types.{MonitoringBond}
use taptrade_core.Wallet.Bonds.{
  Check, passed, violated, InvalidBonds, insert, extend, parse_bond, bond_id, bond_hex, check_bond,
  record_check, check_bonds, ask_chunks, chunks_of_25, search_monitoring_bond_by_txid,
  rejected_bonds, test_mempool_accept_bonds, spends_known, mempool_bonds, lookup_mempool_inputs,
  validate_bonds,
}
use taptrade_core.Wallet.Completeness.{in_mempool}

module _ (P : Bytes × MonitoringBond × AnyError → Type 0) where
  insert-All :
      (k : Bytes) (b : MonitoringBond) (e : AnyError) (m : InvalidBonds)
      → P (k, b, e)
      → All P m
      → All P (insert k b e m)
  unfolding insert
  insert-All k b e [] p a = (p, tt)
  insert-All k b e ((j, c, f) ∷ m) p a = elim (Bool-cases (bytes_eq j k)) [
    | inl t ↦ rw t (p, a.1)
    | inr t ↦ rw t (a.0, insert-All k b e m p a.1)
  ]

  extend-All : (m rest : InvalidBonds) → All P m → All P rest → All P (extend m rest)
  unfolding extend
  extend-All m [] a r = a
  extend-All m ((k, b, e) ∷ rest) a r =
      extend-All (insert k b e m) rest (insert-All k b e m r.0 a) r.1

module _ (x : Externals) (n : Node) (bonds : List MonitoringBond) where
  -- the reasons for which one of the bonds is invalid
  pub data Offends (bond : MonitoringBond) : Type 0 where
    fails_checks : (e : AnyError) → check_bond x n bond ≡ ok (violated e) → Offends bond
    not_accepted :
        (tx : Transaction) (v : MempoolVerdict) (verdicts : List MempoolVerdict)
        → ask_chunks x n (chunks_of_25 (map (bond_hex x n) bonds)) ≡ ok verdicts
        → Elem v verdicts
        → v.allowed ≡ false
        → parse_bond x n bond ≡ ok tx
        → str_eq tx.txid v.txid ≡ true
        → Offends bond
    spent_in_mempool :
        (tx : Transaction)
        → parse_bond x n bond ≡ ok tx
        → spends_known x n tx.input ≡ true
        → Offends bond

  -- an entry of the answer: its key is the id of a bond of the list, which offends
  abbrev pub Blamed : Bytes × MonitoringBond × AnyError → Type 0
  Blamed (k, bond, e) = Elem bond bonds × (bond_id x n bond ≡ ok k) × Offends bond

  Within : List MonitoringBond → Type 0
  Within bs = (b : MonitoringBond) → Elem b bs → Elem b bonds

  record_check-Blamed :
      (bond : MonitoringBond) (c : Check) (m : InvalidBonds) {m' : InvalidBonds}
      → record_check x n bond c m ≡ ok m'
      → Elem bond bonds
      → ((e : AnyError) → c ≡ violated e → Offends bond)
      → All Blamed m
      → All Blamed m'
  record_check-Blamed bond passed m h el o a = rw (sym (ok-injective h)) a
  record_check-Blamed bond (violated e) m h el o a =
      let (k, d, g) = and_then-ok (bond_id x n bond) (λ j. ok (insert j bond e m)) h in
      rw (sym (ok-injective g)) (insert-All Blamed k bond e m (el, d, o e refl) a)

  check_bonds-Blamed :
      (bs : List MonitoringBond) (m : InvalidBonds) {m' : InvalidBonds}
      → check_bonds x n bs m ≡ ok m'
      → Within bs
      → All Blamed m
      → All Blamed m'
  unfolding check_bonds Within
  check_bonds-Blamed [] m h w a = rw (sym (ok-injective h)) a
  check_bonds-Blamed (bond ∷ bs) m h w a =
      let (c, e, h1) = and_then-ok (check_bond x n bond) _ h in
      let (m1, e1, h2) = and_then-ok (record_check x n bond c m) _ h1 in
      check_bonds-Blamed bs m1 h2 (λ b el. w b (inr el))
        (record_check-Blamed bond c m e1 (w bond (inl refl))
          (λ f p. Offends.fails_checks f (e ∙ ap ok p)) a)

  spent :
      (tx : Transaction) (e : AnyError)
      → in_mempool x n tx ≡ violated e
      → spends_known x n tx.input ≡ true
  spent tx e h = elim (Bool-cases (spends_known x n tx.input)) [ inl t ↦ t | inr t ↦ cc ]

  mempool_bonds-Blamed :
      (bs : List MonitoringBond) (m : InvalidBonds) {m' : InvalidBonds}
      → mempool_bonds x n bs m ≡ ok m'
      → Within bs
      → All Blamed m
      → All Blamed m'
  unfolding mempool_bonds Within
  mempool_bonds-Blamed [] m h w a = rw (sym (ok-injective h)) a
  mempool_bonds-Blamed (bond ∷ bs) m h w a =
      let (tx, e, h1) = and_then-ok (parse_bond x n bond) _ h in
      let (m1, e1, h2) = and_then-ok (record_check x n bond (in_mempool x n tx) m) _ h1 in
      mempool_bonds-Blamed bs m1 h2 (λ b el. w b (inr el))
        (record_check-Blamed bond (in_mempool x n tx) m e1 (w bond (inl refl))
          (λ f p. Offends.spent_in_mempool tx e (spent tx f p)) a)

  -- The bond found for a transaction id is one of the list, and has that transaction.
  search-finds :
      (bs : List MonitoringBond) (txid : String) {bond : MonitoringBond}
      → search_monitoring_bond_by_txid x n bs txid ≡ ok bond
      → Elem bond bs
        × ((tx : Transaction) × (parse_bond x n bond ≡ ok tx) × (str_eq tx.txid txid ≡ true))
  unfolding search_monitoring_bond_by_txid
  search-finds [] txid h = cc
  search-finds (b ∷ bs) txid {bond} h =
      let (tx, e, h1) = and_then-ok (parse_bond x n b) _ h in
      elim (Bool-cases (str_eq tx.txid txid)) [
        | inl t ↦
            let same : b ≡ bond = ok-injective (rw t at h1) in
            (inl (sym same), (tx, rw (sym same) e, t))
        | inr t ↦ let (el, found) = search-finds bs txid (rw t at h1) in (inr el, found)
      ]

  rejected_bonds-Blamed :
      (verdicts vs : List MempoolVerdict) (m : InvalidBonds) {m' : InvalidBonds}
      → ask_chunks x n (chunks_of_25 (map (bond_hex x n) bonds)) ≡ ok verdicts
      → ((v : MempoolVerdict) → Elem v vs → Elem v verdicts)
      → rejected_bonds x n bonds vs m ≡ ok m'
      → All Blamed m
      → All Blamed m'
  unfolding rejected_bonds
  rejected_bonds-Blamed verdicts [] m q w h a = rw (sym (ok-injective h)) a
  rejected_bonds-Blamed verdicts (v ∷ vs) m q w h a = elim (Bool-cases v.allowed) [
    | inl t ↦ rejected_bonds-Blamed verdicts vs m q (λ u el. w u (inr el)) (rw t at h) a
    | inr t ↦
        let (bond, e, h1) =
          and_then-ok (search_monitoring_bond_by_txid x n bonds v.txid) _ (rw t at h) in
        let (k, d, h2) = and_then-ok (bond_id x n bond) _ h1 in
        let (el, (tx, parsed, same)) = search-finds bonds v.txid e in
        rejected_bonds-Blamed verdicts vs _ q (λ u el. w u (inr el)) h2
          (insert-All Blamed k bond _ m
            (el, d, Offends.not_accepted tx v verdicts q (w v (inl refl)) t parsed same) a)
  ]

  -- When the validation of a list of bonds succeeds, each bond of its answer is in the list, stands
  -- under its own id, and either fails the checks on verification, amounts and fee rate, or has the
  -- transaction id of a refusal by bitcoin core, or spends an output that a transaction known from
  -- the mempool spends.
  pub validate_bonds-Blamed :
      (k : Bytes) (bond : MonitoringBond) (e : AnyError) {invalid : InvalidBonds}
      → validate_bonds x n bonds ≡ ok invalid
      → Elem (k, bond, e) invalid
      → Blamed (k, bond, e)
  unfolding validate_bonds lookup_mempool_inputs test_mempool_accept_bonds Within
  validate_bonds-Blamed k bond e {invalid} h el =
      let (m1, e1, h1) = and_then-ok (check_bonds x n bonds []) _ h in
      let (m2, e2, h2) = and_then-ok (test_mempool_accept_bonds x n bonds) _ h1 in
      let (m3, e3, h3) = and_then-ok (lookup_mempool_inputs x n bonds) _ h2 in
      let (vs, q, e2') =
        and_then-ok (ask_chunks x n (chunks_of_25 (map (bond_hex x n) bonds))) _ e2 in
      let a1 = check_bonds-Blamed bonds [] e1 (λ b l. l) tt in
      let a2 = rejected_bonds-Blamed vs vs [] q (λ v l. l) e2' tt in
      let a3 = mempool_bonds-Blamed bonds [] e3 (λ b l. l) tt in
      let all = extend-All Blamed (extend m1 m2) m3 (extend-All Blamed m1 m2 a1 a2) a3 in
      All-Elem Blamed invalid (k, bond, e) (rw (ok-injective h3) at all) el

-- ===== src/Wallet/Bonds.antt =====
-- The validation of bond transactions (wallet/mod.rs, wallet/wallet_utils.rs, and
-- `lookup_mempool_inputs` of coordinator/mempool_monitoring.rs). A `HashMap` keyed by the bond's id
-- is an association list in which a later insert replaces the value.
use taptrade_core.Prelude.{
  ℕ, zero, suc, ◌/◌, String, Bool, true, false, Option, none, some, List, [], ◌∷◌, ◌++◌, map, Bytes,
  bytes_eq, str_eq, ltb, ◌==◌, if◌then◌else◌,
}
use taptrade_core.Prelude.Result.{Result, ok, err, panic, ok_or, and_then}
use taptrade_core.Prelude.Word.{add_u64, sub_u64}
use taptrade_core.Errors.{AnyError, invalid_hex, external, empty_input_sum, invalid_bond_tx}
use taptrade_core.Externals.{Externals}
use taptrade_core.Node.{Node, OutPoint, TxOut, Transaction, MempoolVerdict}
use taptrade_core.Types.{MonitoringBond, BondRequirements, memory}

infixl 5 ◌>>=◌
abbrev ◌>>=◌ : {E A B : Type 0} → Result E A → (A → Result E B) → Result E B
r >>= f = and_then r f

-- `HashMap<Vec<u8>, (MonitoringBond, anyhow::Error)>`
abbrev pub InvalidBonds : Type 0
InvalidBonds = List (Bytes × MonitoringBond × AnyError)

unfoldable pub insert : Bytes → MonitoringBond → AnyError → InvalidBonds → InvalidBonds
insert k b e [] = (k, b, e) ∷ []
insert k b e ((j, c, f) ∷ m) = if bytes_eq j k then (k, b, e) ∷ m else (j, c, f) ∷ insert k b e m

-- `HashMap::extend`
unfoldable pub extend : InvalidBonds → InvalidBonds → InvalidBonds
unfolding insert
extend m [] = m
extend m ((k, b, e) ∷ rest) = extend (insert k b e m) rest

unfoldable pub all_output_sum : ℕ → List TxOut → Result AnyError ℕ
all_output_sum sum [] = ok sum
all_output_sum sum (o ∷ os) = and_then (add_u64 sum o.value) λ s. all_output_sum s os

unfoldable pub get_output : List TxOut → ℕ → Result AnyError TxOut
get_output [] i = err (external "InvalidInput")
get_output (o ∷ os) zero = ok o
get_output (o ∷ os) (suc i) = get_output os i

abbrev pub or_else :
    Option Transaction → Result AnyError (Option Transaction) → Result AnyError Transaction
or_else (some tx) _ = ok tx
or_else none r = and_then r λ o. ok_or o (external "MissingInputTx")

-- the first output to the script
unfoldable pub output_to : String → List TxOut → Result AnyError ℕ
output_to script [] = err (external "No output to bond address in transaction")
output_to script (o ∷ os) =
    if str_eq o.script_pubkey script then ok o.value else output_to script os

abbrev push : String → List (List String) → List (List String)
push s [] = (s ∷ []) ∷ []
push s (c ∷ cs) = (s ∷ c) ∷ cs

-- The head of the result is the chunk under way, which has room for so many more.
unfoldable pub chunks_from : ℕ → List String → List (List String)
chunks_from room [] = [] ∷ []
chunks_from zero (s ∷ ss) = [] ∷ push s (chunks_from 24 ss)
chunks_from (suc room) (s ∷ ss) = push s (chunks_from room ss)

-- `chunks(25)`
unfoldable pub chunks_of_25 : List String → List (List String)
unfolding chunks_from
chunks_of_25 [] = []
chunks_of_25 (s ∷ ss) = chunks_from 25 (s ∷ ss)

-- what the checks of one bond say: it passes, or the reason for which it is invalid
pub data Check : Type 0 where
  passed : Check
  violated : AnyError → Check

module _ (x : Externals) (n : Node) where
  unfoldable pub previous_value : OutPoint → Result AnyError ℕ
  unfolding get_output
  previous_value out = do
    in_db ← n.get_raw_tx out.txid
    prev_tx ← or_else in_db (n.get_tx out.txid)
    spent_output ← get_output prev_tx.output out.vout
    ok spent_output.value

  -- the loop of `BondTx::input_sum`
  unfoldable pub sum_previous : ℕ → List OutPoint → Result AnyError ℕ
  unfolding previous_value
  sum_previous sum [] = ok sum
  sum_previous sum (i ∷ is) =
      and_then (previous_value i) λ value. and_then (add_u64 sum value) λ s. sum_previous s is

  unfoldable pub tx_input_sum : Transaction → Result AnyError ℕ
  unfolding sum_previous
  tx_input_sum tx = do
    sum ← sum_previous 0 tx.input
    if sum == 0 then err empty_input_sum else ok sum

  unfoldable pub bond_output_sum : Transaction → String → Result AnyError ℕ
  unfolding output_to
  bond_output_sum tx bond_address = do
    address ← ok_or (x.parse_address bond_address) (external "address")
    checked ← ok_or (x.regtest_address address) (external "network")
    output_to (n.script_pubkey checked) tx.output

  -- `MonitoringBond::id`
  unfoldable pub bond_id : MonitoringBond → Result AnyError Bytes
  bond_id bond = do binary ← ok_or (x.hex_decode bond.bond_tx_hex) invalid_hex; ok (n.sha256 binary)

  abbrev pub parse_bond : MonitoringBond → Result AnyError Transaction
  parse_bond bond = do
    binary ← ok_or (x.hex_decode bond.bond_tx_hex) invalid_hex
    ok_or (n.parse_tx binary) invalid_bond_tx

  -- the checks on amounts and on the fee rate, in their order
  unfoldable pub check_amounts : Transaction → BondRequirements → Result AnyError Check
  unfolding tx_input_sum bond_output_sum all_output_sum
  check_amounts tx r = do
    input_sum ← tx_input_sum tx
    if ltb input_sum r.min_input_sum_sat
        then ok (violated (external "Bond input sum too small"))
        else (do
          amount ← bond_output_sum tx r.bond_address
          if ltb amount r.locking_amount_sat
              then ok (violated (external "Bond output sum too small"))
              else (do
                all_outputs ← all_output_sum 0 tx.output
                fee ← sub_u64 input_sum all_outputs
                if tx.vsize == 0
                    then panic
                    else if ltb (fee / tx.vsize) 200
                    then ok (violated (external "Bond fee rate too low"))
                    else ok passed))

  abbrev pub unless_unverified :
      Result AnyError (Unit {0}) → Result AnyError Check → Result AnyError Check
  unless_unverified (ok _) rest = rest
  unless_unverified (err e) rest = ok (violated e)
  unless_unverified panic rest = panic

  unfoldable pub check_bond : MonitoringBond → Result AnyError Check
  unfolding check_amounts
  check_bond bond = do
    tx ← parse_bond bond
    unless_unverified (n.verify_tx tx) (check_amounts tx bond.requirements)

  abbrev pub record_check : MonitoringBond → Check → InvalidBonds → Result AnyError InvalidBonds
  record_check bond passed m = ok m
  record_check bond (violated e) m = and_then (bond_id bond) λ k. ok (insert k bond e m)

  -- the loop of `validate_bonds`
  unfoldable pub check_bonds : List MonitoringBond → InvalidBonds → Result AnyError InvalidBonds
  unfolding check_bond bond_id insert
  check_bonds [] m = ok m
  check_bonds (bond ∷ bonds) m =
      and_then (check_bond bond) λ c. and_then (record_check bond c m) λ m'. check_bonds bonds m'

  unfoldable pub search_monitoring_bond_by_txid :
      List MonitoringBond → String → Result AnyError MonitoringBond
  search_monitoring_bond_by_txid [] txid = err (external "Bond not found in monitoring bonds")
  search_monitoring_bond_by_txid (bond ∷ bonds) txid =
      let rest = search_monitoring_bond_by_txid bonds txid in
      and_then (parse_bond bond) λ tx. if str_eq tx.txid txid then ok bond else rest

  unfoldable pub rejected_bonds :
      List MonitoringBond → List MempoolVerdict → InvalidBonds → Result AnyError InvalidBonds
  unfolding search_monitoring_bond_by_txid bond_id insert
  rejected_bonds bonds [] m = ok m
  rejected_bonds bonds (v ∷ vs) m =
      let allowed = rejected_bonds bonds vs m in
      if v.allowed then allowed else (do
        bond ← search_monitoring_bond_by_txid bonds v.txid
        k ← bond_id bond
        rejected_bonds bonds vs (insert k bond (external "testmempoolaccept") m))

  abbrev pub bond_hex : MonitoringBond → String
  bond_hex b = b.bond_tx_hex

  -- one call for each chunk
  unfoldable pub ask_chunks : List (List String) → Result AnyError (List MempoolVerdict)
  ask_chunks [] = ok []
  ask_chunks (chunk ∷ chunks) =
      let later = ask_chunks chunks in
      and_then (n.test_mempool_accept chunk) λ verdicts. and_then later λ vs. ok (verdicts ++ vs)

  unfoldable pub test_mempool_accept_bonds : List MonitoringBond → Result AnyError InvalidBonds
  unfolding rejected_bonds ask_chunks chunks_of_25
  test_mempool_accept_bonds bonds = do
    verdicts ← ask_chunks (chunks_of_25 (map bond_hex bonds))
    rejected_bonds bonds verdicts []

  unfoldable pub spends_known : List OutPoint → Bool
  spends_known [] = false
  spends_known (i ∷ is) = if n.utxo_set i then true else spends_known is

  unfoldable pub mempool_bonds : List MonitoringBond → InvalidBonds → Result AnyError InvalidBonds
  unfolding spends_known bond_id insert
  mempool_bonds [] m = ok m
  mempool_bonds (bond ∷ bonds) m = do
    tx ← parse_bond bond
    m' ←
        record_check bond
          (if spends_known tx.input then violated (external "Input in mempool") else passed) m
    mempool_bonds bonds m'

  unfoldable pub lookup_mempool_inputs : List MonitoringBond → Result AnyError InvalidBonds
  unfolding mempool_bonds
  lookup_mempool_inputs bonds = mempool_bonds bonds []

  unfoldable pub validate_bonds : List MonitoringBond → Result AnyError InvalidBonds
  unfolding check_bonds test_mempool_accept_bonds lookup_mempool_inputs extend
  validate_bonds bonds = do
    invalid_bonds ← check_bonds bonds []
    not_accepted ← test_mempool_accept_bonds bonds
    in_mempool ← lookup_mempool_inputs bonds
    ok (extend (extend invalid_bonds not_accepted) in_mempool)

  abbrev pub first_error : InvalidBonds → Result AnyError (Unit {0})
  first_error [] = ok tt
  first_error ((k, b, e) ∷ m) = err e

  -- `validate_bond_tx_hex`, by a bond that stands in memory alone
  unfoldable pub validate_bond_tx_hex : String → BondRequirements → Result AnyError (Unit {0})
  validate_bond_tx_hex bond_tx_hex requirements = do
    invalid_bond ← validate_bonds (
        record {
          bond_tx_hex = bond_tx_hex;
          trade_id_hex = "0";
          robot = 0 ∷ [];
          requirements = requirements;
          table = memory;
        }
        ∷ [])
    first_error invalid_bond

  unfoldable pub publish_bond_tx_hex : String → Result AnyError (Unit {0})
  publish_bond_tx_hex bond = do
    binary ← ok_or (x.hex_decode bond) invalid_hex
    tx ← ok_or (n.parse_tx binary) invalid_bond_tx
    n.broadcast bond

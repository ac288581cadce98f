-- ===== src/Monitor/Mempool.antt =====
-- The outputs that mempool transactions spend (coordinator/mempool_monitoring.rs, `run_mempool`).
-- The map of known transactions is an association list by txid.
use taptrade_core.Prelude.{
  String, Bool, false, ◌||◌, Option, none, some, List, [], ◌∷◌, ◌++◌, str_eq, contains,
  if◌then◌else◌,
}
use taptrade_core.Node.{OutPoint}

abbrev pub MempoolState : Type 0
MempoolState = List (String × List OutPoint)

unfoldable pub contains_key : String → MempoolState → Bool
contains_key t [] = false
contains_key t ((s, is) ∷ m) = str_eq s t || contains_key t m

unfoldable pub retain : List String → MempoolState → MempoolState
retain txids [] = []
retain txids ((s, is) ∷ m) = if contains s txids then (s, is) ∷ retain txids m else retain txids m

unfoldable pub spent_outputs : MempoolState → List OutPoint
spent_outputs [] = []
spent_outputs ((s, is) ∷ m) = is ++ spent_outputs m

abbrev pub add_known : String → Option (List OutPoint) → MempoolState → MempoolState
add_known t none m = m
add_known t (some is) m = (t, is) ∷ m

-- `get_raw_transaction`: the inputs of a transaction, or an error
module _ (inputs_of : String → Option (List OutPoint)) where
  -- the loop over the mempool's transactions
  unfoldable pub learn : List String → MempoolState → MempoolState
  unfolding contains_key
  learn [] m = m
  learn (t ∷ ts) m = learn ts (if contains_key t m then m else add_known t (inputs_of t) m)

  -- one round: the transactions known from now on, and the outputs that they spend
  unfoldable pub mempool_round : List String → MempoolState → MempoolState × List OutPoint
  unfolding learn retain spent_outputs
  mempool_round mempool_txs known =
      let state = retain mempool_txs (learn mempool_txs known) in (state, spent_outputs state)

-- what bitcoin core answers in a round: the mempool's transactions, or `none` where
-- `get_raw_mempool` fails, and the inputs of a transaction, or `none` where `get_raw_transaction` does
pub record Round : Type 0 where
  pub listing : Option (List String)
  pub inputs_of : String → Option (List OutPoint)

-- A round without a listing changes nothing.
abbrev pub listed_round :
    (String → Option (List OutPoint))
    → Option (List String)
    → MempoolState × List OutPoint
    → MempoolState × List OutPoint
listed_round inputs_of none s = s
listed_round inputs_of (some mempool_txs) s = mempool_round inputs_of mempool_txs s.0

-- The loop until the shutdown.
unfoldable pub run_mempool :
    List Round → MempoolState × List OutPoint → MempoolState × List OutPoint
unfolding mempool_round
run_mempool [] s = s
run_mempool (r ∷ rounds) s = run_mempool rounds (listed_round r.inputs_of r.listing s)

-- `Mempool::new`
abbrev pub new_mempool : MempoolState × List OutPoint
new_mempool = ([], [])

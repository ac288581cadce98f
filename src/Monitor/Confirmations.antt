-- ===== src/Monitor/Confirmations.antt =====
-- The confirmations of the escrow transactions (coordinator/tx_confirmation_monitoring.rs).
use taptrade_core.Prelude.{
  ℕ, String, Bool, false, Option, none, some, List, [], ◌∷◌, ltb, if◌then◌else◌,
}
use taptrade_core.Prelude.Result.{Result, ok, err, panic, and_then}
use taptrade_core.Errors.{AnyError, external}
use taptrade_core.Database.Taken.{fetch_unconfirmed_escrow_txids, confirm_bond_txids}
use taptrade_core.Database.Tables.{CoordinatorDb}

-- what bitcoin core says of a transaction
pub data TxInfo : Type 0 where
  found : Option ℕ → TxInfo
  unknown : TxInfo  -- rpc error -5
  failed : TxInfo

-- more than three confirmations
abbrev pub is_deep : Option ℕ → Bool
is_deep none = false
is_deep (some confirmations) = ltb 3 confirmations

abbrev pub with_info :
    String → TxInfo → Result AnyError (List String) → Result AnyError (List String)
with_info txid unknown later = later
with_info txid failed later = err (external "Error fetching transaction info")
with_info txid (found confirmations) later =
    and_then later λ ts. ok (if is_deep confirmations then txid ∷ ts else ts)

-- An error of the node, or a panic of the blocking task, counts as no confirmation.
abbrev pub or_none : Result AnyError (List String) → List String
or_none (ok txids) = txids
or_none (err e) = []
or_none panic = []

module _ (is_txid : String → Bool) (info : String → TxInfo) where
  unfoldable pub get_confirmations : List String → Result AnyError (List String)
  get_confirmations [] = ok []
  get_confirmations (txid ∷ txids) =
      let later = get_confirmations txids in
      if is_txid txid then with_info txid (info txid) later else err (external "txid")

  -- one round of `update_transaction_confirmations`
  unfoldable pub update_transaction_confirmations : CoordinatorDb → CoordinatorDb
  unfolding get_confirmations
  update_transaction_confirmations db =
      (confirm_bond_txids (or_none (and_then (fetch_unconfirmed_escrow_txids db) get_confirmations))
        db).1

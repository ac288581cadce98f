-- ===== src/Node.antt =====
-- What the bdk wallet, bitcoin core and the random generator answer while one request is served.
-- Transactions that are only passed on are their texts.
use taptrade_core.Prelude.{ℕ, String, Bool, Option, List, Bytes}
use taptrade_core.Prelude.Result.{Result}
use taptrade_core.Errors.{AnyError}
use taptrade_core.Types.{PsbtInput}

pub record OutPoint : Type 0 where
  pub txid : String
  pub vout : ℕ

pub record TxOut : Type 0 where
  pub script_pubkey : String
  pub value : ℕ

-- `bdk::bitcoin::Transaction`, as far as the coordinator reads it
pub record Transaction : Type 0 where
  pub txid : String
  pub input : List OutPoint
  pub output : List TxOut
  pub vsize : ℕ

-- an entry of the answer to testmempoolaccept
pub record MempoolVerdict : Type 0 where
  pub txid : String
  pub allowed : Bool

-- what the coordinator asks the transaction builder for
pub record TxPlan : Type 0 where
  pub recipients : List (String × ℕ)
  pub foreign_utxos : List PsbtInput
  pub fee_absolute : ℕ

-- the spending conditions that a trader or the coordinator can meet, in miniscript's policy language
pub data Policy : Type 0 where
  pk : String → Policy
  after : ℕ → Policy
  and : Policy → Policy → Policy

pub data TapTree : Type 0 where
  leaf : Policy → TapTree
  tree : TapTree → TapTree → TapTree

pub record Node : Type 0 where
  -- `wallet.get_address(AddressIndex::New)`, as an address and as its taproot key
  pub get_address : Result AnyError String
  pub taproot_pk : Result AnyError String
  -- `rand::thread_rng()`, as hex
  pub random_order_id : String
  -- `deserialize` of a transaction
  pub parse_tx : Bytes → Option Transaction
  -- `verify_tx`: signatures and inputs
  pub verify_tx : Transaction → Result AnyError (Unit {0})
  -- the wallet's database, and the chain
  pub get_raw_tx : String → Result AnyError (Option Transaction)
  pub get_tx : String → Result AnyError (Option Transaction)
  -- `Address::script_pubkey`
  pub script_pubkey : String → String
  -- the testmempoolaccept call
  pub test_mempool_accept : List String → Result AnyError (List MempoolVerdict)
  -- is the output spent in the mempool, as `MempoolHandler` knows it?
  pub utxo_set : OutPoint → Bool
  -- SHA-256
  pub sha256 : Bytes → Bytes
  -- `backend.broadcast`
  pub broadcast : String → Result AnyError (Unit {0})
  -- the aggregated musig key of the two traders, as an x-only key
  pub aggregate_musig_pubkeys : String → String → Result AnyError String
  -- parsing and compiling the policies, `Descriptor::new_tr` and its sanity check
  pub new_tr : String → TapTree → Result AnyError String
  -- `descriptor.address(Regtest)`
  pub descriptor_address : String → Result AnyError String
  -- `wallet.build_tx()` up to `finish()`: the psbt's text and its txid
  pub build_tx : TxPlan → Result AnyError (String × String)
  -- `psbt.combine(other)`
  pub combine : String → String → Option String
  -- `wallet.finalize_psbt`: whether it is final, and the psbt
  pub finalize_psbt : String → Result AnyError (Bool × String)
  -- `psbt.extract_tx()`
  pub extract_tx : String → String
  -- the unspent outputs of a wallet over the descriptor, after a sync
  pub list_unspent : String → Result AnyError (List PsbtInput)
  -- `estimate_fee(6)` on `fee_vb(140)`, and the same at 40 sat/vB
  pub estimated_fee : Option ℕ
  pub fallback_fee : ℕ
  -- the keyspend witness put into the payout transaction
  pub sign_keyspend : String → String → Result AnyError String

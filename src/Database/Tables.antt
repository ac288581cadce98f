-- ===== src/Database/Tables.antt =====
-- The three tables of the coordinator's SQLite database (database/mod.rs, `init`). A column of an
-- integer is its 64-bit pattern, so the casts between `i64` and `u64` change nothing; `Option` marks
-- the nullable columns that some statement leaves or sets NULL. Every INSERT binds the others.
use taptrade_core.Prelude.{ℕ, String, Bool, true, false, Option, none, some, List, [], Bytes}

-- offers awaiting their bond
pub record MakerRequest : Type 0 where
  pub robohash : Bytes
  pub is_buy_order : Option ℕ
  pub amount_sat : ℕ
  pub bond_ratio : ℕ
  pub offer_duration_ts : ℕ
  pub bond_address : String
  pub bond_amount_sat : ℕ
  pub escrow_locking_input_amount_without_trade_sum : ℕ

-- offers of the orderbook, awaiting a taker
pub record ActiveMakerOffer : Type 0 where
  pub offer_id : String
  pub robohash : Bytes
  pub is_buy_order : Option ℕ
  pub amount_sat : ℕ
  pub bond_ratio : ℕ
  pub offer_duration_ts : ℕ
  pub bond_address : String
  pub bond_amount_sat : ℕ
  pub escrow_locking_input_amount_without_trade_sum : ℕ
  pub bond_tx_hex : String
  pub payout_address : String
  pub change_address_maker : String
  pub escrow_inputs_hex_maker_csv : String
  pub taproot_pubkey_hex_maker : String
  pub musig_pub_nonce_hex : String
  pub musig_pubkey_hex : String
  pub taker_bond_address : String

-- offers that are taken and in the trade process
pub record TakenOffer : Type 0 where
  pub offer_id : String
  pub robohash_maker : Bytes
  pub robohash_taker : Bytes
  pub is_buy_order : Option ℕ
  pub amount_sat : ℕ
  pub bond_ratio : ℕ
  pub offer_duration_ts : ℕ
  pub bond_address_maker : String
  pub bond_address_taker : String
  pub bond_amount_sat : ℕ
  pub bond_tx_hex_maker : String
  pub bond_tx_hex_taker : String
  pub payout_address_maker : String
  pub taproot_xonly_pubkey_hex_maker : String
  pub payout_address_taker : String
  pub taproot_xonly_pubkey_hex_taker : String
  pub musig_pub_nonce_hex_maker : String
  pub musig_pubkey_compressed_hex_maker : String
  pub musig_pub_nonce_hex_taker : String
  pub musig_pubkey_compressed_hex_taker : String
  pub musig_partial_sig_hex_maker : Option String
  pub musig_partial_sig_hex_taker : Option String
  pub escrow_psbt_hex : String
  pub escrow_psbt_txid : String
  pub signed_escrow_psbt_hex_maker : Option String
  pub signed_escrow_psbt_hex_taker : Option String
  pub escrow_psbt_is_confirmed : ℕ
  pub maker_happy : Option ℕ
  pub taker_happy : Option ℕ
  pub escrow_ongoing : ℕ
  pub escrow_winner_robohash : Option String
  pub escrow_taproot_pk_coordinator : String
  pub escrow_amount_maker_sat : ℕ
  pub escrow_amount_taker_sat : ℕ
  pub escrow_fee_per_participant : ℕ
  pub escrow_output_descriptor : String
  pub payout_transaction_psbt_hex : Option String
  pub processing : ℕ

pub record CoordinatorDb : Type 0 where
  pub maker_requests : List MakerRequest
  pub active_maker_offers : List ActiveMakerOffer
  pub taken_offers : List TakenOffer

-- a new database, after the CREATE TABLE statements
abbrev pub init : CoordinatorDb
init = record { maker_requests = []; active_maker_offers = []; taken_offers = [] }

abbrev pub bool_to_sql_int : Bool → Option ℕ
bool_to_sql_int true = some 1
bool_to_sql_int false = none

-- `.bind(flag)` of a `bool`
abbrev pub bool_to_int : Bool → ℕ
bool_to_int true = 1
bool_to_int false = 0

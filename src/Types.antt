-- ===== src/Types.antt =====
-- The data that the coordinator's components hand to one another: wallet/mod.rs,
-- wallet/escrow_psbt.rs, wallet/wallet_utils.rs, coordinator/bond_monitoring.rs,
-- coordinator/coordinator_utils.rs, coordinator/escrow_cli.rs and database/mod.rs. Library values
-- (descriptors, addresses, nonces, keys, transactions) are their texts.
use taptrade_core.Prelude.{ℕ, String, Bool, Option, List, Bytes}
use taptrade_core.Api.{PayoutResponse}

pub record BondRequirements : Type 0 where
  pub bond_address : String
  pub locking_amount_sat : ℕ
  pub min_input_sum_sat : ℕ

pub record EscrowPsbt : Type 0 where
  pub escrow_psbt_hex : String
  pub escrow_tx_txid : String
  pub escrow_output_descriptor : String
  pub coordinator_xonly_escrow_pk : String
  pub escrow_amount_maker_sat : ℕ
  pub escrow_amount_taker_sat : ℕ
  pub escrow_fee_sat_per_participant : ℕ

-- Of `psbt_input` only the value of its `witness_utxo` is read.
pub record PsbtInput : Type 0 where
  pub witness_utxo_value : Option ℕ
  pub utxo : String

pub record EscrowPsbtConstructionData : Type 0 where
  pub taproot_xonly_pubkey_hex : String
  pub escrow_input_utxos : List PsbtInput
  pub change_address : String
  pub musig_pubkey_compressed_hex : String

pub data Table : Type 0 where
  orderbook active_trades memory : Table

pub record MonitoringBond : Type 0 where
  pub bond_tx_hex : String
  pub trade_id_hex : String
  pub robot : Bytes
  pub requirements : BondRequirements
  pub table : Table

pub record TraderHappiness : Type 0 where
  pub maker_happy : Option Bool
  pub taker_happy : Option Bool
  pub escrow_ongoing : Bool

pub record EscrowCase : Type 0 where
  pub maker_id : String
  pub taker_id : String
  pub offer_id : String

pub record PayoutData : Type 0 where
  pub escrow_output_descriptor : String
  pub payout_address_maker : String
  pub payout_address_taker : String
  pub payout_amount_maker : ℕ
  pub payout_amount_taker : ℕ
  pub agg_musig_nonce : String
  pub aggregated_musig_pubkey_ctx_hex : String

pub record KeyspendContext : Type 0 where
  pub agg_sig : String
  pub agg_nonce : String
  pub agg_keyspend_pk : String
  pub keyspend_psbt : String

pub data PayoutProcessingResult : Type 0 where
  ready_psbt : PayoutResponse → PayoutProcessingResult
  not_ready lost_escrow deciding_escrow : PayoutProcessingResult

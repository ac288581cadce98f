-- ===== src/Api.antt =====
-- The requests and responses of the coordinator: communication/api.rs. Integers are `ℕ`, a `u64`
-- below 2^64; texts are `String`.
pub mod Validate
use taptrade_core.Prelude.{ℕ, String, Bool, Option, List}

pub record OfferRequest : Type 0 where
  pub robohash_hex : String
  pub amount_satoshi : ℕ
  pub is_buy_order : Bool
  pub bond_ratio : ℕ
  pub offer_duration_ts : ℕ

pub record BondRequirementResponse : Type 0 where
  pub bond_address : String
  pub locking_amount_sat : ℕ
  pub escrow_locking_input_amount_without_trade_sum : ℕ

pub record BondSubmissionRequest : Type 0 where
  pub robohash_hex : String
  pub signed_bond_hex : String
  pub payout_address : String
  pub taproot_pubkey_hex : String
  pub musig_pub_nonce_hex : String
  pub musig_pubkey_hex : String
  pub bdk_psbt_inputs_hex_csv : String
  pub client_change_address : String

pub record OfferActivatedResponse : Type 0 where
  pub offer_id_hex : String
  pub bond_locked_until_timestamp : ℕ

pub record OffersRequest : Type 0 where
  pub buy_offers : Bool
  pub amount_min_sat : ℕ
  pub amount_max_sat : ℕ

pub record PublicOffer : Type 0 where
  pub amount_sat : ℕ
  pub offer_id_hex : String
  pub bond_requirements : BondRequirementResponse

pub record PublicOffers : Type 0 where
  pub offers : Option (List PublicOffer)

pub record OfferTakenResponse : Type 0 where
  pub escrow_psbt_hex : String
  pub escrow_output_descriptor : String
  pub escrow_amount_maker_sat : ℕ
  pub escrow_amount_taker_sat : ℕ
  pub escrow_fee_sat_per_participant : ℕ

pub record OfferPsbtRequest : Type 0 where
  pub offer : PublicOffer
  pub trade_data : BondSubmissionRequest

pub record OfferTakenRequest : Type 0 where
  pub robohash_hex : String
  pub offer_id_hex : String

pub record PsbtSubmissionRequest : Type 0 where
  pub signed_psbt_hex : String
  pub offer_id_hex : String
  pub robohash_hex : String

pub record PayoutResponse : Type 0 where
  pub payout_psbt_hex : String
  pub agg_musig_nonce_hex : String
  pub agg_musig_pubkey_ctx_hex : String

pub record TradeObligationsUnsatisfied : Type 0 where
  pub robohash_hex : String
  pub offer_id_hex : String

pub record PayoutSignatureRequest : Type 0 where
  pub partial_sig_hex : String
  pub offer_id_hex : String
  pub robohash_hex : String

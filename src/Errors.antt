-- ===== src/Errors.antt =====
-- The errors of the coordinator: communication/handler_errors.rs, and the `anyhow::Error`s that the
-- database and the wallet return, told apart by where they come from; their texts are left out.
use taptrade_core.Prelude.{String}

-- `anyhow::Error`
pub data AnyError : Type 0 where
  row_not_found : AnyError
  invalid_hex : AnyError
  not_in_trade : AnyError
  already_submitted : AnyError
  invalid_table : AnyError
  empty_input_sum : AnyError
  invalid_input : AnyError
  invalid_bond_tx : AnyError
  external : String → AnyError

-- `AnyError` stands for the text that `e.to_string()` gives.
pub data BondError : Type 0 where
  invalid_bond : AnyError → BondError
  bond_not_found : BondError
  coordinator_error : AnyError → BondError

pub data FetchOffersError : Type 0 where
  no_offers_available : FetchOffersError
  database : AnyError → FetchOffersError

pub data FetchEscrowConfirmationError : Type 0 where
  not_found : FetchEscrowConfirmationError
  database : AnyError → FetchEscrowConfirmationError

pub data RequestError : Type 0 where
  database : AnyError → RequestError
  not_confirmed : RequestError
  coordinator_error : AnyError → RequestError
  not_found : RequestError
  psbt_already_submitted : RequestError
  psbt_invalid : AnyError → RequestError

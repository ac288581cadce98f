-- ===== src/Database/Writes.antt =====
-- The calls of `CoordinatorDB` that write, as values (database/mod.rs).
use taptrade_core.Prelude.{String, Bool, List}
use taptrade_core.Externals.{Externals}
use taptrade_core.Api.{
  OfferRequest, BondRequirementResponse, BondSubmissionRequest, OfferPsbtRequest,
  PsbtSubmissionRequest,
}
use taptrade_core.Types.{EscrowPsbt, MonitoringBond}
use taptrade_core.Database.Tables.{CoordinatorDb, init}
use taptrade_core.Database.Requests
use taptrade_core.Database.Orderbook
use taptrade_core.Database.Taken
use taptrade_core.Database.Trade
use taptrade_core.Database.Payout
use taptrade_core.Database.Invariant.{IsValid}
use taptrade_core.Database.Steps.{
  insert_new_maker_request-IsValid, move_offer_to_active-IsValid,
  add_taker_info_and_move_table-IsValid, remove_violating_bond-IsValid, confirm_bond_txids-IsValid,
  insert_signed_escrow_psbt-IsValid, set_trader_happy_field-IsValid,
  insert_keyspend_payout_psbt-IsValid, insert_partial_sig-IsValid, toggle_processing-IsValid,
  delete_complete_offer-IsValid, resolve_escrow-IsValid,
}

-- A call of a method that writes.
pub data Write : Type 0 where
  insert_new_maker_request : OfferRequest → BondRequirementResponse → Write
  move_offer_to_active : BondSubmissionRequest → String → String → Write
  add_taker_info_and_move_table : OfferPsbtRequest → EscrowPsbt → Write
  remove_violating_bond : MonitoringBond → Write
  confirm_bond_txids : List String → Write
  insert_signed_escrow_psbt : PsbtSubmissionRequest → Write
  set_trader_happy_field : String → String → Bool → Write
  insert_keyspend_payout_psbt : String → String → Write
  insert_partial_sig : String → String → String → Write
  toggle_processing : String → Write
  delete_complete_offer : String → Write
  resolve_escrow : String → String → Write

-- The empty database is well formed.
pub init-IsValid : IsValid init
init-IsValid = record {
  request_keys = tt;
  request_flags = tt;
  offer_keys = tt;
  offer_flags = tt;
  taken_keys = tt;
  taken_sound = tt;
}

module _ (x : Externals) where
  -- what a call leaves, whether it succeeds or fails
  unfoldable pub run_write : Write → CoordinatorDb → CoordinatorDb
  run_write (Write.insert_new_maker_request o b) db = (Requests.insert_new_maker_request x o b db).1
  run_write (Write.move_offer_to_active b i a) db = (Orderbook.move_offer_to_active x b i a db).1
  run_write (Write.add_taker_info_and_move_table i e) db =
      (Taken.add_taker_info_and_move_table x i e db).1
  run_write (Write.remove_violating_bond b) db = (Orderbook.remove_violating_bond b db).1
  run_write (Write.confirm_bond_txids ts) db = (Taken.confirm_bond_txids ts db).1
  run_write (Write.insert_signed_escrow_psbt p) db = (Taken.insert_signed_escrow_psbt x p db).1
  run_write (Write.set_trader_happy_field i r h) db = (Trade.set_trader_happy_field x i r h db).1
  run_write (Write.insert_keyspend_payout_psbt i p) db =
      (Payout.insert_keyspend_payout_psbt i p db).1
  run_write (Write.insert_partial_sig s i r) db = (Payout.insert_partial_sig x s i r db).1
  run_write (Write.toggle_processing i) db = (Trade.toggle_processing i db).1
  run_write (Write.delete_complete_offer i) db = (Trade.delete_complete_offer i db).1
  run_write (Write.resolve_escrow i w) db = (Trade.resolve_escrow i w db).1

  -- Every method that writes keeps the database well formed, also when it fails half way.
  pub run_write-IsValid : (w : Write) (db : CoordinatorDb) → IsValid db → IsValid (run_write w db)
  unfolding run_write
  run_write-IsValid (Write.insert_new_maker_request o b) = insert_new_maker_request-IsValid x o b
  run_write-IsValid (Write.move_offer_to_active b i a) = move_offer_to_active-IsValid x b i a
  run_write-IsValid (Write.add_taker_info_and_move_table i e) =
      add_taker_info_and_move_table-IsValid x i e
  run_write-IsValid (Write.remove_violating_bond b) = remove_violating_bond-IsValid b
  run_write-IsValid (Write.confirm_bond_txids ts) = confirm_bond_txids-IsValid ts
  run_write-IsValid (Write.insert_signed_escrow_psbt p) = insert_signed_escrow_psbt-IsValid x p
  run_write-IsValid (Write.set_trader_happy_field i r h) = set_trader_happy_field-IsValid x i r h
  run_write-IsValid (Write.insert_keyspend_payout_psbt i p) =
      insert_keyspend_payout_psbt-IsValid i p
  run_write-IsValid (Write.insert_partial_sig s i r) = insert_partial_sig-IsValid x s i r
  run_write-IsValid (Write.toggle_processing i) = toggle_processing-IsValid i
  run_write-IsValid (Write.delete_complete_offer i) = delete_complete_offer-IsValid i
  run_write-IsValid (Write.resolve_escrow i w) = resolve_escrow-IsValid i w

-- ===== src/Protocol/Allowed.antt =====
-- The writes that the protocol of an offer allows (database/mod.rs).
use taptrade_core.Prelude.{String, ◌≡◌, true, is_some, some}
use taptrade_core.Database.Tables.{TakenOffer, CoordinatorDb}
use taptrade_core.Database.Writes.{Write}
use taptrade_core.Database.Bounds.{Fits}
use taptrade_core.Protocol.Updates.{row_of}
use taptrade_core.Protocol.Writes.{Confirmed, Disputed, Payable}

-- Both traders' signatures for the payout are stored.
pub record Finished (offer_id : String) (db : CoordinatorDb) : Type 0 where
  pub row : TakenOffer
  pub found : row_of offer_id db ≡ some row
  pub maker : is_some row.musig_partial_sig_hex_maker ≡ true
  pub taker : is_some row.musig_partial_sig_hex_taker ≡ true

-- What has to hold before a write for it to be a step of the protocol, `New` being what is known of
-- the ids of new offers.
abbrev pub Allowed : (String → CoordinatorDb → Type 0) → Write → CoordinatorDb → Type 0
Allowed New (Write.insert_new_maker_request o b) db = Fits (Write.insert_new_maker_request o b)
Allowed New (Write.move_offer_to_active b id address) db = New id db
Allowed New (Write.set_trader_happy_field other robohash happy) db = Confirmed other db
Allowed New (Write.insert_partial_sig sig other robohash) db = Confirmed other db
Allowed New (Write.insert_keyspend_payout_psbt other psbt) db = Payable other db
Allowed New (Write.delete_complete_offer other) db = Finished other db
Allowed New (Write.resolve_escrow other winner) db = Disputed other db
Allowed New _ db = Unit {0}

pub Allowed-Fits :
    (New : String → CoordinatorDb → Type 0) (w : Write) (db : CoordinatorDb)
    → Allowed New w db
    → Fits w
Allowed-Fits New (Write.insert_new_maker_request o b) db a = a
Allowed-Fits New (Write.move_offer_to_active b i address) db a = tt
Allowed-Fits New (Write.add_taker_info_and_move_table q e) db a = tt
Allowed-Fits New (Write.remove_violating_bond b) db a = tt
Allowed-Fits New (Write.confirm_bond_txids ts) db a = tt
Allowed-Fits New (Write.insert_signed_escrow_psbt p) db a = tt
Allowed-Fits New (Write.set_trader_happy_field i r h) db a = tt
Allowed-Fits New (Write.insert_keyspend_payout_psbt i p) db a = tt
Allowed-Fits New (Write.insert_partial_sig s i r) db a = tt
Allowed-Fits New (Write.toggle_processing i) db a = tt
Allowed-Fits New (Write.delete_complete_offer i) db a = tt
Allowed-Fits New (Write.resolve_escrow i w) db a = tt

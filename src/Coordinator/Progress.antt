-- ===== src/Coordinator/Progress.antt =====
-- That a trade that both traders are happy with gets its payout psbt (coordinator/mod.rs,
-- `handle_final_payout`).
use taptrade_core.Prelude.{String, ◌≡◌, refl, ◌∙◌, ap, none, some}
use mathlib.Core.Option
use taptrade_core.Prelude.Result.{ok}
use taptrade_core.Externals.{Externals}
use taptrade_core.Node.{Node}
use taptrade_core.Api.{OfferTakenRequest}
use taptrade_core.Types.{PayoutData}
use taptrade_core.Sql.{fetch_optional}
use taptrade_core.Database.Tables.{CoordinatorDb, TakenOffer}
use taptrade_core.Database.Taken.{offer_is, update_taken}
use taptrade_core.Database.Trade.{fetch_trader_happiness, toggle, toggle_processing}
use taptrade_core.Database.Payout.{
  set_payout_psbt, insert_keyspend_payout_psbt, fetch_keyspend_payout_psbt, payout_data,
  fetch_payout_data,
}
use taptrade_core.Database.Once.{KeepsTraders, fetch-update_taken}
use taptrade_core.Wallet.Payout.{assemble_keyspend_payout_psbt}
use taptrade_core.Coordinator.State.{Coordinator}
use taptrade_core.Coordinator.Trades.{payout_response, handle_final_payout, keyspend_payout}

-- the row after a payout psbt has been assembled for it
abbrev pub assembled : String → TakenOffer → TakenOffer
assembled psbt r = toggle (set_payout_psbt psbt (toggle r))

-- the database after a payout psbt has been assembled under the `processing` flag
abbrev assembled_db : String → String → CoordinatorDb → CoordinatorDb
assembled_db offer_id psbt db = update_taken (offer_is offer_id) toggle (
    update_taken (offer_is offer_id) (set_payout_psbt psbt)
      (update_taken (offer_is offer_id) toggle db))

-- the coordinator then
abbrev pub assembled_for : String → String → Coordinator → Coordinator
assembled_for offer_id psbt c = record c { db = assembled_db offer_id psbt c.db }

toggle-KeepsTraders : KeepsTraders toggle
toggle-KeepsTraders = record {
  same_offer = λ r. refl;
  same_maker = λ r. refl;
  same_taker = λ r. refl;
}

set_payout-KeepsTraders : (psbt : String) → KeepsTraders (set_payout_psbt psbt)
set_payout-KeepsTraders psbt = record {
  same_offer = λ r. refl;
  same_maker = λ r. refl;
  same_taker = λ r. refl;
}

module _ (offer_id psbt : String) (db : CoordinatorDb) {row : TakenOffer} where
  fetch_toggled :
      fetch_optional (offer_is offer_id) db.taken_offers ≡ some row
      → fetch_optional (offer_is offer_id) (update_taken (offer_is offer_id) toggle db).taken_offers
        ≡ some (toggle row)
  fetch_toggled found =
      fetch-update_taken offer_id toggle db toggle-KeepsTraders ∙ ap (Option.map toggle) found

  fetch_stored :
      fetch_optional (offer_is offer_id) db.taken_offers ≡ some row
      → fetch_optional
          (offer_is offer_id)
          (update_taken (offer_is offer_id) (set_payout_psbt psbt) db).taken_offers
        ≡ some (set_payout_psbt psbt row)
  fetch_stored found =
      fetch-update_taken offer_id (set_payout_psbt psbt) db (set_payout-KeepsTraders psbt)
      ∙ ap (Option.map (set_payout_psbt psbt)) found

-- the database while the payout psbt is assembled
abbrev toggled_db : String → CoordinatorDb → CoordinatorDb
toggled_db offer_id db = update_taken (offer_is offer_id) toggle db

abbrev stored_db : String → String → CoordinatorDb → CoordinatorDb
stored_db offer_id psbt db = update_taken (offer_is offer_id) (set_payout_psbt psbt) db

fetch_assembling :
    (offer_id psbt : String) (db : CoordinatorDb) {row : TakenOffer}
    → fetch_optional (offer_is offer_id) db.taken_offers ≡ some row
    → fetch_optional
        (offer_is offer_id)
        (stored_db offer_id psbt (toggled_db offer_id db)).taken_offers
      ≡ some (set_payout_psbt psbt (toggle row))
fetch_assembling offer_id psbt db found =
    fetch_stored offer_id psbt (toggled_db offer_id db) (fetch_toggled offer_id psbt db found)

fetch_assembled :
    (offer_id psbt : String) (db : CoordinatorDb) {row : TakenOffer}
    → fetch_optional (offer_is offer_id) db.taken_offers ≡ some row
    → fetch_optional (offer_is offer_id) (assembled_db offer_id psbt db).taken_offers
      ≡ some (assembled psbt row)
fetch_assembled offer_id psbt db found =
    fetch_toggled offer_id psbt (stored_db offer_id psbt (toggled_db offer_id db))
      (fetch_assembling offer_id psbt db found)

module _ (x : Externals) (n : Node) where
  poll_happy :
      (q : OfferTakenRequest) (c : Coordinator) {row : TakenOffer}
      → fetch_optional (offer_is q.offer_id_hex) c.db.taken_offers ≡ some row
      → row.maker_happy ≡ some 1
      → row.taker_happy ≡ some 1
      → handle_final_payout x n q c ≡ keyspend_payout x n q.offer_id_hex c
  unfolding handle_final_payout fetch_trader_happiness
  poll_happy q c found maker taker = rw (found, maker, taker) refl

  -- the payout of a trade that is stored with its psbt is handed out as it is
  payout_stored :
      (offer_id : String) (c : Coordinator) (psbt : String) {row : TakenOffer} {payout : PayoutData}
      → fetch_optional (offer_is offer_id) c.db.taken_offers ≡ some row
      → row.payout_transaction_psbt_hex ≡ some psbt
      → payout_data x row ≡ ok payout
      → keyspend_payout x n offer_id c ≡ (ok (payout_response psbt payout), c)
  unfolding keyspend_payout fetch_payout_data fetch_keyspend_payout_psbt
  payout_stored offer_id c psbt found stored parsed = rw (found, parsed) (rw (found, stored) refl)

  payout_assembles :
      (offer_id : String) (c : Coordinator) (psbt : String) {row : TakenOffer} {payout : PayoutData}
      → fetch_optional (offer_is offer_id) c.db.taken_offers ≡ some row
      → row.payout_transaction_psbt_hex ≡ none
      → row.processing ≡ 0
      → payout_data x row ≡ ok payout
      → assemble_keyspend_payout_psbt n payout ≡ ok psbt
      → keyspend_payout x n offer_id c
        ≡ (ok (payout_response psbt payout), assembled_for offer_id psbt c)
  unfolding keyspend_payout fetch_payout_data fetch_keyspend_payout_psbt toggle_processing
      insert_keyspend_payout_psbt
  payout_assembles offer_id c psbt found stored free parsed built =
      rw (found, parsed)
        (rw (found, stored)
          (rw (found, free) (rw built (rw (fetch_assembling offer_id psbt c.db found) refl))))

module _ (x : Externals) (n : Node) where
  -- When both traders of a trade are happy, no payout psbt is stored, `processing` is not set, and
  -- the trade's payout data can be read and the psbt assembled, a poll assembles the psbt, stores it
  -- and hands it out. From then on, in any state of the coordinator with the row that this poll has
  -- left, a poll for the trade hands out that psbt and changes nothing, whichever robot asks and
  -- whatever the wallet and the node would now assemble.
  pub handle_final_payout-assembles :
      (q : OfferTakenRequest) (c : Coordinator) (psbt : String) {row : TakenOffer}
      {payout : PayoutData}
      → fetch_optional (offer_is q.offer_id_hex) c.db.taken_offers ≡ some row
      → row.maker_happy ≡ some 1
      → row.taker_happy ≡ some 1
      → row.payout_transaction_psbt_hex ≡ none
      → row.processing ≡ 0
      → payout_data x row ≡ ok payout
      → assemble_keyspend_payout_psbt n payout ≡ ok psbt
      → (handle_final_payout x n q c
          ≡ (ok (payout_response psbt payout), assembled_for q.offer_id_hex psbt c))
        × (fetch_optional
              (offer_is q.offer_id_hex)
              (assembled_for q.offer_id_hex psbt c).db.taken_offers
            ≡ some (assembled psbt row))
        × ((later_node : Node) (later : String) (c' : Coordinator)
            → fetch_optional (offer_is q.offer_id_hex) c'.db.taken_offers
              ≡ some (assembled psbt row)
            → handle_final_payout x later_node (record q { robohash_hex = later }) c'
              ≡ (ok (payout_response psbt payout), c'))
  handle_final_payout-assembles q c psbt {row} found maker taker stored free parsed built = (
    poll_happy x n q c found maker taker
        ∙ payout_assembles x n q.offer_id_hex c psbt found stored free parsed built,
    fetch_assembled q.offer_id_hex psbt c.db found,
    λ n' later c' found'.
        poll_happy x n' (record q { robohash_hex = later }) c' found' maker taker
        ∙ payout_stored x n' q.offer_id_hex c' psbt found' refl parsed,
  )

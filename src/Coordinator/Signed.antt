-- ===== src/Coordinator/Signed.antt =====
-- The second signature under an escrow transaction (coordinator/mod.rs,
-- `handle_signed_escrow_psbt`).
use taptrade_core.Prelude.{String, ◌≡◌, refl, ◌∙◌, ap, Bool, true, false, not, none, some, ◌∷◌}
use mathlib.Core.Option
use taptrade_core.Prelude.Result.{Result, ok}
use taptrade_core.Errors.{AnyError}
use taptrade_core.Externals.{Externals}
use taptrade_core.Node.{Node}
use taptrade_core.Api.{PsbtSubmissionRequest}
use taptrade_core.Wallet.Escrow.{combine_and_broadcast_escrow_psbt}
use taptrade_core.Sql.{fetch_optional}
use taptrade_core.Database.Tables.{CoordinatorDb, TakenOffer}
use taptrade_core.Database.Taken.{
  offer_is, update_taken, is_valid_robohash_in_table, is_maker_in_taken_offers,
  signed_escrow_psbt_of, set_signed_escrow_psbt, insert_signed_escrow_psbt,
  fetch_both_signed_escrow_psbts,
}
use taptrade_core.Database.Once.{fetch-update_taken, set_signed-KeepsTraders}
use taptrade_core.Coordinator.State.{Coordinator, Broadcast}
use taptrade_core.Coordinator.Trades.{handle_signed_escrow_psbt}

module _ (x : Externals) (n : Node) where
  -- the two psbts are combined in the order of the columns
  abbrev pub combined : Bool → String → String → Result AnyError String
  combined true mine other = combine_and_broadcast_escrow_psbt x n mine other
  combined false mine other = combine_and_broadcast_escrow_psbt x n other mine

  abbrev pub signed_and_sent : Bool → PsbtSubmissionRequest → String → Coordinator → Coordinator
  signed_and_sent is_maker p tx c = record {
    db =
        update_taken (offer_is p.offer_id_hex) (set_signed_escrow_psbt is_maker p.signed_psbt_hex)
          c.db;
    broadcasts = Broadcast.escrow tx ∷ c.broadcasts;
  }

  fetch_signed :
      (is_maker : Bool) (p : PsbtSubmissionRequest) (db : CoordinatorDb) {row : TakenOffer}
      → fetch_optional (offer_is p.offer_id_hex) db.taken_offers ≡ some row
      → fetch_optional
          (offer_is p.offer_id_hex)
          (update_taken
            (offer_is p.offer_id_hex)
            (set_signed_escrow_psbt is_maker p.signed_psbt_hex)
            db).taken_offers
        ≡ some (set_signed_escrow_psbt is_maker p.signed_psbt_hex row)
  fetch_signed is_maker p db found =
      fetch-update_taken p.offer_id_hex (set_signed_escrow_psbt is_maker p.signed_psbt_hex) db
        (set_signed-KeepsTraders is_maker p.signed_psbt_hex)
      ∙ ap (Option.map (set_signed_escrow_psbt is_maker p.signed_psbt_hex)) found

  -- When a trader of the offer, whose signed psbt is not stored, hands in one, the other's is stored, and the two can be combined, completed and broadcast, the request succeeds,
  -- whichever of the two signs last: the psbt is stored in the trader's column, and the transaction
  -- combined from the two has gone out.
  pub handle_signed_escrow_psbt-completes :
      (is_maker : Bool) (p : PsbtSubmissionRequest) (c : Coordinator) (other tx : String)
      {row : TakenOffer}
      → fetch_optional (offer_is p.offer_id_hex) c.db.taken_offers ≡ some row
      → is_valid_robohash_in_table x p.robohash_hex p.offer_id_hex c.db ≡ ok true
      → is_maker_in_taken_offers x p.offer_id_hex p.robohash_hex c.db ≡ ok is_maker
      → signed_escrow_psbt_of is_maker row ≡ none
      → signed_escrow_psbt_of (not is_maker) row ≡ some other
      → combined is_maker p.signed_psbt_hex other ≡ ok tx
      → handle_signed_escrow_psbt x n p c ≡ (ok tt, signed_and_sent is_maker p tx c)
  unfolding handle_signed_escrow_psbt insert_signed_escrow_psbt fetch_both_signed_escrow_psbts
  handle_signed_escrow_psbt-completes true p c other tx found trades maker mine his out =
      rw trades
        (rw (maker, found) (rw mine (rw (fetch_signed true p c.db found) (rw his (rw out refl)))))
  handle_signed_escrow_psbt-completes false p c other tx found trades maker mine his out =
      rw trades
        (rw (maker, found) (rw mine (rw (fetch_signed false p c.db found) (rw his (rw out refl)))))

-- ===== src/Database/Taken.antt =====
-- Table `taken_offers` up to the confirmed escrow transaction (database/mod.rs).
use taptrade_core.Prelude.{
  String, Bool, true, false, ◌&&◌, ◌||◌, ◌==◌, not, bytes_eq, str_eq, Bytes, Option, none, some,
  is_some, List, [], ◌∷◌, map, if◌then◌else◌,
}
use mathlib.Core.Option
use taptrade_core.Prelude.Result.{
  Result, ok, err, Action, pure, lift, reads, modify, and_then, ◌>>=◌, ◌>>◌,
}
use taptrade_core.Errors.{AnyError, not_in_trade}
use taptrade_core.Externals.{Externals}
use taptrade_core.Api.{OfferPsbtRequest, PsbtSubmissionRequest}
use taptrade_core.Types.{EscrowPsbt}
use taptrade_core.Sql.{select, fetch_one, fetch_optional, update, insert_or_replace}
use taptrade_core.Database.Tables.{TakenOffer, CoordinatorDb, bool_to_sql_int}
use taptrade_core.Database.Requests.{decode_hex}
use taptrade_core.Database.Orderbook.{
  AwaitingTakerOffer, fetch_and_delete_offer_from_public_offers_table,
}

-- WHERE offer_id = ?
abbrev pub offer_is : String → TakenOffer → Bool
offer_is offer_id r = str_eq r.offer_id offer_id

-- WHERE escrow_psbt_txid = ?
abbrev pub txid_is : String → TakenOffer → Bool
txid_is txid r = str_eq r.escrow_psbt_txid txid

-- UPDATE taken_offers SET f WHERE test
abbrev pub update_taken :
    (TakenOffer → Bool) → (TakenOffer → TakenOffer) → CoordinatorDb → CoordinatorDb
update_taken test f db = record db { taken_offers = update test f db.taken_offers }

-- the row that `add_taker_info_and_move_table` binds
abbrev pub taken_row : AwaitingTakerOffer → Bytes → OfferPsbtRequest → EscrowPsbt → TakenOffer
taken_row o robohash_taker info escrow = record {
  offer_id = o.offer_id;
  robohash_maker = o.robohash_maker;
  robohash_taker = robohash_taker;
  is_buy_order = bool_to_sql_int o.is_buy_order;
  amount_sat = o.amount_sat;
  bond_ratio = o.bond_ratio;
  offer_duration_ts = o.offer_duration_ts;
  bond_address_maker = o.bond_address_maker;
  bond_address_taker = info.offer.bond_requirements.bond_address;
  bond_amount_sat = o.bond_amount_sat;
  bond_tx_hex_maker = o.bond_tx_hex_maker;
  bond_tx_hex_taker = info.trade_data.signed_bond_hex;
  payout_address_maker = o.payout_address_maker;
  taproot_xonly_pubkey_hex_maker = o.taproot_pubkey_hex_maker;
  payout_address_taker = info.trade_data.payout_address;
  taproot_xonly_pubkey_hex_taker = info.trade_data.taproot_pubkey_hex;
  musig_pub_nonce_hex_maker = o.musig_pub_nonce_hex_maker;
  musig_pubkey_compressed_hex_maker = o.musig_pubkey_hex_maker;
  musig_pub_nonce_hex_taker = info.trade_data.musig_pub_nonce_hex;
  musig_pubkey_compressed_hex_taker = info.trade_data.musig_pubkey_hex;
  musig_partial_sig_hex_maker = none;
  musig_partial_sig_hex_taker = none;
  escrow_psbt_hex = escrow.escrow_psbt_hex;
  escrow_psbt_txid = escrow.escrow_tx_txid;
  signed_escrow_psbt_hex_maker = none;
  signed_escrow_psbt_hex_taker = none;
  escrow_psbt_is_confirmed = 0;
  maker_happy = none;
  taker_happy = none;
  escrow_ongoing = 0;
  escrow_winner_robohash = none;
  escrow_taproot_pk_coordinator = escrow.coordinator_xonly_escrow_pk;
  escrow_amount_maker_sat = escrow.escrow_amount_maker_sat;
  escrow_amount_taker_sat = escrow.escrow_amount_taker_sat;
  escrow_fee_per_participant = escrow.escrow_fee_sat_per_participant;
  escrow_output_descriptor = escrow.escrow_output_descriptor;
  payout_transaction_psbt_hex = none;
  processing = 0;
}

abbrev pub escrow_psbt : TakenOffer → EscrowPsbt
escrow_psbt r = record {
  escrow_psbt_hex = r.escrow_psbt_hex;
  escrow_tx_txid = r.escrow_psbt_txid;
  escrow_output_descriptor = r.escrow_output_descriptor;
  coordinator_xonly_escrow_pk = r.escrow_taproot_pk_coordinator;
  escrow_amount_maker_sat = r.escrow_amount_maker_sat;
  escrow_amount_taker_sat = r.escrow_amount_taker_sat;
  escrow_fee_sat_per_participant = r.escrow_fee_per_participant;
}

unfoldable pub fetch_escrow_output_information :
    String → CoordinatorDb → Result AnyError (Option EscrowPsbt)
fetch_escrow_output_information offer_id_hex db =
    ok (Option.map escrow_psbt (fetch_optional (offer_is offer_id_hex) db.taken_offers))

abbrev pub is_unconfirmed : TakenOffer → Bool
is_unconfirmed r = r.escrow_psbt_is_confirmed == 0

abbrev pub txid : TakenOffer → String
txid r = r.escrow_psbt_txid

unfoldable pub fetch_unconfirmed_escrow_txids : CoordinatorDb → Result AnyError (List String)
fetch_unconfirmed_escrow_txids db = ok (map txid (select is_unconfirmed db.taken_offers))

abbrev pub set_confirmed : TakenOffer → TakenOffer
set_confirmed r = record r { escrow_psbt_is_confirmed = 1 }

unfoldable pub confirm_bond_txids : List String → Action CoordinatorDb AnyError (Unit {0})
confirm_bond_txids [] = pure tt
confirm_bond_txids (t ∷ confirmed_txids) =
    let rest = confirm_bond_txids confirmed_txids in
    modify (update_taken (txid_is t) set_confirmed) >> rest

unfoldable pub get_txid_confirmation_status : String → CoordinatorDb → Result AnyError Bool
get_txid_confirmation_status t db =
    and_then (fetch_one (txid_is t) db.taken_offers) λ r. ok (r.escrow_psbt_is_confirmed == 1)

unfoldable pub fetch_escrow_tx_confirmation_status : String → CoordinatorDb → Result AnyError Bool
fetch_escrow_tx_confirmation_status offer_id db =
    and_then (fetch_one (offer_is offer_id) db.taken_offers)
      λ r. ok (r.escrow_psbt_is_confirmed == 1)

abbrev pub both : Option String → Option String → Option (String × String)
both (some maker) (some taker) = some (maker, taker)
both (some maker) none = none
both none _ = none

unfoldable pub fetch_both_signed_escrow_psbts :
    String → CoordinatorDb → Result AnyError (Option (String × String))
fetch_both_signed_escrow_psbts offer_id_hex db =
    and_then (fetch_one (offer_is offer_id_hex) db.taken_offers)
      λ row. ok (both row.signed_escrow_psbt_hex_maker row.signed_escrow_psbt_hex_taker)

-- WHERE (robohash_maker = ? OR robohash_taker = ?) AND offer_id = ?
abbrev pub trades_in : Bytes → String → TakenOffer → Bool
trades_in robohash offer_id r =
    (bytes_eq r.robohash_maker robohash || bytes_eq r.robohash_taker robohash)
    && offer_is offer_id r

-- the column of the maker (`true`) or of the taker
abbrev pub signed_escrow_psbt_of : Bool → TakenOffer → Option String
signed_escrow_psbt_of true r = r.signed_escrow_psbt_hex_maker
signed_escrow_psbt_of false r = r.signed_escrow_psbt_hex_taker

abbrev pub set_signed_escrow_psbt : Bool → String → TakenOffer → TakenOffer
set_signed_escrow_psbt true psbt r = record r { signed_escrow_psbt_hex_maker = some psbt }
set_signed_escrow_psbt false psbt r = record r { signed_escrow_psbt_hex_taker = some psbt }

module _ (x : Externals) where
  unfoldable pub add_taker_info_and_move_table :
      OfferPsbtRequest → EscrowPsbt → Action CoordinatorDb AnyError (Unit {0})
  unfolding fetch_and_delete_offer_from_public_offers_table
  add_taker_info_and_move_table trade_and_taker_info escrow_tx_data = do
    public_offer ←
        fetch_and_delete_offer_from_public_offers_table x trade_and_taker_info.offer.offer_id_hex
    robohash_taker ← lift (decode_hex x trade_and_taker_info.trade_data.robohash_hex)
    modify (λ db. record db {
      taken_offers =
          insert_or_replace (offer_is public_offer.offer_id)
            (taken_row public_offer robohash_taker trade_and_taker_info escrow_tx_data)
            db.taken_offers;
    })

  unfoldable pub is_valid_robohash_in_table : String → String → CoordinatorDb → Result AnyError Bool
  is_valid_robohash_in_table robohash_hex offer_id db =
      and_then (decode_hex x robohash_hex)
        λ robohash. ok (is_some (fetch_optional (trades_in robohash offer_id) db.taken_offers))

  unfoldable pub is_maker_in_taken_offers : String → String → CoordinatorDb → Result AnyError Bool
  is_maker_in_taken_offers offer_id robohash_hex db =
      and_then (decode_hex x robohash_hex) λ robohash_bytes.
        and_then (fetch_one (offer_is offer_id) db.taken_offers) λ row.
          let is_maker = bytes_eq row.robohash_maker robohash_bytes in
          let is_taker = bytes_eq row.robohash_taker robohash_bytes in
          if not is_maker && not is_taker then err not_in_trade else ok is_maker

  unfoldable pub insert_signed_escrow_psbt :
      PsbtSubmissionRequest → Action CoordinatorDb AnyError Bool
  unfolding is_maker_in_taken_offers
  insert_signed_escrow_psbt signed = do
    is_maker ← reads (is_maker_in_taken_offers signed.offer_id_hex signed.robohash_hex)
    status ← reads (λ db. fetch_one (offer_is signed.offer_id_hex) db.taken_offers)
    if is_some (signed_escrow_psbt_of is_maker status) then pure false else (do
      modify (
          update_taken (offer_is signed.offer_id_hex)
            (set_signed_escrow_psbt is_maker signed.signed_psbt_hex))
      pure true)

-- ===== src/Database/Payout.antt =====
-- The amounts of a trade, and the data of the escrow and the payout transaction (database/mod.rs).
use taptrade_core.Prelude.{
  ℕ, String, Bool, true, false, ◌==◌, Option, none, some, is_some, if◌then◌else◌,
}
use taptrade_core.Prelude.Result.{Result, ok, ok_or, Action, fail, reads, modify, and_then, ◌>>=◌}
use taptrade_core.Prelude.Word.{add_u64}
use taptrade_core.Errors.{AnyError, already_submitted, external}
use taptrade_core.Externals.{Externals}
use taptrade_core.Types.{EscrowPsbtConstructionData, PayoutData, KeyspendContext}
use taptrade_core.Musig.{new_from_strings, from_hex_str}
use taptrade_core.Wallet.Inputs.{csv_hex_to_bdk_input}
use taptrade_core.Sql.{fetch_one}
use taptrade_core.Database.Tables.{TakenOffer, ActiveMakerOffer, CoordinatorDb}
use taptrade_core.Database.Requests.{get_int}
use taptrade_core.Database.Orderbook
use taptrade_core.Database.Taken.{offer_is, update_taken, is_maker_in_taken_offers}

-- what each trader puts into the escrow output, and its half of the coordinator's fee
abbrev pub EscrowAmounts : Type 0
EscrowAmounts = ℕ × ℕ × ℕ

-- `if !is_buy_order { (sum, bond) } else { (bond, sum) }`
abbrev pub escrow_split : Bool → ℕ → ℕ → ℕ → EscrowAmounts
escrow_split false sum bond fee = (sum, bond, fee)
escrow_split true sum bond fee = (bond, sum, fee)

abbrev pub set_payout_psbt : String → TakenOffer → TakenOffer
set_payout_psbt psbt r = record r { payout_transaction_psbt_hex = some psbt }

unfoldable pub insert_keyspend_payout_psbt :
    String → String → Action CoordinatorDb AnyError (Unit {0})
insert_keyspend_payout_psbt offer_id_hex payout_psbt_hex =
    modify (update_taken (offer_is offer_id_hex) (set_payout_psbt payout_psbt_hex))

unfoldable pub fetch_keyspend_payout_psbt : String → CoordinatorDb → Result AnyError (Option String)
fetch_keyspend_payout_psbt offer_id_hex db =
    and_then (fetch_one (offer_is offer_id_hex) db.taken_offers)
      λ row. ok row.payout_transaction_psbt_hex

-- the column of the maker (`true`) or of the taker
abbrev pub partial_sig_of : Bool → TakenOffer → Option String
partial_sig_of true r = r.musig_partial_sig_hex_maker
partial_sig_of false r = r.musig_partial_sig_hex_taker

abbrev pub set_partial_sig : Bool → String → TakenOffer → TakenOffer
set_partial_sig true sig r = record r { musig_partial_sig_hex_maker = some sig }
set_partial_sig false sig r = record r { musig_partial_sig_hex_taker = some sig }

module _ (x : Externals) where
  -- of a row of the orderbook
  unfoldable pub escrow_amounts_of : ActiveMakerOffer → Result AnyError EscrowAmounts
  escrow_amounts_of row =
      let is_buy_order = get_int x row.is_buy_order == 1 in
      and_then (add_u64 row.amount_sat row.bond_amount_sat)
        λ sum. ok (escrow_split is_buy_order sum row.bond_amount_sat (x.escrow_fee row.amount_sat))

  unfoldable pub get_escrow_tx_amounts : String → CoordinatorDb → Result AnyError EscrowAmounts
  unfolding escrow_amounts_of
  get_escrow_tx_amounts trade_id db =
      and_then (fetch_one (Orderbook.offer_is trade_id) db.active_maker_offers) escrow_amounts_of

  unfoldable pub fetch_maker_escrow_psbt_data :
      String → CoordinatorDb → Result AnyError EscrowPsbtConstructionData
  fetch_maker_escrow_psbt_data trade_id db =
      and_then (fetch_one (Orderbook.offer_is trade_id) db.active_maker_offers) λ row.
        and_then (csv_hex_to_bdk_input x row.escrow_inputs_hex_maker_csv) λ deserialized_inputs.
          and_then (ok_or (x.parse_address row.change_address_maker) (external "address"))
            λ change_address. ok (record {
              taproot_xonly_pubkey_hex = row.taproot_pubkey_hex_maker;
              escrow_input_utxos = deserialized_inputs;
              change_address = change_address;
              musig_pubkey_compressed_hex = row.musig_pubkey_hex;
            })

  -- the amounts that the payout transaction pays to the maker and to the taker
  abbrev pub payout_amounts : TakenOffer → ℕ × ℕ
  payout_amounts r =
      if get_int x r.is_buy_order == 1
      then (r.escrow_amount_taker_sat, r.escrow_amount_maker_sat)
      else (r.escrow_amount_maker_sat, r.escrow_amount_taker_sat)

  abbrev pub payout_data : TakenOffer → Result AnyError PayoutData
  payout_data row =
      new_from_strings x row.escrow_output_descriptor row.payout_address_maker
        row.payout_address_taker (payout_amounts row).0 (payout_amounts row).1
        row.musig_pub_nonce_hex_maker row.musig_pub_nonce_hex_taker
        row.musig_pubkey_compressed_hex_maker row.musig_pubkey_compressed_hex_taker

  unfoldable pub fetch_payout_data : String → CoordinatorDb → Result AnyError PayoutData
  fetch_payout_data trade_id db =
      and_then (fetch_one (offer_is trade_id) db.taken_offers) payout_data

  unfoldable pub insert_partial_sig :
      String → String → String → Action CoordinatorDb AnyError (Unit {0})
  unfolding is_maker_in_taken_offers
  insert_partial_sig partial_sig_hex offer_id_hex robohash_hex = do
    is_maker ← reads (is_maker_in_taken_offers x offer_id_hex robohash_hex)
    status ← reads (λ db. fetch_one (offer_is offer_id_hex) db.taken_offers)
    if is_some (partial_sig_of is_maker status)
        then fail already_submitted
        else modify
            (update_taken (offer_is offer_id_hex) (set_partial_sig is_maker partial_sig_hex))

  -- `try_get::<String>` of a nullable column
  abbrev pub get_text : Option String → String
  get_text none = x.null_text
  get_text (some s) = s

  abbrev pub keyspend_context :
      TakenOffer → Option String → Option String → Result AnyError (Option KeyspendContext)
  keyspend_context row (some maker) (some taker) =
      and_then
        (from_hex_str x maker taker row.musig_pub_nonce_hex_maker row.musig_pub_nonce_hex_taker
          row.musig_pubkey_compressed_hex_maker row.musig_pubkey_compressed_hex_taker
          (get_text row.payout_transaction_psbt_hex) row.escrow_output_descriptor)
        λ context. ok (some context)
  keyspend_context row (some maker) none = ok none
  keyspend_context row none _ = ok none

  unfoldable pub fetch_keyspend_payout_information :
      String → CoordinatorDb → Result AnyError (Option KeyspendContext)
  fetch_keyspend_payout_information offer_id_hex db =
      and_then (fetch_one (offer_is offer_id_hex) db.taken_offers)
        λ row. keyspend_context row row.musig_partial_sig_hex_maker row.musig_partial_sig_hex_taker

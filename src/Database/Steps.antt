-- ===== src/Database/Steps.antt =====
-- Each method of `CoordinatorDB` that writes, and the invariant (database/mod.rs).
use taptrade_core.Prelude.{
  String, Bool, is_some, Bytes, Bool-cases, inl, inr, List, [], ◌∷◌, arith, refl,
}
use taptrade_core.Prelude.Result.{Action, Keeps, Keeps-bind, Keeps-resume}
use taptrade_core.Errors.{AnyError}
use taptrade_core.Externals.{Externals}
use taptrade_core.Api.{
  OfferRequest, BondRequirementResponse, BondSubmissionRequest, OfferPsbtRequest,
  PsbtSubmissionRequest,
}
use taptrade_core.Types.{EscrowPsbt, MonitoringBond, Table, orderbook, active_trades, memory}
use taptrade_core.Sql.{fetch_one}
use taptrade_core.Database.Tables.{CoordinatorDb, bool_to_sql_int}
use taptrade_core.Database.Orderbook
use taptrade_core.Database.Requests.{
  decode_hex, robohash_is, insert_new_maker_request, fetch_and_delete_offer_from_bond_table,
}
use taptrade_core.Database.Orderbook.{
  AwaitingTakerOffer, active_row, move_offer_to_active, remove_violating_bond, remove_from,
  fetch_and_delete_offer_from_public_offers_table,
}
use taptrade_core.Database.Taken.{
  offer_is, txid_is, set_confirmed, confirm_bond_txids, taken_row, add_taker_info_and_move_table,
  is_maker_in_taken_offers, signed_escrow_psbt_of, set_signed_escrow_psbt,
  insert_signed_escrow_psbt,
}
use taptrade_core.Database.Trade.{
  set_happy, set_ongoing, toggle, resolve, set_trader_happy_field, toggle_processing,
  delete_complete_offer, resolve_escrow,
}
use taptrade_core.Database.Payout.{
  insert_keyspend_payout_psbt, set_payout_psbt, set_partial_sig, partial_sig_of, insert_partial_sig,
}
use taptrade_core.Database.Invariant.{
  IsValid, IsSound, bool_to_sql_int-IsSqlFlag, insert_request-IsValid, delete_request-IsValid,
  insert_offer-IsValid, delete_offer-IsValid, insert_taken-IsValid, delete_taken-IsValid,
  update_taken-IsValid, set_confirmed-IsSound, toggle-IsSound, set_signed-IsSound, set_signed-key,
  set_partial-IsSound, set_partial-key, set_happy-IsSound, set_happy-key, set_ongoing-IsSound,
  resolve-IsSound, set_payout-IsSound,
}

abbrev pub KeepsValid : {A : Type 0} → Action CoordinatorDb AnyError A → Type 0
KeepsValid m = Keeps IsValid m

taken_row-IsSound :
    (o : AwaitingTakerOffer) (robohash : Bytes) (info : OfferPsbtRequest) (escrow : EscrowPsbt)
    → IsSound (taken_row o robohash info escrow)
taken_row-IsSound o robohash info escrow = record {
  buy_flag = bool_to_sql_int-IsSqlFlag o.is_buy_order;
  maker_flag = inl refl;
  taker_flag = inl refl;
  confirmed_bit = omega arith;
  ongoing_bit = omega arith;
  processing_bit = omega arith;
}

pub remove_violating_bond-IsValid :
    (bond : MonitoringBond) → KeepsValid (remove_violating_bond bond)
unfolding remove_violating_bond
remove_violating_bond-IsValid bond s v = by_table bond.table
  where
    by_table : (t : Table) → IsValid (remove_from t bond.trade_id_hex s).1
    by_table orderbook = delete_offer-IsValid v (Orderbook.offer_is bond.trade_id_hex)
    by_table active_trades = v
    by_table memory = v

pub confirm_bond_txids-IsValid : (txids : List String) → KeepsValid (confirm_bond_txids txids)
unfolding confirm_bond_txids
confirm_bond_txids-IsValid [] s v = v
confirm_bond_txids-IsValid (t ∷ txids) s v =
    confirm_bond_txids-IsValid txids _
      (update_taken-IsValid v (txid_is t) set_confirmed (λ r. refl) set_confirmed-IsSound)

pub toggle_processing-IsValid : (offer_id : String) → KeepsValid (toggle_processing offer_id)
unfolding toggle_processing
toggle_processing-IsValid offer_id s v =
    Keeps-resume IsValid (fetch_one (offer_is offer_id) s.taken_offers) s _ v
      (λ row s v. update_taken-IsValid v (offer_is offer_id) toggle (λ r. refl) toggle-IsSound)

pub delete_complete_offer-IsValid :
    (offer_id : String) → KeepsValid (delete_complete_offer offer_id)
unfolding delete_complete_offer
delete_complete_offer-IsValid offer_id s v = delete_taken-IsValid v (offer_is offer_id)

pub resolve_escrow-IsValid :
    (offer_id winner : String) → KeepsValid (resolve_escrow offer_id winner)
unfolding resolve_escrow
resolve_escrow-IsValid offer_id winner s v =
    update_taken-IsValid v (offer_is offer_id) (resolve winner) (λ r. refl) (resolve-IsSound winner)

pub insert_keyspend_payout_psbt-IsValid :
    (offer_id psbt : String) → KeepsValid (insert_keyspend_payout_psbt offer_id psbt)
unfolding insert_keyspend_payout_psbt
insert_keyspend_payout_psbt-IsValid offer_id psbt s v =
    update_taken-IsValid v (offer_is offer_id) (set_payout_psbt psbt) (λ r. refl)
      (set_payout-IsSound psbt)

module _ (x : Externals) where
  pub insert_new_maker_request-IsValid :
      (o : OfferRequest) (b : BondRequirementResponse) → KeepsValid (insert_new_maker_request x o b)
  unfolding insert_new_maker_request
  insert_new_maker_request-IsValid o b =
      Keeps-bind IsValid _ _ (λ s v. v) (λ robohash s v. insert_request-IsValid v robohash o b)

  fetch_and_delete-IsValid :
      (robohash_hex : String) → KeepsValid (fetch_and_delete_offer_from_bond_table x robohash_hex)
  unfolding fetch_and_delete_offer_from_bond_table
  fetch_and_delete-IsValid robohash_hex s v =
      Keeps-resume IsValid (decode_hex x robohash_hex) s _ v (λ robohash s v.
        Keeps-resume IsValid (fetch_one (robohash_is robohash) s.maker_requests) s _ v (λ row s v.
          Keeps-resume IsValid (decode_hex x robohash_hex) s _ v
            (λ again s v. delete_request-IsValid v (robohash_is again))))

  pub move_offer_to_active-IsValid :
      (bond : BondSubmissionRequest) (offer_id address : String)
      → KeepsValid (move_offer_to_active x bond offer_id address)
  unfolding move_offer_to_active
  move_offer_to_active-IsValid bond offer_id address =
      Keeps-bind IsValid (fetch_and_delete_offer_from_bond_table x bond.robohash_hex) _
        (fetch_and_delete-IsValid bond.robohash_hex)
        (λ info.
          Keeps-bind IsValid _ _ (λ s v. v)
            (λ robohash s v.
              insert_offer-IsValid v (active_row offer_id robohash info bond address)
                (bool_to_sql_int-IsSqlFlag info.is_buy_order)))

  fetch_and_delete_offer-IsValid :
      (offer_id_hex : String)
      → KeepsValid (fetch_and_delete_offer_from_public_offers_table x offer_id_hex)
  unfolding fetch_and_delete_offer_from_public_offers_table
  fetch_and_delete_offer-IsValid offer_id_hex s v =
      Keeps-resume IsValid (fetch_one (Orderbook.offer_is offer_id_hex) s.active_maker_offers) s _ v
        (λ row s v. delete_offer-IsValid v (Orderbook.offer_is offer_id_hex))

  pub add_taker_info_and_move_table-IsValid :
      (info : OfferPsbtRequest) (escrow : EscrowPsbt)
      → KeepsValid (add_taker_info_and_move_table x info escrow)
  unfolding add_taker_info_and_move_table
  add_taker_info_and_move_table-IsValid info escrow =
      Keeps-bind IsValid (fetch_and_delete_offer_from_public_offers_table x info.offer.offer_id_hex)
        _ (fetch_and_delete_offer-IsValid info.offer.offer_id_hex)
        (λ o.
          Keeps-bind IsValid _ _ (λ s v. v)
            (λ robohash s v.
              insert_taken-IsValid v (taken_row o robohash info escrow)
                (taken_row-IsSound o robohash info escrow)))

  pub insert_signed_escrow_psbt-IsValid :
      (signed : PsbtSubmissionRequest) → KeepsValid (insert_signed_escrow_psbt x signed)
  unfolding insert_signed_escrow_psbt
  insert_signed_escrow_psbt-IsValid signed s v =
      Keeps-resume IsValid (is_maker_in_taken_offers x signed.offer_id_hex signed.robohash_hex s) s
        _ v
        (λ is_maker s v.
          Keeps-resume IsValid (fetch_one (offer_is signed.offer_id_hex) s.taken_offers) s _ v
            (λ row s v.
              let written =
                update_taken-IsValid v (offer_is signed.offer_id_hex)
                  (set_signed_escrow_psbt is_maker signed.signed_psbt_hex)
                  (set_signed-key is_maker signed.signed_psbt_hex)
                  (set_signed-IsSound is_maker signed.signed_psbt_hex) in
              elim (Bool-cases (is_some (signed_escrow_psbt_of is_maker row))) [
                | inl e ↦ rw e v
                | inr e ↦ rw e written
              ]))

  pub insert_partial_sig-IsValid :
      (sig offer_id robohash_hex : String)
      → KeepsValid (insert_partial_sig x sig offer_id robohash_hex)
  unfolding insert_partial_sig
  insert_partial_sig-IsValid sig offer_id robohash_hex s v =
      Keeps-resume IsValid (is_maker_in_taken_offers x offer_id robohash_hex s) s _ v
        (λ is_maker s v.
          Keeps-resume IsValid (fetch_one (offer_is offer_id) s.taken_offers) s _ v (λ row s v.
            let written =
              update_taken-IsValid v (offer_is offer_id) (set_partial_sig is_maker sig)
                (set_partial-key is_maker sig) (set_partial-IsSound is_maker sig) in
            elim (Bool-cases (is_some (partial_sig_of is_maker row))) [
              | inl e ↦ rw e v
              | inr e ↦ rw e written
            ]))

  pub set_trader_happy_field-IsValid :
      (offer_id robohash : String) (is_happy : Bool)
      → KeepsValid (set_trader_happy_field x offer_id robohash is_happy)
  unfolding set_trader_happy_field
  set_trader_happy_field-IsValid offer_id robohash is_happy s v =
      Keeps-resume IsValid (is_maker_in_taken_offers x offer_id robohash s) s _ v (λ is_maker s v.
        let first =
          update_taken-IsValid v (offer_is offer_id) (set_happy is_maker (bool_to_sql_int is_happy))
            (set_happy-key is_maker (bool_to_sql_int is_happy))
            (λ r.
              set_happy-IsSound is_maker (bool_to_sql_int is_happy) r
                (bool_to_sql_int-IsSqlFlag is_happy)) in
        let second =
          update_taken-IsValid first (offer_is offer_id) set_ongoing (λ r. refl)
            set_ongoing-IsSound in
        elim (Bool-cases is_happy) [ inl e ↦ rw e (rw e at first) | inr e ↦ rw e (rw e at second) ])

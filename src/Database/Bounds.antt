-- ===== src/Database/Bounds.antt =====
-- The sizes of the offers in the tables (communication/api.rs, `validate`, and the columns
-- `amount_sat`, `bond_ratio` and `bond_amount_sat` of database/mod.rs).
use taptrade_core.Prelude.{ℕ, ◌*◌, ◌/◌, ◌≤◌, ◌≡◌, String, Bool, true, false, Option, List, [], ◌∷◌}
use taptrade_core.Prelude.Result.{Action, Keeps, Keeps-resume}
use taptrade_core.Errors.{AnyError}
use taptrade_core.Types.{MonitoringBond, Table, orderbook, active_trades, memory}
use taptrade_core.Sql.{fetch_one}
use taptrade_core.Sql.Rows.{All, All-update, All-delete}
use taptrade_core.Database.Tables.{MakerRequest, ActiveMakerOffer, TakenOffer, CoordinatorDb}
use taptrade_core.Database.Orderbook
use taptrade_core.Database.Orderbook.{
  active_row, awaiting_taker_offer, move_offer_to_active, remove_violating_bond, remove_from,
  fetch_and_delete_offer_from_public_offers_table,
}
use taptrade_core.Database.Taken.{
  offer_is, txid_is, set_confirmed, confirm_bond_txids, set_signed_escrow_psbt, update_taken,
}
use taptrade_core.Database.Trade.{
  set_happy, toggle, resolve, toggle_processing, delete_complete_offer, resolve_escrow,
}
use taptrade_core.Database.Payout.{insert_keyspend_payout_psbt, set_payout_psbt, set_partial_sig}
use taptrade_core.Database.Writes.{Write}

-- An amount that the API accepts, and the bond that it asks for that amount.
pub record IsSized (amount ratio bond : ℕ) : Type 0 where
  pub amount_low : 10000 ≤ amount
  pub amount_high : amount ≤ 20000000
  pub ratio_low : 2 ≤ ratio
  pub ratio_high : ratio ≤ 50
  pub bond_is : bond ≡ (ratio * amount) / 100

abbrev pub IsSizedRequest : MakerRequest → Type 0
IsSizedRequest r = IsSized r.amount_sat r.bond_ratio r.bond_amount_sat

abbrev pub IsSizedOffer : ActiveMakerOffer → Type 0
IsSizedOffer r = IsSized r.amount_sat r.bond_ratio r.bond_amount_sat

abbrev pub IsSizedTrade : TakenOffer → Type 0
IsSizedTrade r = IsSized r.amount_sat r.bond_ratio r.bond_amount_sat

-- every row of the three tables
pub record InBounds (db : CoordinatorDb) : Type 0 where
  pub requests : All IsSizedRequest db.maker_requests
  pub offers : All IsSizedOffer db.active_maker_offers
  pub trades : All IsSizedTrade db.taken_offers

abbrev pub KeepsBounds : {A : Type 0} → Action CoordinatorDb AnyError A → Type 0
KeepsBounds m = Keeps InBounds m

-- An update of trades that leaves their sizes alone.
pub update_taken-InBounds :
    (test : TakenOffer → Bool) (f : TakenOffer → TakenOffer) (db : CoordinatorDb)
    → ((r : TakenOffer) → IsSizedTrade r → IsSizedTrade (f r))
    → InBounds db
    → InBounds (update_taken test f db)
update_taken-InBounds test f db keep v = record {
  requests = v.requests;
  offers = v.offers;
  trades = All-update IsSizedTrade test f db.taken_offers keep v.trades;
}

pub remove_violating_bond-InBounds :
    (bond : MonitoringBond) → KeepsBounds (remove_violating_bond bond)
unfolding remove_violating_bond
remove_violating_bond-InBounds bond db v = by_table bond.table
  where
    by_table : (t : Table) → InBounds (remove_from t bond.trade_id_hex db).1
    by_table orderbook = record {
      requests = v.requests;
      offers = All-delete IsSizedOffer (Orderbook.offer_is bond.trade_id_hex) _ v.offers;
      trades = v.trades;
    }
    by_table active_trades = v
    by_table memory = v

pub confirm_bond_txids-InBounds : (txids : List String) → KeepsBounds (confirm_bond_txids txids)
unfolding confirm_bond_txids
confirm_bond_txids-InBounds [] db v = v
confirm_bond_txids-InBounds (t ∷ txids) db v =
    confirm_bond_txids-InBounds txids _
      (update_taken-InBounds (txid_is t) set_confirmed db (λ r p. p) v)

pub toggle_processing-InBounds : (offer_id : String) → KeepsBounds (toggle_processing offer_id)
unfolding toggle_processing
toggle_processing-InBounds offer_id db v =
    Keeps-resume InBounds (fetch_one (offer_is offer_id) db.taken_offers) db _ v
      (λ row s v. update_taken-InBounds (offer_is offer_id) toggle s (λ r p. p) v)

pub set_signed-IsSized :
    (b : Bool) (psbt : String) (r : TakenOffer)
    → IsSizedTrade r
    → IsSizedTrade (set_signed_escrow_psbt b psbt r)
set_signed-IsSized true psbt r p = p
set_signed-IsSized false psbt r p = p

pub set_partial-IsSized :
    (b : Bool) (sig : String) (r : TakenOffer)
    → IsSizedTrade r
    → IsSizedTrade (set_partial_sig b sig r)
set_partial-IsSized true sig r p = p
set_partial-IsSized false sig r p = p

pub set_happy-IsSized :
    (b : Bool) (v : Option ℕ) (r : TakenOffer) → IsSizedTrade r → IsSizedTrade (set_happy b v r)
set_happy-IsSized true v r p = p
set_happy-IsSized false v r p = p

pub delete_complete_offer-InBounds :
    (offer_id : String) → KeepsBounds (delete_complete_offer offer_id)
unfolding delete_complete_offer
delete_complete_offer-InBounds offer_id db v = record {
  requests = v.requests;
  offers = v.offers;
  trades = All-delete IsSizedTrade (offer_is offer_id) db.taken_offers v.trades;
}

pub resolve_escrow-InBounds :
    (offer_id winner : String) → KeepsBounds (resolve_escrow offer_id winner)
unfolding resolve_escrow
resolve_escrow-InBounds offer_id winner db =
    update_taken-InBounds (offer_is offer_id) (resolve winner) db (λ r p. p)

pub insert_keyspend_payout_psbt-InBounds :
    (offer_id psbt : String) → KeepsBounds (insert_keyspend_payout_psbt offer_id psbt)
unfolding insert_keyspend_payout_psbt
insert_keyspend_payout_psbt-InBounds offer_id psbt db =
    update_taken-InBounds (offer_is offer_id) (set_payout_psbt psbt) db (λ r p. p)

-- What is asked of a write: only a new request brings a size into the tables.
abbrev pub Fits : Write → Type 0
Fits (Write.insert_new_maker_request o b) =
    IsSized o.amount_satoshi o.bond_ratio b.locking_amount_sat
Fits _ = Unit {0}

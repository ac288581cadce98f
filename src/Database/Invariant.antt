-- ===== src/Database/Invariant.antt =====
-- What holds of the database between two statements of database/mod.rs, whichever methods have run.
use taptrade_core.Prelude.{
  ℕ, ◌≤◌, ◌≡◌, refl, ◌⊎◌, inl, inr, String, Bool, true, false, Option, none, some, arith, Bytes,
  bytes_eq, bytes_eq_iff, str_eq, str_eq_iff,
}
use taptrade_core.Api.{OfferRequest, BondRequirementResponse}
use taptrade_core.Sql.{delete, insert_or_replace}
use taptrade_core.Sql.Rows.{All, All-update, All-delete, All-insert}
use taptrade_core.Sql.Keys.{Distinct, delete-Distinct, update-Distinct, insert-Distinct}
use taptrade_core.Database.Tables.{
  MakerRequest, ActiveMakerOffer, TakenOffer, CoordinatorDb, bool_to_sql_int,
}
use taptrade_core.Database.Requests.{robohash_is, request_row}
use taptrade_core.Database.Orderbook
use taptrade_core.Database.Orderbook.{
  active_row, move_offer_to_active, remove_violating_bond, remove_from,
  fetch_and_delete_offer_from_public_offers_table,
}
use taptrade_core.Database.Taken.{offer_is, update_taken, set_confirmed, set_signed_escrow_psbt}
use taptrade_core.Database.Trade.{set_happy, set_ongoing, toggle, resolve}
use taptrade_core.Database.Payout.{set_payout_psbt, set_partial_sig}

-- `is_buy_order` is written by `bool_to_sql_int` alone.
abbrev pub IsSqlFlag : Option ℕ → Type 0
IsSqlFlag v = (v ≡ none) ⊎ (v ≡ some 1)

abbrev pub request_key : MakerRequest → Bytes
request_key r = r.robohash

abbrev pub offer_key : ActiveMakerOffer → String
offer_key r = r.offer_id

abbrev pub taken_key : TakenOffer → String
taken_key r = r.offer_id

pub record IsSound (r : TakenOffer) : Type 0 where
  pub buy_flag : IsSqlFlag r.is_buy_order
  pub maker_flag : IsSqlFlag r.maker_happy
  pub taker_flag : IsSqlFlag r.taker_happy
  pub confirmed_bit : r.escrow_psbt_is_confirmed ≤ 1
  pub ongoing_bit : r.escrow_ongoing ≤ 1
  pub processing_bit : r.processing ≤ 1

abbrev pub HasFlag : ActiveMakerOffer → Type 0
HasFlag r = IsSqlFlag r.is_buy_order

abbrev pub RequestHasFlag : MakerRequest → Type 0
RequestHasFlag r = IsSqlFlag r.is_buy_order

-- Keys are distinct, and the flag columns hold nothing but the values that the code writes.
pub record IsValid (db : CoordinatorDb) : Type 0 where
  pub request_keys : Distinct bytes_eq request_key db.maker_requests
  pub request_flags : All RequestHasFlag db.maker_requests
  pub offer_keys : Distinct str_eq offer_key db.active_maker_offers
  pub offer_flags : All HasFlag db.active_maker_offers
  pub taken_keys : Distinct str_eq taken_key db.taken_offers
  pub taken_sound : All IsSound db.taken_offers

pub bool_to_sql_int-IsSqlFlag : (b : Bool) → IsSqlFlag (bool_to_sql_int b)
bool_to_sql_int-IsSqlFlag true = inr refl
bool_to_sql_int-IsSqlFlag false = inl refl

module _ {db : CoordinatorDb} (v : IsValid db) where
  open v use {request_keys, request_flags, offer_keys, offer_flags, taken_keys, taken_sound}

  pub insert_request-IsValid :
      (robohash : Bytes) (o : OfferRequest) (b : BondRequirementResponse)
      → IsValid (record db {
        maker_requests =
            insert_or_replace (robohash_is robohash) (request_row robohash o b) db.maker_requests;
      })
  insert_request-IsValid robohash o b = record {
    request_keys =
        insert-Distinct bytes_eq bytes_eq_iff request_key (request_row robohash o b)
          db.maker_requests request_keys;
    request_flags =
        All-insert RequestHasFlag (robohash_is robohash) (request_row robohash o b)
          db.maker_requests (bool_to_sql_int-IsSqlFlag o.is_buy_order) request_flags;
    offer_keys = offer_keys;
    offer_flags = offer_flags;
    taken_keys = taken_keys;
    taken_sound = taken_sound;
  }

  pub delete_request-IsValid :
      (test : MakerRequest → Bool)
      → IsValid (record db { maker_requests = delete test db.maker_requests })
  delete_request-IsValid test = record {
    request_keys =
        delete-Distinct bytes_eq bytes_eq_iff request_key test db.maker_requests request_keys;
    request_flags = All-delete RequestHasFlag test db.maker_requests request_flags;
    offer_keys = offer_keys;
    offer_flags = offer_flags;
    taken_keys = taken_keys;
    taken_sound = taken_sound;
  }

  pub insert_offer-IsValid :
      (r : ActiveMakerOffer)
      → HasFlag r
      → IsValid (record db {
        active_maker_offers =
            insert_or_replace (Orderbook.offer_is r.offer_id) r db.active_maker_offers;
      })
  insert_offer-IsValid r h = record {
    request_keys = request_keys;
    request_flags = request_flags;
    offer_keys = insert-Distinct str_eq str_eq_iff offer_key r db.active_maker_offers offer_keys;
    offer_flags =
        All-insert HasFlag (Orderbook.offer_is r.offer_id) r db.active_maker_offers h offer_flags;
    taken_keys = taken_keys;
    taken_sound = taken_sound;
  }

  pub delete_offer-IsValid :
      (test : ActiveMakerOffer → Bool)
      → IsValid (record db { active_maker_offers = delete test db.active_maker_offers })
  delete_offer-IsValid test = record {
    request_keys = request_keys;
    request_flags = request_flags;
    offer_keys = delete-Distinct str_eq str_eq_iff offer_key test db.active_maker_offers offer_keys;
    offer_flags = All-delete HasFlag test db.active_maker_offers offer_flags;
    taken_keys = taken_keys;
    taken_sound = taken_sound;
  }

  pub insert_taken-IsValid :
      (r : TakenOffer)
      → IsSound r
      → IsValid
          (record db { taken_offers = insert_or_replace (offer_is r.offer_id) r db.taken_offers })
  insert_taken-IsValid r h = record {
    request_keys = request_keys;
    request_flags = request_flags;
    offer_keys = offer_keys;
    offer_flags = offer_flags;
    taken_keys = insert-Distinct str_eq str_eq_iff taken_key r db.taken_offers taken_keys;
    taken_sound = All-insert IsSound (offer_is r.offer_id) r db.taken_offers h taken_sound;
  }

  pub delete_taken-IsValid :
      (test : TakenOffer → Bool)
      → IsValid (record db { taken_offers = delete test db.taken_offers })
  delete_taken-IsValid test = record {
    request_keys = request_keys;
    request_flags = request_flags;
    offer_keys = offer_keys;
    offer_flags = offer_flags;
    taken_keys = delete-Distinct str_eq str_eq_iff taken_key test db.taken_offers taken_keys;
    taken_sound = All-delete IsSound test db.taken_offers taken_sound;
  }

  pub update_taken-IsValid :
      (test : TakenOffer → Bool) (f : TakenOffer → TakenOffer)
      → ((r : TakenOffer) → taken_key (f r) ≡ taken_key r)
      → ((r : TakenOffer) → IsSound r → IsSound (f r))
      → IsValid (update_taken test f db)
  update_taken-IsValid test f keep sound = record {
    request_keys = request_keys;
    request_flags = request_flags;
    offer_keys = offer_keys;
    offer_flags = offer_flags;
    taken_keys = update-Distinct str_eq str_eq_iff taken_key test f db.taken_offers keep taken_keys;
    taken_sound = All-update IsSound test f db.taken_offers sound taken_sound;
  }

-- The writes of one row.
pub set_confirmed-IsSound : (r : TakenOffer) → IsSound r → IsSound (set_confirmed r)
set_confirmed-IsSound r h = ground arith

pub toggle-IsSound : (r : TakenOffer) → IsSound r → IsSound (toggle r)
toggle-IsSound r h = ground arith

pub set_signed-IsSound :
    (m : Bool) (s : String) (r : TakenOffer) → IsSound r → IsSound (set_signed_escrow_psbt m s r)
set_signed-IsSound true s r h = ground arith
set_signed-IsSound false s r h = ground arith

pub set_signed-key :
    (m : Bool) (s : String) (r : TakenOffer)
    → taken_key (set_signed_escrow_psbt m s r) ≡ taken_key r
set_signed-key true s r = refl
set_signed-key false s r = refl

pub set_partial-IsSound :
    (m : Bool) (s : String) (r : TakenOffer) → IsSound r → IsSound (set_partial_sig m s r)
set_partial-IsSound true s r h = ground arith
set_partial-IsSound false s r h = ground arith

pub set_partial-key :
    (m : Bool) (s : String) (r : TakenOffer) → taken_key (set_partial_sig m s r) ≡ taken_key r
set_partial-key true s r = refl
set_partial-key false s r = refl

pub set_happy-IsSound :
    (m : Bool) (v : Option ℕ) (r : TakenOffer) → IsSqlFlag v → IsSound r → IsSound (set_happy m v r)
set_happy-IsSound true v r f h = ground arith
set_happy-IsSound false v r f h = ground arith

pub set_happy-key :
    (m : Bool) (v : Option ℕ) (r : TakenOffer) → taken_key (set_happy m v r) ≡ taken_key r
set_happy-key true v r = refl
set_happy-key false v r = refl

pub set_ongoing-IsSound : (r : TakenOffer) → IsSound r → IsSound (set_ongoing r)
set_ongoing-IsSound r h = ground arith

pub resolve-IsSound : (w : String) (r : TakenOffer) → IsSound r → IsSound (resolve w r)
resolve-IsSound w r h = ground arith

pub set_payout-IsSound : (p : String) (r : TakenOffer) → IsSound r → IsSound (set_payout_psbt p r)
set_payout-IsSound p r h = ground arith

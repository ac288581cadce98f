-- ===== src/System/Guards.antt =====
-- What the queries of the payout handlers say of the trade that they read (database/mod.rs,
-- coordinator/mod.rs).
use taptrade_core.Prelude.{String, ◌≡◌, refl, sym, ◌∙◌, ap, true, is_some, Option, none, some}
use mathlib.Core.Option
use taptrade_core.Prelude.Result.{Result, ok, and_then, and_then-ok, ok_or-ok, ok-injective}
use taptrade_core.Errors.{AnyError, row_not_found}
use taptrade_core.Externals.{Externals}
use taptrade_core.Types.{TraderHappiness, KeyspendContext}
use taptrade_core.Sql.{fetch_one}
use taptrade_core.Sql.Rows.{fetch-update}
use taptrade_core.Database.Tables.{TakenOffer, CoordinatorDb}
use taptrade_core.Database.Taken.{offer_is}
use taptrade_core.Database.Trade.{happiness, fetch_trader_happiness, toggle, toggle_processing}
use taptrade_core.Database.Payout.{
  fetch_keyspend_payout_psbt, keyspend_context, fetch_keyspend_payout_information,
}
use taptrade_core.Coordinator.Trades.{both_happy}
use taptrade_core.Protocol.Updates.{row_of}
use taptrade_core.Protocol.Writes.{Payable}
use taptrade_core.Protocol.Allowed.{Finished}

pub record BothHappy (offer_id : String) (db : CoordinatorDb) : Type 0 where
  pub row : TakenOffer
  pub found : row_of offer_id db ≡ some row
  pub happy : both_happy (happiness row) ≡ true

-- the row that a query has read
pub read_row :
    {A : Type 0} (offer_id : String) (db : CoordinatorDb) (f : TakenOffer → Result AnyError A)
    {a : A}
    → and_then (fetch_one (offer_is offer_id) db.taken_offers) f ≡ ok a
    → (row : TakenOffer) × (row_of offer_id db ≡ some row) × (f row ≡ ok a)
read_row offer_id db f h =
    let (row, found, rest) = and_then-ok (fetch_one (offer_is offer_id) db.taken_offers) f h in
    (row, ok_or-ok (row_of offer_id db) row_not_found found, rest)

pub happiness-BothHappy :
    (offer_id : String) (db : CoordinatorDb) (h : TraderHappiness)
    → fetch_trader_happiness offer_id db ≡ ok h
    → both_happy h ≡ true
    → BothHappy offer_id db
unfolding fetch_trader_happiness
happiness-BothHappy offer_id db h e b =
    let (row, found, same) = read_row offer_id db _ e in
    record { row = row; found = found; happy = ap both_happy (ok-injective same) ∙ b }

some-eq : {A : Type 0} {a b : A} → ◌≡◌ {A = Option A} (some a) (some b) → a ≡ b
some-eq h = cc

pub unpaid-Payable :
    (offer_id : String) (db : CoordinatorDb)
    → BothHappy offer_id db
    → fetch_keyspend_payout_psbt offer_id db ≡ ok none
    → Payable offer_id db
unfolding fetch_keyspend_payout_psbt
unpaid-Payable offer_id db h e =
    let (row, found, unpaid) = read_row offer_id db _ e in
    let same : row ≡ h.row = some-eq (sym found ∙ h.found) in
    record {
      row = row;
      found = found;
      happy = ap (λ r. both_happy (happiness r)) same ∙ h.happy;
      unpaid = ok-injective unpaid;
    }

pub toggle-Payable :
    (offer_id : String) (db : CoordinatorDb)
    → Payable offer_id db
    → Payable offer_id (toggle_processing offer_id db).1
unfolding toggle_processing
toggle-Payable offer_id db p = rw p.found (record {
  row = toggle p.row;
  found =
      fetch-update (offer_is offer_id) toggle db.taken_offers (λ r. refl)
      ∙ ap (Option.map toggle) p.found;
  happy = p.happy;
  unpaid = p.unpaid;
})

module _ (x : Externals) where
  two_sigs :
      (row : TakenOffer) (maker taker : Option String) (context : KeyspendContext)
      → keyspend_context x row maker taker ≡ ok (some context)
      → (is_some maker ≡ true) × (is_some taker ≡ true)
  two_sigs row (some maker) (some taker) context h = (refl, refl)
  two_sigs row (some maker) none context h = cc
  two_sigs row none taker context h = cc

  pub context-Finished :
      (offer_id : String) (db : CoordinatorDb) (context : KeyspendContext)
      → fetch_keyspend_payout_information x offer_id db ≡ ok (some context)
      → Finished offer_id db
  unfolding fetch_keyspend_payout_information
  context-Finished offer_id db context e =
      let (row, found, k) = read_row offer_id db _ e in
      let (maker, taker) =
        two_sigs row row.musig_partial_sig_hex_maker row.musig_partial_sig_hex_taker context k in
      record { row = row; found = found; maker = maker; taker = taker }

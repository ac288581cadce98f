-- ===== src/Database/Processing.antt =====
-- The `processing` flag, which is to let one request at a time assemble the payout transaction
-- (database/mod.rs, `toggle_processing`).
use taptrade_core.Prelude.{
  ℕ, zero, suc, ◌%◌, String, ◌≡◌, refl, ◌∙◌, ap, some, ◌==◌, if◌then◌else◌, arith,
}
use mathlib.Core.Option
use taptrade_core.Prelude.Result.{ok}
use taptrade_core.Sql.{fetch_optional}
use taptrade_core.Sql.Rows.{fetch-update}
use taptrade_core.Database.Tables.{CoordinatorDb, TakenOffer}
use taptrade_core.Database.Taken.{offer_is}
use taptrade_core.Database.Trade.{toggle, toggle_processing}

-- the database after so many calls
abbrev pub after_calls : ℕ → String → CoordinatorDb → CoordinatorDb
after_calls zero offer_id db = db
after_calls (suc n) offer_id db = after_calls n offer_id (toggle_processing offer_id db).1

toggle-fetch :
    (offer_id : String) (db : CoordinatorDb) (row : TakenOffer)
    → fetch_optional (offer_is offer_id) db.taken_offers ≡ some row
    → fetch_optional (offer_is offer_id) (toggle_processing offer_id db).1.taken_offers
      ≡ some (toggle row)
unfolding toggle_processing
toggle-fetch offer_id db row found = rw found (
    fetch-update (offer_is offer_id) toggle db.taken_offers (λ r. refl)
    ∙ ap (Option.map toggle) found)

toggle_from :
    (n : ℕ) (offer_id : String) (db : CoordinatorDb) (row : TakenOffer)
    → fetch_optional (offer_is offer_id) db.taken_offers ≡ some row
    → (toggle_processing offer_id (after_calls n offer_id db)).0
      ≡ ok (if row.processing == 0 then n % 2 == 0 else n % 2 == 1)
toggle_from zero offer_id db row found = unfold toggle_processing in rw found (ground arith)
toggle_from (suc n) offer_id db row found =
    toggle_from n offer_id (toggle_processing offer_id db).1 (toggle row)
      (toggle-fetch offer_id db row found)
    ∙ ap ok (ground arith)

-- When the flag of a trade is not set, a call that comes after `n` others for the same trade
-- acquires it exactly if `n` is even, so also the third caller.
pub toggle_processing-alternates :
    (n : ℕ) (offer_id : String) (db : CoordinatorDb) {row : TakenOffer}
    → fetch_optional (offer_is offer_id) db.taken_offers ≡ some row
    → row.processing ≡ 0
    → (toggle_processing offer_id (after_calls n offer_id db)).0 ≡ ok (n % 2 == 0)
toggle_processing-alternates n offer_id db {row} found free =
    toggle_from n offer_id db row found ∙ ap ok (rw free refl)

-- ===== src/System/SellOffers.antt =====
-- What becomes of offers that are no buy orders (database/mod.rs, `bool_to_sql_int` and
-- `fetch_suitable_offers`, up to the answer of communication/mod.rs).
use taptrade_core.Prelude.{ℕ, ◌≡◌, refl, false, some, List}
use taptrade_core.Externals.{Externals}
use taptrade_core.Node.{Node}
use taptrade_core.Api.{OffersRequest}
use taptrade_core.Database.Suitable.{fetch_suitable_offers-none}
use taptrade_core.Coordinator.Offers.{get_public_offers}
use taptrade_core.Http.{Request, serve}
use taptrade_core.Http.Answers.{status_only}
use taptrade_core.System.Events.{Event, start, run}
use taptrade_core.System.Runs.{run-IsValid}

-- Whatever has happened since the start on an empty database, a request for offers that are not
-- buy orders is answered by 204 and changes nothing.
pub sell_offers_hidden :
    (x : Externals) (es : List Event) (n : Node) (now : ℕ) (q : OffersRequest)
    → q.buy_offers ≡ false
    → serve x n now (Request.fetch_available_offers q) (run x es start)
      ≡ (some (status_only 204), run x es start)
unfolding serve get_public_offers
sell_offers_hidden x es n now q e =
    rw (fetch_suitable_offers-none q (run x es start).db e (run-IsValid x es).offer_flags) refl

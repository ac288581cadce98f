-- ===== src/Trader/Buyers.antt =====
-- A buyer in search of an offer to take, against the coordinator (communication/taker_requests.rs,
-- coordinator/src/communication/mod.rs).
use taptrade_core.Prelude.{ℕ, ◌≡◌, refl, ap, true, not, some, List}
use taptrade_core.Externals.{Externals}
use taptrade_core.Node.{Node}
use taptrade_core.Http.{Request, serve}
use taptrade_core.Http.Answers.{Response, status_only}
use taptrade_core.System.Events.{Event, start, run}
use taptrade_core.System.SellOffers.{sell_offers_hidden}
use taptrade_core.Trader.Settings.{TraderSettings, TraderWallet, is_buy_order}
use taptrade_core.Trader.Session.{again}
use taptrade_core.Trader.Requests.{offers_request, offers_verdict, fetched_offers}

-- Whatever has happened to the coordinator since its start on an empty database, it answers a
-- trader who wants to buy and looks for an offer to take with a status on which the trader's
-- program asks again.
pub buyers_wait :
    (x : Externals) (es : List Event) (n : Node) (now : ℕ) (w : TraderWallet) (t : TraderSettings)
    → is_buy_order t.trade_type ≡ true
    → (res : Response) × ((serve x n now
          (Request.fetch_available_offers (offers_request w t))
          (run x es start)).0
        ≡ some res)
      × (offers_verdict res ≡ again)
unfolding fetched_offers
buyers_wait x es n now w t wants = (
  status_only 204,
  ap (λ r. r.0) (sell_offers_hidden x es n now (offers_request w t) (ap not wants)),
  refl,
)

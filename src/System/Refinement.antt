-- ===== src/System/Refinement.antt =====
-- The coordinator refines the protocol of its offers: whatever happens to it, each offer goes by the
-- steps of `Protocol`.
use taptrade_core.Prelude.{String, ◌≡◌, ◌⊎◌, inl, inr, true, some, List, [], ◌∷◌, arith}
use taptrade_core.Externals.{Externals}
use taptrade_core.Database.Tables.{TakenOffer, CoordinatorDb}
use taptrade_core.Database.Writes.{init-IsValid}
use taptrade_core.Coordinator.State.{Coordinator}
use taptrade_core.Sql.{fetch_optional}
use taptrade_core.Http.{Request}
use taptrade_core.Protocol.{Steps-trans, here, Exclusive, Steps-Exclusive}
use taptrade_core.Protocol.Order.{settling, IsOrdered, TradeIsOrdered, Steps-IsOrdered}
use taptrade_core.Protocol.View.{trade_view, view, traded, Forward}
use taptrade_core.Protocol.Updates.{row_of}
use taptrade_core.Protocol.Listings.{NewId}
use taptrade_core.Protocol.Refines.{run_write-Forward}
use taptrade_core.System.Events.{Event, start, happen, run}
use taptrade_core.System.Stable.{Stable}
use taptrade_core.System.Punishments.{monitor_bonds-Keeps}
use taptrade_core.System.Rounds.{Drawn, serve-keeps, confirmations-keeps}
use taptrade_core.System.Verdicts.{verdicts-keeps}
use taptrade_core.System.Runs.{happen-IsValid}
use taptrade_core.Database.Invariant.{IsValid}

module _ (x : Externals) (offer_id : String) (N : Type 0) where
  -- the offer has gone forward since `db`
  abbrev Since : CoordinatorDb → Coordinator → Type 0
  Since db c = Forward N offer_id db c.db

  Since-Stable :
      (db : CoordinatorDb)
      → Exclusive (view offer_id db) ⊎ N
      → Stable x (NewId N offer_id) (Since db)
  Since-Stable db ex = record {
    write = λ w c a p. Steps-trans p (run_write-Forward offer_id x w c.db a (Steps-Exclusive p ex));
    escrow = λ tx c p. p;
    keyspend = λ tx c p. p;
  }

  -- what an event draws
  abbrev pub Draws : Event → CoordinatorDb → Type 0
  Draws (Event.request n now r) db = Drawn (NewId N offer_id) n r db
  Draws (Event.bonds n s) db = Unit {0}
  Draws (Event.confirmations is_txid info) db = Unit {0}
  Draws (Event.verdicts lines) db = Unit {0}

  happen-Forward :
      (e : Event) (c : Coordinator)
      → IsValid c.db
      → Draws e c.db
      → Exclusive (view offer_id c.db) ⊎ N
      → Forward N offer_id c.db (happen x e c).db
  unfolding happen
  happen-Forward (Event.request n now r) c v d ex =
      serve-keeps x (Since c.db) (Since-Stable c.db ex) n now r c d here
  happen-Forward (Event.bonds n s) c v d ex =
      monitor_bonds-Keeps x (Since c.db) (Since-Stable c.db ex) (λ tx d p. p) n s c here
  happen-Forward (Event.confirmations is_txid info) c v d ex =
      confirmations-keeps x (Since c.db) (Since-Stable c.db ex) is_txid info c here
  happen-Forward (Event.verdicts lines) c v d ex =
      verdicts-keeps x (Since c.db) (Since-Stable c.db ex) lines c v here

  -- what the events of a run draw, each in the state that it happens in
  abbrev pub AllDraw : List Event → Coordinator → Type 0
  AllDraw [] c = Unit {0}
  AllDraw (e ∷ es) c = Draws e c.db × AllDraw es (happen x e c)

  run-Forward :
      (es : List Event) (c : Coordinator)
      → IsValid c.db
      → AllDraw es c
      → Exclusive (view offer_id c.db) ⊎ N
      → Forward N offer_id c.db (run x es c).db
  unfolding run
  run-Forward [] c v d ex = here
  run-Forward (e ∷ es) c v d ex =
      let step = happen-Forward e c v d.0 ex in
      Steps-trans step
        (run-Forward es (happen x e c) (happen-IsValid x e c v) d.1 (Steps-Exclusive step ex))

module _ (x : Externals) (offer_id : String) where
  any-Draws : (e : Event) (db : CoordinatorDb) → Draws x offer_id (Unit {0}) e db
  any-Draws (Event.request n now (Request.submit_maker_bond b)) db = inr tt
  any-Draws (Event.request n now (Request.create_offer r)) db = tt
  any-Draws (Event.request n now (Request.fetch_available_offers r)) db = tt
  any-Draws (Event.request n now (Request.submit_taker_bond r)) db = tt
  any-Draws (Event.request n now (Request.request_offer_status r)) db = tt
  any-Draws (Event.request n now (Request.submit_escrow_psbt r)) db = tt
  any-Draws (Event.request n now (Request.poll_escrow_confirmation r)) db = tt
  any-Draws (Event.request n now (Request.submit_obligation_confirmation r)) db = tt
  any-Draws (Event.request n now (Request.request_escrow r)) db = tt
  any-Draws (Event.request n now (Request.poll_final_payout r)) db = tt
  any-Draws (Event.request n now (Request.submit_payout_signature r)) db = tt
  any-Draws (Event.bonds n s) db = tt
  any-Draws (Event.confirmations is_txid info) db = tt
  any-Draws (Event.verdicts lines) db = tt

  any-AllDraw : (es : List Event) (c : Coordinator) → AllDraw x offer_id (Unit {0}) es c
  any-AllDraw [] c = tt
  any-AllDraw (e ∷ es) c = (any-Draws e c.db, any-AllDraw es (happen x e c))

  -- At any time after the start on an empty database, a trade with a happy trader, an open dispute,
  -- a payout psbt or a partial signature is one whose escrow transaction counts as confirmed.
  pub run-IsOrdered :
      (es : List Event) {row : TakenOffer}
      → row_of offer_id (run x es start).db ≡ some row
      → settling (trade_view row) ≡ true
      → row.escrow_psbt_is_confirmed ≡ 1
  unfolding fetch_optional
  run-IsOrdered es {row} found settles =
      let ordered : TradeIsOrdered (traded offer_id (run x es start).db) =
        Steps-IsOrdered
          (run-Forward x offer_id (Unit {0}) es start init-IsValid (any-AllDraw es start) (inr tt))
          tt in
      by_order (rw found at ordered)
    where
      by_order : IsOrdered (trade_view row) → row.escrow_psbt_is_confirmed ≡ 1
      by_order (inl c) = ground arith
      by_order (inr n) = cc

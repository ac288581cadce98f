-- ===== src/System/Stable.antt =====
-- Conditions on the coordinator that the statements of its handlers keep, and how a handler is put
-- together from such statements.
use taptrade_core.Prelude.{String, ◌≡◌, Bool, true, false, ◌∷◌}
use taptrade_core.Prelude.Result.{
  Result, Action, Keeps, Keeps-resume, resume-cases, map_err, map_err-ok, and_then-ok, ok_or-ok,
  ok-injective, ok, lift, ◌>>=◌,
}
use taptrade_core.Errors.{AnyError, RequestError, row_not_found}
use taptrade_core.Externals.{Externals}
use taptrade_core.Database.Writes.{Write, run_write}
use taptrade_core.Sql.{fetch_one, fetch_optional}
use taptrade_core.Database.Taken.{offer_is, fetch_escrow_tx_confirmation_status}
use taptrade_core.Protocol.Writes.{Confirmed}
use taptrade_core.Protocol.Allowed.{Allowed}
use taptrade_core.Coordinator.State.{Coordinator, Broadcast, on_db, query}
use taptrade_core.Database.Tables.{CoordinatorDb}
use taptrade_core.Coordinator.Gates.{Cleared, check-state, check-Cleared}
use taptrade_core.Coordinator.Trades.{or_fail, check_offer_and_confirmation}

-- A condition on the coordinator that, `New` being what is known of the ids of new offers, neither a write that the protocol allows nor the sending of a
-- transaction of a trade can break.
pub record Stable (x : Externals) (New : String → CoordinatorDb → Type 0) (P : Coordinator → Type 0)
    : Type 0 where
  pub write :
      (w : Write) (c : Coordinator)
      → Allowed New w c.db
      → P c
      → P (record c { db = run_write x w c.db })
  pub escrow :
      (tx : String) (c : Coordinator)
      → P c
      → P (record c { broadcasts = Broadcast.escrow tx ∷ c.broadcasts })
  pub keyspend :
      (tx : String) (c : Coordinator)
      → P c
      → P (record c { broadcasts = Broadcast.keyspend tx ∷ c.broadcasts })

module _ (P : Coordinator → Type 0) where
  pub query-Keeps :
      {E A B : Type 0} (f : AnyError → E) (q : CoordinatorDb → Result AnyError A)
      (k : A → Action Coordinator E B)
      → ((a : A) → Keeps P (k a))
      → Keeps P (query f q >>= k)
  query-Keeps f q k h c p = Keeps-resume P (map_err f (q c.db)) c k p h

  pub lift-Keeps :
      {E A B : Type 0} (r : Result E A) (k : A → Action Coordinator E B)
      → ((a : A) → Keeps P (k a))
      → Keeps P (lift r >>= k)
  lift-Keeps r k h c p = Keeps-resume P r c k p h

  pub or_fail-Keeps :
      {E B : Type 0} (b : Bool) (e : E) (k : Unit {0} → Action Coordinator E B)
      → ((a : Unit {0}) → Keeps P (k a))
      → Keeps P (or_fail b e >>= k)
  or_fail-Keeps true e k h c p = h tt c p
  or_fail-Keeps false e k h c p = p

  -- a database call that keeps `P`, and what follows it
  pub on_db-Keeps :
      {E A B : Type 0} (f : AnyError → E) (m : Action CoordinatorDb AnyError A)
      (k : A → Action Coordinator E B)
      → ((c : Coordinator) → P c → P (record c { db = (m c.db).1 }))
      → ((a : A) → Keeps P (k a))
      → Keeps P (on_db f m >>= k)
  on_db-Keeps f m k w h c p =
      Keeps-resume P (map_err f (m c.db).0) (record c { db = (m c.db).1 }) k (w c p) h

  -- the same at one state
  pub on_db-keeps :
      {E A B : Type 0} (f : AnyError → E) (m : Action CoordinatorDb AnyError A)
      (k : A → Action Coordinator E B) (c : Coordinator)
      → P (record c { db = (m c.db).1 })
      → ((a : A) → P (k a (record c { db = (m c.db).1 })).1)
      → P ((on_db f m >>= k) c).1
  on_db-keeps f m k c p h =
      resume-cases P (map_err f (m c.db).0) (record c { db = (m c.db).1 }) k p (λ a _. h a)

  -- a query whose answer is known to what follows it
  pub query-keeps :
      {E A B : Type 0} (f : AnyError → E) (q : CoordinatorDb → Result AnyError A)
      (k : A → Action Coordinator E B) (c : Coordinator)
      → P c
      → ((a : A) → q c.db ≡ ok a → P (k a c).1)
      → P ((query f q >>= k) c).1
  query-keeps f q k c p h =
      resume-cases P (map_err f (q c.db)) c k p (λ a e. h a (map_err-ok f (q c.db) e))

-- A trade that the check has let through is confirmed.
Cleared-Confirmed :
    (x : Externals) (offer_id robohash : String) (c : Coordinator)
    → Cleared x offer_id robohash c
    → Confirmed offer_id c.db
unfolding fetch_escrow_tx_confirmation_status
Cleared-Confirmed x offer_id robohash c cleared =
    let (row, found, deep) =
      and_then-ok (fetch_one (offer_is offer_id) c.db.taken_offers) _ cleared.confirmed in
    record {
      row = row;
      found = ok_or-ok (fetch_optional (offer_is offer_id) c.db.taken_offers) row_not_found found;
      deep = ok-injective deep;
    }

pub check-Keeps :
    (x : Externals) (P : Coordinator → Type 0) {B : Type 0} (offer_id robohash : String)
    (k : Unit {0} → Action Coordinator RequestError B)
    → ((c : Coordinator) → Confirmed offer_id c.db → P c → P (k tt c).1)
    → Keeps P (check_offer_and_confirmation x offer_id robohash >>= k)
check-Keeps x P offer_id robohash k h c p =
    resume-cases P (check_offer_and_confirmation x offer_id robohash c).0
      (check_offer_and_confirmation x offer_id robohash c).1 k
      (rw (check-state x offer_id robohash c) p)
      (λ a e.
        rw (check-state x offer_id robohash c)
          (h c (Cleared-Confirmed x offer_id robohash c (check-Cleared x offer_id robohash c e)) p))

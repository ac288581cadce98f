-- ===== src/Coordinator/State.antt =====
-- The state that the handlers and the background tasks share: the database, and the transactions
-- that the coordinator has broadcast, latest first.
use taptrade_core.Prelude.{String, List, ◌∷◌}
use taptrade_core.Prelude.Result.{Result, Action, map_err}
use taptrade_core.Errors.{AnyError}
use taptrade_core.Database.Tables.{CoordinatorDb}

pub data Broadcast : Type 0 where
  bond escrow keyspend : String → Broadcast

pub record Coordinator : Type 0 where
  pub db : CoordinatorDb
  pub broadcasts : List Broadcast

-- a database call, with its error turned into the handler's
abbrev pub on_db :
    {E A : Type 0} → (AnyError → E) → Action CoordinatorDb AnyError A → Action Coordinator E A
on_db f m c = let (r, db') = m c.db in (map_err f r, record c { db = db' })

-- a database query
abbrev pub query :
    {E A : Type 0} → (AnyError → E) → (CoordinatorDb → Result AnyError A) → Action Coordinator E A
query f q c = (map_err f (q c.db), c)

-- a transaction has gone out
abbrev pub sent : {E : Type 0} → Broadcast → Action Coordinator E (Unit {0})
sent b c = (Result.ok tt, record c { broadcasts = b ∷ c.broadcasts })

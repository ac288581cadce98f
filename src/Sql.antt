-- ===== src/Sql.antt =====
-- Tables and the statements that the coordinator sends to SQLite. A table is the list of its rows;
-- a WHERE clause is a test on a row. A statement on a row that meets a test of a PRIMARY KEY
-- touches at most one row, as long as the keys are distinct (Sql/Keys.antt).
pub mod Keys
pub mod Rows
pub mod Others
pub mod Unique
use taptrade_core.Prelude.{
  ℕ, ◌+◌, ◌^◌, ◌%◌, Bool, true, false, not, ◌&&◌, Option, none, some, List, [], ◌∷◌, ◌++◌, leb,
  ◌==◌, if◌then◌else◌,
}
use taptrade_core.Prelude.Result.{Result, ok_or}
use taptrade_core.Errors.{AnyError, row_not_found}

module _ {R : Type 0} where
  -- SELECT … WHERE test, `fetch_all`
  unfoldable pub select : (R → Bool) → List R → List R
  select test [] = []
  select test (r ∷ rs) = if test r then r ∷ select test rs else select test rs

  -- SELECT … WHERE test, `fetch_optional`
  unfoldable pub fetch_optional : (R → Bool) → List R → Option R
  fetch_optional test [] = none
  fetch_optional test (r ∷ rs) = if test r then some r else fetch_optional test rs

  -- SELECT … WHERE test, `fetch_one`
  abbrev pub fetch_one : (R → Bool) → List R → Result AnyError R
  fetch_one test rs = ok_or (fetch_optional test rs) row_not_found

  -- UPDATE … SET … WHERE test
  unfoldable pub update : (R → Bool) → (R → R) → List R → List R
  update test f [] = []
  update test f (r ∷ rs) = (if test r then f r else r) ∷ update test f rs

  -- DELETE … WHERE test
  unfoldable pub delete : (R → Bool) → List R → List R
  delete test [] = []
  delete test (r ∷ rs) = if test r then delete test rs else r ∷ delete test rs

  -- INSERT OR REPLACE: the rows with the new row's key, those that meet the test, are replaced.
  unfoldable pub insert_or_replace : (R → Bool) → R → List R → List R
  unfolding delete
  insert_or_replace same_key r rs = delete same_key rs ++ (r ∷ [])

-- `column = value` on a nullable INTEGER: NULL equals nothing.
abbrev pub sql_eq : Option ℕ → ℕ → Bool
sql_eq none v = false
sql_eq (some n) v = n == v

-- `a <= b` on signed 64-bit integers, each given by its bit pattern.
abbrev pub i64_le : ℕ → ℕ → Bool
i64_le a b = leb ((a + 2 ^ 63) % 2 ^ 64) ((b + 2 ^ 63) % 2 ^ 64)

-- `column BETWEEN low AND high`
abbrev pub between : ℕ → ℕ → ℕ → Bool
between v low high = i64_le low v && i64_le v high

-- ===== src/Store/Sqlite.antt =====
-- A connection to the file. SQLite is not under the repository: it is a parameter that runs
-- statements and reads the tables, and each of its calls may fail. A statement is what its SQL text
-- does to the tables; `none` is a constraint that refuses it.
pub mod Atomic
pub mod Faulty
pub mod Steps
use uchi_pulse.Base.{
  String, ℕ, ◌≡◌, ◌⊎◌, Bool, true, false, Option, none, some, List, [], ◌∷◌, Result, ok, err,
  map_err, if◌then◌else◌, ◌>>=◌,
}
use uchi_pulse.Store.Tables.{Tables}
use uchi_pulse.Store.Schema.{is_consistent}

-- What the connection sees, what a ROLLBACK would bring back inside a transaction, and the id that
-- the last insertion into an AUTOINCREMENT table of destinations gave.
pub record Session : Type 0 where
  pub tables : Tables
  pub saved : Option Tables
  pub last_rowid : ℕ

-- With the number of rows that were changed.
abbrev pub Statement : Type 0
Statement = Session → Option (ℕ × Session)

abbrev pub Change : Type 0
Change = Tables → Option (ℕ × Tables)

-- A statement that writes rows; foreign keys are checked when it ends.
unfoldable pub write : (Tables → ℕ × Tables) → Change
write f t = let (n, after) = f t in if is_consistent after then some (n, after) else none

unfoldable pub on_tables : Change → Statement
on_tables change s = elim (change s.tables) [
  | none ↦ none
  | some (n, t) ↦ some (n, record s { tables = t })
]

-- BEGIN IMMEDIATE, COMMIT and ROLLBACK.
unfoldable pub begin : Statement
begin s = elim s.saved [ none ↦ some (0, record s { saved = some s.tables }) | some _ ↦ none ]

unfoldable pub commit : Statement
commit s = elim s.saved [ none ↦ none | some _ ↦ some (0, record s { saved = none }) ]

-- What a failure that ends the transaction leaves.
unfoldable pub rolled_back : Session → Session
rolled_back s = elim s.saved [ none ↦ s | some t ↦ record s { tables = t; saved = none } ]

unfoldable pub rollback : Statement
unfolding rolled_back
rollback s = elim s.saved [ none ↦ none | some _ ↦ some (0, rolled_back s) ]

-- What other connections, and this one after a crash, find in the file.
unfoldable pub durable : Session → Tables
durable s = elim s.saved [ none ↦ s.tables | some t ↦ t ]

pub record Sqlite (Conn Failure : Type 0) : Type 0 where
  pub execute : Conn → Statement → Result Failure ℕ × Conn
  pub read : Conn → Result Failure Tables
  pub last_insert_rowid : Conn → ℕ

-- A statement that answers has done what it says to the session; one that fails has done nothing,
-- but may have ended the transaction; a read that answers gives the tables.
pub record HasSession {Conn Failure : Type 0} (sqlite : Sqlite Conn Failure) : Type 0 where
  pub view : Conn → Session
  pub done :
      (c : Conn) (s : Statement) (n : ℕ)
      → (sqlite.execute c s).0 ≡ ok n
      → s (view c) ≡ some (n, view (sqlite.execute c s).1)
  pub undone :
      (c : Conn) (s : Statement) (e : Failure)
      → (sqlite.execute c s).0 ≡ err e
      → (view (sqlite.execute c s).1 ≡ view c)
        ⊎ (view (sqlite.execute c s).1 ≡ rolled_back (view c))
  pub rowid : (c : Conn) → sqlite.last_insert_rowid c ≡ (view c).last_rowid
  pub seen : (c : Conn) (t : Tables) → sqlite.read c ≡ ok t → t ≡ (view c).tables

-- `rusqlite::Error`: a call that failed, a stored text that no enumeration has, and the error that
-- a program makes itself. `conversion_failure` has the column and the text.
pub data SqlError (Failure : Type 0) : Type 0 where
  failure : Failure → SqlError Failure
  conversion_failure : String → String → SqlError Failure
  invalid_parameter_name : SqlError Failure

module _ {Conn Failure : Type 0} (sqlite : Sqlite Conn Failure) where
  unfoldable pub execute : Conn → Statement → Result (SqlError Failure) ℕ × Conn
  execute c s = let (r, after) = sqlite.execute c s in (map_err failure r, after)

  -- A query and the reading of its rows.
  abbrev pub query :
      {A : Type 0} → Conn → (Tables → Result (SqlError Failure) A) → Result (SqlError Failure) A
  query c select = map_err failure (sqlite.read c) >>= select

  -- A sequence of statements with `?` after each; a step may also be an error of the program's own.
  unfoldable pub run_all :
      Conn → List (Result (SqlError Failure) Change) → Result (SqlError Failure) Unit × Conn
  unfolding execute
  run_all c [] = (ok tt, c)
  run_all c (err e ∷ steps) = (err e, c)
  run_all c (ok change ∷ steps) =
      let (r, after) = execute c (on_tables change) in
      let rest = run_all after steps in elim r [ err e ↦ (err e, after) | ok n ↦ rest ]

  -- BEGIN IMMEDIATE, the steps, and COMMIT, or ROLLBACK with its own error dropped.
  unfoldable pub transaction :
      Conn → List (Result (SqlError Failure) Change) → Result (SqlError Failure) Unit × Conn
  unfolding run_all
  transaction c steps =
      let (begun, started) = execute c begin in
      elim begun [
        | err e ↦ (err e, started)
        | ok _ ↦
            let (result, worked) = run_all started steps in
            elim result [
              | ok _ ↦
                  let (committed, ended) = execute worked commit in
                  (elim committed [ err e ↦ err e | ok _ ↦ ok tt ], ended)
              | err e ↦ (err e, (execute worked rollback).1)
            ]
      ]

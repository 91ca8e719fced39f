-- ===== src/Store/Sqlite/Atomic.antt =====
-- A transaction changes the file whole or not at all, whichever of its calls fail.
use uchi_pulse.Base.{
  ℕ, ◌≡◌, ◌≢◌, inl, inr, ◌∙◌, Option, none, some, List, [], ◌∷◌, Result, ok, err, arith,
  Result-cases, Option-cases,
}
use uchi_pulse.Store.Tables.{Tables}
use uchi_pulse.Store.Sqlite.{
  Session, Statement, Change, on_tables, begin, commit, rolled_back, rollback, durable, Sqlite,
  HasSession, SqlError, execute, run_all, transaction,
}

-- The tables after all steps, if each of them is a change that the constraints allow.
abbrev pub apply_all : {E : Type 0} → List (Result E Change) → Tables → Option Tables
apply_all [] t = some t
apply_all (err e ∷ steps) t = none
apply_all (ok change ∷ steps) t = elim (change t) [
  | none ↦ none
  | some (n, after) ↦ apply_all steps after
]

durable-rolled_back : (s : Session) → durable (rolled_back s) ≡ durable s
unfolding durable rolled_back
durable-rolled_back s = ground arith

module _ {Conn Failure : Type 0} {sqlite : Sqlite Conn Failure} (session : HasSession sqlite) where
  -- Outside and inside a transaction, a call that fails leaves the file as it was.
  execute-undone :
      (c : Conn) (s : Statement) (e : SqlError Failure)
      → (execute sqlite c s).0 ≡ err e
      → durable (session.view (execute sqlite c s).1) ≡ durable (session.view c)
  unfolding execute
  execute-undone c s e h = elim (Result-cases (sqlite.execute c s).0) [
    | inl (n, answered) ↦ ground arith
    | inr (failure, failed) ↦ elim (session.undone c s failure failed) [
      | inl same ↦ ground arith
      | inr ended ↦ ground (arith, durable-rolled_back (session.view c))
    ]
  ]

  execute-done :
      (c : Conn) (s : Statement) (n : ℕ)
      → (execute sqlite c s).0 ≡ ok n
      → s (session.view c) ≡ some (n, session.view (execute sqlite c s).1)
  unfolding execute
  execute-done c s n h = elim (Result-cases (sqlite.execute c s).0) [
    | inl (k, answered) ↦ ground (arith, session.done c s k answered)
    | inr (failure, failed) ↦ ground arith
  ]

  -- A step that answers has made its change inside the transaction.
  pub on_tables-done :
      (c : Conn) (change : Change) (n : ℕ)
      → (execute sqlite c (on_tables change)).0 ≡ ok n
      → (change (session.view c).tables
          ≡ some (n, (session.view (execute sqlite c (on_tables change)).1).tables))
        × ((session.view (execute sqlite c (on_tables change)).1).saved ≡ (session.view c).saved)
  unfolding on_tables
  on_tables-done c change n h = elim (Option-cases (change (session.view c).tables)) [
    | inl refused ↦ ground (arith, execute-done c (on_tables change) n h)
    | inr (changed, allowed) ↦ ground (arith, execute-done c (on_tables change) n h)
  ]

  -- The steps of an open transaction leave the file alone, and those that all answer have been applied.
  run_all_result :
      (c : Conn) (steps : List (Result (SqlError Failure) Change)) (start : Tables)
      → (session.view c).saved ≡ some start
      → (durable (session.view (run_all sqlite c steps).1) ≡ start)
        × ((run_all sqlite c steps).0 ≡ ok tt
            → ((session.view (run_all sqlite c steps).1).saved ≡ some start)
              × (apply_all steps (session.view c).tables
                  ≡ some (session.view (run_all sqlite c steps).1).tables))
  unfolding run_all durable
  run_all_result c [] start opened = ground arith
  run_all_result c (err e ∷ steps) start opened = ground arith
  run_all_result c (ok change ∷ steps) start opened =
      let after = execute sqlite c (on_tables change) in
      elim (Result-cases after.0) [
        | inl (n, answered) ↦
            let made = on_tables-done c change n answered in
            let rest = run_all_result after.1 steps start (made.1 ∙ opened) in ground arith
        | inr (e, failed) ↦ ground (arith, execute-undone c (on_tables change) e failed)
      ]

  begun_opens :
      (c : Conn) (n : ℕ)
      → (session.view c).saved ≡ none
      → (execute sqlite c begin).0 ≡ ok n
      → ((session.view (execute sqlite c begin).1).saved ≡ some (session.view c).tables)
        × ((session.view (execute sqlite c begin).1).tables ≡ (session.view c).tables)
  unfolding begin
  begun_opens c n closed begun = ground (arith, execute-done c begin n begun)

  committed_closes :
      (c : Conn) (n : ℕ)
      → (execute sqlite c commit).0 ≡ ok n
      → ((session.view (execute sqlite c commit).1).saved ≡ none)
        × ((session.view (execute sqlite c commit).1).tables ≡ (session.view c).tables)
  unfolding commit
  committed_closes c n done = ground (arith, execute-done c commit n done)

  -- A ROLLBACK, answered or not, leaves the file as it was.
  rollback-durable :
      (c : Conn) → durable (session.view (execute sqlite c rollback).1) ≡ durable (session.view c)
  unfolding rollback
  rollback-durable c = elim (Result-cases (execute sqlite c rollback).0) [
    | inl (n, done) ↦
        ground (arith, execute-done c rollback n done, durable-rolled_back (session.view c))
    | inr (e, failed) ↦ execute-undone c rollback e failed
  ]

  -- From a connection with no transaction open, a transaction that answers has applied all its steps
  -- and is closed; one that fails leaves in the file the tables of before.
  pub transaction_atomic :
      (c : Conn) (steps : List (Result (SqlError Failure) Change))
      → (session.view c).saved ≡ none
      → ((transaction sqlite c steps).0 ≡ ok tt
          → ((session.view (transaction sqlite c steps).1).saved ≡ none)
            × (apply_all steps (session.view c).tables
                ≡ some (session.view (transaction sqlite c steps).1).tables))
        × ((e : SqlError Failure)
            → (transaction sqlite c steps).0 ≡ err e
            → durable (session.view (transaction sqlite c steps).1) ≡ (session.view c).tables)
  unfolding transaction durable
  transaction_atomic c steps closed =
      let started = execute sqlite c begin in
      elim (Result-cases started.0) [
        | inr (e, failed) ↦ ground (arith, execute-undone c begin e failed)
        | inl (n, begun) ↦
            let opened = begun_opens c n closed begun in
            let worked = run_all sqlite started.1 steps in
            let result = run_all_result started.1 steps (session.view c).tables opened.0 in
            elim (Result-cases worked.0) [
              | inr (e, failed) ↦ ground (arith, rollback-durable worked.1)
              | inl (_, done) ↦ elim (Result-cases (execute sqlite worked.1 commit).0) [
                | inl (k, ended) ↦ ground (arith, committed_closes worked.1 k ended)
                | inr (e, failed) ↦ ground (arith, execute-undone worked.1 commit e failed)
              ]
            ]
      ]

  -- On a connection that an earlier COMMIT has left inside its transaction, no transaction answers,
  -- and the file stays as it is.
  pub open_transaction_blocks :
      (c : Conn) (steps : List (Result (SqlError Failure) Change)) (start : Tables)
      → (session.view c).saved ≡ some start
      → ((transaction sqlite c steps).0 ≢ ok tt)
        × (durable (session.view (transaction sqlite c steps).1) ≡ start)
  unfolding transaction begin durable
  open_transaction_blocks c steps start opened = elim (Result-cases (execute sqlite c begin).0) [
    | inr (e, failed) ↦ ground (arith, execute-undone c begin e failed)
    | inl (n, begun) ↦ ground (arith, execute-done c begin n begun)
  ]

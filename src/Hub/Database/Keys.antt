-- ===== src/Hub/Database/Keys.antt =====
-- The queries of repository.rs over SQLite keep what the interface of the hub's database promises:
-- the table `events` is a set of keys.
use uchi_pulse.Base.{
  ℕ, ◌≡◌, ◌∙◌, refl, sym, inl, inr, String, str_eq, str_eq_iff, Bool, true, false, not, ◌&&◌, ◌||◌,
  Option, none, some, List, [], ◌∷◌, ◌++◌, any, find, ok, map_ok, Result-cases, is_some,
  Option-cases, ◌==◌, arith,
}
use uchi_pulse.Store.Tables.{Tables, EventRow}
use uchi_pulse.Store.Sqlite.{Sqlite, HasSession, execute, on_tables, write}
use uchi_pulse.Store.Sqlite.Atomic.{on_tables-done}
use uchi_pulse.Store.Statements.{is_key, add_event_or_ignore}
use uchi_pulse.Hub.Database.{EventRecord, Repository, HasEventKeys}
use uchi_pulse.Hub.Database.Values.{DatabaseError}
use uchi_pulse.Hub.Database.Queries.{
  get_device, list_enabled_devices, get_family, get_action, list_action_state_changes, get_event,
}
use uchi_pulse.Hub.Database.Writes.{insert_event, event_row}

module _ {Conn Failure : Type 0} (sqlite : Sqlite Conn Failure) where
  -- The queries as the hub's other parts use them; after an insertion that failed they go on with the
  -- connection of before, whose tables it left as they were.
  abbrev pub stored : Repository Conn (DatabaseError Failure)
  stored = record {
    get_device = get_device sqlite;
    list_enabled_devices = list_enabled_devices sqlite;
    get_family = get_family sqlite;
    get_action = get_action sqlite;
    list_action_state_changes = list_action_state_changes sqlite;
    get_event = get_event sqlite;
    insert_event = λ c event.
        let (r, after) = insert_event sqlite c event in map_ok (λ inserted. (inserted, after)) r;
  }

found_row :
    (d e : String) (rows : List EventRow) (r : EventRow)
    → find (is_key d e) rows ≡ some r
    → any (is_key d e) rows ≡ true
found_row d e [] r h = ground arith
found_row d e (s ∷ rows) r h = ground (arith, found_row d e rows r)

unfound_row :
    (d e : String) (rows : List EventRow)
    → find (is_key d e) rows ≡ none
    → any (is_key d e) rows ≡ false
unfound_row d e [] h = refl
unfound_row d e (s ∷ rows) h = ground (arith, unfound_row d e rows)

any_one_more :
    {A : Type 0} (test : A → Bool) (xs : List A) (x : A)
    → any test (xs ++ (x ∷ [])) ≡ (any test xs || test x)
any_one_more test [] x = ground arith
any_one_more test (y ∷ xs) x = ground (arith, any_one_more test xs x)

-- What `INSERT OR IGNORE` answers and leaves, when it is not refused.
added_new :
    (row : EventRow) (t after : Tables) (n : ℕ)
    → add_event_or_ignore row t ≡ some (n, after)
    → (n == 1) ≡ not (any (is_key row.device_id row.event_id) t.events)
unfolding write
added_new row t after n h = ground arith

added_has :
    (row : EventRow) (t after : Tables) (n : ℕ)
    → add_event_or_ignore row t ≡ some (n, after)
    → (d e : String)
    → any (is_key d e) after.events
      ≡ (any (is_key d e) t.events || (str_eq d row.device_id && str_eq e row.event_id))
unfolding write
added_has row t after n h d e = ground (
  arith,
  any_one_more (is_key d e) t.events (record row { id = t.next_event }),
  str_eq_iff d row.device_id,
  str_eq_iff e row.event_id,
)

module _ {Conn Failure : Type 0} {sqlite : Sqlite Conn Failure} (session : HasSession sqlite) where
  abbrev holds : Conn → String → String → Bool
  holds c d e = any (is_key d e) (session.view c).tables.events

  get_some_lem :
      (c : Conn) (d e : String) (r : EventRecord)
      → (stored sqlite).get_event c d e ≡ ok (some r)
      → holds c d e ≡ true
  unfolding get_event
  get_some_lem c d e r h = elim (Result-cases (sqlite.read c)) [
    | inl (t, answered) ↦ elim (Option-cases (find (is_key d e) t.events)) [
      | inl absent ↦ ground arith
      | inr (row, found) ↦
          ground (arith, session.seen c t answered, found_row d e t.events row found)
    ]
    | inr (failure, failed) ↦ ground arith
  ]

  get_none_lem :
      (c : Conn) (d e : String) → (stored sqlite).get_event c d e ≡ ok none → holds c d e ≡ false
  unfolding get_event
  get_none_lem c d e h = elim (Result-cases (sqlite.read c)) [
    | inl (t, answered) ↦ elim (Option-cases (find (is_key d e) t.events)) [
      | inl absent ↦ ground (arith, session.seen c t answered, unfound_row d e t.events absent)
      | inr (row, found) ↦ ground arith
    ]
    | inr (failure, failed) ↦ ground arith
  ]

  -- What an insertion that answers has done to the tables.
  inserted_new :
      (c after : Conn) (r : EventRecord) (inserted : Bool)
      → (stored sqlite).insert_event c r ≡ ok (inserted, after)
      → inserted ≡ not (holds c r.device_id r.event_id)
  unfolding insert_event
  inserted_new c after r inserted h =
      let change = add_event_or_ignore (event_row r) in
      let sent = execute sqlite c (on_tables change) in
      elim (Result-cases sent.0) [
        | inl (n, answered) ↦
            let made = (on_tables-done session c change n answered).0 in
            ground (
              arith,
              added_new (event_row r) (session.view c).tables (session.view sent.1).tables n made,
            )
        | inr (failure, failed) ↦ ground arith
      ]

  inserted_has :
      (c after : Conn) (r : EventRecord) (inserted : Bool)
      → (stored sqlite).insert_event c r ≡ ok (inserted, after)
      → (d e : String)
      → holds after d e ≡ (holds c d e || (str_eq d r.device_id && str_eq e r.event_id))
  unfolding insert_event
  inserted_has c after r inserted h d e =
      let change = add_event_or_ignore (event_row r) in
      let sent = execute sqlite c (on_tables change) in
      elim (Result-cases sent.0) [
        | inl (n, answered) ↦
            let made = (on_tables-done session c change n answered).0 in
            ground (
              arith,
              added_has (event_row r) (session.view c).tables (session.view sent.1).tables n made d
                  e,
            )
        | inr (failure, failed) ↦ ground arith
      ]

  pub stored_keys : HasEventKeys (stored sqlite)
  stored_keys = record {
    has = holds;
    get_some = get_some_lem;
    get_none = get_none_lem;
    insert_new = inserted_new;
    insert_has = inserted_has;
  }

  -- An insertion that answers tells whether its key was new, and a later search that answers finds a
  -- key exactly if it was in the table or is the inserted one.
  pub get_event-insert_event :
      (c after : Conn) (r : EventRecord) (inserted : Bool)
      → (stored sqlite).insert_event c r ≡ ok (inserted, after)
      → (d e : String) (found : Option EventRecord) → get_event sqlite after d e ≡ ok found
      → (inserted ≡ not (any (is_key r.device_id r.event_id) (session.view c).tables.events))
        × (is_some found ≡ (
            any (is_key d e) (session.view c).tables.events
            || (str_eq d r.device_id && str_eq e r.event_id)))
  get_event-insert_event c after r inserted h d e found searched = (
    inserted_new c after r inserted h,
    is_found found searched ∙ inserted_has c after r inserted h d e,
  )
    where
      is_found :
          (x : Option EventRecord) → get_event sqlite after d e ≡ ok x → is_some x ≡ holds after d e
      is_found none absent = sym (get_none_lem after d e absent)
      is_found (some row) there = sym (get_some_lem after d e row there)

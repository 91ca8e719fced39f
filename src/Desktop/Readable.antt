-- ===== src/Desktop/Readable.antt =====
-- The hub reads the states that uchi-pulse-settings has let pass.
use uchi_pulse.Base.{
  ℕ, ◌≡◌, sym, subst, inl, inr, String, str_eq_iff, Bool, true, not, ◌==◌, none, List, [], ◌∷◌,
  ◌++◌, map, keep_if, Result, ok, err, IsOk, collect, arith, All, Result-cases, if_each, ◌∙◌,
  map_err, ◌>>=◌,
}
use uchi_pulse.Store.Tables.{ChangeRow, Tables, order_by, insert_sorted, text_le}
use uchi_pulse.Store.Sqlite.{Sqlite, HasSession, failure}
use uchi_pulse.Hub.Database.Values.{
  sqlite_error, state_type_from_str, state_value_from_str, row_to_state_change,
}
use uchi_pulse.Hub.Database.Queries.{list_action_state_changes}
use uchi_pulse.Desktop.{StateChangeRecord, ActionRecord}
use uchi_pulse.Desktop.Labels.{states, values, has_code}
use uchi_pulse.Desktop.Actions.{check_states, check_action, save_action}
use uchi_pulse.Desktop.Saved.{change_row, with_action, save_action_result}

module _ (Failure : Type 0) where
  known_state :
      (t : String) → has_code states t ≡ true → IsOk (state_type_from_str {Failure = Failure} t)
  unfolding states state_type_from_str
  known_state t h = ground (
    arith,
    str_eq_iff "MEAL_NOTICE" t,
    str_eq_iff "SNACK_NOTICE" t,
    str_eq_iff "HELP_NOTICE" t,
    str_eq_iff "ENTRY_PERMISSION" t,
    str_eq_iff "MAILBOX" t,
    str_eq_iff t "MEAL_NOTICE",
    str_eq_iff t "SNACK_NOTICE",
    str_eq_iff t "HELP_NOTICE",
    str_eq_iff t "ENTRY_PERMISSION",
    str_eq_iff t "MAILBOX",
  )

  known_value :
      (t v : String)
      → has_code (values t) v ≡ true
      → IsOk (state_value_from_str {Failure = Failure} v)
  unfolding values state_value_from_str
  known_value t v h = ground (
    arith,
    str_eq_iff "UNSET" v,
    str_eq_iff "ON" v,
    str_eq_iff "OFF" v,
    str_eq_iff "OK" v,
    str_eq_iff "NG" v,
    str_eq_iff "MEETING" v,
    str_eq_iff v "UNSET",
    str_eq_iff v "ON",
    str_eq_iff v "OFF",
    str_eq_iff v "OK",
    str_eq_iff v "NG",
    str_eq_iff v "MEETING",
  )

  abbrev Readable : ChangeRow → Type 0
  Readable row = IsOk (row_to_state_change {Failure = Failure} row)

  known_row :
      (row : ChangeRow)
      → has_code states row.state_type ≡ true
      → has_code (values row.state_type) row.state_value ≡ true
      → Readable row
  unfolding row_to_state_change
  known_row row typed valued =
      elim (Result-cases (state_type_from_str {Failure = Failure} row.state_type)) [
        | inr (e, failed) ↦ absurd (subst IsOk failed (known_state row.state_type typed))
        | inl (t, found) ↦
            elim (Result-cases (state_value_from_str {Failure = Failure} row.state_value)) [
              | inr (e, failed) ↦
                  absurd (subst IsOk failed (known_value row.state_type row.state_value valued))
              | inl (v, read) ↦ ground arith
            ]
      ]

  checked_rows :
      (id : ℕ) (cs : List StateChangeRecord)
      → check_states {Failure = Failure} cs ≡ ok tt
      → All Readable (map (change_row id) cs)
  unfolding check_states
  checked_rows id [] h = tt
  checked_rows id (c ∷ cs) h =
      let typed : has_code states c.state_type ≡ true = ground arith in
      let valued : has_code (values c.state_type) c.state_value ≡ true = ground arith in
      let rest : check_states {Failure = Failure} cs ≡ ok tt = ground arith in
      (known_row (change_row id c) typed valued, checked_rows id cs rest)

  -- The rows of the action that a query finds among those of the others.
  found_rows :
      (id : ℕ) (old new : List ChangeRow)
      → All Readable new
      → All Readable
          (keep_if (λ r. r.action_id == id) (keep_if (λ r. not (r.action_id == id)) old ++ new))
  found_rows id [] [] h = tt
  found_rows id [] (r ∷ new) h =
      if_each (All Readable) (r.action_id == id) (h.0, found_rows id [] new h.1)
        (found_rows id [] new h.1)
  found_rows id (r ∷ old) new h =
      let kept = λ (rows : List ChangeRow). keep_if (λ x. not (x.action_id == id)) rows ++ new in
      let skipped : keep_if (λ x. x.action_id == id) (kept (r ∷ old))
          ≡ keep_if (λ x. x.action_id == id) (kept old) =
        ground arith in
      subst (All Readable) (sym skipped) (found_rows id old new h)

  sorted_in :
      (le : ChangeRow → ChangeRow → Bool) (x : ChangeRow) (rows : List ChangeRow)
      → Readable x
      → All Readable rows
      → All Readable (insert_sorted le x rows)
  sorted_in le x [] p h = (p, tt)
  sorted_in le x (y ∷ ys) p h =
      if_each (All Readable) (le x y) (p, h) (h.0, sorted_in le x ys p h.1)

  sorted_rows :
      (le : ChangeRow → ChangeRow → Bool) (rows : List ChangeRow)
      → All Readable rows
      → All Readable (order_by le rows)
  sorted_rows le [] h = tt
  sorted_rows le (x ∷ xs) h = sorted_in le x (order_by le xs) h.0 (sorted_rows le xs h.1)

  collected_rows :
      (rows : List ChangeRow)
      → All Readable rows
      → IsOk (collect (row_to_state_change {Failure = Failure}) rows)
  collected_rows [] h = tt
  collected_rows (r ∷ rows) h =
      let rest = collected_rows rows h.1 in
      elim (Result-cases (row_to_state_change {Failure = Failure} r)) [
        | inr (e, failed) ↦ absurd (subst IsOk failed h.0)
        | inl (change, read) ↦
            elim (Result-cases (collect (row_to_state_change {Failure = Failure}) rows)) [
              | inr (e, failed) ↦ absurd (subst IsOk failed rest)
              | inl (changes, found) ↦ ground arith
            ]
      ]

map_err-IsOk : {E F A : Type 0} (f : E → F) (r : Result E A) → IsOk r → IsOk (map_err f r)
map_err-IsOk f (ok a) h = tt
map_err-IsOk f (err e) h = absurd h

module _ {Conn Failure : Type 0} {sqlite : Sqlite Conn Failure} (session : HasSession sqlite) where
  -- After uchi-pulse-settings has saved an action, the hub's query for the state changes of the action
  -- answers, wherever the file can be read.
  pub list_action_state_changes-save_action :
      (c : Conn) (action : ActionRecord)
      → (session.view c).saved ≡ none
      → (save_action sqlite c action).0 ≡ ok tt
      → (t : Tables) → sqlite.read (save_action sqlite c action).1 ≡ ok t
      → IsOk (list_action_state_changes sqlite (save_action sqlite c action).1 action.action_id)
  unfolding list_action_state_changes check_action
  list_action_state_changes-save_action c action closed done t answered =
      let saved = (save_action_result session c action closed).0 done in
      let checked : check_states {Failure = Failure} action.state_changes ≡ ok tt =
        let passed = saved.0 in ground arith in
      let tables = session.seen (save_action sqlite c action).1 t answered ∙ saved.2 in
      let by_state = λ (a b : ChangeRow). text_le a.state_type b.state_type in
      let listed = λ (u : Tables). map_err sqlite_error (
        collect (row_to_state_change {Failure = Failure})
          (order_by by_state (keep_if (λ r. r.action_id == action.action_id) u.changes))) in
      let rows =
        found_rows Failure action.action_id (session.view c).tables.changes
          (map (change_row action.action_id) action.state_changes)
          (checked_rows Failure action.action_id action.state_changes checked) in
      let readable : IsOk (listed (with_action action (session.view c).tables)) =
        map_err-IsOk sqlite_error _
          (collected_rows Failure _ (sorted_rows Failure by_state _ rows)) in
      subst
        (λ r. IsOk (
          map_err sqlite_error (
            map_err failure r >>= λ u.
            collect (row_to_state_change {Failure = Failure})
              (order_by by_state (keep_if (λ r. r.action_id == action.action_id) u.changes)))))
        (sym answered) (subst (λ u. IsOk (listed u)) (sym tables) readable)

-- ===== src/Desktop/Saved.antt =====
-- What saving an action leaves in the file, said without its statements, and that the hub can read
-- the states that uchi-pulse-settings lets pass.
use uchi_pulse.Base.{
  ℕ, ◌≡◌, refl, sym, ap, ◌∙◌, inl, inr, not, ◌||◌, ◌==◌, none, some, List, [], ◌∷◌, ◌++◌, map,
  keep_if, Result, ok, err, arith, Result-cases, Bool-cases, append-nil, append_assoc, subst,
  if◌then◌else◌, is_empty,
}
use uchi_pulse.Store.Tables.{ActionRow, ChangeRow, SettingRow, TargetRow, Tables, update_if}
use uchi_pulse.Store.Schema.{has_action}
use uchi_pulse.Store.Sqlite.{
  Sqlite, HasSession, SqlError, invalid_parameter_name, Change, write, durable, transaction,
}
use uchi_pulse.Store.Sqlite.Atomic.{apply_all, transaction_atomic}
use uchi_pulse.Store.Sqlite.Steps.{Leads, one_allowed, one_write}
use uchi_pulse.Store.Statements.{
  put_action, add_change, add_setting, add_target, drop_settings, drop_targets,
}
use uchi_pulse.Desktop.{StateChangeRecord, ActionRecord, EditError}
use uchi_pulse.Desktop.Control
use uchi_pulse.Desktop.Writes.{checked}
use uchi_pulse.Desktop.Actions.{
  action_row, setting_rows, change_step, action_steps, write_action, check_action, save_action,
}

abbrev pub change_row : ℕ → StateChangeRecord → ChangeRow
change_row id change = record {
  action_id = id;
  state_type = change.state_type;
  state_value = change.state_value;
}

abbrev pub target_row : ℕ → ℕ → TargetRow
target_row id family = record { action_id = id; family_id = family }

-- The action's rows are the given ones, and those of other actions are as they were.
abbrev pub with_action : ActionRecord → Tables → Tables
with_action action t = record t {
  actions =
      if has_action t action.action_id
      then update_if (λ r. r.action_id == action.action_id) (λ _. action_row action) t.actions
      else t.actions ++ (action_row action ∷ []);
  changes =
      keep_if (λ r. not (r.action_id == action.action_id)) t.changes
      ++ map (change_row action.action_id) action.state_changes;
  settings = keep_if (λ r. not (r.action_id == action.action_id)) t.settings ++ setting_rows action;
  targets =
      keep_if (λ r. not (r.action_id == action.action_id)) t.targets
      ++ map (target_row action.action_id) action.notification_targets;
}

put_rows :
    (row : ActionRow) (t u : Tables) (n : ℕ)
    → put_action row t ≡ some (n, u)
    → u ≡ record t {
      actions =
          if has_action t row.action_id
          then update_if (λ r. r.action_id == row.action_id) (λ _. row) t.actions
          else t.actions ++ (row ∷ []);
    }
unfolding write
put_rows row t u n h = ground arith

module _ (Failure : Type 0) where
  one_put :
      (row : ActionRow) (rest : List (Result (SqlError Failure) Change)) (t after : Tables)
      → Leads (ok (put_action row) ∷ rest) t after
      → Leads rest
          (record t {
            actions =
                if has_action t row.action_id
                then update_if (λ r. r.action_id == row.action_id) (λ _. row) t.actions
                else t.actions ++ (row ∷ []);
          })
          after
  one_put row rest t after h =
      let (n, u, allowed, led) = one_allowed (put_action row) rest t after h in
      subst (λ v. Leads rest v after) (put_rows row t u n allowed) led

  changes_put :
      (id : ℕ) (cs : List StateChangeRecord) (t : Tables)
      (rest : List (Result (SqlError Failure) Change)) (after : Tables)
      → Leads (map (change_step id) cs ++ rest) t after
      → Leads rest (record t { changes = t.changes ++ map (change_row id) cs }) after
  unfolding change_step
  changes_put id [] t rest after h =
      subst (λ rows. Leads rest (record t { changes = rows }) after) (sym (append-nil t.changes)) h
  changes_put id (c ∷ cs) t rest after h =
      elim (Bool-cases (is_empty c.state_type || is_empty c.state_value)) [
        | inl blank ↦ absurd (let made = h.applied in ground arith)
        | inr filled ↦
            let sent =
              subst (λ step. Leads (step ∷ (map (change_step id) cs ++ rest)) t after)
                (ap
                  (λ b. if b then err invalid_parameter_name else ok (add_change (change_row id c)))
                  filled)
                h in
            subst (λ rows. Leads rest (record t { changes = rows }) after)
              (append_assoc t.changes (change_row id c ∷ []) (map (change_row id) cs))
              (changes_put id cs _ rest after (one_write _ _ t after sent))
      ]

  settings_put :
      (rows : List SettingRow) (t : Tables) (rest : List (Result (SqlError Failure) Change))
      (after : Tables)
      → Leads (map (λ row. ok (add_setting row)) rows ++ rest) t after
      → Leads rest (record t { settings = t.settings ++ rows }) after
  settings_put [] t rest after h =
      subst (λ rows. Leads rest (record t { settings = rows }) after) (sym (append-nil t.settings))
        h
  settings_put (row ∷ rows) t rest after h =
      subst (λ all. Leads rest (record t { settings = all }) after)
        (append_assoc t.settings (row ∷ []) rows)
        (settings_put rows _ rest after (one_write _ _ t after h))

  targets_put :
      (id : ℕ) (families : List ℕ) (t after : Tables)
      → Leads {E = SqlError Failure}
          (map (λ family. ok (add_target (target_row id family))) families)
          t
          after
      → after ≡ record t { targets = t.targets ++ map (target_row id) families }
  targets_put id [] t after h =
      let same : t ≡ after = let made = h.applied in ground arith in
      let rows = sym (append-nil t.targets) in sym same ∙ (λ i. record t { targets = rows i })
  targets_put id (n ∷ ns) t after h =
      let rows = append_assoc t.targets (target_row id n ∷ []) (map (target_row id) ns) in
      targets_put id ns _ after (one_write _ _ t after h) ∙ (λ i. record t { targets = rows i })

  action_put :
      (action : ActionRecord) (t after : Tables)
      → apply_all {E = SqlError Failure} (action_steps action) t ≡ some after
      → after ≡ with_action action t
  unfolding action_steps
  action_put action t after h =
      let id = action.action_id in
      let drop_old_targets : Result (SqlError Failure) Change =
        ok (drop_targets (λ r. r.action_id == id)) in
      let targets_step =
        drop_old_targets
        ∷ map (λ family. ok (add_target (target_row id family))) action.notification_targets in
      let settings_steps =
        ok (drop_settings (λ r. r.action_id == id))
        ∷ (map (λ row. ok (add_setting row)) (setting_rows action) ++ targets_step) in
      let put = one_put (action_row action) _ t after (record { applied = h }) in
      let dropped = one_write _ _ _ after put in
      let changed = changes_put id action.state_changes _ settings_steps after dropped in
      let reset = one_write _ _ _ after changed in
      let noted = settings_put (setting_rows action) _ targets_step after reset in
      targets_put id action.notification_targets _ after (one_write _ _ _ after noted)

module _ {Conn Failure : Type 0} {sqlite : Sqlite Conn Failure} (session : HasSession sqlite) where
  -- What the transaction of an action does, once the checks have let the action pass.
  write_action_result :
      (c : Conn) (action : ActionRecord)
      → (session.view c).saved ≡ none
      → ((write_action sqlite c action).0 ≡ ok tt
          → ((session.view (write_action sqlite c action).1).saved ≡ none)
            × ((session.view (write_action sqlite c action).1).tables
                ≡ with_action action (session.view c).tables))
        × ((e : EditError Failure)
            → (write_action sqlite c action).0 ≡ err e
            → durable (session.view (write_action sqlite c action).1) ≡ (session.view c).tables)
  write_action_result c action closed =
      let sent = transaction sqlite c (action_steps action) in
      let atomic = transaction_atomic session c (action_steps action) closed in
      elim (Result-cases sent.0) [
        | inr (e, failed) ↦ ground (arith, atomic.1 e failed)
        | inl (_, done) ↦
            let made = atomic.0 done in
            let written =
              action_put Failure action (session.view c).tables (session.view sent.1).tables
                made.1 in
            ground arith
      ]

  checked_result :
      (c : Conn) (action : ActionRecord) (check : Result (EditError Failure) Unit)
      → (session.view c).saved ≡ none
      → ((checked sqlite c check (write_action sqlite c action)).0 ≡ ok tt
          → (check ≡ ok tt)
            × ((session.view (checked sqlite c check (write_action sqlite c action)).1).saved
                ≡ none)
            × ((session.view (checked sqlite c check (write_action sqlite c action)).1).tables
                ≡ with_action action (session.view c).tables))
        × ((e : EditError Failure)
            → (checked sqlite c check (write_action sqlite c action)).0 ≡ err e
            → durable (session.view (checked sqlite c check (write_action sqlite c action)).1)
              ≡ (session.view c).tables)
  unfolding durable
  checked_result c action (err e) closed = ground arith
  checked_result c action (ok _) closed =
      let written = write_action_result c action closed in
      (λ h. let w = written.0 h in (refl, w.0, w.1), written.1)

  -- From a connection with no transaction open: if uchi-pulse-settings saves an action, the action has
  -- passed its checks, the transaction is closed, and the tables are those of before with the rows of
  -- this action replaced; if it does not, the file holds the tables of before.
  pub save_action_result :
      (c : Conn) (action : ActionRecord)
      → (session.view c).saved ≡ none
      → ((save_action sqlite c action).0 ≡ ok tt
          → (check_action {Failure = Failure} action ≡ ok tt)
            × ((session.view (save_action sqlite c action).1).saved ≡ none)
            × ((session.view (save_action sqlite c action).1).tables
                ≡ with_action action (session.view c).tables))
        × ((e : EditError Failure)
            → (save_action sqlite c action).0 ≡ err e
            → durable (session.view (save_action sqlite c action).1) ≡ (session.view c).tables)
  unfolding save_action
  save_action_result c action closed = checked_result c action (check_action action) closed

  -- The same of uchi-pulse-control, with the checks that it makes.
  pub control_save_result :
      (c : Conn) (action : ActionRecord)
      → (session.view c).saved ≡ none
      → ((Control.save_action sqlite c action).0 ≡ ok tt
          → (Control.check_action {Failure = Failure} action ≡ ok tt)
            × ((session.view (Control.save_action sqlite c action).1).saved ≡ none)
            × ((session.view (Control.save_action sqlite c action).1).tables
                ≡ with_action action (session.view c).tables))
        × ((e : EditError Failure)
            → (Control.save_action sqlite c action).0 ≡ err e
            → durable (session.view (Control.save_action sqlite c action).1)
              ≡ (session.view c).tables)
  unfolding Control.save_action
  control_save_result c action closed = checked_result c action (Control.check_action action) closed

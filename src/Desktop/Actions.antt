-- ===== src/Desktop/Actions.antt =====
-- apps/uchi-pulse-settings/src/db.rs: an action and what hangs on it are saved in one transaction.
use uchi_pulse.Base.{
  ℕ, str_eq, not, ◌&&◌, ◌||◌, ◌==◌, is_some, List, [], ◌∷◌, ◌++◌, map, is_empty, Result, ok, err,
  ◌>>◌, map_err, reject_if, if◌then◌else◌,
}
use uchi_pulse.Store.Tables.{ActionRow, SettingRow}
use uchi_pulse.Store.Sqlite.{Sqlite, SqlError, invalid_parameter_name, Change, transaction}
use uchi_pulse.Store.Statements.{
  put_action, drop_changes, add_change, drop_settings, add_setting, drop_targets, add_target,
}
use uchi_pulse.Desktop.{
  StateChangeRecord, ActionRecord, EditError, action_name_field, family_not_given, family_given,
  unknown_target_type, unfitting_state, sql_error, bool_int, null_if_empty, validate_required,
}
use uchi_pulse.Desktop.Labels.{states, values, has_code}
use uchi_pulse.Desktop.Writes.{checked}

abbrev pub action_row : ActionRecord → ActionRow
action_row action = record {
  action_id = action.action_id;
  action_name = action.action_name;
  target_type = action.target_type;
  target_family_id = action.target_family_id;
  web_message = null_if_empty action.web_message;
  enabled = bool_int action.enabled;
}

abbrev pub setting_rows : ActionRecord → List SettingRow
setting_rows action =
    if action.notification_enabled || not (is_empty action.notification_message)
    then record {
      action_id = action.action_id;
      notification_enabled = bool_int action.notification_enabled;
      notification_message = null_if_empty action.notification_message;
    }
      ∷ []
    else []

module _ {Failure : Type 0} where
  -- An empty text ends the transaction with an error of the program's own.
  unfoldable pub change_step : ℕ → StateChangeRecord → Result (SqlError Failure) Change
  change_step id change =
      if is_empty change.state_type || is_empty change.state_value
      then err invalid_parameter_name
      else ok (
          add_change (record {
            action_id = id;
            state_type = change.state_type;
            state_value = change.state_value;
          }))

  -- The statements between BEGIN IMMEDIATE and COMMIT.
  unfoldable pub action_steps : ActionRecord → List (Result (SqlError Failure) Change)
  action_steps action =
      ok (put_action (action_row action))
      ∷ ok (drop_changes (λ r. r.action_id == action.action_id))
      ∷ (map (change_step action.action_id) action.state_changes
          ++ (ok (drop_settings (λ r. r.action_id == action.action_id))
              ∷ (map (λ row. ok (add_setting row)) (setting_rows action)
                  ++ (ok (drop_targets (λ r. r.action_id == action.action_id))
                      ∷ map
                          (λ family. ok (
                            add_target
                              (record { action_id = action.action_id; family_id = family })))
                          action.notification_targets))))

  -- The three tests of the target.
  unfoldable pub check_target : ActionRecord → Result (EditError Failure) Unit
  check_target action =
      reject_if (str_eq action.target_type "FAMILY" && not (is_some action.target_family_id))
        family_not_given
      >> reject_if (str_eq action.target_type "COMMON" && is_some action.target_family_id)
          family_given
      >> reject_if (not (str_eq action.target_type "FAMILY" || str_eq action.target_type "COMMON"))
          unknown_target_type

  unfoldable pub check_states : List StateChangeRecord → Result (EditError Failure) Unit
  check_states [] = ok tt
  check_states (change ∷ rest) =
      reject_if
        (not (has_code states change.state_type)
          || not (has_code (values change.state_type) change.state_value))
        unfitting_state
      >> check_states rest

  unfoldable pub check_action : ActionRecord → Result (EditError Failure) Unit
  check_action action =
      validate_required action_name_field action.action_name
      >> check_target action
      >> check_states action.state_changes

module _ {Conn Failure : Type 0} (sqlite : Sqlite Conn Failure) where
  -- The transaction, with its error as the program tells it.
  abbrev pub write_action : Conn → ActionRecord → Result (EditError Failure) Unit × Conn
  write_action c action =
      let (r, after) = transaction sqlite c (action_steps action) in (map_err sql_error r, after)

  unfoldable pub save_action : Conn → ActionRecord → Result (EditError Failure) Unit × Conn
  save_action c action = checked sqlite c (check_action action) (write_action c action)

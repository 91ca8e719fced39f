-- ===== src/Desktop/Tests.antt =====
-- An action for the first family, saved by both programs, and one that a lost COMMIT leaves unsaved.
use uchi_pulse.Base.{false, All, ◌≡◌, refl, true, some, [], ◌∷◌, IsOk, is_blank, is_whitespace}
use uchi_pulse.Store.Tables.{Tables}
use uchi_pulse.Store.Schema.{unique_by, action_ok, change_ok, is_consistent}
use uchi_pulse.Store.Sqlite.{
  write, on_tables, begin, commit, durable, SqlError, execute, run_all, transaction,
}
use uchi_pulse.Store.Sqlite.Faulty.{
  Faulty, works, fails, take_turn, faulty, faulty_session, no_rows, connected,
}
use uchi_pulse.Hub.Database.Queries.{list_action_state_changes}
use uchi_pulse.Desktop.{ActionRecord, sql_error}
use uchi_pulse.Desktop.Labels.{states, values}
use uchi_pulse.Desktop.Actions.{
  change_step, action_steps, check_target, check_states, check_action, save_action,
}
use uchi_pulse.Desktop.Control
use uchi_pulse.Desktop.Saved.{with_action, save_action_result, control_save_result}
use uchi_pulse.Desktop.Checks.{HasTarget, IsFitting, check_action_iff}
use uchi_pulse.Desktop.Readable.{list_action_state_changes-save_action}

abbrev with_family : Tables
with_family = record no_rows {
  families = record { family_id = 1; display_name = "F"; enabled = 1 } ∷ [];
}

abbrev meal : ActionRecord
meal = record {
  action_id = 10;
  action_name = "meal";
  target_type = "FAMILY";
  target_family_id = some 1;
  web_message = "";
  enabled = true;
  state_changes = record { state_type = "MEAL_NOTICE"; state_value = "ON" } ∷ [];
  notification_enabled = true;
  notification_message = "";
  notification_targets = 1 ∷ [];
}

abbrev opened : Faulty
opened = connected with_family []

save_action_result_example :
    (save_action faulty opened meal).1.session.tables ≡ with_action meal with_family
unfolding save_action check_action check_target check_states states values is_blank is_whitespace
    action_steps change_step transaction run_all execute begin commit on_tables write is_consistent
    unique_by action_ok change_ok take_turn
save_action_result_example = ((save_action_result faulty_session opened meal refl).0 refl).2

-- BEGIN works, and nothing after it.
abbrev busy : Faulty
busy = connected with_family (works ∷ fails ∷ fails ∷ [])

busy_file : durable (Control.save_action faulty busy meal).1.session ≡ with_family
unfolding Control.save_action Control.check_action check_target is_blank is_whitespace action_steps
    change_step transaction run_all execute begin commit on_tables write is_consistent unique_by
    action_ok change_ok take_turn
busy_file =
    (control_save_result faulty_session busy meal refl).1 (sql_error (SqlError.failure tt)) refl

check_action_iff_example :
    (is_blank "meal" ≡ false) × HasTarget meal × All IsFitting meal.state_changes
unfolding check_action check_target check_states states values is_blank is_whitespace
check_action_iff_example = (check_action_iff {Failure = Unit} meal).1.0 refl

list_action_state_changes-save_action_example :
    IsOk (list_action_state_changes faulty (save_action faulty opened meal).1 10)
unfolding save_action check_action check_target check_states states values is_blank is_whitespace
    action_steps change_step transaction run_all execute begin commit on_tables write is_consistent
    unique_by action_ok change_ok take_turn
list_action_state_changes-save_action_example =
    list_action_state_changes-save_action faulty_session opened meal refl refl
      (with_action meal with_family) refl

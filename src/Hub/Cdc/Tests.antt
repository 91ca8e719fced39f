-- ===== src/Hub/Cdc/Tests.antt =====
-- Two pieces of input with three lines, and a configuration with one family and one action.
use uchi_pulse.Base.{
  Result, ok, ℕ, ◌≡◌, refl, true, false, none, some, List, [], ◌∷◌, is_blank, is_whitespace,
}
use uchi_pulse.Store.Schema.{unique_by, action_ok, change_ok, is_consistent}
use uchi_pulse.Store.Sqlite.{
  write, on_tables, begin, commit, durable, execute, run_all, transaction,
}
use uchi_pulse.Store.Sqlite.Faulty.{Faulty, take_turn, faulty, faulty_session, no_rows, connected}
use uchi_pulse.Hub.Database.Values.{DatabaseError}
use uchi_pulse.Hub.Cdc.Save.{
  target_type_name, state_type_name, state_value_name, config_steps, save_config,
}
use uchi_pulse.Hub.Cdc.Written.{replaced}
use uchi_pulse.Hub.Cdc.Saved.{save_config_result}
use uchi_pulse.Hub.Cdc.Handler.{HubJson, handle_line}
use uchi_pulse.Hub.Cdc.Handled.{Kept, handle_line-Kept}
use uchi_pulse.Common.Types.{TargetType, StateType, StateValue, state_type_eq}
use uchi_pulse.Hub.Cdc.{
  ParentConfig, ActionConfig, new_decoder, trim_end, unique_ids, check_target, check_changes,
  check_targets, check_actions, check_destinations, validate_config,
}
use uchi_pulse.Hub.Cdc.Lines.{feed_pieces, feed_pieces_result}
use uchi_pulse.Hub.Cdc.Valid.{IsValid, validate_config_iff}

abbrev as_ascii : List ℕ → List ℕ
as_ascii bytes = bytes

-- `ab`, CR and LF, then `c` and LF, cut inside the first line.
feed_pieces_result_example :
    feed_pieces as_ascii new_decoder ((97 ∷ []) ∷ (98 ∷ 13 ∷ 10 ∷ 99 ∷ 10 ∷ []) ∷ [])
    ≡ (97 ∷ 98 ∷ []) ∷ (99 ∷ []) ∷ []
unfolding trim_end
feed_pieces_result_example =
    feed_pieces_result as_ascii ((97 ∷ []) ∷ (98 ∷ 13 ∷ 10 ∷ 99 ∷ 10 ∷ []) ∷ [])

abbrev meal : ActionConfig
meal = record {
  action_id = 7;
  action_name = "meal";
  target_type = TargetType.family;
  target_family_id = some 2;
  web_message = none;
  enabled = true;
  state_changes = record { state_type = StateType.meal_notice; state_value = StateValue.on } ∷ [];
  notification_enabled = false;
  notification_message = none;
  notification_targets = 2 ∷ [];
}

abbrev home : ParentConfig
home = record {
  families = record { family_id = 2; display_name = "F"; enabled = true } ∷ [];
  actions = meal ∷ [];
  family_notification_destinations =
      record { family_id = 2; notification_type = "mail"; destination = "f"; enabled = true } ∷ [];
}

validate_config_iff_example : IsValid home
unfolding validate_config unique_ids check_target check_changes check_targets check_actions
    check_destinations state_type_eq is_blank is_whitespace
validate_config_iff_example = (validate_config_iff home).0 refl

-- The configuration of above, saved into a new file.
save_config_result_example :
    (save_config faulty (connected no_rows []) home).1.session.tables ≡ replaced home no_rows
unfolding save_config config_steps validate_config unique_ids check_target check_changes
    check_targets check_actions check_destinations state_type_eq is_blank is_whitespace transaction
    run_all execute begin commit on_tables write is_consistent unique_by action_ok change_ok
    take_turn target_type_name state_type_name state_value_name
save_config_result_example =
    ((save_config_result faulty_session (connected no_rows []) home refl).0 refl).2

-- Every line asks for `set_config`.
abbrev json : HubJson Unit Unit
json = record {
  read_request =
      λ line. ok (record { version = 1; request_id = "r"; command = "set_config"; params = tt });
  read_config = λ params. ok home;
  decimal = λ n. "";
  display = λ e. "";
}

abbrev version_one : Faulty → Result (DatabaseError Unit) ℕ
version_one c = ok 1

handle_line-Kept_example :
    Kept
      (handle_line json faulty version_one (connected no_rows []) "{}").0
      no_rows
      (durable (handle_line json faulty version_one (connected no_rows []) "{}").1.session)
handle_line-Kept_example =
    handle_line-Kept json version_one faulty_session (connected no_rows []) "{}" refl

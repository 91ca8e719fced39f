-- ===== src/Hub/Cdc/Save.antt =====
-- apps/uchi-pulse-hub/src/cdc.rs: a configuration is written in one transaction.
use uchi_pulse.Base.{
  ℕ, String, true, ◌||◌, List, [], ◌∷◌, ◌++◌, map, is_some, if◌then◌else◌, Result, ok, err, map_err,
}
use uchi_pulse.Common.Types.{TargetType, StateType, StateValue}
use uchi_pulse.Store.Tables.{
  FamilyRow, ActionRow, ChangeRow, SettingRow, TargetRow, DestinationRow, flag,
}
use uchi_pulse.Store.Sqlite.{Sqlite, SqlError, Change, transaction}
use uchi_pulse.Store.Statements.{
  add_family, add_action, add_change, add_setting, add_target, add_destination, drop_targets,
  drop_settings, drop_changes, drop_actions, drop_destinations, drop_families,
}
use uchi_pulse.Hub.Database.Values.{DatabaseError}
use uchi_pulse.Hub.Cdc.{
  ParentConfig, FamilyConfig, ActionConfig, StateChangeConfig, FamilyNotificationDestinationConfig,
  ConfigError, validate_config,
}

unfoldable pub target_type_name : TargetType → String
target_type_name TargetType.family = "FAMILY"
target_type_name TargetType.common = "COMMON"

unfoldable pub state_type_name : StateType → String
state_type_name StateType.entry_permission = "ENTRY_PERMISSION"
state_type_name StateType.meal_notice = "MEAL_NOTICE"
state_type_name StateType.snack_notice = "SNACK_NOTICE"
state_type_name StateType.help_notice = "HELP_NOTICE"
state_type_name StateType.mailbox = "MAILBOX"

unfoldable pub state_value_name : StateValue → String
state_value_name StateValue.unset = "UNSET"
state_value_name StateValue.on = "ON"
state_value_name StateValue.off = "OFF"
state_value_name StateValue.okay = "OK"
state_value_name StateValue.ng = "NG"
state_value_name StateValue.meeting = "MEETING"

abbrev pub default_config : ParentConfig
default_config = record { families = []; actions = []; family_notification_destinations = [] }

-- What the insertions write. The id of a destination is given by the schema.
abbrev pub family_row : FamilyConfig → FamilyRow
family_row family = record {
  family_id = family.family_id;
  display_name = family.display_name;
  enabled = flag family.enabled;
}

abbrev pub action_row : ActionConfig → ActionRow
action_row action = record {
  action_id = action.action_id;
  action_name = action.action_name;
  target_type = target_type_name action.target_type;
  target_family_id = action.target_family_id;
  web_message = action.web_message;
  enabled = flag action.enabled;
}

abbrev pub change_row : ℕ → StateChangeConfig → ChangeRow
change_row id change = record {
  action_id = id;
  state_type = state_type_name change.state_type;
  state_value = state_value_name change.state_value;
}

-- A setting is written only where there is something to keep.
abbrev pub setting_rows : ActionConfig → List SettingRow
setting_rows action =
    if action.notification_enabled || is_some action.notification_message
    then record {
      action_id = action.action_id;
      notification_enabled = flag action.notification_enabled;
      notification_message = action.notification_message;
    }
      ∷ []
    else []

abbrev pub target_row : ℕ → ℕ → TargetRow
target_row id family = record { action_id = id; family_id = family }

abbrev pub destination_row : FamilyNotificationDestinationConfig → DestinationRow
destination_row destination = record {
  id = 0;
  family_id = destination.family_id;
  notification_type = destination.notification_type;
  destination = destination.destination;
  enabled = flag destination.enabled;
}

module _ {E : Type 0} where
  -- The batch of DELETEs.
  abbrev pub clear_steps : List (Result E Change)
  clear_steps =
      ok (drop_targets (λ _. true))
      ∷ ok (drop_settings (λ _. true))
      ∷ ok (drop_changes (λ _. true))
      ∷ ok (drop_actions (λ _. true))
      ∷ ok (drop_destinations (λ _. true))
      ∷ ok (drop_families (λ _. true))
      ∷ []

  -- The loop over the actions, and what comes after it.
  abbrev pub actions_steps : List ActionConfig → List (Result E Change) → List (Result E Change)
  actions_steps [] after = after
  actions_steps (action ∷ rest) after =
      ok (add_action (action_row action))
      ∷ (map (λ change. ok (add_change (change_row action.action_id change))) action.state_changes
          ++ (map (λ row. ok (add_setting row)) (setting_rows action)
              ++ (map (λ family. ok (add_target (target_row action.action_id family)))
                    action.notification_targets
                  ++ actions_steps rest after)))

  unfoldable pub config_steps : ParentConfig → List (Result E Change)
  config_steps config =
      clear_steps
      ++ (map (λ family. ok (add_family (family_row family))) config.families
          ++ actions_steps config.actions (
              map (λ destination. ok (add_destination (destination_row destination)))
                config.family_notification_destinations))

-- Why a configuration was not read or saved; the texts for the response are not modelled.
pub data ConfigFailure (Failure : Type 0) : Type 0 where
  not_a_config : String → ConfigFailure Failure
  not_valid : ConfigError → ConfigFailure Failure
  not_written : SqlError Failure → ConfigFailure Failure
  not_read : DatabaseError Failure → ConfigFailure Failure

module _ {Conn Failure : Type 0} (sqlite : Sqlite Conn Failure) where
  unfoldable pub save_config : Conn → ParentConfig → Result (ConfigFailure Failure) Unit × Conn
  save_config c config = elim (validate_config config) [
    | err e ↦ (err (not_valid e), c)
    | ok _ ↦
        let (result, after) = transaction sqlite c (config_steps config) in
        (map_err not_written result, after)
  ]

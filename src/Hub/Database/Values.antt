-- ===== src/Hub/Database/Values.antt =====
-- apps/uchi-pulse-hub/src/db/repository.rs: how values stand in the columns, and how rows are read.
use uchi_pulse.Base.{
  ℕ, ◌≡◌, refl, String, str_eq, Bool, true, false, not, ◌==◌, some, Result, ok, err, ◌>>=◌,
  if◌then◌else◌,
}
use uchi_pulse.Common.Types.{TargetType, StateType, StateValue}
use uchi_pulse.Store.Tables.{
  DeviceRow, FamilyRow, ActionRow, ChangeRow, SettingRow, TargetRow, DestinationRow, EventRow,
}
use uchi_pulse.Store.Sqlite.{SqlError, conversion_failure}
use uchi_pulse.Hub.Database.{
  DeviceRecord, FamilyRecord, ActionRecord, ActionStateChangeRecord, NotificationSettingRecord,
  NotificationTargetRecord, FamilyNotificationDestination, EventRecord,
}

-- `DatabaseError`; its texts for `Display` are not modelled.
pub data DatabaseError (Failure : Type 0) : Type 0 where
  sqlite_error : SqlError Failure → DatabaseError Failure
  invalid_stored_value : String → String → DatabaseError Failure

abbrev pub bool_to_int : Bool → ℕ
bool_to_int true = 1
bool_to_int false = 0

-- `row.get::<_, i64>(n)? != 0`
abbrev pub int_to_bool : ℕ → Bool
int_to_bool n = not (n == 0)

unfoldable pub target_type_to_str : TargetType → String
target_type_to_str TargetType.family = "FAMILY"
target_type_to_str TargetType.common = "COMMON"

unfoldable pub state_type_to_str : StateType → String
state_type_to_str StateType.entry_permission = "ENTRY_PERMISSION"
state_type_to_str StateType.meal_notice = "MEAL_NOTICE"
state_type_to_str StateType.snack_notice = "SNACK_NOTICE"
state_type_to_str StateType.help_notice = "HELP_NOTICE"
state_type_to_str StateType.mailbox = "MAILBOX"

unfoldable pub state_value_to_str : StateValue → String
state_value_to_str StateValue.unset = "UNSET"
state_value_to_str StateValue.on = "ON"
state_value_to_str StateValue.off = "OFF"
state_value_to_str StateValue.okay = "OK"
state_value_to_str StateValue.ng = "NG"
state_value_to_str StateValue.meeting = "MEETING"

module _ {Failure : Type 0} where
  abbrev invalid_value : {A : Type 0} → String → String → Result (SqlError Failure) A
  invalid_value field value = err (conversion_failure field value)

  unfoldable pub target_type_from_str : String → Result (SqlError Failure) TargetType
  target_type_from_str value =
      if str_eq value "FAMILY"
      then ok TargetType.family
      else if str_eq value "COMMON"
      then ok TargetType.common
      else invalid_value "target_type" value

  unfoldable pub state_type_from_str : String → Result (SqlError Failure) StateType
  state_type_from_str value =
      if str_eq value "ENTRY_PERMISSION"
      then ok StateType.entry_permission
      else if str_eq value "MEAL_NOTICE"
      then ok StateType.meal_notice
      else if str_eq value "SNACK_NOTICE"
      then ok StateType.snack_notice
      else if str_eq value "HELP_NOTICE"
      then ok StateType.help_notice
      else if str_eq value "MAILBOX"
      then ok StateType.mailbox
      else invalid_value "state_type" value

  unfoldable pub state_value_from_str : String → Result (SqlError Failure) StateValue
  state_value_from_str value =
      if str_eq value "UNSET"
      then ok StateValue.unset
      else if str_eq value "ON"
      then ok StateValue.on
      else if str_eq value "OFF"
      then ok StateValue.off
      else if str_eq value "OK"
      then ok StateValue.okay
      else if str_eq value "NG"
      then ok StateValue.ng
      else if str_eq value "MEETING"
      then ok StateValue.meeting
      else invalid_value "state_value" value

  abbrev pub row_to_device : DeviceRow → Result (SqlError Failure) DeviceRecord
  row_to_device row = ok (record {
    device_id = row.device_id;
    name = row.name;
    device_type = row.device_type;
    registered_at = row.registered_at;
    updated_at = row.updated_at;
    enabled = int_to_bool row.enabled;
  })

  abbrev pub row_to_family : FamilyRow → Result (SqlError Failure) FamilyRecord
  row_to_family row = ok (record {
    family_id = row.family_id;
    display_name = row.display_name;
    enabled = int_to_bool row.enabled;
  })

  unfoldable pub row_to_action : ActionRow → Result (SqlError Failure) ActionRecord
  row_to_action row = do
    target_type ← target_type_from_str row.target_type
    ok (record {
      action_id = row.action_id;
      action_name = row.action_name;
      target_type = target_type;
      target_family_id = row.target_family_id;
      web_message = row.web_message;
      enabled = int_to_bool row.enabled;
    })

  unfoldable pub row_to_state_change : ChangeRow → Result (SqlError Failure) ActionStateChangeRecord
  row_to_state_change row = do
    state_type ← state_type_from_str row.state_type
    state_value ← state_value_from_str row.state_value
    ok (record { action_id = row.action_id; state_type = state_type; state_value = state_value })

  abbrev pub row_to_notification_setting :
      SettingRow → Result (SqlError Failure) NotificationSettingRecord
  row_to_notification_setting row = ok (record {
    action_id = row.action_id;
    notification_enabled = int_to_bool row.notification_enabled;
    notification_message = row.notification_message;
  })

  abbrev pub row_to_notification_target :
      TargetRow → Result (SqlError Failure) NotificationTargetRecord
  row_to_notification_target row =
      ok (record { action_id = row.action_id; family_id = row.family_id })

  abbrev pub row_to_family_destination :
      DestinationRow → Result (SqlError Failure) FamilyNotificationDestination
  row_to_family_destination row = ok (record {
    id = some row.id;
    family_id = row.family_id;
    notification_type = row.notification_type;
    destination = row.destination;
    enabled = int_to_bool row.enabled;
  })

  abbrev pub row_to_event : EventRow → Result (SqlError Failure) EventRecord
  row_to_event row = ok (record {
    id = some row.id;
    received_at = row.received_at;
    device_id = row.device_id;
    event_id = row.event_id;
    payload = row.payload;
  })

  -- What the hub writes for a value it reads back as that value.
  pub target_type_from_str-to_str :
      (v : TargetType) → target_type_from_str (target_type_to_str v) ≡ ok v
  unfolding target_type_from_str target_type_to_str
  target_type_from_str-to_str TargetType.family = refl
  target_type_from_str-to_str TargetType.common = refl

  pub state_type_from_str-to_str :
      (v : StateType) → state_type_from_str (state_type_to_str v) ≡ ok v
  unfolding state_type_from_str state_type_to_str
  state_type_from_str-to_str StateType.entry_permission = refl
  state_type_from_str-to_str StateType.meal_notice = refl
  state_type_from_str-to_str StateType.snack_notice = refl
  state_type_from_str-to_str StateType.help_notice = refl
  state_type_from_str-to_str StateType.mailbox = refl

  pub state_value_from_str-to_str :
      (v : StateValue) → state_value_from_str (state_value_to_str v) ≡ ok v
  unfolding state_value_from_str state_value_to_str
  state_value_from_str-to_str StateValue.unset = refl
  state_value_from_str-to_str StateValue.on = refl
  state_value_from_str-to_str StateValue.off = refl
  state_value_from_str-to_str StateValue.okay = refl
  state_value_from_str-to_str StateValue.ng = refl
  state_value_from_str-to_str StateValue.meeting = refl

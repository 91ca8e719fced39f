-- ===== src/Hub/Database/Writes.antt =====
-- apps/uchi-pulse-hub/src/db/repository.rs: the functions of `Database` that write. An id that the
-- schema gives is 0 in the row that is sent.
use uchi_pulse.Base.{ℕ, String, str_eq, Bool, ◌&&◌, ◌==◌, Result, map_err, map_ok}
use uchi_pulse.Common.Types.{StateType}
use uchi_pulse.Store.Tables.{DeviceRow, FamilyRow, ActionRow, EventRow}
use uchi_pulse.Store.Sqlite.{Sqlite, Change, on_tables, execute}
use uchi_pulse.Store.Statements.{
  add_device, change_devices, drop_devices, add_family, change_families, add_action, change_actions,
  add_change, drop_changes, put_setting, add_target, drop_targets, add_destination_with_id,
  drop_destinations, add_event_or_ignore,
}
use uchi_pulse.Hub.Database.{
  DeviceRecord, FamilyRecord, ActionRecord, ActionStateChangeRecord, NotificationSettingRecord,
  NotificationTargetRecord, FamilyNotificationDestination, EventRecord,
}
use uchi_pulse.Hub.Database.Values.{
  DatabaseError, sqlite_error, bool_to_int, target_type_to_str, state_type_to_str,
  state_value_to_str,
}

abbrev device_row : DeviceRecord → DeviceRow
device_row device = record {
  device_id = device.device_id;
  name = device.name;
  device_type = device.device_type;
  registered_at = device.registered_at;
  updated_at = device.updated_at;
  enabled = bool_to_int device.enabled;
}

abbrev pub family_row : FamilyRecord → FamilyRow
family_row family = record {
  family_id = family.family_id;
  display_name = family.display_name;
  enabled = bool_to_int family.enabled;
}

abbrev action_row : ActionRecord → ActionRow
action_row action = record {
  action_id = action.action_id;
  action_name = action.action_name;
  target_type = target_type_to_str action.target_type;
  target_family_id = action.target_family_id;
  web_message = action.web_message;
  enabled = bool_to_int action.enabled;
}

abbrev pub event_row : EventRecord → EventRow
event_row event = record {
  id = 0;
  received_at = event.received_at;
  device_id = event.device_id;
  event_id = event.event_id;
  payload = event.payload;
}

module _ {Conn Failure : Type 0} (sqlite : Sqlite Conn Failure) where
  abbrev send : Conn → Change → Result (DatabaseError Failure) ℕ × Conn
  send c change =
      let (r, after) = execute sqlite c (on_tables change) in (map_err sqlite_error r, after)

  -- `execute(...)?; Ok(())` and `Ok(execute(...)? == 1)`
  abbrev send_only : Conn → Change → Result (DatabaseError Failure) Unit × Conn
  send_only c change = let (r, after) = send c change in (map_ok (λ _. tt) r, after)

  abbrev pub send_one : Conn → Change → Result (DatabaseError Failure) Bool × Conn
  send_one c change = let (r, after) = send c change in (map_ok (λ changed. changed == 1) r, after)

  unfoldable pub insert_device : Conn → DeviceRecord → Result (DatabaseError Failure) Unit × Conn
  insert_device c device = send_only c (add_device (device_row device))

  unfoldable pub update_device : Conn → DeviceRecord → Result (DatabaseError Failure) Bool × Conn
  update_device c device =
      send_one c
        (change_devices (λ r. str_eq r.device_id device.device_id) (λ _. device_row device))

  unfoldable pub delete_device : Conn → String → Result (DatabaseError Failure) Bool × Conn
  delete_device c device_id = send_one c (drop_devices (λ r. str_eq r.device_id device_id))

  unfoldable pub insert_family : Conn → FamilyRecord → Result (DatabaseError Failure) Unit × Conn
  insert_family c family = send_only c (add_family (family_row family))

  unfoldable pub update_family : Conn → FamilyRecord → Result (DatabaseError Failure) Bool × Conn
  update_family c family =
      send_one c (change_families (λ r. r.family_id == family.family_id) (λ _. family_row family))

  unfoldable pub insert_action : Conn → ActionRecord → Result (DatabaseError Failure) Unit × Conn
  insert_action c action = send_only c (add_action (action_row action))

  unfoldable pub update_action : Conn → ActionRecord → Result (DatabaseError Failure) Bool × Conn
  update_action c action =
      send_one c (change_actions (λ r. r.action_id == action.action_id) (λ _. action_row action))

  unfoldable pub insert_action_state_change :
      Conn → ActionStateChangeRecord → Result (DatabaseError Failure) Unit × Conn
  insert_action_state_change c change = send_only c (
      add_change (record {
        action_id = change.action_id;
        state_type = state_type_to_str change.state_type;
        state_value = state_value_to_str change.state_value;
      }))

  unfoldable pub delete_action_state_change :
      Conn → ℕ → StateType → Result (DatabaseError Failure) Bool × Conn
  delete_action_state_change c action_id state_type = send_one c (
      drop_changes
        (λ r. r.action_id == action_id && str_eq r.state_type (state_type_to_str state_type)))

  unfoldable pub upsert_notification_setting :
      Conn → NotificationSettingRecord → Result (DatabaseError Failure) Unit × Conn
  upsert_notification_setting c setting = send_only c (
      put_setting (record {
        action_id = setting.action_id;
        notification_enabled = bool_to_int setting.notification_enabled;
        notification_message = setting.notification_message;
      }))

  unfoldable pub insert_notification_target :
      Conn → NotificationTargetRecord → Result (DatabaseError Failure) Unit × Conn
  insert_notification_target c target =
      send_only c
        (add_target (record { action_id = target.action_id; family_id = target.family_id }))

  unfoldable pub delete_notification_target :
      Conn → NotificationTargetRecord → Result (DatabaseError Failure) Bool × Conn
  delete_notification_target c target =
      send_one c
        (drop_targets (λ r. r.action_id == target.action_id && r.family_id == target.family_id))

  -- The answer is the id of the new row.
  unfoldable pub insert_family_notification_destination :
      Conn → FamilyNotificationDestination → Result (DatabaseError Failure) ℕ × Conn
  insert_family_notification_destination c destination =
      let (r, after) = execute sqlite c (
        add_destination_with_id (record {
          id = 0;
          family_id = destination.family_id;
          notification_type = destination.notification_type;
          destination = destination.destination;
          enabled = bool_to_int destination.enabled;
        })) in
      (map_ok (λ _. sqlite.last_insert_rowid after) (map_err sqlite_error r), after)

  unfoldable pub delete_family_notification_destination :
      Conn → ℕ → Result (DatabaseError Failure) Bool × Conn
  delete_family_notification_destination c id = send_one c (drop_destinations (λ r. r.id == id))

  unfoldable pub insert_event : Conn → EventRecord → Result (DatabaseError Failure) Bool × Conn
  insert_event c event = send_one c (add_event_or_ignore (event_row event))

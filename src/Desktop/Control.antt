-- ===== src/Desktop/Control.antt =====
-- apps/uchi-pulse-control/src/db.rs: the same functions in the other desktop program. Where its text
-- is that of uchi-pulse-settings, the definition of above is named; the checks of an action differ,
-- and a saved destination is answered without its id.
use uchi_pulse.Base.{ℕ, String, ◌==◌, List, Result, ◌>>◌, reject_if}
use uchi_pulse.Store.Sqlite.{Sqlite}
use uchi_pulse.Desktop.{
  DeviceRecord, FamilyRecord, ActionRecord, EventRecord, NotificationDestinationRecord, EditError,
  zero_action_id, action_name_field, validate_required,
}
use uchi_pulse.Desktop.Reads
use uchi_pulse.Desktop.Writes
use uchi_pulse.Desktop.Actions.{check_target, write_action}

module _ {Failure : Type 0} where
  unfoldable pub check_action : ActionRecord → Result (EditError Failure) Unit
  check_action action =
      reject_if (action.action_id == 0) zero_action_id
      >> validate_required action_name_field action.action_name
      >> check_target action

module _ {Conn Failure : Type 0} (sqlite : Sqlite Conn Failure) where
  abbrev pub list_devices : Conn → Result (EditError Failure) (List DeviceRecord)
  list_devices c = Reads.list_devices sqlite c

  abbrev pub save_device : String → Conn → DeviceRecord → Result (EditError Failure) Unit × Conn
  save_device now c device = Writes.save_device sqlite now c device

  abbrev pub delete_device : Conn → String → Result (EditError Failure) Unit × Conn
  delete_device c id = Writes.delete_device sqlite c id

  abbrev pub list_families : Conn → Result (EditError Failure) (List FamilyRecord)
  list_families c = Reads.list_families sqlite c

  abbrev pub save_family : Conn → FamilyRecord → Result (EditError Failure) Unit × Conn
  save_family c family = Writes.save_family sqlite c family

  abbrev pub delete_family : Conn → ℕ → Result (EditError Failure) Unit × Conn
  delete_family c id = Writes.delete_family sqlite c id

  abbrev pub load_action : Conn → ActionRecord → Result (EditError Failure) ActionRecord
  load_action c action = Reads.load_action sqlite c action

  abbrev pub list_actions : Conn → Result (EditError Failure) (List ActionRecord)
  list_actions c = Reads.list_actions sqlite c

  unfoldable pub save_action : Conn → ActionRecord → Result (EditError Failure) Unit × Conn
  save_action c action =
      Writes.checked sqlite c (check_action action) (write_action sqlite c action)

  abbrev pub delete_action : Conn → ℕ → Result (EditError Failure) Unit × Conn
  delete_action c id = Writes.delete_action sqlite c id

  abbrev pub list_notification_destinations :
      Conn → Result (EditError Failure) (List NotificationDestinationRecord)
  list_notification_destinations c = Reads.list_notification_destinations sqlite c

  abbrev pub save_notification_destination :
      Conn → NotificationDestinationRecord → Result (EditError Failure) Unit × Conn
  save_notification_destination c destination =
      let (sent, after) = Writes.send sqlite c (Writes.destination_statement sqlite destination) in
      Writes.checked sqlite c (Writes.check_destination sqlite destination) (sent, after)

  abbrev pub delete_notification_destination : Conn → ℕ → Result (EditError Failure) Unit × Conn
  delete_notification_destination c id = Writes.delete_notification_destination sqlite c id

  abbrev pub list_events : Conn → Result (EditError Failure) (List EventRecord)
  list_events c = Reads.list_events sqlite c

-- ===== src/Desktop/Writes.antt =====
-- apps/uchi-pulse-settings/src/db.rs: the functions of `SqliteDatabase` that write one row. The text
-- of `datetime('now')` is an argument.
use uchi_pulse.Base.{
  ℕ, String, str_eq, ◌==◌, none, some, Result, ok, err, ◌>>◌, map_err, map_ok, reject_if,
}
use uchi_pulse.Store.Tables.{DestinationRow}
use uchi_pulse.Store.Sqlite.{Sqlite, Statement, on_tables, execute}
use uchi_pulse.Store.Statements.{
  put_device, drop_devices, put_family, drop_families, drop_actions, change_destinations,
  add_destination_with_id, drop_destinations,
}
use uchi_pulse.Desktop.{
  DeviceRecord, FamilyRecord, NotificationDestinationRecord, EditError, device_id_field,
  device_name_field, device_type_field, display_name_field, notification_type_field,
  destination_field, zero_family_id, no_family_selected, sql_error, bool_int, validate_required,
}

module _ {Conn Failure : Type 0} (sqlite : Sqlite Conn Failure) where
  -- `execute(...).map_err(sql_error)?; Ok(())`
  abbrev pub send : Conn → Statement → Result (EditError Failure) Unit × Conn
  send c statement =
      let (r, after) = execute sqlite c statement in (map_ok (λ _. tt) (map_err sql_error r), after)

  -- Checks with `?` before a statement: where one fails, nothing is sent.
  abbrev pub checked :
      {A : Type 0}
      → Conn
      → Result (EditError Failure) Unit
      → Result (EditError Failure) A × Conn
      → Result (EditError Failure) A × Conn
  checked c (err e) sent = (err e, c)
  checked c (ok _) sent = sent

  unfoldable pub save_device : String → Conn → DeviceRecord → Result (EditError Failure) Unit × Conn
  save_device now c device =
      checked c
        (validate_required device_id_field device.device_id
          >> validate_required device_name_field device.name
          >> validate_required device_type_field device.device_type)
        (send c (
          on_tables (
            put_device
              (record {
                device_id = device.device_id;
                name = device.name;
                device_type = device.device_type;
                registered_at = now;
                updated_at = now;
                enabled = bool_int device.enabled;
              })
              (λ old. record old {
                name = device.name;
                device_type = device.device_type;
                updated_at = now;
                enabled = bool_int device.enabled;
              }))))

  unfoldable pub delete_device : Conn → String → Result (EditError Failure) Unit × Conn
  delete_device c device_id = send c (on_tables (drop_devices (λ r. str_eq r.device_id device_id)))

  unfoldable pub save_family : Conn → FamilyRecord → Result (EditError Failure) Unit × Conn
  save_family c family =
      checked c
        (reject_if (family.family_id == 0) zero_family_id
          >> validate_required display_name_field family.display_name)
        (send c (
          on_tables (
            put_family (record {
              family_id = family.family_id;
              display_name = family.display_name;
              enabled = bool_int family.enabled;
            }))))

  unfoldable pub delete_family : Conn → ℕ → Result (EditError Failure) Unit × Conn
  delete_family c family_id = send c (on_tables (drop_families (λ r. r.family_id == family_id)))

  unfoldable pub delete_action : Conn → ℕ → Result (EditError Failure) Unit × Conn
  delete_action c action_id = send c (on_tables (drop_actions (λ r. r.action_id == action_id)))

  abbrev destination_row : ℕ → NotificationDestinationRecord → DestinationRow
  destination_row id destination = record {
    id = id;
    family_id = destination.family_id;
    notification_type = destination.notification_type;
    destination = destination.destination;
    enabled = bool_int destination.enabled;
  }

  -- The UPDATE or the INSERT of a destination.
  abbrev pub destination_statement : NotificationDestinationRecord → Statement
  destination_statement destination = elim destination.id [
    | some id ↦
        on_tables (change_destinations (λ r. r.id == id) (λ _. destination_row id destination))
    | none ↦ add_destination_with_id (destination_row 0 destination)
  ]

  abbrev pub check_destination : NotificationDestinationRecord → Result (EditError Failure) Unit
  check_destination destination =
      reject_if (destination.family_id == 0) no_family_selected
      >> validate_required notification_type_field destination.notification_type
      >> validate_required destination_field destination.destination

  -- The answer is the id of the row, also where no row had the id.
  unfoldable pub save_notification_destination :
      Conn → NotificationDestinationRecord → Result (EditError Failure) ℕ × Conn
  save_notification_destination c destination =
      let (sent, after) = send c (destination_statement destination) in
      checked c (check_destination destination) (
        map_ok (λ _. elim destination.id [ some id ↦ id | none ↦ sqlite.last_insert_rowid after ])
            sent,
        after,
      )

  unfoldable pub delete_notification_destination : Conn → ℕ → Result (EditError Failure) Unit × Conn
  delete_notification_destination c id = send c (on_tables (drop_destinations (λ r. r.id == id)))

-- ===== src/Hub/Database/Queries.antt =====
-- apps/uchi-pulse-hub/src/db/repository.rs: the functions of `Database` that read.
use uchi_pulse.Base.{
  ℕ, String, str_eq, Bool, ◌==◌, leb, Option, none, some, List, keep_if, find, Result, ok, map_err,
  map_ok, collect,
}
use uchi_pulse.Store.Tables.{Tables, order_by, text_le}
use uchi_pulse.Store.Sqlite.{Sqlite, SqlError, query}
use uchi_pulse.Store.Statements.{is_key}
use uchi_pulse.Hub.Database.{
  DeviceRecord, FamilyRecord, ActionRecord, ActionStateChangeRecord, NotificationSettingRecord,
  NotificationTargetRecord, FamilyNotificationDestination, EventRecord,
}
use uchi_pulse.Hub.Database.Values.{
  DatabaseError, sqlite_error, row_to_device, row_to_family, row_to_action, row_to_state_change,
  row_to_notification_setting, row_to_notification_target, row_to_family_destination, row_to_event,
}

-- `query_row(...).optional()`: the first row, if there is one.
abbrev pub optional_row :
    {E Row A : Type 0} → (Row → Result E A) → (Row → Bool) → List Row → Result E (Option A)
optional_row read test rows = elim (find test rows) [
  | none ↦ ok none
  | some row ↦ map_ok some (read row)
]

module _ {Conn Failure : Type 0} (sqlite : Sqlite Conn Failure) where
  abbrev ask :
      {A : Type 0}
      → Conn
      → (Tables → Result (SqlError Failure) A)
      → Result (DatabaseError Failure) A
  ask c select = map_err sqlite_error (query sqlite c select)

  unfoldable pub get_device : Conn → String → Result (DatabaseError Failure) (Option DeviceRecord)
  get_device c device_id =
      ask c (λ t. optional_row row_to_device (λ r. str_eq r.device_id device_id) t.devices)

  unfoldable pub list_enabled_devices : Conn → Result (DatabaseError Failure) (List DeviceRecord)
  list_enabled_devices c = ask c (λ t.
      collect row_to_device (
        order_by (λ a b. text_le a.device_id b.device_id)
          (keep_if (λ r. r.enabled == 1) t.devices)))

  unfoldable pub get_family : Conn → ℕ → Result (DatabaseError Failure) (Option FamilyRecord)
  get_family c family_id =
      ask c (λ t. optional_row row_to_family (λ r. r.family_id == family_id) t.families)

  unfoldable pub list_families : Conn → Result (DatabaseError Failure) (List FamilyRecord)
  list_families c =
      ask c (λ t. collect row_to_family (order_by (λ a b. leb a.family_id b.family_id) t.families))

  unfoldable pub list_actions : Conn → Result (DatabaseError Failure) (List ActionRecord)
  list_actions c =
      ask c (λ t. collect row_to_action (order_by (λ a b. leb a.action_id b.action_id) t.actions))

  unfoldable pub get_action : Conn → ℕ → Result (DatabaseError Failure) (Option ActionRecord)
  get_action c action_id =
      ask c (λ t. optional_row row_to_action (λ r. r.action_id == action_id) t.actions)

  unfoldable pub list_action_state_changes :
      Conn → ℕ → Result (DatabaseError Failure) (List ActionStateChangeRecord)
  list_action_state_changes c action_id = ask c (λ t. collect row_to_state_change (
      order_by (λ a b. text_le a.state_type b.state_type)
        (keep_if (λ r. r.action_id == action_id) t.changes)))

  unfoldable pub get_notification_setting :
      Conn → ℕ → Result (DatabaseError Failure) (Option NotificationSettingRecord)
  get_notification_setting c action_id =
      ask c
        (λ t. optional_row row_to_notification_setting (λ r. r.action_id == action_id) t.settings)

  unfoldable pub list_notification_targets :
      Conn → ℕ → Result (DatabaseError Failure) (List NotificationTargetRecord)
  list_notification_targets c action_id = ask c (λ t. collect row_to_notification_target (
      order_by (λ a b. leb a.family_id b.family_id)
        (keep_if (λ r. r.action_id == action_id) t.targets)))

  unfoldable pub list_family_notification_destinations :
      Conn → ℕ → Result (DatabaseError Failure) (List FamilyNotificationDestination)
  list_family_notification_destinations c family_id = ask c (λ t.
      collect row_to_family_destination
        (order_by (λ a b. leb a.id b.id) (keep_if (λ r. r.family_id == family_id) t.destinations)))

  unfoldable pub get_event :
      Conn → String → String → Result (DatabaseError Failure) (Option EventRecord)
  get_event c device_id event_id =
      ask c (λ t. optional_row row_to_event (is_key device_id event_id) t.events)

-- ===== src/Desktop/Reads.antt =====
-- apps/uchi-pulse-settings/src/db.rs: the functions of `SqliteDatabase` that read.
use uchi_pulse.Base.{
  ℕ, String, Bool, false, not, ◌&&◌, ◌||◌, ◌==◌, leb, ltb, Option, none, some, List, [], keep_if,
  find, map, take, Result, ok, ◌>>=◌, map_err, collect,
}
use uchi_pulse.Store.Tables.{ActionRow, DestinationRow, Tables, order_by, text_le}
use uchi_pulse.Store.Sqlite.{Sqlite, query}
use uchi_pulse.Desktop.{
  DeviceRecord, FamilyRecord, ActionRecord, EventRecord, NotificationDestinationRecord, EditError,
  sql_error,
}

abbrev int_bool : ℕ → Bool
int_bool n = not (n == 0)

-- `unwrap_or_default()`
abbrev or_empty : Option String → String
or_empty none = ""
or_empty (some s) = s

module _ {Conn Failure : Type 0} (sqlite : Sqlite Conn Failure) where
  abbrev ask : {A : Type 0} → Conn → (Tables → A) → Result (EditError Failure) A
  ask c select = map_err sql_error (query sqlite c (λ t. ok (select t)))

  unfoldable pub list_devices : Conn → Result (EditError Failure) (List DeviceRecord)
  list_devices c = ask c (λ t.
      map
        (λ r. record {
          device_id = r.device_id;
          name = r.name;
          device_type = r.device_type;
          enabled = int_bool r.enabled;
        })
        (order_by (λ a b. text_le a.device_id b.device_id) t.devices))

  unfoldable pub list_families : Conn → Result (EditError Failure) (List FamilyRecord)
  list_families c = ask c (λ t.
      map
        (λ r. record {
          family_id = r.family_id;
          display_name = r.display_name;
          enabled = int_bool r.enabled;
        })
        (order_by (λ a b. leb a.family_id b.family_id) t.families))

  unfoldable pub load_action : Conn → ActionRecord → Result (EditError Failure) ActionRecord
  load_action c action = do
    changes ← ask c (λ t.
        map (λ r. record { state_type = r.state_type; state_value = r.state_value })
          (order_by (λ a b. text_le a.state_type b.state_type)
            (keep_if (λ r. r.action_id == action.action_id) t.changes)))
    setting ← ask c (λ t. find (λ r. r.action_id == action.action_id) t.settings)
    targets ← ask c (λ t.
        map (λ r. r.family_id)
          (order_by (λ a b. leb a.family_id b.family_id)
            (keep_if (λ r. r.action_id == action.action_id) t.targets)))
    ok (record action {
      state_changes = changes;
      notification_enabled = elim setting [
        | none ↦ action.notification_enabled
        | some r ↦ int_bool r.notification_enabled
      ];
      notification_message = elim setting [
        | none ↦ action.notification_message
        | some r ↦ or_empty r.notification_message
      ];
      notification_targets = targets;
    })

  -- The record before its children are loaded.
  abbrev bare_action : ActionRow → ActionRecord
  bare_action r = record {
    action_id = r.action_id;
    action_name = r.action_name;
    target_type = r.target_type;
    target_family_id = r.target_family_id;
    web_message = or_empty r.web_message;
    enabled = int_bool r.enabled;
    state_changes = [];
    notification_enabled = false;
    notification_message = "";
    notification_targets = [];
  }

  unfoldable pub list_actions : Conn → Result (EditError Failure) (List ActionRecord)
  list_actions c = do
    rows ← ask c (λ t. order_by (λ a b. leb a.action_id b.action_id) t.actions)
    collect (λ r. load_action c (bare_action r)) rows

  -- `ORDER BY family_id, id`
  abbrev destination_le : DestinationRow → DestinationRow → Bool
  destination_le a b = ltb a.family_id b.family_id || (a.family_id == b.family_id && leb a.id b.id)

  unfoldable pub list_notification_destinations :
      Conn → Result (EditError Failure) (List NotificationDestinationRecord)
  list_notification_destinations c = ask c (λ t.
      map
        (λ r. record {
          id = some r.id;
          family_id = r.family_id;
          notification_type = r.notification_type;
          destination = r.destination;
          enabled = int_bool r.enabled;
        })
        (order_by destination_le t.destinations))

  -- The last 500, the newest first.
  unfoldable pub list_events : Conn → Result (EditError Failure) (List EventRecord)
  list_events c = ask c (λ t.
      map
        (λ r. record {
          id = r.id;
          received_at = r.received_at;
          device_id = r.device_id;
          event_id = r.event_id;
        })
        (take 500 (order_by (λ a b. leb b.id a.id) t.events)))

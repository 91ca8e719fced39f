-- ===== src/Store/Statements.antt =====
-- The SQL statements that the programs send, as what they do to the rows: insertions and
-- ON CONFLICT DO UPDATE, updates, and deletions with the ON DELETE CASCADE of migrations.rs.
use uchi_pulse.Base.{
  ℕ, ◌+◌, String, str_eq, Bool, ◌&&◌, not, none, some, List, [], ◌∷◌, ◌++◌, ◌==◌, any, length,
  keep_if, if◌then◌else◌,
}
use uchi_pulse.Store.Tables.{
  DeviceRow, FamilyRow, ActionRow, ChangeRow, SettingRow, TargetRow, DestinationRow, EventRow,
  update_if,
}
use uchi_pulse.Store.Schema.{has_device, has_family, has_action}
use uchi_pulse.Store.Sqlite.{Statement, Change, write}

abbrev count : {A : Type 0} → (A → Bool) → List A → ℕ
count test rows = length (keep_if test rows)

abbrev others : {A : Type 0} → (A → Bool) → List A → List A
others test rows = keep_if (λ r. not (test r)) rows

-- INSERT INTO
abbrev pub add_device : DeviceRow → Change
add_device row = write (λ t. (1, record t { devices = t.devices ++ (row ∷ []) }))

abbrev pub add_family : FamilyRow → Change
add_family row = write (λ t. (1, record t { families = t.families ++ (row ∷ []) }))

abbrev pub add_action : ActionRow → Change
add_action row = write (λ t. (1, record t { actions = t.actions ++ (row ∷ []) }))

abbrev pub add_change : ChangeRow → Change
add_change row = write (λ t. (1, record t { changes = t.changes ++ (row ∷ []) }))

abbrev pub add_setting : SettingRow → Change
add_setting row = write (λ t. (1, record t { settings = t.settings ++ (row ∷ []) }))

abbrev pub add_target : TargetRow → Change
add_target row = write (λ t. (1, record t { targets = t.targets ++ (row ∷ []) }))

-- The id of the row is the next of AUTOINCREMENT; the one that is given counts for nothing.
abbrev pub add_destination : DestinationRow → Change
add_destination row = write (λ t. (
  1,
  record t {
    destinations = t.destinations ++ (record row { id = t.next_destination } ∷ []);
    next_destination = t.next_destination + 1;
  },
))

abbrev pub add_destination_with_id : DestinationRow → Statement
add_destination_with_id row s = elim (add_destination row s.tables) [
  | none ↦ none
  | some (n, t) ↦ some (n, record s { tables = t; last_rowid = s.tables.next_destination })
]

abbrev pub is_key : String → String → EventRow → Bool
is_key device event r = str_eq device r.device_id && str_eq event r.event_id

-- INSERT OR IGNORE: a row whose unique key is there is left out, and no row is changed.
abbrev pub add_event_or_ignore : EventRow → Change
add_event_or_ignore row t =
    if any (is_key row.device_id row.event_id) t.events
    then some (0, t)
    else write
        (λ t. (
          1,
          record t {
            events = t.events ++ (record row { id = t.next_event } ∷ []);
            next_event = t.next_event + 1;
          },
        ))
        t

-- UPDATE ... WHERE
abbrev pub change_devices : (DeviceRow → Bool) → (DeviceRow → DeviceRow) → Change
change_devices test new =
    write (λ t. (count test t.devices, record t { devices = update_if test new t.devices }))

abbrev pub change_families : (FamilyRow → Bool) → (FamilyRow → FamilyRow) → Change
change_families test new =
    write (λ t. (count test t.families, record t { families = update_if test new t.families }))

abbrev pub change_actions : (ActionRow → Bool) → (ActionRow → ActionRow) → Change
change_actions test new =
    write (λ t. (count test t.actions, record t { actions = update_if test new t.actions }))

abbrev pub change_settings : (SettingRow → Bool) → (SettingRow → SettingRow) → Change
change_settings test new =
    write (λ t. (count test t.settings, record t { settings = update_if test new t.settings }))

abbrev pub change_destinations :
    (DestinationRow → Bool) → (DestinationRow → DestinationRow) → Change
change_destinations test new = write (λ t.
    (count test t.destinations, record t { destinations = update_if test new t.destinations }))

-- INSERT INTO ... ON CONFLICT (the key) DO UPDATE
abbrev pub put_device : DeviceRow → (DeviceRow → DeviceRow) → Change
put_device row new t =
    if has_device t row.device_id
    then change_devices (λ d. str_eq d.device_id row.device_id) new t
    else add_device row t

abbrev pub put_family : FamilyRow → Change
put_family row t =
    if has_family t row.family_id
    then change_families (λ f. f.family_id == row.family_id) (λ _. row) t
    else add_family row t

abbrev pub put_action : ActionRow → Change
put_action row t =
    if has_action t row.action_id
    then change_actions (λ a. a.action_id == row.action_id) (λ _. row) t
    else add_action row t

abbrev pub put_setting : SettingRow → Change
put_setting row t =
    if any (λ s. s.action_id == row.action_id) t.settings
    then change_settings (λ s. s.action_id == row.action_id) (λ _. row) t
    else add_setting row t

-- DELETE FROM ... WHERE
abbrev pub drop_devices : (DeviceRow → Bool) → Change
drop_devices test =
    write (λ t. (count test t.devices, record t { devices = others test t.devices }))

-- The rows of a deleted family's targets and destinations go with it; an action that targets it
-- keeps it.
abbrev pub drop_families : (FamilyRow → Bool) → Change
drop_families test = write (λ t. (
  count test t.families,
  record t {
    families = others test t.families;
    targets = others (λ r. any (λ f. test f && f.family_id == r.family_id) t.families) t.targets;
    destinations =
        others (λ r. any (λ f. test f && f.family_id == r.family_id) t.families) t.destinations;
  },
))

abbrev pub drop_actions : (ActionRow → Bool) → Change
drop_actions test = write (λ t. (
  count test t.actions,
  record t {
    actions = others test t.actions;
    changes = others (λ r. any (λ a. test a && a.action_id == r.action_id) t.actions) t.changes;
    settings = others (λ r. any (λ a. test a && a.action_id == r.action_id) t.actions) t.settings;
    targets = others (λ r. any (λ a. test a && a.action_id == r.action_id) t.actions) t.targets;
  },
))

abbrev pub drop_changes : (ChangeRow → Bool) → Change
drop_changes test =
    write (λ t. (count test t.changes, record t { changes = others test t.changes }))

abbrev pub drop_settings : (SettingRow → Bool) → Change
drop_settings test =
    write (λ t. (count test t.settings, record t { settings = others test t.settings }))

abbrev pub drop_targets : (TargetRow → Bool) → Change
drop_targets test =
    write (λ t. (count test t.targets, record t { targets = others test t.targets }))

abbrev pub drop_destinations : (DestinationRow → Bool) → Change
drop_destinations test =
    write (λ t. (count test t.destinations, record t { destinations = others test t.destinations }))

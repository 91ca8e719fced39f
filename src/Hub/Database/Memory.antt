-- ===== src/Hub/Database/Memory.antt =====
-- Tables in memory that keep the interface's promises. The witnesses run on them.
use uchi_pulse.Base.{
  ◌≡◌, refl, String, str_eq, str_eq_iff, Bool, true, false, not, ◌&&◌, ◌||◌, none, some, List, [],
  ◌∷◌, any, find, keep_if, arith, ok, ◌==◌, if◌then◌else◌,
}
use uchi_pulse.Hub.Database.{
  DeviceRecord, FamilyRecord, ActionRecord, ActionStateChangeRecord, EventRecord, Repository,
  HasEventKeys,
}

pub record Tables : Type 0 where
  pub devices : List DeviceRecord
  pub families : List FamilyRecord
  pub actions : List ActionRecord
  pub changes : List ActionStateChangeRecord
  pub events : List EventRecord

abbrev pub is_event : String → String → EventRecord → Bool
is_event d e r = str_eq d r.device_id && str_eq e r.event_id

abbrev pub tables : Repository Tables Unit
tables = record {
  get_device = λ db id. ok (find (λ r. str_eq r.device_id id) db.devices);
  list_enabled_devices = λ db. ok (keep_if (λ r. r.enabled) db.devices);
  get_family = λ db n. ok (find (λ r. r.family_id == n) db.families);
  get_action = λ db n. ok (find (λ r. r.action_id == n) db.actions);
  list_action_state_changes = λ db n. ok (keep_if (λ r. r.action_id == n) db.changes);
  get_event = λ db d e. ok (find (is_event d e) db.events);
  insert_event = λ db r.
      if any (is_event r.device_id r.event_id) db.events
      then ok (false, db)
      else ok (true, record db { events = r ∷ db.events });
}

found_is_held :
    (d e : String) (rows : List EventRecord) (r : EventRecord)
    → find (is_event d e) rows ≡ some r
    → any (is_event d e) rows ≡ true
found_is_held d e [] r h = ground arith
found_is_held d e (s ∷ rows) r h = ground (arith, found_is_held d e rows r)

unfound_is_absent :
    (d e : String) (rows : List EventRecord)
    → find (is_event d e) rows ≡ none
    → any (is_event d e) rows ≡ false
unfound_is_absent d e [] h = refl
unfound_is_absent d e (s ∷ rows) h = ground (arith, unfound_is_absent d e rows)

pub get_some_lem :
    (db : Tables) (d e : String) (r : EventRecord)
    → tables.get_event db d e ≡ ok (some r)
    → any (is_event d e) db.events ≡ true
get_some_lem db d e r h = ground (arith, found_is_held d e db.events r)

pub get_none_lem :
    (db : Tables) (d e : String)
    → tables.get_event db d e ≡ ok none
    → any (is_event d e) db.events ≡ false
get_none_lem db d e h = ground (arith, unfound_is_absent d e db.events)

pub insert_new_lem :
    (db after : Tables) (r : EventRecord) (inserted : Bool)
    → tables.insert_event db r ≡ ok (inserted, after)
    → inserted ≡ not (any (is_event r.device_id r.event_id) db.events)
insert_new_lem db after r inserted h = ground arith

pub insert_has_lem :
    (db after : Tables) (r : EventRecord) (inserted : Bool)
    → tables.insert_event db r ≡ ok (inserted, after)
    → (d e : String)
    → any (is_event d e) after.events
      ≡ (any (is_event d e) db.events || (str_eq d r.device_id && str_eq e r.event_id))
insert_has_lem db after r inserted h d e =
    ground (arith, str_eq_iff d r.device_id, str_eq_iff e r.event_id)

abbrev pub table_keys : HasEventKeys tables
table_keys = record {
  has = λ db d e. any (is_event d e) db.events;
  get_some = get_some_lem;
  get_none = get_none_lem;
  insert_new = insert_new_lem;
  insert_has = insert_has_lem;
}

-- ===== src/Hub/Database.antt =====
-- apps/uchi-pulse-hub/src/db: the records of models.rs, and the queries that the hub's other parts
-- make as an interface. SQLite is not under the repository; what the interface promises is the
-- unique key of the table `events` and `INSERT OR IGNORE`.
pub mod Memory
pub mod Values
pub mod Queries
pub mod Writes
pub mod Keys
mod Tests
use uchi_pulse.Base.{
  ℕ, ◌≡◌, String, str_eq, Bool, true, false, not, ◌&&◌, ◌||◌, Option, none, some, List, Result, ok,
  err,
}
use uchi_pulse.Common.Types.{TargetType, StateType, StateValue}

pub record DeviceRecord : Type 0 where
  pub device_id : String
  pub name : String
  pub device_type : String
  pub registered_at : String
  pub updated_at : String
  pub enabled : Bool

pub record FamilyRecord : Type 0 where
  pub family_id : ℕ
  pub display_name : String
  pub enabled : Bool

pub record ActionRecord : Type 0 where
  pub action_id : ℕ
  pub action_name : String
  pub target_type : TargetType
  pub target_family_id : Option ℕ
  pub web_message : Option String
  pub enabled : Bool

pub record ActionStateChangeRecord : Type 0 where
  pub action_id : ℕ
  pub state_type : StateType
  pub state_value : StateValue

pub record NotificationSettingRecord : Type 0 where
  pub action_id : ℕ
  pub notification_enabled : Bool
  pub notification_message : Option String

pub record NotificationTargetRecord : Type 0 where
  pub action_id : ℕ
  pub family_id : ℕ

pub record FamilyNotificationDestination : Type 0 where
  pub id : Option ℕ
  pub family_id : ℕ
  pub notification_type : String
  pub destination : String
  pub enabled : Bool

pub record EventRecord : Type 0 where
  pub id : Option ℕ
  pub received_at : String
  pub device_id : String
  pub event_id : String
  pub payload : String

-- The queries of a connection of type `Db`; each may fail with a database error.
pub record Repository (Db Failure : Type 0) : Type 0 where
  pub get_device : Db → String → Result Failure (Option DeviceRecord)
  pub list_enabled_devices : Db → Result Failure (List DeviceRecord)
  pub get_family : Db → ℕ → Result Failure (Option FamilyRecord)
  pub get_action : Db → ℕ → Result Failure (Option ActionRecord)
  pub list_action_state_changes : Db → ℕ → Result Failure (List ActionStateChangeRecord)
  pub get_event : Db → String → String → Result Failure (Option EventRecord)
  pub insert_event : Db → EventRecord → Result Failure (Bool × Db)

-- The abstract content of the table `events`: the keys that it holds. A query that answers tells
-- whether its key is there, and an insertion that answers adds its key and tells whether it is new.
pub record HasEventKeys {Db Failure : Type 0} (repository : Repository Db Failure) : Type 0 where
  pub has : Db → String → String → Bool
  pub get_some :
      (db : Db) (d e : String) (r : EventRecord)
      → repository.get_event db d e ≡ ok (some r)
      → has db d e ≡ true
  pub get_none :
      (db : Db) (d e : String) → repository.get_event db d e ≡ ok none → has db d e ≡ false
  pub insert_new :
      (db after : Db) (r : EventRecord) (inserted : Bool)
      → repository.insert_event db r ≡ ok (inserted, after)
      → inserted ≡ not (has db r.device_id r.event_id)
  pub insert_has :
      (db after : Db) (r : EventRecord) (inserted : Bool)
      → repository.insert_event db r ≡ ok (inserted, after)
      → (d e : String)
      → has after d e ≡ (has db d e || (str_eq d r.device_id && str_eq e r.event_id))

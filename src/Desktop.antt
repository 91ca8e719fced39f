-- ===== src/Desktop.antt =====
-- apps/uchi-pulse-settings/src/db.rs and apps/uchi-pulse-control/src/db.rs: two desktop programs edit
-- the hub's file. Their records are alike; an error's text is a constructor here.
pub mod Labels
pub mod Reads
pub mod Writes
pub mod Actions
pub mod Control
pub mod Protocol
pub mod Saved
pub mod Checks
pub mod Readable
mod Tests
use uchi_pulse.Base.{
  ℕ, String, Bool, true, false, Option, none, some, List, Result, ok, err, is_blank, is_empty,
  if◌then◌else◌, reject_if,
}
use uchi_pulse.Store.Sqlite.{SqlError}

pub record DeviceRecord : Type 0 where
  pub device_id : String
  pub name : String
  pub device_type : String
  pub enabled : Bool

pub record FamilyRecord : Type 0 where
  pub family_id : ℕ
  pub display_name : String
  pub enabled : Bool

pub record StateChangeRecord : Type 0 where
  pub state_type : String
  pub state_value : String

pub record ActionRecord : Type 0 where
  pub action_id : ℕ
  pub action_name : String
  pub target_type : String
  pub target_family_id : Option ℕ
  pub web_message : String
  pub enabled : Bool
  pub state_changes : List StateChangeRecord
  pub notification_enabled : Bool
  pub notification_message : String
  pub notification_targets : List ℕ

pub record EventRecord : Type 0 where
  pub id : ℕ
  pub received_at : String
  pub device_id : String
  pub event_id : String

pub record NotificationDestinationRecord : Type 0 where
  pub id : Option ℕ
  pub family_id : ℕ
  pub notification_type : String
  pub destination : String
  pub enabled : Bool

-- The column that has to be filled in.
pub data RequiredField : Type 0 where
  device_id_field device_name_field device_type_field : RequiredField
  display_name_field action_name_field notification_type_field destination_field : RequiredField

pub data EditError (Failure : Type 0) : Type 0 where
  missing : RequiredField → EditError Failure
  zero_family_id zero_action_id no_family_selected : EditError Failure
  family_not_given family_given unknown_target_type unfitting_state : EditError Failure
  sql_error : SqlError Failure → EditError Failure

abbrev pub bool_int : Bool → ℕ
bool_int true = 1
bool_int false = 0

abbrev pub null_if_empty : String → Option String
null_if_empty value = if is_empty value then none else some value

abbrev pub validate_required :
    {Failure : Type 0} → RequiredField → String → Result (EditError Failure) Unit
validate_required field value = reject_if (is_blank value) (missing field)

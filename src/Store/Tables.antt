-- ===== src/Store/Tables.antt =====
-- apps/uchi-pulse-hub/src/db/migrations.rs: the tables of the schema, a record for each kind of row.
-- A column that may be NULL is an option, and an INTEGER is a natural number: the programs write
-- `u32` values and flags. Of AUTOINCREMENT the next number is kept.
use uchi_pulse.Base.{
  ℕ, String, Bool, true, false, ◌&&◌, ◌||◌, Option, List, [], ◌∷◌, ltb, ◌==◌, if◌then◌else◌, codes,
}

pub record DeviceRow : Type 0 where
  pub device_id : String
  pub name : String
  pub device_type : String
  pub registered_at : String
  pub updated_at : String
  pub enabled : ℕ

pub record FamilyRow : Type 0 where
  pub family_id : ℕ
  pub display_name : String
  pub enabled : ℕ

pub record ActionRow : Type 0 where
  pub action_id : ℕ
  pub action_name : String
  pub target_type : String
  pub target_family_id : Option ℕ
  pub web_message : Option String
  pub enabled : ℕ

pub record ChangeRow : Type 0 where
  pub action_id : ℕ
  pub state_type : String
  pub state_value : String

pub record SettingRow : Type 0 where
  pub action_id : ℕ
  pub notification_enabled : ℕ
  pub notification_message : Option String

pub record TargetRow : Type 0 where
  pub action_id : ℕ
  pub family_id : ℕ

pub record DestinationRow : Type 0 where
  pub id : ℕ
  pub family_id : ℕ
  pub notification_type : String
  pub destination : String
  pub enabled : ℕ

pub record EventRow : Type 0 where
  pub id : ℕ
  pub received_at : String
  pub device_id : String
  pub event_id : String
  pub payload : String

pub record Tables : Type 0 where
  pub devices : List DeviceRow
  pub families : List FamilyRow
  pub actions : List ActionRow
  pub changes : List ChangeRow
  pub settings : List SettingRow
  pub targets : List TargetRow
  pub destinations : List DestinationRow
  pub events : List EventRow
  pub next_destination : ℕ
  pub next_event : ℕ

-- A flag as it is stored.
abbrev pub flag : Bool → ℕ
flag true = 1
flag false = 0

-- `ORDER BY` a column, by insertion.
module _ {A : Type 0} (le : A → A → Bool) where
  abbrev pub insert_sorted : A → List A → List A
  insert_sorted x [] = x ∷ []
  insert_sorted x (y ∷ ys) = if le x y then x ∷ y ∷ ys else y ∷ insert_sorted x ys

  abbrev pub order_by : List A → List A
  order_by [] = []
  order_by (x ∷ xs) = insert_sorted x (order_by xs)

-- Texts are compared by their bytes, and UTF-8 keeps the order of the code points.
abbrev pub codes_le : List ℕ → List ℕ → Bool
codes_le [] cs = true
codes_le (b ∷ bs) [] = false
codes_le (b ∷ bs) (c ∷ cs) = ltb b c || (b == c && codes_le bs cs)

abbrev pub text_le : String → String → Bool
text_le s t = codes_le (codes s) (codes t)

-- `UPDATE`: each row that the test takes is changed.
abbrev pub update_if : {A : Type 0} → (A → Bool) → (A → A) → List A → List A
update_if test change [] = []
update_if test change (r ∷ rs) = (if test r then change r else r) ∷ update_if test change rs

-- ===== src/Hub/Cdc.antt =====
-- apps/uchi-pulse-hub/src/cdc.rs: the lines that the CDC worker takes from the serial port, and the
-- check of a configuration before it is saved. An error's text is a constructor here.
pub mod Ids
pub mod Lines
pub mod Valid
pub mod Save
pub mod Load
pub mod Handler
pub mod Saved
pub mod Handled
pub mod Written
mod Tests
use uchi_pulse.Base.{
  ℕ, String, Bool, true, false, not, ◌||◌, Option, none, some, List, [], ◌∷◌, ◌++◌, map, any,
  length, leb, ◌==◌, if◌then◌else◌, Result, ok, err, ◌>>=◌, ◌>>◌, reject_if, is_blank,
}
use uchi_pulse.Common.Types.{TargetType, StateType, StateValue, state_type_eq}

abbrev pub max_cdc_line_size : ℕ
max_cdc_line_size = 65536

pub record LineDecoder : Type 0 where
  pub current : List ℕ
  pub dropping : Bool

abbrev pub new_decoder : LineDecoder
new_decoder = record { current = []; dropping = false }

-- `trim_end_matches('\r')`
unfoldable pub trim_end : List ℕ → List ℕ
trim_end [] = []
trim_end (c ∷ cs) = elim (trim_end cs) [ [] ↦ if c == 13 then [] else c ∷ [] | d ∷ ds ↦ c ∷ d ∷ ds ]

-- The writes of one round of the loop in `feed`.
unfoldable pub take_byte : LineDecoder → ℕ → LineDecoder
take_byte d b =
    if b == 10
    then new_decoder
    else if d.dropping
    then d
    else if leb max_cdc_line_size (length d.current)
    then record { current = []; dropping = true }
    else record d { current = d.current ++ (b ∷ []) }

-- `lossy` is `String::from_utf8_lossy`; a line is its code points.
module _ (lossy : List ℕ → List ℕ) where
  abbrev pub line_of : List ℕ → List ℕ
  line_of bytes = trim_end (lossy bytes)

  unfoldable pub feed : LineDecoder → List ℕ → List (List ℕ) × LineDecoder
  feed d [] = ([], d)
  feed d (b ∷ bs) =
      let (lines, after) = feed (take_byte d b) bs in
      (if b == 10 then (if d.dropping then lines else line_of d.current ∷ lines) else lines, after)

pub record FamilyConfig : Type 0 where
  pub family_id : ℕ
  pub display_name : String
  pub enabled : Bool

pub record StateChangeConfig : Type 0 where
  pub state_type : StateType
  pub state_value : StateValue

pub record ActionConfig : Type 0 where
  pub action_id : ℕ
  pub action_name : String
  pub target_type : TargetType
  pub target_family_id : Option ℕ
  pub web_message : Option String
  pub enabled : Bool
  pub state_changes : List StateChangeConfig
  pub notification_enabled : Bool
  pub notification_message : Option String
  pub notification_targets : List ℕ

pub record FamilyNotificationDestinationConfig : Type 0 where
  pub family_id : ℕ
  pub notification_type : String
  pub destination : String
  pub enabled : Bool

pub record ParentConfig : Type 0 where
  pub families : List FamilyConfig
  pub actions : List ActionConfig
  pub family_notification_destinations : List FamilyNotificationDestinationConfig

pub data ConfigError : Type 0 where
  duplicate_id invalid_target_family common_targets_family : ℕ → ConfigError
  duplicate_state_type invalid_notification_target : ℕ → ConfigError
  invalid_destination_family : ℕ → ConfigError
  empty_destination : ConfigError

-- The set of the ids that were seen is a list.
unfoldable pub unique_ids : List ℕ → List ℕ → Result ConfigError (List ℕ)
unique_ids seen [] = ok seen
unique_ids seen (n ∷ ns) =
    let rest = unique_ids (n ∷ seen) ns in
    if any (λ m. n == m) seen then err (duplicate_id n) else rest

-- The `match` on the action's target.
unfoldable pub check_target : List ℕ → ℕ → TargetType → Option ℕ → Result ConfigError Unit
check_target families id TargetType.family (some n) =
    if any (λ m. n == m) families then ok tt else err (invalid_target_family id)
check_target families id TargetType.family none = err (invalid_target_family id)
check_target families id TargetType.common none = ok tt
check_target families id TargetType.common (some n) = err (common_targets_family id)

unfoldable pub check_changes : ℕ → List StateType → List StateChangeConfig → Result ConfigError Unit
check_changes id seen [] = ok tt
check_changes id seen (c ∷ cs) =
    let rest = check_changes id (c.state_type ∷ seen) cs in
    if any (state_type_eq c.state_type) seen then err (duplicate_state_type id) else rest

unfoldable pub check_targets : ℕ → List ℕ → List ℕ → Result ConfigError Unit
check_targets id families [] = ok tt
check_targets id families (n ∷ ns) =
    let rest = check_targets id families ns in
    if any (λ m. n == m) families then rest else err (invalid_notification_target id)

-- The loop over the actions; the first check repeats what `unique_ids` has checked before it.
unfoldable pub check_actions : List ℕ → List ℕ → List ActionConfig → Result ConfigError Unit
check_actions families seen [] = ok tt
check_actions families seen (a ∷ rest) = do
  reject_if (any (λ m. a.action_id == m) seen) (duplicate_id a.action_id)
  check_target families a.action_id a.target_type a.target_family_id
  check_changes a.action_id [] a.state_changes
  check_targets a.action_id families a.notification_targets
  check_actions families (a.action_id ∷ seen) rest

unfoldable pub check_destinations :
    List ℕ → List FamilyNotificationDestinationConfig → Result ConfigError Unit
check_destinations families [] = ok tt
check_destinations families (d ∷ ds) = do
  reject_if (not (any (λ m. d.family_id == m) families)) (invalid_destination_family d.family_id)
  reject_if (is_blank d.notification_type || is_blank d.destination) empty_destination
  check_destinations families ds

unfoldable pub validate_config : ParentConfig → Result ConfigError Unit
validate_config c = do
  families ← unique_ids [] (map (λ f. f.family_id) c.families)
  unique_ids [] (map (λ a. a.action_id) c.actions)
  check_actions families [] c.actions
  check_destinations families c.family_notification_destinations

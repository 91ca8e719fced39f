-- ===== src/Hub/Action.antt =====
-- apps/uchi-pulse-hub/src/action.rs: the business state, and the engine that runs an action on it.
-- `HashMap` is a list with one entry for each key.
pub mod Batch
pub mod Engine
mod Tests
use uchi_pulse.Base.{
  ℕ, String, str_eq, Bool, true, false, ◌&&◌, Option, none, some, List, [], ◌∷◌, any, Result, ok,
  err, ◌>>=◌, ◌>>◌, ok_or, map_err, reject_if, not, ◌==◌, is_some, if◌then◌else◌,
}
use uchi_pulse.Common.Types.{TargetType, StateType, StateValue, state_type_eq}
use uchi_pulse.Hub.Database.{ActionRecord, ActionStateChangeRecord, Repository}

pub data ActionStateScope : Type 0 where
  common : ActionStateScope
  family : ℕ → ActionStateScope

pub record ActionStateKey : Type 0 where
  pub scope : ActionStateScope
  pub state_type : StateType

pub data StateApplyError : Type 0 where
  duplicate_state_type : StateType → StateApplyError

-- The derived `Eq` of the key.
unfoldable pub scope_eq : ActionStateScope → ActionStateScope → Bool
scope_eq common common = true
scope_eq common (family n) = false
scope_eq (family n) common = false
scope_eq (family n) (family m) = n == m

abbrev pub key_eq : ActionStateKey → ActionStateKey → Bool
key_eq k l = scope_eq k.scope l.scope && state_type_eq k.state_type l.state_type

pub record ActionStateManager : Type 0 where
  pub values : List (ActionStateKey × StateValue)

abbrev pub lookup : ActionStateKey → List (ActionStateKey × StateValue) → Option StateValue
lookup k [] = none
lookup k ((l, v) ∷ rest) = if key_eq l k then some v else lookup k rest

-- `HashMap::insert`
unfoldable pub insert :
    ActionStateKey
    → StateValue
    → List (ActionStateKey × StateValue)
    → List (ActionStateKey × StateValue)
insert k v [] = (k, v) ∷ []
insert k v ((l, w) ∷ rest) = if key_eq l k then (l, v) ∷ rest else (l, w) ∷ insert k v rest

abbrev pub get : ActionStateManager → ActionStateScope → StateType → Option StateValue
get m scope state_type = lookup (record { scope = scope; state_type = state_type }) m.values

-- The loop over the changes, on the staged copy.
unfoldable pub stage :
    ActionStateScope
    → List StateType
    → List (ActionStateKey × StateValue)
    → List ActionStateChangeRecord
    → Result StateApplyError (List (ActionStateKey × StateValue))
stage scope seen staged [] = ok staged
stage scope seen staged (c ∷ cs) =
    let key : ActionStateKey = record { scope = scope; state_type = c.state_type } in
    let rest = stage scope (c.state_type ∷ seen) (insert key c.state_value staged) cs in
    if any (state_type_eq c.state_type) seen then err (duplicate_state_type c.state_type) else rest

-- The manager after the call stands beside what the call returns.
unfoldable pub apply_batch :
    ActionStateManager
    → ActionStateScope
    → List ActionStateChangeRecord
    → Result StateApplyError Unit × ActionStateManager
unfolding stage
apply_batch m scope changes = elim (stage scope [] m.values changes) [
  | err e ↦ (err e, m)
  | ok staged ↦ (ok tt, record { values = staged })
]

pub record ValidatedAction : Type 0 where
  pub action : ActionRecord
  pub scope : ActionStateScope
  pub state_changes : List ActionStateChangeRecord

pub data ActionError (Failure : Type 0) : Type 0 where
  not_found disabled family_target_missing common_target_has_family : ℕ → ActionError Failure
  target_family_not_found : ℕ → ℕ → ActionError Failure
  database : Failure → ActionError Failure
  state : StateApplyError → ActionError Failure

module _ {Db Failure : Type 0} (repository : Repository Db Failure) where
  unfoldable pub validate_target : Db → ActionRecord → Result (ActionError Failure) ActionStateScope
  validate_target db action = elim action.target_type [
    | TargetType.family ↦ elim action.target_family_id [
      | some family_id ↦ do
        found ← map_err database (repository.get_family db family_id)
        if is_some found
            then ok (family family_id)
            else err (target_family_not_found action.action_id family_id)
      | none ↦ err (family_target_missing action.action_id)
    ]
    | TargetType.common ↦ elim action.target_family_id [
      | some family_id ↦ err (common_target_has_family action.action_id)
      | none ↦ ok common
    ]
  ]

  -- The engine's database is the connection that the processor has.
  unfoldable pub validate_event : Db → ℕ → Result (ActionError Failure) ValidatedAction
  unfolding validate_target
  validate_event db action_id = do
    found ← map_err database (repository.get_action db action_id)
    action ← ok_or found (not_found action_id)
    reject_if (not action.enabled) (disabled action_id)
    scope ← validate_target db action
    changes ← map_err database (repository.list_action_state_changes db action_id)
    ok (record { action = action; scope = scope; state_changes = changes })

  unfoldable pub execute :
      Db
      → ActionStateManager
      → ℕ
      → Result (ActionError Failure) ValidatedAction × ActionStateManager
  unfolding validate_event apply_batch
  execute db m action_id = elim (validate_event db action_id) [
    | err e ↦ (err e, m)
    | ok plan ↦
        let (result, after) = apply_batch m plan.scope plan.state_changes in
        (map_err state result >> ok plan, after)
  ]

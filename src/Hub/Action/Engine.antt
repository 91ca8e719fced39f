-- ===== src/Hub/Action/Engine.antt =====
-- What an action that the engine runs has been checked for, and what it leaves behind.
use uchi_pulse.Base.{
  ℕ, ◌≡◌, refl, true, none, some, arith, ok, err, Distinct, Result-cases, inl, inr, ◌⊎◌, subst,
  Option-cases, Bool-cases,
}
use uchi_pulse.Common.Types.{TargetType, StateType}
use uchi_pulse.Hub.Database.{ActionRecord, FamilyRecord, Repository}
use uchi_pulse.Hub.Action.{
  ActionStateScope, ActionStateManager, ValidatedAction, ActionError, get, apply_batch,
  validate_target, validate_event, execute,
}
use uchi_pulse.Hub.Action.Batch.{apply_batch_iff, apply_batch_result, changed}

target_cases : (t : TargetType) → (t ≡ TargetType.family) ⊎ (t ≡ TargetType.common)
target_cases TargetType.family = inl refl
target_cases TargetType.common = inr refl

module _ {Db Failure : Type 0} (repository : Repository Db Failure) (db : Db) where
  -- The scope belongs to the action's target: common without a family, or a family that exists.
  abbrev pub Targets : ActionRecord → ActionStateScope → Type 0
  Targets action ActionStateScope.common =
      (action.target_type ≡ TargetType.common) × (action.target_family_id ≡ none)
  Targets action (ActionStateScope.family n) =
      (action.target_type ≡ TargetType.family)
      × (action.target_family_id ≡ some n)
      × (f : FamilyRecord) × (repository.get_family db n ≡ ok (some f))

  -- The plan is what the database says of the action, and the action may run.
  pub record IsPlan (action_id : ℕ) (plan : ValidatedAction) : Type 0 where
    pub found : repository.get_action db action_id ≡ ok (some plan.action)
    pub is_enabled : plan.action.enabled ≡ true
    pub targets : Targets plan.action plan.scope
    pub changes : repository.list_action_state_changes db action_id ≡ ok plan.state_changes

  validate_target-Targets :
      (action : ActionRecord) (scope : ActionStateScope)
      → validate_target repository db action ≡ ok scope
      → Targets action scope
  unfolding validate_target
  validate_target-Targets action scope h = elim (target_cases action.target_type) [
    | inr is_common ↦ elim (Option-cases action.target_family_id) [
      | inl absent ↦
          let same : ActionStateScope.common ≡ scope = ground arith in
          subst (Targets action) same (is_common, absent)
      | inr (n, given) ↦ ground arith
    ]
    | inl is_family ↦ elim (Option-cases action.target_family_id) [
      | inl absent ↦ ground arith
      | inr (n, given) ↦ elim (Result-cases (repository.get_family db n)) [
        | inr (failure, failed) ↦ ground arith
        | inl (none, missing) ↦ ground arith
        | inl (some f, present) ↦
            let same : ActionStateScope.family n ≡ scope = ground arith in
            subst (Targets action) same (is_family, given, f, present)
      ]
    ]
  ]

  validate_event-IsPlan :
      (action_id : ℕ) (plan : ValidatedAction)
      → validate_event repository db action_id ≡ ok plan
      → IsPlan action_id plan
  unfolding validate_event
  validate_event-IsPlan action_id plan h =
      elim (Result-cases (repository.get_action db action_id)) [
        | inr (failure, failed) ↦ ground arith
        | inl (none, missing) ↦ ground arith
        | inl (some action, found) ↦ elim (Bool-cases action.enabled) [
          | inr off ↦ ground arith
          | inl on ↦ elim (Result-cases (validate_target repository db action)) [
            | inr (failure, failed) ↦ ground arith
            | inl (scope, target) ↦
                elim (Result-cases (repository.list_action_state_changes db action_id)) [
                  | inr (failure, failed) ↦ ground arith
                  | inl (cs, listed) ↦
                      let made : ValidatedAction = record {
                        action = action;
                        scope = scope;
                        state_changes = cs;
                      } in
                      let same : made ≡ plan = ground arith in
                      subst (IsPlan action_id) same (record {
                        found = found;
                        is_enabled = on;
                        targets = validate_target-Targets action scope target;
                        changes = listed;
                      })
                ]
          ]
        ]
      ]

  -- An action that `execute` runs is in the database and enabled, its target is common or a family
  -- that exists, and its changes are of distinct state types; exactly these are then in the state.
  -- Where `execute` fails, the state is as before.
  pub execute_result :
      (m : ActionStateManager) (action_id : ℕ)
      → ((plan : ValidatedAction)
          → (execute repository db m action_id).0 ≡ ok plan
          → IsPlan action_id plan
            × Distinct (λ c. c.state_type) plan.state_changes
            × ((s : ActionStateScope) (t : StateType)
                → get (execute repository db m action_id).1 s t
                  ≡ changed plan.scope plan.state_changes m s t))
        × ((e : ActionError Failure)
            → (execute repository db m action_id).0 ≡ err e
            → (execute repository db m action_id).1 ≡ m)
  unfolding execute
  execute_result m action_id = elim (Result-cases (validate_event repository db action_id)) [
    | inr (failure, failed) ↦ (λ plan h. ground arith, λ e h. ground arith)
    | inl (made, valid) ↦
        let applied = apply_batch_result m made.scope made.state_changes in
        let distinct = apply_batch_iff m made.scope made.state_changes in
        elim (Result-cases (apply_batch m made.scope made.state_changes).0) [
          | inr (failure, failed) ↦ (λ plan h. ground arith, λ e h. ground arith)
          | inl (_, done) ↦ (
            λ plan h.
                let same : made ≡ plan = ground arith in
                subst
                  (λ (q : ValidatedAction).
                    IsPlan action_id q
                    × Distinct (λ c. c.state_type) q.state_changes
                    × ((s : ActionStateScope) (t : StateType)
                        → get (execute repository db m action_id).1 s t
                          ≡ changed q.scope q.state_changes m s t))
                  same
                  (
                    validate_event-IsPlan action_id made valid,
                    distinct.0 done,
                    λ s t. ground (arith, applied.0 done s t),
                  ),
            λ e h. ground arith,
          )
        ]
  ]

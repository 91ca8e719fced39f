-- ===== src/Hub/Action/Tests.antt =====
-- An action of a family that sets two states, and one that sets the same state twice.
use uchi_pulse.Base.{refl, true, none, some, List, [], ◌∷◌}
use uchi_pulse.Common.Types.{TargetType, StateType, StateValue, state_type_eq}
use uchi_pulse.Hub.Database.{ActionRecord, ActionStateChangeRecord}
use uchi_pulse.Hub.Database.Memory.{Tables, tables}
use uchi_pulse.Hub.Action.{
  ActionStateManager, ActionStateScope, ValidatedAction, scope_eq, insert, stage, apply_batch,
  validate_target, validate_event, execute,
}
use uchi_pulse.Hub.Action.Engine.{execute_result, IsPlan}

abbrev change : StateType → StateValue → ActionStateChangeRecord
change t v = record { action_id = 7; state_type = t; state_value = v }

abbrev two_changes : List ActionStateChangeRecord
two_changes =
    change StateType.meal_notice StateValue.on ∷ change StateType.mailbox StateValue.ng ∷ []

abbrev row : ActionRecord
row = record {
  action_id = 7;
  action_name = "meal";
  target_type = TargetType.family;
  target_family_id = some 2;
  web_message = none;
  enabled = true;
}

abbrev store : Tables
store = record {
  devices = [];
  families = record { family_id = 2; display_name = "F"; enabled = true } ∷ [];
  actions = row ∷ [];
  changes = two_changes;
  events = [];
}

abbrev idle : ActionStateManager
idle = record { values = [] }

abbrev of_family : ActionStateScope
of_family = ActionStateScope.family 2

abbrev plan_of_store : ValidatedAction
plan_of_store = record { action = row; scope = of_family; state_changes = two_changes }

execute_result_example : IsPlan tables store 7 plan_of_store
unfolding execute validate_event validate_target apply_batch stage insert state_type_eq scope_eq
execute_result_example = ((execute_result tables store idle 7).0 plan_of_store refl).0

-- ===== src/Desktop/Checks.antt =====
-- Which actions the desktop programs let pass to the transaction that saves them.
use uchi_pulse.Base.{
  ◌≡◌, ◌≢◌, ◌↔◌, ◌⊎◌, refl, String, str_eq, str_eq_iff, true, false, ◌&&◌, none, List, [], ◌∷◌, ok,
  arith, All, is_blank,
}
use uchi_pulse.Desktop.{StateChangeRecord, ActionRecord}
use uchi_pulse.Desktop.Control
use uchi_pulse.Desktop.Labels.{states, values, has_code}
use uchi_pulse.Desktop.Actions.{check_target, check_states, check_action}

-- The target is a family that is given, or common with none given.
abbrev pub HasTarget : ActionRecord → Type 0
HasTarget a =
    ((a.target_type ≡ "FAMILY") × (a.target_family_id ≢ none))
    ⊎ ((a.target_type ≡ "COMMON") × (a.target_family_id ≡ none))

abbrev pub IsSwitch : String → Type 0
IsSwitch s = (s ≡ "MEAL_NOTICE") ⊎ (s ≡ "SNACK_NOTICE") ⊎ (s ≡ "HELP_NOTICE") ⊎ (s ≡ "MAILBOX")

-- The permission to enter has four values, and every other state is on or off.
abbrev pub IsFitting : StateChangeRecord → Type 0
IsFitting c =
    (IsSwitch c.state_type × ((c.state_value ≡ "ON") ⊎ (c.state_value ≡ "OFF")))
    ⊎ ((c.state_type ≡ "ENTRY_PERMISSION")
        × ((c.state_value ≡ "UNSET")
            ⊎ (c.state_value ≡ "OK")
            ⊎ (c.state_value ≡ "NG")
            ⊎ (c.state_value ≡ "MEETING")))

literals_differ : (s t : String) → str_eq s t ≡ false → s ≢ t
literals_differ s t h = ground (arith, str_eq_iff s t)

IsFitting-iff :
    (c : StateChangeRecord)
    → ((has_code states c.state_type && has_code (values c.state_type) c.state_value) ≡ true)
      ↔ IsFitting c
unfolding states values
IsFitting-iff c = ground (
  arith,
  str_eq_iff "MEAL_NOTICE" c.state_type,
  str_eq_iff "SNACK_NOTICE" c.state_type,
  str_eq_iff "HELP_NOTICE" c.state_type,
  str_eq_iff "ENTRY_PERMISSION" c.state_type,
  str_eq_iff "MAILBOX" c.state_type,
  str_eq_iff "ON" c.state_value,
  str_eq_iff "OFF" c.state_value,
  str_eq_iff "UNSET" c.state_value,
  str_eq_iff "OK" c.state_value,
  str_eq_iff "NG" c.state_value,
  str_eq_iff "MEETING" c.state_value,
  str_eq_iff c.state_type "ENTRY_PERMISSION",
  str_eq_iff c.state_type "MAILBOX",
  literals_differ "MEAL_NOTICE" "ENTRY_PERMISSION" refl,
  literals_differ "SNACK_NOTICE" "ENTRY_PERMISSION" refl,
  literals_differ "HELP_NOTICE" "ENTRY_PERMISSION" refl,
  literals_differ "MAILBOX" "ENTRY_PERMISSION" refl,
)

module _ {Failure : Type 0} where
  check_target_iff : (a : ActionRecord) → (check_target {Failure = Failure} a ≡ ok tt) ↔ HasTarget a
  unfolding check_target
  check_target_iff a = ground (
    arith,
    str_eq_iff a.target_type "FAMILY",
    str_eq_iff a.target_type "COMMON",
    literals_differ "FAMILY" "COMMON" refl,
  )

  check_states_iff :
      (cs : List StateChangeRecord)
      → (check_states {Failure = Failure} cs ≡ ok tt) ↔ All IsFitting cs
  unfolding check_states
  check_states_iff [] = ground arith
  check_states_iff (c ∷ cs) = ground (arith, IsFitting-iff c, check_states_iff cs)

  -- Both programs let only an action pass that has a name, and a target that is a family that is
  -- given or common with none given. Beyond this uchi-pulse-control asks for an id that is not zero,
  -- and uchi-pulse-settings for states of the known names with values of their own.
  pub check_action_iff :
      (a : ActionRecord)
      → ((Control.check_action {Failure = Failure} a ≡ ok tt)
          ↔ ((a.action_id ≢ 0) × (is_blank a.action_name ≡ false) × HasTarget a))
        × ((check_action {Failure = Failure} a ≡ ok tt)
            ↔ ((is_blank a.action_name ≡ false) × HasTarget a × All IsFitting a.state_changes))
  unfolding Control.check_action check_action
  check_action_iff a =
      let target = check_target_iff a in
      let fitting = check_states_iff a.state_changes in
      (ground (arith, target), ground (arith, target, fitting))

-- ===== src/Node/Input/Build.antt =====
-- `InputController::new`: which configurations it accepts, and what it builds.
use uchi_pulse.Base.{
  ℕ, ◌+◌, ◌≤◌, ◌≡◌, ◌≢◌, ◌↔◌, refl, false, ◌||◌, List, [], ◌∷◌, ◌++◌, map, arith, ok, All, Distinct,
  length, length-append, ◌==◌, append_assoc, append-nil,
}
use uchi_pulse.Node.Config.{
  GpioInputConfig, InputMapping, PersistedNodeConfig, has_mapping, validate,
  max_persisted_gpio_inputs,
}
use uchi_pulse.Node.Config
use uchi_pulse.Node.Config.Valid.{MappingsOk, has_gpio_iff, has_mapping_iff, validate_iff}
use uchi_pulse.Node.Input.{
  InputConfig, InputController, RuntimeInput, max_input_channels, knows, fresh, add_inputs,
  check_mappings, new, input_config,
}

knows-append :
    (gpio : ℕ) (is : List RuntimeInput) (g : GpioInputConfig)
    → knows gpio (is ++ (fresh g ∷ [])) ≡ knows gpio is || (g.gpio == gpio)
knows-append gpio [] g = ground arith
knows-append gpio (i ∷ is) g = ground (arith, knows-append gpio is g)

-- None of the inputs to come is there already.
abbrev AllNew : List RuntimeInput → List GpioInputConfig → Type 0
AllNew is = All (λ g. knows g.gpio is ≡ false)

AllNew-append :
    (is : List RuntimeInput) (g : GpioInputConfig) (gs : List GpioInputConfig)
    → AllNew (is ++ (fresh g ∷ [])) gs
      ↔ (AllNew is gs × All (λ (o : GpioInputConfig). g.gpio ≢ o.gpio) gs)
AllNew-append is g [] = ground arith
AllNew-append is g (o ∷ gs) = ground (arith, knows-append o.gpio is g, AllNew-append is g gs)

abbrev gpio_of : GpioInputConfig → ℕ
gpio_of g = g.gpio

add_inputs_total :
    (is : List RuntimeInput) (gs : List GpioInputConfig)
    → AllNew is gs
    → Distinct gpio_of gs
    → length is + length gs ≤ max_input_channels
    → add_inputs is gs ≡ ok (is ++ map fresh gs)
unfolding add_inputs
add_inputs_total is [] n d le = ground (arith, append-nil is)
add_inputs_total is (g ∷ gs) n d le = ground (
  arith,
  (AllNew-append is g gs).1 (n.1, d.0),
  length-append is (fresh g ∷ []),
  append_assoc is (fresh g ∷ []) (map fresh gs),
  add_inputs_total (is ++ (fresh g ∷ [])) gs,
)

add_inputs_sound :
    (is : List RuntimeInput) (gs : List GpioInputConfig) {r : List RuntimeInput}
    → length is ≤ max_input_channels
    → add_inputs is gs ≡ ok r
    → AllNew is gs
      × Distinct gpio_of gs
      × (length is + length gs ≤ max_input_channels)
      × (r ≡ is ++ map fresh gs)
unfolding add_inputs
add_inputs_sound is [] le h = ground (arith, append-nil is)
add_inputs_sound is (g ∷ gs) {r} le h = ground (
  arith,
  AllNew-append is g gs,
  length-append is (fresh g ∷ []),
  append_assoc is (fresh g ∷ []) (map fresh gs),
  add_inputs_sound (is ++ (fresh g ∷ [])) gs {r = r},
)

knows-map :
    (gpio : ℕ) (gs : List GpioInputConfig) → knows gpio (map fresh gs) ≡ Config.has_gpio gpio gs
knows-map gpio [] = refl
knows-map gpio (g ∷ gs) = ground (arith, knows-map gpio gs)

check_mappings_iff :
    (gs : List GpioInputConfig) (ms : List InputMapping)
    → (check_mappings (map fresh gs) ms ≡ ok tt) ↔ MappingsOk gs ms
unfolding check_mappings
check_mappings_iff gs [] = ground arith
check_mappings_iff gs (m ∷ ms) = ground (
  arith,
  knows-map m.gpio gs,
  has_gpio_iff m.gpio gs,
  has_mapping_iff m ms,
  check_mappings_iff gs ms,
)

AllNew-nil : (gs : List GpioInputConfig) → AllNew [] gs
AllNew-nil [] = tt
AllNew-nil (g ∷ gs) = (refl, AllNew-nil gs)

-- What `new` asks of its configuration.
pub record IsUsable (c : InputConfig) : Type 0 where
  pub distinct : Distinct (λ (g : GpioInputConfig). g.gpio) c.gpio_inputs
  pub fits : length c.gpio_inputs ≤ max_input_channels
  pub mappings : MappingsOk c.gpio_inputs c.mappings

abbrev pub built : InputConfig → InputController
built c = record {
  mappings = c.mappings;
  double_click_interval_ms = c.double_click_interval_ms;
  long_press_threshold_ms = c.long_press_threshold_ms;
  inputs = map fresh c.gpio_inputs;
}

-- `new` succeeds exactly on the configurations whose pins are distinct and fit the channels, and
-- whose mappings are for configured pins and not doubled. It builds a detector at rest for each
-- configured pin, in their order, and copies the rest.
pub new_iff :
    (c : InputConfig) (r : InputController) → (new c ≡ ok r) ↔ (IsUsable c × (r ≡ built c))
unfolding new
new_iff c r = (
  λ h. ground (
    arith,
    add_inputs_sound [] c.gpio_inputs {r = r.inputs},
    check_mappings_iff c.gpio_inputs c.mappings,
  ),
  λ h. ground (
    arith,
    h.0.distinct,
    h.0.fits,
    h.0.mappings,
    add_inputs_total [] c.gpio_inputs (AllNew-nil c.gpio_inputs),
    check_mappings_iff c.gpio_inputs c.mappings,
  ),
)

-- A configuration that `validate` accepts, and whose inputs fit the stored vector, always builds a
-- controller: the input task never ends up in its idle loop.
pub new-validate :
    (c : PersistedNodeConfig)
    → Config.validate c ≡ ok tt
    → length c.gpio_inputs ≤ max_persisted_gpio_inputs
    → new (input_config c) ≡ ok (built (input_config c))
unfolding input_config
new-validate c v le =
    let valid = (validate_iff c).0 v in
    (new_iff (input_config c) (built (input_config c))).1
      (record { distinct = valid.inputs.0; fits = omega arith; mappings = valid.mappings }, refl)

pub built-mappings :
    (c : PersistedNodeConfig) → (built (input_config c)).mappings ≡ c.input_mappings
unfolding input_config
built-mappings c = refl

-- ===== src/Node/Config/Boot.antt =====
-- The configuration that the firmware starts from.
use uchi_pulse.Base.{◌≤◌, ◌≡◌, [], arith, ok, length, push_all_sound}
use uchi_pulse.Node.Config.{
  GpioInputConfig, InputMapping, NodeConfig, PersistedNodeConfig, unsupported_gpio,
  duplicate_mapping, from_node_config, max_persisted_gpio_inputs, max_persisted_input_mappings,
}
use uchi_pulse.Node.Config.Valid.{IsValid, validate_iff}

-- A configuration that `from_node_config` builds is valid, keeps the inputs and mappings of the
-- built-in one, and has no more of them than the stored vectors hold.
pub from_node_config-IsValid :
    (c : NodeConfig) (p : PersistedNodeConfig)
    → from_node_config c ≡ ok p
    → IsValid p
      × (p.gpio_inputs ≡ c.gpio_inputs)
      × (p.input_mappings ≡ c.input_mappings)
      × (length p.gpio_inputs ≤ max_persisted_gpio_inputs)
      × (length p.input_mappings ≤ max_persisted_input_mappings)
unfolding from_node_config
from_node_config-IsValid c p h =
    let inputs =
      push_all_sound max_persisted_gpio_inputs (λ (i : GpioInputConfig). unsupported_gpio i.gpio) []
        c.gpio_inputs {r = p.gpio_inputs} in
    let mappings =
      push_all_sound max_persisted_input_mappings
        (λ (m : InputMapping). duplicate_mapping m.gpio m.input_event) [] c.input_mappings
        {r = p.input_mappings} in
    (
      (validate_iff p).0 (ground arith),
      ground (arith, inputs),
      ground (arith, mappings),
      ground (arith, inputs),
      ground (arith, mappings),
    )

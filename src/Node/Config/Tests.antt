-- ===== src/Node/Config/Tests.antt =====
-- The built-in configuration passes; and the theorems at it.
use uchi_pulse.Base.{
  ◌≡◌, refl, none, some, [], ◌∷◌, ok, err, push_all, split, parse_u8, parse_digits,
}
use uchi_pulse.Common.Types.{text}
use uchi_pulse.Node.Config.{
  PersistedNodeConfig, default_config, from_node_config, validate, check_network, check_inputs,
  check_mappings, is_supported, dhcp, static, parse_ipv4, parse_octets, duplicate_gpio,
  missing_static_ipv4, default_input,
}
use uchi_pulse.Node.Config.Valid.{IsValid, validate_iff}

abbrev pub defaults : PersistedNodeConfig
defaults = record {
  device_id = "family-node-01";
  wifi = record { ssid = "change-me"; password = "change-me" };
  network = record { mode = dhcp; static_ipv4 = none };
  gpio_inputs = default_config.gpio_inputs;
  input_mappings = [];
  double_click_interval_ms = 400;
  long_press_threshold_ms = 1000;
  ack_timeout_ms = 60000;
  event_retry_count = 3;
  heartbeat_interval_sec = 180;
}

from_defaults : from_node_config default_config ≡ ok defaults
unfolding from_node_config push_all text validate check_network check_inputs check_mappings
    is_supported
from_defaults = refl

-- Two inputs on one pin.
twin_inputs :
    validate (record defaults { gpio_inputs = default_input 2 ∷ default_input 2 ∷ [] })
    ≡ err (duplicate_gpio 2)
unfolding validate check_network check_inputs check_mappings is_supported
twin_inputs = refl

no_address :
    validate (record defaults { network = record { mode = static; static_ipv4 = none } })
    ≡ err missing_static_ipv4
unfolding validate check_network
no_address = refl

read_address : parse_ipv4 "192.168.0.12" ≡ some (192 ∷ 168 ∷ 0 ∷ 12 ∷ [])
unfolding parse_ipv4 parse_octets split parse_u8 parse_digits
read_address = refl

read_long_address : parse_ipv4 "1.2.3.4.5" ≡ none
unfolding parse_ipv4 parse_octets split parse_u8 parse_digits
read_long_address = refl

validate_iff_example : IsValid defaults
unfolding validate check_network check_inputs check_mappings is_supported
validate_iff_example = (validate_iff defaults).0 refl

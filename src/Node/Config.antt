-- ===== src/Node/Config.antt =====
-- apps/uchi-pulse-node/src/config.rs: the node's configuration and its validation. Byte, word and
-- port fields are numbers; bounded `heapless` texts and vectors are texts and lists.
pub mod Valid
pub mod Address
pub mod Boot
mod Tests
use uchi_pulse.Base.{
  ℕ, ◌+◌, String, Bool, true, false, not, ◌||◌, Option, none, some, List, [], ◌∷◌, ◌++◌, Result, ok,
  err, ◌>>=◌, ◌>>◌, map_err, ok_or, push_all, reject_if, any, count_if, length, ltb, leb, ◌==◌,
  if◌then◌else◌, codes, is_empty, split, parse_u8, ◌&&◌, is_some,
}
use uchi_pulse.Common.Types.{InputEvent, event_eq, text, TextError, device_id_capacity}

-- GPIO 23, 24, 25 and 29 drive the Wi-Fi chip.
abbrev pub supported_gpio_pins : List ℕ
supported_gpio_pins =
    0 ∷ 1 ∷ 2 ∷ 3 ∷ 4 ∷ 5 ∷ 6 ∷ 7 ∷ 8 ∷ 9 ∷ 10 ∷ 11 ∷ 12 ∷ 13 ∷ 14 ∷ 15 ∷ 16 ∷ 17 ∷ 18 ∷ 19 ∷ 20
    ∷ 21 ∷ 22 ∷ 26 ∷ 27 ∷ 28 ∷ []

abbrev pub max_persisted_gpio_inputs : ℕ
max_persisted_gpio_inputs = 10

abbrev pub max_persisted_input_mappings : ℕ
max_persisted_input_mappings = 32

abbrev pub wifi_ssid_capacity : ℕ
wifi_ssid_capacity = 32

abbrev pub wifi_password_capacity : ℕ
wifi_password_capacity = 64

pub record GpioInputConfig : Type 0 where
  pub gpio : ℕ
  pub active_high : Bool
  pub debounce_ms : ℕ

pub record InputMapping : Type 0 where
  pub gpio : ℕ
  pub input_event : InputEvent
  pub action_id : ℕ
  pub enabled : Bool

pub record WifiConfig : Type 0 where
  pub ssid : String
  pub password : String

pub data NetworkMode : Type 0 where
  dhcp static : NetworkMode

pub record StaticIpv4Config : Type 0 where
  pub ip_address : String
  pub prefix_length : ℕ
  pub gateway : String
  pub dns : String

pub record NetworkConfig : Type 0 where
  pub mode : NetworkMode
  pub static_ipv4 : Option StaticIpv4Config

-- The settings that are built into the firmware, less the ones that no modelled code reads.
pub record NodeConfig : Type 0 where
  pub device_id : String
  pub wifi_ssid : String
  pub wifi_password : String
  pub ack_timeout_ms : ℕ
  pub event_retry_count : ℕ
  pub heartbeat_interval_sec : ℕ
  pub double_click_interval_ms : ℕ
  pub long_press_threshold_ms : ℕ
  pub gpio_inputs : List GpioInputConfig
  pub input_mappings : List InputMapping

pub record PersistedNodeConfig : Type 0 where
  pub device_id : String
  pub wifi : WifiConfig
  pub network : NetworkConfig
  pub gpio_inputs : List GpioInputConfig
  pub input_mappings : List InputMapping
  pub double_click_interval_ms : ℕ
  pub long_press_threshold_ms : ℕ
  pub ack_timeout_ms : ℕ
  pub event_retry_count : ℕ
  pub heartbeat_interval_sec : ℕ

pub data ConfigValidationError : Type 0 where
  empty_device_id zero_double_click_interval zero_long_press_threshold : ConfigValidationError
  zero_ack_timeout zero_heartbeat_interval empty_wifi_ssid : ConfigValidationError
  invalid_wifi_credential missing_static_ipv4 invalid_ipv4 : ConfigValidationError
  unsupported_gpio duplicate_gpio mapping_references_unknown_gpio : ℕ → ConfigValidationError
  zero_debounce invalid_prefix_length : ℕ → ConfigValidationError
  duplicate_mapping : ℕ → InputEvent → ConfigValidationError

-- `part.is_empty()`
abbrev no_text : List ℕ → Bool
no_text [] = true
no_text (c ∷ cs) = false

-- The loop of `parse_ipv4`; `octets` are the ones stored so far, `count` of them.
parse_octets : List ℕ → List (List ℕ) → Option (List ℕ)
parse_octets octets [] = if length octets == 4 then some octets else none
parse_octets octets (part ∷ parts) =
    let next : Option (List ℕ) = elim (parse_u8 part) [
      | none ↦ none
      | some o ↦ parse_octets (octets ++ (o ∷ [])) parts
    ] in
    if length octets == 4 || no_text part then none else next

unfoldable pub parse_ipv4 : String → Option (List ℕ)
unfolding parse_octets split parse_u8
parse_ipv4 value = parse_octets [] (split b'.' (codes value))

abbrev valid_ipv4 : String → Bool
valid_ipv4 value = is_some (parse_ipv4 value)

-- The `match self.network.mode` of `validate`.
unfoldable pub check_network : NetworkConfig → Result ConfigValidationError Unit
check_network n = elim n.mode [
  | dhcp ↦ ok tt
  | static ↦ do
    s ← ok_or n.static_ipv4 missing_static_ipv4
    reject_if (ltb 32 s.prefix_length) (invalid_prefix_length s.prefix_length)
    reject_if
        (not (valid_ipv4 s.ip_address) || not (valid_ipv4 s.gateway) || not (valid_ipv4 s.dns))
        invalid_ipv4
]

-- `iter().any(|input| input.gpio == gpio)`
abbrev pub has_gpio : ℕ → List GpioInputConfig → Bool
has_gpio gpio = any (λ i. i.gpio == gpio)

-- `iter().any(|other| other.gpio == m.gpio && other.input_event == m.input_event)`
abbrev pub has_mapping : InputMapping → List InputMapping → Bool
has_mapping m = any (λ o. o.gpio == m.gpio && event_eq o.input_event m.input_event)

-- `SUPPORTED_GPIO_PINS.contains(&gpio)`
unfoldable pub is_supported : ℕ → Bool
is_supported gpio = any (λ p. p == gpio) supported_gpio_pins

-- The loop over `self.gpio_inputs`; the first argument is the whole list.
unfoldable pub check_inputs :
    List GpioInputConfig → List GpioInputConfig → Result ConfigValidationError Unit
check_inputs inputs [] = ok tt
check_inputs inputs (i ∷ is) = do
  reject_if (not (is_supported i.gpio)) (unsupported_gpio i.gpio)
  reject_if (ltb 1 (count_if (λ o. o.gpio == i.gpio) inputs)) (duplicate_gpio i.gpio)
  reject_if (i.debounce_ms == 0) (zero_debounce i.gpio)
  check_inputs inputs is

-- The loop over `self.input_mappings`; `skip(index + 1)` is the rest of the list.
unfoldable pub check_mappings :
    List GpioInputConfig → List InputMapping → Result ConfigValidationError Unit
check_mappings inputs [] = ok tt
check_mappings inputs (m ∷ ms) = do
  reject_if (not (has_gpio m.gpio inputs)) (mapping_references_unknown_gpio m.gpio)
  reject_if (has_mapping m ms) (duplicate_mapping m.gpio m.input_event)
  check_mappings inputs ms

unfoldable pub validate : PersistedNodeConfig → Result ConfigValidationError Unit
validate c = do
  reject_if (is_empty c.device_id) empty_device_id
  reject_if (is_empty c.wifi.ssid) empty_wifi_ssid
  check_network c.network
  check_inputs c.gpio_inputs c.gpio_inputs
  reject_if (c.double_click_interval_ms == 0) zero_double_click_interval
  reject_if (c.long_press_threshold_ms == 0) zero_long_press_threshold
  reject_if (c.ack_timeout_ms == 0) zero_ack_timeout
  reject_if (c.heartbeat_interval_sec == 0) zero_heartbeat_interval
  check_mappings c.gpio_inputs c.input_mappings

pub from_node_config : NodeConfig → Result ConfigValidationError PersistedNodeConfig
from_node_config c = do
  id ← map_err (λ _. empty_device_id) (text device_id_capacity c.device_id)
  inputs ← push_all max_persisted_gpio_inputs (λ i. unsupported_gpio i.gpio) [] c.gpio_inputs
  mappings ←
      push_all max_persisted_input_mappings (λ m. duplicate_mapping m.gpio m.input_event) []
        c.input_mappings
  ssid ← map_err (λ _. invalid_wifi_credential) (text wifi_ssid_capacity c.wifi_ssid)
  password ← map_err (λ _. invalid_wifi_credential) (text wifi_password_capacity c.wifi_password)
  let result : PersistedNodeConfig = record {
    device_id = id;
    wifi = record { ssid = ssid; password = password };
    network = record { mode = dhcp; static_ipv4 = none };
    gpio_inputs = inputs;
    input_mappings = mappings;
    double_click_interval_ms = c.double_click_interval_ms;
    long_press_threshold_ms = c.long_press_threshold_ms;
    ack_timeout_ms = c.ack_timeout_ms;
    event_retry_count = c.event_retry_count;
    heartbeat_interval_sec = c.heartbeat_interval_sec;
  }
  validate result
  ok result

-- Active low, 30 ms.
abbrev default_input : ℕ → GpioInputConfig
default_input gpio = record { gpio = gpio; active_high = false; debounce_ms = 30 }

abbrev pub default_config : NodeConfig
default_config = record {
  device_id = "family-node-01";
  wifi_ssid = "change-me";
  wifi_password = "change-me";
  ack_timeout_ms = 60000;
  event_retry_count = 3;
  heartbeat_interval_sec = 180;
  double_click_interval_ms = 400;
  long_press_threshold_ms = 1000;
  gpio_inputs = default_input 2 ∷ default_input 3 ∷ default_input 4 ∷ [];
  input_mappings = [];
}

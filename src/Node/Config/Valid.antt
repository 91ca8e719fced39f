-- ===== src/Node/Config/Valid.antt =====
-- What `validate` accepts, said without its loops.
use uchi_pulse.Base.{
  ℕ, ◌≤◌, ◌≡◌, ◌≢◌, refl, ◌⊎◌, ◌↔◌, true, false, Option, none, some, List, [], ◌∷◌, arith, ok, All,
  All-map, Any, Distinct, count_if, ◌==◌, is_some, str_eq_iff,
}
use uchi_pulse.Common.Types.{InputEvent, event_eq}
use uchi_pulse.Node.Config.{
  GpioInputConfig, InputMapping, NetworkConfig, NetworkMode, dhcp, static, StaticIpv4Config,
  PersistedNodeConfig, is_supported, has_gpio, has_mapping, check_network, check_inputs,
  check_mappings, validate, parse_ipv4,
}

pub event_eq_iff : (a b : InputEvent) → (event_eq a b ≡ true) ↔ (a ≡ b)
unfolding event_eq
event_eq_iff a b = ground arith

-- The pins that the header of a Pico W brings out, less the ones that drive the Wi-Fi chip.
abbrev pub IsSupported : ℕ → Type 0
IsSupported pin = (pin ≤ 22) ⊎ ((26 ≤ pin) × (pin ≤ 28))

is_supported_iff : (pin : ℕ) → (is_supported pin ≡ true) ↔ IsSupported pin
unfolding is_supported
is_supported_iff pin = ground arith

-- A mapping is told by its pin and its gesture.
abbrev pub mapping_key : InputMapping → ℕ × InputEvent
mapping_key m = (m.gpio, m.input_event)

pub has_gpio_iff :
    (gpio : ℕ) (is : List GpioInputConfig) → (has_gpio gpio is ≡ true) ↔ Any (λ i. i.gpio ≡ gpio) is
has_gpio_iff gpio [] = ground arith
has_gpio_iff gpio (i ∷ is) = ground (arith, has_gpio_iff gpio is)

pub has_mapping_iff :
    (m : InputMapping) (ms : List InputMapping)
    → (has_mapping m ms ≡ false) ↔ All (λ o. mapping_key m ≢ mapping_key o) ms
has_mapping_iff m [] = ground arith
has_mapping_iff m (o ∷ ms) =
    ground (arith, has_mapping_iff m ms, event_eq_iff o.input_event m.input_event)

abbrev count_gpio : ℕ → List GpioInputConfig → ℕ
count_gpio gpio = count_if (λ o. o.gpio == gpio)

abbrev gpio_of : GpioInputConfig → ℕ
gpio_of i = i.gpio

count_gpio_zero :
    (gpio : ℕ) (is : List GpioInputConfig) → (count_gpio gpio is ≡ 0) ↔ All (λ o. gpio ≢ o.gpio) is
count_gpio_zero gpio [] = ground arith
count_gpio_zero gpio (i ∷ is) = ground (arith, count_gpio_zero gpio is)

Distinct-count_gpio :
    (gpio : ℕ) (is : List GpioInputConfig) → Distinct gpio_of is → count_gpio gpio is ≤ 1
Distinct-count_gpio gpio [] d = omega arith
Distinct-count_gpio gpio (i ∷ is) d =
    ground
      (arith, count_gpio_zero gpio is, count_gpio_zero i.gpio is, Distinct-count_gpio gpio is d.1)

-- One input's own checks; the first argument is the whole list.
abbrev InputOk : List GpioInputConfig → GpioInputConfig → Type 0
InputOk inputs i = IsSupported i.gpio × (count_gpio i.gpio inputs ≤ 1) × (i.debounce_ms ≢ 0)

check_inputs_iff :
    (inputs is : List GpioInputConfig) → (check_inputs inputs is ≡ ok tt) ↔ All (InputOk inputs) is
unfolding check_inputs
check_inputs_iff inputs [] = ground arith
check_inputs_iff inputs (i ∷ is) =
    ground (arith, is_supported_iff i.gpio, check_inputs_iff inputs is)

All-count_gpio-Distinct :
    (is : List GpioInputConfig) → All (λ i. count_gpio i.gpio is ≤ 1) is → Distinct gpio_of is
All-count_gpio-Distinct [] h = tt
All-count_gpio-Distinct (i ∷ is) h = (
  (count_gpio_zero i.gpio is).0 (ground arith),
  All-count_gpio-Distinct is (All-map is (λ j le. ground arith) h.1),
)

-- What each part of a configuration must satisfy.
abbrev pub NetworkOk : NetworkConfig → Type 0
NetworkOk n =
    n.mode ≡ static
    → (s : StaticIpv4Config) × (n.static_ipv4 ≡ some s)
      × (s.prefix_length ≤ 32)
      × (is_some (parse_ipv4 s.ip_address) ≡ true)
      × (is_some (parse_ipv4 s.gateway) ≡ true)
      × (is_some (parse_ipv4 s.dns) ≡ true)

abbrev pub InputsOk : List GpioInputConfig → Type 0
InputsOk is =
    Distinct (λ (i : GpioInputConfig). i.gpio) is
    × All (λ i. IsSupported i.gpio × (i.debounce_ms ≢ 0)) is

-- Every mapping is for a configured pin, and no two are for the same pin and gesture.
abbrev pub MappingsOk : List GpioInputConfig → List InputMapping → Type 0
MappingsOk is ms = All (λ m. Any (λ i. i.gpio ≡ m.gpio) is) ms × Distinct mapping_key ms

pub record IsValid (c : PersistedNodeConfig) : Type 0 where
  pub device_id : c.device_id ≢ ""
  pub ssid : c.wifi.ssid ≢ ""
  pub network : NetworkOk c.network
  pub inputs : InputsOk c.gpio_inputs
  pub double_click : c.double_click_interval_ms ≢ 0
  pub long_press : c.long_press_threshold_ms ≢ 0
  pub ack_timeout : c.ack_timeout_ms ≢ 0
  pub heartbeat : c.heartbeat_interval_sec ≢ 0
  pub mappings : MappingsOk c.gpio_inputs c.input_mappings

check_network_parts :
    (m : NetworkMode) (o : Option StaticIpv4Config)
    → let n : NetworkConfig = record { mode = m; static_ipv4 = o } in
      (check_network n ≡ ok tt) ↔ NetworkOk n
unfolding check_network
check_network_parts dhcp o = (λ _ e. cc, λ _. refl)
check_network_parts static none = (λ e. cc, λ h. let (s, e, _, _, _, _) = h refl in cc)
check_network_parts static (some s) = (
  λ e _. (s, refl, ground arith, ground arith, ground arith, ground arith),
  λ h. let (t, e, le, ip, gw, dns) = h refl in ground arith,
)

check_network_iff : (n : NetworkConfig) → (check_network n ≡ ok tt) ↔ NetworkOk n
check_network_iff n = check_network_parts n.mode n.static_ipv4

check_inputs-InputsOk : (is : List GpioInputConfig) → (check_inputs is is ≡ ok tt) ↔ InputsOk is
check_inputs-InputsOk is = (
  λ e.
      let h = (check_inputs_iff is is).0 e in
      (All-count_gpio-Distinct is (All-map is (λ i k. k.1) h), All-map is (λ i k. (k.0, k.2)) h),
  λ h.
      (check_inputs_iff is is).1
        (All-map is (λ i k. (k.0, Distinct-count_gpio i.gpio is h.0, k.1)) h.1),
)

check_mappings_iff :
    (is : List GpioInputConfig) (ms : List InputMapping)
    → (check_mappings is ms ≡ ok tt) ↔ MappingsOk is ms
unfolding check_mappings
check_mappings_iff is [] = ground arith
check_mappings_iff is (m ∷ ms) =
    ground (arith, has_gpio_iff m.gpio is, has_mapping_iff m ms, check_mappings_iff is ms)

-- `validate` accepts exactly the configurations of which `IsValid` holds. A static address is looked
-- at in the static mode only: under DHCP it may be there, and it may be malformed.
pub validate_iff : (c : PersistedNodeConfig) → (validate c ≡ ok tt) ↔ IsValid c
unfolding validate
validate_iff c = ground (
  arith,
  str_eq_iff c.device_id "",
  str_eq_iff c.wifi.ssid "",
  check_network_iff c.network,
  check_inputs-InputsOk c.gpio_inputs,
  check_mappings_iff c.gpio_inputs c.input_mappings,
)

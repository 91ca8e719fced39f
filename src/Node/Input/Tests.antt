-- ===== src/Node/Input/Tests.antt =====
-- A controller with one pin, as in the source's tests, and the theorems at it.
use uchi_pulse.Base.{ℕ, ◌≡◌, refl, true, false, none, [], ◌∷◌, ok}
use uchi_pulse.Common.Types.{off_to_on, on_to_off, event_eq}
use uchi_pulse.Node.Config.{
  GpioInputConfig, InputMapping, PersistedNodeConfig, WifiConfig, NetworkConfig, dhcp, validate,
}
use uchi_pulse.Node.Config
use uchi_pulse.Node.Detector
use uchi_pulse.Node.Detector.{GestureDetector}
use uchi_pulse.Node.Input.{
  InputConfig, InputController, RuntimeInput, add_inputs, check_mappings, new, fresh, update,
}
use uchi_pulse.Node.Input.Build.{IsUsable, built, new_iff}
use uchi_pulse.Node.Input.Dispatch.{triggered, at_pin, update_result}

abbrev pin : ℕ → GpioInputConfig
pin gpio = record { gpio = gpio; active_high = true; debounce_ms = 30 }

abbrev config : InputConfig
config = record {
  gpio_inputs = pin 5 ∷ pin 6 ∷ [];
  mappings =
      record { gpio = 5; input_event = off_to_on; action_id = 10; enabled = true }
      ∷ record { gpio = 5; input_event = on_to_off; action_id = 11; enabled = false }
      ∷ [];
  double_click_interval_ms = 400;
  long_press_threshold_ms = 1000;
}

abbrev stored : PersistedNodeConfig
stored = record {
  device_id = "n";
  wifi = record { ssid = "s"; password = "" };
  network = record { mode = dhcp; static_ipv4 = none };
  gpio_inputs = config.gpio_inputs;
  input_mappings = config.mappings;
  double_click_interval_ms = 400;
  long_press_threshold_ms = 1000;
  ack_timeout_ms = 60000;
  event_retry_count = 3;
  heartbeat_interval_sec = 180;
}

builds : new config ≡ ok (built config)
unfolding new add_inputs check_mappings event_eq
builds = refl

-- The first sample of pin 5 has been taken: its level is up, and not yet confirmed.
abbrev touched : RuntimeInput
touched = record (fresh (pin 5)) {
  detector = record Detector.new { candidate = true; candidate_since_ms = 1 };
}

abbrev controller : InputController
controller = record (built config) { inputs = touched ∷ fresh (pin 6) ∷ [] }

new_iff_example : IsUsable config
new_iff_example = ((new_iff config (built config)).0 builds).0

stored_valid : validate stored ≡ ok tt
unfolding validate Config.check_network Config.check_inputs Config.check_mappings
    Config.is_supported event_eq
stored_valid = refl

update_result_example :
    (update controller 5 true 31).1
    ≡ ok (record { input_events = at_pin 5 off_to_on ∷ []; actions = 10 ∷ [] })
unfolding triggered event_eq Detector.update Detector.expire_click Detector.settle Detector.press
    Detector.release Detector.detect_long_press Detector.push_event
update_result_example =
    update_result controller 5 true 31 touched ((((λ e. cc), tt), (tt, tt))) refl

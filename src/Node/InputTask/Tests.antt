-- ===== src/Node/InputTask/Tests.antt =====
-- A node with one switch: the first pass finds it pressed, and later ones confirm it.
use uchi_pulse.Base.{ℕ, ◌≡◌, refl, true, false, none, some, [], ◌∷◌, List, ok, All, arith}
use uchi_pulse.Common.Types.{off_to_on}
use uchi_pulse.Node.Config.{
  PersistedNodeConfig, dhcp, validate, check_network, check_inputs, check_mappings, is_supported,
}
use uchi_pulse.Node.InputTask.{Levels, input_task}
use uchi_pulse.Node.InputTask.Mapped.{IsMapped, input_task_result}

abbrev switch : PersistedNodeConfig
switch = record {
  device_id = "n";
  wifi = record { ssid = "s"; password = "" };
  network = record { mode = dhcp; static_ipv4 = none };
  gpio_inputs = record { gpio = 5; active_high = true; debounce_ms = 20 } ∷ [];
  input_mappings =
      record { gpio = 5; input_event = off_to_on; action_id = 10; enabled = true } ∷ [];
  double_click_interval_ms = 400;
  long_press_threshold_ms = 1000;
  ack_timeout_ms = 60000;
  event_retry_count = 3;
  heartbeat_interval_sec = 180;
}

abbrev up : Levels
up = (5, true) ∷ (6, true) ∷ []

abbrev down : Levels
down = (5, false) ∷ (6, true) ∷ []

switch-validate : validate switch ≡ ok tt
unfolding validate check_network check_inputs check_mappings is_supported
switch-validate = refl

input_task_result_example :
    (sent : List ℕ) × (input_task switch down (up ∷ up ∷ up ∷ []) ≡ some sent)
    × All (IsMapped switch.input_mappings) sent
input_task_result_example =
    input_task_result switch down (up ∷ up ∷ up ∷ []) switch-validate (ground arith)

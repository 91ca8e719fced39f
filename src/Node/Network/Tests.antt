-- ===== src/Node/Network/Tests.antt =====
-- A node with addresses of its own.
use uchi_pulse.Base.{ℕ, ◌≡◌, refl, Option, none, some, List, [], ok, ltb, if◌then◌else◌, arith}
use uchi_pulse.Node.Config.{
  PersistedNodeConfig, static, validate, check_network, check_inputs, check_mappings, parse_ipv4,
}
use uchi_pulse.Node.Network.{NetConfig, network_config}
use uchi_pulse.Node.Network.Answers.{AsksFor, network_config_result}

abbrev fixed : PersistedNodeConfig
fixed = record {
  device_id = "n";
  wifi = record { ssid = "s"; password = "" };
  network = record {
    mode = static;
    static_ipv4 = some (record {
      ip_address = "192.168.0.7";
      prefix_length = 24;
      gateway = "192.168.0.1";
      dns = "192.168.0.1";
    });
  };
  gpio_inputs = [];
  input_mappings = [];
  double_click_interval_ms = 400;
  long_press_threshold_ms = 1000;
  ack_timeout_ms = 60000;
  event_retry_count = 3;
  heartbeat_interval_sec = 180;
}

-- An address with the length of its prefix, of at most 32 bits.
abbrev cidr : List ℕ → ℕ → Option (List ℕ × ℕ)
cidr ip n = if ltb 32 n then none else some (ip, n)

fixed-validate : validate fixed ≡ ok tt
unfolding validate check_network check_inputs check_mappings parse_ipv4
fixed-validate = refl

network_config_result_example :
    (n : NetConfig (List ℕ × ℕ)) × (network_config cidr fixed ≡ some n) × AsksFor cidr fixed n
network_config_result_example =
    network_config_result cidr fixed (λ ip n short. ground arith) fixed-validate

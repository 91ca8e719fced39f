-- ===== src/Node/Cdc/HandlerTests.antt =====
-- A reboot and a configuration that is not complete, over a JSON library that knows two lines.
use uchi_pulse.Base.{
  ℕ, ◌≡◌, refl, str_eq, Bool, true, false, ◌&&◌, ◌==◌, ltb, Option, none, some, List, [], ◌∷◌, ok,
  if◌then◌else◌,
}
use uchi_pulse.Common.Codec.{
  Json, encode, decode, encode_line, decode_line, ends_with_lf, without_last,
}
use uchi_pulse.Common.Cdc.{CdcRequest, ok_status, error_status, CdcResponse, success_response}
use uchi_pulse.Node.Config.{
  PersistedNodeConfig, dhcp, validate, check_network, check_inputs, check_mappings,
}
use uchi_pulse.Node.Storage.{
  ConfigStorage, ConfigManager, MemoryConfigStorage, MemoryStorageError, memory_storage,
  from_record, new,
}
use uchi_pulse.Node.Storage.Manager.{boot}
use uchi_pulse.Node.Cdc.Handler.{
  NodeCdcParams, NodeReply, config_reply, status_reply, empty_reply, NodeJson, reboot, run_command,
  answer_line, handle_line_with_status,
}
use uchi_pulse.Node.Cdc.Handled.{handle_lines, handle_lines-validate}
use uchi_pulse.Node.Cdc.Answered.{Sets, handle_request_result}

abbrev defaults : PersistedNodeConfig
defaults = record {
  device_id = "default";
  wifi = record { ssid = "s"; password = "" };
  network = record { mode = dhcp; static_ipv4 = none };
  gpio_inputs = [];
  input_mappings = [];
  double_click_interval_ms = 400;
  long_press_threshold_ms = 1000;
  ack_timeout_ms = 60000;
  event_retry_count = 3;
  heartbeat_interval_sec = 180;
}

abbrev no_params : NodeCdcParams
no_params = record {
  device_id = none;
  wifi = none;
  network = none;
  gpio_inputs = none;
  input_mappings = none;
  double_click_interval_ms = none;
  long_press_threshold_ms = none;
  ack_timeout_ms = none;
  event_retry_count = none;
  heartbeat_interval_sec = none;
}

abbrev reboot_request : CdcRequest NodeCdcParams
reboot_request = record { version = 1; request_id = "r"; command = "reboot"; params = no_params }

abbrev accepted : CdcResponse NodeReply
accepted = success_response 1 "r" empty_reply

abbrev is_accepted : CdcResponse NodeReply → Bool
is_accepted r =
    r.version == 1
    && str_eq r.request_id "r"
    && (elim r.status [ ok_status ↦ true | error_status ↦ false ])
    && (elim r.reply [
      | none ↦ false
      | some reply ↦ elim reply [
        | empty_reply ↦ true
        | config_reply _ ↦ false
        | status_reply _ ↦ false
      ]
    ])
    && (elim r.error [ none ↦ true | some _ ↦ false ])

abbrev write : CdcResponse NodeReply → ℕ → Option (List ℕ)
write r size = if is_accepted r && ltb 0 size then some (1 ∷ []) else none

abbrev one_byte : {A : Type 0} → A → List ℕ → Option (A × ℕ)
one_byte a [] = none
one_byte a (b ∷ bs) = if b == 1 then some (a, 1) else none

abbrev responses : Json (CdcResponse NodeReply)
responses = record { to_slice = write; from_slice = one_byte accepted }

abbrev json : NodeJson
json = record {
  request = record { to_slice = λ r size. none; from_slice = one_byte reboot_request };
  id_only = record { to_slice = λ r size. none; from_slice = λ bytes. none };
  response = responses;
  envelope = record { to_slice = λ e size. none; from_slice = λ bytes. none };
}

abbrev device : ConfigStorage MemoryConfigStorage MemoryStorageError
device = memory_storage 4096

abbrev manager : ConfigManager MemoryConfigStorage
manager = new json.envelope device (from_record 4096 []) defaults

abbrev reboot_line : List ℕ
reboot_line = 1 ∷ 10 ∷ []

handle_request_result_example :
    (response : CdcResponse NodeReply) × (encode_line responses response 64 ≡ ok (1 ∷ 10 ∷ []))
    × (response.version ≡ 1)
    × (response.request_id ≡ "r")
    × Sets json device reboot_request manager
        (handle_line_with_status json device manager reboot_line 64 none none).1.config
unfolding handle_line_with_status answer_line run_command decode_line decode encode_line encode
    ends_with_lf without_last
handle_request_result_example =
    handle_request_result json device manager reboot_line 64 none none reboot_request
      (record { response = 1 ∷ 10 ∷ []; action = reboot }) refl refl

handle_lines-validate_example :
    validate (handle_lines json device manager ((reboot_line, 64, none, none) ∷ [])).config ≡ ok tt
unfolding validate check_network check_inputs check_mappings
handle_lines-validate_example =
    handle_lines-validate json device defaults manager ((reboot_line, 64, none, none) ∷ []) refl
      (boot (from_record 4096 []))

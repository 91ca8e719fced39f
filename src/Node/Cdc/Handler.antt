-- ===== src/Node/Cdc/Handler.antt =====
-- apps/uchi-pulse-node/src/cdc.rs: NodeCdcHandler. Every branch of the source ends in the same call of
-- `encode_response`, which stands once at the end here; a response is the bytes that were written.
use uchi_pulse.Base.{
  ℕ, String, str_eq, ◌||◌, ◌==◌, Option, none, some, List, Result, ok, err, ◌>>=◌, ◌>>◌, ok_or,
  map_err, map_ok, if◌then◌else◌,
}
use uchi_pulse.Common.Types.{text}
use uchi_pulse.Common.Codec.{CodecError, Json, encode_line, decode_line}
use uchi_pulse.Common.Cdc.{
  CdcRequest, CdcErrorCode, unsupported_version, invalid_command, invalid_parameter, save_failed,
  operation_failed, not_supported, CdcResponse, success_response, error_response,
  cdc_protocol_version,
}
use uchi_pulse.Node.Config.{
  GpioInputConfig, InputMapping, WifiConfig, NetworkConfig, PersistedNodeConfig,
  ConfigValidationError, validate,
}
use uchi_pulse.Node.Storage.{
  StorageEnvelope, ConfigStorage, ConfigManager, ConfigManagerError, storage_error, serialization,
}
use uchi_pulse.Node.Storage

pub record NodeCdcParams : Type 0 where
  pub device_id : Option String
  pub wifi : Option WifiConfig
  pub network : Option NetworkConfig
  pub gpio_inputs : Option (List GpioInputConfig)
  pub input_mappings : Option (List InputMapping)
  pub double_click_interval_ms : Option ℕ
  pub long_press_threshold_ms : Option ℕ
  pub ack_timeout_ms : Option ℕ
  pub event_retry_count : Option ℕ
  pub heartbeat_interval_sec : Option ℕ

pub data CdcParameterError : Type 0 where
  missing_field : CdcParameterError
  invalid_parameters : ConfigValidationError → CdcParameterError

unfoldable pub into_config : NodeCdcParams → Result CdcParameterError PersistedNodeConfig
into_config params = do
  device_id ← ok_or params.device_id missing_field
  wifi ← ok_or params.wifi missing_field
  network ← ok_or params.network missing_field
  gpio_inputs ← ok_or params.gpio_inputs missing_field
  input_mappings ← ok_or params.input_mappings missing_field
  double_click_interval_ms ← ok_or params.double_click_interval_ms missing_field
  long_press_threshold_ms ← ok_or params.long_press_threshold_ms missing_field
  ack_timeout_ms ← ok_or params.ack_timeout_ms missing_field
  event_retry_count ← ok_or params.event_retry_count missing_field
  heartbeat_interval_sec ← ok_or params.heartbeat_interval_sec missing_field
  let config : PersistedNodeConfig = record {
    device_id = device_id;
    wifi = wifi;
    network = network;
    gpio_inputs = gpio_inputs;
    input_mappings = input_mappings;
    double_click_interval_ms = double_click_interval_ms;
    long_press_threshold_ms = long_press_threshold_ms;
    ack_timeout_ms = ack_timeout_ms;
    event_retry_count = event_retry_count;
    heartbeat_interval_sec = heartbeat_interval_sec;
  }
  map_err invalid_parameters (validate config)
  ok config

-- `From<&PersistedNodeConfig>`
abbrev pub params_of : PersistedNodeConfig → NodeCdcParams
params_of config = record {
  device_id = some config.device_id;
  wifi = some config.wifi;
  network = some config.network;
  gpio_inputs = some config.gpio_inputs;
  input_mappings = some config.input_mappings;
  double_click_interval_ms = some config.double_click_interval_ms;
  long_press_threshold_ms = some config.long_press_threshold_ms;
  ack_timeout_ms = some config.ack_timeout_ms;
  event_retry_count = some config.event_retry_count;
  heartbeat_interval_sec = some config.heartbeat_interval_sec;
}

pub record NodeCdcStatus : Type 0 where
  pub device_id : String
  pub ip_address : Option String
  pub hub_endpoint : Option String

-- What a response carries: `PersistedNodeConfig`, `NodeCdcStatus` or `EmptyData`.
pub data NodeReply : Type 0 where
  config_reply : PersistedNodeConfig → NodeReply
  status_reply : NodeCdcStatus → NodeReply
  empty_reply : NodeReply

pub data CdcAction : Type 0 where
  no_action reboot : CdcAction

pub record CdcHandleResult : Type 0 where
  pub response : List ℕ
  pub action : CdcAction

pub data CdcHandlerError : Type 0 where
  response_too_large : CdcHandlerError

pub record RequestIdOnly : Type 0 where
  pub request_id : Option String

-- serde_json_core on the types of this protocol.
pub record NodeJson : Type 0 where
  pub request : Json (CdcRequest NodeCdcParams)
  pub id_only : Json RequestIdOnly
  pub response : Json (CdcResponse NodeReply)
  pub envelope : Json StorageEnvelope

-- `text(value).unwrap_or_default()`
abbrev message : String → String
message value = elim (text 128 value) [ ok fits ↦ fits | err _ ↦ "" ]

abbrev refuse : String → CdcErrorCode → String → CdcResponse NodeReply
refuse id code value = error_response cdc_protocol_version id code (message value)

abbrev accept : String → NodeReply → CdcResponse NodeReply
accept id reply = success_response cdc_protocol_version id reply

module _ {S E : Type 0} (json : NodeJson) (device : ConfigStorage S E) where
  abbrev Answer : Type 0
  Answer = CdcResponse NodeReply × CdcAction × ConfigManager S

  abbrev pub set_answer : String → Result (ConfigManagerError E) Unit → CdcResponse NodeReply
  set_answer id (ok _) = accept id empty_reply
  set_answer id (err (ConfigManagerError.invalid_config _)) =
      refuse id CdcErrorCode.invalid_config "invalid configuration"
  set_answer id (err (storage_error _)) = refuse id save_failed "configuration save failed"
  set_answer id (err (serialization _)) = refuse id save_failed "configuration save failed"

  abbrev pub set_parsed :
      ConfigManager S → String → Result CdcParameterError PersistedNodeConfig → Answer
  set_parsed m id (err missing_field) =
      (refuse id invalid_parameter "missing configuration field", no_action, m)
  set_parsed m id (err (invalid_parameters _)) =
      (refuse id CdcErrorCode.invalid_config "invalid configuration", no_action, m)
  set_parsed m id (ok config) =
      let (result, after) = Storage.set_config json.envelope device m config in
      (set_answer id result, no_action, after)

  unfoldable pub set_config : ConfigManager S → CdcRequest NodeCdcParams → Answer
  set_config m request = set_parsed m request.request_id (into_config request.params)

  abbrev pub reset_answer : String → Result (ConfigManagerError E) Unit → CdcResponse NodeReply
  reset_answer id (ok _) = accept id empty_reply
  reset_answer id (err (storage_error _)) = refuse id save_failed "configuration reset failed"
  reset_answer id (err (ConfigManagerError.invalid_config _)) =
      refuse id operation_failed "configuration reset failed"
  reset_answer id (err (serialization _)) = refuse id operation_failed "configuration reset failed"

  unfoldable pub factory_reset : ConfigManager S → CdcRequest NodeCdcParams → Answer
  factory_reset m request =
      let (result, after) = Storage.factory_reset json.envelope device m in
      (reset_answer request.request_id result, no_action, after)

  -- The commands, in the order of the `match`.
  unfoldable pub run_command :
      ConfigManager S → Option String → Option String → CdcRequest NodeCdcParams → Answer
  run_command m ip hub request =
      let id = request.request_id in
      if str_eq request.command "get_config"
      then (accept id (config_reply m.config), no_action, m)
      else if str_eq request.command "get_status"
      then (
        accept id (
            status_reply
              (record { device_id = m.config.device_id; ip_address = ip; hub_endpoint = hub })),
        no_action,
        m,
      )
      else if str_eq request.command "set_config"
      then set_config m request
      else if str_eq request.command "factory_reset"
      then factory_reset m request
      else if str_eq request.command "reboot"
      then (accept id empty_reply, reboot, m)
      else if str_eq request.command "get_info"
          || str_eq request.command "get_inputs"
          || str_eq request.command "get_outputs"
      then (refuse id not_supported "command is not supported on the node yet", no_action, m)
      else (refuse id invalid_command "unknown command", no_action, m)

  -- The id of a line that is not a request, where there is one.
  abbrev pub lone_request_id : List ℕ → String
  lone_request_id line = elim (decode_line json.id_only line) [
    | err _ ↦ ""
    | ok found ↦ elim found.request_id [ none ↦ "" | some id ↦ id ]
  ]

  unfoldable pub answer_line :
      ConfigManager S
      → List ℕ
      → Option String
      → Option String
      → Result CodecError (CdcRequest NodeCdcParams)
      → Answer
  answer_line m line ip hub (err _) =
      (refuse (lone_request_id line) CdcErrorCode.invalid_json "invalid JSON", no_action, m)
  answer_line m line ip hub (ok request) =
      if request.version == cdc_protocol_version then run_command m ip hub request else (
        refuse request.request_id unsupported_version "unsupported protocol version",
        no_action,
        m,
      )

  abbrev encode_response : CdcResponse NodeReply → ℕ → Result CdcHandlerError (List ℕ)
  encode_response response size =
      map_err (λ _. response_too_large) (encode_line json.response response size)

  -- `size` is the length of the destination buffer.
  unfoldable pub handle_line_with_status :
      ConfigManager S
      → List ℕ
      → ℕ
      → Option String
      → Option String
      → Result CdcHandlerError CdcHandleResult × ConfigManager S
  handle_line_with_status m line size ip hub =
      let (response, action, after) = answer_line m line ip hub (decode_line json.request line) in
      (
        map_ok (λ out. record { response = out; action = action }) (encode_response response size),
        after,
      )

  abbrev pub handle_line :
      ConfigManager S → List ℕ → ℕ → Result CdcHandlerError CdcHandleResult × ConfigManager S
  handle_line m line size = handle_line_with_status m line size none none

-- ===== src/Hub/Cdc/Handler.antt =====
-- apps/uchi-pulse-hub/src/cdc.rs: one line of the management protocol. serde_json is not under the
-- repository: reading a request, a configuration out of its parameters, and writing a response are
-- parameters, and so are the texts of errors. Of `schema_version` the pragma is a parameter.
use uchi_pulse.Base.{ℕ, String, str_eq, ◌||◌, ◌<>◌, Result, ok, err, map_err, ◌==◌, if◌then◌else◌}
use uchi_pulse.Common.Types.{text}
use uchi_pulse.Common.Cdc.{
  CdcRequest, CdcErrorCode, invalid_json, unsupported_version, invalid_command, invalid_config,
  save_failed, operation_failed, not_supported, CdcResponse, success_response, error_response,
  cdc_protocol_version,
}
use uchi_pulse.Store.Sqlite.{Sqlite}
use uchi_pulse.Hub.Database.Values.{DatabaseError}
use uchi_pulse.Hub.Cdc.{ParentConfig}
use uchi_pulse.Hub.Cdc.Save.{ConfigFailure, not_a_config, not_read, default_config, save_config}
use uchi_pulse.Hub.Cdc.Load.{load_config}

-- The values that `json!` and `to_value` make.
pub data HubReply : Type 0 where
  info_reply empty_reply : HubReply
  config_reply : ParentConfig → HubReply
  status_reply : ℕ → HubReply

pub record HubJson (Value Failure : Type 0) : Type 0 where
  pub read_request : String → Result String (CdcRequest Value)
  pub read_config : Value → Result String ParentConfig
  pub decimal : ℕ → String
  pub display : ConfigFailure Failure → String

module _ {Value Failure Conn : Type 0} (json : HubJson Value Failure) (sqlite : Sqlite Conn Failure)
    (schema_version : Conn → Result (DatabaseError Failure) ℕ) where
  abbrev response_ok : String → HubReply → CdcResponse HubReply
  response_ok id reply = success_response cdc_protocol_version id reply

  -- A text over 128 bytes gives way to a fixed one.
  abbrev response_error : String → CdcErrorCode → String → CdcResponse HubReply
  response_error id code message =
      error_response cdc_protocol_version id code
        (elim (text 128 message) [ ok fits ↦ fits | err _ ↦ "CDC operation failed" ])

  abbrev answer_config :
      CdcRequest Value
      → CdcErrorCode
      → Result (ConfigFailure Failure) ParentConfig
      → CdcResponse HubReply
  answer_config request code (ok config) = response_ok request.request_id (config_reply config)
  answer_config request code (err e) = response_error request.request_id code (json.display e)

  -- `set_config`: nothing is sent to the database before the parameters are a configuration.
  unfoldable pub set_config : Conn → CdcRequest Value → CdcResponse HubReply × Conn
  set_config c request = elim (json.read_config request.params) [
    | err e ↦ (answer_config request invalid_config (err (not_a_config e)), c)
    | ok config ↦
        let (saved, after) = save_config sqlite c config in
        (
          answer_config request invalid_config (elim saved [ err e ↦ err e | ok _ ↦ ok config ]),
          after,
        )
  ]

  unfoldable pub factory_reset : Conn → CdcRequest Value → CdcResponse HubReply × Conn
  factory_reset c request =
      let (saved, after) = save_config sqlite c default_config in
      (
        elim saved [
          | err e ↦ response_error request.request_id save_failed (json.display e)
          | ok _ ↦ response_ok request.request_id empty_reply
        ],
        after,
      )

  -- The commands, in the order of the `match`.
  unfoldable pub run_command : Conn → CdcRequest Value → CdcResponse HubReply × Conn
  run_command c request =
      if str_eq request.command "get_info"
      then (response_ok request.request_id info_reply, c)
      else if str_eq request.command "get_config"
      then (answer_config request operation_failed (map_err not_read (load_config sqlite c)), c)
      else if str_eq request.command "set_config"
      then set_config c request
      else if str_eq request.command "factory_reset"
      then factory_reset c request
      else if str_eq request.command "get_status"
      then (
        elim (schema_version c) [
          | ok version ↦ response_ok request.request_id (status_reply version)
          | err e ↦ response_error request.request_id operation_failed (json.display (not_read e))
        ],
        c,
      )
      else if str_eq request.command "reboot"
      then (
        response_error request.request_id not_supported "Hub reboot is not exposed through CDC",
        c,
      )
      else if str_eq request.command "get_inputs" || str_eq request.command "get_outputs"
      then (response_error request.request_id not_supported "Hub has no GPIO input/output state", c)
      else (
        response_error request.request_id invalid_command ("unknown command: " <> request.command),
        c,
      )

  abbrev pub answer_line : Conn → Result String (CdcRequest Value) → CdcResponse HubReply × Conn
  answer_line c (err e) = (response_error "unknown" invalid_json ("invalid CDC JSON: " <> e), c)
  answer_line c (ok request) =
      if request.version == cdc_protocol_version then run_command c request else (
        response_error request.request_id unsupported_version
            ("unsupported protocol version: " <> json.decimal request.version),
        c,
      )

  unfoldable pub handle_line : Conn → String → CdcResponse HubReply × Conn
  handle_line c line = answer_line c (json.read_request line)

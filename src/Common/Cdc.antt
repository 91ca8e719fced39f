-- ===== src/Common/Cdc.antt =====
-- crates/uchi-pulse-common/src/cdc.rs: the requests and responses of the management protocol.
use uchi_pulse.Base.{ℕ, String, Option, none, some, Result}
use uchi_pulse.Common.Types.{TextError, request_id_capacity, text}

pub record CdcRequest (P : Type 0) : Type 0 where
  pub version : ℕ
  pub request_id : String
  pub command : String
  pub params : P

pub data CdcStatus : Type 0 where
  ok_status error_status : CdcStatus

pub data CdcErrorCode : Type 0 where
  invalid_json unsupported_version invalid_command invalid_parameter : CdcErrorCode
  invalid_config save_failed operation_failed not_supported : CdcErrorCode

pub record CdcError : Type 0 where
  pub code : CdcErrorCode
  pub message : String

-- `reply` is the field `data`.
pub record CdcResponse (D : Type 0) : Type 0 where
  pub version : ℕ
  pub request_id : String
  pub status : CdcStatus
  pub reply : Option D
  pub error : Option CdcError

abbrev pub success_response : {D : Type 0} → ℕ → String → D → CdcResponse D
success_response version id reply = record {
  version = version;
  request_id = id;
  status = ok_status;
  reply = some reply;
  error = none;
}

abbrev pub error_response : {D : Type 0} → ℕ → String → CdcErrorCode → String → CdcResponse D
error_response version id code message = record {
  version = version;
  request_id = id;
  status = error_status;
  reply = none;
  error = some (record { code = code; message = message });
}

abbrev pub cdc_protocol_version : ℕ
cdc_protocol_version = 1

abbrev pub request_id : String → Result TextError String
request_id value = text request_id_capacity value

-- ===== src/Desktop/Protocol.antt =====
-- apps/uchi-pulse-control/src/protocol.rs: the lines that come from a device, and the requests that
-- go to it. A line is bytes; `utf8` is `String::from_utf8`. The worker thread is not modelled.
pub mod Lines
mod Tests
use uchi_pulse.Base.{
  ℕ, String, Bool, true, false, not, ◌==◌, leb, Option, none, some, List, [], ◌∷◌, ◌++◌, length,
  Result, ok, err, ◌>>=◌, map_err, if◌then◌else◌, ◌<>◌,
}
use uchi_pulse.Common.Types.{text, request_id_capacity, command_name_capacity}
use uchi_pulse.Common.Cdc.{CdcRequest, CdcResponse, cdc_protocol_version}

abbrev pub max_cdc_line_size : ℕ
max_cdc_line_size = 65536

pub record LineDecoder : Type 0 where
  pub current : List ℕ
  pub dropping_overlong : Bool

abbrev pub new_decoder : LineDecoder
new_decoder = record { current = []; dropping_overlong = false }

pub data LineError : Type 0 where
  line_exceeded not_utf8 : LineError

-- `strip_suffix(b"\r")`
unfoldable pub strip_cr : List ℕ → List ℕ
strip_cr [] = []
strip_cr (b ∷ []) = if b == 13 then [] else b ∷ []
strip_cr (b ∷ c ∷ bs) = b ∷ strip_cr (c ∷ bs)

module _ (utf8 : List ℕ → Option String) where
  -- The bytes before the LF as a line.
  abbrev pub line_of : List ℕ → Result LineError String
  line_of bytes = elim (utf8 (strip_cr bytes)) [ none ↦ err not_utf8 | some line ↦ ok line ]

  -- One round of the loop: what it pushes, and the decoder after it.
  unfoldable pub take_byte : LineDecoder → ℕ → List (Result LineError String) × LineDecoder
  take_byte d b =
      if d.dropping_overlong
      then ([], if b == 10 then record d { dropping_overlong = false } else d)
      else if leb max_cdc_line_size (length d.current)
      then (err line_exceeded ∷ [], record { current = []; dropping_overlong = not (b == 10) })
      else if b == 10
      then (line_of d.current ∷ [], record d { current = [] })
      else ([], record d { current = d.current ++ (b ∷ []) })

  unfoldable pub feed : LineDecoder → List ℕ → List (Result LineError String) × LineDecoder
  feed d [] = ([], d)
  feed d (b ∷ bs) =
      let (first, next) = take_byte d b in
      let (rest, after) = feed next bs in (first ++ rest, after)

pub data RequestError : Type 0 where
  request_id_too_long command_too_long encoding_failed : RequestError

-- `format` writes a request number with at least six digits, and `encode` is serde_json.
unfoldable pub build_request :
    {Value : Type 0}
    → (ℕ → String)
    → (CdcRequest Value → Option String)
    → String
    → Value
    → ℕ
    → Result RequestError String
build_request format encode command params request_number = do
  id ←
      map_err (λ _. request_id_too_long)
        (text request_id_capacity ("desktop-" <> format request_number))
  name ← map_err (λ _. command_too_long) (text command_name_capacity command)
  elim (encode (record {
    version = cdc_protocol_version;
    request_id = id;
    command = name;
    params = params;
  })) [ none ↦ err encoding_failed | some encoded ↦ ok (encoded <> "\n") ]

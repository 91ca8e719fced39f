-- ===== src/Common/Message.antt =====
-- crates/uchi-pulse-common/src/udp.rs: the UDP messages, and the visitor that builds one from the
-- fields of a JSON object. The JSON tokeniser (serde_json_core) is not modelled: the visitor is
-- given the fields that it hands over, in their order.
pub mod Visitor
mod Tests
use uchi_pulse.Base.{ℕ, String, Option, none, some, List, [], ◌∷◌, Result, ok, err, ok_or, ◌>>=◌}

pub data MessageType : Type 0 where
  hello heartbeat event ack : MessageType

pub data UdpMessage : Type 0 where
  hello heartbeat : String → UdpMessage
  event : String → String → ℕ → UdpMessage
  ack : String → String → UdpMessage

unfoldable pub message_type : UdpMessage → MessageType
message_type (UdpMessage.hello d) = MessageType.hello
message_type (UdpMessage.heartbeat d) = MessageType.heartbeat
message_type (UdpMessage.event d e a) = MessageType.event
message_type (UdpMessage.ack d e) = MessageType.ack

-- A key of the object with its value, decoded at the type that the key asks for.
pub data Field : Type 0 where
  type_tag : MessageType → Field
  device_id event_id : String → Field
  action_id : ℕ → Field
  ignore : Field

pub data VisitError : Type 0 where
  missing_type missing_device_id invalid_fields : VisitError

-- The four local variables of `visit_map`.
pub record Slots : Type 0 where
  pub kind : Option MessageType
  pub device : Option String
  pub event : Option String
  pub action : Option ℕ

-- One round of the `while let` loop. A later key overwrites an earlier one.
visit_field : Slots → Field → Slots
visit_field s (Field.type_tag t) = record s { kind = some t }
visit_field s (Field.device_id d) = record s { device = some d }
visit_field s (Field.event_id e) = record s { event = some e }
visit_field s (Field.action_id a) = record s { action = some a }
visit_field s Field.ignore = s

visit_fields : Slots → List Field → Slots
visit_fields s [] = s
visit_fields s (f ∷ fs) = visit_fields (visit_field s f) fs

-- The final `match message_type`, guards included.
build_message : MessageType → String → Option String → Option ℕ → Result VisitError UdpMessage
build_message MessageType.hello d none none = ok (UdpMessage.hello d)
build_message MessageType.heartbeat d none none = ok (UdpMessage.heartbeat d)
build_message MessageType.event d (some e) (some a) = ok (UdpMessage.event d e a)
build_message MessageType.ack d (some e) none = ok (UdpMessage.ack d e)
build_message _ _ _ _ = err invalid_fields

abbrev no_slots : Slots
no_slots = record { kind = none; device = none; event = none; action = none }

pub visit_map : List Field → Result VisitError UdpMessage
visit_map fields =
    let s = visit_fields no_slots fields in
    do
      t ← ok_or s.kind missing_type
      d ← ok_or s.device missing_device_id
      build_message t d s.event s.action

-- ===== src/Common/Message/Visitor.antt =====
-- What the visitor makes of the fields of an object, said by the last field of each kind.
use uchi_pulse.Base.{ℕ, String, ◌≡◌, ◌↔◌, refl, Option, none, some, List, [], ◌∷◌, arith, ok}
use uchi_pulse.Common.Message.{
  MessageType, UdpMessage, Field, Slots, message_type, visit_field, visit_fields, no_slots,
  build_message, visit_map,
}

-- The value of the last field of one kind, if there is any.
abbrev or_else {ℓ} : {A : Type ℓ} → Option A → Option A → Option A
or_else none o = o
or_else (some a) o = some a

abbrev pub last {ℓ κ} : {A : Type ℓ} {B : Type κ} → (A → Option B) → List A → Option B
last pick [] = none
last pick (x ∷ xs) = or_else (last pick xs) (pick x)

abbrev pub type_in : Field → Option MessageType
type_in (Field.type_tag t) = some t
type_in _ = none

abbrev pub device_in : Field → Option String
device_in (Field.device_id d) = some d
device_in _ = none

abbrev pub event_in : Field → Option String
event_in (Field.event_id e) = some e
event_in _ = none

abbrev pub action_in : Field → Option ℕ
action_in (Field.action_id a) = some a
action_in _ = none

-- The parts of a message.
abbrev pub device_of : UdpMessage → String
device_of (UdpMessage.hello d) = d
device_of (UdpMessage.heartbeat d) = d
device_of (UdpMessage.event d e a) = d
device_of (UdpMessage.ack d e) = d

abbrev pub event_of : UdpMessage → Option String
event_of (UdpMessage.event d e a) = some e
event_of (UdpMessage.ack d e) = some e
event_of _ = none

abbrev pub action_of : UdpMessage → Option ℕ
action_of (UdpMessage.event d e a) = some a
action_of _ = none

visit_fields-last :
    (s : Slots) (fs : List Field)
    → visit_fields s fs ≡ record {
      kind = or_else (last type_in fs) s.kind;
      device = or_else (last device_in fs) s.device;
      event = or_else (last event_in fs) s.event;
      action = or_else (last action_in fs) s.action;
    }
unfolding visit_fields visit_field
visit_fields-last s [] = refl
visit_fields-last s (Field.type_tag t ∷ fs) =
    ground (arith, visit_fields-last (record s { kind = some t }) fs)
visit_fields-last s (Field.device_id t ∷ fs) =
    ground (arith, visit_fields-last (record s { device = some t }) fs)
visit_fields-last s (Field.event_id t ∷ fs) =
    ground (arith, visit_fields-last (record s { event = some t }) fs)
visit_fields-last s (Field.action_id t ∷ fs) =
    ground (arith, visit_fields-last (record s { action = some t }) fs)
visit_fields-last s (Field.ignore ∷ fs) = ground (arith, visit_fields-last s fs)

-- An object is read as the message `m` exactly if its last type, device, event and action fields
-- are those of `m`, and the kinds of field that `m` does not have are missing; other keys and the
-- order of the keys do not matter.
pub visit_map_iff :
    (fs : List Field) (m : UdpMessage)
    → (visit_map fs ≡ ok m) ↔ (
        (last type_in fs ≡ some (message_type m))
        × (last device_in fs ≡ some (device_of m))
        × (last event_in fs ≡ event_of m)
        × (last action_in fs ≡ action_of m))
unfolding visit_map build_message message_type
visit_map_iff fs m = ground (arith, visit_fields-last no_slots fs)

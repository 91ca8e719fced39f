-- ===== src/Link/Tests.antt =====
-- One event of one node, sent, carried out and acknowledged.
use uchi_pulse.Base.{
  ℕ, ◌≡◌, ◌≤◌, refl, String, str_eq, str_eq_iff, true, false, ◌&&◌, none, some, Option, List, [],
  ◌∷◌, arith, ltb, ◌==◌, length, if◌then◌else◌, is_blank, is_whitespace,
}
use uchi_pulse.Common.Types.{text}
use uchi_pulse.Common.Message.{UdpMessage}
use uchi_pulse.Common.Codec.{Json, IsFaithful, decode, encode}
use uchi_pulse.Hub.Database.Memory.{Tables, tables}
use uchi_pulse.Hub.State.{
  DeviceState, initial_wait, device_id_of, is_ack, observe_message, mark_online,
}
use uchi_pulse.Hub.Udp.{
  HubUdpProcessor, ActionHandler, noop_handler, applied, is_enabled_managed_device,
  validate_message, process_message, process_event, observe_then, process_datagram,
}
use uchi_pulse.Node.Udp.{
  NodeUdpProtocol, PendingEvent, new_generator, ack_matches, event_from_action, next_event_id,
  format_event_id, hex, hex_char, encode_message,
}
use uchi_pulse.Link.Handshake.{PlainMessage, handshake}

abbrev first_id : String
first_id = "0000000000000001-0000000000000001"

-- A writer of one EVENT and its ACK.
abbrev write : UdpMessage → ℕ → Option (List ℕ)
write (UdpMessage.event d e a) size =
    if str_eq d "n" && str_eq e first_id && a == 7 && ltb 0 size then some (1 ∷ []) else none
write (UdpMessage.ack d e) size =
    if str_eq d "n" && str_eq e first_id && ltb 0 size then some (2 ∷ []) else none
write _ size = none

abbrev read : List ℕ → Option (UdpMessage × ℕ)
read [] = none
read (b ∷ bs) =
    if b == 1
    then some (UdpMessage.event "n" first_id 7, 1)
    else if b == 2
    then some (UdpMessage.ack "n" first_id, 1)
    else none

abbrev json : Json UdpMessage
json = record { to_slice = write; from_slice = read }

write_fits :
    (m : UdpMessage) (size : ℕ) (out : List ℕ) → write m size ≡ some out → length out ≤ size
write_fits m size out h = ground arith

read-write :
    (m : UdpMessage) (size : ℕ) (out : List ℕ)
    → write m size ≡ some out
    → read out ≡ some (m, length out)
read-write (UdpMessage.event d e a) size out h =
    ground (arith, str_eq_iff d "n", str_eq_iff e first_id)
read-write (UdpMessage.ack d e) size out h = ground (arith, str_eq_iff d "n", str_eq_iff e first_id)
read-write (UdpMessage.hello d) size out h = ground arith
read-write (UdpMessage.heartbeat d) size out h = ground arith

json-IsFaithful : IsFaithful json PlainMessage
json-IsFaithful = record { fits = write_fits; reads = λ m size out plain. read-write m size out }

abbrev node : NodeUdpProtocol
node = record { device_id = "n"; event_ids = new_generator 1 }

abbrev node_after : NodeUdpProtocol
node_after = record { device_id = "n"; event_ids = record { boot_id = 1; next_sequence = 2 } }

abbrev pending : PendingEvent
pending = record { device_id = "n"; event_id = first_id; action_id = 7 }

abbrev store : Tables
store = record {
  devices =
      record {
        device_id = "n";
        name = "N";
        device_type = "INPUT";
        registered_at = "";
        updated_at = "";
        enabled = true;
      }
      ∷ [];
  families = [];
  actions = [];
  changes = [];
  events = [];
}

abbrev waiting : DeviceState
waiting = record {
  device_id = "n";
  status = initial_wait;
  initial_wait_started_at = 10;
  last_seen_at = none;
}

abbrev handler : ActionHandler Tables Unit ⊥
handler = noop_handler

abbrev hub : HubUdpProcessor Tables Unit
hub = record {
  db = store;
  manager = record { devices = waiting ∷ []; offline_timeout = 300 };
  handler = tt;
}

handshake_example : ack_matches json node_after pending (2 ∷ []) ≡ true
unfolding event_from_action next_event_id text format_event_id hex hex_char encode_message encode
    process_datagram decode validate_message is_enabled_managed_device process_message observe_then
    process_event observe_message device_id_of is_ack mark_online is_blank is_whitespace
handshake_example =
    handshake json (λ payload. some "text") tables handler node node_after pending 7 256 256
      (1 ∷ []) (2 ∷ []) hub 20 "t" "n" first_id false applied (UdpMessage.ack "n" first_id)
      json-IsFaithful (ground arith) refl refl refl refl

-- ===== src/Node/Udp.antt =====
-- apps/uchi-pulse-node/src/udp.rs: event ids, the retry policy, and the node's side of the UDP
-- protocol. `u64` and `u16` counters are numbers; where the source wraps or checks, so do these.
pub mod Retry
pub mod EventId
pub mod Protocol
mod Tests
use Prim.Native.Char.{Char}
use Prim.Native.String.{len}
use uchi_pulse.Base.{
  ℕ, zero, suc, ◌+◌, ◌/◌, ◌%◌, ◌^◌, String, str_eq, Bool, true, false, ◌&&◌, Option, none, some,
  List, [], ◌∷◌, Result, ok, err, ◌>>=◌, ◌>>◌, map_err, ltb, leb, ◌==◌, if◌then◌else◌,
}
use uchi_pulse.Common.Types.{text, device_id_capacity, event_id_capacity}
use uchi_pulse.Common.Message.{UdpMessage}
use uchi_pulse.Common.Codec.{Json, decode, encode}

pub data ProtocolError : Type 0 where
  device_id_too_long event_id_too_long sequence_exhausted buffer_too_small : ProtocolError

pub record RetryPolicy : Type 0 where
  pub retry_count : ℕ
  pub attempts_started : ℕ

abbrev pub new_policy : ℕ → RetryPolicy
new_policy retry_count = record { retry_count = retry_count; attempts_started = 0 }

-- `attempts_started` is a `u16`, and the attempt's number is cut to a `u8`.
unfoldable pub next_attempt : RetryPolicy → Option (ℕ × RetryPolicy)
next_attempt p =
    if ltb p.retry_count p.attempts_started
    then none
    else some
        ((p.attempts_started + 1) % 2 ^ 8, record p { attempts_started = p.attempts_started + 1 })

pub record EventIdGenerator : Type 0 where
  pub boot_id : ℕ
  pub next_sequence : ℕ

abbrev pub new_generator : ℕ → EventIdGenerator
new_generator boot_id = record { boot_id = boot_id; next_sequence = 1 }

abbrev hex_digits : List Char
hex_digits =
    "0" ∷ "1" ∷ "2" ∷ "3" ∷ "4" ∷ "5" ∷ "6" ∷ "7" ∷ "8" ∷ "9" ∷ "a" ∷ "b" ∷ "c" ∷ "d" ∷ "e" ∷ "f"
    ∷ []

abbrev nth : ℕ → List Char → Char
nth n [] = "0"
nth zero (c ∷ cs) = c
nth (suc n) (c ∷ cs) = nth n cs

unfoldable pub hex_char : ℕ → Char
hex_char n = nth n hex_digits

-- The lower-case hexadecimal digits of a number in a given width, before a text.
unfoldable pub hex : ℕ → ℕ → String → String
unfolding hex_char
hex zero n rest = rest
hex (suc w) n rest = hex w (n / 16) (String.◌∷◌ (hex_char (n % 16)) rest)

-- `{:016x}-{:016x}` of two `u64`: sixteen digits each.
unfoldable pub format_event_id : ℕ → ℕ → String
unfolding hex
format_event_id boot_id sequence = hex 16 boot_id (String.◌∷◌ "-" (hex 16 sequence ""))

unfoldable pub next_event_id : EventIdGenerator → Result ProtocolError (String × EventIdGenerator)
next_event_id g =
    if ltb (g.next_sequence + 1) (2 ^ 64)
    then (do
      event_id ←
          map_err (λ _. event_id_too_long)
            (text event_id_capacity (format_event_id g.boot_id g.next_sequence))
      ok (event_id, record g { next_sequence = g.next_sequence + 1 }))
    else err sequence_exhausted

-- A pending event is its EVENT message; the source's constructor makes no other.
pub record PendingEvent : Type 0 where
  pub device_id : String
  pub event_id : String
  pub action_id : ℕ

abbrev pub message : PendingEvent → UdpMessage
message p = UdpMessage.event p.device_id p.event_id p.action_id

pub record NodeUdpProtocol : Type 0 where
  pub device_id : String
  pub event_ids : EventIdGenerator

unfoldable pub new_protocol : String → ℕ → Result ProtocolError NodeUdpProtocol
new_protocol device_id boot_id = do
  id ← map_err (λ _. device_id_too_long) (text device_id_capacity device_id)
  ok (record { device_id = id; event_ids = new_generator boot_id })

abbrev pub hello : NodeUdpProtocol → UdpMessage
hello p = UdpMessage.hello p.device_id

abbrev pub heartbeat : NodeUdpProtocol → UdpMessage
heartbeat p = UdpMessage.heartbeat p.device_id

unfoldable pub event_from_action :
    NodeUdpProtocol → ℕ → Result ProtocolError (PendingEvent × NodeUdpProtocol)
event_from_action p action_id = do
  (event_id, event_ids) ← next_event_id p.event_ids
  ok (
    record { device_id = p.device_id; event_id = event_id; action_id = action_id },
    record p { event_ids = event_ids },
  )

module _ (json : Json UdpMessage) where
  unfoldable pub encode_message : UdpMessage → ℕ → Result ProtocolError (List ℕ)
  encode_message m size = map_err (λ _. buffer_too_small) (encode json m size)

  unfoldable pub ack_matches : NodeUdpProtocol → PendingEvent → List ℕ → Bool
  ack_matches p event payload = elim (decode json payload) [
    | err _ ↦ false
    | ok m ↦ elim m [
      | UdpMessage.ack device_id event_id ↦
          str_eq device_id p.device_id && str_eq event_id event.event_id
      | _ ↦ false
    ]
  ]

-- ===== src/Node/Udp/Tests.antt =====
-- The first ids of a boot, the attempts of the default policy, and an acknowledgement.
use uchi_pulse.Base.{
  ◌≡◌, String, none, some, List, [], ◌∷◌, arith, ok, length, Distinct, ◌==◌, if◌then◌else◌,
}
use uchi_pulse.Common.Message.{UdpMessage}
use uchi_pulse.Common.Codec.{Json}
use uchi_pulse.Node.Udp.{NodeUdpProtocol, PendingEvent, new_generator, new_policy}
use uchi_pulse.Node.Udp.EventId.{next_ids, next_ids-Distinct}
use uchi_pulse.Node.Udp.Retry.{attempts, attempts_exact}

abbrev first_id : String
first_id = "0000000000000001-0000000000000001"

abbrev node : NodeUdpProtocol
node = record { device_id = "n"; event_ids = new_generator 1 }

abbrev node_after : NodeUdpProtocol
node_after = record { device_id = "n"; event_ids = record { boot_id = 1; next_sequence = 2 } }

abbrev pending : PendingEvent
pending = record { device_id = "n"; event_id = first_id; action_id = 7 }

-- A JSON reader that knows one ACK.
abbrev reader : Json UdpMessage
reader = record {
  to_slice = λ m size. none;
  from_slice = λ payload. elim payload [
    | [] ↦ none
    | b ∷ _ ↦ if b == 2 then some (UdpMessage.ack "n" first_id, 1) else none
  ];
}

attempts_exact_example : attempts 5 (new_policy 3) ≡ some (1 ∷ 2 ∷ 3 ∷ 4 ∷ [])
attempts_exact_example = attempts_exact 3 5 (omega arith)

next_ids-Distinct_example :
    (ids : List String) × (next_ids 3 (new_generator 1)
      ≡ ok (ids, record { boot_id = 1; next_sequence = 4 }))
    × (length ids ≡ 3)
    × Distinct (λ y. y) ids
next_ids-Distinct_example = next_ids-Distinct 3 (new_generator 1) (omega arith) (omega arith)

-- ===== src/Node/Delivery/Tests.antt =====
-- An event whose first attempt gets another event's ACK, and whose second gets its own.
use uchi_pulse.Base.{◌≡◌, refl, true, false, none, some, List, [], ◌∷◌, arith, ◌==◌, if◌then◌else◌}
use uchi_pulse.Common.Message.{UdpMessage}
use uchi_pulse.Common.Codec.{Json, decode}
use uchi_pulse.Node.Udp.{NodeUdpProtocol, PendingEvent, new_generator, new_policy, ack_matches}
use uchi_pulse.Node.Delivery.{Try, datagram, socket_error, timed_out, wait_for_ack, deliver}
use uchi_pulse.Node.Delivery.Outcome.{deliver_result}

abbrev node : NodeUdpProtocol
node = record { device_id = "n"; event_ids = new_generator 1 }

abbrev pending : PendingEvent
pending = record { device_id = "n"; event_id = "e"; action_id = 7 }

-- A JSON reader that knows two ACKs.
abbrev reader : Json UdpMessage
reader = record {
  to_slice = λ m size. none;
  from_slice = λ payload. elim payload [
    | [] ↦ none
    | b ∷ _ ↦
        if b == 2
        then some (UdpMessage.ack "n" "e", 1)
        else if b == 3
        then some (UdpMessage.ack "n" "f", 1)
        else none
  ];
}

abbrev tries : List Try
tries =
    record {
      hub_known = true;
      is_sent = true;
      receptions = datagram (3 ∷ []) false ∷ socket_error false ∷ timed_out ∷ [];
    }
    ∷ record { hub_known = true; is_sent = true; receptions = datagram (2 ∷ []) false ∷ [] }
    ∷ []

deliver_result_example : deliver reader node pending (new_policy 1) tries ≡ some true
unfolding wait_for_ack ack_matches decode
deliver_result_example = deliver_result reader node pending 1 tries (omega arith) (refl, (refl, tt))

-- ===== src/Node/Discovery/Tests.antt =====
-- A node that is asked by two hubs and beats every second.
use uchi_pulse.Base.{ℕ, ◌+◌, ◌≡◌, refl, none, some, List, [], ◌∷◌, length}
use uchi_pulse.Common.Message.{UdpMessage}
use uchi_pulse.Common.Codec.{Json, decode, encode}
use uchi_pulse.Node.Udp.{NodeUdpProtocol, new_generator, encode_message}
use uchi_pulse.Node.Discovery.{
  HelloRequest, is_hello_request, Round, Task, answer, beat, turn, turns,
}
use uchi_pulse.Node.Discovery.Beats.{Beats}

abbrev node : NodeUdpProtocol
node = record { device_id = "n"; event_ids = new_generator 1 }

-- Every payload but the empty one is a hello request.
abbrev requests : Json HelloRequest
requests = record {
  to_slice = λ m size. none;
  from_slice = λ payload. elim payload [
    | [] ↦ none
    | _ ∷ bs ↦ some (record { message_type = "HELLO_REQUEST" }, 1 + length bs)
  ];
}

abbrev writer : Json UdpMessage
writer = record {
  to_slice = λ m size. elim m [
    | UdpMessage.hello _ ↦ some (1 ∷ [])
    | UdpMessage.heartbeat _ ↦ some (2 ∷ [])
    | _ ↦ none
  ];
  from_slice = λ payload. none;
}

abbrev start : Task ℕ
start = record { hub_endpoint = none; last_heartbeat = 0 }

abbrev rounds : List (Round ℕ)
rounds =
    record { received = some (5 ∷ [], 40); now = 300 }
    ∷ record { received = none; now = 1300 }
    ∷ record { received = some (5 ∷ [], 41); now = 2400 }
    ∷ []

-- The last turn answers the second hub and beats to it.
run : turns requests writer node 1 start rounds ≡ (
  record { hub_endpoint = some 41; last_heartbeat = 2400 },
  (40, 1 ∷ []) ∷ (40, 2 ∷ []) ∷ (41, 1 ∷ []) ∷ (41, 2 ∷ []) ∷ [],
)
unfolding turns turn answer beat is_hello_request decode encode encode_message
run = refl

-- ===== src/Node/Discovery.antt =====
-- The discovery and heartbeat task of apps/uchi-pulse-node/src/bin/uchi-pulse-node.rs. The socket
-- and the clock are not in the repository: a `Round` gives what they do in one turn of the loop.
pub mod Datagrams
pub mod Beats
mod Tests
use uchi_pulse.Base.{
  ℕ, ◌-◌, ◌*◌, String, str_eq, Bool, true, false, Option, none, some, List, [], ◌∷◌, ◌++◌, Result,
  ok, err, leb, if◌then◌else◌,
}
use uchi_pulse.Common.Message.{UdpMessage}
use uchi_pulse.Common.Codec.{Json, decode}
use uchi_pulse.Node.Udp.{NodeUdpProtocol, hello, heartbeat, encode_message}

pub record HelloRequest : Type 0 where
  pub message_type : String

unfoldable pub is_hello_request : Json HelloRequest → List ℕ → Bool
is_hello_request json payload = elim (decode json payload) [
  | err _ ↦ false
  | ok request ↦ str_eq request.message_type "HELLO_REQUEST"
]

-- `received` is what `with_timeout(…, socket.recv_from(…))` gives, an error or a timeout being
-- `none`; `now` is the clock after it.
pub record Round (P : Type 0) : Type 0 where
  pub received : Option (List ℕ × P)
  pub now : ℕ

pub record Task (P : Type 0) : Type 0 where
  pub hub_endpoint : Option P
  pub last_heartbeat : ℕ

module _ {P : Type 0} (requests : Json HelloRequest) (json : Json UdpMessage)
    (protocol : NodeUdpProtocol) where
  -- What is given to `send_to`; its result is ignored.
  abbrev send : UdpMessage → P → List (P × List ℕ)
  send m endpoint = elim (encode_message json m 256) [
    | err _ ↦ []
    | ok bytes ↦ (endpoint, bytes) ∷ []
  ]

  unfoldable pub answer : Option P → Option (List ℕ × P) → Option P × List (P × List ℕ)
  answer hub none = (hub, [])
  answer hub (some (payload, source)) =
      if is_hello_request requests payload
      then (some source, send (hello protocol) source)
      else (hub, [])

  unfoldable pub beat : Option P → List (P × List ℕ)
  beat none = []
  beat (some hub) = send (heartbeat protocol) hub

  -- One turn of the loop, with what it sends.
  unfoldable pub turn : ℕ → Task P → Round P → Task P × List (P × List ℕ)
  turn interval_sec t r =
      let (hub, answers) = answer t.hub_endpoint r.received in
      if leb (interval_sec * 1000) (r.now - t.last_heartbeat)
      then (record { hub_endpoint = hub; last_heartbeat = r.now }, answers ++ beat hub)
      else (record t { hub_endpoint = hub }, answers)

  unfoldable pub turns : ℕ → Task P → List (Round P) → Task P × List (P × List ℕ)
  turns interval_sec t [] = (t, [])
  turns interval_sec t (r ∷ rs) =
      let (next, sent) = turn interval_sec t r in
      let (end, more) = turns interval_sec next rs in (end, sent ++ more)

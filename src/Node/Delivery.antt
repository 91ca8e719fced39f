-- ===== src/Node/Delivery.antt =====
-- apps/uchi-pulse-node/src/bin/uchi-pulse-node.rs: the delivery of one event. The socket and the
-- clock are not under the repository: what they do is given, for each attempt, by a `Try`.
pub mod Outcome
mod Tests
use uchi_pulse.Base.{
  ℕ, suc, Bool, true, false, ◌&&◌, Option, none, some, List, [], ◌∷◌, if◌then◌else◌,
}
use uchi_pulse.Common.Message.{UdpMessage}
use uchi_pulse.Common.Codec.{Json}
use uchi_pulse.Node.Udp.{NodeUdpProtocol, PendingEvent, RetryPolicy, next_attempt, ack_matches}

-- What `with_deadline(deadline, socket.recv_from(rx))` gives. After a datagram, or an error of the
-- socket, the clock is read again: `late` tells whether it shows the deadline.
pub data Reception : Type 0 where
  datagram : (payload : List ℕ) → (late : Bool) → Reception
  socket_error : (late : Bool) → Reception
  timed_out : Reception

-- One round of the `while let` loop: the hub's endpoint is known or not, `send_to` succeeds or not,
-- and the receptions until the deadline.
pub record Try : Type 0 where
  pub hub_known : Bool
  pub is_sent : Bool
  pub receptions : List Reception

module _ (json : Json UdpMessage) (protocol : NodeUdpProtocol) (event : PendingEvent) where
  -- `none` means that the receptions given here end before the wait does.
  unfoldable pub wait_for_ack : List Reception → Option Bool
  wait_for_ack [] = none
  wait_for_ack (datagram payload late ∷ rs) =
      let rest = wait_for_ack rs in
      if ack_matches json protocol event payload
      then some true
      else if late
      then some false
      else rest
  wait_for_ack (socket_error late ∷ rs) =
      let rest = wait_for_ack rs in if late then some false else rest
  wait_for_ack (timed_out ∷ rs) = some false

  -- `delivered` after the loop; `none` means that the tries given here end before the loop does.
  unfoldable pub deliver : RetryPolicy → List Try → Option Bool
  deliver p [] = elim (next_attempt p) [ none ↦ some false | some _ ↦ none ]
  deliver p (t ∷ ts) = elim (next_attempt p) [
    | none ↦ some false
    | some (attempt, q) ↦
        let next = deliver q ts in
        if t.hub_known
        then if t.is_sent
          then elim (wait_for_ack t.receptions) [
            | none ↦ none
            | some acknowledged ↦ if acknowledged then some true else next
          ]
          else next
        else some false
  ]

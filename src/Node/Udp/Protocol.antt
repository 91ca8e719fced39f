-- ===== src/Node/Udp/Protocol.antt =====
-- The events that the node sends, and the acknowledgements that it takes for them.
use uchi_pulse.Base.{
  ℕ, ◌≡◌, ◌↔◌, str_eq_iff, true, List, arith, ok, Result-cases, inl, inr, Bool-cases, ltb, ◌+◌, ◌^◌,
  subst,
}
use uchi_pulse.Common.Message.{UdpMessage}
use uchi_pulse.Common.Codec.{Json, IsPlain, decode}
use uchi_pulse.Node.Udp.EventId.{next_event_id_step, format_event_id-IsPlain}
use uchi_pulse.Node.Udp.{
  NodeUdpProtocol, PendingEvent, ack_matches, event_from_action, next_event_id, format_event_id,
}

-- `ack_matches` holds exactly for a payload that decodes to the ACK with the node's device id and
-- the event's id.
pub ack_matches_iff :
    (json : Json UdpMessage) (p : NodeUdpProtocol) (ev : PendingEvent) (payload : List ℕ)
    → (ack_matches json p ev payload ≡ true)
      ↔ (decode json payload ≡ ok (UdpMessage.ack p.device_id ev.event_id))
unfolding ack_matches
ack_matches_iff json p ev payload = elim (Result-cases (decode json payload)) [
  | inr (failure, failed) ↦ ground arith
  | inl (UdpMessage.hello d, decoded) ↦ ground arith
  | inl (UdpMessage.heartbeat d, decoded) ↦ ground arith
  | inl (UdpMessage.event d e a, decoded) ↦ ground arith
  | inl (UdpMessage.ack d e, decoded) ↦
      ground (arith, str_eq_iff d p.device_id, str_eq_iff e ev.event_id)
]

-- The event of an action carries the node's own device id, and the protocol keeps it.
pub event_from_action-device_id :
    (p q : NodeUdpProtocol) (ev : PendingEvent) (a : ℕ)
    → event_from_action p a ≡ ok (ev, q)
    → (ev.device_id ≡ p.device_id) × (q.device_id ≡ p.device_id) × (ev.action_id ≡ a)
unfolding event_from_action
event_from_action-device_id p q ev a h = elim (Result-cases (next_event_id p.event_ids)) [
  | inr (failure, failed) ↦ ground arith
  | inl ((id, ids), made) ↦ ground arith
]

-- The id of the event is written in JSON as it stands.
pub event_from_action-IsPlain :
    (p q : NodeUdpProtocol) (ev : PendingEvent) (a : ℕ)
    → event_from_action p a ≡ ok (ev, q)
    → IsPlain ev.event_id
unfolding event_from_action
event_from_action-IsPlain p q ev a h =
    let ids = p.event_ids in
    elim (Bool-cases (ltb (ids.next_sequence + 1) (2 ^ 64))) [
      | inr exhausted ↦ absurd (ground (arith, next_event_id_step ids))
      | inl left ↦
          let named : format_event_id ids.boot_id ids.next_sequence ≡ ev.event_id =
            ground (arith, next_event_id_step ids) in
          subst (λ id. IsPlain id) named (format_event_id-IsPlain ids.boot_id ids.next_sequence)
    ]

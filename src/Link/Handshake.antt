-- ===== src/Link/Handshake.antt =====
-- The node's event and the hub's acknowledgement of it.
use uchi_pulse.Base.{
  sym, subst, ℕ, ◌≡◌, String, Bool, true, Option, List, arith, ok, Option-cases, inl, inr,
}
use uchi_pulse.Common.Message.{UdpMessage}
use uchi_pulse.Common.Codec.{Json, IsPlain, IsFaithful, encode, decode}
use uchi_pulse.Node.Udp.{
  NodeUdpProtocol, PendingEvent, message, encode_message, event_from_action, ack_matches,
}
use uchi_pulse.Node.Udp.Protocol.{
  ack_matches_iff, event_from_action-device_id, event_from_action-IsPlain,
}
use uchi_pulse.Hub.Database.{Repository}
use uchi_pulse.Hub.Udp.{
  ActionHandler, HubUdpProcessor, ActionExecutionStatus, event_accepted, process_datagram,
}
use uchi_pulse.Hub.Udp.Frame.{accepted_event}

-- The texts of a message need no escape in JSON.
abbrev pub PlainMessage : UdpMessage → Type 0
PlainMessage (UdpMessage.hello d) = IsPlain d
PlainMessage (UdpMessage.heartbeat d) = IsPlain d
PlainMessage (UdpMessage.event d e a) = IsPlain d × IsPlain e
PlainMessage (UdpMessage.ack d e) = IsPlain d × IsPlain e

decode-encode :
    (json : Json UdpMessage) (m : UdpMessage) (size : ℕ) (out : List ℕ)
    → IsFaithful json PlainMessage
    → PlainMessage m
    → encode json m size ≡ ok out
    → decode json out ≡ ok m
unfolding encode decode
decode-encode json m size out faithful plain h = elim (Option-cases (json.to_slice m size)) [
  | inl failed ↦ ground arith
  | inr (bytes, written) ↦ ground (arith, faithful.reads m size bytes plain written)
]

-- Over a JSON library that reads back what it wrote of texts without escapes, and for a node whose
-- device id is such a text, the acknowledgement that the hub makes for a node's event is, once
-- encoded, the one that the node takes for this event.
pub handshake :
    {Db Failure H E : Type 0} (json : Json UdpMessage) (utf8 : List ℕ → Option String)
    (repository : Repository Db Failure) (actions : ActionHandler Db H E)
    (node after : NodeUdpProtocol) (ev : PendingEvent) (a sent_size reply_size : ℕ)
    (sent replied : List ℕ) (hub : HubUdpProcessor Db H) (now : ℕ) (at d e : String)
    (duplicate : Bool) (status : ActionExecutionStatus) (reply : UdpMessage)
    → IsFaithful json PlainMessage
    → IsPlain node.device_id
    → event_from_action node a ≡ ok (ev, after)
    → encode_message json (message ev) sent_size ≡ ok sent
    → (process_datagram json utf8 repository actions hub sent now at).0
      ≡ ok (event_accepted d e duplicate status reply)
    → encode json reply reply_size ≡ ok replied
    → ack_matches json after ev replied ≡ true
unfolding encode_message
handshake json utf8 repository actions node after ev a sent_size reply_size sent replied hub now at
      d e duplicate status reply faithful plain made encoded accepted answered =
    let own = event_from_action-device_id node after ev a made in
    let plain_id = subst (λ id. IsPlain id) (sym own.0) plain in
    let plain_ids : IsPlain ev.device_id × IsPlain ev.event_id =
      (plain_id, event_from_action-IsPlain node after ev a made) in
    let received =
      decode-encode json (message ev) sent_size sent faithful plain_ids (ground arith) in
    let ((a', decoded), _, _, _, acknowledges) =
      accepted_event json utf8 repository actions hub sent now at d e duplicate status reply
        accepted in
    let named : (ev.device_id ≡ d) × (ev.event_id ≡ e) = ground arith in
    let own_reply : reply ≡ UdpMessage.ack ev.device_id ev.event_id = ground arith in
    let plain_reply = subst (λ m. PlainMessage m) (sym own_reply) plain_ids in
    let returned = decode-encode json reply reply_size replied faithful plain_reply answered in
    (ack_matches_iff json after ev replied).1 (ground arith)

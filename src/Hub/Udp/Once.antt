-- ===== src/Hub/Udp/Once.antt =====
-- An event is carried out once: the key that the database holds decides it.
use uchi_pulse.Base.{
  ℕ, ◌≤◌, ◌≡◌, refl, String, str_eq, str_eq_iff, Bool, true, false, ◌&&◌, Option, none, some, List,
  [], ◌∷◌, arith, Result, ok, ◌>>◌, count_if, Result-cases, Option-cases, inl, inr, Bool-cases, ◌⊎◌,
  any,
}
use uchi_pulse.Common.Message.{UdpMessage}
use uchi_pulse.Common.Codec.{Json, decode}
use uchi_pulse.Hub.Database.{Repository, HasEventKeys, EventRecord}
use uchi_pulse.Hub.State.{device_id_of, observe_message}
use uchi_pulse.Hub.Udp.{
  ActionHandler, HubUdpProcessor, PacketOutcome, event_accepted, hello_accepted, heartbeat_accepted,
  duplicate_outcome, UdpProcessingError, validate_message, is_enabled_managed_device, process_event,
  observe_then, process_message, process_datagram,
}

pub record Datagram : Type 0 where
  pub payload : List ℕ
  pub now : ℕ
  pub received_at : String

-- The outcome tells that the event of this key was carried out, or that it was acknowledged.
unfoldable pub is_new :
    {F E : Type 0} → String → String → Result (UdpProcessingError F E) PacketOutcome → Bool
is_new d e (ok (event_accepted d' e' false status message)) = str_eq d d' && str_eq e e'
is_new d e _ = false

unfoldable pub is_acked :
    {F E : Type 0} → String → String → Result (UdpProcessingError F E) PacketOutcome → Bool
is_acked d e (ok (event_accepted d' e' duplicate status message)) = str_eq d d' && str_eq e e'
is_acked d e _ = false

is_new-is_acked :
    {F E : Type 0} (d e : String) (o : Result (UdpProcessingError F E) PacketOutcome)
    → is_new d e o ≡ true
    → is_acked d e o ≡ true
unfolding is_new is_acked
is_new-is_acked d e o h = ground arith

module _ {Db Failure H E : Type 0} (json : Json UdpMessage) (utf8 : List ℕ → Option String)
    (repository : Repository Db Failure) (actions : ActionHandler Db H E) where
  unfoldable pub receive :
      HubUdpProcessor Db H
      → List Datagram
      → List (Result (UdpProcessingError Failure E) PacketOutcome) × HubUdpProcessor Db H
  receive p [] = ([], p)
  receive p (g ∷ gs) =
      let (outcome, q) =
        process_datagram json utf8 repository actions p g.payload g.now g.received_at in
      let (outcomes, r) = receive q gs in (outcome ∷ outcomes, r)

  module _ (keys : HasEventKeys repository) (d e : String) where
    -- What one call may do to the key `d`, `e`.
    abbrev Kept :
        HubUdpProcessor Db H
        → Result (UdpProcessingError Failure E) PacketOutcome × HubUdpProcessor Db H
        → Type 0
    Kept p r =
        (keys.has p.db d e ≡ true → keys.has r.1.db d e ≡ true)
        × (is_new d e r.0 ≡ true → keys.has p.db d e ≡ false)
        × (is_acked d e r.0 ≡ true → keys.has r.1.db d e ≡ true)

    process_event-Kept :
        (p : HubUdpProcessor Db H) (payload : List ℕ) (at id event : String) (a : ℕ)
        → Kept p (process_event json utf8 repository actions p payload at id event a)
    unfolding process_event is_new is_acked
    process_event-Kept p payload at id event a = elim (Option-cases (utf8 payload)) [
      | inl invalid ↦ ground arith
      | inr (text, valid) ↦
          let row : EventRecord = record {
            id = none;
            received_at = at;
            device_id = id;
            event_id = event;
            payload = text;
          } in
          elim (Result-cases (repository.insert_event p.db row)) [
            | inr (failure, failed) ↦ ground arith
            | inl ((inserted, db), written) ↦ ground (
              arith,
              keys.insert_new p.db db row inserted written,
              keys.insert_has p.db db row inserted written d e,
              str_eq_iff d id,
              str_eq_iff e event,
            )
          ]
    ]

    -- An observation changes no event, so it keeps what follows it.
    observe_then-Kept :
        (p : HubUdpProcessor Db H) (m : UdpMessage) (now : ℕ)
        (next : HubUdpProcessor Db H
          → Result (UdpProcessingError Failure E) PacketOutcome × HubUdpProcessor Db H)
        → ((q : HubUdpProcessor Db H) → q.db ≡ p.db → Kept q (next q))
        → Kept p (observe_then json utf8 repository actions p m now next)
    unfolding observe_then is_new is_acked
    observe_then-Kept p m now next h =
        let after : HubUdpProcessor Db H = record p {
          manager = (observe_message p.manager m now).1;
        } in
        elim (Result-cases (observe_message p.manager m now).0) [
          | inr (failure, failed) ↦ ground arith
          | inl (updated, observed) ↦ ground (arith, h after refl)
        ]

    process_message-Kept :
        (p : HubUdpProcessor Db H) (payload : List ℕ) (now : ℕ) (at : String) (m : UdpMessage)
        → Kept p (process_message json utf8 repository actions p payload now at m)
    unfolding process_message is_new is_acked
    process_message-Kept p payload now at (UdpMessage.hello id) =
        observe_then-Kept p (UdpMessage.hello id) now (λ q. (ok (hello_accepted id), q))
          (λ q same. ground arith)
    process_message-Kept p payload now at (UdpMessage.heartbeat id) =
        observe_then-Kept p (UdpMessage.heartbeat id) now (λ q. (ok (heartbeat_accepted id), q))
          (λ q same. ground arith)
    process_message-Kept p payload now at (UdpMessage.ack id event) = ground arith
    process_message-Kept p payload now at (UdpMessage.event id event a) =
        elim (Result-cases (repository.get_event p.db id event)) [
          | inr (failure, failed) ↦ ground arith
          | inl (none, absent) ↦ elim (Result-cases (actions.validate_event p.db p.handler a)) [
            | inr (failure, failed) ↦ ground arith
            | inl (_, valid) ↦
                let kept =
                  observe_then-Kept p (UdpMessage.event id event a) now
                    (λ q. process_event json utf8 repository actions q payload at id event a)
                    (λ q same. process_event-Kept q payload at id event a) in
                ground arith
          ]
          | inl (some found, present) ↦
              let kept =
                observe_then-Kept p (UdpMessage.event id event a) now
                  (λ q. (ok (duplicate_outcome id event), q))
                  (λ q same. ground (
                    arith,
                    keys.get_some p.db id event found present,
                    str_eq_iff d id,
                    str_eq_iff e event,
                  )) in
              ground arith
        ]

    process_datagram-Kept :
        (p : HubUdpProcessor Db H) (payload : List ℕ) (now : ℕ) (at : String)
        → Kept p (process_datagram json utf8 repository actions p payload now at)
    unfolding process_datagram is_new is_acked
    process_datagram-Kept p payload now at = elim (Result-cases (decode json payload)) [
      | inr (failure, failed) ↦ ground arith
      | inl (m, decoded) ↦
          let kept = process_message-Kept p payload now at m in
          elim (Result-cases (
            validate_message m
            >> is_enabled_managed_device json utf8 repository actions p (device_id_of m))) [
              | inr (failure, failed) ↦ ground arith
              | inl (managed, answered) ↦ ground arith
            ]
    ]

    -- Whatever datagrams arrive, repeated ones included, at most one call carries out the event of
    -- a given device and event id, and none does where the database held it from the start.
    pub receive-once :
        (p : HubUdpProcessor Db H) (gs : List Datagram)
        → (count_if (is_new d e) (receive p gs).0 ≤ 1)
          × (keys.has p.db d e ≡ true → count_if (is_new d e) (receive p gs).0 ≡ 0)
    unfolding receive
    receive-once p [] = ground arith
    receive-once p (g ∷ gs) =
        let r = process_datagram json utf8 repository actions p g.payload g.now g.received_at in
        let kept = process_datagram-Kept p g.payload g.now g.received_at in
        let later = receive-once r.1 gs in ground (arith, is_new-is_acked d e r.0)

    receive-keeps :
        (p : HubUdpProcessor Db H) (gs : List Datagram)
        → (keys.has p.db d e ≡ true) ⊎ (any (is_acked d e) (receive p gs).0 ≡ true)
        → keys.has (receive p gs).1.db d e ≡ true
    unfolding receive
    receive-keeps p [] h = ground arith
    receive-keeps p (g ∷ gs) h =
        let r = process_datagram json utf8 repository actions p g.payload g.now g.received_at in
        let kept = process_datagram-Kept p g.payload g.now g.received_at in
        elim (Bool-cases (keys.has r.1.db d e)) [
          | inl held ↦ receive-keeps r.1 gs (inl held)
          | inr lost ↦ receive-keeps r.1 gs (inr (ground arith))
        ]

    -- An event that any call of a run has acknowledged is in the database at the end of the run.
    pub receive-durable :
        (p : HubUdpProcessor Db H) (gs : List Datagram)
        → any (is_acked d e) (receive p gs).0 ≡ true
        → keys.has (receive p gs).1.db d e ≡ true
    receive-durable p gs h = receive-keeps p gs (inr h)

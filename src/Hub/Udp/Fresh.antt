-- ===== src/Hub/Udp/Fresh.antt =====
-- Which datagrams make the hub carry out an event.
use uchi_pulse.Base.{
  ℕ, ◌≡◌, refl, sym, ap, ◌∙◌, String, true, false, Option, none, some, List, arith, Result, ok, err,
  inl, inr, Result-cases, Option-cases, Bool,
}
use uchi_pulse.Common.Message.{UdpMessage}
use uchi_pulse.Common.Codec.{Json}
use uchi_pulse.Hub.Database.{Repository, HasEventKeys}
use uchi_pulse.Hub.State.{device_id_of, observe_message}
use uchi_pulse.Hub.Udp.Managed.{is_enabled_managed_device_iff}
use uchi_pulse.Hub.Udp.Frame.{is_fresh, accepted_event}
use uchi_pulse.Hub.Udp.Repeat.{IsEvent, fresh_event}
use uchi_pulse.Hub.Udp.{
  ActionHandler, HubUdpProcessor, EventContext, PacketOutcome, ActionExecutionStatus,
  UdpProcessingError, event_accepted, validate_message, process_event, observe_then,
  process_message, process_datagram,
}

fresh_accepted :
    {F E : Type 0} (o : Result (UdpProcessingError F E) PacketOutcome)
    → is_fresh o ≡ true
    → (d e : String) × (status : ActionExecutionStatus) × (reply : UdpMessage) × (o
        ≡ ok (event_accepted d e false status reply))
unfolding is_fresh
fresh_accepted (ok (event_accepted d e false status reply)) h = (d, e, status, reply, refl)
fresh_accepted (ok (event_accepted d e true status reply)) h = ground arith
fresh_accepted (ok PacketOutcome.ignored) h = ground arith
fresh_accepted (ok (PacketOutcome.hello_accepted d)) h = ground arith
fresh_accepted (ok (PacketOutcome.heartbeat_accepted d)) h = ground arith
fresh_accepted (err failure) h = ground arith

-- A new EVENT of a managed device, whose action may run and whose row the database takes.
pub record CarriesOut {Db Failure H E : Type 0} (json : Json UdpMessage)
    (utf8 : List ℕ → Option String) (repository : Repository Db Failure)
    (actions : ActionHandler Db H E) (p : HubUdpProcessor Db H) (payload : List ℕ) (at : String)
    : Type 0 where
  pub event : EventContext
  pub inserted : Bool
  pub after : Db
  pub is_event : IsEvent json repository p payload event.device_id event.event_id event.action_id
  pub is_unknown : repository.get_event p.db event.device_id event.event_id ≡ ok none
  pub is_allowed : actions.validate_event p.db p.handler event.action_id ≡ ok tt
  pub is_text : utf8 payload ≡ some event.payload
  pub is_inserted :
      repository.insert_event p.db (record {
        id = none;
        received_at = at;
        device_id = event.device_id;
        event_id = event.event_id;
        payload = event.payload;
      })
      ≡ ok (inserted, after)

module _ {Db Failure H E : Type 0} (json : Json UdpMessage) (utf8 : List ℕ → Option String)
    (repository : Repository Db Failure) (actions : ActionHandler Db H E)
    (keys : HasEventKeys repository) (p : HubUdpProcessor Db H) (payload : List ℕ) (now : ℕ)
    (at : String) where
  abbrev pub answer : Result (UdpProcessingError Failure E) PacketOutcome × HubUdpProcessor Db H
  answer = process_datagram json utf8 repository actions p payload now at

  -- What is left behind: the row is there, and the handler has been given the event once.
  pub record Leaves (c : CarriesOut json utf8 repository actions p payload at) : Type 0 where
    pub was_new : keys.has p.db c.event.device_id c.event.event_id ≡ false
    pub is_held : keys.has answer.1.db c.event.device_id c.event.event_id ≡ true
    pub db : answer.1.db ≡ c.after
    pub handler : answer.1.handler ≡ (actions.handle_event c.after p.handler c.event).1

  carried_out :
      (c : CarriesOut json utf8 repository actions p payload at)
      → (is_fresh answer.0 ≡ true) × Leaves c
  unfolding is_fresh
  carried_out c =
      let e = c.event in
      let (answered, held) =
        fresh_event json utf8 repository actions keys p payload now at e.device_id e.event_id
          e.action_id e.payload c.inserted c.after c.is_event c.is_unknown c.is_allowed c.is_text
          c.is_inserted in
      (
        ap (λ r. is_fresh r.0) answered,
        record {
          was_new = keys.get_none p.db e.device_id e.event_id c.is_unknown;
          is_held = ap (λ r. keys.has r.1.db e.device_id e.event_id) answered ∙ held;
          db = ap (λ r. r.1.db) answered;
          handler = ap (λ r. r.1.handler) answered;
        },
      )

  -- What the processor is when the message has been observed.
  abbrev observed : UdpMessage → HubUdpProcessor Db H
  observed m = record p { manager = (observe_message p.manager m now).1 }

  accepted_message :
      (d e : String) (a : ℕ)
      → IsEvent json repository p payload d e a
      → answer
        ≡ process_message json utf8 repository actions p payload now at (UdpMessage.event d e a)
  unfolding process_datagram validate_message device_id_of
  accepted_message d e a ev =
      let managed =
        (is_enabled_managed_device_iff json utf8 repository actions p d).1 ev.is_managed in
      ground (arith, ev.decodes, ev.has_device_id, ev.has_event_id)

  fresh_inserted :
      (q : HubUdpProcessor Db H) (d e : String) (a : ℕ)
      → is_fresh (process_event json utf8 repository actions q payload at d e a).0 ≡ true
      → (text : String) × (after : Db) × (utf8 payload ≡ some text)
        × (repository.insert_event q.db
              (record { id = none; received_at = at; device_id = d; event_id = e; payload = text })
            ≡ ok (true, after))
  unfolding process_event is_fresh
  fresh_inserted q d e a h = elim (Option-cases (utf8 payload)) [
    | inl unread ↦ absurd (ground arith)
    | inr (text, readable) ↦
        elim (Result-cases (
          repository.insert_event q.db (record {
            id = none;
            received_at = at;
            device_id = d;
            event_id = e;
            payload = text;
          }))) [
            | inr (failure, failed) ↦ absurd (ground arith)
            | inl ((false, after), put) ↦ absurd (ground arith)
            | inl ((true, after), put) ↦ (text, after, readable, put)
          ]
  ]

  fresh_message :
      (d e : String) (a : ℕ)
      → is_fresh
          (process_message json utf8 repository actions p payload now at (UdpMessage.event d e a)).0
        ≡ true
      → (repository.get_event p.db d e ≡ ok none)
        × (actions.validate_event p.db p.handler a ≡ ok tt)
        × (is_fresh
              (process_event json utf8 repository actions
                (observed (UdpMessage.event d e a))
                payload
                at
                d
                e
                a).0
            ≡ true)
  unfolding process_message observe_then is_fresh
  fresh_message d e a h =
      let m = UdpMessage.event d e a in
      elim (Result-cases (repository.get_event p.db d e)) [
        | inr (failure, failed) ↦ absurd (ground arith)
        | inl (some row, found) ↦ elim (Result-cases (observe_message p.manager m now).0) [
          | inr (failure, failed) ↦ absurd (ground arith)
          | inl (seen, noted) ↦ absurd (ground arith)
        ]
        | inl (none, unknown) ↦ elim (Result-cases (actions.validate_event p.db p.handler a)) [
          | inr (failure, failed) ↦ absurd (ground arith)
          | inl (_, allowed) ↦ elim (Result-cases (observe_message p.manager m now).0) [
            | inr (failure, failed) ↦ absurd (ground arith)
            | inl (seen, noted) ↦ (unknown, allowed, ground arith)
          ]
        ]
      ]

  -- The hub carries out an event exactly where the datagram is an EVENT with its ids of a managed
  -- device, that the database does not find, whose action may run, and whose row it takes; the key
  -- was then free and is held, and the handler has been given this event.
  pub fresh_event_iff :
      (CarriesOut json utf8 repository actions p payload at → is_fresh answer.0 ≡ true)
      × (is_fresh answer.0 ≡ true
          → (c : CarriesOut json utf8 repository actions p payload at) × Leaves c)
  fresh_event_iff = (
    λ c. (carried_out c).0,
    λ h.
        let (d, e, status, reply, outcome) = fresh_accepted answer.0 h in
        let ((a, decoded), has_device, has_event, managed, _) =
          accepted_event json utf8 repository actions p payload now at d e false status reply
            outcome in
        let ev : IsEvent json repository p payload d e a = record {
          decodes = decoded;
          has_device_id = has_device;
          has_event_id = has_event;
          is_managed = managed;
        } in
        let same = accepted_message d e a ev in
        let (unknown, allowed, carried) =
          fresh_message d e a (ap (λ r. is_fresh r.0) (sym same) ∙ h) in
        let (text, after, readable, put) =
          fresh_inserted (observed (UdpMessage.event d e a)) d e a carried in
        let c : CarriesOut json utf8 repository actions p payload at = record {
          event = record { device_id = d; event_id = e; action_id = a; payload = text };
          inserted = true;
          after = after;
          is_event = ev;
          is_unknown = unknown;
          is_allowed = allowed;
          is_text = readable;
          is_inserted = put;
        } in
        (c, (carried_out c).1),
  )

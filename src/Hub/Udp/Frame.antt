-- ===== src/Hub/Udp/Frame.antt =====
-- What one datagram can change, and what an accepted event stands for.
use uchi_pulse.Base.{
  ℕ, ◌≡◌, ◌≢◌, String, str_eq_iff, Bool, true, false, Option, none, some, List, arith, Result, ok,
  ◌>>◌, is_blank, Result-cases, inl, inr, ◌⊎◌, ◌↔◌,
}
use uchi_pulse.Common.Message.{UdpMessage}
use uchi_pulse.Common.Codec.{Json, decode}
use uchi_pulse.Hub.Database.{Repository}
use uchi_pulse.Hub.State.{device, device_id_of, observe_message}
use uchi_pulse.Hub.State.Timeout.{observe_message_result}
use uchi_pulse.Hub.Udp.Managed.{IsManaged, is_enabled_managed_device_iff}
use uchi_pulse.Hub.Udp.{
  ActionHandler, HubUdpProcessor, PacketOutcome, ActionExecutionStatus, event_accepted,
  UdpProcessingError, validate_message, is_enabled_managed_device, process_event, observe_then,
  process_message, process_datagram,
}

-- The outcome tells that an event was carried out.
unfoldable pub is_fresh : {F E : Type 0} → Result (UdpProcessingError F E) PacketOutcome → Bool
is_fresh (ok (event_accepted d e false status message)) = true
is_fresh _ = false

-- The ids of an EVENT.
unfoldable pub event_ids : UdpMessage → Option (String × String)
event_ids (UdpMessage.event d e a) = some (d, e)
event_ids _ = none

module _ {Db Failure H E : Type 0} (json : Json UdpMessage) (utf8 : List ℕ → Option String)
    (repository : Repository Db Failure) (actions : ActionHandler Db H E) where
  abbrev Answer : Type 0
  Answer = Result (UdpProcessingError Failure E) PacketOutcome × HubUdpProcessor Db H

  -- An accepted event is the one of the message, and it is acknowledged under its own ids.
  abbrev pub Answers : UdpMessage → Result (UdpProcessingError Failure E) PacketOutcome → Type 0
  Answers m o =
      (d e : String) (duplicate : Bool) (status : ActionExecutionStatus) (reply : UdpMessage)
      → o ≡ ok (event_accepted d e duplicate status reply)
      → (event_ids m ≡ some (d, e)) × (reply ≡ UdpMessage.ack d e)

  process_event-Answers :
      (p : HubUdpProcessor Db H) (payload : List ℕ) (at id event : String) (a : ℕ)
      → Answers
          (UdpMessage.event id event a)
          (process_event json utf8 repository actions p payload at id event a).0
  unfolding process_event event_ids
  process_event-Answers p payload at id event a d e duplicate status reply h = ground arith

  process_message-Answers :
      (p : HubUdpProcessor Db H) (payload : List ℕ) (now : ℕ) (at : String) (m : UdpMessage)
      → Answers m (process_message json utf8 repository actions p payload now at m).0
  unfolding process_message observe_then event_ids
  process_message-Answers p payload now at (UdpMessage.hello id) d e duplicate status reply h =
      ground arith
  process_message-Answers p payload now at (UdpMessage.heartbeat id) d e duplicate status reply h =
      ground arith
  process_message-Answers p payload now at (UdpMessage.ack id event) d e duplicate status reply h =
      ground arith
  process_message-Answers p payload now at (UdpMessage.event id event a) d e duplicate status reply
        h =
      let q : HubUdpProcessor Db H = record p {
        manager = (observe_message p.manager (UdpMessage.event id event a) now).1;
      } in
      ground (arith, process_event-Answers q payload at id event a d e duplicate status reply)

  -- The handler runs only for a fresh event, and the devices but `other` stay.
  abbrev Framed : String → HubUdpProcessor Db H → Answer → Type 0
  Framed other p r =
      (device r.1.manager other ≡ device p.manager other)
      × (is_fresh r.0 ≡ false → r.1.handler ≡ p.handler)

  process_event-Framed :
      (p : HubUdpProcessor Db H) (payload : List ℕ) (at id event other : String) (a : ℕ)
      → Framed other p (process_event json utf8 repository actions p payload at id event a)
  unfolding process_event is_fresh
  process_event-Framed p payload at id event other a = ground arith

  process_message-Framed :
      (p : HubUdpProcessor Db H) (payload : List ℕ) (now : ℕ) (at other : String) (m : UdpMessage)
      → (other ≢ device_id_of m
          → device (process_message json utf8 repository actions p payload now at m).1.manager other
            ≡ device p.manager other)
        × (is_fresh (process_message json utf8 repository actions p payload now at m).0 ≡ false
            → (process_message json utf8 repository actions p payload now at m).1.handler
              ≡ p.handler)
  unfolding process_message observe_then is_fresh device_id_of
  process_message-Framed p payload now at other (UdpMessage.hello id) =
      ground (
        arith,
        observe_message_result p.manager (UdpMessage.hello id) now other,
        str_eq_iff other id,
      )
  process_message-Framed p payload now at other (UdpMessage.heartbeat id) = ground (
    arith,
    observe_message_result p.manager (UdpMessage.heartbeat id) now other,
    str_eq_iff other id,
  )
  process_message-Framed p payload now at other (UdpMessage.ack id event) = ground arith
  process_message-Framed p payload now at other (UdpMessage.event id event a) =
      let q : HubUdpProcessor Db H = record p {
        manager = (observe_message p.manager (UdpMessage.event id event a) now).1;
      } in
      ground (
        arith,
        observe_message_result p.manager (UdpMessage.event id event a) now other,
        str_eq_iff other id,
        process_event-Framed q payload at id event other a,
      )

  IsManaged-iff :
      (p : HubUdpProcessor Db H) (d : String)
      → (is_enabled_managed_device json utf8 repository actions p d ≡ ok true)
        ↔ IsManaged repository p d
  IsManaged-iff = is_enabled_managed_device_iff json utf8 repository actions

  abbrev valid_sender :
      HubUdpProcessor Db H → UdpMessage → Result (UdpProcessingError Failure E) Bool
  valid_sender p m =
      validate_message m
      >> is_enabled_managed_device json utf8 repository actions p (device_id_of m)

  -- An event that `process_datagram` accepts is the EVENT that the datagram decodes to, its ids are
  -- not blank, its device is one that the hub keeps and the database holds as enabled, and it is acknowledged under its own ids.
  pub accepted_event :
      (p : HubUdpProcessor Db H) (payload : List ℕ) (now : ℕ) (at d e : String) (duplicate : Bool)
      (status : ActionExecutionStatus) (reply : UdpMessage)
      → (process_datagram json utf8 repository actions p payload now at).0
        ≡ ok (event_accepted d e duplicate status reply)
      → ((a : ℕ) × (decode json payload ≡ ok (UdpMessage.event d e a)))
        × (is_blank d ≡ false)
        × (is_blank e ≡ false)
        × IsManaged repository p d
        × (reply ≡ UdpMessage.ack d e)
  unfolding process_datagram validate_message event_ids device_id_of
  accepted_event p payload now at d e duplicate status reply h =
      elim (Result-cases (decode json payload)) [
        | inr (failure, failed) ↦ ground arith
        | inl (UdpMessage.hello id, decoded) ↦ ground (
          arith,
          process_message-Answers p payload now at (UdpMessage.hello id) d e duplicate status reply,
        )
        | inl (UdpMessage.heartbeat id, decoded) ↦ ground (
          arith,
          process_message-Answers p payload now at (UdpMessage.heartbeat id) d e duplicate status
              reply,
        )
        | inl (UdpMessage.ack id event, decoded) ↦ ground (
          arith,
          process_message-Answers p payload now at (UdpMessage.ack id event) d e duplicate status
              reply,
        )
        | inl (UdpMessage.event id event a, decoded) ↦
            let m : UdpMessage = UdpMessage.event id event a in
            let answers = process_message-Answers p payload now at m d e duplicate status reply in
            elim (Result-cases (is_enabled_managed_device json utf8 repository actions p id)) [
              | inr (failure, failed) ↦ ground arith
              | inl (managed, known) ↦
                  let same : (id ≡ d) × (event ≡ e) = ground arith in
                  (
                    (a, ground arith),
                    ground arith,
                    ground arith,
                    (IsManaged-iff p d).0 (ground arith),
                    ground arith,
                  )
            ]
      ]

  -- A datagram changes nothing, or it decodes to a message of a managed and enabled device; then
  -- no other device changes, and the handler changes only where the outcome is a fresh event.
  pub process_datagram_frame :
      (p : HubUdpProcessor Db H) (payload : List ℕ) (now : ℕ) (at : String)
      → ((process_datagram json utf8 repository actions p payload now at).1 ≡ p)
        ⊎ ((m : UdpMessage) × (decode json payload ≡ ok m)
            × IsManaged repository p (device_id_of m)
            × ((other : String)
                → other ≢ device_id_of m
                → device
                    (process_datagram json utf8 repository actions p payload now at).1.manager
                    other
                  ≡ device p.manager other)
            × (is_fresh (process_datagram json utf8 repository actions p payload now at).0 ≡ false
                → (process_datagram json utf8 repository actions p payload now at).1.handler
                  ≡ p.handler))
  unfolding process_datagram
  process_datagram_frame p payload now at = elim (Result-cases (decode json payload)) [
    | inr (failure, failed) ↦ inl (ground arith)
    | inl (m, decoded) ↦ elim (Result-cases (valid_sender p m)) [
      | inr (failure, failed) ↦ inl (ground arith)
      | inl (false, unknown) ↦ inl (ground arith)
      | inl (true, known) ↦
          let framed = λ (other : String). process_message-Framed p payload now at other m in
          inr (
            m,
            decoded,
            (IsManaged-iff p (device_id_of m)).0 (ground arith),
            λ other h. ground (arith, (framed other).0 h),
            λ h. ground (arith, (framed (device_id_of m)).1),
          )
    ]
  ]

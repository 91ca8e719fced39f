-- ===== src/Hub/Udp.antt =====
-- apps/uchi-pulse-hub/src/udp.rs: what the hub does with one datagram. A call returns what the
-- source returns, beside the processor after the call: an error keeps the writes made before it.
pub mod Once
pub mod Managed
pub mod Frame
pub mod Repeat
pub mod Fresh
mod Tests
use uchi_pulse.Base.{
  ℕ, String, str_eq, Bool, true, false, not, Option, none, some, List, [], ◌∷◌, Result, ok, err,
  ◌>>=◌, ◌>>◌, map_err, map_ok, reject_if, is_blank, is_some, if◌then◌else◌,
}
use uchi_pulse.Common.Message.{UdpMessage}
use uchi_pulse.Common.Codec.{CodecError, invalid_json, Json, decode}
use uchi_pulse.Hub.Database.{DeviceRecord, EventRecord, Repository}
use uchi_pulse.Hub.State.{
  CommunicationStateManager, StateUpdateError, device, device_id_of, is_ack, observe_message,
}
use uchi_pulse.Hub.State
use uchi_pulse.Hub.Action.{ActionError, ActionStateManager}
use uchi_pulse.Hub.Action

pub record EventContext : Type 0 where
  pub device_id : String
  pub event_id : String
  pub action_id : ℕ
  pub payload : String

-- The trait `ActionHandler`: a handler of state `H` with errors `E`. It may read the database.
pub record ActionHandler (Db H E : Type 0) : Type 0 where
  pub validate_event : Db → H → ℕ → Result E Unit
  pub handle_event : Db → H → EventContext → Result E Unit × H
  pub to_string : E → String

-- `impl ActionHandler for NoopActionHandler`
abbrev pub noop_handler : {Db : Type 0} → ActionHandler Db Unit ⊥
noop_handler = record {
  validate_event = λ db h a. ok tt;
  handle_event = λ db h e. (ok tt, h);
  to_string = λ e. elim e [ ];
}

-- `impl ActionHandler for ActionEngine`; the text of an error is `Display`.
abbrev pub engine_handler :
    {Db Failure : Type 0}
    → Repository Db Failure
    → (ActionError Failure → String)
    → ActionHandler Db ActionStateManager (ActionError Failure)
engine_handler repository display = record {
  validate_event = λ db m a. map_ok (λ _. tt) (Action.validate_event repository db a);
  handle_event = λ db m e.
      let (result, after) = Action.execute repository db m e.action_id in
      (map_ok (λ _. tt) result, after);
  to_string = display;
}

pub data ActionExecutionStatus : Type 0 where
  applied : ActionExecutionStatus
  failed : String → ActionExecutionStatus
  skipped_duplicate : ActionExecutionStatus

pub data PacketOutcome : Type 0 where
  ignored : PacketOutcome
  hello_accepted heartbeat_accepted : String → PacketOutcome
  event_accepted : String → String → Bool → ActionExecutionStatus → UdpMessage → PacketOutcome

pub data UdpProcessingError (Failure E : Type 0) : Type 0 where
  invalid_message : CodecError → UdpProcessingError Failure E
  invalid_device_id invalid_event_id : UdpProcessingError Failure E
  state : StateUpdateError → UdpProcessingError Failure E
  database : Failure → UdpProcessingError Failure E
  action_validation : E → UdpProcessingError Failure E

pub record HubUdpProcessor (Db H : Type 0) : Type 0 where
  pub db : Db
  pub manager : CommunicationStateManager
  pub handler : H

unfoldable pub validate_message :
    {Failure E : Type 0} → UdpMessage → Result (UdpProcessingError Failure E) Unit
unfolding device_id_of
validate_message m = do
  reject_if (is_blank (device_id_of m)) invalid_device_id
  elim m [ UdpMessage.event d e a ↦ reject_if (is_blank e) invalid_event_id | _ ↦ ok tt ]

abbrev pub duplicate_outcome : String → String → PacketOutcome
duplicate_outcome d e = event_accepted d e true skipped_duplicate (UdpMessage.ack d e)

abbrev pub action_status : {E : Type 0} → (E → String) → Result E Unit → ActionExecutionStatus
action_status show (ok _) = applied
action_status show (err e) = failed (show e)

-- `json` and `utf8` are serde_json_core and `core::str::from_utf8`, not under the repository.
module _ {Db Failure H E : Type 0} (json : Json UdpMessage) (utf8 : List ℕ → Option String)
    (repository : Repository Db Failure) (actions : ActionHandler Db H E) where
  unfoldable pub from_database : Db → ℕ → ℕ → H → Result Failure (HubUdpProcessor Db H)
  from_database db started timeout handler = do
    manager ← State.from_database repository db started timeout
    ok (record { db = db; manager = manager; handler = handler })

  unfoldable pub is_enabled_managed_device :
      HubUdpProcessor Db H → String → Result (UdpProcessingError Failure E) Bool
  is_enabled_managed_device p id =
      if is_some (device p.manager id)
      then (do
        found ← map_err database (repository.get_device p.db id)
        ok (elim found [ none ↦ false | some record_found ↦ record_found.enabled ]))
      else ok false

  unfoldable pub process_event :
      HubUdpProcessor Db H
      → List ℕ
      → String
      → String
      → String
      → ℕ
      → Result (UdpProcessingError Failure E) PacketOutcome × HubUdpProcessor Db H
  process_event p payload received_at d e a = elim (utf8 payload) [
    | none ↦ (err (invalid_message invalid_json), p)
    | some payload_text ↦
        elim (repository.insert_event p.db (record {
          id = none;
          received_at = received_at;
          device_id = d;
          event_id = e;
          payload = payload_text;
        })) [
          | err failure ↦ (err (database failure), p)
          | ok (inserted, db) ↦
              if inserted
              then (let (result, handler) = actions.handle_event db p.handler (record {
                device_id = d;
                event_id = e;
                action_id = a;
                payload = payload_text;
              }) in
                  (
                    ok (
                        event_accepted d e false (action_status actions.to_string result)
                          (UdpMessage.ack d e)),
                    record p { db = db; handler = handler },
                  ))
              else (ok (duplicate_outcome d e), record p { db = db })
        ]
  ]

  -- `self.state.observe_message(..).map_err(..)?`, and what follows it.
  unfoldable pub observe_then :
      HubUdpProcessor Db H
      → UdpMessage
      → ℕ
      → (HubUdpProcessor Db H
          → Result (UdpProcessingError Failure E) PacketOutcome × HubUdpProcessor Db H)
      → Result (UdpProcessingError Failure E) PacketOutcome × HubUdpProcessor Db H
  observe_then p message now next =
      let (result, manager) = observe_message p.manager message now in
      elim result [
        | err e ↦ (err (state e), record p { manager = manager })
        | ok _ ↦ next (record p { manager = manager })
      ]

  -- From the `if let UdpMessage::Event` on: the message is valid and its device is managed.
  unfoldable pub process_message :
      HubUdpProcessor Db H
      → List ℕ
      → ℕ
      → String
      → UdpMessage
      → Result (UdpProcessingError Failure E) PacketOutcome × HubUdpProcessor Db H
  unfolding observe_then process_event
  process_message p payload now received_at message = elim message [
    | UdpMessage.hello d ↦ observe_then p (UdpMessage.hello d) now (λ q. (ok (hello_accepted d), q))
    | UdpMessage.heartbeat d ↦
        observe_then p (UdpMessage.heartbeat d) now (λ q. (ok (heartbeat_accepted d), q))
    | UdpMessage.ack d e ↦ (ok ignored, p)
    | UdpMessage.event d e a ↦ elim (repository.get_event p.db d e) [
      | err failure ↦ (err (database failure), p)
      | ok (some found) ↦
          observe_then p (UdpMessage.event d e a) now (λ q. (ok (duplicate_outcome d e), q))
      | ok none ↦ elim (actions.validate_event p.db p.handler a) [
        | err e ↦ (err (action_validation e), p)
        | ok _ ↦
            observe_then p (UdpMessage.event d e a) now
              (λ q. process_event q payload received_at d e a)
      ]
    ]
  ]

  unfoldable pub process_datagram :
      HubUdpProcessor Db H
      → List ℕ
      → ℕ
      → String
      → Result (UdpProcessingError Failure E) PacketOutcome × HubUdpProcessor Db H
  unfolding validate_message is_enabled_managed_device process_message
  process_datagram p payload now received_at = elim (decode json payload) [
    | err e ↦ (err (invalid_message e), p)
    | ok message ↦
        elim (validate_message message >> is_enabled_managed_device p (device_id_of message)) [
          | err e ↦ (err e, p)
          | ok managed ↦
              if managed then process_message p payload now received_at message else (ok ignored, p)
        ]
  ]

  abbrev pub mark_offline : HubUdpProcessor Db H → ℕ → HubUdpProcessor Db H
  mark_offline p now = record p { manager = State.mark_offline p.manager now }

-- ===== src/Hub/Udp/Repeat.antt =====
-- What the hub answers to an EVENT that it knows, and to one that it does not.
use uchi_pulse.Base.{
  ℕ, ◌≡◌, String, str_eq_iff, Bool, true, false, not, ◌&&◌, Option, none, some, List, arith, ok,
  is_blank, is_some,
}
use uchi_pulse.Common.Message.{UdpMessage}
use uchi_pulse.Common.Codec.{Json, decode}
use uchi_pulse.Hub.Database.{Repository, HasEventKeys, EventRecord}
use uchi_pulse.Hub.State.{CommunicationStateManager, device, device_id_of, observe_message, is_ack}
use uchi_pulse.Hub.Udp.Managed.{IsManaged, is_enabled_managed_device_iff}
use uchi_pulse.Hub.Udp.{
  ActionHandler, HubUdpProcessor, event_accepted, duplicate_outcome, action_status,
  validate_message, process_event, observe_then, process_message, process_datagram,
}

observe_named :
    (m : CommunicationStateManager) (message : UdpMessage) (now : ℕ)
    → is_blank (device_id_of message) ≡ false
    → (b : Bool) × ((observe_message m message now).0 ≡ ok b)
unfolding observe_message
observe_named m message now named =
    (not (is_ack message) && is_some (device m (device_id_of message)), ground arith)

-- The datagram is an EVENT with its ids, from a managed and enabled device.
pub record IsEvent {Db Failure H : Type 0} (json : Json UdpMessage)
    (repository : Repository Db Failure) (p : HubUdpProcessor Db H) (payload : List ℕ)
    (d e : String) (a : ℕ) : Type 0 where
  pub decodes : decode json payload ≡ ok (UdpMessage.event d e a)
  pub has_device_id : is_blank d ≡ false
  pub has_event_id : is_blank e ≡ false
  pub is_managed : IsManaged repository p d

module _ {Db Failure H E : Type 0} (json : Json UdpMessage) (utf8 : List ℕ → Option String)
    (repository : Repository Db Failure) (actions : ActionHandler Db H E)
    (keys : HasEventKeys repository) (p : HubUdpProcessor Db H) (payload : List ℕ) (now : ℕ)
    (at d e : String) (a : ℕ) where
  -- An EVENT that the database holds is acknowledged as a duplicate, whenever the query answers:
  -- the database and the handler stay, and its device is seen.
  pub repeated_event :
      {found : Option EventRecord}
      → IsEvent json repository p payload d e a
      → keys.has p.db d e ≡ true
      → repository.get_event p.db d e ≡ ok found
      → process_datagram json utf8 repository actions p payload now at ≡ (
        ok (duplicate_outcome d e),
        record p { manager = (observe_message p.manager (UdpMessage.event d e a) now).1 },
      )
  unfolding process_datagram validate_message process_message observe_then device_id_of
  repeated_event {found = none} ev held answered =
      let absent = keys.get_none p.db d e answered in ground arith
  repeated_event {found = some row} ev held answered =
      let (b, observed) = observe_named p.manager (UdpMessage.event d e a) now ev.has_device_id in
      let managed =
        (is_enabled_managed_device_iff json utf8 repository actions p d).1 ev.is_managed in
      ground (arith, ev.decodes, ev.has_device_id, ev.has_event_id)

  -- The record that `process_event` inserts.
  abbrev row_of : String → EventRecord
  row_of text = record { id = none; received_at = at; device_id = d; event_id = e; payload = text }

  -- An EVENT that the query does not find and whose action is valid is carried out, where its text
  -- is UTF-8 and the insertion answers: the handler runs on the new database, the outcome has its status and is no
  -- duplicate, and the key is then held.
  pub fresh_event :
      (text : String) (inserted : Bool) (after : Db)
      → IsEvent json repository p payload d e a
      → repository.get_event p.db d e ≡ ok none
      → actions.validate_event p.db p.handler a ≡ ok tt
      → utf8 payload ≡ some text
      → repository.insert_event p.db (row_of text) ≡ ok (inserted, after)
      → (process_datagram json utf8 repository actions p payload now at ≡ (
        ok (
            event_accepted d e false
              (action_status actions.to_string
                (actions.handle_event after p.handler
                  (record { device_id = d; event_id = e; action_id = a; payload = text })).0)
              (UdpMessage.ack d e)),
        record {
          db = after;
          manager = (observe_message p.manager (UdpMessage.event d e a) now).1;
          handler =
              (actions.handle_event after p.handler
                (record { device_id = d; event_id = e; action_id = a; payload = text })).1;
        },
      ))
        × (keys.has after d e ≡ true)
  unfolding process_datagram validate_message process_message observe_then device_id_of
      process_event
  fresh_event text inserted after ev unknown valid readable written =
      let (b, observed) = observe_named p.manager (UdpMessage.event d e a) now ev.has_device_id in
      let managed =
        (is_enabled_managed_device_iff json utf8 repository actions p d).1 ev.is_managed in
      let fresh = keys.get_none p.db d e unknown in
      let new = keys.insert_new p.db after (row_of text) inserted written in
      let held = keys.insert_has p.db after (row_of text) inserted written d e in
      (
        ground (arith, ev.decodes, ev.has_device_id, ev.has_event_id),
        ground (arith, str_eq_iff d d, str_eq_iff e e),
      )

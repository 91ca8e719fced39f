-- ===== src/Hub/Udp/Tests.antt =====
-- One managed device whose EVENT arrives twice.
use uchi_pulse.Base.{
  ℕ, ◌≡◌, ◌≢◌, ◌≤◌, ◌⊎◌, refl, String, true, false, none, some, Option, List, [], ◌∷◌, ok, count_if,
  is_blank, is_whitespace, ◌==◌, if◌then◌else◌,
}
use uchi_pulse.Common.Message.{UdpMessage}
use uchi_pulse.Common.Codec.{Json, decode}
use uchi_pulse.Hub.Database.{DeviceRecord, EventRecord}
use uchi_pulse.Hub.Database.Memory.{Tables, tables, table_keys}
use uchi_pulse.Hub.State.{
  DeviceState, online, device, device_id_of, is_ack, observe_message, mark_online,
}
use uchi_pulse.Hub.Udp.{
  HubUdpProcessor, ActionHandler, noop_handler, duplicate_outcome, applied,
  is_enabled_managed_device, validate_message, process_message, process_event, observe_then,
  process_datagram,
}
use uchi_pulse.Hub.Udp.Once.{Datagram, receive, is_new, receive-once}
use uchi_pulse.Hub.Udp.Frame.{accepted_event, process_datagram_frame, is_fresh}
use uchi_pulse.Hub.Udp.Managed.{IsManaged}
use uchi_pulse.Hub.Udp.Repeat.{IsEvent, repeated_event}
use uchi_pulse.Hub.Udp.Fresh.{CarriesOut, fresh_event_iff}

-- A JSON reader that knows one EVENT.
abbrev reader : Json UdpMessage
reader = record {
  to_slice = λ m size. none;
  from_slice = λ payload. elim payload [
    | [] ↦ none
    | b ∷ _ ↦ if b == 1 then some (UdpMessage.event "n" "e" 7, 1) else none
  ];
}

abbrev utf8 : List ℕ → Option String
utf8 payload = some "text"

abbrev switch_row : DeviceRecord
switch_row = record {
  device_id = "n";
  name = "N";
  device_type = "INPUT";
  registered_at = "";
  updated_at = "";
  enabled = true;
}

abbrev store : Tables
store = record { devices = switch_row ∷ []; families = []; actions = []; changes = []; events = [] }

abbrev seen_device : DeviceState
seen_device = record {
  device_id = "n";
  status = online;
  initial_wait_started_at = 10;
  last_seen_at = some 20;
}

abbrev handler : ActionHandler Tables Unit ⊥
handler = noop_handler

abbrev hub : HubUdpProcessor Tables Unit
hub = record {
  db = store;
  manager = record { devices = seen_device ∷ []; offline_timeout = 300 };
  handler = tt;
}

abbrev row : EventRecord
row = record { id = none; received_at = "t"; device_id = "n"; event_id = "e"; payload = "text" }

abbrev stored_hub : HubUdpProcessor Tables Unit
stored_hub = record hub { db = record store { events = row ∷ [] } }

abbrev gram : Datagram
gram = record { payload = 1 ∷ []; now = 20; received_at = "t" }

receive-once_example :
    count_if (is_new "n" "e") (receive reader utf8 tables handler hub (gram ∷ gram ∷ [])).0 ≤ 1
receive-once_example =
    (receive-once reader utf8 tables handler table_keys "n" "e" hub (gram ∷ gram ∷ [])).0

accepted_event_example : IsManaged tables hub "n"
unfolding process_datagram decode validate_message is_enabled_managed_device process_message
    observe_then process_event observe_message device_id_of is_ack mark_online is_blank
    is_whitespace
accepted_event_example =
    (accepted_event reader utf8 tables handler hub (1 ∷ []) 20 "t" "n" "e" false applied
      (UdpMessage.ack "n" "e") refl).3

process_datagram_frame_example :
    ((process_datagram reader utf8 tables handler hub (1 ∷ []) 20 "t").1 ≡ hub)
    ⊎ ((m : UdpMessage) × (decode reader (1 ∷ []) ≡ ok m)
        × IsManaged tables hub (device_id_of m)
        × ((other : String)
            → other ≢ device_id_of m
            → device
                (process_datagram reader utf8 tables handler hub (1 ∷ []) 20 "t").1.manager
                other
              ≡ device hub.manager other)
        × (is_fresh (process_datagram reader utf8 tables handler hub (1 ∷ []) 20 "t").0 ≡ false
            → (process_datagram reader utf8 tables handler hub (1 ∷ []) 20 "t").1.handler
              ≡ hub.handler))
process_datagram_frame_example =
    process_datagram_frame reader utf8 tables handler hub (1 ∷ []) 20 "t"

hub-IsManaged : IsManaged tables hub "n"
hub-IsManaged = record { is_kept = refl; row = switch_row; is_stored = refl; is_enabled = refl }

stored-IsManaged : IsManaged tables stored_hub "n"
stored-IsManaged = record { is_kept = refl; row = switch_row; is_stored = refl; is_enabled = refl }

event_of_hub : IsEvent reader tables hub (1 ∷ []) "n" "e" 7
unfolding decode is_enabled_managed_device is_blank is_whitespace
event_of_hub = record {
  decodes = refl;
  has_device_id = refl;
  has_event_id = refl;
  is_managed = hub-IsManaged;
}

event_of_stored_hub : IsEvent reader tables stored_hub (1 ∷ []) "n" "e" 7
unfolding decode is_enabled_managed_device is_blank is_whitespace
event_of_stored_hub = record {
  decodes = refl;
  has_device_id = refl;
  has_event_id = refl;
  is_managed = stored-IsManaged;
}

repeated_event_example :
    process_datagram reader utf8 tables handler stored_hub (1 ∷ []) 20 "t"
    ≡ (ok (duplicate_outcome "n" "e"), stored_hub)
unfolding observe_message device_id_of is_ack mark_online is_blank is_whitespace
repeated_event_example =
    repeated_event reader utf8 tables handler table_keys stored_hub (1 ∷ []) 20 "t" "n" "e" 7
      {found = some row} event_of_stored_hub refl refl

hub-CarriesOut : CarriesOut reader utf8 tables handler hub (1 ∷ []) "t"
hub-CarriesOut = record {
  event = record { device_id = "n"; event_id = "e"; action_id = 7; payload = "text" };
  inserted = true;
  after = record store { events = row ∷ [] };
  is_event = event_of_hub;
  is_unknown = refl;
  is_allowed = refl;
  is_text = refl;
  is_inserted = refl;
}

fresh_event_iff_example :
    is_fresh (process_datagram reader utf8 tables handler hub (1 ∷ []) 20 "t").0 ≡ true
fresh_event_iff_example =
    (fresh_event_iff reader utf8 tables handler table_keys hub (1 ∷ []) 20 "t").0 hub-CarriesOut

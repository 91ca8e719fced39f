-- ===== src/Hub/Database/Tests.antt =====
-- One device and one event, stored twice.
use uchi_pulse.Base.{◌≡◌, refl, true, none, some, [], ◌∷◌, is_some}
use uchi_pulse.Store.Tables.{Tables}
use uchi_pulse.Store.Schema.{unique_by, is_consistent}
use uchi_pulse.Store.Sqlite.{write, on_tables, execute}
use uchi_pulse.Store.Sqlite.Faulty.{Faulty, take_turn, faulty, faulty_session, no_rows, connected}
use uchi_pulse.Hub.Database.{EventRecord}
use uchi_pulse.Hub.Database.Queries.{get_event}
use uchi_pulse.Hub.Database.Writes.{insert_event}
use uchi_pulse.Hub.Database.Keys.{get_event-insert_event}

abbrev with_node : Tables
with_node = record no_rows {
  devices =
      record {
        device_id = "node";
        name = "N";
        device_type = "FAMILY";
        registered_at = "0";
        updated_at = "0";
        enabled = 1;
      }
      ∷ [];
}

abbrev event : EventRecord
event = record {
  id = none;
  received_at = "1";
  device_id = "node";
  event_id = "e-1";
  payload = "{}";
}

abbrev node_stored : Faulty
node_stored = (insert_event faulty (connected with_node []) event).1

abbrev found_event : EventRecord
found_event = record event { id = some 1 }

get_event-insert_event_example : is_some (some found_event) ≡ true
unfolding insert_event get_event execute on_tables write is_consistent unique_by take_turn
get_event-insert_event_example =
    (get_event-insert_event faulty_session (connected with_node []) node_stored event true refl
      "node" "e-1" (some found_event) refl).1

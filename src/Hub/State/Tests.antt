-- ===== src/Hub/State/Tests.antt =====
-- A hub that manages one device, as in the source's tests.
use uchi_pulse.Base.{◌≡◌, refl, true, none, some, [], ◌∷◌, ok, All, is_blank, is_whitespace}
use uchi_pulse.Common.Message.{UdpMessage}
use uchi_pulse.Hub.Database.Memory.{Tables, tables}
use uchi_pulse.Hub.State.{
  DeviceState, CommunicationStateManager, online, initial_wait, device, device_id_of, is_ack,
  from_database, observe_message, mark_offline,
}
use uchi_pulse.Hub.State.Timeout.{
  observed_then_checked, IsCoherent, start, observe, check, Reachable-IsCoherent,
}

abbrev store : Tables
store = record {
  devices =
      record {
        device_id = "n";
        name = "N";
        device_type = "INPUT";
        registered_at = "";
        updated_at = "";
        enabled = true;
      }
      ∷ [];
  families = [];
  actions = [];
  changes = [];
  events = [];
}

abbrev waiting : DeviceState
waiting = record {
  device_id = "n";
  status = initial_wait;
  initial_wait_started_at = 10;
  last_seen_at = none;
}

abbrev manager : CommunicationStateManager
manager = record { devices = waiting ∷ []; offline_timeout = 300 }

abbrev beat : UdpMessage
beat = UdpMessage.heartbeat "n"

loads : from_database tables store 10 300 ≡ ok manager
unfolding from_database
loads = refl

observed_then_checked_example :
    device (mark_offline (observe_message manager beat 50).1 349) "n"
    ≡ some (record waiting { status = online; last_seen_at = some 50 })
unfolding device_id_of is_ack is_blank is_whitespace
observed_then_checked_example = observed_then_checked manager beat 50 349 waiting refl refl refl

Reachable-IsCoherent_example :
    All IsCoherent (mark_offline (observe_message manager beat 50).1 400).devices
Reachable-IsCoherent_example =
    Reachable-IsCoherent {repository = tables}
      (check _ 400 (observe _ beat 50 (start store 10 300 manager loads)))

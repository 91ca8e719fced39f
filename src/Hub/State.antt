-- ===== src/Hub/State.antt =====
-- apps/uchi-pulse-hub/src/state.rs: which devices are online. `HashMap` is a list with one entry
-- for each key. An `Instant` is a number of milliseconds, as a `Duration` is.
pub mod Timeout
mod Tests
use uchi_pulse.Base.{
  ℕ, ◌-◌, String, str_eq, Bool, true, false, ◌||◌, Option, none, some, List, [], ◌∷◌, map, find,
  Result, ok, err, ◌>>=◌, map_err, reject_if, is_blank, is_some, leb, if◌then◌else◌,
}
use uchi_pulse.Common.Message.{UdpMessage}
use uchi_pulse.Common.Codec.{CodecError, Json, decode}
use uchi_pulse.Hub.Database.{DeviceRecord, Repository}

pub data CommunicationStatus : Type 0 where
  initial_wait online offline : CommunicationStatus

pub record DeviceState : Type 0 where
  pub device_id : String
  pub status : CommunicationStatus
  pub initial_wait_started_at : ℕ
  pub last_seen_at : Option ℕ

pub data StateUpdateError : Type 0 where
  invalid_message : CodecError → StateUpdateError
  empty_device_id : StateUpdateError

pub record CommunicationStateManager : Type 0 where
  pub devices : List DeviceState
  pub offline_timeout : ℕ

-- `HashMap::insert`
abbrev pub put : DeviceState → List DeviceState → List DeviceState
put s [] = s ∷ []
put s (t ∷ ts) = if str_eq t.device_id s.device_id then s ∷ ts else t ∷ put s ts

-- `collect` into the map: a later entry replaces an earlier one.
abbrev pub collect : List DeviceState → List DeviceState → List DeviceState
collect acc [] = acc
collect acc (s ∷ ss) = collect (put s acc) ss

abbrev pub initial_state : ℕ → DeviceRecord → DeviceState
initial_state started d = record {
  device_id = d.device_id;
  status = initial_wait;
  initial_wait_started_at = started;
  last_seen_at = none;
}

unfoldable pub from_database :
    {Db Failure : Type 0}
    → Repository Db Failure
    → Db
    → ℕ
    → ℕ
    → Result Failure CommunicationStateManager
from_database repository db started timeout = do
  devices ← repository.list_enabled_devices db
  ok (record {
    devices = collect [] (map (initial_state started) devices);
    offline_timeout = timeout;
  })

abbrev pub device : CommunicationStateManager → String → Option DeviceState
device m id = find (λ s. str_eq s.device_id id) m.devices

unfoldable pub device_id_of : UdpMessage → String
device_id_of (UdpMessage.hello d) = d
device_id_of (UdpMessage.heartbeat d) = d
device_id_of (UdpMessage.event d e a) = d
device_id_of (UdpMessage.ack d e) = d

unfoldable pub is_ack : UdpMessage → Bool
is_ack (UdpMessage.ack d e) = true
is_ack (UdpMessage.hello d) = false
is_ack (UdpMessage.heartbeat d) = false
is_ack (UdpMessage.event d e a) = false

-- The two writes through `get_mut`.
unfoldable pub mark_online : String → ℕ → List DeviceState → List DeviceState
mark_online id now [] = []
mark_online id now (s ∷ ss) =
    if str_eq s.device_id id
    then record s { status = online; last_seen_at = some now } ∷ ss
    else s ∷ mark_online id now ss

-- The manager after the call stands beside what the call returns.
unfoldable pub observe_message :
    CommunicationStateManager
    → UdpMessage
    → ℕ
    → Result StateUpdateError Bool × CommunicationStateManager
unfolding device_id_of is_ack mark_online
observe_message m message now =
    let id = device_id_of message in
    if is_blank id
    then (err empty_device_id, m)
    else if is_ack message
    then (ok false, m)
    else if is_some (device m id)
    then (ok true, record m { devices = mark_online id now m.devices })
    else (ok false, m)

unfoldable pub observe_payload :
    Json UdpMessage
    → CommunicationStateManager
    → List ℕ
    → ℕ
    → Result StateUpdateError Bool × CommunicationStateManager
observe_payload json m payload now = elim (decode json payload) [
  | err e ↦ (err (invalid_message e), m)
  | ok message ↦ observe_message m message now
]

unfoldable pub last_reference : DeviceState → ℕ
last_reference s = elim s.last_seen_at [ none ↦ s.initial_wait_started_at | some t ↦ t ]

-- `checked_duration_since` with its default is the subtraction that stops at 0.
unfoldable pub expire : ℕ → ℕ → DeviceState → DeviceState
unfolding last_reference
expire timeout now s =
    if leb timeout (now - last_reference s) then record s { status = offline } else s

unfoldable pub mark_offline : CommunicationStateManager → ℕ → CommunicationStateManager
unfolding expire
mark_offline m now = record m { devices = map (expire m.offline_timeout now) m.devices }

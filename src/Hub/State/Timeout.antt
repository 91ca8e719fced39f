-- ===== src/Hub/State/Timeout.antt =====
-- The devices of the manager: what a message writes, what a deadline writes, and which states a
-- run can reach.
use uchi_pulse.Base.{
  ℕ, ◌-◌, ◌≡◌, refl, String, str_eq, str_eq_iff, true, false, not, ◌&&◌, Option, none, some, List,
  [], ◌∷◌, map, find, arith, ok, is_blank, is_some, leb, if◌then◌else◌, All, Result-cases, inl, inr,
}
use uchi_pulse.Common.Message.{UdpMessage}
use uchi_pulse.Hub.Database.{DeviceRecord, Repository}
use uchi_pulse.Hub.State.{
  DeviceState, initial_wait, online, offline, CommunicationStateManager, put, collect,
  initial_state, from_database, device, device_id_of, is_ack, mark_online, observe_message,
  last_reference, expire, mark_offline,
}

-- A device that waits was never seen, and one that is online was.
unfoldable pub IsCoherent : DeviceState → Type 0
IsCoherent s =
    (s.status ≡ initial_wait → s.last_seen_at ≡ none)
    × (s.status ≡ online → is_some s.last_seen_at ≡ true)

-- What a message of the device writes to it.
abbrev pub seen : ℕ → Option DeviceState → Option DeviceState
seen now none = none
seen now (some s) = some (record s { status = online; last_seen_at = some now })

abbrev pub after_deadline : ℕ → ℕ → Option DeviceState → Option DeviceState
after_deadline timeout now none = none
after_deadline timeout now (some s) =
    some (record s { status = if leb timeout (now - last_reference s) then offline else s.status })

find-mark_online :
    (id other : String) (now : ℕ) (ss : List DeviceState)
    → find (λ s. str_eq s.device_id other) (mark_online id now ss) ≡ (
        if str_eq other id
        then seen now (find (λ s. str_eq s.device_id other) ss)
        else find (λ s. str_eq s.device_id other) ss)
unfolding mark_online
find-mark_online id other now [] = ground arith
find-mark_online id other now (s ∷ ss) = ground (
  arith,
  find-mark_online id other now ss,
  str_eq_iff other id,
  str_eq_iff s.device_id id,
  str_eq_iff s.device_id other,
)

-- After a message each device is what it was, but for its sender: where the sender's id is not
-- blank and the message is no ACK, it is online and last seen now, if it is managed at all.
pub observe_message_result :
    (m : CommunicationStateManager) (message : UdpMessage) (now : ℕ) (id : String)
    → device (observe_message m message now).1 id ≡ (
        if str_eq id (device_id_of message) && not (is_blank id) && not (is_ack message)
        then seen now (device m id)
        else device m id)
unfolding observe_message
observe_message_result m message now id = ground (
  arith,
  find-mark_online (device_id_of message) id now m.devices,
  str_eq_iff id (device_id_of message),
)

find-expire :
    (timeout now : ℕ) (id : String) (ss : List DeviceState)
    → find (λ s. str_eq s.device_id id) (map (expire timeout now) ss)
      ≡ after_deadline timeout now (find (λ s. str_eq s.device_id id) ss)
unfolding expire
find-expire timeout now id [] = refl
find-expire timeout now id (s ∷ ss) = ground (arith, find-expire timeout now id ss)

-- After `mark_offline` a device is offline where its timeout has passed since it was last seen, or
-- since the wait began if it never was; nothing else about it changes, nor about the others.
pub mark_offline_result :
    (m : CommunicationStateManager) (now : ℕ) (id : String)
    → device (mark_offline m now) id ≡ after_deadline m.offline_timeout now (device m id)
unfolding mark_offline
mark_offline_result m now id = find-expire m.offline_timeout now id m.devices

timeout-observe_message :
    (m : CommunicationStateManager) (message : UdpMessage) (now : ℕ)
    → (observe_message m message now).1.offline_timeout ≡ m.offline_timeout
unfolding observe_message
timeout-observe_message m message now = ground arith

-- A managed device that sent a HELLO, HEARTBEAT or EVENT at `seen_at` is online after the check at
-- `now` if less than the timeout has passed, and offline if not.
pub observed_then_checked :
    (m : CommunicationStateManager) (message : UdpMessage) (seen_at now : ℕ) (s : DeviceState)
    → device m (device_id_of message) ≡ some s
    → is_blank (device_id_of message) ≡ false
    → is_ack message ≡ false
    → device (mark_offline (observe_message m message seen_at).1 now) (device_id_of message)
      ≡ some (record s {
        status = if leb m.offline_timeout (now - seen_at) then offline else online;
        last_seen_at = some seen_at;
      })
unfolding last_reference
observed_then_checked m message seen_at now s known named sent = ground (
  arith,
  mark_offline_result (observe_message m message seen_at).1 now (device_id_of message),
  observe_message_result m message seen_at (device_id_of message),
  str_eq_iff (device_id_of message) (device_id_of message),
  timeout-observe_message m message seen_at,
)

put-IsCoherent :
    (s : DeviceState) (ss : List DeviceState)
    → IsCoherent s
    → All IsCoherent ss
    → All IsCoherent (put s ss)
put-IsCoherent s [] h hs = (h, tt)
put-IsCoherent s (t ∷ ts) h hs = let rest = put-IsCoherent s ts h hs.1 in ground arith

collect-IsCoherent :
    (acc ss : List DeviceState)
    → All IsCoherent acc
    → All IsCoherent ss
    → All IsCoherent (collect acc ss)
collect-IsCoherent acc [] h hs = h
collect-IsCoherent acc (s ∷ ss) h hs =
    collect-IsCoherent (put s acc) ss (put-IsCoherent s acc hs.0 h) hs.1

initial-IsCoherent :
    (started : ℕ) (ds : List DeviceRecord) → All IsCoherent (map (initial_state started) ds)
unfolding IsCoherent
initial-IsCoherent started [] = tt
initial-IsCoherent started (d ∷ ds) =
    ((λ _. refl, λ e. ground arith), initial-IsCoherent started ds)

mark_online-IsCoherent :
    (id : String) (now : ℕ) (ss : List DeviceState)
    → All IsCoherent ss
    → All IsCoherent (mark_online id now ss)
unfolding mark_online IsCoherent
mark_online-IsCoherent id now [] h = tt
mark_online-IsCoherent id now (s ∷ ss) h =
    let rest = mark_online-IsCoherent id now ss h.1 in ground arith

expire-IsCoherent :
    (timeout now : ℕ) (ss : List DeviceState)
    → All IsCoherent ss
    → All IsCoherent (map (expire timeout now) ss)
unfolding expire IsCoherent
expire-IsCoherent timeout now [] h = tt
expire-IsCoherent timeout now (s ∷ ss) h =
    let rest = expire-IsCoherent timeout now ss h.1 in ground arith

-- The states of the manager that a run of the hub can reach.
pub data Reachable {Db Failure : Type 0} (repository : Repository Db Failure)
    : CommunicationStateManager → Type 0 where
  start :
      (db : Db) (started timeout : ℕ) (m : CommunicationStateManager)
      → from_database repository db started timeout ≡ ok m
      → Reachable repository m
  observe :
      (m : CommunicationStateManager) (message : UdpMessage) (now : ℕ)
      → Reachable repository m
      → Reachable repository (observe_message m message now).1
  check :
      (m : CommunicationStateManager) (now : ℕ)
      → Reachable repository m
      → Reachable repository (mark_offline m now)

-- In every reachable state, a device that waits was never seen and one that is online was.
pub Reachable-IsCoherent :
    {Db Failure : Type 0} {repository : Repository Db Failure} {m : CommunicationStateManager}
    → Reachable repository m
    → All IsCoherent m.devices
unfolding from_database observe_message mark_offline
Reachable-IsCoherent {repository} (start db started timeout m made) =
    elim (Result-cases (repository.list_enabled_devices db)) [
      | inr (failure, failed) ↦ ground arith
      | inl (ds, listed) ↦
          let coherent =
            collect-IsCoherent [] (map (initial_state started) ds) tt
              (initial-IsCoherent started ds) in
          ground arith
    ]
Reachable-IsCoherent (observe m message now before) =
    let held = Reachable-IsCoherent before in
    ground (arith, mark_online-IsCoherent (device_id_of message) now m.devices)
Reachable-IsCoherent (check m now before) =
    expire-IsCoherent m.offline_timeout now m.devices (Reachable-IsCoherent before)

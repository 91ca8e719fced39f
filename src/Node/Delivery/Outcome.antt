-- ===== src/Node/Delivery/Outcome.antt =====
-- When an event counts as delivered.
use uchi_pulse.Base.{
  ℕ, zero, suc, ◌+◌, ◌≤◌, ◌≡◌, Bool, true, false, ◌&&◌, some, List, [], ◌∷◌, arith, if◌then◌else◌,
  any, take, length, All, is_some,
}
use uchi_pulse.Common.Message.{UdpMessage}
use uchi_pulse.Common.Codec.{Json}
use uchi_pulse.Node.Udp.{
  NodeUdpProtocol, PendingEvent, RetryPolicy, new_policy, next_attempt, ack_matches,
}
use uchi_pulse.Node.Delivery.{
  Reception, datagram, socket_error, timed_out, Try, wait_for_ack, deliver,
}

-- The receptions up to the first that ends a wait, by the deadline or late.
abbrev is_last : Reception → Bool
is_last (datagram payload late) = late
is_last (socket_error late) = late
is_last timed_out = true

abbrev pub in_time : List Reception → List Reception
in_time [] = []
in_time (r ∷ rs) = let rest = in_time rs in if is_last r then r ∷ [] else r ∷ rest

-- The tries before the first at which no hub is known.
abbrev pub with_hub : List Try → List Try
with_hub [] = []
with_hub (t ∷ ts) = let rest = with_hub ts in if t.hub_known then t ∷ rest else []

module _ (json : Json UdpMessage) (protocol : NodeUdpProtocol) (event : PendingEvent) where
  abbrev pub is_ack_of : Reception → Bool
  is_ack_of (datagram payload late) = ack_matches json protocol event payload
  is_ack_of (socket_error late) = false
  is_ack_of timed_out = false

  abbrev pub is_acknowledged : Try → Bool
  is_acknowledged t = t.is_sent && any is_ack_of (in_time t.receptions)

  -- A wait that ends has taken the event's ACK exactly where one came in time.
  wait_for_ack_result :
      (rs : List Reception)
      → is_some (wait_for_ack json protocol event rs) ≡ true
      → wait_for_ack json protocol event rs ≡ some (any is_ack_of (in_time rs))
  unfolding wait_for_ack
  wait_for_ack_result [] h = ground arith
  wait_for_ack_result (datagram payload late ∷ rs) h = ground (arith, wait_for_ack_result rs)
  wait_for_ack_result (socket_error late ∷ rs) h = ground (arith, wait_for_ack_result rs)
  wait_for_ack_result (timed_out ∷ rs) h = ground arith

  -- Each wait of the tries ends.
  abbrev pub WaitsEnd : List Try → Type 0
  WaitsEnd ts = All (λ t. is_some (wait_for_ack json protocol event t.receptions) ≡ true) ts

  deliver-attempts :
      (k : ℕ) (p : RetryPolicy) (ts : List Try)
      → p.attempts_started + k ≡ p.retry_count + 1
      → k ≤ length ts
      → WaitsEnd ts
      → deliver json protocol event p ts ≡ some (any is_acknowledged (take k (with_hub ts)))
  unfolding deliver next_attempt
  deliver-attempts zero p [] e enough ends = ground arith
  deliver-attempts zero p (t ∷ ts) e enough ends = ground arith
  deliver-attempts (suc k) p [] e enough ends = absurd (omega arith)
  deliver-attempts (suc k) p (t ∷ ts) e enough ends = ground (
    arith,
    wait_for_ack_result t.receptions,
    ends.0,
    deliver-attempts k (record p { attempts_started = p.attempts_started + 1 }) ts,
  )

  -- Where each wait ends, the delivery ends after at most `retry_count + 1` attempts, and the event
  -- is delivered exactly where one of these attempts, with the hub known up to then, was sent and
  -- had the event's ACK in time.
  pub deliver_result :
      (retry_count : ℕ) (ts : List Try)
      → retry_count + 1 ≤ length ts
      → WaitsEnd ts
      → deliver json protocol event (new_policy retry_count) ts
        ≡ some (any is_acknowledged (take (suc retry_count) (with_hub ts)))
  deliver_result retry_count ts enough ends =
      deliver-attempts (suc retry_count) (new_policy retry_count) ts (omega arith) (omega arith)
        ends

-- ===== src/Node/Detector.antt =====
-- `GestureDetector` of apps/uchi-pulse-node/src/input.rs: one raw level a sample in, input events
-- out. `update` is cut at its three blocks; milliseconds are unbounded numbers, and the truncated
-- subtraction is the source's `saturating_sub`.
pub mod Bounds
pub mod Gesture
pub mod Debounce
pub mod History
mod Tests
use uchi_pulse.Base.{
  ℕ, ◌-◌, Bool, true, false, not, differs, ◌&&◌, Option, none, some, List, [], ◌∷◌, ◌++◌, length,
  ltb, leb, if◌then◌else◌,
}
use uchi_pulse.Common.Types.{InputEvent, off_to_on, on_to_off, click, double_click, long_press}

abbrev pub max_events_per_sample : ℕ
max_events_per_sample = 16

pub record GestureDetector : Type 0 where
  pub stable : Bool
  pub candidate : Bool
  pub candidate_since_ms : ℕ
  pub pressed_since_ms : Option ℕ
  pub long_press_emitted : Bool
  pub pending_click_since_ms : Option ℕ
  pub second_click_in_progress : Bool

-- `GestureDetector::new`
abbrev pub new : GestureDetector
new = record {
  stable = false;
  candidate = false;
  candidate_since_ms = 0;
  pressed_since_ms = none;
  long_press_emitted = false;
  pending_click_since_ms = none;
  second_click_in_progress = false;
}

unfoldable pub initialize : GestureDetector → Bool → ℕ → GestureDetector
initialize d active now = record {
  stable = active;
  candidate = active;
  candidate_since_ms = now;
  pressed_since_ms = if active then some now else none;
  long_press_emitted = false;
  pending_click_since_ms = none;
  second_click_in_progress = false;
}

abbrev pub elapsed : ℕ → ℕ → ℕ
elapsed now since = now - since

-- A push onto a full `heapless::Vec` is refused, and the refusal is ignored.
unfoldable pub push_event : List InputEvent → InputEvent → List InputEvent
push_event output e =
    if ltb (length output) max_events_per_sample then output ++ (e ∷ []) else output

second_press_in_window : GestureDetector → Bool → ℕ → ℕ → Bool
second_press_in_window d active since interval =
    active
    && differs d.candidate d.stable
    && d.candidate
    && leb (elapsed d.candidate_since_ms since) interval

-- The first block: a pending click that no second press can join becomes a click.
unfoldable pub expire_click :
    GestureDetector → Bool → ℕ → ℕ → List InputEvent → GestureDetector × List InputEvent
unfolding second_press_in_window
expire_click d active now interval output = elim d.pending_click_since_ms [
  | none ↦ (d, output)
  | some since ↦
      if ltb interval (elapsed now since) && not (second_press_in_window d active since interval)
      then (
        record d { pending_click_since_ms = none; second_click_in_progress = false },
        push_event output click,
      )
      else (d, output)
]

-- `self.pending_click_since_ms.is_some_and(…)`
joins_pending : GestureDetector → ℕ → Bool
joins_pending d interval = elim d.pending_click_since_ms [
  | none ↦ false
  | some since ↦ leb (elapsed d.candidate_since_ms since) interval
]

-- The debounced level went up.
unfoldable pub press : GestureDetector → ℕ → ℕ → List InputEvent → GestureDetector × List InputEvent
unfolding joins_pending
press d now interval output =
    let second = joins_pending d interval in
    (
      record d {
        stable = true;
        pressed_since_ms = some now;
        long_press_emitted = false;
        second_click_in_progress = second;
        pending_click_since_ms = if second then none else d.pending_click_since_ms;
      },
      push_event output off_to_on,
    )

-- The debounced level went down.
unfoldable pub release : GestureDetector → ℕ → List InputEvent → GestureDetector × List InputEvent
release d now output =
    if d.long_press_emitted
    then (
      record d { stable = false; pressed_since_ms = none; second_click_in_progress = false },
      push_event output on_to_off,
    )
    else if d.second_click_in_progress
    then (
      record d {
        stable = false;
        pending_click_since_ms = none;
        second_click_in_progress = false;
        pressed_since_ms = none;
      },
      push_event (push_event output on_to_off) double_click,
    )
    else (
      record d { stable = false; pending_click_since_ms = some now; pressed_since_ms = none },
      push_event output on_to_off,
    )

-- The second block: debouncing.
unfoldable pub settle :
    GestureDetector → Bool → ℕ → ℕ → ℕ → List InputEvent → GestureDetector × List InputEvent
settle d active now debounce interval output =
    if differs active d.candidate
    then (record d { candidate = active; candidate_since_ms = now }, output)
    else if differs d.candidate d.stable && leb debounce (elapsed now d.candidate_since_ms)
    then (if d.candidate then press d now interval output else release d now output)
    else (d, output)

-- The third block.
unfoldable pub detect_long_press :
    GestureDetector → ℕ → ℕ → List InputEvent → GestureDetector × List InputEvent
detect_long_press d now threshold output = elim d.pressed_since_ms [
  | none ↦ (d, output)
  | some since ↦
      if d.stable && not d.long_press_emitted && leb threshold (elapsed now since)
      then (record d { long_press_emitted = true }, push_event output long_press)
      else (d, output)
]

-- The settings that `update` takes beside the sample.
pub record Timing : Type 0 where
  pub debounce_ms : ℕ
  pub double_click_interval_ms : ℕ
  pub long_press_threshold_ms : ℕ

unfoldable pub update :
    GestureDetector → Bool → ℕ → Timing → List InputEvent → GestureDetector × List InputEvent
update d active now t output =
    let (d₁, out₁) = expire_click d active now t.double_click_interval_ms output in
    let (d₂, out₂) = settle d₁ active now t.debounce_ms t.double_click_interval_ms out₁ in
    detect_long_press d₂ now t.long_press_threshold_ms out₂

-- ===== src/Node/Detector/Bounds.antt =====
-- How many events one sample can report, whatever the detector's state.
use uchi_pulse.Base.{ℕ, ◌+◌, ◌≤◌, Bool, List, [], ◌∷◌, arith, length, length-append}
use uchi_pulse.Common.Types.{InputEvent, off_to_on, on_to_off, click, double_click, long_press}
use uchi_pulse.Node.Detector.{
  GestureDetector, Timing, push_event, expire_click, press, release, settle, detect_long_press,
  update,
}

pub length-push_event :
    (out : List InputEvent) (e : InputEvent) → length (push_event out e) ≤ length out + 1
unfolding push_event
length-push_event out e = ground (arith, length-append out (e ∷ []))

module _ (d : GestureDetector) (active : Bool) (now : ℕ) (out : List InputEvent) where
  length-expire_click :
      (interval : ℕ) → length (expire_click d active now interval out).1 ≤ length out + 1
  unfolding expire_click
  length-expire_click interval = ground (arith, length-push_event out click)

  length-settle :
      (debounce interval : ℕ)
      → length (settle d active now debounce interval out).1 ≤ length out + 2
  unfolding settle press release
  length-settle debounce interval = ground (
    arith,
    length-push_event out off_to_on,
    length-push_event out on_to_off,
    length-push_event (push_event out on_to_off) double_click,
  )

  length-detect_long_press :
      (threshold : ℕ) → length (detect_long_press d now threshold out).1 ≤ length out + 1
  unfolding detect_long_press
  length-detect_long_press threshold = ground (arith, length-push_event out long_press)

pub length-update :
    (d : GestureDetector) (active : Bool) (now : ℕ) (t : Timing)
    → length (update d active now t []).1 ≤ 4
unfolding update
length-update d active now t =
    let i = t.double_click_interval_ms in
    let r₁ = expire_click d active now i [] in
    let r₂ = settle r₁.0 active now t.debounce_ms i r₁.1 in
    omega (
      arith,
      length-expire_click d active now [] i,
      length-settle r₁.0 active now r₁.1 t.debounce_ms i,
      length-detect_long_press r₂.0 active now r₂.1 t.long_press_threshold_ms,
    )

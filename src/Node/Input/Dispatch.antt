-- ===== src/Node/Input/Dispatch.antt =====
-- `InputController::update`: which actions a sample triggers, and what it leaves alone.
use uchi_pulse.Base.{
  ℕ, ◌+◌, ◌≤◌, ◌≡◌, ◌≢◌, refl, Bool, true, none, some, List, [], ◌∷◌, ◌++◌, map, arith, ok, err,
  push_all_total, keep_if, All, Distinct, length, length-append, ◌==◌, if◌then◌else◌, Option-cases,
  inl, inr, append_assoc, append-nil,
}
use mathlib.Core.Option
use uchi_pulse.Common.Types.{InputEvent}
use uchi_pulse.Node.Config.{InputMapping}
use uchi_pulse.Node.Config.Valid.{mapping_key, event_eq_iff}
use uchi_pulse.Node.Detector.{GestureDetector, Timing, max_events_per_sample}
use uchi_pulse.Node.Detector
use uchi_pulse.Node.Detector.Bounds.{length-update}
use uchi_pulse.Node.Input.{
  InputController, RuntimeInput, DetectedInputEvent, too_many_events, unknown_gpio, find_input,
  write_first, set_detector, active_level, triggers, ids, collect, update, initialize,
}

-- The ids of the enabled mappings of a pin for each event in turn.
unfoldable pub triggered : List InputMapping → ℕ → List InputEvent → List ℕ
triggered ms gpio [] = []
triggered ms gpio (e ∷ es) = ids (keep_if (triggers gpio e) ms) ++ triggered ms gpio es

abbrev pub at_pin : ℕ → InputEvent → DetectedInputEvent
at_pin gpio e = record { gpio = gpio; input_event = e }

module _ (gpio : ℕ) (e : InputEvent) where
  triggers_none :
      (m : InputMapping) (ms : List InputMapping)
      → triggers gpio e m ≡ true
      → All (λ o. mapping_key m ≢ mapping_key o) ms
      → keep_if (triggers gpio e) ms ≡ []
  triggers_none m [] h d = refl
  triggers_none m (o ∷ ms) h d =
      ground (
        arith,
        event_eq_iff m.input_event e,
        event_eq_iff o.input_event e,
        triggers_none m ms h d.1,
      )

  -- No two mappings for one pin and gesture: an event triggers one action at most.
  triggers-le-one :
      (ms : List InputMapping)
      → Distinct mapping_key ms
      → length (ids (keep_if (triggers gpio e) ms)) ≤ 1
  triggers-le-one [] d = omega arith
  triggers-le-one (m ∷ ms) d = ground (arith, triggers_none m ms, triggers-le-one ms d.1)

module _ (ms : List InputMapping) (gpio : ℕ) (d : Distinct mapping_key ms) where
  collect_total :
      (events : List DetectedInputEvent) (actions : List ℕ) (es : List InputEvent)
      → length events + length es ≤ max_events_per_sample
      → length actions + length es ≤ max_events_per_sample
      → collect ms gpio events actions es
        ≡ ok (record {
          input_events = events ++ map (at_pin gpio) es;
          actions = actions ++ triggered ms gpio es;
        })
  unfolding collect triggered
  collect_total events actions [] he ha = ground (arith, append-nil events, append-nil actions)
  collect_total events actions (e ∷ es) he ha =
      let mine = ids (keep_if (triggers gpio e) ms) in
      ground (
        arith,
        triggers-le-one gpio e ms d,
        push_all_total max_events_per_sample (λ _. too_many_events) actions mine,
        length-append actions mine,
        length-append events (at_pin gpio e ∷ []),
        append_assoc events (at_pin gpio e ∷ []) (map (at_pin gpio) es),
        append_assoc actions mine (triggered ms gpio es),
        collect_total (events ++ (at_pin gpio e ∷ [])) (actions ++ mine) es,
      )

abbrev timing_of : InputController → RuntimeInput → Timing
timing_of c i = record {
  debounce_ms = i.debounce_ms;
  double_click_interval_ms = c.double_click_interval_ms;
  long_press_threshold_ms = c.long_press_threshold_ms;
}

-- What the pin's own detector makes of the sample.
abbrev pub detect : InputController → RuntimeInput → Bool → ℕ → GestureDetector × List InputEvent
detect c i raw_high now =
    Detector.update i.detector (active_level i raw_high) now (timing_of c i) []

-- A sample of a configured pin always returns a result, if no two mappings are for one pin and
-- gesture: the buffers never overflow. The events are those of the pin's detector, in their order,
-- and the actions are those of the enabled mappings for this pin and event, event by event.
pub update_result :
    (c : InputController) (gpio : ℕ) (raw_high : Bool) (now : ℕ) (i : RuntimeInput)
    → Distinct mapping_key c.mappings
    → find_input gpio c.inputs ≡ some i
    → (update c gpio raw_high now).1
      ≡ ok (record {
        input_events = map (at_pin gpio) (detect c i raw_high now).1;
        actions = triggered c.mappings gpio (detect c i raw_high now).1;
      })
unfolding update
update_result c gpio raw_high now i d found =
    rw (found, update)
      (collect_total c.mappings gpio d [] [] (detect c i raw_high now).1
        (omega (arith, length-update i.detector (active_level i raw_high) now (timing_of c i)))
        (omega (arith, length-update i.detector (active_level i raw_high) now (timing_of c i))))

-- A sample of any other pin is refused, and changes nothing.
pub update_unknown :
    (c : InputController) (gpio : ℕ) (raw_high : Bool) (now : ℕ)
    → find_input gpio c.inputs ≡ none
    → update c gpio raw_high now ≡ (c, err (unknown_gpio gpio))
unfolding update
update_unknown c gpio raw_high now missing = rw (missing, update)

find-write_first :
    (gpio other : ℕ) (d : GestureDetector) (is : List RuntimeInput)
    → find_input other (write_first gpio (set_detector d) is) ≡ (
        if other == gpio
        then Option.map (set_detector d) (find_input other is)
        else find_input other is)
unfolding write_first
find-write_first gpio other d [] = ground arith
find-write_first gpio other d (i ∷ is) = ground (arith, find-write_first gpio other d is)

-- A sample is seen by its own pin's detector and by no other: that input is left with the detector
-- that its `update` returns, and every other input, the settings and the mappings are as before.
pub update_frame :
    (c : InputController) (gpio other : ℕ) (raw_high : Bool) (now : ℕ) (i : RuntimeInput)
    → find_input gpio c.inputs ≡ some i
    → let c' = (update c gpio raw_high now).0 in
      (find_input gpio c'.inputs ≡ some (record i { detector = (detect c i raw_high now).0 }))
      × (other ≢ gpio → find_input other c'.inputs ≡ find_input other c.inputs)
      × (c'.mappings ≡ c.mappings)
      × (c'.double_click_interval_ms ≡ c.double_click_interval_ms)
      × (c'.long_press_threshold_ms ≡ c.long_press_threshold_ms)
unfolding update
update_frame c gpio other raw_high now i found =
    rw (found, update)
      (
        ground (arith, find-write_first gpio gpio (detect c i raw_high now).0 c.inputs),
        λ ne. ground (arith, find-write_first gpio other (detect c i raw_high now).0 c.inputs),
        refl,
        refl,
        refl,
      )

-- `initialize` rests the pin's detector at the level that it is given, and leaves every other
-- input alone; it succeeds on every configured pin.
pub initialize_frame :
    (c : InputController) (gpio other : ℕ) (raw_high : Bool) (now : ℕ) (i : RuntimeInput)
    → find_input gpio c.inputs ≡ some i
    → (c' : InputController) × (initialize c gpio raw_high now ≡ ok c')
      × (find_input gpio c'.inputs
          ≡ some (record i {
            detector = Detector.initialize i.detector (active_level i raw_high) now;
          }))
      × (other ≢ gpio → find_input other c'.inputs ≡ find_input other c.inputs)
unfolding initialize
initialize_frame c gpio other raw_high now i found =
    let d = Detector.initialize i.detector (active_level i raw_high) now in
    (
      record c { inputs = write_first gpio (set_detector d) c.inputs },
      ground arith,
      ground (arith, find-write_first gpio gpio d c.inputs),
      λ ne. ground (arith, find-write_first gpio other d c.inputs),
    )

pub initialize-mappings :
    (c c' : InputController) (gpio : ℕ) (raw_high : Bool) (now : ℕ)
    → initialize c gpio raw_high now ≡ ok c'
    → c'.mappings ≡ c.mappings
unfolding initialize
initialize-mappings c c' gpio raw_high now h = elim (Option-cases (find_input gpio c.inputs)) [
  | inl missing ↦ ground arith
  | inr (i, found) ↦ ground arith
]

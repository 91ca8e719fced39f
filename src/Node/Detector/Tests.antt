-- ===== src/Node/Detector/Tests.antt =====
-- Runs of the detector on the timings of the source's own tests, and the theorems at them.
use uchi_pulse.Base.{ℕ, ◌≤◌, ◌≡◌, refl, Bool, true, false, none, some, List, [], ◌∷◌, arith, ◌-◌}
use uchi_pulse.Common.Types.{off_to_on, on_to_off, click, double_click, long_press}
use uchi_pulse.Node.Detector.{
  GestureDetector, Timing, new, initialize, expire_click, press, release, settle, detect_long_press,
  update, push_event,
}
use uchi_pulse.Node.Detector.Gesture.{follow_all, phase, update_follows}
use uchi_pulse.Node.Detector.Debounce.{Sample, replay, Steady, stable_change-Steady}
use uchi_pulse.Node.Detector.History.{events, events_follow}

abbrev timing : Timing
timing = record { debounce_ms = 30; double_click_interval_ms = 400; long_press_threshold_ms = 1000 }

abbrev at : ℕ → Bool → Sample
at now active = record { active = active; now = now; timing = timing }

-- Two short presses, newest sample first.
abbrev two_presses : List Sample
two_presses =
    at 162 false
    ∷ at 132 false
    ∷ at 130 true
    ∷ at 100 true
    ∷ at 62 false
    ∷ at 32 false
    ∷ at 31 true
    ∷ at 1 true
    ∷ []

-- One short press, and the wait after it.
abbrev one_press : List Sample
one_press = at 463 false ∷ at 462 false ∷ at 62 false ∷ at 32 false ∷ at 31 true ∷ at 1 true ∷ []

-- A press that is held.
abbrev long_hold : List Sample
long_hold = at 1100 true ∷ at 1031 true ∷ at 1030 true ∷ at 31 true ∷ at 1 true ∷ []

two_presses_run :
    events false 0 two_presses ≡ off_to_on ∷ on_to_off ∷ off_to_on ∷ on_to_off ∷ double_click ∷ []
unfolding events replay update initialize expire_click settle press release detect_long_press
    push_event
two_presses_run = refl

one_press_run : events false 0 one_press ≡ off_to_on ∷ on_to_off ∷ click ∷ []
unfolding events replay update initialize expire_click settle press release detect_long_press
    push_event
one_press_run = refl

long_hold_run : events false 0 long_hold ≡ off_to_on ∷ long_press ∷ []
unfolding events replay update initialize expire_click settle press release detect_long_press
    push_event
long_hold_run = refl

abbrev pressed : GestureDetector
pressed = record {
  stable = true;
  candidate = false;
  candidate_since_ms = 32;
  pressed_since_ms = some 31;
  long_press_emitted = false;
  pending_click_since_ms = none;
  second_click_in_progress = true;
}

update_follows_example :
    follow_all (some (phase pressed)) (update pressed false 62 timing []).1
    ≡ some (phase (update pressed false 62 timing []).0)
update_follows_example =
    (update_follows pressed false 62 timing
      (record { seen = omega arith; up = λ h. cc; down = λ _. refl })).0

stable_change-Steady_example :
    (since : ℕ) × Steady false 0 true since (at 31 true ∷ at 1 true ∷ []) × (30 ≤ 31 - since)
unfolding replay update initialize expire_click settle press release detect_long_press
stable_change-Steady_example = stable_change-Steady false 0 (at 31 true) (at 1 true ∷ []) (λ e. cc)

events_follow_example :
    follow_all (some (phase (initialize new false 0))) (events false 0 two_presses)
    ≡ some (phase (replay false 0 two_presses))
events_follow_example = events_follow false 0 two_presses (omega arith)

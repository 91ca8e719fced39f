-- ===== src/Node/Detector/History.antt =====
-- The events of a whole run of one input, and what the automaton says of their numbers.
use uchi_pulse.Base.{
  ℕ, ◌+◌, ◌*◌, ◌≤◌, ◌≡◌, ◌≢◌, refl, Bool, false, inl, inr, Option-cases, none, some, List, [], ◌∷◌,
  ◌++◌, arith, count_if, if◌then◌else◌,
}
use uchi_pulse.Common.Types.{
  InputEvent, off_to_on, on_to_off, click, double_click, long_press, event_eq,
}
use uchi_pulse.Node.Detector.{GestureDetector, new, initialize, update}
use uchi_pulse.Node.Detector.Gesture.{
  Phase, idle, waiting, first, second, held, doubled, follow, follow_all, phase, IsWellFormed,
  update_follows, follow_all-append,
}
use uchi_pulse.Node.Detector.Debounce.{Sample, replay, latest, IsOrdered}

-- All events that `update` has reported, oldest first; the samples stand newest first.
unfoldable pub events : Bool → ℕ → List Sample → List InputEvent
events init start [] = []
events init start (s ∷ ss) =
    events init start ss ++ (update (replay init start ss) s.active s.now s.timing []).1

IsWellFormed-later : {m n : ℕ} (d : GestureDetector) → m ≤ n → IsWellFormed m d → IsWellFormed n d
IsWellFormed-later d le w = record { seen = omega arith; up = w.up; down = w.down }

module _ (init : Bool) (start : ℕ) where
  replay-IsWellFormed :
      (ss : List Sample)
      → IsOrdered start ss
      → IsWellFormed (latest start ss) (replay init start ss)
  unfolding replay initialize
  replay-IsWellFormed [] o = ground arith
  replay-IsWellFormed (s ∷ ss) o =
      (update_follows (replay init start ss) s.active s.now s.timing
        (IsWellFormed-later (replay init start ss) o.0 (replay-IsWellFormed ss o.1))).2

  -- On a clock that never runs back, all events of a run form a path of the gesture automaton, from
  -- the phase in which `initialize` put the detector to the phase in which the run left it.
  pub events_follow :
      (ss : List Sample)
      → IsOrdered start ss
      → follow_all (some (phase (initialize new init start))) (events init start ss)
        ≡ some (phase (replay init start ss))
  unfolding events replay
  events_follow [] o = refl
  events_follow (s ∷ ss) o =
      let d = replay init start ss in
      let w = IsWellFormed-later d o.0 (replay-IsWellFormed ss o.1) in
      rw
        (
          follow_all-append (some (phase (initialize new init start))) (events init start ss),
          events_follow ss o.1,
        )
        ((update_follows d s.active s.now s.timing w).0)

abbrev pub count : InputEvent → List InputEvent → ℕ
count e = count_if (event_eq e)

-- What a phase still owes: presses that no gesture has reported yet.
abbrev slack : Phase → ℕ
slack idle = 0
slack held = 0
slack waiting = 1
slack first = 1
slack second = 2
slack doubled = 2

abbrev is_down : Phase → ℕ
is_down first = 1
is_down second = 1
is_down held = 1
is_down _ = 0

follow_all-none : (es : List InputEvent) (p : Phase) → follow_all none es ≢ some p
follow_all-none [] p h = cc
follow_all-none (e ∷ es) p h = follow_all-none es p h

-- Every gesture has presses of its own.
gestures_paid :
    (p q : Phase) (es : List InputEvent)
    → follow_all (some p) es ≡ some q
    → count click es + 2 * count double_click es + count long_press es + slack q
      ≤ count off_to_on es + slack p
unfolding event_eq
gestures_paid p q [] h = ground arith
gestures_paid p q (e ∷ es) h = elim (Option-cases (follow p e)) [
  | inl dead ↦ absurd (follow_all-none es q (rw dead at h))
  | inr (r, go) ↦ ground (arith, gestures_paid r q es (rw go at h))
]

-- Press and release edges alternate.
edges_balance :
    (p q : Phase) (es : List InputEvent)
    → follow_all (some p) es ≡ some q
    → count on_to_off es + is_down q ≡ count off_to_on es + is_down p
unfolding event_eq
edges_balance p q [] h = ground arith
edges_balance p q (e ∷ es) h = elim (Option-cases (follow p e)) [
  | inl dead ↦ absurd (follow_all-none es q (rw dead at h))
  | inr (r, go) ↦ ground (arith, edges_balance r q es (rw go at h))
]

module _ (ss : List Sample) (start : ℕ) (o : IsOrdered start ss) where
  abbrev all_events : List InputEvent
  all_events = events false start ss

  -- An input that starts inactive and is sampled on a clock that never runs back has never reported
  -- more gestures than presses: clicks, long presses, and double clicks counted twice, are at most
  -- the press edges.
  pub gestures-le-presses :
      count click all_events + 2 * count double_click all_events + count long_press all_events
      ≤ count off_to_on all_events
  unfolding phase initialize
  gestures-le-presses = omega (
    arith,
    gestures_paid idle (phase (replay false start ss)) all_events (events_follow false start ss o),
  )

  -- Such an input has reported as many press edges as release edges, and one more exactly while its
  -- confirmed level is active.
  pub presses-eq-releases :
      count off_to_on all_events
      ≡ count on_to_off all_events + (if (replay false start ss).stable then 1 else 0)
  unfolding phase initialize
  presses-eq-releases = ground (
    arith,
    edges_balance idle (phase (replay false start ss)) all_events (events_follow false start ss o),
  )

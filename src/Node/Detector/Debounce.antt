-- ===== src/Node/Detector/Debounce.antt =====
-- Debouncing over a history of samples: how the confirmed level follows the raw one.
use uchi_pulse.Base.{
  ℕ, ◌≤◌, ◌≡◌, refl, Bool, ◌⊎◌, ◌≢◌, List, [], ◌∷◌, arith, if◌then◌else◌, differs, leb, ◌&&◌, ◌-◌,
}
use uchi_pulse.Node.Detector.{
  GestureDetector, Timing, new, initialize, expire_click, press, release, settle, detect_long_press,
  update,
}

-- One call of `update`, with the settings of that moment.
pub record Sample : Type 0 where
  pub active : Bool
  pub now : ℕ
  pub timing : Timing

-- The detector after `initialize` and the samples, newest first.
unfoldable pub replay : Bool → ℕ → List Sample → GestureDetector
replay level start [] = initialize new level start
replay level start (s ∷ ss) = (update (replay level start ss) s.active s.now s.timing []).0

module _ (d : GestureDetector) (active : Bool) (now : ℕ) (t : Timing) where
  abbrev next : GestureDetector
  next = (update d active now t []).0

  stable-update : next.stable ≡ (
      if differs active d.candidate
      then d.stable
      else if differs d.candidate d.stable && leb t.debounce_ms (now - d.candidate_since_ms)
      then d.candidate
      else d.stable)
  unfolding update expire_click settle press release detect_long_press
  stable-update = ground arith

  candidate-update : next.candidate ≡ active
  unfolding update expire_click settle press release detect_long_press
  candidate-update = ground arith

  since-update :
      next.candidate_since_ms ≡ (if differs active d.candidate then now else d.candidate_since_ms)
  unfolding update expire_click settle press release detect_long_press
  since-update = ground arith

-- The time of the newest sample, or of `initialize`.
abbrev pub latest : ℕ → List Sample → ℕ
latest start [] = start
latest start (s ∷ ss) = s.now

-- The clock never runs back.
abbrev pub IsOrdered : ℕ → List Sample → Type 0
IsOrdered start [] = Unit
IsOrdered start (s ∷ ss) = (latest start ss ≤ s.now) × IsOrdered start ss

module _ (init : Bool) (start : ℕ) where
  -- The newest samples have all shown `level`, back to one taken at `since`.
  abbrev pub Steady : Bool → ℕ → List Sample → Type 0
  Steady level since [] = (init ≡ level) × (start ≡ since)
  Steady level since (s ∷ ss) = (s.active ≡ level) × ((s.now ≡ since) ⊎ Steady level since ss)

  replay-Steady :
      (ss : List Sample)
      → Steady (replay init start ss).candidate (replay init start ss).candidate_since_ms ss
  unfolding replay initialize
  replay-Steady [] = (refl, refl)
  replay-Steady (s ∷ ss) = ground (
    arith,
    replay-Steady ss,
    candidate-update (replay init start ss) s.active s.now s.timing,
    since-update (replay init start ss) s.active s.now s.timing,
  )

  seen-le-latest :
      (ss : List Sample)
      → IsOrdered start ss
      → (replay init start ss).candidate_since_ms ≤ latest start ss
  unfolding replay initialize
  seen-le-latest [] o = omega arith
  seen-le-latest (s ∷ ss) o =
      ground
        (arith, seen-le-latest ss o.1, since-update (replay init start ss) s.active s.now s.timing)

  Steady-replay :
      (ss : List Sample) (level : Bool) (since : ℕ)
      → IsOrdered start ss
      → Steady level since ss
      → ((replay init start ss).candidate ≡ level)
        × ((replay init start ss).candidate_since_ms ≤ since)
  unfolding replay initialize
  Steady-replay [] level since o h = ground arith
  Steady-replay (s ∷ ss) level since o h = ground (
    arith,
    seen-le-latest ss o.1,
    Steady-replay ss level since o.1,
    candidate-update (replay init start ss) s.active s.now s.timing,
    since-update (replay init start ss) s.active s.now s.timing,
  )

  -- The confirmed level changes only to a level that every sample has shown for the debounce time:
  -- there is a time `since` that lies at least `debounce_ms` back, and all samples from the newest
  -- back to one taken at `since` have the new level.
  pub stable_change-Steady :
      (s : Sample) (ss : List Sample)
      → (replay init start (s ∷ ss)).stable ≢ (replay init start ss).stable
      → (since : ℕ) × Steady (replay init start (s ∷ ss)).stable since (s ∷ ss)
        × (s.timing.debounce_ms ≤ s.now - since)
  unfolding replay
  stable_change-Steady s ss changed =
      let d = replay init start ss in
      (
        d.candidate_since_ms,
        ground (arith, replay-Steady ss, stable-update d s.active s.now s.timing),
        ground (arith, stable-update d s.active s.now s.timing),
      )

  -- And the other way round: on a clock that never runs back, a level that the samples before have
  -- shown since a time at least `debounce_ms` back, and that this one shows again, is confirmed.
  pub Steady-stable :
      (s : Sample) (ss : List Sample) (since : ℕ)
      → IsOrdered start ss
      → Steady s.active since ss
      → s.timing.debounce_ms ≤ s.now - since
      → (replay init start (s ∷ ss)).stable ≡ s.active
  unfolding replay
  Steady-stable s ss since o h due = ground (
    arith,
    Steady-replay ss s.active since o h,
    stable-update (replay init start ss) s.active s.now s.timing,
  )

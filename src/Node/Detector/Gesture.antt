-- ===== src/Node/Detector/Gesture.antt =====
-- What the events of one input promise, as a small automaton over the presses of a button, and the
-- proof that `update` follows it.
use uchi_pulse.Base.{
  ℕ, ◌≤◌, ◌≡◌, refl, Bool, true, false, Option, none, some, List, if_both, differs, leb, ◌&&◌, [],
  ◌∷◌, ◌++◌, arith, if◌then◌else◌, is_some, length, ◌<◌, ◌+◌,
}
use uchi_pulse.Common.Types.{InputEvent, off_to_on, on_to_off, click, double_click, long_press}
use uchi_pulse.Node.Detector.Bounds.{length-push_event}
use uchi_pulse.Node.Detector.{
  GestureDetector, Timing, push_event, max_events_per_sample, elapsed, expire_click, joins_pending,
  press, release, settle, detect_long_press, update,
}

-- `idle`: up, nothing owed. `waiting`: up, one short press not yet reported. `first`, `second`:
-- down. `held`: down, the long press reported. `doubled`: up, and the double click is due at once.
pub data Phase : Type 0 where
  idle waiting first second held doubled : Phase

abbrev pub follow : Phase → InputEvent → Option Phase
follow idle off_to_on = some first
follow waiting click = some idle
follow waiting off_to_on = some second
follow first long_press = some held
follow first on_to_off = some waiting
follow second long_press = some held
follow second on_to_off = some doubled
follow doubled double_click = some idle
follow held on_to_off = some idle
follow _ _ = none

-- `none` is a sequence that the automaton refuses.
abbrev pub after : Option Phase → InputEvent → Option Phase
after none e = none
after (some p) e = follow p e

abbrev pub follow_all : Option Phase → List InputEvent → Option Phase
follow_all o [] = o
follow_all o (e ∷ es) = follow_all (after o e) es

unfoldable pub phase : GestureDetector → Phase
phase d =
    if d.stable
    then (if d.long_press_emitted
        then held
        else if d.second_click_in_progress
        then second
        else first)
    else if is_some d.pending_click_since_ms
    then waiting
    else idle

-- While the input is up no second click is in progress; while it is down no click is pending.
pub record IsWellFormed (now : ℕ) (d : GestureDetector) : Type 0 where
  pub seen : d.candidate_since_ms ≤ now
  pub up : d.stable ≡ false → d.second_click_in_progress ≡ false
  pub down : d.stable ≡ true → d.pending_click_since_ms ≡ none

pub follow_all-append :
    (o : Option Phase) (xs ys : List InputEvent)
    → follow_all o (xs ++ ys) ≡ follow_all (follow_all o xs) ys
follow_all-append o [] ys = refl
follow_all-append o (x ∷ xs) ys = follow_all-append (after o x) xs ys

-- Running the automaton over what the sample has pushed so far ends in the detector's own phase.
record Follows (o : Option Phase) (n now : ℕ) (r : GestureDetector × List InputEvent) : Type 0 where
  run : follow_all o r.1 ≡ some (phase r.0)
  short : length r.1 ≤ n
  fits : IsWellFormed now r.0

Follows-widen :
    {o : Option Phase} {m now : ℕ} (n : ℕ) {r : GestureDetector × List InputEvent}
    → m ≤ n
    → Follows o m now r
    → Follows o n now r
Follows-widen n le f = record { run = f.run; short = omega (arith, f.short); fits = f.fits }

follow-push_event :
    (o : Option Phase) (out : List InputEvent) (e : InputEvent)
    → length out < max_events_per_sample
    → follow_all o (push_event out e) ≡ after (follow_all o out) e
unfolding push_event
follow-push_event o out e room = ground (arith, follow_all-append o out (e ∷ []))

-- What block one leaves for block two: a pending click that a confirmed press can still join.
abbrev Joinable : Bool → ℕ → GestureDetector → Type 0
Joinable active interval e =
    active ≡ true
    → e.candidate ≡ true
    → e.stable ≡ false
    → is_some e.pending_click_since_ms ≡ true
    → joins_pending e interval ≡ true

-- The test of the second branch of `settle`.
abbrev confirmed : GestureDetector → ℕ → ℕ → Bool
confirmed d now debounce =
    differs d.candidate d.stable && leb debounce (elapsed now d.candidate_since_ms)

module _ (o : Option Phase) (d : GestureDetector) (active : Bool) (now interval : ℕ)
    (out : List InputEvent) (n : ℕ) (room : n < 14) where
  expire_click-Follows :
      Follows o n now (d, out) → Follows o (n + 1) now (expire_click d active now interval out)
  unfolding expire_click phase
  expire_click-Follows f = record {
    run = ground (arith, f.run, f.short, follow-push_event o out click);
    short = ground (arith, f.short, length-push_event out click);
    fits = ground arith;
  }

  expire_click-Joinable :
      IsWellFormed now d → Joinable active interval (expire_click d active now interval out).0
  unfolding expire_click joins_pending
  expire_click-Joinable w = ground arith

  press-Follows :
      Joinable true interval d
      → d.candidate ≡ true
      → d.stable ≡ false
      → Follows o n now (d, out)
      → Follows o (n + 1) now (press d now interval out)
  unfolding press joins_pending phase
  press-Follows j up low f = record {
    run = ground (arith, f.run, f.short, follow-push_event o out off_to_on);
    short = ground (arith, f.short, length-push_event out off_to_on);
    fits = ground arith;
  }

  release-Follows :
      d.stable ≡ true → Follows o n now (d, out) → Follows o (n + 2) now (release d now out)
  unfolding release phase
  release-Follows high f = record {
    run = ground (
      arith,
      f.run,
      f.short,
      follow-push_event o out on_to_off,
      length-push_event out on_to_off,
      follow-push_event o (push_event out on_to_off) double_click,
    );
    short = ground (
      arith,
      f.short,
      length-push_event out on_to_off,
      length-push_event (push_event out on_to_off) double_click,
    );
    fits = ground arith;
  }

  settle-Follows :
      (debounce : ℕ)
      → Joinable active interval d
      → Follows o n now (d, out)
      → Follows o (n + 2) now (settle d active now debounce interval out)
  unfolding settle phase
  settle-Follows debounce j f =
      if_both (Follows o (n + 2) now) (differs active d.candidate)
        (λ _. record {
          run = ground (arith, f.run);
          short = ground (arith, f.short);
          fits = ground arith;
        })
        λ steady.
          if_both (Follows o (n + 2) now) (confirmed d now debounce)
            (λ due.
              if_both (Follows o (n + 2) now) d.candidate
                (λ up.
                  Follows-widen (n + 2) (omega arith)
                    (press-Follows (λ _. j (ground arith)) up (ground arith) f))
                (λ low. release-Follows (ground arith) f))
            (λ _. Follows-widen (n + 2) (omega arith) f)

  detect_long_press-Follows :
      (threshold : ℕ)
      → Follows o n now (d, out)
      → Follows o (n + 1) now (detect_long_press d now threshold out)
  unfolding detect_long_press phase
  detect_long_press-Follows threshold f = record {
    run = ground (arith, f.run, f.short, follow-push_event o out long_press);
    short = ground (arith, f.short, length-push_event out long_press);
    fits = ground arith;
  }

-- The events of one sample are a path of the automaton from the detector's phase before to its
-- phase after, they are at most four, and the detector stays well formed.
pub update_follows :
    (d : GestureDetector) (active : Bool) (now : ℕ) (t : Timing)
    → IsWellFormed now d
    → (follow_all (some (phase d)) (update d active now t []).1
        ≡ some (phase (update d active now t []).0))
      × (length (update d active now t []).1 ≤ 4)
      × IsWellFormed now (update d active now t []).0
unfolding update
update_follows d active now t w =
    let o = some (phase d) in
    let i = t.double_click_interval_ms in
    let r₁ = expire_click d active now i [] in
    let r₂ = settle r₁.0 active now t.debounce_ms i r₁.1 in
    let f₁ : Follows o 1 now r₁ =
      expire_click-Follows o d active now i [] 0 (omega arith)
        (record { run = refl; short = omega arith; fits = w }) in
    let f₂ : Follows o 3 now r₂ =
      settle-Follows o r₁.0 active now i r₁.1 1 (omega arith) t.debounce_ms
        (expire_click-Joinable o d active now i [] 0 (omega arith) w) f₁ in
    let f₃ : Follows o 4 now (detect_long_press r₂.0 now t.long_press_threshold_ms r₂.1) =
      detect_long_press-Follows o r₂.0 active now i r₂.1 3 (omega arith) t.long_press_threshold_ms
        f₂ in
    (f₃.run, f₃.short, f₃.fits)

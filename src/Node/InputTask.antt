-- ===== src/Node/InputTask.antt =====
-- The input task of apps/uchi-pulse-node/src/bin/uchi-pulse-node.rs. The levels of the pins are
-- given, a list for each pass of the loop, and the result is what is put into `ACTION_EVENTS`.
pub mod Mapped
mod Tests
use uchi_pulse.Base.{
  ℕ, ◌+◌, ◌-◌, ◌^◌, Bool, Option, none, some, List, [], ◌∷◌, ◌++◌, Result, ok, err, ltb,
  if◌then◌else◌,
}
use uchi_pulse.Node.Config.{PersistedNodeConfig}
use uchi_pulse.Node.Input.{InputController, has_gpio, initialize, update, new, input_config}

-- A pin's number and its level.
abbrev pub Levels : Type 0
Levels = List (ℕ × Bool)

-- The results of `initialize` are ignored.
unfoldable pub start : InputController → Levels → InputController
start c [] = c
start c ((gpio, high) ∷ pins) =
    if has_gpio c gpio
    then elim (initialize c gpio high 0) [ err _ ↦ start c pins | ok started ↦ start started pins ]
    else start c pins

unfoldable pub sample : InputController → ℕ → Bool → ℕ → InputController × List ℕ
sample c gpio high now =
    if has_gpio c gpio
    then (let (after, result) = update c gpio high now in
        elim result [ err _ ↦ (after, []) | ok r ↦ (after, r.actions) ])
    else (c, [])

-- The `for` loop over the pins.
unfoldable pub pass : InputController → Levels → ℕ → InputController × List ℕ
pass c [] now = (c, [])
pass c ((gpio, high) ∷ pins) now =
    let (after, sent) = sample c gpio high now in
    let (end, more) = pass after pins now in (end, sent ++ more)

-- `now_ms.saturating_add(10)` on a `u64`
abbrev pub later : ℕ → ℕ
later now = if ltb (now + 10) (2 ^ 64) then now + 10 else 2 ^ 64 - 1

unfoldable pub passes : InputController → List Levels → ℕ → List ℕ
passes c [] now = []
passes c (levels ∷ more) now =
    let (after, sent) = pass c levels now in sent ++ passes after more (later now)

-- `none` is the idle loop of a configuration that makes no controller.
unfoldable pub input_task : PersistedNodeConfig → Levels → List Levels → Option (List ℕ)
input_task config first levels = elim (new (input_config config)) [
  | err _ ↦ none
  | ok controller ↦ some (passes (start controller first) levels 0)
]

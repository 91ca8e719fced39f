-- ===== src/Node/InputTask/Mapped.antt =====
-- What the input task sends.
use uchi_pulse.Base.{
  ℕ, ◌≡◌, ◌≤◌, ◌∙◌, refl, sym, subst, inl, inr, Bool, true, some, List, [], ◌∷◌, ◌++◌, ok, arith,
  All, All-map, Any, Distinct, keep_if, length, Option-cases, Result-cases, Bool-cases,
}
use uchi_pulse.Common.Types.{InputEvent}
use uchi_pulse.Node.Config.{InputMapping, PersistedNodeConfig, validate, max_persisted_gpio_inputs}
use uchi_pulse.Node.Config.Valid.{validate_iff, mapping_key}
use uchi_pulse.Node.Input.{
  InputController, find_input, triggers, ids, initialize, input_config, has_gpio,
}
use uchi_pulse.Node.Input.Build.{built, built-mappings, new-validate}
use uchi_pulse.Node.Input.Dispatch.{
  detect, triggered, update_result, update_unknown, update_frame, initialize-mappings,
}
use uchi_pulse.Node.InputTask.{Levels, start, sample, pass, passes, later, input_task}

-- The action of an enabled mapping.
abbrev pub IsMapped : List InputMapping → ℕ → Type 0
IsMapped ms action = Any (λ m. (m.enabled ≡ true) × (m.action_id ≡ action)) ms

All-append : {A : Type 0} (P : A → Type 0) (xs ys : List A) → All P xs → All P ys → All P (xs ++ ys)
All-append P [] ys p q = q
All-append P (x ∷ xs) ys p q = (p.0, All-append P xs ys p.1 q)

kept-IsMapped :
    (gpio : ℕ) (e : InputEvent) (ms : List InputMapping)
    → All (IsMapped ms) (ids (keep_if (triggers gpio e) ms))
kept-IsMapped gpio e [] = tt
kept-IsMapped gpio e (m ∷ ms) =
    let rest : All (IsMapped (m ∷ ms)) (ids (keep_if (triggers gpio e) ms)) =
      All-map (ids (keep_if (triggers gpio e) ms)) (λ a p. inr p) (kept-IsMapped gpio e ms) in
    elim (Bool-cases (triggers gpio e m)) [
      | inl fires ↦ ground (arith, rest)
      | inr rests ↦ ground (arith, rest)
    ]

triggered-IsMapped :
    (gpio : ℕ) (ms : List InputMapping) (es : List InputEvent)
    → All (IsMapped ms) (triggered ms gpio es)
unfolding triggered
triggered-IsMapped gpio ms [] = tt
triggered-IsMapped gpio ms (e ∷ es) =
    All-append (IsMapped ms) (ids (keep_if (triggers gpio e) ms)) (triggered ms gpio es)
      (kept-IsMapped gpio e ms) (triggered-IsMapped gpio ms es)

start_mappings : (c : InputController) (pins : Levels) → (start c pins).mappings ≡ c.mappings
unfolding start
start_mappings c [] = refl
start_mappings c ((gpio, high) ∷ pins) = elim (Result-cases (initialize c gpio high 0)) [
  | inl (started, e) ↦ ground (
    arith,
    initialize-mappings c started gpio high 0 e,
    start_mappings started pins,
    start_mappings c pins,
  )
  | inr (failed, e) ↦ ground (arith, start_mappings c pins)
]

module _ (ms : List InputMapping) (d : Distinct mapping_key ms) where
  sample-IsMapped :
      (c : InputController) (gpio : ℕ) (high : Bool) (now : ℕ)
      → c.mappings ≡ ms
      → ((sample c gpio high now).0.mappings ≡ ms) × All (IsMapped ms) (sample c gpio high now).1
  unfolding sample
  sample-IsMapped c gpio high now same = elim (Option-cases (find_input gpio c.inputs)) [
    | inl missing ↦ ground (arith, update_unknown c gpio high now missing)
    | inr (i, found) ↦
        let (_, _, mappings, _, _) = update_frame c gpio gpio high now i found in
        let distinct = subst (λ m. Distinct mapping_key m) (sym same) d in
        let result = update_result c gpio high now i distinct found in
        let actions = triggered c.mappings gpio (detect c i high now).1 in
        let mapped =
          subst (λ m. All (IsMapped m) actions) same
            (triggered-IsMapped gpio c.mappings (detect c i high now).1) in
        let sent : has_gpio c gpio ≡ true → (sample c gpio high now).1 ≡ actions =
          λ known. ground (arith, result) in
        elim (Bool-cases (has_gpio c gpio)) [
          | inl known ↦ (
            ground (arith, mappings),
            subst (λ sending. All (IsMapped ms) sending) (sym (sent known)) mapped,
          )
          | inr unknown ↦ ground arith
        ]
  ]

  pass-IsMapped :
      (c : InputController) (pins : Levels) (now : ℕ)
      → c.mappings ≡ ms
      → ((pass c pins now).0.mappings ≡ ms) × All (IsMapped ms) (pass c pins now).1
  unfolding pass
  pass-IsMapped c [] now same = (same, tt)
  pass-IsMapped c ((gpio, high) ∷ pins) now same =
      let (after, sent) = sample c gpio high now in
      let (kept, mapped) = sample-IsMapped c gpio high now same in
      let (kept_on, more) = pass-IsMapped after pins now kept in
      (kept_on, All-append (IsMapped ms) sent (pass after pins now).1 mapped more)

  passes-IsMapped :
      (c : InputController) (levels : List Levels) (now : ℕ)
      → c.mappings ≡ ms
      → All (IsMapped ms) (passes c levels now)
  unfolding passes
  passes-IsMapped c [] now same = tt
  passes-IsMapped c (pins ∷ more) now same =
      let (kept, mapped) = pass-IsMapped c pins now same in
      let after = (pass c pins now).0 in
      All-append (IsMapped ms) (pass c pins now).1 (passes after more (later now)) mapped
        (passes-IsMapped after more (later now) kept)

-- With a validated configuration the input task runs, and whatever the levels of the pins, every
-- action that it sends is that of an enabled mapping of the configuration.
pub input_task_result :
    (c : PersistedNodeConfig) (first : Levels) (levels : List Levels)
    → validate c ≡ ok tt
    → length c.gpio_inputs ≤ max_persisted_gpio_inputs
    → (sent : List ℕ) × (input_task c first levels ≡ some sent)
      × All (IsMapped c.input_mappings) sent
unfolding input_task
input_task_result c first levels valid fits =
    let controller = built (input_config c) in
    let keeps = start_mappings controller first ∙ built-mappings c in
    let sent = passes (start controller first) levels 0 in
    (
      sent,
      ground (arith, new-validate c valid fits),
      passes-IsMapped c.input_mappings ((validate_iff c).0 valid).mappings.1
          (start controller first) levels 0 keeps,
    )

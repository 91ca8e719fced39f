-- ===== src/Hub/Action/Batch.antt =====
-- A batch of changes is applied whole or not at all.
use uchi_pulse.Base.{
  ◌≡◌, ◌≢◌, ◌↔◌, refl, true, false, Option, none, some, List, [], ◌∷◌, any, arith, ok,
  if◌then◌else◌, All, Distinct, Result-cases, inl, inr, Bool-cases, IsOk,
}
use uchi_pulse.Common.Types.{StateType, StateValue, state_type_eq, state_type_eq_iff}
use uchi_pulse.Hub.Database.{ActionStateChangeRecord}
use uchi_pulse.Hub.Action.{
  ActionStateScope, ActionStateKey, ActionStateManager, scope_eq, key_eq, lookup, insert, get,
  stage, apply_batch,
}

scope_eq_iff : (s t : ActionStateScope) → (scope_eq s t ≡ true) ↔ (s ≡ t)
unfolding scope_eq
scope_eq_iff s t = ground arith

key_eq_iff : (k l : ActionStateKey) → (key_eq k l ≡ true) ↔ (k ≡ l)
key_eq_iff k l =
    ground (arith, state_type_eq_iff k.state_type l.state_type, scope_eq_iff k.scope l.scope)

lookup-insert :
    (j k : ActionStateKey) (v : StateValue) (rows : List (ActionStateKey × StateValue))
    → lookup j (insert k v rows) ≡ (if key_eq k j then some v else lookup j rows)
unfolding insert
lookup-insert j k v [] = ground arith
lookup-insert j k v ((l, w) ∷ rows) =
    ground (arith, lookup-insert j k v rows, key_eq_iff l k, key_eq_iff l j, key_eq_iff k j)

-- The value that the changes give to a state type.
abbrev pub change_of : StateType → List ActionStateChangeRecord → Option StateValue
change_of t [] = none
change_of t (c ∷ cs) = if state_type_eq c.state_type t then some c.state_value else change_of t cs

-- What a scope's state type has after the changes of `scope`.
abbrev pub changed :
    ActionStateScope
    → List ActionStateChangeRecord
    → ActionStateManager
    → ActionStateScope
    → StateType
    → Option StateValue
changed scope cs m s t =
    if scope_eq scope s
    then elim (change_of t cs) [ some v ↦ some v | none ↦ get m s t ]
    else get m s t

absent_change :
    (t : StateType) (cs : List ActionStateChangeRecord)
    → All (λ c. t ≢ c.state_type) cs
    → change_of t cs ≡ none
absent_change t [] h = refl
absent_change t (c ∷ cs) h =
    ground (arith, h.0, absent_change t cs h.1, state_type_eq_iff c.state_type t)

-- No change is of a type that is already in `seen`, and no two are of one type.
abbrev Fresh : List StateType → List ActionStateChangeRecord → Type 0
Fresh seen cs =
    All (λ c. any (state_type_eq c.state_type) seen ≡ false) cs × Distinct (λ c. c.state_type) cs

fresh_more :
    (t : StateType) (seen : List StateType) (cs : List ActionStateChangeRecord)
    → All (λ c. any (state_type_eq c.state_type) (t ∷ seen) ≡ false) cs ↔ (
        All (λ c. t ≢ c.state_type) cs
        × All (λ c. any (state_type_eq c.state_type) seen ≡ false) cs)
fresh_more t seen [] = ground arith
fresh_more t seen (c ∷ cs) = ground (arith, fresh_more t seen cs, state_type_eq_iff c.state_type t)

module _ (scope : ActionStateScope) where
  abbrev key_of : ActionStateChangeRecord → ActionStateKey
  key_of c = record { scope = scope; state_type = c.state_type }

  stage-Fresh :
      (seen : List StateType) (staged : List (ActionStateKey × StateValue))
      (cs : List ActionStateChangeRecord) (after : List (ActionStateKey × StateValue))
      → stage scope seen staged cs ≡ ok after
      → Fresh seen cs
  unfolding stage
  stage-Fresh seen staged [] after h = (tt, tt)
  stage-Fresh seen staged (c ∷ cs) after h =
      let more =
        stage-Fresh (c.state_type ∷ seen) (insert (key_of c) c.state_value staged) cs after in
      let split = fresh_more c.state_type seen cs in
      elim (Bool-cases (any (state_type_eq c.state_type) seen)) [
        | inl repeated ↦ ground arith
        | inr new ↦
            let held = more (ground arith) in
            let apart = split.0 held.0 in ((new, apart.1), (apart.0, held.1))
      ]

  stage_total :
      (seen : List StateType) (staged : List (ActionStateKey × StateValue))
      (cs : List ActionStateChangeRecord)
      → Fresh seen cs
      → IsOk (stage scope seen staged cs)
  unfolding stage
  stage_total seen staged [] h = tt
  stage_total seen staged (c ∷ cs) h =
      let rest =
        stage_total (c.state_type ∷ seen) (insert (key_of c) c.state_value staged) cs
          ((fresh_more c.state_type seen cs).1 (h.1.0, h.0.1), h.1.1) in
      ground arith

  stage_result :
      (seen : List StateType) (staged : List (ActionStateKey × StateValue))
      (cs : List ActionStateChangeRecord) (after : List (ActionStateKey × StateValue))
      (s : ActionStateScope) (t : StateType)
      → stage scope seen staged cs ≡ ok after
      → lookup (record { scope = s; state_type = t }) after
        ≡ changed scope cs (record { values = staged }) s t
  unfolding stage
  stage_result seen staged [] after s t h = ground arith
  stage_result seen staged (c ∷ cs) after s t h =
      let fresh = stage-Fresh seen staged (c ∷ cs) after h in
      ground (
        arith,
        fresh.0,
        absent_change c.state_type cs fresh.1.0,
        stage_result (c.state_type ∷ seen) (insert (key_of c) c.state_value staged) cs after s t,
        lookup-insert (record { scope = s; state_type = t }) (key_of c) c.state_value staged,
        scope_eq_iff scope s,
        state_type_eq_iff c.state_type t,
      )

nothing_seen :
    (cs : List ActionStateChangeRecord) → All (λ c. any (state_type_eq c.state_type) [] ≡ false) cs
nothing_seen [] = tt
nothing_seen (c ∷ cs) = (refl, nothing_seen cs)

-- `apply_batch` succeeds exactly where no two changes are of one state type.
pub apply_batch_iff :
    (m : ActionStateManager) (scope : ActionStateScope) (cs : List ActionStateChangeRecord)
    → ((apply_batch m scope cs).0 ≡ ok tt) ↔ Distinct (λ c. c.state_type) cs
unfolding apply_batch
apply_batch_iff m scope cs = elim (Result-cases (stage scope [] m.values cs)) [
  | inr (e, failed) ↦ (
    λ h. ground arith,
    λ h. let total = stage_total scope [] m.values cs (nothing_seen cs, h) in ground arith,
  )
  | inl (after, staged) ↦
      (λ h. (stage-Fresh scope [] m.values cs after staged).1, λ h. ground arith)
]

-- Where `apply_batch` succeeds, each listed state type of the scope has its new value and all else
-- is as before; where it fails, the state is as before.
pub apply_batch_result :
    (m : ActionStateManager) (scope : ActionStateScope) (cs : List ActionStateChangeRecord)
    → ((apply_batch m scope cs).0 ≡ ok tt
        → (s : ActionStateScope) (t : StateType)
        → get (apply_batch m scope cs).1 s t ≡ changed scope cs m s t)
      × ((apply_batch m scope cs).0 ≢ ok tt → (apply_batch m scope cs).1 ≡ m)
unfolding apply_batch
apply_batch_result m scope cs = elim (Result-cases (stage scope [] m.values cs)) [
  | inr (e, failed) ↦ (λ h s t. ground arith, λ h. ground arith)
  | inl (after, staged) ↦ (
    λ h s t. ground (arith, stage_result scope [] m.values cs after s t staged),
    λ h. ground arith,
  )
]

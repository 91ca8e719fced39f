-- ===== src/Hub/Cdc/Valid.antt =====
-- What `validate_config` accepts, said without its loops and sets.
use uchi_pulse.Base.{
  ℕ, ◌≡◌, ◌≢◌, ◌↔◌, refl, false, Option, none, some, List, [], ◌∷◌, map, any, ◌==◌, ok, is_blank,
  All, Distinct, arith, Result-cases, inl, inr, All-map,
}
use uchi_pulse.Common.Types.{TargetType, StateType, state_type_eq, state_type_eq_iff}
use uchi_pulse.Hub.Cdc.{
  StateChangeConfig, ActionConfig, FamilyNotificationDestinationConfig, ParentConfig, unique_ids,
  check_target, check_changes, check_targets, check_actions, check_destinations, validate_config,
}
use uchi_pulse.Hub.Cdc.Ids.{
  IsOneOf, any_iff, unseen_more, unique_ids_iff, no_ids, unique_ids_members, Distinct-map,
  unique_ids_total,
}

-- A common action names no family, and a family action names one of the families.
abbrev pub TargetFits : List ℕ → TargetType → Option ℕ → Type 0
TargetFits families TargetType.common target = target ≡ none
TargetFits families TargetType.family none = ⊥
TargetFits families TargetType.family (some n) = IsOneOf families n

abbrev pub ActionFits : List ℕ → ActionConfig → Type 0
ActionFits families a =
    TargetFits families a.target_type a.target_family_id
    × Distinct (λ c. c.state_type) a.state_changes
    × All (IsOneOf families) a.notification_targets

abbrev pub DestinationFits : List ℕ → FamilyNotificationDestinationConfig → Type 0
DestinationFits families d =
    IsOneOf families d.family_id
    × (is_blank d.notification_type ≡ false)
    × (is_blank d.destination ≡ false)

abbrev pub family_ids : ParentConfig → List ℕ
family_ids c = map (λ f. f.family_id) c.families

pub record IsValid (c : ParentConfig) : Type 0 where
  pub families : Distinct (λ n. n) (family_ids c)
  pub actions : Distinct (λ a. a.action_id) c.actions
  pub each_action : All (ActionFits (family_ids c)) c.actions
  pub each_destination : All (DestinationFits (family_ids c)) c.family_notification_destinations

module _ (families : List ℕ) where
  check_target_iff :
      (id : ℕ) (t : TargetType) (o : Option ℕ)
      → (check_target families id t o ≡ ok tt) ↔ TargetFits families t o
  unfolding check_target
  check_target_iff id TargetType.family (some n) = ground (arith, any_iff n families)
  check_target_iff id TargetType.family none = ground arith
  check_target_iff id TargetType.common (some n) = ground arith
  check_target_iff id TargetType.common none = ground arith

  check_targets_iff :
      (id : ℕ) (ns : List ℕ) → (check_targets id families ns ≡ ok tt) ↔ All (IsOneOf families) ns
  unfolding check_targets
  check_targets_iff id [] = ground arith
  check_targets_iff id (n ∷ ns) = ground (arith, any_iff n families, check_targets_iff id ns)

  check_destinations_iff :
      (ds : List FamilyNotificationDestinationConfig)
      → (check_destinations families ds ≡ ok tt) ↔ All (DestinationFits families) ds
  unfolding check_destinations
  check_destinations_iff [] = ground arith
  check_destinations_iff (d ∷ ds) =
      ground (arith, any_iff d.family_id families, check_destinations_iff ds)

unseen_types :
    (t : StateType) (seen : List StateType) (cs : List StateChangeConfig)
    → All (λ c. any (state_type_eq c.state_type) (t ∷ seen) ≡ false) cs ↔ (
        All (λ c. t ≢ c.state_type) cs
        × All (λ c. any (state_type_eq c.state_type) seen ≡ false) cs)
unseen_types t seen [] = ground arith
unseen_types t seen (c ∷ cs) =
    ground (arith, unseen_types t seen cs, state_type_eq_iff c.state_type t)

check_changes_iff :
    (id : ℕ) (seen : List StateType) (cs : List StateChangeConfig)
    → (check_changes id seen cs ≡ ok tt) ↔ (
        All (λ c. any (state_type_eq c.state_type) seen ≡ false) cs
        × Distinct (λ c. c.state_type) cs)
unfolding check_changes
check_changes_iff id seen [] = ground arith
check_changes_iff id seen (c ∷ cs) =
    ground (arith, unseen_types c.state_type seen cs, check_changes_iff id (c.state_type ∷ seen) cs)

nothing_seen :
    (cs : List StateChangeConfig) → All (λ c. any (state_type_eq c.state_type) [] ≡ false) cs
nothing_seen [] = tt
nothing_seen (c ∷ cs) = (refl, nothing_seen cs)

check_actions_iff :
    (families seen : List ℕ) (xs : List ActionConfig)
    → (check_actions families seen xs ≡ ok tt) ↔ (
        All (λ a. any (λ m. a.action_id == m) seen ≡ false) xs
        × Distinct (λ a. a.action_id) xs
        × All (ActionFits families) xs)
unfolding check_actions
check_actions_iff families seen [] = ground arith
check_actions_iff families seen (a ∷ xs) = ground (
  arith,
  unseen_more (λ (b : ActionConfig). b.action_id) a.action_id seen xs,
  check_target_iff families a.action_id a.target_type a.target_family_id,
  check_changes_iff a.action_id [] a.state_changes,
  nothing_seen a.state_changes,
  check_targets_iff families a.action_id a.notification_targets,
  check_actions_iff families (a.action_id ∷ seen) xs,
)

module _ (fs gs : List ℕ) (more : (n : ℕ) → IsOneOf fs n → IsOneOf gs n) where
  target_moves : (t : TargetType) (o : Option ℕ) → TargetFits fs t o → TargetFits gs t o
  target_moves TargetType.common o h = h
  target_moves TargetType.family none h = h
  target_moves TargetType.family (some n) h = more n h

  actions_move : (xs : List ActionConfig) → All (ActionFits fs) xs → All (ActionFits gs) xs
  actions_move xs = All-map xs (λ a h. (
    target_moves a.target_type a.target_family_id h.0,
    h.1,
    All-map a.notification_targets more h.2,
  ))

  destinations_move :
      (ds : List FamilyNotificationDestinationConfig)
      → All (DestinationFits fs) ds
      → All (DestinationFits gs) ds
  destinations_move ds = All-map ds (λ d h. (more d.family_id h.0, h.1, h.2))

-- `validate_config` accepts exactly the configurations of which `IsValid` holds: the ids of the
-- families and those of the actions are distinct, each action has a fitting target, changes of
-- distinct state types and notification targets that are families, and each destination is of a
-- family and has a type and a text that are not blank.
pub validate_config_iff : (c : ParentConfig) → (validate_config c ≡ ok tt) ↔ IsValid c
unfolding validate_config
validate_config_iff c = elim (Result-cases (unique_ids [] (family_ids c))) [
  | inr (e, failed) ↦ (
    λ h. ground arith,
    λ valid.
        let unique =
          (unique_ids_iff [] (family_ids c)).1 (no_ids (λ n. n) (family_ids c), valid.families) in
        ground arith,
  )
  | inl (r, found) ↦ (
    λ h.
        let checked : check_actions r [] c.actions ≡ ok tt = ground arith in
        let destined : check_destinations r c.family_notification_destinations ≡ ok tt =
          ground arith in
        let parts = (check_actions_iff r [] c.actions).0 checked in
        let back = λ (n : ℕ). (unique_ids_members (family_ids c) r n found).0 in
        record {
          families = ((unique_ids_iff [] (family_ids c)).0 (ground arith)).1;
          actions = parts.1;
          each_action = actions_move r (family_ids c) back c.actions parts.2;
          each_destination =
              destinations_move r (family_ids c) back c.family_notification_destinations
                ((check_destinations_iff r c.family_notification_destinations).0 destined);
        },
    λ valid.
        let forth = λ (n : ℕ). (unique_ids_members (family_ids c) r n found).1 in
        let ids =
          unique_ids_total (map (λ a. a.action_id) c.actions)
            (Distinct-map (λ a. a.action_id) c.actions valid.actions) in
        let checked = (check_actions_iff r [] c.actions).1 (
          no_ids (λ a. a.action_id) c.actions,
          valid.actions,
          actions_move (family_ids c) r forth c.actions valid.each_action,
        ) in
        let destined = (check_destinations_iff r c.family_notification_destinations).1 (
          destinations_move (family_ids c) r forth c.family_notification_destinations
            valid.each_destination) in
        ground (arith, ids.1),
  )
]

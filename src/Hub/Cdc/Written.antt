-- ===== src/Hub/Cdc/Written.antt =====
-- The statements of `save_config`, one after the other, and the tables that they lead to.
use uchi_pulse.Base.{
  ℕ, ◌+◌, ◌≡◌, refl, sym, ap, ◌∙◌, true, not, some, List, [], ◌∷◌, ◌++◌, map, keep_if, length,
  Result, ok, arith, append-nil, append_assoc, subst,
}
use uchi_pulse.Store.Tables.{
  FamilyRow, ActionRow, ChangeRow, SettingRow, TargetRow, DestinationRow, Tables,
}
use uchi_pulse.Store.Sqlite.{Change}
use uchi_pulse.Store.Sqlite.Atomic.{apply_all}
use uchi_pulse.Store.Sqlite.Steps.{Leads, one_write, many_writes}
use uchi_pulse.Store.Statements.{
  add_family, add_destination, add_setting, add_target, drop_actions, drop_destinations,
  drop_families,
}
use uchi_pulse.Hub.Cdc.{ParentConfig, ActionConfig, FamilyNotificationDestinationConfig}
use uchi_pulse.Hub.Cdc.Save.{
  family_row, action_row, change_row, setting_rows, target_row, destination_row, actions_steps,
  clear_steps, config_steps,
}

abbrev pub gathered : {A B : Type 0} → (A → List B) → List A → List B
gathered f [] = []
gathered f (x ∷ xs) = f x ++ gathered f xs

abbrev pub numbered : ℕ → List FamilyNotificationDestinationConfig → List DestinationRow
numbered n [] = []
numbered n (d ∷ ds) = record (destination_row d) { id = n } ∷ numbered (n + 1) ds

-- A configuration takes the place of the old one; devices and events stay.
abbrev pub replaced : ParentConfig → Tables → Tables
replaced config t = record t {
  families = map family_row config.families;
  actions = map action_row config.actions;
  changes = gathered (λ a. map (change_row a.action_id) a.state_changes) config.actions;
  settings = gathered setting_rows config.actions;
  targets = gathered (λ a. map (target_row a.action_id) a.notification_targets) config.actions;
  destinations = numbered t.next_destination config.family_notification_destinations;
  next_destination = t.next_destination + length config.family_notification_destinations;
}

abbrev pub cleared : Tables → Tables
cleared t = record t {
  families = [];
  actions = [];
  changes = [];
  settings = [];
  targets = [];
  destinations = [];
}

none_left : {A : Type 0} (rows : List A) → keep_if (λ _. not true) rows ≡ []
none_left [] = refl
none_left (r ∷ rows) = none_left rows

-- The rows of some actions after the rows that are there.
abbrev ActionRows : Type 0
ActionRows = List ActionRow × List ChangeRow × List SettingRow × List TargetRow

abbrev with_actions : Tables → ActionRows → Tables
with_actions t rows = record t {
  actions = rows.0;
  changes = rows.1;
  settings = rows.2;
  targets = rows.3;
}

abbrev more_rows : Tables → List ActionConfig → ActionRows
more_rows t xs = (
  t.actions ++ map action_row xs,
  t.changes ++ gathered (λ a. map (change_row a.action_id) a.state_changes) xs,
  t.settings ++ gathered setting_rows xs,
  t.targets ++ gathered (λ a. map (target_row a.action_id) a.notification_targets) xs,
)

map_same : {A : Type 0} (xs : List A) → map (λ x. x) xs ≡ xs
map_same [] = refl
map_same (x ∷ xs) = ap (λ ys. x ∷ ys) (map_same xs)

module _ (E : Type 0) where
  rows_cleared :
      (rest : List (Result E Change)) (t after : Tables)
      → Leads {E = E} (clear_steps ++ rest) t after
      → Leads rest (cleared t) after
  rows_cleared rest t after h =
      let third = one_write _ _ _ after (one_write _ _ _ after (one_write _ _ t after h)) in
      let emptied =
        subst
          (λ (rows : List TargetRow × List SettingRow × List ChangeRow).
            Leads
              (ok (drop_actions (λ _. true))
                ∷ ok (drop_destinations (λ _. true))
                ∷ ok (drop_families (λ _. true))
                ∷ rest)
              (record t { targets = rows.0; settings = rows.1; changes = rows.2 }) after)
          (λ i. (none_left t.targets i, none_left t.settings i, none_left t.changes i)) third in
      let without_actions = one_write _ _ _ after (one_write _ _ _ after emptied) in
      let unsent =
        subst
          (λ (rows : List DestinationRow).
            Leads (ok (drop_families (λ _. true)) ∷ rest)
              (record t {
                targets = [];
                settings = [];
                changes = [];
                actions = keep_if (λ _. not true) t.actions;
                destinations = rows;
              })
              after)
          (none_left t.destinations) without_actions in
      subst
        (λ (rows : List ActionRow × List FamilyRow).
          Leads rest (record (cleared t) { actions = rows.0; families = rows.1 }) after)
        (λ i. (none_left t.actions i, none_left t.families i)) (one_write _ _ _ after unsent)

  actions_written :
      (xs : List ActionConfig) (rest : List (Result E Change)) (t after : Tables)
      → Leads {E = E} (actions_steps xs rest) t after
      → Leads rest (with_actions t (more_rows t xs)) after
  actions_written [] rest t after h =
      subst (λ rows. Leads rest (with_actions t rows) after)
        (sym (λ i. (
          append-nil t.actions i,
          append-nil t.changes i,
          append-nil t.settings i,
          append-nil t.targets i,
        )))
        h
  actions_written (a ∷ xs) rest t after h =
      let added = one_write _ _ t after h in
      let sent_targets =
        map (λ n. ok (add_target (target_row a.action_id n))) a.notification_targets
        ++ actions_steps xs rest in
      let changes = t.changes ++ map (change_row a.action_id) a.state_changes in
      let changed =
        many_writes
          (λ x u. (1, record u { changes = u.changes ++ (change_row a.action_id x ∷ []) }))
          (λ rows. record t { actions = t.actions ++ (action_row a ∷ []); changes = rows })
          (change_row a.action_id) (λ x rows. refl) a.state_changes t.changes
          (map (λ row. ok (add_setting row)) (setting_rows a) ++ sent_targets) after added in
      let settings = t.settings ++ setting_rows a in
      let noted =
        subst
          (λ rows.
            Leads sent_targets
              (record t {
                actions = t.actions ++ (action_row a ∷ []);
                changes = changes;
                settings = t.settings ++ rows;
              })
              after)
          (map_same (setting_rows a))
          (many_writes (λ x u. (1, record u { settings = u.settings ++ (x ∷ []) }))
            (λ rows. record t {
              actions = t.actions ++ (action_row a ∷ []);
              changes = changes;
              settings = rows;
            })
            (λ x. x) (λ x rows. refl) (setting_rows a) t.settings sent_targets after changed) in
      let aimed =
        many_writes
          (λ x u. (1, record u { targets = u.targets ++ (target_row a.action_id x ∷ []) }))
          (λ rows. record t {
            actions = t.actions ++ (action_row a ∷ []);
            changes = changes;
            settings = settings;
            targets = rows;
          })
          (target_row a.action_id) (λ x rows. refl) a.notification_targets t.targets
          (actions_steps xs rest) after noted in
      subst (λ rows. Leads rest (with_actions t rows) after)
        (λ i. (
          append_assoc t.actions (action_row a ∷ []) (map action_row xs) i,
          append_assoc t.changes (map (change_row a.action_id) a.state_changes)
              (gathered (λ x. map (change_row x.action_id) x.state_changes) xs) i,
          append_assoc t.settings (setting_rows a) (gathered setting_rows xs) i,
          append_assoc t.targets (map (target_row a.action_id) a.notification_targets)
              (gathered (λ x. map (target_row x.action_id) x.notification_targets) xs) i,
        ))
        (actions_written xs rest _ after aimed)

  destinations_written :
      (ds : List FamilyNotificationDestinationConfig) (t after : Tables)
      → Leads {E = E} (map (λ d. ok (add_destination (destination_row d))) ds) t after
      → after ≡ record t {
        destinations = t.destinations ++ numbered t.next_destination ds;
        next_destination = t.next_destination + length ds;
      }
  destinations_written [] t after h =
      let same : t ≡ after = let made = h.applied in ground arith in
      let rows = sym (append-nil t.destinations) in
      let next : t.next_destination ≡ t.next_destination + 0 = omega arith in
      sym same ∙ (λ i. record t { destinations = rows i; next_destination = next i })
  destinations_written (d ∷ ds) t after h =
      let first : DestinationRow = record (destination_row d) { id = t.next_destination } in
      let rows = append_assoc t.destinations (first ∷ []) (numbered (t.next_destination + 1) ds) in
      let next : t.next_destination + 1 + length ds ≡ t.next_destination + length (d ∷ ds) =
        omega arith in
      destinations_written ds _ after (one_write _ _ t after h)
      ∙ (λ i. record t { destinations = rows i; next_destination = next i })

  config_written :
      (config : ParentConfig) (t after : Tables)
      → Leads {E = E} (config_steps config) t after
      → after ≡ replaced config t
  unfolding config_steps
  config_written config t after h =
      let destined =
        map (λ d. ok (add_destination (destination_row d)))
          config.family_notification_destinations in
      let emptied =
        rows_cleared
          (map (λ f. ok (add_family (family_row f))) config.families
            ++ actions_steps config.actions destined)
          t after h in
      let families =
        many_writes (λ x u. (1, record u { families = u.families ++ (family_row x ∷ []) }))
          (λ rows. record (cleared t) { families = rows }) family_row (λ x rows. refl)
          config.families [] (actions_steps config.actions destined) after emptied in
      destinations_written config.family_notification_destinations _ after
        (actions_written config.actions destined _ after families)

  -- The steps of a configuration, if the constraints allow them all, put it in place of the old one.
  pub steps_replace :
      (config : ParentConfig) (t after : Tables)
      → apply_all {E = E} (config_steps config) t ≡ some after
      → after ≡ replaced config t
  steps_replace config t after h = config_written config t after (record { applied = h })

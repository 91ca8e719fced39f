-- ===== src/Hub/Cdc/Load.antt =====
-- apps/uchi-pulse-hub/src/cdc.rs: a configuration is put together from several queries.
use uchi_pulse.Base.{false, none, some, List, [], ◌∷◌, ◌++◌, map, Result, ok, ◌>>=◌, collect}
use uchi_pulse.Store.Sqlite.{Sqlite}
use uchi_pulse.Hub.Database.{ActionRecord}
use uchi_pulse.Hub.Database.Values.{DatabaseError}
use uchi_pulse.Hub.Database.Queries.{
  list_families, list_actions, list_action_state_changes, get_notification_setting,
  list_notification_targets, list_family_notification_destinations,
}
use uchi_pulse.Hub.Cdc.{
  ParentConfig, FamilyConfig, ActionConfig, FamilyNotificationDestinationConfig,
}

module _ {Conn Failure : Type 0} (sqlite : Sqlite Conn Failure) (c : Conn) where
  unfoldable pub load_action : ActionRecord → Result (DatabaseError Failure) ActionConfig
  load_action action = do
    changes ← list_action_state_changes sqlite c action.action_id
    notification ← get_notification_setting sqlite c action.action_id
    targets ← list_notification_targets sqlite c action.action_id
    ok (record {
      action_id = action.action_id;
      action_name = action.action_name;
      target_type = action.target_type;
      target_family_id = action.target_family_id;
      web_message = action.web_message;
      enabled = action.enabled;
      state_changes =
          map (λ r. record { state_type = r.state_type; state_value = r.state_value }) changes;
      notification_enabled = elim notification [
        | none ↦ false
        | some setting ↦ setting.notification_enabled
      ];
      notification_message = elim notification [
        | none ↦ none
        | some setting ↦ setting.notification_message
      ];
      notification_targets = map (λ r. r.family_id) targets;
    })

  -- The loop over the families.
  unfoldable pub load_destinations :
      List FamilyConfig → Result (DatabaseError Failure) (List FamilyNotificationDestinationConfig)
  load_destinations [] = ok []
  load_destinations (family ∷ rest) = do
    rows ← list_family_notification_destinations sqlite c family.family_id
    more ← load_destinations rest
    ok (
        map
          (λ r. record {
            family_id = r.family_id;
            notification_type = r.notification_type;
            destination = r.destination;
            enabled = r.enabled;
          })
          rows
        ++ more)

  unfoldable pub load_config : Result (DatabaseError Failure) ParentConfig
  load_config = do
    family_records ← list_families sqlite c
    action_records ← list_actions sqlite c
    actions ← collect load_action action_records
    let families : List FamilyConfig =
        map
          (λ r. record {
            family_id = r.family_id;
            display_name = r.display_name;
            enabled = r.enabled;
          })
          family_records
    destinations ← load_destinations families
    ok (record {
      families = families;
      actions = actions;
      family_notification_destinations = destinations;
    })

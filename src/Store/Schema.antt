-- ===== src/Store/Schema.antt =====
-- The constraints that the schema of migrations.rs declares, as one test of the tables.
use uchi_pulse.Base.{
  ℕ, String, str_eq, Bool, true, ◌&&◌, not, none, some, List, [], ◌∷◌, ◌==◌, any, all, is_empty,
  leb,
}
use uchi_pulse.Store.Tables.{ActionRow, ChangeRow, Tables}

-- `PRIMARY KEY`, `UNIQUE`: no two rows agree.
unfoldable pub unique_by : {A : Type 0} → (A → A → Bool) → List A → Bool
unique_by same [] = true
unique_by same (x ∷ xs) = not (any (same x) xs) && unique_by same xs

-- `CHECK (enabled IN (0, 1))`
abbrev pub is_flag : ℕ → Bool
is_flag n = leb n 1

abbrev pub has_device : Tables → String → Bool
has_device t id = any (λ d. str_eq d.device_id id) t.devices

abbrev pub has_family : Tables → ℕ → Bool
has_family t n = any (λ f. f.family_id == n) t.families

abbrev pub has_action : Tables → ℕ → Bool
has_action t n = any (λ a. a.action_id == n) t.actions

-- The two CHECKs and the FOREIGN KEY of `actions`.
unfoldable pub action_ok : Tables → ActionRow → Bool
action_ok t a = is_flag a.enabled && (elim a.target_family_id [
  | some n ↦ str_eq a.target_type "FAMILY" && has_family t n
  | none ↦ str_eq a.target_type "COMMON"
])

unfoldable pub change_ok : Tables → ChangeRow → Bool
change_ok t r =
    not (is_empty r.state_type) && not (is_empty r.state_value) && has_action t r.action_id

unfoldable pub is_consistent : Tables → Bool
unfolding unique_by action_ok change_ok
is_consistent t =
    unique_by (λ a b. str_eq a.device_id b.device_id) t.devices
    && all (λ d. is_flag d.enabled) t.devices
    && unique_by (λ a b. a.family_id == b.family_id) t.families
    && all (λ f. is_flag f.enabled) t.families
    && unique_by (λ a b. a.action_id == b.action_id) t.actions
    && all (action_ok t) t.actions
    && unique_by (λ a b. a.action_id == b.action_id && str_eq a.state_type b.state_type) t.changes
    && all (change_ok t) t.changes
    && unique_by (λ a b. a.action_id == b.action_id) t.settings
    && all (λ s. is_flag s.notification_enabled && has_action t s.action_id) t.settings
    && unique_by (λ a b. a.action_id == b.action_id && a.family_id == b.family_id) t.targets
    && all (λ r. has_action t r.action_id && has_family t r.family_id) t.targets
    && unique_by (λ a b. a.id == b.id) t.destinations
    && all (λ d. is_flag d.enabled && has_family t d.family_id) t.destinations
    && unique_by (λ a b. a.id == b.id) t.events
    && unique_by (λ a b. str_eq a.device_id b.device_id && str_eq a.event_id b.event_id) t.events
    && all (λ e. has_device t e.device_id) t.events

-- ===== src/Common/Types.antt =====
-- crates/uchi-pulse-common/src/types.rs, and the enumerations of action.rs and udp.rs.
-- `heapless::String<N>` is a native text; `text` is the only way in, and it checks the byte length.
use Prim.Native.String.{len}
use uchi_pulse.Base.{
  ℕ, ◌≡◌, ◌↔◌, arith, Bool, true, false, String, leb, if◌then◌else◌, Result, ok, err,
}

pub data TextError : Type 0 where
  too_long : TextError

abbrev pub device_id_capacity : ℕ
device_id_capacity = 64

abbrev pub event_id_capacity : ℕ
event_id_capacity = 128

abbrev pub request_id_capacity : ℕ
request_id_capacity = 64

abbrev pub command_name_capacity : ℕ
command_name_capacity = 32

-- `push_str` into an empty string of capacity `n` bytes.
unfoldable pub text : ℕ → String → Result TextError String
text n value = if leb (len value) n then ok value else err too_long

pub data InputEvent : Type 0 where
  off_to_on on_to_off click double_click long_press : InputEvent

unfoldable pub event_eq : InputEvent → InputEvent → Bool
event_eq off_to_on off_to_on = true
event_eq on_to_off on_to_off = true
event_eq click click = true
event_eq double_click double_click = true
event_eq long_press long_press = true
event_eq _ _ = false

pub data TargetType : Type 0 where
  family common : TargetType

pub data StateType : Type 0 where
  entry_permission meal_notice snack_notice help_notice mailbox : StateType

unfoldable pub state_type_eq : StateType → StateType → Bool
state_type_eq entry_permission entry_permission = true
state_type_eq meal_notice meal_notice = true
state_type_eq snack_notice snack_notice = true
state_type_eq help_notice help_notice = true
state_type_eq mailbox mailbox = true
state_type_eq _ _ = false

pub state_type_eq_iff : (s t : StateType) → (state_type_eq s t ≡ true) ↔ (s ≡ t)
unfolding state_type_eq
state_type_eq_iff s t = ground arith

pub data StateValue : Type 0 where
  unset on off okay ng meeting : StateValue

-- ===== src/Desktop/Labels.antt =====
-- apps/uchi-pulse-settings/src/labels.rs: the names of states and of their values. The labels are for
-- the windows, and the texts of the source.
use uchi_pulse.Base.{String, str_eq, Bool, List, [], ◌∷◌, none, some, find, any, if◌then◌else◌}

abbrev Names : Type 0
Names = List (String × String)

unfoldable pub states : Names
states =
    ("MEAL_NOTICE", "ご飯のお知らせ")
    ∷ ("SNACK_NOTICE", "おやつのお知らせ")
    ∷ ("HELP_NOTICE", "お手伝いのお願い")
    ∷ ("ENTRY_PERMISSION", "部屋に入ってよいか")
    ∷ ("MAILBOX", "ポストへの投函")
    ∷ []

-- The label of a code, or the code itself.
abbrev label_in : Names → String → String
label_in names key = elim (find (λ entry. str_eq entry.0 key) names) [
  | none ↦ key
  | some entry ↦ entry.1
]

abbrev pub state_label : String → String
unfolding states
state_label key = label_in states key

unfoldable pub values : String → Names
values state =
    if str_eq state "ENTRY_PERMISSION"
    then ("UNSET", "未設定") ∷ ("OK", "入室できます") ∷ ("NG", "今は入室できません") ∷ ("MEETING", "会議中です") ∷ []
    else if str_eq state "MAILBOX"
    then ("ON", "届いています") ∷ ("OFF", "確認しました") ∷ []
    else ("ON", "お知らせする") ∷ ("OFF", "お知らせを解除する") ∷ []

abbrev pub value_label : String → String → String
value_label state key = label_in (values state) key

-- `iter().any(|(code, _)| *code == key)`
abbrev pub has_code : Names → String → Bool
has_code names key = any (λ entry. str_eq entry.0 key) names

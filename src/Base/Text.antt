-- ===== src/Base/Text.antt =====
-- Texts as lists of code points, and the parts of Rust's `str` that the program uses.
use Prim.Native.Nat.{ℕ, ◌+◌, ◌*◌, ◌-◌}
use Prim.Native.Char.{code}
use Prim.Native.String.{String}
use mathlib.Core.Bool.{Bool, ◌&&◌, ◌||◌}
use mathlib.Core.Option.{Option, none, some}
use mathlib.Core.List.{List, [], ◌∷◌}
use text.Mathlib.Text.{◌==◌ as str_eq}
use uchi_pulse.Base.Tests.{leb, ◌==◌, if◌then◌else◌}
use uchi_pulse.Base.Lists.{all}

abbrev pub codes : String → List ℕ
codes String.[] = []
codes (String.◌∷◌ c s) = code c ∷ codes s

-- `str::is_empty`
abbrev pub is_empty : String → Bool
is_empty s = str_eq s ""

-- `char::is_whitespace`: the Unicode property White_Space.
unfoldable pub is_whitespace : ℕ → Bool
is_whitespace c =
    (leb 9 c && leb c 13)
    || c == 32
    || c == 0x85
    || c == 0xa0
    || c == 0x1680
    || (leb 0x2000 c && leb c 0x200a)
    || c == 0x2028
    || c == 0x2029
    || c == 0x202f
    || c == 0x205f
    || c == 0x3000

-- `s.trim().is_empty()`
unfoldable pub is_blank : String → Bool
unfolding is_whitespace
is_blank s = all is_whitespace (codes s)

-- One more character in front of the parts of the rest.
abbrev pub split_step : Bool → ℕ → List (List ℕ) → List (List ℕ)
split_step is_sep c [] = (c ∷ []) ∷ []
split_step is_sep c (p ∷ ps) = if is_sep then [] ∷ p ∷ ps else (c ∷ p) ∷ ps

-- `str::split`
unfoldable pub split : ℕ → List ℕ → List (List ℕ)
split sep [] = [] ∷ []
split sep (c ∷ cs) = split_step (c == sep) c (split sep cs)

-- The digits of `str::parse::<u8>`: `none` on a character that is no digit, and on overflow.
unfoldable pub parse_digits : ℕ → List ℕ → Option ℕ
parse_digits acc [] = some acc
parse_digits acc (c ∷ cs) =
    let v = acc * 10 + (c - b'0') in
    let rest = parse_digits v cs in if leb b'0' c && leb c b'9' && leb v 255 then rest else none

-- `str::parse::<u8>`: a leading `+` is allowed before a digit.
unfoldable pub parse_u8 : List ℕ → Option ℕ
unfolding parse_digits
parse_u8 [] = none
parse_u8 (c ∷ []) = parse_digits 0 (c ∷ [])
parse_u8 (c ∷ d ∷ cs) = if c == b'+' then parse_digits 0 (d ∷ cs) else parse_digits 0 (c ∷ d ∷ cs)

-- ===== src/Common/Codec.antt =====
-- crates/uchi-pulse-common/src/codec.rs: framing around serde_json_core, which is not under the
-- repository and is a parameter: `to_slice` writes a value into a buffer of a given size, and
-- `from_slice` reads a value off the front of a payload with the number of bytes that it used.
-- A destination buffer is its size, and what `encode` returns is the part that it has written.
pub mod Lines
mod Tests
use uchi_pulse.Base.{
  ℕ, ◌≤◌, ◌≡◌, Option, none, some, List, [], ◌∷◌, ◌++◌, Result, ok, err, ◌>>=◌, ok_or, length, ltb,
  ◌==◌, if◌then◌else◌, Bool, true, false, String, codes, All, ◌≢◌,
}

pub data CodecError : Type 0 where
  buffer_too_small invalid_json missing_line_feed trailing_data : CodecError

pub record Json (A : Type 0) : Type 0 where
  pub to_slice : A → ℕ → Option (List ℕ)
  pub from_slice : List ℕ → Option (A × ℕ)

-- A text that JSON writes as it stands: no control character, quotation mark or backslash. The
-- writer escapes those and the reader does not undo it.
abbrev pub IsPlain : String → Type 0
IsPlain s = All (λ c. (32 ≤ c) × (c ≢ 34) × (c ≢ 92)) (codes s)

-- The documented behaviour that a round trip needs: a written value fits its buffer, and where its
-- texts need no escape, reading what was written gives the value back and uses all of it.
pub record IsFaithful {A : Type 0} (json : Json A) (Plain : A → Type 0) : Type 0 where
  pub fits : (a : A) (size : ℕ) (out : List ℕ) → json.to_slice a size ≡ some out → length out ≤ size
  pub reads :
      (a : A) (size : ℕ) (out : List ℕ)
      → Plain a
      → json.to_slice a size ≡ some out
      → json.from_slice out ≡ some (a, length out)

-- `line.last() == Some(&b'\n')`, and the line without its last byte.
unfoldable pub ends_with_lf : List ℕ → Bool
ends_with_lf [] = false
ends_with_lf (b ∷ []) = b == 10
ends_with_lf (b ∷ c ∷ bs) = ends_with_lf (c ∷ bs)

unfoldable pub without_last : List ℕ → List ℕ
without_last [] = []
without_last (b ∷ []) = []
without_last (b ∷ c ∷ bs) = b ∷ without_last (c ∷ bs)

module _ {A : Type 0} (json : Json A) where
  unfoldable pub encode : A → ℕ → Result CodecError (List ℕ)
  encode a size = ok_or (json.to_slice a size) buffer_too_small

  unfoldable pub decode : List ℕ → Result CodecError A
  decode payload = do
    (a, used) ← ok_or (json.from_slice payload) invalid_json
    if used == length payload then ok a else err trailing_data

  unfoldable pub encode_line : A → ℕ → Result CodecError (List ℕ)
  unfolding encode
  encode_line a size = do
    out ← encode a size
    if ltb (length out) size then ok (out ++ (10 ∷ [])) else err buffer_too_small

  unfoldable pub decode_line : List ℕ → Result CodecError A
  unfolding decode
  decode_line line = if ends_with_lf line then decode (without_last line) else err missing_line_feed

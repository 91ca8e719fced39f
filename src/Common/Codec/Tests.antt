-- ===== src/Common/Codec/Tests.antt =====
-- One byte for a number, and the framing over it.
use uchi_pulse.Base.{
  ℕ, ◌≡◌, ◌≤◌, refl, Option, none, some, List, [], ◌∷◌, arith, ok, length, ltb, if◌then◌else◌,
}
use uchi_pulse.Common.Codec.{Json, IsFaithful, encode, encode_line, decode_line}
use uchi_pulse.Common.Codec.Lines.{decode_line-encode_line}

abbrev write : ℕ → ℕ → Option (List ℕ)
write n size = if ltb 0 size then some (n ∷ []) else none

abbrev read : List ℕ → Option (ℕ × ℕ)
read [] = none
read (n ∷ bs) = some (n, 1)

abbrev json : Json ℕ
json = record { to_slice = write; from_slice = read }

write_fits : (n size : ℕ) (out : List ℕ) → write n size ≡ some out → length out ≤ size
write_fits n size out h = ground arith

read-write : (n size : ℕ) (out : List ℕ) → write n size ≡ some out → read out ≡ some (n, length out)
read-write n size out h = ground arith

json-IsFaithful : IsFaithful json (λ n. Unit)
json-IsFaithful = record { fits = write_fits; reads = λ n size out plain. read-write n size out }

seven_read : decode_line json (7 ∷ 10 ∷ []) ≡ ok 7
unfolding encode_line encode
seven_read = (decode_line-encode_line json 7 2 (λ n. Unit) (7 ∷ 10 ∷ []) json-IsFaithful tt refl).2

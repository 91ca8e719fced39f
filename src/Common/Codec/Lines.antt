-- ===== src/Common/Codec/Lines.antt =====
-- LF framing: a line that was encoded is decoded to the value that it was made from.
use uchi_pulse.Base.{
  ℕ, ◌≤◌, ◌<◌, ◌≡◌, ◌↔◌, refl, true, some, List, [], ◌∷◌, ◌++◌, arith, ok, length, length-append,
  Option-cases, inl, inr,
}
use uchi_pulse.Common.Codec.{Json, IsFaithful, ends_with_lf, without_last, encode_line, decode_line}

ends_with_lf-append : (bs : List ℕ) → ends_with_lf (bs ++ (10 ∷ [])) ≡ true
unfolding ends_with_lf
ends_with_lf-append [] = refl
ends_with_lf-append (b ∷ []) = refl
ends_with_lf-append (b ∷ c ∷ bs) = ends_with_lf-append (c ∷ bs)

without_last-append : (bs : List ℕ) → without_last (bs ++ (10 ∷ [])) ≡ bs
unfolding without_last
without_last-append [] = refl
without_last-append (b ∷ []) = refl
without_last-append (b ∷ c ∷ bs) = ground (arith, without_last-append (c ∷ bs))

module _ {A : Type 0} (json : Json A) (a : A) (size : ℕ) where
  -- Over a JSON library that reads back the plain values it wrote, a plain value's line that `encode_line` returns fits the
  -- buffer, ends in LF, and is decoded by `decode_line` to the value that it was made from.
  pub decode_line-encode_line :
      (Plain : A → Type 0) (line : List ℕ)
      → IsFaithful json Plain
      → Plain a
      → encode_line json a size ≡ ok line
      → (length line ≤ size) × (ends_with_lf line ≡ true) × (decode_line json line ≡ ok a)
  unfolding encode_line decode_line
  decode_line-encode_line Plain line faithful plain h = elim (Option-cases (json.to_slice a size)) [
    | inl failed ↦ ground arith
    | inr (out, written) ↦
        let reads = faithful.reads a size out plain written in
        ground (
          arith,
          reads,
          ends_with_lf-append out,
          without_last-append out,
          length-append out (10 ∷ []),
        )
  ]

  -- `encode_line` succeeds exactly where the value's text leaves room for the LF.
  pub encode_line_iff :
      (out : List ℕ)
      → json.to_slice a size ≡ some out
      → (encode_line json a size ≡ ok (out ++ (10 ∷ []))) ↔ (length out < size)
  unfolding encode_line
  encode_line_iff out written = ground arith

-- ===== src/Node/Config/Address.antt =====
-- What `parse_ipv4` accepts and returns.
use uchi_pulse.Base.{
  ℕ, ◌+◌, ◌*◌, ◌-◌, ◌/◌, ◌%◌, ◌≤◌, String, ◌≡◌, ◌≢◌, refl, false, some, List, [], ◌∷◌, ◌++◌, arith,
  All, length, ltb, ◌==◌, if◌then◌else◌, codes, split, split_step, parse_digits, parse_u8,
  Option-cases, inl, inr, Bool-cases,
}
use uchi_pulse.Node.Config.{no_text, parse_octets, parse_ipv4}

abbrev pub IsOctet : ℕ → Type 0
IsOctet o = o ≤ 255

parse_digits-IsOctet :
    (acc : ℕ) (cs : List ℕ) {o : ℕ} → acc ≤ 255 → parse_digits acc cs ≡ some o → IsOctet o
unfolding parse_digits
parse_digits-IsOctet acc [] {o} le h = ground arith
parse_digits-IsOctet acc (c ∷ cs) {o} le h =
    ground (arith, parse_digits-IsOctet (acc * 10 + (c - b'0')) cs {o = o})

parse_u8-IsOctet : (cs : List ℕ) (o : ℕ) → parse_u8 cs ≡ some o → IsOctet o
unfolding parse_u8
parse_u8-IsOctet [] o h = cc
parse_u8-IsOctet (c ∷ []) o h = parse_digits-IsOctet 0 (c ∷ []) (omega arith) h
parse_u8-IsOctet (c ∷ d ∷ cs) o h =
    ground
      (arith, parse_digits-IsOctet 0 (d ∷ cs) {o = o}, parse_digits-IsOctet 0 (c ∷ d ∷ cs) {o = o})

All-append_one : (os : List ℕ) (o : ℕ) → All IsOctet os → IsOctet o → All IsOctet (os ++ (o ∷ []))
All-append_one [] o h k = (k, tt)
All-append_one (x ∷ os) o h k = (h.0, All-append_one os o h.1 k)

parse_octets_sound :
    (os : List ℕ) (parts : List (List ℕ)) {r : List ℕ}
    → All IsOctet os
    → parse_octets os parts ≡ some r
    → (length r ≡ 4) × All IsOctet r
unfolding parse_octets
parse_octets_sound os [] h e = ground arith
parse_octets_sound os (part ∷ parts) {r} h e = elim (Option-cases (parse_u8 part)) [
  | inl bad ↦ ground arith
  | inr (o, good) ↦ ground (
    arith,
    parse_u8-IsOctet part o,
    All-append_one os o h,
    parse_octets_sound (os ++ (o ∷ [])) parts {r = r},
  )
]

-- An address that `parse_ipv4` accepts has exactly four parts, each in the range of a byte.
pub parse_ipv4-IsOctet :
    (value : String) (r : List ℕ) → parse_ipv4 value ≡ some r → (length r ≡ 4) × All IsOctet r
unfolding parse_ipv4
parse_ipv4-IsOctet value r h = parse_octets_sound [] (split b'.' (codes value)) tt h

-- The decimal digits of a byte, with no leading zero.
unfoldable pub decimal : ℕ → List ℕ
decimal n =
    if ltb n 10
    then (b'0' + n) ∷ []
    else if ltb n 100
    then (b'0' + n / 10) ∷ (b'0' + n % 10) ∷ []
    else (b'0' + n / 100) ∷ (b'0' + n / 10 % 10) ∷ (b'0' + n % 10) ∷ []

-- `a.b.c.d`
abbrev pub dotted : ℕ → ℕ → ℕ → ℕ → List ℕ
dotted a b c d = decimal a ++ (b'.' ∷ (decimal b ++ (b'.' ∷ (decimal c ++ (b'.' ∷ decimal d)))))

parse_u8-decimal : (n : ℕ) → n ≤ 255 → parse_u8 (decimal n) ≡ some n
unfolding parse_u8 parse_digits decimal
parse_u8-decimal n h = ground arith

abbrev NoDot : List ℕ → Type 0
NoDot = All (λ c. c ≢ b'.')

decimal-NoDot : (n : ℕ) → n ≤ 255 → NoDot (decimal n)
unfolding decimal
decimal-NoDot n h = ground arith

decimal-no_text : (n : ℕ) → no_text (decimal n) ≡ false
unfolding decimal
decimal-no_text n = ground arith

split-cons : (sep : ℕ) (cs : List ℕ) → (p : List ℕ) × (ps : List (List ℕ)) × (split sep cs ≡ p ∷ ps)
unfolding split
split-cons sep [] = ([], [], refl)
split-cons sep (c ∷ cs) = elim (Bool-cases (c == sep)) [
  | inl e ↦ let (p, ps, h) = split-cons sep cs in ([], p ∷ ps, ground arith)
  | inr e ↦ let (p, ps, h) = split-cons sep cs in (c ∷ p, ps, ground arith)
]

split-dot : (p rest : List ℕ) → NoDot p → split b'.' (p ++ (b'.' ∷ rest)) ≡ p ∷ split b'.' rest
unfolding split
split-dot [] rest h = let (p, ps, e) = split-cons b'.' rest in rw (e, split_step)
split-dot (c ∷ p) rest h = ground (arith, split-dot p rest h.1)

split-NoDot : (p : List ℕ) → NoDot p → split b'.' p ≡ p ∷ []
unfolding split
split-NoDot [] h = refl
split-NoDot (c ∷ p) h = ground (arith, split-NoDot p h.1)

-- Every address written in plain decimal is read back as its four bytes.
pub parse_ipv4-dotted :
    (value : String) (a b c d : ℕ)
    → a ≤ 255
    → b ≤ 255
    → c ≤ 255
    → d ≤ 255
    → codes value ≡ dotted a b c d
    → parse_ipv4 value ≡ some (a ∷ b ∷ c ∷ d ∷ [])
unfolding parse_ipv4 parse_octets
parse_ipv4-dotted value a b c d ha hb hc hd e = rw e (
    ground (
      arith,
      split-dot (decimal a) (decimal b ++ (b'.' ∷ (decimal c ++ (b'.' ∷ decimal d))))
          (decimal-NoDot a ha),
      split-dot (decimal b) (decimal c ++ (b'.' ∷ decimal d)) (decimal-NoDot b hb),
      split-dot (decimal c) (decimal d) (decimal-NoDot c hc),
      split-NoDot (decimal d) (decimal-NoDot d hd),
      parse_u8-decimal a,
      parse_u8-decimal b,
      parse_u8-decimal c,
      parse_u8-decimal d,
      decimal-no_text a,
      decimal-no_text b,
      decimal-no_text c,
      decimal-no_text d,
    ))

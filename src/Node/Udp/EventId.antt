-- ===== src/Node/Udp/EventId.antt =====
-- Event ids are never refused for their length, and no two of one generator are alike.
use Prim.Native.Char.{Char, code, len_utf8}
use Prim.Native.String.{len}
use Prim.Native.String.len
use native.Mathlib.Nat.{pow-suc}
use uchi_pulse.Base.{
  ℕ, zero, suc, ◌+◌, ◌-◌, ◌/◌, ◌%◌, ◌^◌, ◌<◌, ◌≡◌, ◌≢◌, refl, ap, true, String, List, [], ◌∷◌,
  arith, Result, ok, err, ◌>>=◌, ltb, leb, ◌==◌, ==_iff, if◌then◌else◌, every_digit,
  every_digit_lem, All, Distinct, length, ◌&&◌, not,
}
use uchi_pulse.Common.Types.{text}
use uchi_pulse.Common.Codec.{IsPlain}
use uchi_pulse.Node.Udp.{
  EventIdGenerator, ProtocolError, sequence_exhausted, hex_char, hex, format_event_id,
  next_event_id,
}

abbrev value : Char → ℕ
value c = if leb (code c) 57 then code c - 48 else code c - 87

hex_char_values : every_digit (λ k. value (hex_char k) == k) 16 ≡ true
unfolding hex_char every_digit
hex_char_values = refl

hex_char_bytes : every_digit (λ k. len_utf8 (hex_char k) == 1) 16 ≡ true
unfolding hex_char every_digit
hex_char_bytes = refl

value-hex_char : (n : ℕ) → n < 16 → value (hex_char n) ≡ n
value-hex_char n h =
    (==_iff _ n).0 (every_digit_lem (λ k. value (hex_char k) == k) 16 hex_char_values n h)

len_utf8-hex_char : (n : ℕ) → n < 16 → len_utf8 (hex_char n) ≡ 1
len_utf8-hex_char n h =
    (==_iff _ 1).0 (every_digit_lem (λ k. len_utf8 (hex_char k) == 1) 16 hex_char_bytes n h)

abbrev head_char : String → Char
head_char String.[] = "0"
head_char (String.◌∷◌ c s) = c

abbrev tail_text : String → String
tail_text String.[] = ""
tail_text (String.◌∷◌ c s) = s

div-pow : (w n : ℕ) → n < 16 ^ suc w → n / 16 < 16 ^ w
div-pow w n h = omega (arith, pow-suc 16 w)

hex-injective :
    (w n m : ℕ) (r s : String) → n < 16 ^ w → m < 16 ^ w → hex w n r ≡ hex w m s → (n ≡ m) × (r ≡ s)
unfolding hex
hex-injective zero n m r s hn hm e = (omega arith, e)
hex-injective (suc w) n m r s hn hm e =
    let (top, low) = hex-injective w (n / 16) (m / 16) _ _ (div-pow w n hn) (div-pow w m hm) e in
    let digit = ap (λ t. value (head_char t)) low in
    (omega (arith, digit, value-hex_char (n % 16), value-hex_char (m % 16)), ap tail_text low)

len-hex : (w n : ℕ) (r : String) → len (hex w n r) ≡ w + len r
unfolding hex
len-hex zero n r = omega arith
len-hex (suc w) n r = omega (
  arith,
  len-hex w (n / 16) (String.◌∷◌ (hex_char (n % 16)) r),
  len_utf8-hex_char (n % 16),
  len.cons (hex_char (n % 16)) r,
)

len-format_event_id : (boot sequence : ℕ) → len (format_event_id boot sequence) ≡ 33
unfolding format_event_id
len-format_event_id boot sequence = omega (
  arith,
  len-hex 16 boot (String.◌∷◌ "-" (hex 16 sequence "")),
  len.cons "-" (hex 16 sequence ""),
  len-hex 16 sequence "",
)

hex_char_plain :
    every_digit (λ k. leb 48 (code (hex_char k)) && not (code (hex_char k) == 92)) 16 ≡ true
unfolding hex_char every_digit
hex_char_plain = refl

hex-IsPlain : (w n : ℕ) (r : String) → IsPlain r → IsPlain (hex w n r)
unfolding hex
hex-IsPlain zero n r plain = plain
hex-IsPlain (suc w) n r plain =
    let digit =
      every_digit_lem (λ k. leb 48 (code (hex_char k)) && not (code (hex_char k) == 92)) 16
        hex_char_plain (n % 16) (omega arith) in
    hex-IsPlain w (n / 16) (String.◌∷◌ (hex_char (n % 16)) r) (ground arith, plain)

-- An event id is written in JSON as it stands.
pub format_event_id-IsPlain : (boot sequence : ℕ) → IsPlain (format_event_id boot sequence)
unfolding format_event_id
format_event_id-IsPlain boot sequence =
    hex-IsPlain 16 boot (String.◌∷◌ "-" (hex 16 sequence ""))
      (ground arith, hex-IsPlain 16 sequence "" tt)

-- Two ids of `u64` numbers are alike only where both the boot and the sequence numbers are.
pub format_event_id-injective :
    (b n c m : ℕ)
    → b < 2 ^ 64
    → n < 2 ^ 64
    → c < 2 ^ 64
    → m < 2 ^ 64
    → format_event_id b n ≡ format_event_id c m
    → (b ≡ c) × (n ≡ m)
unfolding format_event_id
format_event_id-injective b n c m hb hn hc hm e =
    let (boot, rest) = hex-injective 16 b c _ _ hb hc e in
    let (sequence, _) = hex-injective 16 n m _ _ hn hm (ap tail_text rest) in (boot, sequence)

-- One call, with the text's length check done.
pub next_event_id_step :
    (g : EventIdGenerator)
    → next_event_id g ≡ (
        if ltb (g.next_sequence + 1) (2 ^ 64)
        then ok (
          format_event_id g.boot_id g.next_sequence,
          record g { next_sequence = g.next_sequence + 1 },
        )
        else err sequence_exhausted)
unfolding next_event_id text
next_event_id_step g = ground (arith, len-format_event_id g.boot_id g.next_sequence)

-- The ids of `n` calls, one after the other.
pub next_ids : ℕ → EventIdGenerator → Result ProtocolError (List String × EventIdGenerator)
next_ids zero g = ok ([], g)
next_ids (suc n) g = do
  (event_id, g) ← next_event_id g
  (ids, g) ← next_ids n g
  ok (event_id ∷ ids, g)

-- The ids of `n` sequence numbers from `s` on.
pub formatted : ℕ → ℕ → ℕ → List String
formatted b s zero = []
formatted b s (suc n) = format_event_id b s ∷ formatted b (s + 1) n

differs_later :
    (b s t n : ℕ)
    → b < 2 ^ 64
    → s < t
    → t + n < 2 ^ 64
    → All (λ y. format_event_id b s ≢ y) (formatted b t n)
unfolding formatted
differs_later b s t zero hb lt fits = tt
differs_later b s t (suc n) hb lt fits = (
  λ e.
      let same = (format_event_id-injective b s b t hb (omega arith) hb (omega arith) e).1 in
      omega arith,
  differs_later b s (t + 1) n hb (omega arith) (omega arith),
)

formatted-Distinct : (b s n : ℕ) → b < 2 ^ 64 → s + n < 2 ^ 64 → Distinct (λ y. y) (formatted b s n)
unfolding formatted
formatted-Distinct b s zero hb fits = tt
formatted-Distinct b s (suc n) hb fits = (
  differs_later b s (s + 1) n hb (omega arith) (omega arith),
  formatted-Distinct b (s + 1) n hb (omega arith),
)

length-formatted : (b s n : ℕ) → length (formatted b s n) ≡ n
unfolding formatted
length-formatted b s zero = refl
length-formatted b s (suc n) = omega (arith, length-formatted b (s + 1) n)

next_ids-formatted :
    (n : ℕ) (g : EventIdGenerator)
    → g.next_sequence + n < 2 ^ 64
    → next_ids n g
      ≡ ok (formatted g.boot_id g.next_sequence n, record g { next_sequence = g.next_sequence + n })
unfolding next_ids formatted
next_ids-formatted zero g fits = ground arith
next_ids-formatted (suc n) g fits = ground (
  arith,
  next_event_id_step g,
  next_ids-formatted n (record g { next_sequence = g.next_sequence + 1 }),
)

-- While the sequence number stays a `u64`, `n` calls of `next_event_id` never fail for the length
-- of an id; they return `n` ids, no two alike, and move the sequence number on by `n`.
pub next_ids-Distinct :
    (n : ℕ) (g : EventIdGenerator)
    → g.boot_id < 2 ^ 64
    → g.next_sequence + n < 2 ^ 64
    → (ids : List String) × (next_ids n g
        ≡ ok (ids, record g { next_sequence = g.next_sequence + n }))
      × (length ids ≡ n)
      × Distinct (λ y. y) ids
next_ids-Distinct n g hb fits = (
  formatted g.boot_id g.next_sequence n,
  next_ids-formatted n g fits,
  length-formatted g.boot_id g.next_sequence n,
  formatted-Distinct g.boot_id g.next_sequence n hb fits,
)

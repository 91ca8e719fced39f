-- ===== src/Node/Cdc/Queue.antt =====
-- What the queue of lines holds after a read.
use uchi_pulse.Base.{
  ℕ, zero, suc, ◌≤◌, ◌<◌, ◌≡◌, refl, Bool, true, false, Option, none, some, List, [], ◌∷◌, ◌++◌,
  length, length-append, take, keep_if, ltb, leb, ◌==◌, if◌then◌else◌, arith, Bool-cases, inl, inr,
  append_assoc,
}
use uchi_pulse.Node.Cdc.{
  CdcLineParser, CdcFrameError, new_parser, max_cdc_line_size, max_cdc_queued_lines, end_line,
  take_byte, take_bytes, feed,
}

-- The lines of a text, each with its LF; `acc` is the open line.
abbrev pub lf_lines : List ℕ → List ℕ → List (List ℕ)
lf_lines acc [] = []
lf_lines acc (b ∷ bs) =
    let closed = lf_lines [] bs in
    let more = lf_lines (acc ++ (b ∷ [])) bs in if b == 10 then (acc ++ (b ∷ [])) ∷ closed else more

abbrev pub fits : List ℕ → Bool
fits line = leb (length line) max_cdc_line_size

-- The parser's state for the open line `acc`.
Tracks : CdcLineParser → List ℕ → Type 0
Tracks p acc =
    (p.dropping_overlong ≡ false → (p.current ≡ acc) × (length acc ≤ max_cdc_line_size))
    × (p.dropping_overlong ≡ true → (max_cdc_line_size < length acc) × (p.current ≡ []))

take_byte-Tracks :
    (p : CdcLineParser) (acc : List ℕ) (b : ℕ)
    → (b == 10) ≡ false
    → Tracks p acc
    → Tracks (take_byte p b).0 (acc ++ (b ∷ [])) × ((take_byte p b).0.lines ≡ p.lines)
unfolding take_byte Tracks
take_byte-Tracks p acc b other h = ground (arith, length-append acc (b ∷ []))

take_byte-end :
    (p : CdcLineParser) (acc : List ℕ) (b : ℕ)
    → (b == 10) ≡ true
    → Tracks p acc
    → Tracks (take_byte p b).0 []
      × ((take_byte p b).0.lines ≡ (
          if fits (acc ++ (b ∷ []))
          then (if ltb (length p.lines) max_cdc_queued_lines
              then p.lines ++ ((acc ++ (b ∷ [])) ∷ [])
              else p.lines)
          else p.lines))
unfolding take_byte end_line Tracks
take_byte-end p acc b ended h = ground (arith, length-append acc (b ∷ []))

take-at_capacity : (n : ℕ) (xs ys : List (List ℕ)) → length xs ≡ n → take n (xs ++ ys) ≡ xs
take-at_capacity zero [] ys h = refl
take-at_capacity zero (x ∷ xs) ys h = absurd (omega arith)
take-at_capacity (suc n) [] ys h = absurd (omega arith)
take-at_capacity (suc n) (x ∷ xs) ys h = ground (arith, take-at_capacity n xs ys)

take-below_capacity : (n : ℕ) (xs : List (List ℕ)) → length xs ≤ n → xs ≡ take n (xs ++ [])
take-below_capacity zero [] h = refl
take-below_capacity zero (x ∷ xs) h = absurd (omega arith)
take-below_capacity (suc n) [] h = refl
take-below_capacity (suc n) (x ∷ xs) h = ground (arith, take-below_capacity n xs)

take_bytes-lines :
    (p : CdcLineParser) (error : Option CdcFrameError) (acc bs : List ℕ)
    → Tracks p acc
    → length p.lines ≤ max_cdc_queued_lines
    → (take_bytes p error bs).0.lines
      ≡ take max_cdc_queued_lines (p.lines ++ keep_if fits (lf_lines acc bs))
unfolding take_bytes
take_bytes-lines p error acc [] h room = take-below_capacity max_cdc_queued_lines p.lines room
take_bytes-lines p error acc (b ∷ bs) h room =
    let noted : Option CdcFrameError = elim (take_byte p b).1 [ none ↦ error | some e ↦ some e ] in
    elim (Bool-cases (b == 10)) [
      | inr other ↦
          let tracked = take_byte-Tracks p acc b other h in
          let rest = take_bytes-lines (take_byte p b).0 noted (acc ++ (b ∷ [])) bs tracked.0 in
          ground arith
      | inl ended ↦
          let tracked = take_byte-end p acc b ended h in
          let rest = take_bytes-lines (take_byte p b).0 noted [] bs tracked.0 in
          let line : List ℕ = acc ++ (b ∷ []) in
          ground (
            arith,
            take-at_capacity max_cdc_queued_lines p.lines (keep_if fits (lf_lines [] bs)),
            take-at_capacity max_cdc_queued_lines p.lines (line ∷ keep_if fits (lf_lines [] bs)),
            append_assoc p.lines (line ∷ []) (keep_if fits (lf_lines [] bs)),
            length-append p.lines (line ∷ []),
          )
    ]

new-Tracks : Tracks new_parser []
unfolding Tracks
new-Tracks = ground arith

-- One read into a new parser queues the lines of its text, each with its LF, less those longer than
-- the limit; of these the first four, and no others.
pub feed_lines :
    (bs : List ℕ)
    → (feed new_parser bs).1.lines ≡ take max_cdc_queued_lines (keep_if fits (lf_lines [] bs))
unfolding feed
feed_lines bs = take_bytes-lines new_parser none [] bs new-Tracks (omega arith)

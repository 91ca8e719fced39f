-- ===== src/Hub/Cdc/Lines.antt =====
-- However the port cuts its input into pieces, the worker sees its lines, without the overlong ones.
use uchi_pulse.Base.{
  ℕ, ◌≤◌, ◌<◌, ◌≡◌, refl, ◌∙◌, Bool, true, false, List, [], ◌∷◌, ◌++◌, map, length, length-append,
  keep_if, leb, ◌==◌, if◌then◌else◌, arith, Bool-cases, inl, inr,
}
use uchi_pulse.Hub.Cdc.{LineDecoder, new_decoder, take_byte, max_cdc_line_size, line_of, feed}

-- The bytes before each LF; `acc` is the open line.
abbrev pub segments : List ℕ → List ℕ → List (List ℕ)
segments acc [] = []
segments acc (b ∷ bs) =
    let closed = segments [] bs in
    let more = segments (acc ++ (b ∷ [])) bs in if b == 10 then acc ∷ closed else more

abbrev pub fits : List ℕ → Bool
fits line = leb (length line) max_cdc_line_size

abbrev pub concat : List (List ℕ) → List ℕ
concat [] = []
concat (p ∷ ps) = p ++ concat ps

-- The decoder's state for the open line `acc`.
Tracks : LineDecoder → List ℕ → Type 0
Tracks d acc =
    (d.dropping ≡ false → (d.current ≡ acc) × (length acc ≤ max_cdc_line_size))
    × (d.dropping ≡ true → max_cdc_line_size < length acc)

take_byte-Tracks :
    (d : LineDecoder) (acc : List ℕ) (b : ℕ)
    → (b == 10) ≡ false
    → Tracks d acc
    → Tracks (take_byte d b) (acc ++ (b ∷ []))
unfolding take_byte Tracks
take_byte-Tracks d acc b other h = ground (arith, length-append acc (b ∷ []))

new-Tracks : Tracks new_decoder []
unfolding Tracks
new-Tracks = ground arith

module _ (lossy : List ℕ → List ℕ) where
  feed-segments :
      (d : LineDecoder) (acc bs : List ℕ)
      → Tracks d acc
      → (feed lossy d bs).0 ≡ map (line_of lossy) (keep_if fits (segments acc bs))
  unfolding feed Tracks
  feed-segments d acc [] h = refl
  feed-segments d acc (b ∷ bs) h = elim (Bool-cases (b == 10)) [
    | inr other ↦
        let rest =
          feed-segments (take_byte d b) (acc ++ (b ∷ [])) bs (take_byte-Tracks d acc b other h) in
        ground arith
    | inl ended ↦
        let rest = feed-segments new_decoder [] bs new-Tracks in
        let reset : take_byte d b ≡ new_decoder = unfold take_byte in ground arith in ground arith
  ]

  feed-append :
      (d : LineDecoder) (bs cs : List ℕ)
      → feed lossy d (bs ++ cs) ≡ (
        (feed lossy d bs).0 ++ (feed lossy (feed lossy d bs).1 cs).0,
        (feed lossy (feed lossy d bs).1 cs).1,
      )
  unfolding feed
  feed-append d [] cs = refl
  feed-append d (b ∷ bs) cs = ground (arith, feed-append (take_byte d b) bs cs)

  -- The worker's loop: the lines of all pieces that the port reads, in order.
  pub feed_pieces : LineDecoder → List (List ℕ) → List (List ℕ)
  feed_pieces d [] = []
  feed_pieces d (p ∷ ps) = (feed lossy d p).0 ++ feed_pieces (feed lossy d p).1 ps

  feed_pieces-concat :
      (d : LineDecoder) (ps : List (List ℕ)) → feed_pieces d ps ≡ (feed lossy d (concat ps)).0
  unfolding feed_pieces
  feed_pieces-concat d [] = unfold feed in refl
  feed_pieces-concat d (p ∷ ps) =
      ground (arith, feed-append d p (concat ps), feed_pieces-concat (feed lossy d p).1 ps)

  -- However the input is cut into pieces, the decoder gives the texts between its LFs, in order and
  -- without the CRs at their ends, less exactly those that are longer than the limit.
  pub feed_pieces_result :
      (ps : List (List ℕ))
      → feed_pieces new_decoder ps ≡ map (line_of lossy) (keep_if fits (segments [] (concat ps)))
  feed_pieces_result ps =
      feed_pieces-concat new_decoder ps ∙ feed-segments new_decoder [] (concat ps) new-Tracks

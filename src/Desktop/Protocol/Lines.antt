-- ===== src/Desktop/Protocol/Lines.antt =====
-- The decoder keeps its bound, and does not see how its input is cut.
use uchi_pulse.Base.{
  ℕ, ◌≤◌, ◌+◌, ◌<◌, ◌≡◌, ◌≢◌, All, append-nil, ◌∙◌, refl, sym, ap, subst, String, false, Option,
  List, [], ◌∷◌, ◌++◌, length, length-append, append_assoc, Result, arith,
}
use uchi_pulse.Desktop.Protocol.{
  LineDecoder, LineError, max_cdc_line_size, new_decoder, take_byte, feed, line_of,
}

module _ (utf8 : List ℕ → Option String) where
  take_byte-bound :
      (d : LineDecoder) (b : ℕ)
      → length d.current ≤ max_cdc_line_size
      → length (take_byte utf8 d b).1.current ≤ max_cdc_line_size
  unfolding take_byte
  take_byte-bound d b h = ground (arith, length-append d.current (b ∷ []))

  -- What the decoder pushes for two inputs is what it pushes for both as one.
  feed-pieces :
      (d : LineDecoder) (bs cs : List ℕ)
      → feed utf8 d (bs ++ cs) ≡ (
        (feed utf8 d bs).0 ++ (feed utf8 (feed utf8 d bs).1 cs).0,
        (feed utf8 (feed utf8 d bs).1 cs).1,
      )
  unfolding feed
  feed-pieces d [] cs = refl
  feed-pieces d (b ∷ bs) cs =
      let first = take_byte utf8 d b in
      let rest = feed-pieces first.1 bs cs in
      let parts = feed utf8 first.1 bs in
      let later = feed utf8 parts.1 cs in
      (λ i. (first.0 ++ (rest i).0, (rest i).1))
      ∙ (λ i. (sym (append_assoc first.0 parts.0 later.0) i, later.1))

  feed-bound :
      (bs : List ℕ) (d : LineDecoder)
      → length d.current ≤ max_cdc_line_size
      → length (feed utf8 d bs).1.current ≤ max_cdc_line_size
  unfolding feed
  feed-bound [] d h = h
  feed-bound (b ∷ bs) d h = feed-bound bs (take_byte utf8 d b).1 (take_byte-bound d b h)

  -- One `feed` for each read from the port.
  abbrev pub feed_reads : LineDecoder → List (List ℕ) → List (Result LineError String) × LineDecoder
  feed_reads d [] = ([], d)
  feed_reads d (bs ∷ rest) =
      let (first, next) = feed utf8 d bs in
      let (more, after) = feed_reads next rest in (first ++ more, after)

  abbrev pub joined : List (List ℕ) → List ℕ
  joined [] = []
  joined (bs ∷ rest) = bs ++ joined rest

  feed_reads-joined :
      (reads : List (List ℕ)) (d : LineDecoder) → feed_reads d reads ≡ feed utf8 d (joined reads)
  unfolding feed
  feed_reads-joined [] d = refl
  feed_reads-joined (bs ∷ rest) d =
      let first = feed utf8 d bs in
      let more = feed_reads-joined rest first.1 in
      (λ i. (first.0 ++ (more i).0, (more i).1)) ∙ sym (feed-pieces d bs (joined rest))

  -- From an empty decoder: what is pushed and what is kept do not depend on how the bytes are cut into
  -- reads, and what is kept never exceeds the limit of a line.
  pub feed_reads_result :
      (reads : List (List ℕ))
      → (feed_reads new_decoder reads ≡ feed utf8 new_decoder (joined reads))
        × (length (feed_reads new_decoder reads).1.current ≤ max_cdc_line_size)
  feed_reads_result reads =
      let same = feed_reads-joined reads new_decoder in
      (
        same,
        subst (λ r. length r.1.current ≤ max_cdc_line_size) (sym same)
            (feed-bound (joined reads) new_decoder (omega arith)),
      )

  byte_kept :
      (acc : List ℕ) (b : ℕ)
      → b ≢ 10
      → length acc < max_cdc_line_size
      → take_byte utf8 (record { current = acc; dropping_overlong = false }) b
        ≡ ([], record { current = acc ++ (b ∷ []); dropping_overlong = false })
  unfolding take_byte
  byte_kept acc b other fits = ground arith

  line_ended :
      (acc : List ℕ)
      → length acc < max_cdc_line_size
      → take_byte utf8 (record { current = acc; dropping_overlong = false }) 10
        ≡ (line_of utf8 acc ∷ [], new_decoder)
  unfolding take_byte
  line_ended acc fits = ground arith

  one_line :
      (acc bs : List ℕ)
      → All (λ b. b ≢ 10) bs
      → length acc + length bs < max_cdc_line_size
      → feed utf8 (record { current = acc; dropping_overlong = false }) (bs ++ (10 ∷ []))
        ≡ (line_of utf8 (acc ++ bs) ∷ [], new_decoder)
  unfolding feed
  one_line acc [] h fits =
      let ended = line_ended acc (omega (arith, fits)) in
      ap (λ r. (r.0 ++ [], r.1)) ended
      ∙ ap (λ xs. (line_of utf8 xs ∷ [], new_decoder)) (sym (append-nil acc))
  one_line acc (b ∷ bs) h fits =
      let longer = length-append acc (b ∷ []) in
      let room : length (acc ++ (b ∷ [])) + length bs < max_cdc_line_size = omega (arith, longer) in
      let rest = one_line (acc ++ (b ∷ [])) bs h.1 room in
      let kept = byte_kept acc b h.0 (omega (arith, fits)) in
      ap (λ r. (r.0 ++ (feed utf8 r.1 (bs ++ (10 ∷ []))).0, (feed utf8 r.1 (bs ++ (10 ∷ []))).1))
        kept
      ∙ rest
      ∙ ap (λ xs. (line_of utf8 xs ∷ [], new_decoder)) (append_assoc acc (b ∷ []) bs)

  -- A line of bytes other than LF that is shorter than the limit, with its LF, is pushed once, however
  -- it is cut into reads, and leaves the decoder as it was.
  pub line_received :
      (reads : List (List ℕ)) (bs : List ℕ)
      → joined reads ≡ bs ++ (10 ∷ [])
      → All (λ b. b ≢ 10) bs
      → length bs < max_cdc_line_size
      → feed_reads new_decoder reads ≡ (line_of utf8 bs ∷ [], new_decoder)
  line_received reads bs cut h fits =
      feed_reads-joined reads new_decoder
      ∙ ap (feed utf8 new_decoder) cut
      ∙ one_line [] bs h (omega (arith, fits))

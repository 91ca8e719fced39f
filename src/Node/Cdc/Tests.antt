-- ===== src/Node/Cdc/Tests.antt =====
-- A read with two lines and the start of a third.
use uchi_pulse.Base.{◌≡◌, refl, some, [], ◌∷◌}
use uchi_pulse.Node.Cdc.{new_parser, feed, take_bytes, take_byte, end_line, pop_line}
use uchi_pulse.Node.Cdc.Queue.{feed_lines}

feed_lines_example :
    (feed new_parser (97 ∷ 10 ∷ 98 ∷ 10 ∷ 99 ∷ [])).1.lines ≡ (97 ∷ 10 ∷ []) ∷ (98 ∷ 10 ∷ []) ∷ []
feed_lines_example = feed_lines (97 ∷ 10 ∷ 98 ∷ 10 ∷ 99 ∷ [])

oldest_first : (pop_line (feed new_parser (97 ∷ 10 ∷ 98 ∷ 10 ∷ [])).1).0 ≡ some (97 ∷ 10 ∷ [])
unfolding pop_line feed take_bytes take_byte end_line
oldest_first = refl

-- ===== src/Node/Cdc.antt =====
-- apps/uchi-pulse-node/src/cdc.rs: the queue of lines that the node takes from USB. The bytes of a
-- read are a list; `Vec` and `Deque` are lists with a capacity.
pub mod Queue
pub mod Handler
pub mod Handled
pub mod Answered
mod Tests
mod HandlerTests
use uchi_pulse.Base.{
  ℕ, Bool, true, false, not, Option, none, some, List, [], ◌∷◌, ◌++◌, length, ltb, ◌==◌,
  if◌then◌else◌, Result, ok, err,
}

abbrev pub max_cdc_line_size : ℕ
max_cdc_line_size = 4096

abbrev pub max_cdc_queued_lines : ℕ
max_cdc_queued_lines = 4

pub data CdcFrameError : Type 0 where
  line_too_long queue_full : CdcFrameError

pub record CdcLineParser : Type 0 where
  pub current : List ℕ
  pub lines : List (List ℕ)
  pub dropping_overlong : Bool

abbrev pub new_parser : CdcLineParser
new_parser = record { current = []; lines = []; dropping_overlong = false }

-- The byte that ends a line moves the line to the queue, if there is room.
unfoldable pub end_line : CdcLineParser → List ℕ → CdcLineParser × Option CdcFrameError
end_line p line =
    if ltb (length p.lines) max_cdc_queued_lines
    then (record p { current = []; lines = p.lines ++ (line ∷ []) }, none)
    else (record p { current = [] }, some queue_full)

-- One round of the loop: the parser after it, and the error that it notes.
unfoldable pub take_byte : CdcLineParser → ℕ → CdcLineParser × Option CdcFrameError
unfolding end_line
take_byte p b =
    if p.dropping_overlong
    then (record p { dropping_overlong = not (b == 10) }, none)
    else if length p.current == max_cdc_line_size
    then (record p { current = []; dropping_overlong = not (b == 10) }, some line_too_long)
    else if b == 10
    then end_line p (p.current ++ (b ∷ []))
    else (record p { current = p.current ++ (b ∷ []) }, none)

-- The loop; the last error that a round noted is the one that is returned.
unfoldable pub take_bytes :
    CdcLineParser → Option CdcFrameError → List ℕ → CdcLineParser × Option CdcFrameError
take_bytes p error [] = (p, error)
take_bytes p error (b ∷ bs) =
    let (next, noted) = take_byte p b in
    take_bytes next (elim noted [ none ↦ error | some e ↦ some e ]) bs

unfoldable pub feed : CdcLineParser → List ℕ → Result CdcFrameError Unit × CdcLineParser
unfolding take_bytes
feed p bytes =
    let (after, error) = take_bytes p none bytes in
    (elim error [ none ↦ ok tt | some e ↦ err e ], after)

unfoldable pub pop_line : CdcLineParser → Option (List ℕ) × CdcLineParser
pop_line p = elim p.lines [ [] ↦ (none, p) | line ∷ rest ↦ (some line, record p { lines = rest }) ]

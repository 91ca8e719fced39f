-- ===== src/Desktop/Protocol/Tests.antt =====
-- The line `{}` with CR and LF, cut after its first byte.
use uchi_pulse.Base.{ℕ, ◌≡◌, refl, String, Option, some, List, [], ◌∷◌, ok, arith}
use uchi_pulse.Desktop.Protocol.{new_decoder, feed}
use uchi_pulse.Desktop.Protocol.Lines.{feed_reads, feed_reads_result, line_received}

abbrev as_braces : List ℕ → Option String
as_braces bytes = some "{}"

line_received_example :
    feed_reads as_braces new_decoder ((123 ∷ []) ∷ (125 ∷ 13 ∷ 10 ∷ []) ∷ [])
    ≡ (ok "{}" ∷ [], new_decoder)
line_received_example =
    line_received as_braces ((123 ∷ []) ∷ (125 ∷ 13 ∷ 10 ∷ []) ∷ []) (123 ∷ 125 ∷ 13 ∷ []) refl
      ((λ h. omega (arith, h)), ((λ h. omega (arith, h)), ((λ h. omega (arith, h)), tt)))
      (omega arith)

feed_reads_result_example :
    feed_reads as_braces new_decoder ((123 ∷ []) ∷ (10 ∷ 125 ∷ []) ∷ [])
    ≡ feed as_braces new_decoder (123 ∷ 10 ∷ 125 ∷ [])
feed_reads_result_example = (feed_reads_result as_braces ((123 ∷ []) ∷ (10 ∷ 125 ∷ []) ∷ [])).0

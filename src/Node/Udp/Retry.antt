-- ===== src/Node/Udp/Retry.antt =====
-- One transmission and the configured number of retries.
use uchi_pulse.Base.{
  ℕ, zero, suc, ◌+◌, ◌%◌, ◌^◌, ◌<◌, ◌≡◌, refl, Option, none, some, List, [], ◌∷◌, arith, length,
}
use uchi_pulse.Node.Udp.{RetryPolicy, new_policy, next_attempt}

-- The numbers of the attempts that `while let Some(n) = policy.next_attempt()` makes, with fuel.
-- `none` means that the fuel ran out.
pub attempts : ℕ → RetryPolicy → Option (List ℕ)
attempts zero p = none
attempts (suc fuel) p = elim (next_attempt p) [
  | none ↦ some []
  | some (n, q) ↦ elim (attempts fuel q) [ none ↦ none | some ns ↦ some (n ∷ ns) ]
]

-- The numbers from `n + 1` on, cut to a byte.
abbrev pub numbers : ℕ → ℕ → List ℕ
numbers zero n = []
numbers (suc k) n = ((n + 1) % 2 ^ 8) ∷ numbers k (n + 1)

attempts-numbers :
    (fuel k : ℕ) (p : RetryPolicy)
    → p.attempts_started + k ≡ p.retry_count + 1
    → k < fuel
    → attempts fuel p ≡ some (numbers k p.attempts_started)
unfolding attempts next_attempt
attempts-numbers zero k p e h = absurd (omega arith)
attempts-numbers (suc fuel) zero p e h = ground arith
attempts-numbers (suc fuel) (suc k) p e h =
    ground (arith, attempts-numbers fuel k (record p { attempts_started = p.attempts_started + 1 }))

-- The policy makes exactly one attempt and `retry_count` retries, and then stops; the attempts are
-- numbered from one, up to the cut to a byte. Any fuel above their number is enough.
pub attempts_exact :
    (retry_count fuel : ℕ)
    → retry_count + 1 < fuel
    → attempts fuel (new_policy retry_count) ≡ some (numbers (suc retry_count) 0)
attempts_exact retry_count fuel h =
    attempts-numbers fuel (suc retry_count) (new_policy retry_count) (omega arith) (omega arith)

pub length-numbers : (k n : ℕ) → length (numbers k n) ≡ k
length-numbers zero n = refl
length-numbers (suc k) n = omega (arith, length-numbers k (n + 1))

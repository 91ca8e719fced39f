-- ===== src/Base/Vectors.antt =====
-- `heapless::Vec`: a list with a capacity.
use Prim.Native.Nat.{ℕ, ◌≤◌}
use mathlib.Core.Path.{◌≡◌}
use mathlib.Core.List.{List, [], ◌∷◌, ◌++◌, append_assoc, append-nil}
use native.Mathlib.Omega.{arith}
use uchi_pulse.Base.Tests.{ltb, if◌then◌else◌}
use uchi_pulse.Base.Lists.{length, length-append}
use uchi_pulse.Base.Results.{Result, ok, err}

-- A push with its error mapped.
abbrev pub push : {E A : Type 0} → ℕ → (A → E) → List A → A → Result E (List A)
push cap full acc x = if ltb (length acc) cap then ok (acc ++ (x ∷ [])) else err (full x)

-- `for x in xs { acc.push(x).map_err(full)?; }`
unfoldable pub push_all : {E A : Type 0} → ℕ → (A → E) → List A → List A → Result E (List A)
push_all cap full acc [] = ok acc
push_all cap full acc (x ∷ xs) =
    let rest = push_all cap full (acc ++ (x ∷ [])) xs in
    if ltb (length acc) cap then rest else err (full x)

module _ {E A : Type 0} (cap : ℕ) (full : A → E) where
  -- A loop of pushes that succeeds has copied everything, within the capacity.
  pub push_all_sound :
      (acc xs : List A) {r : List A}
      → length acc ≤ cap
      → push_all cap full acc xs ≡ ok r
      → (r ≡ acc ++ xs) × (length r ≤ cap)
  unfolding push_all
  push_all_sound acc [] le h = ground (arith, append-nil acc)
  push_all_sound acc (x ∷ xs) {r} le h = ground (
    arith,
    push_all_sound (acc ++ (x ∷ [])) xs {r = r},
    length-append acc (x ∷ []),
    append_assoc acc (x ∷ []) xs,
  )

  -- And it succeeds where the elements fit.
  pub push_all_total :
      (acc xs : List A) → length (acc ++ xs) ≤ cap → push_all cap full acc xs ≡ ok (acc ++ xs)
  unfolding push_all
  push_all_total acc [] le = ground (arith, append-nil acc)
  push_all_total acc (x ∷ xs) le = ground (
    arith,
    push_all_total (acc ++ (x ∷ [])) xs,
    length-append acc (x ∷ xs),
    append_assoc acc (x ∷ []) xs,
  )

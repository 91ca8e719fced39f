-- ===== src/Hub/Cdc/Ids.antt =====
-- The set of ids that `unique_ids` makes, and the ids that it refuses.
use uchi_pulse.Base.{
  ℕ, ◌≡◌, ◌≢◌, ◌↔◌, refl, true, false, ◌||◌, List, [], ◌∷◌, map, any, ◌==◌, ==_iff, ok, All, Any,
  Distinct, arith, Result-cases, inl, inr, IsOk,
}
use uchi_pulse.Hub.Cdc.{unique_ids}

-- The number is one of the list.
abbrev pub IsOneOf : List ℕ → ℕ → Type 0
IsOneOf ms n = Any (λ m. n ≡ m) ms

pub any_iff : (n : ℕ) (ms : List ℕ) → (any (λ m. n == m) ms ≡ true) ↔ IsOneOf ms n
any_iff n [] = ground arith
any_iff n (m ∷ ms) = ground (arith, any_iff n ms, ==_iff n m)

pub unseen_more :
    {A : Type 0} (key : A → ℕ) (n : ℕ) (seen : List ℕ) (xs : List A)
    → All (λ x. any (λ m. key x == m) (n ∷ seen) ≡ false) xs
      ↔ (All (λ x. n ≢ key x) xs × All (λ x. any (λ m. key x == m) seen ≡ false) xs)
unseen_more key n seen [] = ground arith
unseen_more key n seen (x ∷ xs) = ground (arith, unseen_more key n seen xs, ==_iff (key x) n)

pub unique_ids_iff :
    (seen ns : List ℕ)
    → IsOk (unique_ids seen ns)
      ↔ (All (λ n. any (λ m. n == m) seen ≡ false) ns × Distinct (λ n. n) ns)
unfolding unique_ids
unique_ids_iff seen [] = ground arith
unique_ids_iff seen (n ∷ ns) =
    ground (arith, unseen_more (λ (k : ℕ). k) n seen ns, unique_ids_iff (n ∷ seen) ns)

pub no_ids :
    {A : Type 0} (key : A → ℕ) (xs : List A) → All (λ x. any (λ m. key x == m) [] ≡ false) xs
no_ids key [] = tt
no_ids key (x ∷ xs) = (refl, no_ids key xs)

-- The set of the ids has the ids.
pub unique_ids-any :
    (seen ns r : List ℕ) (n : ℕ)
    → unique_ids seen ns ≡ ok r
    → any (λ m. n == m) r ≡ (any (λ m. n == m) ns || any (λ m. n == m) seen)
unfolding unique_ids
unique_ids-any seen [] r n h = ground arith
unique_ids-any seen (k ∷ ns) r n h = ground (arith, unique_ids-any (k ∷ seen) ns r n)

pub unique_ids_members :
    (ns r : List ℕ) (n : ℕ) → unique_ids [] ns ≡ ok r → IsOneOf r n ↔ IsOneOf ns n
unique_ids_members ns r n found =
    ground (arith, unique_ids-any [] ns r n, any_iff n r, any_iff n ns)

pub All-mapped :
    {A : Type 0} (key : A → ℕ) (n : ℕ) (xs : List A)
    → All (λ x. n ≢ key x) xs
    → All (λ m. n ≢ m) (map key xs)
All-mapped key n [] h = tt
All-mapped key n (x ∷ xs) h = (h.0, All-mapped key n xs h.1)

pub Distinct-map :
    {A : Type 0} (key : A → ℕ) (xs : List A) → Distinct key xs → Distinct (λ n. n) (map key xs)
Distinct-map key [] h = tt
Distinct-map key (x ∷ xs) h = (All-mapped key (key x) xs h.0, Distinct-map key xs h.1)

pub unique_ids_total :
    (ns : List ℕ) → Distinct (λ n. n) ns → (r : List ℕ) × (unique_ids [] ns ≡ ok r)
unique_ids_total ns h = elim (Result-cases (unique_ids [] ns)) [
  | inl (r, found) ↦ (r, found)
  | inr (e, failed) ↦
      let total = (unique_ids_iff [] ns).1 (no_ids (λ n. n) ns, h) in absurd (ground arith)
]

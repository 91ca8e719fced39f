-- ===== src/Store/Sqlite/Steps.antt =====
-- Sequences of statements that the constraints allow, and the tables that they lead to.
use uchi_pulse.Base.{
  Option-cases, ℕ, ◌≡◌, sym, subst, inl, inr, some, List, [], ◌∷◌, ◌++◌, map, append-nil,
  append_assoc, Result, ok, arith, Bool-cases,
}
use uchi_pulse.Store.Tables.{Tables}
use uchi_pulse.Store.Schema.{is_consistent}
use uchi_pulse.Store.Sqlite.{Change, write}
use uchi_pulse.Store.Sqlite.Atomic.{apply_all}

module _ {E : Type 0} where
  -- The steps, each allowed, lead from the tables `t` to the tables `after`.
  pub record Leads (steps : List (Result E Change)) (t after : Tables) : Type 0 where
    pub applied : apply_all steps t ≡ some after

  pub one_write :
      (f : Tables → ℕ × Tables) (rest : List (Result E Change)) (t after : Tables)
      → Leads (ok (write f) ∷ rest) t after
      → Leads rest (f t).1 after
  unfolding write
  one_write f rest t after h = elim (Bool-cases (is_consistent (f t).1)) [
    | inl allowed ↦ record { applied = let made = h.applied in ground arith }
    | inr refused ↦ record { applied = let made = h.applied in ground arith }
  ]

  -- Insertions of rows into one table, `put` back among the others.
  pub many_writes :
      {X R : Type 0} (f : X → Tables → ℕ × Tables) (put : List R → Tables) (row : X → R)
      → ((x : X) (rows : List R) → (f x (put rows)).1 ≡ put (rows ++ (row x ∷ [])))
      → (xs : List X) (rows : List R) (rest : List (Result E Change)) (after : Tables)
      → Leads (map (λ x. ok (write (f x))) xs ++ rest) (put rows) after
      → Leads rest (put (rows ++ map row xs)) after
  many_writes f put row adds [] rows rest after h =
      subst (λ rs. Leads rest (put rs) after) (sym (append-nil rows)) h
  many_writes f put row adds (x ∷ xs) rows rest after h =
      let next = one_write (f x) (map (λ y. ok (write (f y))) xs ++ rest) (put rows) after h in
      let moved =
        subst (λ t. Leads (map (λ y. ok (write (f y))) xs ++ rest) t after) (adds x rows) next in
      subst (λ rs. Leads rest (put rs) after) (append_assoc rows (row x ∷ []) (map row xs))
        (many_writes f put row adds xs (rows ++ (row x ∷ [])) rest after moved)

  -- The first step is allowed, and the others lead on from it.
  pub one_allowed :
      (change : Change) (rest : List (Result E Change)) (t after : Tables)
      → Leads (ok change ∷ rest) t after
      → (n : ℕ) × (u : Tables) × (change t ≡ some (n, u)) × Leads rest u after
  one_allowed change rest t after h = elim (Option-cases (change t)) [
    | inl refused ↦ absurd (let made = h.applied in ground arith)
    | inr ((n, u), allowed) ↦
        (n, u, allowed, record { applied = let made = h.applied in ground arith })
  ]

-- ===== src/Book/Sums.antt =====
-- Sums over the values of an association list, under insertion and removal of a key.
use chronicle_rs.Base.{
  ℕ, ◌+◌, ◌≡◌, refl, List, [], ◌∷◌, none, some, lookup, insert, remove, ◌==◌, arith, false,
}

module _ {ℓ} {V : Type ℓ} where
  abbrev pub sum_by : (V → ℕ) → List (ℕ × V) → ℕ
  sum_by f [] = 0
  sum_by f ((k, v) ∷ m) = f v + sum_by f m

  -- No key stands twice.
  abbrev pub Distinct : List (ℕ × V) → Type ℓ
  Distinct [] = Unit
  Distinct ((k, v) ∷ m) = (lookup k m ≡ none) × Distinct m

  remove_absent : (k : ℕ) (m : List (ℕ × V)) → lookup k m ≡ none → remove k m ≡ m
  unfolding lookup remove
  remove_absent k [] h = refl
  remove_absent k ((j, w) ∷ m) h = ground (arith, remove_absent k m)

  pub lookup-remove-none :
      (k j : ℕ) (m : List (ℕ × V)) → lookup j m ≡ none → lookup j (remove k m) ≡ none
  unfolding lookup remove
  lookup-remove-none k j [] h = refl
  lookup-remove-none k j ((i, w) ∷ m) h = ground (arith, lookup-remove-none k j m)

  pub remove-Distinct : (k : ℕ) (m : List (ℕ × V)) → Distinct m → Distinct (remove k m)
  unfolding remove
  remove-Distinct k [] d = tt
  remove-Distinct k ((j, w) ∷ m) d =
      ground (arith, remove-Distinct k m d.1, lookup-remove-none k j m d.0)

  lookup-insert-none :
      (k j : ℕ) (v : V) (m : List (ℕ × V))
      → lookup j m ≡ none
      → (k == j) ≡ false
      → lookup j (insert k v m) ≡ none
  unfolding lookup insert
  lookup-insert-none k j v [] h e = ground arith
  lookup-insert-none k j v ((i, w) ∷ m) h e = ground (arith, lookup-insert-none k j v m)

  pub insert-Distinct :
      (k : ℕ) (v : V) (m : List (ℕ × V)) → lookup k m ≡ none → Distinct m → Distinct (insert k v m)
  unfolding lookup insert
  insert-Distinct k v [] h d = (refl, tt)
  insert-Distinct k v ((j, w) ∷ m) h d =
      ground (arith, insert-Distinct k v m, lookup-insert-none k j v m)

  pub sum-insert :
      (f : V → ℕ) (k : ℕ) (v : V) (m : List (ℕ × V))
      → lookup k m ≡ none
      → sum_by f (insert k v m) ≡ f v + sum_by f m
  unfolding lookup insert
  sum-insert f k v [] h = refl
  sum-insert f k v ((j, w) ∷ m) h = ground (arith, sum-insert f k v m)

  -- Taking a key out takes its value out of the sum.
  pub sum-remove :
      (f : V → ℕ) (k : ℕ) (v : V) (m : List (ℕ × V))
      → Distinct m
      → lookup k m ≡ some v
      → sum_by f m ≡ f v + sum_by f (remove k m)
  unfolding lookup remove
  sum-remove f k v [] d h = cc
  sum-remove f k v ((j, w) ∷ m) d h = ground (arith, sum-remove f k v m, remove_absent k m)

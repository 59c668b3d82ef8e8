-- ===== src/Base/Assoc.antt =====
-- Finite maps with numeric keys as association lists: hash maps, ordered maps and directories.
use Prim.Native.Nat.{ℕ}
use mathlib.Core.Path.{◌≡◌, refl}
use mathlib.Core.List.{List, [], ◌∷◌, ◌++◌}
use mathlib.Core.Option.{Option, none, some}
use native.Mathlib.Omega.{arith}
use chronicle_rs.Base.Tests.{◌==◌, if◌then◌else◌}

module _ {ℓ} {Value : Type ℓ} where
  unfoldable pub lookup : ℕ → List (ℕ × Value) → Option Value
  lookup key [] = none
  lookup key ((at, value) ∷ rest) = if at == key then some value else lookup key rest

  unfoldable pub remove : ℕ → List (ℕ × Value) → List (ℕ × Value)
  remove key [] = []
  remove key ((at, value) ∷ rest) =
      if at == key then remove key rest else (at, value) ∷ remove key rest

  -- A key that is there keeps its place; a new one goes to the end.
  unfoldable pub insert : ℕ → Value → List (ℕ × Value) → List (ℕ × Value)
  insert key new [] = (key, new) ∷ []
  insert key new ((at, old) ∷ rest) =
      if at == key then (key, new) ∷ rest else (at, old) ∷ insert key new rest

  unfoldable pub keys : List (ℕ × Value) → List ℕ
  keys [] = []
  keys ((at, value) ∷ rest) = at ∷ keys rest

  pub lookup-insert :
      (key asked : ℕ) (new : Value) (entries : List (ℕ × Value))
      → lookup asked (insert key new entries)
        ≡ (if key == asked then some new else lookup asked entries)
  unfolding insert lookup
  lookup-insert key asked new [] = refl
  lookup-insert key asked new (entry ∷ rest) = ground (arith, lookup-insert key asked new rest)

  pub lookup-remove :
      (key asked : ℕ) (entries : List (ℕ × Value))
      → lookup asked (remove key entries) ≡ (if key == asked then none else lookup asked entries)
  unfolding lookup remove
  lookup-remove key asked [] = ground arith
  lookup-remove key asked ((at, value) ∷ rest) = ground (arith, lookup-remove key asked rest)

  -- A new key goes to the end.
  pub insert_new :
      (key : ℕ) (new : Value) (entries : List (ℕ × Value))
      → lookup key entries ≡ none
      → insert key new entries ≡ entries ++ ((key, new) ∷ [])
  unfolding lookup insert
  insert_new key new [] absent = refl
  insert_new key new ((at, old) ∷ rest) absent = ground (arith, insert_new key new rest)

  pub lookup-insert_self :
      (key : ℕ) (new : Value) (entries : List (ℕ × Value))
      → lookup key (insert key new entries) ≡ some new
  lookup-insert_self key new entries = ground (arith, lookup-insert key key new entries)

-- ===== src/Common/Dict.antt =====
-- A `HashMap` or `HashSet` keyed by machine numbers, as an association list: the newest entry for
-- a key is the one that counts. The program never relies on the order of iteration of these maps.
use Prim.Native.Nat.{ℕ, ◌+◌}
use mathlib.Core.Path.{◌≡◌, refl, ◌∙◌}
use mathlib.Core.Option.{Option, none, some}
use mathlib.Core.List.{List, [], ◌∷◌}
use native.Mathlib.Omega.{arith}
use zodex.Common.Tests.{◌==◌, if◌then◌else◌}

module _ {ℓ} {V : Type ℓ} where
  unfoldable pub lookup : ℕ → List (ℕ × V) → Option V
  lookup k [] = none
  lookup k ((j, v) ∷ m) = if j == k then some v else lookup k m

  unfoldable pub remove : ℕ → List (ℕ × V) → List (ℕ × V)
  remove k [] = []
  remove k ((j, v) ∷ m) = if j == k then remove k m else (j, v) ∷ remove k m

  unfoldable pub insert : ℕ → V → List (ℕ × V) → List (ℕ × V)
  insert k v m = (k, v) ∷ remove k m

  pub lookup-remove :
      (k j : ℕ) (m : List (ℕ × V)) → lookup j (remove k m) ≡ (if k == j then none else lookup j m)
  unfolding lookup remove
  lookup-remove k j [] = ground arith
  lookup-remove k j ((i, v) ∷ m) = ground (arith, lookup-remove k j m)

  pub lookup-insert :
      (k j : ℕ) (v : V) (m : List (ℕ × V))
      → lookup j (insert k v m) ≡ (if k == j then some v else lookup j m)
  unfolding lookup insert
  lookup-insert k j v m = ground (arith, lookup-remove k j m)

  unfoldable pub get_default : V → Option V → V
  get_default d none = d
  get_default d (some v) = v

-- Each key has one entry.
module _ {ℓ} {V : Type ℓ} where
  abbrev pub Distinct : List (ℕ × V) → Type ℓ
  Distinct [] = Unit
  Distinct ((k, v) ∷ m) = (lookup k m ≡ none) × Distinct m

  pub remove-Distinct : (k : ℕ) (m : List (ℕ × V)) → Distinct m → Distinct (remove k m)
  unfolding remove
  remove-Distinct k [] d = tt
  remove-Distinct k ((j, v) ∷ m) d =
      ground (arith, remove-Distinct k m d.1, lookup-remove k j m, d.0)

  pub insert-Distinct : (k : ℕ) (v : V) (m : List (ℕ × V)) → Distinct m → Distinct (insert k v m)
  unfolding insert
  insert-Distinct k v m d = (lookup-remove k k m ∙ ground arith, remove-Distinct k m d)

  -- The sum of a weight over the entries.
  module _ (w : V → ℕ) where
    abbrev pub total : List (ℕ × V) → ℕ
    total [] = 0
    total ((k, v) ∷ m) = w v + total m

    abbrev pub weight : Option V → ℕ
    weight none = 0
    weight (some v) = w v

    pub total-remove-none :
        (k : ℕ) (m : List (ℕ × V)) → lookup k m ≡ none → total (remove k m) ≡ total m
    unfolding lookup remove
    total-remove-none k [] e = refl
    total-remove-none k ((j, v) ∷ m) e = ground (arith, total-remove-none k m)

    pub total-remove :
        (k : ℕ) (m : List (ℕ × V)) → Distinct m → total (remove k m) + weight (lookup k m) ≡ total m
    unfolding lookup remove
    total-remove k [] d = omega arith
    total-remove k ((j, v) ∷ m) d = ground (arith, total-remove k m d.1, total-remove-none k m, d.0)

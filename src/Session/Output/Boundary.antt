-- ===== src/Session/Output/Boundary.antt =====
-- The two searches for a character boundary, up and down.
use zodex.Common.{
  ℕ, zero, suc, ◌+◌, ◌≤◌, ◌≡◌, refl, inl, inr, true, [], ◌∷◌, none, arith, Bytes, length, get_elem?,
  Bool-cases, leb,
}
use zodex.Session.Output.{is_char_boundary, boundary_loop, next_char_boundary, floor_boundary}

get_elem?_end : (s : Bytes) (i : ℕ) → length s ≤ i → get_elem? s i ≡ none
get_elem?_end [] i h = refl
get_elem?_end (x ∷ s) zero h = elim h [ ]
get_elem?_end (x ∷ s) (suc i) h = get_elem?_end s i (omega arith)

is_char_boundary_end : (s : Bytes) → is_char_boundary s (length s) ≡ true
unfolding is_char_boundary
is_char_boundary_end s = ground (arith, get_elem?_end s (length s))

-- The first boundary at or above an index: between the index and the end of the text.
abbrev pub IsNext : Bytes → ℕ → ℕ → Type 0
IsNext s i r = (i ≤ r) × (r ≤ length s) × (is_char_boundary s r ≡ true)

boundary_loop-IsNext :
    (fuel : ℕ) (s : Bytes) (i : ℕ)
    → i ≤ length s
    → length s ≤ i + fuel
    → IsNext s i (boundary_loop fuel s i)
unfolding boundary_loop
boundary_loop-IsNext zero s i h f =
    let e : i ≡ length s = omega arith in (omega arith, omega arith, rw e (is_char_boundary_end s))
boundary_loop-IsNext (suc fuel) s i h f =
    ground (arith, boundary_loop-IsNext fuel s (i + 1), is_char_boundary_end s)

pub next_char_boundary-IsNext :
    (s : Bytes) (i : ℕ) → i ≤ length s → IsNext s i (next_char_boundary s i)
unfolding next_char_boundary
next_char_boundary-IsNext s i h = elim (Bool-cases (leb (length s) i)) [
  | inl e ↦ rw e (omega arith, omega arith, is_char_boundary_end s)
  | inr e ↦ rw e (boundary_loop-IsNext (length s) s i h (omega arith))
]

pub floor_boundary-le : (s : Bytes) (n : ℕ) → floor_boundary s n ≤ n
unfolding floor_boundary
floor_boundary-le s zero = omega arith
floor_boundary-le s (suc n) = ground (arith, floor_boundary-le s n)

pub floor_boundary-is_char_boundary :
    (s : Bytes) (n : ℕ) → is_char_boundary s (floor_boundary s n) ≡ true
unfolding floor_boundary
floor_boundary-is_char_boundary s zero = unfold is_char_boundary in refl
floor_boundary-is_char_boundary s (suc n) = ground (arith, floor_boundary-is_char_boundary s n)

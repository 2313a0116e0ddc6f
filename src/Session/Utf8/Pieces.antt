-- ===== src/Session/Utf8/Pieces.antt =====
-- The UTF-8 validator of `from_utf8`: the size of a piece, and pieces under further bytes.
use native.Mathlib.Nat.{add_assoc}
use zodex.Common.{
  ℕ, zero, suc, ◌+◌, ◌≤◌, ◌≡◌, refl, ◌⊎◌, inl, inr, [], ◌∷◌, ◌++◌, arith, Bytes, length, drop,
  length-drop,
}
use zodex.Session.Utf8.{Piece, whole, bad, short, piece, Utf8, valid, error, validate}

-- A piece has a byte at least, and no more than there are.
abbrev pub Fits : Bytes → Piece → Type 0
Fits xs (whole n) = (1 ≤ n) × (n ≤ length xs)
Fits xs (bad n) = (1 ≤ n) × (n ≤ length xs)
Fits xs short = length xs ≤ 3

pub piece-Fits : (b : ℕ) (bs : Bytes) → Fits (b ∷ bs) (piece b bs)
unfolding piece
piece-Fits b [] = ground arith
piece-Fits b (c ∷ []) = ground arith
piece-Fits b (c ∷ d ∷ []) = ground arith
piece-Fits b (c ∷ d ∷ e ∷ r) = ground arith

-- A verdict other than `short` stands, whatever bytes follow.
pub piece-append_whole :
    (b n : ℕ) (bs ys : Bytes) → piece b bs ≡ whole n → piece b (bs ++ ys) ≡ whole n
unfolding piece
piece-append_whole b n [] [] h = h
piece-append_whole b n [] (y ∷ ys) h = ground arith
piece-append_whole b n (c ∷ []) ys h = ground arith
piece-append_whole b n (c ∷ d ∷ []) ys h = ground arith
piece-append_whole b n (c ∷ d ∷ e ∷ r) ys h = ground arith

pub piece-append_bad : (b n : ℕ) (bs ys : Bytes) → piece b bs ≡ bad n → piece b (bs ++ ys) ≡ bad n
unfolding piece
piece-append_bad b n [] [] h = h
piece-append_bad b n [] (y ∷ ys) h = ground arith
piece-append_bad b n (c ∷ []) [] h = ground arith
piece-append_bad b n (c ∷ []) (y ∷ ys) h = ground arith
piece-append_bad b n (c ∷ d ∷ []) ys h = ground arith
piece-append_bad b n (c ∷ d ∷ e ∷ r) ys h = ground arith

pub Piece-cases : (p : Piece) → ((n : ℕ) × (p ≡ whole n)) ⊎ ((n : ℕ) × (p ≡ bad n)) ⊎ (p ≡ short)
Piece-cases (whole n) = inl (n, refl)
Piece-cases (bad n) = inr (inl (n, refl))
Piece-cases short = inr (inr refl)

abbrev pub shift : ℕ → Utf8 → Utf8
shift n valid = valid
shift n (error v e) = error (n + v) e

-- Neither the index at which it begins nor the fuel left over changes what is found.
pub validate-shift :
    (f g n i : ℕ) (xs : Bytes)
    → length xs ≤ f
    → length xs ≤ g
    → validate f (n + i) xs ≡ shift n (validate g i xs)
unfolding validate
validate-shift zero zero n i [] hf hg = refl
validate-shift zero (suc g) n i [] hf hg = refl
validate-shift (suc f) zero n i [] hf hg = refl
validate-shift (suc f) (suc g) n i [] hf hg = refl
validate-shift zero g n i (x ∷ xs) hf hg = elim hf [ ]
validate-shift (suc f) zero n i (x ∷ xs) hf hg = elim hg [ ]
validate-shift (suc f) (suc g) n i (b ∷ bs) hf hg = elim (Piece-cases (piece b bs)) [
  | inl (m, e) ↦
      let fits : Fits (b ∷ bs) (whole m) = rw e at (piece-Fits b bs) in
      rw (e, validate, add_assoc n i m)
        (validate-shift f g n (i + m) (drop m (b ∷ bs)) (omega (arith, length-drop m (b ∷ bs)))
          (omega (arith, length-drop m (b ∷ bs))))
  | inr (inl (m, e)) ↦ rw (e, validate)
  | inr (inr e) ↦ rw (e, validate)
]

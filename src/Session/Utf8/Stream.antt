-- ===== src/Session/Utf8/Stream.antt =====
-- The decoder loop of `push`, piece by piece, and streams cut at any byte.
use native.Mathlib.Nat.{zero-add, add_assoc}
use zodex.Common.{
  ℕ, zero, suc, ◌+◌, ◌≤◌, ◌≡◌, refl, sym, ap, ◌∙◌, ◌⊎◌, inl, inr, [], ◌∷◌, ◌++◌, append-nil,
  append_assoc, none, some, arith, Bytes, length, take, drop, length-drop, take-append-drop,
  take-add, drop-add,
}
use zodex.Session.Utf8.{
  whole, bad, short, piece, Utf8, valid, error, validate, from_utf8, replacement, push_loop,
  StreamingUtf8Decoder, push,
}
use zodex.Session.Utf8.Pieces.{Fits, piece-Fits, Piece-cases, shift, validate-shift}

pub Utf8-cases :
    (u : Utf8)
    → (u ≡ valid) ⊎ ((v : ℕ) × (u ≡ error v none)) ⊎ ((v : ℕ) × (k : ℕ) × (u ≡ error v (some k)))
Utf8-cases valid = inl refl
Utf8-cases (error v none) = inr (inl (v, refl))
Utf8-cases (error v (some k)) = inr (inr (v, k, refl))

abbrev Progress : Utf8 → Type 0
Progress valid = Unit {0}
Progress (error v none) = Unit {0}
Progress (error v (some k)) = 1 ≤ k

validate-Progress : (f i : ℕ) (xs : Bytes) → Progress (validate f i xs)
unfolding validate
validate-Progress zero i xs = tt
validate-Progress (suc f) i [] = tt
validate-Progress (suc f) i (b ∷ bs) = elim (Piece-cases (piece b bs)) [
  | inl (m, e) ↦ rw (e, validate) (validate-Progress f (i + m) (drop m (b ∷ bs)))
  | inr (inl (m, e)) ↦
      let fits : Fits (b ∷ bs) (bad m) = rw e at (piece-Fits b bs) in rw (e, validate) fits.0
  | inr (inr e) ↦ rw (e, validate) tt
]

from_utf8-Progress : (xs : Bytes) → Progress (from_utf8 xs)
unfolding from_utf8
from_utf8-Progress xs = validate-Progress (length xs) 0 xs

-- A whole scalar in front shifts what the validator finds behind it.
from_utf8_whole :
    (b n : ℕ) (bs : Bytes)
    → piece b bs ≡ whole n
    → from_utf8 (b ∷ bs) ≡ shift n (from_utf8 (drop n (b ∷ bs)))
unfolding from_utf8 validate
from_utf8_whole b n bs e =
    let fits : Fits (b ∷ bs) (whole n) = rw e at (piece-Fits b bs) in
    let start : n + 0 ≡ 0 + n = omega arith in
    rw (e, validate, ← start)
      (validate-shift (length bs) (length (drop n (b ∷ bs))) n 0 (drop n (b ∷ bs))
        (omega (arith, length-drop n (b ∷ bs))) (omega arith))

abbrev pub prepend : Bytes → Bytes × Bytes → Bytes × Bytes
prepend o r = (o ++ r.0, r.1)

prepend-prepend : (a b : Bytes) (r : Bytes × Bytes) → prepend a (prepend b r) ≡ prepend (a ++ b) r
prepend-prepend a b r = rw append_assoc

-- What `push_loop` makes of a slice, with fuel enough and no text before it.
pub decode : Bytes → Bytes × Bytes
decode xs = push_loop (length xs) [] xs

-- The text so far stays in front.
push_loop-prepend : (f : ℕ) (out xs : Bytes) → push_loop f out xs ≡ prepend out (push_loop f [] xs)
unfolding push_loop
push_loop-prepend zero out xs = rw append-nil
push_loop-prepend (suc f) out [] = rw append-nil
push_loop-prepend (suc f) out (b ∷ bs) = elim (Utf8-cases (from_utf8 (b ∷ bs))) [
  | inl e ↦ rw (e, push_loop)
  | inr (inl (v, e)) ↦ rw (e, push_loop)
  | inr (inr (v, k, e)) ↦
      let next = take v (b ∷ bs) ++ replacement in
      let rest = drop (v + k) (b ∷ bs) in
      rw (e, push_loop, append_assoc out (take v (b ∷ bs)) replacement)
        (push_loop-prepend f (out ++ next) rest
          ∙ sym (prepend-prepend out next (push_loop f [] rest))
          ∙ ap (prepend out) (sym (push_loop-prepend f next rest)))
]

-- So does the fuel left over make no difference.
push_loop-fuel :
    (f g : ℕ) (out xs : Bytes)
    → length xs ≤ f
    → length xs ≤ g
    → push_loop f out xs ≡ push_loop g out xs
unfolding push_loop
push_loop-fuel zero zero out [] hf hg = refl
push_loop-fuel zero (suc g) out [] hf hg = refl
push_loop-fuel (suc f) zero out [] hf hg = refl
push_loop-fuel (suc f) (suc g) out [] hf hg = refl
push_loop-fuel zero g out (x ∷ xs) hf hg = elim hf [ ]
push_loop-fuel (suc f) zero out (x ∷ xs) hf hg = elim hg [ ]
push_loop-fuel (suc f) (suc g) out (b ∷ bs) hf hg = elim (Utf8-cases (from_utf8 (b ∷ bs))) [
  | inl e ↦ rw (e, push_loop)
  | inr (inl (v, e)) ↦ rw (e, push_loop)
  | inr (inr (v, k, e)) ↦
      let some_byte : 1 ≤ k = rw e at (from_utf8-Progress (b ∷ bs)) in
      rw (e, push_loop)
        (push_loop-fuel f g _ (drop (v + k) (b ∷ bs)) (omega (arith, length-drop (v + k) (b ∷ bs)))
          (omega (arith, length-drop (v + k) (b ∷ bs))))
]

pub push_loop-decode :
    (f : ℕ) (out xs : Bytes) → length xs ≤ f → push_loop f out xs ≡ prepend out (decode xs)
unfolding decode
push_loop-decode f out xs h =
    push_loop-prepend f out xs
    ∙ ap (prepend out) (push_loop-fuel f (length xs) [] xs h (omega arith))

pub decode_nil : decode [] ≡ ([], [])
unfolding decode push_loop
decode_nil = refl

from_utf8_nil : from_utf8 [] ≡ valid
unfolding from_utf8 validate
from_utf8_nil = refl

module _ (v : ℕ) where
  pub decode_valid : (xs : Bytes) → from_utf8 xs ≡ valid → decode xs ≡ (xs, [])
  unfolding decode push_loop
  decode_valid [] e = refl
  decode_valid (b ∷ bs) e = rw (e, push_loop)

  decode_cut : (xs : Bytes) → from_utf8 xs ≡ error v none → decode xs ≡ (take v xs, drop v xs)
  unfolding decode push_loop
  decode_cut [] e = cc (from_utf8_nil)
  decode_cut (b ∷ bs) e = rw (e, push_loop)

  decode_invalid :
      (k : ℕ) (xs : Bytes)
      → from_utf8 xs ≡ error v (some k)
      → decode xs ≡ prepend (take v xs ++ replacement) (decode (drop (v + k) xs))
  unfolding decode push_loop
  decode_invalid k [] e = cc (from_utf8_nil)
  decode_invalid k (b ∷ bs) e =
      let some_byte : 1 ≤ k = rw e at (from_utf8-Progress (b ∷ bs)) in
      rw (e, push_loop)
        (push_loop-decode (length bs) (take v (b ∷ bs) ++ replacement) (drop (v + k) (b ∷ bs))
          (omega (arith, length-drop (v + k) (b ∷ bs))))

module _ (b : ℕ) (bs : Bytes) where
  pub decode_short : piece b bs ≡ short → decode (b ∷ bs) ≡ ([], b ∷ bs)
  unfolding from_utf8 validate
  decode_short e = decode_cut 0 (b ∷ bs) (rw (e, validate))

  pub decode_bad :
      (n : ℕ)
      → piece b bs ≡ bad n
      → decode (b ∷ bs) ≡ prepend replacement (decode (drop n (b ∷ bs)))
  unfolding from_utf8 validate
  decode_bad n e = decode_invalid 0 n (b ∷ bs) (rw (e, validate)) ∙ rw zero-add

  pub decode_whole :
      (n : ℕ)
      → piece b bs ≡ whole n
      → decode (b ∷ bs) ≡ prepend (take n (b ∷ bs)) (decode (drop n (b ∷ bs)))
  decode_whole n e =
      let xs = b ∷ bs in
      let rest = drop n xs in
      let shifted = from_utf8_whole b n bs e in
      elim (Utf8-cases (from_utf8 rest)) [
        | inl u ↦
            decode_valid 0 xs (shifted ∙ ap (shift n) u)
            ∙ rw (decode_valid 0 rest u, take-append-drop n xs)
        | inr (inl (v, u)) ↦
            decode_cut (n + v) xs (shifted ∙ ap (shift n) u)
            ∙ rw (decode_cut v rest u, take-add n v xs, drop-add n v xs)
        | inr (inr (v, k, u)) ↦
            decode_invalid (n + v) k xs (shifted ∙ ap (shift n) u)
            ∙ rw
                (decode_invalid v k rest u, take-add n v xs, add_assoc n v k, drop-add n (v + k) xs)
                (simp append_assoc)
      ]

pub push-decode :
    (d : StreamingUtf8Decoder) (a : Bytes)
    → push d a ≡ ((decode (d.pending ++ a)).0, record { pending = (decode (d.pending ++ a)).1 })
unfolding push decode
push-decode d a = refl

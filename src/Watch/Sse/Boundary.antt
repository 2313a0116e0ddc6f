-- ===== src/Watch/Sse/Boundary.antt =====
-- The first boundary of a stream, once it is there, is not moved by what follows.
use zodex.Common.{
  ℕ, suc, ◌+◌, ◌≤◌, ◌≡◌, refl, inl, inr, true, ◌&&◌, [], ◌∷◌, ◌++◌, some, arith, ◌==◌, Bytes,
  length, Bool-cases, Option-cases,
}
use zodex.Watch.Sse.{starts_blank, starts_blank_crlf, next_event_boundary}

blank_length : (xs : Bytes) → starts_blank xs ≡ true → 2 ≤ length xs
blank_length [] h = cc (h)
blank_length (a ∷ []) h = cc (h)
blank_length (a ∷ b ∷ xs) h = omega arith

crlf_length : (xs : Bytes) → starts_blank_crlf xs ≡ true → 4 ≤ length xs
crlf_length [] h = cc (h)
crlf_length (a ∷ []) h = cc (h)
crlf_length (a ∷ b ∷ []) h = cc (h)
crlf_length (a ∷ b ∷ c ∷ []) h = cc (h)
crlf_length (a ∷ b ∷ c ∷ d ∷ xs) h = omega arith

-- A boundary has room for its delimiter.
pub boundary_fits :
    (xs : Bytes) (end len : ℕ)
    → next_event_boundary xs ≡ some (end, len)
    → (end + len ≤ length xs) × (2 ≤ len)
unfolding next_event_boundary
boundary_fits [] end len e = cc (e)
boundary_fits (b ∷ rest) end len e = elim (Bool-cases (starts_blank (b ∷ rest))) [
  | inl blank ↦
      let p : 0 ≡ end = cc (rw blank at e) in
      let q : 2 ≡ len = cc (rw blank at e) in
      (omega (arith, p, q, blank_length (b ∷ rest) blank), omega (arith, q))
  | inr f ↦ elim (Bool-cases (starts_blank_crlf (b ∷ rest))) [
    | inl crlf ↦
        let p : 0 ≡ end = cc (rw (f, crlf) at e) in
        let q : 4 ≡ len = cc (rw (f, crlf) at e) in
        (omega (arith, p, q, crlf_length (b ∷ rest) crlf), omega (arith, q))
    | inr g ↦ elim (Option-cases (next_event_boundary rest)) [
      | inl h ↦ cc (rw (f, g, h) at e)
      | inr ((i, n), h) ↦
          let p : suc i ≡ end = cc (rw (f, g, h) at e) in
          let q : n ≡ len = cc (rw (f, g, h) at e) in
          let (fits, wide) = boundary_fits rest i n h in
          (omega (arith, p, q, fits), omega (arith, q, wide))
    ]
  ]
]

-- Two bytes decide the first test.
blank_more : (xs ys : Bytes) → 2 ≤ length xs → starts_blank (xs ++ ys) ≡ starts_blank xs
blank_more [] ys h = absurd (omega (arith, h))
blank_more (a ∷ []) ys h = absurd (omega (arith, h))
blank_more (a ∷ b ∷ xs) ys h = refl

crlf_long : (xs ys : Bytes) → 4 ≤ length xs → starts_blank_crlf (xs ++ ys) ≡ starts_blank_crlf xs
crlf_long [] ys h = absurd (omega (arith, h))
crlf_long (a ∷ []) ys h = absurd (omega (arith, h))
crlf_long (a ∷ b ∷ []) ys h = absurd (omega (arith, h))
crlf_long (a ∷ b ∷ c ∷ []) ys h = absurd (omega (arith, h))
crlf_long (a ∷ b ∷ c ∷ d ∷ xs) ys h = refl

-- Four bytes decide the second; with fewer, a boundary behind the first byte is a blank line,
-- and no carriage return stands in it.
crlf_more :
    (b : ℕ) (rest ys : Bytes) (end len : ℕ)
    → next_event_boundary rest ≡ some (end, len)
    → starts_blank_crlf ((b ∷ rest) ++ ys) ≡ starts_blank_crlf (b ∷ rest)
unfolding next_event_boundary
crlf_more b [] ys end len e = cc (e)
crlf_more b (c ∷ []) ys end len e = cc (e)
crlf_more b (c ∷ d ∷ []) [] end len e = refl
crlf_more b (c ∷ d ∷ []) (y ∷ ys) end len e = elim (Bool-cases ((c == 10) && (d == 10))) [
  | inl h ↦ ground (arith, h)
  | inr h ↦ cc (rw h at e)
]
crlf_more b (c ∷ d ∷ x ∷ rest) ys end len e = refl

pub boundary-append :
    (xs ys : Bytes) (end len : ℕ)
    → next_event_boundary xs ≡ some (end, len)
    → next_event_boundary (xs ++ ys) ≡ some (end, len)
unfolding next_event_boundary
boundary-append [] ys end len e = cc (e)
boundary-append (b ∷ rest) ys end len e = elim (Bool-cases (starts_blank (b ∷ rest))) [
  | inl blank ↦ rw (blank_more (b ∷ rest) ys (blank_length (b ∷ rest) blank), blank) (rw blank at e)
  | inr f ↦ elim (Bool-cases (starts_blank_crlf (b ∷ rest))) [
    | inl crlf ↦
        let long = crlf_length (b ∷ rest) crlf in
        rw (blank_more (b ∷ rest) ys (omega (arith, long)), f, crlf_long (b ∷ rest) ys long, crlf)
          (rw (f, crlf) at e)
    | inr g ↦ elim (Option-cases (next_event_boundary rest)) [
      | inl h ↦ cc (rw (f, g, h) at e)
      | inr ((i, n), h) ↦
          let (fits, wide) = boundary_fits rest i n h in
          rw
            (
              blank_more (b ∷ rest) ys (omega (arith, fits, wide)),
              f,
              crlf_more b rest ys i n h,
              g,
              boundary-append rest ys i n h,
            )
            (rw (f, g, h) at e)
    ]
  ]
]

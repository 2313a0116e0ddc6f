-- ===== src/Patch/Recovery/Unique.antt =====
-- A place that is found is the only one of its kind.
use zodex.Common.{
  ℕ, zero, suc, ◌+◌, ◌≤◌, ◌≡◌, refl, ap, subst, ◌⊎◌, inl, inr, Bool, true, false, ◌||◌, List, [],
  ◌∷◌, some, arith, ltb, ◌==◌, length, drop, Bool-cases,
}
use zodex.Patch.Recovery.{
  Line, Scan, nowhere, ambiguous, once, all_match, scan_starts, locate_with, locate, line_equals,
  trailing_space_equals, surrounding_space_equals,
}

module _ (matcher : Line → Line → Bool) (old : List Line) where
  abbrev pub MatchAt : List Line → ℕ → Type 0
  MatchAt lines t = all_match matcher (drop t lines) old ≡ true

  -- The old lines stand at `t`, and nowhere else.
  pub record Only (lines : List Line) (t : ℕ) : Type 0 where
    pub here : MatchAt lines t
    pub only : (u : ℕ) → u ≤ length lines → MatchAt lines u → u ≡ t

  Scan-cases : (s : Scan) → (s ≡ nowhere) ⊎ (s ≡ ambiguous) ⊎ ((k : ℕ) × (s ≡ once k))
  Scan-cases nowhere = inl refl
  Scan-cases ambiguous = inr (inl refl)
  Scan-cases (once k) = inr (inr (k, refl))

  scan_starts-nowhere :
      (lines : List Line) (k : ℕ)
      → scan_starts matcher lines old k ≡ nowhere
      → (u : ℕ) → u ≤ length lines
      → MatchAt lines u
      → ⊥
  unfolding scan_starts
  scan_starts-nowhere [] k e zero h m = cc (rw m at e)
  scan_starts-nowhere [] k e (suc u) h m = omega (arith, h)
  scan_starts-nowhere (line ∷ lines) k e zero h m =
      elim (Scan-cases (scan_starts matcher lines old (suc k))) [
        | inl s ↦ cc (rw (m, s) at e)
        | inr (inl s) ↦ cc (rw (m, s) at e)
        | inr (inr (j, s)) ↦ cc (rw (m, s) at e)
      ]
  scan_starts-nowhere (line ∷ lines) k e (suc u) h m =
      elim (Bool-cases (all_match matcher (line ∷ lines) old)) [
        | inl t ↦ elim (Scan-cases (scan_starts matcher lines old (suc k))) [
          | inl s ↦ cc (rw (t, s) at e)
          | inr (inl s) ↦ cc (rw (t, s) at e)
          | inr (inr (j, s)) ↦ cc (rw (t, s) at e)
        ]
        | inr f ↦ scan_starts-nowhere lines (suc k) (rw f at e) u (omega (arith, h)) m
      ]

  scan_starts-once :
      (lines : List Line) (k s : ℕ)
      → scan_starts matcher lines old k ≡ once s
      → (t : ℕ) × (s ≡ k + t) × (t ≤ length lines) × Only lines t
  unfolding scan_starts
  scan_starts-once [] k s e = elim (Bool-cases (all_match matcher [] old)) [
    | inl m ↦
        let same : k ≡ s = cc (rw m at e) in
        (0, omega (arith, same), omega arith, record { here = m; only = λ u h n. omega (arith, h) })
    | inr f ↦ cc (rw f at e)
  ]
  scan_starts-once (line ∷ lines) k s e = elim (Bool-cases (all_match matcher (line ∷ lines) old)) [
    | inl m ↦ elim (Scan-cases (scan_starts matcher lines old (suc k))) [
      | inl n ↦
          let same : k ≡ s = cc (rw (m, n) at e) in
          (0, omega (arith, same), omega arith, record { here = m; only = first n })
      | inr (inl n) ↦ cc (rw (m, n) at e)
      | inr (inr (j, n)) ↦ cc (rw (m, n) at e)
    ]
    | inr f ↦
        let (t, sum, fits, found) = scan_starts-once lines (suc k) s (rw f at e) in
        (
          suc t,
          omega (arith, sum),
          omega (arith, fits),
          record { here = found.here; only = behind f t found },
        )
  ]
    where
      first :
          scan_starts matcher lines old (suc k) ≡ nowhere
          → (u : ℕ) → u ≤ length (line ∷ lines)
          → MatchAt (line ∷ lines) u
          → u ≡ 0
      first n zero h m = refl
      first n (suc u) h m = absurd (scan_starts-nowhere lines (suc k) n u (omega (arith, h)) m)

      behind :
          all_match matcher (line ∷ lines) old ≡ false
          → (t : ℕ) → Only lines t
          → (u : ℕ) → u ≤ length (line ∷ lines)
          → MatchAt (line ∷ lines) u
          → u ≡ suc t
      behind f t found zero h m = cc (m, f)
      behind f t found (suc u) h m = ap suc (found.only u (omega (arith, h)) m)

-- One of the comparisons finds the old lines there only.
abbrev pub FoundBy : List (Line → Line → Bool) → List Line → List Line → ℕ → Type 0
FoundBy [] lines old s = ⊥
FoundBy (matcher ∷ matchers) lines old s = Only matcher old lines s ⊎ FoundBy matchers lines old s

locate_with-FoundBy :
    (matchers : List (Line → Line → Bool)) (lines old : List Line) (s : ℕ)
    → locate_with matchers lines old ≡ some s
    → FoundBy matchers lines old s
unfolding locate_with
locate_with-FoundBy [] lines old s e = cc (e)
locate_with-FoundBy (matcher ∷ matchers) lines old s e =
    elim (Scan-cases matcher old (scan_starts matcher lines old 0)) [
      | inl n ↦ inr (locate_with-FoundBy matchers lines old s (rw (n, locate_with) at e))
      | inr (inl n) ↦ cc (rw (n, locate_with) at e)
      | inr (inr (j, n)) ↦
          let same : j ≡ s = cc (rw (n, locate_with) at e) in
          let (t, sum, fits, found) = scan_starts-once matcher old lines 0 j n in
          let here : t ≡ s = omega (arith, sum, same) in
          inl (subst (Only matcher old lines) here found)
    ]

-- Where the old lines are located, one of the three comparisons finds them there, and at no other
-- place of the file.
pub locate-FoundBy :
    (lines old : List Line) (s : ℕ)
    → locate lines old ≡ some s
    → FoundBy (line_equals ∷ trailing_space_equals ∷ surrounding_space_equals ∷ []) lines old s
unfolding locate
locate-FoundBy lines old s e =
    elim (Bool-cases ((length old == 0) || ltb (length lines) (length old))) [
      | inl f ↦ cc (rw f at e)
      | inr f ↦
          locate_with-FoundBy (line_equals ∷ trailing_space_equals ∷ surrounding_space_equals ∷ [])
            lines old s (rw f at e)
    ]

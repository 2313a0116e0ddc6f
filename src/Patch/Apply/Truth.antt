-- ===== src/Patch/Apply/Truth.antt =====
-- What is reported as applied was done by the crate, or by the replacement of a file.
use zodex.Common.{
  ap, ℕ, suc, ◌≡◌, refl, ◌⊎◌, inl, inr, ◌&&◌, List, [], ◌∷◌, ◌++◌, Option, none, some, Bool-cases,
  Option-cases, get_elem?, Bytes,
}
use zodex.Common.Dict.{lookup}
use zodex.Patch.Paths.{FilePath}
use zodex.Patch.Replacement.{ReplaceError, replace_regular_file}
use zodex.Patch.Conflicts.{Hunk, add_file, delete_file, update_file, contains}
use zodex.Patch.Apply.{
  whole, Applied, replaced, untouched, is_context_failure, failure_reason, Failure, Attempt, done,
  failure, Host, hunk_label, Progress, after_retry, retry, after_attempt, after_replacement,
  replace, replace_by, values, apply_one, apply_each, reordered,
}

module _ {W Staged : Type 0} (host : Host W Staged) where
  -- An operation that the crate has done, as it stands or with its chunks reordered.
  pub record Done (hunk : Hunk) : Type 0 where
    pub as_done : Hunk
    pub before : W
    pub after : W
    pub same : (as_done ≡ hunk) ⊎ (reordered host hunk before ≡ some as_done)
    pub success : host.apply_hunk as_done before ≡ (done, after)

  -- A file that the replacement has left with the contents, without an error.
  pub record Replaced (path : FilePath) : Type 0 where
    pub contents : Bytes
    pub before : W
    pub after : W
    pub success : replace_regular_file host.files path contents before ≡ (none, after)

  -- An entry of the report is of an operation that was done.
  abbrev pub IsTrue : Applied → Type 0
  IsTrue entry =
      ((hunk : Hunk) × (entry ≡ whole (hunk_label hunk)) × Done hunk)
      ⊎ ((path : FilePath) × (entry ≡ replaced path) × Replaced path)

  abbrev pub AllTrue : List Applied → Type 0
  AllTrue [] = Unit
  AllTrue (entry ∷ entries) = IsTrue entry × AllTrue entries

  AllTrue-append :
      (entries : List Applied) (entry : Applied)
      → AllTrue entries
      → IsTrue entry
      → AllTrue (entries ++ entry ∷ [])
  AllTrue-append [] entry all t = (t, tt)
  AllTrue-append (e ∷ entries) entry all t = (all.0, AllTrue-append entries entry all.1 t)

  after_retry-AllTrue :
      (hunk in_order : Hunk) (first : Failure) (p : Progress W) (w : W) (r : Attempt × W)
      → reordered host hunk w ≡ some in_order
      → host.apply_hunk in_order w ≡ r
      → AllTrue p.applied
      → AllTrue (after_retry host hunk first p r).applied
  unfolding after_retry
  after_retry-AllTrue hunk in_order first p w (done, w') e run all =
      AllTrue-append p.applied _ all (
        inl (
          hunk,
          refl,
          record { as_done = in_order; before = w; after = w'; same = inr e; success = run },
        ))
  after_retry-AllTrue hunk in_order first p w (failure second, w') e run all = all

  retry-AllTrue :
      (hunk : Hunk) (first : Failure) (p : Progress W) (w : W)
      → AllTrue p.applied
      → AllTrue (retry host hunk first p (reordered host hunk w) w).applied
  unfolding retry
  retry-AllTrue hunk first p w all = elim (Option-cases (reordered host hunk w)) [
    | inl e ↦ rw (e, retry) all
    | inr (in_order, e) ↦ rw (e, retry) (after_retry-AllTrue hunk in_order first p w _ e refl all)
  ]

  after_attempt-AllTrue :
      (hunk : Hunk) (p : Progress W) (w : W) (r : Attempt × W)
      → host.apply_hunk hunk w ≡ r
      → AllTrue p.applied
      → AllTrue (after_attempt host hunk p r).applied
  unfolding after_attempt retry
  after_attempt-AllTrue hunk p w (done, w') run all = AllTrue-append p.applied _ all (
      inl (
        hunk,
        refl,
        record { as_done = hunk; before = w; after = w'; same = inl refl; success = run },
      ))
  after_attempt-AllTrue hunk p w (failure first, w') run all =
      elim (Bool-cases (is_context_failure (failure_reason first) && untouched first)) [
        | inl again ↦ rw (after_attempt, again) (retry-AllTrue hunk first p w' all)
        | inr once ↦ rw (after_attempt, once) all
      ]

  after_replacement-AllTrue :
      (path : FilePath) (contents : Bytes) (p : Progress W) (w : W) (r : Option ReplaceError × W)
      → replace_regular_file host.files path contents w ≡ r
      → AllTrue p.applied
      → AllTrue (after_replacement host path p r).applied
  unfolding after_replacement
  after_replacement-AllTrue path contents p w (none, w') run all =
      AllTrue-append p.applied _ all
        (inr (path, refl, record { contents = contents; before = w; after = w'; success = run }))
  after_replacement-AllTrue path contents p w (some error, w') run all = all

  replace-AllTrue :
      (path : FilePath) (contents : Bytes) (p : Progress W)
      → AllTrue p.applied
      → AllTrue (replace host path contents p).applied
  unfolding replace
  replace-AllTrue path contents p all = elim (Option-cases (host.worker_panics p.world)) [
    | inr (w, e) ↦ rw (replace, e) all
    | inl e ↦ rw (replace, e) (after_replacement-AllTrue path contents p p.world _ refl all)
  ]

  replace_by-AllTrue :
      (found : Option Hunk) (p p' : Progress W)
      → replace_by host found p ≡ some p'
      → AllTrue p.applied
      → AllTrue p'.applied
  unfolding replace_by
  replace_by-AllTrue none p p' e all = cc
  replace_by-AllTrue (some (add_file path contents)) p p' e all =
      let same : replace host path contents p ≡ p' = cc in
      rw (← same) (replace-AllTrue path contents p all)
  replace_by-AllTrue (some (delete_file path)) p p' e all = cc
  replace_by-AllTrue (some (update_file path move_path chunks)) p p' e all = cc

  kept : (q p' : Progress W) → AllTrue q.applied → q.applied ≡ p'.applied → AllTrue p'.applied
  kept q p' all e = rw (← e) all

  some_inj : {A : Type 0} {a b : A} → some a ≡ some b → a ≡ b
  some_inj e = cc

  module _ (hunks : List Hunk) (replacements : List (ℕ × ℕ)) (conflicts : List ℕ) where
    apply_one-AllTrue :
        (index : ℕ) (hunk : Hunk) (p p' : Progress W)
        → apply_one host hunks replacements conflicts index hunk p ≡ some p'
        → AllTrue p.applied
        → AllTrue p'.applied
    unfolding apply_one
    apply_one-AllTrue index hunk p p' e all = elim (Bool-cases (contains index conflicts)) [
      | inl clash ↦ let f = rw clash at e in kept p p' all cc
      | inr free ↦ elim (Option-cases (lookup index replacements)) [
        | inr (add, pair) ↦ replace_by-AllTrue (get_elem? hunks add) p p' (rw (free, pair) at e) all
        | inl single ↦ elim (Bool-cases (contains index (values replacements))) [
          | inl addition ↦ let f = rw (free, single, addition) at e in kept p p' all cc
          | inr ordinary ↦
              let f = rw (free, single, ordinary) at e in
              kept (after_attempt host hunk p (host.apply_hunk hunk p.world)) p'
                (after_attempt-AllTrue hunk p p.world _ refl all) (ap (λ q. q.applied) (some_inj f))
        ]
      ]
    ]

    pub apply_each-AllTrue :
        (index : ℕ) (more : List Hunk) (p p' : Progress W)
        → apply_each host hunks replacements conflicts index more p ≡ some p'
        → AllTrue p.applied
        → AllTrue p'.applied
    unfolding apply_each
    apply_each-AllTrue index [] p p' e all = let same : p ≡ p' = cc in rw (← same) all
    apply_each-AllTrue index (hunk ∷ more) p p' e all =
        elim (Option-cases (apply_one host hunks replacements conflicts index hunk p)) [
          | inl f ↦ absurd (let g = rw (apply_each, f) at e in cc)
          | inr (q, f) ↦
              apply_each-AllTrue (suc index) more q p' (rw (apply_each, f) at e)
                (apply_one-AllTrue index hunk p q f all)
        ]

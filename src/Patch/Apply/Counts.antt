-- ===== src/Patch/Apply/Counts.antt =====
-- The entries of a report, counted along the loop over the operations.
use zodex.Common.{
  ℕ, suc, ◌+◌, ◌≤◌, ◌≡◌, refl, ap, inl, inr, Bool, true, false, not, ◌&&◌, List, [], ◌∷◌, ◌++◌,
  Option, none, some, arith, is_none, Bool-cases, Option-cases, if◌then◌else◌, length,
  length-append, get_elem?, Bytes, ◌==◌,
}
use zodex.Common.Dict.{lookup}
use zodex.Patch.Paths.{FilePath}
use zodex.Patch.Replacement.{ReplaceError, replace_regular_file}
use zodex.Patch.Conflicts.{Hunk, add_file, delete_file, contains, is_replacement, pairs_from}
use zodex.Patch.Apply.{
  fail, whole, conflict, Failed, Applied, Label, replaced, worker_failed, untouched,
  is_context_failure, failure_reason, Failure, Attempt, done, failure, Host, hunk_label, Progress,
  after_retry, retry, after_attempt, after_replacement, replace, replace_by, values, apply_one,
  apply_each, reordered,
}

abbrev pub Addition : ℕ → ℕ → List Hunk → Type 0
Addition index add hunks =
    (n : ℕ) × (path : FilePath) × (contents : Bytes) × (add ≡ index + n)
    × (get_elem? hunks n ≡ some (add_file path contents))

is_replacement-add_file :
    (first second : Hunk)
    → is_replacement first second ≡ true
    → (path : FilePath) × (contents : Bytes) × (second ≡ add_file path contents)
unfolding is_replacement
is_replacement-add_file (delete_file deleted) (add_file added contents) h = (added, contents, refl)
is_replacement-add_file _ _ h = cc

-- A pair of a replacement ends in an addition, which stands in the patch.
pub pairs_from-Addition :
    (index key add : ℕ) (hunks : List Hunk)
    → lookup key (pairs_from index hunks) ≡ some add
    → Addition index add hunks
unfolding lookup pairs_from
pairs_from-Addition index key add [] h = cc
pairs_from-Addition index key add (first ∷ []) h = cc
pairs_from-Addition index key add (first ∷ second ∷ hunks) h =
    pair_cases (is_replacement first second) refl h
      (pairs_from-Addition (suc index) key add (second ∷ hunks))
  where
    pair_cases :
        (paired : Bool)
        → is_replacement first second ≡ paired
        → lookup key (
            if paired
            then (index, suc index) ∷ pairs_from (suc index) (second ∷ hunks)
            else pairs_from (suc index) (second ∷ hunks))
          ≡ some add
        → (lookup key (pairs_from (suc index) (second ∷ hunks)) ≡ some add
            → Addition (suc index) add (second ∷ hunks))
        → Addition index add (first ∷ second ∷ hunks)
    pair_cases true e h ih =
        let (path, contents, is_add) = is_replacement-add_file first second e in
        elim (Bool-cases (index == key)) [
          | inl same ↦ (1, path, contents, ground arith, ap some is_add)
          | inr other ↦
              let (n, path', contents', place, found) = ih (ground arith) in
              (suc n, path', contents', omega arith, found)
        ]
    pair_cases false e h ih =
        let (n, path, contents, place, found) = ih h in (suc n, path, contents, omega arith, found)

-- How many operations are in conflict, and how many are the additions of replacements.
abbrev pub conflicted : List ℕ → ℕ → List Hunk → ℕ
conflicted conflicts index [] = 0
conflicted conflicts index (hunk ∷ hunks) =
    let rest = conflicted conflicts (suc index) hunks in
    if contains index conflicts then suc rest else rest

abbrev pub is_addition : List (ℕ × ℕ) → List ℕ → ℕ → Bool
is_addition replacements conflicts index =
    not (contains index conflicts)
    && is_none (lookup index replacements)
    && contains index (values replacements)

abbrev pub additions : List (ℕ × ℕ) → List ℕ → ℕ → List Hunk → ℕ
additions replacements conflicts index [] = 0
additions replacements conflicts index (hunk ∷ hunks) =
    let rest = additions replacements conflicts (suc index) hunks in
    if is_addition replacements conflicts index then suc rest else rest

abbrev pub entries : {W : Type 0} → Progress W → ℕ
entries p = length p.applied + length p.failed

module _ {W Staged : Type 0} (host : Host W Staged) where
  -- One entry more, of one kind or the other.
  record Entry (p p' : Progress W) : Type 0 where
    one : entries p' ≡ suc (entries p)
    failures : length p.failed ≤ length p'.failed

  length_snoc : {A : Type 0} (xs : List A) (x : A) → length (xs ++ x ∷ []) ≡ suc (length xs)
  length_snoc xs x = omega (arith, length-append xs (x ∷ []))

  fail-Entry : (p : Progress W) (w : W) (entry : Failed) → Entry p (fail host p w entry)
  fail-Entry p w entry = record {
    one = omega (arith, length_snoc p.failed entry);
    failures = omega (arith, length_snoc p.failed entry);
  }

  succeed-Entry :
      (p : Progress W) (w : W) (entry : Applied) (recovered : List Label)
      → Entry p (record p { world = w; applied = p.applied ++ entry ∷ []; recovered = recovered })
  succeed-Entry p w entry recovered = record {
    one = omega (arith, length_snoc p.applied entry);
    failures = omega arith;
  }

  after_retry-Entry :
      (hunk : Hunk) (first : Failure) (p : Progress W) (r : Attempt × W)
      → Entry p (after_retry host hunk first p r)
  unfolding after_retry
  after_retry-Entry hunk first p (done, w) =
      succeed-Entry p w (whole (hunk_label hunk)) (p.recovered ++ hunk_label hunk ∷ [])
  after_retry-Entry hunk first p (failure second, w) = fail-Entry p w _

  retry-Entry :
      (hunk : Hunk) (first : Failure) (p : Progress W) (in_order : Option Hunk) (w : W)
      → Entry p (retry host hunk first p in_order w)
  unfolding retry
  retry-Entry hunk first p none w = fail-Entry p w _
  retry-Entry hunk first p (some in_order) w =
      after_retry-Entry hunk first p (host.apply_hunk in_order w)

  after_attempt-Entry :
      (hunk : Hunk) (p : Progress W) (r : Attempt × W) → Entry p (after_attempt host hunk p r)
  unfolding after_attempt
  after_attempt-Entry hunk p (done, w) = succeed-Entry p w (whole (hunk_label hunk)) p.recovered
  after_attempt-Entry hunk p (failure first, w) =
      elim (is_context_failure (failure_reason first) && untouched first)
        as (λ again. Entry p (
          if again
          then retry host hunk first p (reordered host hunk w) w
          else retry host hunk first p none w)) [
            | true ↦ retry-Entry hunk first p (reordered host hunk w) w
            | false ↦ retry-Entry hunk first p none w
          ]

  after_replacement-Entry :
      (path : FilePath) (p : Progress W) (r : Option ReplaceError × W)
      → Entry p (after_replacement host path p r)
  unfolding after_replacement
  after_replacement-Entry path p (none, w) = succeed-Entry p w (replaced path) p.recovered
  after_replacement-Entry path p (some error, w) = fail-Entry p w _

  replace-Entry :
      (path : FilePath) (contents : Bytes) (p : Progress W) → Entry p (replace host path contents p)
  unfolding replace
  replace-Entry path contents p =
      elim (host.worker_panics p.world)
        as (λ panics. Entry p (elim panics [
          | some w ↦ fail host p w (worker_failed path)
          | none ↦
              after_replacement host path p (replace_regular_file host.files path contents p.world)
        ])) [ some w ↦ fail-Entry p w _ | none ↦ after_replacement-Entry path p _ ]

if_suc : (b : Bool) (n : ℕ) → (if b then suc n else n) ≡ (if b then 1 else 0) + n
if_suc true n = omega arith
if_suc false n = omega arith

-- The step of one operation: an entry, unless it is the addition of a replacement, and a failure
-- if it is in conflict.
module _ {W Staged : Type 0} (host : Host W Staged) (hunks : List Hunk)
    (replacements : List (ℕ × ℕ)) (conflicts : List ℕ) where
  record Counted (index : ℕ) (p p' : Progress W) : Type 0 where
    entry :
        entries p' + (if is_addition replacements conflicts index then 1 else 0) ≡ suc (entries p)
    conflict_failed :
        length p.failed + (if contains index conflicts then 1 else 0) ≤ length p'.failed

  -- Every pair ends in an addition.
  abbrev pub Paired : Type 0
  Paired =
      (key add : ℕ)
      → lookup key replacements ≡ some add
      → (path : FilePath) × (contents : Bytes) × (get_elem? hunks add
          ≡ some (add_file path contents))

  Entry-Counted :
      (index : ℕ) (p p' : Progress W)
      → is_addition replacements conflicts index ≡ false
      → contains index conflicts ≡ false
      → Entry host p p'
      → Counted index p p'
  Entry-Counted index p p' ordinary free e = record {
    entry = rw ordinary (omega (arith, e.one));
    conflict_failed = rw free (omega (arith, e.failures));
  }

  apply_one-Counted :
      (index : ℕ) (hunk : Hunk) (p : Progress W)
      → Paired
      → (p' : Progress W) × (apply_one host hunks replacements conflicts index hunk p ≡ some p')
        × Counted index p p'
  unfolding apply_one
  apply_one-Counted index hunk p paired = elim (Bool-cases (contains index conflicts)) [
    | inl clash ↦ (
      fail host p p.world (conflict (hunk_label hunk)),
      rw clash,
      record {
        entry = rw clash (omega (arith, length_snoc host p.failed (conflict (hunk_label hunk))));
        conflict_failed =
            rw clash (omega (arith, length_snoc host p.failed (conflict (hunk_label hunk))));
      },
    )
    | inr free ↦ elim (Option-cases (lookup index replacements)) [
      | inr (add, pair) ↦
          let (path, contents, found) = paired index add pair in
          (
            replace host path contents p,
            rw (free, pair, found) (unfold replace_by in refl),
            Entry-Counted index p _ (rw (free, pair) refl) free
                (replace-Entry host path contents p),
          )
      | inl single ↦ elim (Bool-cases (contains index (values replacements))) [
        | inl addition ↦ (
          p,
          rw (free, single, addition),
          record {
            entry = rw (free, single, addition) (omega arith);
            conflict_failed = rw free (omega arith);
          },
        )
        | inr ordinary ↦ (
          after_attempt host hunk p (host.apply_hunk hunk p.world),
          rw (free, single, ordinary),
          Entry-Counted index p _ (rw (free, single, ordinary) refl) free
              (after_attempt-Entry host hunk p (host.apply_hunk hunk p.world)),
        )
      ]
    ]
  ]

  -- All operations from a place on.
  pub record AllCounted (index : ℕ) (more : List Hunk) (p p' : Progress W) : Type 0 where
    pub entry_each :
        entries p' + additions replacements conflicts index more ≡ entries p + length more
    pub conflicts_failed : length p.failed + conflicted conflicts index more ≤ length p'.failed

  AllCounted-cons :
      (index : ℕ) (hunk : Hunk) (more : List Hunk) (p q p' : Progress W)
      → Counted index p q
      → AllCounted (suc index) more q p'
      → AllCounted index (hunk ∷ more) p p'
  AllCounted-cons index hunk more p q p' c all = record {
    entry_each =
        rw (if_suc (is_addition replacements conflicts index) _)
          (omega (arith, c.entry, all.entry_each));
    conflicts_failed =
        rw (if_suc (contains index conflicts) _)
          (omega (arith, c.conflict_failed, all.conflicts_failed));
  }

  pub apply_each-AllCounted :
      (index : ℕ) (more : List Hunk) (p : Progress W)
      → Paired
      → (p' : Progress W) × (apply_each host hunks replacements conflicts index more p ≡ some p')
        × AllCounted index more p p'
  unfolding apply_each
  apply_each-AllCounted index [] p paired =
      (p, refl, record { entry_each = omega arith; conflicts_failed = omega arith })
  apply_each-AllCounted index (hunk ∷ more) p paired =
      let (q, one, c) = apply_one-Counted index hunk p paired in
      let (p', rest, all) = apply_each-AllCounted (suc index) more q paired in
      (p', rw (apply_each, one) rest, AllCounted-cons index hunk more p q p' c all)

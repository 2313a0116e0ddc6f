-- ===== src/Patch/Apply/Report.antt =====
-- What the report of a patch says: each operation once, and every conflict as a failure.
use zodex.Common.{
  is_empty, ℕ, ◌+◌, ◌≤◌, ◌≡◌, refl, true, List, [], ◌∷◌, none, some, arith, length, Bytes,
}
use zodex.Patch.Rewrite.{rewrite_patch_paths}
use zodex.Patch.Conflicts.{Hunk, replacement_pairs, conflicting_hunks}
use zodex.Patch.Apply.{
  Host, Progress, verdict, reported, report, Paths, validate_absolute_existing_workdir, apply_hunks,
  apply_parsed, apply_patch,
}
use zodex.Patch.Apply.Truth.{AllTrue, apply_each-AllTrue}
use zodex.Patch.Apply.Counts.{pairs_from-Addition, conflicted, additions, apply_each-AllCounted}

-- What a report says of the operations of its patch.
pub record Accounted {W Staged : Type 0} (host : Host W Staged) (paths : Paths W)
    (hunks : List Hunk) (w : W) (p : Progress W) : Type 0 where
  pub replacements : List (ℕ × ℕ)
  pub replacements_are : replacements ≡ replacement_pairs hunks
  pub conflicts : List ℕ
  pub conflicts_are :
      conflicts ≡ conflicting_hunks (λ path. paths.canonicalize path w) hunks replacements
  pub each_once :
      length p.applied + length p.failed + additions replacements conflicts 0 hunks ≡ length hunks
  pub applied_done : AllTrue host p.applied
  pub conflicts_failed : conflicted conflicts 0 hunks ≤ length p.failed

apply_hunks-Accounted :
    {W Staged : Type 0} (host : Host W Staged) (paths : Paths W) (hunks : List Hunk) (w : W)
    → (p : Progress W) × (apply_hunks host paths hunks w ≡ some p) × Accounted host paths hunks w p
unfolding apply_hunks replacement_pairs
apply_hunks-Accounted host paths hunks w =
    let replacements = replacement_pairs hunks in
    let conflicts = conflicting_hunks (λ path. paths.canonicalize path w) hunks replacements in
    let (p, run, all) =
      apply_each-AllCounted host hunks replacements conflicts 0 hunks _ (λ key add h.
        let (n, path, contents, place, found) = pairs_from-Addition 0 key add hunks h in
        (path, contents, (let e : add ≡ n = omega (arith, place) in rw e found))) in
    (
      p,
      run,
      record {
        replacements = replacements;
        replacements_are = refl;
        conflicts = conflicts;
        conflicts_are = refl;
        each_once = omega (arith, all.entry_each);
        applied_done = apply_each-AllTrue host hunks replacements conflicts 0 hunks _ p run tt;
        conflicts_failed = omega (arith, all.conflicts_failed);
      },
    )

is_empty-length : {A : Type 0} (xs : List A) → is_empty xs ≡ true → length xs ≡ 0
is_empty-length [] h = refl
is_empty-length (x ∷ xs) h = cc

-- A patch that parses into operations, in a working directory that stands, is answered by a report
-- and never by a panic. It has as many entries, applied or failed, as there are operations, less the
-- additions of replacements, whose deletions have the entry; at least as many are failed as are in
-- conflict. Each entry among the applied is of an operation that the crate was asked to apply, as it
-- stands or with its chunks reordered, and did, or of a file whose replacement ended without an
-- error. If the answer is no error, no operation is in conflict, and the applied are as many as the
-- operations, less those additions.
pub apply_patch-Accounted :
    {W Staged : Type 0} (host : Host W Staged) (paths : Paths W) (patch workdir : Bytes) (w : W)
    (hunk : Hunk) (hunks : List Hunk)
    → validate_absolute_existing_workdir paths workdir w ≡ none
    → paths.parse_patch (rewrite_patch_paths patch workdir) ≡ some (hunk ∷ hunks)
    → paths.has_uri workdir ≡ true
    → (p : Progress W) × (a : Accounted host paths (hunk ∷ hunks) w p) × (apply_patch host paths
          patch workdir w
        ≡ reported (is_empty p.failed) (verdict p) p)
      × (is_empty p.failed ≡ true
          → (conflicted a.conflicts 0 (hunk ∷ hunks) ≡ 0)
            × (length p.applied + additions a.replacements a.conflicts 0 (hunk ∷ hunks)
                ≡ length (hunk ∷ hunks)))
unfolding apply_patch apply_parsed report
apply_patch-Accounted host paths patch workdir w hunk hunks valid parsed uri =
    let (p, run, a) = apply_hunks-Accounted host paths (hunk ∷ hunks) w in
    (
      p,
      a,
      rw (apply_patch, valid, parsed, uri, run) refl,
      λ empty.
          let no_failure = is_empty-length p.failed empty in
          (omega (arith, a.conflicts_failed), omega (arith, a.each_once)),
    )

-- ===== src/Patch/Apply.antt =====
-- src/apply_patch.rs: the loop over the operations of a patch, and the report. What is reported is
-- modelled, its wording is not.
pub mod Effects
pub mod Counts
pub mod Truth
pub mod Report
use zodex.Common.{
  is_empty, ℕ, suc, Bool, true, false, not, ◌&&◌, ◌||◌, List, [], ◌∷◌, ◌++◌, Option, none, some,
  ◌==◌, is_some, if◌then◌else◌, length, get_elem?, Bytes, bytes, eq_bytes,
}
use zodex.Common.Dict.{lookup}
use zodex.Patch.Recovery.{
  UpdateFileChunk, File, trim_start, trim_end, reorder_unique_nonoverlapping_hunks,
}
use zodex.Patch.Paths.{FilePath}
use zodex.Patch.Rewrite.{is_absolute, rewrite_patch_paths}
use zodex.Patch.Replacement.{ReplaceError, Files, replace_regular_file}
use zodex.Patch.Conflicts.{
  Hunk, add_file, delete_file, update_file, contains, replacement_pairs, conflicting_hunks,
}

-- `ApplyPatchFailure` of the patch crate, beside what it wrote as its error output.
pub record Failure : Type 0 where
  pub message : Bytes
  pub stderr : Bytes
  pub changes : List FilePath
  pub exact : Bool

pub data Attempt : Type 0 where
  done : Attempt
  failure : Failure → Attempt

-- The host: the file system, the patch crate, and whether the worker of a replacement panics.
pub record Host (W Staged : Type 0) : Type 0 where
  pub files : Files W Staged
  pub apply_hunk : Hunk → W → Attempt × W
  pub worker_panics : W → Option W
  pub read_file : FilePath → W → Option File

pub data Status : Type 0 where
  added deleted modified : Status

pub record Label : Type 0 where
  pub status : Status
  pub path : FilePath

abbrev pub hunk_label : Hunk → Label
hunk_label (add_file path contents) = record { status = added; path = path }
hunk_label (delete_file path) = record { status = deleted; path = path }
hunk_label (update_file path none chunks) = record { status = modified; path = path }
hunk_label (update_file path (some move_path) chunks) = record {
  status = modified;
  path = move_path;
}

pub data Applied : Type 0 where
  whole : Label → Applied
  replaced : FilePath → Applied

-- What `format_failure` says.
pub record FailureReport : Type 0 where
  pub label : Label
  pub reason : Bytes
  pub changes : List FilePath
  pub partial_warning : Bool
  pub unchanged : Bool
  pub hint : Bool

pub data Failed : Type 0 where
  conflict : Label → Failed
  not_replaced : FilePath → ReplaceError → Failed
  worker_failed : FilePath → Failed
  not_applied : FailureReport → Failed

unfoldable pub begins : Bytes → Bytes → Bool
begins text [] = true
begins [] (c ∷ prefix) = false
begins (d ∷ text) (c ∷ prefix) = (d == c) && begins text prefix

unfoldable pub is_context_failure : Bytes → Bool
is_context_failure reason =
    begins reason (bytes "Failed to find expected lines in ")
    || begins reason (bytes "Failed to find context '")

unfoldable pub failure_reason : Failure → Bytes
failure_reason f =
    let text = trim_start (trim_end f.stderr) in if eq_bytes text [] then f.message else text

abbrev pub is_update : Hunk → Bool
is_update (update_file path move_path chunks) = true
is_update _ = false

unfoldable pub format_failure : Label → Hunk → Failure → FailureReport
format_failure label hunk f =
    let reason = failure_reason f in
    record {
      label = label;
      reason = reason;
      changes = f.changes;
      partial_warning = not f.exact;
      unchanged = f.exact && is_empty f.changes;
      hint = f.exact && is_empty f.changes && is_context_failure reason && is_update hunk;
    }

pub record Progress (W : Type 0) : Type 0 where
  pub world : W
  pub applied : List Applied
  pub failed : List Failed
  pub recovered : List Label

-- A failure that wrote nothing, as far as the crate can tell.
abbrev pub untouched : Failure → Bool
untouched f = is_empty f.changes && f.exact

abbrev pub values : List (ℕ × ℕ) → List ℕ
values [] = []
values ((key, value) ∷ map) = value ∷ values map

module _ {W Staged : Type 0} (host : Host W Staged) where
  abbrev pub succeed : Progress W → W → Applied → Progress W
  succeed p w entry = record p { world = w; applied = p.applied ++ entry ∷ [] }

  abbrev pub fail : Progress W → W → Failed → Progress W
  fail p w entry = record p { world = w; failed = p.failed ++ entry ∷ [] }

  -- `recovery::reorder_unique_nonoverlapping_hunks` of an operation
  unfoldable pub reordered : Hunk → W → Option Hunk
  reordered (update_file path move_path chunks) w =
      elim (reorder_unique_nonoverlapping_hunks (host.read_file path w) chunks) [
        | some chunks' ↦ some (update_file path move_path chunks')
        | none ↦ none
      ]
  reordered hunk w = none

  -- After the second attempt, of the operation put in order.
  unfoldable pub after_retry : Hunk → Failure → Progress W → Attempt × W → Progress W
  after_retry hunk first p (done, w) = record p {
    world = w;
    applied = p.applied ++ whole (hunk_label hunk) ∷ [];
    recovered = p.recovered ++ hunk_label hunk ∷ [];
  }
  after_retry hunk first p (failure retry, w) = fail p w (
      not_applied
        (format_failure (hunk_label hunk) hunk (if untouched retry then first else retry)))

  unfoldable pub retry : Hunk → Failure → Progress W → Option Hunk → W → Progress W
  retry hunk first p none w = fail p w (not_applied (format_failure (hunk_label hunk) hunk first))
  retry hunk first p (some in_order) w = after_retry hunk first p (host.apply_hunk in_order w)

  unfoldable pub after_attempt : Hunk → Progress W → Attempt × W → Progress W
  after_attempt hunk p (done, w) = succeed p w (whole (hunk_label hunk))
  after_attempt hunk p (failure first, w) =
      if is_context_failure (failure_reason first) && untouched first
      then retry hunk first p (reordered hunk w) w
      else retry hunk first p none w

  unfoldable pub after_replacement : FilePath → Progress W → Option ReplaceError × W → Progress W
  after_replacement path p (none, w) = succeed p w (replaced path)
  after_replacement path p (some error, w) = fail p w (not_replaced path error)

  unfoldable pub replace : FilePath → Bytes → Progress W → Progress W
  replace path contents p = elim (host.worker_panics p.world) [
    | some w ↦ fail p w (worker_failed path)
    | none ↦ after_replacement path p (replace_regular_file host.files path contents p.world)
  ]

  -- The addition of a replacement; any other operation there is a panic.
  unfoldable pub replace_by : Option Hunk → Progress W → Option (Progress W)
  replace_by (some (add_file path contents)) p = some (replace path contents p)
  replace_by _ p = none

  module _ (hunks : List Hunk) (replacements : List (ℕ × ℕ)) (conflicts : List ℕ) where
    unfoldable pub apply_one : ℕ → Hunk → Progress W → Option (Progress W)
    apply_one index hunk p =
        if contains index conflicts
        then some (fail p p.world (conflict (hunk_label hunk)))
        else elim (lookup index replacements) [
          | some add_index ↦ replace_by (get_elem? hunks add_index) p
          | none ↦ some (
              if contains index (values replacements)
              then p
              else after_attempt hunk p (host.apply_hunk hunk p.world))
        ]

    unfoldable pub apply_each : ℕ → List Hunk → Progress W → Option (Progress W)
    apply_each index [] p = some p
    apply_each index (hunk ∷ more) p = elim (apply_one index hunk p) [
      | some p' ↦ apply_each (suc index) more p'
      | none ↦ none
    ]

pub data Verdict : Type 0 where
  success nothing_applied : Verdict
  partial_success : ℕ → ℕ → Verdict

unfoldable pub verdict : {W : Type 0} → Progress W → Verdict
verdict p =
    if is_empty p.failed
    then success
    else if is_empty p.applied
    then nothing_applied
    else partial_success (length p.applied) (length p.failed)

pub data PatchError : Type 0 where
  relative_workdir absent_workdir workdir_not_directory : PatchError
  invalid_patch no_files no_uri : PatchError

-- The answer: an error before any operation, or a report, which is an error unless all is well.
pub data Answer (W : Type 0) : Type 0 where
  refused : PatchError → Answer W
  panicked : Answer W
  reported : Bool → Verdict → Progress W → Answer W

unfoldable pub report : {W : Type 0} → Option (Progress W) → Answer W
report none = panicked
report (some p) = reported (is_empty p.failed) (verdict p) p

-- What the host knows of paths, and the crate's parser and paths.
pub record Paths (W : Type 0) : Type 0 where
  pub canonicalize : FilePath → W → Option FilePath
  pub exists : Bytes → W → Bool
  pub is_dir : Bytes → W → Bool
  pub parse_patch : Bytes → Option (List Hunk)
  pub has_uri : Bytes → Bool

module _ {W : Type 0} (paths : Paths W) where
  unfoldable pub validate_absolute_existing_workdir : Bytes → W → Option PatchError
  validate_absolute_existing_workdir workdir w =
      if not (is_absolute workdir)
      then some relative_workdir
      else if not (paths.exists workdir w)
      then some absent_workdir
      else if not (paths.is_dir workdir w)
      then some workdir_not_directory
      else none

module _ {W Staged : Type 0} (host : Host W Staged) (paths : Paths W) where
  unfoldable pub apply_hunks : List Hunk → W → Option (Progress W)
  apply_hunks hunks w =
      let replacements = replacement_pairs hunks in
      let conflicts = conflicting_hunks (λ path. paths.canonicalize path w) hunks replacements in
      apply_each host hunks replacements conflicts 0 hunks
        (record { world = w; applied = []; failed = []; recovered = [] })

  unfoldable pub apply_parsed : Option (List Hunk) → Bytes → W → Answer W
  apply_parsed none workdir w = refused invalid_patch
  apply_parsed (some []) workdir w = refused no_files
  apply_parsed (some (hunk ∷ hunks)) workdir w =
      if paths.has_uri workdir then report (apply_hunks (hunk ∷ hunks) w) else refused no_uri

  unfoldable pub apply_patch : Bytes → Bytes → W → Answer W
  apply_patch patch workdir w = elim (validate_absolute_existing_workdir paths workdir w) [
    | some error ↦ refused error
    | none ↦ apply_parsed (paths.parse_patch (rewrite_patch_paths patch workdir)) workdir w
  ]

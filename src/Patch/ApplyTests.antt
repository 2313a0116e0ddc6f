-- ===== src/Patch/ApplyTests.antt =====
-- Runs of src/apply_patch.rs on a disk in memory, and its theorems at them.
use zodex.Common.{
  is_empty, ℕ, ◌+◌, ◌≡◌, refl, ◌↔◌, true, false, List, [], ◌∷◌, ◌++◌, Option, none, some,
  if◌then◌else◌, length, Bytes, bytes, eq_bytes, eq_bytes_iff,
}
use zodex.Common.Dict.{lookup}
use zodex.Patch.Paths.{
  root_dir, cur_dir, parent_dir, normal, FilePath, starts_with, same_path, lexical_normalize,
  resolved_or, nearest_ancestor, physical_path_key,
}
use zodex.Patch.Paths.Normal.{IsNormal, physical_path_key-IsNormal}
use zodex.Patch.Rewrite.{
  header, resolve_patch_path, rewrite_line, rewrite_patch_paths, rewrite_lines,
}
use zodex.Patch.Rewrite.Headers.{Rewritten, rewrite_line-Rewritten}
use zodex.Patch.Replacement.{
  Metadata, Files, staged_step, replace_staged, replace_in, replace_found, replace_regular_file,
}
use zodex.Patch.Replacement.Atomic.{View, Documented, Atomic, replace_regular_file-Atomic}
use zodex.Patch.Conflicts.{
  Hunk, add_file, delete_file, update_file, is_replacement, pairs_from, replacement_pairs, contains,
  hunk_paths, clashes, check_owners, claim_paths, claim_hunks, conflicting_hunks,
}
use zodex.Patch.Conflicts.Clash.{claims, Clash, conflicting_hunks-Clash}
use zodex.Patch.Apply.{
  Attempt, done, failure, Host, Progress, after_attempt, after_replacement, replace, replace_by,
  apply_one, apply_each, verdict, reported, Paths, validate_absolute_existing_workdir, apply_hunks,
  apply_patch,
}
use zodex.Patch.Apply.Counts.{conflicted, additions}
use zodex.Patch.Apply.Report.{Accounted, apply_patch-Accounted}
use zodex.Patch.Apply.Effects.{Effects, apply_hunks-Effects}

abbrev name : List Bytes → FilePath
name [] = []
name (n ∷ names) = normal n ∷ name names

-- A path below the root.
abbrev below : List Bytes → FilePath
below names = root_dir ∷ name names

record Disk : Type 0 where
  contents : FilePath → Option Bytes
  staged : Bytes

abbrev put : (FilePath → Option Bytes) → FilePath → Option Bytes → FilePath → Option Bytes
put contents path text other = if same_path other path then text else contents other

abbrev plain : Option Bytes → Option Metadata
plain none = none
plain (some text) = some (record { is_file = true; readonly = false })

abbrev disk_files : Files Disk ℕ
disk_files = record {
  symlink_metadata = λ path w. plain (w.contents path);
  open_to_write = λ path w. true;
  new_in = λ above w. (some 0, record w { staged = [] });
  write_all = λ staged text w. (true, record w { staged = w.staged ++ text });
  set_permissions = λ staged metadata w. (true, w);
  sync_all = λ staged w. (true, w);
  persist = λ staged path w. (true, record w { contents = put w.contents path (some w.staged) });
  removed = λ staged w. w;
}

abbrev disk_view : View Disk ℕ
disk_view = record { contents = λ path w. w.contents path; staged_contents = λ staged w. w.staged }

starts_with_self : (path : FilePath) → starts_with path path ≡ true
unfolding starts_with
starts_with_self [] = refl
starts_with_self (root_dir ∷ path) = starts_with_self path
starts_with_self (cur_dir ∷ path) = starts_with_self path
starts_with_self (parent_dir ∷ path) = starts_with_self path
starts_with_self (normal n ∷ path) = rw ((eq_bytes_iff n n).1 refl) (starts_with_self path)

disk-Documented : Documented disk_files disk_view
disk-Documented = record {
  new_in_keeps = λ above path w. refl;
  new_in_empty = λ above w made. refl;
  write_keeps = λ staged text path w. refl;
  write_appends = λ staged text w written. refl;
  permissions_keep = λ staged metadata path w. (refl, refl);
  sync_keeps = λ staged path w. (refl, refl);
  persist_installs = λ staged path w installed. rw (starts_with_self path) refl;
  persist_or_keeps = λ staged path w failed. cc;
  removed_keeps = λ staged path w. refl;
}

abbrev kept : FilePath
kept = below (bytes "w" ∷ bytes "x" ∷ [])

abbrev start : Disk
start = record { contents = put (λ path. none) kept (some (bytes "old")); staged = [] }

replace_regular_file-Atomic_example :
    Atomic disk_files disk_view disk-Documented kept
      (bytes "new")
      start
      (replace_regular_file disk_files kept (bytes "new") start)
replace_regular_file-Atomic_example =
    replace_regular_file-Atomic disk_files disk_view disk-Documented kept (bytes "new") start

-- A file system on which no path is there, and `/w/link` leads to `/o/d`.
abbrev resolve : FilePath → Option FilePath
resolve (root_dir ∷ normal a ∷ normal b ∷ parent_dir ∷ normal c ∷ []) =
    some (below (bytes "o" ∷ c ∷ []))
resolve path = none

-- A missing file is known by its nearest ancestor, and `..` is gone.
missing-key :
    physical_path_key resolve
      (below (bytes "w" ∷ []) ++ cur_dir ∷ parent_dir ∷ normal (bytes "x") ∷ [])
    ≡ below (bytes "x" ∷ [])
unfolding physical_path_key nearest_ancestor resolved_or lexical_normalize
missing-key = refl

abbrev through_link : FilePath
through_link =
    root_dir ∷ normal (bytes "w") ∷ normal (bytes "link") ∷ parent_dir ∷ normal (bytes "x") ∷ []

physical_path_key-IsNormal_example :
    IsNormal (physical_path_key resolve through_link)
    × (lexical_normalize (physical_path_key resolve through_link)
        ≡ physical_path_key resolve through_link)
physical_path_key-IsNormal_example = physical_path_key-IsNormal resolve through_link

abbrev header_line : Bytes
header_line = bytes "*** Update File: sub/a.txt"

header_line-rewritten :
    rewrite_line (bytes "/w") header_line ≡ bytes "*** Update File: /w/sub/a.txt"
unfolding rewrite_line header resolve_patch_path
header_line-rewritten = refl

rewrite_line-Rewritten_example :
    Rewritten (bytes "/w") header_line (rewrite_line (bytes "/w") header_line)
    × (rewrite_line (bytes "/v") (rewrite_line (bytes "/w") header_line)
        ≡ rewrite_line (bytes "/w") header_line)
rewrite_line-Rewritten_example = rewrite_line-Rewritten (bytes "/w") (bytes "/v") header_line refl

-- A replacement, and two operations of which one names a path below the other's.
abbrev some_hunks : List Hunk
some_hunks =
    delete_file kept
    ∷ add_file kept (bytes "new")
    ∷ add_file (below (bytes "w" ∷ bytes "y" ∷ [])) (bytes "a")
    ∷ add_file (below (bytes "w" ∷ bytes "y" ∷ bytes "z" ∷ [])) (bytes "b")
    ∷ add_file (below (bytes "v" ∷ [])) (bytes "c")
    ∷ []

conflicts-found : conflicting_hunks resolve some_hunks (replacement_pairs some_hunks) ≡ 3 ∷ 2 ∷ []
unfolding conflicting_hunks claim_hunks claim_paths check_owners clashes hunk_paths lookup
    replacement_pairs pairs_from is_replacement physical_path_key nearest_ancestor resolved_or
    lexical_normalize starts_with
conflicts-found = refl

conflicting_hunks-Clash_example :
    (contains 2 (conflicting_hunks resolve some_hunks (replacement_pairs some_hunks)) ≡ true)
    ↔ Clash resolve (replacement_pairs some_hunks) [] (claims resolve 0 some_hunks) 2
conflicting_hunks-Clash_example =
    conflicting_hunks-Clash resolve some_hunks (replacement_pairs some_hunks) 2

-- A crate that writes what is added, and finds no context.
abbrev attempt : Hunk → Disk → Attempt × Disk
attempt (add_file path text) w = (done, record w { contents = put w.contents path (some text) })
attempt (delete_file path) w = (done, record w { contents = put w.contents path none })
attempt (update_file path move_path chunks) w = (
  failure (record {
    message = bytes "Failed to find context 'x'";
    stderr = [];
    changes = [];
    exact = true;
  }),
  w,
)

abbrev host : Host Disk ℕ
host = record {
  files = disk_files;
  apply_hunk = attempt;
  worker_panics = λ w. none;
  read_file = λ path w. none;
}

abbrev disk_paths : List Hunk → Paths Disk
disk_paths hunks = record {
  canonicalize = λ path w. resolve path;
  exists = λ path w. true;
  is_dir = λ path w. true;
  parse_patch = λ text. if eq_bytes text [] then none else some hunks;
  has_uri = λ path. true;
}

apply_patch-Accounted_example :
    (p : Progress Disk) × (a : Accounted host (disk_paths some_hunks) some_hunks start p)
    × (apply_patch host (disk_paths some_hunks) header_line (bytes "/w") start
        ≡ reported (is_empty p.failed) (verdict p) p)
    × (is_empty p.failed ≡ true
        → (conflicted a.conflicts 0 some_hunks ≡ 0)
          × (length p.applied + additions a.replacements a.conflicts 0 some_hunks
              ≡ length some_hunks))
unfolding validate_absolute_existing_workdir rewrite_patch_paths rewrite_lines rewrite_line header
    resolve_patch_path
apply_patch-Accounted_example =
    apply_patch-Accounted host (disk_paths some_hunks) header_line (bytes "/w") start
      (delete_file kept)
      (add_file kept (bytes "new")
        ∷ add_file (below (bytes "w" ∷ bytes "y" ∷ [])) (bytes "a")
        ∷ add_file (below (bytes "w" ∷ bytes "y" ∷ bytes "z" ∷ [])) (bytes "b")
        ∷ add_file (below (bytes "v" ∷ [])) (bytes "c")
        ∷ [])
      refl refl refl

-- The progress of a run that ends.
abbrev ended : Option (Progress Disk) → Progress Disk
ended (some p) = p
ended none = record { world = start; applied = []; failed = []; recovered = [] }

abbrev final : List Hunk → Progress Disk
final hunks = ended (apply_hunks host (disk_paths hunks) hunks start)

apply_hunks-Effects_example :
    Effects host some_hunks
      (replacement_pairs some_hunks)
      (conflicting_hunks resolve some_hunks (replacement_pairs some_hunks))
      0
      some_hunks
      start
      (final some_hunks).world
unfolding apply_hunks apply_each apply_one replace_by replace after_replacement replace_regular_file
    replace_found replace_in replace_staged staged_step after_attempt contains conflicting_hunks
    claim_hunks claim_paths check_owners clashes hunk_paths lookup replacement_pairs pairs_from
    is_replacement physical_path_key nearest_ancestor resolved_or lexical_normalize starts_with
apply_hunks-Effects_example =
    apply_hunks-Effects host (disk_paths some_hunks) some_hunks start (final some_hunks) refl

-- Three operations, of which the second is the addition of the first and the third names the file
-- that the first deletes: the report has two failures, and no word of the addition.
abbrev aliased : List Hunk
aliased =
    delete_file through_link
    ∷ add_file kept (bytes "new")
    ∷ add_file (below (bytes "o" ∷ bytes "x" ∷ [])) (bytes "b")
    ∷ []

aliased-report :
    (length (final aliased).applied ≡ 0)
    × (length (final aliased).failed ≡ 2)
    × ((final aliased).world.contents kept ≡ some (bytes "old"))
unfolding apply_hunks apply_each apply_one replace_by replace after_replacement replace_regular_file
    replace_found replace_in replace_staged staged_step after_attempt contains conflicting_hunks
    claim_hunks claim_paths check_owners clashes hunk_paths lookup replacement_pairs pairs_from
    is_replacement physical_path_key nearest_ancestor resolved_or lexical_normalize starts_with
aliased-report = (refl, refl, refl)

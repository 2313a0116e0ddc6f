-- ===== src/Patch/Conflicts.antt =====
-- src/apply_patch.rs: which operations of a patch get in each other's way, and which two are one
-- replacement. `HashMap` and `HashSet` are lists of which only membership counts.
pub mod Clash
use zodex.Common.{
  ℕ, suc, ◌+◌, Bool, true, false, not, ◌&&◌, ◌||◌, List, [], ◌∷◌, ◌++◌, Option, none, some, ◌==◌,
  if◌then◌else◌, Bytes,
}
use zodex.Common.Dict.{lookup}
use zodex.Patch.Recovery.{UpdateFileChunk}
use zodex.Patch.Paths.{FilePath, starts_with, same_path, lexical_normalize, physical_path_key}

-- `Hunk` of the patch crate.
pub data Hunk : Type 0 where
  add_file : FilePath → Bytes → Hunk
  delete_file : FilePath → Hunk
  update_file : FilePath → Option FilePath → List UpdateFileChunk → Hunk

unfoldable pub is_replacement : Hunk → Hunk → Bool
is_replacement (delete_file deleted) (add_file added contents) =
    same_path (lexical_normalize deleted) (lexical_normalize added)
is_replacement _ _ = false

unfoldable pub pairs_from : ℕ → List Hunk → List (ℕ × ℕ)
pairs_from index [] = []
pairs_from index (first ∷ []) = []
pairs_from index (first ∷ second ∷ hunks) =
    let rest = pairs_from (suc index) (second ∷ hunks) in
    if is_replacement first second then (index, suc index) ∷ rest else rest

unfoldable pub replacement_pairs : List Hunk → List (ℕ × ℕ)
replacement_pairs hunks = pairs_from 0 hunks

unfoldable pub contains : ℕ → List ℕ → Bool
contains index [] = false
contains index (i ∷ set) = i == index || contains index set

unfoldable pub hunk_paths : Hunk → List FilePath
hunk_paths (add_file path contents) = path ∷ []
hunk_paths (delete_file path) = path ∷ []
hunk_paths (update_file path none chunks) = path ∷ []
hunk_paths (update_file path (some move_path) chunks) = path ∷ move_path ∷ []

-- A path, resolved, and the place of the operation that names it.
abbrev pub Owner : Type 0
Owner = FilePath × ℕ

abbrev pub is_pair : Option ℕ → ℕ → Bool
is_pair none index = false
is_pair (some add) index = add == index

module _ (canonicalize : FilePath → Option FilePath) (replacements : List (ℕ × ℕ)) where
  -- The earlier owner of a path stands first.
  unfoldable pub clashes : Owner → Owner → Bool
  clashes (existing, previous) (resolved, index) =
      not (previous == index)
      && not (is_pair (lookup previous replacements) index)
      && (starts_with resolved existing || starts_with existing resolved)

  unfoldable pub check_owners : List Owner → Owner → List ℕ → List ℕ
  check_owners [] owner conflicts = conflicts
  check_owners (earlier ∷ owners) owner conflicts =
      check_owners owners owner
        (if clashes earlier owner then owner.1 ∷ earlier.1 ∷ conflicts else conflicts)

  unfoldable pub claim_paths : ℕ → List FilePath → List Owner × List ℕ → List Owner × List ℕ
  claim_paths index [] state = state
  claim_paths index (path ∷ paths) (owners, conflicts) =
      let owner : Owner = (physical_path_key canonicalize path, index) in
      claim_paths index paths (owners ++ owner ∷ [], check_owners owners owner conflicts)

  unfoldable pub claim_hunks : ℕ → List Hunk → List Owner × List ℕ → List Owner × List ℕ
  claim_hunks index [] state = state
  claim_hunks index (hunk ∷ hunks) state =
      claim_hunks (suc index) hunks (claim_paths index (hunk_paths hunk) state)

unfoldable pub conflicting_hunks : (FilePath → Option FilePath) → List Hunk → List (ℕ × ℕ) → List ℕ
conflicting_hunks canonicalize hunks replacements =
    (claim_hunks canonicalize replacements 0 hunks ([], [])).1

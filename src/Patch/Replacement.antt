-- ===== src/Patch/Replacement.antt =====
-- src/apply_patch/replacement.rs: a regular file replaced as a whole, by a staged file that is
-- renamed over it.
pub mod Atomic
use zodex.Common.{Bool, true, false, List, [], ◌∷◌, Option, none, some, if◌then◌else◌, not, Bytes}
use zodex.Patch.Paths.{Component, FilePath, root_dir}

pub record Metadata : Type 0 where
  pub is_file : Bool
  pub readonly : Bool

pub data ReplaceError : Type 0 where
  missing not_regular read_only no_write_access no_parent : ReplaceError
  cannot_stage cannot_write cannot_preserve cannot_flush cannot_install : ReplaceError

-- What the file system and the `tempfile` crate do; `W` is the state of the disk. A staged file
-- that is given up is removed.
pub record Files (W Staged : Type 0) : Type 0 where
  pub symlink_metadata : FilePath → W → Option Metadata
  pub open_to_write : FilePath → W → Bool
  pub new_in : FilePath → W → Option Staged × W
  pub write_all : Staged → Bytes → W → Bool × W
  pub set_permissions : Staged → Metadata → W → Bool × W
  pub sync_all : Staged → W → Bool × W
  pub persist : Staged → FilePath → W → Bool × W
  pub removed : Staged → W → W

-- `Path::parent`
abbrev pub parent : FilePath → Option FilePath
parent [] = none
parent (root_dir ∷ []) = none
parent (c ∷ []) = some []
parent (c ∷ d ∷ path) = elim (parent (d ∷ path)) [ some above ↦ some (c ∷ above) | none ↦ none ]

module _ {W Staged : Type 0} (files : Files W Staged) where
  open files use {
    symlink_metadata, open_to_write, new_in, write_all, set_permissions, sync_all, persist, removed,
  }

  -- `?` on a step of the staged file.
  unfoldable pub staged_step :
      Staged → ReplaceError → Bool × W → (W → Option ReplaceError × W) → Option ReplaceError × W
  staged_step staged error (true, w) next = next w
  staged_step staged error (false, w) next = (some error, removed staged w)

  unfoldable pub replace_staged :
      FilePath → Bytes → Metadata → Option Staged × W → Option ReplaceError × W
  replace_staged path contents metadata (none, w) = (some cannot_stage, w)
  replace_staged path contents metadata (some staged, w0) =
      staged_step staged cannot_write (write_all staged contents w0) λ w1.
        staged_step staged cannot_preserve (set_permissions staged metadata w1) λ w2.
          staged_step staged cannot_flush (sync_all staged w2)
            λ w3. staged_step staged cannot_install (persist staged path w3) λ w4. (none, w4)

  unfoldable pub replace_in :
      FilePath → Bytes → Metadata → Option FilePath → W → Option ReplaceError × W
  replace_in path contents metadata none w = (some no_parent, w)
  replace_in path contents metadata (some above) w =
      replace_staged path contents metadata (new_in above w)

  unfoldable pub replace_found : FilePath → Bytes → Option Metadata → W → Option ReplaceError × W
  replace_found path contents none w = (some missing, w)
  replace_found path contents (some metadata) w =
      if not metadata.is_file
      then (some not_regular, w)
      else if metadata.readonly
      then (some read_only, w)
      else if not (open_to_write path w)
      then (some no_write_access, w)
      else replace_in path contents metadata (parent path) w

  unfoldable pub replace_regular_file : FilePath → Bytes → W → Option ReplaceError × W
  replace_regular_file path contents w = replace_found path contents (symlink_metadata path w) w

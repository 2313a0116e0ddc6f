-- ===== src/Patch/Replacement/Atomic.antt =====
-- A replacement is complete or leaves the file as it was.
use zodex.Common.{
  ◌≡◌, refl, ap, ◌∙◌, if◌then◌else◌, not, Bool, true, false, [], ◌++◌, Option, none, some, Bytes,
}
use zodex.Patch.Paths.{FilePath}
use zodex.Patch.Replacement.{
  Metadata, ReplaceError, not_regular, read_only, no_write_access, cannot_write, cannot_preserve,
  cannot_flush, cannot_install, Files, parent, staged_step, replace_staged, replace_in,
  replace_found, replace_regular_file,
}

-- What a reader sees of the disk.
pub record View (W Staged : Type 0) : Type 0 where
  pub contents : FilePath → W → Option Bytes
  pub staged_contents : Staged → W → Bytes

-- What the file system documents: a new staged file is empty, work on it leaves the other files
-- alone, a write that succeeds is complete, and a rename happens as a whole or not at all.
pub record Documented {W Staged : Type 0} (files : Files W Staged) (view : View W Staged)
    : Type 0 where
  pub new_in_keeps :
      (above path : FilePath) (w : W)
      → view.contents path (files.new_in above w).1 ≡ view.contents path w
  pub new_in_empty :
      (above : FilePath) (w : W) {staged : Staged}
      → (files.new_in above w).0 ≡ some staged
      → view.staged_contents staged (files.new_in above w).1 ≡ []
  pub write_keeps :
      (staged : Staged) (text : Bytes) (path : FilePath) (w : W)
      → view.contents path (files.write_all staged text w).1 ≡ view.contents path w
  pub write_appends :
      (staged : Staged) (text : Bytes) (w : W)
      → (files.write_all staged text w).0 ≡ true
      → view.staged_contents staged (files.write_all staged text w).1
        ≡ view.staged_contents staged w ++ text
  pub permissions_keep :
      (staged : Staged) (metadata : Metadata) (path : FilePath) (w : W)
      → (view.contents path (files.set_permissions staged metadata w).1 ≡ view.contents path w)
        × (view.staged_contents staged (files.set_permissions staged metadata w).1
            ≡ view.staged_contents staged w)
  pub sync_keeps :
      (staged : Staged) (path : FilePath) (w : W)
      → (view.contents path (files.sync_all staged w).1 ≡ view.contents path w)
        × (view.staged_contents staged (files.sync_all staged w).1 ≡ view.staged_contents staged w)
  pub persist_installs :
      (staged : Staged) (path : FilePath) (w : W)
      → (files.persist staged path w).0 ≡ true
      → view.contents path (files.persist staged path w).1 ≡ some (view.staged_contents staged w)
  pub persist_or_keeps :
      (staged : Staged) (path : FilePath) (w : W)
      → (files.persist staged path w).0 ≡ false
      → view.contents path (files.persist staged path w).1 ≡ view.contents path w
  pub removed_keeps :
      (staged : Staged) (path : FilePath) (w : W)
      → view.contents path (files.removed staged w) ≡ view.contents path w

module _ {W Staged : Type 0} (files : Files W Staged) (view : View W Staged)
    (laws : Documented files view) (path : FilePath) (text : Bytes) where
  -- The new contents, or the old ones.
  abbrev pub Atomic : W → Option ReplaceError × W → Type 0
  Atomic before (none, after) = view.contents path after ≡ some text
  Atomic before (some _, after) = view.contents path after ≡ view.contents path before

  Atomic-staged_step :
      (before : W) (staged : Staged) (error : ReplaceError) (r : Bool × W)
      (next : W → Option ReplaceError × W)
      → (r.0 ≡ true → Atomic before (next r.1))
      → (r.0 ≡ false → view.contents path r.1 ≡ view.contents path before)
      → Atomic before (staged_step files staged error r next)
  unfolding staged_step
  Atomic-staged_step before staged error (true, w) next good bad = good refl
  Atomic-staged_step before staged error (false, w) next good bad =
      laws.removed_keeps staged path w ∙ bad refl

  replace_staged-Atomic :
      (before w0 : W) (metadata : Metadata) (staged : Staged)
      → view.contents path w0 ≡ view.contents path before
      → view.staged_contents staged w0 ≡ []
      → Atomic before (replace_staged files path text metadata (some staged, w0))
  unfolding replace_staged
  replace_staged-Atomic before w0 metadata staged kept empty =
      let r1 = files.write_all staged text w0 in
      let r2 = files.set_permissions staged metadata r1.1 in
      let r3 = files.sync_all staged r2.1 in
      let kept1 = laws.write_keeps staged text path w0 ∙ kept in
      let kept2 = (laws.permissions_keep staged metadata path r1.1).0 ∙ kept1 in
      let kept3 = (laws.sync_keeps staged path r2.1).0 ∙ kept2 in
      Atomic-staged_step before staged cannot_write r1 _
        (λ written.
          Atomic-staged_step before staged cannot_preserve r2 _
            (λ _.
              Atomic-staged_step before staged cannot_flush r3 _
                (λ _.
                  Atomic-staged_step before staged cannot_install (files.persist staged path r3.1) _
                    (λ installed.
                      laws.persist_installs staged path r3.1 installed
                      ∙ ap some (
                          (laws.sync_keeps staged path r2.1).1
                          ∙ (laws.permissions_keep staged metadata path r1.1).1
                          ∙ laws.write_appends staged text w0 written
                          ∙ ap (λ (t : Bytes). t ++ text) empty))
                    (λ failed. laws.persist_or_keeps staged path r3.1 failed ∙ kept3))
                (λ _. kept3))
            (λ _. kept2))
        (λ _. kept1)

  staged_cases-Atomic :
      (before : W) (metadata : Metadata) (r : Option Staged × W)
      → view.contents path r.1 ≡ view.contents path before
      → ((staged : Staged) → r.0 ≡ some staged → view.staged_contents staged r.1 ≡ [])
      → Atomic before (replace_staged files path text metadata r)
  staged_cases-Atomic before metadata (none, w) kept empty = unfold replace_staged in kept
  staged_cases-Atomic before metadata (some staged, w) kept empty =
      replace_staged-Atomic before w metadata staged kept (empty staged refl)

  replace_in-Atomic :
      (w : W) (metadata : Metadata) (above : Option FilePath)
      → Atomic w (replace_in files path text metadata above w)
  unfolding replace_in
  replace_in-Atomic w metadata none = refl
  replace_in-Atomic w metadata (some above) =
      staged_cases-Atomic w metadata (files.new_in above w) (laws.new_in_keeps above path w)
        (λ staged made. laws.new_in_empty above w made)

  Atomic-if :
      (w : W) (test : Bool) (error : ReplaceError) (r : Option ReplaceError × W)
      → Atomic w r
      → Atomic w (if test then (some error, w) else r)
  Atomic-if w true error r h = refl
  Atomic-if w false error r h = h

  replace_found-Atomic :
      (w : W) (found : Option Metadata) → Atomic w (replace_found files path text found w)
  unfolding replace_found
  replace_found-Atomic w none = refl
  replace_found-Atomic w (some metadata) =
      let staged : Option ReplaceError × W = replace_in files path text metadata (parent path) w in
      let opened : Option ReplaceError × W =
        if not (files.open_to_write path w) then (some no_write_access, w) else staged in
      let writable : Option ReplaceError × W =
        if metadata.readonly then (some read_only, w) else opened in
      Atomic-if w (not metadata.is_file) not_regular writable (
        Atomic-if w metadata.readonly read_only opened (
          Atomic-if w (not (files.open_to_write path w)) no_write_access staged
            (replace_in-Atomic w metadata (parent path))))

  -- On a file system that keeps what it documents, a replacement that succeeds leaves the file
  -- with exactly the new contents, and one that fails, at whatever step, leaves its contents as
  -- they were.
  pub replace_regular_file-Atomic : (w : W) → Atomic w (replace_regular_file files path text w)
  unfolding replace_regular_file
  replace_regular_file-Atomic w = replace_found-Atomic w (files.symlink_metadata path w)

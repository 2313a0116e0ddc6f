-- ===== src/Patch/Rewrite.antt =====
-- src/apply_patch.rs: the paths in a patch's headers made absolute. Text is a list of scalars, and
-- a path is its text, as on a Unix host.
pub mod Headers
use zodex.Common.{
  Bool, true, false, List, [], ◌∷◌, ◌++◌, Option, none, some, ◌==◌, if◌then◌else◌, Bytes, bytes,
}
use zodex.Common.Lines.{lines}

abbrev pub add_file_prefix : Bytes
add_file_prefix = bytes "*** Add File: "

abbrev pub update_file_prefix : Bytes
update_file_prefix = bytes "*** Update File: "

abbrev pub delete_file_prefix : Bytes
delete_file_prefix = bytes "*** Delete File: "

abbrev pub move_to_prefix : Bytes
move_to_prefix = bytes "*** Move to: "

abbrev pub strip_prefix : Bytes → Bytes → Option Bytes
strip_prefix line [] = some line
strip_prefix [] (c ∷ prefix) = none
strip_prefix (d ∷ line) (c ∷ prefix) = if d == c then strip_prefix line prefix else none

-- `Path::is_absolute`
abbrev pub is_absolute : Bytes → Bool
is_absolute [] = false
is_absolute (c ∷ path) = c == b'/'

abbrev pub ends_with_slash : Bytes → Bool
ends_with_slash [] = false
ends_with_slash (c ∷ []) = c == b'/'
ends_with_slash (c ∷ d ∷ path) = ends_with_slash (d ∷ path)

-- `Path::join` of a relative path
abbrev pub join : Bytes → Bytes → Bytes
join [] path = path
join (c ∷ base) path =
    if ends_with_slash (c ∷ base) then (c ∷ base) ++ path else (c ∷ base) ++ b'/' ∷ path

unfoldable pub resolve_patch_path : Bytes → Bytes → Bytes
resolve_patch_path path workdir = if is_absolute path then path else join workdir path

abbrev pub header_or : Bytes → Option Bytes → Option (Bytes × Bytes) → Option (Bytes × Bytes)
header_or prefix (some path) other = some (prefix, path)
header_or prefix none other = other

-- The prefix of a header, and the path behind it.
unfoldable pub header : List Bytes → Bytes → Option (Bytes × Bytes)
header [] line = none
header (prefix ∷ prefixes) line = header_or prefix (strip_prefix line prefix) (header prefixes line)

abbrev pub headers : List Bytes
headers = add_file_prefix ∷ update_file_prefix ∷ delete_file_prefix ∷ move_to_prefix ∷ []

abbrev pub rewrite_found : Bytes → Bytes → Option (Bytes × Bytes) → Bytes
rewrite_found workdir line (some (prefix, path)) = prefix ++ resolve_patch_path path workdir
rewrite_found workdir line none = line

unfoldable pub rewrite_line : Bytes → Bytes → Bytes
rewrite_line workdir line = rewrite_found workdir line (header headers line)

unfoldable pub rewrite_lines : Bytes → List Bytes → Bytes
rewrite_lines workdir [] = []
rewrite_lines workdir (line ∷ more) = rewrite_line workdir line ++ 10 ∷ rewrite_lines workdir more

unfoldable pub rewrite_patch_paths : Bytes → Bytes → Bytes
rewrite_patch_paths patch workdir = rewrite_lines workdir (lines patch)

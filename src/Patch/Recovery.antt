-- ===== src/Patch/Recovery.antt =====
-- src/apply_patch/recovery.rs: the chunks of an update put in the order of the file, where the file
-- leaves no doubt. Text is a list of scalars.
pub mod Order
pub mod Unique
use zodex.Common.{
  ℕ, zero, suc, ◌+◌, ◌-◌, ◌*◌, Bool, true, false, not, ◌&&◌, ◌||◌, List, [], ◌∷◌, ◌++◌, Option,
  none, some, ltb, leb, ◌==◌, if◌then◌else◌, within, length, take, drop, get_elem?, eq_bytes,
}
use zodex.Common.Lines.{lines, strip_return}

abbrev pub Line : Type 0
Line = List ℕ

-- `UpdateFileChunk` of the patch crate.
pub record UpdateFileChunk : Type 0 where
  pub change_context : Option Line
  pub old_lines : List Line
  pub new_lines : List Line
  pub is_end_of_file : Bool

abbrev pub max_recovery_file_bytes : ℕ
max_recovery_file_bytes = 8 * 1024 * 1024

-- `char::is_whitespace`
abbrev pub is_whitespace : ℕ → Bool
is_whitespace c =
    within 0x09 0x0D c
    || (c == 0x20)
    || (c == 0x85)
    || (c == 0xA0)
    || (c == 0x1680)
    || within 0x2000 0x200A c
    || within 0x2028 0x2029 c
    || (c == 0x202F)
    || (c == 0x205F)
    || (c == 0x3000)

abbrev pub trim_start : Line → Line
trim_start [] = []
trim_start (c ∷ rest) =
    let trimmed = trim_start rest in if is_whitespace c then trimmed else c ∷ rest

abbrev pub keep_end : ℕ → Line → Line
keep_end c [] = if is_whitespace c then [] else c ∷ []
keep_end c (d ∷ rest) = c ∷ d ∷ rest

abbrev pub trim_end : Line → Line
trim_end [] = []
trim_end (c ∷ rest) = keep_end c (trim_end rest)

unfoldable pub line_equals : Line → Line → Bool
line_equals left right = eq_bytes left right

unfoldable pub trailing_space_equals : Line → Line → Bool
trailing_space_equals left right = eq_bytes (trim_end left) (trim_end right)

unfoldable pub surrounding_space_equals : Line → Line → Bool
surrounding_space_equals left right =
    eq_bytes (trim_start (trim_end left)) (trim_start (trim_end right))

-- `lines[start..].zip(old).all(..)` where the lines from `start` on are as many as the old ones.
abbrev pub all_match : (Line → Line → Bool) → List Line → List Line → Bool
all_match matcher lines [] = true
all_match matcher [] (right ∷ old) = false
all_match matcher (left ∷ lines) (right ∷ old) = matcher left right && all_match matcher lines old

-- What the scan of a matcher finds.
pub data Scan : Type 0 where
  nowhere ambiguous : Scan
  once : ℕ → Scan

abbrev pub also : ℕ → Scan → Scan
also start nowhere = once start
also start ambiguous = ambiguous
also start (once _) = ambiguous

-- The loop over the starts at which the old lines fit.
unfoldable pub scan_starts : (Line → Line → Bool) → List Line → List Line → ℕ → Scan
scan_starts matcher [] old start = if all_match matcher [] old then once start else nowhere
scan_starts matcher (line ∷ lines) old start =
    let later = scan_starts matcher lines old (suc start) in
    if all_match matcher (line ∷ lines) old then also start later else later

unfoldable pub locate_with : List (Line → Line → Bool) → List Line → List Line → Option ℕ
locate_with [] lines old = none
locate_with (matcher ∷ matchers) lines old =
    let next = locate_with matchers lines old in
    elim (scan_starts matcher lines old 0) [
      | nowhere ↦ next
      | ambiguous ↦ none
      | once start ↦ some start
    ]

unfoldable pub locate : List Line → List Line → Option ℕ
locate lines old =
    if (length old == 0) || ltb (length lines) (length old)
    then none
    else locate_with (line_equals ∷ trailing_space_equals ∷ surrounding_space_equals ∷ []) lines old

abbrev pub all_empty : List Line → Bool
all_empty [] = true
all_empty (line ∷ lines) = (length line == 0) && all_empty lines

abbrev pub last_empty : List Line → Bool
last_empty [] = false
last_empty (line ∷ []) = length line == 0
last_empty (line ∷ next ∷ lines) = last_empty (next ∷ lines)

abbrev pub located_at : ℕ → Option ℕ → Option (ℕ × ℕ)
located_at len none = none
located_at len (some index) = some (index, len)

unfoldable pub unique_start : List Line → UpdateFileChunk → Option (ℕ × ℕ)
unique_start lines chunk =
    let old = chunk.old_lines in
    let shorter = length old - 1 in
    if all_empty old then none else elim (locate lines old) [
      | some index ↦ some (index, length old)
      | none ↦
          if ltb 1 (length old) && last_empty old
          then located_at shorter (locate lines (take shorter old))
          else none
    ]

pub record Located : Type 0 where
  pub start : ℕ
  pub end : ℕ
  pub index : ℕ

unfoldable pub locate_chunks : List Line → List UpdateFileChunk → ℕ → Option (List Located)
locate_chunks lines [] index = some []
locate_chunks lines (chunk ∷ chunks) index =
    let rest = locate_chunks lines chunks (suc index) in
    if (elim chunk.change_context [ none ↦ false | some _ ↦ true ]) || chunk.is_end_of_file
    then none
    else elim (unique_start lines chunk) [
      | none ↦ none
      | some (start, len) ↦ elim rest [
        | none ↦ none
        | some located ↦
            some ((record { start = start; end = start + len; index = index }) ∷ located)
      ]
    ]

-- The order of the triples.
abbrev pub before : Located → Located → Bool
before a b =
    if a.start == b.start
    then (if a.end == b.end then leb a.index b.index else leb a.end b.end)
    else leb a.start b.start

unfoldable pub sorted_insert : Located → List Located → List Located
sorted_insert a [] = a ∷ []
sorted_insert a (b ∷ bs) =
    let rest = sorted_insert a bs in if before a b then a ∷ b ∷ bs else b ∷ rest

unfoldable pub sort : List Located → List Located
sort [] = []
sort (a ∷ as_) = sorted_insert a (sort as_)

unfoldable pub overlapping : List Located → Bool
overlapping [] = false
overlapping (a ∷ []) = false
overlapping (a ∷ b ∷ more) = ltb b.start a.end || overlapping (b ∷ more)

abbrev pub in_place : List Located → ℕ → Bool
in_place [] position = true
in_place (a ∷ located) position = (position == a.index) && in_place located (suc position)

abbrev pub chunk_at : List UpdateFileChunk → ℕ → UpdateFileChunk
chunk_at chunks index = elim (get_elem? chunks index) [
  | some chunk ↦ chunk
  | none ↦ record { change_context = none; old_lines = []; new_lines = []; is_end_of_file = false }
]

abbrev pub pick : List UpdateFileChunk → List Located → List UpdateFileChunk
pick chunks [] = []
pick chunks (a ∷ located) = chunk_at chunks a.index ∷ pick chunks located

-- The file's size and text, where it can be read; the chunks of its update.
pub record File : Type 0 where
  pub size : ℕ
  pub contents : Line

unfoldable pub file_lines : File → List Line
file_lines file = strip_all (lines file.contents)
  where
    strip_all : List Line → List Line
    strip_all [] = []
    strip_all (line ∷ more) = strip_return line ∷ strip_all more

unfoldable pub reorder_located :
    List UpdateFileChunk → Option (List Located) → Option (List UpdateFileChunk)
reorder_located chunks none = none
reorder_located chunks (some located) =
    if overlapping (sort located)
    then none
    else if in_place (sort located) 0
    then none
    else some (pick chunks (sort located))

unfoldable pub reorder_unique_nonoverlapping_hunks :
    Option File → List UpdateFileChunk → Option (List UpdateFileChunk)
reorder_unique_nonoverlapping_hunks none chunks = none
reorder_unique_nonoverlapping_hunks (some file) chunks =
    if ltb (length chunks) 2 || ltb max_recovery_file_bytes file.size
    then none
    else reorder_located chunks (locate_chunks (file_lines file) chunks 0)

-- ===== src/Patch/Tests.antt =====
-- A run of the recovery of src/apply_patch/recovery.rs, and its theorem at it.
use zodex.Common.{◌≡◌, refl, false, List, [], ◌∷◌, ◌++◌, none, some, bytes}
use zodex.Patch.Recovery.{
  Line, UpdateFileChunk, File, reorder_unique_nonoverlapping_hunks, reorder_located, locate_chunks,
  unique_start, locate, locate_with, scan_starts, line_equals, trailing_space_equals,
  surrounding_space_equals, file_lines, sort, sorted_insert, overlapping,
}
use zodex.Patch.Recovery.Unique.{FoundBy, locate-FoundBy}
use zodex.Patch.Recovery.Order.{Reordered, reorder-Reordered}

abbrev change : Line → Line → UpdateFileChunk
change old new = record {
  change_context = none;
  old_lines = old ∷ [];
  new_lines = new ∷ [];
  is_end_of_file = false;
}

abbrev last_change : UpdateFileChunk
last_change = change (bytes "last") (bytes "LAST")

abbrev first_change : UpdateFileChunk
first_change = change (bytes "first") (bytes "FIRST")

abbrev ordered_file : File
ordered_file = record {
  size = 18;
  contents = bytes "first" ++ (10 ∷ []) ++ bytes "middle" ++ (10 ∷ []) ++ bytes "last" ++ (10 ∷ []);
}

-- A repeated line leaves a doubt.
ambiguous-refused :
    reorder_unique_nonoverlapping_hunks
      (some (record {
        size = 24;
        contents =
            bytes "first" ++ (10 ∷ []) ++ bytes "first" ++ (10 ∷ []) ++ bytes "last" ++ (10 ∷ []);
      }))
      (last_change ∷ first_change ∷ [])
    ≡ none
unfolding reorder_unique_nonoverlapping_hunks reorder_located locate_chunks unique_start locate
    locate_with scan_starts line_equals trailing_space_equals surrounding_space_equals file_lines
    sort sorted_insert overlapping
ambiguous-refused = refl

reorder-Reordered_example :
    Reordered ordered_file (last_change ∷ first_change ∷ []) (first_change ∷ last_change ∷ [])
unfolding reorder_unique_nonoverlapping_hunks reorder_located locate_chunks unique_start locate
    locate_with scan_starts line_equals trailing_space_equals surrounding_space_equals file_lines
    sort sorted_insert overlapping
reorder-Reordered_example =
    reorder-Reordered ordered_file (last_change ∷ first_change ∷ [])
      (first_change ∷ last_change ∷ []) refl

abbrev ordered_lines : List Line
ordered_lines = bytes "first" ∷ bytes "middle " ∷ bytes "last" ∷ []

-- Found by the comparison that leaves trailing spaces aside.
locate-FoundBy_example :
    FoundBy
      (line_equals ∷ trailing_space_equals ∷ surrounding_space_equals ∷ [])
      ordered_lines
      (bytes "middle" ∷ [])
      1
unfolding locate locate_with scan_starts line_equals trailing_space_equals surrounding_space_equals
locate-FoundBy_example = locate-FoundBy ordered_lines (bytes "middle" ∷ []) 1 refl

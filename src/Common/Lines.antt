-- ===== src/Common/Lines.antt =====
-- `str::lines` of the standard library, on the numbers of a text's bytes or scalars.
use Prim.Native.Nat.{ℕ}
use mathlib.Core.Bool.{Bool, false}
use mathlib.Core.List.{List, [], ◌∷◌}
use zodex.Common.Tests.{◌==◌, if◌then◌else◌}
use zodex.Common.Lists.{Bytes}

-- Lines end at a newline, and lose one carriage return before it.
abbrev pub strip_return : Bytes → Bytes
strip_return [] = []
strip_return (b ∷ []) = if b == 13 then [] else b ∷ []
strip_return (b ∷ c ∷ rest) = b ∷ strip_return (c ∷ rest)

abbrev pub prepend : ℕ → List Bytes → List Bytes
prepend b [] = (b ∷ []) ∷ []
prepend b (line ∷ lines) = (b ∷ line) ∷ lines

-- The text cut at its newlines; a last line that is empty does not count.
abbrev pub split_lines : Bytes → List Bytes
split_lines [] = []
split_lines (b ∷ rest) =
    let lines = split_lines rest in if b == 10 then [] ∷ lines else prepend b lines

-- Only a line that a newline ends loses its carriage return.
abbrev pub ended_lines : List Bytes → Bool → List Bytes
ended_lines [] ends = []
ended_lines (line ∷ []) ends = (if ends then strip_return line else line) ∷ []
ended_lines (line ∷ next ∷ more) ends = strip_return line ∷ ended_lines (next ∷ more) ends

abbrev pub ends_with_newline : Bytes → Bool
ends_with_newline [] = false
ends_with_newline (b ∷ []) = b == 10
ends_with_newline (b ∷ c ∷ rest) = ends_with_newline (c ∷ rest)

abbrev pub lines : Bytes → List Bytes
lines text = ended_lines (split_lines text) (ends_with_newline text)

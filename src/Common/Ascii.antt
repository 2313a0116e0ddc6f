-- ===== src/Common/Ascii.antt =====
-- ASCII text, on the numbers of its scalars.
use Prim.Native.Nat.{ℕ, ◌+◌}
use mathlib.Core.Bool.{Bool}
use mathlib.Core.List.{[], ◌∷◌}
use zodex.Common.Tests.{within, if◌then◌else◌}
use zodex.Common.Lists.{Bytes}

abbrev pub to_ascii_lowercase : Bytes → Bytes
to_ascii_lowercase [] = []
to_ascii_lowercase (c ∷ text) = (if within b'A' b'Z' c then c + 32 else c) ∷ to_ascii_lowercase text

abbrev pub is_ascii_digit : ℕ → Bool
is_ascii_digit c = within b'0' b'9' c

-- ===== src/Local/Sanitize.antt =====
-- src/local/presentation/sanitize.rs: text made safe for a terminal. Text is a list of scalars; the
-- removal of escape sequences, `strip_str` of the crate strip_ansi_escapes, is an argument.
pub mod Safe
use zodex.Common.{
  ℕ, zero, suc, ◌+◌, ◌-◌, ◌/◌, ◌%◌, Bool, ◌||◌, [], ◌∷◌, ◌++◌, ltb, leb, within, ◌==◌,
  if◌then◌else◌, Bytes, bytes,
}

-- `char::is_control`: the general category Cc.
abbrev pub is_control : ℕ → Bool
is_control c = leb c 31 || within 127 159 c

abbrev pub is_bidi_control : ℕ → Bool
is_bidi_control c = (c == 1564) || within 8206 8207 c || within 8234 8238 c || within 8294 8297 c

abbrev pub hex_digit : ℕ → ℕ
hex_digit d = if ltb d 10 then b'0' + d else b'a' + (d - 10)

-- The hexadecimal digits of a number, before those in `out`; a scalar has 6 at most.
unfoldable pub hex_digits : ℕ → ℕ → Bytes → Bytes
hex_digits zero n out = out
hex_digits (suc fuel) n out =
    let rest = hex_digits fuel (n / 16) (hex_digit (n % 16) ∷ out) in if n == 0 then out else rest

unfoldable pub lower_hex : ℕ → Bytes
lower_hex n = if n == 0 then b'0' ∷ [] else hex_digits 6 n []

-- A scalar written as `\u{…}`.
unfoldable pub escaped : ℕ → Bytes
escaped c = 92 ∷ bytes "u{" ++ lower_hex c ++ bytes "}"

unfoldable pub sanitize_stripped_text : Bytes → Bytes
sanitize_stripped_text [] = []
sanitize_stripped_text (c ∷ text) =
    let rest = sanitize_stripped_text text in
    if (c == 10) || (c == 9)
    then c ∷ rest
    else if is_control c || is_bidi_control c
    then escaped c ++ rest
    else c ∷ rest

unfoldable pub sanitize_display_text : (Bytes → Bytes) → Bytes → Bytes
sanitize_display_text strip_str input = sanitize_stripped_text (strip_str input)

-- ===== src/Session/Utf8.antt =====
-- `StreamingUtf8Decoder` of src/session/output.rs, and what it uses of the standard library:
-- `std::str::from_utf8` with `valid_up_to` and `error_len`.
pub mod Pieces
pub mod Stream
pub mod Cuts
pub mod Lossless
use zodex.Common.{
  ℕ, zero, suc, ◌+◌, Bool, true, false, not, ◌&&◌, ◌||◌, List, [], ◌∷◌, ◌++◌, Option, none, some,
  ltb, leb, ◌==◌, if◌then◌else◌, within, Bytes, length, take, drop,
}

-- How the validator judges the scalar that begins a non-empty slice: a whole scalar of so many
-- bytes, an invalid sequence of so many bytes, or a scalar cut short by the end of the slice.
pub data Piece : Type 0 where
  whole : ℕ → Piece
  bad : ℕ → Piece
  short : Piece

abbrev pub continuation : ℕ → Bool
continuation = within 0x80 0xBF

abbrev pub second_of_three : ℕ → ℕ → Bool
second_of_three first c =
    if first == 0xE0
    then within 0xA0 0xBF c
    else if first == 0xED
    then within 0x80 0x9F c
    else continuation c

abbrev pub second_of_four : ℕ → ℕ → Bool
second_of_four first c =
    if first == 0xF0
    then within 0x90 0xBF c
    else if first == 0xF4
    then within 0x80 0x8F c
    else continuation c

two_byte : Bytes → Piece
two_byte [] = short
two_byte (c ∷ _) = if continuation c then whole 2 else bad 1

three_byte : ℕ → Bytes → Piece
three_byte first [] = short
three_byte first (c ∷ []) = if second_of_three first c then short else bad 1
three_byte first (c ∷ d ∷ _) =
    if second_of_three first c then (if continuation d then whole 3 else bad 2) else bad 1

four_byte : ℕ → Bytes → Piece
four_byte first [] = short
four_byte first (c ∷ []) = if second_of_four first c then short else bad 1
four_byte first (c ∷ d ∷ []) =
    if second_of_four first c then (if continuation d then short else bad 2) else bad 1
four_byte first (c ∷ d ∷ e ∷ _) =
    if second_of_four first c
    then (if continuation d then (if continuation e then whole 4 else bad 3) else bad 2)
    else bad 1

unfoldable pub piece : ℕ → Bytes → Piece
unfolding two_byte three_byte four_byte
piece first rest =
    if ltb first 0x80
    then whole 1
    else if within 0xC2 0xDF first
    then two_byte rest
    else if within 0xE0 0xEF first
    then three_byte first rest
    else if within 0xF0 0xF4 first
    then four_byte first rest
    else bad 1

-- `Result<&str, Utf8Error>`: an error has `valid_up_to` and `error_len`.
pub data Utf8 : Type 0 where
  valid : Utf8
  error : ℕ → Option ℕ → Utf8

-- The validator from an index on, with fuel for its loop: each round takes a byte at least.
unfoldable pub validate : ℕ → ℕ → Bytes → Utf8
validate zero index bytes = valid
validate (suc fuel) index [] = valid
validate (suc fuel) index (b ∷ bs) = elim (piece b bs) [
  | whole n ↦ validate fuel (index + n) (drop n (b ∷ bs))
  | bad n ↦ error index (some n)
  | short ↦ error index none
]

unfoldable pub from_utf8 : Bytes → Utf8
from_utf8 bytes = validate (length bytes) 0 bytes

-- U+FFFD
abbrev pub replacement : Bytes
replacement = 0xEF ∷ 0xBF ∷ 0xBD ∷ []

pub record StreamingUtf8Decoder : Type 0 where
  pub pending : Bytes

abbrev pub new_decoder : StreamingUtf8Decoder
new_decoder = record { pending = [] }

-- The `while` loop of `push`: the text so far and the bytes remaining, to the text and the
-- pending bytes.
unfoldable pub push_loop : ℕ → Bytes → Bytes → Bytes × Bytes
push_loop zero output remaining = (output, [])
push_loop (suc fuel) output [] = (output, [])
push_loop (suc fuel) output (b ∷ bs) = elim (from_utf8 (b ∷ bs)) [
  | valid ↦ (output ++ (b ∷ bs), [])
  | error valid_up_to none ↦ (output ++ take valid_up_to (b ∷ bs), drop valid_up_to (b ∷ bs))
  | error valid_up_to (some invalid_len) ↦
      push_loop fuel ((output ++ take valid_up_to (b ∷ bs)) ++ replacement)
        (drop (valid_up_to + invalid_len) (b ∷ bs))
]

-- One round of the loop takes a byte at least, so the length is fuel enough.
unfoldable pub push : StreamingUtf8Decoder → Bytes → Bytes × StreamingUtf8Decoder
push decoder bytes =
    let joined = decoder.pending ++ bytes in
    let (output, pending) = push_loop (length joined) [] joined in
    (output, record { pending = pending })

unfoldable pub finish : StreamingUtf8Decoder → Bytes × StreamingUtf8Decoder
finish decoder = elim decoder.pending [ [] ↦ ([], decoder) | _ ∷ _ ↦ (replacement, new_decoder) ]

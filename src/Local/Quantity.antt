-- ===== src/Local/Quantity.antt =====
-- src/local/parse.rs: durations and storage sizes, read and written. Text is a list of scalars, and
-- numbers have 64 bits.
pub mod Bounds
pub mod RoundTrip
use zodex.Common.{
  ℕ, zero, suc, ◌+◌, ◌-◌, ◌*◌, ◌/◌, ◌%◌, Bool, true, false, not, ◌&&◌, ◌||◌, List, [], ◌∷◌, ◌++◌,
  Option, none, some, leb, ◌==◌, if◌then◌else◌, u64_max, length, Bytes, bytes, eq_bytes,
}
use zodex.Common.Ascii.{to_ascii_lowercase, is_ascii_digit}
use zodex.Patch.Recovery.{trim_start, trim_end}

pub data ParseError : Type 0 where
  empty no_amount bad_amount zero_amount missing_unit unsupported_unit too_large : ParseError

pub data Parsed : Type 0 where
  ok : ℕ → Parsed
  err : ParseError → Parsed

-- `parse::<u64>` of digits
unfoldable pub parse_u64 : Bytes → ℕ → Option ℕ
parse_u64 [] n = some n
parse_u64 (c ∷ text) n =
    let m = n * 10 + (c - b'0') in
    if is_ascii_digit c && leb m u64_max then parse_u64 text m else none

-- `split_at` the first scalar that is no digit
unfoldable pub leading_digits : Bytes → Bytes
leading_digits [] = []
leading_digits (c ∷ text) = if is_ascii_digit c then c ∷ leading_digits text else []

unfoldable pub after_digits : Bytes → Bytes
after_digits [] = []
after_digits (c ∷ text) = if is_ascii_digit c then after_digits text else c ∷ text

abbrev pub one_of : Bytes → List Bytes → Bool
one_of text [] = false
one_of text (name ∷ names) = eq_bytes text name || one_of text names

abbrev pub duration_multiplier : Bytes → Option ℕ
duration_multiplier unit =
    if one_of unit (bytes "s" ∷ bytes "sec" ∷ bytes "secs" ∷ bytes "second" ∷ bytes "seconds" ∷ [])
    then some 1
    else if one_of unit
        (bytes "m" ∷ bytes "min" ∷ bytes "mins" ∷ bytes "minute" ∷ bytes "minutes" ∷ [])
    then some 60
    else if one_of unit (bytes "h" ∷ bytes "hr" ∷ bytes "hrs" ∷ bytes "hour" ∷ bytes "hours" ∷ [])
    then some 3600
    else if one_of unit (bytes "d" ∷ bytes "day" ∷ bytes "days" ∷ [])
    then some 86400
    else none

abbrev pub size_multiplier : Bytes → Option ℕ
size_multiplier unit =
    if one_of unit (bytes "b" ∷ bytes "bytes" ∷ [])
    then some 1
    else if one_of unit (bytes "kb" ∷ bytes "kib" ∷ [])
    then some 1024
    else if one_of unit (bytes "mb" ∷ bytes "mib" ∷ [])
    then some (1024 * 1024)
    else if one_of unit (bytes "gb" ∷ bytes "gib" ∷ [])
    then some (1024 * 1024 * 1024)
    else none

-- `checked_mul`
unfoldable pub scaled : ℕ → Option ℕ → Bytes → Parsed
scaled amount (some multiplier) unit =
    if leb (amount * multiplier) u64_max then ok (amount * multiplier) else err too_large
scaled amount none [] = err missing_unit
scaled amount none (c ∷ unit) = err unsupported_unit

unfoldable pub with_amount : (Bytes → Option ℕ) → Option ℕ → Bytes → Parsed
with_amount multiplier none unit = err bad_amount
with_amount multiplier (some amount) unit =
    if amount == 0 then err zero_amount else scaled amount (multiplier unit) unit

unfoldable pub parse_trimmed : (Bytes → Option ℕ) → Bytes → Parsed
parse_trimmed multiplier trimmed =
    if length trimmed == 0
    then err empty
    else if length (leading_digits trimmed) == 0
    then err no_amount
    else with_amount multiplier (parse_u64 (leading_digits trimmed) 0)
        (to_ascii_lowercase (after_digits trimmed))

unfoldable pub parse_human_duration : Bytes → Parsed
parse_human_duration raw = parse_trimmed duration_multiplier (trim_start (trim_end raw))

unfoldable pub parse_storage_size : Bytes → Parsed
parse_storage_size raw = parse_trimmed size_multiplier (trim_start (trim_end raw))

-- The decimal digits of a number, before those in `out`; a `u64` has 20 at most.
unfoldable pub digits : ℕ → ℕ → Bytes → Bytes
digits zero n out = out
digits (suc fuel) n out =
    let rest = digits fuel (n / 10) ((b'0' + n % 10) ∷ out) in if n == 0 then out else rest

unfoldable pub decimal : ℕ → Bytes
decimal n = if n == 0 then b'0' ∷ [] else digits 20 n []

unfoldable pub show_duration : ℕ → Bytes
show_duration seconds =
    if seconds % 86400 == 0
    then decimal (seconds / 86400) ++ bytes "d"
    else if seconds % 3600 == 0
    then decimal (seconds / 3600) ++ bytes "h"
    else if seconds % 60 == 0
    then decimal (seconds / 60) ++ bytes "min"
    else decimal seconds ++ bytes "s"

unfoldable pub show_size : ℕ → Bytes
show_size n =
    if n % (1024 * 1024 * 1024) == 0
    then decimal (n / (1024 * 1024 * 1024)) ++ bytes "gb"
    else if n % (1024 * 1024) == 0
    then decimal (n / (1024 * 1024)) ++ bytes "mb"
    else if n % 1024 == 0
    then decimal (n / 1024) ++ bytes "kb"
    else decimal n ++ bytes "b"

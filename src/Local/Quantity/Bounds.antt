-- ===== src/Local/Quantity/Bounds.antt =====
-- What is read is a positive number of 64 bits.
use zodex.Common.{
  ℕ, zero, suc, ◌*◌, ◌≤◌, ◌<◌, ◌≡◌, refl, inl, inr, [], ◌∷◌, Option, none, some, arith, ◌==◌,
  Bool-cases, u64_max, Bytes,
}
use zodex.Common.Ascii.{to_ascii_lowercase}
use zodex.Local.Quantity.{
  Parsed, ok, err, parse_u64, leading_digits, after_digits, duration_multiplier, size_multiplier,
  scaled, with_amount, parse_trimmed, parse_human_duration, parse_storage_size, show_duration,
  show_size,
}
use zodex.Local.Quantity.RoundTrip.{quantity-round_trip}
use zodex.Patch.Recovery.{trim_start, trim_end}

abbrev value : Parsed → Option ℕ
value (ok n) = some n
value (err e) = none

abbrev Positive : (Bytes → Option ℕ) → Type 0
Positive multiplier = (unit : Bytes) (k : ℕ) → multiplier unit ≡ some k → 0 < k

duration_multiplier-Positive : Positive duration_multiplier
duration_multiplier-Positive unit k h = ground arith

size_multiplier-Positive : Positive size_multiplier
size_multiplier-Positive unit k h = ground arith

scaled-bounds :
    (amount n : ℕ) (factor : Option ℕ) (unit : Bytes)
    → 0 < amount
    → ((k : ℕ) → factor ≡ some k → 0 < k)
    → scaled amount factor unit ≡ ok n
    → (0 < n) × (n ≤ u64_max)
unfolding scaled
scaled-bounds amount n none [] h positive e = ground arith
scaled-bounds amount n none (c ∷ unit) h positive e = ground arith
scaled-bounds amount n (some k) unit h positive e =
    let p = product amount k h (positive k refl) in ground arith
  where
    product : (m k : ℕ) → 0 < m → 0 < k → 0 < m * k
    product zero k h p = absurd (omega arith)
    product (suc m) zero h p = absurd (omega arith)
    product (suc m) (suc k) h p = ground arith

with_amount-bounds :
    (multiplier : Bytes → Option ℕ) (amount : Option ℕ) (unit : Bytes) (n : ℕ)
    → Positive multiplier
    → with_amount multiplier amount unit ≡ ok n
    → (0 < n) × (n ≤ u64_max)
unfolding with_amount
with_amount-bounds multiplier none unit n positive e = ground arith
with_amount-bounds multiplier (some amount) unit n positive e = elim (Bool-cases (amount == 0)) [
  | inl none_left ↦ absurd (ground arith)
  | inr more ↦
      scaled-bounds amount n (multiplier unit) unit (ground arith) (positive unit) (ground arith)
]

parse_trimmed-bounds :
    (multiplier : Bytes → Option ℕ) (text : Bytes) (n : ℕ)
    → Positive multiplier
    → parse_trimmed multiplier text ≡ ok n
    → (0 < n) × (n ≤ u64_max)
unfolding parse_trimmed
parse_trimmed-bounds multiplier text n positive e = ground (
  arith,
  with_amount-bounds multiplier (parse_u64 (leading_digits text) 0)
      (to_ascii_lowercase (after_digits text)) n positive,
)

-- A text that reads as a duration or a size reads as a number from 1 up to the greatest `u64`; what
-- `Display` writes of it is read as the same number.
pub parsed-read_again :
    (raw text : Bytes) (seconds size : ℕ)
    → parse_human_duration raw ≡ ok seconds
    → parse_storage_size text ≡ ok size
    → (0 < seconds)
      × (seconds ≤ u64_max)
      × (parse_human_duration (show_duration seconds) ≡ ok seconds)
      × (0 < size)
      × (size ≤ u64_max)
      × (parse_storage_size (show_size size) ≡ ok size)
unfolding parse_human_duration parse_storage_size
parsed-read_again raw text seconds size e f =
    let b =
      parse_trimmed-bounds duration_multiplier (trim_start (trim_end raw)) seconds
        duration_multiplier-Positive e in
    let c =
      parse_trimmed-bounds size_multiplier (trim_start (trim_end text)) size
        size_multiplier-Positive f in
    let d = quantity-round_trip seconds b.0 b.1 in
    let s = quantity-round_trip size c.0 c.1 in (b.0, b.1, d.0, c.0, c.1, s.1)

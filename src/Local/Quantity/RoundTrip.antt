-- ===== src/Local/Quantity/RoundTrip.antt =====
-- What is written is read back.
use zodex.Common.{
  ℕ, zero, suc, ◌+◌, ◌*◌, ◌/◌, ◌%◌, ◌≤◌, ◌<◌, ◌≡◌, refl, ap, ◌∙◌, inl, inr, true, false, [], ◌∷◌,
  ◌++◌, Option, some, arith, ◌==◌, Bool-cases, u64_max, length, Bytes, bytes,
}
use zodex.Common.Ascii.{to_ascii_lowercase, is_ascii_digit}
use zodex.Patch.Recovery.{is_whitespace, trim_start, trim_end, keep_end}
use zodex.Local.Quantity.{
  ok, parse_u64, leading_digits, after_digits, duration_multiplier, size_multiplier, scaled,
  with_amount, parse_trimmed, parse_human_duration, parse_storage_size, digits, decimal,
  show_duration, show_size,
}

abbrev pow10 : ℕ → ℕ
pow10 zero = 1
pow10 (suc k) = 10 * pow10 k

last_digit :
    (n : ℕ) (out : Bytes)
    → n ≤ u64_max
    → parse_u64 ((b'0' + n % 10) ∷ out) (n / 10) ≡ parse_u64 out n
unfolding parse_u64
last_digit n out fits = ground arith

-- The digits of `n` are read before those that follow.
parse_u64-digits :
    (fuel n : ℕ) (out : Bytes)
    → n < pow10 fuel
    → n ≤ u64_max
    → parse_u64 (digits fuel n out) 0 ≡ parse_u64 out n
unfolding digits
parse_u64-digits zero n out small fits = rw (let e : n ≡ 0 = omega arith in e) refl
parse_u64-digits (suc fuel) n out small fits = elim (Bool-cases (n == 0)) [
  | inl none_left ↦ ground arith
  | inr more ↦ rw more (
      parse_u64-digits fuel (n / 10) ((b'0' + n % 10) ∷ out) (omega arith) (omega arith)
      ∙ last_digit n out fits)
]

abbrev Digits : Bytes → Type 0
Digits [] = Unit
Digits (c ∷ text) = (is_ascii_digit c ≡ true) × Digits text

Digits-digits : (fuel n : ℕ) (out : Bytes) → Digits out → Digits (digits fuel n out)
unfolding digits
Digits-digits zero n out d = d
Digits-digits (suc fuel) n out d = elim (Bool-cases (n == 0)) [
  | inl none_left ↦ rw none_left d
  | inr more ↦ rw more (Digits-digits fuel (n / 10) ((b'0' + n % 10) ∷ out) (ground arith, d))
]

length-digits : (fuel n : ℕ) (out : Bytes) → length out ≤ length (digits fuel n out)
unfolding digits
length-digits zero n out = omega arith
length-digits (suc fuel) n out = ground (arith, length-digits fuel (n / 10) ((b'0' + n % 10) ∷ out))

length-digits_pos :
    (fuel n : ℕ) (out : Bytes) → (n == 0) ≡ false → 0 < length (digits (suc fuel) n out)
unfolding digits
length-digits_pos fuel n out more =
    rw more (let h = length-digits fuel (n / 10) ((b'0' + n % 10) ∷ out) in omega arith)

-- A decimal is one digit or more, and is read as its number.
record IsDecimal (text : Bytes) (n : ℕ) : Type 0 where
  all_digits : Digits text
  some_digit : 0 < length text
  reads : parse_u64 text 0 ≡ some n

decimal-IsDecimal : (n : ℕ) → n ≤ u64_max → IsDecimal (decimal n) n
unfolding decimal parse_u64
decimal-IsDecimal n fits = elim (Bool-cases (n == 0)) [
  | inl zero_ ↦
      rw zero_ (record { all_digits = (refl, tt); some_digit = omega arith; reads = ground arith })
  | inr more ↦ rw more (record {
    all_digits = Digits-digits 20 n [] tt;
    some_digit = length-digits_pos 19 n [] more;
    reads = parse_u64-digits 20 n [] (omega arith) fits ∙ unfold parse_u64 in refl;
  })
]

leading_digits-append :
    (text : Bytes) (u : ℕ) (unit : Bytes)
    → Digits text
    → is_ascii_digit u ≡ false
    → (leading_digits (text ++ u ∷ unit) ≡ text) × (after_digits (text ++ u ∷ unit) ≡ u ∷ unit)
unfolding leading_digits after_digits
leading_digits-append [] u unit d h = rw h (refl, refl)
leading_digits-append (c ∷ text) u unit (first, d) h =
    let ih = leading_digits-append text u unit d h in rw first (ap (◌∷◌ c) ih.0, ih.1)

keep_end-letter : (c : ℕ) (text : Bytes) → is_whitespace c ≡ false → keep_end c text ≡ c ∷ text
keep_end-letter c [] h = rw h refl
keep_end-letter c (d ∷ text) h = refl

-- Digits, or a text without white space.
abbrev NoSpace : Bytes → Type 0
NoSpace [] = Unit
NoSpace (c ∷ text) = (is_whitespace c ≡ false) × NoSpace text

trim_end-NoSpace : (text : Bytes) → NoSpace text → trim_end text ≡ text
trim_end-NoSpace [] h = refl
trim_end-NoSpace (c ∷ text) (first, h) = rw (trim_end-NoSpace text h) (keep_end-letter c text first)

trim_start-NoSpace : (text : Bytes) → NoSpace text → trim_start text ≡ text
trim_start-NoSpace [] h = refl
trim_start-NoSpace (c ∷ text) (first, h) = rw first refl

NoSpace-append : (text unit : Bytes) → Digits text → NoSpace unit → NoSpace (text ++ unit)
NoSpace-append [] unit d h = h
NoSpace-append (c ∷ text) unit (first, d) h = (digit_space c first, NoSpace-append text unit d h)
  where
    digit_space : (c : ℕ) → is_ascii_digit c ≡ true → is_whitespace c ≡ false
    digit_space c h = ground arith

parse_trimmed_lem :
    (multiplier : Bytes → Option ℕ) (text lead rest : Bytes)
    → leading_digits text ≡ lead
    → after_digits text ≡ rest
    → 0 < length lead
    → parse_trimmed multiplier text
      ≡ with_amount multiplier (parse_u64 lead 0) (to_ascii_lowercase rest)
unfolding parse_trimmed leading_digits
parse_trimmed_lem multiplier [] lead rest e f h = absurd (let l = ap length e in omega arith)
parse_trimmed_lem multiplier (c ∷ text) lead rest e f h =
    rw (parse_trimmed, nonzero (length text), leading_digits, e, f)
      (elim (Bool-cases (length lead == 0)) [
        | inl none_left ↦ absurd (ground arith)
        | inr some_left ↦ rw some_left refl
      ])
  where
    nonzero : (k : ℕ) → (suc k == 0) ≡ false
    nonzero k = ground arith

with_amount_lem :
    (multiplier : Bytes → Option ℕ) (n factor : ℕ) (unit : Bytes)
    → 0 < n
    → multiplier unit ≡ some factor
    → n * factor ≤ u64_max
    → with_amount multiplier (some n) unit ≡ ok (n * factor)
unfolding with_amount scaled
with_amount_lem multiplier n factor unit h known fits = rw known (ground arith)

amount_bounds :
    (amount factor n : ℕ)
    → amount * factor ≡ n
    → 0 < n
    → n ≤ u64_max
    → (0 < amount) × (amount ≤ u64_max)
amount_bounds zero factor n e h fits = absurd (ground arith)
amount_bounds (suc amount) zero n e h fits = absurd (ground arith)
amount_bounds (suc amount) (suc factor) n e h fits = (omega arith, ground arith)

-- A decimal and its unit are read as the number times the unit.
parse-decimal :
    (multiplier : Bytes → Option ℕ) (amount factor u n : ℕ) (unit : Bytes)
    → 0 < n
    → n ≤ u64_max
    → amount * factor ≡ n
    → NoSpace (u ∷ unit)
    → is_ascii_digit u ≡ false
    → multiplier (to_ascii_lowercase (u ∷ unit)) ≡ some factor
    → parse_trimmed multiplier (trim_start (trim_end (decimal amount ++ u ∷ unit))) ≡ ok n
parse-decimal multiplier amount factor u n unit positive fits product plain letter known =
    let bounds = amount_bounds amount factor n product positive fits in
    let d = decimal-IsDecimal amount bounds.1 in
    let no_space = NoSpace-append (decimal amount) (u ∷ unit) d.all_digits plain in
    let split = leading_digits-append (decimal amount) u unit d.all_digits letter in
    ap (λ (t : Bytes). parse_trimmed multiplier (trim_start t)) (trim_end-NoSpace _ no_space)
    ∙ ap (parse_trimmed multiplier) (trim_start-NoSpace _ no_space)
    ∙ parse_trimmed_lem multiplier _ (decimal amount) (u ∷ unit) split.0 split.1 d.some_digit
    ∙ ap (λ (r : Option ℕ). with_amount multiplier r (to_ascii_lowercase (u ∷ unit))) d.reads
    ∙ with_amount_lem multiplier amount factor _ bounds.0 known (rw product fits)
    ∙ ap ok product

parse_human_duration-show_duration :
    (n : ℕ) → 0 < n → n ≤ u64_max → parse_human_duration (show_duration n) ≡ ok n
unfolding parse_human_duration show_duration
parse_human_duration-show_duration n h fits = elim (Bool-cases (n % 86400 == 0)) [
  | inl days ↦
      rw (show_duration, days)
        (parse-decimal duration_multiplier (n / 86400) 86400 b'd' n [] h fits (ground arith)
          (refl, tt) refl refl)
  | inr no_days ↦ elim (Bool-cases (n % 3600 == 0)) [
    | inl hours ↦
        rw (show_duration, no_days, hours)
          (parse-decimal duration_multiplier (n / 3600) 3600 b'h' n [] h fits (ground arith)
            (refl, tt) refl refl)
    | inr no_hours ↦ elim (Bool-cases (n % 60 == 0)) [
      | inl minutes ↦
          rw (show_duration, no_days, no_hours, minutes)
            (parse-decimal duration_multiplier (n / 60) 60 b'm' n (bytes "in") h fits (ground arith)
              (refl, (refl, (refl, tt))) refl refl)
      | inr no_minutes ↦
          rw (show_duration, no_days, no_hours, no_minutes)
            (parse-decimal duration_multiplier n 1 b's' n [] h fits (omega arith) (refl, tt) refl
              refl)
    ]
  ]
]

parse_storage_size-show_size :
    (n : ℕ) → 0 < n → n ≤ u64_max → parse_storage_size (show_size n) ≡ ok n
unfolding parse_storage_size show_size
parse_storage_size-show_size n h fits = elim (Bool-cases (n % (1024 * 1024 * 1024) == 0)) [
  | inl gigabytes ↦
      rw (show_size, gigabytes)
        (parse-decimal size_multiplier (n / (1024 * 1024 * 1024)) (1024 * 1024 * 1024) b'g' n
          (bytes "b") h fits (ground arith) (refl, (refl, tt)) refl refl)
  | inr no_gigabytes ↦ elim (Bool-cases (n % (1024 * 1024) == 0)) [
    | inl megabytes ↦
        rw (show_size, no_gigabytes, megabytes)
          (parse-decimal size_multiplier (n / (1024 * 1024)) (1024 * 1024) b'm' n (bytes "b") h fits
            (ground arith) (refl, (refl, tt)) refl refl)
    | inr no_megabytes ↦ elim (Bool-cases (n % 1024 == 0)) [
      | inl kilobytes ↦
          rw (show_size, no_gigabytes, no_megabytes, kilobytes)
            (parse-decimal size_multiplier (n / 1024) 1024 b'k' n (bytes "b") h fits (ground arith)
              (refl, (refl, tt)) refl refl)
      | inr no_kilobytes ↦
          rw (show_size, no_gigabytes, no_megabytes, no_kilobytes)
            (parse-decimal size_multiplier n 1 b'b' n [] h fits (omega arith) (refl, tt) refl refl)
    ]
  ]
]

-- Every duration and every size from 1 up to the greatest `u64`, written by `Display`, is read by
-- `from_str` as the same number.
pub quantity-round_trip :
    (n : ℕ)
    → 0 < n
    → n ≤ u64_max
    → (parse_human_duration (show_duration n) ≡ ok n) × (parse_storage_size (show_size n) ≡ ok n)
quantity-round_trip n h fits =
    (parse_human_duration-show_duration n h fits, parse_storage_size-show_size n h fits)

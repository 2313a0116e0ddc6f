-- ===== src/Local/Tests.antt =====
-- Durations and sizes of src/local/parse.rs, and the sanitising of src/local/presentation/sanitize.rs,
-- at concrete inputs.
use zodex.Common.{Bytes, [], ◌∷◌, ◌++◌, ◌≤◌, ◌<◌, ◌≡◌, u64_max, refl, bytes, arith}
use zodex.Local.Sanitize.{
  escaped, hex_digits, lower_hex, sanitize_stripped_text, sanitize_display_text,
}
use zodex.Local.Sanitize.Safe.{AllShown, sanitize_display_text-AllShown}
use zodex.Local.Quantity.{
  ok, err, empty, no_amount, bad_amount, zero_amount, missing_unit, unsupported_unit, too_large,
  parse_u64, leading_digits, after_digits, scaled, with_amount, parse_trimmed, parse_human_duration,
  parse_storage_size, digits, decimal, show_duration, show_size,
}
use zodex.Local.Quantity.Bounds.{parsed-read_again}
use zodex.Local.Quantity.RoundTrip.{quantity-round_trip}

minutes_read : parse_human_duration (bytes "30min") ≡ ok 1800
unfolding parse_human_duration parse_trimmed leading_digits after_digits parse_u64 with_amount
    scaled
minutes_read = refl

blanks_and_case : parse_human_duration (bytes " 4H ") ≡ ok 14400
unfolding parse_human_duration parse_trimmed leading_digits after_digits parse_u64 with_amount
    scaled
blanks_and_case = refl

empty_text : parse_human_duration (bytes "  ") ≡ err empty
unfolding parse_human_duration parse_trimmed
empty_text = refl

no_digits : parse_human_duration (bytes "h") ≡ err no_amount
unfolding parse_human_duration parse_trimmed leading_digits
no_digits = refl

zero_hours : parse_human_duration (bytes "0h") ≡ err zero_amount
unfolding parse_human_duration parse_trimmed leading_digits after_digits parse_u64 with_amount
    scaled
zero_hours = refl

no_unit : parse_human_duration (bytes "30") ≡ err missing_unit
unfolding parse_human_duration parse_trimmed leading_digits after_digits parse_u64 with_amount
    scaled
no_unit = refl

weeks : parse_human_duration (bytes "2w") ≡ err unsupported_unit
unfolding parse_human_duration parse_trimmed leading_digits after_digits parse_u64 with_amount
    scaled
weeks = refl

too_many_digits : parse_storage_size (bytes "18446744073709551616b") ≡ err bad_amount
unfolding parse_storage_size parse_trimmed leading_digits after_digits parse_u64 with_amount
too_many_digits = refl

overflow : parse_storage_size (bytes "18446744073709551615kb") ≡ err too_large
unfolding parse_storage_size parse_trimmed leading_digits after_digits parse_u64 with_amount scaled
overflow = refl

mebibytes : parse_storage_size (bytes "5MiB") ≡ ok 5242880
unfolding parse_storage_size parse_trimmed leading_digits after_digits parse_u64 with_amount scaled
mebibytes = refl

sixty_days : show_duration 5184000 ≡ bytes "60d"
unfolding show_duration decimal digits
sixty_days = refl

odd_seconds : show_duration 5184001 ≡ bytes "5184001s"
unfolding show_duration decimal digits
odd_seconds = refl

mega : show_size 5242880 ≡ bytes "5mb"
unfolding show_size decimal digits
mega = refl

quantity-round_trip_example :
    (parse_human_duration (show_duration 5400) ≡ ok 5400)
    × (parse_storage_size (show_size 5400) ≡ ok 5400)
quantity-round_trip_example = quantity-round_trip 5400 (omega arith) (omega arith)

parsed-read_again_example :
    (0 < 1800)
    × (1800 ≤ u64_max)
    × (parse_human_duration (show_duration 1800) ≡ ok 1800)
    × (0 < 5242880)
    × (5242880 ≤ u64_max)
    × (parse_storage_size (show_size 5242880) ≡ ok 5242880)
parsed-read_again_example =
    parsed-read_again (bytes "30min") (bytes "5MiB") 1800 5242880 minutes_read mebibytes

-- An escape character and a mark that turns the direction of text; the line feed stays.
abbrev hostile : Bytes
hostile = b'a' ∷ 27 ∷ 10 ∷ 8238 ∷ b'b' ∷ []

hostile-sanitized :
    sanitize_display_text (λ text. text) hostile
    ≡ b'a' ∷ 92 ∷ bytes "u{1b}" ++ 10 ∷ 92 ∷ bytes "u{202e}b"
unfolding sanitize_display_text sanitize_stripped_text escaped lower_hex hex_digits
hostile-sanitized = refl

sanitize_display_text-AllShown_example :
    AllShown (sanitize_display_text (λ text. text) hostile)
    × (sanitize_stripped_text (sanitize_display_text (λ text. text) hostile)
        ≡ sanitize_display_text (λ text. text) hostile)
sanitize_display_text-AllShown_example = sanitize_display_text-AllShown (λ text. text) hostile

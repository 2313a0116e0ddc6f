-- ===== src/Local/Sanitize/Safe.antt =====
-- What sanitised text may hold.
use zodex.Common.{
  ltb, ◌&&◌, drop, ℕ, zero, suc, ◌/◌, ◌%◌, ◌<◌, ◌≡◌, refl, inl, inr, Bool, true, not, ◌||◌, [], ◌∷◌,
  ◌++◌, arith, ◌==◌, Bool-cases, Bytes,
}
use zodex.Local.Sanitize.{
  is_control, is_bidi_control, hex_digit, hex_digits, lower_hex, escaped, sanitize_stripped_text,
  sanitize_display_text,
}

-- A scalar that a terminal shows: a tab, a line feed, or none of the controls U+0000 to U+001F and
-- U+007F to U+009F and none of the marks of direction U+061C, U+200E, U+200F, U+202A to U+202E and
-- U+2066 to U+2069.
abbrev pub is_shown : ℕ → Bool
is_shown c = not (
    ltb c 9
    || (ltb 10 c && ltb c 32)
    || (ltb 126 c && ltb c 160)
    || c == 1564
    || c == 8206
    || c == 8207
    || (ltb 8233 c && ltb c 8239)
    || (ltb 8293 c && ltb c 8298))

abbrev pub AllShown : Bytes → Type 0
AllShown [] = Unit
AllShown (c ∷ text) = (is_shown c ≡ true) × AllShown text

pub AllShown-append : (a b : Bytes) → AllShown a → AllShown b → AllShown (a ++ b)
AllShown-append [] b h k = k
AllShown-append (c ∷ a) b (first, h) k = (first, AllShown-append a b h k)

pub AllShown-drop : (n : ℕ) (text : Bytes) → AllShown text → AllShown (drop n text)
AllShown-drop zero text h = h
AllShown-drop (suc n) [] h = tt
AllShown-drop (suc n) (c ∷ text) h = AllShown-drop n text h.1

hex_digit-shown : (d : ℕ) → d < 16 → is_shown (hex_digit d) ≡ true
hex_digit-shown d h = ground arith

AllShown-hex_digits : (fuel n : ℕ) (out : Bytes) → AllShown out → AllShown (hex_digits fuel n out)
unfolding hex_digits
AllShown-hex_digits zero n out h = h
AllShown-hex_digits (suc fuel) n out h = elim (Bool-cases (n == 0)) [
  | inl none_left ↦ rw none_left h
  | inr more ↦ rw more (
      AllShown-hex_digits fuel (n / 16) (hex_digit (n % 16) ∷ out)
        (hex_digit-shown (n % 16) (omega arith), h))
]

AllShown-escaped : (c : ℕ) → AllShown (escaped c)
unfolding escaped lower_hex
AllShown-escaped c = elim (Bool-cases (c == 0)) [
  | inl e ↦ rw (escaped, lower_hex, e) (refl, (refl, (refl, (refl, (refl, tt)))))
  | inr e ↦
      rw (escaped, lower_hex, e)
        (
          refl,
          (
            refl,
            (
              refl,
              AllShown-append (hex_digits 6 c []) _ (AllShown-hex_digits 6 c [] tt) (refl, tt),
            ),
          ),
        )
]

AllShown-sanitize : (text : Bytes) → AllShown (sanitize_stripped_text text)
unfolding sanitize_stripped_text
AllShown-sanitize [] = tt
AllShown-sanitize (c ∷ text) = elim (Bool-cases ((c == 10) || (c == 9))) [
  | inl line ↦ rw line (ground arith, AllShown-sanitize text)
  | inr other ↦ elim (Bool-cases (is_control c || is_bidi_control c)) [
    | inl hidden ↦
        rw (other, hidden)
          (AllShown-append (escaped c) _ (AllShown-escaped c) (AllShown-sanitize text))
    | inr plain ↦ rw (other, plain) (ground arith, AllShown-sanitize text)
  ]
]

sanitize-AllShown : (text : Bytes) → AllShown text → sanitize_stripped_text text ≡ text
unfolding sanitize_stripped_text
sanitize-AllShown [] h = refl
sanitize-AllShown (c ∷ text) (first, h) = rw (sanitize-AllShown text h) (ground arith)

-- Whatever the removal of escape sequences leaves of a text, the text displayed holds no control
-- character but line feeds and tabs and none of the marks of direction U+061C, U+200E, U+200F,
-- U+202A to U+202E and U+2066 to U+2069; escaping the characters of the text displayed once more,
-- without the removal, leaves it as it is.
pub sanitize_display_text-AllShown :
    (strip_str : Bytes → Bytes) (input : Bytes)
    → AllShown (sanitize_display_text strip_str input)
      × (sanitize_stripped_text (sanitize_display_text strip_str input)
          ≡ sanitize_display_text strip_str input)
unfolding sanitize_display_text
sanitize_display_text-AllShown strip_str input =
    let shown = AllShown-sanitize (strip_str input) in (shown, sanitize-AllShown _ shown)

-- ===== src/Session/Output/Lines.antt =====
-- The character and line counts that a snapshot reports, over the appends of a buffer.
use zodex.Common.{
  ap, inl, inr, Bool-cases, Option-cases, some, ℕ, ◌+◌, ◌-◌, ◌^◌, ◌≤◌, ◌<◌, ◌≡◌, refl, ◌∙◌, false,
  List, [], ◌∷◌, ◌++◌, append-nil, append_assoc, Option, arith, Bytes, length, length-append, ◌==◌,
  if◌then◌else◌,
}
use zodex.Session.Utf8.{continuation, piece, valid, validate, from_utf8}
use zodex.Session.Output.{
  Shown, all, tail_of, saved, saved_capped, OutputSnapshot, snapshot, Disk, OutputSpill,
  OutputState, OutputBuffer, new_buffer, forward, spill_chunk, count_chunk, retain_tail, append,
  append_all, stream, char_count, newlines, ends_with_newline, line_total,
}

-- The lines of a text as `str::lines` has them: a last line need not end with a newline.
mutual
  pub lines_of : Bytes → ℕ
  lines_of [] = 0
  lines_of (b ∷ bs) = if b == b'\n' then 1 + lines_of bs else lines_within bs

  pub lines_within : Bytes → ℕ
  lines_within [] = 1
  lines_within (b ∷ bs) = if b == b'\n' then 1 + lines_of bs else lines_within bs

char_count-append : (xs ys : Bytes) → char_count (xs ++ ys) ≡ char_count xs + char_count ys
unfolding char_count
char_count-append [] ys = omega arith
char_count-append (x ∷ xs) ys = omega (arith, char_count-append xs ys)

char_count-le : (xs : Bytes) → char_count xs ≤ length xs
unfolding char_count
char_count-le [] = omega arith
char_count-le (x ∷ xs) = ground (arith, char_count-le xs)

newlines-append : (xs ys : Bytes) → newlines (xs ++ ys) ≡ newlines xs + newlines ys
unfolding newlines
newlines-append [] ys = omega arith
newlines-append (x ∷ xs) ys = omega (arith, newlines-append xs ys)

newlines-le : (xs : Bytes) → newlines xs ≤ length xs
unfolding newlines
newlines-le [] = omega arith
newlines-le (x ∷ xs) = ground (arith, newlines-le xs)

ends_with_newline-append :
    (xs : Bytes) (y : ℕ) (ys : Bytes)
    → ends_with_newline (xs ++ (y ∷ ys)) ≡ ends_with_newline (y ∷ ys)
unfolding ends_with_newline
ends_with_newline-append [] y ys = refl
ends_with_newline-append (x ∷ []) y ys = refl
ends_with_newline-append (x ∷ w ∷ xs) y ys = ends_with_newline-append (w ∷ xs) y ys

mutual
  unfolding lines_of lines_within newlines ends_with_newline

  lines_of-newlines :
      (b : ℕ) (bs : Bytes)
      → lines_of (b ∷ bs) ≡ newlines (b ∷ bs) + (if ends_with_newline (b ∷ bs) then 0 else 1)
  lines_of-newlines b [] = ground arith
  lines_of-newlines b (c ∷ bs) = ground (arith, lines_of-newlines c bs, lines_within-newlines c bs)

  lines_within-newlines :
      (b : ℕ) (bs : Bytes)
      → lines_within (b ∷ bs) ≡ newlines (b ∷ bs) + (if ends_with_newline (b ∷ bs) then 0 else 1)
  lines_within-newlines b [] = ground arith
  lines_within-newlines b (c ∷ bs) =
      ground (arith, lines_of-newlines c bs, lines_within-newlines c bs)

-- The state's counters are those of the stream.
pub record Counted (sent : Bytes) (s : OutputState) : Type 0 where
  pub chars : s.total_chars ≡ char_count sent
  pub lines : s.newline_count ≡ newlines sent
  pub ends : s.ends_newline ≡ ends_with_newline sent

count_chunk-Counted :
    (s : OutputState) (sent chunk : Bytes)
    → length (sent ++ chunk) < 2 ^ 64
    → Counted sent s
    → Counted (sent ++ chunk) (count_chunk s chunk)
unfolding count_chunk
count_chunk-Counted s sent chunk small v = record {
  chars = omega (arith, v.chars, char_count-append sent chunk, char_count-le (sent ++ chunk));
  lines = omega (arith, v.lines, newlines-append sent chunk, newlines-le (sent ++ chunk));
  ends = ends chunk;
}
  where
    ends : (c : Bytes) → (count_chunk s c).ends_newline ≡ ends_with_newline (sent ++ c)
    ends [] = rw append-nil v.ends
    ends (c ∷ cs) = ground (arith, ends_with_newline-append sent c cs)

-- Neither the spill nor the drain touches them.
forward-Counted :
    (disk : Disk) (s : OutputState) (o : Option OutputSpill) (sent chunk : Bytes)
    → Counted sent s
    → Counted sent (forward disk s o chunk)
unfolding forward
forward-Counted disk s o sent chunk v = ground arith

spill_chunk-Counted :
    (disk : Disk) (max_chars : ℕ) (path : Bytes) (s : OutputState) (sent chunk : Bytes)
    → Counted sent s
    → Counted sent (spill_chunk disk max_chars path s chunk)
unfolding spill_chunk
spill_chunk-Counted disk max_chars path s sent chunk v =
    ground (arith, forward-Counted disk s s.spill sent chunk v)

retain_tail-Counted :
    (max_chars : ℕ) (s : OutputState) (sent chunk : Bytes)
    → Counted sent s
    → Counted sent (retain_tail max_chars s chunk)
unfolding retain_tail
retain_tail-Counted max_chars s sent chunk v = ground arith

append-Counted :
    (disk : Disk) (b : OutputBuffer) (sent chunk : Bytes)
    → length (sent ++ chunk) < 2 ^ 64
    → Counted sent b.inner
    → Counted (sent ++ chunk) (append disk b chunk).inner
unfolding append
append-Counted disk b sent chunk small v =
    let s = count_chunk b.inner chunk in
    retain_tail-Counted b.max_chars (spill_chunk disk b.max_chars b.spill_path s chunk) _ chunk (
      spill_chunk-Counted disk b.max_chars b.spill_path s _ chunk
        (count_chunk-Counted b.inner sent chunk small v))

append_all-Counted :
    (hist : List (Disk × Bytes)) (b : OutputBuffer) (sent : Bytes)
    → length (sent ++ stream hist) < 2 ^ 64
    → Counted sent b.inner
    → Counted (sent ++ stream hist) (append_all b hist).inner
unfolding append_all
append_all-Counted [] b sent small v = rw append-nil v
append_all-Counted ((disk, chunk) ∷ more) b sent small v =
    let now : length (sent ++ chunk) < 2 ^ 64 = omega (
      arith,
      small,
      length-append sent (chunk ++ stream more),
      length-append chunk (stream more),
      length-append sent chunk,
    ) in
    let step =
      append_all-Counted more (append disk b chunk) (sent ++ chunk) (rw append_assoc small)
        (append-Counted disk b sent chunk now v) in
    rw (← append_assoc sent chunk (stream more)) step

-- A valid text begins with a byte that begins a scalar.
valid_head : (b : ℕ) (bs : Bytes) → from_utf8 (b ∷ bs) ≡ valid → continuation b ≡ false
unfolding from_utf8 validate piece
valid_head b bs e = ground arith

char_count_valid : (b : ℕ) (bs : Bytes) → from_utf8 (b ∷ bs) ≡ valid → 1 ≤ char_count (b ∷ bs)
unfolding char_count
char_count_valid b bs e = rw (valid_head b bs e) (omega arith)

line_total-lines_of :
    (sent : Bytes) (s : OutputState)
    → from_utf8 sent ≡ valid
    → length sent < 2 ^ 64 - 1
    → Counted sent s
    → line_total s ≡ lines_of sent
unfolding line_total
line_total-lines_of [] s ok small v =
    let none_yet : s.total_chars ≡ 0 = v.chars ∙ (unfold char_count in refl) in
    rw none_yet (unfold lines_of in refl)
line_total-lines_of (b ∷ bs) s ok small v =
    let seen : 1 ≤ s.total_chars = rw v.chars (char_count_valid b bs ok) in
    ground (arith, v.lines, v.ends, lines_of-newlines b bs, newlines-le (b ∷ bs))

-- The counts in a snapshot's text, where it has any.
abbrev pub Tells : Bytes → Shown → Type 0
Tells sent (saved path chars lines t) = (chars ≡ char_count sent) × (lines ≡ lines_of sent)
Tells sent (saved_capped cap path chars lines t) =
    (chars ≡ char_count sent) × (lines ≡ lines_of sent)
Tells sent (all t) = Unit
Tells sent (tail_of n t) = Unit

-- The counts of a snapshot, in its text and in its fields.
pub record Reports (sent : Bytes) (s : OutputSnapshot) : Type 0 where
  pub tells : Tells sent s.text
  pub beside_file :
      (path : Bytes)
      → s.output_file ≡ some path
      → (s.output_chars ≡ some (char_count sent)) × (s.output_lines ≡ some (lines_of sent))

snapshot-Reports :
    (sent : Bytes) (b : OutputBuffer)
    → b.inner.total_chars ≡ char_count sent
    → line_total b.inner ≡ lines_of sent
    → Reports sent (snapshot b)
unfolding snapshot
snapshot-Reports sent b c l = elim (Option-cases b.inner.spill) [
  | inl e ↦ elim (Bool-cases (b.inner.dropped_bytes == 0)) [
    | inl zero_dropped ↦
        rw (snapshot, e, zero_dropped) (record { tells = tt; beside_file = λ n f. cc })
    | inr some_dropped ↦
        rw (snapshot, e, some_dropped) (record { tells = tt; beside_file = λ n f. cc })
  ]
  | inr (spill, e) ↦ elim (Bool-cases spill.truncated) [
    | inl cut ↦
        rw (snapshot, e, cut)
          (record { tells = (c, l); beside_file = λ n f. (ap some c, ap some l) })
    | inr whole ↦
        rw (snapshot, e, whole)
          (record { tells = (c, l); beside_file = λ n f. (ap some c, ap some l) })
  ]
]

-- After any history of appends of valid text, the counts in a snapshot's text are the number of
-- characters of the whole stream and the number of lines that `str::lines` finds in it, where the
-- text has counts; and a snapshot that names a file gives the same two counts in its fields.
pub history-Reports :
    (max_chars : ℕ) (path : Bytes) (hist : List (Disk × Bytes))
    → from_utf8 (stream hist) ≡ valid
    → length (stream hist) < 2 ^ 64 - 1
    → Reports (stream hist) (snapshot (append_all (new_buffer max_chars path) hist))
unfolding new_buffer
history-Reports max_chars path hist ok small =
    let counted =
      append_all-Counted hist (new_buffer max_chars path) [] (omega (arith, small)) (record {
        chars = unfold char_count in refl;
        lines = unfold newlines in refl;
        ends = unfold ends_with_newline in refl;
      }) in
    snapshot-Reports (stream hist) _ counted.chars
      (line_total-lines_of (stream hist) _ ok small counted)

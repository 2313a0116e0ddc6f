-- ===== src/Session/Output/Retained.antt =====
-- The text that a buffer retains, the bytes it drops and the spill file, over its appends.
use zodex.Common.{
  ℕ, ◌+◌, ◌-◌, ◌^◌, ◌≤◌, ◌<◌, ◌≡◌, refl, ap, sym, ◌∙◌, inl, inr, Bool, false, not, ◌&&◌, List, [],
  ◌∷◌, ◌++◌, append-nil, append_assoc, Option, none, some, arith, Bytes, length, take, length-take,
  length-drop, length-append, take-append-drop, Bool-cases, leb, ltb, is_none, sat_add,
}
use zodex.Session.Output.{
  Disk, OutputSpill, OutputState, OutputBuffer, new_buffer, settle, forward, spill_chunk,
  count_chunk, retain_tail, next_char_boundary, append, append_all, stream,
}
use zodex.Session.Output.Boundary.{IsNext, next_char_boundary-IsNext}
use zodex.Session.Output.Spilling.{SpilledIf, append_to_spill-Spilled, start_output_spill-Spilled}

-- After the stream `sent` the state has the stream's end as its text, has counted the bytes
-- before it, and has all of the stream unless a spill file took over or could not be written.
pub record Holds (sent : Bytes) (s : OutputState) : Type 0 where
  pub dropped : Bytes
  pub split : sent ≡ dropped ++ s.text
  pub counted : s.dropped_bytes ≡ length dropped
  pub spilled : SpilledIf sent s.spill
  pub kept : s.spill ≡ none → s.spill_failed ≡ false → dropped ≡ []

pub record Retained (sent : Bytes) (b : OutputBuffer) : Type 0 where
  pub holds : Holds sent b.inner
  pub bounded : length b.inner.text ≤ b.max_chars

-- What `spill_chunk` does to the spill, with the text still to be appended.
record Handled (max_chars : ℕ) (sent chunk : Bytes) (s s' : OutputState) : Type 0 where
  text : s'.text ≡ s.text
  dropped_bytes : s'.dropped_bytes ≡ s.dropped_bytes
  spilled : SpilledIf (sent ++ chunk) s'.spill
  kept :
      s'.spill ≡ none
      → s'.spill_failed ≡ false
      → (s.spill ≡ none) × (s.spill_failed ≡ false) × (length s.text + length chunk ≤ max_chars)

settle-Handled :
    (max_chars : ℕ) (s : OutputState) {sent : Bytes} (chunk : Bytes) (r : Option OutputSpill)
    → SpilledIf (sent ++ chunk) r
    → Handled max_chars sent chunk s (settle s r)
settle-Handled max_chars s chunk none v = record {
  text = refl;
  dropped_bytes = refl;
  spilled = tt;
  kept = λ e f. cc (f);
}
settle-Handled max_chars s chunk (some spill) v = record {
  text = refl;
  dropped_bytes = refl;
  spilled = v;
  kept = λ e f. cc (e);
}

forward-Handled :
    (disk : Disk) (max_chars : ℕ) (s : OutputState) (o : Option OutputSpill) (sent chunk : Bytes)
    → s.spill ≡ o
    → (s.spill_failed ≡ false → o ≡ none → length s.text + length chunk ≤ max_chars)
    → SpilledIf sent o
    → Handled max_chars sent chunk s (forward disk s o chunk)
unfolding forward
forward-Handled disk max_chars s none sent chunk e fits v = record {
  text = refl;
  dropped_bytes = refl;
  spilled = rw e tt;
  kept = λ n f. (n, f, fits f refl);
}
forward-Handled disk max_chars s (some spill) sent chunk e fits v =
    settle-Handled max_chars s chunk _ (append_to_spill-Spilled disk spill chunk v)

spill_chunk-Handled :
    (disk : Disk) (max_chars : ℕ) (path : Bytes) (s : OutputState) (sent chunk : Bytes)
    → length s.text + length chunk < 2 ^ 64
    → Holds sent s
    → Handled max_chars sent chunk s (spill_chunk disk max_chars path s chunk)
unfolding spill_chunk
spill_chunk-Handled disk max_chars path s sent chunk small v =
    elim (Bool-cases (over && is_none s.spill && not s.spill_failed)) [
      | inl start ↦
          let whole : sent ≡ s.text =
            v.split ∙ ap (λ d. d ++ s.text) (v.kept (ground arith) (ground arith)) in
          rw start (
            settle-Handled max_chars s chunk _
              (rw whole (start_output_spill-Spilled disk path s.text chunk)))
      | inr go ↦
          rw go (
            forward-Handled disk max_chars s s.spill sent chunk refl (λ f e. ground arith)
              v.spilled)
    ]
  where
    over : Bool
    over = ltb max_chars (sat_add (length s.text) (length chunk))

-- `retain_tail` drops from the front no more than it must to end at a boundary.
retain_tail-Retained :
    (max_chars : ℕ) (s : OutputState) (sent chunk : Bytes)
    → length (sent ++ chunk) < 2 ^ 64
    → (dropped : Bytes) → sent ≡ dropped ++ s.text
    → s.dropped_bytes ≡ length dropped
    → SpilledIf (sent ++ chunk) s.spill
    → (s.spill ≡ none
        → s.spill_failed ≡ false
        → (dropped ≡ []) × (length s.text + length chunk ≤ max_chars))
    → Holds (sent ++ chunk) (retain_tail max_chars s chunk)
      × (length (retain_tail max_chars s chunk).text ≤ max_chars)
unfolding retain_tail
retain_tail-Retained max_chars s sent chunk small dropped split counted spilled kept =
    elim (Bool-cases (leb (length text) max_chars)) [
      | inl fits ↦ rw fits (
        record {
          dropped = dropped;
          split = rw (split, append_assoc);
          counted = counted;
          spilled = spilled;
          kept = λ e f. (kept e f).0;
        },
        ground arith,
      )
      | inr over ↦ rw over (
        record {
          dropped = dropped ++ take cut text;
          split = whole ∙ ap (◌++◌ dropped) (sym (take-append-drop cut text)) ∙ rw append_assoc;
          counted = omega (
            arith,
            next,
            counted,
            total,
            length-append dropped (take cut text),
            length-take cut text,
          );
          spilled = spilled;
          kept = λ e f. absurd (ground (arith, (kept e f).1, length-append s.text chunk));
        },
        omega (arith, next, length-drop cut text),
      )
    ]
  where
    text : Bytes
    text = s.text ++ chunk

    cut : ℕ
    cut = next_char_boundary text (length text - max_chars)

    next : IsNext text (length text - max_chars) cut
    next = next_char_boundary-IsNext text (length text - max_chars) (omega arith)

    whole : sent ++ chunk ≡ dropped ++ text
    whole = rw (split, append_assoc)

    total : length dropped + length text < 2 ^ 64
    total = rw (← length-append dropped text, ← whole) small

-- The contract of `append`: the stream grows by the chunk, and the buffer still accounts for it.
pub append-Retained :
    (disk : Disk) (b : OutputBuffer) (sent chunk : Bytes)
    → length (sent ++ chunk) < 2 ^ 64
    → Retained sent b
    → Retained (sent ++ chunk) (append disk b chunk)
unfolding append count_chunk
append-Retained disk b sent chunk small v =
    let h = v.holds in
    let s = count_chunk b.inner chunk in
    let counted : Holds sent s = record {
      dropped = h.dropped;
      split = h.split;
      counted = h.counted;
      spilled = h.spilled;
      kept = h.kept;
    } in
    let fits : length b.inner.text + length chunk < 2 ^ 64 = omega (
      arith,
      small,
      ap length h.split,
      length-append sent chunk,
      length-append h.dropped b.inner.text,
    ) in
    let done = spill_chunk-Handled disk b.max_chars b.spill_path s sent chunk fits counted in
    let s' = spill_chunk disk b.max_chars b.spill_path s chunk in
    let (holds, bounded) =
      retain_tail-Retained b.max_chars s' sent chunk small h.dropped (rw done.text h.split)
        (done.dropped_bytes ∙ h.counted) done.spilled
        (λ e f. let k = done.kept e f in (h.kept k.0 k.1, rw done.text k.2)) in
    record { holds = holds; bounded = bounded }

append_all-Retained :
    (hist : List (Disk × Bytes)) (b : OutputBuffer) (sent : Bytes)
    → length (sent ++ stream hist) < 2 ^ 64
    → Retained sent b
    → Retained (sent ++ stream hist) (append_all b hist)
unfolding append_all
append_all-Retained [] b sent small v = rw append-nil v
append_all-Retained ((disk, chunk) ∷ more) b sent small v =
    let now : length (sent ++ chunk) < 2 ^ 64 = omega (
      arith,
      small,
      length-append sent (chunk ++ stream more),
      length-append chunk (stream more),
      length-append sent chunk,
    ) in
    let step =
      append_all-Retained more (append disk b chunk) (sent ++ chunk) (rw append_assoc small)
        (append-Retained disk b sent chunk now v) in
    rw (← append_assoc sent chunk (stream more)) step

-- Over any history of appends, whatever the file system answers: the buffer holds the end of the
-- stream within its limit, counts exactly the bytes dropped before it, drops none while there is
-- neither a spill file nor a failed one, and a spill file holds the stream from its start, all
-- of it unless marked as truncated, and never more than the cap.
pub history-Retained :
    (max_chars : ℕ) (path : Bytes) (hist : List (Disk × Bytes))
    → length (stream hist) < 2 ^ 64
    → Retained (stream hist) (append_all (new_buffer max_chars path) hist)
unfolding new_buffer
history-Retained max_chars path hist small =
    append_all-Retained hist (new_buffer max_chars path) [] small (record {
      holds = record {
        dropped = [];
        split = refl;
        counted = refl;
        spilled = tt;
        kept = λ _ _. refl;
      };
      bounded = omega arith;
    })

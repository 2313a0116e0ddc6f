-- ===== src/Session/Output/Preview.antt =====
-- What a snapshot shows of the stream.
use zodex.Common.{
  nil_of_length, ℕ, ◌-◌, ◌^◌, ◌≤◌, ◌<◌, ◌≡◌, refl, ap, sym, ◌∙◌, inl, inr, true, false, List, [],
  ◌++◌, append-nil, append_assoc, none, some, arith, Bytes, length, take, length-drop,
  take-append-drop, Bool-cases, Option-cases, ◌==◌,
}
use zodex.Session.Output.{
  Disk, OutputSpill, OutputBuffer, Shown, all, tail_of, saved, saved_capped, new_buffer,
  next_char_boundary, append_all, stream, preview_of, snapshot, spilled_output_preview_max_bytes,
}
use zodex.Session.Output.Boundary.{next_char_boundary-IsNext}
use zodex.Session.Output.Spilling.{Spilled}
use zodex.Session.Output.Retained.{Retained, history-Retained}

-- `t` is the end of `sent`, of at most `n` bytes.
abbrev pub IsTail : Bytes → ℕ → Bytes → Type 0
IsTail sent n t = (before : Bytes) × (sent ≡ before ++ t) × (length t ≤ n)

-- What each form of a snapshot's text says of the stream.
abbrev pub Describes : Bytes → OutputBuffer → Shown → Type 0
Describes sent b (all t) = t ≡ sent
Describes sent b (tail_of n t) =
    (b.inner.spill_failed ≡ true)
    × ((before : Bytes) × (sent ≡ before ++ t) × (length before ≡ n) × (length t ≤ b.max_chars))
Describes sent b (saved path chars lines t) =
    ((spill : OutputSpill) × (b.inner.spill ≡ some spill)
      × (spill.path ≡ path)
      × (spill.file ≡ sent))
    × IsTail sent spilled_output_preview_max_bytes t
Describes sent b (saved_capped cap path chars lines t) =
    ((spill : OutputSpill) × (rest : Bytes) × (b.inner.spill ≡ some spill)
      × (spill.path ≡ path)
      × (sent ≡ spill.file ++ rest)
      × (length spill.file ≤ cap))
    × IsTail sent spilled_output_preview_max_bytes t

preview_of-IsTail :
    (sent text before : Bytes)
    → sent ≡ before ++ text
    → IsTail sent spilled_output_preview_max_bytes (preview_of text)
unfolding preview_of
preview_of-IsTail sent text before e =
    let from = length text - spilled_output_preview_max_bytes in
    let cut = next_char_boundary text from in
    (
      before ++ take cut text,
      rw (append_assoc, take-append-drop cut text) e,
      omega (arith, next_char_boundary-IsNext text from (omega arith), length-drop cut text),
    )

ne_zero : (n : ℕ) → (n == 0) ≡ false → 1 ≤ n
ne_zero n e = ground arith

module _ (sent : Bytes) (b : OutputBuffer) (v : Retained sent b) where
  open v.holds use {dropped, split, counted, kept}

  shown_unspilled : b.inner.spill ≡ none → Describes sent b (snapshot b).text
  unfolding snapshot
  shown_unspilled e = elim (Bool-cases (b.inner.dropped_bytes == 0)) [
    | inl zero_dropped ↦
        let none_dropped : dropped ≡ [] = nil_of_length dropped (ground (arith, counted)) in
        rw (e, snapshot) (rw zero_dropped (sym (split ∙ rw none_dropped)))
    | inr some_dropped ↦
        let failed : b.inner.spill_failed ≡ true = elim (Bool-cases b.inner.spill_failed) [
          | inl f ↦ f
          | inr f ↦ absurd (
              omega
                (arith, counted, ap length (kept e f), ne_zero b.inner.dropped_bytes some_dropped))
        ] in
        rw (e, snapshot) (rw some_dropped (failed, (dropped, split, sym counted, v.bounded)))
  ]

  shown_spilled :
      (spill : OutputSpill) → b.inner.spill ≡ some spill → Describes sent b (snapshot b).text
  unfolding snapshot
  shown_spilled spill e =
      let file : Spilled sent spill = rw e at (v.holds.spilled) in
      let preview = preview_of-IsTail sent b.inner.text dropped split in
      elim (Bool-cases spill.truncated) [
        | inl t ↦
            rw (e, snapshot)
              (rw t (
                (
                  record spill { truncated = true },
                  file.rest,
                  refl,
                  refl,
                  file.prefix,
                  file.capped,
                ),
                preview,
              ))
        | inr t ↦
            rw (e, snapshot)
              (rw t (
                (
                  record spill { truncated = false },
                  refl,
                  refl,
                  sym (file.prefix ∙ rw (file.complete t, append-nil)),
                ),
                preview,
              ))
      ]

-- After any history of appends the text of a snapshot is what its form says: the whole stream, or,
-- only once the spill file has failed, its end under the exact count of the bytes before it, or a
-- tail preview of at most 20 KiB beside a spill file that holds the whole stream, or one that holds
-- the stream's beginning up to the cap.
pub snapshot-Describes :
    (max_chars : ℕ) (path : Bytes) (hist : List (Disk × Bytes))
    → length (stream hist) < 2 ^ 64
    → let b = append_all (new_buffer max_chars path) hist in
      Describes (stream hist) b (snapshot b).text
snapshot-Describes max_chars path hist small =
    let b = append_all (new_buffer max_chars path) hist in
    let v = history-Retained max_chars path hist small in
    elim (Option-cases b.inner.spill) [
      | inl e ↦ shown_unspilled (stream hist) b v e
      | inr (spill, e) ↦ shown_spilled (stream hist) b v spill e
    ]

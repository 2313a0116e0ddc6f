-- ===== src/Watch/Sse/Chunks.antt =====
-- What a push decodes does not depend on how the stream is cut.
use zodex.Common.{
  ℕ, zero, suc, ◌+◌, ◌<◌, ◌≡◌, refl, ap, sym, ◌∙◌, inl, inr, List, [], ◌∷◌, ◌++◌, append-nil,
  append_assoc, Option, none, some, arith, Bytes, length, take, drop, length-drop, take-append_le,
  drop-append_le, Option-cases,
}
use zodex.Watch.Sse.{next_event_boundary, decode_block, Decoded, emit, push_blocks, push}
use zodex.Watch.Sse.Boundary.{boundary_fits, boundary-append}

module _ {Event : Type 0} (from_str : Bytes → Option Event) where
  -- The three ways a round goes.
  at_end :
      (f : ℕ) (pending : Bytes) (decoded : List Event)
      → next_event_boundary pending ≡ none
      → push_blocks from_str (suc f) pending decoded
        ≡ record { pending = pending; events = some decoded }
  unfolding push_blocks
  at_end f pending decoded e = rw (e, push_blocks) refl

  at_error :
      (f : ℕ) (pending : Bytes) (decoded : List Event) (end len : ℕ)
      → next_event_boundary pending ≡ some (end, len)
      → decode_block from_str (take end pending) ≡ none
      → push_blocks from_str (suc f) pending decoded
        ≡ record { pending = drop (end + len) pending; events = none }
  unfolding push_blocks
  at_error f pending decoded end len e d = rw (e, d, push_blocks) refl

  at_block :
      (f : ℕ) (pending : Bytes) (decoded : List Event) (end len : ℕ) (event : Option Event)
      → next_event_boundary pending ≡ some (end, len)
      → decode_block from_str (take end pending) ≡ some event
      → push_blocks from_str (suc f) pending decoded
        ≡ push_blocks from_str f (drop (end + len) pending) (emit event decoded)
  unfolding push_blocks
  at_block f pending decoded end len event e d = rw (e, d, push_blocks) refl

  shorter :
      (pending : Bytes) (end len : ℕ)
      → next_event_boundary pending ≡ some (end, len)
      → length (drop (end + len) pending) < length pending
  shorter pending end len e =
      let (fits, wide) = boundary_fits pending end len e in
      omega (arith, length-drop (end + len) pending, fits, wide)

  -- More fuel than pending bytes changes nothing.
  push_blocks-enough :
      (f g : ℕ) (pending : Bytes) (decoded : List Event)
      → length pending < f
      → length pending < g
      → push_blocks from_str f pending decoded ≡ push_blocks from_str g pending decoded
  push_blocks-enough zero g pending decoded h k = absurd (omega (arith, h))
  push_blocks-enough (suc f) zero pending decoded h k = absurd (omega (arith, k))
  push_blocks-enough (suc f) (suc g) pending decoded h k =
      elim (Option-cases (next_event_boundary pending)) [
        | inl e ↦ at_end f pending decoded e ∙ sym (at_end g pending decoded e)
        | inr ((end, len), e) ↦ elim (Option-cases (decode_block from_str (take end pending))) [
          | inl d ↦
              at_error f pending decoded end len e d ∙ sym (at_error g pending decoded end len e d)
          | inr (event, d) ↦
              let less = shorter pending end len e in
              at_block f pending decoded end len event e d
              ∙ push_blocks-enough f g (drop (end + len) pending) (emit event decoded)
                  (omega (arith, less, h)) (omega (arith, less, k))
              ∙ sym (at_block g pending decoded end len event e d)
        ]
      ]

  -- The events of a failed push are lost; otherwise the next push goes on from what is pending.
  abbrev pub then_push : Decoded Event → Bytes → Decoded Event
  then_push q chunk = elim q.events [
    | none ↦ record { pending = q.pending ++ chunk; events = none }
    | some decoded ↦
        push_blocks from_str (suc (length (q.pending ++ chunk))) (q.pending ++ chunk) decoded
  ]

  push_blocks-append :
      (f : ℕ) (pending chunk : Bytes) (decoded : List Event)
      → length pending < f
      → push_blocks from_str (suc (length (pending ++ chunk))) (pending ++ chunk) decoded
        ≡ then_push (push_blocks from_str f pending decoded) chunk
  push_blocks-append zero pending chunk decoded h = absurd (omega (arith, h))
  push_blocks-append (suc f) pending chunk decoded h =
      elim (Option-cases (next_event_boundary pending)) [
        | inl e ↦ ap (λ q. then_push q chunk) (sym (at_end f pending decoded e))
        | inr ((end, len), e) ↦
            let joined = pending ++ chunk in
            let rest = drop (end + len) pending in
            let (fits, wide) = boundary_fits pending end len e in
            let there : next_event_boundary joined ≡ some (end, len) =
              boundary-append pending chunk end len e in
            let block : take end joined ≡ take end pending =
              take-append_le end pending chunk (omega (arith, fits)) in
            let left : drop (end + len) joined ≡ rest ++ chunk =
              drop-append_le (end + len) pending chunk fits in
            elim (Option-cases (decode_block from_str (take end pending))) [
              | inl d ↦
                  at_error (length joined) joined decoded end len there
                    (ap (decode_block from_str) block ∙ d)
                  ∙ lost left
                  ∙ ap (λ q. then_push q chunk) (sym (at_error f pending decoded end len e d))
              | inr (event, d) ↦
                  at_block (length joined) joined decoded end len event there
                    (ap (decode_block from_str) block ∙ d)
                  ∙ ap (λ bs. push_blocks from_str (length joined) bs (emit event decoded)) left
                  ∙ push_blocks-enough (length joined) (suc (length (rest ++ chunk)))
                      (rest ++ chunk) (emit event decoded)
                      (omega (arith, shorter joined end len there, ap length left)) (omega arith)
                  ∙ push_blocks-append f rest chunk (emit event decoded)
                      (omega (arith, shorter pending end len e, h))
                  ∙ ap (λ q. then_push q chunk) (sym (at_block f pending decoded end len event e d))
            ]
      ]
    where
      lost :
          {a b : Bytes}
          → a ≡ b
          → Path
              (Decoded Event)
              (record { pending = a; events = none })
              (record { pending = b; events = none })
      lost p = ap (λ x. record { pending = x; events = none }) p

  abbrev pub prefixed : List Event → Decoded Event → Decoded Event
  prefixed before q = record {
    pending = q.pending;
    events = elim q.events [ none ↦ none | some decoded ↦ some (before ++ decoded) ];
  }

  emit-append :
      (event : Option Event) (before decoded : List Event)
      → emit event (before ++ decoded) ≡ before ++ emit event decoded
  emit-append none before decoded = refl
  emit-append (some event) before decoded = append_assoc before decoded (event ∷ [])

  -- The events that were decoded before stay in front.
  push_blocks-prefixed :
      (f : ℕ) (pending : Bytes) (before decoded : List Event)
      → push_blocks from_str f pending (before ++ decoded)
        ≡ prefixed before (push_blocks from_str f pending decoded)
  unfolding push_blocks
  push_blocks-prefixed zero pending before decoded = refl
  push_blocks-prefixed (suc f) pending before decoded =
      elim (Option-cases (next_event_boundary pending)) [
        | inl e ↦
            at_end f pending (before ++ decoded) e
            ∙ ap (prefixed before) (sym (at_end f pending decoded e))
        | inr ((end, len), e) ↦ elim (Option-cases (decode_block from_str (take end pending))) [
          | inl d ↦
              at_error f pending (before ++ decoded) end len e d
              ∙ ap (prefixed before) (sym (at_error f pending decoded end len e d))
          | inr (event, d) ↦
              at_block f pending (before ++ decoded) end len event e d
              ∙ ap (push_blocks from_str f (drop (end + len) pending))
                  (emit-append event before decoded)
              ∙ push_blocks-prefixed f (drop (end + len) pending) before (emit event decoded)
              ∙ ap (prefixed before) (sym (at_block f pending decoded end len event e d))
        ]
      ]

  -- A push after another: nothing more once one has failed.
  abbrev pub pushed_next : Decoded Event → Bytes → Decoded Event
  pushed_next q chunk = elim q.events [
    | none ↦ record { pending = q.pending ++ chunk; events = none }
    | some decoded ↦ prefixed decoded (push from_str q.pending chunk)
  ]

  then_push-pushed_next :
      (q : Decoded Event) (chunk : Bytes) → then_push q chunk ≡ pushed_next q chunk
  unfolding push
  then_push-pushed_next q chunk = by q.events
    where
      by :
          (events : Option (List Event))
          → then_push (record { pending = q.pending; events = events }) chunk
            ≡ pushed_next (record { pending = q.pending; events = events }) chunk
      by none = refl
      by (some decoded) =
          let joined = q.pending ++ chunk in
          ap (push_blocks from_str (suc (length joined)) joined) (sym (append-nil decoded))
          ∙ push_blocks-prefixed (suc (length joined)) joined decoded []

  -- A push of two chunks together does what a push of the first and then of the second does: the
  -- same bytes stay pending, and the events are those of the first followed by those of the
  -- second; if the first push fails, so does the push of both.
  pub push_of_two :
      (pending first second : Bytes)
      → push from_str pending (first ++ second) ≡ pushed_next (push from_str pending first) second
  unfolding push
  push_of_two pending first second =
      rw (← append_assoc pending first second) (
        push_blocks-append (suc (length (pending ++ first))) (pending ++ first) second []
          (omega arith))
      ∙ then_push-pushed_next (push from_str pending first) second

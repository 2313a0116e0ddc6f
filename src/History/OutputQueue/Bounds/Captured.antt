-- ===== src/History/OutputQueue/Bounds/Captured.antt =====
-- The bytes that the overflow has counted for an invocation are those it has admitted.
use zodex.Common.{
  ℕ, zero, suc, ◌+◌, ◌≡◌, ◌≢◌, refl, ap, ◌∙◌, inl, inr, Bool, true, false, ◌&&◌, List, [], ◌∷◌,
  Option, some, arith, ◌==◌, ==_iff, if◌then◌else◌, Bool-cases, Option-cases, Bytes, length,
  sat_add, is_some,
}
use zodex.Common.Dict.{lookup, insert, get_default, lookup-insert, lookup-remove}
use zodex.History.Overflow.{
  Reason, Chunk, OutputEvent, chunk, OutputOverflow, pending, captured, mark_incomplete,
  admit_chunk, push_back, push_front_existing, pop_from, pop_front, discard_pending, finish,
  output_event_bytes, incomplete_reason, has_pending, writer_unavailable, queue_saturated,
  saturated_at_completion, completion_queue_full, capture_exceeded,
}
use zodex.History.OutputQueue.{
  Answer, accepted, full, disconnected, LocalHistoryRuntime, initial, flush_loop,
  flush_output_overflow_nonblocking, buffer_output_overflow, send_or_buffer,
  try_enqueue_output_chunk, drop_tail, send_completion, completion_event, enqueue_output_completion,
  observe_output, observe_output_complete, mark_output_capture_incomplete, degrade_output_capture,
  delivered, tried,
}
use zodex.History.OutputQueue.Order.Calls.{Call, output, ended, call, run, Unended}

captured_bytes-mark :
    (o : OutputOverflow) (id : ℕ) (reason : Reason)
    → (mark_incomplete o id reason).captured_bytes ≡ o.captured_bytes
unfolding mark_incomplete
captured_bytes-mark o id reason = elim (Bool-cases (is_some (lookup id o.incomplete_reasons))) [
  | inl e ↦ rw e refl
  | inr e ↦ rw e refl
]

captured_bytes-push_back :
    (o : OutputOverflow) (id : ℕ) (event : OutputEvent)
    → (push_back o id event).0.captured_bytes ≡ o.captured_bytes
unfolding push_back
captured_bytes-push_back o id event = ground arith

captured_bytes-pop_front :
    (o o' : OutputOverflow) (id : ℕ) (event : OutputEvent)
    → pop_front o id ≡ some (event, o')
    → o'.captured_bytes ≡ o.captured_bytes
unfolding pop_front pop_from
captured_bytes-pop_front o o' id event e = by (pending o id) e
  where
    by :
        (es : List OutputEvent)
        → pop_from o id es ≡ some (event, o')
        → o'.captured_bytes ≡ o.captured_bytes
    by [] e = cc
    by (first ∷ []) e = cc
    by (first ∷ next ∷ more) e = cc

-- What is counted of an admitted chunk, exactly, and within the limit.
admitted-captured :
    (o : OutputOverflow) (id bytes j : ℕ)
    → captured (admit_chunk o id bytes).0 j
      ≡ captured o j + (if id == j && (admit_chunk o id bytes).1 then bytes else 0)
unfolding admit_chunk get_default
admitted-captured o id bytes j = ground (
  arith,
  lookup-insert id j (captured o id) o.captured_bytes,
  lookup-insert id j (sat_add (captured o id) bytes) (insert id (captured o id) o.captured_bytes),
  captured_bytes-mark (record o { captured_bytes = insert id (captured o id) o.captured_bytes }) id
      capture_exceeded,
)

module _ (channel : ℕ → Answer) where
  captured_bytes-flush_loop :
      (fuel : ℕ) (r : LocalHistoryRuntime) (id : ℕ)
      → (flush_loop channel fuel r id).0.overflow.captured_bytes ≡ r.overflow.captured_bytes
  unfolding flush_loop degrade_output_capture push_front_existing
  captured_bytes-flush_loop zero r id = refl
  captured_bytes-flush_loop (suc fuel) r id = elim (Option-cases (pop_front r.overflow id)) [
    | inl f ↦ rw (flush_loop, f) refl
    | inr ((event, o), f) ↦
        let e = captured_bytes-pop_front r.overflow o id event f in
        rw (flush_loop, f)
          (answered event o (channel r.tries)
              (captured_bytes-flush_loop fuel (delivered (record r { overflow = o }) event) id)
            ∙ e)
  ]
    where
      answered :
          (event : OutputEvent) (o : OutputOverflow) (a : Answer)
          → (flush_loop channel fuel
              (delivered (record r { overflow = o }) event)
              id).0.overflow.captured_bytes
            ≡ o.captured_bytes
          → let q : LocalHistoryRuntime × Bool = elim a [
            | accepted ↦ flush_loop channel fuel (delivered (record r { overflow = o }) event) id
            | full ↦ (tried (record r { overflow = push_front_existing o id event }), true)
            | disconnected ↦ (
              degrade_output_capture (tried (record r { overflow = o })) id writer_unavailable,
              false,
            )
          ] in
            q.0.overflow.captured_bytes ≡ o.captured_bytes
      answered event o accepted ih = ih
      answered event o full ih = refl
      answered event o disconnected ih = captured_bytes-mark o id writer_unavailable

  captured_bytes-buffer :
      (r : LocalHistoryRuntime) (event : OutputEvent) (id : ℕ)
      → (buffer_output_overflow r event id).overflow.captured_bytes ≡ r.overflow.captured_bytes
  unfolding buffer_output_overflow mark_output_capture_incomplete
  captured_bytes-buffer r event id =
      let p = captured_bytes-push_back r.overflow id event in
      elim (Bool-cases (push_back r.overflow id event).1) [
        | inl e ↦ rw e p
        | inr e ↦
            rw e (captured_bytes-mark (push_back r.overflow id event).0 id queue_saturated ∙ p)
      ]

  captured_bytes-send_or_buffer :
      (r : LocalHistoryRuntime) (event : OutputEvent) (id : ℕ)
      → (send_or_buffer channel r event id).overflow.captured_bytes ≡ r.overflow.captured_bytes
  unfolding send_or_buffer degrade_output_capture
  captured_bytes-send_or_buffer r event id = elim (Bool-cases (has_pending r.overflow id)) [
    | inl busy ↦ rw busy (captured_bytes-buffer r event id)
    | inr idle ↦ rw idle (answered (channel r.tries))
  ]
    where
      answered :
          (a : Answer)
          → let q : LocalHistoryRuntime = elim a [
            | accepted ↦ delivered r event
            | full ↦ buffer_output_overflow (tried r) event id
            | disconnected ↦ degrade_output_capture (tried r) id writer_unavailable
          ] in
            q.overflow.captured_bytes ≡ r.overflow.captured_bytes
      answered accepted = refl
      answered full = captured_bytes-buffer (tried r) event id
      answered disconnected = captured_bytes-mark r.overflow id writer_unavailable

  abbrev admission : LocalHistoryRuntime → Chunk → OutputOverflow × Bool
  admission r c = admit_chunk r.overflow c.invocation_id (output_event_bytes (chunk c))

  observe_output-captured :
      (r : LocalHistoryRuntime) (c : Chunk)
      → (observe_output channel r c).overflow.captured_bytes ≡ (admission r c).0.captured_bytes
  unfolding observe_output try_enqueue_output_chunk mark_output_capture_incomplete
      flush_output_overflow_nonblocking
  observe_output-captured r c =
      let id = c.invocation_id in
      let entered : LocalHistoryRuntime = record r { overflow = (admission r c).0 } in
      let fuel = suc (length (pending entered.overflow id)) in
      let flushed = captured_bytes-flush_loop fuel entered id in
      elim (Bool-cases (admission r c).1) [
        | inl ok ↦ elim (Bool-cases (flush_loop channel fuel entered id).1) [
          | inl through ↦
              rw (ok, through)
                (captured_bytes-send_or_buffer (flush_loop channel fuel entered id).0 (chunk c) id
                  ∙ flushed)
          | inr broken ↦ rw (ok, broken) flushed
        ]
        | inr refused ↦ elim (Option-cases (incomplete_reason (admission r c).0 id)) [
          | inl e ↦ rw (refused, e) refl
          | inr (reason, e) ↦ rw (refused, e) refl
        ]
      ]

  captured_bytes-drop_tail :
      (o : OutputOverflow) (id : ℕ) → (drop_tail o id).captured_bytes ≡ o.captured_bytes
  unfolding drop_tail discard_pending
  captured_bytes-drop_tail o id = elim (Bool-cases (has_pending o id)) [
    | inl busy ↦ rw busy (captured_bytes-mark (discard_pending o id) id saturated_at_completion)
    | inr idle ↦ rw idle refl
  ]

  captured_bytes-send_completion :
      (r : LocalHistoryRuntime) (event : OutputEvent) (id : ℕ)
      → (send_completion channel r event id).overflow.captured_bytes ≡ r.overflow.captured_bytes
  unfolding send_completion mark_output_capture_incomplete degrade_output_capture
  captured_bytes-send_completion r event id = answered (channel r.tries)
    where
      answered :
          (a : Answer)
          → let q : LocalHistoryRuntime = elim a [
            | accepted ↦ delivered r event
            | full ↦ mark_output_capture_incomplete (tried r) id completion_queue_full
            | disconnected ↦ degrade_output_capture (tried r) id writer_unavailable
          ] in
            q.overflow.captured_bytes ≡ r.overflow.captured_bytes
      answered accepted = refl
      answered full = refl
      answered disconnected = captured_bytes-mark r.overflow id writer_unavailable

  -- The end of another invocation's output leaves the count of `j`.
  observe_output_complete-captured :
      (r : LocalHistoryRuntime) (id j : ℕ) (agent : Option Bytes)
      → id ≢ j
      → captured (observe_output_complete channel r id agent).overflow j ≡ captured r.overflow j
  unfolding observe_output_complete enqueue_output_completion flush_output_overflow_nonblocking
      finish
  observe_output_complete-captured r id j agent ne =
      let fuel = suc (length (pending r.overflow id)) in
      let flushed = flush_loop channel fuel r id in
      let same = captured_bytes-flush_loop fuel r id in
      elim (Bool-cases flushed.1) [
        | inl through ↦
            let dropped = drop_tail flushed.0.overflow id in
            rw through (
              ap (λ m. get_default 0 (lookup j m))
                (captured_bytes-send_completion
                  (record flushed.0 { overflow = (finish dropped id).0 })
                  (completion_event id agent (finish dropped id).1) id)
              ∙ ap (get_default 0)
                  (lookup-remove id j dropped.captured_bytes ∙ rw (other (id == j) refl) refl)
              ∙ ap (λ m. get_default 0 (lookup j m))
                  (captured_bytes-drop_tail flushed.0.overflow id ∙ same))
        | inr broken ↦ rw broken (ap (λ m. get_default 0 (lookup j m)) same)
      ]
    where
      other : (b : Bool) → (id == j) ≡ b → b ≡ false
      other true e = absurd (ne ((==_iff id j).0 e))
      other false e = refl

  -- The bytes of the chunks of `j` that are admitted along the calls.
  abbrev pub admitted : ℕ → LocalHistoryRuntime → List Call → ℕ
  admitted j r [] = 0
  admitted j r (output c ∷ cs) =
      (if c.invocation_id == j && (admission r c).1 then length c.text else 0)
      + admitted j (observe_output channel r c) cs
  admitted j r (ended id agent ∷ cs) = admitted j (observe_output_complete channel r id agent) cs

  captured-run :
      (j : ℕ) (cs : List Call) (r : LocalHistoryRuntime)
      → Unended j cs
      → captured (run channel r cs).overflow j ≡ captured r.overflow j + admitted j r cs
  unfolding run call output_event_bytes
  captured-run j [] r u = omega arith
  captured-run j (output c ∷ cs) r u =
      let here =
        ap (λ m. get_default 0 (lookup j m)) (observe_output-captured r c)
        ∙ admitted-captured r.overflow c.invocation_id (output_event_bytes (chunk c)) j in
      omega (arith, captured-run j cs (observe_output channel r c) u, here)
  captured-run j (ended id agent ∷ cs) r u = omega (
    arith,
    captured-run j cs (observe_output_complete channel r id agent) u.1,
    observe_output_complete-captured r id j agent u.0,
  )

  -- Before the output of `j` has ended: what the overflow counts is what was admitted.
  pub captured-admitted :
      (j : ℕ) (cs : List Call)
      → Unended j cs
      → captured (run channel initial cs).overflow j ≡ admitted j initial cs
  unfolding lookup get_default
  captured-admitted j cs u = captured-run j cs initial u ∙ omega arith

-- ===== src/History/OutputQueue/Bounds/Calls.antt =====
-- The operations of the runtime against the accounts of the overflow.
use zodex.Common.{
  ◌≤◌, ◌*◌, ℕ, zero, suc, ◌+◌, ◌≡◌, refl, inl, inr, Bool, true, false, List, [], ◌∷◌, Option, arith,
  Bool-cases, Option-cases, length, Bytes,
}
use zodex.Common.Dict.{lookup, get_default}
use zodex.History.OutputQueue.Bounds.Captured.{admitted, captured-admitted}
use zodex.History.Overflow.{
  captured, Chunk, OutputEvent, chunk, OutputOverflow, pending, push_front_existing, admit_chunk,
  push_back, incomplete_reason, has_pending, discard_pending, finish, writer_unavailable,
  queue_saturated, saturated_at_completion, completion_queue_full, output_event_bytes,
}
use zodex.History.OutputQueue.{
  Answer, accepted, full, disconnected, LocalHistoryRuntime, initial, flush_loop,
  flush_output_overflow_nonblocking, buffer_output_overflow, send_or_buffer,
  try_enqueue_output_chunk, drop_tail, send_completion, completion_event, enqueue_output_completion,
  observe_output, observe_output_complete, mark_output_capture_incomplete, degrade_output_capture,
  delivered, tried,
}
use zodex.History.OutputQueue.Order.Calls.{Call, output, ended, call, run, Unended}
use zodex.History.OutputQueue.Bounds.{
  Accounted, mark_incomplete-Accounted, admit_chunk-Accounted, finish-Accounted,
  push_back-Accounted, discard_pending-Accounted, pop_front-Accounted,
  push_front_existing-Accounted,
}

module _ (channel : ℕ → Answer) where
  flush_loop-Accounted :
      (fuel : ℕ) (r : LocalHistoryRuntime) (id : ℕ)
      → Accounted r.overflow
      → Accounted (flush_loop channel fuel r id).0.overflow
  unfolding flush_loop
  flush_loop-Accounted zero r id v = v
  flush_loop-Accounted (suc fuel) r id v = elim (pop_front-Accounted r.overflow id v) [
    | inl e ↦ rw (e, flush_loop) v
    | inr (event, o', e, w, sum) ↦
        rw (e, flush_loop)
          (answered event o' w sum (channel r.tries)
            (flush_loop-Accounted fuel (delivered (record r { overflow = o' }) event) id w))
  ]
    where
      answered :
          (event : OutputEvent) (o' : OutputOverflow)
          → Accounted o'
          → o'.bytes + output_event_bytes event ≡ r.overflow.bytes
          → (a : Answer)
          → Accounted
              (flush_loop channel fuel (delivered (record r { overflow = o' }) event) id).0.overflow
          → (let q : LocalHistoryRuntime × Bool = elim a [
            | accepted ↦ flush_loop channel fuel (delivered (record r { overflow = o' }) event) id
            | full ↦ (tried (record r { overflow = push_front_existing o' id event }), true)
            | disconnected ↦ (
              degrade_output_capture (tried (record r { overflow = o' })) id writer_unavailable,
              false,
            )
          ] in
              Accounted q.0.overflow)
      answered event o' w sum accepted ih = ih
      answered event o' w sum full ih =
          push_front_existing-Accounted o' id event (omega (arith, sum, v.queue)) w
      answered event o' w sum disconnected ih =
          unfold degrade_output_capture in mark_incomplete-Accounted o' id writer_unavailable w

  flush-Accounted :
      (r : LocalHistoryRuntime) (id : ℕ)
      → Accounted r.overflow
      → Accounted (flush_output_overflow_nonblocking channel r id).0.overflow
  unfolding flush_output_overflow_nonblocking
  flush-Accounted r id v = flush_loop-Accounted (suc (length (pending r.overflow id))) r id v

  buffer-Accounted :
      (r : LocalHistoryRuntime) (event : OutputEvent) (id : ℕ)
      → Accounted r.overflow
      → Accounted (buffer_output_overflow r event id).overflow
  unfolding buffer_output_overflow mark_output_capture_incomplete
  buffer-Accounted r event id v =
      let w = push_back-Accounted r.overflow id event v in
      elim (Bool-cases (push_back r.overflow id event).1) [
        | inl e ↦ rw e w
        | inr e ↦
            rw e (mark_incomplete-Accounted (push_back r.overflow id event).0 id queue_saturated w)
      ]

  send_or_buffer-Accounted :
      (r : LocalHistoryRuntime) (event : OutputEvent) (id : ℕ)
      → Accounted r.overflow
      → Accounted (send_or_buffer channel r event id).overflow
  unfolding send_or_buffer
  send_or_buffer-Accounted r event id v = elim (Bool-cases (has_pending r.overflow id)) [
    | inl busy ↦ rw busy (buffer-Accounted r event id v)
    | inr idle ↦ rw idle (answered (channel r.tries))
  ]
    where
      answered :
          (a : Answer)
          → (let q : LocalHistoryRuntime = elim a [
            | accepted ↦ delivered r event
            | full ↦ buffer_output_overflow (tried r) event id
            | disconnected ↦ degrade_output_capture (tried r) id writer_unavailable
          ] in
              Accounted q.overflow)
      answered accepted = v
      answered full = buffer-Accounted (tried r) event id v
      answered disconnected =
          unfold degrade_output_capture in
          mark_incomplete-Accounted r.overflow id writer_unavailable v

  observe_output-Accounted :
      (r : LocalHistoryRuntime) (c : Chunk)
      → Accounted r.overflow
      → Accounted (observe_output channel r c).overflow
  unfolding observe_output try_enqueue_output_chunk mark_output_capture_incomplete
  observe_output-Accounted r c v = elim (Bool-cases admitted.1) [
    | inl ok ↦ elim (Bool-cases (flush_output_overflow_nonblocking channel entered id).1) [
      | inl through ↦ rw (ok, through) (send_or_buffer-Accounted _ (chunk c) id flushed)
      | inr broken ↦ rw (ok, broken) flushed
    ]
    | inr refused ↦ elim (Option-cases (incomplete_reason admitted.0 id)) [
      | inl e ↦ rw (refused, e) entered-Accounted
      | inr (reason, e) ↦ rw (refused, e) entered-Accounted
    ]
  ]
    where
      id : ℕ
      id = c.invocation_id

      admitted : OutputOverflow × Bool
      admitted = admit_chunk r.overflow id (output_event_bytes (chunk c))

      entered : LocalHistoryRuntime
      entered = record r { overflow = admitted.0 }

      entered-Accounted : Accounted admitted.0
      entered-Accounted = admit_chunk-Accounted r.overflow id (output_event_bytes (chunk c)) v

      flushed : Accounted (flush_output_overflow_nonblocking channel entered id).0.overflow
      flushed = flush-Accounted entered id entered-Accounted

  drop_tail-Accounted : (o : OutputOverflow) (id : ℕ) → Accounted o → Accounted (drop_tail o id)
  unfolding drop_tail
  drop_tail-Accounted o id v = elim (Bool-cases (has_pending o id)) [
    | inl e ↦ rw e (
        mark_incomplete-Accounted (discard_pending o id) id saturated_at_completion
          (discard_pending-Accounted o id v))
    | inr e ↦ rw e v
  ]

  send_completion-Accounted :
      (r : LocalHistoryRuntime) (event : OutputEvent) (id : ℕ)
      → Accounted r.overflow
      → Accounted (send_completion channel r event id).overflow
  unfolding send_completion mark_output_capture_incomplete degrade_output_capture
  send_completion-Accounted r event id v = answered (channel r.tries)
    where
      answered :
          (a : Answer)
          → (let q : LocalHistoryRuntime = elim a [
            | accepted ↦ delivered r event
            | full ↦ mark_output_capture_incomplete (tried r) id completion_queue_full
            | disconnected ↦ degrade_output_capture (tried r) id writer_unavailable
          ] in
              Accounted q.overflow)
      answered accepted = v
      answered full = v
      answered disconnected = mark_incomplete-Accounted r.overflow id writer_unavailable v

  observe_output_complete-Accounted :
      (r : LocalHistoryRuntime) (id : ℕ) (agent : Option Bytes)
      → Accounted r.overflow
      → Accounted (observe_output_complete channel r id agent).overflow
  unfolding observe_output_complete enqueue_output_completion
  observe_output_complete-Accounted r id agent v =
      let flushed = flush_output_overflow_nonblocking channel r id in
      let w : Accounted flushed.0.overflow = flush-Accounted r id v in
      let dropped = drop_tail flushed.0.overflow id in
      elim (Bool-cases flushed.1) [
        | inl through ↦ rw through (
            send_completion-Accounted (record flushed.0 { overflow = (finish dropped id).0 })
              (completion_event id agent (finish dropped id).1) id
              (finish-Accounted dropped id (drop_tail-Accounted flushed.0.overflow id w)))
        | inr broken ↦ rw broken w
      ]

  run-Accounted_from :
      (cs : List Call) (r : LocalHistoryRuntime)
      → Accounted r.overflow
      → Accounted (run channel r cs).overflow
  unfolding run call
  run-Accounted_from [] r v = v
  run-Accounted_from (output c ∷ cs) r v =
      run-Accounted_from cs (observe_output channel r c) (observe_output-Accounted r c v)
  run-Accounted_from (ended id agent ∷ cs) r v =
      run-Accounted_from cs (observe_output_complete channel r id agent)
        (observe_output_complete-Accounted r id agent v)

  -- After any sequence of observer calls, one after the other, whatever the channel answers, the
  -- overflow has one queue for each invocation, its counter is the sum of the pending events' bytes
  -- and at most 64 KiB; and the chunks of an invocation that were admitted before the end of its
  -- output have at most 2 MiB together, as many as the overflow counts for it.
  pub run-Accounted :
      (cs : List Call) (j : ℕ)
      → Unended j cs
      → let o = (run channel initial cs).overflow in
        Accounted o
        × (captured o j ≡ admitted channel j initial cs)
        × (admitted channel j initial cs ≤ 2 * 1024 * 1024)
  unfolding lookup get_default
  run-Accounted cs j u =
      let a =
        run-Accounted_from cs initial
          (record { distinct = tt; sum = refl; queue = omega arith; capture = λ i. omega arith }) in
      let same = captured-admitted channel j cs u in (a, same, omega (arith, same, a.capture j))

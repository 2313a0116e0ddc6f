-- ===== src/History/Tests.antt =====
-- Runs of the output queue of src/local/history/worker/output_queue.rs, and its theorems at them.
use zodex.Common.{◌≤◌, ◌*◌, ◌≢◌, ℕ, ◌≡◌, refl, List, [], ◌∷◌, none, some, bytes, ltb, if◌then◌else◌}
use zodex.Common.Dict.{lookup, insert, remove, get_default}
use zodex.History.Overflow.{
  captured, Chunk, chunk, mark_incomplete, admit_chunk, incomplete_reason, has_pending, push_back,
  push_front_existing, pop_from, pop_front, finish, output_event_bytes, writer_unavailable,
}
use zodex.History.OutputQueue.{
  Answer, accepted, full, disconnected, initial, note_capture_incomplete, degrade_nonblocking,
  mark_output_capture_incomplete, degrade_output_capture, drop_tail, completion_event, flush_loop,
  flush_output_overflow_nonblocking, buffer_output_overflow, send_or_buffer,
  try_enqueue_output_chunk, send_completion, enqueue_output_completion, observe_output,
  observe_output_complete,
}
use zodex.History.OutputQueue.Order.{chunks_of}
use zodex.History.OutputQueue.Order.Calls.{Call, output, run, call, offered, run-Whole}
use zodex.History.OutputQueue.Bounds.Captured.{admitted}
use zodex.History.OutputQueue.Recorded.{Recorded}
use zodex.History.OutputQueue.Order.Runs.{completions_of}
use zodex.History.OutputQueue.Bounds.{Accounted}
use zodex.History.OutputQueue.Bounds.Calls.{run-Accounted}
use zodex.History.OutputQueue.Flush.{Sends, flush-Sends}

-- The channel is full for the first two tries.
abbrev stalled : ℕ → Answer
stalled n = if ltb n 2 then full else accepted

abbrev closed : ℕ → Answer
closed _ = disconnected

abbrev chunk_of : ℕ → ℕ → Chunk
chunk_of id n = record {
  invocation_id = id;
  agent_id = none;
  sequence = n;
  observed_at_ms = 0;
  text = bytes "hi";
}

abbrev calls : List Call
calls = output (chunk_of 1 0) ∷ output (chunk_of 2 0) ∷ output (chunk_of 1 1) ∷ []

-- The first chunk waits for the second.
stalled-run : (run stalled initial calls).sent ≡ chunk (chunk_of 1 0) ∷ chunk (chunk_of 1 1) ∷ []
unfolding run call observe_output try_enqueue_output_chunk admit_chunk incomplete_reason has_pending
    flush_output_overflow_nonblocking flush_loop pop_front pop_from push_back push_front_existing
    send_or_buffer buffer_output_overflow lookup insert remove get_default output_event_bytes
stalled-run = refl

-- The writer has gone: the invocation is marked.
closed-run :
    let r = observe_output_complete closed (run closed initial calls) 1 none in
    (r.sent ≡ []) × (r.health.reason ≡ some writer_unavailable)
unfolding run call observe_output try_enqueue_output_chunk admit_chunk incomplete_reason has_pending
    flush_output_overflow_nonblocking flush_loop pop_front pop_from push_back push_front_existing
    send_or_buffer buffer_output_overflow lookup insert remove get_default output_event_bytes
    observe_output_complete enqueue_output_completion drop_tail finish send_completion
    completion_event degrade_output_capture note_capture_incomplete degrade_nonblocking
    mark_incomplete mark_output_capture_incomplete
closed-run = (refl, refl)

run-Whole_example :
    let q = observe_output_complete stalled (run stalled initial calls) 1 none in
    (completions_of 1 q.sent ≢ [] → chunks_of 1 q.sent ≡ offered 1 calls) × Recorded 1 q
run-Whole_example = run-Whole stalled 1 calls none tt

run-Accounted_example :
    let o = (run stalled initial calls).overflow in
    Accounted o
    × (captured o 1 ≡ admitted stalled 1 initial calls)
    × (admitted stalled 1 initial calls ≤ 2 * 1024 * 1024)
run-Accounted_example = run-Accounted stalled calls 1 tt

flush-Sends_example :
    Sends stalled
      (run stalled initial calls)
      2
      (flush_output_overflow_nonblocking stalled (run stalled initial calls) 2)
flush-Sends_example = flush-Sends stalled (run stalled initial calls) 2

-- ===== src/History/OutputQueue.antt =====
-- src/local/history/worker/output_queue.rs: chunks of output on their way to the bounded channel of
-- the history writer, and the overflow that absorbs its short stalls. A call of the observer is one
-- step here. The source takes the lock of the overflow for each operation on it, so that calls of
-- several reader threads may interleave within it; that is not modelled.
pub mod Pending
pub mod Order
pub mod Bounds
pub mod Flush
pub mod Recorded
use zodex.Common.{
  ℕ, zero, suc, ◌+◌, ◌-◌, ◌*◌, Bool, true, false, not, List, [], ◌∷◌, ◌++◌, Option, none, some, ltb,
  ◌==◌, if◌then◌else◌, sat_add, is_some, Bytes, length,
}
use zodex.Common.Dict.{lookup, insert, remove, get_default}
use zodex.History.Overflow.{
  Reason, queue_saturated, saturated_at_completion, writer_unavailable, completion_queue_full,
  Chunk, OutputEvent, chunk, complete, incomplete, output_event_bytes, OutputOverflow,
  default_overflow, pending, mark_incomplete, admit_chunk, incomplete_reason, has_pending,
  push_back, push_front_existing, pop_front, discard_pending, finish,
}

-- What `HistoryHealth` keeps of the notes that this file makes: the first reason of each
-- invocation, and the first reason of all.
pub record HistoryHealth : Type 0 where
  pub incomplete_capture_invocations : List (ℕ × Reason)
  pub degraded : Bool
  pub reason : Option Reason

unfoldable pub note_capture_incomplete : HistoryHealth → ℕ → Reason → HistoryHealth
note_capture_incomplete h id reason =
    if is_some (lookup id h.incomplete_capture_invocations) then h else record h {
      incomplete_capture_invocations = insert id reason h.incomplete_capture_invocations;
    }

unfoldable pub degrade_nonblocking : HistoryHealth → Reason → HistoryHealth
degrade_nonblocking h reason = record h {
  degraded = true;
  reason = if is_some h.reason then h.reason else some reason;
}

-- What `try_send` answers on the bounded channel of the writer.
pub data Answer : Type 0 where
  accepted full disconnected : Answer

-- `sent` is what the channel has accepted, in order; `tries` counts the calls of `try_send`.
pub record LocalHistoryRuntime : Type 0 where
  pub overflow : OutputOverflow
  pub sent : List OutputEvent
  pub tries : ℕ
  pub health : HistoryHealth

abbrev pub initial : LocalHistoryRuntime
initial = record {
  overflow = default_overflow;
  sent = [];
  tries = 0;
  health = record { incomplete_capture_invocations = []; degraded = false; reason = none };
}

unfoldable pub mark_output_capture_incomplete :
    LocalHistoryRuntime → ℕ → Reason → LocalHistoryRuntime
unfolding note_capture_incomplete
mark_output_capture_incomplete r id reason = record r {
  health = note_capture_incomplete r.health id reason;
}

unfoldable pub degrade_output_capture : LocalHistoryRuntime → ℕ → Reason → LocalHistoryRuntime
unfolding mark_incomplete note_capture_incomplete degrade_nonblocking
degrade_output_capture r id reason = record r {
  overflow = mark_incomplete r.overflow id reason;
  health = degrade_nonblocking (note_capture_incomplete r.health id reason) reason;
}

-- At the end of the output: what is still pending is given up.
unfoldable pub drop_tail : OutputOverflow → ℕ → OutputOverflow
drop_tail o id =
    if has_pending o id
    then mark_incomplete (discard_pending o id) id saturated_at_completion
    else o

unfoldable pub completion_event : ℕ → Option Bytes → Option Reason → OutputEvent
completion_event id agent_id none = complete id agent_id
completion_event id agent_id (some reason) = incomplete id agent_id reason

abbrev pub tried : LocalHistoryRuntime → LocalHistoryRuntime
tried r = record r { tries = suc r.tries }

abbrev pub delivered : LocalHistoryRuntime → OutputEvent → LocalHistoryRuntime
delivered r event = record r { sent = r.sent ++ (event ∷ []); tries = suc r.tries }

unfoldable pub buffer_output_overflow : LocalHistoryRuntime → OutputEvent → ℕ → LocalHistoryRuntime
buffer_output_overflow r event id =
    let (overflow, pushed) = push_back r.overflow id event in
    if pushed
    then record r { overflow = overflow }
    else mark_output_capture_incomplete
        (record r { overflow = mark_incomplete overflow id queue_saturated }) id queue_saturated

-- The channel is not in the program: it answers each try as it will.
module _ (channel : ℕ → Answer) where
  -- `Err` is `false`. A round takes an event off the queue or ends the loop.
  unfoldable pub flush_loop : ℕ → LocalHistoryRuntime → ℕ → LocalHistoryRuntime × Bool
  flush_loop zero r id = (r, true)
  flush_loop (suc fuel) r id = elim (pop_front r.overflow id) [
    | none ↦ (r, true)
    | some (event, overflow) ↦ elim (channel r.tries) [
      | accepted ↦ flush_loop fuel (delivered (record r { overflow = overflow }) event) id
      | full ↦ (tried (record r { overflow = push_front_existing overflow id event }), true)
      | disconnected ↦ (
        degrade_output_capture (tried (record r { overflow = overflow })) id writer_unavailable,
        false,
      )
    ]
  ]

  unfoldable pub flush_output_overflow_nonblocking :
      LocalHistoryRuntime → ℕ → LocalHistoryRuntime × Bool
  flush_output_overflow_nonblocking r id = flush_loop (suc (length (pending r.overflow id))) r id

  -- The end of `try_enqueue_output_chunk`: behind what is pending, or to the channel.
  unfoldable pub send_or_buffer : LocalHistoryRuntime → OutputEvent → ℕ → LocalHistoryRuntime
  send_or_buffer r event id =
      if has_pending r.overflow id
      then buffer_output_overflow r event id
      else elim (channel r.tries) [
        | accepted ↦ delivered r event
        | full ↦ buffer_output_overflow (tried r) event id
        | disconnected ↦ degrade_output_capture (tried r) id writer_unavailable
      ]

  unfoldable pub try_enqueue_output_chunk :
      LocalHistoryRuntime → OutputEvent → ℕ → LocalHistoryRuntime
  try_enqueue_output_chunk r event id =
      let (overflow, admitted) = admit_chunk r.overflow id (output_event_bytes event) in
      let entered = record r { overflow = overflow } in
      if not admitted
      then elim (incomplete_reason overflow id) [
        | none ↦ entered
        | some reason ↦ mark_output_capture_incomplete entered id reason
      ]
      else let (flushed, ok) = flush_output_overflow_nonblocking entered id in
        if ok then send_or_buffer flushed event id else flushed

  unfoldable pub send_completion : LocalHistoryRuntime → OutputEvent → ℕ → LocalHistoryRuntime
  send_completion r event id = elim (channel r.tries) [
    | accepted ↦ delivered r event
    | full ↦ mark_output_capture_incomplete (tried r) id completion_queue_full
    | disconnected ↦ degrade_output_capture (tried r) id writer_unavailable
  ]

  unfoldable pub enqueue_output_completion :
      LocalHistoryRuntime → ℕ → Option Bytes → LocalHistoryRuntime
  unfolding completion_event
  enqueue_output_completion r id agent_id =
      let (flushed, ok) = flush_output_overflow_nonblocking r id in
      let (overflow, reason) = finish (drop_tail flushed.overflow id) id in
      if ok
      then send_completion (record flushed { overflow = overflow })
          (completion_event id agent_id reason) id
      else flushed

  -- The two calls of the `SessionOutputObserver` of the runtime, for an invocation that has an id.
  unfoldable pub observe_output : LocalHistoryRuntime → Chunk → LocalHistoryRuntime
  observe_output r c = try_enqueue_output_chunk r (chunk c) c.invocation_id

  unfoldable pub observe_output_complete :
      LocalHistoryRuntime → ℕ → Option Bytes → LocalHistoryRuntime
  observe_output_complete r id agent_id = enqueue_output_completion r id agent_id

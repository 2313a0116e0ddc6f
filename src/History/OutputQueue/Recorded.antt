-- ===== src/History/OutputQueue/Recorded.antt =====
-- At the end of an invocation's output something is always recorded of it.
use zodex.Common.{
  ℕ, zero, suc, ◌≡◌, ◌≢◌, ◌⊎◌, inl, inr, Bool, true, false, List, [], ◌∷◌, ◌++◌, Option, none, some,
  arith, ◌==◌, if◌then◌else◌, is_some, Bool-cases, Option-cases, Bytes, length,
}
use zodex.Common.Dict.{lookup, lookup-insert}
use zodex.History.Overflow.{
  Reason, OutputEvent, chunk, complete, incomplete, OutputOverflow, pending, pop_front,
  push_front_existing, finish, writer_unavailable, completion_queue_full,
}
use zodex.History.OutputQueue.{
  Answer, accepted, full, disconnected, HistoryHealth, note_capture_incomplete, degrade_nonblocking,
  LocalHistoryRuntime, flush_loop, flush_output_overflow_nonblocking,
  mark_output_capture_incomplete, drop_tail, send_completion, completion_event,
  enqueue_output_completion, observe_output_complete, degrade_output_capture, delivered, tried,
}
use zodex.History.OutputQueue.Order.Runs.{completions_of}

-- The events that tell the writer that the output of `j` is not complete.
abbrev pub incompletions_of : ℕ → List OutputEvent → List OutputEvent
incompletions_of j [] = []
incompletions_of j (chunk c ∷ es) = incompletions_of j es
incompletions_of j (complete _ _ ∷ es) = incompletions_of j es
incompletions_of j (incomplete id agent reason ∷ es) =
    let rest = incompletions_of j es in if id == j then incomplete id agent reason ∷ rest else rest

-- The health names the invocation as one whose capture is incomplete.
abbrev pub Noted : ℕ → HistoryHealth → Type 0
Noted j h = is_some (lookup j h.incomplete_capture_invocations) ≡ true

-- The channel has accepted that the output of `j` is complete, or that it is not, or the health
-- says that it is not.
abbrev pub Recorded : ℕ → LocalHistoryRuntime → Type 0
Recorded j q =
    (completions_of j q.sent ≢ []) ⊎ ((incompletions_of j q.sent ≢ []) ⊎ Noted j q.health)

last_completion :
    (j : ℕ) (agent : Option Bytes) (es : List OutputEvent)
    → completions_of j (es ++ (complete j agent ∷ [])) ≢ []
last_completion j agent [] e = ground arith
last_completion j agent (chunk c ∷ es) e = last_completion j agent es e
last_completion j agent (complete i a ∷ es) e = ground (arith, last_completion j agent es)
last_completion j agent (incomplete i a r ∷ es) e = last_completion j agent es e

last_incompletion :
    (j : ℕ) (agent : Option Bytes) (reason : Reason) (es : List OutputEvent)
    → incompletions_of j (es ++ (incomplete j agent reason ∷ [])) ≢ []
last_incompletion j agent reason [] e = ground arith
last_incompletion j agent reason (chunk c ∷ es) e = last_incompletion j agent reason es e
last_incompletion j agent reason (complete i a ∷ es) e = last_incompletion j agent reason es e
last_incompletion j agent reason (incomplete i a r ∷ es) e =
    ground (arith, last_incompletion j agent reason es)

Noted-note_capture :
    (h : HistoryHealth) (j : ℕ) (reason : Reason) → Noted j (note_capture_incomplete h j reason)
unfolding note_capture_incomplete
Noted-note_capture h j reason =
    ground (arith, lookup-insert j j reason h.incomplete_capture_invocations)

Noted-degrade :
    (r : LocalHistoryRuntime) (j : ℕ) (reason : Reason)
    → Noted j (degrade_output_capture r j reason).health
unfolding degrade_output_capture degrade_nonblocking
Noted-degrade r j reason = Noted-note_capture r.health j reason

module _ (channel : ℕ → Answer) (j : ℕ) where
  flush_loop-Noted :
      (fuel : ℕ) (r : LocalHistoryRuntime)
      → (flush_loop channel fuel r j).1 ≡ false
      → Noted j (flush_loop channel fuel r j).0.health
  unfolding flush_loop
  flush_loop-Noted zero r e = cc
  flush_loop-Noted (suc fuel) r e = elim (Option-cases (pop_front r.overflow j)) [
    | inl f ↦ cc (rw (flush_loop, f) at e)
    | inr ((event, o), f) ↦
        rw (flush_loop, f)
          (answered event o (channel r.tries)
            (flush_loop-Noted fuel (delivered (record r { overflow = o }) event))
            (rw (flush_loop, f) at e))
  ]
    where
      answered :
          (event : OutputEvent) (o : OutputOverflow) (a : Answer)
          → ((flush_loop channel fuel (delivered (record r { overflow = o }) event) j).1 ≡ false
              → Noted j
                  (flush_loop channel fuel
                    (delivered (record r { overflow = o }) event)
                    j).0.health)
          → let q : LocalHistoryRuntime × Bool = elim a [
            | accepted ↦ flush_loop channel fuel (delivered (record r { overflow = o }) event) j
            | full ↦ (tried (record r { overflow = push_front_existing o j event }), true)
            | disconnected ↦ (
              degrade_output_capture (tried (record r { overflow = o })) j writer_unavailable,
              false,
            )
          ] in
            q.1 ≡ false → Noted j q.0.health
      answered event o accepted ih = ih
      answered event o full ih = λ g. cc
      answered event o disconnected ih =
          λ g. Noted-degrade (tried (record r { overflow = o })) j writer_unavailable

  send_completion-Recorded :
      (r : LocalHistoryRuntime) (agent : Option Bytes) (reason : Option Reason)
      → Recorded j (send_completion channel r (completion_event j agent reason) j)
  unfolding send_completion completion_event mark_output_capture_incomplete
  send_completion-Recorded r agent reason = answered reason (channel r.tries)
    where
      answered :
          (reason : Option Reason) (a : Answer)
          → let q : LocalHistoryRuntime = elim a [
            | accepted ↦ delivered r (completion_event j agent reason)
            | full ↦ mark_output_capture_incomplete (tried r) j completion_queue_full
            | disconnected ↦ degrade_output_capture (tried r) j writer_unavailable
          ] in
            Recorded j q
      answered none accepted = inl (last_completion j agent r.sent)
      answered (some reason) accepted = inr (inl (last_incompletion j agent reason r.sent))
      answered reason full = inr (inr (Noted-note_capture r.health j completion_queue_full))
      answered reason disconnected = inr (inr (Noted-degrade (tried r) j writer_unavailable))

  pub observe_output_complete-Recorded :
      (r : LocalHistoryRuntime) (agent : Option Bytes)
      → Recorded j (observe_output_complete channel r j agent)
  unfolding observe_output_complete enqueue_output_completion flush_output_overflow_nonblocking
  observe_output_complete-Recorded r agent =
      let fuel = suc (length (pending r.overflow j)) in
      let flushed = flush_loop channel fuel r j in
      let ended = finish (drop_tail flushed.0.overflow j) j in
      elim (Bool-cases flushed.1) [
        | inl through ↦
            rw through
              (send_completion-Recorded (record flushed.0 { overflow = ended.0 }) agent ended.1)
        | inr broken ↦ rw broken (inr (inr (flush_loop-Noted fuel r broken)))
      ]

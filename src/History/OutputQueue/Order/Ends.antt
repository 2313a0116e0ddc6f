-- ===== src/History/OutputQueue/Order/Ends.antt =====
-- The end of an invocation's output, against the order of its chunks.
use zodex.Common.{
  ℕ, ◌≡◌, ◌≢◌, refl, sym, subst, ◌∙◌, inl, inr, Bool, false, List, [], ◌∷◌, append-nil, Option,
  none, some, arith, ◌==◌, if◌then◌else◌, Bool-cases, ==_iff, nil_of_length, Bytes,
}
use zodex.Common.Dict.{lookup-remove}
use zodex.History.Overflow.{
  Reason, Chunk, complete, incomplete, OutputOverflow, pending, mark_incomplete, has_pending,
  discard_pending, finish, writer_unavailable, saturated_at_completion, completion_queue_full,
}
use zodex.History.OutputQueue.{
  Answer, accepted, full, disconnected, LocalHistoryRuntime, flush_output_overflow_nonblocking,
  mark_output_capture_incomplete, drop_tail, send_completion, completion_event,
  enqueue_output_completion, observe_output_complete, degrade_output_capture, delivered, tried,
}
use zodex.History.OutputQueue.Pending.{reason_of, pending-mark_incomplete, discard_pending-Queued}
use zodex.History.OutputQueue.Order.{chunks_of, chunks_of-append, same-Ordered, completion-Ordered}
use zodex.History.OutputQueue.Order.Runs.{
  OrderedIn, completions_of, completions_of-append, marked_reason, unmarked, Flushed, flush-Flushed,
}

-- What `drop_tail` leaves: nothing pending, and a reason if anything was dropped.
record Dropped (o : OutputOverflow) (id : ℕ) (o' : OutputOverflow) : Type 0 where
  queue : (i : ℕ) → pending o' i ≡ (if id == i then [] else pending o i)
  reasons : (i : ℕ) → reason_of o' i ≡ none → reason_of o i ≡ none
  clean : reason_of o' id ≡ none → pending o id ≡ []

drop_tail-Dropped : (o : OutputOverflow) (id : ℕ) → Dropped o id (drop_tail o id)
unfolding drop_tail
drop_tail-Dropped o id = elim (Bool-cases (has_pending o id)) [
  | inl busy ↦
      let d = discard_pending-Queued o id in
      rw busy (record {
        queue = λ i.
            pending-mark_incomplete (discard_pending o id) id i saturated_at_completion ∙ d.queue i;
        reasons = λ i n.
            sym (d.reasons i) ∙ unmarked (discard_pending o id) id i saturated_at_completion n;
        clean = λ n. absurd (marked_reason (discard_pending o id) id saturated_at_completion n);
      })
  | inr idle ↦
      let empty : pending o id ≡ [] =
        unfold has_pending in nil_of_length (pending o id) (ground arith) in
      rw idle (record {
        queue = λ i. elim (Bool-cases (id == i)) [
          | inl same ↦ rw same (subst (λ k. pending o k ≡ []) ((==_iff id i).0 same) empty)
          | inr other ↦ rw other
        ];
        reasons = λ i n. n;
        clean = λ n. empty;
      })
]

module _ (channel : ℕ → Answer) (j : ℕ) (xs : List Chunk) where
  abbrev Whole : LocalHistoryRuntime → Type 0
  Whole q = completions_of j q.sent ≢ [] → chunks_of j q.sent ≡ xs

  -- A completion is sent only when the chunks sent before it are all that were offered.
  sent-Whole :
      (r : LocalHistoryRuntime) (agent : Option Bytes) (reason : Option Reason) (a : Answer)
      → (reason ≡ none → chunks_of j r.sent ≡ xs)
      → completions_of j r.sent ≡ []
      → Whole (elim a [
        | accepted ↦ delivered r (completion_event j agent reason)
        | full ↦ mark_output_capture_incomplete (tried r) j completion_queue_full
        | disconnected ↦ degrade_output_capture (tried r) j writer_unavailable
      ])
  unfolding completion_event mark_output_capture_incomplete degrade_output_capture
  sent-Whole r agent none accepted whole quiet some_completion =
      rw (chunks_of-append j r.sent (complete j agent ∷ []), append-nil) (whole refl)
  sent-Whole r agent (some reason) accepted whole quiet some_completion = absurd (
      some_completion
        (rw (completions_of-append j r.sent (incomplete j agent reason ∷ []), append-nil) quiet))
  sent-Whole r agent reason full whole quiet some_completion = absurd (some_completion quiet)
  sent-Whole r agent reason disconnected whole quiet some_completion =
      absurd (some_completion quiet)

  -- When the end of the output of `j` is announced for the first time, and the announcement says
  -- complete, then the chunks of `j` that the channel has accepted are exactly those offered.
  pub observe_output_complete-Whole :
      (r : LocalHistoryRuntime) (agent : Option Bytes)
      → OrderedIn j xs r
      → completions_of j r.sent ≡ []
      → Whole (observe_output_complete channel r j agent)
  unfolding observe_output_complete enqueue_output_completion send_completion finish
  observe_output_complete-Whole r agent v quiet = elim (Bool-cases flushed.1) [
    | inl through ↦
        rw through
          (sent-Whole ended agent (reason_of dropped j) (channel flushed.0.tries) whole silent)
    | inr broken ↦ rw broken (λ some_completion. absurd (some_completion silent))
  ]
    where
      flushed : LocalHistoryRuntime × Bool
      flushed = flush_output_overflow_nonblocking channel r j

      f : Flushed channel j xs j r flushed
      f = flush-Flushed channel j xs r j v

      dropped : OutputOverflow
      dropped = drop_tail flushed.0.overflow j

      d : Dropped flushed.0.overflow j dropped
      d = drop_tail-Dropped flushed.0.overflow j

      ended : LocalHistoryRuntime
      ended = record flushed.0 { overflow = (finish dropped j).0 }

      silent : completions_of j flushed.0.sent ≡ []
      silent = f.completions ∙ quiet

      whole : reason_of dropped j ≡ none → chunks_of j flushed.0.sent ≡ xs
      whole n =
          let nothing_left : pending flushed.0.overflow j ≡ [] = d.clean n in
          sym (append-nil (chunks_of j flushed.0.sent))
          ∙ (rw nothing_left at (f.ordered.order (d.reasons j n)))

  -- The end of another invocation's output keeps the order of `j`.
  pub observe_output_complete-Ordered :
      (r : LocalHistoryRuntime) (id : ℕ) (agent : Option Bytes)
      → id ≢ j
      → OrderedIn j xs r
      → OrderedIn j xs (observe_output_complete channel r id agent)
        × (completions_of j (observe_output_complete channel r id agent).sent
            ≡ completions_of j r.sent)
  unfolding observe_output_complete enqueue_output_completion send_completion finish
      completion_event mark_output_capture_incomplete degrade_output_capture
  observe_output_complete-Ordered r id agent ne v = elim (Bool-cases flushed.1) [
    | inl through ↦ rw through (answered (reason_of dropped id) (channel flushed.0.tries))
    | inr broken ↦ rw broken (f.ordered, f.completions)
  ]
    where
      flushed : LocalHistoryRuntime × Bool
      flushed = flush_output_overflow_nonblocking channel r id

      f : Flushed channel j xs id r flushed
      f = flush-Flushed channel j xs r id v

      dropped : OutputOverflow
      dropped = drop_tail flushed.0.overflow id

      d : Dropped flushed.0.overflow id dropped
      d = drop_tail-Dropped flushed.0.overflow id

      ended : LocalHistoryRuntime
      ended = record flushed.0 { overflow = (finish dropped id).0 }

      other : (id == j) ≡ false
      other = elim (Bool-cases (id == j)) [
        | inl same ↦ absurd (ne ((==_iff id j).0 same))
        | inr e ↦ e
      ]

      kept : OrderedIn j xs ended
      kept = record {
        mine = λ i. elim (Bool-cases (id == i)) [
          | inl e ↦ rw (d.queue i, e) tt
          | inr e ↦ rw (d.queue i, e) (f.ordered.mine i)
        ];
        order = λ n.
            let before =
              f.ordered.order (
                d.reasons j (sym (lookup-remove id j dropped.incomplete_reasons ∙ rw other) ∙ n)) in
            rw (d.queue j, other) before;
      }

      -- The event of another invocation's end is neither a chunk nor a completion of `j`.
      apart :
          (reason : Option Reason)
          → (chunks_of j (completion_event id agent reason ∷ []) ≡ [])
            × (completions_of j (completion_event id agent reason ∷ []) ≡ [])
      apart none = (refl, rw other)
      apart (some reason) = (refl, refl)

      answered :
          (reason : Option Reason) (a : Answer)
          → let q : LocalHistoryRuntime = elim a [
            | accepted ↦ delivered ended (completion_event id agent reason)
            | full ↦ mark_output_capture_incomplete (tried ended) id completion_queue_full
            | disconnected ↦ degrade_output_capture (tried ended) id writer_unavailable
          ] in
            OrderedIn j xs q × (completions_of j q.sent ≡ completions_of j r.sent)
      answered reason accepted =
          let event = completion_event id agent reason in
          (
            completion-Ordered event (apart reason).0 kept,
            rw (completions_of-append j ended.sent (event ∷ []), (apart reason).1, append-nil)
                f.completions,
          )
      answered reason full = (kept, f.completions)
      answered reason disconnected =
          let o = (finish dropped id).0 in
          (
            same-Ordered (mark_incomplete o id writer_unavailable)
                (λ i. pending-mark_incomplete o id i writer_unavailable)
                (unmarked o id j writer_unavailable) kept,
            f.completions,
          )

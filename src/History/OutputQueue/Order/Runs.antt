-- ===== src/History/OutputQueue/Order/Runs.antt =====
-- The operations of the runtime keep the order of the chunks.
use zodex.Common.{
  ℕ, zero, suc, ◌≡◌, ◌≢◌, refl, ap, sym, ◌∙◌, inl, inr, Bool, true, false, List, [], ◌∷◌, ◌++◌,
  append-nil, none, arith, ◌==◌, if◌then◌else◌, Bool-cases, ==_iff, length,
}
use zodex.History.Overflow.{
  Reason, Chunk, OutputEvent, chunk, complete, incomplete, OutputOverflow, pending, mark_incomplete,
  push_front_existing, writer_unavailable,
}
use zodex.History.OutputQueue.{
  Answer, accepted, full, disconnected, LocalHistoryRuntime, flush_loop,
  flush_output_overflow_nonblocking, degrade_output_capture, delivered, tried,
}
use zodex.History.OutputQueue.Pending.{
  reason_of, Queued, reason_of-mark_incomplete, pending-mark_incomplete, pop_front-Queued,
  push_front_existing-Queued,
}
use zodex.History.OutputQueue.Order.{
  Mine, front-Mine, Ordered, sent-Ordered, same-Ordered, lost-Ordered,
}

abbrev pub OrderedIn : ℕ → List Chunk → LocalHistoryRuntime → Type 0
OrderedIn j xs r = Ordered j xs r.overflow r.sent

-- The events that tell the writer that the output of `j` is complete.
abbrev pub completions_of : ℕ → List OutputEvent → List OutputEvent
completions_of j [] = []
completions_of j (chunk c ∷ es) = completions_of j es
completions_of j (complete id agent ∷ es) =
    let rest = completions_of j es in if id == j then complete id agent ∷ rest else rest
completions_of j (incomplete _ _ _ ∷ es) = completions_of j es

pub completions_of-append :
    (j : ℕ) (es fs : List OutputEvent)
    → completions_of j (es ++ fs) ≡ completions_of j es ++ completions_of j fs
completions_of-append j [] fs = refl
completions_of-append j (chunk c ∷ es) fs = completions_of-append j es fs
completions_of-append j (complete id agent ∷ es) fs = ground (arith, completions_of-append j es fs)
completions_of-append j (incomplete _ _ _ ∷ es) fs = completions_of-append j es fs

front_completions :
    (id j : ℕ) (e : OutputEvent) (es : List OutputEvent)
    → Mine id (e ∷ es)
    → completions_of j (e ∷ []) ≡ []
front_completions id j (chunk c) es m = refl
front_completions id j (complete _ _) es m = absurd m
front_completions id j (incomplete _ _ _) es m = absurd m

-- Marking leaves a reason, and takes none away.
pub marked_reason :
    (o : OutputOverflow) (id : ℕ) (reason : Reason)
    → reason_of (mark_incomplete o id reason) id ≢ none
marked_reason o id reason e = ground (arith, reason_of-mark_incomplete o id id reason)

pub unmarked :
    (o : OutputOverflow) (id j : ℕ) (reason : Reason)
    → reason_of (mark_incomplete o id reason) j ≡ none
    → reason_of o j ≡ none
unmarked o id j reason e = ground (arith, reason_of-mark_incomplete o id j reason)

-- An event that was popped and pushed to the front again leaves each queue as it was.
pub restored :
    (o : OutputOverflow) (id : ℕ) (event : OutputEvent) (rest : List OutputEvent)
    (o' : OutputOverflow)
    → pending o id ≡ event ∷ rest
    → Queued o id rest o'
    → (i : ℕ) → pending (push_front_existing o' id event) i ≡ pending o i
restored o id event rest o' p q i =
    let pushed = push_front_existing-Queued o' id event in
    elim (Bool-cases (id == i)) [
      | inl same ↦
          let e = (==_iff id i).0 same in
          pushed.queue i
          ∙ rw same (ap (◌∷◌ event) (q.queue id ∙ rw ((==_iff id id).1 refl)))
          ∙ sym p
          ∙ ap (pending o) e
      | inr other ↦ pushed.queue i ∙ rw other (q.queue i ∙ rw other)
    ]

module _ (channel : ℕ → Answer) (j : ℕ) (xs : List Chunk) where
  -- A flush keeps the order, adds no completion, and fails only with the invocation marked.
  pub record Flushed (id : ℕ) (before : LocalHistoryRuntime) (r : LocalHistoryRuntime × Bool)
      : Type 0 where
    pub ordered : OrderedIn j xs r.0
    pub completions : completions_of j r.0.sent ≡ completions_of j before.sent
    pub failed : r.1 ≡ false → reason_of r.0.overflow id ≢ none

  flush_loop-Flushed :
      (fuel : ℕ) (r : LocalHistoryRuntime) (id : ℕ)
      → OrderedIn j xs r
      → Flushed id r (flush_loop channel fuel r id)
  unfolding flush_loop
  flush_loop-Flushed zero r id v = record { ordered = v; completions = refl; failed = λ e. cc (e) }
  flush_loop-Flushed (suc fuel) r id v = elim (pop_front-Queued r.overflow id) [
    | inl (e, _) ↦
        rw (e, flush_loop) (record { ordered = v; completions = refl; failed = λ f. cc (f) })
    | inr (event, rest, o', e, p, q) ↦
        rw (e, flush_loop)
          (answered event rest o' p q (channel r.tries)
            (flush_loop-Flushed fuel (delivered (record r { overflow = o' }) event) id))
  ]
    where
      answered :
          (event : OutputEvent) (rest : List OutputEvent) (o' : OutputOverflow)
          → pending r.overflow id ≡ event ∷ rest
          → Queued r.overflow id rest o'
          → (a : Answer)
          → (OrderedIn j xs (delivered (record r { overflow = o' }) event)
              → Flushed id
                  (delivered (record r { overflow = o' }) event)
                  (flush_loop channel fuel (delivered (record r { overflow = o' }) event) id))
          → Flushed id r (elim a [
            | accepted ↦ flush_loop channel fuel (delivered (record r { overflow = o' }) event) id
            | full ↦ (tried (record r { overflow = push_front_existing o' id event }), true)
            | disconnected ↦ (
              degrade_output_capture (tried (record r { overflow = o' })) id writer_unavailable,
              false,
            )
          ])
      answered event rest o' p q accepted ih =
          let own : Mine id (event ∷ rest) = rw p at (v.mine id) in
          let s = ih (sent-Ordered id event rest o' p q v) in
          record {
            ordered = s.ordered;
            completions =
                s.completions
                ∙ rw (
                  completions_of-append j r.sent (event ∷ []),
                  front_completions id j event rest own,
                  append-nil,
                );
            failed = s.failed;
          }
      answered event rest o' p q full ih = record {
        ordered =
            same-Ordered (push_front_existing o' id event)
              (restored r.overflow id event rest o' p q)
              (λ n.
                sym (q.reasons j) ∙ sym ((push_front_existing-Queued o' id event).reasons j) ∙ n)
              v;
        completions = refl;
        failed = λ f. cc (f);
      }
      answered event rest o' p q disconnected ih =
          let own : Mine id (event ∷ rest) = rw p at (v.mine id) in
          unfold degrade_output_capture in
          record {
            ordered =
                lost-Ordered id rest (mark_incomplete o' id writer_unavailable) xs
                  (λ i. pending-mark_incomplete o' id i writer_unavailable ∙ q.queue i)
                  (marked_reason o' id writer_unavailable)
                  (λ n. sym (q.reasons j) ∙ unmarked o' id j writer_unavailable n)
                  (front-Mine id event rest own) (λ _. refl) v;
            completions = refl;
            failed = λ f. marked_reason o' id writer_unavailable;
          }

  pub flush-Flushed :
      (r : LocalHistoryRuntime) (id : ℕ)
      → OrderedIn j xs r
      → Flushed id r (flush_output_overflow_nonblocking channel r id)
  unfolding flush_output_overflow_nonblocking
  flush-Flushed r id v = flush_loop-Flushed (suc (length (pending r.overflow id))) r id v

-- ===== src/History/OutputQueue/Flush.antt =====
-- What a flush of the overflow sends, and why it stops.
use zodex.Common.{
  ℕ, zero, suc, ◌+◌, ◌<◌, ◌≡◌, refl, ap, sym, ◌∙◌, ◌⊎◌, inl, inr, Bool, true, false, List, [], ◌∷◌,
  ◌++◌, append_assoc, append-nil, arith, length, take, drop, ==_iff,
}
use zodex.History.Overflow.{
  OutputEvent, OutputOverflow, pending, push_front_existing, writer_unavailable,
}
use zodex.History.OutputQueue.{
  Answer, accepted, full, disconnected, LocalHistoryRuntime, flush_loop,
  flush_output_overflow_nonblocking, degrade_output_capture, delivered, tried,
}
use zodex.History.OutputQueue.Pending.{Queued, pop_front-Queued}
use zodex.History.OutputQueue.Order.Runs.{restored}

module _ (channel : ℕ → Answer) where
  -- `count` events of the front are sent, each accepted by the channel; then the queue is empty,
  -- or the channel is full and the rest stays, or it is disconnected and the flush fails.
  pub record Sends (r : LocalHistoryRuntime) (id : ℕ) (q : LocalHistoryRuntime × Bool)
      : Type 0 where
    pub count : ℕ
    pub sent : q.0.sent ≡ r.sent ++ take count (pending r.overflow id)
    pub taken : (n : ℕ) → n < count → channel (r.tries + n) ≡ accepted
    pub left : q.1 ≡ true → pending q.0.overflow id ≡ drop count (pending r.overflow id)
    pub stopped :
        ((q.1 ≡ true) × (pending q.0.overflow id ≡ []))
        ⊎ ((q.1 ≡ true) × (channel (r.tries + count) ≡ full))
        ⊎ ((q.1 ≡ false) × (channel (r.tries + count) ≡ disconnected))

  -- What is left of a queue after its front is popped.
  popped :
      (o : OutputOverflow) (id : ℕ) (rest : List OutputEvent) (o' : OutputOverflow)
      → Queued o id rest o'
      → pending o' id ≡ rest
  popped o id rest o' q = q.queue id ∙ rw ((==_iff id id).1 refl)

  flush_loop-Sends :
      (fuel : ℕ) (r : LocalHistoryRuntime) (id : ℕ)
      → length (pending r.overflow id) < fuel
      → Sends r id (flush_loop channel fuel r id)
  unfolding flush_loop
  flush_loop-Sends zero r id h = absurd (omega arith)
  flush_loop-Sends (suc fuel) r id h = elim (pop_front-Queued r.overflow id) [
    | inl (e, p) ↦
        rw (e, flush_loop)
          (record {
            count = 0;
            sent = sym (append-nil r.sent);
            taken = λ n l. absurd (omega arith);
            left = λ _. refl;
            stopped = inl (refl, p);
          })
    | inr (event, rest, o', e, p, q) ↦
        rw (e, flush_loop)
          (answered event rest o' p q (channel r.tries) refl (
            flush_loop-Sends fuel (delivered (record r { overflow = o' }) event) id
              (shorter event rest o' p q h)))
  ]
    where
      shorter :
          (event : OutputEvent) (rest : List OutputEvent) (o' : OutputOverflow)
          → pending r.overflow id ≡ event ∷ rest
          → Queued r.overflow id rest o'
          → length (pending r.overflow id) < suc fuel
          → length (pending o' id) < fuel
      shorter event rest o' p q h =
          omega (arith, ap length (popped r.overflow id rest o' q), ap length p)

      first : channel (r.tries + 0) ≡ channel r.tries
      first = let e : r.tries + 0 ≡ r.tries = omega arith in ap channel e

      next : (n : ℕ) → channel (r.tries + suc n) ≡ channel (suc r.tries + n)
      next n = let e : r.tries + suc n ≡ suc r.tries + n = omega arith in ap channel e

      later :
          (count : ℕ)
          → ((n : ℕ) → n < count → channel (suc r.tries + n) ≡ accepted)
          → channel r.tries ≡ accepted
          → (n : ℕ) → n < suc count
          → channel (r.tries + n) ≡ accepted
      later count all a zero l = first ∙ a
      later count all a (suc n) l = next n ∙ all n (omega arith)

      answered :
          (event : OutputEvent) (rest : List OutputEvent) (o' : OutputOverflow)
          → pending r.overflow id ≡ event ∷ rest
          → Queued r.overflow id rest o'
          → (a : Answer) → channel r.tries ≡ a
          → (let d = delivered (record r { overflow = o' }) event in
              Sends d id (flush_loop channel fuel d id))
          → Sends r id (elim a [
            | accepted ↦ flush_loop channel fuel (delivered (record r { overflow = o' }) event) id
            | full ↦ (tried (record r { overflow = push_front_existing o' id event }), true)
            | disconnected ↦ (
              degrade_output_capture (tried (record r { overflow = o' })) id writer_unavailable,
              false,
            )
          ])
      answered event rest o' p q accepted a ih =
          let here = popped r.overflow id rest o' q in
          record {
            count = suc ih.count;
            sent =
                ih.sent
                ∙ append_assoc r.sent (event ∷ []) (take ih.count (pending o' id))
                ∙ rw (here, p);
            taken = λ n l. later ih.count ih.taken a n l;
            left = λ ok. ih.left ok ∙ rw (here, p);
            stopped = elim ih.stopped [
              | inl e ↦ inl e
              | inr (inl (ok, e)) ↦ inr (inl (ok, next ih.count ∙ e))
              | inr (inr (ok, e)) ↦ inr (inr (ok, next ih.count ∙ e))
            ];
          }
      answered event rest o' p q full a ih = record {
        count = 0;
        sent = sym (append-nil r.sent);
        taken = λ n l. absurd (omega arith);
        left = λ _. restored r.overflow id event rest o' p q id;
        stopped = inr (inl (refl, first ∙ a));
      }
      answered event rest o' p q disconnected a ih =
          unfold degrade_output_capture in
          record {
            count = 0;
            sent = sym (append-nil r.sent);
            taken = λ n l. absurd (omega arith);
            left = λ f. cc (f);
            stopped = inr (inr (refl, first ∙ a));
          }

  -- A flush of the overflow ends: it sends a front part of the invocation's queue, every event of
  -- it accepted by the channel, and stops with the queue empty, at an event for which the channel
  -- is full and which stays in front of the rest, or, failing, at one that it takes no longer.
  pub flush-Sends :
      (r : LocalHistoryRuntime) (id : ℕ)
      → Sends r id (flush_output_overflow_nonblocking channel r id)
  unfolding flush_output_overflow_nonblocking
  flush-Sends r id = flush_loop-Sends (suc (length (pending r.overflow id))) r id (omega arith)

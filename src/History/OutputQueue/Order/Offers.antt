-- ===== src/History/OutputQueue/Order/Offers.antt =====
-- A chunk offered, against the order of the chunks of its invocation.
use zodex.Common.{
  ℕ, ◌≡◌, ◌≢◌, refl, ap, sym, ◌∙◌, inl, inr, Bool, false, List, [], ◌∷◌, ◌++◌, append-nil, none,
  arith, ◌==◌, if◌then◌else◌, is_some, Bool-cases, Option-cases, ==_iff, nil_of_length, sat_add,
  ltb,
}
use zodex.Common.Dict.{insert}
use zodex.History.Overflow.{
  Chunk, OutputEvent, chunk, OutputOverflow, pending, mark_incomplete, captured, admit_chunk,
  has_pending, push_back, incomplete_reason, writer_unavailable, queue_saturated, capture_exceeded,
  output_event_bytes, output_capture_max_bytes_per_invocation,
}
use zodex.History.OutputQueue.{
  Answer, accepted, full, disconnected, LocalHistoryRuntime, flush_output_overflow_nonblocking,
  buffer_output_overflow, send_or_buffer, mark_output_capture_incomplete, try_enqueue_output_chunk,
  observe_output, degrade_output_capture, delivered, tried,
}
use zodex.History.OutputQueue.Pending.{reason_of, pending-mark_incomplete, push_back-Queued}
use zodex.History.OutputQueue.Order.{
  chunks_of, Ordered, same-Ordered, lost-Ordered, Queued-Ordered, direct-Ordered,
}
use zodex.History.OutputQueue.Order.Runs.{
  OrderedIn, completions_of, completions_of-append, marked_reason, unmarked, Flushed, flush-Flushed,
}

record Admitted (o : OutputOverflow) (id : ℕ) (r : OutputOverflow × Bool) : Type 0 where
  queue : (i : ℕ) → pending r.0 i ≡ pending o i
  reasons : (i : ℕ) → reason_of r.0 i ≡ none → reason_of o i ≡ none
  refused : r.1 ≡ false → reason_of r.0 id ≢ none

admit_chunk-Admitted : (o : OutputOverflow) (id bytes : ℕ) → Admitted o id (admit_chunk o id bytes)
unfolding admit_chunk
admit_chunk-Admitted o id bytes = elim (Bool-cases (is_some (reason_of o id))) [
  | inl marked ↦
      rw marked (record { queue = λ i. refl; reasons = λ i n. n; refused = λ _ n. ground arith })
  | inr free ↦
      elim (Bool-cases
        (ltb output_capture_max_bytes_per_invocation (sat_add (captured o id) bytes))) [
          | inl over ↦
              let entered = record o {
                captured_bytes = insert id (captured o id) o.captured_bytes;
              } in
              rw (free, over)
                (record {
                  queue = λ i. pending-mark_incomplete entered id i capture_exceeded;
                  reasons = λ i. unmarked entered id i capture_exceeded;
                  refused = λ _. marked_reason entered id capture_exceeded;
                })
          | inr fits ↦
              rw (free, fits)
                (record { queue = λ i. refl; reasons = λ i n. n; refused = λ f. cc (f) })
        ]
]

module _ {j : ℕ} {xs : List Chunk} {o : OutputOverflow} {sent : List OutputEvent} where
  -- The chunk is dropped, and its invocation is marked.
  dropped-Ordered :
      (c : Chunk) (o' : OutputOverflow)
      → ((i : ℕ) → pending o' i ≡ pending o i)
      → reason_of o' c.invocation_id ≢ none
      → (reason_of o' j ≡ none → reason_of o j ≡ none)
      → Ordered j xs o sent
      → Ordered j (xs ++ chunks_of j (chunk c ∷ [])) o' sent
  dropped-Ordered c o' q lost r v =
      let id = c.invocation_id in
      lost-Ordered id (pending o id) o' (xs ++ chunks_of j (chunk c ∷ [])) (λ i. q i ∙ same i) lost
        r (v.mine id) (λ ne. rw ne (append-nil xs)) v
    where
      same :
          (i : ℕ)
          → pending o i ≡ (if c.invocation_id == i then pending o c.invocation_id else pending o i)
      same i = elim (Bool-cases (c.invocation_id == i)) [
        | inl e ↦ rw e (ap (pending o) (sym ((==_iff c.invocation_id i).0 e)))
        | inr e ↦ rw e
      ]

module _ (channel : ℕ → Answer) (j : ℕ) (xs : List Chunk) where
  abbrev Offered : Chunk → LocalHistoryRuntime → Type 0
  Offered c r = OrderedIn j (xs ++ chunks_of j (chunk c ∷ [])) r

  buffer-Offered :
      (r : LocalHistoryRuntime) (c : Chunk)
      → OrderedIn j xs r
      → Offered c (buffer_output_overflow r (chunk c) c.invocation_id)
  unfolding buffer_output_overflow mark_output_capture_incomplete
  buffer-Offered r c v = elim (push_back-Queued r.overflow c.invocation_id (chunk c)) [
    | inl (o', e, q) ↦ rw e (Queued-Ordered c o' q v)
    | inr e ↦
        let id = c.invocation_id in
        rw e (
          dropped-Ordered c (mark_incomplete r.overflow id queue_saturated)
            (λ i. pending-mark_incomplete r.overflow id i queue_saturated)
            (marked_reason r.overflow id queue_saturated) (unmarked r.overflow id j queue_saturated)
            v)
  ]

  degrade-Offered :
      (r : LocalHistoryRuntime) (c : Chunk)
      → OrderedIn j xs r
      → Offered c (degrade_output_capture r c.invocation_id writer_unavailable)
  unfolding degrade_output_capture
  degrade-Offered r c v =
      let id = c.invocation_id in
      dropped-Ordered c (mark_incomplete r.overflow id writer_unavailable)
        (λ i. pending-mark_incomplete r.overflow id i writer_unavailable)
        (marked_reason r.overflow id writer_unavailable)
        (unmarked r.overflow id j writer_unavailable) v

  send_or_buffer-Offered :
      (r : LocalHistoryRuntime) (c : Chunk)
      → OrderedIn j xs r
      → Offered c (send_or_buffer channel r (chunk c) c.invocation_id)
  unfolding send_or_buffer
  send_or_buffer-Offered r c v = elim (Bool-cases (has_pending r.overflow c.invocation_id)) [
    | inl busy ↦ rw busy (buffer-Offered r c v)
    | inr idle ↦ rw idle (
        answered (channel r.tries)
          (unfold has_pending in nil_of_length (pending r.overflow c.invocation_id) (ground arith)))
  ]
    where
      answered :
          (a : Answer)
          → pending r.overflow c.invocation_id ≡ []
          → Offered c (elim a [
            | accepted ↦ delivered r (chunk c)
            | full ↦ buffer_output_overflow (tried r) (chunk c) c.invocation_id
            | disconnected ↦ degrade_output_capture (tried r) c.invocation_id writer_unavailable
          ])
      answered accepted p = direct-Ordered c p v
      answered full p = buffer-Offered (tried r) c v
      answered disconnected p = degrade-Offered (tried r) c v

  -- Whatever the channel answers, a chunk offered keeps the order: it joins the sequence of its
  -- invocation, or the invocation is marked incomplete.
  pub observe_output-Ordered :
      (r : LocalHistoryRuntime) (c : Chunk)
      → OrderedIn j xs r
      → OrderedIn j (xs ++ chunks_of j (chunk c ∷ [])) (observe_output channel r c)
  unfolding observe_output try_enqueue_output_chunk mark_output_capture_incomplete
  observe_output-Ordered r c v = elim (Bool-cases admitted.1) [
    | inl ok ↦
        elim (Bool-cases (flush_output_overflow_nonblocking channel entered c.invocation_id).1) [
          | inl through ↦
              rw (ok, through)
                (send_or_buffer-Offered
                  (flush_output_overflow_nonblocking channel entered c.invocation_id).0 c
                  flushed.ordered)
          | inr broken ↦
              rw (ok, broken)
                (dropped-Ordered c
                  (flush_output_overflow_nonblocking channel entered c.invocation_id).0.overflow
                  (λ i. refl) (flushed.failed broken) (λ n. n) flushed.ordered)
        ]
    | inr refused ↦ elim (Option-cases (incomplete_reason admitted.0 c.invocation_id)) [
      | inl e ↦ rw (refused, e) (lost refused)
      | inr (reason, e) ↦ rw (refused, e) (lost refused)
    ]
  ]
    where
      admitted : OutputOverflow × Bool
      admitted = admit_chunk r.overflow c.invocation_id (output_event_bytes (chunk c))

      entered : LocalHistoryRuntime
      entered = record r { overflow = admitted.0 }

      a : Admitted r.overflow c.invocation_id admitted
      a = admit_chunk-Admitted r.overflow c.invocation_id (output_event_bytes (chunk c))

      flushed :
          Flushed channel j xs c.invocation_id entered
            (flush_output_overflow_nonblocking channel entered c.invocation_id)
      flushed =
          flush-Flushed channel j xs entered c.invocation_id
            (same-Ordered admitted.0 a.queue (a.reasons j) v)

      lost : admitted.1 ≡ false → Offered c entered
      lost refused = dropped-Ordered c admitted.0 a.queue (a.refused refused) (a.reasons j) v

-- A chunk offered announces no end.
module _ (channel : ℕ → Answer) (j : ℕ) (xs : List Chunk) where
  buffer_sent :
      (r : LocalHistoryRuntime) (c : Chunk)
      → (buffer_output_overflow r (chunk c) c.invocation_id).sent ≡ r.sent
  unfolding buffer_output_overflow mark_output_capture_incomplete
  buffer_sent r c = elim (Bool-cases (push_back r.overflow c.invocation_id (chunk c)).1) [
    | inl e ↦ rw e
    | inr e ↦ rw e
  ]

  send_or_buffer-completions :
      (r : LocalHistoryRuntime) (c : Chunk)
      → completions_of j (send_or_buffer channel r (chunk c) c.invocation_id).sent
        ≡ completions_of j r.sent
  unfolding send_or_buffer
  send_or_buffer-completions r c = elim (Bool-cases (has_pending r.overflow c.invocation_id)) [
    | inl busy ↦ rw busy (ap (completions_of j) (buffer_sent r c))
    | inr idle ↦ rw idle (answered (channel r.tries))
  ]
    where
      answered :
          (a : Answer)
          → completions_of j
              (elim a as (λ _. LocalHistoryRuntime) [
                | accepted ↦ delivered r (chunk c)
                | full ↦ buffer_output_overflow (tried r) (chunk c) c.invocation_id
                | disconnected ↦ degrade_output_capture (tried r) c.invocation_id writer_unavailable
              ]).sent
            ≡ completions_of j r.sent
      answered accepted = rw (completions_of-append j r.sent (chunk c ∷ []), append-nil)
      answered full = ap (completions_of j) (buffer_sent (tried r) c)
      answered disconnected = unfold degrade_output_capture in refl

  pub observe_output-completions :
      (r : LocalHistoryRuntime) (c : Chunk)
      → OrderedIn j xs r
      → completions_of j (observe_output channel r c).sent ≡ completions_of j r.sent
  unfolding observe_output try_enqueue_output_chunk mark_output_capture_incomplete
  observe_output-completions r c v = elim (Bool-cases admitted.1) [
    | inl ok ↦
        elim (Bool-cases (flush_output_overflow_nonblocking channel entered c.invocation_id).1) [
          | inl through ↦
              rw (ok, through)
                (send_or_buffer-completions
                    (flush_output_overflow_nonblocking channel entered c.invocation_id).0 c
                  ∙ flushed.completions)
          | inr broken ↦ rw (ok, broken) flushed.completions
        ]
    | inr refused ↦ elim (Option-cases (incomplete_reason admitted.0 c.invocation_id)) [
      | inl e ↦ rw (refused, e)
      | inr (reason, e) ↦ rw (refused, e)
    ]
  ]
    where
      admitted : OutputOverflow × Bool
      admitted = admit_chunk r.overflow c.invocation_id (output_event_bytes (chunk c))

      entered : LocalHistoryRuntime
      entered = record r { overflow = admitted.0 }

      flushed :
          Flushed channel j xs c.invocation_id entered
            (flush_output_overflow_nonblocking channel entered c.invocation_id)
      flushed =
          let a = admit_chunk-Admitted r.overflow c.invocation_id (output_event_bytes (chunk c)) in
          flush-Flushed channel j xs entered c.invocation_id
            (same-Ordered admitted.0 a.queue (a.reasons j) v)

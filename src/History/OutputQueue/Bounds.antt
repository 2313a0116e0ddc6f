-- ===== src/History/OutputQueue/Bounds.antt =====
-- The bytes that the overflow counts, and the limits of the queue and of the capture.
pub mod Captured
pub mod Calls
use zodex.Common.{
  ℕ, zero, suc, ◌+◌, ◌-◌, ◌*◌, ◌≤◌, ◌≡◌, refl, ap, sym, ◌∙◌, ◌⊎◌, inl, inr, Bool, true, false, List,
  [], ◌∷◌, ◌++◌, Option, none, some, arith, ◌==◌, if◌then◌else◌, ltb, is_some, Bool-cases,
  Option-cases, sat_add,
}
use zodex.Common.Dict.{
  lookup, insert, remove, get_default, Distinct, remove-Distinct, insert-Distinct, total, weight,
  total-remove, lookup-insert, lookup-remove,
}
use zodex.History.Overflow.{
  Reason, OutputEvent, OutputOverflow, default_overflow, pending, captured, mark_incomplete,
  admit_chunk, push_back, push_front_existing, pop_from, pop_front, discard_pending, finish,
  output_event_bytes, events_bytes, output_transient_overflow_max_bytes, capture_exceeded,
  output_capture_max_bytes_per_invocation,
}

-- The counter is the sum over the pending events, and the limits hold.
pub record Accounted (o : OutputOverflow) : Type 0 where
  pub distinct : Distinct o.by_invocation
  pub sum : o.bytes ≡ total events_bytes o.by_invocation
  pub queue : o.bytes ≤ 65536
  pub capture : (j : ℕ) → captured o j ≤ 2097152

weight-pending :
    (o : OutputOverflow) (id : ℕ)
    → weight events_bytes (lookup id o.by_invocation) ≡ events_bytes (pending o id)
unfolding get_default
weight-pending o id = elim (Option-cases (lookup id o.by_invocation)) [
  | inl e ↦ rw e
  | inr (es, e) ↦ rw e
]

-- The queue of `id` is taken out, or replaced.
unqueued-Accounted :
    (o : OutputOverflow) (id b : ℕ)
    → b + events_bytes (pending o id) ≡ o.bytes
    → Accounted o
    → Accounted (record o { bytes = b; by_invocation = remove id o.by_invocation })
unqueued-Accounted o id b e v = record {
  distinct = remove-Distinct id o.by_invocation v.distinct;
  sum = omega (
    arith,
    total-remove events_bytes id o.by_invocation v.distinct,
    weight-pending o id,
    v.sum,
    e,
  );
  queue = omega (arith, v.queue, e);
  capture = v.capture;
}

requeued-Accounted :
    (o : OutputOverflow) (id : ℕ) (es : List OutputEvent) (b : ℕ)
    → b + events_bytes (pending o id) ≡ o.bytes + events_bytes es
    → b ≤ 65536
    → Accounted o
    → Accounted (record o { bytes = b; by_invocation = insert id es o.by_invocation })
unfolding insert
requeued-Accounted o id es b e fits v = record {
  distinct = insert-Distinct id es o.by_invocation v.distinct;
  sum = omega (
    arith,
    total-remove events_bytes id o.by_invocation v.distinct,
    weight-pending o id,
    v.sum,
    e,
  );
  queue = fits;
  capture = v.capture;
}

-- Operations that leave the queues alone.
pub mark_incomplete-Accounted :
    (o : OutputOverflow) (id : ℕ) (reason : Reason)
    → Accounted o
    → Accounted (mark_incomplete o id reason)
unfolding mark_incomplete
mark_incomplete-Accounted o id reason v =
    elim (Bool-cases (is_some (lookup id o.incomplete_reasons))) [
      | inl e ↦ rw e v
      | inr e ↦
          rw e (record { distinct = v.distinct; sum = v.sum; queue = v.queue; capture = v.capture })
    ]

captured-insert :
    (m : List (ℕ × ℕ)) (id n : ℕ)
    → n ≤ 2097152
    → ((j : ℕ) → get_default 0 (lookup j m) ≤ 2097152)
    → (j : ℕ) → get_default 0 (lookup j (insert id n m)) ≤ 2097152
unfolding get_default
captured-insert m id n fits v j = ground (arith, lookup-insert id j n m, v j, fits)

captured-remove :
    (m : List (ℕ × ℕ)) (id : ℕ)
    → ((j : ℕ) → get_default 0 (lookup j m) ≤ 2097152)
    → (j : ℕ) → get_default 0 (lookup j (remove id m)) ≤ 2097152
unfolding get_default
captured-remove m id v j = ground (arith, lookup-remove id j m, v j)

pub admit_chunk-Accounted :
    (o : OutputOverflow) (id bytes : ℕ) → Accounted o → Accounted (admit_chunk o id bytes).0
unfolding admit_chunk
admit_chunk-Accounted o id bytes v = elim (Bool-cases (is_some (lookup id o.incomplete_reasons))) [
  | inl marked ↦ rw marked v
  | inr free ↦
      let entered = insert id (captured o id) o.captured_bytes in
      let limits = captured-insert o.captured_bytes id (captured o id) (v.capture id) v.capture in
      elim (Bool-cases
        (ltb output_capture_max_bytes_per_invocation (sat_add (captured o id) bytes))) [
          | inl over ↦
              rw (free, over)
                (mark_incomplete-Accounted (record o { captured_bytes = entered }) id
                  capture_exceeded
                  (record {
                    distinct = v.distinct;
                    sum = v.sum;
                    queue = v.queue;
                    capture = limits;
                  }))
          | inr fits ↦
              rw (free, fits)
                (record {
                  distinct = v.distinct;
                  sum = v.sum;
                  queue = v.queue;
                  capture =
                      captured-insert entered id (sat_add (captured o id) bytes)
                        (ground (arith, fits)) limits;
                })
        ]
]

pub finish-Accounted : (o : OutputOverflow) (id : ℕ) → Accounted o → Accounted (finish o id).0
unfolding finish
finish-Accounted o id v = record {
  distinct = v.distinct;
  sum = v.sum;
  queue = v.queue;
  capture = captured-remove o.captured_bytes id v.capture;
}

events_bytes-append :
    (es fs : List OutputEvent) → events_bytes (es ++ fs) ≡ events_bytes es + events_bytes fs
events_bytes-append [] fs = omega arith
events_bytes-append (e ∷ es) fs = omega (arith, events_bytes-append es fs)

pending_le : (o : OutputOverflow) (id : ℕ) → Accounted o → events_bytes (pending o id) ≤ o.bytes
pending_le o id v =
    omega
      (arith, total-remove events_bytes id o.by_invocation v.distinct, weight-pending o id, v.sum)

-- Operations on the queue of an invocation.
pub push_back-Accounted :
    (o : OutputOverflow) (id : ℕ) (event : OutputEvent)
    → Accounted o
    → Accounted (push_back o id event).0
unfolding push_back
push_back-Accounted o id event v =
    elim (Bool-cases
      (ltb output_transient_overflow_max_bytes (sat_add o.bytes (output_event_bytes event)))) [
        | inl over ↦ rw over v
        | inr fits ↦ rw fits (
            requeued-Accounted o id (pending o id ++ (event ∷ []))
              (sat_add o.bytes (output_event_bytes event))
              (ground (arith, events_bytes-append (pending o id) (event ∷ []), fits))
              (ground (arith, fits)) v)
      ]

pub discard_pending-Accounted :
    (o : OutputOverflow) (id : ℕ) → Accounted o → Accounted (discard_pending o id)
unfolding discard_pending
discard_pending-Accounted o id v =
    unqueued-Accounted o id (o.bytes - events_bytes (pending o id))
      (omega (arith, pending_le o id v)) v

-- What is popped leaves the count; what is pushed to the front again comes back to it.
pub pop_front-Accounted :
    (o : OutputOverflow) (id : ℕ)
    → Accounted o
    → (pop_front o id ≡ none)
      ⊎ ((event : OutputEvent) × (o' : OutputOverflow) × (pop_front o id ≡ some (event, o'))
          × Accounted o'
          × (o'.bytes + output_event_bytes event ≡ o.bytes))
unfolding pop_front pop_from
pop_front-Accounted o id v = by (pending o id) refl
  where
    by :
        (es : List OutputEvent)
        → pending o id ≡ es
        → (pop_from o id es ≡ none)
          ⊎ ((event : OutputEvent) × (o' : OutputOverflow) × (pop_from o id es ≡ some (event, o'))
              × Accounted o'
              × (o'.bytes + output_event_bytes event ≡ o.bytes))
    by [] p = inl refl
    by (event ∷ []) p =
        let counted : output_event_bytes event ≤ o.bytes =
          omega (arith, pending_le o id v, ap events_bytes p) in
        inr (
          event,
          record o {
            bytes = o.bytes - output_event_bytes event;
            by_invocation = remove id o.by_invocation;
          },
          refl,
          unqueued-Accounted o id (o.bytes - output_event_bytes event)
              (omega (arith, counted, ap events_bytes p)) v,
          omega (arith, counted),
        )
    by (event ∷ next ∷ more) p =
        let counted : output_event_bytes event ≤ o.bytes =
          omega (arith, pending_le o id v, ap events_bytes p) in
        inr (
          event,
          record o {
            bytes = o.bytes - output_event_bytes event;
            by_invocation = insert id (next ∷ more) o.by_invocation;
          },
          refl,
          requeued-Accounted o id (next ∷ more) (o.bytes - output_event_bytes event)
              (omega (arith, counted, ap events_bytes p)) (omega (arith, v.queue)) v,
          omega (arith, counted),
        )

pub push_front_existing-Accounted :
    (o : OutputOverflow) (id : ℕ) (event : OutputEvent)
    → o.bytes + output_event_bytes event ≤ 65536
    → Accounted o
    → Accounted (push_front_existing o id event)
unfolding push_front_existing
push_front_existing-Accounted o id event fits v =
    requeued-Accounted o id (event ∷ pending o id) (sat_add o.bytes (output_event_bytes event))
      (ground (arith, fits)) (ground (arith, fits)) v

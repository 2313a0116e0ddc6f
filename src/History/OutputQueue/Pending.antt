-- ===== src/History/OutputQueue/Pending.antt =====
-- The queues of the overflow by invocation, after each operation.
use zodex.Common.{
  ℕ, ◌-◌, ◌≡◌, refl, ◌⊎◌, inl, inr, true, false, not, ◌&&◌, List, [], ◌∷◌, ◌++◌, Option, none, some,
  arith, ◌==◌, if◌then◌else◌, ltb, is_some, Bool-cases, sat_add,
}
use zodex.Common.Dict.{lookup, insert, remove, get_default, lookup-insert, lookup-remove}
use zodex.History.Overflow.{
  Reason, OutputEvent, OutputOverflow, pending, mark_incomplete, push_back, push_front_existing,
  pop_from, pop_front, discard_pending, output_event_bytes, events_bytes,
  output_transient_overflow_max_bytes,
}

abbrev pub reason_of : OutputOverflow → ℕ → Option Reason
reason_of o j = lookup j o.incomplete_reasons

-- After the queue of `id` has become `events`, and nothing else has changed of the queues or of
-- the reasons.
pub record Queued (o : OutputOverflow) (id : ℕ) (events : List OutputEvent) (o' : OutputOverflow)
    : Type 0 where
  pub queue : (j : ℕ) → pending o' j ≡ (if id == j then events else pending o j)
  pub reasons : (j : ℕ) → reason_of o' j ≡ reason_of o j

abbrev requeued : OutputOverflow → ℕ → List OutputEvent → ℕ → OutputOverflow
requeued o id events b = record o { bytes = b; by_invocation = insert id events o.by_invocation }

abbrev unqueued : OutputOverflow → ℕ → ℕ → OutputOverflow
unqueued o id b = record o { bytes = b; by_invocation = remove id o.by_invocation }

requeued-Queued :
    (o : OutputOverflow) (id : ℕ) (events : List OutputEvent) (b : ℕ)
    → Queued o id events (requeued o id events b)
unfolding get_default
requeued-Queued o id events b = record {
  queue = λ j. ground (arith, lookup-insert id j events o.by_invocation);
  reasons = λ j. refl;
}

unqueued-Queued : (o : OutputOverflow) (id b : ℕ) → Queued o id [] (unqueued o id b)
unfolding get_default
unqueued-Queued o id b = record {
  queue = λ j. ground (arith, lookup-remove id j o.by_invocation);
  reasons = λ j. refl;
}

pub push_front_existing-Queued :
    (o : OutputOverflow) (id : ℕ) (event : OutputEvent)
    → Queued o id (event ∷ pending o id) (push_front_existing o id event)
unfolding push_front_existing
push_front_existing-Queued o id event =
    requeued-Queued o id (event ∷ pending o id) (sat_add o.bytes (output_event_bytes event))

-- A push takes the event to the end of the queue, or is refused and changes nothing.
pub push_back-Queued :
    (o : OutputOverflow) (id : ℕ) (event : OutputEvent)
    → ((o' : OutputOverflow) × (push_back o id event ≡ (o', true))
        × Queued o id (pending o id ++ (event ∷ [])) o')
      ⊎ (push_back o id event ≡ (o, false))
unfolding push_back
push_back-Queued o id event =
    elim (Bool-cases
      (ltb output_transient_overflow_max_bytes (sat_add o.bytes (output_event_bytes event)))) [
        | inl over ↦ inr (rw over)
        | inr fits ↦
            let b = sat_add o.bytes (output_event_bytes event) in
            inl (
              requeued o id (pending o id ++ (event ∷ [])) b,
              rw fits,
              requeued-Queued o id (pending o id ++ (event ∷ [])) b,
            )
      ]

pub discard_pending-Queued : (o : OutputOverflow) (id : ℕ) → Queued o id [] (discard_pending o id)
unfolding discard_pending
discard_pending-Queued o id = unqueued-Queued o id (o.bytes - events_bytes (pending o id))

-- A pop takes the front of the queue, and fails only on an empty one.
pub pop_front-Queued :
    (o : OutputOverflow) (id : ℕ)
    → ((pop_front o id ≡ none) × (pending o id ≡ []))
      ⊎ ((event : OutputEvent) × (rest : List OutputEvent) × (o' : OutputOverflow) × (pop_front o id
            ≡ some (event, o'))
          × (pending o id ≡ event ∷ rest)
          × Queued o id rest o')
unfolding pop_front pop_from
pop_front-Queued o id = by (pending o id)
  where
    by :
        (events : List OutputEvent)
        → ((pop_from o id events ≡ none) × (events ≡ []))
          ⊎ ((event : OutputEvent) × (rest : List OutputEvent) × (o' : OutputOverflow) × (pop_from o
                  id events
                ≡ some (event, o'))
              × (events ≡ event ∷ rest)
              × Queued o id rest o')
    by [] = inl (refl, refl)
    by (event ∷ []) =
        let b = o.bytes - output_event_bytes event in
        inr (event, [], unqueued o id b, refl, refl, unqueued-Queued o id b)
    by (event ∷ next ∷ more) =
        let b = o.bytes - output_event_bytes event in
        inr (
          event,
          next ∷ more,
          requeued o id (next ∷ more) b,
          refl,
          refl,
          requeued-Queued o id (next ∷ more) b,
        )

-- The first reason of an invocation stays.
pub reason_of-mark_incomplete :
    (o : OutputOverflow) (id j : ℕ) (reason : Reason)
    → reason_of (mark_incomplete o id reason) j
      ≡ (if id == j && not (is_some (reason_of o j)) then some reason else reason_of o j)
unfolding mark_incomplete
reason_of-mark_incomplete o id j reason =
    ground (arith, lookup-insert id j reason o.incomplete_reasons)

pub pending-mark_incomplete :
    (o : OutputOverflow) (id j : ℕ) (reason : Reason)
    → pending (mark_incomplete o id reason) j ≡ pending o j
unfolding mark_incomplete
pending-mark_incomplete o id j reason = ground arith

-- ===== src/History/Overflow.antt =====
-- `OutputOverflow` of src/local/history/worker/output_queue.rs: the events that the channel did not
-- take, within their bounds.
use zodex.Common.{
  ℕ, ◌+◌, ◌-◌, ◌*◌, Bool, true, false, not, List, [], ◌∷◌, ◌++◌, Option, none, some, ltb, ◌==◌,
  if◌then◌else◌, sat_add, is_some, Bytes, length,
}
use zodex.Common.Dict.{lookup, insert, remove, get_default}

abbrev pub output_capture_max_bytes_per_invocation : ℕ
output_capture_max_bytes_per_invocation = 2 * 1024 * 1024

abbrev pub output_transient_overflow_max_bytes : ℕ
output_transient_overflow_max_bytes = 64 * 1024

-- The texts of the reasons in this file.
pub data Reason : Type 0 where
  capture_exceeded queue_saturated saturated_at_completion : Reason
  writer_unavailable completion_queue_full : Reason

pub record Chunk : Type 0 where
  pub invocation_id : ℕ
  pub agent_id : Option Bytes
  pub sequence : ℕ
  pub observed_at_ms : ℕ
  pub text : Bytes

pub data OutputEvent : Type 0 where
  chunk : Chunk → OutputEvent
  complete : ℕ → Option Bytes → OutputEvent
  incomplete : ℕ → Option Bytes → Reason → OutputEvent

unfoldable pub output_event_bytes : OutputEvent → ℕ
output_event_bytes (chunk c) = length c.text
output_event_bytes (complete _ _) = 0
output_event_bytes (incomplete _ _ _) = 0

pub record OutputOverflow : Type 0 where
  pub by_invocation : List (ℕ × List OutputEvent)
  pub bytes : ℕ
  pub captured_bytes : List (ℕ × ℕ)
  pub incomplete_reasons : List (ℕ × Reason)

abbrev pub default_overflow : OutputOverflow
default_overflow = record {
  by_invocation = [];
  bytes = 0;
  captured_bytes = [];
  incomplete_reasons = [];
}

-- The entries of an invocation, or an empty queue.
abbrev pub pending : OutputOverflow → ℕ → List OutputEvent
pending o id = get_default [] (lookup id o.by_invocation)

abbrev pub captured : OutputOverflow → ℕ → ℕ
captured o id = get_default 0 (lookup id o.captured_bytes)

unfoldable pub mark_incomplete : OutputOverflow → ℕ → Reason → OutputOverflow
mark_incomplete o id reason =
    if is_some (lookup id o.incomplete_reasons)
    then o
    else record o { incomplete_reasons = insert id reason o.incomplete_reasons }

-- `entry(..).or_default()` leaves an entry also where the chunk is refused.
unfoldable pub admit_chunk : OutputOverflow → ℕ → ℕ → OutputOverflow × Bool
admit_chunk o id event_bytes =
    if is_some (lookup id o.incomplete_reasons)
    then (o, false)
    else let entered = record o { captured_bytes = insert id (captured o id) o.captured_bytes } in
      if ltb output_capture_max_bytes_per_invocation (sat_add (captured o id) event_bytes)
      then (mark_incomplete entered id capture_exceeded, false)
      else (
        record entered {
          captured_bytes = insert id (sat_add (captured o id) event_bytes) entered.captured_bytes;
        },
        true,
      )

unfoldable pub incomplete_reason : OutputOverflow → ℕ → Option Reason
incomplete_reason o id = lookup id o.incomplete_reasons

unfoldable pub has_pending : OutputOverflow → ℕ → Bool
has_pending o id = not (length (pending o id) == 0)

unfoldable pub push_back : OutputOverflow → ℕ → OutputEvent → OutputOverflow × Bool
push_back o id event =
    let bytes = output_event_bytes event in
    if ltb output_transient_overflow_max_bytes (sat_add o.bytes bytes) then (o, false) else (
      record o {
        bytes = sat_add o.bytes bytes;
        by_invocation = insert id (pending o id ++ (event ∷ [])) o.by_invocation;
      },
      true,
    )

unfoldable pub push_front_existing : OutputOverflow → ℕ → OutputEvent → OutputOverflow
push_front_existing o id event = record o {
  bytes = sat_add o.bytes (output_event_bytes event);
  by_invocation = insert id (event ∷ pending o id) o.by_invocation;
}

-- An invocation whose queue becomes empty is removed.
unfoldable pub pop_from :
    OutputOverflow → ℕ → List OutputEvent → Option (OutputEvent × OutputOverflow)
pop_from o id [] = none
pop_from o id (event ∷ []) = some (
  event,
  record o {
    bytes = o.bytes - output_event_bytes event;
    by_invocation = remove id o.by_invocation;
  },
)
pop_from o id (event ∷ next ∷ more) = some (
  event,
  record o {
    bytes = o.bytes - output_event_bytes event;
    by_invocation = insert id (next ∷ more) o.by_invocation;
  },
)

unfoldable pub pop_front : OutputOverflow → ℕ → Option (OutputEvent × OutputOverflow)
pop_front o id = pop_from o id (pending o id)

abbrev pub events_bytes : List OutputEvent → ℕ
events_bytes [] = 0
events_bytes (event ∷ events) = output_event_bytes event + events_bytes events

unfoldable pub discard_pending : OutputOverflow → ℕ → OutputOverflow
discard_pending o id = record o {
  bytes = o.bytes - events_bytes (pending o id);
  by_invocation = remove id o.by_invocation;
}

unfoldable pub finish : OutputOverflow → ℕ → OutputOverflow × Option Reason
finish o id = (
  record o {
    captured_bytes = remove id o.captured_bytes;
    incomplete_reasons = remove id o.incomplete_reasons;
  },
  lookup id o.incomplete_reasons,
)

-- ===== src/Watch/Records.antt =====
-- src/local/watch/cards.rs, src/local/presentation/model.rs: the records that cards show, and how the
-- record of a poll is merged into an aggregate. An `i64` is kept with 2 ^ 63 added to it, in the
-- same order. What a card only shows is left out of a record.
use zodex.Common.{
  ℕ, ◌^◌, Bool, true, false, ◌&&◌, ◌||◌, List, [], ◌∷◌, ◌++◌, Option, none, some, ltb, leb, ◌==◌,
  if◌then◌else◌, is_none, sat_add, length, Bytes, bytes, eq_bytes,
}

abbrev pub i64_zero : ℕ
i64_zero = 2 ^ 63

pub record Poll : Type 0 where
  pub target_session_handle : Bytes
  pub count : ℕ
  pub final_status : Option Bytes
  pub creator_agent_id : Option Bytes
  pub caller_agent_ids : List Bytes
  pub cross_agent : Bool

-- `PresentationKind`: only the aggregates of polls are told from the others.
pub data Kind : Type 0 where
  poll_aggregate : Poll → Kind
  other_kind : Kind

pub record Evidence : Type 0 where
  pub evidence_state : Bytes
  pub capture_state : Bytes
  pub degraded : Bool
  pub reason : Option Bytes

pub record PresentationRecord : Type 0 where
  pub presentation_id : Bytes
  pub primary_invocation_id : ℕ
  pub raw_invocation_ids : List ℕ
  pub raw_evidence_count : ℕ
  pub raw_invocation_ids_truncated : Bool
  pub agent_id : Option Bytes
  pub started_at_ms : ℕ
  pub duration_ms : Option ℕ
  pub kind : Kind
  pub evidence : Evidence

pub record WatchCard : Type 0 where
  pub key : Bytes
  pub record_ : PresentationRecord

unfoldable pub selected_invocation_id : WatchCard → Option ℕ
selected_invocation_id card =
    if ltb i64_zero card.record_.primary_invocation_id
    then some card.record_.primary_invocation_id
    else none

abbrev pub eq_option : Option Bytes → Option Bytes → Bool
eq_option none none = true
eq_option (some a) (some b) = eq_bytes a b
eq_option _ _ = false

abbrev pub mem : ℕ → List ℕ → Bool
mem i [] = false
mem i (j ∷ ids) = i == j || mem i ids

abbrev pub any_in : List ℕ → List ℕ → Bool
any_in [] ids = false
any_in (i ∷ more) ids = mem i ids || any_in more ids

unfoldable pub raw_samples_overlap : PresentationRecord → PresentationRecord → Bool
raw_samples_overlap left right = any_in left.raw_invocation_ids right.raw_invocation_ids

abbrev pub sample_limit : ℕ
sample_limit = 32

abbrev pub maximum : List ℕ → Option ℕ
maximum [] = none
maximum (i ∷ ids) = elim (maximum ids) [ none ↦ some i | some j ↦ some (if ltb i j then j else i) ]

unfoldable pub latest_sample_id : PresentationRecord → ℕ
latest_sample_id r = elim (maximum r.raw_invocation_ids) [ none ↦ i64_zero | some i ↦ i ]

-- `sort_unstable`
abbrev pub insert_sorted : ℕ → List ℕ → List ℕ
insert_sorted i [] = i ∷ []
insert_sorted i (j ∷ ids) =
    let rest = insert_sorted i ids in if leb i j then i ∷ j ∷ ids else j ∷ rest

abbrev pub sort_ids : List ℕ → List ℕ
sort_ids [] = []
sort_ids (i ∷ ids) = insert_sorted i (sort_ids ids)

-- The loop over the incoming ids, up to the limit of the sample.
abbrev pub add_samples : List ℕ → List ℕ → List ℕ
add_samples ids [] = ids
add_samples ids (i ∷ incoming) =
    let same = add_samples ids incoming in
    let more = add_samples (ids ++ i ∷ []) incoming in
    if leb sample_limit (length ids) then ids else if mem i ids then same else more

abbrev pub mem_bytes : Bytes → List Bytes → Bool
mem_bytes b [] = false
mem_bytes b (c ∷ more) = eq_bytes c b || mem_bytes b more

abbrev pub add_callers : List Bytes → List Bytes → List Bytes
add_callers callers [] = callers
add_callers callers (c ∷ incoming) =
    add_callers (if mem_bytes c callers then callers else callers ++ c ∷ []) incoming

unfoldable pub merge_evidence_state : Bytes → Bytes → Bytes
merge_evidence_state existing incoming =
    if eq_bytes existing (bytes "incomplete") || eq_bytes incoming (bytes "incomplete")
    then bytes "incomplete"
    else if eq_bytes existing (bytes "pending") || eq_bytes incoming (bytes "pending")
    then bytes "pending"
    else bytes "complete"

unfoldable pub merge_capture_state : Bytes → Bytes → Bytes
merge_capture_state existing incoming =
    if eq_bytes existing (bytes "incomplete") || eq_bytes incoming (bytes "incomplete")
    then bytes "incomplete"
    else if eq_bytes existing (bytes "pending") || eq_bytes incoming (bytes "pending")
    then bytes "pending"
    else if eq_bytes existing (bytes "complete") || eq_bytes incoming (bytes "complete")
    then bytes "complete"
    else bytes "not_applicable"

unfoldable pub merge_evidence : Evidence → Evidence → Evidence
merge_evidence existing incoming = record {
  evidence_state = merge_evidence_state existing.evidence_state incoming.evidence_state;
  capture_state = merge_capture_state existing.capture_state incoming.capture_state;
  degraded = existing.degraded || incoming.degraded;
  reason = if is_none existing.reason then incoming.reason else existing.reason;
}

-- The order of the pairs of a time and an id.
abbrev pub later_than : ℕ × ℕ → ℕ × ℕ → Bool
later_than (a, i) (b, j) = ltb b a || (a == b && ltb j i)

unfoldable pub merge_poll : Bool → Poll → Poll → Poll
merge_poll newer existing incoming = record existing {
  final_status = if newer then incoming.final_status else existing.final_status;
  creator_agent_id =
      if is_none existing.creator_agent_id
      then incoming.creator_agent_id
      else existing.creator_agent_id;
  caller_agent_ids = add_callers existing.caller_agent_ids incoming.caller_agent_ids;
  cross_agent = existing.cross_agent || incoming.cross_agent;
}

-- The counts and the sample, unless the detail was merged before.
unfoldable pub merge_counts : PresentationRecord → PresentationRecord → Poll → PresentationRecord
merge_counts existing incoming poll =
    let total = sat_add existing.raw_evidence_count incoming.raw_evidence_count in
    let ids = sort_ids (add_samples existing.raw_invocation_ids incoming.raw_invocation_ids) in
    record existing {
      raw_evidence_count = total;
      kind = poll_aggregate (record poll { count = total });
      raw_invocation_ids = ids;
      raw_invocation_ids_truncated = ltb (length ids) total;
    }

abbrev pub merge_kinds :
    PresentationRecord → PresentationRecord → Bool → Kind → Kind → PresentationRecord
merge_kinds existing incoming duplicate_detail (poll_aggregate poll) (poll_aggregate poll') =
    let newer =
      later_than (incoming.started_at_ms, latest_sample_id incoming)
        (existing.started_at_ms, latest_sample_id existing) in
    let merged = merge_poll newer poll poll' in
    let dated = record existing {
      started_at_ms = if newer then incoming.started_at_ms else existing.started_at_ms;
      duration_ms = if newer then incoming.duration_ms else existing.duration_ms;
      kind = poll_aggregate merged;
      evidence = merge_evidence existing.evidence incoming.evidence;
    } in
    if duplicate_detail then dated else merge_counts dated incoming merged
merge_kinds existing incoming duplicate_detail _ _ = existing

unfoldable pub merge_legacy_poll_record :
    PresentationRecord → PresentationRecord → Bool → PresentationRecord
merge_legacy_poll_record existing incoming duplicate_detail =
    merge_kinds existing incoming duplicate_detail existing.kind incoming.kind

abbrev pub is_poll : Kind → Bool
is_poll (poll_aggregate poll) = true
is_poll other_kind = false

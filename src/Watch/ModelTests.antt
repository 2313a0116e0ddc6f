-- ===== src/Watch/ModelTests.antt =====
-- Runs of the watch of src/local/watch/model.rs and its cards, and their theorems at them.
use zodex.Common.{ℕ, ◌+◌, ◌≡◌, refl, true, false, List, [], ◌∷◌, none, some, arith, Bytes, bytes}
use zodex.Watch.Records.{
  i64_zero, PresentationRecord, WatchCard, poll_aggregate, other_kind, Evidence,
  raw_samples_overlap, merge_legacy_poll_record, merge_poll, merge_counts, latest_sample_id,
  merge_evidence, merge_evidence_state, merge_capture_state,
}
use zodex.Watch.Cards.{
  merge_record, merge_card, merge_same, merge_legacy, add_card, legacy_poll, sort_cards,
}
use zodex.Watch.Cards.Keys.{InOrder, merge_record-InOrder}
use zodex.Watch.State.{ApiAgent, enter, open_picker, move, WatchOptions}
use zodex.Watch.View.{Display}
use zodex.Watch.Model.{Call, key, agents_arrive, records_arrive, cycled, Watch, run, started}
use zodex.Watch.Model.Run.{IsSound, run-IsSound}

abbrev no_evidence : Evidence
no_evidence = record {
  evidence_state = bytes "complete";
  capture_state = bytes "pending";
  degraded = false;
  reason = none;
}

abbrev command : Bytes → ℕ → PresentationRecord
command id time = record {
  presentation_id = id;
  primary_invocation_id = i64_zero + time;
  raw_invocation_ids = (i64_zero + time) ∷ [];
  raw_evidence_count = 1;
  raw_invocation_ids_truncated = false;
  agent_id = some (bytes "ab12");
  started_at_ms = i64_zero + time;
  duration_ms = none;
  kind = other_kind;
  evidence = no_evidence;
}

abbrev polled : Bytes → ℕ → PresentationRecord
polled id time = record (command id time) {
  kind = poll_aggregate (record {
    target_session_handle = bytes "s";
    count = 1;
    final_status = none;
    creator_agent_id = none;
    caller_agent_ids = [];
    cross_agent = false;
  });
}

abbrev card_of : PresentationRecord → WatchCard
card_of r = record { key = r.presentation_id; record_ = r }

abbrev two_cards : List WatchCard
two_cards = card_of (command (bytes "a") 1) ∷ card_of (polled (bytes "p") 3) ∷ []

-- Polls of one session are counted on one card, which moves to its latest time.
polls-merged :
    merge_record two_cards (polled (bytes "q") 5) false
    ≡ card_of (command (bytes "a") 1)
      ∷ (record {
        key = bytes "p";
        record_ = record (polled (bytes "p") 5) {
          primary_invocation_id = i64_zero + 3;
          raw_invocation_ids = (i64_zero + 3) ∷ (i64_zero + 5) ∷ [];
          raw_evidence_count = 2;
          kind = poll_aggregate (record {
            target_session_handle = bytes "s";
            count = 2;
            final_status = none;
            creator_agent_id = none;
            caller_agent_ids = [];
            cross_agent = false;
          });
        };
      })
      ∷ []
unfolding merge_record merge_card merge_same merge_legacy add_card legacy_poll sort_cards
    raw_samples_overlap merge_legacy_poll_record merge_poll merge_counts latest_sample_id
    merge_evidence merge_evidence_state merge_capture_state
polls-merged = refl

merge_record-InOrder_example : InOrder (merge_record two_cards (polled (bytes "q") 5) false)
merge_record-InOrder_example =
    merge_record-InOrder two_cards (polled (bytes "q") 5) false
      (record { distinct = (refl, (refl, tt)); sorted = (refl, (tt, tt)); bounded = omega arith })

abbrev shown : Display
shown = record { strip_str = λ text. text; to_string = λ r. r.presentation_id }

abbrev agent : Bytes → ApiAgent
agent id = record { id = id; workdirs = [] }

abbrev session : List Call
session =
    agents_arrive (agent (bytes "ab12") ∷ agent (bytes "cd34") ∷ [])
    ∷ records_arrive (command (bytes "a") 1 ∷ command (bytes "b") 2 ∷ [])
    ∷ key (move (record { negative = false; size = 1 }))
    ∷ key enter
    ∷ cycled [] true
    ∷ key open_picker
    ∷ key enter
    ∷ []

abbrev by_itself : WatchOptions
by_itself = record { agent = none; all = false }

run-IsSound_example :
    (w : Watch) × (run shown session (started [] 0 by_itself) ≡ some w) × IsSound shown w
run-IsSound_example = run-IsSound shown session [] 0 by_itself

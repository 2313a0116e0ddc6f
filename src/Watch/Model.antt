-- ===== src/Watch/Model.antt =====
-- src/local/watch/model.rs, src/local/watch/mod.rs: the watch under keys, events and answers, and
-- its subscription.
pub mod Valid
pub mod Follows
pub mod Events
pub mod Cycling
pub mod Answers
pub mod Moves
pub mod Inputs
pub mod Run
use zodex.Common.{
  ℕ, zero, suc, ◌+◌, ◌-◌, ◌*◌, ◌%◌, ◌^◌, Bool, true, false, not, ◌&&◌, ◌||◌, List, [], ◌∷◌, ◌++◌,
  Option, none, some, ltb, leb, ◌==◌, if◌then◌else◌, is_some, is_none, min, length, drop, get_elem?,
  Bytes, bytes, eq_bytes,
}
use zodex.Common.Ascii.{to_ascii_lowercase}
use zodex.Common.Dict.{lookup, insert, remove, get_default}
use zodex.Watch.Records.{
  PresentationRecord, WatchCard, selected_invocation_id, eq_option, mem, mem_bytes,
}
use zodex.Watch.Cards.{merge_record}
use zodex.Watch.State.{
  stream_filter, new, ApiAgent, WatchOptions, WatchEffect, WatchInput, Detail, LiveEvent, WatchApp,
  connecting, resubscribe,
}
use zodex.Watch.View.{Display}
use zodex.Watch.Arrivals.{
  set_connected, set_degraded, set_recovered, set_agents, should_process_live_event,
  set_status_active_process_count, note_live_event, cache_detail, merge_detail, merge_presentation,
  append_live_output,
}
use zodex.Watch.Input.{cycle_agents_after_refresh, apply_input}

-- What happens to the watch: a key, an event, an answer to a request.
pub data Call : Type 0 where
  connect : Call
  degrade : Bytes → Call
  recover : Bytes → ℕ → Call
  agents_arrive : List ApiAgent → Call
  event_arrives : LiveEvent → ℕ → Call
  count_arrives : ℕ → Call
  detail_arrives : Detail → Call
  detail_cached : Detail → Call
  records_arrive : List PresentationRecord → Call
  output_arrives : ℕ → Bytes → Call
  key : WatchInput → Call
  cycled : List ApiAgent → Bool → Call

module _ (display : Display) where
  -- An event that is not to be processed leaves the watch as the test left it.
  unfoldable pub event_call : LiveEvent → ℕ → WatchApp × Bool → WatchApp × List WatchEffect
  event_call event now (app, false) = (app, [])
  event_call event now (app, true) = note_live_event display event now app

  unfoldable pub call : Call → WatchApp → Option (WatchApp × List WatchEffect)
  call connect app = some (set_connected display app, [])
  call (degrade message) app = some (set_degraded display message app, [])
  call (recover message now) app = some (set_recovered display message now app, [])
  call (agents_arrive agents) app = some (set_agents display agents app)
  call (event_arrives event now) app =
      some (event_call event now (should_process_live_event display event app))
  call (count_arrives count) app = some (set_status_active_process_count display count app, [])
  call (detail_arrives detail) app = some (merge_detail display detail app, [])
  call (detail_cached detail) app = some (cache_detail display detail app, [])
  call (records_arrive records) app = some (merge_presentation display records app, [])
  call (output_arrives id text) app = some (append_live_output display id text app, [])
  call (key input) app = apply_input display input app
  -- The effects of the agents' arrival are dropped here.
  call (cycled agents negative) app =
      cycle_agents_after_refresh display negative (set_agents display agents app).0

-- The watch, and what it is subscribed to.
pub record Watch : Type 0 where
  pub app : WatchApp
  pub subscription : Option Bytes

-- `apply_effects` takes the last effect first. Those that ask for agents, or for the next agent, are
-- followed by a call of their own.
unfoldable pub perform : List WatchEffect → Watch → Watch
perform [] w = w
perform (resubscribe filter ∷ effects) w =
    let later = perform effects w in
    record { app = record later.app { connection = connecting }; subscription = filter }
perform (effect ∷ effects) w = perform effects w

unfoldable pub started : List ApiAgent → ℕ → WatchOptions → Watch
started agents count options =
    let app = new agents count options in record { app = app; subscription = stream_filter app }

abbrev pub performed : Watch → Option (WatchApp × List WatchEffect) → Option Watch
performed w none = none
performed w (some (app, effects)) = some (perform effects (record w { app = app }))

unfoldable pub run : Display → List Call → Watch → Option Watch
run display [] w = some w
run display (c ∷ calls) w = elim (performed w (call display c w.app)) [
  | none ↦ none
  | some w' ↦ run display calls w'
]

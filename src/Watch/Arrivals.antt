-- ===== src/Watch/Arrivals.antt =====
-- src/local/watch/model.rs: what the answers and the events of a runtime do to the watch.
-- Times are numbers.
use zodex.Common.{
  ℕ, ◌+◌, ◌-◌, Bool, true, false, not, ◌&&◌, ◌||◌, List, [], ◌∷◌, ◌++◌, Option, none, some, ltb,
  leb, if◌then◌else◌, is_some, is_none, min, length, drop, Bytes, bytes, eq_bytes,
}
use zodex.Common.Dict.{lookup, insert, remove, get_default}
use zodex.Local.Quantity.{decimal}
use zodex.Local.Sanitize.{sanitize_display_text}
use zodex.Watch.Records.{Kind, poll_aggregate, other_kind, PresentationRecord, WatchCard, eq_option}
use zodex.Watch.Cards.{merge_record}
use zodex.Watch.State.{
  max_live_output_chars, transient_notice_duration, automatic_scope_for_agents, is_picker,
  is_waiting, same_scope, stream_filter, reset_selection, default_picker_index, ApiAgent,
  WatchScope, LiveOutput, WatchEffect, Detail, LiveEvent, WatchApp, unattributed, agent_scope,
  connected, degraded, refresh_agents, resubscribe,
}
use zodex.Watch.View.{clamp_selection, Display}

unfoldable pub gap_message : Option ℕ → Bytes
gap_message skipped_events =
    bytes "live event gap ("
    ++ decimal (get_default 0 skipped_events)
    ++ bytes " skipped); recovering from durable history"

module _ (strip_str : Bytes → Bytes) where
  abbrev pub sanitize_option : Option Bytes → Option Bytes
  sanitize_option none = none
  sanitize_option (some value) = some (sanitize_display_text strip_str value)

  abbrev pub sanitize_callers : List Bytes → List Bytes
  sanitize_callers [] = []
  sanitize_callers (caller ∷ callers) =
      sanitize_display_text strip_str caller ∷ sanitize_callers callers

  abbrev pub sanitize_kind : Kind → Kind
  sanitize_kind (poll_aggregate poll) = poll_aggregate (record poll {
    target_session_handle = sanitize_display_text strip_str poll.target_session_handle;
    final_status = sanitize_option poll.final_status;
    creator_agent_id = sanitize_option poll.creator_agent_id;
    caller_agent_ids = sanitize_callers poll.caller_agent_ids;
  })
  sanitize_kind other_kind = other_kind

  unfoldable pub sanitize_record_for_terminal : PresentationRecord → PresentationRecord
  sanitize_record_for_terminal r = record r {
    agent_id = sanitize_option r.agent_id;
    evidence = record r.evidence {
      evidence_state = sanitize_display_text strip_str r.evidence.evidence_state;
      capture_state = sanitize_display_text strip_str r.evidence.capture_state;
      reason = sanitize_option r.evidence.reason;
    };
    kind = sanitize_kind r.kind;
  }

module _ (display : Display) where
  open display use {strip_str}

  unfoldable pub set_connected : WatchApp → WatchApp
  set_connected app = record app { connection = connected }

  unfoldable pub set_degraded : Bytes → WatchApp → WatchApp
  set_degraded message app = record app {
    connection = degraded (sanitize_display_text strip_str message);
  }

  unfoldable pub set_recovered : Bytes → ℕ → WatchApp → WatchApp
  set_recovered message now app = record app {
    connection = connected;
    recovery_notice = some (sanitize_display_text strip_str message);
    recovery_notice_expires_at = some (now + transient_notice_duration);
  }

  abbrev pub sanitize_workdirs : List Bytes → List Bytes
  sanitize_workdirs [] = []
  sanitize_workdirs (workdir ∷ workdirs) =
      sanitize_display_text strip_str workdir ∷ sanitize_workdirs workdirs

  unfoldable pub sanitize_agents_for_terminal : List ApiAgent → List ApiAgent
  sanitize_agents_for_terminal [] = []
  sanitize_agents_for_terminal (agent ∷ agents) =
      (record agent { workdirs = sanitize_workdirs agent.workdirs })
      ∷ sanitize_agents_for_terminal agents

  abbrev pub eq_filter : Option Bytes → Option Bytes → Bool
  eq_filter = eq_option

  -- The scope, the picker and the selection after new agents have come.
  unfoldable pub rescoped : List ApiAgent → WatchApp → WatchApp
  rescoped agents app =
      let scope =
        if app.automatic_scope && is_waiting app.scope
        then automatic_scope_for_agents agents
        else app.scope in
      let picked =
        if is_waiting app.scope && is_picker scope
        then default_picker_index agents
        else min app.picker_index (length agents) in
      let app' = record app { agents = agents; scope = scope; picker_index = picked } in
      if same_scope scope app.scope then app' else reset_selection app'

  unfoldable pub set_agents : List ApiAgent → WatchApp → WatchApp × List WatchEffect
  set_agents agents app =
      let app' = rescoped (sanitize_agents_for_terminal agents) app in
      if eq_filter (stream_filter app') (stream_filter app)
      then (app', [])
      else (app', resubscribe (stream_filter app') ∷ [])

  unfoldable pub is_type : LiveEvent → Bytes → Bool
  is_type event name = eq_bytes event.event_type name

  abbrev pub event_in_scope : WatchScope → LiveEvent → Bool
  event_in_scope (agent_scope id) event = eq_option event.agent_id (some id)
  event_in_scope _ event = true

  unfoldable pub should_process_live_event : LiveEvent → WatchApp → WatchApp × Bool
  should_process_live_event event app =
      let control_event = not (is_type event (bytes "output")) in
      let in_scope = is_type event (bytes "gap") || event_in_scope app.scope event in
      if control_event && leb event.sequence app.last_live_sequence
      then (app, false)
      else if in_scope && control_event
      then (record app { last_live_sequence = event.sequence }, in_scope)
      else (app, in_scope)

  unfoldable pub set_status_active_process_count : ℕ → WatchApp → WatchApp
  set_status_active_process_count count app = record app { status_active_process_count = count }

  unfoldable pub note_workdir : ℕ → Option Bytes → WatchApp → WatchApp
  note_workdir now none app = app
  note_workdir now (some path) app = record app {
    new_workdir_notice = some (sanitize_display_text strip_str path);
    new_workdir_notice_expires_at = some (now + transient_notice_duration);
  }

  unfoldable pub note_count : Option ℕ → WatchApp → WatchApp
  note_count none app = app
  note_count (some count) app = record app { status_active_process_count = count }

  -- What an event of no agent does to a watch that waits.
  unfoldable pub note_unattributed : LiveEvent → WatchApp → WatchApp
  note_unattributed event app =
      if app.automatic_scope
        && is_waiting app.scope
        && is_none event.agent_id
        && is_some event.invocation_id
      then reset_selection (record app { scope = unattributed })
      else app

  unfoldable pub note_type : LiveEvent → ℕ → WatchApp → WatchApp × List WatchEffect
  note_type event now app =
      if is_type event (bytes "agent_first_seen")
      then (app, refresh_agents ∷ [])
      else if is_type event (bytes "agent_workdir_added")
      then (note_workdir now event.normalized_workdir app, refresh_agents ∷ [])
      else if is_type event (bytes "process_started") || is_type event (bytes "process_ended")
      then (note_count event.active_process_count app, refresh_agents ∷ [])
      else (app, [])

  unfoldable pub note_live_event : LiveEvent → ℕ → WatchApp → WatchApp × List WatchEffect
  note_live_event event now app =
      if is_type event (bytes "gap")
      then (set_degraded (gap_message event.skipped_events) app, refresh_agents ∷ [])
      else note_type event now (note_unattributed event app)

  unfoldable pub merge_records : Bool → List PresentationRecord → List WatchCard → List WatchCard
  merge_records duplicate_detail [] cards = cards
  merge_records duplicate_detail (r ∷ records) cards =
      merge_records duplicate_detail records
        (merge_record cards (sanitize_record_for_terminal strip_str r) duplicate_detail)

  abbrev pub remove_outputs :
      List PresentationRecord → List (ℕ × LiveOutput) → List (ℕ × LiveOutput)
  remove_outputs [] outputs = outputs
  remove_outputs (r ∷ records) outputs =
      remove_outputs records
        (remove (sanitize_record_for_terminal strip_str r).primary_invocation_id outputs)

  unfoldable pub cache_detail : Detail → WatchApp → WatchApp
  cache_detail detail app = record app { details = insert detail.invocation_id detail app.details }

  unfoldable pub merge_detail : Detail → WatchApp → WatchApp
  merge_detail detail app =
      let duplicate_detail = is_some (lookup detail.invocation_id app.details) in
      clamp_selection display (record app {
        cards = merge_records duplicate_detail detail.records app.cards;
        live_output = remove detail.invocation_id app.live_output;
        details = insert detail.invocation_id detail app.details;
      })

  -- The records of a presentation, or the one record of the timeline.
  unfoldable pub merge_presentation : List PresentationRecord → WatchApp → WatchApp
  merge_presentation records app = clamp_selection display (record app {
    cards = merge_records false records app.cards;
    live_output = remove_outputs records app.live_output;
  })

  abbrev pub merge_timeline_record : PresentationRecord → WatchApp → WatchApp
  merge_timeline_record r app = merge_presentation (r ∷ []) app

  unfoldable pub append_output : Bytes → LiveOutput → LiveOutput
  append_output text output =
      let joined = output.text ++ sanitize_display_text strip_str text in
      let count = length joined in
      if ltb max_live_output_chars count
      then record { text = drop (count - max_live_output_chars) joined; truncated = true }
      else record output { text = joined }

  unfoldable pub append_live_output : ℕ → Bytes → WatchApp → WatchApp
  append_live_output id text app =
      let output =
        get_default (record { text = []; truncated = false }) (lookup id app.live_output) in
      record app { live_output = insert id (append_output text output) app.live_output }

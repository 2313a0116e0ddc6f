-- ===== src/Watch/Model/Events.antt =====
-- What is subscribed to follows the scope through the events of a runtime.
use zodex.Common.{
  ℕ, ◌≡◌, refl, inl, inr, Bool, true, false, not, ◌&&◌, List, [], ◌∷◌, Option, none, some, arith,
  if◌then◌else◌, ◌||◌, is_none, is_some, leb, bytes, Bool-cases, Bytes,
}
use zodex.Watch.State.{
  WatchScope, waiting, unattributed, WatchEffect, refresh_agents, LiveEvent, WatchApp, scope_filter,
  is_waiting, stream_filter,
}
use zodex.Watch.View.{Display}
use zodex.Watch.Arrivals.{
  gap_message, is_type, event_in_scope, set_degraded, should_process_live_event, note_workdir,
  note_count, note_unattributed, note_type, note_live_event,
}
use zodex.Watch.Model.{event_call}
use zodex.Watch.Model.Valid.{IsValid, reset-IsValid}
use zodex.Watch.Model.Follows.{Good, same-Good, if-Good, unchanged-Good, refresh-Good, then-Good}

module _ (display : Display) where
  note_workdir-Good :
      (now : ℕ) (path : Option Bytes) (app : WatchApp)
      → IsValid display app
      → Good display app (note_workdir display now path app, [])
  unfolding note_workdir
  note_workdir-Good now none app v = unchanged-Good display app v
  note_workdir-Good now (some path) app v =
      same-Good display app _ v v.picker_there (omega arith) v.scrolled v.clean refl refl refl

  note_count-Good :
      (count : Option ℕ) (app : WatchApp)
      → IsValid display app
      → Good display app (note_count display count app, [])
  unfolding note_count
  note_count-Good none app v = unchanged-Good display app v
  note_count-Good (some count) app v =
      same-Good display app _ v v.picker_there (omega arith) v.scrolled v.clean refl refl refl

  note_type-Good :
      (event : LiveEvent) (now : ℕ) (app : WatchApp)
      → IsValid display app
      → Good display app (note_type display event now app)
  unfolding note_type
  note_type-Good event now app v =
      let workdir = note_workdir display now event.normalized_workdir app in
      let counted = note_count display event.active_process_count app in
      let ended : WatchApp × List WatchEffect =
        if is_type display event (bytes "process_started")
          || is_type display event (bytes "process_ended")
        then (counted, refresh_agents ∷ [])
        else (app, []) in
      let added : WatchApp × List WatchEffect =
        if is_type display event (bytes "agent_workdir_added")
        then (workdir, refresh_agents ∷ [])
        else ended in
      if-Good display app (is_type display event (bytes "agent_first_seen"))
        (app, refresh_agents ∷ []) added
        (refresh-Good display app app (unchanged-Good display app v))
        (if-Good display app (is_type display event (bytes "agent_workdir_added"))
          (workdir, refresh_agents ∷ []) ended
          (refresh-Good display app workdir (note_workdir-Good now event.normalized_workdir app v))
          (if-Good display app
            (is_type display event (bytes "process_started")
              || is_type display event (bytes "process_ended"))
            (counted, refresh_agents ∷ []) (app, [])
            (refresh-Good display app counted (note_count-Good event.active_process_count app v))
            (unchanged-Good display app v)))

  is_waiting-filter : (scope : WatchScope) → is_waiting scope ≡ true → scope_filter scope ≡ none
  is_waiting-filter waiting h = refl
  is_waiting-filter _ h = cc

  unattributed-Good :
      (event : LiveEvent) (app : WatchApp)
      → IsValid display app
      → Good display app (note_unattributed display event app, [])
  unfolding note_unattributed
  unattributed-Good event app v =
      elim (Bool-cases (
        app.automatic_scope
        && is_waiting app.scope
        && is_none event.agent_id
        && is_some event.invocation_id)) [
          | inr other ↦ simp other (unchanged-Good display app v)
          | inl comes ↦ simp comes (record {
            valid =
                reset-IsValid display app (record app { scope = unattributed }) v v.picker_there
                  v.clean v.in_order;
            follows = unfold stream_filter in is_waiting-filter app.scope (ground arith);
          })
        ]

  note_live_event-Good :
      (event : LiveEvent) (now : ℕ) (app : WatchApp)
      → IsValid display app
      → Good display app (note_live_event display event now app)
  unfolding note_live_event set_degraded
  note_live_event-Good event now app v =
      let told = set_degraded display (gap_message event.skipped_events) app in
      let middle = note_unattributed display event app in
      let u = unattributed-Good event app v in
      if-Good display app (is_type display event (bytes "gap")) (told, refresh_agents ∷ [])
        (note_type display event now middle)
        (refresh-Good display app told (
          same-Good display app told v v.picker_there (omega arith) v.scrolled v.clean refl refl
            refl))
        (then-Good display app middle _ u (note_type-Good event now middle u.valid))

  if-Good-first :
      (app : WatchApp) (test : Bool) (x y : WatchApp × Bool)
      → Good display app (x.0, [])
      → Good display app (y.0, [])
      → Good display app ((if test then x else y).0, [])
  if-Good-first app true x y h k = h
  if-Good-first app false x y h k = k

  pub should_process-Good :
      (event : LiveEvent) (app : WatchApp)
      → IsValid display app
      → Good display app ((should_process_live_event display event app).0, [])
  unfolding should_process_live_event
  should_process-Good event app v =
      let control_event = not (is_type display event (bytes "output")) in
      let in_scope =
        is_type display event (bytes "gap") || event_in_scope display app.scope event in
      let seen = record app { last_live_sequence = event.sequence } in
      let s =
        same-Good display app seen v v.picker_there (omega arith) v.scrolled v.clean refl refl
          refl in
      if-Good-first app (control_event && leb event.sequence app.last_live_sequence) (app, false)
        (if in_scope && control_event then (seen, in_scope) else (app, in_scope))
        (unchanged-Good display app v)
        (if-Good-first app (in_scope && control_event) (seen, in_scope) (app, in_scope) s
          (unchanged-Good display app v))

  pub event_call-Good :
      (event : LiveEvent) (now : ℕ) (app : WatchApp) (r : WatchApp × Bool)
      → Good display app (r.0, [])
      → Good display app (event_call display event now r)
  unfolding event_call
  event_call-Good event now app (middle, false) g = g
  event_call-Good event now app (middle, true) g =
      then-Good display app middle _ g (note_live_event-Good event now middle g.valid)

-- ===== src/Watch/Model/Inputs.antt =====
-- Each key, event and answer keeps the invariant of the watch, and its subscription.
use zodex.Common.{
  ℕ, zero, suc, ◌-◌, ◌≤◌, ◌≡◌, refl, Bool, true, false, List, [], ◌∷◌, Option, none, some, arith,
  if◌then◌else◌, length, Bytes,
}
use zodex.Watch.Records.{WatchCard}
use zodex.Watch.State.{
  picker, all_agents, WatchEffect, copy, WatchInput, quit_key, move, enter, cycle, open_picker,
  toggle_raw, copy_key, top, bottom, start_search, WatchApp, is_picker, stream_filter, u16_mod,
}
use zodex.Watch.View.{selected_card, Display, visible_cards, detail_mode}
use zodex.Watch.Arrivals.{
  set_connected, set_degraded, set_recovered, set_status_active_process_count, cache_detail,
}
use zodex.Watch.Input.{
  toggle_expanded, copy_effects, copy_text_for, choose_at, choose_picker, apply_enter, picker_start,
  apply_search_input, apply_key, apply_input,
}
use zodex.Watch.Model.{
  connect, degrade, recover, agents_arrive, event_arrives, count_arrives, detail_arrives,
  detail_cached, records_arrive, output_arrives, key, cycled, Call, call,
}
use zodex.Watch.Model.Valid.{IsValid, reset-IsValid}
use zodex.Watch.Model.Follows.{Good, same-Good, set_agents-Good, unchanged-Good}
use zodex.Watch.Model.Cycling.{scoped_to-Good, cycled-Good}
use zodex.Watch.Model.Events.{should_process-Good, event_call-Good}
use zodex.Watch.Model.Answers.{merge_detail-Good, merge_presentation-Good, append_live_output-Good}
use zodex.Watch.Model.Moves.{
  if-app-Good, selecting-Good, scrolling-Good, apply_move-Good, picker_start-le, apply_search-Good,
}

module _ (display : Display) where
  -- A call that ends without a panic, and well.
  abbrev pub Ends : WatchApp → Option (WatchApp × List WatchEffect) → Type 0
  Ends app result = (r : WatchApp × List WatchEffect) × (result ≡ some r) × Good display app r

  ends : (app : WatchApp) (r : WatchApp × List WatchEffect) → Good display app r → Ends app (some r)
  ends app r g = (r, refl, g)

  if-Ends :
      (app : WatchApp) (test : Bool) (x y : Option (WatchApp × List WatchEffect))
      → Ends app x
      → Ends app y
      → Ends app (if test then x else y)
  if-Ends app true x y h k = h
  if-Ends app false x y h k = k

  choose_at-Ends :
      (index : ℕ) (app : WatchApp)
      → IsValid display app
      → index ≤ length app.agents
      → Ends app (choose_at display index app)
  choose_at-Ends zero app v h = ends app _ (record {
    valid =
        reset-IsValid display app (record app { scope = all_agents }) v v.picker_there v.clean
          v.in_order;
    follows = unfold stream_filter in refl;
  })
  choose_at-Ends (suc index) app v h = scoped_to-Good display app app index v (omega arith)

  copy_effects-Good :
      (app : WatchApp) (found : Option WatchCard)
      → IsValid display app
      → Good display app (app, copy_effects display app found)
  copy_effects-Good app none v = unchanged-Good display app v
  copy_effects-Good app (some card) v =
      elim (copy_text_for display app card)
        as (λ t. Good display app (app, elim t [ none ↦ [] | some text ↦ copy text ∷ [] ])) [
          | none ↦ unchanged-Good display app v
          | some text ↦ record { valid = v; follows = refl }
        ]

  apply_enter-Ends : (app : WatchApp) → IsValid display app → Ends app (apply_enter display app)
  unfolding apply_enter choose_picker
  apply_enter-Ends app v =
      let opened = record app {
        expanded = toggle_expanded display (selected_card display app) app.expanded;
        scroll = 0;
      } in
      if-Ends app (is_picker app.scope) (choose_picker display app) (some (opened, []))
        (choose_at-Ends app.picker_index app v v.picker_there)
        (ends app _ (
          same-Good display app _ v v.picker_there (omega arith) (omega arith) v.clean refl refl
            refl))

  apply_key-Ends :
      (input : WatchInput) (app : WatchApp)
      → IsValid display app
      → Ends app (apply_key display input app)
  unfolding apply_key
  apply_key-Ends quit_key app v = ends app _ (record { valid = v; follows = refl })
  apply_key-Ends (move delta) app v = ends app _ (apply_move-Good display delta app v)
  apply_key-Ends enter app v = apply_enter-Ends app v
  apply_key-Ends (cycle negative) app v = ends app _ (record { valid = v; follows = refl })
  apply_key-Ends open_picker app v = ends app _ (record {
    valid =
        reset-IsValid display app
          (record app { picker_index = picker_start display app; scope = picker }) v
          (picker_start-le display app.scope app) v.clean v.in_order;
    follows = unfold stream_filter in refl;
  })
  apply_key-Ends toggle_raw app v =
      ends app _ (
        same-Good display app _ v v.picker_there (omega arith) (omega arith) v.clean refl refl refl)
  apply_key-Ends copy_key app v = ends app _ (copy_effects-Good app (selected_card display app) v)
  apply_key-Ends top app v = ends app _ (
      if-app-Good display app (detail_mode display app) (record app { scroll = 0 })
        (record app { selected = 0; scroll = 0 }) (scrolling-Good display app 0 v (omega arith))
        (same-Good display app _ v v.picker_there (omega arith) (omega arith) v.clean refl refl
          refl))
  apply_key-Ends bottom app v = ends app _ (
      if-app-Good display app (detail_mode display app) (record app { scroll = u16_mod - 1 })
        (record app { selected = length (visible_cards display app) - 1 })
        (scrolling-Good display app (u16_mod - 1) v (omega arith))
        (selecting-Good display app _ v (omega arith)))
  apply_key-Ends start_search app v =
      ends app _
        (same-Good display app _ v v.picker_there (omega arith) v.scrolled v.clean refl refl refl)
  apply_key-Ends _ app v = ends app _ (unchanged-Good display app v)

  apply_input-Ends :
      (input : WatchInput) (app : WatchApp) (typing : Option Bytes)
      → IsValid display app
      → Ends app (elim typing [
        | some typed ↦ some (apply_search_input display input typed app, [])
        | none ↦ apply_key display input app
      ])
  apply_input-Ends input app none v = apply_key-Ends input app v
  apply_input-Ends input app (some typed) v =
      ends app _ (apply_search-Good display input typed app v)

  pub call-Ends : (c : Call) (app : WatchApp) → IsValid display app → Ends app (call display c app)
  unfolding call set_connected set_degraded set_recovered set_status_active_process_count
      cache_detail apply_input
  call-Ends connect app v =
      ends app _
        (same-Good display app _ v v.picker_there (omega arith) v.scrolled v.clean refl refl refl)
  call-Ends (degrade message) app v =
      ends app _
        (same-Good display app _ v v.picker_there (omega arith) v.scrolled v.clean refl refl refl)
  call-Ends (recover message now) app v =
      ends app _
        (same-Good display app _ v v.picker_there (omega arith) v.scrolled v.clean refl refl refl)
  call-Ends (agents_arrive agents) app v = ends app _ (set_agents-Good display agents app v)
  call-Ends (event_arrives event now) app v =
      ends app _ (event_call-Good display event now app _ (should_process-Good display event app v))
  call-Ends (count_arrives count) app v =
      ends app _
        (same-Good display app _ v v.picker_there (omega arith) v.scrolled v.clean refl refl refl)
  call-Ends (detail_arrives detail) app v = ends app _ (merge_detail-Good display detail app v)
  call-Ends (detail_cached detail) app v =
      ends app _
        (same-Good display app _ v v.picker_there (omega arith) v.scrolled v.clean refl refl refl)
  call-Ends (records_arrive records) app v =
      ends app _ (merge_presentation-Good display records app v)
  call-Ends (output_arrives id text) app v =
      ends app _ (append_live_output-Good display id text app v)
  call-Ends (key input) app v = apply_input-Ends input app app.search_input v
  call-Ends (cycled agents negative) app v = cycled-Good display agents negative app v

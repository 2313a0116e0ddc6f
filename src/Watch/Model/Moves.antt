-- ===== src/Watch/Model/Moves.antt =====
-- Moves, and a search that is typed, keep the watch valid and its subscription.
use zodex.Common.{
  ℕ, ◌+◌, ◌-◌, ◌≤◌, ◌<◌, ◌≡◌, refl, Bool, true, false, List, [], Option, none, some, arith,
  if◌then◌else◌, length, Bytes,
}
use zodex.Watch.State.{
  ApiAgent, WatchScope, all_agents, agent_scope, Delta, WatchInput, quit_key, search_char,
  search_backspace, search_commit, search_cancel, WatchApp, is_picker, stream_filter, position,
  move_index, default_picker_index, u16_mod,
}
use zodex.Watch.View.{Display, visible_cards, detail_mode}
use zodex.Watch.Input.{apply_move, move_scroll, picker_start, apply_search_input}
use zodex.Watch.Model.Valid.{
  IsValid, move_index-le, position_from-lt, default_picker-le, reset-IsValid,
}
use zodex.Watch.Model.Follows.{Good, same-Good, unchanged-Good}

module _ (display : Display) where
  move_scroll-lt :
      (scroll : ℕ) (delta : Delta) → scroll < u16_mod → move_scroll display scroll delta < u16_mod
  unfolding move_scroll
  move_scroll-lt scroll delta h = ground arith

  pub if-app-Good :
      (app : WatchApp) (test : Bool) (x y : WatchApp)
      → Good display app (x, [])
      → Good display app (y, [])
      → Good display app (if test then x else y, [])
  if-app-Good app true x y h k = h
  if-app-Good app false x y h k = k

  pub selecting-Good :
      (app : WatchApp) (index : ℕ)
      → IsValid display app
      → index ≤ length (visible_cards display app) - 1
      → Good display app (record app { selected = index }, [])
  unfolding visible_cards stream_filter
  selecting-Good app index v h = record {
    valid = record {
      picker_there = v.picker_there;
      selected_there = h;
      in_order = v.in_order;
      clean = v.clean;
      scrolled = v.scrolled;
    };
    follows = refl;
  }

  picking-Good :
      (app : WatchApp) (index : ℕ)
      → IsValid display app
      → index ≤ length app.agents
      → Good display app (record app { picker_index = index }, [])
  picking-Good app index v h =
      same-Good display app _ v h (omega arith) v.scrolled v.clean refl refl refl

  pub scrolling-Good :
      (app : WatchApp) (scroll : ℕ)
      → IsValid display app
      → scroll < u16_mod
      → Good display app (record app { scroll = scroll }, [])
  scrolling-Good app scroll v h =
      same-Good display app _ v v.picker_there (omega arith) h v.clean refl refl refl

  pub apply_move-Good :
      (delta : Delta) (app : WatchApp)
      → IsValid display app
      → Good display app (apply_move display delta app, [])
  unfolding apply_move
  apply_move-Good delta app v =
      let there = v.picker_there in
      let picked = move_index-le app.picker_index (length app.agents + 1) delta (omega arith) in
      let scrolled = record app { scroll = move_scroll display app.scroll delta } in
      let selected = record app {
        selected = move_index app.selected (length (visible_cards display app)) delta;
      } in
      if-app-Good app (is_picker app.scope) _
        (if detail_mode display app then scrolled else selected)
        (picking-Good app _ v (omega arith))
        (if-app-Good app (detail_mode display app) scrolled selected
          (scrolling-Good app _ v (move_scroll-lt app.scroll delta v.scrolled))
          (selecting-Good app _ v (
            move_index-le app.selected (length (visible_cards display app)) delta
              v.selected_there)))

  position_start-le :
      (found : Option ℕ) (agents : List ApiAgent)
      → ((index : ℕ) → found ≡ some index → index < length agents)
      → (elim found [ some index ↦ index + 1 | none ↦ default_picker_index agents ]) ≤ length agents
  position_start-le none agents h = default_picker-le agents
  position_start-le (some index) agents h = let i = h index refl in omega arith

  pub picker_start-le :
      (scope : WatchScope) (app : WatchApp)
      → picker_start display (record app { scope = scope }) ≤ length app.agents
  unfolding picker_start
  picker_start-le (agent_scope id) app =
      position_start-le (position id app.agents) app.agents
        (λ index e. let i = position_from-lt 0 id app.agents index e in omega arith)
  picker_start-le all_agents app = omega arith
  picker_start-le _ app = default_picker-le app.agents

  pub apply_search-Good :
      (input : WatchInput) (typed : Bytes) (app : WatchApp)
      → IsValid display app
      → Good display app (apply_search_input display input typed app, [])
  unfolding apply_search_input
  apply_search-Good search_commit typed app v = record {
    valid =
        reset-IsValid display app (record app { search_input = none; search_query = typed }) v
          v.picker_there v.clean v.in_order;
    follows = unfold stream_filter in refl;
  }
  apply_search-Good (search_char c) typed app v =
      same-Good display app _ v v.picker_there (omega arith) v.scrolled v.clean refl refl refl
  apply_search-Good search_backspace typed app v =
      same-Good display app _ v v.picker_there (omega arith) v.scrolled v.clean refl refl refl
  apply_search-Good search_cancel typed app v =
      same-Good display app _ v v.picker_there (omega arith) v.scrolled v.clean refl refl refl
  apply_search-Good quit_key typed app v =
      same-Good display app _ v v.picker_there (omega arith) v.scrolled v.clean refl refl refl
  apply_search-Good _ typed app v = unchanged-Good display app v

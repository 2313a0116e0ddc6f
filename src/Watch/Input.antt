-- ===== src/Watch/Input.antt =====
-- src/local/watch/model.rs: what the keys do to the watch.
use zodex.Common.{
  ℕ, zero, suc, ◌+◌, ◌-◌, ◌%◌, Bool, true, false, List, [], ◌∷◌, ◌++◌, Option, none, some, ◌==◌,
  if◌then◌else◌, min, length, get_elem?, Bytes, bytes, eq_bytes,
}
use zodex.Common.Dict.{lookup, get_default}
use zodex.Watch.Records.{WatchCard, selected_invocation_id, mem, mem_bytes}
use zodex.Watch.State.{
  is_picker, reset_selection, default_picker_index, move_index, position, remove_bytes, remove_id,
  u16_mod, ApiAgent, WatchScope, WatchEffect, Delta, WatchInput, Detail, WatchApp, picker,
  all_agents, agent_scope, quit, refresh_agents, resubscribe, cycle_agents, copy, quit_key, enter,
  open_picker, toggle_raw, copy_key, top, bottom, start_search, search_backspace, search_commit,
  search_cancel, move, cycle, search_char,
}
use zodex.Watch.View.{visible_cards, selected_card, detail_mode, Display}

module _ (display : Display) where
  unfoldable pub cycle_to : List ApiAgent → Bool → Option ℕ → ℕ
  cycle_to agents false (some index) = (index + 1) % length agents
  cycle_to agents true (some zero) = length agents - 1
  cycle_to agents true (some (suc index)) = index
  cycle_to agents true none = length agents - 1
  cycle_to agents false none = 0

  abbrev pub current_index : WatchScope → List ApiAgent → Option ℕ
  current_index (agent_scope id) agents = position id agents
  current_index _ agents = none

  -- An index out of bounds is a panic.
  abbrev pub scoped_to : WatchApp → Option ApiAgent → Option (WatchApp × List WatchEffect)
  scoped_to app none = none
  scoped_to app (some agent) = some (
    reset_selection (record app { scope = agent_scope agent.id }),
    resubscribe (some agent.id) ∷ [],
  )

  unfoldable pub cycle_agents_after_refresh : Bool → WatchApp → Option (WatchApp × List WatchEffect)
  cycle_agents_after_refresh negative app =
      if length app.agents == 0
      then some (app, [])
      else scoped_to app
          (get_elem? app.agents (cycle_to app.agents negative (current_index app.scope app.agents)))

  abbrev pub choose_at : ℕ → WatchApp → Option (WatchApp × List WatchEffect)
  choose_at zero app =
      some (reset_selection (record app { scope = all_agents }), resubscribe none ∷ [])
  choose_at (suc index) app = scoped_to app (get_elem? app.agents index)

  unfoldable pub choose_picker : WatchApp → Option (WatchApp × List WatchEffect)
  choose_picker app = choose_at app.picker_index app

  unfoldable pub copy_text : Detail → Bytes
  copy_text detail =
      if eq_bytes detail.tool_name (bytes "write_stdin")
      then get_default detail.raw_evidence detail.chars
      else detail.raw_evidence

  unfoldable pub copy_text_of : Bool → Detail → Option Bytes
  copy_text_of raw_opened detail =
      if raw_opened
      then some detail.raw_evidence
      else if eq_bytes detail.tool_name (bytes "exec_command")
      then detail.cmd
      else if eq_bytes detail.tool_name (bytes "apply_patch")
      then detail.patch
      else some (copy_text detail)

  unfoldable pub copy_text_for : WatchApp → WatchCard → Option Bytes
  copy_text_for app card = elim (selected_invocation_id card) [
    | none ↦ none
    | some id ↦ elim (lookup id app.details) [
      | none ↦ none
      | some detail ↦ copy_text_of (mem id app.raw_open) detail
    ]
  ]

  abbrev pub copy_effects : WatchApp → Option WatchCard → List WatchEffect
  copy_effects app none = []
  copy_effects app (some card) = elim (copy_text_for app card) [
    | none ↦ []
    | some text ↦ copy text ∷ []
  ]

  abbrev pub toggle_expanded : Option WatchCard → List Bytes → List Bytes
  toggle_expanded none set = set
  toggle_expanded (some card) set =
      if mem_bytes card.key set then remove_bytes card.key set else card.key ∷ set

  abbrev pub toggle_id : Option ℕ → List ℕ → List ℕ
  toggle_id none set = set
  toggle_id (some id) set = if mem id set then remove_id id set else id ∷ set

  abbrev pub toggle_open : Option WatchCard → List ℕ → List ℕ
  toggle_open none set = set
  toggle_open (some card) set = toggle_id (selected_invocation_id card) set

  unfoldable pub move_scroll : ℕ → Delta → ℕ
  move_scroll scroll delta =
      if delta.negative
      then scroll - delta.size % u16_mod
      else min (scroll + delta.size % u16_mod) (u16_mod - 1)

  unfoldable pub apply_move : Delta → WatchApp → WatchApp
  apply_move delta app =
      if is_picker app.scope
      then record app { picker_index = move_index app.picker_index (length app.agents + 1) delta }
      else if detail_mode display app
      then record app { scroll = move_scroll app.scroll delta }
      else record app {
        selected = move_index app.selected (length (visible_cards display app)) delta;
      }

  unfoldable pub apply_enter : WatchApp → Option (WatchApp × List WatchEffect)
  apply_enter app =
      if is_picker app.scope
      then choose_picker app
      else some (
        record app {
          expanded = toggle_expanded (selected_card display app) app.expanded;
          scroll = 0;
        },
        [],
      )

  unfoldable pub picker_start : WatchApp → ℕ
  picker_start app = elim app.scope [
    | agent_scope id ↦ elim (position id app.agents) [
      | some index ↦ index + 1
      | none ↦ default_picker_index app.agents
    ]
    | all_agents ↦ 0
    | _ ↦ default_picker_index app.agents
  ]

  abbrev pub to_bottom : WatchApp → WatchApp
  to_bottom app =
      if detail_mode display app
      then record app { scroll = u16_mod - 1 }
      else record app { selected = length (visible_cards display app) - 1 }

  abbrev pub to_top : WatchApp → WatchApp
  to_top app =
      if detail_mode display app
      then record app { scroll = 0 }
      else record app { selected = 0; scroll = 0 }

  abbrev pub pop : Bytes → Bytes
  pop [] = []
  pop (c ∷ []) = []
  pop (c ∷ d ∷ text) = c ∷ pop (d ∷ text)

  -- The keys while a search is typed; `typed` is what stands there.
  unfoldable pub apply_search_input : WatchInput → Bytes → WatchApp → WatchApp
  apply_search_input (search_char c) typed app = record app {
    search_input = some (typed ++ c ∷ []);
  }
  apply_search_input search_backspace typed app = record app { search_input = some (pop typed) }
  apply_search_input search_commit typed app =
      reset_selection (record app { search_input = none; search_query = typed })
  apply_search_input search_cancel typed app = record app { search_input = none }
  apply_search_input quit_key typed app = record app { search_input = none }
  apply_search_input _ typed app = app

  unfoldable pub apply_key : WatchInput → WatchApp → Option (WatchApp × List WatchEffect)
  apply_key quit_key app = some (app, quit ∷ [])
  apply_key (move delta) app = some (apply_move delta app, [])
  apply_key enter app = apply_enter app
  apply_key (cycle negative) app = some (app, cycle_agents negative ∷ [])
  apply_key open_picker app = some (
    reset_selection (record app { picker_index = picker_start app; scope = picker }),
    refresh_agents ∷ resubscribe none ∷ [],
  )
  apply_key toggle_raw app = some (
    record app { raw_open = toggle_open (selected_card display app) app.raw_open; scroll = 0 },
    [],
  )
  apply_key copy_key app = some (app, copy_effects app (selected_card display app))
  apply_key top app = some (to_top app, [])
  apply_key bottom app = some (to_bottom app, [])
  apply_key start_search app = some (record app { search_input = some app.search_query }, [])
  apply_key _ app = some (app, [])

  unfoldable pub apply_input : WatchInput → WatchApp → Option (WatchApp × List WatchEffect)
  apply_input input app = elim app.search_input [
    | some typed ↦ some (apply_search_input input typed app, [])
    | none ↦ apply_key input app
  ]

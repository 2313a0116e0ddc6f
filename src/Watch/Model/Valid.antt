-- ===== src/Watch/Model/Valid.antt =====
-- The invariant of the watch: what is selected is there.
use zodex.Common.{
  ltb, ℕ, zero, suc, ◌+◌, ◌-◌, ◌≤◌, ◌<◌, ◌≡◌, refl, ap, inl, inr, Bool, true, false, ◌&&◌, List, [],
  ◌∷◌, ◌++◌, some, arith, ◌==◌, if◌then◌else◌, Bool-cases, min, length, length-drop, get_elem?,
  Bytes, eq_bytes, eq_bytes_iff,
}
use zodex.Common.Dict.{lookup, get_default, remove}
use zodex.Local.Sanitize.Safe.{
  AllShown, AllShown-append, AllShown-drop, sanitize_display_text-AllShown,
}
use zodex.Local.Sanitize.{sanitize_display_text}
use zodex.Watch.Records.{PresentationRecord, WatchCard}
use zodex.Watch.Cards.Keys.{InOrder, merge_record-InOrder}
use zodex.Watch.State.{
  max_live_output_chars, ApiAgent, WatchOptions, WatchScope, waiting, picker, all_agents,
  unattributed, agent_scope, LiveOutput, Delta, WatchApp, automatic_scope_for_agents, is_picker,
  is_waiting, same_scope, initial_scope, new, default_picker_index, move_index, position_from,
  reset_selection, u16_mod,
}
use zodex.Watch.View.{Display, visible_cards, clamp_selection}
use zodex.Watch.Arrivals.{sanitize_agents_for_terminal, rescoped, merge_records, append_output}

-- A live output within its limit, of which a terminal shows every character.
pub record Clean (output : LiveOutput) : Type 0 where
  pub fits : length output.text ≤ max_live_output_chars
  pub shown : AllShown output.text

abbrev pub AllClean : List (ℕ × LiveOutput) → Type 0
AllClean [] = Unit
AllClean ((id, output) ∷ outputs) = Clean output × AllClean outputs

pub record IsValid (display : Display) (app : WatchApp) : Type 0 where
  pub picker_there : app.picker_index ≤ length app.agents
  pub selected_there : app.selected ≤ length (visible_cards display app) - 1
  pub in_order : InOrder app.cards
  pub clean : AllClean app.live_output
  pub scrolled : app.scroll < u16_mod

pub AllClean-remove :
    (id : ℕ) (outputs : List (ℕ × LiveOutput)) → AllClean outputs → AllClean (remove id outputs)
unfolding remove
AllClean-remove id [] h = tt
AllClean-remove id ((i, output) ∷ outputs) h = elim (Bool-cases (i == id)) [
  | inl same ↦ rw same (AllClean-remove id outputs h.1)
  | inr other ↦ rw other (h.0, AllClean-remove id outputs h.1)
]

pub held-Clean :
    (id : ℕ) (outputs : List (ℕ × LiveOutput))
    → AllClean outputs
    → Clean (get_default (record { text = []; truncated = false }) (lookup id outputs))
unfolding lookup get_default
held-Clean id [] h = record { fits = omega arith; shown = tt }
held-Clean id ((i, output) ∷ outputs) h = elim (Bool-cases (i == id)) [
  | inl same ↦ rw same h.0
  | inr other ↦ rw other (held-Clean id outputs h.1)
]

pub same_scope-eq : (a b : WatchScope) → same_scope a b ≡ true → a ≡ b
same_scope-eq waiting waiting h = refl
same_scope-eq picker picker h = refl
same_scope-eq all_agents all_agents h = refl
same_scope-eq unattributed unattributed h = refl
same_scope-eq (agent_scope a) (agent_scope b) h = ap agent_scope ((eq_bytes_iff a b).0 h)
same_scope-eq _ _ h = cc

pub length-sanitize_agents :
    (display : Display) (agents : List ApiAgent)
    → length (sanitize_agents_for_terminal display agents) ≡ length agents
unfolding sanitize_agents_for_terminal
length-sanitize_agents display [] = refl
length-sanitize_agents display (agent ∷ agents) = ap suc (length-sanitize_agents display agents)

pub move_index-le :
    (current len : ℕ) (delta : Delta) → current ≤ len - 1 → move_index current len delta ≤ len - 1
unfolding move_index
move_index-le current len delta h = ground arith

pub position_from-lt :
    (start : ℕ) (id : Bytes) (agents : List ApiAgent) (index : ℕ)
    → position_from start id agents ≡ some index
    → index < start + length agents
unfolding position_from
position_from-lt start id [] index h = cc
position_from-lt start id (agent ∷ agents) index h = elim (Bool-cases (eq_bytes agent.id id)) [
  | inl here ↦ ground arith
  | inr there ↦
      let ih = position_from-lt (suc start) id agents index (rw (position_from, there) at h) in
      omega arith
]

pub get_elem?-some :
    {A : Type 0} (xs : List A) (i : ℕ) → i < length xs → (x : A) × (get_elem? xs i ≡ some x)
get_elem?-some [] i h = absurd (omega arith)
get_elem?-some (x ∷ xs) zero h = (x, refl)
get_elem?-some (x ∷ xs) (suc i) h = get_elem?-some xs i (omega arith)

pub default_picker-le : (agents : List ApiAgent) → default_picker_index agents ≤ length agents
unfolding default_picker_index
default_picker-le [] = omega arith
default_picker-le (agent ∷ agents) = omega arith

initial_picker :
    (agents : List ApiAgent) (options : WatchOptions)
    → (if is_picker (initial_scope agents options) then 1 else 0) ≤ length agents
unfolding automatic_scope_for_agents
initial_picker [] options = ground arith
initial_picker (agent ∷ []) options = ground arith
initial_picker (agent ∷ other ∷ agents) options = ground arith

picked-le :
    (fresh : Bool) (agents : List ApiAgent) (index : ℕ)
    → (if fresh then default_picker_index agents else min index (length agents)) ≤ length agents
picked-le true agents index = default_picker-le agents
picked-le false agents index = omega arith

module _ (display : Display) where
  pub merge_records-InOrder :
      (duplicate_detail : Bool) (records : List PresentationRecord) (cards : List WatchCard)
      → InOrder cards
      → InOrder (merge_records display duplicate_detail records cards)
  unfolding merge_records
  merge_records-InOrder duplicate_detail [] cards v = v
  merge_records-InOrder duplicate_detail (r ∷ records) cards v =
      merge_records-InOrder duplicate_detail records _
        (merge_record-InOrder cards _ duplicate_detail v)

  pub append_output-Clean :
      (text : Bytes) (output : LiveOutput)
      → Clean output
      → Clean (append_output display text output)
  unfolding append_output
  append_output-Clean text output h =
      let joined = output.text ++ sanitize_display_text display.strip_str text in
      let shown : AllShown joined =
        AllShown-append output.text _ h.shown
          (sanitize_display_text-AllShown display.strip_str text).0 in
      elim (Bool-cases (ltb max_live_output_chars (length joined))) [
        | inl long ↦
            rw (append_output, long)
              (record {
                fits = omega (arith, length-drop (length joined - max_live_output_chars) joined);
                shown = AllShown-drop (length joined - max_live_output_chars) joined shown;
              })
        | inr fits ↦ rw (append_output, fits) (record { fits = ground arith; shown = shown })
      ]

  pub new-IsValid :
      (agents : List ApiAgent) (count : ℕ) (options : WatchOptions)
      → IsValid display (new agents count options)
  unfolding new
  new-IsValid agents count options = record {
    picker_there = initial_picker agents options;
    selected_there = omega arith;
    in_order = record { distinct = tt; sorted = tt; bounded = omega arith };
    clean = tt;
    scrolled = omega arith;
  }

  -- What is selected stays there while the scope, the query and the cards stay.
  pub same-IsValid :
      (app app' : WatchApp)
      → IsValid display app
      → app'.picker_index ≤ length app'.agents
      → app'.selected ≤ app.selected
      → app'.scroll < u16_mod
      → AllClean app'.live_output
      → app'.cards ≡ app.cards
      → app'.scope ≡ app.scope
      → app'.search_query ≡ app.search_query
      → IsValid display app'
  unfolding visible_cards
  same-IsValid app app' v there selected scroll clean cards scope query = record {
    picker_there = there;
    selected_there = rw (cards, scope, query) (let h = v.selected_there in omega arith);
    in_order = rw cards v.in_order;
    clean = clean;
    scrolled = scroll;
  }

  pub rescoped-IsValid :
      (agents : List ApiAgent) (app : WatchApp)
      → IsValid display app
      → IsValid display (rescoped display agents app)
  unfolding rescoped
  rescoped-IsValid agents app v =
      let scope =
        if app.automatic_scope && is_waiting app.scope
        then automatic_scope_for_agents agents
        else app.scope in
      let there = picked-le (is_waiting app.scope && is_picker scope) agents app.picker_index in
      elim (Bool-cases (same_scope scope app.scope)) [
        | inl same ↦ rw same (
            same-IsValid app _ v there (omega arith) v.scrolled v.clean refl
              (same_scope-eq scope app.scope same) refl)
        | inr moved ↦ rw moved (record {
          picker_there = there;
          selected_there = omega arith;
          in_order = v.in_order;
          clean = v.clean;
          scrolled = omega arith;
        })
      ]

  -- A change that resets the selection.
  pub reset-IsValid :
      (app app' : WatchApp)
      → IsValid display app
      → app'.picker_index ≤ length app'.agents
      → AllClean app'.live_output
      → InOrder app'.cards
      → IsValid display (reset_selection app')
  reset-IsValid app app' v there clean in_order = record {
    picker_there = there;
    selected_there = omega arith;
    in_order = in_order;
    clean = clean;
    scrolled = omega arith;
  }

  -- A change of the cards, which clamps the selection.
  pub clamped-IsValid :
      (app app' : WatchApp)
      → IsValid display app
      → app'.picker_index ≤ length app'.agents
      → app'.scroll < u16_mod
      → AllClean app'.live_output
      → InOrder app'.cards
      → IsValid display (clamp_selection display app')
  unfolding clamp_selection visible_cards
  clamped-IsValid app app' v there scroll clean in_order = record {
    picker_there = there;
    selected_there = omega arith;
    in_order = in_order;
    clean = clean;
    scrolled = scroll;
  }

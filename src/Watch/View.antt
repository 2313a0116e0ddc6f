-- ===== src/Watch/View.antt =====
-- src/local/watch/model.rs: the cards that are shown, and the one that is selected.
-- The JSON of a record is a parameter.
use zodex.Common.{
  ℕ, ◌-◌, Bool, false, ◌||◌, List, Option, none, some, ◌==◌, min, length, get_elem?, Bytes,
}
use zodex.Common.Ascii.{to_ascii_lowercase}
use zodex.Watch.Records.{PresentationRecord, WatchCard, selected_invocation_id, mem, mem_bytes}
use zodex.Watch.State.{contains_text, filter_cards, card_in_scope, WatchApp}

-- What the model asks of the crates strip_ansi_escapes and serde_json.
pub record Display : Type 0 where
  pub strip_str : Bytes → Bytes
  pub to_string : PresentationRecord → Bytes

module _ (display : Display) where
  open display use {to_string}

  unfoldable pub matches_query : Bytes → WatchCard → Bool
  matches_query query card =
      (length query == 0) || contains_text (to_ascii_lowercase (to_string card.record_)) query

  unfoldable pub visible_cards : WatchApp → List WatchCard
  visible_cards app =
      filter_cards (matches_query (to_ascii_lowercase app.search_query))
        (filter_cards (card_in_scope app.scope) app.cards)

  unfoldable pub selected_card : WatchApp → Option WatchCard
  selected_card app = get_elem? (visible_cards app) app.selected

  unfoldable pub is_expanded : WatchApp → WatchCard → Bool
  is_expanded app card = mem_bytes card.key app.expanded

  abbrev pub open_in : List ℕ → Option ℕ → Bool
  open_in raw_open none = false
  open_in raw_open (some id) = mem id raw_open

  unfoldable pub raw_is_open : WatchApp → WatchCard → Bool
  raw_is_open app card = open_in app.raw_open (selected_invocation_id card)

  unfoldable pub detail_mode : WatchApp → Bool
  detail_mode app = elim (selected_card app) [
    | none ↦ false
    | some card ↦ is_expanded app card || raw_is_open app card
  ]

  unfoldable pub clamp_selection : WatchApp → WatchApp
  clamp_selection app = record app { selected = min app.selected (length (visible_cards app) - 1) }

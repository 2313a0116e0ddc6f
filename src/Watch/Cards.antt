-- ===== src/Watch/Cards.antt =====
-- src/local/watch/cards.rs: the cards of the watch, merged from the records that arrive.
pub mod Distinct
pub mod Sort
pub mod Keys
use zodex.Common.{
  ℕ, ◌+◌, ◌^◌, ◌≡◌, Bool, true, false, not, ◌&&◌, ◌||◌, List, [], ◌∷◌, ◌++◌, Option, none, some,
  ltb, leb, ◌==◌, if◌then◌else◌, is_none, sat_add, length, Bytes, bytes, eq_bytes,
}
use zodex.Watch.Records.{
  Kind, poll_aggregate, PresentationRecord, WatchCard, eq_option, mem, any_in, raw_samples_overlap,
  later_than, merge_legacy_poll_record, is_poll,
}

-- `position` of a card, and the change of the card there.
module _ (test : WatchCard → Bool) where
  abbrev pub any_card : List WatchCard → Bool
  any_card [] = false
  any_card (card ∷ cards) = test card || any_card cards

  abbrev pub change_first : (WatchCard → WatchCard) → List WatchCard → List WatchCard
  change_first change [] = []
  change_first change (card ∷ cards) =
      if test card then change card ∷ cards else card ∷ change_first change cards

  abbrev pub retain : List WatchCard → List WatchCard
  retain [] = []
  retain (card ∷ cards) = if test card then card ∷ retain cards else retain cards

abbrev pub find_card : (WatchCard → Bool) → List WatchCard → Option WatchCard
find_card test [] = none
find_card test (card ∷ cards) =
    let later = find_card test cards in if test card then some card else later

abbrev pub has_key : Bytes → WatchCard → Bool
has_key key card = eq_bytes card.key key

-- The test of `legacy_poll_merge_index`: an aggregate of the same agent and session.
abbrev pub same_session : PresentationRecord → Kind → Kind → WatchCard → Bool
same_session incoming (poll_aggregate poll) (poll_aggregate existing) card =
    eq_option card.record_.agent_id incoming.agent_id
    && eq_bytes existing.target_session_handle poll.target_session_handle
same_session incoming _ _ card = false

unfoldable pub legacy_poll : PresentationRecord → WatchCard → Bool
legacy_poll incoming card = same_session incoming incoming.kind card.record_.kind card

-- What becomes of the card with the key of the record.
unfoldable pub merge_same : List WatchCard → PresentationRecord → Bool → WatchCard → List WatchCard
merge_same cards incoming duplicate_detail found =
    let same = has_key incoming.presentation_id in
    if duplicate_detail && is_poll found.record_.kind && is_poll incoming.kind
    then change_first same
        (λ card. record card { record_ = merge_legacy_poll_record card.record_ incoming true })
        cards
    else retain
        (λ card.
          same card || not (any_in card.record_.raw_invocation_ids incoming.raw_invocation_ids))
        (change_first same (λ card. record card { record_ = incoming }) cards)

unfoldable pub merge_legacy : List WatchCard → PresentationRecord → Bool → List WatchCard
merge_legacy cards incoming duplicate_detail =
    if not (mem incoming.primary_invocation_id incoming.raw_invocation_ids)
      || ltb 1 incoming.raw_evidence_count
    then change_first (legacy_poll incoming)
        (λ card. record { key = incoming.presentation_id; record_ = incoming }) cards
    else change_first (legacy_poll incoming)
        (λ card. record card {
          record_ = merge_legacy_poll_record card.record_ incoming duplicate_detail;
        })
        cards

unfoldable pub add_card : List WatchCard → PresentationRecord → List WatchCard
add_card cards incoming =
    retain (λ card. not (raw_samples_overlap card.record_ incoming)) cards
    ++ (record { key = incoming.presentation_id; record_ = incoming }) ∷ []

unfoldable pub merge_card : List WatchCard → PresentationRecord → Bool → List WatchCard
merge_card cards incoming duplicate_detail =
    elim (find_card (has_key incoming.presentation_id) cards) [
      | some found ↦ merge_same cards incoming duplicate_detail found
      | none ↦
          if any_card (legacy_poll incoming) cards
          then merge_legacy cards incoming duplicate_detail
          else add_card cards incoming
    ]

abbrev pub card_time : WatchCard → ℕ × ℕ
card_time card = (card.record_.started_at_ms, card.record_.primary_invocation_id)

-- `sort_by_key`, which is stable
abbrev pub insert_card : WatchCard → List WatchCard → List WatchCard
insert_card card [] = card ∷ []
insert_card card (c ∷ cards) =
    let rest = insert_card card cards in
    if later_than (card_time card) (card_time c) then c ∷ rest else card ∷ c ∷ cards

unfoldable pub sort_cards : List WatchCard → List WatchCard
sort_cards [] = []
sort_cards (card ∷ cards) = insert_card card (sort_cards cards)

abbrev pub max_live_cards : ℕ
max_live_cards = 2000

abbrev pub remove_first : List WatchCard → List WatchCard
remove_first [] = []
remove_first (card ∷ cards) = cards

unfoldable pub merge_record : List WatchCard → PresentationRecord → Bool → List WatchCard
merge_record cards incoming duplicate_detail =
    let sorted = sort_cards (merge_card cards incoming duplicate_detail) in
    if ltb max_live_cards (length sorted) then remove_first sorted else sorted

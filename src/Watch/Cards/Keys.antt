-- ===== src/Watch/Cards/Keys.antt =====
-- What holds of the cards after each merge.
use zodex.Common.{
  ℕ, suc, ◌≤◌, ◌≡◌, refl, inl, inr, Bool, true, false, not, ◌&&◌, ◌||◌, List, [], ◌∷◌, none, some,
  arith, ltb, if◌then◌else◌, Bool-cases, length, length-append,
}
use zodex.Watch.Records.{
  PresentationRecord, WatchCard, is_poll, any_in, mem, raw_samples_overlap,
  merge_legacy_poll_record,
}
use zodex.Watch.Cards.{
  any_card, change_first, retain, find_card, has_key, legacy_poll, merge_same, merge_legacy,
  add_card, merge_card, sort_cards, max_live_cards, remove_first, merge_record,
}
use zodex.Watch.Cards.Distinct.{keys, Distinct, merge_card-Distinct}
use zodex.Watch.Cards.Sort.{Sorted, Distinct-sort_cards, Sorted-sort_cards, length-sort_cards}

pub record InOrder (cards : List WatchCard) : Type 0 where
  pub distinct : Distinct (keys cards)
  pub sorted : Sorted cards
  pub bounded : length cards ≤ max_live_cards

length-change_first :
    (test : WatchCard → Bool) (change : WatchCard → WatchCard) (cards : List WatchCard)
    → length (change_first test change cards) ≡ length cards
length-change_first test change [] = refl
length-change_first test change (card ∷ cards) =
    ground (arith, length-change_first test change cards)

length-retain :
    (test : WatchCard → Bool) (cards : List WatchCard) → length (retain test cards) ≤ length cards
length-retain test [] = omega arith
length-retain test (card ∷ cards) = ground (arith, length-retain test cards)

if-length :
    (test : Bool) (a b : List WatchCard) (n : ℕ)
    → length a ≤ n
    → length b ≤ n
    → length (if test then a else b) ≤ n
if-length true a b n h k = h
if-length false a b n h k = k

module _ (cards : List WatchCard) (incoming : PresentationRecord) (duplicate_detail : Bool) where
  length-merge_same :
      (found : WatchCard)
      → length (merge_same cards incoming duplicate_detail found) ≤ suc (length cards)
  unfolding merge_same
  length-merge_same found =
      let same = has_key incoming.presentation_id in
      let ids = λ (card : WatchCard).
        same card || not (any_in card.record_.raw_invocation_ids incoming.raw_invocation_ids) in
      let merged =
        change_first same
          (λ card. record card { record_ = merge_legacy_poll_record card.record_ incoming true })
          cards in
      let changed = change_first same (λ card. record card { record_ = incoming }) cards in
      let m =
        length-change_first same
          (λ card. record card { record_ = merge_legacy_poll_record card.record_ incoming true })
          cards in
      let c = length-change_first same (λ card. record card { record_ = incoming }) cards in
      let r = length-retain ids changed in
      if-length (duplicate_detail && is_poll found.record_.kind && is_poll incoming.kind) merged
        (retain ids changed) (suc (length cards)) (omega arith) (omega arith)

  length-merge_legacy : length (merge_legacy cards incoming duplicate_detail) ≤ suc (length cards)
  unfolding merge_legacy
  length-merge_legacy =
      let new : WatchCard → WatchCard =
        λ card. record { key = incoming.presentation_id; record_ = incoming } in
      let old = λ (card : WatchCard). record card {
        record_ = merge_legacy_poll_record card.record_ incoming duplicate_detail;
      } in
      let n = length-change_first (legacy_poll incoming) new cards in
      let o = length-change_first (legacy_poll incoming) old cards in
      if-length
        (not (mem incoming.primary_invocation_id incoming.raw_invocation_ids)
          || ltb 1 incoming.raw_evidence_count)
        (change_first (legacy_poll incoming) new cards)
        (change_first (legacy_poll incoming) old cards) (suc (length cards)) (omega arith)
        (omega arith)

  length-add_card : length (add_card cards incoming) ≤ suc (length cards)
  unfolding add_card
  length-add_card =
      let kept = λ (card : WatchCard). not (raw_samples_overlap card.record_ incoming) in
      let card : WatchCard = record { key = incoming.presentation_id; record_ = incoming } in
      let r = length-retain kept cards in
      let a = length-append (retain kept cards) (card ∷ []) in omega arith

  -- A merge adds one card at most.
  length-merge_card : length (merge_card cards incoming duplicate_detail) ≤ suc (length cards)
  unfolding merge_card
  length-merge_card =
      elim (find_card (has_key incoming.presentation_id) cards)
        as (λ found.
          length (elim found [
            | some card ↦ merge_same cards incoming duplicate_detail card
            | none ↦
                if any_card (legacy_poll incoming) cards
                then merge_legacy cards incoming duplicate_detail
                else add_card cards incoming
          ])
          ≤ suc (length cards)) [
            | some card ↦ length-merge_same card
            | none ↦
                if-length (any_card (legacy_poll incoming) cards)
                  (merge_legacy cards incoming duplicate_detail) (add_card cards incoming)
                  (suc (length cards)) length-merge_legacy length-add_card
          ]

not_ltb : (a b : ℕ) → ltb a b ≡ false → b ≤ a
not_ltb a b h = ground arith

remove_first-InOrder :
    (cards : List WatchCard)
    → Distinct (keys cards)
    → Sorted cards
    → length cards ≤ suc max_live_cards
    → InOrder (remove_first cards)
remove_first-InOrder [] d s h = record { distinct = tt; sorted = tt; bounded = omega arith }
remove_first-InOrder (card ∷ cards) d s h = record {
  distinct = d.1;
  sorted = s.1;
  bounded = omega arith;
}

-- After each merge the cards have distinct keys, stand in the order of their times, and are no
-- more than the limit, whatever record arrives.
pub merge_record-InOrder :
    (cards : List WatchCard) (incoming : PresentationRecord) (duplicate_detail : Bool)
    → InOrder cards
    → InOrder (merge_record cards incoming duplicate_detail)
unfolding merge_record
merge_record-InOrder cards incoming duplicate_detail v =
    let sorted = sort_cards (merge_card cards incoming duplicate_detail) in
    let d =
      Distinct-sort_cards _ (merge_card-Distinct incoming duplicate_detail cards v.distinct) in
    let s = Sorted-sort_cards (merge_card cards incoming duplicate_detail) in
    let grown = length-merge_card cards incoming duplicate_detail in
    let same = length-sort_cards (merge_card cards incoming duplicate_detail) in
    let bound = v.bounded in
    elim (Bool-cases (ltb max_live_cards (length sorted))) [
      | inl over ↦ rw over (remove_first-InOrder sorted d s (omega arith))
      | inr fits ↦ rw fits (record { distinct = d; sorted = s; bounded = not_ltb _ _ fits })
    ]

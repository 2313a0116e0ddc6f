-- ===== src/Watch/Cards/Sort.antt =====
-- The sort of the cards by their times.
use zodex.Common.{
  ℕ, suc, ◌≡◌, refl, ap, ◌∙◌, inl, inr, Bool, true, false, ◌||◌, List, [], ◌∷◌, arith, Bool-cases,
  length, Bytes, eq_bytes,
}
use zodex.Watch.Records.{WatchCard, mem_bytes, later_than}
use zodex.Watch.Cards.{card_time, insert_card, sort_cards}
use zodex.Watch.Cards.Distinct.{keys, Distinct, or_false, eq_bytes_sym}

-- The cards in the order of their times.
abbrev pub AtHead : WatchCard → List WatchCard → Type 0
AtHead a [] = Unit
AtHead a (b ∷ cards) = later_than (card_time a) (card_time b) ≡ false

abbrev pub Sorted : List WatchCard → Type 0
Sorted [] = Unit
Sorted (a ∷ cards) = AtHead a cards × Sorted cards

-- The sort keeps the keys, and puts the cards in order.
mem-insert_card :
    (k : Bytes) (card : WatchCard) (cards : List WatchCard)
    → mem_bytes k (keys (insert_card card cards))
      ≡ (eq_bytes card.key k || mem_bytes k (keys cards))
mem-insert_card k card [] = refl
mem-insert_card k card (c ∷ cards) = ground (arith, mem-insert_card k card cards)

mem-sort_cards :
    (k : Bytes) (cards : List WatchCard)
    → mem_bytes k (keys (sort_cards cards)) ≡ mem_bytes k (keys cards)
unfolding sort_cards
mem-sort_cards k [] = refl
mem-sort_cards k (card ∷ cards) =
    mem-insert_card k card (sort_cards cards)
    ∙ ap (λ (b : Bool). eq_bytes card.key k || b) (mem-sort_cards k cards)

Distinct-insert_card :
    (card : WatchCard) (cards : List WatchCard)
    → Distinct (keys cards)
    → mem_bytes card.key (keys cards) ≡ false
    → Distinct (keys (insert_card card cards))
Distinct-insert_card card [] d fresh = (refl, tt)
Distinct-insert_card card (c ∷ cards) (first, d) fresh =
    elim (Bool-cases (later_than (card_time card) (card_time c))) [
      | inr before ↦ rw before (fresh, (first, d))
      | inl after ↦ rw after (
        mem-insert_card c.key card cards
            ∙ rw ((eq_bytes_sym card.key c.key ∙ (or_false _ _ fresh).0), first) refl,
        Distinct-insert_card card cards d (or_false _ _ fresh).1,
      )
    ]

pub Distinct-sort_cards :
    (cards : List WatchCard) → Distinct (keys cards) → Distinct (keys (sort_cards cards))
unfolding sort_cards
Distinct-sort_cards [] d = tt
Distinct-sort_cards (card ∷ cards) (fresh, d) =
    Distinct-insert_card card (sort_cards cards) (Distinct-sort_cards cards d)
      (mem-sort_cards card.key cards ∙ fresh)

later_than_asym : (a b : ℕ × ℕ) → later_than a b ≡ true → later_than b a ≡ false
later_than_asym (a, i) (b, j) h = ground arith

AtHead-insert_card :
    (c card : WatchCard) (cards : List WatchCard)
    → AtHead c cards
    → later_than (card_time c) (card_time card) ≡ false
    → AtHead c (insert_card card cards)
AtHead-insert_card c card [] h e = e
AtHead-insert_card c card (d ∷ cards) h e =
    elim (Bool-cases (later_than (card_time card) (card_time d))) [
      | inl after ↦ rw after h
      | inr before ↦ rw before e
    ]

Sorted-insert_card :
    (card : WatchCard) (cards : List WatchCard) → Sorted cards → Sorted (insert_card card cards)
Sorted-insert_card card [] s = (tt, tt)
Sorted-insert_card card (c ∷ cards) (first, s) =
    elim (Bool-cases (later_than (card_time card) (card_time c))) [
      | inr before ↦ rw before (before, (first, s))
      | inl after ↦ rw after (
        AtHead-insert_card c card cards first
            (later_than_asym (card_time card) (card_time c) after),
        Sorted-insert_card card cards s,
      )
    ]

pub Sorted-sort_cards : (cards : List WatchCard) → Sorted (sort_cards cards)
unfolding sort_cards
Sorted-sort_cards [] = tt
Sorted-sort_cards (card ∷ cards) =
    Sorted-insert_card card (sort_cards cards) (Sorted-sort_cards cards)

length-insert_card :
    (card : WatchCard) (cards : List WatchCard)
    → length (insert_card card cards) ≡ suc (length cards)
length-insert_card card [] = refl
length-insert_card card (c ∷ cards) = ground (arith, length-insert_card card cards)

pub length-sort_cards : (cards : List WatchCard) → length (sort_cards cards) ≡ length cards
unfolding sort_cards
length-sort_cards [] = refl
length-sort_cards (card ∷ cards) =
    length-insert_card card (sort_cards cards) ∙ ap suc (length-sort_cards cards)

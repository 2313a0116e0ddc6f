-- ===== src/Watch/Cards/Distinct.antt =====
-- A merge keeps the keys of the cards distinct.
use zodex.Common.{
  ◌≡◌, refl, sym, ap, subst, ◌∙◌, inl, inr, Bool, true, false, not, ◌&&◌, ◌||◌, List, [], ◌∷◌, ◌++◌,
  Option, none, some, arith, ltb, if◌then◌else◌, Bool-cases, Bytes, eq_bytes, eq_bytes_iff,
}
use zodex.Watch.Records.{
  PresentationRecord, WatchCard, is_poll, any_in, mem, raw_samples_overlap, mem_bytes,
  merge_legacy_poll_record,
}
use zodex.Watch.Cards.{
  any_card, change_first, retain, find_card, has_key, legacy_poll, merge_same, merge_legacy,
  add_card, merge_card,
}

abbrev pub keys : List WatchCard → List Bytes
keys [] = []
keys (card ∷ cards) = card.key ∷ keys cards

abbrev pub Distinct : List Bytes → Type 0
Distinct [] = Unit
Distinct (k ∷ more) = (mem_bytes k more ≡ false) × Distinct more

-- A change of one card that keeps its key.
keys-change_first :
    (test : WatchCard → Bool) (change : WatchCard → WatchCard) (cards : List WatchCard)
    → ((card : WatchCard) → (change card).key ≡ card.key)
    → keys (change_first test change cards) ≡ keys cards
keys-change_first test change [] same = refl
keys-change_first test change (card ∷ cards) same = elim (Bool-cases (test card)) [
  | inl here ↦ rw here (ap (λ (k : Bytes). k ∷ keys cards) (same card))
  | inr there ↦ rw there (ap (◌∷◌ card.key) (keys-change_first test change cards same))
]

mem-retain :
    (test : WatchCard → Bool) (k : Bytes) (cards : List WatchCard)
    → mem_bytes k (keys cards) ≡ false
    → mem_bytes k (keys (retain test cards)) ≡ false
mem-retain test k [] h = refl
mem-retain test k (card ∷ cards) h = ground (arith, mem-retain test k cards)

Distinct-retain :
    (test : WatchCard → Bool) (cards : List WatchCard)
    → Distinct (keys cards)
    → Distinct (keys (retain test cards))
Distinct-retain test [] d = tt
Distinct-retain test (card ∷ cards) (fresh, d) = elim (Bool-cases (test card)) [
  | inl stays ↦ rw stays (mem-retain test card.key cards fresh, Distinct-retain test cards d)
  | inr goes ↦ rw goes (Distinct-retain test cards d)
]

-- A card put in the place of another, under a key that no card has.
mem-replaced :
    (test : WatchCard → Bool) (new : WatchCard) (k : Bytes) (cards : List WatchCard)
    → mem_bytes k (keys cards) ≡ false
    → eq_bytes new.key k ≡ false
    → mem_bytes k (keys (change_first test (λ card. new) cards)) ≡ false
mem-replaced test new k [] h other = refl
mem-replaced test new k (card ∷ cards) h other = ground (arith, mem-replaced test new k cards)

pub or_false : (a b : Bool) → (a || b) ≡ false → (a ≡ false) × (b ≡ false)
or_false a b h = ground arith

if-Distinct :
    (test : Bool) (a b : List WatchCard)
    → Distinct (keys a)
    → Distinct (keys b)
    → Distinct (keys (if test then a else b))
if-Distinct true a b h k = h
if-Distinct false a b h k = k

pub eq_bytes_sym : (a b : Bytes) → eq_bytes a b ≡ eq_bytes b a
eq_bytes_sym a b = ground (arith, eq_bytes_iff a b, eq_bytes_iff b a)

Distinct-replaced :
    (test : WatchCard → Bool) (new : WatchCard) (cards : List WatchCard)
    → Distinct (keys cards)
    → mem_bytes new.key (keys cards) ≡ false
    → Distinct (keys (change_first test (λ card. new) cards))
Distinct-replaced test new [] d fresh = tt
Distinct-replaced test new (card ∷ cards) (first, d) fresh = elim (Bool-cases (test card)) [
  | inl here ↦ rw here ((or_false _ _ fresh).1, d)
  | inr there ↦ rw there (
    mem-replaced test new card.key cards first
        (eq_bytes_sym new.key card.key ∙ (or_false _ _ fresh).0),
    Distinct-replaced test new cards d (or_false _ _ fresh).1,
  )
]

mem-append :
    (k j : Bytes) (ks : List Bytes)
    → mem_bytes k ks ≡ false
    → eq_bytes j k ≡ false
    → mem_bytes k (ks ++ j ∷ []) ≡ false
mem-append k j [] h other = rw other refl
mem-append k j (i ∷ ks) h other = ground (arith, mem-append k j ks)

Distinct-append :
    (j : Bytes) (ks : List Bytes) → Distinct ks → mem_bytes j ks ≡ false → Distinct (ks ++ j ∷ [])
Distinct-append j [] d fresh = (refl, tt)
Distinct-append j (k ∷ ks) (first, d) fresh = (
  mem-append k j ks first (eq_bytes_sym j k ∙ (or_false _ _ fresh).0),
  Distinct-append j ks d (or_false _ _ fresh).1,
)

keys-append :
    (cards : List WatchCard) (card : WatchCard)
    → keys (cards ++ card ∷ []) ≡ keys cards ++ card.key ∷ []
keys-append [] card = refl
keys-append (c ∷ cards) card = ap (◌∷◌ c.key) (keys-append cards card)

-- No card with the key was found.
find_card-none :
    (k : Bytes) (cards : List WatchCard)
    → find_card (has_key k) cards ≡ none
    → mem_bytes k (keys cards) ≡ false
find_card-none k [] h = refl
find_card-none k (card ∷ cards) h = ground (arith, find_card-none k cards)

module _ (incoming : PresentationRecord) (duplicate_detail : Bool) (cards : List WatchCard)
    (d : Distinct (keys cards)) where
  merge_same-Distinct :
      (found : WatchCard) → Distinct (keys (merge_same cards incoming duplicate_detail found))
  unfolding merge_same
  merge_same-Distinct found =
      let same = has_key incoming.presentation_id in
      if-Distinct (duplicate_detail && is_poll found.record_.kind && is_poll incoming.kind)
        (change_first same
          (λ card. record card { record_ = merge_legacy_poll_record card.record_ incoming true })
          cards)
        (retain
          (λ card.
            same card || not (any_in card.record_.raw_invocation_ids incoming.raw_invocation_ids))
          (change_first same (λ card. record card { record_ = incoming }) cards))
        (subst Distinct (sym (keys-change_first same _ cards (λ card. refl))) d)
        (Distinct-retain _ _
          (subst Distinct (sym (keys-change_first same _ cards (λ card. refl))) d))

  merge_legacy-Distinct :
      mem_bytes incoming.presentation_id (keys cards) ≡ false
      → Distinct (keys (merge_legacy cards incoming duplicate_detail))
  unfolding merge_legacy
  merge_legacy-Distinct fresh =
      if-Distinct
        (not (mem incoming.primary_invocation_id incoming.raw_invocation_ids)
          || ltb 1 incoming.raw_evidence_count)
        (change_first (legacy_poll incoming)
          (λ card. record { key = incoming.presentation_id; record_ = incoming }) cards)
        (change_first (legacy_poll incoming)
          (λ card. record card {
            record_ = merge_legacy_poll_record card.record_ incoming duplicate_detail;
          })
          cards)
        (Distinct-replaced (legacy_poll incoming) _ cards d fresh)
        (subst Distinct (sym (keys-change_first (legacy_poll incoming) _ cards (λ card. refl))) d)

  add_card-Distinct :
      mem_bytes incoming.presentation_id (keys cards) ≡ false
      → Distinct (keys (add_card cards incoming))
  unfolding add_card
  add_card-Distinct fresh =
      let kept = λ (card : WatchCard). not (raw_samples_overlap card.record_ incoming) in
      rw
        (keys-append (retain kept cards)
          (record { key = incoming.presentation_id; record_ = incoming }))
        (Distinct-append incoming.presentation_id (keys (retain kept cards))
          (Distinct-retain kept cards d) (mem-retain kept incoming.presentation_id cards fresh))

  pub merge_card-Distinct : Distinct (keys (merge_card cards incoming duplicate_detail))
  unfolding merge_card
  merge_card-Distinct = found_cases (find_card (has_key incoming.presentation_id) cards) refl
    where
      found_cases :
          (found : Option WatchCard)
          → find_card (has_key incoming.presentation_id) cards ≡ found
          → Distinct (
              keys (elim found [
                | some card ↦ merge_same cards incoming duplicate_detail card
                | none ↦
                    if any_card (legacy_poll incoming) cards
                    then merge_legacy cards incoming duplicate_detail
                    else add_card cards incoming
              ]))
      found_cases (some card) e = merge_same-Distinct card
      found_cases none e =
          let fresh = find_card-none incoming.presentation_id cards e in
          if-Distinct (any_card (legacy_poll incoming) cards)
            (merge_legacy cards incoming duplicate_detail) (add_card cards incoming)
            (merge_legacy-Distinct fresh) (add_card-Distinct fresh)

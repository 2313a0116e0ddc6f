-- ===== src/History/OutputQueue/Order.antt =====
-- What the channel has accepted and what is still pending are the chunks offered, in order.
pub mod Runs
pub mod Offers
pub mod Ends
pub mod Calls
use zodex.Common.{
  ℕ, zero, suc, ◌+◌, ◌≡◌, ◌≢◌, refl, ap, sym, subst, ◌∙◌, ◌⊎◌, inl, inr, Bool, true, false, not,
  List, [], ◌∷◌, ◌++◌, append-nil, append_assoc, Option, none, some, arith, ◌==◌, if◌then◌else◌,
  is_some, Bool-cases, Option-cases, ==_iff,
}
use zodex.History.Overflow.{
  Reason, Chunk, OutputEvent, chunk, complete, incomplete, OutputOverflow, pending, mark_incomplete,
}
use zodex.History.OutputQueue.Pending.{
  reason_of, Queued, reason_of-mark_incomplete, pending-mark_incomplete,
}

abbrev pub chunks_of : ℕ → List OutputEvent → List Chunk
chunks_of j [] = []
chunks_of j (chunk c ∷ es) =
    let rest = chunks_of j es in if c.invocation_id == j then c ∷ rest else rest
chunks_of j (complete _ _ ∷ es) = chunks_of j es
chunks_of j (incomplete _ _ _ ∷ es) = chunks_of j es

-- Chunks of one invocation only.
abbrev pub Mine : ℕ → List OutputEvent → Type 0
Mine id [] = Unit {0}
Mine id (chunk c ∷ es) = (c.invocation_id ≡ id) × Mine id es
Mine id (complete _ _ ∷ es) = ⊥
Mine id (incomplete _ _ _ ∷ es) = ⊥

pub chunks_of-append :
    (j : ℕ) (es fs : List OutputEvent) → chunks_of j (es ++ fs) ≡ chunks_of j es ++ chunks_of j fs
chunks_of-append j [] fs = refl
chunks_of-append j (chunk c ∷ es) fs = ground (arith, chunks_of-append j es fs)
chunks_of-append j (complete _ _ ∷ es) fs = chunks_of-append j es fs
chunks_of-append j (incomplete _ _ _ ∷ es) fs = chunks_of-append j es fs

pub Mine-append :
    (id : ℕ) (es : List OutputEvent) (c : Chunk)
    → Mine id es
    → c.invocation_id ≡ id
    → Mine id (es ++ (chunk c ∷ []))
Mine-append id [] c m e = (e, tt)
Mine-append id (chunk d ∷ es) c m e = (m.0, Mine-append id es c m.1 e)
Mine-append id (complete _ _ ∷ es) c m e = m
Mine-append id (incomplete _ _ _ ∷ es) c m e = m

-- The front event of a queue, for its own invocation and for another.
front_other :
    (id j : ℕ) (e : OutputEvent) (es : List OutputEvent)
    → (id == j) ≡ false
    → Mine id (e ∷ es)
    → chunks_of j (e ∷ []) ≡ []
front_other id j (chunk c) es ne m = ground arith
front_other id j (complete _ _) es ne m = absurd m
front_other id j (incomplete _ _ _) es ne m = absurd m

pub front-Mine : (id : ℕ) (e : OutputEvent) (es : List OutputEvent) → Mine id (e ∷ es) → Mine id es
front-Mine id (chunk c) es m = m.1
front-Mine id (complete _ _) es m = absurd m
front-Mine id (incomplete _ _ _) es m = absurd m

-- For invocation `j`, of which `xs` were offered: the queues hold their own chunks, and unless
-- `j` is marked incomplete, what was sent and what is pending of it are all of `xs`, in order.
pub record Ordered (j : ℕ) (xs : List Chunk) (o : OutputOverflow) (sent : List OutputEvent)
    : Type 0 where
  pub mine : (i : ℕ) → Mine i (pending o i)
  pub order : reason_of o j ≡ none → chunks_of j sent ++ chunks_of j (pending o j) ≡ xs

module _ {j : ℕ} {xs : List Chunk} {o : OutputOverflow} {sent : List OutputEvent} where
  Mine-of_queue :
      (id : ℕ) (events : List OutputEvent) (o' : OutputOverflow)
      → ((i : ℕ) → pending o' i ≡ (if id == i then events else pending o i))
      → Mine id events
      → Ordered j xs o sent
      → (i : ℕ) → Mine i (pending o' i)
  Mine-of_queue id events o' q m v i = elim (Bool-cases (id == i)) [
    | inl same ↦
        let e : id ≡ i = (==_iff id i).0 same in rw (q i, same) (subst (λ k. Mine k events) e m)
    | inr other ↦ rw (q i, other) (v.mine i)
  ]

  -- The front of the queue is sent.
  pub sent-Ordered :
      (id : ℕ) (e : OutputEvent) (rest : List OutputEvent) (o' : OutputOverflow)
      → pending o id ≡ e ∷ rest
      → Queued o id rest o'
      → Ordered j xs o sent
      → Ordered j xs o' (sent ++ (e ∷ []))
  sent-Ordered id e rest o' p q v =
      let own : Mine id (e ∷ rest) = rw p at (v.mine id) in
      record {
        mine = Mine-of_queue id rest o' q.queue (front-Mine id e rest own) v;
        order = λ n.
            let before = v.order (sym (q.reasons j) ∙ n) in
            elim (Bool-cases (id == j)) [
              | inl same ↦
                  let here : pending o j ≡ e ∷ rest =
                    subst (λ k. pending o k ≡ e ∷ rest) ((==_iff id j).0 same) p in
                  rw
                    (
                      chunks_of-append j sent (e ∷ []),
                      q.queue j,
                      same,
                      append_assoc,
                      ← chunks_of-append j (e ∷ []) rest,
                    )
                    (rw here at before)
              | inr other ↦
                  rw
                    (
                      chunks_of-append j sent (e ∷ []),
                      q.queue j,
                      other,
                      front_other id j e rest other own,
                      append-nil,
                    )
                    before
            ];
      }

  -- The queues and the reasons are as they were.
  pub same-Ordered :
      (o' : OutputOverflow)
      → ((i : ℕ) → pending o' i ≡ pending o i)
      → (reason_of o' j ≡ none → reason_of o j ≡ none)
      → Ordered j xs o sent
      → Ordered j xs o' sent
  same-Ordered o' q r v = record {
    mine = λ i. rw (q i) (v.mine i);
    order = λ n. rw (q j) (v.order (r n));
  }

  -- The invocation is given up: its queue is replaced, and it has a reason.
  pub lost-Ordered :
      (id : ℕ) (events : List OutputEvent) (o' : OutputOverflow) (ys : List Chunk)
      → ((i : ℕ) → pending o' i ≡ (if id == i then events else pending o i))
      → reason_of o' id ≢ none
      → (reason_of o' j ≡ none → reason_of o j ≡ none)
      → Mine id events
      → ((id == j) ≡ false → ys ≡ xs)
      → Ordered j xs o sent
      → Ordered j ys o' sent
  lost-Ordered id events o' ys q lost r m other v = record {
    mine = Mine-of_queue id events o' q m v;
    order = λ n. elim (Bool-cases (id == j)) [
      | inl same ↦ absurd (lost (rw ((==_iff id j).0 same) n))
      | inr ne ↦ rw (q j, ne, other ne) (v.order (r n))
    ];
  }

  -- A chunk goes to the end of its queue.
  pub Queued-Ordered :
      (c : Chunk) (o' : OutputOverflow)
      → Queued o c.invocation_id (pending o c.invocation_id ++ (chunk c ∷ [])) o'
      → Ordered j xs o sent
      → Ordered j (xs ++ chunks_of j (chunk c ∷ [])) o' sent
  Queued-Ordered c o' q v = record {
    mine =
        Mine-of_queue c.invocation_id _ o' q.queue
          (Mine-append c.invocation_id _ c (v.mine c.invocation_id) refl) v;
    order = λ n.
        let before = v.order (sym (q.reasons j) ∙ n) in
        elim (Bool-cases (c.invocation_id == j)) [
          | inl same ↦
              let e = (==_iff c.invocation_id j).0 same in
              let here : pending o' j ≡ pending o j ++ (chunk c ∷ []) =
                q.queue j ∙ rw same (ap (λ k. pending o k ++ (chunk c ∷ [])) e) in
              rw (here, chunks_of-append j (pending o j) (chunk c ∷ []), ← append_assoc)
                (ap (λ t. t ++ chunks_of j (chunk c ∷ [])) before)
          | inr ne ↦ rw (q.queue j, ne) (rw append-nil before)
        ];
  }

  -- A chunk is sent with none pending before it.
  pub direct-Ordered :
      (c : Chunk)
      → pending o c.invocation_id ≡ []
      → Ordered j xs o sent
      → Ordered j (xs ++ chunks_of j (chunk c ∷ [])) o (sent ++ (chunk c ∷ []))
  direct-Ordered c p v = record {
    mine = v.mine;
    order = λ n. elim (Bool-cases (c.invocation_id == j)) [
      | inl same ↦
          let here : pending o j ≡ [] =
            subst (λ k. pending o k ≡ []) ((==_iff c.invocation_id j).0 same) p in
          let before : chunks_of j sent ≡ xs =
            sym (append-nil (chunks_of j sent)) ∙ (rw here at (v.order n)) in
          rw (chunks_of-append j sent (chunk c ∷ []), before, here) (rw append-nil)
      | inr ne ↦
          rw (chunks_of-append j sent (chunk c ∷ []))
            (rw ne (rw (append-nil, append-nil) (v.order n)))
    ];
  }

  -- What is no chunk may be sent at any time.
  pub completion-Ordered :
      (e : OutputEvent)
      → chunks_of j (e ∷ []) ≡ []
      → Ordered j xs o sent
      → Ordered j xs o (sent ++ (e ∷ []))
  completion-Ordered e none_of v = record {
    mine = v.mine;
    order = λ n. rw (chunks_of-append j sent (e ∷ []), none_of, append-nil) (v.order n);
  }

-- ===== src/Session/Manager/Gone.antt =====
-- Sessions that have exited for good, and the map of sessions, under the polls of an eviction.
use zodex.Common.{
  is_empty, ℕ, suc, ◌≡◌, ◌≢◌, refl, sym, ap, subst, ◌∙◌, inl, inr, Bool, true, ◌&&◌, List, [], ◌∷◌,
  Option, none, some, arith, is_some, Option-cases, Bool-cases, ◌==◌, ==_iff, length,
}
use zodex.Common.Dict.{lookup, insert, remove, lookup-insert, Distinct, total, weight, total-remove}
use zodex.Session.Process.{owned_process_end, ended_with}
use zodex.Session.World.{ℤ, Os, World, SessionInner}
use zodex.Session.Process.Reaping.{Final}
use zodex.Session.Runtime.{SessionRuntime, is_exited, reap_and_record_exit}
use zodex.Session.Runtime.Turns.{reap_and_record_exit-Reaped, empty_nil}
use zodex.Session.Runtime.Rounds.{is_exited-Good}
use zodex.Session.Manager.{SessionManager, poll}

-- The runtime at the address has exited for good.
abbrev pub Gone : SessionManager → ℕ → Type 0
Gone m a = (r : SessionRuntime) × (lookup a m.store ≡ some r) × Final r.inner

abbrev pub Listed : List (ℕ × ℕ) → List (ℕ × ℕ) → Type 0
Listed sessions [] = Unit {0}
Listed sessions ((h, a) ∷ candidates) = (lookup h sessions ≡ some a) × Listed sessions candidates

Listed-cons :
    (k b : ℕ) (sessions candidates : List (ℕ × ℕ))
    → lookup k sessions ≡ none
    → Listed sessions candidates
    → Listed ((k, b) ∷ sessions) candidates
unfolding lookup
Listed-cons k b sessions [] n l = tt
Listed-cons k b sessions ((h, a) ∷ candidates) n l = (
  elim (Bool-cases (k == h)) [
    | inl e ↦ cc (sym n ∙ ap (λ x. lookup x sessions) ((==_iff k h).0 e) ∙ l.0)
    | inr e ↦ rw e l.0
  ],
  Listed-cons k b sessions candidates n l.1,
)

pub Listed-all : (sessions : List (ℕ × ℕ)) → Distinct sessions → Listed sessions sessions
unfolding lookup
Listed-all [] d = tt
Listed-all ((k, b) ∷ sessions) d =
    (rw ((==_iff k k).1 refl) refl, Listed-cons k b sessions sessions d.0 (Listed-all sessions d.1))

length-total : (m : List (ℕ × ℕ)) → length m ≡ total (λ _. 1) m
length-total [] = refl
length-total ((k, v) ∷ m) = omega (arith, length-total m)

pub length-remove :
    (h a : ℕ) (m : List (ℕ × ℕ))
    → Distinct m
    → lookup h m ≡ some a
    → suc (length (remove h m)) ≡ length m
length-remove h a m d e = omega (
  arith,
  length-total m,
  length-total (remove h m),
  total-remove (λ _. 1) h m d,
  ap (weight (λ _. 1)) e,
)

pub Final-end : (inner : SessionInner) → Final inner → owned_process_end inner ≢ none
unfolding owned_process_end
Final-end inner f e =
    let empty : is_empty inner.owned_group_members ≡ true = ap is_empty f.1 in
    by inner.reaped_exit_code f.0 (rw empty at e)
  where
    by : (code : Option ℤ) → is_some code ≡ true → ended_with inner code ≢ none
    by none h g = cc (h)
    by (some c) h g = cc (g)

module _ (os : Os) where
  pub poll-sessions :
      (m : SessionManager) (w : World) (a : ℕ) → (poll os m w a).manager.sessions ≡ m.sessions
  unfolding poll
  poll-sessions m w a = elim (Option-cases (lookup a m.store)) [
    | inl e ↦ rw (e, poll) refl
    | inr (r, e) ↦ rw (e, poll) refl
  ]

  pub poll-max_sessions :
      (m : SessionManager) (w : World) (a : ℕ)
      → (poll os m w a).manager.max_sessions ≡ m.max_sessions
  unfolding poll
  poll-max_sessions m w a = elim (Option-cases (lookup a m.store)) [
    | inl e ↦ rw (e, poll) refl
    | inr (r, e) ↦ rw (e, poll) refl
  ]

  -- What is gone stays so.
  pub poll-Gone :
      (m : SessionManager) (w : World) (a b : ℕ) → Gone m b → Gone (poll os m w a).manager b
  unfolding poll insert
  poll-Gone m w a b (r, e, f) = elim (Option-cases (lookup a m.store)) [
    | inl none_there ↦ rw (none_there, poll) (r, e, f)
    | inr (s, there) ↦
        let turn = is_exited os s w in
        rw (there, poll)
          (elim (Bool-cases (a == b)) [
            | inl same ↦
                let is_s : r ≡ s =
                  cc (sym e ∙ ap (λ x. lookup x m.store) (sym ((==_iff a b).0 same)) ∙ there) in
                (
                  turn.runtime,
                  lookup-insert a b turn.runtime m.store ∙ rw same refl,
                  (is_exited-Good os s w).final (subst (λ x. Final x.inner) is_s f),
                )
            | inr other ↦ (r, lookup-insert a b turn.runtime m.store ∙ rw other e, f)
          ])
  ]

  is_exited-Final :
      (r : SessionRuntime) (w : World)
      → (is_exited os r w).result ≡ some true
      → Final (is_exited os r w).runtime.inner
  unfolding is_exited
  is_exited-Final r w f =
      let reaped = reap_and_record_exit os r.owned_process r.inner w in
      let p = reap_and_record_exit-Reaped os r.owned_process r.inner w in
      elim (Option-cases reaped.result) [
        | inl e ↦ cc (rw (e, is_exited) at f)
        | inr (exit, e) ↦
            let both : is_some exit && is_empty reaped.inner.owned_group_members ≡ true =
              cc (rw (e, is_exited) at f) in
            (
              ap is_some (p.told exit e) ∙ left _ _ both,
              empty_nil reaped.inner.owned_group_members (right _ _ both),
            )
      ]
    where
      left : (a b : Bool) → a && b ≡ true → a ≡ true
      left a b h = ground (arith, h)

      right : (a b : Bool) → a && b ≡ true → b ≡ true
      right a b h = ground (arith, h)

  -- A poll that answers that the session has exited.
  pub poll-is_exited :
      (m : SessionManager) (w : World) (a : ℕ)
      → (poll os m w a).result ≡ some true
      → Gone (poll os m w a).manager a
  unfolding poll
  poll-is_exited m w a f = elim (Option-cases (lookup a m.store)) [
    | inl e ↦ cc (rw (e, poll) at f)
    | inr (r, e) ↦
        let turn = is_exited os r w in
        rw (e, poll)
          (
            turn.runtime,
            lookup-insert a a turn.runtime m.store ∙ rw ((==_iff a a).1 refl) refl,
            is_exited-Final r w (rw (e, poll) at f),
          )
  ]

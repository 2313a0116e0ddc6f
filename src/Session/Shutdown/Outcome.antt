-- ===== src/Session/Shutdown/Outcome.antt =====
-- What the passes and the waits of a shutdown leave.
use zodex.Common.{
  is_empty, ℕ, zero, suc, ◌≤◌, ◌≡◌, refl, sym, ap, subst, ◌∙◌, inl, inr, Bool, true, false, ◌&&◌,
  ◌||◌, not, List, [], ◌∷◌, some, arith, is_some, Option-cases, Bool-cases, if◌then◌else◌, ◌==◌,
  ==_iff, leb,
}
use zodex.Common.Dict.{lookup, lookup-insert}
use zodex.Session.World.{Os, World, called}
use zodex.Session.Process.{owned_process_end}
use zodex.Session.Process.Reaping.{Final}
use zodex.Session.Runtime.{SessionRuntime, reap_and_record_exit, release_if}
use zodex.Session.Runtime.Turns.{Good, release_if-Good}
use zodex.Session.Manager.{SessionManager, update}
use zodex.Session.Shutdown.{Pass, wait_one, each, wait_for_session_exits_until}
use zodex.Session.Shutdown.Passes.{GoodPass, wait_one-GoodPass}
use zodex.Session.Manager.Gone.{Final-end}
use zodex.Session.World.{OwnedProcessEnd}
use zodex.Session.Runtime.{release_process_ownership, ended_entry}
use zodex.Session.Runtime.Turns.{reap_and_record_exit-Reaped, empty_nil}

-- Only the runtimes may differ.
abbrev pub Framed : SessionManager → SessionManager → Type 0
Framed m m' = m' ≡ record m { store = m'.store }

pub Framed-trans : (a b c : SessionManager) → Framed a b → Framed b c → Framed a c
Framed-trans a b c p q =
    let last : SessionManager → SessionManager = λ x. record x { store = c.store } in q ∙ ap last p

-- A runtime that has exited for good, and whose owner has been told.
abbrev pub Done : SessionManager → ℕ → Type 0
Done m a =
    (r : SessionRuntime) → lookup a m.store ≡ some r → Final r.inner × (r.ownership_released ≡ true)

abbrev pub AllDone : SessionManager → List ℕ → Type 0
AllDone m [] = Unit {0}
AllDone m (a ∷ runtimes) = Done m a × AllDone m runtimes

release_if-told :
    (r : SessionRuntime) (w : World)
    → Final r.inner
    → (release_if r w (owned_process_end r.inner)).0.ownership_released ≡ true
unfolding release_process_ownership
release_if-told r w f = elim (Option-cases (owned_process_end r.inner)) [
  | inl e ↦ absurd (Final-end r.inner f e)
  | inr (end, e) ↦ rw e (by end r.ownership_released refl)
]
  where
    by :
        (end : OwnedProcessEnd) (b : Bool)
        → r.ownership_released ≡ b
        → (let q : SessionRuntime × World = if b then (r, w) else (
          record r { ownership_released = true },
          if is_some r.owned_process then ended_entry r.internal_session_id end w else w,
        ) in
            q.0.ownership_released ≡ true)
    by end true e = e
    by end false e = refl

and_both : (a b : Bool) → a && b ≡ true → (a ≡ true) × (b ≡ true)
and_both a b h = ground (arith, h)

module _ (os : Os) where
  pub each-Framed :
      (pass : Pass os) (m : SessionManager) (w : World) (runtimes : List ℕ) (count : ℕ)
      → Framed m (each os pass m w runtimes count).manager
  unfolding each
  each-Framed pass m w [] count = refl
  each-Framed pass m w (a ∷ runtimes) count = elim (Option-cases (lookup a m.store)) [
    | inl e ↦ rw (e, each) (each-Framed pass m w runtimes count)
    | inr (r, e) ↦
        let turn = pass r w in
        let m' = update m a turn.runtime in
        elim (Option-cases turn.result) [
          | inl f ↦ rw (e, f, each) refl
          | inr (true, f) ↦
              rw (e, f, each)
                (Framed-trans m m' _ refl (each-Framed pass m' turn.world runtimes (suc count)))
          | inr (false, f) ↦
              rw (e, f, each)
                (Framed-trans m m' _ refl (each-Framed pass m' turn.world runtimes count))
        ]
  ]

  each-count :
      (pass : Pass os) (m : SessionManager) (w : World) (runtimes : List ℕ) (count n : ℕ)
      → (each os pass m w runtimes count).result ≡ some n
      → count ≤ n
  unfolding each
  each-count pass m w [] count n g = let e : count ≡ n = cc (g) in omega (arith, e)
  each-count pass m w (a ∷ runtimes) count n g = elim (Option-cases (lookup a m.store)) [
    | inl e ↦ each-count pass m w runtimes count n (rw (e, each) at g)
    | inr (r, e) ↦
        let turn = pass r w in
        let m' = update m a turn.runtime in
        elim (Option-cases turn.result) [
          | inl f ↦ cc (rw (e, f, each) at g)
          | inr (true, f) ↦
              omega
                (arith, each-count pass m' turn.world runtimes (suc count) n (rw (e, f, each) at g))
          | inr (false, f) ↦ each-count pass m' turn.world runtimes count n (rw (e, f, each) at g)
        ]
  ]

  -- What is done stays so under a good pass.
  update-Done :
      (m : SessionManager) (a b : ℕ) (r r' : SessionRuntime) (w w' : World)
      → lookup a m.store ≡ some r
      → Good os r w r' w'
      → Done m b
      → Done (update m a r') b
  update-Done m a b r r' w w' found g d s e = elim (Bool-cases (a == b)) [
    | inl same ↦
        let here : r' ≡ s = cc (rw same at (sym (lookup-insert a b r' m.store) ∙ e)) in
        let before = d r (ap (λ x. lookup x m.store) (sym ((==_iff a b).0 same)) ∙ found) in
        subst (λ x. Final x.inner × (x.ownership_released ≡ true)) here
          (g.final before.0, g.given_up before.1)
    | inr other ↦ d s (rw other at (sym (lookup-insert a b r' m.store) ∙ e))
  ]

  each-Done :
      (pass : Pass os) (m : SessionManager) (w : World) (runtimes : List ℕ) (count b : ℕ)
      → GoodPass os pass
      → Done m b
      → Done (each os pass m w runtimes count).manager b
  unfolding each
  each-Done pass m w [] count b good d = d
  each-Done pass m w (a ∷ runtimes) count b good d = elim (Option-cases (lookup a m.store)) [
    | inl e ↦ rw (e, each) (each-Done pass m w runtimes count b good d)
    | inr (r, e) ↦
        let turn = pass r w in
        let m' = update m a turn.runtime in
        let d' : Done m' b = update-Done m a b r turn.runtime w turn.world e (good r w) d in
        elim (Option-cases turn.result) [
          | inl f ↦ rw (e, f, each) d'
          | inr (true, f) ↦
              rw (e, f, each) (each-Done pass m' turn.world runtimes (suc count) b good d')
          | inr (false, f) ↦ rw (e, f, each) (each-Done pass m' turn.world runtimes count b good d')
        ]
  ]

  wait_one-told :
      (r : SessionRuntime) (w : World)
      → (wait_one os r w).result ≡ some false
      → Final (wait_one os r w).runtime.inner
        × ((wait_one os r w).runtime.ownership_released ≡ true)
  unfolding wait_one
  wait_one-told r w g =
      let reaped = reap_and_record_exit os r.owned_process r.inner (called w) in
      let p = reap_and_record_exit-Reaped os r.owned_process r.inner (called w) in
      let after : SessionRuntime = record r { inner = reaped.inner } in
      elim (Bool-cases (not (os.try_lock w.calls))) [
        | inl e ↦ cc (rw (e, wait_one) at g)
        | inr e ↦ elim (Option-cases reaped.result) [
          | inl f ↦ cc (rw (e, f, wait_one) at g)
          | inr (exit, f) ↦
              elim (Bool-cases (is_some exit && is_empty reaped.inner.owned_group_members)) [
                | inl h ↦
                    let (coded, alone) = and_both _ _ h in
                    let final : Final reaped.inner = (
                      ap is_some (p.told exit f) ∙ coded,
                      empty_nil reaped.inner.owned_group_members alone,
                    ) in
                    rw (e, f, h, wait_one)
                      (
                        (release_if-Good os after reaped.world).final final,
                        release_if-told after reaped.world final,
                      )
                | inr h ↦ cc (rw (e, f, h, wait_one) at g)
              ]
        ]
      ]

  -- A poll that counts no survivor.
  no_survivor :
      (m : SessionManager) (w : World) (runtimes : List ℕ) (count : ℕ)
      → (each os (wait_one os) m w runtimes count).result ≡ some 0
      → AllDone (each os (wait_one os) m w runtimes count).manager runtimes
  unfolding each
  no_survivor m w [] count g = tt
  no_survivor m w (a ∷ runtimes) count g = elim (Option-cases (lookup a m.store)) [
    | inl e ↦
        let step : each os (wait_one os) m w (a ∷ runtimes) count
            ≡ each os (wait_one os) m w runtimes count =
          rw (e, each) refl in
        subst (λ q. AllDone q.manager (a ∷ runtimes)) (sym step)
          (
            each-Done (wait_one os) m w runtimes count a (wait_one-GoodPass os)
                (λ r there. cc (e, there)),
            no_survivor m w runtimes count (rw (e, each) at g),
          )
    | inr (r, e) ↦
        let turn = wait_one os r w in
        let m' = update m a turn.runtime in
        elim (Option-cases turn.result) [
          | inl f ↦ cc (rw (e, f, each) at g)
          | inr (true, f) ↦ absurd (
              positive count (
                each-count (wait_one os) m' turn.world runtimes (suc count) 0
                  (rw (e, f, each) at g)))
          | inr (false, f) ↦
              let told = wait_one-told r w f in
              let here : Done m' a = λ s there.
                let same : turn.runtime ≡ s = cc (
                  rw ((==_iff a a).1 refl) at
                    (sym (lookup-insert a a turn.runtime m.store) ∙ there)) in
                subst (λ x. Final x.inner × (x.ownership_released ≡ true)) same told in
              let step : each os (wait_one os) m w (a ∷ runtimes) count
                  ≡ each os (wait_one os) m' turn.world runtimes count =
                rw (e, f, each) refl in
              subst (λ q. AllDone q.manager (a ∷ runtimes)) (sym step)
                (
                  each-Done (wait_one os) m' turn.world runtimes count a (wait_one-GoodPass os)
                      here,
                  no_survivor m' turn.world runtimes count (rw (e, f, each) at g),
                )
        ]
  ]
    where
      positive : (n : ℕ) → suc n ≤ 0 → ⊥
      positive n h = omega (arith, h)

  -- The same of a wait that ends without survivors.
  pub waited-AllDone :
      (polls : ℕ) (m : SessionManager) (w : World) (runtimes : List ℕ) (deadline : ℕ)
      → (let q = wait_for_session_exits_until os polls m w runtimes deadline in
          q.result ≡ some 0 → AllDone q.manager runtimes)
  unfolding wait_for_session_exits_until
  waited-AllDone zero m w runtimes deadline g = no_survivor m w runtimes 0 g
  waited-AllDone (suc polls) m w runtimes deadline g =
      let round = each os (wait_one os) m w runtimes 0 in
      elim (Option-cases round.result) [
        | inl e ↦ cc (e, rw (e, wait_for_session_exits_until) at g)
        | inr (survivors, e) ↦
            elim (Bool-cases (survivors == 0 || leb deadline (os.now round.world.calls))) [
              | inl f ↦
                  let none_left : survivors ≡ 0 =
                    cc (rw (e, f, wait_for_session_exits_until) at g) in
                  rw (e, f, wait_for_session_exits_until)
                    (no_survivor m w runtimes 0 (e ∙ ap (λ n. some n) none_left))
              | inr f ↦
                  rw (e, f, wait_for_session_exits_until)
                    (waited-AllDone polls round.manager (called round.world) runtimes deadline
                      (rw (e, f, wait_for_session_exits_until) at g))
            ]
      ]

  pub waited-Framed :
      (polls : ℕ) (m : SessionManager) (w : World) (runtimes : List ℕ) (deadline : ℕ)
      → Framed m (wait_for_session_exits_until os polls m w runtimes deadline).manager
  unfolding wait_for_session_exits_until
  waited-Framed zero m w runtimes deadline = each-Framed (wait_one os) m w runtimes 0
  waited-Framed (suc polls) m w runtimes deadline =
      let round = each os (wait_one os) m w runtimes 0 in
      let p = each-Framed (wait_one os) m w runtimes 0 in
      elim (Option-cases round.result) [
        | inl e ↦ rw (e, wait_for_session_exits_until) p
        | inr (survivors, e) ↦
            elim (Bool-cases (survivors == 0 || leb deadline (os.now round.world.calls))) [
              | inl f ↦ rw (e, f, wait_for_session_exits_until) p
              | inr f ↦
                  rw (e, f, wait_for_session_exits_until)
                    (Framed-trans m round.manager _ p
                      (waited-Framed polls round.manager (called round.world) runtimes deadline))
            ]
      ]

-- ===== src/Session/Runtime/Deadline.antt =====
-- That a wait answers in time.
use zodex.Common.{
  ℕ, zero, suc, ◌+◌, ◌-◌, ◌≤◌, ◌≡◌, ◌≢◌, refl, sym, ap, subst, ◌∙◌, inl, inr, Bool, true, false,
  Option, none, some, arith, leb, Option-cases,
}
use zodex.Session.Process.{Ran, maybe_force_kill}
use zodex.Session.World.{ℤ, Os, World, called, SessionInner}
use zodex.Session.Process.Reaping.{Reaped}
use zodex.Session.Process.Signals.{maybe_force_kill-Forced}
use zodex.Session.Runtime.{
  SessionRuntime, Turn, ToolOutput, decide, touch, check_idle, reap_and_record_exit, wait_round,
  wait_rounds,
}
use zodex.Session.Runtime.Turns.{reap_and_record_exit-Reaped}
use zodex.Session.Runtime.Steady.{Steady, Steady-trans, Kept-Steady, forced-Steady}

-- A decision to go round again, of a session that is not being stopped.
decide-again :
    (r : SessionRuntime) (inner : SessionInner) (exit : Option ℤ) (yielded : Bool)
    → inner.require_exit_before_return ≡ false
    → decide r inner exit yielded ≡ none
    → yielded ≡ false
unfolding decide
decide-again r inner (some code) yielded free e = cc (rw free at e)
decide-again r inner none true free e = cc (rw free at e)
decide-again r inner none false free e = refl

module _ (os : Os) where
  -- The idle timeout does not come about.
  abbrev pub Busy : SessionInner → Type 0
  Busy inner = (c : ℕ) → leb inner.idle_timeout (os.now c - inner.last_input_at) ≡ false

  check_idle-Busy :
      (inner : SessionInner) (w : World) → Busy inner → check_idle os inner w ≡ (inner, called w)
  unfolding check_idle
  check_idle-Busy inner w busy = rw (busy w.calls) refl

  -- A round that goes on has asked the clock, and the time was not up.
  record Again (r : SessionRuntime) (w : World) (started y : ℕ) (turn : Turn (Option ToolOutput))
      : Type 0 where
    steady : Steady r.inner turn.runtime.inner
    asked : ℕ
    after : w.calls ≤ asked
    next : turn.world.calls ≡ suc asked
    early : leb y (os.now asked - started) ≡ false

  wait_round-Again :
      (r : SessionRuntime) (w : World) (started y : ℕ)
      → r.inner.require_exit_before_return ≡ false
      → Busy r.inner
      → (wait_round os r w started y).result ≡ some none
      → Again r w started y (wait_round os r w started y)
  unfolding wait_round
  wait_round-Again r w started y free busy f = elim (Option-cases reaped.result) [
    | inl e ↦ cc (rw (e, wait_round) at f)
    | inr (exit, e) ↦
        let forced = maybe_force_kill os reaped.inner reaped.world in
        let last = forced-Steady os reaped.inner reaped.world in
        let lawful = (maybe_force_kill-Forced os reaped.inner reaped.world).lawful in
        let all : Steady r.inner forced.inner =
          Steady-trans r.inner reaped.inner forced.inner steady last in
        elim (Option-cases forced.result) [
          | inl g ↦ cc (rw (e, g, wait_round) at f)
          | inr (b, g) ↦
              rw (e, g, wait_round)
                (record {
                  steady = all;
                  asked = forced.world.calls;
                  after = omega (arith, lawful.later, p.quiet.later, begun);
                  next = refl;
                  early =
                      decide-again r forced.inner exit (leb y (os.now forced.world.calls - started))
                        (all.require ∙ free) (cc (rw (e, g, wait_round) at f));
                })
        ]
  ]
    where
      touched : SessionInner × World
      touched = touch os r.inner w

      checked_idle : SessionInner × World
      checked_idle = check_idle os touched.0 touched.1

      reaped : Ran (Option ℤ)
      reaped = reap_and_record_exit os r.owned_process checked_idle.0 checked_idle.1

      p : Reaped checked_idle.0 checked_idle.1 reaped
      p = reap_and_record_exit-Reaped os r.owned_process checked_idle.0 checked_idle.1

      idle : checked_idle ≡ (touched.0, called touched.1)
      idle = check_idle-Busy touched.0 touched.1 (unfold touch in busy)

      begun : w.calls ≤ checked_idle.1.calls
      begun =
          let e : checked_idle.1.calls ≡ suc touched.1.calls = ap (λ x. x.1.calls) idle in
          unfold touch in omega (arith, e)

      steady : Steady r.inner reaped.inner
      steady =
          let e : checked_idle.0 ≡ touched.0 = ap (λ x. x.0) idle in
          Steady-trans r.inner checked_idle.0 reaped.inner
            (subst (λ x. Steady r.inner x) (sym e)
              (unfold touch in
                record {
                  timed_out = refl;
                  kill_requested = refl;
                  require = refl;
                  last_input_at = refl;
                  idle_timeout = refl;
                }))
            (Kept-Steady checked_idle.0 reaped.inner p.kept)

  goes_on :
      (n : ℕ) (r : SessionRuntime) (w : World) (started y : ℕ)
      → (wait_rounds os (suc n) r w started y).result ≡ some none
      → let round = wait_round os r w started y in
        (round.result ≡ some none)
        × ((wait_rounds os n round.runtime round.world started y).result ≡ some none)
  unfolding wait_rounds
  goes_on n r w started y f = elim (Option-cases (wait_round os r w started y).result) [
    | inl e ↦ cc (rw (e, wait_rounds) at f)
    | inr (some output, e) ↦ cc (rw (e, wait_rounds) at f)
    | inr (none, e) ↦ (e, rw (e, wait_rounds) at f)
  ]

  -- A wait on a session that is not being stopped and does not become idle answers, or fails, in
  -- at most `suc n` rounds if the yield time is over once the clock has been asked `n` times.
  pub wait_rounds-answers :
      (n : ℕ) (r : SessionRuntime) (w : World) (started y : ℕ)
      → r.inner.require_exit_before_return ≡ false
      → Busy r.inner
      → ((c : ℕ) → w.calls + n ≤ c → y ≤ os.now c - started)
      → (wait_rounds os (suc n) r w started y).result ≢ some none
  wait_rounds-answers zero r w started y free busy over f =
      let (e, _) = goes_on zero r w started y f in
      let a = wait_round-Again r w started y free busy e in
      ground (arith, over a.asked (omega (arith, a.after)), a.early)
  wait_rounds-answers (suc n) r w started y free busy over f =
      let round = wait_round os r w started y in
      let (e, g) = goes_on (suc n) r w started y f in
      let a = wait_round-Again r w started y free busy e in
      wait_rounds-answers n round.runtime round.world started y (a.steady.require ∙ free)
        (λ c. rw (a.steady.idle_timeout, a.steady.last_input_at) (busy c))
        (λ c h. over c (omega (arith, h, a.next, a.after))) g

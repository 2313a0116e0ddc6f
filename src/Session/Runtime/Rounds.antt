-- ===== src/Session/Runtime/Rounds.antt =====
-- Each part of a turn is good: the wait for an exit, the input, the reaper.
use zodex.Common.{
  ℕ, zero, suc, ◌-◌, ◌≡◌, refl, ap, ◌∙◌, inl, inr, Bool, true, false, ◌&&◌, not, Option, none, some,
  arith, leb, is_some, Option-cases, Bool-cases, if◌then◌else◌,
}
use zodex.Session.Process.{Ran, owned_process_end, request_termination, maybe_force_kill}
use zodex.Session.World.{ℤ, Os, World, called, SessionInner}
use zodex.Session.Process.Reaping.{Final}
use zodex.Session.Process.Signals.{
  Lawful, Lawful-refl, Lawful-trans, called-Lawful, maybe_force_kill-Forced,
  request_termination-Lawful, request_termination-frame,
}
use zodex.Session.Runtime.{
  SessionRuntime, WriteStdinInput, release_if, reap_and_record_exit, is_exited, touch, check_idle,
  wait_round, wait_rounds, wait_for_yield_or_exit_locked, write_input, kill_wanted, begin_turn,
  continue_session, reaper_round,
}
use zodex.Session.Runtime.Turns.{Good, Good-trans, inner-Good, reaped-Good, release_if-Good}

module _ (os : Os) where
  -- A change of the state that leaves the exit code and the members alone.
  pub same-Final :
      (a b : SessionInner)
      → b.reaped_exit_code ≡ a.reaped_exit_code
      → b.owned_group_members ≡ a.owned_group_members
      → Final a
      → Final b
  same-Final a b p q f = (ap is_some p ∙ f.0, q ∙ f.1)

  pub request-Good :
      (r : SessionRuntime) (inner : SessionInner) (w0 w : World)
      → (Final r.inner → Final inner)
      → Lawful os w0 w
      → (let q = request_termination os inner w in Good os r w0 (record r { inner = q.0 }) q.1)
  request-Good r inner w0 w f l =
      let q = request_termination os inner w in
      let frame = request_termination-frame os inner w in
      inner-Good os r q.0 w0 q.1
        (λ h.
          same-Final inner q.0 (ap (λ x. x.reaped_exit_code) frame)
            (ap (λ x. x.owned_group_members) frame) (f h))
        (Lawful-trans os w0 w q.1 l (request_termination-Lawful os inner w))

  check_idle-Good :
      (r : SessionRuntime) (inner : SessionInner) (w0 w : World)
      → (Final r.inner → Final inner)
      → Lawful os w0 w
      → (let q = check_idle os inner w in Good os r w0 (record r { inner = q.0 }) q.1)
  unfolding check_idle
  check_idle-Good r inner w0 w f l =
      elim (Bool-cases
        (leb inner.idle_timeout (os.now w.calls - inner.last_input_at) && not inner.timed_out)) [
          | inl e ↦
              rw (e, check_idle)
                (request-Good r
                  (record inner { timed_out = true; require_exit_before_return = true }) w0
                  (called w) f (Lawful-trans os w0 w (called w) l (called-Lawful os w)))
          | inr e ↦
              rw (e, check_idle)
                (inner-Good os r inner w0 (called w) f
                  (Lawful-trans os w0 w (called w) l (called-Lawful os w)))
        ]

  -- A round of the wait is good: by its three parts.
  pub wait_round-Good :
      (r : SessionRuntime) (w : World) (started yield_time_ms : ℕ)
      → (let turn = wait_round os r w started yield_time_ms in Good os r w turn.runtime turn.world)
  unfolding wait_round
  wait_round-Good r w started yield_time_ms = elim (Option-cases reaped.result) [
    | inl e ↦ rw (e, wait_round) through
    | inr (exit, e) ↦
        let forced = maybe_force_kill os reaped.inner reaped.world in
        let p = maybe_force_kill-Forced os reaped.inner reaped.world in
        let r2 : SessionRuntime = record r { inner = reaped.inner } in
        let kill_lawful = p.lawful in
        let final : Final reaped.inner → Final forced.inner =
          same-Final reaped.inner forced.inner (ap (λ x. x.reaped_exit_code) p.frame)
            (ap (λ x. x.owned_group_members) p.frame) in
        elim (Option-cases forced.result) [
          | inl g ↦
              rw (e, g, wait_round)
                (Good-trans os r w r2 reaped.world _ forced.world through
                  (inner-Good os r2 forced.inner reaped.world forced.world final p.lawful))
          | inr (b, g) ↦
              rw (e, g, wait_round)
                (Good-trans os r w r2 reaped.world _ (called forced.world) through (
                  inner-Good os r2 forced.inner reaped.world (called forced.world) final (
                    Lawful-trans os reaped.world forced.world (called forced.world) p.lawful
                      (called-Lawful os forced.world))))
        ]
  ]
    where
      touched : SessionInner × World
      touched = touch os r.inner w

      checked_idle : SessionInner × World
      checked_idle = check_idle os touched.0 touched.1

      reaped : Ran (Option ℤ)
      reaped = reap_and_record_exit os r.owned_process checked_idle.0 checked_idle.1

      through : Good os r w (record r { inner = reaped.inner }) reaped.world
      through =
          let r1 : SessionRuntime = record r { inner = checked_idle.0 } in
          Good-trans os r w r1 checked_idle.1 _ reaped.world
            (check_idle-Good r touched.0 w touched.1 (unfold touch in λ f. f)
              (unfold touch in record { ended = refl; checked = λ c. c; later = omega arith }))
            (reaped-Good os r1 checked_idle.1)

  pub wait_rounds-Good :
      (n : ℕ) (r : SessionRuntime) (w : World) (started yield_time_ms : ℕ)
      → (let turn = wait_rounds os n r w started yield_time_ms in
          Good os r w turn.runtime turn.world)
  unfolding wait_rounds
  wait_rounds-Good zero r w started y = inner-Good os r r.inner w w (λ f. f) (Lawful-refl os w)
  wait_rounds-Good (suc n) r w started y =
      let round = wait_round os r w started y in
      let g = wait_round-Good r w started y in
      elim (Option-cases round.result) [
        | inl e ↦ rw (e, wait_rounds) g
        | inr (none, e) ↦
            let rest = wait_rounds os n round.runtime round.world started y in
            rw (e, wait_rounds)
              (Good-trans os r w round.runtime round.world rest.runtime rest.world g
                (wait_rounds-Good n round.runtime round.world started y))
        | inr (some output, e) ↦ rw (e, wait_rounds) g
      ]

  pub wait_for_yield_or_exit-Good :
      (n : ℕ) (r : SessionRuntime) (w : World) (y : ℕ)
      → (let turn = wait_for_yield_or_exit_locked os n r w y in Good os r w turn.runtime turn.world)
  unfolding wait_for_yield_or_exit_locked
  wait_for_yield_or_exit-Good n r w y =
      let turn = wait_rounds os n r (called w) (os.now w.calls) y in
      Good-trans os r w r (called w) turn.runtime turn.world
        (inner-Good os r r.inner w (called w) (λ f. f) (called-Lawful os w))
        (wait_rounds-Good n r (called w) (os.now w.calls) y)

  pub begin_turn-Good :
      (r : SessionRuntime) (w : World) (input : WriteStdinInput)
      → (let ran = begin_turn os r.inner w input in
          Good os r w (record r { inner = ran.inner }) ran.world)
  unfolding begin_turn write_input
  begin_turn-Good r w input = elim (Bool-cases (kill_wanted input)) [
    | inl e ↦
        rw (e, begin_turn)
          (request-Good r (record used { kill_requested = true; require_exit_before_return = true })
            w (called (called w)) (λ f. f) two)
    | inr e ↦ elim (Bool-cases (is_some input.chars)) [
      | inl f ↦ rw (e, f, begin_turn) (written used.input_writer)
      | inr f ↦ rw (e, f, begin_turn) (inner-Good os r used w (called (called w)) (λ h. h) two)
    ]
  ]
    where
      used : SessionInner
      used = record r.inner { last_used_at = os.now w.calls; last_input_at = os.now (suc w.calls) }

      two : Lawful os w (called (called w))
      two = record { ended = refl; checked = λ c. c; later = omega arith }

      written :
          (b : Bool)
          → (let ran : Ran Bool =
                if b
                then (if os.write (called (called w)).calls
                    then record {
                      inner = used;
                      world = called (called (called w));
                      result = some true;
                    }
                    else record {
                      inner = record used { input_writer = false };
                      world = called (called (called w));
                      result = none;
                    })
                else record { inner = used; world = called (called w); result = some true } in
              Good os r w (record r { inner = ran.inner }) ran.world)
      written false = inner-Good os r used w (called (called w)) (λ h. h) two
      written true = elim (Bool-cases (os.write (called (called w)).calls)) [
        | inl g ↦ rw g (
            inner-Good os r used w (called (called (called w))) (λ h. h)
              (record { ended = refl; checked = λ c. c; later = omega arith }))
        | inr g ↦ rw g (
            inner-Good os r (record used { input_writer = false }) w (called (called (called w)))
              (λ h. h) (record { ended = refl; checked = λ c. c; later = omega arith }))
      ]

  pub continue_session-Good :
      (n : ℕ) (r : SessionRuntime) (w : World) (input : WriteStdinInput) (y : ℕ)
      → (let turn = continue_session os n r w input y in Good os r w turn.runtime turn.world)
  unfolding continue_session
  continue_session-Good n r w input y =
      let begun = begin_turn os r.inner w input in
      let turned : SessionRuntime = record r { inner = begun.inner } in
      let turn = wait_for_yield_or_exit_locked os n turned begun.world y in
      elim (Option-cases begun.result) [
        | inl e ↦ rw (e, continue_session) (begin_turn-Good r w input)
        | inr (b, e) ↦
            rw (e, continue_session)
              (Good-trans os r w turned begun.world turn.runtime turn.world
                (begin_turn-Good r w input) (wait_for_yield_or_exit-Good n turned begun.world y))
      ]

  pub reaper_round-Good :
      (r : SessionRuntime) (w : World)
      → (let turn = reaper_round os r w in Good os r w turn.runtime turn.world)
  unfolding reaper_round
  reaper_round-Good r w =
      let reaped = reap_and_record_exit os r.owned_process r.inner w in
      let after : SessionRuntime = record r { inner = reaped.inner } in
      let g = reaped-Good os r w in
      elim (Option-cases reaped.result) [
        | inl e ↦ rw (e, reaper_round) g
        | inr (none, e) ↦ rw (e, reaper_round) g
        | inr (some code, e) ↦
            let q = release_if after reaped.world (owned_process_end reaped.inner) in
            rw (e, reaper_round)
              (Good-trans os r w after reaped.world q.0 q.1 g
                (release_if-Good os after reaped.world))
      ]

  pub is_exited-Good :
      (r : SessionRuntime) (w : World)
      → (let turn = is_exited os r w in Good os r w turn.runtime turn.world)
  unfolding is_exited
  is_exited-Good r w = reaped-Good os r w

-- ===== src/Session/Runtime/Answers.antt =====
-- What a turn answers.
use zodex.Common.{
  sym, subst, ◌≢◌, is_empty, ℕ, zero, suc, ◌-◌, ◌≡◌, refl, ap, ◌∙◌, ◌⊎◌, inl, inr, Bool, true,
  false, ◌&&◌, ◌||◌, not, [], Option, none, some, arith, leb, is_some, Option-cases, Bool-cases,
  if◌then◌else◌,
}
use zodex.Session.Process.{Ran, maybe_force_kill}
use zodex.Session.World.{ℤ, Os, World, called, SessionInner}
use zodex.Session.Process.Reaping.{Reaped}
use zodex.Session.Process.Signals.{maybe_force_kill-Forced}
use zodex.Session.Runtime.{
  SessionRuntime, Turn, ToolOutput, WriteStdinInput, exited_output, running_output, decide, touch,
  check_idle, reap_and_record_exit, wait_round, wait_rounds, wait_for_yield_or_exit_locked,
  write_input, kill_wanted, begin_turn, continue_session, exited,
}
use zodex.Session.Runtime.Turns.{reap_and_record_exit-Reaped, empty_nil}
use zodex.Session.Runtime.Steady.{
  Stopping, Stopping-Steady, Kept-Steady, forced-Steady, request-Steady, check_idle-Stopping,
  check_idle-kill_requested,
}

-- An exit is answered with the code that was reaped, and, of a session that has to exit first, with
-- the recorded list of members empty; a running session has not exited and was not stopped.
abbrev pub Answered : SessionRuntime → ToolOutput → Type 0
Answered r output =
    ((code : ℤ) × (r.inner.reaped_exit_code ≡ some code)
      × (output ≡ exited_output r.inner code)
      × (r.inner.require_exit_before_return ≡ true → r.inner.owned_group_members ≡ []))
    ⊎ ((r.inner.reaped_exit_code ≡ none)
        × (output ≡ running_output r r.inner)
        × (r.inner.timed_out || r.inner.kill_requested ≡ false))

decide-Answered :
    (r : SessionRuntime) (inner : SessionInner) (exit : Option ℤ) (yielded : Bool)
    (output : ToolOutput)
    → inner.reaped_exit_code ≡ exit
    → Stopping inner
    → decide r inner exit yielded ≡ some output
    → Answered (record r { inner = inner }) output
unfolding decide running_output
decide-Answered r inner (some code) yielded output told s e =
    elim (Bool-cases
      (inner.require_exit_before_return && not (is_empty inner.owned_group_members))) [
        | inl waits ↦ cc (rw waits at e)
        | inr free ↦ inl (
          code,
          told,
          cc (rw free at e),
          λ req. empty_nil inner.owned_group_members (ground (arith, req, free)),
        )
      ]
decide-Answered r inner none yielded output told s e =
    elim (Bool-cases (yielded && not inner.require_exit_before_return)) [
      | inl answers ↦ inr (told, cc (rw answers at e), ground (arith, s, answers))
      | inr waits ↦ cc (rw waits at e)
    ]

-- Why a turn has no answer yet: no exit code was reaped, or the session must not be answered before
-- the recorded list of members is empty, and it is not.
abbrev pub Waits : SessionInner → Type 0
Waits inner =
    (inner.reaped_exit_code ≡ none)
    ⊎ ((inner.require_exit_before_return ≡ true) × (inner.owned_group_members ≢ []))

decide-Waits :
    (r : SessionRuntime) (inner : SessionInner) (exit : Option ℤ) (yielded : Bool)
    → inner.reaped_exit_code ≡ exit
    → decide r inner exit yielded ≡ none
    → Waits inner
unfolding decide
decide-Waits r inner none yielded told e = inl told
decide-Waits r inner (some code) yielded told e =
    elim (Bool-cases inner.require_exit_before_return) [
      | inr free ↦ cc (rw free at e)
      | inl required ↦ elim (Bool-cases (is_empty inner.owned_group_members)) [
        | inl empty ↦ cc (rw (required, empty) at e)
        | inr some_left ↦ inr (required, λ nil. false_true (sym some_left ∙ ap is_empty nil))
      ]
    ]
  where
    false_true : false ≡ true → ⊥
    false_true h = cc

not_stopped : (a b : Bool) → a || b ≡ false → b ≡ true → ⊥
not_stopped a b e f = ground (arith, e, f)

module _ (os : Os) where
  -- The inner state when a round decides.
  record Rounded (n : ℕ) (r : SessionRuntime) (turn : Turn (Option ToolOutput)) : Type 0 where
    stopping : Stopping r.inner → Stopping turn.runtime.inner
    killed : turn.runtime.inner.kill_requested ≡ r.inner.kill_requested
    answered :
        Stopping r.inner
        → (output : ToolOutput) → turn.result ≡ some (some output)
        → Answered turn.runtime output
    waits : turn.result ≡ some none → (n ≡ 0) ⊎ Waits turn.runtime.inner

  wait_round-Rounded :
      (r : SessionRuntime) (w : World) (started y : ℕ) → Rounded 1 r (wait_round os r w started y)
  unfolding wait_round
  wait_round-Rounded r w started y = elim (Option-cases reaped.result) [
    | inl e ↦
        rw (e, wait_round)
          (record {
            stopping = kept;
            killed = same;
            answered = λ s output f. cc (f);
            waits = λ f. cc (f);
          })
    | inr (exit, e) ↦
        let forced = maybe_force_kill os reaped.inner reaped.world in
        let steady = forced-Steady os reaped.inner reaped.world in
        let code : forced.inner.reaped_exit_code ≡ exit =
          ap (λ x. x.reaped_exit_code) (maybe_force_kill-Forced os reaped.inner reaped.world).frame
          ∙ p.told exit e in
        let stops : Stopping r.inner → Stopping forced.inner =
          λ s. Stopping-Steady reaped.inner forced.inner steady (kept s) in
        elim (Option-cases forced.result) [
          | inl g ↦
              rw (e, g, wait_round)
                (record {
                  stopping = stops;
                  killed = steady.kill_requested ∙ same;
                  answered = λ s output f. cc (f);
                  waits = λ f. cc (f);
                })
          | inr (b, g) ↦
              rw (e, g, wait_round)
                (record {
                  stopping = stops;
                  killed = steady.kill_requested ∙ same;
                  answered = λ s output f.
                      decide-Answered r forced.inner exit
                        (leb y (os.now forced.world.calls - started)) output code (stops s)
                        (cc (f));
                  waits = λ f. inr (
                      decide-Waits r forced.inner exit (leb y (os.now forced.world.calls - started))
                        code (cc (f)));
                })
        ]
  ]
    where
      touched : SessionInner × World
      touched = touch os r.inner w

      checked_idle : SessionInner × World
      checked_idle = check_idle os touched.0 touched.1

      reaped : Ran (Option ℤ)
      reaped = reap_and_record_exit os r.owned_process checked_idle.0 checked_idle.1

      p : Reaped checked_idle.0 checked_idle.1 reaped
      p = reap_and_record_exit-Reaped os r.owned_process checked_idle.0 checked_idle.1

      same : reaped.inner.kill_requested ≡ r.inner.kill_requested
      same =
          (Kept-Steady checked_idle.0 reaped.inner p.kept).kill_requested
          ∙ check_idle-kill_requested os touched.0 touched.1
          ∙ (unfold touch in refl)

      kept : Stopping r.inner → Stopping reaped.inner
      kept s =
          Stopping-Steady checked_idle.0 reaped.inner
            (Kept-Steady checked_idle.0 reaped.inner p.kept)
            (check_idle-Stopping os touched.0 touched.1 (unfold touch in s))

  wait_rounds-Rounded :
      (n : ℕ) (r : SessionRuntime) (w : World) (started y : ℕ)
      → Rounded n r (wait_rounds os n r w started y)
  unfolding wait_rounds
  wait_rounds-Rounded zero r w started y = record {
    stopping = λ s. s;
    killed = refl;
    answered = λ s output f. cc (f);
    waits = λ f. inl refl;
  }
  wait_rounds-Rounded (suc n) r w started y =
      let round = wait_round os r w started y in
      let p = wait_round-Rounded r w started y in
      let q = wait_rounds-Rounded n round.runtime round.world started y in
      elim (Option-cases round.result) [
        | inl e ↦
            rw (e, wait_rounds)
              (record {
                stopping = p.stopping;
                killed = p.killed;
                answered = λ s output f. cc (f);
                waits = λ f. cc (f);
              })
        | inr (none, e) ↦
            rw (e, wait_rounds)
              (record {
                stopping = λ s. q.stopping (p.stopping s);
                killed = q.killed ∙ p.killed;
                answered = λ s output f. q.answered (p.stopping s) output f;
                waits = λ f. inr (elim (q.waits f) [
                  | inr later ↦ later
                  | inl last ↦
                      subst
                        (λ (k : ℕ).
                          Waits
                            (wait_rounds os k round.runtime round.world started y).runtime.inner)
                        (sym last)
                        (elim (p.waits e) [
                          | inl one ↦ cc (one)
                          | inr now ↦ unfold wait_rounds in now
                        ])
                ]);
              })
        | inr (some output, e) ↦
            rw (e, wait_rounds)
              (record {
                stopping = p.stopping;
                killed = p.killed;
                answered = λ s output' f. p.answered s output' (e ∙ f);
                waits = λ f. cc (f);
              })
      ]

  -- The start of a turn leaves a session that is stopped where a kill is wanted.
  record Begun (before : SessionInner) (wanted : Bool) (after : SessionInner) : Type 0 where
    stopping : Stopping before → Stopping after
    killed : wanted ≡ true → after.kill_requested ≡ true

  begin_turn-Begun :
      (inner : SessionInner) (w : World) (input : WriteStdinInput)
      → Begun inner (kill_wanted input) (begin_turn os inner w input).inner
  unfolding begin_turn write_input
  begin_turn-Begun inner w input = elim (Bool-cases (kill_wanted input)) [
    | inl e ↦
        let stopped : SessionInner = record used {
          kill_requested = true;
          require_exit_before_return = true;
        } in
        let steady = request-Steady os stopped (called (called w)) in
        rw (e, begin_turn)
          (record { stopping = λ s _. steady.require; killed = λ _. steady.kill_requested })
    | inr e ↦ elim (Bool-cases (is_some input.chars)) [
      | inl f ↦
          rw (e, f, begin_turn)
            (record { stopping = written used.input_writer; killed = λ g. cc (g) })
      | inr f ↦ rw (e, f, begin_turn) (record { stopping = λ s. s; killed = λ g. cc (g) })
    ]
  ]
    where
      used : SessionInner
      used = record inner { last_used_at = os.now w.calls; last_input_at = os.now (suc w.calls) }

      written :
          (b : Bool)
          → Stopping inner
          → (let ran : Ran Bool =
                if b
                then (if os.write (called (called w)).calls
                    then record {
                      inner = used;
                      world = called (called (called w));
                      result = some true;
                    }
                    else record {
                      inner = record used { input_writer = false };
                      world = called (called (called w));
                      result = none;
                    })
                else record { inner = used; world = called (called w); result = some true } in
              Stopping ran.inner)
      written false s = s
      written true s = elim (Bool-cases (os.write (called (called w)).calls)) [
        | inl g ↦ rw g s
        | inr g ↦ rw g s
      ]

  -- How a turn ends: with an error, with an answer, or, in the rounds given, with none.
  abbrev pub Ending : ℕ → WriteStdinInput → Turn (Option ToolOutput) → Type 0
  Ending n input turn =
      (turn.result ≡ none)
      ⊎ (((turn.result ≡ some none) × ((n ≡ 0) ⊎ Waits turn.runtime.inner))
          ⊎ ((output : ToolOutput) × (turn.result ≡ some (some output))
              × Answered turn.runtime output
              × (kill_wanted input ≡ true → output.status ≡ exited)))

  ending :
      (n : ℕ) (input : WriteStdinInput) (turn : Turn (Option ToolOutput))
      → (turn.result ≡ some none → (n ≡ 0) ⊎ Waits turn.runtime.inner)
      → ((output : ToolOutput)
          → turn.result ≡ some (some output)
          → Answered turn.runtime output × (kill_wanted input ≡ true → output.status ≡ exited))
      → Ending n input turn
  ending n input turn waits answers = elim (Option-cases turn.result) [
    | inl e ↦ inl e
    | inr (none, e) ↦ inr (inl (e, waits e))
    | inr (some output, e) ↦ let (a, k) = answers output e in inr (inr (output, e, a, k))
  ]

  -- A turn on a session whose state is sound fails, or answers, or has gone through the rounds it
  -- was given. An answer is an exit with the code that was reaped, and, if the session had to exit
  -- first, with the recorded list of members of its group empty; or that it runs, when no exit code
  -- was reaped and it was neither timed out nor killed. To a turn that wants a kill the answer is an
  -- exit. A turn that has gone through one round or more without an answer leaves a session of which
  -- no exit code was reaped, or that must exit first and has recorded members.
  pub continue_session-Answered :
      (n : ℕ) (r : SessionRuntime) (w : World) (input : WriteStdinInput) (y : ℕ)
      → Stopping r.inner
      → Ending n input (continue_session os n r w input y)
  unfolding continue_session wait_for_yield_or_exit_locked exited_output
  continue_session-Answered n r w input y s =
      let begun = begin_turn os r.inner w input in
      let turned : SessionRuntime = record r { inner = begun.inner } in
      let b = begin_turn-Begun r.inner w input in
      let q = wait_rounds-Rounded n turned (called begun.world) (os.now begun.world.calls) y in
      elim (Option-cases begun.result) [
        | inl e ↦ rw (e, continue_session) (inl refl)
        | inr (c, e) ↦
            rw (e, continue_session)
              (ending n input
                (wait_rounds os n turned (called begun.world) (os.now begun.world.calls) y) q.waits
                (λ output f.
                  let answered = q.answered (b.stopping s) output f in
                  (
                    answered,
                    λ wanted. elim answered [
                      | inl (code, told, same, free) ↦ ap (λ o. o.status) same
                      | inr (told, same, running) ↦
                          absurd (not_stopped _ _ running (q.killed ∙ b.killed wanted))
                    ],
                  )))
      ]

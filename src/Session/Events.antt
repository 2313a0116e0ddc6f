-- ===== src/Session/Events.antt =====
-- The sessions over time: commands, turns, reapers and shutdowns in any order, a wait interrupted
-- between its rounds.
pub mod Closed
use zodex.Common.{
  ℕ, refl, ap, inl, inr, Bool, true, false, List, [], ◌∷◌, Option, none, some, arith, length,
  Option-cases, if◌then◌else◌,
}
use zodex.Common.Dict.{lookup, remove-Distinct}
use zodex.Session.World.{Os, World}
use zodex.Session.Process.{owned_process_end}
use zodex.Session.Runtime.{
  SessionRuntime, Turn, ToolOutput, CommandStatus, running, exited, WriteStdinInput, begin_turn,
  wait_round, reaper_round,
}
use zodex.Session.Runtime.Turns.{Good}
use zodex.Session.Runtime.Rounds.{begin_turn-Good, wait_round-Good, reaper_round-Good}
use zodex.Session.Manager.{
  SessionManager, Host, Limits, Managed, new_manager, update, admit, settle, poll, remove_session,
}
use zodex.Session.Manager.Valid.{Valid, update-Valid, poll-Valid, remove_session-Valid}
use zodex.Session.Manager.Gone.{poll-sessions, poll-max_sessions}
use zodex.Session.Manager.Admission.{Roomy, admit-Admits, length-remove_le}
use zodex.Session.Shutdown.{shutdown_all}
use zodex.Session.Shutdown.Complete.{shutdown_all-Valid, shutdown_all-Roomy}

pub data Event : Type 0 where
  admission : Option ℕ → Event
  input : ℕ → WriteStdinInput → Event
  round : ℕ → ℕ → ℕ → Event
  reaping : ℕ → Event
  settling : ℕ → ℕ → ToolOutput → Event
  shutdown : ℕ → ℕ → Event

abbrev pub untouched : World
untouched = record { calls = 0; signals = []; ended = [] }

-- A turn at the runtime of the address, if there is one.
unfoldable pub turn_at :
    {A : Type 0}
    → SessionManager
    → World
    → ℕ
    → (SessionRuntime → World → Turn A)
    → SessionManager × World
turn_at m w a turn = elim (lookup a m.store) [
  | none ↦ (m, w)
  | some r ↦ (update m a (turn r w).runtime, (turn r w).world)
]

abbrev begun : Os → WriteStdinInput → SessionRuntime → World → Turn Bool
begun os written r w =
    let ran = begin_turn os r.inner w written in
    record { runtime = record r { inner = ran.inner }; world = ran.world; result = ran.result }

module _ (os : Os) (host : Host) (cfg : Limits) where
  unfoldable pub step : SessionManager → World → Event → SessionManager × World
  step m w (admission timeout_ms) = let q = admit os host cfg m w timeout_ms in (q.manager, q.world)
  step m w (input a written) = turn_at m w a (begun os written)
  step m w (round a started yield_time_ms) =
      turn_at m w a (λ r v. wait_round os r v started yield_time_ms)
  step m w (reaping a) = turn_at m w a (reaper_round os)
  step m w (settling handle a output) =
      let q = settle os m w handle a output in (q.manager, q.world)
  step m w (shutdown polls grace) = let q = shutdown_all os polls grace m w in (q.manager, q.world)

  unfoldable pub run_events : SessionManager → World → List Event → SessionManager × World
  run_events m w [] = (m, w)
  run_events m w (e ∷ es) = let (m', w') = step m w e in run_events m' w' es

  -- What holds throughout.
  pub record Sound (m : SessionManager) (w : World) : Type 0 where
    pub valid : Valid os m w
    pub roomy : Roomy m

  turn_at-Sound :
      {A : Type 0} (m : SessionManager) (w : World) (a : ℕ) (turn : SessionRuntime → World → Turn A)
      → ((r : SessionRuntime) (v : World) → Good os r v (turn r v).runtime (turn r v).world)
      → Sound m w
      → (let q = turn_at m w a turn in Sound q.0 q.1)
  unfolding turn_at
  turn_at-Sound m w a turn good s = elim (Option-cases (lookup a m.store)) [
    | inl e ↦ rw (e, turn_at) s
    | inr (r, e) ↦
        rw (e, turn_at)
          (record {
            valid =
                update-Valid os m w (turn r w).world a r (turn r w).runtime e (good r w) s.valid;
            roomy = record { distinct = s.roomy.distinct; fits = s.roomy.fits };
          })
  ]

  remove_session-Roomy :
      (m : SessionManager) (w : World) (handle : ℕ) → Roomy m → Roomy (remove_session m w handle).0
  unfolding remove_session
  remove_session-Roomy m w handle r = elim (Option-cases (lookup handle m.sessions)) [
    | inl e ↦ rw (e, remove_session) r
    | inr (a, e) ↦ elim (Option-cases (lookup a m.store)) [
      | inl f ↦ rw (e, f, remove_session) r
      | inr (s, f) ↦ elim (Option-cases (owned_process_end s.inner)) [
        | inl g ↦ rw (e, f, g, remove_session) r
        | inr (end, g) ↦
            rw (e, f, g, remove_session)
              (record {
                distinct = remove-Distinct handle m.sessions r.distinct;
                fits = omega (arith, r.fits, length-remove_le handle m.sessions);
              })
      ]
    ]
  ]

  poll-Roomy : (m : SessionManager) (w : World) (a : ℕ) → Roomy m → Roomy (poll os m w a).manager
  poll-Roomy m w a r = record {
    distinct = rw (poll-sessions os m w a) r.distinct;
    fits = omega (arith, r.fits, ap length (poll-sessions os m w a), poll-max_sessions os m w a);
  }

  settle-Sound :
      (m : SessionManager) (w : World) (handle a : ℕ) (output : ToolOutput)
      → Sound m w
      → (let q = settle os m w handle a output in Sound q.manager q.world)
  unfolding settle
  settle-Sound m w handle a output s = by output.status
    where
      polled : Managed Bool
      polled = poll os m w a

      p : Sound polled.manager polled.world
      p = record { valid = poll-Valid os m w a s.valid; roomy = poll-Roomy m w a s.roomy }

      by :
          (status : CommandStatus)
          → (let q : Managed Bool = elim status [
            | running ↦ record { manager = m; world = w; result = some false }
            | exited ↦ elim polled.result [
              | none ↦ record { manager = polled.manager; world = polled.world; result = none }
              | some gone ↦
                  let (m', w') = remove_session polled.manager polled.world handle in
                  if gone then record { manager = m'; world = w'; result = some true } else record {
                    manager = polled.manager;
                    world = polled.world;
                    result = some false;
                  }
            ]
          ] in
              Sound q.manager q.world)
      by running = s
      by exited = elim (Option-cases polled.result) [
        | inl e ↦ rw e p
        | inr (true, e) ↦ rw e (record {
          valid = remove_session-Valid os polled.manager polled.world handle p.valid;
          roomy = remove_session-Roomy polled.manager polled.world handle p.roomy;
        })
        | inr (false, e) ↦ rw e p
      ]

  step-Sound :
      (m : SessionManager) (w : World) (e : Event)
      → Sound m w
      → (let q = step m w e in Sound q.0 q.1)
  unfolding step
  step-Sound m w (admission timeout_ms) s =
      let a = admit-Admits os host cfg m w timeout_ms in
      record { valid = a.valid s.valid; roomy = a.roomy s.roomy }
  step-Sound m w (input a written) s =
      turn_at-Sound m w a (begun os written) (λ r v. begin_turn-Good os r v written) s
  step-Sound m w (round a started y) s =
      turn_at-Sound m w a (λ r v. wait_round os r v started y)
        (λ r v. wait_round-Good os r v started y) s
  step-Sound m w (reaping a) s = turn_at-Sound m w a (reaper_round os) (reaper_round-Good os) s
  step-Sound m w (settling handle a output) s = settle-Sound m w handle a output s
  step-Sound m w (shutdown polls grace) s = record {
    valid = shutdown_all-Valid os polls grace m w s.valid;
    roomy = shutdown_all-Roomy os polls grace m w s.roomy;
  }

  run_events-Sound_from :
      (m : SessionManager) (w : World) (es : List Event)
      → Sound m w
      → (let q = run_events m w es in Sound q.0 q.1)
  unfolding run_events
  run_events-Sound_from m w [] s = s
  run_events-Sound_from m w (e ∷ es) s =
      run_events-Sound_from (step m w e).0 (step m w e).1 es (step-Sound m w e s)

  -- After any sequence of commands, turns, reapings and shutdowns, whatever the system answers,
  -- there are no more sessions than the limit, and one entry for each handle. Under each internal id
  -- as many complete ends have been announced as there are runtimes of that id with an owner whose
  -- ownership was given up. Ownership was given up only where an exit code was reaped and the
  -- recorded list of members of the group was empty, and each process that was signalled by its
  -- number had just been found to be the one that was recorded.
  pub run_events-Sound :
      (max_sessions : ℕ) (es : List Event)
      → (let q = run_events (new_manager max_sessions) untouched es in Sound q.0 q.1)
  unfolding new_manager lookup
  run_events-Sound max_sessions es =
      run_events-Sound_from (new_manager max_sessions) untouched es (record {
        valid = record {
          distinct = tt;
          fresh = λ a h. refl;
          counted = λ id. refl;
          released = λ a r e. cc (e);
          checked = tt;
        };
        roomy = record { distinct = tt; fits = omega arith };
      })

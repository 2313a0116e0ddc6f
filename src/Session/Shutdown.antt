-- ===== src/Session/Shutdown.antt =====
-- `SessionManager::shutdown_all` of src/session/mod.rs, with the loops of src/session/shutdown.rs
-- over the sessions.
pub mod Passes
pub mod Outcome
pub mod Complete
use zodex.Common.{
  is_empty, ℕ, zero, suc, ◌+◌, Bool, true, false, ◌&&◌, ◌||◌, not, List, [], ◌∷◌, ◌++◌, Option,
  none, some, ltb, leb, ◌==◌, if◌then◌else◌, is_some,
}
use zodex.Common.Dict.{lookup}
use zodex.Session.Process.{
  Ran, owned_process_end, request_termination, signal_process_if_matching,
  signal_owned_group_members,
}
use zodex.Session.World.{
  ℤ, ProcessIdentity, ProcessSignal, terminate, kill, group, Os, World, called, signalled,
  SessionInner,
}
use zodex.Session.Runtime.{
  SessionRuntime, Turn, reap_and_record_exit, release_process_ownership, release_if,
}
use zodex.Session.Manager.{SessionManager, Managed, update}

pub record RuntimeShutdownResult : Type 0 where
  pub sessions_signaled : ℕ
  pub sessions_force_killed : ℕ
  pub descendants_signaled : ℕ
  pub descendants_force_killed : ℕ

-- The runtimes that the map refers to.
abbrev pub addresses : List (ℕ × ℕ) → List ℕ
addresses [] = []
addresses ((_, address) ∷ sessions) = address ∷ addresses sessions

abbrev pub failed : {A : Type 0} → SessionManager → World → Managed A
failed m w = record { manager = m; world = w; result = none }

module _ (os : Os) where
  unfoldable pub snapshot_descendants_before_termination :
      SessionManager → World → List ℕ → World × List ProcessIdentity
  snapshot_descendants_before_termination m w [] = (w, [])
  snapshot_descendants_before_termination m w (address ∷ runtimes) =
      let pid : ℕ = elim (lookup address m.store) [ none ↦ 0 | some r ↦ r.inner.pid ] in
      let (w', discovered) = snapshot_descendants_before_termination m (called w) runtimes in
      elim (os.descendants w.calls pid) [
        | none ↦ (w', discovered)
        | some descendants ↦ (w', descendants ++ discovered)
      ]

  -- The signals to the descendants; that one fails is only logged.
  unfoldable pub signal_descendants : World → List ProcessIdentity → ProcessSignal → World × ℕ
  signal_descendants w [] signal = (w, 0)
  signal_descendants w (descendant ∷ discovered) signal =
      let (w1, sent) = signal_process_if_matching os w descendant signal in
      let (w2, count) = signal_descendants w1 discovered signal in
      elim sent [ none ↦ (w2, count) | some true ↦ (w2, suc count) | some false ↦ (w2, count) ]

  -- What a pass does to one session: `some true` counts it.
  abbrev Pass : Type 0
  Pass = SessionRuntime → World → Turn Bool

  unfoldable pub terminate_one : Pass
  terminate_one r w =
      let reaped = reap_and_record_exit os r.owned_process r.inner w in
      let after = record r { inner = reaped.inner } in
      let stopping = record reaped.inner {
        kill_requested = true;
        require_exit_before_return = true;
      } in
      let started = record stopping {
        terminate_started_at = elim reaped.inner.terminate_started_at [
          | none ↦ some (os.now reaped.world.calls)
          | some t ↦ some t
        ];
      } in
      elim reaped.result [
        | none ↦ record { runtime = after; world = reaped.world; result = none }
        | some exit ↦ elim exit [
          | none ↦
              let (inner, w') = request_termination os stopping reaped.world in
              record { runtime = record r { inner = inner }; world = w'; result = some true }
          | some _ ↦ elim (is_empty reaped.inner.owned_group_members) [
            | false ↦
                let (w', count) =
                  signal_owned_group_members os started (called reaped.world) terminate in
                record {
                  runtime = record r { inner = started };
                  world = w';
                  result = elim count [ none ↦ none | some _ ↦ some true ];
                }
            | true ↦
                let (released, w') =
                  release_if after reaped.world (owned_process_end reaped.inner) in
                record { runtime = released; world = w'; result = some false }
          ]
        ]
      ]

  unfoldable pub kill_one : Pass
  kill_one r w =
      let reaped = reap_and_record_exit os r.owned_process r.inner w in
      let after = record r { inner = reaped.inner } in
      let forced = record r { inner = record reaped.inner { force_killed = true } } in
      elim reaped.result [
        | none ↦ record { runtime = after; world = reaped.world; result = none }
        | some exit ↦ elim exit [
          | none ↦ record {
            runtime = forced;
            world = signalled reaped.world (group r.inner.pid) kill;
            result = if os.signal reaped.world.calls then some true else none;
          }
          | some _ ↦ elim (is_empty reaped.inner.owned_group_members) [
            | false ↦
                let (w', count) = signal_owned_group_members os forced.inner reaped.world kill in
                record {
                  runtime = forced;
                  world = w';
                  result = elim count [ none ↦ none | some n ↦ some (not (n == 0)) ];
                }
            | true ↦ record { runtime = after; world = reaped.world; result = some false }
          ]
        ]
      ]

  -- A session whose lock is held counts as one that lives.
  unfoldable pub wait_one : Pass
  wait_one r w =
      let reaped = reap_and_record_exit os r.owned_process r.inner (called w) in
      let after = record r { inner = reaped.inner } in
      if not (os.try_lock w.calls)
      then record { runtime = r; world = called w; result = some true }
      else elim reaped.result [
        | none ↦ record { runtime = after; world = reaped.world; result = none }
        | some exit ↦ elim (is_some exit && is_empty reaped.inner.owned_group_members) [
          | true ↦
              let (released, w') = release_if after reaped.world (owned_process_end reaped.inner) in
              record { runtime = released; world = w'; result = some false }
          | false ↦ record { runtime = after; world = reaped.world; result = some true }
        ]
      ]

  -- A pass over the runtimes, up to the first error; the result counts.
  unfoldable pub each : Pass → SessionManager → World → List ℕ → ℕ → Managed ℕ
  each pass m w [] count = record { manager = m; world = w; result = some count }
  each pass m w (address ∷ runtimes) count = elim (lookup address m.store) [
    | none ↦ each pass m w runtimes count
    | some r ↦
        let turn = pass r w in
        let m' = update m address turn.runtime in
        elim turn.result [
          | none ↦ record { manager = m'; world = turn.world; result = none }
          | some true ↦ each pass m' turn.world runtimes (suc count)
          | some false ↦ each pass m' turn.world runtimes count
        ]
  ]

  -- The polls are bounded by the first argument; each ends with a wait for the next tick or for
  -- the deadline. The result is the number of survivors.
  unfoldable pub wait_for_session_exits_until : ℕ → SessionManager → World → List ℕ → ℕ → Managed ℕ
  wait_for_session_exits_until zero m w runtimes deadline = each wait_one m w runtimes 0
  wait_for_session_exits_until (suc polls) m w runtimes deadline =
      let round = each wait_one m w runtimes 0 in
      let rest =
        wait_for_session_exits_until polls round.manager (called round.world) runtimes deadline in
      elim round.result [
        | none ↦ round
        | some survivors ↦
            if survivors == 0 || leb deadline (os.now round.world.calls)
            then record {
              manager = round.manager;
              world = called round.world;
              result = some survivors;
            }
            else rest
      ]

  -- From the kill on.
  unfoldable pub force_all :
      ℕ
      → SessionManager
      → World
      → List ℕ
      → List ProcessIdentity
      → ℕ
      → ℕ
      → Managed RuntimeShutdownResult
  force_all polls m w runtimes discovered sessions_signaled descendants_signaled =
      let forced = each kill_one m w runtimes 0 in
      let (w1, descendants_force_killed) = signal_descendants forced.world discovered kill in
      let waited =
        wait_for_session_exits_until polls forced.manager (called w1) runtimes
          (os.now w1.calls + 1000) in
      elim forced.result [
        | none ↦ failed forced.manager forced.world
        | some sessions_force_killed ↦ elim waited.result [
          | none ↦ failed waited.manager waited.world
          | some survivors ↦
              if ltb 0 survivors then failed waited.manager waited.world else record {
                manager = record waited.manager { sessions = [] };
                world = waited.world;
                result = some (record {
                  sessions_signaled = sessions_signaled;
                  sessions_force_killed = sessions_force_killed;
                  descendants_signaled = descendants_signaled;
                  descendants_force_killed = descendants_force_killed;
                });
              }
        ]
      ]

  unfoldable pub shutdown_all : ℕ → ℕ → SessionManager → World → Managed RuntimeShutdownResult
  shutdown_all polls grace m w =
      let closed = record m { admission_closed = true } in
      let runtimes = addresses m.sessions in
      let (w1, discovered) = snapshot_descendants_before_termination closed w runtimes in
      let terminated = each terminate_one closed w1 runtimes 0 in
      let (w2, descendants_signaled) = signal_descendants terminated.world discovered terminate in
      let waited =
        wait_for_session_exits_until polls terminated.manager (called w2) runtimes
          (os.now w2.calls + grace) in
      elim terminated.result [
        | none ↦ failed terminated.manager terminated.world
        | some sessions_signaled ↦ elim waited.result [
          | none ↦ failed waited.manager waited.world
          | some _ ↦
              force_all polls waited.manager waited.world runtimes discovered sessions_signaled
                descendants_signaled
        ]
      ]

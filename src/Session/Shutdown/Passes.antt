-- ===== src/Session/Shutdown/Passes.antt =====
-- The passes of a shutdown over the sessions keep what holds of the runtimes.
use zodex.Common.{
  is_empty, ℕ, zero, suc, inl, inr, true, false, ◌&&◌, ◌||◌, not, List, [], ◌∷◌, none, some,
  is_some, Option-cases, Bool-cases, ◌==◌, leb,
}
use zodex.Common.Dict.{lookup}
use zodex.Session.World.{
  ProcessIdentity, ProcessSignal, terminate, kill, group, Os, World, called, signalled,
  SessionInner,
}
use zodex.Session.Process.{
  owned_process_end, request_termination, signal_process_if_matching, signal_owned_group_members,
}
use zodex.Session.Process.Signals.{
  Lawful, Lawful-refl, Lawful-trans, called-Lawful, group-Lawful, signal_owned-Lawful,
  signal_process_if_matching-Lawful,
}
use zodex.Session.Runtime.{SessionRuntime, reap_and_record_exit, release_if}
use zodex.Session.Runtime.Turns.{Good, Good-trans, inner-Good, reaped-Good, release_if-Good}
use zodex.Session.Runtime.Rounds.{request-Good}
use zodex.Session.Manager.{SessionManager, update}
use zodex.Session.Manager.Valid.{Valid, update-Valid, world-Valid}
use zodex.Session.Shutdown.{
  signal_descendants, Pass, terminate_one, kill_one, wait_one, each, wait_for_session_exits_until,
}

module _ (os : Os) where
  abbrev pub GoodPass : Pass os → Type 0
  GoodPass pass =
      (r : SessionRuntime) (w : World)
      → (let turn = pass r w in Good os r w turn.runtime turn.world)

  pub terminate_one-GoodPass : GoodPass (terminate_one os)
  unfolding terminate_one
  terminate_one-GoodPass r w =
      let reaped = reap_and_record_exit os r.owned_process r.inner w in
      let after : SessionRuntime = record r { inner = reaped.inner } in
      let g = reaped-Good os r w in
      let stopping : SessionInner = record reaped.inner {
        kill_requested = true;
        require_exit_before_return = true;
      } in
      let started : SessionInner = record stopping {
        terminate_started_at = elim reaped.inner.terminate_started_at [
          | none ↦ some (os.now reaped.world.calls)
          | some t ↦ some t
        ];
      } in
      elim (Option-cases reaped.result) [
        | inl e ↦ rw (e, terminate_one) g
        | inr (none, e) ↦
            let q = request_termination os stopping reaped.world in
            rw (e, terminate_one)
              (Good-trans os r w after reaped.world (record r { inner = q.0 }) q.1 g
                (request-Good os after stopping reaped.world reaped.world (λ f. f)
                  (Lawful-refl os reaped.world)))
        | inr (some code, e) ↦ elim (Bool-cases (is_empty reaped.inner.owned_group_members)) [
          | inl f ↦
              let q = release_if after reaped.world (owned_process_end reaped.inner) in
              rw (e, f, terminate_one)
                (Good-trans os r w after reaped.world q.0 q.1 g
                  (release_if-Good os after reaped.world))
          | inr f ↦
              let q = signal_owned_group_members os started (called reaped.world) terminate in
              rw (e, f, terminate_one)
                (Good-trans os r w after reaped.world (record r { inner = started }) q.0 g
                  (inner-Good os after started reaped.world q.0 (λ h. h)
                    (Lawful-trans os reaped.world (called reaped.world) q.0
                      (called-Lawful os reaped.world)
                      (signal_owned-Lawful os started (called reaped.world) terminate))))
        ]
      ]

  pub kill_one-GoodPass : GoodPass (kill_one os)
  unfolding kill_one
  kill_one-GoodPass r w =
      let reaped = reap_and_record_exit os r.owned_process r.inner w in
      let after : SessionRuntime = record r { inner = reaped.inner } in
      let g = reaped-Good os r w in
      let forced : SessionInner = record reaped.inner { force_killed = true } in
      elim (Option-cases reaped.result) [
        | inl e ↦ rw (e, kill_one) g
        | inr (none, e) ↦
            let w' = signalled reaped.world (group r.inner.pid) kill in
            rw (e, kill_one)
              (Good-trans os r w after reaped.world (record r { inner = forced }) w' g
                (inner-Good os after forced reaped.world w' (λ f. f)
                  (group-Lawful os reaped.world r.inner.pid kill)))
        | inr (some code, e) ↦ elim (Bool-cases (is_empty reaped.inner.owned_group_members)) [
          | inl f ↦ rw (e, f, kill_one) g
          | inr f ↦
              let q = signal_owned_group_members os forced reaped.world kill in
              rw (e, f, kill_one)
                (Good-trans os r w after reaped.world (record r { inner = forced }) q.0 g
                  (inner-Good os after forced reaped.world q.0 (λ h. h)
                    (signal_owned-Lawful os forced reaped.world kill)))
        ]
      ]

  pub wait_one-GoodPass : GoodPass (wait_one os)
  unfolding wait_one
  wait_one-GoodPass r w =
      let reaped = reap_and_record_exit os r.owned_process r.inner (called w) in
      let after : SessionRuntime = record r { inner = reaped.inner } in
      let held = inner-Good os r r.inner w (called w) (λ f. f) (called-Lawful os w) in
      let g =
        Good-trans os r w r (called w) after reaped.world held (reaped-Good os r (called w)) in
      elim (Bool-cases (not (os.try_lock w.calls))) [
        | inl e ↦ rw (e, wait_one) held
        | inr e ↦ elim (Option-cases reaped.result) [
          | inl f ↦ rw (e, f, wait_one) g
          | inr (exit, f) ↦
              elim (Bool-cases (is_some exit && is_empty reaped.inner.owned_group_members)) [
                | inl h ↦
                    let q = release_if after reaped.world (owned_process_end reaped.inner) in
                    rw (e, f, h, wait_one)
                      (Good-trans os r w after reaped.world q.0 q.1 g
                        (release_if-Good os after reaped.world))
                | inr h ↦ rw (e, f, h, wait_one) g
              ]
        ]
      ]

  pub each-Valid :
      (pass : Pass os) (m : SessionManager) (w : World) (runtimes : List ℕ) (count : ℕ)
      → GoodPass pass
      → Valid os m w
      → (let q = each os pass m w runtimes count in Valid os q.manager q.world)
  unfolding each
  each-Valid pass m w [] count good v = v
  each-Valid pass m w (a ∷ runtimes) count good v = elim (Option-cases (lookup a m.store)) [
    | inl e ↦ rw (e, each) (each-Valid pass m w runtimes count good v)
    | inr (r, e) ↦
        let turn = pass r w in
        let m' = update m a turn.runtime in
        let v' : Valid os m' turn.world =
          update-Valid os m w turn.world a r turn.runtime e (good r w) v in
        elim (Option-cases turn.result) [
          | inl f ↦ rw (e, f, each) v'
          | inr (true, f) ↦
              rw (e, f, each) (each-Valid pass m' turn.world runtimes (suc count) good v')
          | inr (false, f) ↦ rw (e, f, each) (each-Valid pass m' turn.world runtimes count good v')
        ]
  ]

  pub wait_for_session_exits-Valid :
      (polls : ℕ) (m : SessionManager) (w : World) (runtimes : List ℕ) (deadline : ℕ)
      → Valid os m w
      → (let q = wait_for_session_exits_until os polls m w runtimes deadline in
          Valid os q.manager q.world)
  unfolding wait_for_session_exits_until
  wait_for_session_exits-Valid zero m w runtimes deadline v =
      each-Valid (wait_one os) m w runtimes 0 wait_one-GoodPass v
  wait_for_session_exits-Valid (suc polls) m w runtimes deadline v =
      let round = each os (wait_one os) m w runtimes 0 in
      let p = each-Valid (wait_one os) m w runtimes 0 wait_one-GoodPass v in
      let p' : Valid os round.manager (called round.world) =
        world-Valid os round.manager round.world (called round.world) (called-Lawful os round.world)
          p in
      elim (Option-cases round.result) [
        | inl e ↦ rw (e, wait_for_session_exits_until) p
        | inr (survivors, e) ↦
            elim (Bool-cases (survivors == 0 || leb deadline (os.now round.world.calls))) [
              | inl f ↦ rw (e, f, wait_for_session_exits_until) p'
              | inr f ↦
                  rw (e, f, wait_for_session_exits_until)
                    (wait_for_session_exits-Valid polls round.manager (called round.world) runtimes
                      deadline p')
            ]
      ]

  pub signal_descendants-Lawful :
      (w : World) (discovered : List ProcessIdentity) (signal : ProcessSignal)
      → Lawful os w (signal_descendants os w discovered signal).0
  unfolding signal_descendants
  signal_descendants-Lawful w [] signal = Lawful-refl os w
  signal_descendants-Lawful w (d ∷ discovered) signal =
      let one = signal_process_if_matching os w d signal in
      let rest = signal_descendants os one.0 discovered signal in
      let l =
        Lawful-trans os w one.0 rest.0 (signal_process_if_matching-Lawful os w d signal)
          (signal_descendants-Lawful one.0 discovered signal) in
      elim (Option-cases one.1) [
        | inl e ↦ rw (e, signal_descendants) l
        | inr (true, e) ↦ rw (e, signal_descendants) l
        | inr (false, e) ↦ rw (e, signal_descendants) l
      ]

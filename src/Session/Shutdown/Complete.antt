-- ===== src/Session/Shutdown/Complete.antt =====
-- `shutdown_all` as a whole.
use zodex.Common.{
  ℕ, ◌+◌, ◌≡◌, refl, sym, ap, subst, ◌∙◌, ◌⊎◌, inl, inr, true, List, [], ◌∷◌, none, some, arith,
  length, Option-cases, Bool-cases, ltb,
}
use zodex.Common.Dict.{Distinct, lookup}
use zodex.Common.Dict.{total}
use zodex.Session.Runtime.Turns.{complete_ends, notified}
use zodex.Session.World.{ProcessIdentity, terminate, kill, Os, World, called}
use zodex.Session.Process.Signals.{Lawful, Lawful-refl, Lawful-trans, called-Lawful}
use zodex.Session.Manager.{SessionManager, Managed}
use zodex.Session.Manager.Valid.{sessions-Valid, Valid, world-Valid}
use zodex.Session.Shutdown.{
  failed, addresses, snapshot_descendants_before_termination, signal_descendants, terminate_one,
  kill_one, each, wait_for_session_exits_until, RuntimeShutdownResult, force_all, shutdown_all,
}
use zodex.Session.Shutdown.Passes.{
  terminate_one-GoodPass, kill_one-GoodPass, each-Valid, wait_for_session_exits-Valid,
  signal_descendants-Lawful,
}
use zodex.Session.Manager.Admission.{Roomy}
use zodex.Session.Shutdown.Outcome.{
  Framed, Framed-trans, AllDone, each-Framed, waited-AllDone, waited-Framed,
}

module _ (os : Os) where
  force_all-Valid :
      (polls : ℕ) (m : SessionManager) (w : World) (runtimes : List ℕ)
      (discovered : List ProcessIdentity) (n k : ℕ)
      → Valid os m w
      → (let q = force_all os polls m w runtimes discovered n k in Valid os q.manager q.world)
  unfolding force_all
  force_all-Valid polls m w runtimes discovered n k v =
      let forced = each os (kill_one os) m w runtimes 0 in
      let p = each-Valid os (kill_one os) m w runtimes 0 (kill_one-GoodPass os) v in
      let w1 = (signal_descendants os forced.world discovered kill).0 in
      let l =
        Lawful-trans os forced.world w1 (called w1)
          (signal_descendants-Lawful os forced.world discovered kill) (called-Lawful os w1) in
      let waited =
        wait_for_session_exits_until os polls forced.manager (called w1) runtimes
          (os.now w1.calls + 1000) in
      let q : Valid os waited.manager waited.world =
        wait_for_session_exits-Valid os polls forced.manager (called w1) runtimes
          (os.now w1.calls + 1000) (world-Valid os forced.manager forced.world (called w1) l p) in
      elim (Option-cases forced.result) [
        | inl e ↦ rw (e, force_all) p
        | inr (killed, e) ↦ elim (Option-cases waited.result) [
          | inl f ↦ rw (e, f, force_all) q
          | inr (survivors, f) ↦ elim (Bool-cases (ltb 0 survivors)) [
            | inl g ↦ rw (e, f, g, force_all) q
            | inr g ↦ rw (e, f, g, force_all) (sessions-Valid os waited.manager [] waited.world q)
          ]
        ]
      ]

  -- The map stays as it was, or is emptied.
  pub record Emptied (m : SessionManager) (runtimes : List ℕ) (q : Managed RuntimeShutdownResult)
      : Type 0 where
    pub closed : q.manager.admission_closed ≡ m.admission_closed
    pub max_sessions : q.manager.max_sessions ≡ m.max_sessions
    pub allocated : q.manager.allocated ≡ m.allocated
    pub sessions : (q.manager.sessions ≡ m.sessions) ⊎ (q.manager.sessions ≡ [])
    pub done :
        (counts : RuntimeShutdownResult)
        → q.result ≡ some counts
        → (q.manager.sessions ≡ []) × AllDone q.manager runtimes

  not_yet :
      (m m' : SessionManager) (w : World) (runtimes : List ℕ)
      → Framed m m'
      → Emptied m runtimes (failed m' w)
  not_yet m m' w runtimes f = record {
    closed = ap (λ x. x.admission_closed) f;
    max_sessions = ap (λ x. x.max_sessions) f;
    allocated = ap (λ x. x.allocated) f;
    sessions = inl (ap (λ x. x.sessions) f);
    done = λ counts e. cc (e);
  }

  emptied-AllDone :
      (m : SessionManager) (runtimes : List ℕ)
      → AllDone m runtimes
      → AllDone (record m { sessions = [] }) runtimes
  emptied-AllDone m [] d = tt
  emptied-AllDone m (a ∷ runtimes) d = (d.0, emptied-AllDone m runtimes d.1)

  force_all-Emptied :
      (polls : ℕ) (m : SessionManager) (w : World) (runtimes : List ℕ)
      (discovered : List ProcessIdentity) (n k : ℕ)
      → Emptied m runtimes (force_all os polls m w runtimes discovered n k)
  unfolding force_all
  force_all-Emptied polls m w runtimes discovered n k =
      let forced = each os (kill_one os) m w runtimes 0 in
      let w1 = (signal_descendants os forced.world discovered kill).0 in
      let waited =
        wait_for_session_exits_until os polls forced.manager (called w1) runtimes
          (os.now w1.calls + 1000) in
      let f1 : Framed m forced.manager = each-Framed os (kill_one os) m w runtimes 0 in
      let f2 : Framed m waited.manager =
        Framed-trans m forced.manager waited.manager f1
          (waited-Framed os polls forced.manager (called w1) runtimes (os.now w1.calls + 1000)) in
      elim (Option-cases forced.result) [
        | inl e ↦ rw (e, force_all) (not_yet m forced.manager forced.world runtimes f1)
        | inr (killed, e) ↦ elim (Option-cases waited.result) [
          | inl f ↦ rw (e, f, force_all) (not_yet m waited.manager waited.world runtimes f2)
          | inr (survivors, f) ↦ elim (Bool-cases (ltb 0 survivors)) [
            | inl g ↦ rw (e, f, g, force_all) (not_yet m waited.manager waited.world runtimes f2)
            | inr g ↦
                let none_left : survivors ≡ 0 = ground (arith, g) in
                let d =
                  waited-AllDone os polls forced.manager (called w1) runtimes
                    (os.now w1.calls + 1000) (f ∙ ap (λ n. some n) none_left) in
                rw (e, f, g, force_all)
                  (record {
                    closed = ap (λ x. x.admission_closed) f2;
                    max_sessions = ap (λ x. x.max_sessions) f2;
                    allocated = ap (λ x. x.allocated) f2;
                    sessions = inr refl;
                    done = λ counts h. (refl, emptied-AllDone waited.manager runtimes d);
                  })
          ]
        ]
      ]

  pub shutdown_all-Emptied :
      (polls grace : ℕ) (m : SessionManager) (w : World)
      → Emptied
          (record m { admission_closed = true })
          (addresses m.sessions)
          (shutdown_all os polls grace m w)
  unfolding shutdown_all
  shutdown_all-Emptied polls grace m w =
      let closed = record m { admission_closed = true } in
      let runtimes = addresses m.sessions in
      let snapshot = snapshot_descendants_before_termination os closed w runtimes in
      let terminated = each os (terminate_one os) closed snapshot.0 runtimes 0 in
      let signals = signal_descendants os terminated.world snapshot.1 terminate in
      let deadline = os.now signals.0.calls + grace in
      let waited =
        wait_for_session_exits_until os polls terminated.manager (called signals.0) runtimes
          deadline in
      let f1 : Framed closed terminated.manager =
        each-Framed os (terminate_one os) closed snapshot.0 runtimes 0 in
      let f2 : Framed closed waited.manager =
        Framed-trans closed terminated.manager waited.manager f1
          (waited-Framed os polls terminated.manager (called signals.0) runtimes deadline) in
      elim (Option-cases terminated.result) [
        | inl e ↦
            rw (e, shutdown_all) (not_yet closed terminated.manager terminated.world runtimes f1)
        | inr (n, e) ↦ elim (Option-cases waited.result) [
          | inl f ↦ rw (e, f, shutdown_all) (not_yet closed waited.manager waited.world runtimes f2)
          | inr (k, f) ↦
              let p =
                force_all-Emptied polls waited.manager waited.world runtimes snapshot.1 n
                  signals.1 in
              rw (e, f, shutdown_all)
                (record {
                  closed = p.closed ∙ ap (λ x. x.admission_closed) f2;
                  max_sessions = p.max_sessions ∙ ap (λ x. x.max_sessions) f2;
                  allocated = p.allocated ∙ ap (λ x. x.allocated) f2;
                  sessions = elim p.sessions [
                    | inl same ↦ inl (same ∙ ap (λ x. x.sessions) f2)
                    | inr none_left ↦ inr none_left
                  ];
                  done = p.done;
                })
        ]
      ]

  pub shutdown_all-Roomy :
      (polls grace : ℕ) (m : SessionManager) (w : World)
      → Roomy m
      → Roomy (shutdown_all os polls grace m w).manager
  shutdown_all-Roomy polls grace m w r =
      let p = shutdown_all-Emptied polls grace m w in
      elim p.sessions [
        | inl same ↦ record {
          distinct = subst Distinct (sym same) r.distinct;
          fits = omega (arith, r.fits, ap length same, p.max_sessions);
        }
        | inr none_left ↦ record {
          distinct = subst Distinct (sym none_left) tt;
          fits = omega (arith, ap length none_left);
        }
      ]

  snapshot-Lawful :
      (m : SessionManager) (w : World) (runtimes : List ℕ)
      → Lawful os w (snapshot_descendants_before_termination os m w runtimes).0
  unfolding snapshot_descendants_before_termination
  snapshot-Lawful m w [] = Lawful-refl os w
  snapshot-Lawful m w (a ∷ runtimes) =
      let pid : ℕ = elim (lookup a m.store) [ none ↦ 0 | some r ↦ r.inner.pid ] in
      let rest = snapshot_descendants_before_termination os m (called w) runtimes in
      let l =
        Lawful-trans os w (called w) rest.0 (called-Lawful os w)
          (snapshot-Lawful m (called w) runtimes) in
      elim (Option-cases (os.descendants w.calls pid)) [
        | inl e ↦ rw (e, snapshot_descendants_before_termination) l
        | inr (found, e) ↦ rw (e, snapshot_descendants_before_termination) l
      ]

  terminated-Valid :
      (m : SessionManager) (w : World)
      → Valid os m w
      → (let closed = record m { admission_closed = true } in
          let snapshot =
            snapshot_descendants_before_termination os closed w (addresses m.sessions) in
          let q = each os (terminate_one os) closed snapshot.0 (addresses m.sessions) 0 in
          Valid os q.manager q.world)
  terminated-Valid m w v =
      let closed = record m { admission_closed = true } in
      let snapshot = snapshot_descendants_before_termination os closed w (addresses m.sessions) in
      let start : Valid os closed w = record {
        distinct = v.distinct;
        fresh = v.fresh;
        counted = v.counted;
        released = v.released;
        checked = v.checked;
      } in
      each-Valid os (terminate_one os) closed snapshot.0 (addresses m.sessions) 0
        (terminate_one-GoodPass os)
        (world-Valid os closed w snapshot.0 (snapshot-Lawful closed w (addresses m.sessions)) start)

  pub shutdown_all-Valid :
      (polls grace : ℕ) (m : SessionManager) (w : World)
      → Valid os m w
      → (let q = shutdown_all os polls grace m w in Valid os q.manager q.world)
  unfolding shutdown_all
  shutdown_all-Valid polls grace m w v =
      let closed = record m { admission_closed = true } in
      let runtimes = addresses m.sessions in
      let snapshot = snapshot_descendants_before_termination os closed w runtimes in
      let terminated = each os (terminate_one os) closed snapshot.0 runtimes 0 in
      let t = terminated-Valid m w v in
      let signals = signal_descendants os terminated.world snapshot.1 terminate in
      let deadline = os.now signals.0.calls + grace in
      let waited =
        wait_for_session_exits_until os polls terminated.manager (called signals.0) runtimes
          deadline in
      let l =
        Lawful-trans os terminated.world signals.0 (called signals.0)
          (signal_descendants-Lawful os terminated.world snapshot.1 terminate)
          (called-Lawful os signals.0) in
      let p : Valid os waited.manager waited.world =
        wait_for_session_exits-Valid os polls terminated.manager (called signals.0) runtimes
          deadline (world-Valid os terminated.manager terminated.world (called signals.0) l t) in
      elim (Option-cases terminated.result) [
        | inl e ↦ rw (e, shutdown_all) t
        | inr (n, e) ↦ elim (Option-cases waited.result) [
          | inl f ↦ rw (e, f, shutdown_all) p
          | inr (k, f) ↦
              rw (e, f, shutdown_all)
                (force_all-Valid polls waited.manager waited.world runtimes snapshot.1 n signals.1
                  p)
        ]
      ]

  -- After a shutdown of sessions whose ends have been counted so far, the admission is closed, and
  -- under each internal id as many complete ends have been announced as there are runtimes of that
  -- id with an owner whose ownership was given up. If the shutdown succeeds, whatever the processes
  -- did, no session is in the map, and of each runtime that was there the exit code was reaped, the
  -- recorded list of members of its group is empty, and the ownership was given up.
  pub shutdown_all-AllDone :
      (polls grace : ℕ) (m : SessionManager) (w : World)
      → Valid os m w
      → (let q = shutdown_all os polls grace m w in
          (q.manager.admission_closed ≡ true)
          × ((id : ℕ) → complete_ends id q.world.ended ≡ total (notified id) q.manager.store)
          × ((counts : RuntimeShutdownResult)
              → q.result ≡ some counts
              → (q.manager.sessions ≡ []) × AllDone q.manager (addresses m.sessions)))
  shutdown_all-AllDone polls grace m w v =
      let p = shutdown_all-Emptied polls grace m w in
      (p.closed, (shutdown_all-Valid polls grace m w v).counted, p.done)

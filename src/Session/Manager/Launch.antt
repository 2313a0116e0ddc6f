-- ===== src/Session/Manager/Launch.antt =====
-- What a launch does to the sessions and their runtimes.
use zodex.Common.{
  ℕ, suc, ◌≤◌, ◌≡◌, ◌≢◌, refl, sym, subst, ◌∙◌, ◌⊎◌, inl, inr, Bool, false, ◌&&◌, none, some, arith,
  Option-cases, Bool-cases, is_none, ◌%◌, ◌^◌, ◌==◌, ==_iff,
}
use zodex.Common.Dict.{insert, lookup-insert, insert-Distinct, total-remove-none}
use zodex.Session.World.{kill, group, Os, World, called, signalled}
use zodex.Session.Process.Signals.{Lawful, Lawful-trans, Lawful-refl, called-Lawful, group-Lawful}
use zodex.Session.Runtime.{SessionRuntime, ended_entry}
use zodex.Session.Runtime.Turns.{notified, Released}
use zodex.Session.Manager.{
  SessionManager, Host, Managed, new_runtime, incomplete, refused, register, observe_start,
  check_identity, launch,
}
use zodex.Session.Manager.Valid.{Valid, world-Valid}

-- A runtime that nobody has been told of.
pub record New (r : SessionRuntime) : Type 0 where
  pub unreleased : r.ownership_released ≡ false

New-notified : (id : ℕ) (r : SessionRuntime) → New r → notified id r ≡ 0
New-notified id r n = ground (arith, n.unreleased)

module _ (os : Os) where
  register-Valid :
      (m : SessionManager) (w : World) (r : SessionRuntime)
      → New r
      → Valid os m w
      → Valid os (register m w r).manager w
  unfolding register insert
  register-Valid m w r n v = record {
    distinct = insert-Distinct m.allocated r m.store v.distinct;
    fresh = λ b h. lookup-insert m.allocated b r m.store ∙ elim (Bool-cases (m.allocated == b)) [
      | inl e ↦ absurd (above m.allocated b h ((==_iff m.allocated b).0 e))
      | inr e ↦ rw e (v.fresh b (omega (arith, h)))
    ];
    counted = λ id. omega (
      arith,
      v.counted id,
      New-notified id r n,
      total-remove-none (notified id) m.allocated m.store (v.fresh m.allocated (omega arith)),
    );
    released = λ b s e. elim (Bool-cases (m.allocated == b)) [
      | inl same ↦
          let here : r ≡ s = cc (rw same at (sym (lookup-insert m.allocated b r m.store) ∙ e)) in
          subst Released here (λ told. cc (n.unreleased, told))
      | inr other ↦ v.released b s (rw other at (sym (lookup-insert m.allocated b r m.store) ∙ e))
    ];
    checked = v.checked;
  }
    where
      above : (a b : ℕ) → suc a ≤ b → a ≢ b
      above a b h e = omega (arith, h, e)

  -- A refused admission announces an end that is not complete.
  rollback-Valid :
      (m : SessionManager) (w : World) (id : ℕ) (reason : _) (cwd : _)
      → Valid os m w
      → Valid os m (ended_entry id (incomplete reason cwd) w)
  unfolding incomplete
  rollback-Valid m w id reason cwd v = record {
    distinct = v.distinct;
    fresh = v.fresh;
    counted = v.counted;
    released = v.released;
    checked = v.checked;
  }

  -- From the spawn on: the runtimes stay valid, and at most one place is taken.
  pub record Launched (m : SessionManager) (w : World) (q : Managed ℕ) : Type 0 where
    pub valid : Valid os m w → Valid os q.manager q.world
    pub places :
        (q.manager.sessions ≡ m.sessions)
        ⊎ ((h : ℕ) × (a : ℕ) × (q.manager.sessions ≡ insert h a m.sessions))
    pub max_sessions : q.manager.max_sessions ≡ m.max_sessions

  given_up : (m : SessionManager) (w w' : World) → Lawful os w w' → Launched m w (refused m w')
  given_up m w w' l = record {
    valid = world-Valid os m w w' l;
    places = inl refl;
    max_sessions = refl;
  }

  registered :
      (m : SessionManager) (w w' : World) (r : SessionRuntime)
      → New r
      → Lawful os w w'
      → Launched m w (register m w' r)
  unfolding register
  registered m w w' r n l = record {
    valid = λ v. register-Valid m w' r n (world-Valid os m w w' l v);
    places = inr (r.session_handle, m.allocated, refl);
    max_sessions = refl;
  }

  observe_start-Launched :
      (m : SessionManager) (w : World) (r : SessionRuntime)
      → New r
      → Launched m w (observe_start os m w r)
  unfolding observe_start
  observe_start-Launched m w r n = elim (Bool-cases (is_none r.owned_process)) [
    | inl e ↦ rw (e, observe_start) (registered m w w r n (Lawful-refl os w))
    | inr e ↦ elim (Bool-cases (os.observe w.calls)) [
      | inl f ↦ rw (e, f, observe_start) (registered m w (called w) r n (called-Lawful os w))
      | inr f ↦
          let w' = signalled (called w) (group r.inner.pid) kill in
          let l : Lawful os w w' =
            Lawful-trans os w (called w) w' (called-Lawful os w)
              (group-Lawful os (called w) r.inner.pid kill) in
          rw (e, f, observe_start)
            (record {
              valid =
                  λ v. rollback-Valid m w' r.internal_session_id _ _ (world-Valid os m w w' l v);
              places = inl refl;
              max_sessions = refl;
            })
    ]
  ]

  earlier :
      (m : SessionManager) (w w' : World) (q : Managed ℕ)
      → Lawful os w w'
      → Launched m w' q
      → Launched m w q
  earlier m w w' q l p = record {
    valid = λ v. p.valid (world-Valid os m w w' l v);
    places = p.places;
    max_sessions = p.max_sessions;
  }

  check_identity-Launched :
      (required : Bool) (m : SessionManager) (w : World) (r : SessionRuntime)
      → New r
      → Launched m w (check_identity os required m w r)
  unfolding check_identity
  check_identity-Launched required m w r n =
      elim (Bool-cases (is_none r.owned_process && required)) [
        | inl e ↦ elim (Option-cases (os.try_wait w.calls r.inner.pid)) [
          | inl f ↦ rw (e, f, check_identity) (given_up m w (called w) (called-Lawful os w))
          | inr (none, f) ↦
              rw (e, f, check_identity)
                (given_up m w (signalled (called w) (group r.inner.pid) kill) (
                  Lawful-trans os w (called w) (signalled (called w) (group r.inner.pid) kill)
                    (called-Lawful os w) (group-Lawful os (called w) r.inner.pid kill)))
          | inr (some status, f) ↦
              rw (e, f, check_identity)
                (earlier m w (called w) _ (called-Lawful os w)
                  (observe_start-Launched m (called w) r n))
        ]
        | inr e ↦ rw (e, check_identity) (observe_start-Launched m w r n)
      ]

  next_id-Valid :
      (m : SessionManager) (id : ℕ) (w : World)
      → Valid os m w
      → Valid os (record m { next_internal_session_id = id }) w
  next_id-Valid m id w v = record {
    distinct = v.distinct;
    fresh = v.fresh;
    counted = v.counted;
    released = v.released;
    checked = v.checked;
  }

  pub launch-Launched :
      (host : Host) (m : SessionManager) (w : World) (id : ℕ) (cwd : _) (timeout now now_system : ℕ)
      → Launched m w (launch os host m w id cwd timeout now now_system)
  unfolding launch
  launch-Launched host m w id cwd timeout now now_system =
      let m' = record m { next_internal_session_id = suc id % 2 ^ 64 } in
      let back : (q : Managed ℕ) → Launched m' w q → Launched m w q = λ q p. record {
        valid = λ v. p.valid (next_id-Valid m (suc id % 2 ^ 64) w v);
        places = p.places;
        max_sessions = p.max_sessions;
      } in
      let two : Lawful os w (called (called w)) = record {
        ended = refl;
        checked = λ c. c;
        later = omega arith;
      } in
      let three : Lawful os w (called (called (called w))) = record {
        ended = refl;
        checked = λ c. c;
        later = omega arith;
      } in
      elim (Option-cases (host.spawn (suc w.calls))) [
        | inl e ↦ rw (e, launch) (back _ (given_up m' w (called (called w)) two))
        | inr (pid, e) ↦ elim (Option-cases (os.identity (suc (suc w.calls)) pid)) [
          | inl f ↦ rw (e, f, launch) (back _ (given_up m' w (called (called (called w))) three))
          | inr (identity, f) ↦
              rw (e, f, launch)
                (back _ (
                  earlier m' w (called (called (called w))) _ three (
                    check_identity-Launched host.require_process_identity m'
                      (called (called (called w)))
                      (new_runtime id (host.handle w.calls) pid identity cwd timeout now now_system)
                      (unfold new_runtime in record { unreleased = refl }))))
        ]
      ]

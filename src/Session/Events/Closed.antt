-- ===== src/Session/Events/Closed.antt =====
-- A manager whose admission is closed.
use zodex.Common.{
  ℕ, ◌≡◌, refl, sym, ap, ◌∙◌, inl, inr, Bool, true, false, List, [], ◌∷◌, Option, none, some, Bytes,
  Option-cases, if◌then◌else◌,
}
use zodex.Common.Dict.{lookup}
use zodex.Session.World.{Os, World, called}
use zodex.Session.Process.{owned_process_end}
use zodex.Session.Runtime.{SessionRuntime, Turn, ToolOutput, CommandStatus, running, exited}
use zodex.Session.Manager.{
  SessionManager, Host, Limits, Managed, refused, admit, admit_locked, settle, poll, remove_session,
}
use zodex.Session.Manager.Eviction.{lookup_left}
use zodex.Session.Shutdown.{shutdown_all}
use zodex.Session.Shutdown.Complete.{shutdown_all-Emptied}
use zodex.Session.Events.{
  Event, admission, input, round, reaping, settling, shutdown, turn_at, begun, step, run_events,
}
use zodex.Session.Runtime.{wait_round, reaper_round}

-- Closed stays closed, no runtime is added, and a handle refers to what it referred to.
pub record Quiet (m m' : SessionManager) : Type 0 where
  pub closed : m.admission_closed ≡ true → m'.admission_closed ≡ true
  pub allocated : m'.allocated ≡ m.allocated
  pub held : (h a : ℕ) → lookup h m'.sessions ≡ some a → lookup h m.sessions ≡ some a

Quiet-refl : (m : SessionManager) → Quiet m m
Quiet-refl m = record { closed = λ c. c; allocated = refl; held = λ h a e. e }

Quiet-trans : (a b c : SessionManager) → Quiet a b → Quiet b c → Quiet a c
Quiet-trans a b c p q = record {
  closed = λ e. q.closed (p.closed e);
  allocated = q.allocated ∙ p.allocated;
  held = λ h x e. p.held h x (q.held h x e);
}

remove_session-Quiet :
    (m : SessionManager) (w : World) (handle : ℕ) → Quiet m (remove_session m w handle).0
unfolding remove_session
remove_session-Quiet m w handle = elim (Option-cases (lookup handle m.sessions)) [
  | inl e ↦ rw (e, remove_session) (Quiet-refl m)
  | inr (a, e) ↦ elim (Option-cases (lookup a m.store)) [
    | inl f ↦ rw (e, f, remove_session) (Quiet-refl m)
    | inr (r, f) ↦ elim (Option-cases (owned_process_end r.inner)) [
      | inl g ↦ rw (e, f, g, remove_session) (Quiet-refl m)
      | inr (end, g) ↦
          rw (e, f, g, remove_session)
            (record {
              closed = λ c. c;
              allocated = refl;
              held = λ h b l. lookup_left handle h b m.sessions l;
            })
    ]
  ]
]

module _ (os : Os) where
  turn_at-Quiet :
      {A : Type 0} (m : SessionManager) (w : World) (a : ℕ) (turn : SessionRuntime → World → Turn A)
      → Quiet m (turn_at m w a turn).0
  unfolding turn_at
  turn_at-Quiet m w a turn = elim (Option-cases (lookup a m.store)) [
    | inl e ↦ rw (e, turn_at) (Quiet-refl m)
    | inr (r, e) ↦ rw (e, turn_at) (record { closed = λ c. c; allocated = refl; held = λ h b l. l })
  ]

  poll-Quiet : (m : SessionManager) (w : World) (a : ℕ) → Quiet m (poll os m w a).manager
  unfolding poll
  poll-Quiet m w a = elim (Option-cases (lookup a m.store)) [
    | inl e ↦ rw (e, poll) (Quiet-refl m)
    | inr (r, e) ↦ rw (e, poll) (record { closed = λ c. c; allocated = refl; held = λ h b l. l })
  ]

  settle-Quiet :
      (m : SessionManager) (w : World) (handle a : ℕ) (output : ToolOutput)
      → Quiet m (settle os m w handle a output).manager
  unfolding settle
  settle-Quiet m w handle a output = by output.status
    where
      polled : Managed Bool
      polled = poll os m w a

      p : Quiet m polled.manager
      p = poll-Quiet m w a

      by :
          (status : CommandStatus)
          → (let q : Managed Bool = elim status [
            | running ↦ record { manager = m; world = w; result = some false }
            | exited ↦ elim polled.result [
              | none ↦ record { manager = polled.manager; world = polled.world; result = none }
              | some gone ↦
                  let (m', w') = remove_session polled.manager polled.world handle in
                  if gone then record { manager = m'; world = w'; result = some true } else record {
                    manager = polled.manager;
                    world = polled.world;
                    result = some false;
                  }
            ]
          ] in
              Quiet m q.manager)
      by running = Quiet-refl m
      by exited = elim (Option-cases polled.result) [
        | inl e ↦ rw e p
        | inr (true, e) ↦ rw e (
            Quiet-trans m polled.manager _ p
              (remove_session-Quiet polled.manager polled.world handle))
        | inr (false, e) ↦ rw e p
      ]

  shutdown_all-Quiet :
      (polls grace : ℕ) (m : SessionManager) (w : World)
      → Quiet m (shutdown_all os polls grace m w).manager
  unfolding lookup
  shutdown_all-Quiet polls grace m w =
      let p = shutdown_all-Emptied os polls grace m w in
      record {
        closed = λ c. p.closed;
        allocated = p.allocated;
        held = λ h a l. elim p.sessions [
          | inl same ↦ sym (ap (lookup h) same) ∙ l
          | inr none_left ↦ nothing h a (sym (ap (lookup h) none_left) ∙ l)
        ];
      }
    where
      nothing : (h a : ℕ) → lookup h [] ≡ some a → lookup h m.sessions ≡ some a
      nothing h a e = cc (e)

  module _ (host : Host) (cfg : Limits) where
    admit-Quiet :
        (m : SessionManager) (w : World) (timeout_ms : Option ℕ)
        → m.admission_closed ≡ true
        → Quiet m (admit os host cfg m w timeout_ms).manager
    unfolding admit
    admit-Quiet m w timeout_ms c = elim (Option-cases (host.workdir w.calls)) [
      | inl e ↦ rw (e, admit) (Quiet-refl m)
      | inr (cwd, e) ↦ rw (e, admit) (by m.admission_closed c cwd)
    ]
      where
        by :
            (closed : Bool)
            → closed ≡ true
            → (cwd : Bytes)
            → Quiet m
                (if closed
                  then refused {A = ℕ} m (called w)
                  else admit_locked os host cfg m (called w) timeout_ms cwd).manager
        by true c cwd = Quiet-refl m
        by false c cwd = cc (c)

    step-Quiet :
        (m : SessionManager) (w : World) (e : Event)
        → m.admission_closed ≡ true
        → Quiet m (step os host cfg m w e).0
    unfolding step
    step-Quiet m w (admission timeout_ms) c = admit-Quiet m w timeout_ms c
    step-Quiet m w (input a written) c = turn_at-Quiet m w a (begun os written)
    step-Quiet m w (round a started y) c = turn_at-Quiet m w a (λ r v. wait_round os r v started y)
    step-Quiet m w (reaping a) c = turn_at-Quiet m w a (reaper_round os)
    step-Quiet m w (settling handle a output) c = settle-Quiet m w handle a output
    step-Quiet m w (shutdown polls grace) c = shutdown_all-Quiet polls grace m w

    run_events-Quiet :
        (m : SessionManager) (w : World) (es : List Event)
        → m.admission_closed ≡ true
        → Quiet m (run_events os host cfg m w es).0
    unfolding run_events
    run_events-Quiet m w [] c = Quiet-refl m
    run_events-Quiet m w (e ∷ es) c =
        let q = step os host cfg m w e in
        let p = step-Quiet m w e c in
        Quiet-trans m q.0 _ p (run_events-Quiet q.0 q.1 es (p.closed c))

    -- From a shutdown on, whether it succeeds or fails and whatever commands, turns, reapings and
    -- further shutdowns come after it, the admission stays closed, no runtime is added, and a handle
    -- that refers to a runtime referred to the same before the shutdown.
    pub run_events-shutdown :
        (m : SessionManager) (w : World) (polls grace : ℕ) (es : List Event)
        → (let q = run_events os host cfg m w (shutdown polls grace ∷ es) in
            (q.0.admission_closed ≡ true)
            × (q.0.allocated ≡ m.allocated)
            × ((h a : ℕ) → lookup h q.0.sessions ≡ some a → lookup h m.sessions ≡ some a))
    unfolding run_events step
    run_events-shutdown m w polls grace es =
        let s = shutdown_all os polls grace m w in
        let c = (shutdown_all-Emptied os polls grace m w).closed in
        let first = shutdown_all-Quiet polls grace m w in
        let after = run_events-Quiet s.manager s.world es c in
        let p = Quiet-trans m s.manager _ first after in (after.closed c, p.allocated, p.held)

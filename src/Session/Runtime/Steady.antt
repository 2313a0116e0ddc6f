-- ===== src/Session/Runtime/Steady.antt =====
-- What the parts of a round leave of the fields that a turn depends on.
use zodex.Common.{◌-◌, ◌≡◌, refl, sym, ap, ◌∙◌, inl, inr, true, ◌&&◌, ◌||◌, not, leb, Bool-cases}
use zodex.Session.World.{Os, World, called, SessionInner}
use zodex.Session.Process.{request_termination, maybe_force_kill}
use zodex.Session.Process.Reaping.{Kept}
use zodex.Session.Process.Signals.{maybe_force_kill-Forced, request_termination-frame}
use zodex.Session.Runtime.{check_idle}

-- A session that was timed out or killed answers only after its exit.
abbrev pub Stopping : SessionInner → Type 0
Stopping inner =
    inner.timed_out || inner.kill_requested ≡ true → inner.require_exit_before_return ≡ true

-- What the parts of a round leave of the fields that a turn depends on.
pub record Steady (a b : SessionInner) : Type 0 where
  pub timed_out : b.timed_out ≡ a.timed_out
  pub kill_requested : b.kill_requested ≡ a.kill_requested
  pub require : b.require_exit_before_return ≡ a.require_exit_before_return
  pub last_input_at : b.last_input_at ≡ a.last_input_at
  pub idle_timeout : b.idle_timeout ≡ a.idle_timeout

pub Steady-trans : (a b c : SessionInner) → Steady a b → Steady b c → Steady a c
Steady-trans a b c p q = record {
  timed_out = q.timed_out ∙ p.timed_out;
  kill_requested = q.kill_requested ∙ p.kill_requested;
  require = q.require ∙ p.require;
  last_input_at = q.last_input_at ∙ p.last_input_at;
  idle_timeout = q.idle_timeout ∙ p.idle_timeout;
}

pub Stopping-Steady : (a b : SessionInner) → Steady a b → Stopping a → Stopping b
Stopping-Steady a b p s h = p.require ∙ s (sym (rw (p.timed_out, p.kill_requested)) ∙ h)

-- The frame of a part gives each field.
pub Kept-Steady : (a b : SessionInner) → Kept a b → Steady a b
Kept-Steady a b k = record {
  timed_out = ap (λ x. x.timed_out) k.frame;
  kill_requested = ap (λ x. x.kill_requested) k.frame;
  require = ap (λ x. x.require_exit_before_return) k.frame;
  last_input_at = ap (λ x. x.last_input_at) k.frame;
  idle_timeout = ap (λ x. x.idle_timeout) k.frame;
}

module _ (os : Os) where
  pub forced-Steady : (a : SessionInner) (w : World) → Steady a (maybe_force_kill os a w).inner
  forced-Steady a w =
      let f = maybe_force_kill-Forced os a w in
      record {
        timed_out = ap (λ x. x.timed_out) f.frame;
        kill_requested = ap (λ x. x.kill_requested) f.frame;
        require = ap (λ x. x.require_exit_before_return) f.frame;
        last_input_at = ap (λ x. x.last_input_at) f.frame;
        idle_timeout = ap (λ x. x.idle_timeout) f.frame;
      }

  pub request-Steady : (a : SessionInner) (w : World) → Steady a (request_termination os a w).0
  request-Steady a w =
      let frame = request_termination-frame os a w in
      record {
        timed_out = ap (λ x. x.timed_out) frame;
        kill_requested = ap (λ x. x.kill_requested) frame;
        require = ap (λ x. x.require_exit_before_return) frame;
        last_input_at = ap (λ x. x.last_input_at) frame;
        idle_timeout = ap (λ x. x.idle_timeout) frame;
      }

  pub check_idle-Stopping :
      (inner : SessionInner) (w : World) → Stopping inner → Stopping (check_idle os inner w).0
  unfolding check_idle
  check_idle-Stopping inner w s =
      elim (Bool-cases
        (leb inner.idle_timeout (os.now w.calls - inner.last_input_at) && not inner.timed_out)) [
          | inl e ↦
              let stopped : SessionInner = record inner {
                timed_out = true;
                require_exit_before_return = true;
              } in
              rw (e, check_idle)
                (Stopping-Steady stopped (request_termination os stopped (called w)).0
                  (request-Steady stopped (called w)) (λ _. refl))
          | inr e ↦ rw (e, check_idle) s
        ]

  pub check_idle-kill_requested :
      (inner : SessionInner) (w : World)
      → (check_idle os inner w).0.kill_requested ≡ inner.kill_requested
  unfolding check_idle
  check_idle-kill_requested inner w =
      elim (Bool-cases
        (leb inner.idle_timeout (os.now w.calls - inner.last_input_at) && not inner.timed_out)) [
          | inl e ↦
              let stopped : SessionInner = record inner {
                timed_out = true;
                require_exit_before_return = true;
              } in
              rw (e, check_idle) (request-Steady stopped (called w)).kill_requested
          | inr e ↦ rw (e, check_idle) refl
        ]

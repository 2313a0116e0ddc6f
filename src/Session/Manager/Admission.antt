-- ===== src/Session/Manager/Admission.antt =====
-- A command that is admitted takes one place in the map, and one new runtime.
use zodex.Common.{
  ℕ, suc, ◌<◌, ◌≤◌, refl, sym, ap, subst, inl, inr, Bool, true, false, List, [], ◌∷◌, Option, arith,
  Bytes, Option-cases, Bool-cases, if◌then◌else◌, length,
}
use zodex.Common.Dict.{insert, remove, Distinct, insert-Distinct}
use zodex.Session.World.{Os, World, called}
use zodex.Session.Process.Signals.{Lawful, called-Lawful}
use zodex.Session.Manager.{
  SessionManager, Host, Limits, Managed, refused, launch, admit, admit_locked, evict_if_needed,
  clamp_exec_timeout_ms,
}
use zodex.Session.Manager.Valid.{Valid, world-Valid}
use zodex.Session.Manager.Eviction.{evict_if_needed-Evicted, evict_if_needed-Valid}
use zodex.Session.Manager.Launch.{Launched, launch-Launched}

-- One entry for each handle, and no more sessions than the limit.
pub record Roomy (m : SessionManager) : Type 0 where
  pub distinct : Distinct m.sessions
  pub fits : length m.sessions ≤ m.max_sessions

pub length-remove_le : (h : ℕ) (m : List (ℕ × ℕ)) → length (remove h m) ≤ length m
unfolding remove
length-remove_le h [] = omega arith
length-remove_le h ((k, v) ∷ m) = ground (arith, length-remove_le h m)

module _ (os : Os) where
  places-Roomy :
      (m : SessionManager) (w : World) (q : Managed ℕ)
      → Launched os m w q
      → Distinct m.sessions
      → length m.sessions < m.max_sessions
      → Roomy q.manager
  unfolding insert
  places-Roomy m w q p d room = elim p.places [
    | inl e ↦ record {
      distinct = subst Distinct (sym e) d;
      fits = omega (arith, room, ap length e, p.max_sessions);
    }
    | inr (h, a, e) ↦ record {
      distinct = subst Distinct (sym e) (insert-Distinct h a m.sessions d);
      fits = omega (arith, room, ap length e, length-remove_le h m.sessions, p.max_sessions);
    }
  ]

  -- An admission keeps the runtimes valid and the sessions within the limit, whatever fails in it.
  pub record Admits (m : SessionManager) (w : World) (q : Managed ℕ) : Type 0 where
    pub valid : Valid os m w → Valid os q.manager q.world
    pub roomy : Roomy m → Roomy q.manager

  stays : (m : SessionManager) (w w' : World) → Lawful os w w' → Admits m w (refused m w')
  stays m w w' l = record { valid = world-Valid os m w w' l; roomy = λ r. r }

  admit_locked-Admits :
      (host : Host) (cfg : Limits) (m : SessionManager) (w : World) (timeout_ms : Option ℕ)
      (cwd : Bytes)
      → Admits m w (admit_locked os host cfg m w timeout_ms cwd)
  unfolding admit_locked
  admit_locked-Admits host cfg m w timeout_ms cwd = elim (Option-cases evicted.result) [
    | inl e ↦ rw (e, admit_locked) (record { valid = evict_if_needed-Valid os m w; roomy = room })
    | inr (true, e) ↦ elim (Bool-cases (host.openpty (called (called evicted.world)).calls)) [
      | inl f ↦
          rw (e, f, admit_locked)
            (record {
              valid = λ v. launched.valid (
                  world-Valid os evicted.manager evicted.world w3 three
                    (evict_if_needed-Valid os m w v));
              roomy = λ r.
                  let p = (evict_if_needed-Evicted os m w r.distinct).0 in
                  places-Roomy evicted.manager w3 _ launched p.distinct
                    (omega (arith, p.room e, p.max_sessions));
            })
      | inr f ↦
          rw (e, f, admit_locked)
            (record {
              valid = λ v.
                  world-Valid os evicted.manager evicted.world w3 three
                    (evict_if_needed-Valid os m w v);
              roomy = room;
            })
    ]
    | inr (false, e) ↦ elim (Bool-cases (host.openpty (called (called evicted.world)).calls)) [
      | inl f ↦
          rw (e, f, admit_locked)
            (record {
              valid = λ v. launched.valid (
                  world-Valid os evicted.manager evicted.world w3 three
                    (evict_if_needed-Valid os m w v));
              roomy = λ r. absurd ((evict_if_needed-Evicted os m w r.distinct).1 e);
            })
      | inr f ↦
          rw (e, f, admit_locked)
            (record {
              valid = λ v.
                  world-Valid os evicted.manager evicted.world w3 three
                    (evict_if_needed-Valid os m w v);
              roomy = room;
            })
    ]
  ]
    where
      evicted : Managed Bool
      evicted = evict_if_needed os m w

      w3 : World
      w3 = called (called (called evicted.world))

      three : Lawful os evicted.world w3
      three = record { ended = refl; checked = λ c. c; later = omega arith }

      launched : Launched os evicted.manager w3 (
          launch os host evicted.manager w3 evicted.manager.next_internal_session_id cwd
            (clamp_exec_timeout_ms cfg timeout_ms)
            (os.now evicted.world.calls)
            (os.now (suc evicted.world.calls)))
      launched =
          launch-Launched os host evicted.manager w3 evicted.manager.next_internal_session_id cwd
            (clamp_exec_timeout_ms cfg timeout_ms) (os.now evicted.world.calls)
            (os.now (suc evicted.world.calls))

      room : Roomy m → Roomy evicted.manager
      room r =
          let p = (evict_if_needed-Evicted os m w r.distinct).0 in
          record { distinct = p.distinct; fits = omega (arith, p.fewer, p.max_sessions, r.fits) }

  pub admit-Admits :
      (host : Host) (cfg : Limits) (m : SessionManager) (w : World) (timeout_ms : Option ℕ)
      → Admits m w (admit os host cfg m w timeout_ms)
  unfolding admit
  admit-Admits host cfg m w timeout_ms = elim (Option-cases (host.workdir w.calls)) [
    | inl e ↦ rw (e, admit) (stays m w (called w) (called-Lawful os w))
    | inr (cwd, e) ↦ rw (e, admit) (by m.admission_closed cwd)
  ]
    where
      by :
          (closed : Bool) (cwd : Bytes)
          → Admits m w (
              if closed
              then refused m (called w)
              else admit_locked os host cfg m (called w) timeout_ms cwd)
      by true cwd = stays m w (called w) (called-Lawful os w)
      by false cwd =
          let p = admit_locked-Admits host cfg m (called w) timeout_ms cwd in
          record {
            valid = λ v. p.valid (world-Valid os m w (called w) (called-Lawful os w) v);
            roomy = p.roomy;
          }

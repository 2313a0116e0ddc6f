-- ===== src/Session/Process/Signals.antt =====
-- Who is signalled: a process only while it is the one that was recorded.
use zodex.Common.{
  ◌≤◌, arith, ℕ, suc, ◌≡◌, refl, sym, subst, ◌∙◌, inl, inr, Bool, true, false, List, [], ◌∷◌,
  Option, none, some, is_some, Option-cases, Bool-cases, ltb, ◌-◌,
}
use zodex.Session.World.{
  ProcessIdentity, ProcessSignal, kill, terminate, group, process, Sent, Os, World, called,
  signalled, SessionInner, found_is,
}
use zodex.Session.Process.{
  Ran, signal_process_if_matching, signal_members, signal_owned_group_members, request_termination,
  force_kill, force_after, maybe_force_kill, terminate_grace_period_ms,
}
use zodex.Session.Process.Reaping.{Quiet}

-- The call before the signal found the process under its number, born when it was recorded.
abbrev pub Matched : Os → Sent → Type 0
Matched os s = elim s.target [
  | group _ ↦ Unit
  | process expected ↦
      (n : ℕ) × (found : Option ProcessIdentity) × (s.at ≡ suc n)
      × (os.identity n expected.pid ≡ some found)
      × (found_is found expected ≡ true)
]

abbrev pub Checked : Os → List Sent → Type 0
Checked os [] = Unit {0}
Checked os (s ∷ ss) = Matched os s × Checked os ss

-- Signals keep the check, and nothing is announced.
pub record Lawful (os : Os) (before after : World) : Type 0 where
  pub ended : after.ended ≡ before.ended
  pub checked : Checked os before.signals → Checked os after.signals
  pub later : before.calls ≤ after.calls

pub Quiet-Lawful : (os : Os) (u v : World) → Quiet u v → Lawful os u v
Quiet-Lawful os u v q = record {
  ended = q.ended;
  checked = λ c. subst (Checked os) (sym q.signals) c;
  later = q.later;
}

pub Lawful-trans : (os : Os) (u v w : World) → Lawful os u v → Lawful os v w → Lawful os u w
Lawful-trans os u v w p q = record {
  ended = q.ended ∙ p.ended;
  checked = λ c. q.checked (p.checked c);
  later = omega (arith, p.later, q.later);
}

module _ (os : Os) where
  pub Lawful-refl : (w : World) → Lawful os w w
  Lawful-refl w = record { ended = refl; checked = λ c. c; later = omega arith }

  pub called-Lawful : (w : World) → Lawful os w (called w)
  called-Lawful w = record { ended = refl; checked = λ c. c; later = omega arith }

  pub group-Lawful :
      (w : World) (pid : ℕ) (signal : ProcessSignal) → Lawful os w (signalled w (group pid) signal)
  group-Lawful w pid signal = record { ended = refl; checked = λ c. (tt, c); later = omega arith }

  pub signal_process_if_matching-Lawful :
      (w : World) (expected : ProcessIdentity) (signal : ProcessSignal)
      → Lawful os w (signal_process_if_matching os w expected signal).0
  unfolding signal_process_if_matching
  signal_process_if_matching-Lawful w expected signal =
      elim (Option-cases (os.identity w.calls expected.pid)) [
        | inl e ↦ rw (e, signal_process_if_matching) (called-Lawful w)
        | inr (found, e) ↦ elim (Bool-cases (found_is found expected)) [
          | inl f ↦
              rw (e, f, signal_process_if_matching)
                (record {
                  ended = refl;
                  checked = λ c. ((w.calls, found, refl, e, f), c);
                  later = omega arith;
                })
          | inr f ↦ rw (e, f, signal_process_if_matching) (called-Lawful w)
        ]
      ]

  signal_members-Lawful :
      (w : World) (members : List ProcessIdentity) (signal : ProcessSignal) (n : ℕ)
      → Lawful os w (signal_members os w members signal n).0
  signal_members-Lawful w [] signal n = Lawful-refl w
  signal_members-Lawful w (member ∷ members) signal n =
      let one = signal_process_if_matching os w member signal in
      let first = signal_process_if_matching-Lawful w member signal in
      elim (Option-cases one.1) [
        | inl e ↦ rw (e, signal_members) first
        | inr (true, e) ↦
            rw (e, signal_members)
              (Lawful-trans os w one.0 _ first (signal_members-Lawful one.0 members signal (suc n)))
        | inr (false, e) ↦
            rw (e, signal_members)
              (Lawful-trans os w one.0 _ first (signal_members-Lawful one.0 members signal n))
      ]

  pub signal_owned-Lawful :
      (inner : SessionInner) (w : World) (signal : ProcessSignal)
      → Lawful os w (signal_owned_group_members os inner w signal).0
  unfolding signal_owned_group_members
  signal_owned-Lawful inner w signal = signal_members-Lawful w inner.owned_group_members signal 0

  pub request_termination-Lawful :
      (inner : SessionInner) (w : World) → Lawful os w (request_termination os inner w).1
  unfolding request_termination
  request_termination-Lawful inner w = elim (Bool-cases (is_some inner.terminate_started_at)) [
    | inl e ↦ rw e (Lawful-refl w)
    | inr e ↦ rw e (
        Lawful-trans os w (called w) _ (called-Lawful w)
          (group-Lawful (called w) inner.pid terminate))
  ]

  -- The termination changes the time at which it began only, and the kill its mark.
  pub request_termination-frame :
      (inner : SessionInner) (w : World)
      → let after = (request_termination os inner w).0 in
        after ≡ record inner { terminate_started_at = after.terminate_started_at }
  unfolding request_termination
  request_termination-frame inner w = elim (Bool-cases (is_some inner.terminate_started_at)) [
    | inl e ↦ rw e refl
    | inr e ↦ rw e refl
  ]

  pub record Forced (inner : SessionInner) (w : World) (ran : Ran Bool) : Type 0 where
    pub frame : ran.inner ≡ record inner { force_killed = ran.inner.force_killed }
    pub lawful : Lawful os w ran.world

  force_kill-Forced : (inner : SessionInner) (w : World) → Forced inner w (force_kill os inner w)
  unfolding force_kill
  force_kill-Forced inner w = record {
    frame = refl;
    lawful = elim (Bool-cases (is_some inner.reaped_exit_code)) [
      | inl e ↦ rw e (signal_owned-Lawful (record inner { force_killed = true }) w kill)
      | inr e ↦
          let w' = signalled w (group inner.pid) kill in
          rw e (
            Lawful-trans os w w' _ (group-Lawful w inner.pid kill)
              (signal_owned-Lawful (record inner { force_killed = true }) w' kill))
    ];
  }

  force_after-Forced :
      (inner : SessionInner) (w : World) (started : Option ℕ) (done : Bool)
      → Forced inner w (force_after os inner w started done)
  unfolding force_after
  force_after-Forced inner w none done = record { frame = refl; lawful = Lawful-refl w }
  force_after-Forced inner w (some started) true = record { frame = refl; lawful = Lawful-refl w }
  force_after-Forced inner w (some started) false =
      elim (Bool-cases (ltb (os.now w.calls - started) terminate_grace_period_ms)) [
        | inl e ↦ rw e (record { frame = refl; lawful = called-Lawful w })
        | inr e ↦
            let f = force_kill-Forced inner (called w) in
            rw e (record {
              frame = f.frame;
              lawful = Lawful-trans os w (called w) _ (called-Lawful w) f.lawful;
            })
      ]

  pub maybe_force_kill-Forced :
      (inner : SessionInner) (w : World) → Forced inner w (maybe_force_kill os inner w)
  unfolding maybe_force_kill
  maybe_force_kill-Forced inner w =
      force_after-Forced inner w inner.terminate_started_at inner.force_killed

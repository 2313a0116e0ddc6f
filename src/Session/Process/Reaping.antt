-- ===== src/Session/Process/Reaping.antt =====
-- What the reaping of a session's process changes, and what it does not.
use zodex.Common.{
  is_empty, ◌≤◌, arith, ◌≡◌, refl, ap, ◌∙◌, inl, inr, Bool, true, List, [], ◌∷◌, Option, none, some,
  is_some, Option-cases, Bool-cases,
}
use zodex.Session.Process.{
  Ran, surviving, scan, post_reap, try_reap, reap_exit_code, record_exit, leader_reused, others,
}
use zodex.Session.World.{ℤ, ProcessIdentity, Os, World, called, SessionInner}

-- The leader has been reaped, and no member of its group is known to live.
abbrev pub Final : SessionInner → Type 0
Final inner = (is_some inner.reaped_exit_code ≡ true) × (inner.owned_group_members ≡ [])

-- Only the exit code and the members may change; a known exit code and the final state stay.
pub record Kept (before after : SessionInner) : Type 0 where
  pub frame : after ≡ record before {
    reaped_exit_code = after.reaped_exit_code;
    owned_group_members = after.owned_group_members;
    persisted_group_members = after.persisted_group_members;
  }
  pub code :
      is_some before.reaped_exit_code ≡ true → after.reaped_exit_code ≡ before.reaped_exit_code
  pub final : Final before → after.owned_group_members ≡ []

-- Nobody was signalled and nothing was announced.
pub record Quiet (before after : World) : Type 0 where
  pub signals : after.signals ≡ before.signals
  pub ended : after.ended ≡ before.ended
  pub later : before.calls ≤ after.calls

pub Kept-refl : (inner : SessionInner) → Kept inner inner
Kept-refl inner = record { frame = refl; code = λ _. refl; final = λ f. f.1 }

pub Quiet-refl : (w : World) → Quiet w w
Quiet-refl w = record { signals = refl; ended = refl; later = omega arith }

pub Quiet-trans : (u v w : World) → Quiet u v → Quiet v w → Quiet u w
Quiet-trans u v w p q = record {
  signals = q.signals ∙ p.signals;
  ended = q.ended ∙ p.ended;
  later = omega (arith, p.later, q.later);
}

pub Kept-trans : (a b c : SessionInner) → Kept a b → Kept b c → Kept a c
Kept-trans a b c p q = record {
  frame =
      let last : SessionInner → SessionInner = λ x. record x {
        reaped_exit_code = c.reaped_exit_code;
        owned_group_members = c.owned_group_members;
        persisted_group_members = c.persisted_group_members;
      } in
      q.frame ∙ ap last p.frame;
  code = λ h. q.code (ap is_some (p.code h) ∙ h) ∙ p.code h;
  final = λ f. q.final (ap is_some (p.code f.0) ∙ f.0, p.final f);
}

-- A reaping leaves a kept state and a quiet world, and returns the code that it has recorded.
pub record Reaped (inner : SessionInner) (w : World) (ran : Ran (Option ℤ)) : Type 0 where
  pub kept : Kept inner ran.inner
  pub quiet : Quiet w ran.world
  pub told : (exit : Option ℤ) → ran.result ≡ some exit → ran.inner.reaped_exit_code ≡ exit

later :
    {inner : SessionInner} {w : World} {ran : Ran (Option ℤ)}
    → Reaped inner (called w) ran
    → Reaped inner w ran
later {w = w} r = record {
  kept = r.kept;
  quiet = record {
    signals = r.quiet.signals;
    ended = r.quiet.ended;
    later = omega (arith, r.quiet.later);
  };
  told = r.told;
}

after :
    {inner between : SessionInner} {w : World} {ran : Ran (Option ℤ)}
    → Kept inner between
    → Reaped between w ran
    → Reaped inner w ran
after {inner} {between} {w} {ran} k r = record {
  kept = Kept-trans inner between ran.inner k r.kept;
  quiet = r.quiet;
  told = r.told;
}

record Scanned (inner : SessionInner) (w : World) (ran : Ran Bool) : Type 0 where
  kept : Kept inner ran.inner
  quiet : Quiet w ran.world

chained :
    {inner : SessionInner} {w : World} {ran : Ran Bool} {next : Ran (Option ℤ)}
    → Scanned inner w ran
    → Reaped ran.inner ran.world next
    → Reaped inner w next
chained {inner} {w} {ran} {next} s r = record {
  kept = Kept-trans inner ran.inner next.inner s.kept r.kept;
  quiet = Quiet-trans w ran.world next.world s.quiet r.quiet;
  told = r.told;
}

module _ (os : Os) where
  surviving-Quiet :
      (w : World) (members : List ProcessIdentity) → Quiet w (surviving os w members).0
  unfolding surviving
  surviving-Quiet w [] = Quiet-refl w
  surviving-Quiet w (member ∷ members) =
      let ih = surviving-Quiet (called w) members in
      elim (Option-cases (os.identity w.calls member.pid)) [
        | inl e ↦ rw (e, surviving) (record { signals = refl; ended = refl; later = omega arith })
        | inr (found, e) ↦ elim (Option-cases (surviving os (called w) members).1) [
          | inl f ↦
              rw (e, f, surviving)
                (record { signals = ih.signals; ended = ih.ended; later = omega (arith, ih.later) })
          | inr (rest, f) ↦
              rw (e, f, surviving)
                (record { signals = ih.signals; ended = ih.ended; later = omega (arith, ih.later) })
        ]
      ]

  none_left :
      (w : World) (members survivors : List ProcessIdentity)
      → members ≡ []
      → (surviving os w members).1 ≡ some survivors
      → survivors ≡ []
  unfolding surviving
  none_left w [] survivors e f = cc (f)
  none_left w (m ∷ ms) survivors e f = cc (e)

  scan-Scanned :
      (inner : SessionInner) (w : World) (code : Option ℤ)
      → inner.reaped_exit_code ≡ code
      → Scanned inner w (scan os inner w code)
  unfolding scan
  scan-Scanned inner w none alive =
      elim (Option-cases (os.process_group_members w.calls inner.pid)) [
        | inl e ↦
            rw (e, scan)
              (record {
                kept = Kept-refl inner;
                quiet = record { signals = refl; ended = refl; later = omega arith };
              })
        | inr (members, e) ↦
            rw (e, scan)
              (record {
                kept = record { frame = refl; code = λ _. refl; final = λ f. cc (f.0, alive) };
                quiet = record { signals = refl; ended = refl; later = omega arith };
              })
      ]
  scan-Scanned inner w (some code) gone =
      let q = surviving-Quiet w inner.owned_group_members in
      elim (Option-cases (surviving os w inner.owned_group_members).1) [
        | inl e ↦
            rw (e, scan)
              (record {
                kept = record { frame = refl; code = λ _. refl; final = λ _. refl };
                quiet = q;
              })
        | inr (members, e) ↦
            rw (e, scan)
              (record {
                kept = record {
                  frame = refl;
                  code = λ _. refl;
                  final = λ f. none_left w inner.owned_group_members members f.1 e;
                };
                quiet = q;
              })
      ]

  record_exit-Reaped :
      (inner : SessionInner) (w : World) (status : Option ℤ)
      → inner.reaped_exit_code ≡ none
      → Reaped inner w (record_exit inner w status)
  unfolding record_exit
  record_exit-Reaped inner w none alive = record {
    kept = record { frame = refl; code = λ h. cc (h, alive); final = λ f. f.1 };
    quiet = Quiet-refl w;
    told = λ exit e. cc (e);
  }
  record_exit-Reaped inner w (some code) alive = record {
    kept = record { frame = refl; code = λ h. cc (h, alive); final = λ f. f.1 };
    quiet = Quiet-refl w;
    told = λ exit e. cc (e);
  }

  -- An error after the wait, or the members that are adopted before the code is recorded.
  post_reap-Reaped :
      (inner : SessionInner) (w : World) (status : Option ℤ)
      → inner.reaped_exit_code ≡ none
      → Reaped inner w (post_reap os inner w status)
  unfolding post_reap
  post_reap-Reaped inner w status alive = elim (Bool-cases (is_empty inner.owned_group_members)) [
    | inl empty ↦ elim (Option-cases (os.process_group_members w.calls inner.pid)) [
      | inl e ↦
          rw (empty, e, post_reap)
            (record {
              kept = Kept-refl inner;
              quiet = record { signals = refl; ended = refl; later = omega arith };
              told = λ exit f. cc (f);
            })
      | inr (members, e) ↦ elim (Bool-cases (leader_reused inner members)) [
        | inl reused ↦
            rw (empty, e, reused, post_reap)
              (later (record_exit-Reaped inner (called w) status alive))
        | inr own ↦
            let adopted = record inner { owned_group_members = others inner.pid members } in
            rw (empty, e, own, post_reap)
              (after (record { frame = refl; code = λ _. refl; final = λ f. cc (f.0, alive) })
                (later (record_exit-Reaped adopted (called w) status alive)))
      ]
    ]
    | inr busy ↦ rw (busy, post_reap) (record_exit-Reaped inner w status alive)
  ]

  try_reap-Reaped :
      (inner : SessionInner) (w : World) (code : Option ℤ)
      → inner.reaped_exit_code ≡ code
      → Reaped inner w (try_reap os inner w code)
  unfolding try_reap
  try_reap-Reaped inner w (some code) gone = record {
    kept = Kept-refl inner;
    quiet = Quiet-refl w;
    told = λ exit e. cc (e, gone);
  }
  try_reap-Reaped inner w none alive = elim (Option-cases (os.try_wait w.calls inner.pid)) [
    | inl e ↦
        rw (e, try_reap)
          (record {
            kept = Kept-refl inner;
            quiet = record { signals = refl; ended = refl; later = omega arith };
            told = λ exit f. cc (f);
          })
    | inr (none, e) ↦
        rw (e, try_reap)
          (record {
            kept = Kept-refl inner;
            quiet = record { signals = refl; ended = refl; later = omega arith };
            told = λ exit f. cc (f, alive);
          })
    | inr (some status, e) ↦
        rw (e, try_reap) (later (post_reap-Reaped inner (called w) status alive))
  ]

  -- A reaping changes the exit code and the members only, disturbs nobody, keeps what was final,
  -- and answers with the code that it has recorded.
  pub reap_exit_code-Reaped :
      (inner : SessionInner) (w : World) → Reaped inner w (reap_exit_code os inner w)
  unfolding reap_exit_code
  reap_exit_code-Reaped inner w =
      let scanned = scan os inner w inner.reaped_exit_code in
      let s = scan-Scanned inner w inner.reaped_exit_code refl in
      elim (Option-cases scanned.result) [
        | inl e ↦
            rw (e, reap_exit_code)
              (record { kept = s.kept; quiet = s.quiet; told = λ exit f. cc (f) })
        | inr (b, e) ↦
            rw (e, reap_exit_code)
              (chained s
                (try_reap-Reaped scanned.inner scanned.world scanned.inner.reaped_exit_code refl))
      ]

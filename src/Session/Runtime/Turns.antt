-- ===== src/Session/Runtime/Turns.antt =====
-- What each turn at a session's process keeps: its identity, the single announcement of its end,
-- and the check on every signal.
use zodex.Common.{
  ◌==◌, is_empty, ℕ, suc, ◌+◌, ◌≡◌, refl, sym, ap, ◌∙◌, inl, inr, Bool, true, false, ◌&&◌, not,
  List, [], ◌∷◌, Option, none, some, arith, is_some, Option-cases, Bool-cases, if◌then◌else◌,
}
use zodex.Session.Process.{
  process_termination_reason, owned_process_end, ended_with, reap_exit_code,
}
use zodex.Session.World.{
  ℤ, ProcessIdentity, same_members, OwnedProcessEnd, Os, World, called, SessionInner, exited,
}
use zodex.Session.Process.Reaping.{Final, Kept, Kept-trans, Quiet, Reaped, reap_exit_code-Reaped}
use zodex.Session.Process.Signals.{Checked, Lawful, Quiet-Lawful}
use zodex.Session.Runtime.{
  SessionRuntime, ended_entry, release_process_ownership, release_if, persist_members,
  reap_and_record_exit,
}

-- The ends that were announced under an id and are not those of a refused admission.
abbrev pub is_complete : OwnedProcessEnd → Bool
is_complete end = not (is_some end.incomplete_reason)

abbrev pub complete_ends : ℕ → List (ℕ × OwnedProcessEnd) → ℕ
complete_ends id [] = 0
complete_ends id ((i, end) ∷ ended) =
    if is_complete end && i == id then suc (complete_ends id ended) else complete_ends id ended

-- The runtime of the id whose owner has been told.
abbrev pub notified : ℕ → SessionRuntime → ℕ
notified id r =
    if r.ownership_released && is_some r.owned_process && r.internal_session_id == id then 1 else 0

-- Ownership is given up only after the end of the process.
abbrev pub Released : SessionRuntime → Type 0
Released r = r.ownership_released ≡ true → Final r.inner

pub record Good (os : Os) (r : SessionRuntime) (w : World) (r' : SessionRuntime) (w' : World)
    : Type 0 where
  pub owned : r'.owned_process ≡ r.owned_process
  pub released : Released r → Released r'
  pub final : Final r.inner → Final r'.inner
  pub given_up : r.ownership_released ≡ true → r'.ownership_released ≡ true
  pub counted :
      (id : ℕ)
      → complete_ends id w'.ended + notified id r ≡ complete_ends id w.ended + notified id r'
  pub checked : Checked os w.signals → Checked os w'.signals

pub empty_nil : {A : Type 0} (xs : List A) → is_empty xs ≡ true → xs ≡ []
empty_nil [] e = refl
empty_nil (x ∷ xs) e = cc (e)

module _ (os : Os) where
  pub Good-trans :
      (a : SessionRuntime) (u : World) (b : SessionRuntime) (v : World) (c : SessionRuntime)
      (w : World)
      → Good os a u b v
      → Good os b v c w
      → Good os a u c w
  Good-trans a u b v c w p q = record {
    owned = q.owned ∙ p.owned;
    released = λ h. q.released (p.released h);
    final = λ f. q.final (p.final f);
    given_up = λ h. q.given_up (p.given_up h);
    counted = λ id. omega (arith, p.counted id, q.counted id);
    checked = λ h. q.checked (p.checked h);
  }

  -- A change of the inner state that keeps a final state final.
  pub inner-Good :
      (r : SessionRuntime) (inner : SessionInner) (w w' : World)
      → (Final r.inner → Final inner)
      → Lawful os w w'
      → Good os r w (record r { inner = inner }) w'
  inner-Good r inner w w' f l = record {
    owned = refl;
    released = λ h given. f (h given);
    final = f;
    given_up = λ h. h;
    counted = λ id. ap (λ e. complete_ends id e + notified id r) l.ended;
    checked = l.checked;
  }

  pub Final-Kept : (a b : SessionInner) → Kept a b → Final a → Final b
  Final-Kept a b k f = (ap is_some (k.code f.0) ∙ f.0, k.final f)

  pub end-Final :
      (inner : SessionInner) (end : OwnedProcessEnd)
      → owned_process_end inner ≡ some end
      → Final inner × (is_complete end ≡ true)
  unfolding owned_process_end exited
  end-Final inner end e = elim (Bool-cases (is_empty inner.owned_group_members)) [
    | inl empty ↦
        by inner.reaped_exit_code refl (empty_nil inner.owned_group_members empty) (rw empty at e)
    | inr busy ↦ cc (rw busy at e)
  ]
    where
      by :
          (code : Option ℤ)
          → inner.reaped_exit_code ≡ code
          → inner.owned_group_members ≡ []
          → ended_with inner code ≡ some end
          → Final inner × (is_complete end ≡ true)
      by none alive empty f = cc (f)
      by (some code) gone empty f =
          let same : exited code (process_termination_reason inner) inner.last_known_cwd ≡ end =
            cc (f) in
          ((ap is_some gone, empty), sym (ap is_complete same))

  pub release-Good :
      (r : SessionRuntime) (w : World) (end : OwnedProcessEnd)
      → Final r.inner
      → is_complete end ≡ true
      → (let q = release_process_ownership r w end in Good os r w q.0 q.1)
  unfolding release_process_ownership
  release-Good r w end f c = by r.ownership_released refl
    where
      by :
          (b : Bool)
          → r.ownership_released ≡ b
          → (let q : SessionRuntime × World = if b then (r, w) else (
            record r { ownership_released = true },
            if is_some r.owned_process then ended_entry r.internal_session_id end w else w,
          ) in
              Good os r w q.0 q.1)
      by true e = record {
        owned = refl;
        released = λ h. h;
        final = λ h. h;
        given_up = λ h. h;
        counted = λ id. refl;
        checked = λ h. h;
      }
      by false e = record {
        owned = refl;
        released = λ _ _. f;
        given_up = λ _. refl;
        final = λ h. h;
        counted = λ id. ground (arith, e, c);
        checked =
            λ h. elim (Bool-cases (is_some r.owned_process)) [ inl o ↦ rw o h | inr o ↦ rw o h ];
      }

  pub release_if-Good :
      (r : SessionRuntime) (w : World)
      → (let q = release_if r w (owned_process_end r.inner) in Good os r w q.0 q.1)
  release_if-Good r w = by (owned_process_end r.inner) refl
    where
      by :
          (o : Option OwnedProcessEnd)
          → owned_process_end r.inner ≡ o
          → (let q = release_if r w o in Good os r w q.0 q.1)
      by none e = record {
        owned = refl;
        released = λ h. h;
        final = λ h. h;
        given_up = λ h. h;
        counted = λ id. refl;
        checked = λ h. h;
      }
      by (some end) e = let (f, c) = end-Final r.inner end e in release-Good r w end f c

  persist_members-Reaped :
      (owned : Option ProcessIdentity) (start inner : SessionInner) (w0 w : World) (exit : Option ℤ)
      → Kept start inner
      → Quiet w0 w
      → inner.reaped_exit_code ≡ exit
      → Reaped start w0 (persist_members os owned inner w exit)
  unfolding persist_members
  persist_members-Reaped owned start inner w0 w exit k q told =
      elim (Bool-cases (same_members inner.persisted_group_members inner.owned_group_members)) [
        | inl e ↦
            rw (e, persist_members) (record { kept = k; quiet = q; told = λ x f. told ∙ cc (f) })
        | inr e ↦ elim (Bool-cases (not (is_some owned))) [
          | inl f ↦
              rw (e, f, persist_members)
                (record { kept = written; quiet = q; told = λ x g. told ∙ cc (g) })
          | inr f ↦ elim (Bool-cases (os.observe w.calls)) [
            | inl g ↦
                rw (e, f, g, persist_members)
                  (record { kept = written; quiet = asked; told = λ x h. told ∙ cc (h) })
            | inr g ↦
                rw (e, f, g, persist_members)
                  (record { kept = k; quiet = asked; told = λ x h. cc (h) })
          ]
        ]
      ]
    where
      written : Kept start (record inner { persisted_group_members = inner.owned_group_members })
      written =
          Kept-trans start inner
            (record inner { persisted_group_members = inner.owned_group_members }) k
            (record { frame = refl; code = λ _. refl; final = λ f. f.1 })

      asked : Quiet w0 (called w)
      asked = record { signals = q.signals; ended = q.ended; later = omega (arith, q.later) }

  pub reap_and_record_exit-Reaped :
      (owned : Option ProcessIdentity) (inner : SessionInner) (w : World)
      → Reaped inner w (reap_and_record_exit os owned inner w)
  unfolding reap_and_record_exit
  reap_and_record_exit-Reaped owned inner w =
      let reaped = reap_exit_code os inner w in
      let p = reap_exit_code-Reaped os inner w in
      elim (Option-cases reaped.result) [
        | inl e ↦
            rw (e, reap_and_record_exit)
              (record { kept = p.kept; quiet = p.quiet; told = λ exit f. cc (f) })
        | inr (exit, e) ↦
            rw (e, reap_and_record_exit)
              (persist_members-Reaped owned inner reaped.inner w reaped.world exit p.kept p.quiet
                (p.told exit e))
      ]

  pub reaped-Good :
      (r : SessionRuntime) (w : World)
      → (let ran = reap_and_record_exit os r.owned_process r.inner w in
          Good os r w (record r { inner = ran.inner }) ran.world)
  reaped-Good r w =
      let ran = reap_and_record_exit os r.owned_process r.inner w in
      let p = reap_and_record_exit-Reaped r.owned_process r.inner w in
      inner-Good r ran.inner w ran.world (Final-Kept r.inner ran.inner p.kept)
        (Quiet-Lawful os w ran.world p.quiet)

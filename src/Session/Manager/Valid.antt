-- ===== src/Session/Manager/Valid.antt =====
-- What holds of the shared runtimes after every operation of the manager.
use zodex.Common.{
  ℕ, ◌≤◌, ◌≡◌, ◌≢◌, sym, ap, subst, ◌∙◌, inl, inr, ◌&&◌, List, [], ◌∷◌, Option, none, some, arith,
  Option-cases, Bool-cases, if◌then◌else◌, ◌==◌, ==_iff,
}
use zodex.Common.Dict.{
  lookup, insert, remove, lookup-insert, Distinct, insert-Distinct, total, weight, total-remove,
}
use zodex.Session.World.{Os, World}
use zodex.Session.Process.{owned_process_end}
use zodex.Session.Process.Signals.{Checked, Lawful}
use zodex.Session.Runtime.{SessionRuntime, is_exited, release_process_ownership}
use zodex.Session.Runtime.Turns.{complete_ends, notified, Released, Good, end-Final, release-Good}
use zodex.Session.Runtime.Rounds.{is_exited-Good}
use zodex.Session.Manager.{
  SessionManager, update, remove_session, poll, last_used_at, older, find_oldest_exited,
}

-- One runtime for each address that was given out; under each id as many ends announced as there are
-- runtimes of the id whose owner was told, and that only after its end; every signal checked.
pub record Valid (os : Os) (m : SessionManager) (w : World) : Type 0 where
  pub distinct : Distinct m.store
  pub fresh : (a : ℕ) → m.allocated ≤ a → lookup a m.store ≡ none
  pub counted : (id : ℕ) → complete_ends id w.ended ≡ total (notified id) m.store
  pub released : (a : ℕ) (r : SessionRuntime) → lookup a m.store ≡ some r → Released r
  pub checked : Checked os w.signals

module _ (os : Os) where
  pub update-Valid :
      (m : SessionManager) (w w' : World) (a : ℕ) (r r' : SessionRuntime)
      → lookup a m.store ≡ some r
      → Good os r w r' w'
      → Valid os m w
      → Valid os (update m a r') w'
  unfolding insert
  update-Valid m w w' a r r' found g v = record {
    distinct = insert-Distinct a r' m.store v.distinct;
    fresh = λ b h. lookup-insert a b r' m.store ∙ elim (Bool-cases (a == b)) [
      | inl e ↦ absurd (
          some_none r
            (sym found ∙ v.fresh a (subst (λ x. m.allocated ≤ x) (sym ((==_iff a b).0 e)) h)))
      | inr e ↦ rw e (v.fresh b h)
    ];
    counted = λ id. omega (
      arith,
      g.counted id,
      v.counted id,
      total-remove (notified id) a m.store v.distinct,
      ap (weight (notified id)) found,
    );
    released = λ b s e. elim (Bool-cases (a == b)) [
      | inl same ↦
          let here : r' ≡ s = cc (rw same at (sym (lookup-insert a b r' m.store) ∙ e)) in
          subst Released here (g.released (v.released a r found))
      | inr other ↦ v.released b s (rw other at (sym (lookup-insert a b r' m.store) ∙ e))
    ];
    checked = g.checked v.checked;
  }
    where
      some_none : (x : SessionRuntime) → some x ≢ none
      some_none x e = cc (e)

  pub world-Valid :
      (m : SessionManager) (w w' : World) → Lawful os w w' → Valid os m w → Valid os m w'
  world-Valid m w w' l v = record {
    distinct = v.distinct;
    fresh = v.fresh;
    counted = λ id. ap (complete_ends id) l.ended ∙ v.counted id;
    released = v.released;
    checked = l.checked v.checked;
  }

  -- The map of sessions is no part of it.
  pub sessions-Valid :
      (m : SessionManager) (sessions : List (ℕ × ℕ)) (w : World)
      → Valid os m w
      → Valid os (record m { sessions = sessions }) w
  sessions-Valid m sessions w v = record {
    distinct = v.distinct;
    fresh = v.fresh;
    counted = v.counted;
    released = v.released;
    checked = v.checked;
  }

  pub poll-Valid :
      (m : SessionManager) (w : World) (a : ℕ)
      → Valid os m w
      → (let p = poll os m w a in Valid os p.manager p.world)
  unfolding poll
  poll-Valid m w a v = elim (Option-cases (lookup a m.store)) [
    | inl e ↦ rw (e, poll) v
    | inr (r, e) ↦
        let turn = is_exited os r w in
        rw (e, poll) (update-Valid m w turn.world a r turn.runtime e (is_exited-Good os r w) v)
  ]

  pub remove_session-Valid :
      (m : SessionManager) (w : World) (handle : ℕ)
      → Valid os m w
      → (let q = remove_session m w handle in Valid os q.0 q.1)
  unfolding remove_session
  remove_session-Valid m w handle v = elim (Option-cases (lookup handle m.sessions)) [
    | inl e ↦ rw (e, remove_session) v
    | inr (a, e) ↦ elim (Option-cases (lookup a m.store)) [
      | inl f ↦ rw (e, f, remove_session) v
      | inr (r, f) ↦ elim (Option-cases (owned_process_end r.inner)) [
        | inl g ↦ rw (e, f, g, remove_session) v
        | inr (end, g) ↦
            let q = release_process_ownership r w end in
            let (final, complete) = end-Final os r.inner end g in
            rw (e, f, g, remove_session)
              (update-Valid (record m { sessions = remove handle m.sessions }) w q.1 a r q.0 f
                (release-Good os r w end final complete)
                (sessions-Valid m (remove handle m.sessions) w v))
      ]
    ]
  ]

  pub find_oldest-Valid :
      (m : SessionManager) (w : World) (candidates : List (ℕ × ℕ)) (oldest : Option (ℕ × ℕ))
      → Valid os m w
      → (let q = find_oldest_exited os m w candidates oldest in Valid os q.manager q.world)
  unfolding find_oldest_exited
  find_oldest-Valid m w [] oldest v = v
  find_oldest-Valid m w ((handle, a) ∷ candidates) oldest v =
      let p = poll os m w a in
      let pv = poll-Valid m w a v in
      elim (Option-cases p.result) [
        | inl e ↦ rw (e, find_oldest_exited) pv
        | inr (gone, e) ↦
            rw (e, find_oldest_exited)
              (find_oldest-Valid p.manager p.world candidates
                (if gone && older (last_used_at m a) oldest
                  then some (handle, last_used_at m a)
                  else oldest)
                pv)
      ]

-- ===== src/Session/Manager/Eviction.antt =====
-- `evict_if_needed`: it ends, makes room, and takes away only sessions that have exited.
use zodex.Common.{
  ℕ, zero, suc, ◌<◌, ◌≤◌, ◌≡◌, ◌≢◌, refl, sym, ap, subst, ◌∙◌, inl, inr, Bool, true, false, ◌&&◌,
  List, [], ◌∷◌, Option, none, some, arith, Option-cases, Bool-cases, if◌then◌else◌, ltb, length,
  ltb→lt,
}
use zodex.Common.Dict.{lookup-remove, lookup, remove, Distinct, remove-Distinct}
use zodex.Session.World.{Os, World}
use zodex.Session.Process.{owned_process_end}
use zodex.Session.Manager.{
  SessionManager, Managed, remove_session, poll, last_used_at, older, find_oldest_exited,
  evict_round, evict_rounds, evict_if_needed,
}
use zodex.Session.Manager.Valid.{Valid, find_oldest-Valid, remove_session-Valid}
use zodex.Session.Manager.Gone.{
  Gone, Listed, Listed-all, length-remove, Final-end, poll-sessions, poll-max_sessions, poll-Gone,
  poll-is_exited,
}

pub lookup_left :
    (h k b : ℕ) (m : List (ℕ × ℕ)) → lookup k (remove h m) ≡ some b → lookup k m ≡ some b
lookup_left h k b m e = ground (arith, lookup-remove h k m)

-- A handle of the map whose session is gone.
abbrev Victim : SessionManager → Option (ℕ × ℕ) → Type 0
Victim m none = Unit {0}
Victim m (some (h, _)) = (a : ℕ) × (lookup h m.sessions ≡ some a) × Gone m a

module _ (os : Os) where
  -- The scan leaves the map alone, keeps what is gone, and finds a session that is gone.
  record Found (m : SessionManager) (q : Managed (Option (ℕ × ℕ))) : Type 0 where
    sessions : q.manager.sessions ≡ m.sessions
    max_sessions : q.manager.max_sessions ≡ m.max_sessions
    victim : (o : Option (ℕ × ℕ)) → q.result ≡ some o → Victim q.manager o

  poll-Victim :
      (m : SessionManager) (w : World) (b : ℕ) (oldest : Option (ℕ × ℕ))
      → Victim m oldest
      → Victim (poll os m w b).manager oldest
  poll-Victim m w b none v = tt
  poll-Victim m w b (some (h, ts)) (a, e, g) =
      (a, ap (lookup h) (poll-sessions os m w b) ∙ e, poll-Gone os m w b a g)

  chosen :
      (m : SessionManager) (h a ts : ℕ) (oldest : Option (ℕ × ℕ)) (gone older_one : Bool)
      → lookup h m.sessions ≡ some a
      → (gone ≡ true → Gone m a)
      → Victim m oldest
      → Victim m (if gone && older_one then some (h, ts) else oldest)
  chosen m h a ts oldest true true e g v = (a, e, g refl)
  chosen m h a ts oldest true false e g v = v
  chosen m h a ts oldest false older_one e g v = v

  find_oldest-Found :
      (m : SessionManager) (w : World) (candidates : List (ℕ × ℕ)) (oldest : Option (ℕ × ℕ))
      → Listed m.sessions candidates
      → Victim m oldest
      → Found m (find_oldest_exited os m w candidates oldest)
  unfolding find_oldest_exited
  find_oldest-Found m w [] oldest l v = record {
    sessions = refl;
    max_sessions = refl;
    victim = λ o e. subst (Victim m) (cc (e)) v;
  }
  find_oldest-Found m w ((h, a) ∷ candidates) oldest l v =
      let p = poll os m w a in
      let same = poll-sessions os m w a in
      elim (Option-cases p.result) [
        | inl e ↦
            rw (e, find_oldest_exited)
              (record {
                sessions = same;
                max_sessions = poll-max_sessions os m w a;
                victim = λ o f. cc (f);
              })
        | inr (gone, e) ↦
            let pick : Option (ℕ × ℕ) =
              if gone && older (last_used_at m a) oldest
              then some (h, last_used_at m a)
              else oldest in
            let ih =
              find_oldest-Found p.manager p.world candidates pick
                (subst (λ s. Listed s candidates) (sym same) l.1)
                (chosen p.manager h a (last_used_at m a) oldest gone
                  (older (last_used_at m a) oldest) (ap (lookup h) same ∙ l.0)
                  (λ yes. poll-is_exited os m w a (e ∙ ap (λ x. some x) yes))
                  (poll-Victim m w a oldest v)) in
            rw (e, find_oldest_exited)
              (record {
                sessions = ih.sessions ∙ same;
                max_sessions = ih.max_sessions ∙ poll-max_sessions os m w a;
                victim = ih.victim;
              })
      ]

  sessions-remove_session :
      (m : SessionManager) (w : World) (h a : ℕ)
      → lookup h m.sessions ≡ some a
      → Gone m a
      → let q = (remove_session m w h).0 in
        (q.sessions ≡ remove h m.sessions) × (q.max_sessions ≡ m.max_sessions)
  unfolding remove_session
  sessions-remove_session m w h a e (r, f, final) =
      elim (Option-cases (owned_process_end r.inner)) [
        | inl g ↦ absurd (Final-end r.inner final g)
        | inr (end, g) ↦ rw (e, f, g, remove_session) (refl, refl)
      ]

  -- The map after an eviction: its handles are some of those before; the last word is that there
  -- is room, or an error.
  pub record Evicted (m : SessionManager) (q : Managed Bool) : Type 0 where
    pub distinct : Distinct q.manager.sessions
    pub max_sessions : q.manager.max_sessions ≡ m.max_sessions
    pub fewer : length q.manager.sessions ≤ length m.sessions
    pub kept : (h a : ℕ) → lookup h q.manager.sessions ≡ some a → lookup h m.sessions ≡ some a
    pub room : q.result ≡ some true → length q.manager.sessions < m.max_sessions

  record Round (m : SessionManager) (q : Managed Bool) : Type 0 where
    evicted : Evicted m q
    less : q.result ≡ some false → length q.manager.sessions < length m.sessions

  unchanged :
      (m : SessionManager) (q : Managed Bool)
      → Distinct m.sessions
      → q.manager.sessions ≡ m.sessions
      → q.manager.max_sessions ≡ m.max_sessions
      → q.result ≡ none
      → Round m q
  unchanged m q d e f n = record {
    evicted = record {
      distinct = subst Distinct (sym e) d;
      max_sessions = f;
      fewer = omega (arith, ap length e);
      kept = λ h a g. sym (ap (lookup h) e) ∙ g;
      room = λ g. cc (n, g);
    };
    less = λ g. cc (n, g);
  }

  evict_round-Round :
      (m : SessionManager) (w : World) → Distinct m.sessions → Round m (evict_round os m w)
  unfolding evict_round
  evict_round-Round m w d = elim (Bool-cases (ltb (length m.sessions) m.max_sessions)) [
    | inl e ↦
        rw (e, evict_round)
          (record {
            evicted = record {
              distinct = d;
              max_sessions = refl;
              fewer = omega arith;
              kept = λ h a g. g;
              room = λ g. ltb→lt (length m.sessions) m.max_sessions e;
            };
            less = λ g. cc (g);
          })
    | inr e ↦
        let found = find_oldest_exited os m w m.sessions none in
        let p = find_oldest-Found m w m.sessions none (Listed-all m.sessions d) tt in
        elim (Option-cases found.result) [
          | inl f ↦
              rw (e, f, evict_round)
                (unchanged m
                  (record { manager = found.manager; world = found.world; result = none }) d
                  p.sessions p.max_sessions refl)
          | inr (none, f) ↦
              rw (e, f, evict_round)
                (unchanged m
                  (record { manager = found.manager; world = found.world; result = none }) d
                  p.sessions p.max_sessions refl)
          | inr (some (h, ts), f) ↦
              let (a, there, gone) = p.victim (some (h, ts)) f in
              let (rest, same) = sessions-remove_session found.manager found.world h a there gone in
              let left : (remove_session found.manager found.world h).0.sessions
                  ≡ remove h m.sessions =
                rest ∙ ap (remove h) p.sessions in
              let count = length-remove h a m.sessions d (sym (ap (lookup h) p.sessions) ∙ there) in
              rw (e, f, evict_round)
                (record {
                  evicted = record {
                    distinct = subst Distinct (sym left) (remove-Distinct h m.sessions d);
                    max_sessions = same ∙ p.max_sessions;
                    fewer = omega (arith, count, ap length left);
                    kept = λ k b g. lookup_left h k b m.sessions (sym (ap (lookup k) left) ∙ g);
                    room = λ g. cc (g);
                  };
                  less = λ g. omega (arith, count, ap length left);
                })
        ]
  ]

  evict_rounds-Evicted :
      (n : ℕ) (m : SessionManager) (w : World)
      → Distinct m.sessions
      → length m.sessions < n
      → Evicted m (evict_rounds os n m w) × ((evict_rounds os n m w).result ≢ some false)
  unfolding evict_rounds
  evict_rounds-Evicted zero m w d h = absurd (omega arith)
  evict_rounds-Evicted (suc n) m w d h =
      let round = evict_round os m w in
      let p = evict_round-Round m w d in
      elim (Option-cases round.result) [
        | inl e ↦ rw (e, evict_rounds) (p.evicted, λ f. cc (e, f))
        | inr (true, e) ↦ rw (e, evict_rounds) (p.evicted, λ f. cc (e, f))
        | inr (false, e) ↦
            let v = p.evicted in
            let (q, ends) =
              evict_rounds-Evicted n round.manager round.world v.distinct
                (omega (arith, p.less e, h)) in
            rw (e, evict_rounds)
              (
                record {
                  distinct = q.distinct;
                  max_sessions = q.max_sessions ∙ v.max_sessions;
                  fewer = omega (arith, q.fewer, v.fewer);
                  kept = λ h a g. v.kept h a (q.kept h a g);
                  room = λ f. omega (arith, q.room f, v.max_sessions);
                },
                ends,
              )
      ]

  -- With one entry for each handle in the map, an eviction ends, after at most one round for each
  -- session and one more: it has made room for a session, or failed; it has added no handle, and
  -- the map still has one entry for each.
  pub evict_if_needed-Evicted :
      (m : SessionManager) (w : World)
      → Distinct m.sessions
      → Evicted m (evict_if_needed os m w) × ((evict_if_needed os m w).result ≢ some false)
  unfolding evict_if_needed
  evict_if_needed-Evicted m w d = evict_rounds-Evicted (suc (length m.sessions)) m w d (omega arith)

  evict_round-Valid :
      (m : SessionManager) (w : World)
      → Valid os m w
      → (let q = evict_round os m w in Valid os q.manager q.world)
  unfolding evict_round
  evict_round-Valid m w v = elim (Bool-cases (ltb (length m.sessions) m.max_sessions)) [
    | inl e ↦ rw (e, evict_round) v
    | inr e ↦
        let found = find_oldest_exited os m w m.sessions none in
        let p = find_oldest-Valid os m w m.sessions none v in
        elim (Option-cases found.result) [
          | inl f ↦ rw (e, f, evict_round) p
          | inr (none, f) ↦ rw (e, f, evict_round) p
          | inr (some victim, f) ↦
              rw (e, f, evict_round) (remove_session-Valid os found.manager found.world victim.0 p)
        ]
  ]

  evict_rounds-Valid :
      (n : ℕ) (m : SessionManager) (w : World)
      → Valid os m w
      → (let q = evict_rounds os n m w in Valid os q.manager q.world)
  unfolding evict_rounds
  evict_rounds-Valid zero m w v = v
  evict_rounds-Valid (suc n) m w v =
      let round = evict_round os m w in
      let p = evict_round-Valid m w v in
      elim (Option-cases round.result) [
        | inl e ↦ rw (e, evict_rounds) p
        | inr (true, e) ↦ rw (e, evict_rounds) p
        | inr (false, e) ↦ rw (e, evict_rounds) (evict_rounds-Valid n round.manager round.world p)
      ]

  pub evict_if_needed-Valid :
      (m : SessionManager) (w : World)
      → Valid os m w
      → (let q = evict_if_needed os m w in Valid os q.manager q.world)
  unfolding evict_if_needed
  evict_if_needed-Valid m w v = evict_rounds-Valid (suc (length m.sessions)) m w v

-- ===== src/Session/Process.antt =====
-- The process of one session: src/session/shutdown.rs, src/session/lifecycle.rs.
pub mod Reaping
pub mod Signals
use zodex.Common.{
  ℕ, suc, ◌+◌, ◌-◌, Bool, true, false, ◌&&◌, ◌||◌, not, List, [], ◌∷◌, ◌++◌, Option, none, some,
  ltb, leb, ◌==◌, if◌then◌else◌, Bytes, is_some,
}
use zodex.Session.World.{
  ℤ, negsuc, ProcessIdentity, found_is, ProcessSignal, terminate, kill, TerminationReason, exit,
  timeout, killed, OwnedProcessEnd, exited, Os, group, process, World, called, signalled,
  SessionInner,
}

abbrev pub is_empty {ℓ} : {A : Type ℓ} → List A → Bool
is_empty [] = true
is_empty (_ ∷ _) = false

abbrev pub terminate_grace_period_ms : ℕ
terminate_grace_period_ms = 5000

unfoldable pub process_termination_reason : SessionInner → TerminationReason
process_termination_reason inner =
    if inner.timed_out
    then timeout
    else if inner.kill_requested || inner.force_killed
    then killed
    else exit

abbrev pub ended_with : SessionInner → Option ℤ → Option OwnedProcessEnd
ended_with inner none = none
ended_with inner (some exit_code) =
    some (exited exit_code (process_termination_reason inner) inner.last_known_cwd)

unfoldable pub owned_process_end : SessionInner → Option OwnedProcessEnd
owned_process_end inner =
    if is_empty inner.owned_group_members then ended_with inner inner.reaped_exit_code else none

-- What a fallible call leaves: `result` is `none` on an error.
pub record Ran (A : Type 0) : Type 0 where
  pub inner : SessionInner
  pub world : World
  pub result : Option A

-- The members of the group other than its leader.
abbrev pub others : ℕ → List ProcessIdentity → List ProcessIdentity
others pid [] = []
others pid (m ∷ ms) = let rest = others pid ms in if m.pid == pid then rest else m ∷ rest

abbrev pub leader_among : ℕ → List ProcessIdentity → Option ProcessIdentity
leader_among pid [] = none
leader_among pid (m ∷ ms) = if m.pid == pid then some m else leader_among pid ms

-- A process with the number of the leader that is not the leader.
abbrev pub leader_reused : SessionInner → List ProcessIdentity → Bool
leader_reused inner members = elim (leader_among inner.pid members) [
  | none ↦ false
  | some found ↦ not (found_is inner.leader_identity found)
]

-- After the leader is reaped: `status.code().unwrap_or(-1)`.
unfoldable pub record_exit : SessionInner → World → Option ℤ → Ran (Option ℤ)
record_exit inner w none = record {
  inner = record inner { reaped_exit_code = some (negsuc 0) };
  world = w;
  result = some (some (negsuc 0));
}
record_exit inner w (some code) = record {
  inner = record inner { reaped_exit_code = some code };
  world = w;
  result = some (some code);
}

module _ (os : Os) where
  -- The loop over `owned_group_members.drain(..)`, which an error leaves.
  unfoldable pub surviving : World → List ProcessIdentity → World × Option (List ProcessIdentity)
  surviving w [] = (w, some [])
  surviving w (member ∷ members) = elim (os.identity w.calls member.pid) [
    | none ↦ (called w, none)
    | some found ↦
        let (w', rest) = surviving (called w) members in
        elim rest [
          | none ↦ (w', none)
          | some survivors ↦
              (w', some (if found_is found member then member ∷ survivors else survivors))
        ]
  ]

  -- The first part of `reap_exit_code`, by the exit code that is known. The vector that was
  -- drained is empty after an error.
  unfoldable pub scan : SessionInner → World → Option ℤ → Ran Bool
  scan inner w none = elim (os.process_group_members w.calls inner.pid) [
    | none ↦ record { inner = inner; world = called w; result = none }
    | some members ↦ record {
      inner = record inner { owned_group_members = others inner.pid members };
      world = called w;
      result = some true;
    }
  ]
  scan inner w (some _) =
      let (w', survivors) = surviving w inner.owned_group_members in
      elim survivors [
        | none ↦ record {
          inner = record inner { owned_group_members = [] };
          world = w';
          result = none;
        }
        | some members ↦ record {
          inner = record inner { owned_group_members = members };
          world = w';
          result = some true;
        }
      ]

  unfoldable pub post_reap : SessionInner → World → Option ℤ → Ran (Option ℤ)
  post_reap inner w status =
      if is_empty inner.owned_group_members
      then elim (os.process_group_members w.calls inner.pid) [
        | none ↦ record { inner = inner; world = called w; result = none }
        | some members ↦
            record_exit
              (if leader_reused inner members
                then inner
                else record inner { owned_group_members = others inner.pid members })
              (called w) status
      ]
      else record_exit inner w status

  -- The rest of `reap_exit_code`.
  unfoldable pub try_reap : SessionInner → World → Option ℤ → Ran (Option ℤ)
  try_reap inner w (some code) = record { inner = inner; world = w; result = some (some code) }
  try_reap inner w none = elim (os.try_wait w.calls inner.pid) [
    | none ↦ record { inner = inner; world = called w; result = none }
    | some answer ↦ elim answer [
      | none ↦ record { inner = inner; world = called w; result = some none }
      | some status ↦ post_reap inner (called w) status
    ]
  ]

  unfoldable pub reap_exit_code : SessionInner → World → Ran (Option ℤ)
  reap_exit_code inner w =
      let scanned = scan inner w inner.reaped_exit_code in
      elim scanned.result [
        | none ↦ record { inner = scanned.inner; world = scanned.world; result = none }
        | some _ ↦ try_reap scanned.inner scanned.world scanned.inner.reaped_exit_code
      ]

  unfoldable pub request_termination : SessionInner → World → SessionInner × World
  request_termination inner w = if is_some inner.terminate_started_at then (inner, w) else (
    record inner { terminate_started_at = some (os.now w.calls) },
    signalled (called w) (group inner.pid) terminate,
  )

  unfoldable pub signal_process_if_matching :
      World → ProcessIdentity → ProcessSignal → World × Option Bool
  signal_process_if_matching w expected signal = elim (os.identity w.calls expected.pid) [
    | none ↦ (called w, none)
    | some found ↦
        if found_is found expected
        then (
          signalled (called w) (process expected) signal,
          if os.signal (suc w.calls) then some true else none,
        )
        else (called w, some false)
  ]

  abbrev pub signal_members : World → List ProcessIdentity → ProcessSignal → ℕ → World × Option ℕ
  signal_members w [] signal signaled = (w, some signaled)
  signal_members w (member ∷ members) signal signaled =
      let (w', sent) = signal_process_if_matching w member signal in
      elim sent [
        | none ↦ (w', none)
        | some true ↦ signal_members w' members signal (suc signaled)
        | some false ↦ signal_members w' members signal signaled
      ]

  unfoldable pub signal_owned_group_members :
      SessionInner → World → ProcessSignal → World × Option ℕ
  signal_owned_group_members inner w signal = signal_members w inner.owned_group_members signal 0

  -- The signals once the grace period is over. An error of the group signal is ignored.
  unfoldable pub force_kill : SessionInner → World → Ran Bool
  force_kill inner w =
      let killed = record inner { force_killed = true } in
      let w' = if is_some inner.reaped_exit_code then w else signalled w (group inner.pid) kill in
      let (w'', count) = signal_owned_group_members killed w' kill in
      record {
        inner = killed;
        world = w'';
        result = elim count [ none ↦ none | some _ ↦ some true ];
      }

  -- By the time at which the termination began, and whether the kill was sent.
  unfoldable pub force_after : SessionInner → World → Option ℕ → Bool → Ran Bool
  force_after inner w none _ = record { inner = inner; world = w; result = some true }
  force_after inner w (some _) true = record { inner = inner; world = w; result = some true }
  force_after inner w (some started) false =
      if ltb (os.now w.calls - started) terminate_grace_period_ms
      then record { inner = inner; world = called w; result = some true }
      else force_kill inner (called w)

  unfoldable pub maybe_force_kill : SessionInner → World → Ran Bool
  maybe_force_kill inner w = force_after inner w inner.terminate_started_at inner.force_killed

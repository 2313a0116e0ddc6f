-- ===== src/Session/Runtime.antt =====
-- `SessionRuntime` of src/session/mod.rs: a session's turns at its process, and what it answers.
-- The text of the output is the part of Session/Output; here an answer carries the rest.
pub mod Turns
pub mod Rounds
pub mod Steady
pub mod Answers
pub mod Deadline
use zodex.Common.{
  is_empty, ℕ, zero, suc, ◌-◌, Bool, true, false, ◌&&◌, not, List, [], ◌∷◌, Option, none, some, leb,
  if◌then◌else◌, Bytes, is_some, min, max,
}
use zodex.Session.Process.{
  Ran, process_termination_reason, owned_process_end, reap_exit_code, request_termination,
  maybe_force_kill,
}
use zodex.Session.World.{
  ℤ, ProcessIdentity, same_members, TerminationReason, OwnedProcessEnd, Os, World, called,
  SessionInner,
}

-- `owned_process` is the identity in the `OwnedProcess`, whose other fields are the session's.
pub record SessionRuntime : Type 0 where
  pub internal_session_id : ℕ
  pub session_handle : ℕ
  pub inner : SessionInner
  pub owned_process : Option ProcessIdentity
  pub ownership_released : Bool

pub data CommandStatus : Type 0 where
  running exited : CommandStatus

pub record ToolOutput : Type 0 where
  pub status : CommandStatus
  pub cwd : Bytes
  pub session_handle : Option ℕ
  pub exit_code : Option ℤ
  pub termination_reason : Option TerminationReason

pub record WriteStdinInput : Type 0 where
  pub session_handle : ℕ
  pub chars : Option Bytes
  pub kill_process : Option Bool

-- What a call on a session leaves: `result` is `none` on an error.
pub record Turn (A : Type 0) : Type 0 where
  pub runtime : SessionRuntime
  pub world : World
  pub result : Option A

abbrev pub ended_entry : ℕ → OwnedProcessEnd → World → World
ended_entry id end w = record (called w) { ended = (id, end) ∷ w.ended }

-- The observer is told once; that it fails is only logged.
unfoldable pub release_process_ownership :
    SessionRuntime → World → OwnedProcessEnd → SessionRuntime × World
release_process_ownership r w end = if r.ownership_released then (r, w) else (
  record r { ownership_released = true },
  if is_some r.owned_process then ended_entry r.internal_session_id end w else w,
)

-- `release_process_ownership` where `owned_process_end` gives an end.
abbrev pub release_if : SessionRuntime → World → Option OwnedProcessEnd → SessionRuntime × World
release_if r w none = (r, w)
release_if r w (some end) = release_process_ownership r w end

-- What a round decides: to answer, or to go round again.
unfoldable pub exited_output : SessionInner → ℤ → ToolOutput
exited_output inner code = record {
  status = exited;
  cwd = inner.last_known_cwd;
  session_handle = none;
  exit_code = some code;
  termination_reason = some (process_termination_reason inner);
}

unfoldable pub running_output : SessionRuntime → SessionInner → ToolOutput
running_output r inner = record {
  status = running;
  cwd = inner.last_known_cwd;
  session_handle = some r.session_handle;
  exit_code = none;
  termination_reason = none;
}

unfoldable pub decide : SessionRuntime → SessionInner → Option ℤ → Bool → Option ToolOutput
decide r inner (some code) yielded =
    if inner.require_exit_before_return && not (is_empty inner.owned_group_members)
    then none
    else some (exited_output inner code)
decide r inner none yielded =
    if yielded && not inner.require_exit_before_return then some (running_output r inner) else none

abbrev pub kill_wanted : WriteStdinInput → Bool
kill_wanted input = elim input.kill_process [ none ↦ false | some wanted ↦ wanted ]

module _ (os : Os) where
  -- The members of the group are told to the observer where they have changed.
  unfoldable pub persist_members :
      Option ProcessIdentity → SessionInner → World → Option ℤ → Ran (Option ℤ)
  persist_members owned inner w exit =
      let persisted = record inner { persisted_group_members = inner.owned_group_members } in
      if same_members inner.persisted_group_members inner.owned_group_members
      then record { inner = inner; world = w; result = some exit }
      else if not (is_some owned)
      then record { inner = persisted; world = w; result = some exit }
      else if os.observe w.calls
      then record { inner = persisted; world = called w; result = some exit }
      else record { inner = inner; world = called w; result = none }

  unfoldable pub reap_and_record_exit :
      Option ProcessIdentity → SessionInner → World → Ran (Option ℤ)
  reap_and_record_exit owned inner w =
      let reaped = reap_exit_code os inner w in
      elim reaped.result [
        | none ↦ record { inner = reaped.inner; world = reaped.world; result = none }
        | some exit ↦ persist_members owned reaped.inner reaped.world exit
      ]

  unfoldable pub is_exited : SessionRuntime → World → Turn Bool
  is_exited r w =
      let reaped = reap_and_record_exit r.owned_process r.inner w in
      record {
        runtime = record r { inner = reaped.inner };
        world = reaped.world;
        result = elim reaped.result [
          | none ↦ none
          | some exit ↦ some (is_some exit && is_empty reaped.inner.owned_group_members)
        ];
      }

  -- The start of a round: the time is noted, the directory is read, and an idle session is stopped.
  unfoldable pub touch : SessionInner → World → SessionInner × World
  touch inner w = (
    record inner {
      last_used_at = os.now w.calls;
      last_known_cwd = elim (os.live_cwd (suc w.calls) inner.pid) [
        | none ↦ inner.last_known_cwd
        | some live_cwd ↦ live_cwd
      ];
    },
    called (called w),
  )

  unfoldable pub check_idle : SessionInner → World → SessionInner × World
  check_idle inner w =
      if leb inner.idle_timeout (os.now w.calls - inner.last_input_at) && not inner.timed_out
      then request_termination os
          (record inner { timed_out = true; require_exit_before_return = true }) (called w)
      else (inner, called w)

  -- One round of the loop: `some none` goes round again.
  unfoldable pub wait_round : SessionRuntime → World → ℕ → ℕ → Turn (Option ToolOutput)
  wait_round r w started yield_time_ms =
      let (touched, w1) = touch r.inner w in
      let (checked, w2) = check_idle touched w1 in
      let reaped = reap_and_record_exit r.owned_process checked w2 in
      elim reaped.result [
        | none ↦ record {
          runtime = record r { inner = reaped.inner };
          world = reaped.world;
          result = none;
        }
        | some exit ↦
            let forced = maybe_force_kill os reaped.inner reaped.world in
            elim forced.result [
              | none ↦ record {
                runtime = record r { inner = forced.inner };
                world = forced.world;
                result = none;
              }
              | some _ ↦ record {
                runtime = record r { inner = forced.inner };
                world = called forced.world;
                result = some (
                    decide r forced.inner exit
                      (leb yield_time_ms (os.now forced.world.calls - started)));
              }
            ]
      ]

  -- The rounds are bounded by the first argument; past the bound the result is `some none`.
  unfoldable pub wait_rounds : ℕ → SessionRuntime → World → ℕ → ℕ → Turn (Option ToolOutput)
  wait_rounds zero r w started yield_time_ms = record { runtime = r; world = w; result = some none }
  wait_rounds (suc n) r w started yield_time_ms =
      let round = wait_round r w started yield_time_ms in
      let rest = wait_rounds n round.runtime round.world started yield_time_ms in
      elim round.result [
        | none ↦ record { runtime = round.runtime; world = round.world; result = none }
        | some answer ↦ elim answer [
          | none ↦ rest
          | some output ↦ record {
            runtime = round.runtime;
            world = round.world;
            result = some (some output);
          }
        ]
      ]

  unfoldable pub wait_for_yield_or_exit_locked :
      ℕ → SessionRuntime → World → ℕ → Turn (Option ToolOutput)
  wait_for_yield_or_exit_locked rounds r w yield_time_ms =
      wait_rounds rounds r (called w) (os.now w.calls) yield_time_ms

  -- The writer is taken out while it is used, and is lost if that fails.
  unfoldable pub write_input : SessionInner → World → Ran Bool
  write_input inner w =
      if inner.input_writer
      then (if os.write w.calls
          then record { inner = inner; world = called w; result = some true }
          else record {
            inner = record inner { input_writer = false };
            world = called w;
            result = none;
          })
      else record { inner = inner; world = w; result = some true }

  unfoldable pub begin_turn : SessionInner → World → WriteStdinInput → Ran Bool
  begin_turn inner w input =
      let used = record inner {
        last_used_at = os.now w.calls;
        last_input_at = os.now (suc w.calls);
      } in
      let w1 = called (called w) in
      let (stopped, w2) =
        request_termination os
          (record used { kill_requested = true; require_exit_before_return = true }) w1 in
      if kill_wanted input
      then record { inner = stopped; world = w2; result = some true }
      else if is_some input.chars
      then write_input used w1
      else record { inner = used; world = w1; result = some true }

  unfoldable pub continue_session :
      ℕ → SessionRuntime → World → WriteStdinInput → ℕ → Turn (Option ToolOutput)
  continue_session rounds r w input yield_time_ms =
      let begun = begin_turn r.inner w input in
      let turned = record r { inner = begun.inner } in
      elim begun.result [
        | none ↦ record { runtime = turned; world = begun.world; result = none }
        | some _ ↦ wait_for_yield_or_exit_locked rounds turned begun.world yield_time_ms
      ]

  -- A round of `spawn_child_reaper`: `some true` ends it.
  unfoldable pub reaper_round : SessionRuntime → World → Turn Bool
  reaper_round r w =
      let reaped = reap_and_record_exit r.owned_process r.inner w in
      let after = record r { inner = reaped.inner } in
      elim reaped.result [
        | none ↦ record { runtime = after; world = reaped.world; result = none }
        | some exit ↦
            let end : Option OwnedProcessEnd = elim exit [
              | none ↦ none
              | some _ ↦ owned_process_end reaped.inner
            ] in
            let (released, w') = release_if after reaped.world end in
            record { runtime = released; world = w'; result = some (is_some end) }
      ]

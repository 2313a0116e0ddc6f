-- ===== src/Session/LifecycleTests.antt =====
-- Runs of the sessions of src/session, and their theorems at them.
use zodex.Common.{
  ℕ, ◌*◌, ◌≡◌, ◌≢◌, refl, true, false, [], ◌∷◌, none, some, arith, bytes, if◌then◌else◌, ltb,
}
use zodex.Common.Dict.{total, lookup, insert, remove, get_default}
use zodex.Session.World.{
  pos, ProcessIdentity, linux_proc_start_ticks, Os, World, exited, killed, same_identity,
  same_birth,
}
use zodex.Session.Process.{
  owned_process_end, process_termination_reason, surviving, scan, record_exit, post_reap, try_reap,
  reap_exit_code, request_termination, signal_owned_group_members, force_kill, force_after,
  maybe_force_kill,
}
use zodex.Session.Runtime.{
  SessionRuntime, CommandStatus, ToolOutput, WriteStdinInput, release_process_ownership,
  persist_members, reap_and_record_exit, is_exited, touch, check_idle, exited_output, decide,
  wait_round, wait_rounds, wait_for_yield_or_exit_locked, write_input, begin_turn, continue_session,
}
use zodex.Session.Runtime.Answers.{Ending, continue_session-Answered}
use zodex.Session.Runtime.Deadline.{wait_rounds-answers}
use zodex.Session.Manager.{
  SessionManager, Host, Limits, new_manager, admit, admit_locked, evict_if_needed, evict_rounds,
  evict_round, find_oldest_exited, poll, remove_session, new_runtime, register, observe_start,
  check_identity, launch, clamp_exec_timeout_ms,
}
use zodex.Session.Manager.Eviction.{Evicted, evict_if_needed-Evicted}
use zodex.Session.Shutdown.{RuntimeShutdownResult, addresses, shutdown_all}
use zodex.Session.Runtime.Turns.{complete_ends, notified}
use zodex.Session.Shutdown.Outcome.{AllDone}
use zodex.Session.Shutdown.Complete.{shutdown_all-AllDone}
use zodex.Session.Events.Closed.{run_events-shutdown}
use zodex.Session.Events.{
  admission, input, reaping, shutdown, untouched, step, run_events, Sound, run_events-Sound,
}

abbrev shell : ProcessIdentity
shell = record { pid = 100; birth = linux_proc_start_ticks 7 }

-- A system whose clock goes on a second with each call, and whose processes live until they are
-- asked for the thirtieth time.
abbrev lively : Os
lively = record {
  now = λ n. 1000 * n;
  identity = λ _ _. some (some shell);
  live_cwd = λ _ _. none;
  process_group_members = λ _ _. some (shell ∷ []);
  try_wait = λ n _. some (if ltb n 30 then none else some (some (pos 3)));
  signal = λ _. true;
  observe = λ _. true;
  write = λ _. true;
  descendants = λ _ _. some [];
  try_lock = λ _. true;
}

abbrev host : Host
host = record {
  workdir = λ _. some (bytes "/w");
  openpty = λ _. true;
  handle = λ n. n;
  spawn = λ _. some 100;
  require_process_identity = true;
}

abbrev cfg : Limits
cfg = record { default_exec_timeout_ms = 7200000; max_exec_timeout_ms = 7200000 }

abbrev one_command : SessionManager × World
one_command = run_events lively host cfg (new_manager 1) untouched (admission none ∷ [])

abbrev started : SessionRuntime
started = new_runtime 1 4 100 (some shell) (bytes "/w") 7200000 0 0

abbrev kill_it : WriteStdinInput
kill_it = record { session_handle = 4; chars = none; kill_process = some true }

abbrev poll_it : WriteStdinInput
poll_it = record { session_handle = 4; chars = none; kill_process = none }

-- A command starts, and a second one is refused while it runs.
second-refused :
    let q =
      run_events lively host cfg (new_manager 1) untouched (admission none ∷ admission none ∷ []) in
    (addresses q.0.sessions ≡ 0 ∷ []) × (q.0.allocated ≡ 1)
unfolding run_events step admit admit_locked evict_if_needed evict_rounds evict_round
    find_oldest_exited poll launch check_identity observe_start register new_runtime new_manager
    clamp_exec_timeout_ms lookup insert remove get_default is_exited reap_and_record_exit
    persist_members reap_exit_code scan try_reap post_reap record_exit surviving same_identity
    same_birth
second-refused = (refl, refl)

-- Once the first has exited it makes room for another.
exited-evicted :
    let q =
      run_events lively host cfg
        (new_manager 1)
        (record { calls = 28; signals = []; ended = [] })
        (admission none ∷ admission none ∷ []) in
    (addresses q.0.sessions ≡ 1 ∷ []) × (q.0.allocated ≡ 2)
unfolding run_events step admit admit_locked evict_if_needed evict_rounds evict_round
    find_oldest_exited poll launch check_identity observe_start register new_runtime new_manager
    clamp_exec_timeout_ms lookup insert remove get_default is_exited reap_and_record_exit
    persist_members reap_exit_code scan try_reap post_reap record_exit surviving same_identity
    same_birth remove_session owned_process_end exited process_termination_reason
    release_process_ownership
exited-evicted = (refl, refl)

run_events-Sound_example :
    (let q =
        run_events lively host cfg
          (new_manager 1)
          untouched
          (admission none ∷ input 0 kill_it ∷ reaping 0 ∷ shutdown 3 5000 ∷ []) in
      Sound lively host cfg q.0 q.1)
run_events-Sound_example =
    run_events-Sound lively host cfg 1
      (admission none ∷ input 0 kill_it ∷ reaping 0 ∷ shutdown 3 5000 ∷ [])

run_events-shutdown_example :
    (let q =
        run_events lively host cfg one_command.0 one_command.1
          (shutdown 3 5000 ∷ admission none ∷ input 0 kill_it ∷ []) in
      (q.0.admission_closed ≡ true)
      × (q.0.allocated ≡ one_command.0.allocated)
      × ((h a : ℕ) → lookup h q.0.sessions ≡ some a → lookup h one_command.0.sessions ≡ some a))
run_events-shutdown_example =
    run_events-shutdown lively host cfg one_command.0 one_command.1 3 5000
      (admission none ∷ input 0 kill_it ∷ [])

abbrev killed_output : ToolOutput
killed_output = record {
  status = CommandStatus.exited;
  cwd = bytes "/w";
  session_handle = none;
  exit_code = some (pos 3);
  termination_reason = some killed;
}

continue_session-Answered_example :
    Ending lively 20 kill_it (continue_session lively 20 started untouched kill_it 50)
unfolding new_runtime
continue_session-Answered_example =
    continue_session-Answered lively 20 started untouched kill_it 50 (λ h. cc (h))

kill-answered :
    (continue_session lively 20 started untouched kill_it 50).result ≡ some (some killed_output)
unfolding new_runtime continue_session begin_turn write_input request_termination
    wait_for_yield_or_exit_locked wait_rounds wait_round touch check_idle reap_and_record_exit
    persist_members reap_exit_code scan try_reap post_reap record_exit surviving same_identity
    same_birth maybe_force_kill force_after force_kill signal_owned_group_members decide
    exited_output process_termination_reason
kill-answered = refl

-- A clock that stops after twenty seconds.
abbrev stopping_clock : Os
stopping_clock = record lively { now = λ n. if ltb n 20 then 1000 * n else 20000 }

wait_rounds-answers_example :
    (wait_rounds stopping_clock 6 started untouched 0 4000).result ≢ some none
unfolding new_runtime
wait_rounds-answers_example =
    wait_rounds-answers stopping_clock 5 started untouched 0 4000 refl (λ c. ground arith)
      (λ c h. ground arith)

evict_if_needed-Evicted_example :
    Evicted lively one_command.0 (evict_if_needed lively one_command.0 one_command.1)
    × ((evict_if_needed lively one_command.0 one_command.1).result ≢ some false)
unfolding run_events step admit admit_locked evict_if_needed evict_rounds evict_round
    find_oldest_exited poll launch check_identity observe_start register new_runtime new_manager
    clamp_exec_timeout_ms lookup insert remove get_default is_exited reap_and_record_exit
    persist_members reap_exit_code scan try_reap post_reap record_exit surviving same_identity
    same_birth
evict_if_needed-Evicted_example =
    evict_if_needed-Evicted lively one_command.0 one_command.1 (refl, tt)

shutdown_all-AllDone_example :
    (let q = shutdown_all lively 40 5000 one_command.0 one_command.1 in
      (q.manager.admission_closed ≡ true)
      × ((id : ℕ) → complete_ends id q.world.ended ≡ total (notified id) q.manager.store)
      × ((counts : RuntimeShutdownResult)
          → q.result ≡ some counts
          → (q.manager.sessions ≡ []) × AllDone q.manager (addresses one_command.0.sessions)))
shutdown_all-AllDone_example =
    shutdown_all-AllDone lively 40 5000 one_command.0 one_command.1
      (run_events-Sound lively host cfg 1 (admission none ∷ [])).valid

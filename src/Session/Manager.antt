-- ===== src/Session/Manager.antt =====
-- `SessionManager` of src/session/mod.rs. The runtimes are shared: a runtime is an entry of
-- `store`, and the map of sessions, the turns and the reapers refer to it by its address.
pub mod Valid
pub mod Gone
pub mod Eviction
pub mod Launch
pub mod Admission
use zodex.Common.{
  ℕ, zero, suc, ◌+◌, ◌%◌, ◌^◌, Bool, true, false, ◌&&◌, not, List, [], ◌∷◌, ◌++◌, Option, none,
  some, ltb, if◌then◌else◌, Bytes, bytes, is_some, is_none, length, min, max,
}
use zodex.Common.Dict.{lookup, insert, remove, get_default}
use zodex.Session.World.{
  ProcessIdentity, kill, group, OwnedProcessEnd, Os, World, called, signalled, SessionInner,
}
use zodex.Session.Process.{owned_process_end}
use zodex.Session.Runtime.{
  SessionRuntime, Turn, is_exited, release_process_ownership, ended_entry, ToolOutput, exited,
  running,
}

pub record SessionManager : Type 0 where
  pub sessions : List (ℕ × ℕ)
  pub store : List (ℕ × SessionRuntime)
  pub allocated : ℕ
  pub admission_closed : Bool
  pub next_internal_session_id : ℕ
  pub max_sessions : ℕ

unfoldable pub new_manager : ℕ → SessionManager
new_manager max_sessions = record {
  sessions = [];
  store = [];
  allocated = 0;
  admission_closed = false;
  next_internal_session_id = 1;
  max_sessions = max_sessions;
}

-- What starts a command, which is not in the program: the number of the call is the argument. That
-- `openpty` fails stands also for a failure of the clones of its slave that follow it, and that
-- `spawn` fails also for a failure of what `launch` asks of the new process and of its terminal
-- before it reads the identity: the process number, the clones of the master, the reader.
pub record Host : Type 0 where
  pub workdir : ℕ → Option Bytes
  pub openpty : ℕ → Bool
  pub handle : ℕ → ℕ
  pub spawn : ℕ → Option ℕ
  pub require_process_identity : Bool

-- The fields of the configuration that bound a command's idle time.
pub record Limits : Type 0 where
  pub default_exec_timeout_ms : ℕ
  pub max_exec_timeout_ms : ℕ

-- What a call on the manager leaves: `result` is `none` on an error.
pub record Managed (A : Type 0) : Type 0 where
  pub manager : SessionManager
  pub world : World
  pub result : Option A

abbrev pub update : SessionManager → ℕ → SessionRuntime → SessionManager
update m address r = record m { store = insert address r m.store }

-- `clamp_exec_timeout_ms`; `clamp` needs the lower bound not to be above the upper one.
unfoldable pub clamp_exec_timeout_ms : Limits → Option ℕ → ℕ
clamp_exec_timeout_ms cfg requested =
    min cfg.max_exec_timeout_ms (max 1000 (get_default cfg.default_exec_timeout_ms requested))

abbrev ending : SessionRuntime → Option OwnedProcessEnd
ending r = owned_process_end r.inner

unfoldable pub remove_session : SessionManager → World → ℕ → SessionManager × World
remove_session m w session_handle = elim (lookup session_handle m.sessions) [
  | none ↦ (m, w)
  | some address ↦ elim (lookup address m.store) [
    | none ↦ (m, w)
    | some r ↦ elim (ending r) [
      | none ↦ (m, w)
      | some end ↦
          let (r', w') = release_process_ownership r w end in
          (update (record m { sessions = remove session_handle m.sessions }) address r', w')
    ]
  ]
]

abbrev pub last_used_at : SessionManager → ℕ → ℕ
last_used_at m address = elim (lookup address m.store) [ none ↦ 0 | some r ↦ r.inner.last_used_at ]

abbrev pub older : ℕ → Option (ℕ × ℕ) → Bool
older last_used none = true
older last_used (some (_, ts)) = ltb last_used ts

-- The session as it is admitted.
unfoldable pub new_runtime : ℕ → ℕ → ℕ → Option ProcessIdentity → Bytes → ℕ → ℕ → ℕ → SessionRuntime
new_runtime id handle pid identity cwd timeout_ms now now_system = record {
  internal_session_id = id;
  session_handle = handle;
  inner = record {
    pid = pid;
    last_known_cwd = cwd;
    reaped_exit_code = none;
    input_writer = true;
    last_used_at = now_system;
    last_input_at = now;
    idle_timeout = timeout_ms;
    timed_out = false;
    kill_requested = false;
    terminate_started_at = none;
    force_killed = false;
    require_exit_before_return = false;
    leader_identity = identity;
    owned_group_members = [];
    persisted_group_members = [];
  };
  owned_process = identity;
  ownership_released = false;
}

unfoldable pub incomplete : Bytes → Option Bytes → OwnedProcessEnd
incomplete reason final_cwd = record {
  exit_code = none;
  termination_reason = none;
  final_cwd = final_cwd;
  incomplete_reason = some reason;
}

abbrev pub refused : {A : Type 0} → SessionManager → World → Managed A
refused m w = record { manager = m; world = w; result = none }

-- The runtime gets the next address, and its handle refers to it.
unfoldable pub register : SessionManager → World → SessionRuntime → Managed ℕ
register m w r = record {
  manager = record m {
    sessions = insert r.session_handle m.allocated m.sessions;
    store = insert m.allocated r m.store;
    allocated = suc m.allocated;
  };
  world = w;
  result = some m.allocated;
}

module _ (os : Os) where
  -- Whether a session has exited, its runtime brought up to date.
  unfoldable pub poll : SessionManager → World → ℕ → Managed Bool
  poll m w address = elim (lookup address m.store) [
    | none ↦ record { manager = m; world = w; result = some false }
    | some r ↦
        let turn = is_exited os r w in
        record { manager = update m address turn.runtime; world = turn.world; result = turn.result }
  ]

  -- The loop over the candidates; the oldest is a handle and the time of its last use.
  unfoldable pub find_oldest_exited :
      SessionManager → World → List (ℕ × ℕ) → Option (ℕ × ℕ) → Managed (Option (ℕ × ℕ))
  find_oldest_exited m w [] oldest = record { manager = m; world = w; result = some oldest }
  find_oldest_exited m w ((handle, address) ∷ candidates) oldest =
      let last_used = last_used_at m address in
      let polled = poll m w address in
      elim polled.result [
        | none ↦ record { manager = polled.manager; world = polled.world; result = none }
        | some gone ↦
            find_oldest_exited polled.manager polled.world candidates
              (if gone && older last_used oldest then some (handle, last_used) else oldest)
      ]

  -- A round of `evict_if_needed`: `some true` ends the loop.
  unfoldable pub evict_round : SessionManager → World → Managed Bool
  evict_round m w =
      let found = find_oldest_exited m w m.sessions none in
      if ltb (length m.sessions) m.max_sessions
      then record { manager = m; world = w; result = some true }
      else elim found.result [
        | none ↦ record { manager = found.manager; world = found.world; result = none }
        | some oldest ↦ elim oldest [
          | none ↦ record { manager = found.manager; world = found.world; result = none }
          | some victim ↦
              let (m', w') = remove_session found.manager found.world victim.0 in
              record { manager = m'; world = w'; result = some false }
        ]
      ]

  -- The rounds are bounded; past the bound the result is `some false`.
  unfoldable pub evict_rounds : ℕ → SessionManager → World → Managed Bool
  evict_rounds zero m w = record { manager = m; world = w; result = some false }
  evict_rounds (suc n) m w =
      let round = evict_round m w in
      let rest = evict_rounds n round.manager round.world in
      elim round.result [ none ↦ round | some done ↦ if done then round else rest ]

  unfoldable pub evict_if_needed : SessionManager → World → Managed Bool
  evict_if_needed m w = evict_rounds (suc (length m.sessions)) m w

  -- The observer is told of the process, or the command is killed and taken back.
  unfoldable pub observe_start : SessionManager → World → SessionRuntime → Managed ℕ
  observe_start m w r =
      if is_none r.owned_process
      then register m w r
      else if os.observe w.calls
      then register m (called w) r
      else refused m (
          ended_entry r.internal_session_id
            (incomplete (bytes "process ownership admission failed before the session was admitted")
              (some r.inner.last_known_cwd))
            (signalled (called w) (group r.inner.pid) kill))

  -- A command without an identity is refused where one is required, unless it has ended.
  unfoldable pub check_identity : Bool → SessionManager → World → SessionRuntime → Managed ℕ
  check_identity required m w r =
      if is_none r.owned_process && required
      then elim (os.try_wait w.calls r.inner.pid) [
        | none ↦ refused m (called w)
        | some answer ↦ elim answer [
          | none ↦ refused m (signalled (called w) (group r.inner.pid) kill)
          | some _ ↦ observe_start m (called w) r
        ]
      ]
      else observe_start m w r

  -- From the spawn to the registration.
  unfoldable pub launch : Host → SessionManager → World → ℕ → Bytes → ℕ → ℕ → ℕ → Managed ℕ
  launch host m w id cwd timeout_ms now now_system =
      let m' = record m { next_internal_session_id = suc id % 2 ^ 64 } in
      let handle = host.handle w.calls in
      let w1 = called w in
      elim (host.spawn w1.calls) [
        | none ↦ refused m' (called w1)
        | some pid ↦
            let w2 = called w1 in
            elim (os.identity w2.calls pid) [
              | none ↦ refused m' (called w2)
              | some identity ↦
                  check_identity host.require_process_identity m' (called w2)
                    (new_runtime id handle pid identity cwd timeout_ms now now_system)
            ]
      ]

  -- With the admission lock held: room is made, and the command is started.
  unfoldable pub admit_locked :
      Host → Limits → SessionManager → World → Option ℕ → Bytes → Managed ℕ
  admit_locked host cfg m w timeout_ms cwd =
      let evicted = evict_if_needed m w in
      let now = os.now evicted.world.calls in
      let w1 = called evicted.world in
      let now_system = os.now w1.calls in
      let w2 = called w1 in
      elim evicted.result [
        | none ↦ refused evicted.manager evicted.world
        | some _ ↦
            if host.openpty w2.calls
            then launch host evicted.manager (called w2) evicted.manager.next_internal_session_id
                cwd (clamp_exec_timeout_ms cfg timeout_ms) now now_system
            else refused evicted.manager (called w2)
      ]

  -- `exec_command` up to the end of the admission lock; the result is the address of the runtime.
  unfoldable pub admit : Host → Limits → SessionManager → World → Option ℕ → Managed ℕ
  admit host cfg m w timeout_ms = elim (host.workdir w.calls) [
    | none ↦ refused m (called w)
    | some cwd ↦
        if m.admission_closed
        then refused m (called w)
        else admit_locked host cfg m (called w) timeout_ms cwd
  ]

  -- The end of `exec_command` and of `write_stdin`: a session that has exited is removed.
  unfoldable pub settle : SessionManager → World → ℕ → ℕ → ToolOutput → Managed Bool
  settle m w session_handle address output = elim output.status [
    | running ↦ record { manager = m; world = w; result = some false }
    | exited ↦
        let polled = poll m w address in
        elim polled.result [
          | none ↦ record { manager = polled.manager; world = polled.world; result = none }
          | some gone ↦
              let (m', w') = remove_session polled.manager polled.world session_handle in
              if gone
              then record { manager = m'; world = w'; result = some true }
              else record { manager = polled.manager; world = polled.world; result = some false }
        ]
  ]

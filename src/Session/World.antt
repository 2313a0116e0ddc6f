-- ===== src/Session/World.antt =====
-- Processes, their state and the operating system: src/session/process.rs, src/session/mod.rs.
use zodex.Common.{ℕ, suc, Bool, true, false, ◌&&◌, List, [], ◌∷◌, Option, none, some, ◌==◌, Bytes}

-- `i32`, for exit codes.
pub data ℤ : Type 0 where
  pos negsuc : ℕ → ℤ

pub data ProcessBirthIdentity : Type 0 where
  linux_proc_start_ticks : ℕ → ProcessBirthIdentity
  mac_os_start_time : ℕ → ℕ → ProcessBirthIdentity
  windows_creation_time : ℕ → ProcessBirthIdentity

pub record ProcessIdentity : Type 0 where
  pub pid : ℕ
  pub birth : ProcessBirthIdentity

unfoldable pub same_birth : ProcessBirthIdentity → ProcessBirthIdentity → Bool
same_birth (linux_proc_start_ticks a) (linux_proc_start_ticks b) = a == b
same_birth (mac_os_start_time a b) (mac_os_start_time c d) = (a == c) && (b == d)
same_birth (windows_creation_time a) (windows_creation_time b) = a == b
same_birth _ _ = false

unfoldable pub same_identity : ProcessIdentity → ProcessIdentity → Bool
unfolding same_birth
same_identity a b = (a.pid == b.pid) && same_birth a.birth b.birth

abbrev pub found_is : Option ProcessIdentity → ProcessIdentity → Bool
found_is none expected = false
found_is (some found) expected = same_identity found expected

abbrev pub same_members : List ProcessIdentity → List ProcessIdentity → Bool
same_members [] [] = true
same_members (a ∷ xs) (b ∷ ys) = same_identity a b && same_members xs ys
same_members _ _ = false

pub data ProcessSignal : Type 0 where
  terminate kill : ProcessSignal

pub data TerminationReason : Type 0 where
  exit timeout killed : TerminationReason

pub record OwnedProcessEnd : Type 0 where
  pub exit_code : Option ℤ
  pub termination_reason : Option TerminationReason
  pub final_cwd : Option Bytes
  pub incomplete_reason : Option Bytes

unfoldable pub exited : ℤ → TerminationReason → Bytes → OwnedProcessEnd
exited exit_code termination_reason final_cwd = record {
  exit_code = some exit_code;
  termination_reason = some termination_reason;
  final_cwd = some final_cwd;
  incomplete_reason = none;
}

-- The operating system and the observer are not in the program. The first argument of each
-- question is the number of the call; `none` is an error.
pub record Os : Type 0 where
  pub now : ℕ → ℕ
  pub identity : ℕ → ℕ → Option (Option ProcessIdentity)
  pub live_cwd : ℕ → ℕ → Option Bytes
  pub process_group_members : ℕ → ℕ → Option (List ProcessIdentity)
  pub try_wait : ℕ → ℕ → Option (Option (Option ℤ))
  pub signal : ℕ → Bool
  pub observe : ℕ → Bool
  pub write : ℕ → Bool
  pub descendants : ℕ → ℕ → Option (List ProcessIdentity)
  pub try_lock : ℕ → Bool

-- Who a signal went to: a process group, or the process that has the identity.
pub data Target : Type 0 where
  group : ℕ → Target
  process : ProcessIdentity → Target

pub record Sent : Type 0 where
  pub at : ℕ
  pub target : Target
  pub sent_signal : ProcessSignal

-- `calls` counts the questions; `signals` and `ended` record what the program did, newest first.
pub record World : Type 0 where
  pub calls : ℕ
  pub signals : List Sent
  pub ended : List (ℕ × OwnedProcessEnd)

abbrev pub called : World → World
called w = record w { calls = suc w.calls }

abbrev pub signalled : World → Target → ProcessSignal → World
signalled w target signal = record w {
  calls = suc w.calls;
  signals = (record { at = w.calls; target = target; sent_signal = signal }) ∷ w.signals;
}

pub record SessionInner : Type 0 where
  pub pid : ℕ
  pub last_known_cwd : Bytes
  pub reaped_exit_code : Option ℤ
  pub input_writer : Bool
  pub last_used_at : ℕ
  pub last_input_at : ℕ
  pub idle_timeout : ℕ
  pub timed_out : Bool
  pub kill_requested : Bool
  pub terminate_started_at : Option ℕ
  pub force_killed : Bool
  pub require_exit_before_return : Bool
  pub leader_identity : Option ProcessIdentity
  pub owned_group_members : List ProcessIdentity
  pub persisted_group_members : List ProcessIdentity

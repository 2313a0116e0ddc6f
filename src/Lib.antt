-- ===== src/Lib.antt =====
-- Verification of zodex, a harness that runs commands for a remote agent and records what they do.
--
-- The parts of the program and how they meet. A `SessionManager` (src/session/mod.rs) admits
-- commands, keeps a runtime for each, and answers turns on them. The process of a runtime is
-- watched, stopped and reaped by src/session/shutdown.rs and src/session/lifecycle.rs. Its
-- terminal is read by a thread of src/session/output.rs, which decodes the bytes and hands each
-- chunk to an observer and to a bounded buffer, from which the answers take their snapshots. The
-- observer of a local runtime is the history, whose writer is fed over a bounded channel by
-- src/local/history/worker/output_queue.rs. A client of src/local/watch reads what the runtime
-- serves of it as a stream of events. Patches are applied beside the sessions, by
-- src/apply_patch.rs, which recovers some stale ones by src/apply_patch/recovery.rs.
--
-- Which file models what. Names of functions and fields are those of the source.
--   Session/World: processes and their identities, `SessionInner`, and what is asked of the system
--     (process.rs, mod.rs).
--   Session/Process: `reap_exit_code`, `request_termination`, `maybe_force_kill`, the signals to
--     verified processes (shutdown.rs, lifecycle.rs, process.rs).
--   Session/Runtime: `SessionRuntime`, the wait by rounds, a turn, the reaper (mod.rs).
--   Session/Manager: `SessionManager`, admission, eviction, removal (mod.rs). The runtimes, which
--     the source shares by `Arc`, are entries of a store, and a session refers to one by address.
--   Session/Shutdown: `shutdown_all` and its passes (mod.rs, shutdown.rs).
--   Session/Events: the sessions over time, as sequences of these steps in any order.
--   Session/Utf8: `StreamingUtf8Decoder` (output.rs), and what `std::str::from_utf8` answers.
--   Session/Output: `OutputBuffer`, its spill file and its snapshots (output.rs).
--   Session/Reader: `spawn_reader` and `cleanup_stale_spills` (output.rs).
--   History/Overflow, History/OutputQueue: `OutputOverflow`, and the observer calls of
--     `LocalHistoryRuntime`
--     (src/local/history/worker/output_queue.rs, src/local/history/worker.rs).
--   Watch/Sse: `SseDecoder` of the client that follows a runtime (src/local/watch/sse.rs).
--   Watch/Records, Watch/Cards: the cards of the watch, and the records they are merged from
--     (src/local/watch/cards.rs).
--   Watch/State, Watch/View, Watch/Arrivals, Watch/Input: the state of the watch, what is shown of
--     it, and what answers, events and keys do to it (src/local/watch/model.rs).
--   Watch/Model: these in any sequence, with the subscription (src/local/watch/mod.rs).
--   Patch/Recovery: the recovery of a stale patch (src/apply_patch/recovery.rs).
--   Patch/Paths, Patch/Conflicts: the keys of paths, and the operations that get in each other's
--     way (src/apply_patch.rs).
--   Patch/Rewrite: the headers of a patch made absolute (src/apply_patch.rs).
--   Patch/Replacement: `replace_regular_file` (src/apply_patch/replacement.rs).
--   Patch/Apply: `apply_patch`, the loop over the operations and its report (src/apply_patch.rs).
--   Local/Quantity: durations and sizes (src/local/parse.rs).
--   Local/Sanitize: `sanitize_display_text` (src/local/presentation/sanitize.rs).
--   Common: machine numbers, lists and maps that these share.
-- A file below one of these proves what its name says of that component; Tests and
-- LifecycleTests run the definitions at concrete inputs.
--
-- What stands outside. The operating system, the process observer, the disk, the clock and the
-- bounded channel are parameters that answer each call by its number, in any way, errors
-- included; no assumption is made on them except where a theorem names it. Text is a list of
-- bytes, or of Unicode scalars where its characters count (Patch, Watch, Local). A handle and a
-- process number are natural numbers. Counters of 64 bits wrap or saturate where the source makes
-- them.
--
-- Locks. A step of Session/Events is what the source does under one lock: an admission, the start
-- of a turn, a round of a wait, a reaping, the removal after an answer, a shutdown. A shutdown is
-- one step, in which the locks of its polls may be held or free. A call of the history's observer is
-- also one step, although the source takes the lock of the overflow for each operation within it.
--
-- Bounds. `flush_output_overflow_nonblocking` and `evict_if_needed` run on fuel that the theorems
-- on them show to be enough. A wait for an answer or for the exits of a shutdown may last as long
-- as the system lets it: it takes the number of rounds as an argument, past which a wait for an
-- answer has no result; one theorem shows how many rounds are enough when the time passes.
--
-- Not modelled: the logs, the text and the elapsed time in an answer's summary, the pipe readers of
-- hosts without terminals, the inspectors of each platform, SQL, HTTP, the command line.
pub mod Common
pub mod History
pub mod Local
pub mod Patch
pub mod Session
pub mod Watch

-- ===== src/Session/Reader.antt =====
-- The reader thread of a terminal, `spawn_reader` of src/session/output.rs, and the clean-up of
-- old spill files. A read that returns bytes is an item of a list, with the answers that the file
-- system gives to the append that follows; the list ends where `read` returns 0 or an error.
pub mod Stream
use zodex.Common.{
  ℕ, suc, ◌+◌, ◌-◌, Bool, true, false, not, ◌&&◌, List, [], ◌∷◌, ◌++◌, Option, none, some, leb, ltb,
  ◌==◌, if◌then◌else◌, sat_add, is_some, Bytes, bytes, length, take, drop, eq_bytes,
}
use zodex.Session.Utf8.{StreamingUtf8Decoder, new_decoder, push, finish}
use zodex.Session.Output.{Disk, OutputBuffer, append, mark_reader_done, output_spill_stale_age}

-- The identity of the session and of the invocation that every chunk and the completion carry.
pub record Source : Type 0 where
  pub internal_session_id : ℕ
  pub session_handle : Bytes
  pub agent_id : Option Bytes
  pub invocation_id : Option ℕ

pub record SessionOutputChunk : Type 0 where
  pub source : Source
  pub sequence : ℕ
  pub text : Bytes

-- A call of the `SessionOutputObserver`.
pub data Told : Type 0 where
  output_chunk : SessionOutputChunk → Told
  output_complete : Source → Told

-- The calls of the observer, in order.
pub record Observed : Type 0 where
  pub told : List Told

pub record Reader : Type 0 where
  pub decoder : StreamingUtf8Decoder
  pub sequence : ℕ
  pub observed : Observed
  pub output : OutputBuffer

unfoldable pub observe_output : Observed → SessionOutputChunk → Observed
observe_output observed chunk = record observed { told = observed.told ++ output_chunk chunk ∷ [] }

unfoldable pub observe_output_complete : Observed → Source → Observed
observe_output_complete observed source = record observed {
  told = observed.told ++ output_complete source ∷ [];
}

-- The chunk goes to the observer and then to the buffer.
unfoldable pub deliver : Source → Disk → Reader → Bytes → Reader
unfolding observe_output
deliver source disk r chunk = record r {
  observed =
      observe_output r.observed (record { source = source; sequence = r.sequence; text = chunk });
  output = append disk r.output chunk;
}

-- One round of the loop.
unfoldable pub read_step : Source → Reader → Disk × Bytes → Reader
unfolding deliver
read_step source r (disk, read) =
    let (chunk, decoder) = push r.decoder read in
    let sent = deliver source disk r chunk in
    record sent { decoder = decoder; sequence = sat_add r.sequence 1 }

unfoldable pub read_loop : Source → Reader → List (Disk × Bytes) → Reader
read_loop source r [] = r
read_loop source r (read ∷ reads) = read_loop source (read_step source r read) reads

-- After the loop: the last chunk, the completion and the flag.
unfoldable pub read_end : Source → Disk → Reader → Reader
unfolding deliver observe_output_complete
read_end source disk r =
    let (final_chunk, decoder) = finish r.decoder in
    let sent = if not (length final_chunk == 0) then deliver source disk r final_chunk else r in
    record sent {
      decoder = decoder;
      observed = observe_output_complete sent.observed source;
      output = mark_reader_done sent.output;
    }

unfoldable pub start_reader : OutputBuffer → Reader
start_reader output = record {
  decoder = new_decoder;
  sequence = 0;
  observed = record { told = [] };
  output = output;
}

unfoldable pub spawn_reader : Source → OutputBuffer → List (Disk × Bytes) → Disk → Reader
spawn_reader source output reads disk =
    read_end source disk (read_loop source (start_reader output) reads)

-- `name.starts_with(prefix)` and `name.ends_with(suffix)`
abbrev starts_with : Bytes → Bytes → Bool
starts_with prefix name = eq_bytes (take (length prefix) name) prefix

abbrev ends_with : Bytes → Bytes → Bool
ends_with suffix name =
    leb (length suffix) (length name) && eq_bytes (drop (length name - length suffix) name) suffix

-- A directory entry: its file name where that is UTF-8, and its age in seconds where known.
pub record DirEntry : Type 0 where
  pub name : Option Bytes
  pub age : Option ℕ

unfoldable pub stale_spill : DirEntry → Bool
stale_spill entry = elim entry.name [
  | none ↦ false
  | some name ↦
      starts_with (bytes "zodex-output-") name
      && ends_with (bytes ".log") name
      && elim entry.age [ none ↦ false | some age ↦ leb output_spill_stale_age age ]
]

-- The entries that are left in the directory.
unfoldable pub cleanup_stale_spills : List DirEntry → List DirEntry
cleanup_stale_spills [] = []
cleanup_stale_spills (entry ∷ entries) =
    let rest = cleanup_stale_spills entries in if stale_spill entry then rest else entry ∷ rest

unfoldable pub spill_name : Bytes → Bytes
spill_name session_handle = bytes "zodex-output-" ++ (session_handle ++ bytes ".log")

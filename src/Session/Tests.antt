-- ===== src/Session/Tests.antt =====
-- Runs of the command output path of src/session/output.rs, and its theorems at such inputs.
use zodex.Common.{
  ◌≡◌, refl, ◌≤◌, true, false, List, [], ◌∷◌, ◌++◌, none, some, arith, Bytes, bytes, length,
}
use zodex.Session.Utf8.{new_decoder, piece, validate, from_utf8, push, push_loop, finish}
use zodex.Session.Utf8.Cuts.{push-append}
use zodex.Session.Utf8.Lossless.{push-pending_le}
use zodex.Session.Output.{
  Disk, new_buffer, append_all, stream, snapshot, line_total, char_count, tail_of, saved,
  mark_reader_done, append, count_chunk, spill_chunk, retain_tail, is_char_boundary,
  next_char_boundary, boundary_loop, floor_boundary, newlines, ends_with_newline, forward,
  start_output_spill, append_to_spill, write_part, preview_of,
}
use zodex.Session.Output.Retained.{Retained, history-Retained}
use zodex.Session.Output.Lines.{Reports, history-Reports}
use zodex.Session.Output.Preview.{Describes, snapshot-Describes}
use zodex.Session.Reader.{
  Told, output_chunk, output_complete, SessionOutputChunk, Source, spawn_reader, read_loop,
  read_step, read_end, start_reader, cleanup_stale_spills, stale_spill,
}
use zodex.Session.Reader.Stream.{
  told_chunks, texts, input, Numbered, spawn_reader-decodes, spawn_reader-lossless,
}

-- "aé🙂" cut inside the emoji.
abbrev cut_first : Bytes
cut_first = 0x61 ∷ 0xC3 ∷ 0xA9 ∷ 0xF0 ∷ 0x9F ∷ []

abbrev cut_second : Bytes
cut_second = 0x99 ∷ 0x82 ∷ []

push_cut :
    push new_decoder cut_first ≡ (0x61 ∷ 0xC3 ∷ 0xA9 ∷ [], record { pending = 0xF0 ∷ 0x9F ∷ [] })
unfolding push push_loop from_utf8 validate piece
push_cut = refl

-- The decoder's own test: an invalid byte is replaced, and the text goes on.
push_invalid :
    push new_decoder (b'a' ∷ 0xFF ∷ b'b' ∷ [])
    ≡ (b'a' ∷ 0xEF ∷ 0xBF ∷ 0xBD ∷ b'b' ∷ [], new_decoder)
unfolding push push_loop from_utf8 validate piece
push_invalid = refl

push-append_example : push new_decoder (cut_first ++ cut_second) ≡ (
  (push new_decoder cut_first).0 ++ (push (push new_decoder cut_first).1 cut_second).0,
  (push (push new_decoder cut_first).1 cut_second).1,
)
push-append_example = push-append new_decoder cut_first cut_second

push-pending_le_example : length (push new_decoder cut_first).1.pending ≤ 3
push-pending_le_example = push-pending_le new_decoder cut_first

abbrev disk : Disk
disk = record { creates = λ _. true; writes = λ _ _. true }

abbrev full_disk : Disk
full_disk = record { creates = λ _. false; writes = λ _ _. false }

abbrev history : List (Disk × Bytes)
history = (disk, bytes "one\n") ∷ (disk, bytes "two\nthree") ∷ []

-- Seven bytes are retained, and the file has all of the stream.
snapshot_saved :
    (snapshot (append_all (new_buffer 7 (bytes "/tmp/s.log")) history)).text
    ≡ saved (bytes "/tmp/s.log") 13 3 (bytes "o\nthree")
unfolding snapshot append_all append new_buffer count_chunk spill_chunk retain_tail
    next_char_boundary boundary_loop is_char_boundary char_count newlines ends_with_newline forward
    start_output_spill append_to_spill write_part floor_boundary line_total preview_of
snapshot_saved = refl

-- With no spill file the front is dropped, and counted.
snapshot_dropped :
    (snapshot (
      append_all
        (new_buffer 7 (bytes "/tmp/s.log"))
        ((full_disk, bytes "one\ntwo\nthree") ∷ []))).text
    ≡ tail_of 6 (bytes "o\nthree")
unfolding snapshot append_all append new_buffer count_chunk spill_chunk retain_tail
    next_char_boundary boundary_loop is_char_boundary char_count newlines ends_with_newline forward
    start_output_spill
snapshot_dropped = refl

history-Retained_example :
    Retained (stream history) (append_all (new_buffer 7 (bytes "/tmp/s.log")) history)
history-Retained_example = history-Retained 7 (bytes "/tmp/s.log") history (omega arith)

history-Reports_example :
    Reports (stream history) (snapshot (append_all (new_buffer 7 (bytes "/tmp/s.log")) history))
unfolding from_utf8 validate piece
history-Reports_example = history-Reports 7 (bytes "/tmp/s.log") history refl (omega arith)

snapshot-Describes_example :
    let b = append_all (new_buffer 7 (bytes "/tmp/s.log")) history in
    Describes (stream history) b (snapshot b).text
snapshot-Describes_example = snapshot-Describes 7 (bytes "/tmp/s.log") history (omega arith)

abbrev source : Source
source = record {
  internal_session_id = 1;
  session_handle = bytes "a1B2";
  agent_id = none;
  invocation_id = some 7;
}

abbrev reads : List (Disk × Bytes)
reads = (disk, cut_first) ∷ (disk, cut_second) ∷ (disk, bytes "!") ∷ (disk, 0xE2 ∷ 0x82 ∷ []) ∷ []

-- The same text, cut inside a scalar, and no broken end.
abbrev whole_reads : List (Disk × Bytes)
whole_reads = (disk, cut_first) ∷ (disk, cut_second) ∷ []

-- The texts told, and nothing for the completion.
abbrev told_texts : List Told → Bytes
told_texts [] = []
told_texts (output_chunk c ∷ told) = c.text ++ told_texts told
told_texts (output_complete _ ∷ told) = told_texts told

-- The end cuts a scalar short: one more chunk, with the replacement character.
spawn_reader_chunks :
    told_texts (spawn_reader source (new_buffer 64 []) reads disk).observed.told
    ≡ cut_first ++ cut_second ++ b'!' ∷ 0xEF ∷ 0xBF ∷ 0xBD ∷ []
unfolding spawn_reader read_loop read_step read_end start_reader push push_loop from_utf8 validate
    piece finish
spawn_reader_chunks = refl

spawn_reader-lossless_example :
    let q = spawn_reader source (new_buffer 64 []) whole_reads disk in
    (chunks : List SessionOutputChunk) × (q.observed.told
      ≡ told_chunks chunks ++ (output_complete source ∷ []))
    × (texts chunks ≡ input whole_reads)
unfolding from_utf8 validate piece
spawn_reader-lossless_example =
    spawn_reader-lossless source (new_buffer 64 []) whole_reads disk (omega arith) refl

spawn_reader-decodes_example :
    let q = spawn_reader source (new_buffer 64 []) reads disk in
    let decoded = push new_decoder (input reads) in
    (chunks : List SessionOutputChunk) × (q.observed.told
      ≡ told_chunks chunks ++ (output_complete source ∷ []))
    × (texts chunks ≡ decoded.0 ++ (finish decoded.1).0)
    × Numbered 0 chunks
    × ((hist : List (Disk × Bytes)) × (stream hist ≡ texts chunks)
        × (q.output ≡ mark_reader_done (append_all (new_buffer 64 []) hist)))
spawn_reader-decodes_example =
    spawn_reader-decodes source (new_buffer 64 []) reads disk (omega arith)

cleanup_stale_spills_run :
    cleanup_stale_spills (
      record { name = some (bytes "zodex-output-x.log"); age = some 90000 }
      ∷ record { name = some (bytes "zodex-output-x.log"); age = some 5 }
      ∷ record { name = some (bytes "other.log"); age = some 90000 }
      ∷ [])
    ≡ record { name = some (bytes "zodex-output-x.log"); age = some 5 }
      ∷ record { name = some (bytes "other.log"); age = some 90000 }
      ∷ []
unfolding cleanup_stale_spills stale_spill
cleanup_stale_spills_run = refl

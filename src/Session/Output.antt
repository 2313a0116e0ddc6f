-- ===== src/Session/Output.antt =====
-- `OutputBuffer` and its spill file, of src/session/output.rs. A text is its UTF-8 bytes, as
-- `String::len` and `is_char_boundary` count them. The file system answers through `Disk`.
pub mod Boundary
pub mod Spilling
pub mod Retained
pub mod Lines
pub mod Preview
use zodex.Common.{
  ℕ, zero, suc, ◌+◌, ◌-◌, ◌*◌, ◌%◌, ◌^◌, min, Bool, true, false, not, ◌&&◌, ◌||◌, List, [], ◌∷◌,
  ◌++◌, Option, none, some, ltb, leb, ◌==◌, if◌then◌else◌, sat_add, is_none, Bytes, length,
  get_elem?, take, drop,
}
use zodex.Session.Utf8.{continuation}

abbrev pub spilled_output_preview_max_bytes : ℕ
spilled_output_preview_max_bytes = 20 * 1024

abbrev pub output_spill_max_bytes : ℕ
output_spill_max_bytes = 16 * 1024 * 1024

-- `output_spill_stale_age`, in seconds
abbrev pub output_spill_stale_age : ℕ
output_spill_stale_age = 24 * 60 * 60

-- `str::is_char_boundary`
unfoldable pub is_char_boundary : Bytes → ℕ → Bool
is_char_boundary s i =
    if i == 0
    then true
    else elim (get_elem? s i) [ none ↦ i == length s | some b ↦ not (continuation b) ]

-- The loop takes a round for each byte at most.
unfoldable pub boundary_loop : ℕ → Bytes → ℕ → ℕ
boundary_loop zero s i = i
boundary_loop (suc fuel) s i =
    let next = boundary_loop fuel s (i + 1) in
    if ltb i (length s) && not (is_char_boundary s i) then next else i

unfoldable pub next_char_boundary : Bytes → ℕ → ℕ
next_char_boundary s idx = if leb (length s) idx then length s else boundary_loop (length s) s idx

-- `chunk.chars().count()`: the bytes that begin a scalar.
unfoldable pub char_count : Bytes → ℕ
char_count [] = 0
char_count (b ∷ bs) = (if continuation b then 0 else 1) + char_count bs

unfoldable pub newlines : Bytes → ℕ
newlines [] = 0
newlines (b ∷ bs) = (if b == b'\n' then 1 else 0) + newlines bs

-- `chunk.ends_with('\n')`
unfoldable pub ends_with_newline : Bytes → Bool
ends_with_newline [] = false
ends_with_newline (b ∷ []) = b == b'\n'
ends_with_newline (b ∷ c ∷ bs) = ends_with_newline (c ∷ bs)

-- How the file system answers: whether the path can be created, and whether `write_all` of some
-- bytes behind those already in the file succeeds.
pub record Disk : Type 0 where
  pub creates : Bytes → Bool
  pub writes : Bytes → Bytes → Bool

pub record OutputSpill : Type 0 where
  pub path : Bytes
  pub file : Bytes
  pub bytes_written : ℕ
  pub truncated : Bool

pub record OutputState : Type 0 where
  pub text : Bytes
  pub dropped_bytes : ℕ
  pub total_chars : ℕ
  pub newline_count : ℕ
  pub ends_newline : Bool
  pub spill : Option OutputSpill
  pub spill_failed : Bool

pub record OutputBuffer : Type 0 where
  pub inner : OutputState
  pub max_chars : ℕ
  pub spill_path : Bytes
  pub reader_done : Bool

unfoldable pub new_buffer : ℕ → Bytes → OutputBuffer
new_buffer max_chars spill_path = record {
  inner = record {
    text = [];
    dropped_bytes = 0;
    total_chars = 0;
    newline_count = 0;
    ends_newline = false;
    spill = none;
    spill_failed = false;
  };
  max_chars = max_chars;
  spill_path = spill_path;
  reader_done = false;
}

-- `while write_len > 0 && !text.is_char_boundary(write_len) { write_len -= 1 }`
unfoldable pub floor_boundary : Bytes → ℕ → ℕ
floor_boundary text zero = zero
floor_boundary text (suc n) = elim (is_char_boundary text (suc n)) [
  | true ↦ suc n
  | false ↦ floor_boundary text n
]

-- The end of `append_to_spill`, once the length to write is known; `none` is an error.
unfoldable pub written : OutputSpill → Bytes → ℕ → OutputSpill
written spill text write_len =
    if ltb 0 write_len
    then record spill {
      file = spill.file ++ take write_len text;
      bytes_written = sat_add spill.bytes_written write_len;
    }
    else spill

unfoldable pub marked : OutputSpill → Bytes → ℕ → OutputSpill
marked spill text write_len =
    if ltb write_len (length text) then record spill { truncated = true } else spill

unfoldable pub write_part : Disk → OutputSpill → Bytes → ℕ → Option OutputSpill
unfolding written marked
write_part disk spill text write_len =
    if ltb 0 write_len && not (disk.writes spill.file (take write_len text))
    then none
    else some (marked (written spill text write_len) text write_len)

unfoldable pub append_to_spill : Disk → OutputSpill → Bytes → Option OutputSpill
append_to_spill disk spill text =
    if spill.truncated || length text == 0
    then some spill
    else let remaining = output_spill_max_bytes - spill.bytes_written in
      if remaining == 0
      then some (record spill { truncated = true })
      else write_part disk spill text (floor_boundary text (min (length text) remaining))

-- On an error the file just created is removed again.
unfoldable pub start_output_spill : Disk → Bytes → Bytes → Bytes → Option OutputSpill
start_output_spill disk path prefix chunk =
    if disk.creates path
    then elim (append_to_spill disk
        (record { path = path; file = []; bytes_written = 0; truncated = false }) prefix) [
          | none ↦ none
          | some spill ↦ append_to_spill disk spill chunk
        ]
    else none

-- `state.spill = Some(spill)`, or no spill any more and `spill_failed`.
abbrev pub settle : OutputState → Option OutputSpill → OutputState
settle state none = record state { spill = none; spill_failed = true }
settle state (some spill) = record state { spill = some spill }

-- The chunk goes to the spill that the state has, if it has one.
unfoldable pub forward : Disk → OutputState → Option OutputSpill → Bytes → OutputState
forward disk state none chunk = state
forward disk state (some spill) chunk = settle state (append_to_spill disk spill chunk)

unfoldable pub spill_chunk : Disk → ℕ → Bytes → OutputState → Bytes → OutputState
spill_chunk disk max_chars path state chunk =
    let would_overflow = ltb max_chars (sat_add (length state.text) (length chunk)) in
    if would_overflow && is_none state.spill && not state.spill_failed
    then settle state (start_output_spill disk path state.text chunk)
    else forward disk state state.spill chunk

unfoldable pub count_chunk : OutputState → Bytes → OutputState
count_chunk state chunk = record state {
  total_chars = sat_add state.total_chars (char_count chunk);
  newline_count = sat_add state.newline_count (newlines chunk);
  ends_newline = if length chunk == 0 then state.ends_newline else ends_with_newline chunk;
}

-- `push_str`, and the drain of what is over `max_chars`.
unfoldable pub retain_tail : ℕ → OutputState → Bytes → OutputState
retain_tail max_chars state chunk =
    let text = state.text ++ chunk in
    if leb (length text) max_chars
    then record state { text = text }
    else let cut = next_char_boundary text (length text - max_chars) in
      record state { text = drop cut text; dropped_bytes = (state.dropped_bytes + cut) % 2 ^ 64 }

unfoldable pub append : Disk → OutputBuffer → Bytes → OutputBuffer
append disk buffer chunk =
    let counted = count_chunk buffer.inner chunk in
    let spilled = spill_chunk disk buffer.max_chars buffer.spill_path counted chunk in
    record buffer { inner = retain_tail buffer.max_chars spilled chunk }

-- The text of a snapshot: the banner that `format!` writes, by its arguments, and what follows it.
pub data Shown : Type 0 where
  all : Bytes → Shown
  tail_of : ℕ → Bytes → Shown
  saved : Bytes → ℕ → ℕ → Bytes → Shown
  saved_capped : ℕ → Bytes → ℕ → ℕ → Bytes → Shown

pub record OutputSnapshot : Type 0 where
  pub text : Shown
  pub output_file : Option Bytes
  pub output_chars : Option ℕ
  pub output_lines : Option ℕ
  pub output_file_truncated : Option Bool

unfoldable pub line_total : OutputState → ℕ
line_total state =
    if state.total_chars == 0
    then 0
    else sat_add state.newline_count (if state.ends_newline then 0 else 1)

unfoldable pub preview_of : Bytes → Bytes
preview_of text =
    drop (next_char_boundary text (length text - spilled_output_preview_max_bytes)) text

unfoldable pub snapshot : OutputBuffer → OutputSnapshot
snapshot buffer = elim buffer.inner.spill [
  | none ↦ record {
    text =
        if buffer.inner.dropped_bytes == 0
        then all buffer.inner.text
        else tail_of buffer.inner.dropped_bytes buffer.inner.text;
    output_file = none;
    output_chars = none;
    output_lines = none;
    output_file_truncated = none;
  }
  | some spill ↦ record {
    text =
        if spill.truncated
        then saved_capped output_spill_max_bytes spill.path buffer.inner.total_chars
            (line_total buffer.inner) (preview_of buffer.inner.text)
        else saved spill.path buffer.inner.total_chars (line_total buffer.inner)
            (preview_of buffer.inner.text);
    output_file = some spill.path;
    output_chars = some buffer.inner.total_chars;
    output_lines = some (line_total buffer.inner);
    output_file_truncated = some spill.truncated;
  }
]

unfoldable pub mark_reader_done : OutputBuffer → OutputBuffer
mark_reader_done buffer = record buffer { reader_done = true }

-- The appends of a history, each with the answers of the file system at that time.
unfoldable pub append_all : OutputBuffer → List (Disk × Bytes) → OutputBuffer
append_all buffer [] = buffer
append_all buffer ((disk, chunk) ∷ more) = append_all (append disk buffer chunk) more

-- The whole stream that such a history appends.
abbrev pub stream : List (Disk × Bytes) → Bytes
stream [] = []
stream ((disk, chunk) ∷ more) = chunk ++ stream more

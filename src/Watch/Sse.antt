-- ===== src/Watch/Sse.antt =====
-- src/local/watch/sse.rs: the events of a byte stream that arrives in chunks.
pub mod Boundary
pub mod Chunks
use zodex.Common.{
  ℕ, zero, suc, ◌+◌, Bool, true, false, not, ◌&&◌, List, [], ◌∷◌, ◌++◌, Option, none, some, ◌==◌,
  if◌then◌else◌, Bytes, bytes, length, take, drop, eq_bytes,
}
use zodex.Common.Lines.{lines}
use zodex.Session.Utf8.{from_utf8, valid, error}

-- `bytes.get(..2) == Some(b"\n\n")` and `bytes.get(..4) == Some(b"\r\n\r\n")`
abbrev pub starts_blank : Bytes → Bool
starts_blank (a ∷ b ∷ _) = (a == 10) && (b == 10)
starts_blank _ = false

abbrev pub starts_blank_crlf : Bytes → Bool
starts_blank_crlf (a ∷ b ∷ c ∷ d ∷ _) = ((a == 13) && (b == 10)) && ((c == 13) && (d == 10))
starts_blank_crlf _ = false

-- The index of the first boundary, and the length of its delimiter.
unfoldable pub next_event_boundary : Bytes → Option (ℕ × ℕ)
next_event_boundary [] = none
next_event_boundary (b ∷ rest) =
    let later = next_event_boundary rest in
    if starts_blank (b ∷ rest)
    then some (0, 2)
    else if starts_blank_crlf (b ∷ rest)
    then some (0, 4)
    else elim later [ none ↦ none | some (index, len) ↦ some (suc index, len) ]

abbrev pub strip_prefix : Bytes → Bytes → Option Bytes
strip_prefix prefix line =
    if eq_bytes (take (length prefix) line) prefix then some (drop (length prefix) line) else none

abbrev pub strip_space : Bytes → Bytes
strip_space value = elim (strip_prefix (bytes " ") value) [ none ↦ value | some rest ↦ rest ]

abbrev pub add_line : Bytes → Bytes → Bytes
add_line data_so_far value =
    (if length data_so_far == 0 then data_so_far else data_so_far ++ (10 ∷ [])) ++ strip_space value

abbrev pub collect : List Bytes → Bytes → Bytes
collect [] data_so_far = data_so_far
collect (line ∷ more) data_so_far = elim (strip_prefix (bytes "data:") line) [
  | none ↦ collect more data_so_far
  | some value ↦ collect more (add_line data_so_far value)
]

-- What a push leaves pending, and the events decoded, or `none` on an error.
pub record Decoded (Event : Type 0) : Type 0 where
  pub pending : Bytes
  pub events : Option (List Event)

abbrev pub emit : {Event : Type 0} → Option Event → List Event → List Event
emit none decoded = decoded
emit (some event) decoded = decoded ++ (event ∷ [])

-- The reading of an event's JSON is not in the program: `none` is an error.
module _ {Event : Type 0} (from_str : Bytes → Option Event) where
  unfoldable pub decode_sse_block : Bytes → Option (Option Event)
  decode_sse_block block =
      let payload = collect (lines block) [] in
      if length payload == 0
      then some none
      else elim (from_str payload) [ none ↦ none | some event ↦ some (some event) ]

  -- A block that is not UTF-8 is an error.
  unfoldable pub decode_block : Bytes → Option (Option Event)
  decode_block block = elim (from_utf8 block) [ valid ↦ decode_sse_block block | error _ _ ↦ none ]

  -- A round takes a block and its delimiter off the front.
  unfoldable pub push_blocks : ℕ → Bytes → List Event → Decoded Event
  push_blocks zero pending decoded = record { pending = pending; events = some decoded }
  push_blocks (suc fuel) pending decoded = elim (next_event_boundary pending) [
    | none ↦ record { pending = pending; events = some decoded }
    | some (end, delimiter_len) ↦
        let rest = drop (end + delimiter_len) pending in
        elim (decode_block (take end pending)) [
          | none ↦ record { pending = rest; events = none }
          | some event ↦ push_blocks fuel rest (emit event decoded)
        ]
  ]

  unfoldable pub push : Bytes → Bytes → Decoded Event
  push pending chunk = let joined = pending ++ chunk in push_blocks (suc (length joined)) joined []

-- ===== src/Watch/Tests.antt =====
-- Runs of the decoder of src/local/watch/sse.rs, and its theorem at them.
use zodex.Common.{◌≡◌, refl, [], ◌∷◌, ◌++◌, Option, some, Bytes, bytes}
use zodex.Session.Utf8.{from_utf8, validate, piece}
use zodex.Watch.Sse.{next_event_boundary, decode_sse_block, decode_block, push_blocks, push}
use zodex.Watch.Sse.Chunks.{pushed_next, push_of_two}

-- In place of the JSON of an event, the bytes themselves.
abbrev itself : Bytes → Option Bytes
itself payload = some payload

abbrev first_half : Bytes
first_half = bytes "id: 7" ++ (13 ∷ 10 ∷ []) ++ bytes "data: o"

abbrev second_half : Bytes
second_half = bytes "k" ++ (13 ∷ 10 ∷ 13 ∷ 10 ∷ []) ++ bytes "data"

push_first : push itself [] first_half ≡ record { pending = first_half; events = some [] }
unfolding push push_blocks next_event_boundary
push_first = refl

push_both :
    push itself [] (first_half ++ second_half)
    ≡ record { pending = bytes "data"; events = some (bytes "ok" ∷ []) }
unfolding push push_blocks next_event_boundary decode_block decode_sse_block from_utf8 validate
    piece
push_both = refl

push_of_two_example :
    push itself [] (first_half ++ second_half)
    ≡ pushed_next itself (push itself [] first_half) second_half
push_of_two_example = push_of_two itself [] first_half second_half

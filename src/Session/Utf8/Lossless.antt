-- ===== src/Session/Utf8/Lossless.antt =====
-- What `push` holds back, and valid UTF-8.
use zodex.Common.{
  ℕ, zero, suc, ◌≤◌, ◌≡◌, inl, inr, [], ◌∷◌, ◌++◌, arith, Bytes, length, drop, length-drop,
}
use zodex.Session.Utf8.{
  whole, bad, short, piece, valid, from_utf8, StreamingUtf8Decoder, new_decoder, push, finish,
}
use zodex.Session.Utf8.Pieces.{Fits, piece-Fits, Piece-cases}
use zodex.Session.Utf8.Stream.{
  decode, decode_nil, decode_short, decode_bad, decode_whole, decode_valid, push-decode,
}

decode_pending : (k : ℕ) (xs : Bytes) → length xs ≤ k → length (decode xs).1 ≤ 3
decode_pending k [] h = rw decode_nil (omega arith)
decode_pending zero (x ∷ xs) h = elim h [ ]
decode_pending (suc k) (b ∷ bs) h = elim (Piece-cases (piece b bs)) [
  | inl (n, e) ↦
      let fits : Fits (b ∷ bs) (whole n) = rw e at (piece-Fits b bs) in
      rw (decode_whole b bs n e)
        (decode_pending k (drop n (b ∷ bs)) (omega (arith, length-drop n (b ∷ bs))))
  | inr (inl (n, e)) ↦
      let fits : Fits (b ∷ bs) (bad n) = rw e at (piece-Fits b bs) in
      rw (decode_bad b bs n e)
        (decode_pending k (drop n (b ∷ bs)) (omega (arith, length-drop n (b ∷ bs))))
  | inr (inr e) ↦
      let fits : Fits (b ∷ bs) short = rw e at (piece-Fits b bs) in rw (decode_short b bs e) fits
]

-- At most three bytes are held back after a push, whatever was pushed: the `debug_assert!` holds.
pub push-pending_le : (d : StreamingUtf8Decoder) (a : Bytes) → length (push d a).1.pending ≤ 3
push-pending_le d a =
    rw (push-decode d a) (decode_pending (length (d.pending ++ a)) (d.pending ++ a) (omega arith))

-- Valid UTF-8 goes through unchanged and leaves nothing behind, so `finish` adds nothing.
pub push_valid :
    (a : Bytes)
    → from_utf8 a ≡ valid
    → (push new_decoder a ≡ (a, new_decoder)) × (finish (push new_decoder a).1 ≡ ([], new_decoder))
unfolding finish
push_valid a e =
    let sent : push new_decoder a ≡ (a, new_decoder) =
      rw (push-decode new_decoder a, decode_valid 0 a e) in
    (sent, rw sent)

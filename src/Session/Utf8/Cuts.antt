-- ===== src/Session/Utf8/Cuts.antt =====
-- `push` on a stream that is cut into chunks at any bytes.
use zodex.Common.{
  ℕ, zero, suc, ◌≤◌, ◌≡◌, ◌∙◌, inl, inr, [], ◌∷◌, ◌++◌, append_assoc, arith, Bytes, length, drop,
  length-drop, drop-append_le, take-append_le,
}
use zodex.Session.Utf8.{whole, bad, piece, StreamingUtf8Decoder, push}
use zodex.Session.Utf8.Pieces.{Fits, piece-Fits, Piece-cases, piece-append_whole, piece-append_bad}
use zodex.Session.Utf8.Stream.{
  decode, prepend, decode_nil, decode_short, decode_bad, decode_whole, push-decode,
}

-- The pending bytes of the first part are decoded with the second part.
decode-append :
    (k : ℕ) (xs ys : Bytes)
    → length xs ≤ k
    → decode (xs ++ ys) ≡ prepend (decode xs).0 (decode ((decode xs).1 ++ ys))
decode-append k [] ys h = rw decode_nil
decode-append zero (x ∷ xs) ys h = elim h [ ]
decode-append (suc k) (b ∷ bs) ys h = elim (Piece-cases (piece b bs)) [
  | inl (n, e) ↦
      let fits : Fits (b ∷ bs) (whole n) = rw e at (piece-Fits b bs) in
      let rest = drop n (b ∷ bs) in
      let ih = decode-append k rest ys (omega (arith, length-drop n (b ∷ bs))) in
      decode_whole b (bs ++ ys) n (piece-append_whole b n bs ys e)
      ∙ rw
          (
            drop-append_le n (b ∷ bs) ys fits.1,
            take-append_le n (b ∷ bs) ys fits.1,
            decode_whole b bs n e,
            ih,
          )
          (simp append_assoc)
  | inr (inl (n, e)) ↦
      let fits : Fits (b ∷ bs) (bad n) = rw e at (piece-Fits b bs) in
      let rest = drop n (b ∷ bs) in
      let ih = decode-append k rest ys (omega (arith, length-drop n (b ∷ bs))) in
      decode_bad b (bs ++ ys) n (piece-append_bad b n bs ys e)
      ∙ rw (drop-append_le n (b ∷ bs) ys fits.1, decode_bad b bs n e, ih)
  | inr (inr e) ↦ rw (decode_short b bs e)
]

-- Pushing two chunks one after the other yields the text, and leaves the pending bytes, of
-- pushing their concatenation: the place of the cut does not matter.
pub push-append :
    (d : StreamingUtf8Decoder) (a b : Bytes)
    → push d (a ++ b) ≡ ((push d a).0 ++ (push (push d a).1 b).0, (push (push d a).1 b).1)
push-append d a b = rw (
  push-decode d (a ++ b),
  push-decode d a,
  push-decode (record { pending = (decode (d.pending ++ a)).1 }) b,
  ← append_assoc d.pending a b,
  decode-append (length (d.pending ++ a)) (d.pending ++ a) b (omega arith),
)

-- ===== src/Session/Reader/Stream.antt =====
-- The observer and the buffer receive the decoded stream, in order and completely.
use zodex.Common.{
  nil_of_length, ℕ, ◌+◌, ◌-◌, ◌^◌, ◌<◌, ◌≡◌, refl, ap, sym, ◌∙◌, inl, inr, List, [], ◌∷◌, ◌++◌,
  append-nil, append_assoc, arith, Bytes, length, length-append, Bool-cases, not, ◌==◌,
}
use zodex.Session.Utf8.{from_utf8, valid, new_decoder, push, push_loop, finish}
use zodex.Session.Utf8.Lossless.{push_valid}
use zodex.Session.Utf8.Cuts.{push-append}
use zodex.Session.Output.{Disk, OutputBuffer, append, append_all, mark_reader_done, stream}
use zodex.Session.Reader.{
  Told, output_chunk, output_complete, Source, SessionOutputChunk, Reader, deliver, read_step,
  read_loop, read_end, start_reader, spawn_reader,
}

abbrev pub texts : List SessionOutputChunk → Bytes
texts [] = []
texts (c ∷ cs) = c.text ++ texts cs

-- The bytes of all reads.
abbrev pub input : List (Disk × Bytes) → Bytes
input [] = []
input ((disk, read) ∷ reads) = read ++ input reads

-- Each chunk has the next number.
abbrev pub Numbered : ℕ → List SessionOutputChunk → Type 0
Numbered n [] = Unit {0}
Numbered n (c ∷ cs) = (c.sequence ≡ n) × Numbered (n + 1) cs

texts-concat :
    (cs : List SessionOutputChunk) (c : SessionOutputChunk)
    → texts (cs ++ (c ∷ [])) ≡ texts cs ++ c.text
texts-concat [] c = rw append-nil
texts-concat (x ∷ cs) c = rw (texts-concat cs c, append_assoc)

Numbered-concat :
    (n : ℕ) (cs : List SessionOutputChunk) (c : SessionOutputChunk)
    → Numbered n cs
    → c.sequence ≡ n + length cs
    → Numbered n (cs ++ (c ∷ []))
Numbered-concat n [] c v e = (omega arith, tt)
Numbered-concat n (x ∷ cs) c v e = (v.0, Numbered-concat (n + 1) cs c v.1 (omega arith))

append_all-concat :
    (b : OutputBuffer) (hist : List (Disk × Bytes)) (disk : Disk) (chunk : Bytes)
    → append_all b (hist ++ ((disk, chunk) ∷ [])) ≡ append disk (append_all b hist) chunk
unfolding append_all
append_all-concat b [] disk chunk = refl
append_all-concat b ((d, c) ∷ hist) disk chunk = append_all-concat (append d b c) hist disk chunk

stream-concat :
    (hist : List (Disk × Bytes)) (disk : Disk) (chunk : Bytes)
    → stream (hist ++ ((disk, chunk) ∷ [])) ≡ stream hist ++ chunk
stream-concat [] disk chunk = rw append-nil
stream-concat ((d, c) ∷ hist) disk chunk = rw (stream-concat hist disk chunk, append_assoc)

-- The calls of the observer that bring these chunks.
abbrev pub told_chunks : List SessionOutputChunk → List Told
told_chunks [] = []
told_chunks (c ∷ cs) = output_chunk c ∷ told_chunks cs

told_chunks-concat :
    (cs : List SessionOutputChunk) (c : SessionOutputChunk)
    → told_chunks (cs ++ (c ∷ [])) ≡ told_chunks cs ++ (output_chunk c ∷ [])
told_chunks-concat [] c = refl
told_chunks-concat (x ∷ cs) c = ap (◌∷◌ (output_chunk x)) (told_chunks-concat cs c)

length-told_chunks : (cs : List SessionOutputChunk) → length (told_chunks cs) ≡ length cs
length-told_chunks [] = refl
length-told_chunks (c ∷ cs) = omega (arith, length-told_chunks cs)

-- The observer and the buffer have been sent `sent` behind the buffer `b`.
pub record Delivered (b : OutputBuffer) (sent : Bytes) (r : Reader) : Type 0 where
  pub chunks : List SessionOutputChunk
  pub told : r.observed.told ≡ told_chunks chunks
  pub observed : texts chunks ≡ sent
  pub numbered : Numbered 0 chunks
  pub hist : List (Disk × Bytes)
  pub appended : r.output ≡ append_all b hist
  pub streamed : stream hist ≡ sent

deliver-Delivered :
    (source : Source) (disk : Disk) {b : OutputBuffer} {sent : Bytes} (r : Reader) (chunk : Bytes)
    → r.sequence ≡ length r.observed.told
    → Delivered b sent r
    → Delivered b (sent ++ chunk) (deliver source disk r chunk)
unfolding deliver
deliver-Delivered source disk {b} r chunk count v =
    let c : SessionOutputChunk = record { source = source; sequence = r.sequence; text = chunk } in
    record {
      chunks = v.chunks ++ (c ∷ []);
      told = ap (λ t. t ++ (output_chunk c ∷ [])) v.told ∙ sym (told_chunks-concat v.chunks c);
      observed = texts-concat v.chunks c ∙ ap (λ t. t ++ chunk) v.observed;
      numbered =
          Numbered-concat 0 v.chunks c v.numbered
            (omega (arith, count, ap length v.told, length-told_chunks v.chunks));
      hist = v.hist ++ ((disk, chunk) ∷ []);
      appended =
          ap (λ o. append disk o chunk) v.appended ∙ sym (append_all-concat b v.hist disk chunk);
      streamed = stream-concat v.hist disk chunk ∙ ap (λ t. t ++ chunk) v.streamed;
    }

-- After the reads `seen`: their decoded text is delivered, and the decoder is where they leave it.
record Reading (b : OutputBuffer) (seen : Bytes) (r : Reader) : Type 0 where
  decoded : (push new_decoder seen).1 ≡ r.decoder
  delivered : Delivered b (push new_decoder seen).0 r
  count : r.sequence ≡ length r.observed.told

length-concat : (cs : List Told) (c : Told) → length (cs ++ (c ∷ [])) ≡ length cs + 1
length-concat cs c = length-append cs (c ∷ []) ∙ omega arith

module _ (source : Source) where
  length-read_step :
      (r : Reader) (disk : Disk) (read : Bytes)
      → length (read_step source r (disk, read)).observed.told ≡ length r.observed.told + 1
  unfolding read_step
  length-read_step r disk read = length-concat r.observed.told _

module _ (source : Source) {b : OutputBuffer} where
  read_step-Reading :
      {seen : Bytes} (r : Reader) (disk : Disk) (read : Bytes)
      → length r.observed.told < 2 ^ 64 - 1
      → Reading b seen r
      → Reading b (seen ++ read) (read_step source r (disk, read))
  unfolding read_step
  read_step-Reading {seen} r disk read small v =
      let cut = push-append new_decoder seen read in
      let next = push r.decoder read in
      record {
        decoded = ap (λ p. p.1) cut ∙ ap (λ d. (push d read).1) v.decoded;
        delivered =
            let all : (push new_decoder (seen ++ read)).0 ≡ (push new_decoder seen).0 ++ next.0 =
              ap (λ p. p.0) cut
              ∙ ap (λ d. (push new_decoder seen).0 ++ (push d read).0) v.decoded in
            let sent = deliver-Delivered source disk r next.0 v.count v.delivered in
            rw all (record {
              chunks = sent.chunks;
              told = sent.told;
              observed = sent.observed;
              numbered = sent.numbered;
              hist = sent.hist;
              appended = sent.appended;
              streamed = sent.streamed;
            });
        count = rw length-concat (omega (arith, v.count));
      }

  read_loop-Reading :
      {seen : Bytes} (reads : List (Disk × Bytes)) (r : Reader)
      → length r.observed.told + length reads < 2 ^ 64
      → Reading b seen r
      → Reading b (seen ++ input reads) (read_loop source r reads)
  unfolding read_loop
  read_loop-Reading [] r small v = rw append-nil v
  read_loop-Reading {seen} ((disk, read) ∷ reads) r small v =
      rw (← append_assoc seen read (input reads)) (
        read_loop-Reading reads (read_step source r (disk, read))
          (omega (arith, small, length-read_step source r disk read))
          (read_step-Reading r disk read (omega arith) v))

  read_end-Delivered :
      (disk : Disk) {seen : Bytes} (r : Reader)
      → Reading b seen r
      → let q = read_end source disk r in
        (chunks : List SessionOutputChunk) × (q.observed.told
          ≡ told_chunks chunks ++ (output_complete source ∷ []))
        × (texts chunks ≡ (push new_decoder seen).0 ++ (finish (push new_decoder seen).1).0)
        × Numbered 0 chunks
        × ((hist : List (Disk × Bytes)) × (stream hist ≡ texts chunks)
            × (q.output ≡ mark_reader_done (append_all b hist)))
  unfolding read_end
  read_end-Delivered disk {seen} r v =
      let last = (finish r.decoder).0 in
      let same : (finish (push new_decoder seen).1).0 ≡ last = ap (λ d. (finish d).0) v.decoded in
      elim (Bool-cases (not (length last == 0))) [
        | inl some_text ↦
            let sent = deliver-Delivered source disk r last v.count v.delivered in
            rw (same, some_text)
              (
                sent.chunks,
                ap (λ t. t ++ (output_complete source ∷ [])) sent.told,
                sent.observed,
                sent.numbered,
                (sent.hist, sent.streamed ∙ sym sent.observed, ap mark_reader_done sent.appended),
              )
        | inr no_text ↦
            let d = v.delivered in
            let empty : last ≡ [] = nil_of_length last (ground arith) in
            rw (same, no_text, empty, append-nil)
              (
                d.chunks,
                ap (λ t. t ++ (output_complete source ∷ [])) d.told,
                d.observed,
                d.numbered,
                (d.hist, d.streamed ∙ sym d.observed, ap mark_reader_done d.appended),
              )
      ]

-- A reader that meets fewer than 2^64 reads tells its observer exactly the decoded text of all
-- bytes read, the replacement of a scalar cut short by the end included, in chunks numbered from
-- 0 without a gap, and after the last of them the completion, and nothing else; the buffer has been
-- appended the same text, and is marked done.
pub spawn_reader-decodes :
    (source : Source) (b : OutputBuffer) (reads : List (Disk × Bytes)) (disk : Disk)
    → length reads < 2 ^ 64
    → let q = spawn_reader source b reads disk in
      let decoded = push new_decoder (input reads) in
      (chunks : List SessionOutputChunk) × (q.observed.told
        ≡ told_chunks chunks ++ (output_complete source ∷ []))
      × (texts chunks ≡ decoded.0 ++ (finish decoded.1).0)
      × Numbered 0 chunks
      × ((hist : List (Disk × Bytes)) × (stream hist ≡ texts chunks)
          × (q.output ≡ mark_reader_done (append_all b hist)))
unfolding spawn_reader start_reader
spawn_reader-decodes source b reads disk small =
    let r = start_reader b in
    let begun : Reading b [] r = record {
      decoded = unfold push push_loop in refl;
      delivered =
          unfold push push_loop append_all in
          record {
            chunks = [];
            told = refl;
            observed = refl;
            numbered = tt;
            hist = [];
            appended = refl;
            streamed = refl;
          };
      count = refl;
    } in
    read_end-Delivered source disk (read_loop source r reads)
      (read_loop-Reading source reads r (omega arith) begun)

-- A reader that meets fewer than 2^64 reads, of a stream that is valid UTF-8 as a whole and cut
-- anywhere, tells its observer, before the completion and nothing else, chunks whose texts joined
-- are the stream.
pub spawn_reader-lossless :
    (source : Source) (b : OutputBuffer) (reads : List (Disk × Bytes)) (disk : Disk)
    → length reads < 2 ^ 64
    → from_utf8 (input reads) ≡ valid
    → let q = spawn_reader source b reads disk in
      (chunks : List SessionOutputChunk) × (q.observed.told
        ≡ told_chunks chunks ++ (output_complete source ∷ []))
      × (texts chunks ≡ input reads)
spawn_reader-lossless source b reads disk small ok =
    let (chunks, told, decoded, _, _) = spawn_reader-decodes source b reads disk small in
    let (whole, done) = push_valid (input reads) ok in
    (chunks, told, decoded ∙ rw (ap (λ p. p.0) whole, ap (λ p. p.0) done, append-nil) refl)

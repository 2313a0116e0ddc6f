-- ===== src/Session/Output/Spilling.antt =====
-- The spill file holds the stream from its first byte on, up to its cap.
use zodex.Common.{
  nil_of_length, ℕ, zero, suc, ◌+◌, ◌-◌, ◌≤◌, ◌≡◌, refl, sym, ◌∙◌, inl, inr, true, false, not, ◌&&◌,
  ◌||◌, [], ◌++◌, append-nil, append_assoc, Option, none, some, arith, Bytes, length, take, drop,
  length-take, length-append, take-append-drop, drop_all, Bool-cases, ltb, ◌==◌, min,
}
use zodex.Session.Output.{
  Disk, OutputSpill, output_spill_max_bytes, written, marked, write_part, append_to_spill,
  start_output_spill, floor_boundary,
}
use zodex.Session.Output.Boundary.{floor_boundary-le}

-- The file holds the stream up to a `rest`, which is empty unless the spill is marked truncated.
pub record Spilled (sent : Bytes) (spill : OutputSpill) : Type 0 where
  pub rest : Bytes
  pub prefix : sent ≡ spill.file ++ rest
  pub complete : spill.truncated ≡ false → rest ≡ []
  pub counted : spill.bytes_written ≡ length spill.file
  pub capped : length spill.file ≤ output_spill_max_bytes

abbrev pub SpilledIf : Bytes → Option OutputSpill → Type 0
SpilledIf sent none = Unit {0}
SpilledIf sent (some spill) = Spilled sent spill

Spilled-append :
    {sent : Bytes} {spill : OutputSpill} (text : Bytes)
    → spill.truncated ≡ true
    → Spilled sent spill
    → Spilled (sent ++ text) spill
Spilled-append {spill = spill} text t v = record {
  rest = v.rest ++ text;
  prefix = rw (v.prefix, append_assoc);
  complete = λ e. cc (t, e);
  counted = v.counted;
  capped = v.capped;
}

-- `n` bytes of `text` are written behind a complete file, and it is marked if that is not all.
part-Spilled :
    (spill part : OutputSpill) {sent : Bytes} (text : Bytes) (n : ℕ)
    → spill.truncated ≡ false
    → n ≤ length text
    → spill.bytes_written + n ≤ output_spill_max_bytes
    → Spilled sent spill
    → part.file ≡ spill.file ++ take n text
    → part.bytes_written ≡ spill.bytes_written + n
    → part.truncated ≡ ltb n (length text)
    → Spilled (sent ++ text) part
part-Spilled spill part {sent} text n t fits room v file counted marked =
    let whole : sent ≡ spill.file = v.prefix ∙ rw (v.complete t, append-nil) in
    let grown : length part.file ≡ spill.bytes_written + n =
      rw (file, length-append, length-take) (omega (arith, v.counted)) in
    record {
      rest = drop n text;
      prefix = rw (file, whole, append_assoc, take-append-drop n text);
      complete = λ e. drop_all n text (ground arith);
      counted = counted ∙ sym grown;
      capped = omega (arith, grown);
    }

module _ (spill : OutputSpill) (text : Bytes) where
  part-file : (n : ℕ) → (marked (written spill text n) text n).file ≡ spill.file ++ take n text
  unfolding marked written
  part-file zero = ground (arith, append-nil spill.file)
  part-file (suc n) = ground arith

  part-bytes_written :
      (n : ℕ)
      → spill.bytes_written + n ≤ output_spill_max_bytes
      → (marked (written spill text n) text n).bytes_written ≡ spill.bytes_written + n
  unfolding marked written
  part-bytes_written n room = ground arith

  part-truncated :
      (n : ℕ)
      → spill.truncated ≡ false
      → (marked (written spill text n) text n).truncated ≡ ltb n (length text)
  unfolding marked written
  part-truncated n t = ground arith

write_part-Spilled :
    (disk : Disk) (spill : OutputSpill) {sent : Bytes} (text : Bytes) (n : ℕ)
    → spill.truncated ≡ false
    → n ≤ length text
    → spill.bytes_written + n ≤ output_spill_max_bytes
    → Spilled sent spill
    → SpilledIf (sent ++ text) (write_part disk spill text n)
unfolding write_part
write_part-Spilled disk spill text n t fits room v =
    elim (Bool-cases (ltb 0 n && not (disk.writes spill.file (take n text)))) [
      | inl fails ↦ rw fails tt
      | inr passes ↦ rw passes (
          part-Spilled spill _ text n t fits room v (part-file spill text n)
            (part-bytes_written spill text n room) (part-truncated spill text n t))
    ]

Spilled-keep :
    {sent : Bytes} {spill : OutputSpill} (text : Bytes)
    → (spill.truncated || length text == 0) ≡ true
    → Spilled sent spill
    → Spilled (sent ++ text) spill
Spilled-keep {sent} {spill} text e v = elim (Bool-cases spill.truncated) [
  | inl t ↦ Spilled-append text t v
  | inr t ↦ let empty : text ≡ [] = nil_of_length text (ground arith) in rw (empty, append-nil) v
]

pub append_to_spill-Spilled :
    (disk : Disk) (spill : OutputSpill) {sent : Bytes} (text : Bytes)
    → Spilled sent spill
    → SpilledIf (sent ++ text) (append_to_spill disk spill text)
unfolding append_to_spill
append_to_spill-Spilled disk spill text v =
    elim (Bool-cases (spill.truncated || length text == 0)) [
      | inl e ↦ rw e (Spilled-keep text e v)
      | inr e ↦ elim (Bool-cases (output_spill_max_bytes - spill.bytes_written == 0)) [
        | inl full ↦
            rw (e, full)
              (record {
                rest = v.rest ++ text;
                prefix = rw (v.prefix, append_assoc);
                complete = λ t. cc (t);
                counted = v.counted;
                capped = v.capped;
              })
        | inr free ↦
            let n = min (length text) (output_spill_max_bytes - spill.bytes_written) in
            rw (e, free)
              (write_part-Spilled disk spill text (floor_boundary text n) (ground arith)
                (omega (arith, floor_boundary-le text n))
                (omega (arith, floor_boundary-le text n, v.counted, v.capped)) v)
      ]
    ]

pub start_output_spill-Spilled :
    (disk : Disk) (path prefix chunk : Bytes)
    → SpilledIf (prefix ++ chunk) (start_output_spill disk path prefix chunk)
unfolding start_output_spill
start_output_spill-Spilled disk path prefix chunk = elim (Bool-cases (disk.creates path)) [
  | inl made ↦ rw made (finish _ (append_to_spill-Spilled disk fresh prefix empty))
  | inr refused ↦ rw refused tt
]
  where
    fresh : OutputSpill
    fresh = record { path = path; file = []; bytes_written = 0; truncated = false }

    empty : Spilled [] fresh
    empty = record {
      rest = [];
      prefix = refl;
      complete = λ _. refl;
      counted = refl;
      capped = omega arith;
    }

    finish :
        (s : Option OutputSpill)
        → SpilledIf prefix s
        → SpilledIf
            (prefix ++ chunk)
            (elim s [ none ↦ none | some spill ↦ append_to_spill disk spill chunk ])
    finish none v = tt
    finish (some spill) v = append_to_spill-Spilled disk spill chunk v

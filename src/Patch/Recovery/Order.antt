-- ===== src/Patch/Recovery/Order.antt =====
-- What a recovered order is.
use zodex.Common.{
  ℕ, suc, ◌+◌, ◌≤◌, ◌≡◌, refl, ap, sym, subst, ◌∙◌, inl, inr, Bool, true, false, ◌||◌, List, [],
  ◌∷◌, none, some, arith, ltb, length, get_elem?, Bool-cases, Option-cases,
}
use mathlib.Core.List.{Permᴰ}
use zodex.Patch.Recovery.{
  Line, UpdateFileChunk, Located, File, file_lines, unique_start, locate_chunks, before,
  sorted_insert, sort, overlapping, in_place, chunk_at, pick, reorder_located,
  reorder_unique_nonoverlapping_hunks, max_recovery_file_bytes,
}

-- The place is where `unique_start` finds the chunk.
abbrev pub Placed : List Line → List UpdateFileChunk → Located → Type 0
Placed lines chunks a =
    (len : ℕ) × (unique_start lines (chunk_at chunks a.index) ≡ some (a.start, len))
    × (a.end ≡ a.start + len)

abbrev pub AllPlaced : List Line → List UpdateFileChunk → List Located → Type 0
AllPlaced lines chunks [] = Unit {0}
AllPlaced lines chunks (a ∷ located) = Placed lines chunks a × AllPlaced lines chunks located

-- Each place ends before the next begins.
abbrev pub Disjoint : List Located → Type 0
Disjoint [] = Unit {0}
Disjoint (a ∷ []) = Unit {0}
Disjoint (a ∷ b ∷ more) = (a.end ≤ b.start) × Disjoint (b ∷ more)

pub record Reordered (file : File) (chunks result : List UpdateFileChunk) : Type 0 where
  pub places : List Located
  pub picked : result ≡ pick chunks places
  pub perm : Permᴰ result chunks
  pub placed : AllPlaced (file_lines file) chunks places
  pub disjoint : Disjoint places
  pub moved : in_place places 0 ≡ false

perm_refl : {A : Type 0} (xs : List A) → Permᴰ xs xs
perm_refl [] = Permᴰ.nil
perm_refl (x ∷ xs) = Permᴰ.cons refl (perm_refl xs)

either_false : (a b : Bool) → a || b ≡ false → (a ≡ false) × (b ≡ false)
either_false a b e = ground (arith, e)

sorted_insert-perm : (a : Located) (bs : List Located) → Permᴰ (sorted_insert a bs) (a ∷ bs)
unfolding sorted_insert
sorted_insert-perm a [] = Permᴰ.cons refl Permᴰ.nil
sorted_insert-perm a (b ∷ bs) = elim (Bool-cases (before a b)) [
  | inl e ↦ rw e (Permᴰ.cons refl (perm_refl (b ∷ bs)))
  | inr e ↦ rw e (Permᴰ.trans (Permᴰ.cons refl (sorted_insert-perm a bs)) (Permᴰ.swap refl refl))
]

sort-perm : (located : List Located) → Permᴰ (sort located) located
unfolding sort
sort-perm [] = Permᴰ.nil
sort-perm (a ∷ located) =
    Permᴰ.trans (sorted_insert-perm a (sort located)) (Permᴰ.cons refl (sort-perm located))

pick-perm :
    (chunks : List UpdateFileChunk) {xs ys : List Located}
    → Permᴰ xs ys
    → Permᴰ (pick chunks xs) (pick chunks ys)
pick-perm chunks Permᴰ.nil = Permᴰ.nil
pick-perm chunks (Permᴰ.cons e p) =
    Permᴰ.cons (ap (λ a. chunk_at chunks a.index) e) (pick-perm chunks p)
pick-perm chunks (Permᴰ.swap e f) =
    Permᴰ.swap (ap (λ a. chunk_at chunks a.index) e) (ap (λ a. chunk_at chunks a.index) f)
pick-perm chunks (Permᴰ.trans p q) = Permᴰ.trans (pick-perm chunks p) (pick-perm chunks q)

placed-perm :
    (lines : List Line) (chunks : List UpdateFileChunk) {xs ys : List Located}
    → Permᴰ xs ys
    → AllPlaced lines chunks ys
    → AllPlaced lines chunks xs
placed-perm lines chunks Permᴰ.nil h = h
placed-perm lines chunks (Permᴰ.cons e p) h =
    (subst (Placed lines chunks) (sym e) h.0, placed-perm lines chunks p h.1)
placed-perm lines chunks (Permᴰ.swap e f) h =
    (subst (Placed lines chunks) (sym e) h.1.0, (subst (Placed lines chunks) (sym f) h.0, h.1.1))
placed-perm lines chunks (Permᴰ.trans p q) h =
    placed-perm lines chunks p (placed-perm lines chunks q h)

-- The places of the chunks from an index on.
record Found (lines : List Line) (chunks rest : List UpdateFileChunk) (located : List Located)
    : Type 0 where
  picked : pick chunks located ≡ rest
  placed : AllPlaced lines chunks located

locate_chunks-Found :
    (lines : List Line) (chunks rest : List UpdateFileChunk) (index : ℕ) (located : List Located)
    → ((k : ℕ) → get_elem? chunks (index + k) ≡ get_elem? rest k)
    → locate_chunks lines rest index ≡ some located
    → Found lines chunks rest located
unfolding locate_chunks
locate_chunks-Found lines chunks [] index located at e =
    let none_left : [] ≡ located = cc (e) in
    subst (Found lines chunks []) none_left (record { picked = refl; placed = tt })
locate_chunks-Found lines chunks (chunk ∷ rest) index located at e =
    elim (Bool-cases
      ((elim chunk.change_context [ none ↦ false | some _ ↦ true ]) || chunk.is_end_of_file)) [
        | inl anchored ↦ cc (rw anchored at e)
        | inr free ↦ elim (Option-cases (unique_start lines chunk)) [
          | inl u ↦ cc (rw (free, u) at e)
          | inr ((start, len), u) ↦ elim (Option-cases (locate_chunks lines rest (suc index))) [
            | inl r ↦ cc (rw (free, u, r) at e)
            | inr (more, r) ↦
                let f = locate_chunks-Found lines chunks rest (suc index) more (later at) r in
                let got : get_elem? chunks index ≡ some chunk = first (at 0) in
                let here : chunk_at chunks index ≡ chunk = rw (got, chunk_at) refl in
                let a : Located = record { start = start; end = start + len; index = index } in
                let same : a ∷ more ≡ located = cc (rw (free, u, r) at e) in
                subst (Found lines chunks (chunk ∷ rest)) same (record {
                  picked = rw (here, f.picked) refl;
                  placed = ((len, ap (unique_start lines) here ∙ u, refl), f.placed);
                })
          ]
        ]
      ]
  where
    first : get_elem? chunks (index + 0) ≡ some chunk → get_elem? chunks index ≡ some chunk
    first e = let z : index ≡ index + 0 = omega arith in ap (get_elem? chunks) z ∙ e

    later :
        ((k : ℕ) → get_elem? chunks (index + k) ≡ get_elem? (chunk ∷ rest) k)
        → (k : ℕ) → get_elem? chunks (suc index + k) ≡ get_elem? rest k
    later all k =
        let z : suc index + k ≡ index + suc k = omega arith in ap (get_elem? chunks) z ∙ all (suc k)

Disjoint-sorted : (located : List Located) → overlapping located ≡ false → Disjoint located
unfolding overlapping
Disjoint-sorted [] e = tt
Disjoint-sorted (a ∷ []) e = tt
Disjoint-sorted (a ∷ b ∷ more) e =
    let (fits, rest) = either_false (ltb b.start a.end) (overlapping (b ∷ more)) e in
    (ground (arith, fits), Disjoint-sorted (b ∷ more) rest)

-- When chunks are put in another order, the result is a permutation of them, and there are places
-- in the file, one for each chunk of the result in its order, each ending before the next begins,
-- at which `unique_start` finds the old lines of the chunk; the order is not the one given.
pub reorder-Reordered :
    (file : File) (chunks result : List UpdateFileChunk)
    → reorder_unique_nonoverlapping_hunks (some file) chunks ≡ some result
    → Reordered file chunks result
unfolding reorder_unique_nonoverlapping_hunks reorder_located
reorder-Reordered file chunks result e =
    elim (Bool-cases (ltb (length chunks) 2 || ltb max_recovery_file_bytes file.size)) [
      | inl few ↦ cc (rw few at e)
      | inr enough ↦ elim (Option-cases (locate_chunks (file_lines file) chunks 0)) [
        | inl f ↦ cc (rw (enough, f) at e)
        | inr (located, f) ↦ elim (Bool-cases (overlapping (sort located))) [
          | inl o ↦ cc (rw (enough, f, o) at e)
          | inr apart ↦ elim (Bool-cases (in_place (sort located) 0)) [
            | inl i ↦ cc (rw (enough, f, apart, i) at e)
            | inr moved ↦
                let found =
                  locate_chunks-Found (file_lines file) chunks chunks 0 located from_zero f in
                let same : pick chunks (sort located) ≡ result =
                  cc (rw (enough, f, apart, moved) at e) in
                subst (Reordered file chunks) same (record {
                  places = sort located;
                  picked = refl;
                  perm =
                      subst (Permᴰ (pick chunks (sort located))) found.picked
                        (pick-perm chunks (sort-perm located));
                  placed = placed-perm (file_lines file) chunks (sort-perm located) found.placed;
                  disjoint = Disjoint-sorted (sort located) apart;
                  moved = moved;
                })
          ]
        ]
      ]
    ]
  where
    from_zero : (k : ℕ) → get_elem? chunks (0 + k) ≡ get_elem? chunks k
    from_zero k = let z : 0 + k ≡ k = omega arith in ap (get_elem? chunks) z

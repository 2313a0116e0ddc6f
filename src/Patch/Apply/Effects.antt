-- ===== src/Patch/Apply/Effects.antt =====
-- What a patch may do to the disk, as a relation, and the loop as a refinement of it.
use zodex.Common.{
  ℕ, suc, ◌≡◌, refl, ◌⊎◌, inl, inr, true, false, List, [], ◌∷◌, Option, none, some, Bool-cases,
  Option-cases, get_elem?, Bytes,
}
use zodex.Common.Dict.{lookup}
use zodex.Patch.Paths.{FilePath}
use zodex.Patch.Replacement.{ReplaceError, replace_regular_file}
use zodex.Patch.Conflicts.{Hunk, add_file, contains, replacement_pairs, conflicting_hunks}
use zodex.Patch.Apply.{
  Failure, Attempt, done, failure, Host, Progress, is_context_failure, failure_reason, untouched,
  reordered, after_retry, retry, after_attempt, after_replacement, replace, replace_by, values,
  apply_one, apply_each, Paths, apply_hunks,
}

module _ {W Staged : Type 0} (host : Host W Staged) (hunks : List Hunk)
    (replacements : List (ℕ × ℕ)) (conflicts : List ℕ) where
  -- What one operation may do.
  pub data Effect (index : ℕ) (hunk : Hunk) (before after : W) : Type 0 where
    -- in conflict, or done with the deletion before it
    untried : after ≡ before → Effect index hunk before after
    replaced :
        (add : ℕ) (path : FilePath) (contents : Bytes)
        → contains index conflicts ≡ false
        → lookup index replacements ≡ some add
        → get_elem? hunks add ≡ some (add_file path contents)
        → after ≡ (replace_regular_file host.files path contents before).1
        → Effect index hunk before after
    worker_panicked :
        (add : ℕ)
        → contains index conflicts ≡ false
        → lookup index replacements ≡ some add
        → host.worker_panics before ≡ some after
        → Effect index hunk before after
    attempted :
        contains index conflicts ≡ false
        → contains index (values replacements) ≡ false
        → after ≡ (host.apply_hunk hunk before).1
        → Effect index hunk before after
    -- only behind a failure for context that wrote nothing, and with the same chunks in order
    attempted_again :
        (first : Failure) (in_order : Hunk)
        → contains index conflicts ≡ false
        → contains index (values replacements) ≡ false
        → (host.apply_hunk hunk before).0 ≡ failure first
        → is_context_failure (failure_reason first) ≡ true
        → untouched first ≡ true
        → reordered host hunk (host.apply_hunk hunk before).1 ≡ some in_order
        → after ≡ (host.apply_hunk in_order (host.apply_hunk hunk before).1).1
        → Effect index hunk before after

  pub data Effects : ℕ → List Hunk → W → W → Type 0 where
    finished : {index : ℕ} {w w' : W} → w' ≡ w → Effects index [] w w'
    and_then :
        {index : ℕ} {hunk : Hunk} {more : List Hunk} {before middle after : W}
        → Effect index hunk before middle
        → Effects (suc index) more middle after
        → Effects index (hunk ∷ more) before after

  after_retry-world :
      (hunk : Hunk) (first : Failure) (p : Progress W) (r : Attempt × W)
      → (after_retry host hunk first p r).world ≡ r.1
  unfolding after_retry
  after_retry-world hunk first p (done, w) = refl
  after_retry-world hunk first p (failure second, w) = refl

  after_replacement-world :
      (path : FilePath) (p : Progress W) (r : Option ReplaceError × W)
      → (after_replacement host path p r).world ≡ r.1
  unfolding after_replacement
  after_replacement-world path p (none, w) = refl
  after_replacement-world path p (some error, w) = refl

  -- Nothing more is done, or the operation is tried again in order.
  abbrev Again : Hunk → Attempt × W → W → Type 0
  Again hunk r after =
      (after ≡ r.1)
      ⊎ ((first : Failure) × (in_order : Hunk) × (r.0 ≡ failure first)
          × (is_context_failure (failure_reason first) ≡ true)
          × (untouched first ≡ true)
          × (reordered host hunk r.1 ≡ some in_order)
          × (after ≡ (host.apply_hunk in_order r.1).1))

  retry-Again :
      (hunk : Hunk) (first : Failure) (p : Progress W) (w : W) (found : Option Hunk)
      → is_context_failure (failure_reason first) ≡ true
      → untouched first ≡ true
      → reordered host hunk w ≡ found
      → Again hunk (failure first, w) (retry host hunk first p found w).world
  unfolding retry
  retry-Again hunk first p w none context clean e = inl refl
  retry-Again hunk first p w (some in_order) context clean e = inr (
    first,
    in_order,
    refl,
    context,
    clean,
    e,
    after_retry-world hunk first p (host.apply_hunk in_order w),
  )

  after_attempt-Again :
      (hunk : Hunk) (p : Progress W) (r : Attempt × W)
      → Again hunk r (after_attempt host hunk p r).world
  unfolding after_attempt
  after_attempt-Again hunk p (done, w) = inl refl
  after_attempt-Again hunk p (failure first, w) =
      elim (Bool-cases (is_context_failure (failure_reason first))) [
        | inr other ↦ rw (after_attempt, other) (unfold retry in inl refl)
        | inl context ↦ elim (Bool-cases (untouched first)) [
          | inr wrote ↦ rw (after_attempt, context, wrote) (unfold retry in inl refl)
          | inl clean ↦
              rw (after_attempt, context, clean)
                (retry-Again hunk first p w (reordered host hunk w) context clean refl)
        ]
      ]

  attempt-Effect :
      (index : ℕ) (hunk : Hunk) (before after : W)
      → contains index conflicts ≡ false
      → contains index (values replacements) ≡ false
      → Again hunk (host.apply_hunk hunk before) after
      → Effect index hunk before after
  attempt-Effect index hunk before after free ordinary (inl e) = attempted free ordinary e
  attempt-Effect index hunk before after free ordinary (inr (first, in_order, e, c, u, r, a)) =
      attempted_again first in_order free ordinary e c u r a

  replace-Effect :
      (index : ℕ) (hunk : Hunk) (p : Progress W) (add : ℕ) (path : FilePath) (contents : Bytes)
      → contains index conflicts ≡ false
      → lookup index replacements ≡ some add
      → get_elem? hunks add ≡ some (add_file path contents)
      → (panics : Option W) → host.worker_panics p.world ≡ panics
      → Effect index hunk p.world (replace host path contents p).world
  unfolding replace
  replace-Effect index hunk p add path contents free pair found none e =
      rw (replace, e)
        (replaced add path contents free pair found
          (after_replacement-world path p (replace_regular_file host.files path contents p.world)))
  replace-Effect index hunk p add path contents free pair found (some w) e =
      rw (replace, e) (worker_panicked add free pair e)

  same_world : (q p' : Progress W) → some q ≡ some p' → p'.world ≡ q.world
  same_world q p' e = cc

  replace_by-Effect :
      (index : ℕ) (hunk : Hunk) (p p' : Progress W) (add : ℕ) (found : Option Hunk)
      → contains index conflicts ≡ false
      → lookup index replacements ≡ some add
      → get_elem? hunks add ≡ found
      → replace_by host found p ≡ some p'
      → Effect index hunk p.world p'.world
  unfolding replace_by
  replace_by-Effect index hunk p p' add (some (add_file path contents)) free pair found h =
      rw (same_world _ p' h) (
        replace-Effect index hunk p add path contents free pair found (host.worker_panics p.world)
          refl)
  replace_by-Effect index hunk p p' add _ free pair found h = cc

  apply_one-Effect :
      (index : ℕ) (hunk : Hunk) (p p' : Progress W)
      → apply_one host hunks replacements conflicts index hunk p ≡ some p'
      → Effect index hunk p.world p'.world
  unfolding apply_one
  apply_one-Effect index hunk p p' h = elim (Bool-cases (contains index conflicts)) [
    | inl clash ↦ untried (same_world _ p' (rw (apply_one, clash) at h))
    | inr free ↦ elim (Option-cases (lookup index replacements)) [
      | inr (add, pair) ↦
          replace_by-Effect index hunk p p' add (get_elem? hunks add) free pair refl
            (rw (apply_one, free, pair) at h)
      | inl single ↦ elim (Bool-cases (contains index (values replacements))) [
        | inl addition ↦ untried (same_world p p' (rw (apply_one, free, single, addition) at h))
        | inr ordinary ↦ rw (same_world _ p' (rw (apply_one, free, single, ordinary) at h)) (
            attempt-Effect index hunk p.world _ free ordinary
              (after_attempt-Again hunk p (host.apply_hunk hunk p.world)))
      ]
    ]
  ]

  apply_each-Effects :
      (index : ℕ) (more : List Hunk) (p p' : Progress W)
      → apply_each host hunks replacements conflicts index more p ≡ some p'
      → Effects index more p.world p'.world
  unfolding apply_each
  apply_each-Effects index [] p p' h = finished (same_world p p' h)
  apply_each-Effects index (hunk ∷ more) p p' h =
      elim (Option-cases (apply_one host hunks replacements conflicts index hunk p)) [
        | inl stop ↦ cc (rw (apply_each, stop) at h)
        | inr (q, one) ↦
            and_then (apply_one-Effect index hunk p q one)
              (apply_each-Effects (suc index) more q p' (rw (apply_each, one) at h))
      ]

-- Whatever the host answers, what a patch does to the disk is done in the order of its
-- operations, and each does only what it may: nothing while it is in conflict, or where its
-- deletion has done it; a replacement as a whole; one attempt; and a second attempt only when the
-- first failed to find its context and wrote nothing, with the chunks put in the file's order.
pub apply_hunks-Effects :
    {W Staged : Type 0} (host : Host W Staged) (paths : Paths W) (hunks : List Hunk) (w : W)
    (p : Progress W)
    → apply_hunks host paths hunks w ≡ some p
    → Effects host hunks
        (replacement_pairs hunks)
        (conflicting_hunks (λ path. paths.canonicalize path w) hunks (replacement_pairs hunks))
        0
        hunks
        w
        p.world
unfolding apply_hunks
apply_hunks-Effects host paths hunks w p run =
    apply_each-Effects host hunks (replacement_pairs hunks)
      (conflicting_hunks (λ path. paths.canonicalize path w) hunks (replacement_pairs hunks)) 0
      hunks _ p run

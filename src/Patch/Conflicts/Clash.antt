-- ===== src/Patch/Conflicts/Clash.antt =====
-- Which operations are in conflict: those of two operations that clash, and no others.
use zodex.Common.{
  Bool, false, not, ◌&&◌, ◌||◌, ◌==◌, ==_iff, none, some, eq_bytes_iff, ◌≢◌, ℕ, suc, ◌≡◌, refl, sym,
  ap, ◌∙◌, subst, ◌⊎◌, inl, inr, ◌↔◌, true, List, [], ◌∷◌, ◌++◌, Option, arith, append-nil,
  append_assoc, if◌then◌else◌,
}
use zodex.Common.Dict.{lookup}
use zodex.Patch.Paths.{
  Component, root_dir, cur_dir, parent_dir, normal, eq_component, starts_with, FilePath,
  physical_path_key,
}
use zodex.Patch.Conflicts.{
  is_pair, add_file, delete_file, update_file, Hunk, Owner, hunk_paths, contains, clashes,
  check_owners, claim_paths, claim_hunks, conflicting_hunks,
}

pub data Member {ℓ} {A : Type ℓ} (a : A) : List A → Type ℓ where
  first : (as_ : List A) → Member a (a ∷ as_)
  next : (b : A) (as_ : List A) → Member a as_ → Member a (b ∷ as_)

-- The paths that an operation names.
abbrev pub named : Hunk → List FilePath
named (add_file path contents) = path ∷ []
named (delete_file path) = path ∷ []
named (update_file path none chunks) = path ∷ []
named (update_file path (some move_path) chunks) = path ∷ move_path ∷ []

module _ (canonicalize : FilePath → Option FilePath) where
  -- These paths, resolved, under its index.
  abbrev pub owners_of : ℕ → List FilePath → List Owner
  owners_of index [] = []
  owners_of index (path ∷ paths) =
      (physical_path_key canonicalize path, index) ∷ owners_of index paths

  -- The paths of all operations, in the order of the patch.
  abbrev pub claims : ℕ → List Hunk → List Owner
  claims index [] = []
  claims index (hunk ∷ hunks) = owners_of index (named hunk) ++ claims (suc index) hunks

-- The components of the first begin the second.
abbrev pub Begins : FilePath → FilePath → Type 0
Begins base path = (rest : FilePath) × (path ≡ base ++ rest)

-- Of two operations, which are not the deletion and the addition of one replacement, and of two
-- paths of which one begins the other.
abbrev pub Clashing : List (ℕ × ℕ) → Owner → Owner → Type 0
Clashing replacements earlier later =
    (earlier.1 ≢ later.1)
    × (lookup earlier.1 replacements ≢ some later.1)
    × (Begins earlier.0 later.0 ⊎ Begins later.0 earlier.0)

-- Two claims, the first before the second, that clash; one of them is of the operation `index`.
pub record Clash (canonicalize : FilePath → Option FilePath) (replacements : List (ℕ × ℕ))
    (before after : List Owner) (index : ℕ) : Type 0 where
  pub earlier : Owner
  pub later : Owner
  pub prefix : List Owner
  pub suffix : List Owner
  pub places : after ≡ prefix ++ later ∷ suffix
  pub precedes : Member earlier (before ++ prefix)
  pub clash : Clashing replacements earlier later
  pub of_index : (index ≡ earlier.1) ⊎ (index ≡ later.1)

hunk_paths-named : (hunk : Hunk) → hunk_paths hunk ≡ named hunk
unfolding hunk_paths
hunk_paths-named (add_file path contents) = refl
hunk_paths-named (delete_file path) = refl
hunk_paths-named (update_file path none chunks) = refl
hunk_paths-named (update_file path (some move_path) chunks) = refl

eq_component_iff : (a b : Component) → (eq_component a b ≡ true) ↔ (a ≡ b)
eq_component_iff root_dir root_dir = (λ h. refl, λ h. refl)
eq_component_iff cur_dir cur_dir = (λ h. refl, λ h. refl)
eq_component_iff parent_dir parent_dir = (λ h. refl, λ h. refl)
eq_component_iff (normal a) (normal b) =
    (λ h. ap normal ((eq_bytes_iff a b).0 h), λ h. (eq_bytes_iff a b).1 (cc))
eq_component_iff _ _ = (λ h. cc, λ h. cc)

and_true : (a b : Bool) → (a && b) ≡ true → (a ≡ true) × (b ≡ true)
and_true true b h = (refl, h)
and_true false b h = cc

either_true : (a b : Bool) → (a ≡ true) ⊎ (b ≡ true) → (a || b) ≡ true
either_true a b h = ground arith

not_true : (a : Bool) → ¬ (a ≡ true) → a ≡ false
not_true true h = absurd (h refl)
not_true false h = refl

false≢true : ¬ (false ≡ true)
false≢true h = cc

clash_tests :
    (same pair a b : Bool)
    → (not same && not pair && (a || b)) ≡ true
    → (same ≡ false) × (pair ≡ false) × ((a ≡ true) ⊎ (b ≡ true))
clash_tests true pair a b h = cc
clash_tests false true a b h = cc
clash_tests false false true b h = (refl, refl, inl refl)
clash_tests false false false b h = (refl, refl, inr h)

is_pair_iff : (found : Option ℕ) (index : ℕ) → (is_pair found index ≡ true) ↔ (found ≡ some index)
is_pair_iff none index = (λ h. cc, λ h. cc)
is_pair_iff (some add) index =
    (λ h. ap some ((==_iff add index).0 h), λ h. (==_iff add index).1 (cc))

starts_with-Begins : (path base : FilePath) → (starts_with path base ≡ true) ↔ Begins base path
unfolding starts_with
starts_with-Begins path [] = (λ h. (path, refl), λ h. refl)
starts_with-Begins [] (c ∷ base) = (λ h. cc, λ h. cc)
starts_with-Begins (d ∷ path) (c ∷ base) =
    let ih = starts_with-Begins path base in
    (
      λ h.
          let both = and_true (eq_component d c) (starts_with path base) h in
          let (rest, e) = ih.0 both.1 in
          let same : d ≡ c = (eq_component_iff d c).0 both.0 in (rest, cc),
      λ k.
          let same : eq_component d c ≡ true = (eq_component_iff d c).1 (let e = k.1 in cc) in
          let later : starts_with path base ≡ true = ih.1 (k.0, (let e = k.1 in cc)) in
          rw same later,
    )

clashes-Clashing :
    (canonicalize : FilePath → Option FilePath) (replacements : List (ℕ × ℕ))
    (earlier later : Owner)
    → (clashes canonicalize replacements earlier later ≡ true) ↔ Clashing replacements earlier later
unfolding clashes
clashes-Clashing canonicalize replacements (existing, previous) (resolved, index) =
    let same = starts_with-Begins resolved existing in
    let back = starts_with-Begins existing resolved in
    let pair = is_pair_iff (lookup previous replacements) index in
    (
      λ h.
          let t =
            clash_tests (previous == index) (is_pair (lookup previous replacements) index)
              (starts_with resolved existing) (starts_with existing resolved) h in
          (
            λ e. false≢true (sym t.0 ∙ (==_iff previous index).1 e),
            λ e. false≢true (sym t.1 ∙ pair.1 e),
            elim t.2 [ inl a ↦ inl (same.0 a) | inr a ↦ inr (back.0 a) ],
          ),
      λ k.
          rw
            (
              clashes,
              not_true (previous == index) (λ e. k.0 ((==_iff previous index).0 e)),
              not_true (is_pair (lookup previous replacements) index) (λ e. k.1 (pair.0 e)),
            )
            (elim k.2 [
              | inl a ↦ either_true (starts_with resolved existing) _ (inl (same.1 a))
              | inr a ↦ either_true (starts_with resolved existing) _ (inr (back.1 a))
            ]),
    )

module _ (canonicalize : FilePath → Option FilePath) (replacements : List (ℕ × ℕ)) where
  -- The claims of a patch one by one.
  abbrev claim_all : List Owner → List Owner → List ℕ → List ℕ
  claim_all [] owners conflicts = conflicts
  claim_all (owner ∷ more) owners conflicts =
      claim_all more (owners ++ owner ∷ [])
        (check_owners canonicalize replacements owners owner conflicts)

  claim_all-append :
      (xs ys owners : List Owner) (conflicts : List ℕ)
      → claim_all (xs ++ ys) owners conflicts
        ≡ claim_all ys (owners ++ xs) (claim_all xs owners conflicts)
  claim_all-append [] ys owners conflicts = rw append-nil
  claim_all-append (x ∷ xs) ys owners conflicts =
      claim_all-append xs ys (owners ++ x ∷ []) _ ∙ rw (append_assoc owners (x ∷ []) xs)

  claim_paths_lem :
      (index : ℕ) (paths : List FilePath) (owners : List Owner) (conflicts : List ℕ)
      → claim_paths canonicalize replacements index paths (owners, conflicts) ≡ (
        owners ++ owners_of canonicalize index paths,
        claim_all (owners_of canonicalize index paths) owners conflicts,
      )
  unfolding claim_paths
  claim_paths_lem index [] owners conflicts = rw append-nil
  claim_paths_lem index (path ∷ paths) owners conflicts =
      claim_paths_lem index paths _ _
      ∙ rw (
          append_assoc owners ((physical_path_key canonicalize path, index) ∷ [])
            (owners_of canonicalize index paths))

  claim_hunks_lem :
      (index : ℕ) (hunks : List Hunk) (owners : List Owner) (conflicts : List ℕ)
      → (claim_hunks canonicalize replacements index hunks (owners, conflicts)).1
        ≡ claim_all (claims canonicalize index hunks) owners conflicts
  unfolding claim_hunks
  claim_hunks_lem index [] owners conflicts = refl
  claim_hunks_lem index (hunk ∷ hunks) owners conflicts =
      rw
        (
          claim_hunks,
          claim_paths_lem index (hunk_paths hunk) owners conflicts,
          hunk_paths-named hunk,
        )
        (claim_hunks_lem (suc index) hunks _ _
          ∙ sym (
              claim_all-append (owners_of canonicalize index (named hunk))
                (claims canonicalize (suc index) hunks) owners conflicts))

  -- The owners before a claim with which it clashes.
  abbrev Found : List Owner → Owner → ℕ → Type 0
  Found owners owner index =
      (earlier : Owner) × Member earlier owners
      × (clashes canonicalize replacements earlier owner ≡ true)
      × ((index ≡ earlier.1) ⊎ (index ≡ owner.1))

  contains_cons :
      (index a : ℕ) (set : List ℕ)
      → contains index (a ∷ set) ≡ true
      → (index ≡ a) ⊎ (contains index set ≡ true)
  unfolding contains
  contains_cons index a set h = ground arith

  added_cases :
      (index : ℕ) (earlier owner : Owner) (conflicts : List ℕ)
      → contains index (
          if clashes canonicalize replacements earlier owner
          then owner.1 ∷ earlier.1 ∷ conflicts
          else conflicts)
        ≡ true
      → (contains index conflicts ≡ true)
        ⊎ ((clashes canonicalize replacements earlier owner ≡ true)
            × ((index ≡ earlier.1) ⊎ (index ≡ owner.1)))
  unfolding contains
  added_cases index earlier owner conflicts h = ground arith

  check_owners-Found :
      (index : ℕ) (owners : List Owner) (owner : Owner) (conflicts : List ℕ)
      → contains index (check_owners canonicalize replacements owners owner conflicts) ≡ true
      → (contains index conflicts ≡ true) ⊎ Found owners owner index
  unfolding check_owners
  check_owners-Found index [] owner conflicts h = inl h
  check_owners-Found index (a ∷ owners) owner conflicts h =
      elim (check_owners-Found index owners owner _ h) [
        | inr (b, m, c, i) ↦ inr (b, next a owners m, c, i)
        | inl old ↦ elim (added_cases index a owner conflicts old) [
          | inl older ↦ inl older
          | inr (c, i) ↦ inr (a, first owners, c, i)
        ]
      ]

  added-contains :
      (index : ℕ) (earlier owner : Owner) (conflicts : List ℕ)
      → (contains index conflicts ≡ true)
        ⊎ ((clashes canonicalize replacements earlier owner ≡ true)
            × ((index ≡ earlier.1) ⊎ (index ≡ owner.1)))
      → contains index (
          if clashes canonicalize replacements earlier owner
          then owner.1 ∷ earlier.1 ∷ conflicts
          else conflicts)
        ≡ true
  unfolding contains
  added-contains index earlier owner conflicts h = ground arith

  check_owners-contains :
      (index : ℕ) (owners : List Owner) (owner : Owner) (conflicts : List ℕ)
      → (contains index conflicts ≡ true) ⊎ Found owners owner index
      → contains index (check_owners canonicalize replacements owners owner conflicts) ≡ true
  unfolding check_owners
  check_owners-contains index [] owner conflicts (inl h) = h
  check_owners-contains index [] owner conflicts (inr (a, m, c, i)) = elim m [ ]
  check_owners-contains index (b ∷ owners) owner conflicts (inl h) =
      check_owners-contains index owners owner _
        (inl (added-contains index b owner conflicts (inl h)))
  check_owners-contains index (b ∷ owners) owner conflicts (inr (a, first _, c, i)) =
      check_owners-contains index owners owner _
        (inl (added-contains index b owner conflicts (inr (c, i))))
  check_owners-contains index (b ∷ owners) owner conflicts (inr (a, next _ _ m, c, i)) =
      check_owners-contains index owners owner _ (inr (a, m, c, i))

  claim_all-Clash :
      (index : ℕ) (more owners : List Owner) (conflicts : List ℕ)
      → contains index (claim_all more owners conflicts) ≡ true
      → (contains index conflicts ≡ true) ⊎ Clash canonicalize replacements owners more index
  claim_all-Clash index [] owners conflicts h = inl h
  claim_all-Clash index (b ∷ more) owners conflicts h = elim (claim_all-Clash index more _ _ h) [
    | inr k ↦ inr (record {
      earlier = k.earlier;
      later = k.later;
      prefix = b ∷ k.prefix;
      suffix = k.suffix;
      places = ap (◌∷◌ b) k.places;
      precedes = rw (← append_assoc owners (b ∷ []) k.prefix) k.precedes;
      clash = k.clash;
      of_index = k.of_index;
    })
    | inl old ↦ elim (check_owners-Found index owners b conflicts old) [
      | inl older ↦ inl older
      | inr (a, m, c, i) ↦ inr (record {
        earlier = a;
        later = b;
        prefix = [];
        suffix = more;
        places = refl;
        precedes = rw append-nil m;
        clash = (clashes-Clashing canonicalize replacements a b).0 c;
        of_index = i;
      })
    ]
  ]

  claim_all-keeps :
      (index : ℕ) (more owners : List Owner) (conflicts : List ℕ)
      → contains index conflicts ≡ true
      → contains index (claim_all more owners conflicts) ≡ true
  claim_all-keeps index [] owners conflicts h = h
  claim_all-keeps index (b ∷ more) owners conflicts h =
      claim_all-keeps index more (owners ++ b ∷ []) _
        (check_owners-contains index owners b conflicts (inl h))

  Clash-claim_all :
      (index : ℕ) (prefix suffix owners : List Owner) (conflicts : List ℕ) (b : Owner)
      → Found (owners ++ prefix) b index
      → contains index (claim_all (prefix ++ b ∷ suffix) owners conflicts) ≡ true
  Clash-claim_all index [] suffix owners conflicts b f =
      claim_all-keeps index suffix (owners ++ b ∷ []) _ (
        check_owners-contains index owners b conflicts
          (inr (subst (λ o. Found o b index) (append-nil owners) f)))
  Clash-claim_all index (p ∷ prefix) suffix owners conflicts b f =
      Clash-claim_all index prefix suffix (owners ++ p ∷ []) _ b
        (subst (λ o. Found o b index) (sym (append_assoc owners (p ∷ []) prefix)) f)

contains_nil : (index : ℕ) → ¬ (contains index [] ≡ true)
unfolding contains
contains_nil index h = cc

-- An operation is in conflict exactly when one of its paths and a path that another operation names,
-- both resolved to their keys, are such that the components of one begin the other, and the two
-- operations are not, the earlier first, a pair of the replacements given.
pub conflicting_hunks-Clash :
    (canonicalize : FilePath → Option FilePath) (hunks : List Hunk) (replacements : List (ℕ × ℕ))
    (index : ℕ)
    → (contains index (conflicting_hunks canonicalize hunks replacements) ≡ true)
      ↔ Clash canonicalize replacements [] (claims canonicalize 0 hunks) index
unfolding conflicting_hunks
conflicting_hunks-Clash canonicalize hunks replacements index =
    rw (claim_hunks_lem canonicalize replacements 0 hunks [] []) (
      λ h. elim (claim_all-Clash canonicalize replacements index _ [] [] h) [
        | inl none_yet ↦ absurd (contains_nil index none_yet)
        | inr k ↦ k
      ],
      λ k. rw k.places (
          Clash-claim_all canonicalize replacements index k.prefix k.suffix [] [] k.later (
            k.earlier,
            k.precedes,
            (clashes-Clashing canonicalize replacements k.earlier k.later).1 k.clash,
            k.of_index,
          )),
    )

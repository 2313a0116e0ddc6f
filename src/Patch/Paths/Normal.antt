-- ===== src/Patch/Paths/Normal.antt =====
-- What a normalised path looks like.
use zodex.Common.{
  ◌≡◌, refl, ◌∙◌, Bytes, sym, append-nil, [], ◌∷◌, ◌++◌, Option, none, some, append_assoc,
}
use zodex.Patch.Paths.{
  Component, root_dir, cur_dir, parent_dir, normal, FilePath, pop, normalize_step, normalize_onto,
  lexical_normalize, nearest_ancestor, resolved_or, physical_path_key, in_order, reversed_onto,
}

-- Names alone.
abbrev pub Names : FilePath → Type 0
Names [] = Unit
Names (normal _ ∷ path) = Names path
Names (_ ∷ path) = ⊥

-- Names, behind a root or behind nothing.
abbrev pub IsNormal : FilePath → Type 0
IsNormal (root_dir ∷ path) = Names path
IsNormal path = Names path

Names-push : (path : FilePath) (name : Bytes) → Names path → Names (path ++ normal name ∷ [])
Names-push [] name h = tt
Names-push (normal _ ∷ path) name h = Names-push path name h
Names-push (root_dir ∷ path) name h = absurd h
Names-push (cur_dir ∷ path) name h = absurd h
Names-push (parent_dir ∷ path) name h = absurd h

Names-pop : (path : FilePath) → Names path → Names (pop path)
Names-pop [] h = tt
Names-pop (normal _ ∷ []) h = tt
Names-pop (normal _ ∷ d ∷ path) h = Names-pop (d ∷ path) h
Names-pop (root_dir ∷ path) h = absurd h
Names-pop (cur_dir ∷ path) h = absurd h
Names-pop (parent_dir ∷ path) h = absurd h

IsNormal-pop : (path : FilePath) → IsNormal path → IsNormal (pop path)
IsNormal-pop [] h = tt
IsNormal-pop (root_dir ∷ []) h = tt
IsNormal-pop (root_dir ∷ d ∷ path) h = Names-pop (d ∷ path) h
IsNormal-pop (normal n ∷ []) h = tt
IsNormal-pop (normal n ∷ normal d ∷ path) h = Names-pop (normal d ∷ path) h
IsNormal-pop (normal n ∷ root_dir ∷ path) h = absurd h
IsNormal-pop (normal n ∷ cur_dir ∷ path) h = absurd h
IsNormal-pop (normal n ∷ parent_dir ∷ path) h = absurd h
IsNormal-pop (cur_dir ∷ path) h = absurd h
IsNormal-pop (parent_dir ∷ path) h = absurd h

IsNormal-push :
    (path : FilePath) (name : Bytes) → IsNormal path → IsNormal (path ++ normal name ∷ [])
IsNormal-push [] name h = tt
IsNormal-push (root_dir ∷ path) name h = Names-push path name h
IsNormal-push (normal n ∷ path) name h = Names-push path name h
IsNormal-push (cur_dir ∷ path) name h = absurd h
IsNormal-push (parent_dir ∷ path) name h = absurd h

normalize_step-IsNormal :
    (result : FilePath) (c : Component) → IsNormal result → IsNormal (normalize_step result c)
normalize_step-IsNormal result root_dir h = tt
normalize_step-IsNormal result cur_dir h = h
normalize_step-IsNormal result parent_dir h = IsNormal-pop result h
normalize_step-IsNormal result (normal name) h = IsNormal-push result name h

normalize_onto-IsNormal :
    (result path : FilePath) → IsNormal result → IsNormal (normalize_onto result path)
normalize_onto-IsNormal result [] h = h
normalize_onto-IsNormal result (c ∷ path) h =
    normalize_onto-IsNormal (normalize_step result c) path (normalize_step-IsNormal result c h)

-- Names are pushed one after the other.
normalize_onto-Names :
    (result path : FilePath) → Names path → normalize_onto result path ≡ result ++ path
normalize_onto-Names result [] h = sym (append-nil result)
normalize_onto-Names result (normal n ∷ path) h =
    normalize_onto-Names (result ++ normal n ∷ []) path h ∙ append_assoc result (normal n ∷ []) path
normalize_onto-Names result (root_dir ∷ path) h = absurd h
normalize_onto-Names result (cur_dir ∷ path) h = absurd h
normalize_onto-Names result (parent_dir ∷ path) h = absurd h

lexical_normalize-IsNormal : (path : FilePath) → IsNormal (lexical_normalize path)
unfolding lexical_normalize
lexical_normalize-IsNormal path = normalize_onto-IsNormal [] path tt

pub lexical_normalize_normal : (path : FilePath) → IsNormal path → lexical_normalize path ≡ path
unfolding lexical_normalize
lexical_normalize_normal [] h = refl
lexical_normalize_normal (root_dir ∷ path) h = normalize_onto-Names (root_dir ∷ []) path h
lexical_normalize_normal (normal n ∷ path) h = normalize_onto-Names (normal n ∷ []) path h
lexical_normalize_normal (cur_dir ∷ path) h = absurd h
lexical_normalize_normal (parent_dir ∷ path) h = absurd h

resolved_or-IsNormal :
    (missing : FilePath) (found : Option FilePath) (other : FilePath)
    → IsNormal other
    → IsNormal (resolved_or missing found other)
unfolding resolved_or
resolved_or-IsNormal missing none other h = h
resolved_or-IsNormal missing (some resolved) other h =
    lexical_normalize-IsNormal (resolved ++ missing)

module _ (canonicalize : FilePath → Option FilePath) where
  nearest_ancestor-IsNormal :
      (path ancestor missing : FilePath)
      → IsNormal (nearest_ancestor canonicalize path ancestor missing)
  unfolding nearest_ancestor
  nearest_ancestor-IsNormal path [] missing =
      resolved_or-IsNormal missing (canonicalize []) (lexical_normalize path)
        (lexical_normalize-IsNormal path)
  nearest_ancestor-IsNormal path (normal n ∷ ancestor) missing =
      resolved_or-IsNormal missing (canonicalize (in_order (normal n ∷ ancestor) [])) _
        (nearest_ancestor-IsNormal path ancestor (normal n ∷ missing))
  nearest_ancestor-IsNormal path (root_dir ∷ ancestor) missing =
      resolved_or-IsNormal missing (canonicalize (in_order (root_dir ∷ ancestor) [])) _
        (lexical_normalize-IsNormal path)
  nearest_ancestor-IsNormal path (cur_dir ∷ ancestor) missing =
      resolved_or-IsNormal missing (canonicalize (in_order (cur_dir ∷ ancestor) [])) _
        (lexical_normalize-IsNormal path)
  nearest_ancestor-IsNormal path (parent_dir ∷ ancestor) missing =
      resolved_or-IsNormal missing (canonicalize (in_order (parent_dir ∷ ancestor) [])) _
        (lexical_normalize-IsNormal path)

  -- The key under which a path is compared has no `.` and no `..` left, whatever the file system
  -- answers, and normalising it again leaves it as it is.
  pub physical_path_key-IsNormal :
      (path : FilePath)
      → IsNormal (physical_path_key canonicalize path)
        × (lexical_normalize (physical_path_key canonicalize path)
            ≡ physical_path_key canonicalize path)
  unfolding physical_path_key
  physical_path_key-IsNormal path =
      let key = nearest_ancestor-IsNormal path (reversed_onto [] path) [] in
      (key, lexical_normalize_normal _ key)

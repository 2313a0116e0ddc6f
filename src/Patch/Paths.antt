-- ===== src/Patch/Paths.antt =====
-- src/apply_patch.rs: the paths of a patch, in the form in which two operations are compared.
-- A path is the list of its components, as `Path::components` gives them on a Unix host.
pub mod Normal
use zodex.Common.{Bool, true, false, ◌&&◌, List, [], ◌∷◌, ◌++◌, Option, none, some, Bytes, eq_bytes}

pub data Component : Type 0 where
  root_dir cur_dir parent_dir : Component
  normal : Bytes → Component

abbrev pub FilePath : Type 0
FilePath = List Component

abbrev pub eq_component : Component → Component → Bool
eq_component root_dir root_dir = true
eq_component cur_dir cur_dir = true
eq_component parent_dir parent_dir = true
eq_component (normal a) (normal b) = eq_bytes a b
eq_component _ _ = false

-- `starts_with`: the components of the second path begin the first.
unfoldable pub starts_with : FilePath → FilePath → Bool
starts_with path [] = true
starts_with [] (c ∷ base) = false
starts_with (d ∷ path) (c ∷ base) = eq_component d c && starts_with path base

abbrev pub same_path : FilePath → FilePath → Bool
same_path a b = starts_with a b && starts_with b a

-- `PathBuf::push` of one component: a root replaces the path.
abbrev pub push : FilePath → Component → FilePath
push path root_dir = root_dir ∷ []
push path c = path ++ c ∷ []

-- `PathBuf::pop`: a path that is a root, or is empty, has no parent.
abbrev pub pop : FilePath → FilePath
pop [] = []
pop (root_dir ∷ []) = root_dir ∷ []
pop (c ∷ []) = []
pop (c ∷ d ∷ path) = c ∷ pop (d ∷ path)

abbrev pub normalize_step : FilePath → Component → FilePath
normalize_step result cur_dir = result
normalize_step result parent_dir = pop result
normalize_step result other = push result other

abbrev pub normalize_onto : FilePath → FilePath → FilePath
normalize_onto result [] = result
normalize_onto result (c ∷ path) = normalize_onto (normalize_step result c) path

unfoldable pub lexical_normalize : FilePath → FilePath
lexical_normalize path = normalize_onto [] path

-- The components of an ancestor stand in reverse, the last first.
abbrev pub in_order : FilePath → FilePath → FilePath
in_order [] path = path
in_order (c ∷ reversed) path = in_order reversed (c ∷ path)

abbrev pub reversed_onto : FilePath → FilePath → FilePath
reversed_onto done [] = done
reversed_onto done (c ∷ path) = reversed_onto (c ∷ done) path

-- What the loop over the ancestors returns where one is found.
unfoldable pub resolved_or : FilePath → Option FilePath → FilePath → FilePath
resolved_or missing (some resolved) other = lexical_normalize (resolved ++ missing)
resolved_or missing none other = other

-- `std::fs::canonicalize`
module _ (canonicalize : FilePath → Option FilePath) where
  -- The loop over the ancestors; what is missing behind them is in the order of the path.
  unfoldable pub nearest_ancestor : FilePath → FilePath → FilePath → FilePath
  nearest_ancestor path [] missing = resolved_or missing (canonicalize []) (lexical_normalize path)
  nearest_ancestor path (normal name ∷ ancestor) missing =
      resolved_or missing (canonicalize (in_order (normal name ∷ ancestor) []))
        (nearest_ancestor path ancestor (normal name ∷ missing))
  nearest_ancestor path (c ∷ ancestor) missing =
      resolved_or missing (canonicalize (in_order (c ∷ ancestor) [])) (lexical_normalize path)

  unfoldable pub physical_path_key : FilePath → FilePath
  physical_path_key path = nearest_ancestor path (reversed_onto [] path) []

-- ===== src/Patch/Rewrite/Headers.antt =====
-- What the rewriting does to each line.
use zodex.Common.{
  Bool, false, bytes, Option-cases, Bool-cases, ◌==◌, ==_iff, ◌↔◌, ◌≡◌, refl, ap, ◌∙◌, ◌⊎◌, inl,
  inr, true, List, [], ◌∷◌, ◌++◌, Option, none, some, arith, Bytes,
}
use zodex.Patch.Rewrite.{
  ends_with_slash, strip_prefix, is_absolute, resolve_patch_path, header_or, header, headers,
  rewrite_found, rewrite_line,
}

strip_prefix-append : (prefix path : Bytes) → strip_prefix (prefix ++ path) prefix ≡ some path
strip_prefix-append [] path = refl
strip_prefix-append (c ∷ prefix) path = ground (arith, strip_prefix-append prefix path)

strip_prefix-begins :
    (line prefix path : Bytes) → strip_prefix line prefix ≡ some path → line ≡ prefix ++ path
strip_prefix-begins line [] path h = cc
strip_prefix-begins [] (c ∷ prefix) path h = cc
strip_prefix-begins (d ∷ line) (c ∷ prefix) path h = elim (Bool-cases (d == c)) [
  | inl same ↦
      let e : d ≡ c = (==_iff d c).0 same in
      let ih = strip_prefix-begins line prefix path (rw same at h) in cc
  | inr other ↦ absurd (let n = rw other at h in cc)
]

is_absolute-resolve :
    (path workdir : Bytes)
    → is_absolute workdir ≡ true
    → is_absolute (resolve_patch_path path workdir) ≡ true
unfolding resolve_patch_path
is_absolute-resolve path [] h = cc
is_absolute-resolve path (c ∷ workdir) h = ground arith

resolve_absolute :
    (path workdir : Bytes) → is_absolute path ≡ true → resolve_patch_path path workdir ≡ path
unfolding resolve_patch_path
resolve_absolute path workdir h = rw h

abbrev AnyOf : Bytes → List Bytes → Type 0
AnyOf prefix [] = ⊥
AnyOf prefix (q ∷ prefixes) = (prefix ≡ q) ⊎ AnyOf prefix prefixes

header-AnyOf :
    (prefixes : List Bytes) (line path prefix : Bytes)
    → header prefixes line ≡ some (prefix, path)
    → AnyOf prefix prefixes
unfolding header
header-AnyOf [] line path prefix h = cc
header-AnyOf (q ∷ prefixes) line path prefix h =
    header_or-AnyOf q prefixes path prefix (strip_prefix line q) (header prefixes line) h
      (header-AnyOf prefixes line path prefix)
  where
    header_or-AnyOf :
        (q : Bytes) (prefixes : List Bytes) (path prefix : Bytes) (found : Option Bytes)
        (other : Option (Bytes × Bytes))
        → header_or q found other ≡ some (prefix, path)
        → (other ≡ some (prefix, path) → AnyOf prefix prefixes)
        → (prefix ≡ q) ⊎ AnyOf prefix prefixes
    header_or-AnyOf q prefixes path prefix (some rest) other h ih = inl (cc)
    header_or-AnyOf q prefixes path prefix none other h ih = inr (ih h)

-- Under any of the prefixes the path behind it is found.
header-append :
    (prefix path : Bytes)
    → AnyOf prefix headers
    → header headers (prefix ++ path) ≡ some (prefix, path)
unfolding header
header-append prefix path (inl e) = rw e refl
header-append prefix path (inr (inl e)) = rw e refl
header-append prefix path (inr (inr (inl e))) = rw e refl
header-append prefix path (inr (inr (inr (inl e)))) = rw e refl
header-append prefix path (inr (inr (inr (inr e)))) = absurd e

header-begins :
    (prefixes : List Bytes) (line path prefix : Bytes)
    → header prefixes line ≡ some (prefix, path)
    → line ≡ prefix ++ path
unfolding header
header-begins [] line path prefix h = cc
header-begins (q ∷ prefixes) line path prefix h =
    found (strip_prefix line q) refl h (header-begins prefixes line path prefix)
  where
    found :
        (o : Option Bytes)
        → strip_prefix line q ≡ o
        → header_or q o (header prefixes line) ≡ some (prefix, path)
        → (header prefixes line ≡ some (prefix, path) → line ≡ prefix ++ path)
        → line ≡ prefix ++ path
    found (some rest) e h ih = strip_prefix-begins line q rest e ∙ (cc)
    found none e h ih = ih h

-- One of the four headers.
abbrev pub IsHeader : Bytes → Type 0
IsHeader prefix =
    (prefix ≡ bytes "*** Add File: ")
    ⊎ ((prefix ≡ bytes "*** Update File: ")
        ⊎ ((prefix ≡ bytes "*** Delete File: ") ⊎ (prefix ≡ bytes "*** Move to: ")))

IsHeader-AnyOf : (prefix : Bytes) → IsHeader prefix → AnyOf prefix headers
IsHeader-AnyOf prefix (inl e) = inl e
IsHeader-AnyOf prefix (inr (inl e)) = inr (inl e)
IsHeader-AnyOf prefix (inr (inr (inl e))) = inr (inr (inl e))
IsHeader-AnyOf prefix (inr (inr (inr e))) = inr (inr (inr (inl e)))

AnyOf-IsHeader : (prefix : Bytes) → AnyOf prefix headers → IsHeader prefix
AnyOf-IsHeader prefix (inl e) = inl e
AnyOf-IsHeader prefix (inr (inl e)) = inr (inl e)
AnyOf-IsHeader prefix (inr (inr (inl e))) = inr (inr (inl e))
AnyOf-IsHeader prefix (inr (inr (inr (inl e)))) = inr (inr (inr e))
AnyOf-IsHeader prefix (inr (inr (inr (inr e)))) = absurd e

-- A path that begins, or a directory that ends, with a slash.
abbrev pub Rooted : Bytes → Type 0
Rooted path = (rest : Bytes) × (path ≡ b'/' ∷ rest)

abbrev pub Slashed : Bytes → Type 0
Slashed workdir = (base : Bytes) × (workdir ≡ base ++ b'/' ∷ [])

-- A path seen from the directory: itself if it is absolute, or else what is left of a slash, one
-- only, and the path.
abbrev pub IsJoined : Bytes → Bytes → Bytes → Type 0
IsJoined workdir path joined =
    (Rooted path × (joined ≡ path))
    ⊎ ((¬ Rooted path)
        × ((Slashed workdir × (joined ≡ workdir ++ path))
            ⊎ ((¬ Slashed workdir) × (joined ≡ workdir ++ b'/' ∷ path))))

ends_with_slash-Slashed : (workdir : Bytes) → (ends_with_slash workdir ≡ true) ↔ Slashed workdir
ends_with_slash-Slashed [] = (λ h. cc, λ k. empty_base k.0 k.1)
  where
    empty_base : (base : Bytes) → [] ≡ base ++ b'/' ∷ [] → ends_with_slash [] ≡ true
    empty_base [] e = cc
    empty_base (b ∷ base) e = cc
ends_with_slash-Slashed (c ∷ []) = (
  λ h. ([], (let e : c ≡ b'/' = (==_iff c b'/').0 h in rw e refl)),
  λ k. (==_iff c b'/').1 (single k.0 k.1),
)
  where
    single : (base : Bytes) → c ∷ [] ≡ base ++ b'/' ∷ [] → c ≡ b'/'
    single [] e = cc
    single (b ∷ []) e = cc
    single (b ∷ d ∷ base) e = cc
ends_with_slash-Slashed (c ∷ d ∷ path) =
    let ih = ends_with_slash-Slashed (d ∷ path) in
    (λ h. let (base, e) = ih.0 h in (c ∷ base, ap (◌∷◌ c) e), λ k. ih.1 (behind k.0 k.1))
  where
    behind : (base : Bytes) → c ∷ d ∷ path ≡ base ++ b'/' ∷ [] → Slashed (d ∷ path)
    behind [] e = cc
    behind (b ∷ base) e = (base, cc)

is_absolute-Rooted : (path : Bytes) → (is_absolute path ≡ true) ↔ Rooted path
is_absolute-Rooted [] = (λ h. cc, λ k. (let e = k.1 in cc))
is_absolute-Rooted (c ∷ path) = (
  λ h. (path, (let e : c ≡ b'/' = (==_iff c b'/').0 h in rw e refl)),
  λ k. (==_iff c b'/').1 (let e = k.1 in cc),
)

not_so : {b : Bool} {A : Type 0} → b ≡ false → (b ≡ true) ↔ A → ¬ A
not_so h iff a = let t = iff.1 a in cc

resolve-IsJoined :
    (workdir path : Bytes)
    → is_absolute workdir ≡ true
    → IsJoined workdir path (resolve_patch_path path workdir)
unfolding resolve_patch_path
resolve-IsJoined [] path w = cc
resolve-IsJoined (c ∷ workdir) path w = elim (Bool-cases (is_absolute path)) [
  | inl rooted ↦ inl ((is_absolute-Rooted path).0 rooted, rw rooted refl)
  | inr relative ↦ inr (
    not_so relative (is_absolute-Rooted path),
    elim (Bool-cases (ends_with_slash (c ∷ workdir))) [
      | inl slash ↦ inl ((ends_with_slash-Slashed (c ∷ workdir)).0 slash, rw (relative, slash) refl)
      | inr bare ↦
          inr (not_so bare (ends_with_slash-Slashed (c ∷ workdir)), rw (relative, bare) refl)
    ],
  )
]

rewrite_line-rewrite_found :
    (workdir workdir' line : Bytes) (found : Option (Bytes × Bytes))
    → is_absolute workdir ≡ true
    → header headers line ≡ found
    → rewrite_line workdir' (rewrite_found workdir line found) ≡ rewrite_found workdir line found
unfolding rewrite_line
rewrite_line-rewrite_found workdir workdir' line none w e = ap (rewrite_found workdir' line) e
rewrite_line-rewrite_found workdir workdir' line (some (prefix, path)) w e =
    ap (rewrite_found workdir' (prefix ++ resolve_patch_path path workdir))
      (header-append prefix _ (header-AnyOf headers line path prefix e))
    ∙ ap (λ (t : Bytes). prefix ++ t)
        (resolve_absolute _ workdir' (is_absolute-resolve path workdir w))

-- What a line becomes: under one of the four headers the path is joined to the directory, and a
-- line that begins with none of them stays.
pub record Rewritten (workdir line result : Bytes) : Type 0 where
  pub joined :
      (prefix path : Bytes)
      → IsHeader prefix
      → line ≡ prefix ++ path
      → (absolute : Bytes) × (result ≡ prefix ++ absolute)
        × IsJoined workdir path absolute
        × Rooted absolute
  pub kept : ((prefix path : Bytes) → IsHeader prefix → ¬ (line ≡ prefix ++ path)) → result ≡ line

-- With an absolute working directory, a line that begins with one of the four headers keeps the
-- header, and the path behind it becomes absolute: it stays if it begins with a slash, and else it
-- is put behind the directory and one slash. Any other line stays as it is. Rewriting the result
-- again, in any directory, changes nothing.
pub rewrite_line-Rewritten :
    (workdir workdir' line : Bytes)
    → is_absolute workdir ≡ true
    → Rewritten workdir line (rewrite_line workdir line)
      × (rewrite_line workdir' (rewrite_line workdir line) ≡ rewrite_line workdir line)
unfolding rewrite_line
rewrite_line-Rewritten workdir workdir' line w = (
  record {
    joined = λ prefix path h e. (
      resolve_patch_path path workdir,
      ap (rewrite_found workdir line)
          (ap (header headers) e ∙ header-append prefix path (IsHeader-AnyOf prefix h)),
      resolve-IsJoined workdir path w,
      (is_absolute-Rooted _).0 (is_absolute-resolve path workdir w),
    );
    kept = λ other. elim (Option-cases (header headers line)) [
      | inl e ↦ ap (rewrite_found workdir line) e
      | inr ((prefix, path), e) ↦ absurd (
          other prefix path (AnyOf-IsHeader prefix (header-AnyOf headers line path prefix e))
            (header-begins headers line path prefix e))
    ];
  },
  rewrite_line-rewrite_found workdir workdir' line (header headers line) w refl,
)

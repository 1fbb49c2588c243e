-- ===== src/Core/Paths.antt =====
-- packages/runner-core/src/primitives/paths.ts: normalization of paths, and the prefix test on
-- normalized paths.
pub mod Segments
use secure_home_agent_platfo.Prelude.{
  ℕ, Bool, true, false, ◌&&◌, ◌||◌, List, [], ◌∷◌, ◌++◌, ◌==◌, leb, ite, if◌then◌else◌, Str,
  Str-discrete, text, any,
}

pub data NormalizedPath : Type 0 where
  normalized : Str → NormalizedPath
  undecided : Str → NormalizedPath

-- The code unit of the separator.
abbrev pub slash : ℕ
slash = 47

includes : ℕ → Str → Bool
includes c s = any (λ d. d == c) s

unfoldable pub starts_with : Str → Str → Bool
starts_with [] s = true
starts_with (c ∷ p) [] = false
starts_with (c ∷ p) (d ∷ s) = let rest = starts_with p s in (d == c) && rest

abbrev is_letter : ℕ → Bool
is_letter c = (leb 65 c && leb c 90) || (leb 97 c && leb c 122)

-- `[A-Za-z0-9+.-]`
abbrev is_scheme_char : ℕ → Bool
is_scheme_char c =
    is_letter c || ((leb 48 c && leb c 57) || ((c == 43) || ((c == 46) || (c == 45))))

-- `[A-Za-z0-9+.-]*:` at the front; no colon is in the class, so the longest run decides.
scheme_rest : Str → Bool
scheme_rest [] = false
scheme_rest (c ∷ s) = let rest = scheme_rest s in (c == 58) || (is_scheme_char c && rest)

is_scheme_qualified : Str → Bool
unfolding scheme_rest
is_scheme_qualified [] = false
is_scheme_qualified (c ∷ s) = is_letter c && scheme_rest s

abbrev cons_first : ℕ → List Str → List Str
cons_first c [] = (c ∷ []) ∷ []
cons_first c (s ∷ ss) = (c ∷ s) ∷ ss

-- `raw.split('/')`: the separators cut, and a string without one is a single segment.
unfoldable pub split : Str → List Str
split [] = [] ∷ []
split (c ∷ s) = let rest = split s in if c == slash then [] ∷ rest else cons_first c rest

unfoldable pub join : List Str → Str
join [] = []
join (s ∷ []) = s
join (s ∷ t ∷ ts) = s ++ slash ∷ join (t ∷ ts)

-- The segments that `filter` keeps: neither empty nor a single dot.
unfoldable pub kept : List Str → List Str
kept [] = []
kept (s ∷ ss) =
    let rest = kept ss in
    ite (Str-discrete s []) rest (ite (Str-discrete s (46 ∷ [])) rest (s ∷ rest))

unfoldable pub includes_traversal : List Str → Bool
includes_traversal [] = false
includes_traversal (s ∷ ss) = ite (Str-discrete s (46 ∷ 46 ∷ [])) true (includes_traversal ss)

abbrev pub of_segments : List Str → NormalizedPath
of_segments [] = undecided (text "no path components")
of_segments (s ∷ ss) =
    if includes_traversal (s ∷ ss)
    then undecided (text "traversal segment")
    else normalized (join (s ∷ ss))

unfoldable pub normalize_path : Str → NormalizedPath
unfolding includes starts_with is_scheme_qualified split kept includes_traversal join
normalize_path [] = undecided (text "empty path")
normalize_path (c ∷ s) =
    if includes 92 (c ∷ s)
    then undecided (text "backslash separator")
    else if starts_with (slash ∷ []) (c ∷ s)
    then undecided (text "absolute path")
    else if is_scheme_qualified (c ∷ s)
    then undecided (text "scheme-qualified path")
    else if includes 0 (c ∷ s)
    then undecided (text "NUL byte")
    else of_segments (kept (split (c ∷ s)))

unfoldable pub is_path_prefix : Str → Str → Bool
unfolding starts_with
is_path_prefix prefix path =
    ite (Str-discrete path prefix) true (starts_with (prefix ++ slash ∷ []) path)

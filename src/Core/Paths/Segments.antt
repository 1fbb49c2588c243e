-- ===== src/Core/Paths/Segments.antt =====
-- packages/runner-core/src/primitives/paths.ts: paths and the prefix test, read as lists of segments.
use secure_home_agent_platfo.Prelude.{
  ℕ, ◌≡◌, refl, sym, ap, ◌∙◌, ◌≢◌, inl, inr, Bool, true, false, List, [], ◌∷◌, ◌++◌, ◌==◌, ite,
  ite-cases, if_pos, if_neg, if◌then◌else◌, Str, Str-discrete, All, arith, Bool-cases,
}
use secure_home_agent_platfo.Core.Paths.{
  normalized, slash, starts_with, cons_first, split, join, kept, includes_traversal, of_segments,
  normalize_path, is_path_prefix,
}

-- No separator stands in the segment.
abbrev pub Whole : Str → Type 0
Whole s = All (λ c. c ≢ slash) s

-- A segment that normalization keeps.
pub record IsClean (s : Str) : Type 0 where
  pub whole : Whole s
  pub nonempty : s ≢ []
  pub no_dot : s ≢ 46 ∷ []
  pub no_traversal : s ≢ 46 ∷ 46 ∷ []

-- The segments of a normalized path.
abbrev pub AreSegments : List Str → Type 0
AreSegments [] = ⊥
AreSegments (s ∷ ss) = All IsClean (s ∷ ss)

-- A cut has a first segment.
split_shape : (s : Str) → (first : Str) × ((rest : List Str) × (split s ≡ first ∷ rest))
unfolding split
split_shape [] = ([], ([], refl))
split_shape (c ∷ s) = elim (Bool-cases (c == slash)) [
  | inl e ↦ ([], (split s, rw e refl))
  | inr e ↦
      let (first, (rest, q)) = split_shape s in (c ∷ first, (rest, rw e (ap (cons_first c) q)))
]

cons_first-Whole : (c : ℕ) (ss : List Str) → c ≢ slash → All Whole ss → All Whole (cons_first c ss)
cons_first-Whole c [] h k = ((h, tt), tt)
cons_first-Whole c (s ∷ ss) h k = ((h, k.0), k.1)

split-Whole : (s : Str) → All Whole (split s)
unfolding split
split-Whole [] = (tt, tt)
split-Whole (c ∷ s) = elim (Bool-cases (c == slash)) [
  | inl e ↦ rw e (tt, split-Whole s)
  | inr e ↦ rw e (cons_first-Whole c (split s) (λ h. ground arith) (split-Whole s))
]

kept-IsClean :
    (ss : List Str) → All Whole ss → includes_traversal (kept ss) ≡ false → All IsClean (kept ss)
unfolding kept includes_traversal
kept-IsClean [] w h = tt
kept-IsClean (s ∷ ss) w h =
    let rest = ite (Str-discrete s (46 ∷ [])) (kept ss) (s ∷ kept ss) in
    elim (Str-discrete s []) [
      | yes e ↦
          rw (if_pos (Str-discrete s []) e (kept ss) rest) (kept-IsClean ss w.1 (ground arith))
      | no n ↦ rw (if_neg (Str-discrete s []) n (kept ss) rest) (elim (Str-discrete s (46 ∷ [])) [
        | yes e ↦
            rw (if_pos (Str-discrete s (46 ∷ [])) e (kept ss) (s ∷ kept ss))
              (kept-IsClean ss w.1 (ground arith))
        | no m ↦ rw (if_neg (Str-discrete s (46 ∷ [])) m (kept ss) (s ∷ kept ss)) (
          record { whole = w.0; nonempty = n; no_dot = m; no_traversal = λ e. ground arith },
          kept-IsClean ss w.1 (ground arith),
        )
      ])
    ]

split_of_Whole : (s : Str) → Whole s → split s ≡ s ∷ []
unfolding split
split_of_Whole [] h = refl
split_of_Whole (c ∷ s) h = ground (arith, split_of_Whole s h.1, h.0)

split-append : (s t : Str) → Whole s → split (s ++ slash ∷ t) ≡ s ∷ split t
unfolding split
split-append [] t h = refl
split-append (c ∷ s) t h = ground (arith, split-append s t h.1, h.0)

-- Cutting a joined path gives the segments back.
pub split-join : (s : Str) (ss : List Str) → All Whole (s ∷ ss) → split (join (s ∷ ss)) ≡ s ∷ ss
unfolding join
split-join s [] h = split_of_Whole s h.0
split-join s (t ∷ ts) h = split-append s (join (t ∷ ts)) h.0 ∙ ap (◌∷◌ s) (split-join t ts h.1)

-- The first list is a prefix of the second, entry by entry.
unfoldable pub covers : List Str → List Str → Bool
covers [] qs = true
covers (p ∷ ps) [] = false
covers (p ∷ ps) (q ∷ qs) = let rest = covers ps qs in ite (Str-discrete p q) rest false

covers-cons_first :
    (c : ℕ) (p q : Str) (ps qs : List Str)
    → covers (cons_first c (p ∷ ps)) (cons_first c (q ∷ qs)) ≡ covers (p ∷ ps) (q ∷ qs)
unfolding covers
covers-cons_first c p q ps qs = ground arith

is_path_prefix-cons :
    (c d : ℕ) (p q : Str)
    → is_path_prefix (c ∷ p) (d ∷ q) ≡ (if d == c then is_path_prefix p q else false)
unfolding is_path_prefix starts_with
is_path_prefix-cons c d p q = ground arith

covers-cut :
    (c d : ℕ) (p q : Str) (ps qs : List Str)
    → covers
        (if c == slash then [] ∷ p ∷ ps else cons_first c (p ∷ ps))
        (if d == slash then [] ∷ q ∷ qs else cons_first d (q ∷ qs))
      ≡ (if d == c then covers (p ∷ ps) (q ∷ qs) else false)
unfolding covers
covers-cut c d p q ps qs = ground arith

-- The prefix test on two strings is the prefix test on their lists of segments: `docs` covers
-- `docs/a.md` and never `docs-2/a.md`.
pub is_path_prefix-covers : (p q : Str) → is_path_prefix p q ≡ covers (split p) (split q)
unfolding is_path_prefix starts_with split covers
is_path_prefix-covers [] [] = ground arith
is_path_prefix-covers [] (d ∷ q) = let (q1, (qs, e)) = split_shape q in rw e (ground arith)
is_path_prefix-covers (c ∷ p) [] = let (p1, (ps, e)) = split_shape p in rw e (ground arith)
is_path_prefix-covers (c ∷ p) (d ∷ q) =
    let (p1, (ps, e)) = split_shape p in
    let (q1, (qs, f)) = split_shape q in
    rw (e, f)
      (is_path_prefix-cons c d p q
        ∙ (ap (λ b. if d == c then b else false) (is_path_prefix-covers p q ∙ rw (e, f) refl)
            ∙ sym (covers-cut c d p1 q1 ps qs)))

All-Whole : (ss : List Str) → All IsClean ss → All Whole ss
All-Whole [] h = tt
All-Whole (s ∷ ss) h = (h.0.whole, All-Whole ss h.1)

of_segments-normalized :
    (ss : List Str) (s : Str)
    → All Whole ss
    → (includes_traversal ss ≡ false → All IsClean ss)
    → of_segments ss ≡ normalized s
    → AreSegments (split s) × (split s ≡ ss)
of_segments-normalized [] s w clean h = ground arith
of_segments-normalized (t ∷ ts) s w clean h = elim (Bool-cases (includes_traversal (t ∷ ts))) [
  | inl e ↦ ground arith
  | inr e ↦
      let joined : join (t ∷ ts) ≡ s = ground arith in
      let cut : split s ≡ t ∷ ts = ap split (sym joined) ∙ split-join t ts w in
      (rw cut (clean e), cut)
]

kept-Whole : (ss : List Str) → All Whole ss → All Whole (kept ss)
unfolding kept
kept-Whole [] h = tt
kept-Whole (s ∷ ss) h =
    ite-cases (Str-discrete s []) (All Whole) (kept ss)
      (ite (Str-discrete s (46 ∷ [])) (kept ss) (s ∷ kept ss)) (λ _. kept-Whole ss h.1)
      (λ _.
        ite-cases (Str-discrete s (46 ∷ [])) (All Whole) (kept ss) (s ∷ kept ss)
          (λ _. kept-Whole ss h.1) (λ _. (h.0, kept-Whole ss h.1)))

normalize_path-of_segments :
    (raw s : Str)
    → normalize_path raw ≡ normalized s
    → of_segments (kept (split raw)) ≡ normalized s
unfolding normalize_path
normalize_path-of_segments [] s h = ground arith
normalize_path-of_segments (c ∷ r) s h = ground arith

-- A path that normalization accepts is, cut at its separators, exactly the segments of the raw path
-- without the empty ones and the single dots; there is at least one, and none of them is empty, a
-- dot, a traversal `..` or holds a separator.
pub normalize_path-AreSegments :
    (raw s : Str)
    → normalize_path raw ≡ normalized s
    → AreSegments (split s) × (split s ≡ kept (split raw))
normalize_path-AreSegments raw s h =
    of_segments-normalized (kept (split raw)) s (kept-Whole (split raw) (split-Whole raw))
      (kept-IsClean (split raw) (split-Whole raw)) (normalize_path-of_segments raw s h)

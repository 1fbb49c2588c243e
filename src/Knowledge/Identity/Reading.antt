-- ===== src/Knowledge/Identity/Reading.antt =====
-- identity.ts: the manifest read back.
use secure_home_agent_platfo.Prelude.{
  ◌≡◌, ◌≢◌, refl, sym, ap, ◌∙◌, Option, none, some, ℕ, List, [], ◌∷◌, ◌++◌, append-nil,
  append_assoc, Str, All, map, text, ite, if_pos, if_neg, ℕ_discrete, Bool-cases, inl, inr,
}
use secure_home_agent_platfo.Core.Canonical.{less, insert, canonical_sort}
use secure_home_agent_platfo.Knowledge.Identity.{
  SourceFile, Row, row_bytes, rows_bytes, row_of, rows_of, manifest_bytes,
}

abbrev and_row : Row → Option (List Row) → Option (List Row)
and_row r none = none
and_row r (some rs) = some (r ∷ rs)

-- A reader of rows: it gathers a path up to NUL, then a digest up to a line feed. It is given what it
-- has gathered of the path, and of the digest once the path has ended.
unfoldable pub read_rows : Str → Str → Option Str → Option (List Row)
read_rows [] [] none = some []
read_rows [] (c ∷ path) none = none
read_rows [] path (some digest) = none
read_rows (b ∷ bs) path none =
    ite (ℕ_discrete b 0) (read_rows bs path (some [])) (read_rows bs (path ++ b ∷ []) none)
read_rows (b ∷ bs) path (some digest) =
    ite (ℕ_discrete b 10) (and_row (record { path = path; digest = digest }) (read_rows bs [] none))
      (read_rows bs path (some (digest ++ b ∷ [])))

abbrev pub Without : ℕ → Str → Type 0
Without c s = All (λ b. b ≢ c) s

read_rows_path :
    (p rest path : Str)
    → Without 0 p
    → read_rows (p ++ 0 ∷ rest) path none ≡ read_rows rest (path ++ p) (some [])
unfolding read_rows
read_rows_path [] rest path w =
    if_pos (ℕ_discrete 0 0) refl _ _ ∙ ap (λ q. read_rows rest q (some [])) (sym (append-nil path))
read_rows_path (b ∷ p) rest path w =
    if_neg (ℕ_discrete b 0) w.0 _ _
    ∙ (read_rows_path p rest (path ++ b ∷ []) w.1
        ∙ ap (λ q. read_rows rest q (some [])) (append_assoc path (b ∷ []) p))

read_rows_digest :
    (d rest path digest : Str)
    → Without 10 d
    → read_rows (d ++ 10 ∷ rest) path (some digest)
      ≡ and_row (record { path = path; digest = digest ++ d }) (read_rows rest [] none)
unfolding read_rows
read_rows_digest [] rest path digest w =
    if_pos (ℕ_discrete 10 10) refl _ _
    ∙ ap (λ q. and_row (record { path = path; digest = q }) (read_rows rest [] none))
        (sym (append-nil digest))
read_rows_digest (b ∷ d) rest path digest w =
    if_neg (ℕ_discrete b 10) w.0 _ _
    ∙ (read_rows_digest d rest path (digest ++ b ∷ []) w.1
        ∙ ap (λ q. and_row (record { path = path; digest = q }) (read_rows rest [] none))
            (append_assoc digest (b ∷ []) d))

-- No NUL in a path, no line feed in a digest.
abbrev pub IsPlain : Row → Type 0
IsPlain r = Without 0 r.path × Without 10 r.digest

read_row :
    (r : Row) (rest : Str)
    → IsPlain r
    → read_rows (row_bytes r ++ rest) [] none ≡ and_row r (read_rows rest [] none)
unfolding row_bytes
read_row r rest (p, d) =
    ap (λ s. read_rows s [] none)
      (append_assoc r.path (0 ∷ (r.digest ++ 10 ∷ [])) rest
        ∙ ap (λ s. r.path ++ 0 ∷ s) (append_assoc r.digest (10 ∷ []) rest))
    ∙ (read_rows_path r.path (r.digest ++ 10 ∷ rest) [] p
        ∙ read_rows_digest r.digest rest r.path [] d)

read_rows-rows_bytes :
    (rs : List Row) → All IsPlain rs → read_rows (rows_bytes rs) [] none ≡ some rs
unfolding rows_bytes read_rows
read_rows-rows_bytes [] plain = refl
read_rows-rows_bytes (r ∷ rs) (p, plain) =
    read_row r (rows_bytes rs) p ∙ ap (and_row r) (read_rows-rows_bytes rs plain)

All-insert :
    (r : Row) (rs : List Row) → IsPlain r → All IsPlain rs → All IsPlain (insert (λ x. x.path) r rs)
unfolding insert
All-insert r [] p plain = (p, tt)
All-insert r (x ∷ rs) p (q, plain) = elim (Bool-cases (less x.path r.path)) [
  | inl e ↦ rw e (q, All-insert r rs p plain)
  | inr e ↦ rw e (p, (q, plain))
]

All-canonical_sort :
    (rs : List Row) → All IsPlain rs → All IsPlain (canonical_sort (λ x. x.path) rs)
unfolding canonical_sort
All-canonical_sort [] plain = tt
All-canonical_sort (r ∷ rs) (p, plain) =
    All-insert r (canonical_sort (λ x. x.path) rs) p (All-canonical_sort rs plain)

-- The bytes after a prefix.
after : Str → Str → Str
after [] s = s
after (c ∷ p) [] = []
after (c ∷ p) (d ∷ s) = after p s

after-append : (p s : Str) → after p (p ++ s) ≡ s
unfolding after
after-append [] s = refl
after-append (c ∷ p) s = after-append p s

-- A manifest, read back.
unfoldable pub read_manifest : (Str → Str) → Str → Option (List Row)
unfolding after
read_manifest utf8 bytes = read_rows (after (utf8 (text "okf-package-v1" ++ 10 ∷ [])) bytes) [] none

module _ (utf8 : Str → Str) (sha256 : Str → Str) where
  IsPlain-map :
      (ms : List SourceFile)
      → ((b : Str) → Without 10 (utf8 (sha256 b)))
      → All (λ m. Without 0 (utf8 m.path)) ms
      → All IsPlain (map (row_of utf8 sha256) ms)
  IsPlain-map [] hex paths = tt
  IsPlain-map (m ∷ ms) hex (p, paths) = ((p, hex m.bytes), IsPlain-map ms hex paths)

  -- Where no path holds a NUL and no digest a line feed, the manifest of members read back gives the
  -- encoded path and digest of every member, in the order of the paths: no two different tables of
  -- paths and digests have one manifest.
  pub read_manifest-manifest_bytes :
      (ms : List SourceFile)
      → ((b : Str) → Without 10 (utf8 (sha256 b)))
      → All (λ m. Without 0 (utf8 m.path)) ms
      → read_manifest utf8 (manifest_bytes utf8 sha256 ms) ≡ some (rows_of utf8 sha256 ms)
  unfolding read_manifest manifest_bytes rows_of
  read_manifest-manifest_bytes ms hex paths =
      ap (λ s. read_rows s [] none) (after-append (utf8 (text "okf-package-v1" ++ 10 ∷ [])) _)
      ∙ read_rows-rows_bytes (rows_of utf8 sha256 ms)
          (All-canonical_sort (map (row_of utf8 sha256) ms) (IsPlain-map ms hex paths))

-- ===== src/Knowledge/Identity.antt =====
-- packages/knowledge-toolchain/src/identity.ts: the bytes that identify a package. The UTF-8 encoding
-- and the hash, as lowercase hexadecimal text, are parameters.
pub mod Order
pub mod Reading
use secure_home_agent_platfo.Prelude.{List, [], ◌∷◌, ◌++◌, map, Str, text}
use secure_home_agent_platfo.Core.Canonical.{canonical_sort}

pub record SourceFile : Type 0 where
  pub path : Str
  pub bytes : Str

-- A line of the manifest: the encoded path and the encoded digest.
pub record Row : Type 0 where
  pub path : Str
  pub digest : Str

unfoldable pub row_bytes : Row → Str
row_bytes r = r.path ++ 0 ∷ (r.digest ++ 10 ∷ [])

-- The rows one after another, as they are written into the buffer.
unfoldable pub rows_bytes : List Row → Str
unfolding row_bytes
rows_bytes [] = []
rows_bytes (r ∷ rs) = row_bytes r ++ rows_bytes rs

module _ (utf8 : Str → Str) (sha256 : Str → Str) where
  abbrev pub file_digest : Str → Str
  file_digest bytes = sha256 bytes

  abbrev pub row_of : SourceFile → Row
  row_of m = record { path = utf8 m.path; digest = utf8 (file_digest m.bytes) }

  -- The rows in the order of their paths' bytes, a shorter path before those that it begins.
  unfoldable pub rows_of : List SourceFile → List Row
  rows_of members = canonical_sort (λ r. r.path) (map row_of members)

  -- "okf-package-v1" and a line feed, encoded, and the rows.
  unfoldable pub manifest_bytes : List SourceFile → Str
  manifest_bytes members = utf8 (text "okf-package-v1" ++ 10 ∷ []) ++ rows_bytes (rows_of members)

  unfoldable pub bundle_digest : List SourceFile → Str
  bundle_digest members = sha256 (manifest_bytes members)

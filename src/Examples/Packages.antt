-- ===== src/Examples/Packages.antt =====
-- packages/knowledge-toolchain/src: the theorems on the identity of a package at concrete inputs.
use mathlib.Core.List.{Permᴰ, Memᴰ}
use secure_home_agent_platfo.Prelude.{
  ◌≡◌, ◌≢◌, refl, sym, ap, ◌∙◌, some, List, [], ◌∷◌, text, Str, arith,
}
use secure_home_agent_platfo.Knowledge.Identity.{SourceFile, manifest_bytes, bundle_digest, rows_of}
use secure_home_agent_platfo.Knowledge.Identity.Order.{OnePath, bundle_digest-Permᴰ}
use secure_home_agent_platfo.Knowledge.Identity.Reading.{
  Without, read_manifest, read_manifest-manifest_bytes,
}

abbrev utf8 : Str → Str
utf8 s = s

abbrev sha256 : Str → Str
sha256 bytes = text "0f"

abbrev index : SourceFile
index = record { path = text "i"; bytes = text "x" }

abbrev page : SourceFile
page = record { path = text "p"; bytes = text "y" }

abbrev members : List SourceFile
members = index ∷ page ∷ []

distinct : text "i" ≢ text "p"
unfolding text
distinct e = ground arith

members-OnePath : OnePath utf8 members
unfolding text
members-OnePath a b (Memᴰ.head e) (Memᴰ.head f) h = e ∙ sym f
members-OnePath a b (Memᴰ.head e) (Memᴰ.tail (Memᴰ.head f)) h =
    absurd (distinct (sym (ap (λ m. m.path) e) ∙ (h ∙ ap (λ m. m.path) f)))
members-OnePath a b (Memᴰ.tail (Memᴰ.head e)) (Memᴰ.head f) h =
    absurd (distinct (sym (ap (λ m. m.path) f) ∙ (sym h ∙ ap (λ m. m.path) e)))
members-OnePath a b (Memᴰ.tail (Memᴰ.head e)) (Memᴰ.tail (Memᴰ.head f)) h = e ∙ sym f
members-OnePath a b (Memᴰ.head e) (Memᴰ.tail (Memᴰ.tail m)) h = elim m [ ]
members-OnePath a b (Memᴰ.tail (Memᴰ.head e)) (Memᴰ.tail (Memᴰ.tail m)) h = elim m [ ]
members-OnePath a b (Memᴰ.tail (Memᴰ.tail m)) n h = elim m [ ]

bundle_digest-Permᴰ_example :
    (manifest_bytes utf8 sha256 members ≡ manifest_bytes utf8 sha256 (page ∷ index ∷ []))
    × (bundle_digest utf8 sha256 members ≡ bundle_digest utf8 sha256 (page ∷ index ∷ []))
bundle_digest-Permᴰ_example =
    bundle_digest-Permᴰ utf8 sha256 members (page ∷ index ∷ []) (Permᴰ.swap refl refl)
      members-OnePath

hex : (b : Str) → Without 10 (utf8 (sha256 b))
unfolding text
hex b = (λ e. omega arith, (λ e. omega arith, tt))

read_manifest-manifest_bytes_example :
    read_manifest utf8 (manifest_bytes utf8 sha256 members) ≡ some (rows_of utf8 sha256 members)
unfolding text
read_manifest-manifest_bytes_example =
    read_manifest-manifest_bytes utf8 sha256 members hex
      ((λ e. omega arith, tt), ((λ e. omega arith, tt), tt))

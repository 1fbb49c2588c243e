-- ===== src/Core/Verification/Artifacts.antt =====
-- verification/verify.ts: the artifacts of the bundle against those that were observed.
use secure_home_agent_platfo.Prelude.{
  ◌≡◌, refl, ap, subst, ◌∙◌, Bool, true, false, Option, none, some, List, [], ◌∷◌, ◌++◌, ◌&&◌, ite,
  Str, Str-discrete, arith, any, ite-cases, Bool-cases, inl, inr, ◌⊎◌,
}
use secure_home_agent_platfo.Prelude.Maps
use secure_home_agent_platfo.Prelude.Maps.{Map, get-set}
use secure_home_agent_platfo.Core.Paths.{NormalizedPath, normalized, undecided, normalize_path}
use secure_home_agent_platfo.Core.Outcome.{ConsumedArtifact}
use secure_home_agent_platfo.Core.Verification.{
  Artifact, Indexed, indexed, index, index_one, Surface, failing, seeing, compare_artifact, on_path,
  surface, has, missing, verdict, decide_surface, verified,
}

abbrev pub same : Str → Str → Bool
same s t = ite (Str-discrete s t) true false

-- Some artifact of the list has the path and the digest.
abbrev pub lists : Str → Str → List ConsumedArtifact → Bool
lists p d xs = any (λ a. same a.path p && same a.digest d) xs

index_one-indexed :
    (a : ConsumedArtifact) (o : Option Str) (rest : Map Str → Indexed) (m m' : Map Str)
    → index_one a o rest m ≡ indexed m'
    → ((o ≡ none) ⊎ (o ≡ some a.digest)) × (rest (Maps.set a.path a.digest m) ≡ indexed m')
unfolding index_one
index_one-indexed a none rest m m' = λ h. (inl refl, h)
index_one-indexed a (some previous) rest m m' =
    ite-cases (Str-discrete previous a.digest)
      (λ x.
        x ≡ indexed m'
        → ((some previous ≡ none) ⊎ (some previous ≡ some a.digest))
          × (rest (Maps.set a.path a.digest m) ≡ indexed m'))
      _ _ (λ e h. (inr (ap some e), h)) (λ n h. absurd (ground arith))

index-keeps :
    (xs : List ConsumedArtifact) (m m' : Map Str) (p d : Str)
    → index xs m ≡ indexed m'
    → Maps.get p m ≡ some d
    → Maps.get p m' ≡ some d
unfolding index
index-keeps [] m m' p d h g = ground arith
index-keeps (a ∷ xs) m m' p d h g =
    let (o, h') = index_one-indexed a (Maps.get a.path m) (index xs) m m' h in
    index-keeps xs (Maps.set a.path a.digest m) m' p d h'
      (ground (arith, get-set a.path p a.digest m))

index-lists :
    (xs : List ConsumedArtifact) (m m' : Map Str) (p d : Str)
    → index xs m ≡ indexed m'
    → lists p d xs ≡ true
    → Maps.get p m' ≡ some d
unfolding index
index-lists [] m m' p d h l = absurd (ground arith)
index-lists (a ∷ xs) m m' p d h l =
    let (o, h') = index_one-indexed a (Maps.get a.path m) (index xs) m m' h in
    elim (Bool-cases (same a.path p && same a.digest d)) [
      | inl e ↦
          index-keeps xs (Maps.set a.path a.digest m) m' p d h'
            (ground (arith, get-set a.path p a.digest m))
      | inr e ↦ index-lists xs (Maps.set a.path a.digest m) m' p d h' (ground arith)
    ]

index-only :
    (xs : List ConsumedArtifact) (m m' : Map Str) (p d : Str)
    → index xs m ≡ indexed m'
    → Maps.get p m' ≡ some d
    → (Maps.get p m ≡ some d) ⊎ (lists p d xs ≡ true)
unfolding index
index-only [] m m' p d h g = inl (ground arith)
index-only (a ∷ xs) m m' p d h g =
    let (o, h') = index_one-indexed a (Maps.get a.path m) (index xs) m m' h in
    ground
      (arith, index-only xs (Maps.set a.path a.digest m) m' p d h' g, get-set a.path p a.digest m)

missing-[] :
    (seen : List Str) (m : Map Str) (p d : Str)
    → missing seen m ≡ []
    → Maps.get p m ≡ some d
    → has p seen ≡ true
unfolding missing Maps.get
missing-[] seen [] p d h g = absurd (ground arith)
missing-[] seen ((q, e) ∷ m) p d h g = ground (arith, missing-[] seen m p d)

-- The observed artifacts, their paths normalized and their contents digested.
abbrev digested : Str → Str → Option (List ConsumedArtifact) → Option (List ConsumedArtifact)
digested path digest none = none
digested path digest (some xs) = some ((record { path = path; digest = digest }) ∷ xs)

abbrev image :
    Str → NormalizedPath → Option (List ConsumedArtifact) → Option (List ConsumedArtifact)
image digest (undecided reason) rest = none
image digest (normalized path) rest = digested path digest rest

unfoldable pub images : (Str → Str) → List Artifact → Option (List ConsumedArtifact)
images digest_of [] = some []
images digest_of (a ∷ xs) =
    let rest = images digest_of xs in image (digest_of a.content) (normalize_path a.path) rest

-- What a surface without failures holds.
record Clean (m : Map Str) (os : Option (List ConsumedArtifact)) (s : Surface) : Type 0 where
  whole : os ≡ some s.consumed
  recorded : (p d : Str) → lists p d s.consumed ≡ true → Maps.get p m ≡ some d
  seen : (p : Str) → has p s.observed ≡ true → (d : Str) × (lists p d s.consumed ≡ true)

compare-Clean :
    (m : Map Str) (path digest : Str) (o : Option Str) (os : Option (List ConsumedArtifact))
    (rest : Surface)
    → Maps.get path m ≡ o
    → (rest.failures ≡ [] → Clean m os rest)
    → (compare_artifact path digest o rest).failures ≡ []
    → Clean m (digested path digest os) (seeing path (compare_artifact path digest o rest))
unfolding compare_artifact failing seeing has
compare-Clean m path digest none os rest e k = λ h. absurd (ground arith)
compare-Clean m path digest (some recorded) os rest e k =
    ite-cases (Str-discrete recorded digest)
      (λ s. s.failures ≡ [] → Clean m (digested path digest os) (seeing path s)) _ _
      (λ same h.
        let c = k h in
        record {
          whole = ap (digested path digest) c.whole;
          recorded = λ p d l. ground (arith, c.recorded p d);
          seen = λ p l. elim (Str-discrete path p) [
            | yes is ↦ (digest, ground arith)
            | no n ↦ let (d, at) = c.seen p (ground arith) in (d, ground arith)
          ];
        })
      (λ n h. absurd (ground arith))

on_path-Clean :
    (digest_of : Str → Str) (m : Map Str) (a : Artifact) (n : NormalizedPath)
    (os : Option (List ConsumedArtifact)) (rest : Surface)
    → (rest.failures ≡ [] → Clean m os rest)
    → (on_path digest_of m a n rest).failures ≡ []
    → Clean m (image (digest_of a.content) n os) (on_path digest_of m a n rest)
unfolding on_path failing seeing
on_path-Clean digest_of m a (undecided reason) os rest k h = absurd (ground arith)
on_path-Clean digest_of m a (normalized path) os rest k h =
    compare-Clean m path (digest_of a.content) (Maps.get path m) os rest refl k h

surface-Clean :
    (digest_of : Str → Str) (m : Map Str) (xs : List Artifact)
    → (surface digest_of m xs).failures ≡ []
    → Clean m (images digest_of xs) (surface digest_of m xs)
unfolding surface images has
surface-Clean digest_of m [] h = record {
  whole = refl;
  recorded = λ p d l. absurd (ground arith);
  seen = λ p l. absurd (ground arith);
}
surface-Clean digest_of m (a ∷ xs) h =
    on_path-Clean digest_of m a (normalize_path a.path) (images digest_of xs)
      (surface digest_of m xs) (surface-Clean digest_of m xs) h

pub append-[] : (xs ys : List Str) → xs ++ ys ≡ [] → (xs ≡ []) × (ys ≡ [])
append-[] [] ys h = (refl, h)
append-[] (x ∷ xs) ys h = absurd (ground arith)

verdict-verified :
    (fs : List Str) (cs ds : List ConsumedArtifact)
    → verdict fs cs ≡ verified ds
    → (fs ≡ []) × (cs ≡ ds)
unfolding verdict
verdict-verified [] cs ds h = (refl, ground arith)
verdict-verified (f ∷ fs) cs ds h = absurd (ground arith)

pub bool-ext : (a b : Bool) → (a ≡ true → b ≡ true) → (b ≡ true → a ≡ true) → a ≡ b
bool-ext a b f g = ground arith

-- A bundle's artifacts that agree with the surface are the observed ones.
pub decide_surface-lists :
    (digest_of : Str → Str) (bundled : List ConsumedArtifact) (m : Map Str) (xs : List Artifact)
    (ds : List ConsumedArtifact)
    → index bundled [] ≡ indexed m
    → decide_surface digest_of m xs ≡ verified ds
    → (images digest_of xs ≡ some ds) × ((p d : Str) → lists p d ds ≡ lists p d bundled)
unfolding decide_surface Maps.get
decide_surface-lists digest_of bundled m xs ds is h =
    let s = surface digest_of m xs in
    let (none_failed, e) = verdict-verified (s.failures ++ missing s.observed m) s.consumed ds h in
    let (clean, all_seen) = append-[] s.failures (missing s.observed m) none_failed in
    let c = surface-Clean digest_of m xs clean in
    (
      c.whole ∙ ap some e,
      λ p d.
          subst (λ ys. lists p d ys ≡ lists p d bundled) e
            (bool-ext (lists p d s.consumed) (lists p d bundled)
              (λ l. elim (index-only bundled [] m p d is (c.recorded p d l)) [
                | inl g ↦ absurd (ground arith)
                | inr g ↦ g
              ])
              (λ l.
                let at = index-lists bundled [] m p d is l in
                let (d', k) = c.seen p (missing-[] s.observed m p d all_seen at) in
                let at' = c.recorded p d' k in
                subst (λ x. lists p x s.consumed ≡ true) (ground arith) k)),
    )

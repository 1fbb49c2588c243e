-- ===== src/Core/Verification/Exact.antt =====
-- verification/verify.ts: what a verdict of verified says.
use secure_home_agent_platfo.Prelude.{
  ◌≡◌, refl, Option, none, some, List, [], ◌∷◌, Str, text, arith, All,
}
use secure_home_agent_platfo.Prelude.Maps
use secure_home_agent_platfo.Prelude.Maps.{Map}
use secure_home_agent_platfo.Core.Outcome.{ConsumedArtifact}
use secure_home_agent_platfo.Core.Eligibility.{CapturedIdentity}
use secure_home_agent_platfo.Core.Capture.{
  JsonResult, SchemaResult, valid, invalid, CapturedAuthority, captured, capture_refused,
  capture_fault, Stated,
}
use secure_home_agent_platfo.Acquisition.{AuthorityBytes}
use secure_home_agent_platfo.Core.Verification.{
  Artifact, ArtifactObservation, artifacts, observation_failed, EvidenceBundle, IndependentInputs,
  verified, Indexed, indexed, contradiction, index, diverging, diverging_on, Checked, checked,
  faulted, then_check, check_capture, contract_fields, profile_fields, recapture, check_identities,
  on_checked, on_indexed, on_bundle, on_observation, verify_evidence, decide_surface,
}
use secure_home_agent_platfo.Core.Verification.Artifacts.{lists, images, decide_surface-lists}

-- The bundle records each field as it was derived.
abbrev pub Records : Map Str → Map Str → Type 0
Records recorded derived = All (λ f. Maps.get f.0 recorded ≡ some f.1) derived

diverging_on-[] :
    (o : Option Str) (v why : Str) (rest : List Str)
    → diverging_on o v why rest ≡ []
    → (o ≡ some v) × (rest ≡ [])
unfolding diverging_on
diverging_on-[] none v why rest h = absurd (ground arith)
diverging_on-[] (some w) v why rest h = ground arith

diverging-Records :
    (quote : Option Str → Str) (name : Str) (recorded derived : Map Str)
    → diverging quote name recorded derived ≡ []
    → Records recorded derived
unfolding diverging
diverging-Records quote name recorded [] h = tt
diverging-Records quote name recorded ((f, v) ∷ derived) h =
    let (e, h') =
      diverging_on-[] (Maps.get f recorded) v _ (diverging quote name recorded derived) h in
    (e, diverging-Records quote name recorded derived h')

then_check-[] : (c d : Checked) → then_check c d ≡ checked [] → (c ≡ checked []) × (d ≡ checked [])
unfolding then_check
then_check-[] (faulted f) d h = absurd (ground arith)
then_check-[] (checked fs) (faulted f) h = absurd (ground arith)
then_check-[] (checked []) (checked gs) h = (refl, h)
then_check-[] (checked (f ∷ fs)) (checked gs) h = absurd (ground arith)

-- A capture that succeeded, and whose identity the bundle records.
abbrev pub Matches :
    {T : Type 0} → Map Str → (Str → CapturedIdentity → T → Map Str) → CapturedAuthority T → Type 0
Matches {T} recorded derived c =
    (source : Str) × (digest : Str) × (identity : CapturedIdentity) × (doc : T) × ((c
        ≡ captured source digest identity doc)
      × Records recorded (derived digest identity doc))

module _ {T : Type 0} (quote : Option Str → Str) where
  check_capture-Matches :
      (name : Str) (recorded : Map Str) (derived : Str → CapturedIdentity → T → Map Str)
      (c : CapturedAuthority T)
      → check_capture quote name recorded derived c ≡ checked []
      → Matches recorded derived c
  unfolding check_capture
  check_capture-Matches name recorded derived (capture_fault f) h = absurd (ground arith)
  check_capture-Matches name recorded derived (capture_refused source r) h = absurd (ground arith)
  check_capture-Matches name recorded derived (captured source digest identity doc) h = (
    source,
    digest,
    identity,
    doc,
    (refl, diverging-Records quote name recorded _ (ground arith)),
  )

module _ {Json T Raw : Type 0} (parse : Str → JsonResult Json) (contract_id_of : Json → Option Str)
    (digest_of : Str → Str) (stated : Stated T) (named : T → Str × Str)
    (schema : Str → Json → SchemaResult T) (bundle_schema : Raw → SchemaResult EvidenceBundle)
    (quote : Option Str → Str) where
  abbrev recaptured : Str → Option AuthorityBytes → CapturedAuthority T
  recaptured = recapture parse contract_id_of digest_of stated named schema bundle_schema quote

  -- The bundle conforms to its contract, records the identities of the authority that the verifier
  -- captured, and lists the artifacts that it observed, with their digests, and no others.
  pub record IsExact (claimed : Option Raw) (i : IndependentInputs)
      (consumed : List ConsumedArtifact) : Type 0 where
    pub raw : Raw
    pub bundle : EvidenceBundle
    pub observed : List Artifact
    pub present : claimed ≡ some raw
    pub conforms : bundle_schema raw ≡ valid bundle
    pub readable : i.artifacts ≡ artifacts observed
    pub digested : images digest_of observed ≡ some consumed
    pub same_artifacts : (p d : Str) → lists p d consumed ≡ lists p d bundle.artifacts
    pub profile :
        Matches bundle.profile
          (profile_fields named)
          (recaptured (text "execution-profile") i.profile)
    pub path_policy :
        Matches bundle.path_policy contract_fields (recaptured (text "path-policy") i.path_policy)
    pub gate_registry :
        Matches bundle.gate_registry contract_fields
          (recaptured (text "gate-registry") i.gate_registry)

  on_checked-verified :
      (m : Map Str) (xs : List Artifact) (c : Checked) (ds : List ConsumedArtifact)
      → on_checked parse contract_id_of digest_of stated named schema bundle_schema quote m xs c
        ≡ verified ds
      → (c ≡ checked []) × (decide_surface digest_of m xs ≡ verified ds)
  unfolding on_checked
  on_checked-verified m xs (faulted f) ds h = absurd (ground arith)
  on_checked-verified m xs (checked []) ds h = (refl, h)
  on_checked-verified m xs (checked (f ∷ fs)) ds h = absurd (ground arith)

  identities-Match :
      (b : EvidenceBundle) (i : IndependentInputs)
      → check_identities parse contract_id_of digest_of stated named schema bundle_schema quote b i
        ≡ checked []
      → Matches b.profile (profile_fields named) (recaptured (text "execution-profile") i.profile)
        × (Matches b.path_policy contract_fields (recaptured (text "path-policy") i.path_policy)
            × Matches b.gate_registry contract_fields
                (recaptured (text "gate-registry") i.gate_registry))
  unfolding check_identities
  identities-Match b i h =
      let (p, rest) = then_check-[] _ _ h in
      let (q, r) = then_check-[] _ _ rest in
      (
        check_capture-Matches quote (text "profile") b.profile (profile_fields named) _ p,
        (
          check_capture-Matches quote (text "path-policy") b.path_policy contract_fields _ q,
          check_capture-Matches quote (text "gate-registry") b.gate_registry contract_fields _ r,
        ),
      )

  on_indexed-verified :
      (b : EvidenceBundle) (i : IndependentInputs) (xs : List Artifact) (o : Indexed)
      (ds : List ConsumedArtifact)
      → on_indexed parse contract_id_of digest_of stated named schema bundle_schema quote b i xs o
        ≡ verified ds
      → (m : Map Str) × ((o ≡ indexed m)
          × ((check_identities parse contract_id_of digest_of stated named schema bundle_schema
                  quote b i
                ≡ checked [])
              × (decide_surface digest_of m xs ≡ verified ds)))
  unfolding on_indexed
  on_indexed-verified b i xs (contradiction why) ds h = absurd (ground arith)
  on_indexed-verified b i xs (indexed m) ds h = (m, (refl, on_checked-verified m xs _ ds h))

  on_bundle-verified :
      (i : IndependentInputs) (xs : List Artifact) (o : SchemaResult EvidenceBundle)
      (ds : List ConsumedArtifact)
      → on_bundle parse contract_id_of digest_of stated named schema bundle_schema quote i xs o
        ≡ verified ds
      → (b : EvidenceBundle) × ((o ≡ valid b)
          × ((m : Map Str) × ((index b.artifacts [] ≡ indexed m)
                × ((check_identities parse contract_id_of digest_of stated named schema
                        bundle_schema quote b i
                      ≡ checked [])
                    × (decide_surface digest_of m xs ≡ verified ds)))))
  unfolding on_bundle
  on_bundle-verified i xs (invalid issues) ds h = absurd (ground arith)
  on_bundle-verified i xs (valid b) ds h =
      (b, (refl, on_indexed-verified b i xs (index b.artifacts []) ds h))

  on_observation-IsExact :
      (claimed : Option Raw) (i : IndependentInputs) (o : ArtifactObservation)
      (ds : List ConsumedArtifact)
      → i.artifacts ≡ o
      → on_observation parse contract_id_of digest_of stated named schema bundle_schema quote
          claimed i o
        ≡ verified ds
      → IsExact claimed i ds
  unfolding on_observation
  on_observation-IsExact claimed i (observation_failed why) ds e h = absurd (ground arith)
  on_observation-IsExact none i (artifacts xs) ds e h = absurd (ground arith)
  on_observation-IsExact (some raw) i (artifacts xs) ds e h =
      let (b, (ok, (m, (is, (ids, same))))) = on_bundle-verified i xs (bundle_schema raw) ds h in
      let (p, (q, r)) = identities-Match b i ids in
      let (whole, listed) = decide_surface-lists digest_of b.artifacts m xs ds is same in
      record {
        raw = raw;
        bundle = b;
        observed = xs;
        present = refl;
        conforms = ok;
        readable = e;
        digested = whole;
        same_artifacts = listed;
        profile = p;
        path_policy = q;
        gate_registry = r;
      }

  -- Evidence is verified only if it is exact: the claimed bundle is there and conforms to its contract;
  -- the profile, the policy and the registry were captured from the verifier's own bytes, and the
  -- bundle records each field of their identities as it was derived; every observed artifact has a
  -- path in normal form; and an artifact with a digest is in the bundle just when it is observed.
  pub verify_evidence-IsExact :
      (claimed : Option Raw) (i : IndependentInputs) (consumed : List ConsumedArtifact)
      → verify_evidence parse contract_id_of digest_of stated named schema bundle_schema quote
          claimed i
        ≡ verified consumed
      → IsExact claimed i consumed
  unfolding verify_evidence
  verify_evidence-IsExact claimed i consumed h =
      on_observation-IsExact claimed i i.artifacts consumed refl h

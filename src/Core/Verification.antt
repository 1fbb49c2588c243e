-- ===== src/Core/Verification.antt =====
-- packages/runner-core/src/verification/verify.ts: evidence that a producer claims, verified against
-- authority bytes and artifacts that were acquired apart from it.
pub mod Artifacts
pub mod Exact
use secure_home_agent_platfo.Prelude.{
  Bool, true, false, Option, none, some, List, [], ◌∷◌, ◌++◌, ite, if◌then◌else◌, Str, Str-discrete,
  text,
}
use secure_home_agent_platfo.Prelude.Maps
use secure_home_agent_platfo.Prelude.Maps.{Map}
use secure_home_agent_platfo.Core.Decision.{OperationalFailure, Refusal}
use secure_home_agent_platfo.Core.Paths.{NormalizedPath, normalized, undecided, normalize_path}
use secure_home_agent_platfo.Core.Outcome.{ConsumedArtifact}
use secure_home_agent_platfo.Core.Eligibility.{CapturedIdentity}
use secure_home_agent_platfo.Core.Capture.{
  JsonResult, SchemaResult, valid, invalid, ExpectedContract, CapturedAuthority, captured,
  capture_refused, capture_fault, Stated, capture_authority,
}
use secure_home_agent_platfo.Acquisition.{AuthorityBytes}

pub record Artifact : Type 0 where
  pub path : Str
  pub content : Str

pub data ArtifactObservation : Type 0 where
  artifacts : List Artifact → ArtifactObservation
  observation_failed : Str → ArtifactObservation

-- What the verifier reads of a bundle; an identity is an object of strings.
pub record EvidenceBundle : Type 0 where
  pub profile : Map Str
  pub path_policy : Map Str
  pub gate_registry : Map Str
  pub artifacts : List ConsumedArtifact

pub record IndependentInputs : Type 0 where
  pub profile : Option AuthorityBytes
  pub path_policy : Option AuthorityBytes
  pub gate_registry : Option AuthorityBytes
  pub artifacts : ArtifactObservation

pub data VerificationResult : Type 0 where
  verified : List ConsumedArtifact → VerificationResult
  failed : List Str → VerificationResult
  operational : OperationalFailure → VerificationResult

-- The digests of the bundle by path, or the failure of two for one path.
pub data Indexed : Type 0 where
  indexed : Map Str → Indexed
  contradiction : Str → Indexed

irreconcilable : Str → Str → Str → Str
irreconcilable path previous digest =
    text "bundle carries two irreconcilable digests for \""
    ++ (path ++ (text "\": " ++ (previous ++ (text " and " ++ digest))))

unfoldable pub index_one : ConsumedArtifact → Option Str → (Map Str → Indexed) → Map Str → Indexed
unfolding irreconcilable
index_one a none rest m = rest (Maps.set a.path a.digest m)
index_one a (some previous) rest m =
    ite (Str-discrete previous a.digest) (rest (Maps.set a.path a.digest m))
      (contradiction (irreconcilable a.path previous a.digest))

unfoldable pub index : List ConsumedArtifact → Map Str → Indexed
index [] m = indexed m
index (a ∷ xs) m = index_one a (Maps.get a.path m) (index xs) m

-- What became of the observed artifacts: the failures, those that agree, and the paths seen.
pub record Surface : Type 0 where
  pub failures : List Str
  pub consumed : List ConsumedArtifact
  pub observed : List Str

unfoldable pub failing : Str → Surface → Surface
failing why s = record s { failures = why ∷ s.failures }

unfoldable pub seeing : Str → Surface → Surface
seeing path s = record s { observed = path ∷ s.observed }

unaccounted : Str → Str
unaccounted path =
    text "unaccounted artifact on the observed surface: \""
    ++ (path ++ text "\" is absent from the bundle — never ignored as immaterial")

diverges : Str → Str → Str → Str
diverges path recorded recomputed =
    text "artifact digest diverges for \""
    ++ (path
        ++ (text "\": bundle records "
            ++ (recorded ++ (text ", recomputation derives " ++ recomputed))))

-- A path that was normalized, the digest recomputed for it, and the digest on record.
unfoldable pub compare_artifact : Str → Str → Option Str → Surface → Surface
unfolding failing unaccounted diverges
compare_artifact path recomputed none rest = failing (unaccounted path) rest
compare_artifact path recomputed (some recorded) rest =
    ite (Str-discrete recorded recomputed)
      (record rest { consumed = (record { path = path; digest = recomputed }) ∷ rest.consumed })
      (failing (diverges path recorded recomputed) rest)

unfoldable pub on_path : (Str → Str) → Map Str → Artifact → NormalizedPath → Surface → Surface
unfolding failing seeing
on_path digest_of by_path a (undecided reason) rest =
    failing
      (text "observed artifact path cannot be normalized: \""
        ++ (a.path ++ (text "\" (" ++ (reason ++ text ")"))))
      rest
on_path digest_of by_path a (normalized path) rest =
    seeing path (compare_artifact path (digest_of a.content) (Maps.get path by_path) rest)

unfoldable pub surface : (Str → Str) → Map Str → List Artifact → Surface
surface digest_of by_path [] = record { failures = []; consumed = []; observed = [] }
surface digest_of by_path (a ∷ xs) =
    on_path digest_of by_path a (normalize_path a.path) (surface digest_of by_path xs)

unfoldable pub has : Str → List Str → Bool
has s [] = false
has s (t ∷ ts) = ite (Str-discrete t s) true (has s ts)

-- The paths of the bundle that were not seen.
unfoldable pub missing : List Str → Map Str → List Str
missing seen [] = []
missing seen ((path, digest) ∷ m) =
    let rest = missing seen m in
    if has path seen
    then rest
    else (text "bundle names artifact \""
        ++ (path ++ text "\" but it is missing from the observed surface"))
      ∷ rest

unfoldable pub verdict : List Str → List ConsumedArtifact → VerificationResult
verdict [] consumed = verified consumed
verdict (f ∷ fs) consumed = failed (f ∷ fs)

unfoldable pub decide_surface : (Str → Str) → Map Str → List Artifact → VerificationResult
decide_surface digest_of by_path xs =
    let s = surface digest_of by_path xs in
    verdict (s.failures ++ missing s.observed by_path) s.consumed

unfoldable pub diverging_on : Option Str → Str → Str → List Str → List Str
diverging_on none expected why rest = why ∷ rest
diverging_on (some v) expected why rest = ite (Str-discrete v expected) rest (why ∷ rest)

-- The fields of an identity that the bundle records otherwise than they were derived; the text of a
-- recorded value in the message is `JSON.stringify`'s.
unfoldable pub diverging : (Option Str → Str) → Str → Map Str → Map Str → List Str
diverging quote name recorded [] = []
diverging quote name recorded ((field, expected) ∷ derived) =
    let rest = diverging quote name recorded derived in
    let found = Maps.get field recorded in
    let why =
      name
      ++ (text " identity diverges on "
          ++ (field
              ++ (text ": bundle records "
                  ++ (quote found
                      ++ (text ", independent capture derives " ++ quote (some expected)))))) in
    diverging_on found expected why rest

-- A capture checked against the bundle, or the fault of acquiring it.
pub data Checked : Type 0 where
  checked : List Str → Checked
  faulted : OperationalFailure → Checked

unfoldable pub then_check : Checked → Checked → Checked
then_check (faulted f) c = faulted f
then_check (checked fs) (faulted f) = faulted f
then_check (checked fs) (checked gs) = checked (fs ++ gs)

module _ {T : Type 0} (quote : Option Str → Str) where
  unfoldable pub check_capture :
      Str → Map Str → (Str → CapturedIdentity → T → Map Str) → CapturedAuthority T → Checked
  check_capture name recorded derived (capture_fault f) = faulted f
  check_capture name recorded derived (capture_refused source r) = checked (
      (text "independent capture of "
        ++ (name ++ (text " refused: " ++ (r.detail ++ text " — expectation cannot be derived"))))
      ∷ [])
  check_capture name recorded derived (captured source digest identity doc) =
      checked (diverging quote name recorded (derived digest identity doc))

abbrev pub contract_fields : {T : Type 0} → Str → CapturedIdentity → T → Map Str
contract_fields digest identity doc =
    (text "contract_id", identity.contract_id)
    ∷ (text "contract_version", identity.contract_version)
    ∷ (text "digest", identity.digest)
    ∷ []

-- The name and the version of a profile.
abbrev pub profile_fields : {T : Type 0} → (T → Str × Str) → Str → CapturedIdentity → T → Map Str
profile_fields named digest identity doc =
    (text "name", (named doc).0) ∷ (text "version", (named doc).1) ∷ (text "digest", digest) ∷ []

module _ {Json T Raw : Type 0} (parse : Str → JsonResult Json) (contract_id_of : Json → Option Str)
    (digest_of : Str → Str) (stated : Stated T) (named : T → Str × Str)
    (schema : Str → Json → SchemaResult T) (bundle_schema : Raw → SchemaResult EvidenceBundle)
    (quote : Option Str → Str) where
  abbrev pub recapture : Str → Option AuthorityBytes → CapturedAuthority T
  recapture contract_id input =
      capture_authority parse contract_id_of digest_of stated input
        (record { contract_id = contract_id; safe_parse = schema contract_id })

  unfoldable pub check_identities : EvidenceBundle → IndependentInputs → Checked
  check_identities b i =
      then_check
        (check_capture quote (text "profile") b.profile (profile_fields named)
          (recapture (text "execution-profile") i.profile))
        (then_check
          (check_capture quote (text "path-policy") b.path_policy contract_fields
            (recapture (text "path-policy") i.path_policy))
          (check_capture quote (text "gate-registry") b.gate_registry contract_fields
            (recapture (text "gate-registry") i.gate_registry)))

  unfoldable pub on_checked : Map Str → List Artifact → Checked → VerificationResult
  on_checked by_path xs (faulted f) = operational f
  on_checked by_path xs (checked []) = decide_surface digest_of by_path xs
  on_checked by_path xs (checked (f ∷ fs)) = failed (f ∷ fs)

  unfoldable pub on_indexed :
      EvidenceBundle → IndependentInputs → List Artifact → Indexed → VerificationResult
  on_indexed b i xs (contradiction why) = failed (why ∷ [])
  on_indexed b i xs (indexed by_path) = on_checked by_path xs (check_identities b i)

  unfoldable pub on_bundle :
      IndependentInputs → List Artifact → SchemaResult EvidenceBundle → VerificationResult
  on_bundle i xs (invalid issues) =
      failed ((text "evidence bundle fails contract validation: " ++ issues) ∷ [])
  on_bundle i xs (valid b) = on_indexed b i xs (index b.artifacts [])

  unfoldable pub on_observation :
      Option Raw → IndependentInputs → ArtifactObservation → VerificationResult
  on_observation claimed i (observation_failed why) = operational (record {
    source = text "artifact surface";
    detail =
        text "observation reported failed: "
        ++ (why ++ text " — not verified, and no contract decision is claimed");
  })
  on_observation none i (artifacts xs) = failed (text "evidence bundle is absent" ∷ [])
  on_observation (some raw) i (artifacts xs) = on_bundle i xs (bundle_schema raw)

  -- `none` is a bundle that is absent.
  unfoldable pub verify_evidence : Option Raw → IndependentInputs → VerificationResult
  verify_evidence claimed i = on_observation claimed i i.artifacts

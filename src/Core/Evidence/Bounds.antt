-- ===== src/Core/Evidence/Bounds.antt =====
-- evidence/construct.ts: what evidence of success rests on.
use secure_home_agent_platfo.Prelude.{
  ◌≡◌, refl, ℕ, Bool, true, false, some, List, [], ◌∷◌, if◌then◌else◌, Str, arith,
}
use secure_home_agent_platfo.Core.Decision.{
  Decision, proceed, refusal, ObservedDecision, decided, operational_failure,
}
use secure_home_agent_platfo.Core.Policy.{PathPolicy, Materializable, decide_materialization}
use secure_home_agent_platfo.Core.Policy
use secure_home_agent_platfo.Core.Eligibility.{CapturedIdentity}
use secure_home_agent_platfo.Core.Capture.{SchemaResult}
use secure_home_agent_platfo.Core.Verification.{
  Artifact, ArtifactObservation, artifacts, observation_failed,
}
use secure_home_agent_platfo.Core.Evidence.{
  Snapshot, absent, refused, held, Profile, EvidenceInputs, EvidenceDraft, terminal_success,
  on_bounds, on_artifacts, on_registry, on_policy, on_profile, prepare, validate,
  construct_evidence,
}

on_bounds-proceed :
    (m : Decision Materializable) (x : ObservedDecision EvidenceDraft) (d : EvidenceDraft)
    → on_bounds m x ≡ decided (proceed d)
    → (w : Materializable) × (m ≡ proceed w)
unfolding on_bounds
on_bounds-proceed (refusal r) x d h = absurd (ground arith)
on_bounds-proceed (proceed w) x d h = (w, refl)

-- All three sources of authority were captured, the artifacts were observed, and where the run
-- succeeded the policy allows the observed changes with the sources of all authority protected.
pub record IsGoverned {Registry : Type 0} (i : EvidenceInputs Registry) : Type 0 where
  pub source : Str
  pub digest : Str
  pub identity : CapturedIdentity
  pub document : Profile
  pub profile : i.profile ≡ held source digest identity document
  pub policy_source : Str
  pub policy_digest : Str
  pub policy_identity : CapturedIdentity
  pub policy : PathPolicy
  pub path_policy : i.path_policy ≡ held policy_source policy_digest policy_identity policy
  pub registry_source : Str
  pub registry_digest : Str
  pub registry_identity : CapturedIdentity
  pub registry : Registry
  pub gate_registry :
      i.gate_registry ≡ held registry_source registry_digest registry_identity registry
  pub surface : List Artifact
  pub artifacts_observed : i.artifacts ≡ artifacts surface
  pub bounded :
      terminal_success i.outcome.terminal_state ≡ true
      → (m : Materializable) × (decide_materialization
            (Policy.captured policy)
            (some i.observed)
            (source ∷ policy_source ∷ registry_source ∷ [])
          ≡ proceed m)

if-bounded :
    (b : Bool) (m : Decision Materializable) (x : ObservedDecision EvidenceDraft)
    (d : EvidenceDraft)
    → (if b then on_bounds m x else x) ≡ decided (proceed d)
    → b ≡ true
    → (w : Materializable) × (m ≡ proceed w)
if-bounded true m x d h e = on_bounds-proceed m x d h
if-bounded false m x d h e = absurd (ground arith)

module _ {Registry : Type 0} (digest_of : Str → Str) (byte_length : Str → ℕ) where
  artifacts-bounded :
      (i : EvidenceInputs Registry) (source d : Str) (p : Profile) (ps : Str)
      (policy : CapturedIdentity) (doc : PathPolicy) (rs : Str) (registry : CapturedIdentity)
      (o : ArtifactObservation) (b : EvidenceDraft)
      → on_artifacts digest_of byte_length i source d p ps policy doc rs registry o
        ≡ decided (proceed b)
      → (xs : List Artifact) × ((o ≡ artifacts xs)
          × (terminal_success i.outcome.terminal_state ≡ true
              → (m : Materializable) × (decide_materialization
                    (Policy.captured doc)
                    (some i.observed)
                    (source ∷ ps ∷ rs ∷ [])
                  ≡ proceed m)))
  unfolding on_artifacts
  artifacts-bounded i source d p ps policy doc rs registry (observation_failed why) b h =
      absurd (ground arith)
  artifacts-bounded i source d p ps policy doc rs registry (artifacts xs) b h =
      (xs, (refl, if-bounded (terminal_success i.outcome.terminal_state) _ _ b h))

  registry-IsGoverned :
      (i : EvidenceInputs Registry) (source d : Str) (identity : CapturedIdentity) (p : Profile)
      (ps e : Str) (policy : CapturedIdentity) (doc : PathPolicy) (g : Snapshot Registry)
      (b : EvidenceDraft)
      → i.profile ≡ held source d identity p
      → i.path_policy ≡ held ps e policy doc
      → i.gate_registry ≡ g
      → on_registry digest_of byte_length i source d p ps policy doc g ≡ decided (proceed b)
      → IsGoverned i
  unfolding on_registry
  registry-IsGoverned i source d identity p ps e policy doc absent b x y z h = absurd (ground arith)
  registry-IsGoverned i source d identity p ps e policy doc (refused r) b x y z h =
      absurd (ground arith)
  registry-IsGoverned i source d identity p ps e policy doc (held rs f ri reg) b x y z h =
      let (xs, (seen, bound)) =
        artifacts-bounded i source d p ps policy doc rs ri i.artifacts b h in
      record {
        source = source;
        digest = d;
        identity = identity;
        document = p;
        profile = x;
        policy_source = ps;
        policy_digest = e;
        policy_identity = policy;
        policy = doc;
        path_policy = y;
        registry_source = rs;
        registry_digest = f;
        registry_identity = ri;
        registry = reg;
        gate_registry = z;
        surface = xs;
        artifacts_observed = seen;
        bounded = bound;
      }

  policy-IsGoverned :
      (i : EvidenceInputs Registry) (source d : Str) (identity : CapturedIdentity) (p : Profile)
      (g : Snapshot PathPolicy) (b : EvidenceDraft)
      → i.profile ≡ held source d identity p
      → i.path_policy ≡ g
      → on_policy digest_of byte_length i source d p g ≡ decided (proceed b)
      → IsGoverned i
  unfolding on_policy
  policy-IsGoverned i source d identity p absent b x y h = absurd (ground arith)
  policy-IsGoverned i source d identity p (refused r) b x y h = absurd (ground arith)
  policy-IsGoverned i source d identity p (held ps e policy doc) b x y h =
      registry-IsGoverned i source d identity p ps e policy doc i.gate_registry b x y refl h

  profile-IsGoverned :
      (i : EvidenceInputs Registry) (g : Snapshot Profile) (b : EvidenceDraft)
      → i.profile ≡ g
      → on_profile digest_of byte_length i g ≡ decided (proceed b)
      → IsGoverned i
  unfolding on_profile
  profile-IsGoverned i absent b x h = absurd (ground arith)
  profile-IsGoverned i (refused r) b x h = absurd (ground arith)
  profile-IsGoverned i (held s d identity p) b x h =
      policy-IsGoverned i s d identity p i.path_policy b x refl h

validate-proceed :
    {Bundle : Type 0} (safe_parse : EvidenceDraft → SchemaResult Bundle)
    (x : ObservedDecision EvidenceDraft) (b : Bundle)
    → validate safe_parse x ≡ decided (proceed b)
    → (d : EvidenceDraft) × (x ≡ decided (proceed d))
unfolding validate
validate-proceed safe_parse (operational_failure f) b h = absurd (ground arith)
validate-proceed safe_parse (decided (refusal r)) b h = absurd (ground arith)
validate-proceed safe_parse (decided (proceed d)) b h = (d, refl)

-- Evidence is constructed only when the profile, the policy and the registry were captured and the
-- artifacts were observed; and evidence of a run that succeeded only when the captured policy allows
-- the observed changes to be written, with the sources of all three kinds of authority protected.
pub construct_evidence-IsGoverned :
    {Registry Bundle : Type 0} (digest_of : Str → Str) (byte_length : Str → ℕ)
    (safe_parse : EvidenceDraft → SchemaResult Bundle) (i : EvidenceInputs Registry) (b : Bundle)
    → construct_evidence digest_of byte_length safe_parse i ≡ decided (proceed b)
    → IsGoverned i
unfolding construct_evidence prepare
construct_evidence-IsGoverned digest_of byte_length safe_parse i b h =
    let (d, e) = validate-proceed safe_parse (on_profile digest_of byte_length i i.profile) b h in
    profile-IsGoverned digest_of byte_length i i.profile d refl e

-- ===== src/Core/Evidence/Sources.antt =====
-- evidence/construct.ts: where the parts of the evidence come from.
use secure_home_agent_platfo.Prelude.{◌≡◌, refl, ℕ, Bool, true, false, if◌then◌else◌, Str}
use secure_home_agent_platfo.Core.Decision.{
  Decision, proceed, refusal, ObservedDecision, decided, operational_failure,
}
use secure_home_agent_platfo.Core.Policy.{PathPolicy, Materializable}
use secure_home_agent_platfo.Core.Eligibility.{CapturedIdentity}
use secure_home_agent_platfo.Core.Reconciliation.{Reconciliation}
use secure_home_agent_platfo.Core.Verification.{ArtifactObservation, artifacts, observation_failed}
use secure_home_agent_platfo.Core.Evidence.{
  Snapshot, absent, refused, held, Profile, EvidenceInputs, EvidenceDraft, claims_of,
  terminal_success, Entries, entries, stopped, entries_of, draft, on_entries, on_bounds,
  on_artifacts, on_registry, on_policy, on_profile, prepare,
}

-- The same draft but for its claim fields; a refusal or a failure as it is.
abbrev pub with_claims :
    Reconciliation → ObservedDecision EvidenceDraft → ObservedDecision EvidenceDraft
with_claims r (decided (proceed d)) = decided (proceed (record d { claims = claims_of r }))
with_claims r (decided (refusal x)) = decided (refusal x)
with_claims r (operational_failure f) = operational_failure f

-- The inputs with other claims.
abbrev pub claiming :
    {Registry : Type 0} → EvidenceInputs Registry → Reconciliation → EvidenceInputs Registry
claiming i r = record i { reconciliation = r }

on_bounds-claiming :
    (r : Reconciliation) (m : Decision Materializable) (x y : ObservedDecision EvidenceDraft)
    → x ≡ with_claims r y
    → on_bounds m x ≡ with_claims r (on_bounds m y)
unfolding on_bounds
on_bounds-claiming r (refusal w) x y e = refl
on_bounds-claiming r (proceed m) x y e = e

if-claiming :
    (b : Bool) (r : Reconciliation) (x x' y y' : ObservedDecision EvidenceDraft)
    → x ≡ with_claims r x'
    → y ≡ with_claims r y'
    → (if b then x else y) ≡ with_claims r (if b then x' else y')
if-claiming true r x x' y y' e f = e
if-claiming false r x x' y y' e f = f

module _ {Registry : Type 0} (digest_of : Str → Str) (byte_length : Str → ℕ) where
  on_entries-claiming :
      (i : EvidenceInputs Registry) (r : Reconciliation) (d : Str) (p : Profile)
      (policy registry : CapturedIdentity) (es : Entries)
      → on_entries digest_of byte_length (claiming i r) d p policy registry es
        ≡ with_claims r (on_entries digest_of byte_length i d p policy registry es)
  unfolding on_entries draft
  on_entries-claiming i r d p policy registry (entries es) = refl
  on_entries-claiming i r d p policy registry (stopped path why) = refl

  on_artifacts-claiming :
      (i : EvidenceInputs Registry) (r : Reconciliation) (source d : Str) (p : Profile)
      (policy_source : Str) (policy : CapturedIdentity) (doc : PathPolicy) (registry_source : Str)
      (registry : CapturedIdentity) (o : ArtifactObservation)
      → on_artifacts digest_of byte_length
          (claiming i r)
          source
          d
          p
          policy_source
          policy
          doc
          registry_source
          registry
          o
        ≡ with_claims r (
            on_artifacts digest_of byte_length i source d p policy_source policy doc registry_source
              registry o)
  unfolding on_artifacts
  on_artifacts-claiming i r source d p ps policy doc rs registry (observation_failed why) = refl
  on_artifacts-claiming i r source d p ps policy doc rs registry (artifacts xs) =
      let e = on_entries-claiming i r d p policy registry (entries_of digest_of byte_length xs) in
      if-claiming (terminal_success i.outcome.terminal_state) r _ _ _ _
        (on_bounds-claiming r _ _ _ e) e

  registry-claiming :
      (i : EvidenceInputs Registry) (r : Reconciliation) (source d : Str) (p : Profile)
      (policy_source : Str) (policy : CapturedIdentity) (doc : PathPolicy) (g : Snapshot Registry)
      → on_registry digest_of byte_length (claiming i r) source d p policy_source policy doc g
        ≡ with_claims r (on_registry digest_of byte_length i source d p policy_source policy doc g)
  unfolding on_registry
  registry-claiming i r source d p ps policy doc absent = refl
  registry-claiming i r source d p ps policy doc (refused x) = refl
  registry-claiming i r source d p ps policy doc (held s e registry g) =
      on_artifacts-claiming i r source d p ps policy doc s registry i.artifacts

  policy-claiming :
      (i : EvidenceInputs Registry) (r : Reconciliation) (source d : Str) (p : Profile)
      (g : Snapshot PathPolicy)
      → on_policy digest_of byte_length (claiming i r) source d p g
        ≡ with_claims r (on_policy digest_of byte_length i source d p g)
  unfolding on_policy
  policy-claiming i r source d p absent = refl
  policy-claiming i r source d p (refused x) = refl
  policy-claiming i r source d p (held s e policy doc) =
      registry-claiming i r source d p s policy doc i.gate_registry

  profile-claiming :
      (i : EvidenceInputs Registry) (r : Reconciliation) (g : Snapshot Profile)
      → on_profile digest_of byte_length (claiming i r) g
        ≡ with_claims r (on_profile digest_of byte_length i g)
  unfolding on_profile
  profile-claiming i r absent = refl
  profile-claiming i r (refused x) = refl
  profile-claiming i r (held s d identity p) = policy-claiming i r s d p i.path_policy

  -- Claims reach only the claim fields of evidence: whatever the claims were reconciled to, the
  -- construction refuses, fails or goes on in the same way, with the same bundle but for what it says
  -- of claims.
  pub prepare-claiming :
      (i : EvidenceInputs Registry) (r : Reconciliation)
      → prepare digest_of byte_length (claiming i r)
        ≡ with_claims r (prepare digest_of byte_length i)
  unfolding prepare
  prepare-claiming i r = profile-claiming i r i.profile

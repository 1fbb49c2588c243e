-- ===== src/Core/Evidence.antt =====
-- packages/runner-core/src/evidence/construct.ts: the evidence of a run, built from authoritative
-- inputs. Parts of the bundle that are passed on as they are stand as their JSON texts. The digest, the
-- length of a text in UTF-8 and the schema of a bundle are parameters. The constant fields of a bundle
-- (its contract and version, which change set is authoritative) are not repeated in a draft.
pub mod Seal
pub mod Sources
pub mod Bounds
use secure_home_agent_platfo.Prelude.{
  ℕ, Bool, true, false, Option, none, some, List, [], ◌∷◌, ◌++◌, map, if◌then◌else◌, Str, text,
}
use secure_home_agent_platfo.Core.Decision.{
  Decision, proceed, refusal, ObservedDecision, decided, operational_failure, Refusal, refuse,
  missing_authority, path_undecidable, incomplete_evidence,
}
use secure_home_agent_platfo.Core.Paths.{NormalizedPath, normalized, undecided, normalize_path}
use secure_home_agent_platfo.Core.Canonical.{canonical_sort}
use secure_home_agent_platfo.Core.Workspace.{ChangeKind, ObservedChange, AuthoritativeChangeSet}
use secure_home_agent_platfo.Core.Policy.{PathPolicy, Materializable, decide_materialization}
use secure_home_agent_platfo.Core.Policy
use secure_home_agent_platfo.Core.Eligibility.{CapturedIdentity}
use secure_home_agent_platfo.Core.Reconciliation.{ClaimedChange, Disagreement, Reconciliation}
use secure_home_agent_platfo.Core.Capture.{SchemaResult, valid, invalid}
use secure_home_agent_platfo.Core.Verification.{
  Artifact, ArtifactObservation, artifacts, observation_failed,
}

-- A member of the snapshots: not there, refused, or captured.
pub data Snapshot (T : Type 0) : Type 0 where
  absent : Snapshot T
  refused : Refusal → Snapshot T
  held : Str → Str → CapturedIdentity → T → Snapshot T

pub data TerminalState : Type 0 where
  completed refused_state operational_failure_state cancelled timed_out indeterminate :
      TerminalState

-- `TERMINAL_SUCCESS`
abbrev pub terminal_success : TerminalState → Bool
terminal_success completed = true
terminal_success refused_state = false
terminal_success operational_failure_state = false
terminal_success cancelled = false
terminal_success timed_out = false
terminal_success indeterminate = false

pub record RunOutcome : Type 0 where
  pub terminal_state : TerminalState
  pub document : Str

-- What is read of a profile's document.
pub record Profile : Type 0 where
  pub name : Str
  pub version : Str
  pub capability : Str
  pub image_digest : Str
  pub model_route : Str

pub record RunIdentities : Type 0 where
  pub run_id : Str
  pub image_digest : Str
  pub argv_digest : Str
  pub runtime : Str
  pub provider : Str
  pub adapter : Str

pub record EvidenceInputs (Registry : Type 0) : Type 0 where
  pub profile : Snapshot Profile
  pub path_policy : Snapshot PathPolicy
  pub gate_registry : Snapshot Registry
  pub run : RunIdentities
  pub principal : Str
  pub operations : Str
  pub gate_results : Str
  pub artifacts : ArtifactObservation
  pub observed : AuthoritativeChangeSet
  pub reconciliation : Reconciliation
  pub outcome : RunOutcome
  pub timing : Str

pub record ArtifactEntry : Type 0 where
  pub path : Str
  pub digest : Str
  pub bytes : ℕ

-- What a bundle says of claims.
pub record ClaimFields : Type 0 where
  pub claimed : List ClaimedChange
  pub agreement : Bool
  pub disagreements : List Disagreement

pub record EvidenceDraft : Type 0 where
  pub run : RunIdentities
  pub profile_name : Str
  pub profile_version : Str
  pub profile_digest : Str
  pub path_policy : CapturedIdentity
  pub gate_registry : CapturedIdentity
  pub principal : Str
  pub granted_capabilities : Str
  pub operations : Str
  pub gate_results : Str
  pub artifacts : List ArtifactEntry
  pub observed : List ClaimedChange
  pub claims : ClaimFields
  pub outcome : RunOutcome
  pub timing : Str

abbrev pub claims_of : Reconciliation → ClaimFields
claims_of r = record {
  claimed = r.claimed;
  agreement = r.agreement;
  disagreements = r.disagreements;
}

missing : Str → ObservedDecision EvidenceDraft
missing element = decided (
    refusal (
      refuse missing_authority element (
        text "evidence construction requires the captured "
        ++ (element ++ text "; no partial bundle is returned"))))

-- The artifacts with their paths normalized, or the path that has no normal form and why.
pub data Entries : Type 0 where
  entries : List ArtifactEntry → Entries
  stopped : Str → Str → Entries

abbrev and_entry : ArtifactEntry → Entries → Entries
and_entry e (entries es) = entries (e ∷ es)
and_entry e (stopped path why) = stopped path why

abbrev entry_at : Str → Str → ℕ → NormalizedPath → Entries → Entries
entry_at path digest bytes (undecided why) rest = stopped path why
entry_at path digest bytes (normalized p) rest =
    and_entry (record { path = p; digest = digest; bytes = bytes }) rest

module _ (digest_of : Str → Str) (byte_length : Str → ℕ) where
  unfoldable pub entries_of : List Artifact → Entries
  entries_of [] = entries []
  entries_of (a ∷ xs) =
      let rest = entries_of xs in
      entry_at a.path (digest_of a.content) (byte_length a.content) (normalize_path a.path) rest

-- Evidence of success is not built over a change set that the policy refuses.
unfoldable pub on_bounds :
    Decision Materializable → ObservedDecision EvidenceDraft → ObservedDecision EvidenceDraft
on_bounds (refusal r) rest = decided (refusal r)
on_bounds (proceed m) rest = rest

module _ {Bundle : Type 0} (safe_parse : EvidenceDraft → SchemaResult Bundle) where
  unfoldable pub on_schema : SchemaResult Bundle → ObservedDecision Bundle
  on_schema (valid b) = decided (proceed b)
  on_schema (invalid issues) = decided (
      refusal (
        refuse incomplete_evidence (text "evidence-bundle") (
          text "constructed evidence fails its own contract: "
          ++ (issues ++ text " — no partial bundle is returned"))))

  unfoldable pub validate : ObservedDecision EvidenceDraft → ObservedDecision Bundle
  validate (operational_failure f) = operational_failure f
  validate (decided (refusal r)) = decided (refusal r)
  validate (decided (proceed d)) = on_schema (safe_parse d)

module _ {Registry : Type 0} (digest_of : Str → Str) (byte_length : Str → ℕ) where
  unfoldable pub draft :
      EvidenceInputs Registry
      → Str
      → Profile
      → CapturedIdentity
      → CapturedIdentity
      → List ArtifactEntry
      → EvidenceDraft
  draft i profile_digest profile policy registry es = record {
    run = i.run;
    profile_name = profile.name;
    profile_version = profile.version;
    profile_digest = profile_digest;
    path_policy = policy;
    gate_registry = registry;
    principal = i.principal;
    granted_capabilities = profile.capability;
    operations = i.operations;
    gate_results = i.gate_results;
    artifacts = canonical_sort (λ e. e.path) es;
    observed = map (λ c. record { path = c.path; kind = c.kind }) i.observed.changes;
    claims = claims_of i.reconciliation;
    outcome = i.outcome;
    timing = i.timing;
  }

  unfoldable pub on_entries :
      EvidenceInputs Registry
      → Str
      → Profile
      → CapturedIdentity
      → CapturedIdentity
      → Entries
      → ObservedDecision EvidenceDraft
  on_entries i d p policy registry (stopped path why) =
      decided (
        refusal (refuse path_undecidable path (text "artifact path cannot be normalized: " ++ why)))
  on_entries i d p policy registry (entries es) = decided (proceed (draft i d p policy registry es))

  unfoldable pub on_artifacts :
      EvidenceInputs Registry
      → Str
      → Str
      → Profile
      → Str
      → CapturedIdentity
      → PathPolicy
      → Str
      → CapturedIdentity
      → ArtifactObservation
      → ObservedDecision EvidenceDraft
  on_artifacts i source d p policy_source policy doc registry_source registry
        (observation_failed why) =
      operational_failure (record {
        source = text "artifact surface";
        detail =
            text "observation reported failed: "
            ++ (why ++ text " — evidence cannot claim an artifact set it could not observe");
      })
  on_artifacts i source d p policy_source policy doc registry_source registry (artifacts xs) =
      let rest = on_entries i d p policy registry (entries_of digest_of byte_length xs) in
      if terminal_success i.outcome.terminal_state
      then on_bounds
          (decide_materialization (Policy.captured doc) (some i.observed)
            (source ∷ policy_source ∷ registry_source ∷ []))
          rest
      else rest

  unfoldable pub on_registry :
      EvidenceInputs Registry
      → Str
      → Str
      → Profile
      → Str
      → CapturedIdentity
      → PathPolicy
      → Snapshot Registry
      → ObservedDecision EvidenceDraft
  unfolding missing
  on_registry i source d p policy_source policy doc absent = missing (text "gate-registry")
  on_registry i source d p policy_source policy doc (refused r) = decided (refusal r)
  on_registry i source d p policy_source policy doc (held s e registry g) =
      on_artifacts i source d p policy_source policy doc s registry i.artifacts

  unfoldable pub on_policy :
      EvidenceInputs Registry
      → Str
      → Str
      → Profile
      → Snapshot PathPolicy
      → ObservedDecision EvidenceDraft
  unfolding missing
  on_policy i source d p absent = missing (text "path-policy")
  on_policy i source d p (refused r) = decided (refusal r)
  on_policy i source d p (held s e policy doc) =
      on_registry i source d p s policy doc i.gate_registry

  unfoldable pub on_profile :
      EvidenceInputs Registry → Snapshot Profile → ObservedDecision EvidenceDraft
  unfolding missing
  on_profile i absent = missing (text "execution-profile")
  on_profile i (refused r) = decided (refusal r)
  on_profile i (held s d identity p) = on_policy i s d p i.path_policy

  -- The bundle before its own contract is applied to it.
  unfoldable pub prepare : EvidenceInputs Registry → ObservedDecision EvidenceDraft
  prepare i = on_profile i i.profile

  unfoldable pub construct_evidence :
      {Bundle : Type 0}
      → (EvidenceDraft → SchemaResult Bundle)
      → EvidenceInputs Registry
      → ObservedDecision Bundle
  construct_evidence safe_parse i = validate safe_parse (prepare i)

-- ===== src/Examples/Evidence.antt =====
-- packages/runner-core/src: the theorems on reconciliation, capture and verification at concrete inputs.
use secure_home_agent_platfo.Prelude.{
  ◌≡◌, ◌↔◌, ◌++◌, refl, true, false, Option, none, some, List, [], ◌∷◌, text, Str, Str-discrete,
  ℕ_discrete, ℕ, length, arith,
}
use secure_home_agent_platfo.Prelude.Maps
use secure_home_agent_platfo.Prelude.Maps.{Map}
use secure_home_agent_platfo.Core.Paths.{normalize_path}
use secure_home_agent_platfo.Core.Workspace.{
  ChangeKind, created, modified, deleted, ObservedChange, AuthoritativeChangeSet,
}
use secure_home_agent_platfo.Core.Reconciliation.{
  Reconciliation, ClaimedChange, present, RawClaim, object, string, array, reconcile_claims,
  parse_claims, parse_claim, with_kind, kind_of, kind_name, changes_of,
}
use secure_home_agent_platfo.Core.Reconciliation.Names.{observed_names, claimed_names, claimed_path}
use secure_home_agent_platfo.Core.Reconciliation.Agreement.{
  OneKind, Claims, SameChanges, reconcile_claims-agreement, agreement_of_two_kinds,
}
use secure_home_agent_platfo.Core.Eligibility.{CapturedIdentity}
use secure_home_agent_platfo.Core.Capture.{
  JsonResult, json, SchemaResult, valid, ExpectedContract, Stated, capture_authority, on_json,
  on_schema, or_none,
}
use secure_home_agent_platfo.Core.Verification.{
  artifacts, EvidenceBundle, IndependentInputs, verify_evidence, on_observation, on_bundle,
  on_indexed, on_checked, check_identities, check_capture, then_check, diverging, diverging_on,
  index, index_one, surface, on_path, compare_artifact, missing, verdict, decide_surface, has,
  failing, seeing,
}
use secure_home_agent_platfo.Core.Verification.Exact.{IsExact, verify_evidence-IsExact}
use secure_home_agent_platfo.Acquisition.{AuthorityBytes, acquired_bytes}
use secure_home_agent_platfo.Core.Decision.{proceed, decided}
use secure_home_agent_platfo.Core.Policy.{PathPolicy, decide_materialization}
use secure_home_agent_platfo.Core.Workspace.{normalize_changes}
use secure_home_agent_platfo.Core.Canonical.{canonical_sort, insert}
use secure_home_agent_platfo.Core.Evidence
use secure_home_agent_platfo.Core.Evidence.{
  completed, EvidenceInputs, EvidenceDraft, entries_of, draft, on_entries, on_bounds, on_artifacts,
  on_profile, prepare, validate, construct_evidence,
}
use secure_home_agent_platfo.Core.Evidence.Sources.{with_claims, claiming, prepare-claiming}
use secure_home_agent_platfo.Core.Evidence.Bounds.{IsGoverned, construct_evidence-IsGoverned}

abbrev change : Str → ChangeKind → ObservedChange
change path kind = record { path = path; kind = kind; bytes = 1; link_target = none }

abbrev observed : Option AuthoritativeChangeSet
observed = some (record { changes = change (text "a") modified ∷ [] })

abbrev claims : List RawClaim
claims = object (string (text "a")) (string (text "modified")) ∷ []

observed-OneKind : OneKind (changes_of observed)
unfolding changes_of
observed-OneKind p modified modified h k = refl
observed-OneKind p created l h k = absurd (ground arith)
observed-OneKind p deleted l h k = absurd (ground arith)
observed-OneKind p modified created h k = absurd (ground arith)
observed-OneKind p modified deleted h k = absurd (ground arith)

reconcile_claims-agreement_example :
    ((reconcile_claims observed (array claims)).agreement ≡ true)
    ↔ Claims (array claims) (changes_of observed)
reconcile_claims-agreement_example =
    reconcile_claims-agreement observed (array claims) observed-OneKind

abbrev x : ObservedChange
x = change (text "a") modified

abbrev y : ObservedChange
y = change (text "a") deleted

abbrev two_kinds : AuthoritativeChangeSet
two_kinds = record { changes = x ∷ y ∷ change (text "b") created ∷ [] }

abbrev two_claims : List RawClaim
two_claims = claims ++ object (string (text "b")) (string (text "created")) ∷ []

abbrev two_claimed : List ClaimedChange
two_claimed =
    record { path = text "a"; kind = modified } ∷ record { path = text "b"; kind = created } ∷ []

two_parsed : parse_claims two_claims ≡ some two_claimed
unfolding parse_claims parse_claim with_kind kind_of kind_name text Str-discrete ℕ_discrete
two_parsed = refl

two_seen :
    (p : Str) (k : ChangeKind)
    → claimed_names p k two_claimed ≡ true
    → observed_names p k two_kinds.changes ≡ true
two_seen p k h = ground arith

two_known :
    (p : Str) (k : ChangeKind)
    → observed_names p k two_kinds.changes ≡ true
    → claimed_path p two_claimed ≡ true
two_known p k h = ground arith

agreement_of_two_kinds_example :
    ((reconcile_claims (some two_kinds) (array two_claims)).agreement ≡ true)
    × ¬ SameChanges two_kinds.changes two_claimed
unfolding text Str-discrete ℕ_discrete
agreement_of_two_kinds_example =
    agreement_of_two_kinds two_kinds two_claims two_claimed (text "a") deleted two_parsed two_seen
      two_known refl refl

abbrev parse : Str → JsonResult Str
parse bytes = json bytes

-- A document names its contract by all its text.
abbrev contract_id_of : Str → Option Str
contract_id_of bytes = some bytes

abbrev digest_of : Str → Str
digest_of bytes = 35 ∷ bytes

abbrev stated : Stated Str
stated doc = (doc, text "1")

abbrev schema : Str → Str → SchemaResult Str
schema contract_id bytes = valid bytes

abbrev policy : ExpectedContract Str Str
policy = record { contract_id = text "p"; safe_parse = schema (text "p") }

abbrev policy_bytes : Option AuthorityBytes
policy_bytes = some (acquired_bytes (text "s") (text "p"))

abbrev policy_identity : CapturedIdentity
policy_identity = record { contract_id = text "p"; contract_version = text "1"; digest = text "#p" }

abbrev of_contract : Str → Option AuthorityBytes
of_contract name = some (acquired_bytes (text "s") name)

abbrev inputs : IndependentInputs
inputs = record {
  profile = of_contract (text "execution-profile");
  path_policy = of_contract (text "path-policy");
  gate_registry = of_contract (text "gate-registry");
  artifacts = artifacts ((record { path = text "a"; content = text "c" }) ∷ []);
}

abbrev contract : Str → Map Str
contract name =
    (text "contract_id", name)
    ∷ (text "contract_version", text "1")
    ∷ (text "digest", digest_of name)
    ∷ []

abbrev bundle : EvidenceBundle
bundle = record {
  profile =
      (text "name", text "n")
      ∷ (text "version", text "v")
      ∷ (text "digest", digest_of (text "execution-profile"))
      ∷ [];
  path_policy = contract (text "path-policy");
  gate_registry = contract (text "gate-registry");
  artifacts = (record { path = text "a"; digest = text "#c" }) ∷ [];
}

abbrev named : Str → Str × Str
named doc = (text "n", text "v")

abbrev bundle_schema : EvidenceBundle → SchemaResult EvidenceBundle
bundle_schema b = valid b

abbrev quote : Option Str → Str
quote o = []

verify_evidence-IsExact_example :
    IsExact parse contract_id_of digest_of stated named schema bundle_schema quote
      (some bundle)
      inputs
      ((record { path = text "a"; digest = text "#c" }) ∷ [])
unfolding verify_evidence on_observation on_bundle on_indexed on_checked check_identities
    check_capture then_check diverging diverging_on index index_one surface on_path compare_artifact
    missing verdict decide_surface has failing seeing capture_authority on_json on_schema or_none
    text Str-discrete ℕ_discrete Maps.get Maps.set normalize_path
verify_evidence-IsExact_example =
    verify_evidence-IsExact parse contract_id_of digest_of stated named schema bundle_schema quote
      (some bundle) inputs ((record { path = text "a"; digest = text "#c" }) ∷ []) refl

abbrev governing : Str → CapturedIdentity
governing name = record { contract_id = name; contract_version = text "1"; digest = text "#" }

abbrev path_rules : PathPolicy
path_rules = record {
  prohibited_rules = [];
  allowed_write_roots = [];
  max_files = 1;
  max_file_bytes = 1;
  max_total_bytes = 1;
}

abbrev reconciled_claims : Reconciliation
reconciled_claims = record { agreement = true; claims = present; claimed = []; disagreements = [] }

-- A run that succeeded and changed nothing.
abbrev construction : EvidenceInputs Str
construction = record {
  profile = Evidence.held (text "p") (text "#") (governing (text "execution-profile")) (record {
    name = text "n";
    version = text "v";
    capability = text "c";
    image_digest = text "i";
    model_route = text "p";
  });
  path_policy = Evidence.held (text "q") (text "#") (governing (text "path-policy")) path_rules;
  gate_registry = Evidence.held (text "r") (text "#") (governing (text "gate-registry")) (text "g");
  run = record {
    run_id = text "r";
    image_digest = text "i";
    argv_digest = text "a";
    runtime = text "t";
    provider = text "p";
    adapter = text "d";
  };
  principal = text "me";
  operations = text "[]";
  gate_results = text "[]";
  artifacts = artifacts ((record { path = text "a"; content = text "c" }) ∷ []);
  observed = record { changes = [] };
  reconciliation = reconciled_claims;
  outcome = record { terminal_state = completed; document = text "{}" };
  timing = text "{}";
}

abbrev byte_length : Str → ℕ
byte_length s = length s

abbrev accept : EvidenceDraft → SchemaResult EvidenceDraft
accept d = valid d

prepare-claiming_example :
    prepare digest_of byte_length
      (claiming construction (record reconciled_claims { agreement = false }))
    ≡ with_claims
        (record reconciled_claims { agreement = false })
        (prepare digest_of byte_length construction)
prepare-claiming_example =
    prepare-claiming digest_of byte_length construction
      (record reconciled_claims { agreement = false })

constructed :
    (b : EvidenceDraft) × (construct_evidence digest_of byte_length accept construction
      ≡ decided (proceed b))
unfolding construct_evidence prepare on_profile Evidence.on_policy Evidence.on_registry on_artifacts
    on_entries on_bounds entries_of draft validate Evidence.on_schema normalize_path text
    Str-discrete ℕ_discrete decide_materialization normalize_changes canonical_sort insert
constructed = (_, refl)

construct_evidence-IsGoverned_example : IsGoverned construction
construct_evidence-IsGoverned_example =
    construct_evidence-IsGoverned digest_of byte_length accept construction (constructed.0)
      (constructed.1)

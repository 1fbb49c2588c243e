-- ===== src/Core/Decision.antt =====
-- packages/runner-core/src/decision/decision.ts: the trusted-decision result algebra.
use secure_home_agent_platfo.Prelude.{Bool, true, false, Option, none, some, Str, text}

pub data RefusalCode : Type 0 where
  missing_authority invalid_authority contract_mismatch : RefusalCode
  undecidable undeclared_gate duplicate_gate base_identity_mismatch : RefusalCode
  path_outside_roots protected_path path_undecidable over_bound unrecognized_rule : RefusalCode
  claim_parse incomplete_evidence inconsistent_evidence seal_prerequisite : RefusalCode
  consumption_digest_mismatch : RefusalCode

abbrev pub code_name : RefusalCode → Str
code_name missing_authority = text "missing_authority"
code_name invalid_authority = text "invalid_authority"
code_name contract_mismatch = text "contract_mismatch"
code_name undecidable = text "undecidable"
code_name undeclared_gate = text "undeclared_gate"
code_name duplicate_gate = text "duplicate_gate"
code_name base_identity_mismatch = text "base_identity_mismatch"
code_name path_outside_roots = text "path_outside_roots"
code_name protected_path = text "protected_path"
code_name path_undecidable = text "path_undecidable"
code_name over_bound = text "over_bound"
code_name unrecognized_rule = text "unrecognized_rule"
code_name claim_parse = text "claim_parse"
code_name incomplete_evidence = text "incomplete_evidence"
code_name inconsistent_evidence = text "inconsistent_evidence"
code_name seal_prerequisite = text "seal_prerequisite"
code_name consumption_digest_mismatch = text "consumption_digest_mismatch"

pub record Violated : Type 0 where
  pub element : Str
  pub observed : Option Str

pub record Refusal : Type 0 where
  pub code : RefusalCode
  pub violated : Violated
  pub detail : Str

-- An environmental fault that the orchestrator reported; it carries no refusal code.
pub record OperationalFailure : Type 0 where
  pub source : Str
  pub detail : Str

pub data Decision {ℓ} (T : Type ℓ) : Type ℓ where
  proceed : T → Decision T
  refusal : Refusal → Decision T

pub data ObservedDecision {ℓ} (T : Type ℓ) : Type ℓ where
  decided : Decision T → ObservedDecision T
  operational_failure : OperationalFailure → ObservedDecision T

-- `refuse`, without and with an observed value.
abbrev pub refuse : RefusalCode → Str → Str → Refusal
refuse code element detail = record {
  code = code;
  violated = record { element = element; observed = none };
  detail = detail;
}

abbrev pub refuse_observed : RefusalCode → Str → Str → Str → Refusal
refuse_observed code element observed detail = record {
  code = code;
  violated = record { element = element; observed = some observed };
  detail = detail;
}

-- What an untyped caller reports as a refusal: `none` when its shape cannot be established.
unfoldable pub coerce_refusal : Option Refusal → Str → Refusal
coerce_refusal (some r) element = r
coerce_refusal none element =
    refuse undecidable element (text "a refusal was reported but its shape cannot be established")

abbrev pub is_proceed {ℓ} : {T : Type ℓ} → ObservedDecision T → Bool
is_proceed (decided (proceed t)) = true
is_proceed (decided (refusal r)) = false
is_proceed (operational_failure f) = false

abbrev pub is_refusal {ℓ} : {T : Type ℓ} → ObservedDecision T → Bool
is_refusal (decided (proceed t)) = false
is_refusal (decided (refusal r)) = true
is_refusal (operational_failure f) = false

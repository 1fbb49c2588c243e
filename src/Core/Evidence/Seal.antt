-- ===== src/Core/Evidence/Seal.antt =====
-- packages/runner-core/src/evidence: seal.ts, whether a bundle may be sealed, and classify.ts, how a
-- failure to establish evidence ends a run. Outcomes are compared by their JSON texts; the schema of a
-- bundle is a parameter.
use secure_home_agent_platfo.Prelude.{
  ◌≡◌, refl, false, Option, none, some, List, [], ◌∷◌, ◌++◌, ite, Str, Str-discrete, text, arith,
}
use secure_home_agent_platfo.Core.Decision.{
  Decision, proceed, refusal, Refusal, OperationalFailure, refuse, refuse_observed, code_name,
  seal_prerequisite, inconsistent_evidence,
}
use secure_home_agent_platfo.Core.Capture.{SchemaResult, valid, invalid}
use secure_home_agent_platfo.Core.Evidence.{
  RunOutcome, TerminalState, completed, refused_state, operational_failure_state, cancelled,
  timed_out, indeterminate, terminal_success,
}

abbrev pub terminal_name : TerminalState → Str
terminal_name completed = text "COMPLETED"
terminal_name refused_state = text "REFUSED"
terminal_name operational_failure_state = text "OPERATIONAL_FAILURE"
terminal_name cancelled = text "CANCELLED"
terminal_name timed_out = text "TIMED_OUT"
terminal_name indeterminate = text "INDETERMINATE"

pub record SealEligible (Bundle : Type 0) : Type 0 where
  pub prerequisites_checked : List Str
  pub bundle : Bundle

abbrev pub prerequisites : List Str
prerequisites = text "evidence_bundle" ∷ text "terminal_outcome" ∷ text "outcome_consistency" ∷ []

module _ {Raw Bundle : Type 0} (safe_parse : Raw → SchemaResult Bundle)
    (outcome_of : Bundle → RunOutcome) where
  unfoldable pub on_outcome : Bundle → Option RunOutcome → Decision (SealEligible Bundle)
  on_outcome b none = refusal (
      refuse seal_prerequisite (text "terminal_outcome")
        (text "the terminal outcome prerequisite is undecided"))
  on_outcome b (some outcome) =
      ite (Str-discrete (outcome_of b).document outcome.document)
        (proceed (record { prerequisites_checked = prerequisites; bundle = b }))
        (refusal (
          refuse_observed inconsistent_evidence (text "outcome_consistency")
            (terminal_name outcome.terminal_state)
            (text "the bundle records terminal state \""
              ++ (terminal_name (outcome_of b).terminal_state
                  ++ (text "\" but the run outcome is \""
                      ++ (terminal_name outcome.terminal_state ++ text "\" — irreconcilable"))))))

  unfoldable pub on_bundle :
      Option RunOutcome → SchemaResult Bundle → Decision (SealEligible Bundle)
  on_bundle outcome (invalid issues) = refusal (
      refuse seal_prerequisite (text "evidence_bundle") (
        text
          "the evidence bundle fails contract validation; an invalid bundle is never seal-eligible"))
  on_bundle outcome (valid b) = on_outcome b outcome

  unfoldable pub decide_seal_eligibility :
      Option Raw → Option RunOutcome → Decision (SealEligible Bundle)
  decide_seal_eligibility none outcome = refusal (
      refuse seal_prerequisite (text "evidence_bundle")
        (text "the evidence bundle prerequisite is undecided — nothing to seal"))
  decide_seal_eligibility (some raw) outcome = on_bundle outcome (safe_parse raw)

  -- The bundle is valid and states the outcome of the run.
  abbrev pub Sealable : Option RunOutcome → SchemaResult Bundle → SealEligible Bundle → Type 0
  Sealable outcome o e =
      (o ≡ valid e.bundle)
      × ((e.prerequisites_checked ≡ prerequisites)
          × ((run : RunOutcome) × ((outcome ≡ some run)
                × ((outcome_of e.bundle).document ≡ run.document))))

  on_bundle-Sealable :
      (outcome : Option RunOutcome) (o : SchemaResult Bundle) (e : SealEligible Bundle)
      → on_bundle outcome o ≡ proceed e
      → Sealable outcome o e
  unfolding on_bundle on_outcome
  on_bundle-Sealable outcome (invalid issues) e h = absurd (ground arith)
  on_bundle-Sealable none (valid b) e h = absurd (ground arith)
  on_bundle-Sealable (some run) (valid b) e h =
      let same : b ≡ e.bundle = ground arith in
      (ground arith, (ground arith, (run, (refl, ground arith))))

  -- A bundle may be sealed only if it is there and conforms to its contract, the run has an outcome,
  -- and the bundle states that very outcome.
  pub decide_seal_eligibility-Sealable :
      (raw : Option Raw) (outcome : Option RunOutcome) (e : SealEligible Bundle)
      → decide_seal_eligibility raw outcome ≡ proceed e
      → (r : Raw) × ((raw ≡ some r) × Sealable outcome (safe_parse r) e)
  unfolding decide_seal_eligibility
  decide_seal_eligibility-Sealable none outcome e h = absurd (ground arith)
  decide_seal_eligibility-Sealable (some r) outcome e h =
      (r, (refl, on_bundle-Sealable outcome (safe_parse r) e h))

-- The outcome of a run whose evidence could not be established, with the class and the detail.
pub data EvidenceFailure : Type 0 where
  refused_evidence : Refusal → EvidenceFailure
  faulted_evidence : OperationalFailure → EvidenceFailure

pub record FailureOutcome : Type 0 where
  pub terminal_state : TerminalState
  pub class : Option Str
  pub detail : Str

unfoldable pub classify_evidence_failure : EvidenceFailure → FailureOutcome
classify_evidence_failure (refused_evidence r) = record {
  terminal_state = refused_state;
  class = some (text "contract_refusal");
  detail = code_name r.code ++ (text ": " ++ (r.violated.element ++ (text " — " ++ r.detail)));
}
classify_evidence_failure (faulted_evidence f) = record {
  terminal_state = operational_failure_state;
  class = some (text "operational");
  detail = f.source ++ (text ": " ++ f.detail);
}

unfoldable pub indeterminate_outcome : Str → FailureOutcome
indeterminate_outcome detail = record {
  terminal_state = indeterminate;
  class = none;
  detail = detail;
}

-- No failure to establish evidence ends a run in success.
not_success-classify_evidence_failure :
    (f : EvidenceFailure) → terminal_success (classify_evidence_failure f).terminal_state ≡ false
unfolding classify_evidence_failure
not_success-classify_evidence_failure (refused_evidence r) = refl
not_success-classify_evidence_failure (faulted_evidence f) = refl

-- ===== src/Orchestration/Ledger.antt =====
-- services/runner-control/src/finalization/index.ts, `FinalizationLedger`: the writes of one run, and
-- whether it may seal. The schema of a bundle, and the outcome that a bundle states, are parameters.
use secure_home_agent_platfo.Prelude.{
  ◌≡◌, refl, ℕ, ◌+◌, ◌-◌, Bool, true, false, Option, List, [], ◌∷◌, ◌++◌, ltb, if◌then◌else◌, Str,
  text, decimal, arith,
}
use secure_home_agent_platfo.Core.Decision.{Decision, proceed, refusal, code_name}
use secure_home_agent_platfo.Core.Capture.{SchemaResult}
use secure_home_agent_platfo.Core.Evidence.{RunOutcome}
use secure_home_agent_platfo.Core.Evidence.Seal.{
  SealEligible, Sealable, decide_seal_eligibility, decide_seal_eligibility-Sealable,
}

-- The kinds of write that can be declared pending, and the seal.
pub data PendingKind : Type 0 where
  event artifact transition : PendingKind

pub data WriteKind : Type 0 where
  pending : PendingKind → WriteKind
  seal : WriteKind

pub record WriteEntry : Type 0 where
  pub run_id : Str
  pub kind : WriteKind
  pub label : Str

pub record FinalizationLedger : Type 0 where
  pub run_id : Str
  pub sequence : List WriteEntry
  pub outstanding : ℕ
  pub sealed : Bool

pub data SealRefusal : Type 0 where
  outstanding_writes not_eligible already_sealed : SealRefusal

pub data SealPreparation (Bundle : Type 0) : Type 0 where
  prepared : Bundle → SealPreparation Bundle
  not_prepared : SealRefusal → Str → SealPreparation Bundle

unfoldable pub new : Str → FinalizationLedger
new run_id = record { run_id = run_id; sequence = []; outstanding = 0; sealed = false }

unfoldable pub open_write : PendingKind → Str → FinalizationLedger → FinalizationLedger
open_write kind label l = record l {
  outstanding = l.outstanding + 1;
  sequence = l.sequence ++ record { run_id = l.run_id; kind = pending kind; label = label } ∷ [];
}

-- `- 1` leaves none outstanding where none is.
unfoldable pub close_write : FinalizationLedger → FinalizationLedger
close_write l = record l { outstanding = l.outstanding - 1 }

unfoldable pub mark_sealed : FinalizationLedger → FinalizationLedger
mark_sealed l = record l {
  sealed = true;
  sequence =
      l.sequence ++ record { run_id = l.run_id; kind = seal; label = text "evidence_bundle" } ∷ [];
}

admitted :
    {Bundle : Type 0} (p q : Bool) (r s : SealRefusal) (d e : Str) (z : SealPreparation Bundle)
    (b : Bundle)
    → (if p then not_prepared r d else if q then not_prepared s e else z) ≡ prepared b
    → (p ≡ false) × (q ≡ false) × (z ≡ prepared b)
admitted true q r s d e z b h = absurd (ground arith)
admitted false true r s d e z b h = absurd (ground arith)
admitted false false r s d e z b h = (refl, refl, h)

module _ {Raw Bundle : Type 0} (safe_parse : Raw → SchemaResult Bundle)
    (outcome_of : Bundle → RunOutcome) where
  abbrev on_eligibility : Decision (SealEligible Bundle) → SealPreparation Bundle
  on_eligibility (proceed e) = prepared e.bundle
  on_eligibility (refusal r) =
      not_prepared not_eligible (code_name r.code ++ (text ": " ++ r.detail))

  unfoldable pub prepare_seal :
      Option Raw → Option RunOutcome → FinalizationLedger → SealPreparation Bundle
  prepare_seal bundle outcome l =
      if l.sealed
      then not_prepared already_sealed
          (text "run " ++ (l.run_id ++ text " is already sealed; a second seal is never written"))
      else if ltb 0 l.outstanding
      then not_prepared outstanding_writes (
          decimal l.outstanding
          ++ (text " write(s) of run "
              ++ (l.run_id ++ text " are still outstanding; the seal is not the final write")))
      else on_eligibility (decide_seal_eligibility safe_parse outcome_of bundle outcome)

  -- The core finds the bundle eligible.
  abbrev pub SealedBy : Option Raw → Option RunOutcome → Bundle → Type 0
  SealedBy bundle outcome b =
      (e : SealEligible Bundle) × ((e.bundle ≡ b)
        × ((r : Raw) × ((bundle ≡ Option.some r)
              × Sealable safe_parse outcome_of outcome (safe_parse r) e)))

  on_eligibility-Sealable :
      (bundle : Option Raw) (outcome : Option RunOutcome) (d : Decision (SealEligible Bundle))
      (b : Bundle)
      → decide_seal_eligibility safe_parse outcome_of bundle outcome ≡ d
      → on_eligibility d ≡ prepared b
      → SealedBy bundle outcome b
  on_eligibility-Sealable bundle outcome (proceed e) b d h =
      let (r, (given, s)) =
        decide_seal_eligibility-Sealable safe_parse outcome_of bundle outcome e d in
      (e, (ground arith, (r, (given, s))))
  on_eligibility-Sealable bundle outcome (refusal x) b d h = absurd (ground arith)

  -- A ledger lets a run seal only where it has not sealed before and none of its writes is
  -- outstanding, and only a bundle that is there, conforms to its contract and states the very outcome
  -- of the run.
  pub prepare_seal-Sealable :
      (bundle : Option Raw) (outcome : Option RunOutcome) (l : FinalizationLedger) (b : Bundle)
      → prepare_seal bundle outcome l ≡ prepared b
      → (l.sealed ≡ false) × (l.outstanding ≡ 0) × SealedBy bundle outcome b
  unfolding prepare_seal
  prepare_seal-Sealable bundle outcome l b h =
      let (unsealed, settled, eligible) = admitted l.sealed (ltb 0 l.outstanding) _ _ _ _ _ b h in
      (unsealed, ground arith, on_eligibility-Sealable bundle outcome _ b refl eligible)

-- What orchestration does with a ledger: it opens and closes writes, and it prepares a seal that it
-- marks when the commit which follows was acknowledged.
pub data Call (Raw : Type 0) : Type 0 where
  opens : PendingKind → Str → Call Raw
  closes : Call Raw
  seals : Option Raw → Option RunOutcome → Bool → Call Raw

abbrev pub marked :
    {Bundle : Type 0} → Bool → SealPreparation Bundle → FinalizationLedger → FinalizationLedger
marked true (prepared b) l = mark_sealed l
marked true (not_prepared r why) l = l
marked false p l = l

-- How many seals the sequence holds.
abbrev pub seals_of : List WriteEntry → ℕ
seals_of [] = 0
seals_of (e ∷ es) = counted e.kind + seals_of es
  where
    counted : WriteKind → ℕ
    counted (pending k) = 0
    counted seal = 1

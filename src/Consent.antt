-- ===== src/Consent.antt =====
-- services/runner-control/src/consent/index.ts: the gate on spending.
use secure_home_agent_platfo.Prelude.{
  ◌≡◌, ◌↔◌, Bool, true, Option, none, some, ◌++◌, ite, if◌then◌else◌, Str, Str-discrete, text,
  arith,
}

pub record ConsentRecord : Type 0 where
  pub run_id : Str
  pub granted : Bool
  pub by : Str
  pub recorded_at : Str

pub data Held : Type 0 where
  consent_absent consent_withheld consent_for_another_run : Held

pub data SpendGate : Type 0 where
  ok : SpendGate
  not_ok : Held → Str → SpendGate

unfoldable pub decide_spend_gate : Str → Option ConsentRecord → SpendGate
decide_spend_gate run_id none =
    not_ok consent_absent
      (text "no consent record for this run; the run holds at ELIGIBLE without spending")
decide_spend_gate run_id (some consent) =
    ite (Str-discrete consent.run_id run_id)
      (if consent.granted
        then ok
        else not_ok consent_withheld (
            text "consent was recorded by "
            ++ (consent.by ++ text " and withheld; the run holds at ELIGIBLE")))
      (not_ok consent_for_another_run (
        text "the consent record was granted for run "
        ++ (consent.run_id
            ++ (text ", not " ++ (run_id ++ text "; consent is not transferable between runs")))))

-- A consent record that permits spending on the run.
abbrev pub Permits : Str → Option ConsentRecord → Type 0
Permits run_id none = ⊥
Permits run_id (some consent) = (consent.run_id ≡ run_id) × (consent.granted ≡ true)

-- Spending is let through exactly when there is a record, it was granted, and it is the run's own.
pub decide_spend_gate-Permits :
    (run_id : Str) (consent : Option ConsentRecord)
    → (decide_spend_gate run_id consent ≡ ok) ↔ Permits run_id consent
unfolding decide_spend_gate
decide_spend_gate-Permits run_id none = ground arith
decide_spend_gate-Permits run_id (some consent) = ground arith

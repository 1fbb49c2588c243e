-- ===== src/Scheduling/Plan.antt =====
-- services/runner-control/src/scheduling/plan.ts: the plan is read from the captured registry. A
-- gate's specification is opaque to it.
use secure_home_agent_platfo.Prelude.{
  ◌≡◌, refl, ap, subst, inl, inr, Option, none, some, List, [], ◌∷◌, map, Str, arith, All,
  Option-cases,
}
use secure_home_agent_platfo.Prelude.Maps.{Map}
use secure_home_agent_platfo.Prelude.Objects.{Property, property}

pub record PlannedGate (Spec : Type 0) : Type 0 where
  pub gate_id : Str
  pub spec : Property Spec

pub data PlanResult (Spec : Type 0) : Type 0 where
  planned : List (PlannedGate Spec) → PlanResult Spec
  unknown_gates : List Str → PlanResult Spec

abbrev Collected : Type 0 → Type 0
Collected Spec = List (PlannedGate Spec) × List Str

abbrev collect_one :
    {Spec : Type 0} → Str → Option (Property Spec) → Collected Spec → Collected Spec
collect_one id none (plan, unknown) = (plan, id ∷ unknown)
collect_one id (some spec) (plan, unknown) = (record { gate_id = id; spec = spec } ∷ plan, unknown)

-- What the loop has collected: the plan, and the identities that the registry does not know.
abbrev collect : {Spec : Type 0} → Map Spec → List Str → Collected Spec
collect gates [] = ([], [])
collect gates (id ∷ ids) = collect_one id (property id gates) (collect gates ids)

abbrev result_of : {Spec : Type 0} → Collected Spec → PlanResult Spec
result_of (plan, []) = planned plan
result_of (plan, id ∷ ids) = unknown_gates (id ∷ ids)

unfoldable pub build_plan : {Spec : Type 0} → Map Spec → List Str → PlanResult Spec
build_plan gates requested = result_of (collect gates requested)

-- What a planned gate is to be: the identity asked for, with what the registry holds under it.
abbrev pub MatchesRegistry : {Spec : Type 0} → Map Spec → PlannedGate Spec → Type 0
MatchesRegistry gates g = property g.gate_id gates ≡ some g.spec

planned_of :
    {Spec : Type 0} (c : Collected Spec) (plan : List (PlannedGate Spec))
    → result_of c ≡ planned plan
    → (c.1 ≡ []) × (c.0 ≡ plan)
planned_of (p, []) plan h = (refl, ground arith)
planned_of (p, id ∷ ids) plan h = absurd (ground arith)

module _ {Spec : Type 0} (gates : Map Spec) where
  collect-planned :
      (requested : List Str)
      → (collect gates requested).1 ≡ []
      → (map (λ g. g.gate_id) (collect gates requested).0 ≡ requested)
        × All (MatchesRegistry gates) (collect gates requested).0
  collect-planned [] h = (refl, tt)
  collect-planned (id ∷ ids) h = elim (Option-cases (property id gates)) [
    | inl e ↦
        let bad : id ∷ (collect gates ids).1 ≡ [] =
          subst (λ o. (collect_one id o (collect gates ids)).1 ≡ []) e h in
        absurd (ground arith)
    | inr (spec, e) ↦
        let (same, matches) =
          collect-planned ids (subst (λ o. (collect_one id o (collect gates ids)).1 ≡ []) e h) in
        rw e (ap (◌∷◌ id) same, (e, matches))
  ]

  -- A plan has the requested identities, in the order of the request, and each carries exactly what the
  -- registry object gives for it.
  pub build_plan-MatchesRegistry :
      (requested : List Str) (plan : List (PlannedGate Spec))
      → build_plan gates requested ≡ planned plan
      → (map (λ g. g.gate_id) plan ≡ requested) × All (MatchesRegistry gates) plan
  unfolding build_plan
  build_plan-MatchesRegistry requested plan h =
      let (none_unknown, same) = planned_of (collect gates requested) plan h in
      subst (λ p. (map (λ g. g.gate_id) p ≡ requested) × All (MatchesRegistry gates) p) same
        (collect-planned requested none_unknown)

-- ===== src/Core/Eligibility.antt =====
-- packages/runner-core/src/eligibility/decide.ts, with the gate identities of
-- packages/contracts/src/primitives/gate-id.ts: whether a run may start, decided from its captured
-- authority. The registry's gates are an object, read with `in`. A snapshot arrives untyped: the data
-- type lists the shapes that the source tells apart.
use secure_home_agent_platfo.Prelude.{
  ℕ, ◌≡◌, refl, ◌⊎◌, inl, inr, ◌||◌, ◌&&◌, Bool, true, false, Option, none, some, List, [], ◌∷◌,
  if◌then◌else◌, Str, text, arith, leb, ◌==◌, all, All, length, Option-cases,
}
use secure_home_agent_platfo.Prelude.Maps
use secure_home_agent_platfo.Prelude.Maps.{Map}
use secure_home_agent_platfo.Prelude.Objects.{Property, property, is_inherited, one_of}
use secure_home_agent_platfo.Core.Decision.{
  Decision, proceed, refusal, Refusal, refuse, coerce_refusal, missing_authority, undecidable,
  undeclared_gate, duplicate_gate,
}
use secure_home_agent_platfo.Core.Canonical.{canonical_sort}

pub record CapturedIdentity : Type 0 where
  pub contract_id : Str
  pub contract_version : Str
  pub digest : Str

-- A member of the snapshot set: not there; a reported refusal, of an established shape or not; a
-- value of no established shape; captured, with the document.
pub data Snapshot (T : Type 0) : Type 0 where
  absent : Snapshot T
  refused : Option Refusal → Snapshot T
  shapeless : Snapshot T
  captured : CapturedIdentity → T → Snapshot T

-- `/^[a-z][a-z0-9_-]{0,63}$/`
abbrev is_lower : ℕ → Bool
is_lower c = leb 97 c && leb c 122

abbrev is_gate_char : ℕ → Bool
is_gate_char c = is_lower c || ((leb 48 c && leb c 57) || ((c == 95) || (c == 45)))

unfoldable pub is_gate_id : Str → Bool
is_gate_id [] = false
is_gate_id (c ∷ s) = is_lower c && (all is_gate_char s && leb (length s) 63)

pub record Eligible : Type 0 where
  pub profile : CapturedIdentity
  pub path_policy : CapturedIdentity
  pub gate_registry : Option CapturedIdentity
  pub gates : List Str

-- The requested gates are checked one by one against those already seen.
unfoldable pub check_gates : List Str → List Str → Option Refusal
unfolding is_gate_id one_of
check_gates seen [] = none
check_gates seen (g ∷ gs) =
    let rest = check_gates (g ∷ seen) gs in
    if is_gate_id g
    then if one_of g seen
      then some (refuse duplicate_gate g (text "requested gate identity appears more than once"))
      else rest
    else some (refuse undeclared_gate g (text "requested gate identity is not a valid gate id"))

conclude :
    CapturedIdentity
    → CapturedIdentity
    → Option CapturedIdentity
    → List Str
    → Option Refusal
    → Decision Eligible
conclude profile policy registry gates (some r) = refusal r
conclude profile policy registry gates none = proceed (record {
  profile = profile;
  path_policy = policy;
  gate_registry = registry;
  gates = canonical_sort (λ g. g) gates;
})

module _ {Spec : Type 0} where
  undeclared_in : Option (Property Spec) → Str → Option Refusal → Option Refusal
  undeclared_in (some p) g rest = rest
  undeclared_in none g rest = some (
      refuse undeclared_gate g
        (text "requested gate identity is absent from the captured registry"))

  -- `gate in gate_registry.value.gates`
  unfoldable pub check_declared : Map Spec → List Str → Option Refusal
  unfolding undeclared_in
  check_declared gates [] = none
  check_declared gates (g ∷ gs) = undeclared_in (property g gates) g (check_declared gates gs)

  on_registry :
      CapturedIdentity → CapturedIdentity → List Str → Snapshot (Map Spec) → Decision Eligible
  unfolding check_declared conclude
  on_registry profile policy [] registry = conclude profile policy none [] none
  on_registry profile policy (g ∷ gs) absent = refusal (
      refuse missing_authority (text "gate-registry")
        (text "gates were requested but no gate registry is in the snapshot set"))
  on_registry profile policy (g ∷ gs) (refused r) =
      refusal (coerce_refusal r (text "gate-registry"))
  on_registry profile policy (g ∷ gs) shapeless = refusal (
      refuse undecidable (text "gate-registry")
        (text "gate-registry snapshot state cannot be established"))
  on_registry profile policy (g ∷ gs) (captured id gates) =
      conclude profile policy (some id) (g ∷ gs) (check_declared gates (g ∷ gs))

  on_gates :
      CapturedIdentity
      → CapturedIdentity
      → List Str
      → Snapshot (Map Spec)
      → Option Refusal
      → Decision Eligible
  unfolding on_registry
  on_gates profile policy requested registry (some r) = refusal r
  on_gates profile policy requested registry none = on_registry profile policy requested registry

  on_policy :
      CapturedIdentity
      → {Policy : Type 0} → Snapshot Policy
      → List Str
      → Snapshot (Map Spec)
      → Decision Eligible
  unfolding check_gates on_gates
  on_policy profile absent requested registry = refusal (
      refuse missing_authority (text "path-policy")
        (text "no path policy in the snapshot set — the policy is required authority"))
  on_policy profile (refused r) requested registry = refusal (coerce_refusal r (text "path-policy"))
  on_policy profile shapeless requested registry = refusal (
      refuse undecidable (text "path-policy")
        (text "path-policy snapshot state cannot be established"))
  on_policy profile (captured policy doc) requested registry =
      on_gates profile policy requested registry (check_gates [] requested)

  unfoldable pub decide_eligibility :
      {Profile Policy : Type 0}
      → Snapshot Profile
      → Snapshot Policy
      → Snapshot (Map Spec)
      → List Str
      → Decision Eligible
  unfolding on_policy
  decide_eligibility absent policy registry requested = refusal (
      refuse missing_authority (text "execution-profile")
        (text "no execution profile in the snapshot set"))
  decide_eligibility (refused r) policy registry requested =
      refusal (coerce_refusal r (text "execution-profile"))
  decide_eligibility shapeless policy registry requested = refusal (
      refuse undecidable (text "execution-profile")
        (text "profile snapshot state cannot be established"))
  decide_eligibility (captured profile doc) policy registry requested =
      on_policy profile policy requested registry

-- The registry declares the gate, or every object inherits a property of that name.
abbrev pub IsKnown : {Spec : Type 0} → Map Spec → Str → Type 0
IsKnown {Spec} gates g = ((spec : Spec) × (Maps.get g gates ≡ some spec)) ⊎ (is_inherited g ≡ true)

-- Each gate has the form of an identity and is not among those before it.
abbrev pub AreDistinctGates : List Str → List Str → Type 0
AreDistinctGates seen [] = Unit
AreDistinctGates seen (g ∷ gs) =
    (is_gate_id g ≡ true) × ((one_of g seen ≡ false) × AreDistinctGates (g ∷ seen) gs)

check_gates_inv : (seen gs : List Str) → check_gates seen gs ≡ none → AreDistinctGates seen gs
unfolding check_gates
check_gates_inv seen [] h = tt
check_gates_inv seen (g ∷ gs) h =
    (ground arith, (ground arith, check_gates_inv (g ∷ seen) gs (ground arith)))

property-IsKnown :
    {Spec : Type 0} (gates : Map Spec) (g : Str) (p : Property Spec)
    → property g gates ≡ some p
    → IsKnown gates g
unfolding property
property-IsKnown gates g p h = elim (Option-cases (Maps.get g gates)) [
  | inl e ↦ inr (ground arith)
  | inr (spec, e) ↦ inl (spec, e)
]

check_declared_inv :
    {Spec : Type 0} (gates : Map Spec) (gs : List Str)
    → check_declared gates gs ≡ none
    → All (IsKnown gates) gs
unfolding check_declared undeclared_in
check_declared_inv gates [] h = tt
check_declared_inv gates (g ∷ gs) h = elim (Option-cases (property g gates)) [
  | inl e ↦ absurd (ground arith)
  | inr (p, e) ↦ (property-IsKnown gates g p e, check_declared_inv gates gs (ground arith))
]

conclude_inv :
    (profile policy : CapturedIdentity) (registry : Option CapturedIdentity) (gates : List Str)
    (o : Option Refusal) (v : Eligible)
    → conclude profile policy registry gates o ≡ proceed v
    → (o ≡ none) × ((v.gate_registry ≡ registry) × (v.gates ≡ canonical_sort (λ g. g) gates))
unfolding conclude
conclude_inv profile policy registry gates none v h = (refl, (ground arith, ground arith))
conclude_inv profile policy registry gates (some r) v h = absurd (ground arith)

-- The registry that was needed, if any gate was requested, was captured and knows every gate.
abbrev pub IsBacked : {Spec : Type 0} → Snapshot (Map Spec) → List Str → Type 0
IsBacked registry [] = Unit
IsBacked (captured id gates) (g ∷ gs) = All (IsKnown gates) (g ∷ gs)
IsBacked absent (g ∷ gs) = ⊥
IsBacked (refused r) (g ∷ gs) = ⊥
IsBacked shapeless (g ∷ gs) = ⊥

abbrev pub is_captured : {T : Type 0} → Snapshot T → Bool
is_captured absent = false
is_captured (refused r) = false
is_captured shapeless = false
is_captured (captured id doc) = true

on_registry_inv :
    {Spec : Type 0} (profile policy : CapturedIdentity) (gs : List Str)
    (registry : Snapshot (Map Spec)) (v : Eligible)
    → on_registry profile policy gs registry ≡ proceed v
    → IsBacked registry gs × (v.gates ≡ canonical_sort (λ g. g) gs)
unfolding on_registry
on_registry_inv profile policy [] registry v h =
    (tt, (conclude_inv profile policy none [] none v h).1.1)
on_registry_inv profile policy (g ∷ gs) absent v h = absurd (ground arith)
on_registry_inv profile policy (g ∷ gs) (refused r) v h = absurd (ground arith)
on_registry_inv profile policy (g ∷ gs) shapeless v h = absurd (ground arith)
on_registry_inv profile policy (g ∷ gs) (captured id gates) v h =
    let (o, (r, same)) =
      conclude_inv profile policy (some id) (g ∷ gs) (check_declared gates (g ∷ gs)) v h in
    (check_declared_inv gates (g ∷ gs) o, same)

on_gates_inv :
    {Spec : Type 0} (profile policy : CapturedIdentity) (gs : List Str)
    (registry : Snapshot (Map Spec)) (o : Option Refusal) (v : Eligible)
    → on_gates profile policy gs registry o ≡ proceed v
    → (o ≡ none) × (IsBacked registry gs × (v.gates ≡ canonical_sort (λ g. g) gs))
unfolding on_gates
on_gates_inv profile policy gs registry none v h =
    (refl, on_registry_inv profile policy gs registry v h)
on_gates_inv profile policy gs registry (some r) v h = absurd (ground arith)

-- A run is eligible only if its profile and its path policy were captured, each requested gate has
-- the form of an identity and is requested once, and, when any gate is requested, a registry was
-- captured that declares every one of them, or else the gate bears a name that every object inherits;
-- the gates of the decision are then the requested ones in canonical order.
pub decide_eligibility-IsBacked :
    {Spec Profile Policy : Type 0} (profile : Snapshot Profile) (policy : Snapshot Policy)
    (registry : Snapshot (Map Spec)) (requested : List Str) (v : Eligible)
    → decide_eligibility profile policy registry requested ≡ proceed v
    → (is_captured profile ≡ true)
      × ((is_captured policy ≡ true)
          × (AreDistinctGates [] requested
              × (IsBacked registry requested × (v.gates ≡ canonical_sort (λ g. g) requested))))
unfolding decide_eligibility on_policy
decide_eligibility-IsBacked absent policy registry gs v h = absurd (ground arith)
decide_eligibility-IsBacked (refused r) policy registry gs v h = absurd (ground arith)
decide_eligibility-IsBacked shapeless policy registry gs v h = absurd (ground arith)
decide_eligibility-IsBacked (captured p d) absent registry gs v h = absurd (ground arith)
decide_eligibility-IsBacked (captured p d) (refused r) registry gs v h = absurd (ground arith)
decide_eligibility-IsBacked (captured p d) shapeless registry gs v h = absurd (ground arith)
decide_eligibility-IsBacked (captured p d) (captured q e) registry gs v h =
    let (o, rest) = on_gates_inv p q gs registry (check_gates [] gs) v h in
    (refl, (refl, (check_gates_inv [] gs o, rest)))

-- A run that asks for one gate, under a name that has the form of a gate identity and that every object
-- inherits, such as `constructor`, is eligible under any captured profile, policy and registry: also
-- under a registry that declares no such gate.
pub decide_eligibility-inherited :
    {Spec Profile Policy : Type 0} (p q id : CapturedIdentity) (profile : Profile) (policy : Policy)
    (gates : Map Spec) (name : Str)
    → is_gate_id name ≡ true
    → is_inherited name ≡ true
    → decide_eligibility (captured p profile) (captured q policy) (captured id gates) (name ∷ [])
      ≡ proceed
          (record { profile = p; path_policy = q; gate_registry = some id; gates = name ∷ [] })
unfolding decide_eligibility on_policy on_gates on_registry check_declared check_gates property
    conclude canonical_sort one_of
decide_eligibility-inherited p q id profile policy gates name h i =
    elim (Option-cases (Maps.get name gates)) [
      | inl e ↦ rw (h, e, i) refl
      | inr (spec, e) ↦ rw (h, e) refl
    ]

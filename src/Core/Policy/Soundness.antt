-- ===== src/Core/Policy/Soundness.antt =====
-- packages/runner-core/src/policy/materialize.ts: which change sets are let through.
use secure_home_agent_platfo.Prelude.{
  ℕ, ◌≡◌, refl, ap, ◌≤◌, ◌↔◌, Bool, true, false, Option, none, some, List, [], ◌∷◌, ◌++◌, map,
  length, Str, Str-discrete, text, All, All-map, arith, subst, sym,
}
use secure_home_agent_platfo.Prelude.Maps
use secure_home_agent_platfo.Prelude.Maps.{Map}
use secure_home_agent_platfo.Core.Policy.Places.{
  HasPlace, Placed, place_at, or_else, effective_paths-places, effective_paths-effective,
  All-Placed, effective_of-place,
}
use secure_home_agent_platfo.Core.Decision.{proceed, Refusal}
use secure_home_agent_platfo.Core.Paths.{is_path_prefix}
use secure_home_agent_platfo.Core.Canonical.{canonical_sort}
use secure_home_agent_platfo.Core.Workspace.{
  ObservedChange, AuthoritativeChangeSet, Normalizing, normal, stopped, normalize_changes,
}
use secure_home_agent_platfo.Core.Policy.{
  ProhibitedRule, PathPolicy, captured, Materializable, unimplemented, Paths, all_normal,
  not_normal, normalize_all, Effective, effective, no_target, effective_paths, effective_of,
  covered, protection_of, protected_refusal, or_next, first_protected, outside_refusal,
  first_outside, total_bytes, first_large, too_many, too_much, refusal_of, conclude, on_effective,
  on_changes, on_observed, on_roots, on_sources, on_rules, decide_materialization,
}

-- The prefix covers neither the path nor the place where it takes effect.
abbrev pub Misses : Str → Str → Str → Type 0
Misses path place p = (is_path_prefix p path ≡ false) × (is_path_prefix p place ≡ false)

-- A path is allowed, reached at the place.
abbrev pub IsAllowed : List Str → List Str → Str → Str → Type 0
IsAllowed prefixes roots path place =
    All (Misses path place) prefixes × ((covered roots path ≡ true) × (covered roots place ≡ true))

-- The change is allowed at the place that the last change of its path is reached at.
abbrev pub AllowedIn : List Str → List Str → List ObservedChange → ObservedChange → Type 0
AllowedIn prefixes roots cs c =
    (place : Str) × (place_at cs c.path ≡ some place) × IsAllowed prefixes roots c.path place

-- What the policy asks of a change set: `roots`, `sources` and `changes` are the normal forms that it
-- is judged on.
pub record IsMaterializable (doc : PathPolicy) (observed : AuthoritativeChangeSet)
    (protected_sources : List Str) (changes : List ObservedChange) : Type 0 where
  pub sources : List Str
  pub roots : List Str
  pub implemented : All (λ rule. rule.kind ≡ text "path_prefix") doc.prohibited_rules
  pub sources_normal : normalize_all protected_sources ≡ all_normal sources
  pub roots_normal : normalize_all doc.allowed_write_roots ≡ all_normal roots
  pub changes_normal : normalize_changes observed.changes ≡ normal changes
  pub places_normal : All HasPlace changes
  pub allowed :
      All
        (AllowedIn (map (λ rule. rule.prefix) doc.prohibited_rules ++ sources) roots changes)
        changes
  pub few : length changes ≤ doc.max_files
  pub small : All (λ c. c.bytes ≤ doc.max_file_bytes) changes
  pub in_total : total_bytes changes ≤ doc.max_total_bytes

unimplemented_iff :
    (rules : List ProhibitedRule)
    → (unimplemented rules ≡ none) ↔ All (λ rule. rule.kind ≡ text "path_prefix") rules
unfolding unimplemented
unimplemented_iff [] = ground arith
unimplemented_iff (rule ∷ rules) = ground (arith, unimplemented_iff rules)

protection_of_iff :
    (ps : List Str) (path place : Str)
    → (protection_of ps path place ≡ none) ↔ All (Misses path place) ps
unfolding protection_of
protection_of_iff [] path place = ground arith
protection_of_iff (p ∷ ps) path place = ground (arith, protection_of_iff ps path place)

first_large_iff :
    (bound : ℕ) (cs : List ObservedChange)
    → (first_large bound cs ≡ none) ↔ All (λ c. c.bytes ≤ bound) cs
unfolding first_large
first_large_iff bound [] = ground arith
first_large_iff bound (c ∷ cs) = ground (arith, first_large_iff bound cs)

or_next_iff : (a b : Option Refusal) → (or_next a b ≡ none) ↔ ((a ≡ none) × (b ≡ none))
unfolding or_next
or_next_iff none b = ground arith
or_next_iff (some r) b = ground arith

protected_refusal_iff :
    (path : Str) (b : Bool) (o : Option Str) → (protected_refusal path b o ≡ none) ↔ (o ≡ none)
unfolding protected_refusal
protected_refusal_iff path b none = ground arith
protected_refusal_iff path b (some p) = ground arith

outside_refusal_iff :
    (roots : List Str) (path place : Str)
    → (outside_refusal roots path place ≡ none)
      ↔ ((covered roots path ≡ true) × (covered roots place ≡ true))
unfolding outside_refusal
outside_refusal_iff roots path place =
    let same : place ≡ path → covered roots place ≡ covered roots path =
      λ e. ap (covered roots) e in
    elim (Str-discrete place path) [ yes e ↦ ground arith | no n ↦ ground arith ]

first_protected_iff :
    (prefixes roots : List Str) (m : Map Str) (cs : List ObservedChange)
    → (first_protected prefixes roots m cs ≡ none)
      ↔ All (λ c. All (Misses c.path (effective_of m c.path)) prefixes) cs
unfolding first_protected
first_protected_iff prefixes roots m [] = ground arith
first_protected_iff prefixes roots m (c ∷ cs) =
    let place = effective_of m c.path in
    let rest = first_protected_iff prefixes roots m cs in
    let both =
      or_next_iff
        (protected_refusal c.path (covered roots c.path) (protection_of prefixes c.path place))
        (first_protected prefixes roots m cs) in
    let this =
      protected_refusal_iff c.path (covered roots c.path) (protection_of prefixes c.path place) in
    let misses = protection_of_iff prefixes c.path place in
    (
      λ h. (misses.0 (this.0 (both.0 h).0), rest.0 (both.0 h).1),
      λ h. both.1 (this.1 (misses.1 h.0), rest.1 h.1),
    )

first_outside_iff :
    (roots : List Str) (m : Map Str) (cs : List ObservedChange)
    → (first_outside roots m cs ≡ none)
      ↔ All (λ c. (covered roots c.path ≡ true) × (covered roots (effective_of m c.path) ≡ true)) cs
unfolding first_outside
first_outside_iff roots m [] = ground arith
first_outside_iff roots m (c ∷ cs) =
    let place = effective_of m c.path in
    let rest = first_outside_iff roots m cs in
    let both = or_next_iff (outside_refusal roots c.path place) (first_outside roots m cs) in
    let this = outside_refusal_iff roots c.path place in
    (λ h. (this.0 (both.0 h).0, rest.0 (both.0 h).1), λ h. both.1 (this.1 h.0, rest.1 h.1))

All-pair_iff :
    {A : Type 0} (P Q : A → Type 0) (xs : List A) → (All P xs × All Q xs) ↔ All (λ x. P x × Q x) xs
All-pair_iff P Q [] = (λ h. tt, λ h. (tt, tt))
All-pair_iff P Q (x ∷ xs) =
    let (to, from) = All-pair_iff P Q xs in
    (λ h. ((h.0.0, h.1.0), to (h.0.1, h.1.1)), λ h. ((h.0.0, (from h.1).0), (h.0.1, (from h.1).1)))

too_many_iff : (bound n : ℕ) → (too_many bound n ≡ none) ↔ (n ≤ bound)
unfolding too_many
too_many_iff bound n = ground arith

too_much_iff : (bound n : ℕ) → (too_much bound n ≡ none) ↔ (n ≤ bound)
unfolding too_much
too_much_iff bound n = ground arith

-- What the four tests ask of the normalized changes.
abbrev Passes : PathPolicy → List Str → List Str → Map Str → List ObservedChange → Type 0
Passes doc prefixes roots m cs =
    All (λ c. IsAllowed prefixes roots c.path (effective_of m c.path)) cs
    × ((length cs ≤ doc.max_files)
        × (All (λ c. c.bytes ≤ doc.max_file_bytes) cs × (total_bytes cs ≤ doc.max_total_bytes)))

refusal_of_iff :
    (doc : PathPolicy) (prefixes roots : List Str) (m : Map Str) (cs : List ObservedChange)
    → (refusal_of doc prefixes roots m cs ≡ none) ↔ Passes doc prefixes roots m cs
unfolding refusal_of
refusal_of_iff doc prefixes roots m cs =
    let large =
      or_next_iff (first_large doc.max_file_bytes cs)
        (too_much doc.max_total_bytes (total_bytes cs)) in
    let many = or_next_iff (too_many doc.max_files (length cs)) (
      or_next (first_large doc.max_file_bytes cs)
        (too_much doc.max_total_bytes (total_bytes cs))) in
    let outside = or_next_iff (first_outside roots m cs) (
      or_next (too_many doc.max_files (length cs)) (
        or_next (first_large doc.max_file_bytes cs)
          (too_much doc.max_total_bytes (total_bytes cs)))) in
    let all = or_next_iff (first_protected prefixes roots m cs) (
      or_next (first_outside roots m cs) (
        or_next (too_many doc.max_files (length cs)) (
          or_next (first_large doc.max_file_bytes cs)
            (too_much doc.max_total_bytes (total_bytes cs))))) in
    let protected = first_protected_iff prefixes roots m cs in
    let inside = first_outside_iff roots m cs in
    let pair =
      All-pair_iff (λ c. All (Misses c.path (effective_of m c.path)) prefixes)
        (λ c. (covered roots c.path ≡ true) × (covered roots (effective_of m c.path) ≡ true)) cs in
    let few = too_many_iff doc.max_files (length cs) in
    let small = first_large_iff doc.max_file_bytes cs in
    let total = too_much_iff doc.max_total_bytes (total_bytes cs) in
    (
      λ h. (
        pair.0 (protected.0 (all.0 h).0, inside.0 (outside.0 (all.0 h).1).0),
        (
          few.0 (many.0 (outside.0 (all.0 h).1).1).0,
          (
            small.0 (large.0 (many.0 (outside.0 (all.0 h).1).1).1).0,
            total.0 (large.0 (many.0 (outside.0 (all.0 h).1).1).1).1,
          ),
        ),
      ),
      λ h. all.1 (
        protected.1 (pair.1 h.0).0,
        outside.1 (
          inside.1 (pair.1 h.0).1,
          many.1 (few.1 h.1.0, large.1 (small.1 h.1.1.0, total.1 h.1.1.1)),
        ),
      ),
    )

IsAllowed-AllowedIn :
    (prefixes roots : List Str) (m : Map Str) (cs xs : List ObservedChange)
    → ((p : Str) → Maps.get p m ≡ or_else (place_at cs p) (Maps.get p []))
    → All (Placed cs) xs
    → All (λ c. IsAllowed prefixes roots c.path (effective_of m c.path)) xs
    → All (AllowedIn prefixes roots cs) xs
IsAllowed-AllowedIn prefixes roots m cs [] held p h = tt
IsAllowed-AllowedIn prefixes roots m cs (c ∷ xs) held ((place, e), p) h = (
  (
    place,
    e,
    subst (IsAllowed prefixes roots c.path) (effective_of-place cs m c.path place held e) h.0,
  ),
  IsAllowed-AllowedIn prefixes roots m cs xs held p h.1,
)

AllowedIn-IsAllowed :
    (prefixes roots : List Str) (m : Map Str) (cs xs : List ObservedChange)
    → ((p : Str) → Maps.get p m ≡ or_else (place_at cs p) (Maps.get p []))
    → All (AllowedIn prefixes roots cs) xs
    → All (λ c. IsAllowed prefixes roots c.path (effective_of m c.path)) xs
AllowedIn-IsAllowed prefixes roots m cs xs held h =
    All-map (AllowedIn prefixes roots cs)
      (λ c. IsAllowed prefixes roots c.path (effective_of m c.path)) xs
      (λ c (place, e, a).
        subst (IsAllowed prefixes roots c.path) (sym (effective_of-place cs m c.path place held e))
          a)
      h

-- The value that a change set is let through with.
abbrev pub let_through : List ObservedChange → Materializable
let_through changes = record {
  changes = canonical_sort (λ c. c.path) changes;
  bounds_checked = text "max_files" ∷ text "max_file_bytes" ∷ text "max_total_bytes" ∷ [];
}

conclude_inv :
    (cs : List ObservedChange) (o : Option Refusal) (v : Materializable)
    → conclude cs o ≡ proceed v
    → (o ≡ none) × (v ≡ let_through cs)
unfolding conclude
conclude_inv cs none v h = (refl, ground arith)
conclude_inv cs (some r) v h = absurd (ground arith)

on_effective_inv :
    (doc : PathPolicy) (prefixes roots : List Str) (cs : List ObservedChange) (e : Effective)
    (v : Materializable)
    → on_effective doc prefixes roots cs e ≡ proceed v
    → (m : Map Str) × ((e ≡ effective m)
        × (conclude cs (refusal_of doc prefixes roots m cs) ≡ proceed v))
unfolding on_effective
on_effective_inv doc prefixes roots cs (effective m) v h = (m, (refl, h))
on_effective_inv doc prefixes roots cs (no_target r) v h = absurd (ground arith)

on_changes_inv :
    (doc : PathPolicy) (prefixes roots : List Str) (n : Normalizing) (v : Materializable)
    → on_changes doc prefixes roots n ≡ proceed v
    → (cs : List ObservedChange) × ((n ≡ normal cs)
        × (on_effective doc prefixes roots cs (effective_paths cs (effective [])) ≡ proceed v))
unfolding on_changes
on_changes_inv doc prefixes roots (normal cs) v h = (cs, (refl, h))
on_changes_inv doc prefixes roots (stopped path reason) v h = absurd (ground arith)

on_roots_inv :
    (doc : PathPolicy) (prefixes : List Str) (p : Paths) (observed : AuthoritativeChangeSet)
    (v : Materializable)
    → on_roots doc prefixes p (some observed) ≡ proceed v
    → (roots : List Str) × ((p ≡ all_normal roots)
        × (on_changes doc prefixes roots (normalize_changes observed.changes) ≡ proceed v))
unfolding on_roots on_observed
on_roots_inv doc prefixes (all_normal roots) observed v h = (roots, (refl, h))
on_roots_inv doc prefixes (not_normal root reason) observed v h = absurd (ground arith)

on_sources_inv :
    (doc : PathPolicy) (p : Paths) (observed : AuthoritativeChangeSet) (v : Materializable)
    → on_sources doc p (some observed) ≡ proceed v
    → (sources : List Str) × ((p ≡ all_normal sources)
        × (on_roots doc
              (map (λ rule. rule.prefix) doc.prohibited_rules ++ sources)
              (normalize_all doc.allowed_write_roots)
              (some observed)
            ≡ proceed v))
unfolding on_sources
on_sources_inv doc (all_normal sources) observed v h = (sources, (refl, h))
on_sources_inv doc (not_normal source reason) observed v h = absurd (ground arith)

on_rules_inv :
    (doc : PathPolicy) (protected_sources : List Str) (observed : AuthoritativeChangeSet)
    (o : Option Refusal) (v : Materializable)
    → on_rules doc protected_sources (some observed) o ≡ proceed v
    → (o ≡ none) × (on_sources doc (normalize_all protected_sources) (some observed) ≡ proceed v)
unfolding on_rules
on_rules_inv doc protected_sources observed none v h = (refl, h)
on_rules_inv doc protected_sources observed (some r) v h = absurd (ground arith)

-- A change set that is let through comes out whole: it is the canonical order of the normal forms of
-- the observed changes. They satisfy the whole policy: every rule is of an implemented kind, every
-- path and every link target has a normal form, no change touches a protected prefix or source by its
-- path or by the place that the last change of that path is reached at, both lie under an allowed root,
-- and the three bounds hold. Where one change has the path, that is the place it is reached at itself:
-- its link target, or else its path.
pub decide_materialization-IsMaterializable :
    (doc : PathPolicy) (observed : AuthoritativeChangeSet) (protected_sources : List Str)
    (v : Materializable)
    → decide_materialization (captured doc) (some observed) protected_sources ≡ proceed v
    → (changes : List ObservedChange) × (IsMaterializable doc observed protected_sources changes
        × (v ≡ let_through changes))
unfolding decide_materialization
decide_materialization-IsMaterializable doc observed protected_sources v h =
    let (rules, h1) =
      on_rules_inv doc protected_sources observed (unimplemented doc.prohibited_rules) v h in
    let (sources, (s, h2)) = on_sources_inv doc (normalize_all protected_sources) observed v h1 in
    let prefixes = map (λ rule. rule.prefix) doc.prohibited_rules ++ sources in
    let (roots, (r, h3)) =
      on_roots_inv doc prefixes (normalize_all doc.allowed_write_roots) observed v h2 in
    let (cs, (c, h4)) =
      on_changes_inv doc prefixes roots (normalize_changes observed.changes) v h3 in
    let (m, (e, h5)) =
      on_effective_inv doc prefixes roots cs (effective_paths cs (effective [])) v h4 in
    let (passes, same) = conclude_inv cs (refusal_of doc prefixes roots m cs) v h5 in
    let q = (refusal_of_iff doc prefixes roots m cs).0 passes in
    let (targets, held) = effective_paths-places cs [] m e in
    (
      cs,
      (
        record {
          sources = sources;
          roots = roots;
          implemented = (unimplemented_iff doc.prohibited_rules).0 rules;
          sources_normal = s;
          roots_normal = r;
          changes_normal = c;
          places_normal = targets;
          allowed = IsAllowed-AllowedIn prefixes roots m cs cs held (All-Placed cs targets) q.0;
          few = q.1.0;
          small = q.1.1.0;
          in_total = q.1.1.1;
        },
        same,
      ),
    )

-- A change set that satisfies the whole policy is let through, whole and in canonical order: nothing
-- else is asked of it.
pub IsMaterializable-proceed :
    (doc : PathPolicy) (observed : AuthoritativeChangeSet) (protected_sources : List Str)
    (changes : List ObservedChange)
    → IsMaterializable doc observed protected_sources changes
    → decide_materialization (captured doc) (some observed) protected_sources
      ≡ proceed (let_through changes)
unfolding decide_materialization on_rules on_sources on_roots on_observed on_changes on_effective
    conclude
IsMaterializable-proceed doc observed protected_sources changes i =
    let prefixes = map (λ rule. rule.prefix) doc.prohibited_rules ++ i.sources in
    let (m, e) = effective_paths-effective changes [] i.places_normal in
    let held = (effective_paths-places changes [] m e).1 in
    let allowed = AllowedIn-IsAllowed prefixes i.roots m changes changes held i.allowed in
    let passes =
      (refusal_of_iff doc prefixes i.roots m changes).1 (allowed, (i.few, (i.small, i.in_total))) in
    rw
      (
        (unimplemented_iff doc.prohibited_rules).1 i.implemented,
        i.sources_normal,
        i.roots_normal,
        i.changes_normal,
        e,
        passes,
      )
      refl

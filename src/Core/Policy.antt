-- ===== src/Core/Policy.antt =====
-- packages/runner-core/src/policy: materialization eligibility of the observed change set, and the
-- comparison with a bound. The captured policy is untyped where it arrives: the data type below
-- lists the shapes that the source tells apart. Sizes and bounds are the contract's natural numbers.
pub mod Places
pub mod Soundness
use secure_home_agent_platfo.Prelude.{
  ℕ, ◌+◌, zero, suc, Bool, true, false, not, ◌&&◌, ◌||◌, Option, none, some, List, [], ◌∷◌, ◌++◌,
  map, length, any, ltb, ite, if◌then◌else◌, Str, Str-discrete, text, decimal,
}
use secure_home_agent_platfo.Prelude.Maps
use secure_home_agent_platfo.Prelude.Maps.{Map}
use secure_home_agent_platfo.Core.Decision.{
  Decision, proceed, refusal, Refusal, refuse, refuse_observed, coerce_refusal, missing_authority,
  undecidable, unrecognized_rule, path_undecidable, protected_path, path_outside_roots, over_bound,
}
use secure_home_agent_platfo.Core.Paths.{
  NormalizedPath, normalized, undecided, normalize_path, is_path_prefix,
}
use secure_home_agent_platfo.Core.Canonical.{canonical_sort}
use secure_home_agent_platfo.Core.Workspace.{
  ObservedChange, AuthoritativeChangeSet, Normalizing, normal, stopped, normalize_changes,
}

pub record InBounds : Type 0 where
  pub bound : Str
  pub measured : ℕ
  pub declared : ℕ

-- `enforceBound` on finite values; `none` is a value that is not finite.
unfoldable pub enforce_bound : Str → Option ℕ → Option ℕ → Decision InBounds
enforce_bound bound (some measured) (some declared) =
    if ltb declared measured
    then refusal (
        refuse_observed over_bound bound (decimal measured) (
          text "measured "
          ++ (decimal measured ++ (text " exceeds the declared bound " ++ decimal declared))))
    else proceed (record { bound = bound; measured = measured; declared = declared })
enforce_bound bound none d = refusal (
    refuse undecidable bound
      (text "bound comparison over a non-finite value cannot be established"))
enforce_bound bound (some m) none = refusal (
    refuse undecidable bound
      (text "bound comparison over a non-finite value cannot be established"))

pub record ProhibitedRule : Type 0 where
  pub kind : Str
  pub prefix : Str

pub record PathPolicy : Type 0 where
  pub prohibited_rules : List ProhibitedRule
  pub allowed_write_roots : List Str
  pub max_files : ℕ
  pub max_file_bytes : ℕ
  pub max_total_bytes : ℕ

-- No policy; a reported refusal, of an established shape or not; a value of no established shape; a
-- captured policy.
pub data CapturedPolicy : Type 0 where
  absent : CapturedPolicy
  refused : Option Refusal → CapturedPolicy
  shapeless : CapturedPolicy
  captured : PathPolicy → CapturedPolicy

pub record Materializable : Type 0 where
  pub changes : List ObservedChange
  pub bounds_checked : List Str

-- The first rule outside the implemented vocabulary refuses the whole policy.
unfoldable pub unimplemented : List ProhibitedRule → Option Refusal
unimplemented [] = none
unimplemented (rule ∷ rules) =
    ite (Str-discrete rule.kind (text "path_prefix")) (unimplemented rules) (
      some (
        refuse unrecognized_rule rule.kind (
          text
            "prohibited rule kind is outside the implemented vocabulary — the whole policy refuses rather than skipping a protection")))

-- Paths normalized in their order, or the first that has no normal form with the reason.
pub data Paths : Type 0 where
  all_normal : List Str → Paths
  not_normal : Str → Str → Paths

abbrev cons_path : Str → NormalizedPath → Paths → Paths
cons_path raw (undecided reason) rest = not_normal raw reason
cons_path raw (normalized p) (all_normal ps) = all_normal (p ∷ ps)
cons_path raw (normalized p) (not_normal r reason) = not_normal r reason

unfoldable pub normalize_all : List Str → Paths
normalize_all [] = all_normal []
normalize_all (p ∷ ps) = let rest = normalize_all ps in cons_path p (normalize_path p) rest

-- `effectivePaths`: a map from a change's path to the normalized target that it is reached through,
-- or the refusal of the first target that has no normal form.
pub data Effective : Type 0 where
  effective : Map Str → Effective
  no_target : Refusal → Effective

abbrev pub effect_of : ObservedChange → Map Str → Option (Str × NormalizedPath) → Effective
effect_of c m none = effective (Maps.set c.path c.path m)
effect_of c m (some (raw, normalized target)) = effective (Maps.set c.path target m)
effect_of c m (some (raw, undecided reason)) = no_target (
    refuse_observed path_undecidable c.path raw (
      text "path is reached through a link whose reported target cannot be normalized: " ++ reason))

abbrev pub normalize_target : Option Str → Option (Str × NormalizedPath)
normalize_target none = none
normalize_target (some raw) = some (raw, normalize_path raw)

abbrev pub extend : ObservedChange → Effective → Effective
extend c (no_target r) = no_target r
extend c (effective m) = effect_of c m (normalize_target c.link_target)

-- The loop over the changes; it returns at the first refusal.
unfoldable pub effective_paths : List ObservedChange → Effective → Effective
effective_paths [] e = e
effective_paths (c ∷ cs) e = effective_paths cs (extend c e)

unfoldable pub effective_of : Map Str → Str → Str
effective_of m path = elim (Maps.get path m) [ none ↦ path | some target ↦ target ]

unfoldable pub covered : List Str → Str → Bool
covered [] path = false
covered (root ∷ roots) path = let rest = covered roots path in is_path_prefix root path || rest

-- The first protected prefix that covers the path or the place where it takes effect.
unfoldable pub protection_of : List Str → Str → Str → Option Str
protection_of [] path place = none
protection_of (p ∷ ps) path place =
    let rest = protection_of ps path place in
    if is_path_prefix p path || is_path_prefix p place then some p else rest

pub protected_detail : Str → Bool → Str
protected_detail p true =
    text "change touches protected governing material (rule \""
    ++ (p
        ++ text
            "\") — protection outranks the allowed write root that would otherwise admit it; the whole change set refuses")
protected_detail p false =
    text "change touches protected governing material (rule \""
    ++ (p ++ text "\"); the whole change set refuses")

protected_refusal : Str → Bool → Option Str → Option Refusal
protected_refusal path admitted none = none
protected_refusal path admitted (some p) =
    some (refuse_observed protected_path path p (protected_detail p admitted))

or_next : Option Refusal → Option Refusal → Option Refusal
or_next (some r) next = some r
or_next none next = next

unfoldable pub first_protected :
    List Str → List Str → Map Str → List ObservedChange → Option Refusal
unfolding protection_of protected_refusal or_next
first_protected prefixes roots m [] = none
first_protected prefixes roots m (c ∷ cs) =
    or_next
      (protected_refusal c.path (covered roots c.path)
        (protection_of prefixes c.path (effective_of m c.path)))
      (first_protected prefixes roots m cs)

outside_refusal : List Str → Str → Str → Option Refusal
outside_refusal roots path place =
    if covered roots path
    then ite (Str-discrete place path) none (
        if covered roots place
        then none
        else some (
            refuse_observed path_outside_roots path place (
              text "path is reached through a link whose target \""
              ++ (place ++ text "\" resolves outside every declared allowed write root"))))
    else some
        (refuse path_outside_roots path (text "path resolves under no declared allowed write root"))

unfoldable pub first_outside : List Str → Map Str → List ObservedChange → Option Refusal
unfolding outside_refusal or_next
first_outside roots m [] = none
first_outside roots m (c ∷ cs) =
    or_next (outside_refusal roots c.path (effective_of m c.path)) (first_outside roots m cs)

over : Str → Str → ℕ → Str → Refusal
over bound what observed detail =
    refuse_observed over_bound bound (decimal observed) (what ++ detail)

abbrev pub total_bytes : List ObservedChange → ℕ
total_bytes [] = 0
total_bytes (c ∷ cs) = c.bytes + total_bytes cs

unfoldable pub first_large : ℕ → List ObservedChange → Option Refusal
unfolding over
first_large bound [] = none
first_large bound (c ∷ cs) =
    let rest = first_large bound cs in
    if ltb bound c.bytes
    then some (
        over (text "max_file_bytes") (text "\"" ++ (c.path ++ text "\"")) c.bytes (
          text " carries "
          ++ (decimal c.bytes
              ++ (text " bytes against a declared per-file bound of " ++ decimal bound))))
    else rest

too_many : ℕ → ℕ → Option Refusal
unfolding over
too_many bound n =
    if ltb bound n
    then some (
        over (text "max_files") (text "change set carries ") n
          (decimal n ++ (text " files against a declared bound of " ++ decimal bound)))
    else none

too_much : ℕ → ℕ → Option Refusal
unfolding over
too_much bound n =
    if ltb bound n
    then some (
        over (text "max_total_bytes") (text "change set carries ") n
          (decimal n ++ (text " bytes against a declared total bound of " ++ decimal bound)))
    else none

-- The four tests in the order of their precedence.
unfoldable pub refusal_of :
    PathPolicy → List Str → List Str → Map Str → List ObservedChange → Option Refusal
unfolding first_protected first_outside too_many first_large too_much or_next
refusal_of doc prefixes roots m changes = or_next (first_protected prefixes roots m changes) (
    or_next (first_outside roots m changes) (
      or_next (too_many doc.max_files (length changes)) (
        or_next (first_large doc.max_file_bytes changes)
          (too_much doc.max_total_bytes (total_bytes changes)))))

conclude : List ObservedChange → Option Refusal → Decision Materializable
conclude changes (some r) = refusal r
conclude changes none = proceed (record {
  changes = canonical_sort (λ c. c.path) changes;
  bounds_checked = text "max_files" ∷ text "max_file_bytes" ∷ text "max_total_bytes" ∷ [];
})

on_effective :
    PathPolicy → List Str → List Str → List ObservedChange → Effective → Decision Materializable
unfolding refusal_of conclude
on_effective doc prefixes roots changes (no_target r) = refusal r
on_effective doc prefixes roots changes (effective m) =
    conclude changes (refusal_of doc prefixes roots m changes)

on_changes : PathPolicy → List Str → List Str → Normalizing → Decision Materializable
unfolding effective_paths on_effective
on_changes doc prefixes roots (stopped path reason) =
    refusal (refuse path_undecidable path (text "path cannot be normalized: " ++ reason))
on_changes doc prefixes roots (normal changes) =
    on_effective doc prefixes roots changes (effective_paths changes (effective []))

on_observed :
    PathPolicy → List Str → List Str → Option AuthoritativeChangeSet → Decision Materializable
unfolding normalize_changes on_changes
on_observed doc prefixes roots none = refusal (
    refuse undecidable (text "observed change set")
      (text "the observed change-set value shape cannot be established"))
on_observed doc prefixes roots (some observed) =
    on_changes doc prefixes roots (normalize_changes observed.changes)

on_roots : PathPolicy → List Str → Paths → Option AuthoritativeChangeSet → Decision Materializable
unfolding on_observed
on_roots doc prefixes (not_normal root reason) observed =
    refusal
      (refuse path_undecidable root (text "declared write root cannot be normalized: " ++ reason))
on_roots doc prefixes (all_normal roots) observed = on_observed doc prefixes roots observed

on_sources : PathPolicy → Paths → Option AuthoritativeChangeSet → Decision Materializable
unfolding normalize_all on_roots
on_sources doc (not_normal source reason) observed = refusal (
    refuse path_undecidable source (
      text "protected authority source cannot be normalized: "
      ++ (reason ++ text " — an unestablishable protection refuses rather than lapsing")))
on_sources doc (all_normal sources) observed =
    on_roots doc (map (λ rule. rule.prefix) doc.prohibited_rules ++ sources)
      (normalize_all doc.allowed_write_roots) observed

on_rules :
    PathPolicy → List Str → Option AuthoritativeChangeSet → Option Refusal → Decision Materializable
unfolding normalize_all on_sources
on_rules doc protected_sources observed (some r) = refusal r
on_rules doc protected_sources observed none =
    on_sources doc (normalize_all protected_sources) observed

-- `none` is an observed change set of no established shape.
unfoldable pub decide_materialization :
    CapturedPolicy → Option AuthoritativeChangeSet → List Str → Decision Materializable
unfolding unimplemented on_rules
decide_materialization absent observed protected_sources = refusal (
    refuse missing_authority (text "path-policy")
      (text "no captured path policy — materialization has no authority to decide from"))
decide_materialization (refused r) observed protected_sources =
    refusal (coerce_refusal r (text "path-policy"))
decide_materialization shapeless observed protected_sources = refusal (
    refuse undecidable (text "path-policy")
      (text "the captured path-policy value shape cannot be established"))
decide_materialization (captured doc) observed protected_sources =
    on_rules doc protected_sources observed (unimplemented doc.prohibited_rules)

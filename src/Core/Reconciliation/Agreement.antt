-- ===== src/Core/Reconciliation/Agreement.antt =====
-- reconciliation/reconcile.ts: when the claims and the observation agree.
use secure_home_agent_platfo.Prelude.{
  ◌≡◌, refl, sym, ap, subst, ◌∙◌, Bool, true, false, Option, none, some, List, [], ◌∷◌, ◌||◌, Str,
  arith, all, ◌↔◌, Bool-cases, Option-cases, inl, inr,
}
use secure_home_agent_platfo.Core.Workspace.{ChangeKind, ObservedChange, AuthoritativeChangeSet}
use secure_home_agent_platfo.Core.Reconciliation.{
  ClaimedChange, RawClaim, RawClaims, no_claims, not_array, array, reconciled, reconcile_claims,
  parse_claims, changes_of, on_parsed, claims_absent, claims_malformed,
}
use secure_home_agent_platfo.Core.Reconciliation.Keys.{same, same_kind→≡, same_kind_refl}
use secure_home_agent_platfo.Core.Reconciliation.Names.{
  names, observed_names, claimed_names, claimed_path, agreement-reconciled, both_true,
}

-- Each path was observed under one kind.
abbrev pub OneKind : List ObservedChange → Type 0
OneKind os =
    (p : Str) (k l : ChangeKind)
    → observed_names p k os ≡ true
    → observed_names p l os ≡ true
    → k ≡ l

module _ {A : Type 0} (path : A → Str) (kind : A → ChangeKind) where
  -- What holds of every change of a list holds of the path and the kind that it names.
  all-names :
      (f : Str → ChangeKind → Bool) (xs : List A) (p : Str) (k : ChangeKind)
      → all (λ x. f (path x) (kind x)) xs ≡ true
      → names path kind p k xs ≡ true
      → f p k ≡ true
  all-names f [] p k h n = absurd (ground arith)
  all-names f (x ∷ xs) p k h n = ground (arith, all-names f xs p k, same_kind→≡ (kind x) k)

  -- And a test that holds of whatever a list names holds of every change of it.
  names-all :
      (f : Str → ChangeKind → Bool) (xs : List A)
      → ((p : Str) (k : ChangeKind) → names path kind p k xs ≡ true → f p k ≡ true)
      → all (λ x. f (path x) (kind x)) xs ≡ true
  names-all f [] h = refl
  names-all f (x ∷ xs) h =
      both_true (h (path x) (kind x) (ground (arith, same_kind_refl (kind x))))
        (names-all f xs (λ p k n. h p k (ground arith)))

bool-ext : (a b : Bool) → (a ≡ true → b ≡ true) → (b ≡ true → a ≡ true) → a ≡ b
bool-ext a b f g = ground arith

kind_of_path :
    (p : Str) (cs : List ClaimedChange)
    → claimed_path p cs ≡ true
    → (l : ChangeKind) × (claimed_names p l cs ≡ true)
kind_of_path p [] h = absurd (ground arith)
kind_of_path p (c ∷ cs) h = elim (Bool-cases (same c.path p)) [
  | inl e ↦ (c.kind, ground (arith, same_kind_refl c.kind))
  | inr e ↦ let (l, n) = kind_of_path p cs (ground arith) in (l, ground arith)
]

-- The claims and the observation name the same changes.
abbrev pub SameChanges : List ObservedChange → List ClaimedChange → Type 0
SameChanges os cs = (p : Str) (k : ChangeKind) → observed_names p k os ≡ claimed_names p k cs

SameChanges-reconciled :
    (os : List ObservedChange) (cs : List ClaimedChange)
    → OneKind os
    → (reconciled os cs).agreement ≡ true
    → SameChanges os cs
SameChanges-reconciled os cs one h p k =
    let agreed = sym (agreement-reconciled os cs) ∙ h in
    let claimed : all (λ c. observed_names c.path c.kind os) cs ≡ true = ground arith in
    let observed : all (λ o. claimed_names o.path o.kind cs || claimed_path o.path cs) os ≡ true =
      ground arith in
    let back : (l : ChangeKind) → claimed_names p l cs ≡ true → observed_names p l os ≡ true =
      λ l n.
        all-names (λ c. c.path) (λ c. c.kind) (λ q j. observed_names q j os) cs p l claimed n in
    bool-ext (observed_names p k os) (claimed_names p k cs)
      (λ n. elim (Bool-cases (claimed_names p k cs)) [
        | inl e ↦ e
        | inr e ↦
            let either =
              all-names (λ o. o.path) (λ o. o.kind)
                (λ q j. claimed_names q j cs || claimed_path q cs) os p k observed n in
            let (l, m) = kind_of_path p cs (ground arith) in
            subst (λ j. claimed_names p j cs ≡ true) (one p l k (back l m) n) m
      ])
      (back k)

agreement-SameChanges :
    (os : List ObservedChange) (cs : List ClaimedChange)
    → SameChanges os cs
    → (reconciled os cs).agreement ≡ true
agreement-SameChanges os cs same =
    agreement-reconciled os cs
    ∙ both_true
        (names-all (λ c. c.path) (λ c. c.kind) (λ q j. observed_names q j os) cs
          (λ p k n. same p k ∙ n))
        (names-all (λ o. o.path) (λ o. o.kind) (λ q j. claimed_names q j cs || claimed_path q cs) os
          (λ p k n. let m = sym (same p k) ∙ n in ground arith))

-- The raw claims are an array of well-formed claims that names the changes.
abbrev pub Claims : RawClaims → List ObservedChange → Type 0
Claims raw os =
    (es : List RawClaim) × (cs : List ClaimedChange) × ((raw ≡ array es)
      × ((parse_claims es ≡ some cs) × SameChanges os cs))

Claims-reconcile :
    (a : Option AuthoritativeChangeSet) (raw : RawClaims)
    → OneKind (changes_of a)
    → (reconcile_claims a raw).agreement ≡ true
    → Claims raw (changes_of a)
unfolding reconcile_claims claims_absent claims_malformed on_parsed
Claims-reconcile a no_claims one h = absurd (ground arith)
Claims-reconcile a not_array one h = absurd (ground arith)
Claims-reconcile a (array es) one h = elim (Option-cases (parse_claims es)) [
  | inl e ↦
      let h' : (on_parsed (changes_of a) none).agreement ≡ true =
        ap (λ o. (on_parsed (changes_of a) o).agreement) (sym e) ∙ h in
      absurd (ground arith)
  | inr (cs, e) ↦ (
    es,
    cs,
    (
      refl,
      (
        e,
        SameChanges-reconciled (changes_of a) cs one
            (ap (λ o. (on_parsed (changes_of a) o).agreement) (sym e) ∙ h),
      ),
    ),
  )
]

reconcile-Claims :
    (a : Option AuthoritativeChangeSet) (raw : RawClaims)
    → Claims raw (changes_of a)
    → (reconcile_claims a raw).agreement ≡ true
unfolding reconcile_claims on_parsed
reconcile-Claims a raw (es, cs, (is, (e, same))) =
    rw (is, e) (agreement-SameChanges (changes_of a) cs same)

-- Where each path was observed under one kind, agreement is reported exactly when the claims are an
-- array of well-formed claims that names the changes that were observed, each path with its kind, and
-- no others; absent or malformed claims never agree.
pub reconcile_claims-agreement :
    (a : Option AuthoritativeChangeSet) (raw : RawClaims)
    → OneKind (changes_of a)
    → ((reconcile_claims a raw).agreement ≡ true) ↔ Claims raw (changes_of a)
reconcile_claims-agreement a raw one = (Claims-reconcile a raw one, reconcile-Claims a raw)

-- Where every claim is of a change that was observed, every observed path is claimed under some kind,
-- and yet some change was observed that no claim names, since its path was observed under another kind
-- too, agreement is reported, although the claims and the observation do not name the same changes.
pub agreement_of_two_kinds :
    (a : AuthoritativeChangeSet) (es : List RawClaim) (cs : List ClaimedChange) (path : Str)
    (kind : ChangeKind)
    → parse_claims es ≡ some cs
    → ((p : Str) (k : ChangeKind)
        → claimed_names p k cs ≡ true
        → observed_names p k a.changes ≡ true)
    → ((p : Str) (k : ChangeKind) → observed_names p k a.changes ≡ true → claimed_path p cs ≡ true)
    → observed_names path kind a.changes ≡ true
    → claimed_names path kind cs ≡ false
    → ((reconcile_claims (some a) (array es)).agreement ≡ true) × ¬ SameChanges a.changes cs
unfolding reconcile_claims on_parsed changes_of
agreement_of_two_kinds a es cs path kind e seen known there unnamed = (
  ap (λ o. (on_parsed a.changes o).agreement) e
      ∙ (agreement-reconciled a.changes cs
          ∙ both_true
              (names-all (λ c. c.path) (λ c. c.kind) (λ q j. observed_names q j a.changes) cs seen)
              (names-all (λ o. o.path) (λ o. o.kind)
                (λ q j. claimed_names q j cs || claimed_path q cs) a.changes
                (λ p k n. let m = known p k n in ground arith))),
  λ same. let d = same path kind in ground arith,
)

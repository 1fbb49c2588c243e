-- ===== src/Core/Reconciliation/Names.antt =====
-- reconciliation/reconcile.ts: agreement in terms of the changes that the two sides name.
use secure_home_agent_platfo.Prelude.{
  ◌≡◌, refl, ◌∙◌, Bool, true, false, List, [], ◌∷◌, ◌++◌, ◌||◌, ◌&&◌, Str, arith, any, all,
}
use secure_home_agent_platfo.Prelude.Maps
use secure_home_agent_platfo.Prelude.Maps.{Map}
use secure_home_agent_platfo.Core.Workspace.{ChangeKind, ObservedChange}
use secure_home_agent_platfo.Core.Reconciliation.{
  ClaimedChange, key_of, map_of, is_set, is_empty, unobserved, unclaimed, disagreements_of,
  reconciled,
}
use secure_home_agent_platfo.Core.Reconciliation.Keys.{same, same_kind, same-key_of, is_set-map_of}

module _ {A : Type 0} (path : A → Str) (kind : A → ChangeKind) where
  -- Some change of the list has the path and the kind.
  abbrev pub names : Str → ChangeKind → List A → Bool
  names p k xs = any (λ x. same (path x) p && same_kind (kind x) k) xs

any-ext : {A : Type 0} (f g : A → Bool) (xs : List A) → ((x : A) → f x ≡ g x) → any f xs ≡ any g xs
any-ext f g [] e = refl
any-ext f g (x ∷ xs) e = rw (e x, any-ext f g xs e) refl

or-false : (b : Bool) → (b || false) ≡ b
or-false true = refl
or-false false = refl

is_set-names :
    {A V : Type 0} (path : A → Str) (kind : A → ChangeKind) (value : A → V) (p : Str)
    (k : ChangeKind) (xs : List A)
    → is_set (Maps.get (key_of p k) (map_of (λ x. key_of (path x) (kind x)) value [] xs))
      ≡ names path kind p k xs
unfolding Maps.get
is_set-names path kind value p k xs =
    is_set-map_of (λ x. key_of (path x) (kind x)) value (key_of p k) [] xs
    ∙ (or-false _
        ∙ any-ext (λ x. same (key_of (path x) (kind x)) (key_of p k)) _ xs
            (λ x. same-key_of (path x) p (kind x) k))

is_set-names_path :
    {A V : Type 0} (path : A → Str) (kind : A → V) (p : Str) (xs : List A)
    → is_set (Maps.get p (map_of path kind [] xs)) ≡ any (λ x. same (path x) p) xs
unfolding Maps.get
is_set-names_path path kind p xs = is_set-map_of path kind p [] xs ∙ or-false _

is_empty-append : {A : Type 0} (xs ys : List A) → is_empty (xs ++ ys) ≡ (is_empty xs && is_empty ys)
is_empty-append [] ys = refl
is_empty-append (x ∷ xs) ys = refl

is_empty-unobserved :
    (keys : Map ObservedChange) (paths : Map ChangeKind) (cs : List ClaimedChange)
    → is_empty (unobserved keys paths cs)
      ≡ all (λ c. is_set (Maps.get (key_of c.path c.kind) keys)) cs
unfolding unobserved
is_empty-unobserved keys paths [] = refl
is_empty-unobserved keys paths (c ∷ cs) = ground (arith, is_empty-unobserved keys paths cs)

is_empty-unclaimed :
    (keys : Map ClaimedChange) (paths : Map ChangeKind) (os : List ObservedChange)
    → is_empty (unclaimed keys paths os)
      ≡ all
          (λ o. is_set (Maps.get (key_of o.path o.kind) keys) || is_set (Maps.get o.path paths))
          os
unfolding unclaimed
is_empty-unclaimed keys paths [] = refl
is_empty-unclaimed keys paths (o ∷ os) = ground (arith, is_empty-unclaimed keys paths os)

all-ext : {A : Type 0} (f g : A → Bool) (xs : List A) → ((x : A) → f x ≡ g x) → all f xs ≡ all g xs
all-ext f g [] e = refl
all-ext f g (x ∷ xs) e = rw (e x, all-ext f g xs e) refl

abbrev pub observed_names : Str → ChangeKind → List ObservedChange → Bool
observed_names p k os = names (λ o. o.path) (λ o. o.kind) p k os

abbrev pub claimed_names : Str → ChangeKind → List ClaimedChange → Bool
claimed_names p k cs = names (λ c. c.path) (λ c. c.kind) p k cs

abbrev pub claimed_path : Str → List ClaimedChange → Bool
claimed_path p cs = any (λ c. same c.path p) cs

pub both_true : {a b : Bool} → a ≡ true → b ≡ true → (a && b) ≡ true
both_true e f = rw (e, f) refl

both : {a b c d : Bool} → a ≡ c → b ≡ d → (a && b) ≡ (c && d)
both e f = rw (e, f) refl

either : {a b c d : Bool} → a ≡ c → b ≡ d → (a || b) ≡ (c || d)
either e f = rw (e, f) refl

-- Agreement, without the maps.
pub agreement-reconciled :
    (os : List ObservedChange) (cs : List ClaimedChange)
    → (reconciled os cs).agreement ≡ (
        all (λ c. observed_names c.path c.kind os) cs
        && all (λ o. claimed_names o.path o.kind cs || claimed_path o.path cs) os)
unfolding reconciled disagreements_of
agreement-reconciled os cs =
    is_empty-append _ _
    ∙ both
        (is_empty-unobserved _ _ cs
          ∙ all-ext _ _ cs
              (λ c. is_set-names (λ o. o.path) (λ o. o.kind) (λ o. o) c.path c.kind os))
        (is_empty-unclaimed _ _ os
          ∙ all-ext _ _ os (λ o.
            either (is_set-names (λ c. c.path) (λ c. c.kind) (λ c. c) o.path o.kind cs)
              (is_set-names_path (λ c. c.path) (λ c. c.kind) o.path cs)))

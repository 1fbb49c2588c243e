-- ===== src/Core/Workspace/Derived.antt =====
-- packages/runner-core/src/workspace/derive.ts: what the authoritative change set holds, and its order.
use mathlib.Core.List.{Permᴰ}
use mathlib.Core.List.Permᴰ
use secure_home_agent_platfo.Prelude.{
  ◌≡◌, refl, inl, inr, false, List, [], ◌∷◌, Str, arith, Bool-cases,
}
use secure_home_agent_platfo.Core.Decision.{proceed, decided}
use secure_home_agent_platfo.Core.Paths.{NormalizedPath, normalized, undecided, normalize_path}
use secure_home_agent_platfo.Core.Canonical.Less.{less-asym}
use secure_home_agent_platfo.Core.Canonical.{less, insert, canonical_sort}
use secure_home_agent_platfo.Core.Workspace.{
  ObservedChange, WorkspaceObservation, observed, shapeless, failed, of_normalizing,
  AuthoritativeChangeSet, Normalizing, normal, stopped, normalize_changes, with_path,
  derive_authoritative_change_set,
}

module _ {ℓ} {A : Type ℓ} (key : A → Str) where
  -- No entry is before the one that it follows.
  abbrev pub IsSorted : List A → Type 0
  IsSorted [] = Unit
  IsSorted (x ∷ []) = Unit
  IsSorted (x ∷ y ∷ ys) = (less (key y) (key x) ≡ false) × IsSorted (y ∷ ys)

  insert-IsSorted : (x : A) (ys : List A) → IsSorted ys → IsSorted (insert key x ys)
  unfolding insert
  insert-IsSorted x [] h = tt
  insert-IsSorted x (y ∷ []) h = elim (Bool-cases (less (key y) (key x))) [
    | inl e ↦ rw e (less-asym (key y) (key x) e, tt)
    | inr e ↦ rw e (e, tt)
  ]
  insert-IsSorted x (y ∷ z ∷ zs) h = elim (Bool-cases (less (key y) (key x))) [
    | inl e ↦
        let rest = insert-IsSorted x (z ∷ zs) h.1 in
        elim (Bool-cases (less (key z) (key x))) [
          | inl f ↦ let rest' = rw f at rest in rw (e, f) (h.0, rest')
          | inr f ↦ let rest' = rw f at rest in rw (e, f) (less-asym (key y) (key x) e, rest')
        ]
    | inr e ↦ rw e (e, h)
  ]

  canonical_sort-IsSorted : (xs : List A) → IsSorted (canonical_sort key xs)
  unfolding canonical_sort
  canonical_sort-IsSorted [] = tt
  canonical_sort-IsSorted (x ∷ xs) =
      insert-IsSorted x (canonical_sort key xs) (canonical_sort-IsSorted xs)

  insert-Permᴰ : (x : A) (ys : List A) → Permᴰ (insert key x ys) (x ∷ ys)
  unfolding insert
  insert-Permᴰ x [] = Permᴰ.refl (x ∷ [])
  insert-Permᴰ x (y ∷ ys) = elim (Bool-cases (less (key y) (key x))) [
    | inl e ↦ rw e (Permᴰ.trans (Permᴰ.cons refl (insert-Permᴰ x ys)) (Permᴰ.swap refl refl))
    | inr e ↦ rw e (Permᴰ.refl (x ∷ y ∷ ys))
  ]

  canonical_sort-Permᴰ : (xs : List A) → Permᴰ (canonical_sort key xs) xs
  unfolding canonical_sort
  canonical_sort-Permᴰ [] = Permᴰ.nil
  canonical_sort-Permᴰ (x ∷ xs) =
      Permᴰ.trans (insert-Permᴰ x (canonical_sort key xs))
        (Permᴰ.cons refl (canonical_sort-Permᴰ xs))

-- The second list is the first with each path in its normal form, entry by entry.
abbrev pub AreNormalized : List ObservedChange → List ObservedChange → Type 0
AreNormalized [] [] = Unit
AreNormalized [] (d ∷ ds) = ⊥
AreNormalized (c ∷ cs) [] = ⊥
AreNormalized (c ∷ cs) (d ∷ ds) =
    (normalize_path c.path ≡ normalized d.path)
    × ((d ≡ record c { path = d.path }) × AreNormalized cs ds)

with_path_inv :
    (c : ObservedChange) (p : NormalizedPath) (n : Normalizing) (ds : List ObservedChange)
    → with_path c p n ≡ normal ds
    → (q : Str) × ((es : List ObservedChange) × ((p ≡ normalized q)
          × ((n ≡ normal es) × (ds ≡ record c { path = q } ∷ es))))
with_path_inv c (normalized q) (normal es) ds h = (q, (es, (refl, (refl, ground arith))))
with_path_inv c (normalized q) (stopped path reason) ds h = absurd (ground arith)
with_path_inv c (undecided reason) n ds h = absurd (ground arith)

normalize_changes-AreNormalized :
    (cs ds : List ObservedChange) → normalize_changes cs ≡ normal ds → AreNormalized cs ds
unfolding normalize_changes
normalize_changes-AreNormalized [] [] h = tt
normalize_changes-AreNormalized [] (d ∷ ds) h = absurd (ground arith)
normalize_changes-AreNormalized (c ∷ cs) ds h =
    let (q, (es, (p, (n, same)))) =
      with_path_inv c (normalize_path c.path) (normalize_changes cs) ds h in
    rw same (p, (refl, normalize_changes-AreNormalized cs es n))

of_normalizing_inv :
    (n : Normalizing) (v : AuthoritativeChangeSet)
    → of_normalizing n ≡ proceed v
    → (ds : List ObservedChange) × ((n ≡ normal ds) × (v.changes ≡ canonical_sort (λ c. c.path) ds))
of_normalizing_inv (normal ds) v h = (ds, (refl, ground arith))
of_normalizing_inv (stopped path reason) v h = absurd (ground arith)

-- A derived change set comes from an observation that succeeded. It holds the observed changes with
-- their paths in normal form and nothing else about them changed, none dropped and none added, in
-- the order of their paths.
pub derive_authoritative_change_set-IsSorted :
    (o : WorkspaceObservation) (v : AuthoritativeChangeSet)
    → derive_authoritative_change_set o ≡ decided (proceed v)
    → (cs : List ObservedChange) × ((ds : List ObservedChange) × ((o ≡ observed cs)
          × (AreNormalized cs ds
              × (Permᴰ v.changes ds × IsSorted (λ (c : ObservedChange). c.path) v.changes))))
unfolding derive_authoritative_change_set
derive_authoritative_change_set-IsSorted (failed why) v h = absurd (ground arith)
derive_authoritative_change_set-IsSorted shapeless v h = absurd (ground arith)
derive_authoritative_change_set-IsSorted (observed cs) v h =
    let (ds, (n, same)) = of_normalizing_inv (normalize_changes cs) v (ground arith) in
    (
      cs,
      (
        ds,
        (
          refl,
          (
            normalize_changes-AreNormalized cs ds n,
            rw same (
              canonical_sort-Permᴰ (λ (c : ObservedChange). c.path) ds,
              canonical_sort-IsSorted (λ (c : ObservedChange). c.path) ds,
            ),
          ),
        ),
      ),
    )

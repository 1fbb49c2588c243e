-- ===== src/Core/Reconciliation/Keys.antt =====
-- reconciliation/reconcile.ts: what the maps of the comparison hold.
use secure_home_agent_platfo.Prelude.{
  ◌≡◌, refl, Bool, true, false, List, [], ◌∷◌, ◌||◌, ◌&&◌, ite, Str, Str-discrete, text, arith, any,
  ite-cases,
}
use secure_home_agent_platfo.Prelude.Maps
use secure_home_agent_platfo.Prelude.Maps.{Map, get-set}
use secure_home_agent_platfo.Core.Workspace.{ChangeKind, created, modified, deleted}
use secure_home_agent_platfo.Core.Reconciliation.{kind_name, key_of, map_of, is_set}

abbrev pub same_kind : ChangeKind → ChangeKind → Bool
same_kind created created = true
same_kind created modified = false
same_kind created deleted = false
same_kind modified created = false
same_kind modified modified = true
same_kind modified deleted = false
same_kind deleted created = false
same_kind deleted modified = false
same_kind deleted deleted = true

abbrev pub same : Str → Str → Bool
same s t = ite (Str-discrete s t) true false

pub same_kind→≡ : (k l : ChangeKind) → same_kind k l ≡ true → k ≡ l
same_kind→≡ k l h = ground arith

pub same_kind_refl : (k : ChangeKind) → same_kind k k ≡ true
same_kind_refl k = ground arith

key_of-injective : (p q : Str) (k l : ChangeKind) → key_of p k ≡ key_of q l → (p ≡ q) × (k ≡ l)
unfolding key_of kind_name text
key_of-injective p q created created h = ground arith
key_of-injective p q created modified h = ground arith
key_of-injective p q created deleted h = ground arith
key_of-injective p q modified created h = ground arith
key_of-injective p q modified modified h = ground arith
key_of-injective p q modified deleted h = ground arith
key_of-injective p q deleted created h = ground arith
key_of-injective p q deleted modified h = ground arith
key_of-injective p q deleted deleted h = ground arith

-- The keys tell changes apart as their paths and kinds do.
pub same-key_of :
    (p q : Str) (k l : ChangeKind) → same (key_of p k) (key_of q l) ≡ (same p q && same_kind k l)
same-key_of p q k l =
    ite-cases (Str-discrete (key_of p k) (key_of q l)) (λ b. b ≡ (same p q && same_kind k l)) true
      false (λ e. let (a, b) = key_of-injective p q k l e in ground (arith, same_kind_refl k))
      (λ n. ground (arith, same_kind→≡ k l))

module _ {ℓ κ} {A : Type ℓ} {V : Type κ} (key : A → Str) (value : A → V) where
  pub is_set-map_of :
      (k : Str) (m : Map V) (xs : List A)
      → is_set (Maps.get k (map_of key value m xs))
        ≡ (any (λ x. same (key x) k) xs || is_set (Maps.get k m))
  unfolding map_of
  is_set-map_of k m [] = refl
  is_set-map_of k m (x ∷ xs) =
      ground
        (arith, is_set-map_of k (Maps.set (key x) (value x) m) xs, get-set (key x) k (value x) m)

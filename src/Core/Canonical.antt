-- ===== src/Core/Canonical.antt =====
-- packages/runner-core/src/primitives/canonical.ts: a stable sort by a string key. `Array.sort` is
-- stable; a stable sort has one result, which insertion into a sorted tail computes.
pub mod Less
use secure_home_agent_platfo.Prelude.{
  Bool, true, false, List, [], ◌∷◌, ltb, ◌==◌, ◌&&◌, if◌then◌else◌, Str,
}

-- `a < b` on strings: by code units, a proper prefix first.
unfoldable pub less : Str → Str → Bool
less [] [] = false
less [] (d ∷ b) = true
less (c ∷ a) [] = false
less (c ∷ a) (d ∷ b) = let rest = less a b in if ltb c d then true else (c == d) && rest

module _ {ℓ} {A : Type ℓ} where
  unfoldable pub insert : (A → Str) → A → List A → List A
  insert key x [] = x ∷ []
  insert key x (y ∷ ys) =
      let rest = insert key x ys in if less (key y) (key x) then y ∷ rest else x ∷ y ∷ ys

  unfoldable pub canonical_sort : (A → Str) → List A → List A
  unfolding insert
  canonical_sort key [] = []
  canonical_sort key (x ∷ xs) = insert key x (canonical_sort key xs)

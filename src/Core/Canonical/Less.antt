-- ===== src/Core/Canonical/Less.antt =====
-- primitives/canonical.ts: the order of strings.
use secure_home_agent_platfo.Prelude.{
  ◌≡◌, refl, true, false, [], ◌∷◌, Str, arith, Bool-cases, inl, inr,
}
use secure_home_agent_platfo.Core.Canonical.{less}

pub less-asym : (a b : Str) → less a b ≡ true → less b a ≡ false
unfolding less
less-asym [] [] h = refl
less-asym [] (d ∷ b) h = refl
less-asym (c ∷ a) [] h = ground arith
less-asym (c ∷ a) (d ∷ b) h = ground (arith, less-asym a b)

pub less-total : (a b : Str) → less a b ≡ false → less b a ≡ false → a ≡ b
unfolding less
less-total [] [] h k = refl
less-total [] (d ∷ b) h k = absurd (ground arith)
less-total (c ∷ a) [] h k = absurd (ground arith)
less-total (c ∷ a) (d ∷ b) h k = ground (arith, less-total a b)

less_after : (x y z : Str) → less z x ≡ false → less z y ≡ true → less x y ≡ true
unfolding less
less_after [] [] z h k = ground arith
less_after [] (d ∷ y) z h k = refl
less_after (c ∷ x) y [] h k = absurd (ground arith)
less_after (c ∷ x) [] (e ∷ z) h k = absurd (ground arith)
less_after (c ∷ x) (d ∷ y) (e ∷ z) h k = ground (arith, less_after x y z)

pub before-not : (x y z : Str) → less x y ≡ true → less z y ≡ false → less z x ≡ false
before-not x y z e g = elim (Bool-cases (less z x)) [
  | inl f ↦ let h = less_after z y x (less-asym z x f) e in absurd (ground arith)
  | inr f ↦ f
]

-- ===== src/Prelude/Digits.antt =====
-- The digits of a number tell it from any other.
use Prim.Native.Nat.{ℕ, zero, suc, ◌+◌, ◌*◌, ◌-◌, ◌/◌, ◌%◌, ◌<◌}
use mathlib.Core.Path.{◌≡◌, sym, ap, ◌∙◌}
use mathlib.Core.List.{[], ◌∷◌, ◌++◌}
use native.Mathlib.Omega.{arith}
use secure_home_agent_platfo.Prelude.Text.{Str, digits_from, decimal}

-- The number that digits spell, behind those read before.
unfoldable pub value : ℕ → Str → ℕ
value n [] = n
value n (c ∷ cs) = value (n * 10 + (c - 48)) cs

value-digits_from :
    (fuel n : ℕ) (rest : Str) → n < fuel → value 0 (digits_from fuel n rest) ≡ value n rest
unfolding value digits_from
value-digits_from zero n rest h = absurd (omega arith)
value-digits_from (suc fuel) n rest h =
    ground (arith, value-digits_from fuel (n / 10) ((48 + n % 10) ∷ rest))

pub value-decimal : (n : ℕ) → value 0 (decimal n) ≡ n
unfolding decimal value
value-decimal n = value-digits_from (suc n) n [] (omega arith)

pub decimal_inj : (m n : ℕ) → decimal m ≡ decimal n → m ≡ n
decimal_inj m n h = sym (value-decimal m) ∙ (ap (value 0) h ∙ value-decimal n)

pub append_cancel : (xs ys zs : Str) → xs ++ ys ≡ xs ++ zs → ys ≡ zs
append_cancel [] ys zs h = h
append_cancel (x ∷ xs) ys zs h = append_cancel xs ys zs (cc)

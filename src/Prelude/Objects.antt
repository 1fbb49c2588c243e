-- ===== src/Prelude/Objects.antt =====
-- A JavaScript object used as a map: reading a property, and the test `key in object`, also find the
-- names that every plain object inherits from `Object.prototype`.
use mathlib.Core.Logic.{ite}
use mathlib.Core.Bool.{Bool, true, false}
use mathlib.Core.List.{List, [], ◌∷◌}
use mathlib.Core.Option.{Option, none, some}
use secure_home_agent_platfo.Prelude.Text.{Str, Str-discrete, text}
use secure_home_agent_platfo.Prelude.Maps
use secure_home_agent_platfo.Prelude.Maps.{Map}

-- The value stored under the name, or one that is inherited.
pub data Property {ℓ} (V : Type ℓ) : Type ℓ where
  own : V → Property V
  inherited : Property V

unfoldable pub one_of : Str → List Str → Bool
one_of s [] = false
one_of s (t ∷ ts) = ite (Str-discrete t s) true (one_of s ts)

-- The names of `Object.prototype`.
abbrev pub prototype_names : List Str
prototype_names =
    text "constructor"
    ∷ text "__defineGetter__"
    ∷ text "__defineSetter__"
    ∷ text "hasOwnProperty"
    ∷ text "__lookupGetter__"
    ∷ text "__lookupSetter__"
    ∷ text "isPrototypeOf"
    ∷ text "propertyIsEnumerable"
    ∷ text "toString"
    ∷ text "valueOf"
    ∷ text "__proto__"
    ∷ text "toLocaleString"
    ∷ []

unfoldable pub is_inherited : Str → Bool
unfolding one_of
is_inherited s = one_of s prototype_names

abbrev if_own {ℓ} : {V : Type ℓ} → Option V → Bool → Option (Property V)
if_own (some v) b = some (own v)
if_own none true = some inherited
if_own none false = none

unfoldable pub property {ℓ} : {V : Type ℓ} → Str → Map V → Option (Property V)
property k m = if_own (Maps.get k m) (is_inherited k)

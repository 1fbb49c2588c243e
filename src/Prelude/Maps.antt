-- ===== src/Prelude/Maps.antt =====
-- A JavaScript `Map` with string keys: entries in insertion order. Setting a key that is there
-- changes its value in place; deleting a key drops every entry under it.
use mathlib.Core.Path.{◌≡◌, refl}
use mathlib.Core.Logic.{◌≢◌, ite}
use mathlib.Core.List.{List, [], ◌∷◌, map}
use mathlib.Core.Option.{Option, none, some}
use native.Mathlib.Omega.{arith}
use secure_home_agent_platfo.Prelude.Text.{Str, Str-discrete}

abbrev pub Map {ℓ} : Type ℓ → Type ℓ
Map V = List (Str × V)

module _ {ℓ} {V : Type ℓ} where
  unfoldable pub get : Str → Map V → Option V
  get k [] = none
  get k ((j, v) ∷ m) = ite (Str-discrete j k) (some v) (get k m)

  unfoldable pub set : Str → V → Map V → Map V
  set k v [] = (k, v) ∷ []
  set k v ((j, w) ∷ m) = ite (Str-discrete j k) ((k, v) ∷ m) ((j, w) ∷ set k v m)

  unfoldable pub delete : Str → Map V → Map V
  delete k [] = []
  delete k ((j, w) ∷ m) = let rest = delete k m in ite (Str-discrete j k) rest ((j, w) ∷ rest)

  abbrev pub keys : Map V → List Str
  keys m = map (λ e. e.0) m

  pub get-set :
      (k j : Str) (v : V) (m : Map V)
      → get j (set k v m) ≡ ite (Str-discrete k j) (some v) (get j m)
  unfolding get set
  get-set k j v [] = refl
  get-set k j v ((i, w) ∷ m) = ground (arith, get-set k j v m)

  pub get-delete :
      (k j : Str) (m : Map V) → get j (delete k m) ≡ ite (Str-discrete k j) none (get j m)
  unfolding get delete
  get-delete k j [] = ground arith
  get-delete k j ((i, w) ∷ m) = ground (arith, get-delete k j m)

  pub get-set_self : (k : Str) (v : V) (m : Map V) → get k (set k v m) ≡ some v
  get-set_self k v m = ground (arith, get-set k k v m)

  pub get-set_ne : (k j : Str) (v : V) (m : Map V) → k ≢ j → get j (set k v m) ≡ get j m
  get-set_ne k j v m h = ground (arith, get-set k j v m)

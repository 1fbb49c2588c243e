-- ===== src/Prelude/Text.antt =====
-- A JavaScript string is the sequence of its UTF-16 code units.
use Prim.Native.Nat.{ℕ, zero, suc, ◌+◌, ◌/◌, ◌%◌}
use Prim.Native.Char.{code}
use Prim.Native.String.{String}
use mathlib.Core.List.{List, [], ◌∷◌}
use native.Mathlib.Decide.{ℕ_discrete}
use secure_home_agent_platfo.Prelude.Tests.{ltb, if◌then◌else◌}

abbrev pub Str : Type 0
Str = List ℕ

-- A literal; the literals of the program are ASCII, or hold dashes below 2 ^ 16.
unfoldable pub text : String → Str
text String.[] = []
text (String.◌∷◌ c s) = code c ∷ text s

unfoldable pub Str-discrete : Discrete Str
Str-discrete = hlevel ℕ_discrete

-- `String(n)` of a natural number: decimal digits; the fuel `n + 1` exceeds their number.
unfoldable pub digits_from : ℕ → ℕ → Str → Str
digits_from zero n rest = rest
digits_from (suc fuel) n rest =
    let more = digits_from fuel (n / 10) ((48 + n % 10) ∷ rest) in
    if ltb n 10 then (48 + n) ∷ rest else more

unfoldable pub decimal : ℕ → Str
unfolding digits_from
decimal n = digits_from (suc n) n []

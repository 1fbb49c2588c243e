-- ===== src/Core/Policy/Places.antt =====
-- packages/runner-core/src/policy/materialize.ts: where a change takes effect, described without the map
-- that `effectivePaths` fills.
use secure_home_agent_platfo.Prelude.{
  ◌≡◌, refl, sym, ap, ◌∙◌, ◌⊎◌, inl, inr, Option, none, some, List, [], ◌∷◌, ite, Str, Str-discrete,
  All, All-map, if_pos, arith,
}
use secure_home_agent_platfo.Prelude.Maps
use secure_home_agent_platfo.Prelude.Maps.{Map}
use secure_home_agent_platfo.Core.Decision.{Refusal}
use secure_home_agent_platfo.Core.Paths.{NormalizedPath, normalized, undecided, normalize_path}
use secure_home_agent_platfo.Core.Workspace.{ObservedChange}
use secure_home_agent_platfo.Core.Policy.{
  effective, no_target, effect_of, normalize_target, effective_paths, effective_of,
}

abbrev pub normal_form : NormalizedPath → Option Str
normal_form (normalized p) = some p
normal_form (undecided reason) = none

-- The change is reached at its own path, or at the normal form of its link target, if it has one.
abbrev pub reached_at : Str → Option Str → Option Str
reached_at path none = some path
reached_at path (some raw) = normal_form (normalize_path raw)

abbrev pub place_of : ObservedChange → Option Str
place_of c = reached_at c.path c.link_target

abbrev pub HasPlace : ObservedChange → Type 0
HasPlace c = (place : Str) × (place_of c ≡ some place)

abbrev pub or_else : Option Str → Option Str → Option Str
or_else (some s) o = some s
or_else none o = o

-- Where the last of the changes that have the path is reached.
unfoldable pub place_at : List ObservedChange → Str → Option Str
place_at [] path = none
place_at (c ∷ cs) path =
    let later = place_at cs path in or_else later (ite (Str-discrete c.path path) (place_of c) none)

effect_of-cases :
    (c : ObservedChange) (m : Map Str) (n : Str × NormalizedPath) (o : Option Str)
    → normal_form n.1 ≡ o
    → ((place : Str) × (o ≡ some place)
        × (effect_of c m (some n) ≡ effective (Maps.set c.path place m)))
      ⊎ ((r : Refusal) × (o ≡ none) × (effect_of c m (some n) ≡ no_target r))
effect_of-cases c m (raw, normalized target) o h = inl (target, sym h, refl)
effect_of-cases c m (raw, undecided reason) o h = inr (_, sym h, refl)

extend-cases :
    (c : ObservedChange) (m : Map Str) (target : Option Str)
    → ((place : Str) × (reached_at c.path target ≡ some place)
        × (effect_of c m (normalize_target target) ≡ effective (Maps.set c.path place m)))
      ⊎ ((r : Refusal) × (reached_at c.path target ≡ none)
          × (effect_of c m (normalize_target target) ≡ no_target r))
extend-cases c m none = inl (c.path, refl, refl)
extend-cases c m (some raw) = effect_of-cases c m (raw, normalize_path raw) _ refl

effective_paths-no_target :
    (cs : List ObservedChange) (r : Refusal) → effective_paths cs (no_target r) ≡ no_target r
unfolding effective_paths
effective_paths-no_target [] r = refl
effective_paths-no_target (c ∷ cs) r = effective_paths-no_target cs r

effective_inj : (m n : Map Str) → effective m ≡ effective n → m ≡ n
effective_inj m n h = cc

or_else-ite :
    (later : Option Str) {P : Type 0} (d : Dec P) (place : Str) (before : Option Str)
    → or_else later (ite d (some place) before)
      ≡ or_else (or_else later (ite d (some place) none)) before
or_else-ite (some s) d place before = refl
or_else-ite none (yes e) place before = refl
or_else-ite none (no n) place before = refl

-- The map that is filled holds the places, and every change has one.
pub effective_paths-places :
    (cs : List ObservedChange) (m n : Map Str)
    → effective_paths cs (effective m) ≡ effective n
    → All HasPlace cs × ((p : Str) → Maps.get p n ≡ or_else (place_at cs p) (Maps.get p m))
unfolding effective_paths place_at
effective_paths-places [] m n h = (tt, λ p. ap (Maps.get p) (sym (effective_inj m n h)))
effective_paths-places (c ∷ cs) m n h = elim (extend-cases c m c.link_target) [
  | inr (r, e, g) ↦
      let stuck = sym (effective_paths-no_target cs r) ∙ (ap (effective_paths cs) (sym g) ∙ h) in
      absurd (ground arith)
  | inl (place, e, g) ↦
      let (rest, held) =
        effective_paths-places cs (Maps.set c.path place m) n
          (ap (effective_paths cs) (sym g) ∙ h) in
      (
        ((place, e), rest),
        λ p.
            held p
            ∙ (ap (or_else (place_at cs p)) (Maps.get-set c.path p place m)
                ∙ (or_else-ite (place_at cs p) (Str-discrete c.path p) place (Maps.get p m)
                    ∙ ap
                        (λ o.
                          or_else (or_else (place_at cs p) (ite (Str-discrete c.path p) o none))
                            (Maps.get p m))
                        (sym e))),
      )
]

-- Where every change has a place, the map is filled to the end.
pub effective_paths-effective :
    (cs : List ObservedChange) (m : Map Str)
    → All HasPlace cs
    → (n : Map Str) × (effective_paths cs (effective m) ≡ effective n)
unfolding effective_paths
effective_paths-effective [] m h = (m, refl)
effective_paths-effective (c ∷ cs) m h = elim (extend-cases c m c.link_target) [
  | inr (r, e, g) ↦ absurd (ground (arith, h.0.1))
  | inl (place, e, g) ↦
      let (n, k) = effective_paths-effective cs (Maps.set c.path place m) h.1 in
      (n, ap (effective_paths cs) g ∙ k)
]

-- Each change of the list has a last change of its path.
abbrev pub Placed : List ObservedChange → ObservedChange → Type 0
Placed cs c = (place : Str) × (place_at cs c.path ≡ some place)

or_else-some : (o p : Option Str) (s : Str) → p ≡ some s → (t : Str) × (or_else o p ≡ some t)
or_else-some none p s h = (s, h)
or_else-some (some t) p s h = (t, refl)

pub All-Placed : (cs : List ObservedChange) → All HasPlace cs → All (Placed cs) cs
unfolding place_at
All-Placed [] h = tt
All-Placed (c ∷ cs) h = (
  or_else-some (place_at cs c.path) (ite (Str-discrete c.path c.path) (place_of c) none) h.0.0
      (if_pos (Str-discrete c.path c.path) refl _ _ ∙ h.0.1),
  All-map (Placed cs) (Placed (c ∷ cs)) cs
      (λ d (place, e).
        (place, ap (λ o. or_else o (ite (Str-discrete c.path d.path) (place_of c) none)) e))
      (All-Placed cs h.1),
)

pub effective_of-place :
    (cs : List ObservedChange) (m : Map Str) (path place : Str)
    → ((p : Str) → Maps.get p m ≡ or_else (place_at cs p) (Maps.get p []))
    → place_at cs path ≡ some place
    → effective_of m path ≡ place
unfolding effective_of Maps.get
effective_of-place cs m path place held e =
    let got : Maps.get path m ≡ some place = held path ∙ ap (λ o. or_else o none) e in
    ap (λ o. elim o [ none ↦ path | some target ↦ target ]) got

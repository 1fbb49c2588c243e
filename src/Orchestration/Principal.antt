-- ===== src/Orchestration/Principal.antt =====
-- finalization/records.ts, `executionPrincipal`: whom the run of a profile acts for.
use secure_home_agent_platfo.Prelude.{
  ◌≡◌, refl, Bool, true, false, Option, none, some, ◌++◌, if◌then◌else◌, Str, text, arith,
}
use secure_home_agent_platfo.Core.Paths.{starts_with}

pub data Acting : Type 0 where
  actor : Str → Acting
  autonomous : Acting

pub record Principal : Type 0 where
  pub sub : Str
  pub acting : Acting

pub data PrincipalResult : Type 0 where
  granted : Principal → PrincipalResult
  not_granted : Str → PrincipalResult

-- An autonomous requester that is human is the actor itself.
unfoldable autonomous_actor : Principal → Option Str
autonomous_actor requester =
    if starts_with (text "human:") requester.sub then some requester.sub else none

unfoldable actor_behind : Acting → Principal → Option Str
unfolding autonomous_actor
actor_behind (actor sub) requester = some sub
actor_behind autonomous requester = autonomous_actor requester

unfoldable on_actor : Str → Bool → Principal → Option Str → PrincipalResult
on_actor profile_sub actor_required requester (some sub) =
    granted (record { sub = profile_sub; acting = actor sub })
on_actor profile_sub true requester none = not_granted (
    text "the profile requires an actor and the request names none: "
    ++ (requester.sub ++ text " is autonomous"))
on_actor profile_sub false requester none =
    granted (record { sub = profile_sub; acting = autonomous })

unfoldable execution_principal : Str → Bool → Principal → PrincipalResult
unfolding actor_behind on_actor
execution_principal profile_sub actor_required requester =
    on_actor profile_sub actor_required requester (actor_behind requester.acting requester)

behind-none :
    (a : Acting) (requester : Principal)
    → actor_behind a requester ≡ none
    → (a ≡ autonomous) × (starts_with (text "human:") requester.sub ≡ false)
unfolding actor_behind autonomous_actor
behind-none (actor sub) requester h = absurd (ground arith)
behind-none autonomous requester h = (refl, ground arith)

granted_as :
    (profile_sub : Str) (actor_required : Bool) (requester p : Principal) (o : Option Str)
    → on_actor profile_sub actor_required requester o ≡ granted p
    → (p.sub ≡ profile_sub) × (p.acting ≡ autonomous → (actor_required ≡ false) × (o ≡ none))
unfolding on_actor
granted_as profile_sub b requester p (some sub) h = (ground arith, λ e. absurd (ground arith))
granted_as profile_sub true requester p none h = absurd (ground arith)
granted_as profile_sub false requester p none h = (ground arith, λ e. (refl, refl))

-- A run acts under the name that its profile gives; and with no actor behind
-- it only where the profile requires none and the requester is autonomous and not human.
execution_principal-granted :
    (profile_sub : Str) (actor_required : Bool) (requester p : Principal)
    → execution_principal profile_sub actor_required requester ≡ granted p
    → (p.sub ≡ profile_sub)
      × (p.acting ≡ autonomous
          → (actor_required ≡ false)
            × (requester.acting ≡ autonomous)
            × (starts_with (text "human:") requester.sub ≡ false))
unfolding execution_principal
execution_principal-granted profile_sub actor_required requester p h =
    let o = actor_behind requester.acting requester in
    let (named, alone) = granted_as profile_sub actor_required requester p o h in
    (
      named,
      λ e.
          let (unrequired, nobody) = alone e in
          let (by_itself, machine) = behind-none requester.acting requester nobody in
          (unrequired, by_itself, machine),
    )

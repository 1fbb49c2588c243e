-- ===== src/Scope/Release.antt =====
-- services/runner-control/src/run/scope.ts, `loseFence`, `disarm` and `release`: what a run holds, and
-- how it lets go of it. A cleanup is named by the call that starts it; its outcome is not awaited for
-- anything but the disarming of the deadline.
use secure_home_agent_platfo.Prelude.{
  ◌≡◌, refl, Bool, true, false, Option, none, some, List, [], ◌∷◌, ◌++◌, if◌then◌else◌, Str, arith,
}

pub record RunScope : Type 0 where
  pub workspace : Option Str
  pub session : Option Str
  pub workspace_attempt : Option Str
  pub session_attempt : Option Str
  pub fence_lost : Option Str
  pub armed : Bool

pub data Cleanup : Type 0 where
  discard close : Str → Cleanup

unfoldable pub or_else : Option Str → Option Str → Option Str
or_else (some s) o = some s
or_else none o = o

-- The first loss stands.
unfoldable pub lose_fence : Str → RunScope → RunScope
unfolding or_else
lose_fence detail s = record s { fence_lost = or_else s.fence_lost (some detail) }

unfoldable pub disarm : RunScope → RunScope
disarm s = record s { armed = false }

abbrev called : (Str → Cleanup) → Option Str → List Cleanup
called f none = []
called f (some ref) = f ref ∷ []

abbrev cleanups : Option Str → Option Str → Option Str → List Cleanup
cleanups (some why) workspace_ref session_ref = []
cleanups none workspace_ref session_ref = called discard workspace_ref ++ called close session_ref

unfoldable pub release : Bool → RunScope → RunScope × List Cleanup
unfolding or_else disarm
release disarms s =
    let s' = record s {
      workspace = none;
      session = none;
      workspace_attempt = none;
      session_attempt = none;
    } in
    (
      if disarms then disarm s' else s',
      cleanups s.fence_lost (or_else s.workspace s.workspace_attempt)
          (or_else s.session s.session_attempt),
    )

-- What happens to a scope: it attempts to provision a workspace or open a session, is told of the
-- handle, loses its fence, and releases what it holds.
pub data Event : Type 0 where
  attempts_workspace attempts_session provisions opens loses : Str → Event
  releases : Bool → Event

unfoldable pub step : Event → RunScope → RunScope × List Cleanup
unfolding lose_fence release
step (attempts_workspace a) s = (record s { workspace_attempt = some a }, [])
step (attempts_session a) s = (record s { session_attempt = some a }, [])
step (provisions ref) s = (record s { workspace = some ref; workspace_attempt = none }, [])
step (opens ref) s = (record s { session = some ref; session_attempt = none }, [])
step (loses detail) s = (lose_fence detail s, [])
step (releases disarms) s = release disarms s

unfoldable pub run : List Event → RunScope → RunScope × List Cleanup
unfolding step
run [] s = (s, [])
run (e ∷ es) s = let (s', calls) = step e s in let (s'', more) = run es s' in (s'', calls ++ more)

run_of_lost :
    (es : List Event) (s : RunScope) (why : Str)
    → s.fence_lost ≡ some why
    → ((run es s).1 ≡ []) × ((run es s).0.fence_lost ≡ some why)
unfolding run step release lose_fence or_else disarm
run_of_lost [] s why h = (refl, h)
run_of_lost (attempts_workspace a ∷ es) s why h = run_of_lost es _ why h
run_of_lost (attempts_session a ∷ es) s why h = run_of_lost es _ why h
run_of_lost (provisions a ∷ es) s why h = run_of_lost es _ why h
run_of_lost (opens a ∷ es) s why h = run_of_lost es _ why h
run_of_lost (loses d ∷ es) s why h = run_of_lost es _ why (ground arith)
run_of_lost (releases true ∷ es) s why h = rw h (run_of_lost es _ why refl)
run_of_lost (releases false ∷ es) s why h = rw h (run_of_lost es _ why refl)

-- Once a run has lost its fence it starts no cleanup, whatever it attempts, is told of and releases
-- from then on, and it goes on naming the first loss.
pub run-lose_fence :
    (es : List Event) (detail : Str) (s : RunScope)
    → s.fence_lost ≡ none
    → let r = run es (lose_fence detail s) in (r.1 ≡ []) × (r.0.fence_lost ≡ some detail)
unfolding lose_fence or_else
run-lose_fence es detail s h = run_of_lost es (lose_fence detail s) detail (rw h refl)

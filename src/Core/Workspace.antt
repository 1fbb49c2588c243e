-- ===== src/Core/Workspace.antt =====
-- packages/runner-core/src/workspace: the authoritative change set, derived from the host's
-- observation alone.
pub mod Derived
use secure_home_agent_platfo.Prelude.{Option, List, [], ◌∷◌, ◌++◌, ℕ, Str, text}
use secure_home_agent_platfo.Core.Decision.{
  Decision, proceed, refusal, ObservedDecision, decided, operational_failure, refuse, undecidable,
  path_undecidable,
}
use secure_home_agent_platfo.Core.Paths.{NormalizedPath, normalized, undecided, normalize_path}
use secure_home_agent_platfo.Core.Canonical.{canonical_sort}

pub data ChangeKind : Type 0 where
  created modified deleted : ChangeKind

pub record ObservedChange : Type 0 where
  pub path : Str
  pub kind : ChangeKind
  pub bytes : ℕ
  pub link_target : Option Str

-- The host looked and saw changes, looked and gave a value of no established shape, or could not look.
pub data WorkspaceObservation : Type 0 where
  observed : List ObservedChange → WorkspaceObservation
  shapeless : WorkspaceObservation
  failed : Str → WorkspaceObservation

pub record AuthoritativeChangeSet : Type 0 where
  pub changes : List ObservedChange

-- The changes with their paths normalized, in their order, or the first that has none.
pub data Normalizing : Type 0 where
  normal : List ObservedChange → Normalizing
  stopped : Str → Str → Normalizing

abbrev pub cons_normal : ObservedChange → Normalizing → Normalizing
cons_normal c (normal cs) = normal (c ∷ cs)
cons_normal c (stopped path reason) = stopped path reason

abbrev pub with_path : ObservedChange → NormalizedPath → Normalizing → Normalizing
with_path c (normalized p) rest = cons_normal (record c { path = p }) rest
with_path c (undecided reason) rest = stopped c.path reason

unfoldable pub normalize_changes : List ObservedChange → Normalizing
normalize_changes [] = normal []
normalize_changes (c ∷ cs) =
    let rest = normalize_changes cs in with_path c (normalize_path c.path) rest

abbrev of_normalizing : Normalizing → Decision AuthoritativeChangeSet
of_normalizing (normal cs) = proceed (record { changes = canonical_sort (λ c. c.path) cs })
of_normalizing (stopped path reason) =
    refusal (refuse path_undecidable path (text "observed path cannot be normalized: " ++ reason))

unfoldable pub derive_authoritative_change_set :
    WorkspaceObservation → ObservedDecision AuthoritativeChangeSet
unfolding normalize_changes
derive_authoritative_change_set (failed why) =
    operational_failure
      (record { source = text "workspace"; detail = text "observation reported failed: " ++ why })
derive_authoritative_change_set shapeless = decided (
    refusal (
      refuse undecidable (text "workspace observation")
        (text "the observation value shape cannot be established")))
derive_authoritative_change_set (observed cs) = decided (of_normalizing (normalize_changes cs))

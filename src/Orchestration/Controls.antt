-- ===== src/Orchestration/Controls.antt =====
-- orchestration/controls.ts: the table that a run is narrowed to, and its wall clock. A supplied object
-- is the chain of its prototypes short of `Object.prototype`, each with its own properties in the order
-- of their names; its properties are plain values, without getters. What `Object.prototype` holds, what
-- its members hold in turn and how a value is printed are parameters.
use secure_home_agent_platfo.Prelude.{
  ℕ, Bool, true, false, Option, none, some, List, [], ◌∷◌, ◌++◌, ltb, ite, if◌then◌else◌, Str,
  Str-discrete, ℕ_discrete, text,
}
use Prim.Native.Nat.{◌*◌}
use secure_home_agent_platfo.Prelude.Maps
use secure_home_agent_platfo.Prelude.Maps.{Map}
use secure_home_agent_platfo.Prelude.Objects.{one_of, is_inherited}
use secure_home_agent_platfo.Lifecycle.States.{
  LifecycleState, requested, profile_resolved, eligible, sandbox_started, running, verifying,
  evidence_sealed, completed, state_name,
}
use secure_home_agent_platfo.Lifecycle.Transitions.{
  TransitionKind, resolve_profile, decide_eligibility, commit_spend, begin_execution,
  begin_verification, seal_evidence, complete, refuse, operational_fault, cancel, timeout,
  indeterminate, kind_name, transitions,
}

-- A value: `undefined`, a string, or any other, known by its identity.
pub data Value : Type 0 where
  undefined : Value
  string : Str → Value
  foreign : ℕ → Value

unfoldable pub Value-discrete : Discrete Value
Value-discrete = hlevel (ℕ_discrete, Str-discrete)

abbrev pub Chain : Type 0 → Type 0
Chain V = List (Map V)

-- What stands under the name of a state: an object (`null` has no names), or no object.
pub data SuppliedRow : Type 0 where
  row : Chain Value → SuppliedRow
  no_object : SuppliedRow

-- Reading a property looks through the prototypes in turn.
abbrev or_next {ℓ} : {V : Type ℓ} → Option V → Option V → Option V
or_next (some v) rest = some v
or_next none rest = rest

unfoldable pub read : {V : Type 0} → Str → Chain V → Option V
read k [] = none
read k (m ∷ ms) = let rest = read k ms in or_next (Maps.get k m) rest

unfoldable pub add_keys : List Str → List Str → List Str
add_keys [] known = known
add_keys (k ∷ ks) known = add_keys ks (if one_of k known then known else known ++ (k ∷ []))

unfoldable pub collect : {V : Type 0} → Chain V → List Str → List Str
collect [] known = known
collect (m ∷ ms) known = collect ms (add_keys (Maps.keys m) known)

abbrev pub reachable_keys : {V : Type 0} → Chain V → List Str
reachable_keys ms = collect ms []

-- The element with that name.
unfoldable pub named : {A : Type 0} → (A → Str) → List A → Str → Option A
named name [] s = none
named name (x ∷ xs) s = ite (Str-discrete (name x) s) (some x) (named name xs s)

-- The states that the canonical table has a row for (that of COMPLETED is `{}`), and the kinds of
-- transition.
abbrev pub progress_states : List LifecycleState
progress_states =
    requested ∷ profile_resolved ∷ eligible ∷ sandbox_started ∷ running ∷ verifying
    ∷ evidence_sealed ∷ completed ∷ []

abbrev pub kinds : List TransitionKind
kinds =
    resolve_profile ∷ decide_eligibility ∷ commit_spend ∷ begin_execution ∷ begin_verification
    ∷ seal_evidence ∷ complete ∷ refuse ∷ operational_fault ∷ cancel ∷ timeout ∷ indeterminate ∷ []

-- What `canonical[state]` is: a row of the table, or a member of `Object.prototype`.
pub data Declared : Type 0 where
  row_of : LifecycleState → Declared
  member : Str → Declared

abbrev or_member : Str → Option LifecycleState → Bool → Option Declared
or_member s (some state) b = some (row_of state)
or_member s none true = some (member s)
or_member s none false = none

unfoldable pub declared_row : Str → Option Declared
declared_row s = or_member s (named state_name progress_states s) (is_inherited s)

abbrev next_of : LifecycleState → Option TransitionKind → Option LifecycleState
next_of s none = none
next_of s (some k) = transitions s k

-- A table that a run may use: the canonical one, or a fresh one.
pub data Table : Type 0 where
  canonical : Table
  fresh : Map (Map Value) → Table

pub data TableCheck : Type 0 where
  accepted : Table → TableCheck
  not_accepted : Str → TableCheck

pub data Copied : Type 0 where
  copied : Map Value → Copied
  forged : Str → Copied

-- What the loop over a row does at one kind.
pub data Entry : Type 0 where
  skipped : Entry
  kept : Value → Entry
  refused_entry : Str → Entry

module _ (prototype_value : Str → Value) (member_property : Str → Str → Option Value)
    (shown : Value → Str) where
  abbrev or_inherited : Str → Option LifecycleState → Bool → Option Value
  or_inherited k (some next) b = some (string (state_name next))
  or_inherited k none true = some (prototype_value k)
  or_inherited k none false = none

  -- `declared[kind]`; `none` when the kind is not `in` it.
  unfoldable pub declared_entry : Declared → Str → Option Value
  declared_entry (row_of s) k =
      or_inherited k (next_of s (named kind_name kinds k)) (is_inherited k)
  declared_entry (member m) k = member_property m k

  abbrev check_value : Str → Str → Value → Option Value → Entry
  check_value state kind to none = refused_entry (
      text "the table adds transition "
      ++ (kind ++ (text " from " ++ (state ++ text ", which the lifecycle does not declare"))))
  check_value state kind to (some d) = ite (Value-discrete d to) (kept to) (
      refused_entry (
        text "the table redirects "
        ++ (state
            ++ (text "."
                ++ (kind
                    ++ (text " to "
                        ++ (shown to ++ (text "; the lifecycle declares " ++ shown d))))))))

  unfoldable pub check_entry : Str → Declared → Str → Option Value → Entry
  check_entry state d kind none = skipped
  check_entry state d kind (some undefined) = skipped
  check_entry state d kind (some (string s)) =
      check_value state kind (string s) (declared_entry d kind)
  check_entry state d kind (some (foreign n)) =
      check_value state kind (foreign n) (declared_entry d kind)

  -- The loop over the kinds of a row.
  unfoldable pub copy_row : Str → Declared → Chain Value → List Str → Map Value → Copied
  copy_row state d r [] acc = copied acc
  copy_row state d r (k ∷ ks) acc = elim (check_entry state d k (read k r)) [
    | skipped ↦ copy_row state d r ks acc
    | kept v ↦ copy_row state d r ks (Maps.set k v acc)
    | refused_entry why ↦ forged why
  ]

  -- What the loop over the states does at one state.
  unfoldable pub check_row : Str → Option SuppliedRow → Option Declared → Option Copied
  check_row state none d = none
  check_row state (some no_object) d = none
  check_row state (some (row r)) none = some (
      forged (text "the table declares state " ++ (state ++ text ", which the lifecycle does not")))
  check_row state (some (row r)) (some d) = some (copy_row state d r (reachable_keys r) [])

  -- The loop over the states of the candidate.
  unfoldable pub copy_rows : Chain SuppliedRow → List Str → Map (Map Value) → TableCheck
  copy_rows c [] acc = accepted (fresh acc)
  copy_rows c (s ∷ ss) acc = elim (check_row s (read s c) (declared_row s)) [
    | none ↦ copy_rows c ss acc
    | some (copied m) ↦ copy_rows c ss (Maps.set s m acc)
    | some (forged why) ↦ not_accepted why
  ]

  unfoldable pub narrowing_only : Option (Chain SuppliedRow) → TableCheck
  narrowing_only none = accepted canonical
  narrowing_only (some c) = copy_rows c (reachable_keys c) []

-- `table[state]?.[kind]`
abbrev pub entry_of : Str → Option (Map Value) → Option Value
entry_of k none = none
entry_of k (some r) = Maps.get k r

abbrev pub value_of : Option LifecycleState → Option Value
value_of none = none
value_of (some next) = some (string (state_name next))

unfoldable pub next_in : Table → LifecycleState → TransitionKind → Option Value
next_in canonical s k = value_of (transitions s k)
next_in (fresh m) s k = entry_of (kind_name k) (Maps.get (state_name s) m)

abbrev pub min : ℕ → ℕ → ℕ
min m n = if ltb m n then m else n

-- `boundedDeadlineMs`
unfoldable pub bounded_deadline_ms : ℕ → ℕ → Option ℕ → ℕ
bounded_deadline_ms profile session none = min (profile * 1000) (session * 1000)
bounded_deadline_ms profile session (some override) =
    min (min (profile * 1000) (session * 1000)) override

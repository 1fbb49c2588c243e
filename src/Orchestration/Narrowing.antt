-- ===== src/Orchestration/Narrowing.antt =====
-- orchestration/controls.ts, `narrowingOnly`: what an accepted table lets a run do.
use secure_home_agent_platfo.Prelude.{
  ◌≡◌, refl, false, Option, none, some, List, [], ◌∷◌, ite, Str, Str-discrete, ℕ_discrete, text,
  arith, sym, subst, ◌∙◌,
}
use secure_home_agent_platfo.Prelude.Objects.{is_inherited, one_of}
use secure_home_agent_platfo.Prelude.Maps
use secure_home_agent_platfo.Prelude.Maps.{Map}
use secure_home_agent_platfo.Lifecycle.States.{
  LifecycleState, requested, profile_resolved, eligible, sandbox_started, running, verifying,
  evidence_sealed, completed, refused, operational_failure, cancelled, timed_out, state_name,
}
use secure_home_agent_platfo.Lifecycle.Transitions.{
  TransitionKind, resolve_profile, decide_eligibility, commit_spend, begin_execution,
  begin_verification, seal_evidence, complete, refuse, operational_fault, cancel, timeout,
  indeterminate, kind_name, transitions,
}
use secure_home_agent_platfo.Orchestration.Controls.{
  Value, string, Chain, SuppliedRow, row, no_object, read, reachable_keys, named, kinds, Declared,
  row_of, declared_row, Table, canonical, fresh, TableCheck, accepted, not_accepted, Copied, copied,
  forged, Entry, skipped, kept, refused_entry, declared_entry, check_entry, copy_row, check_row,
  copy_rows, narrowing_only, next_in, entry_of, value_of,
}

named-kind_name : (k : TransitionKind) → named kind_name kinds (kind_name k) ≡ some k
unfolding named kind_name text Str-discrete ℕ_discrete
named-kind_name resolve_profile = refl
named-kind_name decide_eligibility = refl
named-kind_name commit_spend = refl
named-kind_name begin_execution = refl
named-kind_name begin_verification = refl
named-kind_name seal_evidence = refl
named-kind_name complete = refl
named-kind_name refuse = refl
named-kind_name operational_fault = refl
named-kind_name cancel = refl
named-kind_name timeout = refl
named-kind_name indeterminate = refl

-- A name of a state leads to the row of that state.
declared_row-state_name :
    (s : LifecycleState) (d : Declared) → declared_row (state_name s) ≡ some d → d ≡ row_of s
unfolding declared_row named is_inherited one_of state_name text Str-discrete ℕ_discrete
declared_row-state_name requested d h = ground arith
declared_row-state_name profile_resolved d h = ground arith
declared_row-state_name eligible d h = ground arith
declared_row-state_name sandbox_started d h = ground arith
declared_row-state_name running d h = ground arith
declared_row-state_name verifying d h = ground arith
declared_row-state_name evidence_sealed d h = ground arith
declared_row-state_name completed d h = ground arith
declared_row-state_name refused d h = ground arith
declared_row-state_name operational_failure d h = ground arith
declared_row-state_name cancelled d h = ground arith
declared_row-state_name timed_out d h = ground arith
declared_row-state_name LifecycleState.indeterminate d h = ground arith

some_inj : {A : Type 0} (x y : A) → some x ≡ some y → x ≡ y
some_inj x y h = cc

copied-inj : (x y : Map Value) → copied x ≡ copied y → x ≡ y
copied-inj x y h = cc

on_entry :
    {P : Type 0} {m : Map Value} (e : Entry) (x : Copied) (next : Value → Copied)
    → (x ≡ copied m → P)
    → ((v : Value) → e ≡ kept v → next v ≡ copied m → P)
    → elim e [ skipped ↦ x | kept v ↦ next v | refused_entry why ↦ forged why ] ≡ copied m
    → P
on_entry skipped x next f g h = f h
on_entry (kept v) x next f g h = g v refl h
on_entry (refused_entry why) x next f g h = absurd (ground arith)

on_row :
    {P : Type 0} {t : Table} (o : Option Copied) (x : TableCheck) (next : Map Value → TableCheck)
    → (x ≡ accepted t → P)
    → ((m : Map Value) → o ≡ some (copied m) → next m ≡ accepted t → P)
    → elim o [ none ↦ x | some (copied m) ↦ next m | some (forged why) ↦ not_accepted why ]
      ≡ accepted t
    → P
on_row none x next f g h = f h
on_row (some (copied m)) x next f g h = g m refl h
on_row (some (forged why)) x next f g h = absurd (ground arith)

accepted_inj : (x y : Table) → accepted x ≡ accepted y → x ≡ y
accepted_inj x y h = cc

nothing : (s : Str) (n : Map Value) → ¬ (Maps.get s [] ≡ some n)
unfolding Maps.get
nothing s n h = absurd (ground arith)

entry_of-some :
    (k : Str) (o : Option (Map Value)) (v : Value)
    → entry_of k o ≡ some v
    → (m : Map Value) × ((o ≡ some m) × (Maps.get k m ≡ some v))
entry_of-some k none v h = absurd (ground arith)
entry_of-some k (some m) v h = (m, (refl, h))

value_of-some :
    (o : Option LifecycleState) (v : Value)
    → value_of o ≡ some v
    → (next : LifecycleState) × ((o ≡ some next) × (v ≡ string (state_name next)))
value_of-some none v h = absurd (ground arith)
value_of-some (some next) v h = (next, (refl, ground arith))

not_inherited : (k : TransitionKind) → is_inherited (kind_name k) ≡ false
unfolding is_inherited one_of kind_name text Str-discrete ℕ_discrete
not_inherited resolve_profile = refl
not_inherited decide_eligibility = refl
not_inherited commit_spend = refl
not_inherited begin_execution = refl
not_inherited begin_verification = refl
not_inherited seal_evidence = refl
not_inherited complete = refl
not_inherited refuse = refl
not_inherited operational_fault = refl
not_inherited cancel = refl
not_inherited timeout = refl
not_inherited indeterminate = refl

module _ (prototype_value : Str → Value) (member_property : Str → Str → Option Value)
    (shown : Value → Str) where
  -- Every value of the row is the declared one.
  abbrev Rows : Declared → Map Value → Type 0
  Rows d m =
      (k : Str) (v : Value)
      → Maps.get k m ≡ some v
      → declared_entry prototype_value member_property shown d k ≡ some v

  check_entry-kept :
      (s : Str) (d : Declared) (k : Str) (o : Option Value) (v : Value)
      → check_entry prototype_value member_property shown s d k o ≡ kept v
      → declared_entry prototype_value member_property shown d k ≡ some v
  unfolding check_entry
  check_entry-kept s d k o v h = ground arith

  Rows-set :
      (d : Declared) (k : Str) (v : Value) (m : Map Value)
      → declared_entry prototype_value member_property shown d k ≡ some v
      → Rows d m
      → Rows d (Maps.set k v m)
  Rows-set d k v m e r j w h = ground (arith, Maps.get-set k j v m, r j w)

  copy_row-Rows :
      (s : Str) (d : Declared) (r : Chain Value) (ks : List Str) (acc m : Map Value)
      → Rows d acc
      → copy_row prototype_value member_property shown s d r ks acc ≡ copied m
      → Rows d m
  unfolding copy_row
  copy_row-Rows s d r [] acc m a h = subst (λ x. Rows d x) (copied-inj acc m h) a
  copy_row-Rows s d r (k ∷ ks) acc m a h =
      on_entry (check_entry prototype_value member_property shown s d k (read k r)) _ _
        (copy_row-Rows s d r ks acc m a)
        (λ v e g.
          copy_row-Rows s d r ks (Maps.set k v acc) m
            (Rows-set d k v acc (check_entry-kept s d k (read k r) v e) a) g)
        h

  -- Every row stands under a name that the canonical table has, and holds only its values.
  abbrev Rooted : Map (Map Value) → Type 0
  Rooted t =
      (s : Str) (m : Map Value)
      → Maps.get s t ≡ some m
      → (d : Declared) × ((declared_row s ≡ some d) × Rows d m)

  check_row-copied :
      (s : Str) (o : Option SuppliedRow) (p : Option Declared) (m : Map Value)
      → check_row prototype_value member_property shown s o p ≡ some (copied m)
      → (d : Declared) × ((p ≡ some d) × Rows d m)
  unfolding check_row Maps.get
  check_row-copied s none p m h = absurd (ground arith)
  check_row-copied s (some no_object) p m h = absurd (ground arith)
  check_row-copied s (some (row r)) none m h = absurd (ground arith)
  check_row-copied s (some (row r)) (some d) m h = (
    d,
    (
      refl,
      copy_row-Rows s d r (reachable_keys r) [] m (λ k v e. absurd (ground arith)) (ground arith),
    ),
  )

  Rooted-set :
      (s : Str) (m : Map Value) (t : Map (Map Value))
      → (d : Declared) × ((declared_row s ≡ some d) × Rows d m)
      → Rooted t
      → Rooted (Maps.set s m t)
  Rooted-set s m t held rest j n h = placed (Str-discrete s j) (sym (Maps.get-set s j m t) ∙ h)
    where
      placed :
          (q : Dec (s ≡ j))
          → ite q (some m) (Maps.get j t) ≡ some n
          → (d : Declared) × ((declared_row j ≡ some d) × Rows d n)
      placed (yes e) h =
          subst (λ x. (d : Declared) × ((declared_row x ≡ some d) × Rows d n)) e
            (subst (λ x. (d : Declared) × ((declared_row s ≡ some d) × Rows d x)) (some_inj m n h)
              held)
      placed (no e) h = rest j n h

  copy_rows-Rooted :
      (c : Chain SuppliedRow) (ss : List Str) (acc : Map (Map Value)) (t : Table)
      → Rooted acc
      → copy_rows prototype_value member_property shown c ss acc ≡ accepted t
      → (m : Map (Map Value)) × ((t ≡ fresh m) × Rooted m)
  unfolding copy_rows
  copy_rows-Rooted c [] acc t a h = (acc, (ground arith, a))
  copy_rows-Rooted c (s ∷ ss) acc t a h =
      on_row (check_row prototype_value member_property shown s (read s c) (declared_row s)) _ _
        (copy_rows-Rooted c ss acc t a)
        (λ m e g.
          copy_rows-Rooted c ss (Maps.set s m acc) t
            (Rooted-set s m acc (check_row-copied s (read s c) (declared_row s) m e) a) g)
        h

  -- What the table lets the run do, the canonical table lets it do too, and with the same end.
  abbrev Narrows : Table → Type 0
  Narrows t =
      (s : LifecycleState) (k : TransitionKind) (v : Value)
      → next_in t s k ≡ some v
      → (next : LifecycleState) × ((transitions s k ≡ some next) × (v ≡ string (state_name next)))

  declared_entry-kind_name :
      (s : LifecycleState) (k : TransitionKind) (v : Value)
      → declared_entry prototype_value member_property shown (row_of s) (kind_name k) ≡ some v
      → (next : LifecycleState) × ((transitions s k ≡ some next) × (v ≡ string (state_name next)))
  unfolding declared_entry
  declared_entry-kind_name s k v h = ground (arith, named-kind_name k, not_inherited k)

  entry_of-Narrows : (t : Map (Map Value)) → Rooted t → Narrows (fresh t)
  unfolding next_in
  entry_of-Narrows t r s k v h =
      let (m, (e, g)) = entry_of-some (kind_name k) (Maps.get (state_name s) t) v h in
      let (d, (f, rows)) = r (state_name s) m e in
      declared_entry-kind_name s k v (
        subst (λ x. declared_entry prototype_value member_property shown x (kind_name k) ≡ some v)
          (declared_row-state_name s d f) (rows (kind_name k) v g))

  narrowing_only-Narrows :
      (candidate : Option (Chain SuppliedRow)) (t : Table)
      → narrowing_only prototype_value member_property shown candidate ≡ accepted t
      → Narrows t
  unfolding narrowing_only next_in
  narrowing_only-Narrows none t h =
      subst Narrows (accepted_inj canonical t h) (λ s k v e. value_of-some (transitions s k) v e)
  narrowing_only-Narrows (some c) t h =
      let (m, (e, r)) =
        copy_rows-Rooted c (reachable_keys c) [] t (λ s n g. absurd (nothing s n g)) h in
      subst Narrows (sym e) (entry_of-Narrows m r)

  -- A run is never given more than the lifecycle declares: a table that is accepted, whatever object was
  -- supplied, leads from a state by a kind of transition nowhere but where the declared table leads.
  pub narrowing_only-transitions :
      (candidate : Option (Chain SuppliedRow)) (t : Table) (s : LifecycleState) (k : TransitionKind)
      (v : Value)
      → narrowing_only prototype_value member_property shown candidate ≡ accepted t
      → next_in t s k ≡ some v
      → (next : LifecycleState) × ((transitions s k ≡ some next) × (v ≡ string (state_name next)))
  narrowing_only-transitions c t s k v h = narrowing_only-Narrows c t h s k v

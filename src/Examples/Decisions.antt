-- ===== src/Examples/Decisions.antt =====
-- packages/runner-core/src: the theorems on the trusted decisions at concrete inputs.
use secure_home_agent_platfo.Prelude.{
  ◌≡◌, refl, ℕ, true, none, some, List, [], ◌∷◌, length, text, Str, Str-discrete, ℕ_discrete, arith,
}
use secure_home_agent_platfo.Prelude.Maps
use secure_home_agent_platfo.Prelude.Maps.{Map}
use secure_home_agent_platfo.Prelude.Objects.{is_inherited, property}
use secure_home_agent_platfo.Core.Decision.{proceed, decided}
use secure_home_agent_platfo.Core.Canonical.{canonical_sort, less}
use secure_home_agent_platfo.Core.Paths.{normalized, normalize_path, is_path_prefix, split}
use secure_home_agent_platfo.Core.Paths.Segments.{covers, is_path_prefix-covers}
use secure_home_agent_platfo.Core.Workspace.{
  ObservedChange, AuthoritativeChangeSet, modified, normalize_changes,
}
use secure_home_agent_platfo.Core.Policy.{
  PathPolicy, captured, decide_materialization, normalize_all, covered,
}
use secure_home_agent_platfo.Core.Policy.Places
use secure_home_agent_platfo.Core.Policy.Soundness.{
  IsMaterializable, let_through, decide_materialization-IsMaterializable, IsMaterializable-proceed,
}
use secure_home_agent_platfo.Core.Workspace.{observed, derive_authoritative_change_set}
use secure_home_agent_platfo.Core.Eligibility
use secure_home_agent_platfo.Core.Eligibility.{
  CapturedIdentity, Eligible, Snapshot, decide_eligibility, is_gate_id, is_captured, IsBacked,
  AreDistinctGates, decide_eligibility-IsBacked, decide_eligibility-inherited,
}
use secure_home_agent_platfo.Core.Outcome.{TerminalObservationInput}

is_path_prefix-covers_example :
    is_path_prefix (text "docs") (text "docs-2/a")
    ≡ covers (split (text "docs")) (split (text "docs-2/a"))
is_path_prefix-covers_example = is_path_prefix-covers (text "docs") (text "docs-2/a")

src_normal : normalize_path (text "./a//b") ≡ normalized (text "a/b")
unfolding normalize_path text Str-discrete ℕ_discrete
src_normal = refl

abbrev doc : PathPolicy
doc = record {
  prohibited_rules = record { kind = text "path_prefix"; prefix = text "g" } ∷ [];
  allowed_write_roots = text "s" ∷ [];
  max_files = 2;
  max_file_bytes = 9;
  max_total_bytes = 9;
}

abbrev change : ObservedChange
change = record { path = text "s/a"; kind = modified; bytes = 4; link_target = none }

abbrev linked : ObservedChange
linked = record { path = text "s/l"; kind = modified; bytes = 4; link_target = some (text "./s/b") }

abbrev change_set : AuthoritativeChangeSet
change_set = record { changes = change ∷ linked ∷ [] }

abbrev raw_set : AuthoritativeChangeSet
raw_set = record { changes = record change { path = text "./s/a" } ∷ linked ∷ [] }

change_set_meets : IsMaterializable doc raw_set (text "p" ∷ []) (change ∷ linked ∷ [])
unfolding normalize_all normalize_path normalize_changes Places.place_at covered is_path_prefix text
    Str-discrete ℕ_discrete
change_set_meets = record {
  sources = text "p" ∷ [];
  roots = text "s" ∷ [];
  implemented = (refl, tt);
  sources_normal = refl;
  roots_normal = refl;
  changes_normal = refl;
  places_normal = ((text "s/a", refl), ((text "s/b", refl), tt));
  allowed = (
    (text "s/a", refl, (((refl, refl), ((refl, refl), tt)), (refl, refl))),
    ((text "s/b", refl, (((refl, refl), ((refl, refl), tt)), (refl, refl))), tt),
  );
  few = omega arith;
  small = (omega arith, (omega arith, tt));
  in_total = omega arith;
}

IsMaterializable-proceed_example :
    decide_materialization (captured doc) (some raw_set) (text "p" ∷ [])
    ≡ proceed (let_through (change ∷ linked ∷ []))
IsMaterializable-proceed_example =
    IsMaterializable-proceed doc raw_set (text "p" ∷ []) (change ∷ linked ∷ []) change_set_meets

decided_raw :
    decide_materialization (captured doc) (some raw_set) (text "p" ∷ [])
    ≡ proceed (let_through (change ∷ linked ∷ []))
decided_raw =
    IsMaterializable-proceed doc raw_set (text "p" ∷ []) (change ∷ linked ∷ []) change_set_meets

decide_materialization-IsMaterializable_example :
    (changes : List ObservedChange) × (IsMaterializable doc raw_set (text "p" ∷ []) changes
      × (let_through (change ∷ linked ∷ []) ≡ let_through changes))
decide_materialization-IsMaterializable_example =
    decide_materialization-IsMaterializable doc raw_set (text "p" ∷ [])
      (let_through (change ∷ linked ∷ [])) decided_raw

abbrev id_of : Str → CapturedIdentity
id_of s = record { contract_id = s; contract_version = text "1.0.0"; digest = text "d" }

abbrev registry : Map ℕ
registry = (text "lint", 7) ∷ []

abbrev eligible_with : Str → Eligible
eligible_with gate = record {
  profile = id_of (text "p");
  path_policy = id_of (text "q");
  gate_registry = some (id_of (text "g"));
  gates = gate ∷ [];
}

constructor_id : is_gate_id (text "constructor") ≡ true
unfolding is_gate_id text
constructor_id = refl

constructor_inherited : is_inherited (text "constructor") ≡ true
unfolding is_inherited text Str-discrete ℕ_discrete
constructor_inherited = refl

decide_eligibility-inherited_example :
    decide_eligibility
      (Eligibility.captured (id_of (text "p")) true)
      (Eligibility.captured (id_of (text "q")) true)
      (Eligibility.captured (id_of (text "g")) registry)
      (text "constructor" ∷ [])
    ≡ proceed (eligible_with (text "constructor"))
decide_eligibility-inherited_example =
    decide_eligibility-inherited (id_of (text "p")) (id_of (text "q")) (id_of (text "g")) true true
      registry (text "constructor") constructor_id constructor_inherited

lint_eligible :
    decide_eligibility
      (Eligibility.captured (id_of (text "p")) true)
      (Eligibility.captured (id_of (text "q")) true)
      (Eligibility.captured (id_of (text "g")) registry)
      (text "lint" ∷ [])
    ≡ proceed (eligible_with (text "lint"))
unfolding decide_eligibility property Maps.get canonical_sort text Str-discrete ℕ_discrete
lint_eligible = refl

decide_eligibility-IsBacked_example :
    (true ≡ true)
    × ((true ≡ true)
        × (AreDistinctGates [] (text "lint" ∷ [])
            × (IsBacked (Eligibility.captured (id_of (text "g")) registry) (text "lint" ∷ [])
                × (text "lint" ∷ [] ≡ canonical_sort (λ g. g) (text "lint" ∷ [])))))
decide_eligibility-IsBacked_example =
    decide_eligibility-IsBacked (Eligibility.captured (id_of (text "p")) true)
      (Eligibility.captured (id_of (text "q")) true)
      (Eligibility.captured (id_of (text "g")) registry) (text "lint" ∷ [])
      (eligible_with (text "lint")) lint_eligible

abbrev killed : TerminalObservationInput
killed = record {
  exit_code = some 0;
  reported_outcome = some (text "success");
  transcript_terminal = none;
  signalled = some (text "SIGKILL");
}

abbrev digest_of : Str → Str
digest_of s = length s ∷ []

raw_derived :
    derive_authoritative_change_set (observed raw_set.changes) ≡ decided (proceed change_set)
unfolding derive_authoritative_change_set normalize_path canonical_sort less text Str-discrete
    ℕ_discrete
raw_derived = refl

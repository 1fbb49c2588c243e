-- ===== src/Core/Reconciliation.antt =====
-- packages/runner-core/src/reconciliation/reconcile.ts: what the agent claims to have changed against
-- what the host observed. A claim is an untyped value; its shapes are those that the program tells
-- apart.
pub mod Keys
pub mod Names
pub mod Agreement
use secure_home_agent_platfo.Prelude.{
  Bool, true, false, Option, none, some, List, [], ◌∷◌, ◌++◌, map, ite, if◌then◌else◌, Str,
  Str-discrete, text,
}
use secure_home_agent_platfo.Prelude.Maps
use secure_home_agent_platfo.Prelude.Maps.{Map}
use secure_home_agent_platfo.Core.Canonical.{canonical_sort}
use secure_home_agent_platfo.Core.Workspace.{
  ChangeKind, created, modified, deleted, ObservedChange, AuthoritativeChangeSet,
}

pub record ClaimedChange : Type 0 where
  pub path : Str
  pub kind : ChangeKind

-- A member of a claim: a string, or not one.
pub data Member : Type 0 where
  string : Str → Member
  not_string : Member

pub data RawClaim : Type 0 where
  not_object : RawClaim
  object : Member → Member → RawClaim

pub data RawClaims : Type 0 where
  no_claims not_array : RawClaims
  array : List RawClaim → RawClaims

pub data ClaimState : Type 0 where
  present absent malformed : ClaimState

pub record Disagreement : Type 0 where
  pub path : Str
  pub detail : Str

pub record Reconciliation : Type 0 where
  pub agreement : Bool
  pub claims : ClaimState
  pub claimed : List ClaimedChange
  pub disagreements : List Disagreement

unfoldable pub kind_name : ChangeKind → Str
kind_name created = text "created"
kind_name modified = text "modified"
kind_name deleted = text "deleted"

-- `CHANGE_KINDS.has(kind)`, and the kind.
unfoldable pub kind_of : Str → Option ChangeKind
unfolding kind_name
kind_of s = ite (Str-discrete s (kind_name created)) (some created) (
    ite (Str-discrete s (kind_name modified)) (some modified)
      (ite (Str-discrete s (kind_name deleted)) (some deleted) none))

unfoldable pub with_kind :
    Str → Option ChangeKind → Option (List ClaimedChange) → Option (List ClaimedChange)
with_kind path none rest = none
with_kind path (some k) none = none
with_kind path (some k) (some out) = some ((record { path = path; kind = k }) ∷ out)

unfoldable pub parse_claim : RawClaim → Option (List ClaimedChange) → Option (List ClaimedChange)
unfolding with_kind
parse_claim not_object rest = none
parse_claim (object not_string kind) rest = none
parse_claim (object (string []) kind) rest = none
parse_claim (object (string (c ∷ path)) not_string) rest = none
parse_claim (object (string (c ∷ path)) (string kind)) rest =
    with_kind (c ∷ path) (kind_of kind) rest

-- The claims, if each is one.
unfoldable pub parse_claims : List RawClaim → Option (List ClaimedChange)
unfolding parse_claim
parse_claims [] = some []
parse_claims (e ∷ es) = let rest = parse_claims es in parse_claim e rest

unfoldable pub key_of : Str → ChangeKind → Str
key_of path kind = kind_name kind ++ (text " " ++ path)

-- `new Map(items.map(...))`
unfoldable pub map_of {ℓ κ} :
    {A : Type ℓ} {V : Type κ} → (A → Str) → (A → V) → Map V → List A → Map V
map_of key value m [] = m
map_of key value m (x ∷ xs) = map_of key value (Maps.set (key x) (value x) m) xs

abbrev pub is_set {ℓ} : {V : Type ℓ} → Option V → Bool
is_set none = false
is_set (some v) = true

unfoldable pub divergence : ChangeKind → Option ChangeKind → Str
divergence claimed none = text "claimed but not observed"
divergence claimed (some observed) =
    text "divergent kind: claimed \""
    ++ (kind_name claimed
        ++ (text "\", observed \""
            ++ (kind_name observed ++ text "\" — the observed kind is authoritative")))

-- The claims that were not observed.
unfoldable pub unobserved :
    Map ObservedChange → Map ChangeKind → List ClaimedChange → List Disagreement
unfolding divergence
unobserved keys paths [] = []
unobserved keys paths (c ∷ cs) =
    let rest = unobserved keys paths cs in
    if is_set (Maps.get (key_of c.path c.kind) keys)
    then rest
    else (record { path = c.path; detail = divergence c.kind (Maps.get c.path paths) }) ∷ rest

-- The observed changes whose path is not claimed.
unfoldable pub unclaimed :
    Map ClaimedChange → Map ChangeKind → List ObservedChange → List Disagreement
unclaimed keys paths [] = []
unclaimed keys paths (o ∷ os) =
    let rest = unclaimed keys paths os in
    if is_set (Maps.get (key_of o.path o.kind) keys)
    then rest
    else if is_set (Maps.get o.path paths)
    then rest
    else (record { path = o.path; detail = text "observed but not claimed" }) ∷ rest

unfoldable pub disagreements_of : List ObservedChange → List ClaimedChange → List Disagreement
unfolding map_of unobserved unclaimed
disagreements_of changes claimed =
    unobserved (map_of (λ o. key_of o.path o.kind) (λ o. o) [] changes)
      (map_of (λ o. o.path) (λ o. o.kind) [] changes) claimed
    ++ unclaimed (map_of (λ c. key_of c.path c.kind) (λ c. c) [] claimed)
        (map_of (λ c. c.path) (λ c. c.kind) [] claimed) changes

abbrev pub is_empty {ℓ} : {A : Type ℓ} → List A → Bool
is_empty [] = true
is_empty (x ∷ xs) = false

unfoldable pub reconciled : List ObservedChange → List ClaimedChange → Reconciliation
unfolding disagreements_of
reconciled changes claimed =
    let disagreements = disagreements_of changes claimed in
    record {
      agreement = is_empty disagreements;
      claims = present;
      claimed = canonical_sort (λ c. c.path ++ (text ":" ++ kind_name c.kind)) claimed;
      disagreements = canonical_sort (λ d. d.path) disagreements;
    }

unfoldable pub claims_malformed : Reconciliation
claims_malformed = record {
  agreement = false;
  claims = malformed;
  claimed = [];
  disagreements =
      (record {
        path = text "(claim set)";
        detail = text "claimed change set is malformed; observation authoritative";
      })
      ∷ [];
}

unfoldable pub claims_absent : List ObservedChange → Reconciliation
claims_absent changes = record {
  agreement = false;
  claims = absent;
  claimed = [];
  disagreements =
      map
        (λ o. record { path = o.path; detail = text "observed but not claimed (claim set absent)" })
        changes;
}

unfoldable pub on_parsed : List ObservedChange → Option (List ClaimedChange) → Reconciliation
unfolding reconciled claims_malformed
on_parsed changes none = claims_malformed
on_parsed changes (some claimed) = reconciled changes claimed

-- The set, or none where the value has no array of changes.
unfoldable pub changes_of : Option AuthoritativeChangeSet → List ObservedChange
changes_of none = []
changes_of (some a) = a.changes

unfoldable pub reconcile_claims : Option AuthoritativeChangeSet → RawClaims → Reconciliation
unfolding claims_absent on_parsed claims_malformed parse_claims changes_of
reconcile_claims authoritative no_claims = claims_absent (changes_of authoritative)
reconcile_claims authoritative not_array = claims_malformed
reconcile_claims authoritative (array es) = on_parsed (changes_of authoritative) (parse_claims es)

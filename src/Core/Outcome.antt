-- ===== src/Core/Outcome.antt =====
-- packages/runner-core/src: outcome/terminal.ts, authority/base-identity.ts and
-- verification/consume.ts. The digest function is a parameter. An exit code is a natural number: the
-- program tests it against zero and prints it.
use secure_home_agent_platfo.Prelude.{
  ℕ, ◌==◌, not, ◌&&◌, ◌≡◌, ◌≢◌, ◌↔◌, ◌⊎◌, Bool, true, false, Option, none, some, [], ◌∷◌, ◌++◌, ite,
  if◌then◌else◌, Str, Str-discrete, text, decimal, arith,
}
use secure_home_agent_platfo.Core.Decision.{
  Decision, proceed, refusal, refuse, refuse_observed, undecidable, base_identity_mismatch,
  consumption_digest_mismatch,
}

pub record TerminalObservationInput : Type 0 where
  pub exit_code : Option ℕ
  pub reported_outcome : Option Str
  pub transcript_terminal : Option Str
  pub signalled : Option Str

pub data TerminalConflict : Type 0 where
  clean_exit_with_signal success_claim_with_failure_exit transcript_contradicts_exit :
      TerminalConflict

pub data TerminalClassification : Type 0 where
  established : TerminalClassification
  not_established : TerminalConflict → Str → TerminalClassification

abbrev success : Str
success = text "success"

abbrev is_clean : Option ℕ → Bool
is_clean none = false
is_clean (some n) = n == 0

abbrev is_failure : Option ℕ → Bool
is_failure none = false
is_failure (some n) = not (n == 0)

abbrev shown : Option ℕ → Str
shown none = text "undefined"
shown (some n) = decimal n

abbrev is_success : Option Str → Bool
is_success none = false
is_success (some s) = ite (Str-discrete s success) true false

signal_conflict : Option ℕ → Option Str → Option TerminalClassification
signal_conflict exit none = none
signal_conflict exit (some signal) =
    if is_clean exit
    then some (
        not_established clean_exit_with_signal (
          text "the provider reported exit "
          ++ (shown exit
              ++ (text " but was signalled "
                  ++ (signal ++ text "; the terminal state cannot be established")))))
    else none

claim_conflict : Option ℕ → Option Str → Option TerminalClassification
claim_conflict exit reported =
    if is_failure exit && is_success reported
    then some (
        not_established success_claim_with_failure_exit (
          text "the provider reported success but exited "
          ++ (shown exit ++ text "; the terminal state cannot be established")))
    else none

transcript_conflict : Option ℕ → Option Str → Option TerminalClassification
transcript_conflict exit none = none
transcript_conflict exit (some transcript) =
    if is_clean exit && not (is_success (some transcript))
    then some (
        not_established transcript_contradicts_exit (
          text "the provider reported exit "
          ++ (shown exit
              ++ (text " but its transcript terminated "
                  ++ (transcript ++ text "; the terminal state cannot be established")))))
    else none

first : Option TerminalClassification → TerminalClassification → TerminalClassification
first (some c) next = c
first none next = next

-- The three conflicts, in the order in which they are looked for.
classify : Option ℕ → Option Str → Option Str → Option Str → TerminalClassification
unfolding signal_conflict claim_conflict transcript_conflict first
classify exit reported transcript signalled =
    first (signal_conflict exit signalled) (
      first (claim_conflict exit reported)
        (first (transcript_conflict exit transcript) established))

unfoldable pub classify_terminal_observations : TerminalObservationInput → TerminalClassification
unfolding classify
classify_terminal_observations o =
    classify o.exit_code o.reported_outcome o.transcript_terminal o.signalled

-- The observations do not contradict one another: a clean exit comes with no signal and with no
-- transcript that ended otherwise, a failing one with no claim of success.
abbrev pub Agree : Option ℕ → Option Str → Option Str → Option Str → Type 0
Agree none reported transcript signalled = Unit
Agree (some n) reported transcript signalled =
    (n ≡ 0 → (signalled ≡ none) × ((transcript ≡ none) ⊎ (transcript ≡ some success)))
    × (n ≢ 0 → reported ≢ some success)

classify-Agree :
    (exit : Option ℕ) (reported transcript signalled : Option Str)
    → (classify exit reported transcript signalled ≡ established)
      ↔ Agree exit reported transcript signalled
unfolding classify signal_conflict claim_conflict transcript_conflict first
classify-Agree none reported none none = ground arith
classify-Agree none reported (some t) none = ground arith
classify-Agree none reported none (some s) = ground arith
classify-Agree none reported (some t) (some s) = ground arith
classify-Agree (some n) none none none = ground arith
classify-Agree (some n) none (some t) none = ground arith
classify-Agree (some n) none none (some s) = ground arith
classify-Agree (some n) none (some t) (some s) = ground arith
classify-Agree (some n) (some r) none none = ground arith
classify-Agree (some n) (some r) (some t) none = ground arith
classify-Agree (some n) (some r) none (some s) = ground arith
classify-Agree (some n) (some r) (some t) (some s) = ground arith

-- The terminal state is established exactly when the observations do not contradict one another; an
-- exit code that was not reported contradicts nothing.
pub classify_terminal_observations-Agree :
    (o : TerminalObservationInput)
    → (classify_terminal_observations o ≡ established)
      ↔ Agree o.exit_code o.reported_outcome o.transcript_terminal o.signalled
unfolding classify_terminal_observations
classify_terminal_observations-Agree o =
    classify-Agree o.exit_code o.reported_outcome o.transcript_terminal o.signalled

pub record BaseIdentityMatch : Type 0 where
  pub digest : Str

unfoldable pub compare_base_identity : Str → Str → Decision BaseIdentityMatch
compare_base_identity [] observed = refusal (
    refuse undecidable (text "pinned base identity")
      (text "no pinned base identity was supplied — the comparison cannot be established"))
compare_base_identity (c ∷ pinned) observed =
    ite (Str-discrete (c ∷ pinned) observed) (proceed (record { digest = c ∷ pinned })) (
      refusal (
        refuse_observed base_identity_mismatch (c ∷ pinned) observed (
          text
            "the observed base identity does not match the pinned identity — the workspace is not the declared base")))

-- A workspace base is accepted exactly when an identity was pinned and the observed one is that one.
pub compare_base_identity-proceed :
    (pinned observed : Str) (m : BaseIdentityMatch)
    → (compare_base_identity pinned observed ≡ proceed m)
      ↔ ((pinned ≢ []) × ((pinned ≡ observed) × (m.digest ≡ pinned)))
unfolding compare_base_identity
compare_base_identity-proceed [] observed m = ground arith
compare_base_identity-proceed (c ∷ pinned) observed m = ground arith

pub record ConsumedArtifact : Type 0 where
  pub path : Str
  pub digest : Str

-- The content is digested anew where it is consumed.
unfoldable pub consume_verified : (Str → Str) → Str → Str → Str → Decision ConsumedArtifact
consume_verified digest_of path content expected =
    ite (Str-discrete (digest_of content) expected)
      (proceed (record { path = path; digest = digest_of content }))
      (refusal (
        refuse_observed consumption_digest_mismatch path (digest_of content) (
          text "consumed bytes digest "
          ++ (digest_of content
              ++ (text " but "
                  ++ (expected
                      ++ text
                          " was expected — the artifact changed after its last verification, and that verification authorizes nothing"))))))

-- Bytes whose digest differs from that of the bytes that were verified are never consumed, whatever
-- was verified before; the verified bytes themselves are.
pub consume_verified-digest :
    (digest_of : Str → Str) (path verified content : Str)
    → ((digest_of content ≢ digest_of verified)
        → (v : ConsumedArtifact)
        → consume_verified digest_of path content (digest_of verified) ≢ proceed v)
      × (consume_verified digest_of path verified (digest_of verified)
          ≡ proceed (record { path = path; digest = digest_of verified }))
unfolding consume_verified
consume_verified-digest digest_of path verified content = ground arith

-- ===== src/Core/Capture.antt =====
-- packages/runner-core/src/authority/capture.ts: bytes become a snapshot that is bound to their digest.
-- JSON, the schema of a contract and the digest are parameters.
use secure_home_agent_platfo.Prelude.{
  ◌≡◌, refl, ap, sym, subst, Option, none, some, ◌++◌, ite, Str, Str-discrete, text, arith,
  ite-cases,
}
use secure_home_agent_platfo.Core.Decision.{
  Refusal, refuse, refuse_observed, OperationalFailure, invalid_authority, contract_mismatch,
  undecidable,
}
use secure_home_agent_platfo.Core.Eligibility.{CapturedIdentity}
use secure_home_agent_platfo.Acquisition.{AuthorityBytes, acquired_bytes, acquisition_failure}

-- What JSON makes of a text: a value, or the message of what it threw.
pub data JsonResult (Json : Type 0) : Type 0 where
  json : Json → JsonResult Json
  not_json : Str → JsonResult Json

-- What a schema makes of a value: a document, or its issues, joined.
pub data SchemaResult (T : Type 0) : Type 0 where
  valid : T → SchemaResult T
  invalid : Str → SchemaResult T

pub record ExpectedContract (Json T : Type 0) : Type 0 where
  pub contract_id : Str
  pub safe_parse : Json → SchemaResult T

pub data CapturedAuthority (T : Type 0) : Type 0 where
  captured : Str → Str → CapturedIdentity → T → CapturedAuthority T
  capture_refused : Str → Refusal → CapturedAuthority T
  capture_fault : OperationalFailure → CapturedAuthority T

unfoldable pub or_none : Option Str → Str
or_none none = text "(none)"
or_none (some s) = s

-- The identity that a document states: its contract and the version of it.
abbrev pub Stated : Type 0 → Type 0
Stated T = T → Str × Str

unfoldable pub on_schema :
    {T : Type 0} → Stated T → Str → Str → Str → SchemaResult T → CapturedAuthority T
on_schema stated source contract_id digest (invalid issues) = capture_refused source (
    refuse invalid_authority source (
      text "authority bytes fail contract validation for \""
      ++ (contract_id ++ (text "\": " ++ issues))))
on_schema stated source contract_id digest (valid doc) =
    captured source digest
      (record { contract_id = (stated doc).0; contract_version = (stated doc).1; digest = digest })
      doc

mismatch : Str → Str → Str → Refusal
mismatch source contract_id observed = refuse_observed contract_mismatch source observed (
    text "source declares contract \""
    ++ (contract_id ++ (text "\" but bytes carry \"" ++ (observed ++ text "\""))))

module _ {Json T : Type 0} (parse : Str → JsonResult Json) (contract_id_of : Json → Option Str)
    (digest_of : Str → Str) (stated : Stated T) where
  unfoldable pub on_json :
      ExpectedContract Json T → Str → Str → JsonResult Json → CapturedAuthority T
  unfolding or_none mismatch
  on_json expected source digest (not_json why) =
      capture_refused source
        (refuse invalid_authority source (text "authority bytes are not JSON: " ++ why))
  on_json expected source digest (json v) =
      ite (Str-discrete (or_none (contract_id_of v)) expected.contract_id)
        (on_schema stated source expected.contract_id digest (expected.safe_parse v))
        (capture_refused source (mismatch source expected.contract_id (or_none (contract_id_of v))))

  -- `none` is an input whose shape cannot be established.
  unfoldable pub capture_authority :
      Option AuthorityBytes → ExpectedContract Json T → CapturedAuthority T
  capture_authority none expected = capture_refused (text "(unestablished)") (
      refuse undecidable (text "authority input")
        (text "the authority input value shape cannot be established"))
  capture_authority (some (acquisition_failure source failure)) expected =
      capture_fault
        (record { source = source; detail = text "acquisition reported failed: " ++ failure })
  capture_authority (some (acquired_bytes source bytes)) expected =
      on_json expected source (digest_of bytes) (parse bytes)

  -- The snapshot is what the contract makes of the bytes.
  pub record Binds (expected : ExpectedContract Json T) (source bytes digest : Str)
      (identity : CapturedIdentity) (doc : T) : Type 0 where
    pub value : Json
    pub is_json : parse bytes ≡ json value
    pub declared : or_none (contract_id_of value) ≡ expected.contract_id
    pub conforms : expected.safe_parse value ≡ valid doc
    pub digested : digest ≡ digest_of bytes
    pub identified : identity ≡ record {
      contract_id = (stated doc).0;
      contract_version = (stated doc).1;
      digest = digest_of bytes;
    }

  on_schema_valid :
      (source c digest : Str) (r : SchemaResult T) (s d : Str) (identity : CapturedIdentity)
      (doc : T)
      → on_schema stated source c digest r ≡ captured s d identity doc
      → (s ≡ source)
        × ((r ≡ valid doc)
            × ((d ≡ digest)
                × (identity ≡ record {
                  contract_id = (stated doc).0;
                  contract_version = (stated doc).1;
                  digest = digest;
                })))
  unfolding on_schema
  on_schema_valid source c digest (invalid issues) s d identity doc h = absurd (ground arith)
  on_schema_valid source c digest (valid x) s d identity doc h = ground arith

  on_json-Binds :
      (expected : ExpectedContract Json T) (source bytes : Str) (r : JsonResult Json) (s d : Str)
      (identity : CapturedIdentity) (doc : T)
      → parse bytes ≡ r
      → on_json expected source (digest_of bytes) r ≡ captured s d identity doc
      → (s ≡ source) × Binds expected source bytes d identity doc
  unfolding on_json
  on_json-Binds expected source bytes (not_json why) s d identity doc e = λ h. absurd (ground arith)
  on_json-Binds expected source bytes (json v) s d identity doc e =
      ite-cases (Str-discrete (or_none (contract_id_of v)) expected.contract_id)
        (λ x.
          x ≡ captured s d identity doc → (s ≡ source) × Binds expected source bytes d identity doc)
        _ _
        (λ m h.
          let (a, (b, (c, f))) =
            on_schema_valid source expected.contract_id (digest_of bytes) _ s d identity doc h in
          (
            a,
            record {
              value = v;
              is_json = e;
              declared = m;
              conforms = b;
              digested = c;
              identified = f;
            },
          ))
        (λ n h. absurd (ground arith))

  -- An input is captured only if it is bytes that were acquired; the snapshot then names their
  -- source, and is what the contract makes of them: they are JSON, state the contract expected, and
  -- conform to its schema, and the digest of the snapshot and of its identity is theirs.
  pub capture_authority-Binds :
      (input : Option AuthorityBytes) (expected : ExpectedContract Json T) (s d : Str)
      (identity : CapturedIdentity) (doc : T)
      → capture_authority input expected ≡ captured s d identity doc
      → (bytes : Str) × ((input ≡ some (acquired_bytes s bytes))
          × Binds expected s bytes d identity doc)
  unfolding capture_authority
  capture_authority-Binds none expected s d identity doc h = absurd (ground arith)
  capture_authority-Binds (some (acquisition_failure source why)) expected s d identity doc h =
      absurd (ground arith)
  capture_authority-Binds (some (acquired_bytes source bytes)) expected s d identity doc h =
      let (e, b) = on_json-Binds expected source bytes (parse bytes) s d identity doc refl h in
      (
        bytes,
        (
          ap (λ x. some (acquired_bytes x bytes)) (sym e),
          subst (λ x. Binds expected x bytes d identity doc) (sym e) b,
        ),
      )

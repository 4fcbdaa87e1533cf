-- ===== src/Installation/Records.antt =====
-- src/onboarding/domain/installation.ts: the records that are stored beside the installation, and their
-- schemas.
--
-- `is_uuid` and `is_datetime` are the formats of the schema library. A value that a schema fixes to
-- one literal has no field here.
use skillwire.Base.{
  ℕ, Bool, true, false, not, ◌&&◌, ◌||◌, List, [], ◌∷◌, ◌==◌, leb, String, Option, none, some,
  if◌then◌else◌, ◌===◌, codes, utf16_length, is_sha256, length, all, any, map, ◌++◌, same_codes,
  split_from,
}
use skillwire.Installation.Status.{Client}
use skillwire.Installation.Schema.{starts_with}

-- `RelativeLocatorSchema`
unfoldable pub is_relative_locator : String → Bool
is_relative_locator s =
    (leb 1 (utf16_length s) && leb (utf16_length s) 512)
    && not (starts_with (codes s) (codes "/"))
    && not (any (λ c. c == 0) (codes s))
    && not (any (same_codes (codes "..")) (split_from [] b'/' (codes s)))

abbrev optional : (String → Bool) → Option String → Bool
optional p none = true
optional p (some s) = p s

abbrev short_text : ℕ → String → Bool
short_text n s = leb 1 (utf16_length s) && leb (utf16_length s) n

pub data SecretKind : Type 0 where
  database_password application_pepper : SecretKind

abbrev pub secret_path : SecretKind → String
secret_path database_password = "secrets/database-password"
secret_path application_pepper = "secrets/application-pepper"

pub data SecretState : Type 0 where
  created reused retained : SecretState

pub record ServiceSecretReference : Type 0 where
  pub kind : SecretKind
  pub relative_path : String
  pub identity_sha256 : String
  pub state : Option SecretState

-- `ServiceSecretReferenceSchema`, the pattern of the path and the refinement included.
unfoldable pub service_secret_reference_schema : ServiceSecretReference → Bool
service_secret_reference_schema s =
    (s.relative_path === "secrets/database-password"
      || s.relative_path === "secrets/application-pepper")
    && is_sha256 s.identity_sha256
    && s.relative_path === secret_path s.kind

pub data SecretSetState : Type 0 where
  available rotating invalid retained removed : SecretSetState

pub record ServiceSecretSet : Type 0 where
  pub service_secret_set_id : String
  pub installation_id : String
  pub secrets : List ServiceSecretReference
  pub created_by_operation : String
  pub state : SecretSetState

abbrev is_same_kind : SecretKind → SecretKind → Bool
is_same_kind database_password database_password = true
is_same_kind application_pepper application_pepper = true
is_same_kind _ _ = false

-- `new Set(kinds)`
abbrev pub kind_set : List SecretKind → List SecretKind → List SecretKind
kind_set set [] = set
kind_set set (k ∷ ks) =
    if any (is_same_kind k) set then kind_set set ks else kind_set (set ++ k ∷ []) ks

abbrev pub kinds : List ServiceSecretReference → List SecretKind
kinds = map (λ s. s.kind)

-- `ServiceSecretSetSchema`
unfoldable pub service_secret_set_schema : (String → Bool) → ServiceSecretSet → Bool
unfolding service_secret_reference_schema
service_secret_set_schema is_uuid s =
    is_uuid s.service_secret_set_id
    && is_uuid s.installation_id
    && (length s.secrets == 2 && all service_secret_reference_schema s.secrets)
    && is_uuid s.created_by_operation
    && length (kind_set [] (kinds s.secrets)) == 2

pub data Backend : Type 0 where
  secret_service restrictive_file : Backend

pub data CredentialState : Type 0 where
  available missing locked rejected retained removed : CredentialState

pub record CredentialReference : Type 0 where
  pub credential_reference_id : String
  pub installation_id : String
  pub client : Client
  pub backend : Backend
  pub locator : String
  pub key_public_id_hash : Option String
  pub created_by_operation : String
  pub state : CredentialState
  pub fallback_risk_confirmed : Bool

abbrev is_secret_service : Backend → Bool
is_secret_service secret_service = true
is_secret_service restrictive_file = false

unfoldable pub credential_reference_schema : (String → Bool) → CredentialReference → Bool
unfolding is_relative_locator
credential_reference_schema is_uuid c =
    is_uuid c.credential_reference_id
    && is_uuid c.installation_id
    && is_relative_locator c.locator
    && optional is_sha256 c.key_public_id_hash
    && is_uuid c.created_by_operation
    && (is_secret_service c.backend || c.fallback_risk_confirmed)

pub data RestorationState : Type 0 where
  not_needed eligible restored blocked_by_concurrent_change retained : RestorationState

pub record ProfileSnapshot : Type 0 where
  pub snapshot_id : String
  pub client : Client
  pub captured_paths : List String
  pub before_identity_sha256 : String
  pub expected_post_identity_sha256 : Option String
  pub protected_copy : String
  pub restoration_state : RestorationState

unfoldable pub profile_snapshot_schema : (String → Bool) → ProfileSnapshot → Bool
unfolding is_relative_locator
profile_snapshot_schema is_uuid s =
    is_uuid s.snapshot_id
    && (leb (length s.captured_paths) 16 && all is_relative_locator s.captured_paths)
    && is_sha256 s.before_identity_sha256
    && optional is_sha256 s.expected_post_identity_sha256
    && is_relative_locator s.protected_copy

pub data BackupStatus : Type 0 where
  candidate validated invalid retained removed : BackupStatus

pub record BackupRecord : Type 0 where
  pub backup_id : String
  pub installation_id : String
  pub status : BackupStatus
  pub created_at : String
  pub archive_sha256 : String
  pub source_release_id : String
  pub service_secret_references : List ServiceSecretReference
  pub client_credential_references : List String

unfoldable pub backup_record_schema : (String → Bool) → (String → Bool) → BackupRecord → Bool
unfolding service_secret_reference_schema
backup_record_schema is_uuid is_datetime b =
    is_uuid b.backup_id
    && is_uuid b.installation_id
    && is_datetime b.created_at
    && is_sha256 b.archive_sha256
    && short_text 128 b.source_release_id
    && (leb (length b.service_secret_references) 2
        && all service_secret_reference_schema b.service_secret_references)
    && (leb (length b.client_credential_references) 2 && all is_uuid b.client_credential_references)

-- The tuple of tools is fixed by the schema.
pub record VerificationRecord : Type 0 where
  pub verification_id : String
  pub installation_id : String
  pub client : Client
  pub client_version : String
  pub verified_at : String
  pub contract_sha256 : String
  pub provenance_check : Bool
  pub advisory_check : Bool
  pub passed : Bool

unfoldable pub verification_record_schema :
    (String → Bool) → (String → Bool) → VerificationRecord → Bool
verification_record_schema is_uuid is_datetime v =
    is_uuid v.verification_id
    && is_uuid v.installation_id
    && short_text 32 v.client_version
    && is_datetime v.verified_at
    && is_sha256 v.contract_sha256
    && (not v.passed || (v.provenance_check && v.advisory_check))

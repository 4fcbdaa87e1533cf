-- ===== src/Installation/Secrets.antt =====
-- What the schemas of the stored records promise.
use mathlib.Core.List.{Perm}
use mathlib.Core.List.Perm
use skillwire.Base.{Bool, true, ◌≡◌, List, [], ◌∷◌, String, arith, length, all, All, ===_iff}
use skillwire.Installation.Records.{
  SecretKind, database_password, application_pepper, ServiceSecretReference, ServiceSecretSet,
  service_secret_set_schema, service_secret_reference_schema, kinds, kind_set, secret_path,
}

reference-path :
    (s : ServiceSecretReference)
    → service_secret_reference_schema s ≡ true
    → s.relative_path ≡ secret_path s.kind
unfolding service_secret_reference_schema
reference-path s h = (===_iff s.relative_path (secret_path s.kind)).0 (ground arith)

both_kinds :
    (j k : SecretKind)
    → length (kind_set [] (j ∷ k ∷ [])) ≡ 2
    → Perm (j ∷ k ∷ []) (database_password ∷ application_pepper ∷ [])
both_kinds database_password database_password h = absurd (cc h)
both_kinds application_pepper application_pepper h = absurd (cc h)
both_kinds database_password application_pepper h = Perm.refl _
both_kinds application_pepper database_password h =
    Perm.swap database_password application_pepper []

pair_of :
    (ss : List ServiceSecretReference)
    → length ss ≡ 2
    → all service_secret_reference_schema ss ≡ true
    → length (kind_set [] (kinds ss)) ≡ 2
    → Perm (kinds ss) (database_password ∷ application_pepper ∷ [])
      × All (λ s. s.relative_path ≡ secret_path s.kind) ss
pair_of [] l a k = absurd (cc l)
pair_of (s ∷ []) l a k = absurd (cc l)
pair_of (s ∷ t ∷ []) l a k = (
  both_kinds s.kind t.kind k,
  (reference-path s (ground arith), (reference-path t (ground arith), tt)),
)
pair_of (s ∷ t ∷ u ∷ us) l a k = absurd (cc l)

-- A set of service secrets that meets the schema has one password of the database and one pepper of
-- the application, and nothing else, each at its own path.
pub service_secret_set_schema-kinds :
    (is_uuid : String → Bool) (s : ServiceSecretSet)
    → service_secret_set_schema is_uuid s ≡ true
    → Perm (kinds s.secrets) (database_password ∷ application_pepper ∷ [])
      × All (λ r. r.relative_path ≡ secret_path r.kind) s.secrets
unfolding service_secret_set_schema
service_secret_set_schema-kinds is_uuid s h =
    pair_of s.secrets (ground arith) (ground arith) (ground arith)

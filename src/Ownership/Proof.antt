-- ===== src/Ownership/Proof.antt =====
-- src/onboarding/domain/ownership.ts: `OwnershipProofSchema` and `requireMatchingOwnership`.
use skillwire.Base.{
  Bool, not, ◌&&◌, String, leb, utf16_length, is_sha256, ◌===◌, Result, error, throw_if,
}

pub data ProofKind : Type 0 where
  release launcher compose_project volume service_secret client_mcp client_plugin : ProofKind
  client_marketplace client_credential client_key : ProofKind

pub record OwnershipProof : Type 0 where
  pub installation_id : String
  pub asset_id : String
  pub kind : ProofKind
  pub identity_sha256 : String
  pub created_by_operation : String

unfoldable pub ownership_proof_schema : (String → Bool) → OwnershipProof → Bool
ownership_proof_schema is_uuid p =
    is_uuid p.installation_id
    && (leb 1 (utf16_length p.asset_id) && leb (utf16_length p.asset_id) 256)
    && is_sha256 p.identity_sha256
    && is_uuid p.created_by_operation

unfoldable pub require_matching_ownership : OwnershipProof → String → Result (Unit {0})
require_matching_ownership expected actual =
    throw_if (not (expected.identity_sha256 === actual)) (error "Owned asset identity has drifted")

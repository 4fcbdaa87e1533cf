-- ===== src/Journal/OperationRecord.antt =====
-- src/onboarding/domain/operation-journal.ts: `OperationRecordSchema`. `is_uuid` and `is_datetime` are
-- the formats of the schema library.
use skillwire.Base.{Bool, ◌&&◌, String, is_sha256}

pub data Command : Type 0 where
  setup clients_install clients_uninstall clients_rotate_key repair backup upgrade : Command
  rotate_service_secret uninstall purge : Command

pub data OperationState : Type 0 where
  previewed confirmed running compensating completed incomplete cancelled : OperationState
  recovery_required failed : OperationState

pub data RollbackBoundary : Type 0 where
  automatic client_only application_config database_restore_required unrecoverable :
      RollbackBoundary

pub record OperationRecord : Type 0 where
  pub operation_id : String
  pub installation_id : String
  pub command : Command
  pub preview_hash : String
  pub state : OperationState
  pub rollback_boundary : RollbackBoundary
  pub created_at : String
  pub updated_at : String

unfoldable pub operation_record_schema : (String → Bool) → (String → Bool) → OperationRecord → Bool
operation_record_schema is_uuid is_datetime o =
    is_uuid o.operation_id
    && is_uuid o.installation_id
    && is_sha256 o.preview_hash
    && is_datetime o.created_at
    && is_datetime o.updated_at

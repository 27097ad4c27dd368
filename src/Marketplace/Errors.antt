-- ===== src/Marketplace/Errors.antt =====
-- packages/marketplace-domain/src/errors.ts. An error is its code: the message and the details are
-- texts for the reader.
use token_streaming.Common.Outcome.{Outcome}

pub data ErrorCode : Type 0 where
  invalid_argument : ErrorCode
  credential_material_rejected : ErrorCode
  tenant_mismatch : ErrorCode
  invalid_event_history : ErrorCode
  invalid_supplier_state : ErrorCode
  verification_incomplete : ErrorCode
  authorization_required : ErrorCode
  authorization_scope_mismatch : ErrorCode
  gateway_attestation_mismatch : ErrorCode
  service_evidence_mismatch : ErrorCode
  privacy_acknowledgement_required : ErrorCode
  invalid_artifact_task_state : ErrorCode
  duplicate_record : ErrorCode
  unsupported_data_class : ErrorCode

-- A call that may throw a `MarketplaceDomainError`.
abbrev pub Result : Type 0 → Type 0
Result A = Outcome ErrorCode A

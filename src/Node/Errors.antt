-- ===== src/Node/Errors.antt =====
-- apps/supplier-node/src/errors.ts, with the codes of packages/protocol/src/supplier-gateway.ts. The
-- message is a text for the reader.
use token_streaming.Common.{ℕ, Bool, true, false}

pub data GatewayErrorCode : Type 0 where
  invalid_request authentication_failed signature_invalid request_expired : GatewayErrorCode
  replay_detected model_not_allowed data_class_not_allowed capacity_exceeded : GatewayErrorCode
  idempotency_conflict upstream_auth_failed upstream_rate_limited upstream_timeout :
      GatewayErrorCode
  upstream_unavailable upstream_response_invalid upstream_model_mismatch : GatewayErrorCode
  internal_error : GatewayErrorCode

pub record NodeError : Type 0 where
  pub code : GatewayErrorCode
  pub status : ℕ
  pub retryable : Bool

-- What a call throws: a `SupplierNodeError`, or an `Error` of any other kind.
pub data Thrown : Type 0 where
  coded : NodeError → Thrown
  plain : Thrown

unfoldable pub normalize_supplier_node_error : Thrown → NodeError
normalize_supplier_node_error (coded e) = e
normalize_supplier_node_error plain = record {
  code = internal_error;
  status = 500;
  retryable = true;
}

-- `new SupplierNodeError(code, message, status)`
abbrev pub refusal : GatewayErrorCode → ℕ → Thrown
refusal code status = coded (record { code = code; status = status; retryable = false })

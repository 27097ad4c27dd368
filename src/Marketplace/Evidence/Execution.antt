-- ===== src/Marketplace/Evidence/Execution.antt =====
-- packages/marketplace-domain/src/execution-evidence.ts
use token_streaming.Common.{Bool, not, ◌||◌, Option, List, [], ◌∷◌, ◌==◌}
use token_streaming.Common.Outcome.{ok, throw_if, or_throw, ◌>>=◌, ◌>>◌}
use token_streaming.Js.{Value, Engine, get}
use token_streaming.Js.Texts.{Text, text, text_eq}
use token_streaming.Marketplace.Errors.{Result, service_evidence_mismatch}
use token_streaming.Marketplace.SafeInput.{assert_safe_input}
use token_streaming.Marketplace.Validation.{
  assert_exact_keys, assert_identifier, assert_text, assert_timestamp, text_of,
}
use token_streaming.Marketplace.Evidence.{
  Usage, validate_usage, assert_sha256, same_usage, is_within_clock_window, is_text,
  read_optional_text,
}

-- `SupplierExecutionEvidenceExpectation`; its times are tested later than the rest.
pub record ExecutionExpectation : Type 0 where
  pub request_id : Text
  pub provider_id : Text
  pub requested_model : Text
  pub input_sha256 : Text
  pub output_sha256 : Text
  pub usage : Usage
  pub request_started_at : Value
  pub verified_at : Value

-- `SupplierGatewayExecutionEvidence`; its version and its time are tested later than the rest.
pub record ExecutionEvidence : Type 0 where
  pub evidence_version : Value
  pub request_id : Text
  pub provider_id : Text
  pub requested_model : Text
  pub served_model : Text
  pub provider_request_id : Text
  pub input_sha256 : Text
  pub output_sha256 : Text
  pub usage : Usage
  pub completed_at : Value
  pub receipt_ref : Option Text

-- `VerifiedSupplierExecutionEvidence`
pub record VerifiedExecution : Type 0 where
  pub provider_id : Text
  pub requested_model : Text
  pub served_model : Text
  pub provider_request_id : Text
  pub input_sha256 : Text
  pub output_sha256 : Text
  pub usage : Usage
  pub completed_at : Text
  pub receipt_ref : Option Text

-- `SUPPLIER_GATEWAY_EXECUTION_EVIDENCE_VERSION`
unfoldable pub execution_version : Text
execution_version = text "gongsuanyun.execution-evidence.v1"

unfoldable pub execution_expectation_keys : List Text
execution_expectation_keys =
    text "requestId"
    ∷ text "providerId"
    ∷ text "requestedModel"
    ∷ text "inputSha256"
    ∷ text "outputSha256"
    ∷ text "usage"
    ∷ text "requestStartedAt"
    ∷ text "verifiedAt"
    ∷ []

unfoldable pub execution_evidence_keys : List Text
execution_evidence_keys =
    text "evidence_version"
    ∷ text "request_id"
    ∷ text "provider_id"
    ∷ text "requested_model"
    ∷ text "served_model"
    ∷ text "provider_request_id"
    ∷ text "input_sha256"
    ∷ text "output_sha256"
    ∷ text "usage"
    ∷ text "completed_at"
    ∷ text "receipt_ref"
    ∷ []

-- `validateExpectation`
unfoldable pub validate_execution_expectation : Engine → Value → Result ExecutionExpectation
validate_execution_expectation js value = do
  assert_safe_input js value
  assert_exact_keys js value execution_expectation_keys
  request_id ← assert_identifier (get js value (text "requestId"))
  provider_id ← assert_identifier (get js value (text "providerId"))
  model ← assert_text (get js value (text "requestedModel")) 200
  input ← assert_sha256 (get js value (text "inputSha256"))
  output ← assert_sha256 (get js value (text "outputSha256"))
  usage ← validate_usage js (get js value (text "usage"))
  ok (record {
    request_id = request_id;
    provider_id = provider_id;
    requested_model = model;
    input_sha256 = input;
    output_sha256 = output;
    usage = usage;
    request_started_at = get js value (text "requestStartedAt");
    verified_at = get js value (text "verifiedAt");
  })

-- The block under `try` in `validateEvidenceShape`.
unfoldable pub read_execution_evidence : Engine → Value → Result ExecutionEvidence
read_execution_evidence js value = do
  assert_safe_input js value
  assert_exact_keys js value execution_evidence_keys
  request_id ← assert_identifier (get js value (text "request_id"))
  provider_id ← assert_identifier (get js value (text "provider_id"))
  requested ← assert_text (get js value (text "requested_model")) 200
  served ← assert_text (get js value (text "served_model")) 200
  provider_request ← assert_text (get js value (text "provider_request_id")) 256
  input ← assert_sha256 (get js value (text "input_sha256"))
  output ← assert_sha256 (get js value (text "output_sha256"))
  usage ← validate_usage js (get js value (text "usage"))
  receipt ← read_optional_text (get js value (text "receipt_ref")) 256
  ok (record {
    evidence_version = get js value (text "evidence_version");
    request_id = request_id;
    provider_id = provider_id;
    requested_model = requested;
    served_model = served;
    provider_request_id = provider_request;
    input_sha256 = input;
    output_sha256 = output;
    usage = usage;
    completed_at = get js value (text "completed_at");
    receipt_ref = receipt;
  })

unfoldable pub validate_execution_evidence : Engine → Value → Result ExecutionEvidence
validate_execution_evidence js value =
    or_throw (read_execution_evidence js value) service_evidence_mismatch

-- The tests before `!usageMatches` in `verifySupplierExecutionEvidence`.
unfoldable pub differs_execution : ExecutionExpectation → ExecutionEvidence → Bool
differs_execution expectation evidence =
    not (is_text evidence.evidence_version execution_version)
    || not (evidence.request_id == expectation.request_id)
    || not (evidence.provider_id == expectation.provider_id)
    || not (evidence.requested_model == expectation.requested_model)
    || not (evidence.served_model == expectation.requested_model)
    || not (evidence.input_sha256 == expectation.input_sha256)
    || not (evidence.output_sha256 == expectation.output_sha256)

unfoldable pub verified_execution : ExecutionEvidence → VerifiedExecution
verified_execution evidence = record {
  provider_id = evidence.provider_id;
  requested_model = evidence.requested_model;
  served_model = evidence.served_model;
  provider_request_id = evidence.provider_request_id;
  input_sha256 = evidence.input_sha256;
  output_sha256 = evidence.output_sha256;
  usage = evidence.usage;
  completed_at = text_of evidence.completed_at;
  receipt_ref = evidence.receipt_ref;
}

unfoldable pub verify_supplier_execution_evidence :
    Engine → Value → Value → Result VerifiedExecution
verify_supplier_execution_evidence js expectation_value evidence_value = do
  expectation ← validate_execution_expectation js expectation_value
  evidence ← validate_execution_evidence js evidence_value
  completed ← assert_timestamp js evidence.completed_at
  started ← assert_timestamp js expectation.request_started_at
  verified ← assert_timestamp js expectation.verified_at
  throw_if
      (differs_execution expectation evidence
        || not (same_usage evidence.usage expectation.usage)
        || not (is_within_clock_window completed started verified))
      service_evidence_mismatch
  ok (verified_execution evidence)

-- ===== src/Marketplace/Attestation.antt =====
-- packages/marketplace-domain/src/gateway-attestation.ts. The expectation's errors keep their code;
-- every failure of the gateway's answer is a mismatch.
pub mod Attested
use token_streaming.Common.{
  ℕ, Bool, true, not, ◌&&◌, ◌||◌, List, [], ◌∷◌, all, keep, contains, length, nat_beq, ◌==◌,
  if◌then◌else◌,
}
use token_streaming.Common.Outcome.{ok, err, throw_if, or_throw, ◌>>=◌, ◌>>◌}
use token_streaming.Js.{Value, str, Engine, get}
use token_streaming.Js.Texts.{Text, text, text_eq, includes, ends_with}
use token_streaming.Marketplace.Errors.{
  Result, invalid_argument, unsupported_data_class, gateway_attestation_mismatch,
}
use token_streaming.Marketplace.Protocol.{CapacityLimits, DataClass, data_class_eq}
use token_streaming.Marketplace.SafeInput.{assert_safe_input}
use token_streaming.Marketplace.Validation.{
  assert_exact_keys, assert_identifier, assert_text, assert_unique_strings, assert_capacity_limits,
  read_limits,
}
use token_streaming.Marketplace.Evidence.{is_text}
use token_streaming.Marketplace.Patterns.{matches_pattern, is_within_limits}

-- `SupplierGatewayAttestationExpectation`
pub record AttestationExpectation : Type 0 where
  pub request_id : Text
  pub challenge : Text
  pub provider_id : Text
  pub model_pattern : Text
  pub data_classes : List DataClass
  pub limits : CapacityLimits

-- `SupplierGatewayAttestationResponse`; its status and version are tested later than the rest.
pub record Attestation : Type 0 where
  pub status : Value
  pub protocol_version : Value
  pub provider_id : Text
  pub allowed_models : List Text
  pub allowed_data_classes : List DataClass
  pub limits : CapacityLimits
  pub request_id : Text
  pub challenge : Text

-- `VerifiedSupplierGatewayAttestation`
pub record VerifiedAttestation : Type 0 where
  pub provider_id : Text
  pub matched_models : List Text
  pub data_classes : List DataClass
  pub limits : CapacityLimits

-- `SUPPLIER_GATEWAY_PROTOCOL_VERSION`
unfoldable pub gateway_version : Text
gateway_version = text "gongsuanyun.gateway.v3"

unfoldable pub attestation_expectation_keys : List Text
attestation_expectation_keys =
    text "requestId"
    ∷ text "challenge"
    ∷ text "providerId"
    ∷ text "modelPattern"
    ∷ text "dataClasses"
    ∷ text "limits"
    ∷ []

unfoldable pub attestation_keys : List Text
attestation_keys =
    text "status"
    ∷ text "protocol_version"
    ∷ text "provider_id"
    ∷ text "allowed_models"
    ∷ text "allowed_data_classes"
    ∷ text "limits"
    ∷ text "request_id"
    ∷ text "challenge"
    ∷ []

unfoldable pub remote_limit_keys : List Text
remote_limit_keys =
    text "requests_per_minute"
    ∷ text "tokens_per_minute"
    ∷ text "concurrency"
    ∷ text "max_output_tokens"
    ∷ []

-- The callbacks that accept P0 and P1 only; what they throw under `try` is caught.
unfoldable pub assert_open_class : Text → Result DataClass
assert_open_class s =
    if s == text "P0"
    then ok DataClass.p0
    else if s == text "P1"
    then ok DataClass.p1
    else err unsupported_data_class

-- The callback on the models of the gateway.
unfoldable pub assert_exact_model : Text → Result Text
assert_exact_model s = do
  model ← assert_text (str s) 120
  throw_if (includes model (text "*")) invalid_argument
  ok model

-- The tests of `verifySupplierGatewayAttestation` on the expectation.
unfoldable pub validate_attestation_expectation : Engine → Value → Result AttestationExpectation
validate_attestation_expectation js value = do
  assert_safe_input js value
  assert_exact_keys js value attestation_expectation_keys
  request_id ← assert_identifier (get js value (text "requestId"))
  challenge ← assert_text (get js value (text "challenge")) 128
  provider_id ← assert_identifier (get js value (text "providerId"))
  model_pattern ← assert_text (get js value (text "modelPattern")) 120
  throw_if (includes model_pattern (text "*") && not (ends_with model_pattern b'*'))
      invalid_argument
  data_classes ← assert_unique_strings js (get js value (text "dataClasses")) assert_open_class
  limits ← assert_capacity_limits js (get js value (text "limits"))
  ok (record {
    request_id = request_id;
    challenge = challenge;
    provider_id = provider_id;
    model_pattern = model_pattern;
    data_classes = data_classes;
    limits = limits;
  })

-- The block under `try` in `assertRemoteShape`. `assertCapacityLimits` gets a new object with
-- exactly its four keys.
unfoldable pub read_attestation : Engine → Value → Result Attestation
read_attestation js value = do
  assert_exact_keys js value attestation_keys
  request_id ← assert_identifier (get js value (text "request_id"))
  challenge ← assert_text (get js value (text "challenge")) 128
  provider_id ← assert_identifier (get js value (text "provider_id"))
  models ← assert_unique_strings js (get js value (text "allowed_models")) assert_exact_model
  data_classes ←
      assert_unique_strings js (get js value (text "allowed_data_classes")) assert_open_class
  assert_exact_keys js (get js value (text "limits")) remote_limit_keys
  limits ←
      read_limits (get js (get js value (text "limits")) (text "requests_per_minute"))
        (get js (get js value (text "limits")) (text "tokens_per_minute"))
        (get js (get js value (text "limits")) (text "concurrency"))
        (get js (get js value (text "limits")) (text "max_output_tokens"))
  ok (record {
    status = get js value (text "status");
    protocol_version = get js value (text "protocol_version");
    provider_id = provider_id;
    allowed_models = models;
    allowed_data_classes = data_classes;
    limits = limits;
    request_id = request_id;
    challenge = challenge;
  })

unfoldable pub assert_remote_shape : Engine → Value → Result Attestation
assert_remote_shape js value = or_throw (read_attestation js value) gateway_attestation_mismatch

-- `matchedModels`
unfoldable pub matched_models : AttestationExpectation → Attestation → List Text
matched_models expectation attestation =
    keep (λ model. matches_pattern model expectation.model_pattern) attestation.allowed_models

-- The tests of the last `if`.
unfoldable pub differs_attestation : AttestationExpectation → Attestation → Bool
differs_attestation expectation attestation =
    not (is_text attestation.status (text "ready"))
    || not (is_text attestation.protocol_version gateway_version)
    || not (attestation.request_id == expectation.request_id)
    || not (attestation.challenge == expectation.challenge)
    || not (attestation.provider_id == expectation.provider_id)
    || nat_beq (length (matched_models expectation attestation)) 0
    || not (all (contains attestation.allowed_data_classes) expectation.data_classes)
    || not (is_within_limits expectation.limits attestation.limits)

unfoldable pub verified_attestation : AttestationExpectation → Attestation → VerifiedAttestation
verified_attestation expectation attestation = record {
  provider_id = attestation.provider_id;
  matched_models = matched_models expectation attestation;
  data_classes = expectation.data_classes;
  limits = expectation.limits;
}

unfoldable pub verify_supplier_gateway_attestation :
    Engine → Value → Value → Result VerifiedAttestation
verify_supplier_gateway_attestation js expectation_value attestation_value = do
  expectation ← validate_attestation_expectation js expectation_value
  assert_safe_input js attestation_value
  attestation ← assert_remote_shape js attestation_value
  throw_if (differs_attestation expectation attestation) gateway_attestation_mismatch
  ok (verified_attestation expectation attestation)

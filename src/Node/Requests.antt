-- ===== src/Node/Requests.antt =====
-- apps/supplier-node/src/runtime.ts: what a node reads of a request's body, and what it asks of a
-- request and of a provider's result. `JSON.parse` is a parameter, `none` where it throws.
use token_streaming.Common.{
  ℕ, ◌+◌, Bool, true, not, ◌&&◌, ◌||◌, Option, none, some, List, [], ◌∷◌, any, contains, length,
  ltb, leb, nat_eq, ◌==◌, if◌then◌else◌,
}
use token_streaming.Common.Outcome.{Outcome, ok, err, throw_if, ◌>>=◌, ◌>>◌}
use token_streaming.Js.{Number, natural, max_safe}
use token_streaming.Js.Texts.{Text, text, text_eq}
use token_streaming.Js.Json.{Json, bool, object, Fields, keys, property, as_text, as_natural}
use token_streaming.Js.Utf8.{utf8_length}
use token_streaming.Marketplace.Evidence.{Usage}
use token_streaming.Node.Errors.{
  Thrown, refusal, invalid_request, model_not_allowed, data_class_not_allowed, capacity_exceeded,
  upstream_response_invalid, upstream_model_mismatch,
}
use token_streaming.Node.Signature.{is_job_id, is_url_unit}
use token_streaming.Common.{all}

-- `SupplierGatewayInferenceRequest`, without the version and `stream`, which have one value each.
pub record InferenceRequest : Type 0 where
  pub request_id : Text
  pub model : Text
  pub input : Text
  pub data_class : Text
  pub max_output_tokens : ℕ

pub record AttestationRequest : Type 0 where
  pub request_id : Text
  pub challenge : Text

-- The part of `SupplierNodeConfig` that requests are held against.
pub record NodeConfig : Type 0 where
  pub provider_id : Text
  pub allowed_models : List Text
  pub allowed_data_classes : List Text
  pub requests_per_minute : ℕ
  pub tokens_per_minute : ℕ
  pub concurrency : ℕ
  pub max_output_tokens : ℕ
  pub max_input_bytes : ℕ

pub record ProviderUsage : Type 0 where
  pub input_tokens : Number
  pub output_tokens : Number
  pub total_tokens : Number

-- `SupplierProviderResult`
pub record ProviderResult : Type 0 where
  pub output : Text
  pub provider_request_id : Text
  pub served_model : Text
  pub receipt_ref : Option Text
  pub usage : ProviderUsage

abbrev pub invalid : Thrown
invalid = refusal invalid_request 400

-- `SUPPLIER_GATEWAY_PROTOCOL_VERSION`
unfoldable pub request_version : Text
unfolding text
request_version = text "gongsuanyun.gateway.v3"

unfoldable pub inference_keys : List Text
unfolding text
inference_keys =
    text "protocol_version"
    ∷ text "request_id"
    ∷ text "model"
    ∷ text "input"
    ∷ text "data_class"
    ∷ text "max_output_tokens"
    ∷ text "stream"
    ∷ []

unfoldable pub attestation_request_keys : List Text
unfolding text
attestation_request_keys = text "protocol_version" ∷ text "request_id" ∷ text "challenge" ∷ []

-- `keys.length !== expected.length || keys.some((key) => !expected.includes(key))`
unfoldable pub has_other_keys : List Text → List Text → Bool
has_other_keys found expected =
    not (length found == length expected) || any (λ key. not (contains expected key)) found

-- The text, if it passes the test.
unfoldable pub required_text : Option Json → (Text → Bool) → Outcome Thrown Text
required_text value test = elim (as_text value) [
  | none ↦ err invalid
  | some t ↦ if test t then ok t else err invalid
]

unfoldable pub is_version : Text → Bool
is_version t = t == request_version

unfoldable pub is_model : Text → Bool
is_model t = leb 1 (length t) && leb (length t) 200

unfoldable pub is_input : Text → Bool
is_input t = leb 1 (length t)

unfoldable pub is_data_class : Text → Bool
unfolding text
is_data_class t = t == text "P0" || t == text "P1"

-- `/^[A-Za-z0-9_-]{32,128}$/`
unfoldable pub is_challenge : Text → Bool
is_challenge t = all is_url_unit t && leb 32 (length t) && leb (length t) 128

-- `Number.isSafeInteger(value) && value >= 1`
unfoldable pub required_positive : Option Json → Outcome Thrown ℕ
required_positive value = elim (as_natural value) [
  | none ↦ err invalid
  | some n ↦ if leb 1 n then ok n else err invalid
]

-- `value !== false`
abbrev pub is_not_false : Option Json → Bool
is_not_false (some (bool b)) = b
is_not_false _ = true

unfoldable pub read_inference : Fields → Outcome Thrown InferenceRequest
unfolding text
read_inference fields = do
  throw_if (has_other_keys (keys fields) inference_keys) invalid
  version ← required_text (property (text "protocol_version") fields) is_version
  request_id ← required_text (property (text "request_id") fields) is_job_id
  model ← required_text (property (text "model") fields) is_model
  input ← required_text (property (text "input") fields) is_input
  data_class ← required_text (property (text "data_class") fields) is_data_class
  max_output_tokens ← required_positive (property (text "max_output_tokens") fields)
  throw_if (is_not_false (property (text "stream") fields)) invalid
  ok (record {
    request_id = request_id;
    model = model;
    input = input;
    data_class = data_class;
    max_output_tokens = max_output_tokens;
  })

unfoldable pub read_attestation_request : Fields → Outcome Thrown AttestationRequest
unfolding text
read_attestation_request fields = do
  throw_if (has_other_keys (keys fields) attestation_request_keys) invalid
  version ← required_text (property (text "protocol_version") fields) is_version
  request_id ← required_text (property (text "request_id") fields) is_job_id
  challenge ← required_text (property (text "challenge") fields) is_challenge
  ok (record { request_id = request_id; challenge = challenge })

-- `JSON.parse`, and `isRecord`.
abbrev pub parsed_fields : Option Json → Outcome Thrown Fields
parsed_fields (some (object fields)) = ok fields
parsed_fields _ = err invalid

unfoldable pub parse_inference_request :
    (Text → Option Json) → Text → Outcome Thrown InferenceRequest
parse_inference_request parse raw_body = do
  fields ← parsed_fields (parse raw_body)
  read_inference fields

unfoldable pub parse_attestation_request :
    (Text → Option Json) → Text → Outcome Thrown AttestationRequest
parse_attestation_request parse raw_body = do
  fields ← parsed_fields (parse raw_body)
  read_attestation_request fields

-- `validateRequestAgainstConfig`
unfoldable pub validate_request_against_config :
    InferenceRequest → NodeConfig → Outcome Thrown (Unit {0})
validate_request_against_config request config = do
  throw_if (not (contains config.allowed_models request.model)) (refusal model_not_allowed 403)
  throw_if (not (contains config.allowed_data_classes request.data_class))
      (refusal data_class_not_allowed 403)
  throw_if (ltb config.max_input_bytes (utf8_length request.input)) (refusal invalid_request 413)
  throw_if (ltb config.max_output_tokens request.max_output_tokens) (refusal capacity_exceeded 409)

abbrev pub bad_response : Thrown
bad_response = refusal upstream_response_invalid 502

-- `Number.isSafeInteger(n) && n >= least`
unfoldable pub usage_from : ℕ → Number → Outcome Thrown ℕ
usage_from least (natural n) = if leb n max_safe && leb least n then ok n else err bad_response
usage_from least _ = err bad_response

-- A text of 1 to `longest` units.
abbrev pub is_sized : ℕ → Text → Bool
is_sized longest t = leb 1 (length t) && leb (length t) longest

-- `validateProviderResult`, with the usage that it has read. A total that is no natural number differs
-- from the sum of two.
unfoldable pub validate_provider_result : ProviderResult → Text → ℕ → Outcome Thrown Usage
validate_provider_result result requested_model maximum_output_tokens = do
  throw_if
      (not (
        is_sized 200_000 result.output
        && is_sized 256 result.provider_request_id
        && is_sized 200 result.served_model))
      bad_response
  throw_if (not (result.served_model == requested_model)) (refusal upstream_model_mismatch 502)
  input ← usage_from 1 result.usage.input_tokens
  output ← usage_from 0 result.usage.output_tokens
  throw_if (ltb maximum_output_tokens output) bad_response
  total ← usage_from 0 result.usage.total_tokens
  throw_if (not (total == input + output)) bad_response
  ok (record { input_tokens = input; output_tokens = output; total_tokens = total })

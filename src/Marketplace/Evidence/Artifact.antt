-- ===== src/Marketplace/Evidence/Artifact.antt =====
-- packages/marketplace-domain/src/artifact-evidence.ts
use token_streaming.Common.{ℕ, Bool, not, ◌&&◌, ◌||◌, List, [], ◌∷◌, leb, ◌==◌, if◌then◌else◌}
use token_streaming.Common.Outcome.{ok, err, throw_if, or_throw, ◌>>=◌, ◌>>◌}
use token_streaming.Js.{natural, Value, num, Engine, get, max_safe}
use token_streaming.Js.Texts.{Text, text, text_eq}
use token_streaming.Marketplace.Errors.{Result, service_evidence_mismatch}
use token_streaming.Marketplace.SafeInput.{assert_safe_input}
use token_streaming.Marketplace.Validation.{
  assert_exact_keys, assert_identifier, assert_text, assert_timestamp, text_of,
}
use token_streaming.Marketplace.Evidence.{
  Usage, validate_usage, assert_sha256, same_usage, is_within_clock_window, is_text,
}

-- `SupplierArtifactEvidenceExpectation`; its times are tested later than the rest.
pub record ArtifactExpectation : Type 0 where
  pub task_id : Text
  pub provider_id : Text
  pub requested_model : Text
  pub artifact_id : Text
  pub artifact_manifest_sha256 : Text
  pub output_sha256 : Text
  pub usage : Usage
  pub request_started_at : Value
  pub verified_at : Value

-- `SupplierArtifactExecutionEvidence`; its version and its time are tested later than the rest.
pub record ArtifactEvidence : Type 0 where
  pub evidence_version : Value
  pub task_id : Text
  pub provider_id : Text
  pub requested_model : Text
  pub served_model : Text
  pub artifact_id : Text
  pub artifact_manifest_sha256 : Text
  pub artifact_content_sha256 : Text
  pub output_sha256 : Text
  pub provider_request_ids_sha256 : Text
  pub segments_completed : ℕ
  pub usage : Usage
  pub completed_at : Value

-- `VerifiedSupplierArtifactEvidence`
pub record VerifiedArtifact : Type 0 where
  pub provider_id : Text
  pub requested_model : Text
  pub served_model : Text
  pub artifact_id : Text
  pub artifact_manifest_sha256 : Text
  pub artifact_content_sha256 : Text
  pub output_sha256 : Text
  pub provider_request_ids_sha256 : Text
  pub segments_completed : ℕ
  pub usage : Usage
  pub completed_at : Text

-- `SUPPLIER_ARTIFACT_EXECUTION_EVIDENCE_VERSION`
unfoldable pub artifact_version : Text
artifact_version = text "gongsuanyun.artifact-evidence.v1"

unfoldable pub artifact_expectation_keys : List Text
artifact_expectation_keys =
    text "taskId"
    ∷ text "providerId"
    ∷ text "requestedModel"
    ∷ text "artifactId"
    ∷ text "artifactManifestSha256"
    ∷ text "outputSha256"
    ∷ text "usage"
    ∷ text "requestStartedAt"
    ∷ text "verifiedAt"
    ∷ []

unfoldable pub artifact_evidence_keys : List Text
artifact_evidence_keys =
    text "evidence_version"
    ∷ text "task_id"
    ∷ text "provider_id"
    ∷ text "requested_model"
    ∷ text "served_model"
    ∷ text "artifact_id"
    ∷ text "artifact_manifest_sha256"
    ∷ text "artifact_content_sha256"
    ∷ text "output_sha256"
    ∷ text "provider_request_ids_sha256"
    ∷ text "segments_completed"
    ∷ text "usage"
    ∷ text "completed_at"
    ∷ []

-- `validateExpectation`
unfoldable pub validate_artifact_expectation : Engine → Value → Result ArtifactExpectation
validate_artifact_expectation js value = do
  assert_safe_input js value
  assert_exact_keys js value artifact_expectation_keys
  task_id ← assert_identifier (get js value (text "taskId"))
  provider_id ← assert_identifier (get js value (text "providerId"))
  artifact_id ← assert_identifier (get js value (text "artifactId"))
  model ← assert_text (get js value (text "requestedModel")) 200
  manifest ← assert_sha256 (get js value (text "artifactManifestSha256"))
  output ← assert_sha256 (get js value (text "outputSha256"))
  usage ← validate_usage js (get js value (text "usage"))
  ok (record {
    task_id = task_id;
    provider_id = provider_id;
    requested_model = model;
    artifact_id = artifact_id;
    artifact_manifest_sha256 = manifest;
    output_sha256 = output;
    usage = usage;
    request_started_at = get js value (text "requestStartedAt");
    verified_at = get js value (text "verifiedAt");
  })

-- The test of `segments_completed`: a safe integer from 1 to 100 000.
unfoldable pub assert_segments : Value → Result ℕ
assert_segments (num (natural n)) =
    if leb n max_safe && leb 1 n && leb n 100_000 then ok n else err service_evidence_mismatch
assert_segments _ = err service_evidence_mismatch

-- The block under `try` in `validateEvidence`.
unfoldable pub read_artifact_evidence : Engine → Value → Result ArtifactEvidence
read_artifact_evidence js value = do
  assert_safe_input js value
  assert_exact_keys js value artifact_evidence_keys
  task_id ← assert_identifier (get js value (text "task_id"))
  provider_id ← assert_identifier (get js value (text "provider_id"))
  artifact_id ← assert_identifier (get js value (text "artifact_id"))
  requested ← assert_text (get js value (text "requested_model")) 200
  served ← assert_text (get js value (text "served_model")) 200
  manifest ← assert_sha256 (get js value (text "artifact_manifest_sha256"))
  content ← assert_sha256 (get js value (text "artifact_content_sha256"))
  output ← assert_sha256 (get js value (text "output_sha256"))
  requests ← assert_sha256 (get js value (text "provider_request_ids_sha256"))
  segments ← assert_segments (get js value (text "segments_completed"))
  usage ← validate_usage js (get js value (text "usage"))
  ok (record {
    evidence_version = get js value (text "evidence_version");
    task_id = task_id;
    provider_id = provider_id;
    requested_model = requested;
    served_model = served;
    artifact_id = artifact_id;
    artifact_manifest_sha256 = manifest;
    artifact_content_sha256 = content;
    output_sha256 = output;
    provider_request_ids_sha256 = requests;
    segments_completed = segments;
    usage = usage;
    completed_at = get js value (text "completed_at");
  })

unfoldable pub validate_artifact_evidence : Engine → Value → Result ArtifactEvidence
validate_artifact_evidence js value =
    or_throw (read_artifact_evidence js value) service_evidence_mismatch

-- The tests before `!sameUsage` in `verifySupplierArtifactEvidence`.
unfoldable pub differs_artifact : ArtifactExpectation → ArtifactEvidence → Bool
differs_artifact expectation evidence =
    not (is_text evidence.evidence_version artifact_version)
    || not (evidence.task_id == expectation.task_id)
    || not (evidence.provider_id == expectation.provider_id)
    || not (evidence.requested_model == expectation.requested_model)
    || not (evidence.served_model == expectation.requested_model)
    || not (evidence.artifact_id == expectation.artifact_id)
    || not (evidence.artifact_manifest_sha256 == expectation.artifact_manifest_sha256)
    || not (evidence.output_sha256 == expectation.output_sha256)

unfoldable pub verified_artifact : ArtifactEvidence → VerifiedArtifact
verified_artifact evidence = record {
  provider_id = evidence.provider_id;
  requested_model = evidence.requested_model;
  served_model = evidence.served_model;
  artifact_id = evidence.artifact_id;
  artifact_manifest_sha256 = evidence.artifact_manifest_sha256;
  artifact_content_sha256 = evidence.artifact_content_sha256;
  output_sha256 = evidence.output_sha256;
  provider_request_ids_sha256 = evidence.provider_request_ids_sha256;
  segments_completed = evidence.segments_completed;
  usage = evidence.usage;
  completed_at = text_of evidence.completed_at;
}

unfoldable pub verify_supplier_artifact_evidence : Engine → Value → Value → Result VerifiedArtifact
verify_supplier_artifact_evidence js expectation_value evidence_value = do
  expectation ← validate_artifact_expectation js expectation_value
  evidence ← validate_artifact_evidence js evidence_value
  completed ← assert_timestamp js evidence.completed_at
  started ← assert_timestamp js expectation.request_started_at
  verified ← assert_timestamp js expectation.verified_at
  throw_if
      (differs_artifact expectation evidence
        || not (same_usage evidence.usage expectation.usage)
        || not (is_within_clock_window completed started verified))
      service_evidence_mismatch
  ok (verified_artifact evidence)

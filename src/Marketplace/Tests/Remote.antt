-- ===== src/Marketplace/Tests/Remote.antt =====
-- Evidence and attestations: runs, and the theorems at inputs (packages/marketplace-domain/src/
-- execution-evidence.ts, artifact-evidence.ts and gateway-attestation.ts).
use token_streaming.Common.{◌≡◌, ◌↔◌, ◌⊎◌, refl, none, [], ◌∷◌}
use token_streaming.Common.Outcome.{ok, err}
use token_streaming.Js.{str, ref}
use token_streaming.Js.Texts.{text}
use token_streaming.Marketplace.Errors.{service_evidence_mismatch, gateway_attestation_mismatch}
use token_streaming.Marketplace.Protocol.{DataClass}
use token_streaming.Marketplace.Validation.{assert_timestamp}
use token_streaming.Marketplace.Evidence.Execution.{
  ExecutionExpectation, ExecutionEvidence, VerifiedExecution, read_execution_evidence,
  verify_supplier_execution_evidence,
}
use token_streaming.Marketplace.Evidence.Artifact.{
  ArtifactExpectation, ArtifactEvidence, VerifiedArtifact, read_artifact_evidence,
  verify_supplier_artifact_evidence,
}
use token_streaming.Marketplace.Evidence.Executed.{
  IsAcceptedExecution, verify_supplier_execution_evidence_iff,
  verify_supplier_execution_evidence-err,
}
use token_streaming.Marketplace.Evidence.Produced.{
  IsAcceptedArtifact, verify_supplier_artifact_evidence_iff, verify_supplier_artifact_evidence-err,
}
use token_streaming.Marketplace.Attestation.{
  AttestationExpectation, VerifiedAttestation, verify_supplier_gateway_attestation,
}
use token_streaming.Marketplace.Attestation.Attested.{
  IsAttested, verify_supplier_gateway_attestation_iff, verify_supplier_gateway_attestation-err,
}
use token_streaming.Marketplace.Code.{code}
use token_streaming.Marketplace.World.{engine}
use token_streaming.Marketplace.Cast.{world}

unfoldable execution_result : VerifiedExecution
unfolding text
execution_result = record {
  provider_id = text "provider-1";
  requested_model = text "model-a";
  served_model = text "model-a";
  provider_request_id = text "up-1";
  input_sha256 = text "0123456789abcdef0123456789abcdef0123456789abcdef0123456789abcdef";
  output_sha256 = text "0123456789abcdef0123456789abcdef0123456789abcdef0123456789abcdef";
  usage = record { input_tokens = 10; output_tokens = 5; total_tokens = 15 };
  completed_at = text "2026-01-02T00:00:00Z";
  receipt_ref = none;
}

unfoldable execution_expectation : ExecutionExpectation
unfolding text
execution_expectation = record {
  request_id = text "request-1";
  provider_id = text "provider-1";
  requested_model = text "model-a";
  input_sha256 = text "0123456789abcdef0123456789abcdef0123456789abcdef0123456789abcdef";
  output_sha256 = text "0123456789abcdef0123456789abcdef0123456789abcdef0123456789abcdef";
  usage = record { input_tokens = 10; output_tokens = 5; total_tokens = 15 };
  request_started_at = str (text "2026-01-02T00:00:00Z");
  verified_at = str (text "2026-01-02T00:00:00Z");
}

execution_passes : verify_supplier_execution_evidence engine (ref 9) (ref 10) ≡ ok execution_result
unfolding code world execution_result
execution_passes = refl

verify_supplier_execution_evidence_iff_example :
    (verify_supplier_execution_evidence engine (ref 9) (ref 10) ≡ ok execution_result)
    ↔ IsAcceptedExecution engine (ref 9) (ref 10) execution_result
verify_supplier_execution_evidence_iff_example =
    verify_supplier_execution_evidence_iff engine (ref 9) (ref 10) execution_result

verify_supplier_execution_evidence-err_example :
    (service_evidence_mismatch ≡ service_evidence_mismatch)
    ⊎ ((e : ExecutionEvidence) × (read_execution_evidence engine (ref 19) ≡ ok e)
        × (assert_timestamp engine e.completed_at ≡ err service_evidence_mismatch))
unfolding code world execution_expectation
verify_supplier_execution_evidence-err_example =
    verify_supplier_execution_evidence-err engine (ref 9) (ref 19) execution_expectation
      8641767312000000 8641767312000000 service_evidence_mismatch refl refl refl refl

unfoldable artifact_result : VerifiedArtifact
unfolding text
artifact_result = record {
  provider_id = text "provider-1";
  requested_model = text "model-a";
  served_model = text "model-a";
  artifact_id = text "artifact-1";
  artifact_manifest_sha256 =
      text "0123456789abcdef0123456789abcdef0123456789abcdef0123456789abcdef";
  artifact_content_sha256 = text "0123456789abcdef0123456789abcdef0123456789abcdef0123456789abcdef";
  output_sha256 = text "0123456789abcdef0123456789abcdef0123456789abcdef0123456789abcdef";
  provider_request_ids_sha256 =
      text "0123456789abcdef0123456789abcdef0123456789abcdef0123456789abcdef";
  segments_completed = 3;
  usage = record { input_tokens = 10; output_tokens = 5; total_tokens = 15 };
  completed_at = text "2026-01-02T00:00:00Z";
}

unfoldable artifact_expectation : ArtifactExpectation
unfolding text
artifact_expectation = record {
  task_id = text "task-1";
  provider_id = text "provider-1";
  requested_model = text "model-a";
  artifact_id = text "artifact-1";
  artifact_manifest_sha256 =
      text "0123456789abcdef0123456789abcdef0123456789abcdef0123456789abcdef";
  output_sha256 = text "0123456789abcdef0123456789abcdef0123456789abcdef0123456789abcdef";
  usage = record { input_tokens = 10; output_tokens = 5; total_tokens = 15 };
  request_started_at = str (text "2026-01-02T00:00:00Z");
  verified_at = str (text "2026-01-02T00:00:00Z");
}

artifact_passes : verify_supplier_artifact_evidence engine (ref 12) (ref 13) ≡ ok artifact_result
unfolding code world artifact_result
artifact_passes = refl

verify_supplier_artifact_evidence_iff_example :
    (verify_supplier_artifact_evidence engine (ref 12) (ref 13) ≡ ok artifact_result)
    ↔ IsAcceptedArtifact engine (ref 12) (ref 13) artifact_result
verify_supplier_artifact_evidence_iff_example =
    verify_supplier_artifact_evidence_iff engine (ref 12) (ref 13) artifact_result

verify_supplier_artifact_evidence-err_example :
    (service_evidence_mismatch ≡ service_evidence_mismatch)
    ⊎ ((e : ArtifactEvidence) × (read_artifact_evidence engine (ref 20) ≡ ok e)
        × (assert_timestamp engine e.completed_at ≡ err service_evidence_mismatch))
unfolding code world artifact_expectation
verify_supplier_artifact_evidence-err_example =
    verify_supplier_artifact_evidence-err engine (ref 12) (ref 20) artifact_expectation
      8641767312000000 8641767312000000 service_evidence_mismatch refl refl refl refl

unfoldable attestation_expectation : AttestationExpectation
unfolding text
attestation_expectation = record {
  request_id = text "request-1";
  challenge = text "nonce";
  provider_id = text "provider-1";
  model_pattern = text "model-*";
  data_classes = DataClass.p0 ∷ [];
  limits = record {
    requests_per_minute = 60;
    tokens_per_minute = 10_000;
    concurrency = 2;
    max_output_tokens = 1_000;
  };
}

unfoldable attestation_result : VerifiedAttestation
unfolding text
attestation_result = record {
  provider_id = text "provider-1";
  matched_models = text "model-a" ∷ [];
  data_classes = DataClass.p0 ∷ [];
  limits = record {
    requests_per_minute = 60;
    tokens_per_minute = 10_000;
    concurrency = 2;
    max_output_tokens = 1_000;
  };
}

attestation_passes :
    verify_supplier_gateway_attestation engine (ref 14) (ref 15) ≡ ok attestation_result
unfolding code world attestation_result
attestation_passes = refl

verify_supplier_gateway_attestation_iff_example :
    (verify_supplier_gateway_attestation engine (ref 14) (ref 15) ≡ ok attestation_result)
    ↔ IsAttested engine (ref 14) (ref 15) attestation_result
verify_supplier_gateway_attestation_iff_example =
    verify_supplier_gateway_attestation_iff engine (ref 14) (ref 15) attestation_result

verify_supplier_gateway_attestation-err_example :
    gateway_attestation_mismatch ≡ gateway_attestation_mismatch
unfolding code world attestation_expectation
verify_supplier_gateway_attestation-err_example =
    verify_supplier_gateway_attestation-err engine (ref 14) (ref 21) attestation_expectation
      gateway_attestation_mismatch refl refl refl

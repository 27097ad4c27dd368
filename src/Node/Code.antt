-- ===== src/Node/Code.antt =====
-- Opens every definition of the node for a test that evaluates one; it models no code.
use token_streaming.Js.Texts.{text, text_beq, starts_with}
use token_streaming.Js.Decimal.{print, read_from, read}
use token_streaming.Js.Maps.{lookup, set, prune_map}
use token_streaming.Js.Json.{keys, property, as_text, as_natural}
use token_streaming.Js.Utf8.{utf8_from, utf8_length}
use token_streaming.Marketplace.Evidence.{is_hex_unit}
use token_streaming.Marketplace.Evidence.Execution.{execution_version}
use token_streaming.Node.Capacity.{prune, acquire, released_at, mark, release}
use token_streaming.Node.Errors.{normalize_supplier_node_error}
use token_streaming.Node.Journal.Records.{
  is_sha256, as_sha256, as_version, parse_request, parse_fields, parse_record,
}
use token_streaming.Node.Journal.File.{
  body_commitment_domain, create_body_commitment, nonce_line, request_line, file_bytes,
  prune_journal, journal_lines, compact, compact_now, make_room, write_line, append,
  maybe_compact_after_append,
}
use token_streaming.Node.Journal.{
  claim_nonce, claim_commitment, claim_request, is_healthy, record_commitment, load_record,
  load_line, load, open_journal,
}
use token_streaming.Node.Signature.{
  signature_payload, create_gateway_signature, parse_bearer, is_timestamp, is_nonce, is_job_id,
  required_pattern, safe_text_equal, check_call, verify_and_record, verify_signed_gateway_call,
}
use token_streaming.Node.Requests.{
  request_version, inference_keys, attestation_request_keys, has_other_keys, required_text,
  is_version, is_model, is_input, is_data_class, is_challenge, required_positive, read_inference,
  read_attestation_request, parse_inference_request, parse_attestation_request,
  validate_request_against_config, usage_from, validate_provider_result,
}
use token_streaming.Node.Executions.{
  error_result, evidence_payload, health, set_draining, inference_response, provider_outcome,
  execute, call_for_artifact, execution_at, settle_at, artifact_outcome, provider_answers, awaited,
}
use token_streaming.Node.Runtime.{
  submit, read_request, handle_inference, attested, handle_attestation,
}
use token_streaming.Node.Runtime.Events.{new_runtime}

unfoldable pub code : Unit {0}
unfolding text text_beq starts_with print read_from read lookup set prune_map keys property as_text
    as_natural utf8_from utf8_length is_hex_unit execution_version prune acquire released_at mark
    release normalize_supplier_node_error is_sha256 as_sha256 as_version parse_request parse_fields
    parse_record body_commitment_domain create_body_commitment nonce_line request_line file_bytes
    prune_journal journal_lines compact compact_now make_room write_line append
    maybe_compact_after_append claim_nonce claim_commitment claim_request is_healthy
    record_commitment load_record load_line load open_journal signature_payload
    create_gateway_signature parse_bearer is_timestamp is_nonce is_job_id required_pattern
    safe_text_equal check_call verify_and_record verify_signed_gateway_call request_version
    inference_keys attestation_request_keys has_other_keys required_text is_version is_model
    is_input is_data_class is_challenge required_positive read_inference read_attestation_request
    parse_inference_request parse_attestation_request validate_request_against_config usage_from
    validate_provider_result error_result evidence_payload health set_draining inference_response
    provider_outcome execute call_for_artifact execution_at settle_at artifact_outcome
    provider_answers awaited submit read_request handle_inference attested handle_attestation
    new_runtime
code = tt

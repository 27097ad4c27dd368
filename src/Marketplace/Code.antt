-- ===== src/Marketplace/Code.antt =====
-- Opens every definition of the model for a test that evaluates one; it models no code.
use token_streaming.Js.Texts.{
  text, text_beq, starts_with, includes, ends_with, without_last, is_space, trim_start, trim_end,
  trim, lower_unit, to_lower,
}
use token_streaming.Js.Decimal.{print, read_from, read}
use token_streaming.Js.{field_of, index_entries, entries, get}
use token_streaming.Marketplace.SafeInput.{
  forbidden_fragments, normalized_key, is_forbidden_key, push_entries, walk, assert_safe_input,
}
use token_streaming.Marketplace.Validation.{
  is_identifier_unit, is_identifier, assert_identifier, is_blank, assert_text, allowed_value,
  assert_allowed_text, assert_allowed_value, is_country, is_currency, assert_country_text,
  assert_country_code, assert_currency, timestamp_of, parse_timestamp, assert_timestamp,
  assert_tenant, assert_command_not_before, assert_positive_safe_integer, is_positive_decimal,
  assert_positive_decimal_integer, unique_strings, assert_unique_strings, assert_exact_keys,
  limit_keys, read_limits, assert_capacity_limits, is_active_at, context_keys, assert_context,
}
use token_streaming.Marketplace.Literals.{
  supplier_kinds, verification_kinds, verification_statuses, source_types, authorized_uses,
  metering_modes, input_statuses, data_class_literals, registration_keys, verification_keys,
  authorization_keys, revocation_keys, suspension_keys, offer_keys, rate_keys,
}
use token_streaming.Marketplace.Supplier.Rules.{
  required_verification_kinds, is_authorization_active, is_current, has_current_verification,
  missing_required_verification_kinds, has_active_authorization, is_reused, find_authorization,
}
use token_streaming.Marketplace.Supplier.Inputs.{
  read_expiry, read_verification, star_before_end, validate_model_pattern, read_authorization,
  read_registration,
}
use token_streaming.Marketplace.Supplier.Commands.{
  supplier_event, assert_state_context, assert_supplier_writable, register_supplier,
  record_supplier_verification, record_provider_authorization, revoke_provider_authorization,
  activate_supplier, suspend_supplier,
}
use token_streaming.Marketplace.Supplier.History.{
  assert_history_identifier, history_timestamp, advance, created, with_verification, revoke,
  apply_to, apply_supplier_event, assert_envelope_identifiers, replay_event, replay_events,
  rehydrate_supplier,
}
use token_streaming.Marketplace.Settlement.{
  integer_in, divide_rounding_up, calculate_settlement, estimate_maximum_charge_micros,
  estimate_artifact_maximum_charge_micros,
}
use token_streaming.Marketplace.Cancellation.{
  project_artifact_task_status, decide_artifact_task_cancellation,
}
use token_streaming.Marketplace.Privacy.{
  privacy_modes, parse_privacy_mode, assert_supplier_processing_acknowledged, excess_digits,
  to_double, calculate_retention_milliseconds,
}
use token_streaming.Marketplace.Patterns.{matches_pattern, is_within_limits}
use token_streaming.Marketplace.Offer.{
  read_rates, assert_rates, read_service_tier, read_offer, is_in_scope, assert_authorization_scope,
  exceeds_window, offer_event, publish_capacity_offer, rehydrate_capacity_offer,
}
use token_streaming.Marketplace.Evidence.{
  usage_keys, assert_safe_from, validate_usage, is_hex_unit, assert_sha256, same_usage,
  is_within_clock_window, is_text, read_optional_text,
}
use token_streaming.Marketplace.Evidence.Execution.{
  execution_version, execution_expectation_keys, execution_evidence_keys,
  validate_execution_expectation, read_execution_evidence, validate_execution_evidence,
  differs_execution, verified_execution, verify_supplier_execution_evidence,
}
use token_streaming.Marketplace.Evidence.Artifact.{
  artifact_version, artifact_expectation_keys, artifact_evidence_keys,
  validate_artifact_expectation, assert_segments, read_artifact_evidence,
  validate_artifact_evidence, differs_artifact, verified_artifact,
  verify_supplier_artifact_evidence,
}
use token_streaming.Marketplace.Attestation.{
  gateway_version, attestation_expectation_keys, attestation_keys, remote_limit_keys,
  assert_open_class, assert_exact_model, validate_attestation_expectation, read_attestation,
  assert_remote_shape, matched_models, differs_attestation, verified_attestation,
  verify_supplier_gateway_attestation,
}

unfoldable pub code : Unit {0}
unfolding text text_beq starts_with includes ends_with without_last is_space trim_start trim_end
    trim lower_unit to_lower print read_from read field_of index_entries entries get
    forbidden_fragments normalized_key is_forbidden_key push_entries walk assert_safe_input
    is_identifier_unit is_identifier assert_identifier is_blank assert_text allowed_value
    assert_allowed_text assert_allowed_value is_country is_currency assert_country_text
    assert_country_code assert_currency timestamp_of parse_timestamp assert_timestamp assert_tenant
    assert_command_not_before assert_positive_safe_integer is_positive_decimal
    assert_positive_decimal_integer unique_strings assert_unique_strings assert_exact_keys
    limit_keys read_limits assert_capacity_limits is_active_at context_keys assert_context
    supplier_kinds verification_kinds verification_statuses source_types authorized_uses
    metering_modes input_statuses data_class_literals registration_keys verification_keys
    authorization_keys revocation_keys suspension_keys offer_keys rate_keys
    required_verification_kinds is_authorization_active is_current has_current_verification
    missing_required_verification_kinds has_active_authorization is_reused find_authorization
    read_expiry read_verification star_before_end validate_model_pattern read_authorization
    read_registration supplier_event assert_state_context assert_supplier_writable register_supplier
    record_supplier_verification record_provider_authorization revoke_provider_authorization
    activate_supplier suspend_supplier assert_history_identifier history_timestamp advance created
    with_verification revoke apply_to apply_supplier_event assert_envelope_identifiers replay_event
    replay_events rehydrate_supplier integer_in divide_rounding_up calculate_settlement
    estimate_maximum_charge_micros estimate_artifact_maximum_charge_micros
    project_artifact_task_status decide_artifact_task_cancellation privacy_modes parse_privacy_mode
    assert_supplier_processing_acknowledged excess_digits to_double calculate_retention_milliseconds
    matches_pattern is_within_limits read_rates assert_rates read_service_tier read_offer
    is_in_scope assert_authorization_scope exceeds_window offer_event publish_capacity_offer
    rehydrate_capacity_offer usage_keys assert_safe_from validate_usage is_hex_unit assert_sha256
    same_usage is_within_clock_window is_text read_optional_text execution_version
    execution_expectation_keys execution_evidence_keys validate_execution_expectation
    read_execution_evidence validate_execution_evidence differs_execution verified_execution
    verify_supplier_execution_evidence artifact_version artifact_expectation_keys
    artifact_evidence_keys validate_artifact_expectation assert_segments read_artifact_evidence
    validate_artifact_evidence differs_artifact verified_artifact verify_supplier_artifact_evidence
    gateway_version attestation_expectation_keys attestation_keys remote_limit_keys
    assert_open_class assert_exact_model validate_attestation_expectation read_attestation
    assert_remote_shape matched_models differs_attestation verified_attestation
    verify_supplier_gateway_attestation
code = tt

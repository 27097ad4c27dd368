-- ===== src/Marketplace/Supplier/Commands.antt =====
-- packages/marketplace-domain/src/supplier.ts: the commands. Each returns an event or throws, and
-- changes no state.
use token_streaming.Common.{◌+◌, not, ◌==◌, any}
use token_streaming.Common.Outcome.{ok, throw_if, ◌>>=◌, ◌>>◌}
use token_streaming.Js.{Value, Engine, get}
use token_streaming.Js.Texts.{text, text_eq}
use token_streaming.Marketplace.Errors.{
  Result, invalid_supplier_state, verification_incomplete, authorization_required, duplicate_record,
}
use token_streaming.Marketplace.Protocol.{
  SupplierStatus, Context, SupplierPayload, SupplierEvent, SupplierState, schema_version, status_eq,
}
use token_streaming.Marketplace.Literals.{
  registration_keys, verification_keys, authorization_keys, revocation_keys, suspension_keys,
}
use token_streaming.Marketplace.SafeInput.{assert_safe_input}
use token_streaming.Marketplace.Validation.{
  assert_context, assert_exact_keys, assert_identifier, assert_tenant, assert_command_not_before,
}
use token_streaming.Marketplace.Supplier.Rules.{
  is_closed, is_reused, find_authorization, is_irrevocable, is_empty,
  missing_required_verification_kinds, has_active_authorization,
}
use token_streaming.Marketplace.Supplier.Inputs.{
  read_registration, read_verification, read_authorization,
}

-- `supplierEvent`
unfoldable pub supplier_event : SupplierState → Context → SupplierPayload → SupplierEvent
supplier_event state context payload = record {
  envelope = record {
    schema_version = schema_version;
    event_id = context.event_id;
    tenant_id = context.tenant_id;
    actor_id = context.actor_id;
    causation_id = context.command_id;
    aggregate_type = text "supplier";
    aggregate_id = state.supplier_id;
    aggregate_version = state.version + 1;
    occurred_at = context.occurred_at;
  };
  payload = payload;
}

-- `assertStateContext`
unfoldable pub assert_state_context : Engine → SupplierState → Value → Result Context
assert_state_context js state value = do
  context ← assert_context js value
  assert_tenant state.tenant_id context
  assert_command_not_before js state.updated_at context
  ok context

-- `assertSupplierWritable`
unfoldable pub assert_supplier_writable : SupplierState → Result (Unit {0})
assert_supplier_writable state = throw_if (is_closed state.status) invalid_supplier_state

unfoldable pub register_supplier : Engine → Value → Value → Result SupplierEvent
register_supplier js input context_value = do
  assert_safe_input js input
  assert_exact_keys js input registration_keys
  context ← assert_context js context_value
  registration ← read_registration js input
  ok (record {
    envelope = record {
      schema_version = schema_version;
      event_id = context.event_id;
      tenant_id = context.tenant_id;
      actor_id = context.actor_id;
      causation_id = context.command_id;
      aggregate_type = text "supplier";
      aggregate_id = registration.supplier_id;
      aggregate_version = 1;
      occurred_at = context.occurred_at;
    };
    payload = SupplierPayload.registered registration;
  })

unfoldable pub record_supplier_verification :
    Engine → SupplierState → Value → Value → Result SupplierEvent
record_supplier_verification js state input context_value = do
  assert_safe_input js input
  assert_exact_keys js input verification_keys
  context ← assert_state_context js state context_value
  assert_supplier_writable state
  verification ← read_verification js context input
  throw_if (is_reused state verification) duplicate_record
  ok (supplier_event state context (SupplierPayload.verification_recorded verification))

unfoldable pub record_provider_authorization :
    Engine → SupplierState → Value → Value → Result SupplierEvent
record_provider_authorization js state input context_value = do
  assert_safe_input js input
  assert_exact_keys js input authorization_keys
  context ← assert_state_context js state context_value
  assert_supplier_writable state
  authorization ← read_authorization js input
  throw_if (any (λ a. a.authorization_id == authorization.authorization_id) state.authorizations)
      duplicate_record
  ok (supplier_event state context (SupplierPayload.authorization_recorded authorization))

unfoldable pub revoke_provider_authorization :
    Engine → SupplierState → Value → Value → Result SupplierEvent
revoke_provider_authorization js state input context_value = do
  assert_safe_input js input
  assert_exact_keys js input revocation_keys
  context ← assert_state_context js state context_value
  authorization_id ← assert_identifier (get js input (text "authorizationId"))
  reason_code ← assert_identifier (get js input (text "reasonCode"))
  throw_if (is_irrevocable (find_authorization authorization_id state.authorizations))
      authorization_required
  ok (
      supplier_event state context
        (SupplierPayload.authorization_revoked authorization_id reason_code))

unfoldable pub activate_supplier : Engine → SupplierState → Value → Result SupplierEvent
activate_supplier js state context_value = do
  context ← assert_state_context js state context_value
  throw_if (not (state.status == SupplierStatus.pending_verification)) invalid_supplier_state
  missing ← missing_required_verification_kinds js state context.occurred_at
  throw_if (not (is_empty missing)) verification_incomplete
  authorized ← has_active_authorization js state context.occurred_at
  throw_if (not authorized) authorization_required
  ok (supplier_event state context (SupplierPayload.activated context.occurred_at))

unfoldable pub suspend_supplier : Engine → SupplierState → Value → Value → Result SupplierEvent
suspend_supplier js state input context_value = do
  assert_safe_input js input
  assert_exact_keys js input suspension_keys
  context ← assert_state_context js state context_value
  reason_code ← assert_identifier (get js input (text "reasonCode"))
  throw_if (is_closed state.status) invalid_supplier_state
  ok (supplier_event state context (SupplierPayload.suspended reason_code))

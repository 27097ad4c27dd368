-- ===== src/Marketplace/Supplier/Emitted.antt =====
-- The event that a successful command returns can be applied to the state it was decided on
-- (packages/marketplace-domain/src/supplier.ts, the commands against `applySupplierEvent`).
use token_streaming.Common.{sym, ap, ◌∙◌, ◌≡◌, refl, not, ◌==◌}
use token_streaming.Common.Outcome.{ok, throw_if, >>=-eq-ok, throw_if-eq-ok, ok-injective}
use token_streaming.Js.{Engine, Value, get}
use token_streaming.Js.Texts.{text, text_eq}
use token_streaming.Marketplace.Errors.{
  invalid_supplier_state, verification_incomplete, authorization_required, duplicate_record,
}
use token_streaming.Marketplace.Protocol.{
  SupplierStatus, SupplierPayload, SupplierEvent, SupplierState, status_eq,
}
use token_streaming.Marketplace.Literals.{
  verification_keys, authorization_keys, revocation_keys, suspension_keys,
}
use token_streaming.Marketplace.SafeInput.{assert_safe_input}
use token_streaming.Marketplace.Validation.{assert_exact_keys, assert_identifier}
use token_streaming.Marketplace.Supplier.Rules.{
  is_closed, is_reused, find_authorization, is_irrevocable, is_empty,
  missing_required_verification_kinds, has_active_authorization,
}
use token_streaming.Marketplace.Supplier.Inputs.{read_verification, read_authorization}
use token_streaming.Marketplace.Supplier.Commands.{
  supplier_event, assert_state_context, assert_supplier_writable, record_supplier_verification,
  record_provider_authorization, revoke_provider_authorization, activate_supplier, suspend_supplier,
}
use token_streaming.Marketplace.Supplier.History.{advance, with_verification, revoke}
use token_streaming.Marketplace.Supplier.Applied.{
  true_of_not, holds, verified_state, authorized_state, revoked_state, moved_state,
  verification_applied, authorization_applied, revocation_applied, suspension_applied,
  activation_applied,
}
use token_streaming.Marketplace.Supplier.Contexts.{IsFor-of_ok}
use token_streaming.Marketplace.Supplier.Shown.{assert_identifier-str}
use token_streaming.Marketplace.Supplier.Readings.{
  GivesVerification-of_ok, GivesAuthorization-of_ok,
}
use token_streaming.Marketplace.Supplier.Effects.{Command, run_command, Emits}

module _ (js : Engine) (before : SupplierState) (input context_value : Value)
    (event : SupplierEvent) where
  verify-Emits :
      record_supplier_verification js before input context_value ≡ ok event
      → Emits js before (Command.verify input) event
  unfolding record_supplier_verification assert_supplier_writable advance with_verification
      supplier_event
  verify-Emits h =
      let (_, _, h1) = >>=-eq-ok (assert_safe_input js input) _ h in
      let (_, _, h2) = >>=-eq-ok (assert_exact_keys js input verification_keys) _ h1 in
      let (context, c, h3) = >>=-eq-ok (assert_state_context js before context_value) _ h2 in
      let (_, w, h4) = >>=-eq-ok (throw_if (is_closed before.status) invalid_supplier_state) _ h3 in
      let (v, given, h5) = >>=-eq-ok (read_verification js context input) _ h4 in
      let (_, r, h6) = >>=-eq-ok (throw_if (is_reused before v) duplicate_record) _ h5 in
      let (at, for_state) = IsFor-of_ok js before context_value context c in
      let writable = throw_if-eq-ok (is_closed before.status) _ w in
      let unused = throw_if-eq-ok (is_reused before v) _ r in
      record {
        context = context;
        at = at;
        payload = SupplierPayload.verification_recorded v;
        state =
            verified_state js before
              (supplier_event before context (SupplierPayload.verification_recorded v)) v;
        for_state = for_state;
        shape = sym (ok-injective h6);
        later = refl;
        applied =
            verification_applied js before
              (supplier_event before context (SupplierPayload.verification_recorded v)) v writable
              unused;
        effect =
            (v, GivesVerification-of_ok js context input v given, refl, refl, refl, refl, writable);
      }

  authorize-Emits :
      record_provider_authorization js before input context_value ≡ ok event
      → Emits js before (Command.authorize input) event
  unfolding record_provider_authorization assert_supplier_writable advance supplier_event
  authorize-Emits h =
      let (_, _, h1) = >>=-eq-ok (assert_safe_input js input) _ h in
      let (_, _, h2) = >>=-eq-ok (assert_exact_keys js input authorization_keys) _ h1 in
      let (context, c, h3) = >>=-eq-ok (assert_state_context js before context_value) _ h2 in
      let (_, w, h4) = >>=-eq-ok (throw_if (is_closed before.status) invalid_supplier_state) _ h3 in
      let (a, given, h5) = >>=-eq-ok (read_authorization js input) _ h4 in
      let taken = holds a.authorization_id before.authorizations in
      let (_, r, h6) = >>=-eq-ok (throw_if taken duplicate_record) _ h5 in
      let (at, for_state) = IsFor-of_ok js before context_value context c in
      let writable = throw_if-eq-ok (is_closed before.status) _ w in
      let unused = throw_if-eq-ok taken _ r in
      record {
        context = context;
        at = at;
        payload = SupplierPayload.authorization_recorded a;
        state =
            authorized_state js before
              (supplier_event before context (SupplierPayload.authorization_recorded a)) a;
        for_state = for_state;
        shape = sym (ok-injective h6);
        later = refl;
        applied =
            authorization_applied js before
              (supplier_event before context (SupplierPayload.authorization_recorded a)) a writable
              unused;
        effect = (a, GivesAuthorization-of_ok js input a given, refl, refl, refl, refl, writable);
      }

  withdraw-Emits :
      revoke_provider_authorization js before input context_value ≡ ok event
      → Emits js before (Command.withdraw input) event
  unfolding revoke_provider_authorization advance revoke supplier_event
  withdraw-Emits h =
      let (_, _, h1) = >>=-eq-ok (assert_safe_input js input) _ h in
      let (_, _, h2) = >>=-eq-ok (assert_exact_keys js input revocation_keys) _ h1 in
      let (context, c, h3) = >>=-eq-ok (assert_state_context js before context_value) _ h2 in
      let (id, named, h4) =
        >>=-eq-ok (assert_identifier (get js input (text "authorizationId"))) _ h3 in
      let (reason, given, h5) =
        >>=-eq-ok (assert_identifier (get js input (text "reasonCode"))) _ h4 in
      let irrevocable = is_irrevocable (find_authorization id before.authorizations) in
      let (_, r, h6) = >>=-eq-ok (throw_if irrevocable authorization_required) _ h5 in
      let (at, for_state) = IsFor-of_ok js before context_value context c in
      let revocable = throw_if-eq-ok irrevocable _ r in
      record {
        context = context;
        at = at;
        payload = SupplierPayload.authorization_revoked id reason;
        state =
            revoked_state js before
              (supplier_event before context (SupplierPayload.authorization_revoked id reason)) id;
        for_state = for_state;
        shape = sym (ok-injective h6);
        later = refl;
        applied =
            revocation_applied js before
              (supplier_event before context (SupplierPayload.authorization_revoked id reason)) id
              reason revocable;
        effect = (
          id,
          reason,
          assert_identifier-str _ id named,
          assert_identifier-str _ reason given,
          refl,
          refl,
          revocable,
          refl,
          refl,
        );
      }

  suspend-Emits :
      suspend_supplier js before input context_value ≡ ok event
      → Emits js before (Command.suspend input) event
  unfolding suspend_supplier advance supplier_event
  suspend-Emits h =
      let (_, _, h1) = >>=-eq-ok (assert_safe_input js input) _ h in
      let (_, _, h2) = >>=-eq-ok (assert_exact_keys js input suspension_keys) _ h1 in
      let (context, c, h3) = >>=-eq-ok (assert_state_context js before context_value) _ h2 in
      let (reason, given, h4) =
        >>=-eq-ok (assert_identifier (get js input (text "reasonCode"))) _ h3 in
      let (_, w, h5) = >>=-eq-ok (throw_if (is_closed before.status) invalid_supplier_state) _ h4 in
      let (at, for_state) = IsFor-of_ok js before context_value context c in
      let writable = throw_if-eq-ok (is_closed before.status) _ w in
      record {
        context = context;
        at = at;
        payload = SupplierPayload.suspended reason;
        state =
            moved_state js before (supplier_event before context (SupplierPayload.suspended reason))
              SupplierStatus.suspended;
        for_state = for_state;
        shape = sym (ok-injective h5);
        later = refl;
        applied =
            suspension_applied js before
              (supplier_event before context (SupplierPayload.suspended reason)) reason writable;
        effect = (reason, assert_identifier-str _ reason given, refl, refl, writable, refl, refl);
      }

  activate-Emits :
      activate_supplier js before context_value ≡ ok event → Emits js before Command.activate event
  unfolding activate_supplier advance supplier_event
  activate-Emits h =
      let (context, c, h1) = >>=-eq-ok (assert_state_context js before context_value) _ h in
      let waits = before.status == SupplierStatus.pending_verification in
      let (_, p, h2) = >>=-eq-ok (throw_if (not waits) invalid_supplier_state) _ h1 in
      let (missing, m, h3) =
        >>=-eq-ok (missing_required_verification_kinds js before context.occurred_at) _ h2 in
      let (_, e, h4) = >>=-eq-ok (throw_if (not (is_empty missing)) verification_incomplete) _ h3 in
      let (authorized, a, h5) =
        >>=-eq-ok (has_active_authorization js before context.occurred_at) _ h4 in
      let (_, y, h6) = >>=-eq-ok (throw_if (not authorized) authorization_required) _ h5 in
      let (at, for_state) = IsFor-of_ok js before context_value context c in
      let pending =
        (status_eq.beq_iff before.status SupplierStatus.pending_verification).0
          (true_of_not waits (throw_if-eq-ok (not waits) _ p)) in
      let empty = true_of_not (is_empty missing) (throw_if-eq-ok _ _ e) in
      let found = true_of_not authorized (throw_if-eq-ok _ _ y) in
      record {
        context = context;
        at = at;
        payload = SupplierPayload.activated context.occurred_at;
        state =
            moved_state js before
              (supplier_event before context (SupplierPayload.activated context.occurred_at))
              SupplierStatus.active;
        for_state = for_state;
        shape = sym (ok-injective h6);
        later = refl;
        applied =
            activation_applied js before
              (supplier_event before context (SupplierPayload.activated context.occurred_at))
              missing pending m empty (a ∙ ap ok found);
        effect = (refl, refl, pending, refl, refl);
      }

-- Every command that succeeds emits an event that applies.
pub run_command-Emits :
    (js : Engine) (before : SupplierState) (command : Command) (context_value : Value)
    (event : SupplierEvent)
    → run_command js before command context_value ≡ ok event
    → Emits js before command event
run_command-Emits js before (Command.verify input) c event h =
    verify-Emits js before input c event h
run_command-Emits js before (Command.authorize input) c event h =
    authorize-Emits js before input c event h
run_command-Emits js before (Command.withdraw input) c event h =
    withdraw-Emits js before input c event h
run_command-Emits js before (Command.suspend input) c event h =
    suspend-Emits js before input c event h
run_command-Emits js before Command.activate c event h = activate-Emits js before c c event h

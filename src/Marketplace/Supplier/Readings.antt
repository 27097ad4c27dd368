-- ===== src/Marketplace/Supplier/Readings.antt =====
-- What a command has read from its input (packages/marketplace-domain/src/supplier.ts, with the
-- assertions of validation.ts).
use token_streaming.Common.{◌≡◌, refl, ap, subst, true, List, [], ◌∷◌, map, leb, ltb}
use token_streaming.Common.Outcome.{ok, throw_if, >>=-eq-ok, ok-injective}
use token_streaming.Js.{Value, str, Engine, get}
use token_streaming.Js.Texts.{Text, text, text_eq}
use token_streaming.Marketplace.Errors.{invalid_argument, unsupported_data_class}
use token_streaming.Marketplace.Protocol.{Verification, Authorization, Context}
use token_streaming.Marketplace.Literals.{
  verification_kinds, verification_statuses, source_types, authorized_uses, metering_modes,
  input_statuses, data_class_literals,
}
use token_streaming.Marketplace.SafeInput.{assert_safe_input}
use token_streaming.Marketplace.Validation.{
  assert_identifier, assert_allowed_text, assert_allowed_value, assert_country_text,
  assert_timestamp, parse_timestamp, assert_unique_strings, assert_capacity_limits,
  assert_exact_keys, assert_context, context_keys,
}
use token_streaming.Marketplace.Supplier.Inputs.{
  read_expiry, read_verification, validate_model_pattern, has_unsupported_class, read_authorization,
}
use token_streaming.Marketplace.Supplier.Shown.{
  kind_text, outcome_text, source_text, use_text, metering_text, authorization_text, class_text,
  Lists, assert_identifier-str, assert_timestamp-str, assert_allowed_text-shown,
  assert_allowed_value-str, assert_unique_strings-Lists, validate_model_pattern-same,
  assert_country_text-same, GivesLimits-of_ok, read_expiry-Gives, GivesVerification,
  GivesAuthorization,
}

pub GivesVerification-of_ok :
    (js : Engine) (context : Context) (input : Value) (v : Verification)
    → read_verification js context input ≡ ok v
    → GivesVerification js input v
unfolding read_verification verification_kinds verification_statuses
GivesVerification-of_ok js context input v h =
    let (id, a, h1) = >>=-eq-ok (assert_identifier (get js input (text "verificationId"))) _ h in
    let (evidence, b, h2) =
      >>=-eq-ok (assert_identifier (get js input (text "evidenceRef"))) _ h1 in
    let (kind, c, h3) =
      >>=-eq-ok (assert_allowed_value verification_kinds (get js input (text "kind"))) _ h2 in
    let (status, d, h4) =
      >>=-eq-ok (assert_allowed_value verification_statuses (get js input (text "status"))) _ h3 in
    let (completed, e, h5) =
      >>=-eq-ok (assert_timestamp js (get js input (text "completedAt"))) _ h4 in
    let (occurred, _, h6) = >>=-eq-ok (parse_timestamp js context.occurred_at) _ h5 in
    let (_, _, h7) = >>=-eq-ok (throw_if (ltb occurred completed) _) _ h6 in
    let (expires, f, h8) =
      >>=-eq-ok (read_expiry js (get js input (text "expiresAt")) completed) _ h7 in
    let id_given = assert_identifier-str _ id a in
    let evidence_given = assert_identifier-str _ evidence b in
    let kind_given =
      assert_allowed_value-str verification_kinds kind_text _ kind
        (refl, (refl, (refl, (refl, (refl, tt))))) c in
    let status_given =
      assert_allowed_value-str verification_statuses outcome_text _ status (refl, (refl, tt)) d in
    let completed_given = assert_timestamp-str js _ completed e in
    let expires_given = read_expiry-Gives js _ completed expires f in
    subst (GivesVerification js input) (ok-injective h8) (record {
      id = id_given;
      kind = kind_given;
      status = status_given;
      evidence = evidence_given;
      completed = completed_given;
      expires = expires_given;
    })

map-id : (ts : List Text) → map (λ t. t) ts ≡ ts
map-id [] = refl
map-id (t ∷ ts) = ap (λ l. t ∷ l) (map-id ts)

pub GivesAuthorization-of_ok :
    (js : Engine) (input : Value) (a : Authorization)
    → read_authorization js input ≡ ok a
    → GivesAuthorization js input a
unfolding read_authorization source_types authorized_uses metering_modes input_statuses
    data_class_literals
GivesAuthorization-of_ok js input a h =
    let (id, q0, h0) = >>=-eq-ok (assert_identifier (get js input (text "authorizationId"))) _ h in
    let (provider, q1, h1) =
      >>=-eq-ok (assert_identifier (get js input (text "providerId"))) _ h0 in
    let (evidence, q2, h2) =
      >>=-eq-ok (assert_identifier (get js input (text "evidenceRef"))) _ h1 in
    let (source, q3, h3) =
      >>=-eq-ok (assert_allowed_value source_types (get js input (text "sourceType"))) _ h2 in
    let (use_, q4, h4) =
      >>=-eq-ok (assert_allowed_value authorized_uses (get js input (text "authorizedUse"))) _ h3 in
    let (metering, q5, h5) =
      >>=-eq-ok (assert_allowed_value metering_modes (get js input (text "meteringMode"))) _ h4 in
    let (status, q6, h6) =
      >>=-eq-ok (assert_allowed_value input_statuses (get js input (text "status"))) _ h5 in
    let (from, q7, h7) = >>=-eq-ok (assert_timestamp js (get js input (text "validFrom"))) _ h6 in
    let (until, q8, h8) = >>=-eq-ok (assert_timestamp js (get js input (text "validUntil"))) _ h7 in
    let (_, _, h9) = >>=-eq-ok (throw_if (leb until from) invalid_argument) _ h8 in
    let (models, q10, h10) =
      >>=-eq-ok
        (assert_unique_strings js (get js input (text "modelPatterns")) validate_model_pattern) _
        h9 in
    let (regions, q11, h11) =
      >>=-eq-ok
        (assert_unique_strings js (get js input (text "regionCodes"))
          (λ value. assert_country_text value true))
        _ h10 in
    let (classes, q12, h12) =
      >>=-eq-ok
        (assert_unique_strings js (get js input (text "allowedDataClasses"))
          (assert_allowed_text data_class_literals))
        _ h11 in
    let (_, _, h13) =
      >>=-eq-ok (throw_if (has_unsupported_class classes) unsupported_data_class) _ h12 in
    let (ceiling, q14, h14) =
      >>=-eq-ok (assert_capacity_limits js (get js input (text "capacityCeiling"))) _ h13 in
    let id_given = assert_identifier-str _ id q0 in
    let provider_given = assert_identifier-str _ provider q1 in
    let evidence_given = assert_identifier-str _ evidence q2 in
    let source_given =
      assert_allowed_value-str source_types source_text _ source (refl, (refl, (refl, (refl, tt))))
        q3 in
    let use_given =
      assert_allowed_value-str authorized_uses use_text _ use_ (refl, (refl, tt)) q4 in
    let metering_given =
      assert_allowed_value-str metering_modes metering_text _ metering (refl, (refl, (refl, tt)))
        q5 in
    let status_given =
      assert_allowed_value-str input_statuses authorization_text _ status (refl, (refl, (refl, tt)))
        q6 in
    let from_given = assert_timestamp-str js _ from q7 in
    let until_given = assert_timestamp-str js _ until q8 in
    let models_given = subst (Lists js (get js input (text "modelPatterns"))) (map-id models) (
      assert_unique_strings-Lists js _ validate_model_pattern (λ t. t) models
        validate_model_pattern-same q10) in
    let regions_given = subst (Lists js (get js input (text "regionCodes"))) (map-id regions) (
      assert_unique_strings-Lists js _ (λ value. assert_country_text value true) (λ t. t) regions
        assert_country_text-same q11) in
    let classes_given =
      assert_unique_strings-Lists js _ (assert_allowed_text data_class_literals) class_text classes
        (λ s c.
          assert_allowed_text-shown data_class_literals class_text s c
            (refl, (refl, (refl, (refl, tt)))))
        q12 in
    let ceiling_given = GivesLimits-of_ok js _ ceiling q14 in
    subst (GivesAuthorization js input) (ok-injective h14) (record {
      id = id_given;
      provider = provider_given;
      source = source_given;
      authorized = use_given;
      metering = metering_given;
      evidence = evidence_given;
      models = models_given;
      regions = regions_given;
      classes = classes_given;
      ceiling = ceiling_given;
      from = from_given;
      until = until_given;
      status = status_given;
    })

-- The context's value says what the context says.
pub record GivesContext (js : Engine) (value : Value) (context : Context) : Type 0 where
  pub tenant : get js value (text "tenantId") ≡ str context.tenant_id
  pub actor : get js value (text "actorId") ≡ str context.actor_id
  pub command : get js value (text "commandId") ≡ str context.command_id
  pub event : get js value (text "eventId") ≡ str context.event_id
  pub occurred : get js value (text "occurredAt") ≡ str context.occurred_at

pub GivesContext-of_ok :
    (js : Engine) (value : Value) (context : Context)
    → assert_context js value ≡ ok context
    → GivesContext js value context
unfolding assert_context
GivesContext-of_ok js value context h =
    let (_, _, h1) = >>=-eq-ok (assert_safe_input js value) _ h in
    let (_, _, h2) = >>=-eq-ok (assert_exact_keys js value context_keys) _ h1 in
    let (tenant, a, h3) = >>=-eq-ok (assert_identifier (get js value (text "tenantId"))) _ h2 in
    let (actor, b, h4) = >>=-eq-ok (assert_identifier (get js value (text "actorId"))) _ h3 in
    let (command, c, h5) = >>=-eq-ok (assert_identifier (get js value (text "commandId"))) _ h4 in
    let (event, d, h6) = >>=-eq-ok (assert_identifier (get js value (text "eventId"))) _ h5 in
    let (at, e, h7) = >>=-eq-ok (assert_timestamp js (get js value (text "occurredAt"))) _ h6 in
    let tenant_given = assert_identifier-str _ tenant a in
    let actor_given = assert_identifier-str _ actor b in
    let command_given = assert_identifier-str _ command c in
    let event_given = assert_identifier-str _ event d in
    let occurred_given = assert_timestamp-str js _ at e in
    subst (GivesContext js value) (ok-injective h7) (record {
      tenant = tenant_given;
      actor = actor_given;
      command = command_given;
      event = event_given;
      occurred = occurred_given;
    })

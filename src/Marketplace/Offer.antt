-- ===== src/Marketplace/Offer.antt =====
-- packages/marketplace-domain/src/capacity-offer.ts: publishing capacity under an authorization.
pub mod Scope
pub mod Published
use token_streaming.Common.{
  ℕ, ◌+◌, Bool, true, false, not, ◌&&◌, ◌||◌, Option, none, some, List, [], ◌∷◌, any, all, contains,
  length, ltb, leb, nat_beq, nat_eq, ◌==◌, if◌then◌else◌,
}
use token_streaming.Common.Outcome.{ok, err, throw_if, ◌>>=◌, ◌>>◌}
use token_streaming.Js.{Value, undefined, ref, str, array, plain, classed, Engine, get}
use token_streaming.Js.Texts.{Text, text, text_eq}
use token_streaming.Marketplace.Errors.{
  Result, invalid_argument, invalid_event_history, invalid_supplier_state, verification_incomplete,
  authorization_required, authorization_scope_mismatch, duplicate_record, unsupported_data_class,
}
use token_streaming.Marketplace.Protocol.{
  SupplierStatus, Context, SupplierState, Authorization, Rate, OfferInput, OfferPayload, OfferEvent,
  OfferState, schema_version, status_eq, data_class_eq,
}
use token_streaming.Marketplace.Literals.{offer_keys, rate_keys, data_class_literals}
use token_streaming.Marketplace.SafeInput.{assert_safe_input}
use token_streaming.Marketplace.Validation.{
  assert_identifier, assert_text, assert_allowed_text, assert_country_code, assert_currency,
  assert_timestamp, parse_timestamp, assert_unique_strings, assert_exact_keys,
  assert_capacity_limits, assert_positive_decimal_integer, text_of,
}
use token_streaming.Marketplace.Supplier.Rules.{
  is_authorization_active, missing_required_verification_kinds, find_authorization, is_empty,
}
use token_streaming.Marketplace.Supplier.Inputs.{has_unsupported_class}
use token_streaming.Marketplace.Supplier.Commands.{assert_state_context}
use token_streaming.Marketplace.Patterns.{matches_pattern, is_within_limits}

-- The loop of `assertRates`; `units` is the set of the units before.
unfoldable pub read_rates : Engine → List Text → List Value → Result (List Rate)
read_rates js units [] = ok []
read_rates js units (rate ∷ rates) = do
  assert_exact_keys js rate rate_keys
  unit ← assert_text (get js rate (text "unit")) 80
  amount ← assert_positive_decimal_integer (get js rate (text "amountMicros"))
  throw_if (contains units unit) duplicate_record
  rest ← read_rates js (unit ∷ units) rates
  ok (record { unit = unit; amount_micros = amount } ∷ rest)

unfoldable pub assert_rates : Engine → Value → Result (List Rate)
assert_rates js (ref r) = elim (js.heap r) [
  | array values ↦ (do
    throw_if (nat_beq (length values) 0 || ltb 100 (length values)) invalid_argument
    read_rates js [] values)
  | plain fields ↦ err invalid_argument
  | classed fields ↦ err invalid_argument
]
assert_rates js _ = err invalid_argument

-- `if (input.serviceTier !== undefined) assertText(input.serviceTier, "serviceTier", 80)`
unfoldable pub read_service_tier : Value → Result (Option Text)
read_service_tier undefined = ok none
read_service_tier value = do tier ← assert_text value 80; ok (some tier)

-- The tests on the fields of the input, in the order of the source.
unfoldable pub read_offer : Engine → Context → Value → Result OfferInput
read_offer js context input = do
  offer_id ← assert_identifier (get js input (text "offerId"))
  authorization_id ← assert_identifier (get js input (text "authorizationId"))
  provider_id ← assert_identifier (get js input (text "providerId"))
  model ← assert_text (get js input (text "model")) 120
  service_tier ← read_service_tier (get js input (text "serviceTier"))
  region_code ← assert_country_code (get js input (text "regionCode")) false
  currency ← assert_currency (get js input (text "currency"))
  data_classes ←
      assert_unique_strings js (get js input (text "dataClasses"))
        (assert_allowed_text data_class_literals)
  throw_if (has_unsupported_class data_classes) unsupported_data_class
  limits ← assert_capacity_limits js (get js input (text "limits"))
  rates ← assert_rates js (get js input (text "rates"))
  from ← assert_timestamp js (get js input (text "validFrom"))
  until ← assert_timestamp js (get js input (text "validUntil"))
  occurred ← parse_timestamp js context.occurred_at
  throw_if (leb until from || leb until occurred) invalid_argument
  ok (record {
    offer_id = offer_id;
    authorization_id = authorization_id;
    provider_id = provider_id;
    model = model;
    service_tier = service_tier;
    region_code = region_code;
    data_classes = data_classes;
    limits = limits;
    currency = currency;
    rates = rates;
    valid_from = text_of (get js input (text "validFrom"));
    valid_until = text_of (get js input (text "validUntil"));
  })

-- The five tests of `assertAuthorizationScope` on an active authorization.
unfoldable pub is_in_scope : Authorization → OfferInput → Bool
is_in_scope authorization input =
    authorization.provider_id == input.provider_id
    && any (matches_pattern input.model) authorization.model_patterns
    && (contains authorization.region_codes (text "*")
        || contains authorization.region_codes input.region_code)
    && all (contains authorization.allowed_data_classes) input.data_classes
    && is_within_limits input.limits authorization.capacity_ceiling

unfoldable pub assert_authorization_scope :
    Engine → Option Authorization → OfferInput → Text → Result Authorization
assert_authorization_scope js none input instant = err authorization_required
assert_authorization_scope js (some authorization) input instant = do
  active ← is_authorization_active js instant authorization
  throw_if (not active) authorization_required
  throw_if (not (is_in_scope authorization input)) authorization_scope_mismatch
  ok authorization

-- The offer begins before the authorization or ends after it; the ends are read only if the offer
-- does not begin before.
unfoldable pub exceeds_window : Engine → OfferInput → Authorization → Result Bool
exceeds_window js input authorization = do
  from ← parse_timestamp js input.valid_from
  least ← parse_timestamp js authorization.valid_from
  if ltb from least then ok true else (do
    until ← parse_timestamp js input.valid_until
    most ← parse_timestamp js authorization.valid_until
    ok (ltb most until))

unfoldable pub offer_event : SupplierState → Context → OfferInput → Authorization → OfferEvent
offer_event supplier context input authorization = record {
  envelope = record {
    schema_version = schema_version;
    event_id = context.event_id;
    tenant_id = context.tenant_id;
    actor_id = context.actor_id;
    causation_id = context.command_id;
    aggregate_type = text "capacity-offer";
    aggregate_id = input.offer_id;
    aggregate_version = 1;
    occurred_at = context.occurred_at;
  };
  payload = record {
    input = input;
    supplier_id = supplier.supplier_id;
    source_type = authorization.source_type;
  };
}

-- `assertContext`, `assertTenant` and `assertCommandNotBefore` are those of `assert_state_context`.
unfoldable pub publish_capacity_offer : Engine → SupplierState → Value → Value → Result OfferEvent
publish_capacity_offer js supplier input_value context_value = do
  assert_safe_input js input_value
  assert_exact_keys js input_value offer_keys
  context ← assert_state_context js supplier context_value
  throw_if (not (supplier.status == SupplierStatus.active)) invalid_supplier_state
  missing ← missing_required_verification_kinds js supplier context.occurred_at
  throw_if (not (is_empty missing)) verification_incomplete
  input ← read_offer js context input_value
  authorization ←
      assert_authorization_scope js
        (find_authorization input.authorization_id supplier.authorizations) input
        context.occurred_at
  outside ← exceeds_window js input authorization
  throw_if outside authorization_scope_mismatch
  ok (offer_event supplier context input authorization)

-- `rehydrateCapacityOffer`
unfoldable pub rehydrate_capacity_offer : List OfferEvent → Result (Option OfferState)
rehydrate_capacity_offer [] = ok none
rehydrate_capacity_offer (event ∷ []) = do
  throw_if
      (not (event.schema_version == schema_version)
        || not (event.aggregate_type == text "capacity-offer")
        || not (event.aggregate_version == 1)
        || not (event.aggregate_id == event.payload.offer_id))
      invalid_event_history
  ok (
      some (record {
        offer = event.payload;
        tenant_id = event.tenant_id;
        version = event.aggregate_version;
        published_at = event.occurred_at;
      }))
rehydrate_capacity_offer (event ∷ other ∷ events) = err invalid_event_history

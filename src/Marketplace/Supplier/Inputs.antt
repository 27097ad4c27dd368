-- ===== src/Marketplace/Supplier/Inputs.antt =====
-- packages/marketplace-domain/src/supplier.ts: the tests on the fields of the command inputs, in the
-- order of the source.
use token_streaming.Common.{
  Bool, true, false, not, ◌&&◌, ◌||◌, Option, none, some, List, [], ◌∷◌, ℕ, nat_beq, leb, ltb,
  contains, length, if◌then◌else◌,
}
use token_streaming.Common.Outcome.{ok, throw_if, ◌>>=◌, ◌>>◌}
use token_streaming.Js.{natural, Value, undefined, null, bool, num, str, Engine, get}
use token_streaming.Js.Texts.{Text, text}
use token_streaming.Marketplace.Errors.{Result, invalid_argument, unsupported_data_class}
use token_streaming.Marketplace.Protocol.{
  DataClass, Context, Verification, Authorization, RegistrationInput, data_class_eq,
}
use token_streaming.Marketplace.Literals.{
  supplier_kinds, verification_kinds, verification_statuses, source_types, authorized_uses,
  metering_modes, input_statuses, data_class_literals,
}
use token_streaming.Marketplace.Validation.{
  assert_identifier, assert_text, assert_allowed_text, assert_allowed_value, assert_country_text,
  assert_country_code, assert_timestamp, parse_timestamp, assert_unique_strings,
  assert_capacity_limits, text_of,
}

-- A falsy value, of those that `assertSafeInput` lets through.
abbrev pub is_falsy : Value → Bool
is_falsy undefined = true
is_falsy null = true
is_falsy (bool b) = not b
is_falsy (num (natural n)) = nat_beq n 0
is_falsy (str s) = nat_beq (length s) 0
is_falsy _ = false

-- `if (input.expiresAt && assertTimestamp(input.expiresAt) <= completedAt) throw`
unfoldable pub read_expiry : Engine → Value → ℕ → Result (Option Text)
read_expiry js value completed = if is_falsy value then ok none else (do
  expires ← assert_timestamp js value
  throw_if (leb expires completed) invalid_argument
  ok (some (text_of value)))

unfoldable pub read_verification : Engine → Context → Value → Result Verification
read_verification js context input = do
  verification_id ← assert_identifier (get js input (text "verificationId"))
  evidence_ref ← assert_identifier (get js input (text "evidenceRef"))
  kind ← assert_allowed_value verification_kinds (get js input (text "kind"))
  status ← assert_allowed_value verification_statuses (get js input (text "status"))
  completed ← assert_timestamp js (get js input (text "completedAt"))
  occurred ← parse_timestamp js context.occurred_at
  throw_if (ltb occurred completed) invalid_argument
  expires_at ← read_expiry js (get js input (text "expiresAt")) completed
  ok (record {
    verification_id = verification_id;
    kind = kind;
    status = status;
    evidence_ref = evidence_ref;
    completed_at = text_of (get js input (text "completedAt"));
    expires_at = expires_at;
  })

-- `validateModelPattern`: a `*` may stand only at the end. `indexOf("*") !== length - 1` says that the
-- first one does not.
unfoldable pub star_before_end : Text → Bool
star_before_end [] = false
star_before_end (c ∷ s) = (nat_beq c b'*' && not (nat_beq (length s) 0)) || star_before_end s

unfoldable pub validate_model_pattern : Text → Result Text
validate_model_pattern value = do
  pattern_text ← assert_text (str value) 120
  throw_if (star_before_end value) invalid_argument
  ok pattern_text

-- `includes("P2") || includes("P3")`
abbrev pub has_unsupported_class : List DataClass → Bool
has_unsupported_class classes = contains classes DataClass.p2 || contains classes DataClass.p3

unfoldable pub read_authorization : Engine → Value → Result Authorization
read_authorization js input = do
  authorization_id ← assert_identifier (get js input (text "authorizationId"))
  provider_id ← assert_identifier (get js input (text "providerId"))
  evidence_ref ← assert_identifier (get js input (text "evidenceRef"))
  source_type ← assert_allowed_value source_types (get js input (text "sourceType"))
  authorized_use ← assert_allowed_value authorized_uses (get js input (text "authorizedUse"))
  metering_mode ← assert_allowed_value metering_modes (get js input (text "meteringMode"))
  status ← assert_allowed_value input_statuses (get js input (text "status"))
  from ← assert_timestamp js (get js input (text "validFrom"))
  until ← assert_timestamp js (get js input (text "validUntil"))
  throw_if (leb until from) invalid_argument
  model_patterns ←
      assert_unique_strings js (get js input (text "modelPatterns")) validate_model_pattern
  region_codes ←
      assert_unique_strings js (get js input (text "regionCodes"))
        (λ value. assert_country_text value true)
  allowed_data_classes ←
      assert_unique_strings js (get js input (text "allowedDataClasses"))
        (assert_allowed_text data_class_literals)
  throw_if (has_unsupported_class allowed_data_classes) unsupported_data_class
  capacity_ceiling ← assert_capacity_limits js (get js input (text "capacityCeiling"))
  ok (record {
    authorization_id = authorization_id;
    provider_id = provider_id;
    source_type = source_type;
    authorized_use = authorized_use;
    metering_mode = metering_mode;
    evidence_ref = evidence_ref;
    model_patterns = model_patterns;
    region_codes = region_codes;
    allowed_data_classes = allowed_data_classes;
    capacity_ceiling = capacity_ceiling;
    valid_from = text_of (get js input (text "validFrom"));
    valid_until = text_of (get js input (text "validUntil"));
    status = status;
  })

unfoldable pub read_registration : Engine → Value → Result RegistrationInput
read_registration js input = do
  supplier_id ← assert_identifier (get js input (text "supplierId"))
  legal_name ← assert_text (get js input (text "legalName")) 200
  display_name ← assert_text (get js input (text "displayName")) 120
  country_code ← assert_country_code (get js input (text "countryCode")) false
  tax_residence_country_code ←
      assert_country_code (get js input (text "taxResidenceCountryCode")) false
  kind ← assert_allowed_value supplier_kinds (get js input (text "kind"))
  ok (record {
    supplier_id = supplier_id;
    kind = kind;
    legal_name = legal_name;
    display_name = display_name;
    country_code = country_code;
    tax_residence_country_code = tax_residence_country_code;
  })

-- ===== src/Marketplace/Validation.antt =====
-- packages/marketplace-domain/src/validation.ts: the assertions on single values. The assertions
-- that narrow a type return the narrowed value.
use token_streaming.Common.{
  ℕ, Bool, false, not, ◌&&◌, ◌||◌, Option, none, some, List, [], ◌∷◌, ltb, leb, nat_beq, ◌==◌,
  length, all, contains, if◌then◌else◌,
}
use token_streaming.Common.Outcome.{ok, err, throw_if, ◌>>=◌, ◌>>◌}
use token_streaming.Js.{natural, Value, str, num, ref, array, plain, classed, Engine, get, max_safe}
use token_streaming.Js.Texts.{Text, text, text_eq, trim, ends_with, is_digit, is_upper, is_alnum}
use token_streaming.Marketplace.Errors.{Result, invalid_argument, tenant_mismatch, duplicate_record}
use token_streaming.Marketplace.Protocol.{CapacityLimits, Context}
use token_streaming.Marketplace.SafeInput.{assert_safe_input}

-- `[A-Za-z0-9._:-]`
unfoldable pub is_identifier_unit : ℕ → Bool
is_identifier_unit c =
    is_alnum c || nat_beq c b'.' || nat_beq c b'_' || nat_beq c b':' || nat_beq c b'-'

-- `IDENTIFIER_PATTERN`
unfoldable pub is_identifier : Text → Bool
is_identifier [] = false
is_identifier (c ∷ s) =
    is_alnum c && all is_identifier_unit s && leb 2 (length s) && leb (length s) 127

unfoldable pub assert_identifier : Value → Result Text
assert_identifier (str s) = if is_identifier s then ok s else err invalid_argument
assert_identifier _ = err invalid_argument

-- `value.trim().length === 0`
unfoldable pub is_blank : Text → Bool
is_blank s = nat_beq (length (trim s)) 0

unfoldable pub assert_text : Value → ℕ → Result Text
assert_text (str s) maximum =
    if is_blank s || ltb maximum (length s) then err invalid_argument else ok s
assert_text _ maximum = err invalid_argument

-- `assertAllowedValue`: the allowed literals come with the constructors that stand for them.
unfoldable pub allowed_value {ℓ} : {A : Type ℓ} → List (Text × A) → Text → Option A
allowed_value [] s = none
allowed_value ((literal, a) ∷ table) s = if literal == s then some a else allowed_value table s

unfoldable pub assert_allowed_text : {A : Type 0} → List (Text × A) → Text → Result A
assert_allowed_text table s = elim (allowed_value table s) [
  | none ↦ err invalid_argument
  | some a ↦ ok a
]

unfoldable pub assert_allowed_value : {A : Type 0} → List (Text × A) → Value → Result A
assert_allowed_value table (str s) = assert_allowed_text table s
assert_allowed_value table _ = err invalid_argument

-- `COUNTRY_PATTERN` and `CURRENCY_PATTERN`: two and three capital letters.
unfoldable pub is_country : Text → Bool
is_country s = all is_upper s && nat_beq (length s) 2

unfoldable pub is_currency : Text → Bool
is_currency s = all is_upper s && nat_beq (length s) 3

unfoldable pub assert_country_text : Text → Bool → Result Text
assert_country_text s wildcard =
    if (wildcard && s == text "*") || is_country s then ok s else err invalid_argument

unfoldable pub assert_country_code : Value → Bool → Result Text
assert_country_code (str s) wildcard = assert_country_text s wildcard
assert_country_code _ wildcard = err invalid_argument

unfoldable pub assert_currency : Value → Result Text
assert_currency (str s) = if is_currency s then ok s else err invalid_argument
assert_currency _ = err invalid_argument

-- `value.endsWith("Z")` and a finite `Date.parse(value)`
unfoldable pub timestamp_of : Engine → Text → Option ℕ
timestamp_of js s = if ends_with s b'Z' then js.date_parse s else none

-- `assertTimestamp` of a text
unfoldable pub parse_timestamp : Engine → Text → Result ℕ
parse_timestamp js s = elim (timestamp_of js s) [ none ↦ err invalid_argument | some at ↦ ok at ]

unfoldable pub assert_timestamp : Engine → Value → Result ℕ
assert_timestamp js (str s) = parse_timestamp js s
assert_timestamp js _ = err invalid_argument

unfoldable pub assert_tenant : Text → Context → Result (Unit {0})
assert_tenant tenant_id context = throw_if (not (tenant_id == context.tenant_id)) tenant_mismatch

unfoldable pub assert_command_not_before : Engine → Text → Context → Result (Unit {0})
assert_command_not_before js updated_at context = do
  occurred ← parse_timestamp js context.occurred_at
  updated ← parse_timestamp js updated_at
  throw_if (ltb occurred updated) invalid_argument

unfoldable pub assert_positive_safe_integer : Value → ℕ → Result ℕ
assert_positive_safe_integer (num (natural n)) maximum =
    if leb n max_safe && ltb 0 n && leb n maximum then ok n else err invalid_argument
assert_positive_safe_integer _ maximum = err invalid_argument

-- `/^[1-9][0-9]*$/`
unfoldable pub is_positive_decimal : Text → Bool
is_positive_decimal [] = false
is_positive_decimal (c ∷ s) = leb b'1' c && leb c b'9' && all is_digit s

-- at most 30 digits
unfoldable pub assert_positive_decimal_integer : Value → Result Text
assert_positive_decimal_integer (str s) =
    if is_positive_decimal s && leb (length s) 30 then ok s else err invalid_argument
assert_positive_decimal_integer _ = err invalid_argument

-- The loop of `assertUniqueStrings`; `seen` is the set `unique`.
unfoldable pub unique_strings :
    {A : Type 0} → (Text → Result A) → List Text → List Value → Result (List A)
unique_strings validate seen [] = ok []
unique_strings validate seen (str s ∷ values) = do
  a ← validate s
  throw_if (contains seen s) duplicate_record
  rest ← unique_strings validate (s ∷ seen) values
  ok (a ∷ rest)
unique_strings validate seen (_ ∷ values) = err invalid_argument

unfoldable pub assert_unique_strings :
    {A : Type 0} → Engine → Value → (Text → Result A) → Result (List A)
assert_unique_strings js (ref r) validate = elim (js.heap r) [
  | array values ↦ (do
    throw_if (nat_beq (length values) 0 || ltb 100 (length values)) invalid_argument
    unique_strings validate [] values)
  | plain fields ↦ err invalid_argument
  | classed fields ↦ err invalid_argument
]
assert_unique_strings js _ validate = err invalid_argument

-- `assertExactKeys`, with `assertPlainRecord`: a plain object with no other keys.
unfoldable pub assert_exact_keys : Engine → Value → List Text → Result (Unit {0})
assert_exact_keys js (ref r) allowed = elim (js.heap r) [
  | array values ↦ err invalid_argument
  | plain fields ↦ throw_if (not (all (λ f. contains allowed f.0) fields)) invalid_argument
  | classed fields ↦ err invalid_argument
]
assert_exact_keys js _ allowed = err invalid_argument

unfoldable pub limit_keys : List Text
limit_keys =
    text "requestsPerMinute"
    ∷ text "tokensPerMinute"
    ∷ text "concurrency"
    ∷ text "maxOutputTokens"
    ∷ []

-- The four tests of `assertCapacityLimits`.
unfoldable pub read_limits : Value → Value → Value → Value → Result CapacityLimits
read_limits requests_value tokens_value concurrency_value output_value = do
  requests ← assert_positive_safe_integer requests_value 1_000_000
  tokens ← assert_positive_safe_integer tokens_value 10_000_000_000
  concurrency ← assert_positive_safe_integer concurrency_value 100_000
  output ← assert_positive_safe_integer output_value 10_000_000
  ok (record {
    requests_per_minute = requests;
    tokens_per_minute = tokens;
    concurrency = concurrency;
    max_output_tokens = output;
  })

unfoldable pub assert_capacity_limits : Engine → Value → Result CapacityLimits
assert_capacity_limits js value = do
  assert_exact_keys js value limit_keys
  read_limits (get js value (text "requestsPerMinute")) (get js value (text "tokensPerMinute"))
      (get js value (text "concurrency")) (get js value (text "maxOutputTokens"))

-- `&&` reads `validUntil` only if the first test passes.
unfoldable pub is_active_at : Engine → Text → Text → Text → Result Bool
is_active_at js valid_from valid_until instant = do
  at ← parse_timestamp js instant
  from ← parse_timestamp js valid_from
  if leb from at then (do until ← parse_timestamp js valid_until; ok (ltb at until)) else ok false

unfoldable pub context_keys : List Text
context_keys =
    text "tenantId" ∷ text "actorId" ∷ text "commandId" ∷ text "eventId" ∷ text "occurredAt" ∷ []

-- The text of a value that an assertion has found to be one.
abbrev pub text_of : Value → Text
text_of (str s) = s
text_of _ = []

unfoldable pub assert_context : Engine → Value → Result Context
assert_context js value = do
  assert_safe_input js value
  assert_exact_keys js value context_keys
  tenant_id ← assert_identifier (get js value (text "tenantId"))
  actor_id ← assert_identifier (get js value (text "actorId"))
  command_id ← assert_identifier (get js value (text "commandId"))
  event_id ← assert_identifier (get js value (text "eventId"))
  at ← assert_timestamp js (get js value (text "occurredAt"))
  ok (record {
    tenant_id = tenant_id;
    actor_id = actor_id;
    command_id = command_id;
    event_id = event_id;
    occurred_at = text_of (get js value (text "occurredAt"));
  })

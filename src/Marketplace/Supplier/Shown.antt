-- ===== src/Marketplace/Supplier/Shown.antt =====
-- What the assertions on a field establish of its value
-- (packages/marketplace-domain/src/validation.ts), and what it means that an input gives a record.
use token_streaming.Common.{
  ℕ, ◌≡◌, refl, sym, ap, ◌∙◌, subst, true, Option, none, some, List, [], ◌∷◌, map, All, arith,
  contains, leb, ltb, length, nat_beq, ◌==◌, ◌||◌, Option-cases, Bool-cases, inl, inr,
}
use token_streaming.Common.Outcome.{ok, throw_if, >>=-eq-ok, ok-injective}
use token_streaming.Js.{natural, Value, num, str, ref, array, plain, classed, Object, Engine, get}
use token_streaming.Js.Texts.{Text, text, text_eq, text_beq_iff}
use token_streaming.Marketplace.Errors.{Result, invalid_argument}
use token_streaming.Marketplace.Protocol.{
  VerificationKind, VerificationStatus, SourceType, AuthorizedUse, MeteringMode,
  AuthorizationStatus, DataClass, CapacityLimits, Verification, Authorization,
}
use token_streaming.Marketplace.Validation.{
  assert_identifier, assert_text, allowed_value, assert_allowed_text, assert_allowed_value,
  assert_country_text, assert_timestamp, assert_positive_safe_integer, unique_strings,
  assert_unique_strings, limit_keys, read_limits, assert_capacity_limits, assert_exact_keys,
  text_of,
}
use token_streaming.Marketplace.Supplier.Inputs.{is_falsy, read_expiry, validate_model_pattern}

abbrev pub kind_text : VerificationKind → Text
kind_text VerificationKind.identity = text "identity"
kind_text VerificationKind.business = text "business"
kind_text VerificationKind.beneficial_ownership = text "beneficial-ownership"
kind_text VerificationKind.tax = text "tax"
kind_text VerificationKind.payout = text "payout"

abbrev pub outcome_text : VerificationStatus → Text
outcome_text VerificationStatus.verified = text "verified"
outcome_text VerificationStatus.rejected = text "rejected"

abbrev pub source_text : SourceType → Text
source_text SourceType.api_project = text "api-project"
source_text SourceType.commercial_account = text "commercial-account"
source_text SourceType.subscription_plan = text "subscription-plan"
source_text SourceType.self_hosted_license = text "self-hosted-license"

abbrev pub use_text : AuthorizedUse → Text
use_text AuthorizedUse.managed_inference = text "managed-inference"
use_text AuthorizedUse.inference_resale = text "inference-resale"

abbrev pub metering_text : MeteringMode → Text
metering_text MeteringMode.provider_report = text "provider-report"
metering_text MeteringMode.signed_receipt = text "signed-receipt"
metering_text MeteringMode.dedicated_counter = text "dedicated-counter"

abbrev pub authorization_text : AuthorizationStatus → Text
authorization_text AuthorizationStatus.pending = text "pending"
authorization_text AuthorizationStatus.active = text "active"
authorization_text AuthorizationStatus.suspended = text "suspended"
authorization_text AuthorizationStatus.revoked = text "revoked"

abbrev pub class_text : DataClass → Text
class_text DataClass.p0 = text "P0"
class_text DataClass.p1 = text "P1"
class_text DataClass.p2 = text "P2"
class_text DataClass.p3 = text "P3"

-- A value that may be left out.
abbrev pub Gives : Value → Option Text → Type 0
Gives value none = is_falsy value ≡ true
Gives value (some t) = value ≡ str t

-- An array of texts.
abbrev pub Lists : Engine → Value → List Text → Type 0
Lists js value ts = (r : ℕ) × (value ≡ ref r) × (js.heap r ≡ array (map str ts))

pub record GivesLimits (js : Engine) (value : Value) (limits : CapacityLimits) : Type 0 where
  pub requests : get js value (text "requestsPerMinute") ≡ num (natural limits.requests_per_minute)
  pub tokens : get js value (text "tokensPerMinute") ≡ num (natural limits.tokens_per_minute)
  pub concurrency : get js value (text "concurrency") ≡ num (natural limits.concurrency)
  pub output : get js value (text "maxOutputTokens") ≡ num (natural limits.max_output_tokens)

-- The input says what the verification says.
pub record GivesVerification (js : Engine) (input : Value) (v : Verification) : Type 0 where
  pub id : get js input (text "verificationId") ≡ str v.verification_id
  pub kind : get js input (text "kind") ≡ str (kind_text v.kind)
  pub status : get js input (text "status") ≡ str (outcome_text v.status)
  pub evidence : get js input (text "evidenceRef") ≡ str v.evidence_ref
  pub completed : get js input (text "completedAt") ≡ str v.completed_at
  pub expires : Gives (get js input (text "expiresAt")) v.expires_at

-- The input says what the authorization says.
pub record GivesAuthorization (js : Engine) (input : Value) (a : Authorization) : Type 0 where
  pub id : get js input (text "authorizationId") ≡ str a.authorization_id
  pub provider : get js input (text "providerId") ≡ str a.provider_id
  pub source : get js input (text "sourceType") ≡ str (source_text a.source_type)
  pub authorized : get js input (text "authorizedUse") ≡ str (use_text a.authorized_use)
  pub metering : get js input (text "meteringMode") ≡ str (metering_text a.metering_mode)
  pub evidence : get js input (text "evidenceRef") ≡ str a.evidence_ref
  pub models : Lists js (get js input (text "modelPatterns")) a.model_patterns
  pub regions : Lists js (get js input (text "regionCodes")) a.region_codes
  pub classes :
      Lists js (get js input (text "allowedDataClasses")) (map class_text a.allowed_data_classes)
  pub ceiling : GivesLimits js (get js input (text "capacityCeiling")) a.capacity_ceiling
  pub from : get js input (text "validFrom") ≡ str a.valid_from
  pub until : get js input (text "validUntil") ≡ str a.valid_until
  pub status : get js input (text "status") ≡ str (authorization_text a.status)

pub assert_identifier-str : (v : Value) (s : Text) → assert_identifier v ≡ ok s → v ≡ str s
unfolding assert_identifier
assert_identifier-str (str t) s h = ap str (ground arith)
assert_identifier-str _ s h = cc

pub assert_timestamp-str :
    (js : Engine) (v : Value) (at : ℕ) → assert_timestamp js v ≡ ok at → v ≡ str (text_of v)
unfolding assert_timestamp
assert_timestamp-str js (str s) at h = refl
assert_timestamp-str js _ at h = cc

allowed_value-shown :
    {A : Type 0} (table : List (Text × A)) (show : A → Text) (s : Text) (a : A)
    → All (λ (row : Text × A). row.0 ≡ show row.1) table
    → allowed_value table s ≡ some a
    → s ≡ show a
unfolding allowed_value
allowed_value-shown [] show s a rows h = cc
allowed_value-shown ((literal, b) ∷ table) show s a (first, rows) h =
    elim (Bool-cases (literal == s)) [
      | inl equal ↦
          let same : b ≡ a = ground arith in
          sym ((text_beq_iff literal s).0 equal) ∙ first ∙ ap show same
      | inr other ↦ allowed_value-shown table show s a rows (ground arith)
    ]

pub assert_allowed_text-shown :
    {A : Type 0} (table : List (Text × A)) (show : A → Text) (s : Text) (a : A)
    → All (λ (row : Text × A). row.0 ≡ show row.1) table
    → assert_allowed_text table s ≡ ok a
    → s ≡ show a
unfolding assert_allowed_text
assert_allowed_text-shown table show s a rows h = elim (Option-cases (allowed_value table s)) [
  | inl missing ↦ let bad = rw (missing, assert_allowed_text) at h in cc
  | inr (b, found) ↦
      let found_ok = rw (found, assert_allowed_text) at h in
      let same : b ≡ a = ok-injective found_ok in
      allowed_value-shown table show s a rows (found ∙ ap some same)
]

pub assert_allowed_value-str :
    {A : Type 0} (table : List (Text × A)) (show : A → Text) (v : Value) (a : A)
    → All (λ (row : Text × A). row.0 ≡ show row.1) table
    → assert_allowed_value table v ≡ ok a
    → v ≡ str (show a)
unfolding assert_allowed_value
assert_allowed_value-str table show (str s) a rows h =
    ap str (assert_allowed_text-shown table show s a rows h)
assert_allowed_value-str table show _ a rows h = cc

unique_strings-shown :
    {A : Type 0} (validate : Text → Result A) (show : A → Text) (seen : List Text)
    (values : List Value) (items : List A)
    → ((s : Text) (a : A) → validate s ≡ ok a → s ≡ show a)
    → unique_strings validate seen values ≡ ok items
    → values ≡ map str (map show items)
unfolding unique_strings
unique_strings-shown validate show seen [] items shown h =
    let same = ok-injective h in subst (λ l. [] ≡ map str (map show l)) same refl
unique_strings-shown validate show seen (str s ∷ values) items shown h =
    let (a, v, h1) = >>=-eq-ok (validate s) _ h in
    let (_, _, h2) = >>=-eq-ok (throw_if (contains seen s) _) _ h1 in
    let (rest, r, h3) = >>=-eq-ok (unique_strings validate (s ∷ seen) values) _ h2 in
    let tail = unique_strings-shown validate show (s ∷ seen) values rest shown r in
    let head = shown s a v in
    subst (λ l. (str s ∷ values) ≡ map str (map show l)) (ok-injective h3) (cc)
unique_strings-shown validate show seen (_ ∷ values) items shown h = cc

pub assert_unique_strings-Lists :
    {A : Type 0} (js : Engine) (value : Value) (validate : Text → Result A) (show : A → Text)
    (items : List A)
    → ((s : Text) (a : A) → validate s ≡ ok a → s ≡ show a)
    → assert_unique_strings js value validate ≡ ok items
    → Lists js value (map show items)
unfolding assert_unique_strings
assert_unique_strings-Lists js (ref r) validate show items shown h = go (js.heap r) refl h
  where
    go :
        (found : Object)
        → js.heap r ≡ found
        → assert_unique_strings js (ref r) validate ≡ ok items
        → Lists js (ref r) (map show items)
    go (array values) here given =
        let given' = rw (here, assert_unique_strings) at given in
        let (_, _, h1) =
          >>=-eq-ok
            (throw_if (nat_beq (length values) 0 || ltb 100 (length values)) invalid_argument) _
            given' in
        (r, refl, here ∙ ap array (unique_strings-shown validate show [] values items shown h1))
    go (plain fields) here given = let given' = rw (here, assert_unique_strings) at given in cc
    go (classed fields) here given = let given' = rw (here, assert_unique_strings) at given in cc
assert_unique_strings-Lists js _ validate show items shown h = cc

pub validate_model_pattern-same : (s p : Text) → validate_model_pattern s ≡ ok p → s ≡ p
unfolding validate_model_pattern assert_text
validate_model_pattern-same s p h = ground arith

pub assert_country_text-same : (s p : Text) → assert_country_text s true ≡ ok p → s ≡ p
unfolding assert_country_text
assert_country_text-same s p h = ground arith

assert_positive_safe_integer-num :
    (v : Value) (maximum n : ℕ)
    → assert_positive_safe_integer v maximum ≡ ok n
    → v ≡ num (natural n)
unfolding assert_positive_safe_integer
assert_positive_safe_integer-num (num (natural k)) maximum n h =
    let same : k ≡ n = ground arith in ap (λ m. num (natural m)) same
assert_positive_safe_integer-num _ maximum n h = cc

pub GivesLimits-of_ok :
    (js : Engine) (value : Value) (limits : CapacityLimits)
    → assert_capacity_limits js value ≡ ok limits
    → GivesLimits js value limits
unfolding assert_capacity_limits read_limits
GivesLimits-of_ok js value limits h =
    let (_, _, h0) = >>=-eq-ok (assert_exact_keys js value limit_keys) _ h in
    let (q, a, h1) =
      >>=-eq-ok (assert_positive_safe_integer (get js value (text "requestsPerMinute")) 1_000_000) _
        h0 in
    let (t, b, h2) =
      >>=-eq-ok
        (assert_positive_safe_integer (get js value (text "tokensPerMinute")) 10_000_000_000) _
        h1 in
    let (c, d, h3) =
      >>=-eq-ok (assert_positive_safe_integer (get js value (text "concurrency")) 100_000) _ h2 in
    let (o, e, h4) =
      >>=-eq-ok (assert_positive_safe_integer (get js value (text "maxOutputTokens")) 10_000_000) _
        h3 in
    subst (GivesLimits js value) (ok-injective h4) (record {
      requests = assert_positive_safe_integer-num _ 1_000_000 q a;
      tokens = assert_positive_safe_integer-num _ 10_000_000_000 t b;
      concurrency = assert_positive_safe_integer-num _ 100_000 c d;
      output = assert_positive_safe_integer-num _ 10_000_000 o e;
    })

pub read_expiry-Gives :
    (js : Engine) (value : Value) (completed : ℕ) (expiry : Option Text)
    → read_expiry js value completed ≡ ok expiry
    → Gives value expiry
unfolding read_expiry
read_expiry-Gives js value completed expiry h = elim (Bool-cases (is_falsy value)) [
  | inl falsy ↦
      let given = rw (falsy, read_expiry) at h in subst (Gives value) (ok-injective given) falsy
  | inr truthy ↦
      let given = rw (truthy, read_expiry) at h in
      let (at, a, h1) = >>=-eq-ok (assert_timestamp js value) _ given in
      let (_, _, h2) = >>=-eq-ok (throw_if (leb at completed) _) _ h1 in
      subst (Gives value) (ok-injective h2) (assert_timestamp-str js value at a)
]

-- ===== src/Marketplace/Attestation/Attested.antt =====
-- Which attestation passes (packages/marketplace-domain/src/gateway-attestation.ts).
use token_streaming.Common.{
  ◌≡◌, ◌↔◌, sym, ap, false, or-not_iff, or_iff, not_iff, inl, inr, Memᴰ, All, contains,
  contains-Memᴰ, Memᴰ-contains, keep, keep-found, keep-Memᴰ, all-All, All-all,
}
use token_streaming.Common.Outcome.{
  ok, err, throw_if, or_throw, >>=-eq-ok, throw_if-eq-ok, ok-injective, err-injective,
  or_throw-eq-ok, Outcome-cases, throw_if-eq-err,
}
use token_streaming.Js.{Engine, Value, str}
use token_streaming.Js.Texts.{Text, text, text_eq, text_beq_iff}
use token_streaming.Marketplace.Errors.{ErrorCode, gateway_attestation_mismatch}
use token_streaming.Marketplace.Protocol.{DataClass, data_class_eq}
use token_streaming.Marketplace.SafeInput.{assert_safe_input}
use token_streaming.Marketplace.Evidence.Matches.{text_of_is, is_of_text}
use token_streaming.Marketplace.Patterns.{matches_pattern}
use token_streaming.Marketplace.Patterns.Covers.{
  Covers, IsWithin, is_within_limits_iff, matches_pattern_iff,
}
use token_streaming.Marketplace.Attestation.{
  AttestationExpectation, Attestation, VerifiedAttestation, gateway_version,
  validate_attestation_expectation, read_attestation, assert_remote_shape, matched_models,
  differs_attestation, verified_attestation, verify_supplier_gateway_attestation,
}

-- The gateway is ready, answers this challenge, and can serve what is expected of it.
pub record IsServing (expectation : AttestationExpectation) (attestation : Attestation)
    : Type 0 where
  pub ready : attestation.status ≡ str (text "ready")
  pub version : attestation.protocol_version ≡ str gateway_version
  pub request : attestation.request_id ≡ expectation.request_id
  pub challenge : attestation.challenge ≡ expectation.challenge
  pub provider : attestation.provider_id ≡ expectation.provider_id
  pub model : Text
  pub offered : Memᴰ model attestation.allowed_models
  pub covered : Covers model expectation.model_pattern
  pub classes :
      All (λ (c : DataClass). Memᴰ c attestation.allowed_data_classes) expectation.data_classes
  pub limits : IsWithin expectation.limits attestation.limits

IsServing-of_test :
    (x : AttestationExpectation) (a : Attestation) → differs_attestation x a ≡ false → IsServing x a
unfolding differs_attestation matched_models
IsServing-of_test x a h =
    let (h1, limits) = (or-not_iff _ _).0 h in
    let (h2, classes) = (or-not_iff _ _).0 h1 in
    let (h3, models) = (or_iff _ _).0 h2 in
    let (h4, provider) = (or-not_iff _ _).0 h3 in
    let (h5, challenge) = (or-not_iff _ _).0 h4 in
    let (h6, request) = (or-not_iff _ _).0 h5 in
    let (h7, version) = (or-not_iff _ _).0 h6 in
    let (model, offered, covered) =
      keep-found (λ m. matches_pattern m x.model_pattern) a.allowed_models models in
    record {
      ready = text_of_is a.status (text "ready") ((not_iff _).0 h7);
      version = text_of_is a.protocol_version gateway_version version;
      request = (text_beq_iff a.request_id x.request_id).0 request;
      challenge = (text_beq_iff a.challenge x.challenge).0 challenge;
      provider = (text_beq_iff a.provider_id x.provider_id).0 provider;
      model = model;
      offered = offered;
      covered = (matches_pattern_iff model x.model_pattern).0 covered;
      classes =
          all-All (λ (k : DataClass). Memᴰ k a.allowed_data_classes)
            (contains a.allowed_data_classes) x.data_classes (contains-Memᴰ a.allowed_data_classes)
            classes;
      limits = (is_within_limits_iff x.limits a.limits).0 limits;
    }

test-of_IsServing :
    (x : AttestationExpectation) (a : Attestation) → IsServing x a → differs_attestation x a ≡ false
unfolding differs_attestation matched_models
test-of_IsServing x a s =
    let d0 = (not_iff _).1 (is_of_text a.status (text "ready") (s.ready)) in
    let d1 = (or-not_iff _ _).1 (d0, is_of_text a.protocol_version gateway_version (s.version)) in
    let d2 = (or-not_iff _ _).1 (d1, (text_beq_iff a.request_id x.request_id).1 (s.request)) in
    let d3 = (or-not_iff _ _).1 (d2, (text_beq_iff a.challenge x.challenge).1 (s.challenge)) in
    let d4 = (or-not_iff _ _).1 (d3, (text_beq_iff a.provider_id x.provider_id).1 (s.provider)) in
    let some_model =
      keep-Memᴰ (λ m. matches_pattern m x.model_pattern) a.allowed_models s.model (s.offered)
        ((matches_pattern_iff s.model x.model_pattern).1 (s.covered)) in
    let d5 = (or_iff _ _).1 (d4, some_model) in
    let all_classes =
      All-all (λ (k : DataClass). Memᴰ k a.allowed_data_classes) (contains a.allowed_data_classes)
        x.data_classes (Memᴰ-contains a.allowed_data_classes) (s.classes) in
    let d6 = (or-not_iff _ _).1 (d5, all_classes) in
    (or-not_iff _ _).1 (d6, (is_within_limits_iff x.limits a.limits).1 (s.limits))

-- An attestation that passes, with everything that was read.
pub record IsAttested (js : Engine) (expectation_value attestation_value : Value)
    (result : VerifiedAttestation) : Type 0 where
  pub expectation : AttestationExpectation
  pub attestation : Attestation
  pub reads_expectation : validate_attestation_expectation js expectation_value ≡ ok expectation
  pub safe : assert_safe_input js attestation_value ≡ ok tt
  pub reads_attestation : read_attestation js attestation_value ≡ ok attestation
  pub serving : IsServing expectation attestation
  pub returned : result ≡ record {
    provider_id = attestation.provider_id;
    matched_models =
        keep (λ model. matches_pattern model expectation.model_pattern) attestation.allowed_models;
    data_classes = expectation.data_classes;
    limits = expectation.limits;
  }

attested :
    (js : Engine) (expectation_value attestation_value : Value) (result : VerifiedAttestation)
    → verify_supplier_gateway_attestation js expectation_value attestation_value ≡ ok result
    → IsAttested js expectation_value attestation_value result
unfolding verify_supplier_gateway_attestation assert_remote_shape verified_attestation
    matched_models
attested js expectation_value attestation_value result h =
    let (x, a, h1) = >>=-eq-ok (validate_attestation_expectation js expectation_value) _ h in
    let (_, s, h2) = >>=-eq-ok (assert_safe_input js attestation_value) _ h1 in
    let (t, b, h3) =
      >>=-eq-ok (or_throw (read_attestation js attestation_value) gateway_attestation_mismatch) _
        h2 in
    let (_, c, h4) =
      >>=-eq-ok (throw_if (differs_attestation x t) gateway_attestation_mismatch) _ h3 in
    record {
      expectation = x;
      attestation = t;
      reads_expectation = a;
      safe = s;
      reads_attestation = or_throw-eq-ok _ gateway_attestation_mismatch t b;
      serving = IsServing-of_test x t (throw_if-eq-ok _ gateway_attestation_mismatch c);
      returned = sym (ok-injective h4);
    }

attested_back :
    (js : Engine) (expectation_value attestation_value : Value) (result : VerifiedAttestation)
    → IsAttested js expectation_value attestation_value result
    → verify_supplier_gateway_attestation js expectation_value attestation_value ≡ ok result
unfolding verify_supplier_gateway_attestation assert_remote_shape verified_attestation
    matched_models
attested_back js expectation_value attestation_value result w =
    rw
      (
        w.reads_expectation,
        w.safe,
        w.reads_attestation,
        test-of_IsServing w.expectation w.attestation (w.serving),
      )
      (ap ok (sym (w.returned)))

-- An attestation is verified exactly if the expectation and the answer have their shape, the answer is
-- safe input, and the gateway is ready, speaks the version, repeats request, challenge and provider,
-- offers a model that the expected pattern covers, and allows each expected data class and each of the
-- four limits; the result holds the provider, the offered models that the pattern matches, and the data
-- classes and the limits that were expected.
pub verify_supplier_gateway_attestation_iff :
    (js : Engine) (expectation_value attestation_value : Value) (result : VerifiedAttestation)
    → (verify_supplier_gateway_attestation js expectation_value attestation_value ≡ ok result)
      ↔ IsAttested js expectation_value attestation_value result
verify_supplier_gateway_attestation_iff js expectation_value attestation_value result = (
  attested js expectation_value attestation_value result,
  attested_back js expectation_value attestation_value result,
)

-- Once the expectation is read and the answer is safe input, every error is the mismatch.
pub verify_supplier_gateway_attestation-err :
    (js : Engine) (expectation_value attestation_value : Value) (x : AttestationExpectation)
    (code : ErrorCode)
    → validate_attestation_expectation js expectation_value ≡ ok x
    → assert_safe_input js attestation_value ≡ ok tt
    → verify_supplier_gateway_attestation js expectation_value attestation_value ≡ err code
    → code ≡ gateway_attestation_mismatch
unfolding verify_supplier_gateway_attestation assert_remote_shape
verify_supplier_gateway_attestation-err js expectation_value attestation_value x code a s h =
    let h1 = rw (a, s) at h in
    elim (Outcome-cases (read_attestation js attestation_value)) [
      | inr (fault, e) ↦ let h2 = rw e at h1 in sym (err-injective h2)
      | inl (t, e) ↦
          let h2 = rw e at h1 in
          throw_if-eq-err (differs_attestation x t) gateway_attestation_mismatch
            (verified_attestation x t) code h2
    ]

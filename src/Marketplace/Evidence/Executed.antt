-- ===== src/Marketplace/Evidence/Executed.antt =====
-- Which execution evidence passes (packages/marketplace-domain/src/execution-evidence.ts).
use token_streaming.Common.{
  ℕ, ◌≡◌, ◌↔◌, sym, ◌∙◌, ap, false, not, ◌||◌, or-not_iff, not_iff, ◌⊎◌, inl, inr,
}
use token_streaming.Common.Outcome.{
  ok, err, throw_if, or_throw, >>=-eq-ok, throw_if-eq-ok, ok-injective, err-injective,
  or_throw-eq-ok, Outcome-cases, throw_if-eq-err,
}
use token_streaming.Js.{Engine, Value, str}
use token_streaming.Js.Texts.{text_eq, text_beq_iff}
use token_streaming.Marketplace.Errors.{ErrorCode, service_evidence_mismatch}
use token_streaming.Marketplace.Validation.{assert_timestamp, text_of}
use token_streaming.Marketplace.Evidence.{same_usage, is_within_clock_window}
use token_streaming.Marketplace.Evidence.Matches.{
  IsTimely, window_iff, same_of_usage, usage_of_same, text_of_is, is_of_text,
}
use token_streaming.Marketplace.Evidence.Execution.{
  ExecutionExpectation, ExecutionEvidence, execution_version, validate_execution_expectation,
  read_execution_evidence, validate_execution_evidence, differs_execution, VerifiedExecution,
  verified_execution, verify_supplier_execution_evidence,
}

-- What the tests of `verifySupplierExecutionEvidence` ask of evidence that has its shape.
pub record IsSameExecution (expectation : ExecutionExpectation) (evidence : ExecutionEvidence)
    : Type 0 where
  pub version : evidence.evidence_version ≡ str execution_version
  pub request : evidence.request_id ≡ expectation.request_id
  pub provider : evidence.provider_id ≡ expectation.provider_id
  pub requested : evidence.requested_model ≡ expectation.requested_model
  pub served : evidence.served_model ≡ expectation.requested_model
  pub input : evidence.input_sha256 ≡ expectation.input_sha256
  pub output : evidence.output_sha256 ≡ expectation.output_sha256
  pub usage : evidence.usage ≡ expectation.usage

-- Evidence that passes, with everything that was read.
pub record IsAcceptedExecution (js : Engine) (expectation_value evidence_value : Value)
    (result : VerifiedExecution) : Type 0 where
  pub expectation : ExecutionExpectation
  pub evidence : ExecutionEvidence
  pub completed : ℕ
  pub started : ℕ
  pub verified : ℕ
  pub reads_expectation : validate_execution_expectation js expectation_value ≡ ok expectation
  pub reads_evidence : read_execution_evidence js evidence_value ≡ ok evidence
  pub reads_completed : assert_timestamp js evidence.completed_at ≡ ok completed
  pub reads_started : assert_timestamp js expectation.request_started_at ≡ ok started
  pub reads_verified : assert_timestamp js expectation.verified_at ≡ ok verified
  pub same : IsSameExecution expectation evidence
  pub timely : IsTimely completed started verified
  pub returned : result ≡ record {
    provider_id = evidence.provider_id;
    requested_model = evidence.requested_model;
    served_model = evidence.served_model;
    provider_request_id = evidence.provider_request_id;
    input_sha256 = evidence.input_sha256;
    output_sha256 = evidence.output_sha256;
    usage = evidence.usage;
    completed_at = text_of evidence.completed_at;
    receipt_ref = evidence.receipt_ref;
  }

same_execution :
    (x : ExecutionExpectation) (e : ExecutionEvidence)
    → differs_execution x e ≡ false
    → e.usage ≡ x.usage
    → IsSameExecution x e
unfolding differs_execution
same_execution x e h u =
    let (h1, output) = (or-not_iff _ _).0 h in
    let (h2, input) = (or-not_iff _ _).0 h1 in
    let (h3, served) = (or-not_iff _ _).0 h2 in
    let (h4, requested) = (or-not_iff _ _).0 h3 in
    let (h5, provider) = (or-not_iff _ _).0 h4 in
    let (h6, request) = (or-not_iff _ _).0 h5 in
    record {
      version = text_of_is e.evidence_version execution_version ((not_iff _).0 h6);
      request = (text_beq_iff e.request_id x.request_id).0 request;
      provider = (text_beq_iff e.provider_id x.provider_id).0 provider;
      requested = (text_beq_iff e.requested_model x.requested_model).0 requested;
      served = (text_beq_iff e.served_model x.requested_model).0 served;
      input = (text_beq_iff e.input_sha256 x.input_sha256).0 input;
      output = (text_beq_iff e.output_sha256 x.output_sha256).0 output;
      usage = u;
    }

no_difference_execution :
    (x : ExecutionExpectation) (e : ExecutionEvidence)
    → IsSameExecution x e
    → differs_execution x e ≡ false
unfolding differs_execution
no_difference_execution x e m =
    let d0 = (not_iff _).1 (is_of_text e.evidence_version execution_version (m.version)) in
    let d1 = (or-not_iff _ _).1 (d0, (text_beq_iff e.request_id x.request_id).1 (m.request)) in
    let d2 = (or-not_iff _ _).1 (d1, (text_beq_iff e.provider_id x.provider_id).1 (m.provider)) in
    let d3 =
      (or-not_iff _ _).1 (d2, (text_beq_iff e.requested_model x.requested_model).1 (m.requested)) in
    let d4 =
      (or-not_iff _ _).1 (d3, (text_beq_iff e.served_model x.requested_model).1 (m.served)) in
    let d5 = (or-not_iff _ _).1 (d4, (text_beq_iff e.input_sha256 x.input_sha256).1 (m.input)) in
    let d6 = (or-not_iff _ _).1 (d5, (text_beq_iff e.output_sha256 x.output_sha256).1 (m.output)) in
    d6

execution_test_iff :
    (x : ExecutionExpectation) (e : ExecutionEvidence) (completed started verified : ℕ)
    → ((differs_execution x e
          || not (same_usage e.usage x.usage)
          || not (is_within_clock_window completed started verified))
        ≡ false)
      ↔ (IsSameExecution x e × IsTimely completed started verified)
execution_test_iff x e completed started verified = (forth, back)
  where
    forth :
        (differs_execution x e
            || not (same_usage e.usage x.usage)
            || not (is_within_clock_window completed started verified))
          ≡ false
        → IsSameExecution x e × IsTimely completed started verified
    forth h =
        let (h1, w) = (or-not_iff _ _).0 h in
        let (d, u) = (or-not_iff _ _).0 h1 in
        (
          same_execution x e d (same_of_usage e.usage x.usage u),
          (window_iff completed started verified).0 w,
        )

    back :
        IsSameExecution x e × IsTimely completed started verified
        → (differs_execution x e
            || not (same_usage e.usage x.usage)
            || not (is_within_clock_window completed started verified))
          ≡ false
    back (m, w) = (or-not_iff _ _).1 (
      (or-not_iff _ _).1 (no_difference_execution x e m, usage_of_same e.usage x.usage (m.usage)),
      (window_iff completed started verified).1 w,
    )

execution_accepted :
    (js : Engine) (expectation_value evidence_value : Value) (result : VerifiedExecution)
    → verify_supplier_execution_evidence js expectation_value evidence_value ≡ ok result
    → IsAcceptedExecution js expectation_value evidence_value result
unfolding verify_supplier_execution_evidence validate_execution_evidence verified_execution
execution_accepted js expectation_value evidence_value result h =
    let (x, a, h1) = >>=-eq-ok (validate_execution_expectation js expectation_value) _ h in
    let (e, b, h2) =
      >>=-eq-ok (or_throw (read_execution_evidence js evidence_value) service_evidence_mismatch) _
        h1 in
    let (completed, c, h3) = >>=-eq-ok (assert_timestamp js e.completed_at) _ h2 in
    let (started, d, h4) = >>=-eq-ok (assert_timestamp js x.request_started_at) _ h3 in
    let (verified, f, h5) = >>=-eq-ok (assert_timestamp js x.verified_at) _ h4 in
    let (_, g, h6) =
      >>=-eq-ok
        (throw_if
          (differs_execution x e
            || not (same_usage e.usage x.usage)
            || not (is_within_clock_window completed started verified))
          service_evidence_mismatch)
        _ h5 in
    let (same, timely) =
      (execution_test_iff x e completed started verified).0
        (throw_if-eq-ok _ service_evidence_mismatch g) in
    record {
      expectation = x;
      evidence = e;
      completed = completed;
      started = started;
      verified = verified;
      reads_expectation = a;
      reads_evidence = or_throw-eq-ok _ service_evidence_mismatch e b;
      reads_completed = c;
      reads_started = d;
      reads_verified = f;
      same = same;
      timely = timely;
      returned = sym (ok-injective h6);
    }

accepted_execution :
    (js : Engine) (expectation_value evidence_value : Value) (result : VerifiedExecution)
    → IsAcceptedExecution js expectation_value evidence_value result
    → verify_supplier_execution_evidence js expectation_value evidence_value ≡ ok result
unfolding verify_supplier_execution_evidence validate_execution_evidence verified_execution
accepted_execution js expectation_value evidence_value result w =
    let passes =
      (execution_test_iff w.expectation w.evidence w.completed w.started w.verified).1
        (w.same, w.timely) in
    rw
      (
        w.reads_expectation, w.reads_evidence, w.reads_completed, w.reads_started, w.reads_verified,
        passes,
      )
      (ap ok (sym (w.returned)))

-- Once the expectation and its times are read, an error is the mismatch, or that of the completion
-- time of evidence that has its shape.
pub verify_supplier_execution_evidence-err :
    (js : Engine) (expectation_value evidence_value : Value) (x : ExecutionExpectation)
    (started verified : ℕ) (code : ErrorCode)
    → validate_execution_expectation js expectation_value ≡ ok x
    → assert_timestamp js x.request_started_at ≡ ok started
    → assert_timestamp js x.verified_at ≡ ok verified
    → verify_supplier_execution_evidence js expectation_value evidence_value ≡ err code
    → (code ≡ service_evidence_mismatch)
      ⊎ ((e : ExecutionEvidence) × (read_execution_evidence js evidence_value ≡ ok e)
          × (assert_timestamp js e.completed_at ≡ err code))
unfolding verify_supplier_execution_evidence validate_execution_evidence
verify_supplier_execution_evidence-err js expectation_value evidence_value x started verified code a
      b c h =
    let h1 = rw a at h in
    elim (Outcome-cases (read_execution_evidence js evidence_value)) [
      | inr (fault, e) ↦ let h2 = rw e at h1 in inl (sym (err-injective h2))
      | inl (evidence, e) ↦
          let h2 = rw e at h1 in
          elim (Outcome-cases (assert_timestamp js evidence.completed_at)) [
            | inr (fault, t) ↦
                let h3 = rw t at h2 in inr (evidence, e, t ∙ ap err (err-injective h3))
            | inl (completed, t) ↦
                let h3 = rw (t, b, c) at h2 in
                inl (
                  throw_if-eq-err
                    (differs_execution x evidence
                      || not (same_usage evidence.usage x.usage)
                      || not (is_within_clock_window completed started verified))
                    service_evidence_mismatch (verified_execution evidence) code h3)
          ]
    ]

-- Execution evidence is verified exactly if the expectation and the evidence have their shape, the
-- three times can be read, the evidence names the version, request, provider, digests and usage that
-- were expected and the expected model both as requested and as served, and it was completed no more
-- than five minutes before the start or after the check; the result repeats the provider, models, provider request, digests,
-- usage, completion time and receipt of the evidence.
pub verify_supplier_execution_evidence_iff :
    (js : Engine) (expectation_value evidence_value : Value) (result : VerifiedExecution)
    → (verify_supplier_execution_evidence js expectation_value evidence_value ≡ ok result)
      ↔ IsAcceptedExecution js expectation_value evidence_value result
verify_supplier_execution_evidence_iff js expectation_value evidence_value result = (
  execution_accepted js expectation_value evidence_value result,
  accepted_execution js expectation_value evidence_value result,
)

-- ===== src/Marketplace/Evidence/Produced.antt =====
-- Which artifact evidence passes (packages/marketplace-domain/src/artifact-evidence.ts).
use token_streaming.Common.{
  ℕ, ◌≡◌, ◌↔◌, sym, ◌∙◌, ap, false, not, ◌||◌, or-not_iff, not_iff, ◌⊎◌, inl, inr,
}
use token_streaming.Common.Outcome.{
  ok, err, throw_if, or_throw, >>=-eq-ok, throw_if-eq-ok, ok-injective, err-injective,
  or_throw-eq-ok, Outcome-cases, throw_if-eq-err,
}
use token_streaming.Js.{Engine, Value, str}
use token_streaming.Js.Texts.{text_eq, text_beq_iff}
use token_streaming.Marketplace.Errors.{ErrorCode, service_evidence_mismatch}
use token_streaming.Marketplace.Validation.{assert_timestamp, text_of}
use token_streaming.Marketplace.Evidence.{same_usage, is_within_clock_window}
use token_streaming.Marketplace.Evidence.Matches.{
  IsTimely, window_iff, same_of_usage, usage_of_same, text_of_is, is_of_text,
}
use token_streaming.Marketplace.Evidence.Artifact.{
  ArtifactExpectation, ArtifactEvidence, artifact_version, validate_artifact_expectation,
  read_artifact_evidence, validate_artifact_evidence, differs_artifact, VerifiedArtifact,
  verified_artifact, verify_supplier_artifact_evidence,
}

-- What the tests of `verifySupplierArtifactEvidence` ask of evidence that has its shape.
pub record IsSameArtifact (expectation : ArtifactExpectation) (evidence : ArtifactEvidence)
    : Type 0 where
  pub version : evidence.evidence_version ≡ str artifact_version
  pub task : evidence.task_id ≡ expectation.task_id
  pub provider : evidence.provider_id ≡ expectation.provider_id
  pub requested : evidence.requested_model ≡ expectation.requested_model
  pub served : evidence.served_model ≡ expectation.requested_model
  pub artifact : evidence.artifact_id ≡ expectation.artifact_id
  pub manifest : evidence.artifact_manifest_sha256 ≡ expectation.artifact_manifest_sha256
  pub output : evidence.output_sha256 ≡ expectation.output_sha256
  pub usage : evidence.usage ≡ expectation.usage

-- Evidence that passes, with everything that was read.
pub record IsAcceptedArtifact (js : Engine) (expectation_value evidence_value : Value)
    (result : VerifiedArtifact) : Type 0 where
  pub expectation : ArtifactExpectation
  pub evidence : ArtifactEvidence
  pub completed : ℕ
  pub started : ℕ
  pub verified : ℕ
  pub reads_expectation : validate_artifact_expectation js expectation_value ≡ ok expectation
  pub reads_evidence : read_artifact_evidence js evidence_value ≡ ok evidence
  pub reads_completed : assert_timestamp js evidence.completed_at ≡ ok completed
  pub reads_started : assert_timestamp js expectation.request_started_at ≡ ok started
  pub reads_verified : assert_timestamp js expectation.verified_at ≡ ok verified
  pub same : IsSameArtifact expectation evidence
  pub timely : IsTimely completed started verified
  pub returned : result ≡ record {
    provider_id = evidence.provider_id;
    requested_model = evidence.requested_model;
    served_model = evidence.served_model;
    artifact_id = evidence.artifact_id;
    artifact_manifest_sha256 = evidence.artifact_manifest_sha256;
    artifact_content_sha256 = evidence.artifact_content_sha256;
    output_sha256 = evidence.output_sha256;
    provider_request_ids_sha256 = evidence.provider_request_ids_sha256;
    segments_completed = evidence.segments_completed;
    usage = evidence.usage;
    completed_at = text_of evidence.completed_at;
  }

same_artifact :
    (x : ArtifactExpectation) (e : ArtifactEvidence)
    → differs_artifact x e ≡ false
    → e.usage ≡ x.usage
    → IsSameArtifact x e
unfolding differs_artifact
same_artifact x e h u =
    let (h1, output) = (or-not_iff _ _).0 h in
    let (h2, manifest) = (or-not_iff _ _).0 h1 in
    let (h3, artifact) = (or-not_iff _ _).0 h2 in
    let (h4, served) = (or-not_iff _ _).0 h3 in
    let (h5, requested) = (or-not_iff _ _).0 h4 in
    let (h6, provider) = (or-not_iff _ _).0 h5 in
    let (h7, task) = (or-not_iff _ _).0 h6 in
    record {
      version = text_of_is e.evidence_version artifact_version ((not_iff _).0 h7);
      task = (text_beq_iff e.task_id x.task_id).0 task;
      provider = (text_beq_iff e.provider_id x.provider_id).0 provider;
      requested = (text_beq_iff e.requested_model x.requested_model).0 requested;
      served = (text_beq_iff e.served_model x.requested_model).0 served;
      artifact = (text_beq_iff e.artifact_id x.artifact_id).0 artifact;
      manifest = (text_beq_iff e.artifact_manifest_sha256 x.artifact_manifest_sha256).0 manifest;
      output = (text_beq_iff e.output_sha256 x.output_sha256).0 output;
      usage = u;
    }

no_difference_artifact :
    (x : ArtifactExpectation) (e : ArtifactEvidence)
    → IsSameArtifact x e
    → differs_artifact x e ≡ false
unfolding differs_artifact
no_difference_artifact x e m =
    let d0 = (not_iff _).1 (is_of_text e.evidence_version artifact_version (m.version)) in
    let d1 = (or-not_iff _ _).1 (d0, (text_beq_iff e.task_id x.task_id).1 (m.task)) in
    let d2 = (or-not_iff _ _).1 (d1, (text_beq_iff e.provider_id x.provider_id).1 (m.provider)) in
    let d3 =
      (or-not_iff _ _).1 (d2, (text_beq_iff e.requested_model x.requested_model).1 (m.requested)) in
    let d4 =
      (or-not_iff _ _).1 (d3, (text_beq_iff e.served_model x.requested_model).1 (m.served)) in
    let d5 = (or-not_iff _ _).1 (d4, (text_beq_iff e.artifact_id x.artifact_id).1 (m.artifact)) in
    let d6 =
      (or-not_iff _ _).1
        (d5, (text_beq_iff e.artifact_manifest_sha256 x.artifact_manifest_sha256).1 (m.manifest)) in
    let d7 = (or-not_iff _ _).1 (d6, (text_beq_iff e.output_sha256 x.output_sha256).1 (m.output)) in
    d7

artifact_test_iff :
    (x : ArtifactExpectation) (e : ArtifactEvidence) (completed started verified : ℕ)
    → ((differs_artifact x e
          || not (same_usage e.usage x.usage)
          || not (is_within_clock_window completed started verified))
        ≡ false)
      ↔ (IsSameArtifact x e × IsTimely completed started verified)
artifact_test_iff x e completed started verified = (forth, back)
  where
    forth :
        (differs_artifact x e
            || not (same_usage e.usage x.usage)
            || not (is_within_clock_window completed started verified))
          ≡ false
        → IsSameArtifact x e × IsTimely completed started verified
    forth h =
        let (h1, w) = (or-not_iff _ _).0 h in
        let (d, u) = (or-not_iff _ _).0 h1 in
        (
          same_artifact x e d (same_of_usage e.usage x.usage u),
          (window_iff completed started verified).0 w,
        )

    back :
        IsSameArtifact x e × IsTimely completed started verified
        → (differs_artifact x e
            || not (same_usage e.usage x.usage)
            || not (is_within_clock_window completed started verified))
          ≡ false
    back (m, w) = (or-not_iff _ _).1 (
      (or-not_iff _ _).1 (no_difference_artifact x e m, usage_of_same e.usage x.usage (m.usage)),
      (window_iff completed started verified).1 w,
    )

artifact_accepted :
    (js : Engine) (expectation_value evidence_value : Value) (result : VerifiedArtifact)
    → verify_supplier_artifact_evidence js expectation_value evidence_value ≡ ok result
    → IsAcceptedArtifact js expectation_value evidence_value result
unfolding verify_supplier_artifact_evidence validate_artifact_evidence verified_artifact
artifact_accepted js expectation_value evidence_value result h =
    let (x, a, h1) = >>=-eq-ok (validate_artifact_expectation js expectation_value) _ h in
    let (e, b, h2) =
      >>=-eq-ok (or_throw (read_artifact_evidence js evidence_value) service_evidence_mismatch) _
        h1 in
    let (completed, c, h3) = >>=-eq-ok (assert_timestamp js e.completed_at) _ h2 in
    let (started, d, h4) = >>=-eq-ok (assert_timestamp js x.request_started_at) _ h3 in
    let (verified, f, h5) = >>=-eq-ok (assert_timestamp js x.verified_at) _ h4 in
    let (_, g, h6) =
      >>=-eq-ok
        (throw_if
          (differs_artifact x e
            || not (same_usage e.usage x.usage)
            || not (is_within_clock_window completed started verified))
          service_evidence_mismatch)
        _ h5 in
    let (same, timely) =
      (artifact_test_iff x e completed started verified).0
        (throw_if-eq-ok _ service_evidence_mismatch g) in
    record {
      expectation = x;
      evidence = e;
      completed = completed;
      started = started;
      verified = verified;
      reads_expectation = a;
      reads_evidence = or_throw-eq-ok _ service_evidence_mismatch e b;
      reads_completed = c;
      reads_started = d;
      reads_verified = f;
      same = same;
      timely = timely;
      returned = sym (ok-injective h6);
    }

accepted_artifact :
    (js : Engine) (expectation_value evidence_value : Value) (result : VerifiedArtifact)
    → IsAcceptedArtifact js expectation_value evidence_value result
    → verify_supplier_artifact_evidence js expectation_value evidence_value ≡ ok result
unfolding verify_supplier_artifact_evidence validate_artifact_evidence verified_artifact
accepted_artifact js expectation_value evidence_value result w =
    let passes =
      (artifact_test_iff w.expectation w.evidence w.completed w.started w.verified).1
        (w.same, w.timely) in
    rw
      (
        w.reads_expectation, w.reads_evidence, w.reads_completed, w.reads_started, w.reads_verified,
        passes,
      )
      (ap ok (sym (w.returned)))

-- Once the expectation and its times are read, an error is the mismatch, or that of the completion
-- time of evidence that has its shape.
pub verify_supplier_artifact_evidence-err :
    (js : Engine) (expectation_value evidence_value : Value) (x : ArtifactExpectation)
    (started verified : ℕ) (code : ErrorCode)
    → validate_artifact_expectation js expectation_value ≡ ok x
    → assert_timestamp js x.request_started_at ≡ ok started
    → assert_timestamp js x.verified_at ≡ ok verified
    → verify_supplier_artifact_evidence js expectation_value evidence_value ≡ err code
    → (code ≡ service_evidence_mismatch)
      ⊎ ((e : ArtifactEvidence) × (read_artifact_evidence js evidence_value ≡ ok e)
          × (assert_timestamp js e.completed_at ≡ err code))
unfolding verify_supplier_artifact_evidence validate_artifact_evidence
verify_supplier_artifact_evidence-err js expectation_value evidence_value x started verified code a
      b c h =
    let h1 = rw a at h in
    elim (Outcome-cases (read_artifact_evidence js evidence_value)) [
      | inr (fault, e) ↦ let h2 = rw e at h1 in inl (sym (err-injective h2))
      | inl (evidence, e) ↦
          let h2 = rw e at h1 in
          elim (Outcome-cases (assert_timestamp js evidence.completed_at)) [
            | inr (fault, t) ↦
                let h3 = rw t at h2 in inr (evidence, e, t ∙ ap err (err-injective h3))
            | inl (completed, t) ↦
                let h3 = rw (t, b, c) at h2 in
                inl (
                  throw_if-eq-err
                    (differs_artifact x evidence
                      || not (same_usage evidence.usage x.usage)
                      || not (is_within_clock_window completed started verified))
                    service_evidence_mismatch (verified_artifact evidence) code h3)
          ]
    ]

-- Artifact evidence is verified exactly if the expectation and the evidence have their shape, the
-- three times can be read, the evidence names the version, task, provider, artifact, manifest, output
-- digest and usage that were expected and the expected model both as requested and as served, and it
-- was completed no more than five minutes before the start or after the check; the result repeats the
-- provider, models, artifact, digests, number of segments, usage and completion time of the evidence.
pub verify_supplier_artifact_evidence_iff :
    (js : Engine) (expectation_value evidence_value : Value) (result : VerifiedArtifact)
    → (verify_supplier_artifact_evidence js expectation_value evidence_value ≡ ok result)
      ↔ IsAcceptedArtifact js expectation_value evidence_value result
verify_supplier_artifact_evidence_iff js expectation_value evidence_value result = (
  artifact_accepted js expectation_value evidence_value result,
  accepted_artifact js expectation_value evidence_value result,
)

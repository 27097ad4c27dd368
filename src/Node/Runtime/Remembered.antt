-- ===== src/Node/Runtime/Remembered.antt =====
-- A node does not forget a claim before it expires (apps/supplier-node/src/runtime.ts).
use token_streaming.Common.{
  ℕ, ◌+◌, ◌≤◌, ◌≡◌, inl, inr, refl, sym, subst, Option, none, some, List, [], ◌∷◌, Memᴰ, All,
  if-holds, if◌then◌else◌,
}
use token_streaming.Common.Outcome.{Outcome, ok, err}
use token_streaming.Js.Texts.{Text}
use token_streaming.Node.Errors.{Thrown}
use token_streaming.Node.Journal.File.{Journal, Disk}
use token_streaming.Node.Journal.{Host, up, down, open_journal}
use token_streaming.Node.Journal.Keeping.{Claim, claim_expiry, claim_line, Keeps}
use token_streaming.Node.Journal.Loading.{IsStorable}
use token_streaming.Node.Journal.Claims.{claim_request-Keeps, compact_now-Keeps}
use token_streaming.Node.Journal.Remembered.{Remembers, open_journal-Remembers}
use token_streaming.Node.Signature.{
  SignedGatewayCall, SignatureInput, Guard, check_call, verify_signed_gateway_call,
}
use token_streaming.Node.Requests.{
  InferenceRequest, ProviderResult, validate_request_against_config,
}
use token_streaming.Node.Executions.{
  Services, Runtime, Reply, Execution, running, settled, idempotency_ttl, answered, execution_at,
  provider_answers, set_draining, validated_call, call_for_artifact,
}
use token_streaming.Node.Runtime.{handle_inference, handle_attestation, attest_verified}
use token_streaming.Node.Signature.Kept.{verify_signed_gateway_call-Keeps}
use token_streaming.Node.Runtime.Starts.{StartsOnce, handle_inference-StartsOnce}
use token_streaming.Node.Runtime.Events.{
  NodeEvent, inferred, attested, provider_answered, artifact_called, timer_compacted, drained,
  restarted, NodeHost, stopped, serving, new_runtime, node_file, created_node, serve, node_step,
  node_run, node_time,
}

-- The node's journal or its file knows the claim.
abbrev pub NodeRemembers : Claim → NodeHost → Type 0
NodeRemembers claim (stopped file) = Memᴰ (claim_line claim) file
NodeRemembers claim (serving r) = Keeps claim r.guard.journal

module _ (s : Services) (claim : Claim) (now : ℕ) (live : now ≤ claim_expiry claim) where
  StartsOnce-Keeps :
      (request_disk : Disk) (checked : Outcome Thrown SignatureInput) (executions : List Execution)
      (verified : Journal) (result : Runtime × Reply)
      → StartsOnce s request_disk now checked executions verified result
      → Keeps claim verified
      → Keeps claim result.0.guard.journal
  StartsOnce-Keeps request_disk checked executions verified (r, reply) (inl (same, left)) keeps =
      subst (Keeps claim) (sym left) keeps
  StartsOnce-Keeps request_disk checked executions verified (r, reply)
        (inr (inl (same, (input, left)))) keeps =
      subst (Keeps claim) (sym left) (
        claim_request-Keeps s.setup claim now live request_disk input.job_id input.body_sha256
          (now + idempotency_ttl) verified keeps)
  StartsOnce-Keeps request_disk checked executions verified (r, reply) (inr (inr claimed)) keeps =
      let input = claimed.input in
      subst (Keeps claim) (sym (claimed.left)) (
        claim_request-Keeps s.setup claim now live request_disk input.job_id input.body_sha256
          (now + idempotency_ttl) verified keeps)

  pub verified-Keeps :
      (nonce_disk : Disk) (call : SignedGatewayCall) (r : Runtime)
      → Keeps claim r.guard.journal
      → Keeps claim (
          if r.draining
          then r.guard.journal
          else (verify_signed_gateway_call s.setup nonce_disk call now r.guard).0.journal)
  verified-Keeps nonce_disk call r keeps =
      if-holds (Keeps claim) r.draining _ _ (λ _. keeps)
        (λ _. verify_signed_gateway_call-Keeps s.setup claim now live nonce_disk call r.guard keeps)

  handle_inference-Keeps :
      (nonce_disk request_disk : Disk) (call : SignedGatewayCall) (acquired_at : ℕ) (r : Runtime)
      → Keeps claim r.guard.journal
      → Keeps claim
          (handle_inference s nonce_disk request_disk call now acquired_at r).0.guard.journal
  handle_inference-Keeps nonce_disk request_disk call acquired_at r keeps =
      StartsOnce-Keeps request_disk (check_call s.setup call) r.executions _
        (handle_inference s nonce_disk request_disk call now acquired_at r)
        (handle_inference-StartsOnce s nonce_disk request_disk call now acquired_at r)
        (verified-Keeps nonce_disk call r keeps)

  attest_verified-Keeps :
      (call : SignedGatewayCall) (r : Runtime) (v : Guard × Outcome Thrown SignatureInput)
      → Keeps claim v.0.journal
      → Keeps claim (attest_verified s call r v).0.guard.journal
  attest_verified-Keeps call r (g, ok input) keeps = keeps
  attest_verified-Keeps call r (g, err e) keeps = keeps

  handle_attestation-Keeps :
      (disk : Disk) (call : SignedGatewayCall) (r : Runtime)
      → Keeps claim r.guard.journal
      → Keeps claim (handle_attestation s disk call now r).0.guard.journal
  unfolding handle_attestation
  handle_attestation-Keeps disk call r keeps =
      attest_verified-Keeps call r (verify_signed_gateway_call s.setup disk call now r.guard)
        (verify_signed_gateway_call-Keeps s.setup claim now live disk call r.guard keeps)

guard-provider_answers :
    (s : Services) (n : ℕ) (answer : Outcome Thrown ProviderResult) (completed_at : Text)
    (r : Runtime)
    → (provider_answers s n answer completed_at r).guard ≡ r.guard
unfolding provider_answers
guard-provider_answers s n answer completed_at r = go (execution_at r.executions n)
  where
    go : (e : Option Execution) → (answered s n answer completed_at e r).guard ≡ r.guard
    go none = refl
    go (some (running caller request lease)) = refl
    go (some (settled outcome)) = refl

guard-validated_call :
    (s : Services) (request : InferenceRequest) (acquired_at : ℕ) (r : Runtime)
    (checked : Outcome Thrown (Unit {0}))
    → (validated_call s request acquired_at r checked).guard ≡ r.guard
guard-validated_call s request acquired_at r (ok u) = refl
guard-validated_call s request acquired_at r (err e) = refl

module _ (s : Services) (claim : Claim) (storable : IsStorable claim) where
  created-Remembers : (host : Host) → Remembers claim host → NodeRemembers claim (created_node host)
  unfolding new_runtime
  created-Remembers (down file) m = m
  created-Remembers (up j) keeps = keeps

  node_file-Memᴰ :
      (host : NodeHost) → NodeRemembers claim host → Memᴰ (claim_line claim) (node_file host)
  node_file-Memᴰ (stopped file) m = m
  node_file-Memᴰ (serving r) keeps = keeps.filed

  serve-Keeps :
      (event : NodeEvent) (r : Runtime)
      → node_time event ≤ claim_expiry claim
      → Keeps claim r.guard.journal
      → Keeps claim (serve s event r).guard.journal
  unfolding set_draining call_for_artifact
  serve-Keeps (inferred nonce_disk request_disk call now acquired_at) r live keeps =
      handle_inference-Keeps s claim now live nonce_disk request_disk call acquired_at r keeps
  serve-Keeps (attested disk call now) r live keeps =
      handle_attestation-Keeps s claim now live disk call r keeps
  serve-Keeps (provider_answered n answer completed_at) r live keeps =
      subst (λ (g : Guard). Keeps claim g.journal)
        (sym (guard-provider_answers s n answer completed_at r)) keeps
  serve-Keeps (artifact_called request acquired_at) r live keeps =
      subst (λ (g : Guard). Keeps claim g.journal)
        (sym (
          guard-validated_call s request acquired_at r
            (validate_request_against_config request s.config)))
        keeps
  serve-Keeps (timer_compacted disk now) r live keeps =
      compact_now-Keeps s.setup claim now live disk r.guard.journal keeps
  serve-Keeps drained r live keeps = keeps
  serve-Keeps (restarted disk now) r live keeps = keeps

  node_step-Remembers :
      (event : NodeEvent) (host : NodeHost)
      → node_time event ≤ claim_expiry claim
      → NodeRemembers claim host
      → NodeRemembers claim (node_step s event host)
  node_step-Remembers (restarted disk now) host live m =
      created-Remembers (open_journal s.setup disk now (node_file host)) (
        open_journal-Remembers s.setup claim storable disk now (node_file host) live
          (node_file-Memᴰ host m))
  node_step-Remembers (inferred nd rd call now acquired_at) (stopped file) live m = m
  node_step-Remembers (attested disk call now) (stopped file) live m = m
  node_step-Remembers (provider_answered n answer completed_at) (stopped file) live m = m
  node_step-Remembers (artifact_called request acquired_at) (stopped file) live m = m
  node_step-Remembers (timer_compacted disk now) (stopped file) live m = m
  node_step-Remembers drained (stopped file) live m = m
  node_step-Remembers (inferred nd rd call now acquired_at) (serving r) live m =
      serve-Keeps (inferred nd rd call now acquired_at) r live m
  node_step-Remembers (attested disk call now) (serving r) live m =
      serve-Keeps (attested disk call now) r live m
  node_step-Remembers (provider_answered n answer completed_at) (serving r) live m =
      serve-Keeps (provider_answered n answer completed_at) r live m
  node_step-Remembers (artifact_called request acquired_at) (serving r) live m =
      serve-Keeps (artifact_called request acquired_at) r live m
  node_step-Remembers (timer_compacted disk now) (serving r) live m =
      serve-Keeps (timer_compacted disk now) r live m
  node_step-Remembers drained (serving r) live m = serve-Keeps drained r live m

  pub node_run-Remembers :
      (events : List NodeEvent) (host : NodeHost)
      → All (λ event. node_time event ≤ claim_expiry claim) events
      → NodeRemembers claim host
      → NodeRemembers claim (node_run s events host)
  node_run-Remembers [] host lives m = m
  node_run-Remembers (event ∷ events) host lives m =
      node_run-Remembers events (node_step s event host) (lives.1)
        (node_step-Remembers event host (lives.0) m)

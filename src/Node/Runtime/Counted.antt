-- ===== src/Node/Runtime/Counted.antt =====
-- A node's gate counts its running executions (apps/supplier-node/src/runtime.ts).
use token_streaming.Common.{
  ℕ, ◌+◌, ◌≤◌, ◌≡◌, refl, subst, not, Option, none, some, List, [], ◌∷◌, length, leb, ◌==◌,
  if-holds, arith,
}
use token_streaming.Common.Outcome.{Outcome, ok, err}
use token_streaming.Js.Texts.{Text, text_eq}
use token_streaming.Js.Utf8.{utf8_length}
use token_streaming.Js.Maps.{lookup, prune_map}
use token_streaming.Node.Errors.{Thrown}
use token_streaming.Node.Journal.File.{Journal, Line, Disk}
use token_streaming.Node.Journal.{Host, up, down, claim_request, open_journal}
use token_streaming.Node.Signature.{
  SignedGatewayCall, SignatureInput, Guard, verify_signed_gateway_call,
}
use token_streaming.Node.Requests.{
  InferenceRequest, ProviderResult, validate_request_against_config,
}
use token_streaming.Node.Executions.{
  Services, Runtime, Reply, IdempotencyEntry, Execution, running, settled, node_limits,
  idempotency_ttl, maximum_idempotency_entries, execute, answered, execution_at, provider_answers,
  set_draining, settlement, inference_call, artifact_call, rejected, validated_call,
  call_for_artifact,
}
use token_streaming.Node.Runtime.{
  claimed_execution, entry_expiry, submitted, submit, read_request, submit_read, serve_verified,
  handle_inference, handle_attestation, attest_verified,
}
use token_streaming.Node.Runtime.Events.{
  NodeEvent, inferred, attested, provider_answered, artifact_called, timer_compacted, drained,
  restarted, NodeHost, stopped, serving, new_runtime, node_file, created_node, serve, node_step,
  node_run,
}
use token_streaming.Node.Runtime.Admitted.{
  running_count, IsCounted, rejected-IsCounted, acquire-IsCounted,
}
use token_streaming.Node.Runtime.Leases.{release-IsCounted}

module _ (s : Services) where
  abbrev Counted : Runtime → Type 0
  Counted r = IsCounted (node_limits s.config) r.capacity r.executions

  abbrev CountedReply : Runtime × Reply → Type 0
  CountedReply (r, reply) = Counted r

  execute-Counted :
      (request : InferenceRequest) (acquired_at : ℕ) (r : Runtime)
      → Counted r
      → Counted (execute s request acquired_at r)
  unfolding execute
  execute-Counted request acquired_at r c =
      acquire-IsCounted (node_limits s.config)
        (utf8_length request.input + request.max_output_tokens) acquired_at r.capacity r.executions
        inference_call request c

  validated_call-Counted :
      (request : InferenceRequest) (acquired_at : ℕ) (r : Runtime)
      (checked : Outcome Thrown (Unit {0}))
      → Counted r
      → Counted (validated_call s request acquired_at r checked)
  validated_call-Counted request acquired_at r (ok u) c =
      acquire-IsCounted (node_limits s.config)
        (utf8_length request.input + request.max_output_tokens) acquired_at r.capacity r.executions
        artifact_call request c
  validated_call-Counted request acquired_at r (err e) c =
      rejected-IsCounted (node_limits s.config) r.capacity r.executions (rejected artifact_call e) c

  claimed_execution-Counted :
      (request : InferenceRequest) (body : Text) (now acquired_at : ℕ) (r : Runtime)
      (c : Journal × Outcome Thrown (Unit {0}))
      → Counted r
      → CountedReply (claimed_execution s request body now acquired_at r c)
  claimed_execution-Counted request body now acquired_at r (j, ok u) c =
      execute-Counted request acquired_at (record r { guard = record r.guard { journal = j } }) c
  claimed_execution-Counted request body now acquired_at r (j, err e) c = c

  submitted-Counted :
      (disk : Disk) (request : InferenceRequest) (body : Text) (now acquired_at : ℕ)
      (found : Option IdempotencyEntry) (r : Runtime)
      → Counted r
      → CountedReply (submitted s disk request body now acquired_at found r)
  submitted-Counted disk request body now acquired_at (some entry) r c =
      if-holds CountedReply (not (entry.body_sha256 == body)) _ _ (λ _. c) (λ _. c)
  submitted-Counted disk request body now acquired_at none r c =
      if-holds CountedReply (leb maximum_idempotency_entries (length r.idempotency)) _ _ (λ _. c)
        (λ _.
          claimed_execution-Counted request body now acquired_at r
            (claim_request s.setup disk request.request_id body (now + idempotency_ttl) now
              r.guard.journal)
            c)

  submit_read-Counted :
      (disk : Disk) (input : SignatureInput) (now acquired_at : ℕ)
      (read : Outcome Thrown InferenceRequest) (r : Runtime)
      → Counted r
      → CountedReply (submit_read s disk input now acquired_at read r)
  unfolding submit
  submit_read-Counted disk input now acquired_at (err e) r c = c
  submit_read-Counted disk input now acquired_at (ok request) r c =
      let pruned : Runtime = record r { idempotency = prune_map entry_expiry now r.idempotency } in
      submitted-Counted disk request input.body_sha256 now acquired_at
        (lookup request.request_id pruned.idempotency) pruned c

  serve_verified-Counted :
      (disk : Disk) (call : SignedGatewayCall) (now acquired_at : ℕ) (r : Runtime)
      (v : Guard × Outcome Thrown SignatureInput)
      → Counted r
      → CountedReply (serve_verified s disk call now acquired_at r v)
  serve_verified-Counted disk call now acquired_at r (g, err e) c = c
  serve_verified-Counted disk call now acquired_at r (g, ok input) c =
      submit_read-Counted disk input now acquired_at (read_request s call input)
        (record r { guard = g }) c

  handle_inference-Counted :
      (nonce_disk request_disk : Disk) (call : SignedGatewayCall) (now acquired_at : ℕ)
      (r : Runtime)
      → Counted r
      → CountedReply (handle_inference s nonce_disk request_disk call now acquired_at r)
  unfolding handle_inference
  handle_inference-Counted nonce_disk request_disk call now acquired_at r c =
      if-holds CountedReply r.draining _ _ (λ _. c)
        (λ _.
          serve_verified-Counted request_disk call now acquired_at r
            (verify_signed_gateway_call s.setup nonce_disk call now r.guard) c)

  attest_verified-Counted :
      (call : SignedGatewayCall) (r : Runtime) (v : Guard × Outcome Thrown SignatureInput)
      → Counted r
      → Counted (attest_verified s call r v).0
  attest_verified-Counted call r (g, ok input) c = c
  attest_verified-Counted call r (g, err e) c = c

  answered-Counted :
      (n : ℕ) (answer : Outcome Thrown ProviderResult) (completed_at : Text) (r : Runtime)
      (found : Option Execution)
      → execution_at r.executions n ≡ found
      → Counted r
      → Counted (answered s n answer completed_at found r)
  answered-Counted n answer completed_at r none at c = c
  answered-Counted n answer completed_at r (some (settled o)) at c = c
  answered-Counted n answer completed_at r (some (running caller request lease)) at c =
      release-IsCounted (node_limits s.config) r.capacity r.executions n caller request lease
        (settlement s caller request answer completed_at) c at

  serve-Counted : (event : NodeEvent) (r : Runtime) → Counted r → Counted (serve s event r)
  unfolding handle_attestation provider_answers set_draining call_for_artifact
  serve-Counted (inferred nonce_disk request_disk call now acquired_at) r c =
      handle_inference-Counted nonce_disk request_disk call now acquired_at r c
  serve-Counted (attested disk call now) r c =
      attest_verified-Counted call r (verify_signed_gateway_call s.setup disk call now r.guard) c
  serve-Counted (provider_answered n answer completed_at) r c =
      answered-Counted n answer completed_at r (execution_at r.executions n) refl c
  serve-Counted (artifact_called request acquired_at) r c =
      validated_call-Counted request acquired_at r
        (validate_request_against_config request s.config) c
  serve-Counted (timer_compacted disk now) r c = c
  serve-Counted drained r c = c
  serve-Counted (restarted disk now) r c = c

  abbrev CountedHost : NodeHost → Type 0
  CountedHost (stopped file) = Unit
  CountedHost (serving r) = Counted r

  created-Counted : (host : Host) → CountedHost (created_node host)
  unfolding new_runtime
  created-Counted (down file) = tt
  created-Counted (up j) = record { counted = refl; parallel = omega arith; leased = tt }

  node_step-Counted :
      (event : NodeEvent) (host : NodeHost)
      → CountedHost host
      → CountedHost (node_step s event host)
  node_step-Counted (restarted disk now) host c =
      created-Counted (open_journal s.setup disk now (node_file host))
  node_step-Counted (inferred nd rd call now acquired_at) (stopped file) c = tt
  node_step-Counted (attested disk call now) (stopped file) c = tt
  node_step-Counted (provider_answered n answer completed_at) (stopped file) c = tt
  node_step-Counted (artifact_called request acquired_at) (stopped file) c = tt
  node_step-Counted (timer_compacted disk now) (stopped file) c = tt
  node_step-Counted drained (stopped file) c = tt
  node_step-Counted (inferred nd rd call now acquired_at) (serving r) c =
      serve-Counted (inferred nd rd call now acquired_at) r c
  node_step-Counted (attested disk call now) (serving r) c =
      serve-Counted (attested disk call now) r c
  node_step-Counted (provider_answered n answer completed_at) (serving r) c =
      serve-Counted (provider_answered n answer completed_at) r c
  node_step-Counted (artifact_called request acquired_at) (serving r) c =
      serve-Counted (artifact_called request acquired_at) r c
  node_step-Counted (timer_compacted disk now) (serving r) c =
      serve-Counted (timer_compacted disk now) r c
  node_step-Counted drained (serving r) c = serve-Counted drained r c

  node_run-Counted :
      (events : List NodeEvent) (host : NodeHost)
      → CountedHost host
      → CountedHost (node_run s events host)
  node_run-Counted [] host c = c
  node_run-Counted (event ∷ events) host c =
      node_run-Counted events (node_step s event host) (node_step-Counted event host c)

  -- The gate counts what runs: whatever file a node starts on, and whatever inference and attestation
  -- calls, calls for artifact tasks, answers of the provider, compactions, draining and restarts follow,
  -- while it serves, the active count of its gate is the number of its executions that wait for the
  -- provider, those for artifact tasks included, and this is at most the concurrency.
  pub running_executions :
      (file : List Line) (events : List NodeEvent) (r : Runtime)
      → node_run s events (stopped file) ≡ serving r
      → (r.capacity.active ≡ running_count r.executions)
        × (running_count r.executions ≤ s.config.concurrency)
  running_executions file events r reached =
      let c = subst CountedHost reached (node_run-Counted events (stopped file) tt) in
      let counted = c.counted in let parallel = c.parallel in (counted, omega arith)

-- ===== src/Node/Runtime/Replays.antt =====
-- A request that is known is answered by its execution (apps/supplier-node/src/runtime.ts).
use token_streaming.Common.{
  ℕ, ◌+◌, ◌≤◌, ◌≡◌, ◌≢◌, ◌∙◌, refl, sym, subst, false, not, Option, none, some, List, [], ◌∷◌, All,
  length, leb, ◌==◌, if-holds, Bool-cases, inl, inr, if◌then◌else◌,
}
use token_streaming.Common.Outcome.{Outcome, ok, err, ok-injective}
use token_streaming.Js.Texts.{Text, text_eq, text_beq}
use token_streaming.Js.Maps.{lookup, prune_map, lookup-prune_map, lookup-set_other}
use token_streaming.Node.Errors.{Thrown, refusal, idempotency_conflict}
use token_streaming.Node.Journal.File.{Journal, Disk}
use token_streaming.Node.Journal.{claim_request}
use token_streaming.Node.Signature.{
  SignedGatewayCall, SignatureInput, Guard, verify_signed_gateway_call,
}
use token_streaming.Node.Requests.{
  InferenceRequest, ProviderResult, validate_request_against_config,
}
use token_streaming.Node.Executions.{
  Services, Runtime, Reply, replied, awaits, IdempotencyEntry, Execution, running, settled,
  idempotency_ttl, maximum_idempotency_entries, execute, error_result, answered, execution_at,
  provider_answers, set_draining, validated_call, call_for_artifact,
}
use token_streaming.Node.Runtime.{
  claimed_execution, entry_expiry, submitted, submit, read_request, submit_read, serve_verified,
  handle_inference, handle_attestation, attest_verified,
}
use token_streaming.Node.Runtime.Events.{
  NodeEvent, inferred, attested, provider_answered, artifact_called, timer_compacted, drained,
  restarted, NodeHost, stopped, serving, serve, node_run, node_time,
}

-- The node does not stop.
abbrev pub NoRestart : List NodeEvent → Type 0
NoRestart [] = Unit
NoRestart (restarted disk now ∷ events) = ⊥
NoRestart (event ∷ events) = NoRestart events

module _ (s : Services) (id : Text) (entry : IdempotencyEntry) where
  abbrev Knows : Runtime → Type 0
  Knows r = lookup id r.idempotency ≡ some entry

  abbrev KnowsReply : Runtime × Reply → Type 0
  KnowsReply (r, reply) = Knows r

  claimed_execution-Knows :
      (request : InferenceRequest) (body : Text) (now acquired_at : ℕ) (r : Runtime)
      (c : Journal × Outcome Thrown (Unit {0}))
      → request.request_id ≢ id
      → Knows r
      → KnowsReply (claimed_execution s request body now acquired_at r c)
  unfolding execute
  claimed_execution-Knows request body now acquired_at r (j, ok u) other k =
      lookup-set_other request.request_id id _ r.idempotency other ∙ k
  claimed_execution-Knows request body now acquired_at r (j, err e) other k = k

  submitted-Knows :
      (disk : Disk) (request : InferenceRequest) (body : Text) (now acquired_at : ℕ)
      (found : Option IdempotencyEntry) (r : Runtime)
      → lookup request.request_id r.idempotency ≡ found
      → Knows r
      → KnowsReply (submitted s disk request body now acquired_at found r)
  submitted-Knows disk request body now acquired_at (some e) r at k =
      if-holds KnowsReply (not (e.body_sha256 == body)) _ _ (λ _. k) (λ _. k)
  submitted-Knows disk request body now acquired_at none r at k =
      if-holds KnowsReply (leb maximum_idempotency_entries (length r.idempotency)) _ _ (λ _. k)
        (λ _.
          claimed_execution-Knows request body now acquired_at r
            (claim_request s.setup disk request.request_id body (now + idempotency_ttl) now
              r.guard.journal)
            (λ same. let gone = subst (λ i. lookup i r.idempotency ≡ none) same at in cc) k)

  submit_read-Knows :
      (disk : Disk) (input : SignatureInput) (now acquired_at : ℕ)
      (read : Outcome Thrown InferenceRequest) (r : Runtime)
      → now ≤ entry.expires_at
      → Knows r
      → KnowsReply (submit_read s disk input now acquired_at read r)
  unfolding submit
  submit_read-Knows disk input now acquired_at (err e) r live k = k
  submit_read-Knows disk input now acquired_at (ok request) r live k =
      let pruned : Runtime = record r { idempotency = prune_map entry_expiry now r.idempotency } in
      submitted-Knows disk request input.body_sha256 now acquired_at
        (lookup request.request_id pruned.idempotency) pruned refl
        (lookup-prune_map entry_expiry now id entry r.idempotency live k)

  serve_verified-Knows :
      (disk : Disk) (call : SignedGatewayCall) (now acquired_at : ℕ) (r : Runtime)
      (v : Guard × Outcome Thrown SignatureInput)
      → now ≤ entry.expires_at
      → Knows r
      → KnowsReply (serve_verified s disk call now acquired_at r v)
  serve_verified-Knows disk call now acquired_at r (g, err e) live k = k
  serve_verified-Knows disk call now acquired_at r (g, ok input) live k =
      submit_read-Knows disk input now acquired_at (read_request s call input)
        (record r { guard = g }) live k

  attest_verified-Knows :
      (call : SignedGatewayCall) (r : Runtime) (v : Guard × Outcome Thrown SignatureInput)
      → Knows r
      → Knows (attest_verified s call r v).0
  attest_verified-Knows call r (g, ok input) k = k
  attest_verified-Knows call r (g, err e) k = k

  answered-Knows :
      (n : ℕ) (answer : Outcome Thrown ProviderResult) (completed_at : Text) (r : Runtime)
      (found : Option Execution)
      → Knows r
      → Knows (answered s n answer completed_at found r)
  answered-Knows n answer completed_at r none k = k
  answered-Knows n answer completed_at r (some (settled o)) k = k
  answered-Knows n answer completed_at r (some (running caller request lease)) k = k

  validated_call-Knows :
      (request : InferenceRequest) (acquired_at : ℕ) (r : Runtime)
      (checked : Outcome Thrown (Unit {0}))
      → Knows r
      → Knows (validated_call s request acquired_at r checked)
  validated_call-Knows request acquired_at r (ok u) k = k
  validated_call-Knows request acquired_at r (err e) k = k

  serve-Knows :
      (event : NodeEvent) (r : Runtime)
      → node_time event ≤ entry.expires_at
      → Knows r
      → Knows (serve s event r)
  unfolding handle_inference handle_attestation provider_answers set_draining call_for_artifact
  serve-Knows (inferred nonce_disk request_disk call now acquired_at) r live k =
      if-holds KnowsReply r.draining _ _ (λ _. k)
        (λ _.
          serve_verified-Knows request_disk call now acquired_at r
            (verify_signed_gateway_call s.setup nonce_disk call now r.guard) live k)
  serve-Knows (attested disk call now) r live k =
      attest_verified-Knows call r (verify_signed_gateway_call s.setup disk call now r.guard) k
  serve-Knows (provider_answered n answer completed_at) r live k =
      answered-Knows n answer completed_at r (execution_at r.executions n) k
  serve-Knows (artifact_called request acquired_at) r live k =
      validated_call-Knows request acquired_at r (validate_request_against_config request s.config)
        k
  serve-Knows (timer_compacted disk now) r live k = k
  serve-Knows drained r live k = k
  serve-Knows (restarted disk now) r live k = k

  abbrev KnowsHost : NodeHost → Type 0
  KnowsHost (stopped file) = Unit
  KnowsHost (serving r) = Knows r

  node_run-Knows :
      (events : List NodeEvent) (r : Runtime)
      → All (λ event. node_time event ≤ entry.expires_at) events
      → NoRestart events
      → Knows r
      → KnowsHost (node_run s events (serving r))
  node_run-Knows [] r lives on k = k
  node_run-Knows (inferred nd rd call now acquired_at ∷ events) r (live, lives) on k =
      node_run-Knows events _ lives on (serve-Knows (inferred nd rd call now acquired_at) r live k)
  node_run-Knows (attested disk call now ∷ events) r (live, lives) on k =
      node_run-Knows events _ lives on (serve-Knows (attested disk call now) r live k)
  node_run-Knows (provider_answered n answer completed_at ∷ events) r (live, lives) on k =
      node_run-Knows events _ lives on
        (serve-Knows (provider_answered n answer completed_at) r live k)
  node_run-Knows (artifact_called request acquired_at ∷ events) r (live, lives) on k =
      node_run-Knows events _ lives on (serve-Knows (artifact_called request acquired_at) r live k)
  node_run-Knows (timer_compacted disk now ∷ events) r (live, lives) on k =
      node_run-Knows events _ lives on (serve-Knows (timer_compacted disk now) r live k)
  node_run-Knows (drained ∷ events) r (live, lives) on k =
      node_run-Knows events _ lives on (serve-Knows drained r live k)
  node_run-Knows (restarted disk now ∷ events) r (live, lives) on k = absurd on

  -- The reply that the entry gives to a request with the digest of its body; nothing starts.
  abbrev RepliesFrom : Runtime → InferenceRequest → Text → Runtime × Reply → Type 0
  RepliesFrom before request body result =
      (result.0.executions ≡ before.executions)
      × (result.1 ≡ (
          if entry.body_sha256 == body
          then awaits request.request_id entry.result
          else replied (error_result (refusal idempotency_conflict 409) (some request.request_id))))

  submitted_known :
      (r : Runtime) (disk : Disk) (request : InferenceRequest) (body : Text)
      (later acquired_later : ℕ)
      → Knows r
      → request.request_id ≡ id
      → later ≤ entry.expires_at
      → ((submit s disk request body later acquired_later r).0.executions ≡ r.executions)
        × ((submit s disk request body later acquired_later r).1 ≡ (
            if entry.body_sha256 == body
            then awaits request.request_id entry.result
            else replied
                (error_result (refusal idempotency_conflict 409) (some request.request_id))))
  unfolding submit
  submitted_known r disk request body later acquired_later k same until =
      let found =
        subst (λ i. lookup i (prune_map entry_expiry later r.idempotency) ≡ some entry) (sym same)
          (lookup-prune_map entry_expiry later id entry r.idempotency until k) in
      elim (Bool-cases (text_beq entry.body_sha256 body)) [
        | inl equal ↦ rw (found, equal) (refl, refl)
        | inr other ↦ rw (found, other) (refl, refl)
      ]

  served_replays :
      (disk : Disk) (call : SignedGatewayCall) (later acquired_later : ℕ) (r : Runtime)
      (v : Guard × Outcome Thrown SignatureInput) (input : SignatureInput)
      (request : InferenceRequest)
      → v.1 ≡ ok input
      → read_request s call input ≡ ok request
      → serve_verified s disk call later acquired_later r v
        ≡ submit s disk request input.body_sha256 later acquired_later (record r { guard = v.0 })
  served_replays disk call later acquired_later r (g, err e) input request verified read = cc
  served_replays disk call later acquired_later r (g, ok found) input request verified read =
      let same : found ≡ input = ok-injective verified in rw (same, read) refl

  -- A node that knows a request, because its map holds an entry for it, answers a call for it from that
  -- entry: whatever calls, also for artifact tasks, answers of the provider, compactions and
  -- draining come before, as long as the
  -- node does not restart and no clock reading is past the entry's expiry, a call that comes while the
  -- node is not draining, passes the verification and reads as that request starts no execution, and is
  -- answered by the execution of the entry if the digest of its body is that of the entry, and with
  -- IDEMPOTENCY_CONFLICT otherwise.
  pub handle_inference_replays :
      (events : List NodeEvent) (r r' : Runtime) (nonce_disk disk : Disk) (call : SignedGatewayCall)
      (input : SignatureInput) (request : InferenceRequest) (later acquired_later : ℕ)
      → lookup id r.idempotency ≡ some entry
      → All (λ event. node_time event ≤ entry.expires_at) events
      → NoRestart events
      → node_run s events (serving r) ≡ serving r'
      → r'.draining ≡ false
      → (verify_signed_gateway_call s.setup nonce_disk call later r'.guard).1 ≡ ok input
      → read_request s call input ≡ ok request
      → request.request_id ≡ id
      → later ≤ entry.expires_at
      → ((handle_inference s nonce_disk disk call later acquired_later r').0.executions
          ≡ r'.executions)
        × ((handle_inference s nonce_disk disk call later acquired_later r').1 ≡ (
            if entry.body_sha256 == input.body_sha256
            then awaits request.request_id entry.result
            else replied
                (error_result (refusal idempotency_conflict 409) (some request.request_id))))
  unfolding handle_inference
  handle_inference_replays events r r' nonce_disk disk call input request later acquired_later known
        times on reached accepts verified read same until =
      let k = subst KnowsHost reached (node_run-Knows events r times on known) in
      let v = verify_signed_gateway_call s.setup nonce_disk call later r'.guard in
      let answered =
        submitted_known (record r' { guard = v.0 }) disk request input.body_sha256 later
          acquired_later k same until in
      let served = served_replays disk call later acquired_later r' v input request verified read in
      if-holds (RepliesFrom r' request input.body_sha256) r'.draining _ _ (λ drained. cc)
        (λ _. subst (RepliesFrom r' request input.body_sha256) (sym served) answered)

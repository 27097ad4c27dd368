-- ===== src/Node/Runtime.antt =====
-- apps/supplier-node/src/runtime.ts: the calls that a node serves. A call runs up to its first `await`
-- at once; a provider's answer is an event of its own.
pub mod Starts
pub mod Events
pub mod Remembered
pub mod Once
pub mod Answers
pub mod Admitted
pub mod Leases
pub mod Counted
pub mod Replays
mod Tests
use token_streaming.Common.{
  ℕ, zero, suc, ◌+◌, ◌*◌, Bool, true, false, not, ◌||◌, Option, none, some, List, [], ◌∷◌, ◌++◌,
  length, leb, ◌==◌, if◌then◌else◌,
}
use token_streaming.Common.Outcome.{Outcome, ok, err, throw_if, ◌>>=◌, ◌>>◌}
use token_streaming.Js.Texts.{Text, text, text_eq}
use token_streaming.Js.Decimal.{print}
use token_streaming.Js.Maps.{lookup, set, prune_map}
use token_streaming.Js.Json.{Json}
use token_streaming.Js.Utf8.{utf8_length}
use token_streaming.Marketplace.Evidence.{Usage}
use token_streaming.Marketplace.Evidence.Execution.{execution_version}
use token_streaming.Node.Errors.{
  GatewayErrorCode, NodeError, Thrown, coded, refusal, normalize_supplier_node_error,
  signature_invalid, idempotency_conflict, capacity_exceeded,
}
use token_streaming.Node.Capacity.{NodeLimits, Gate, acquire, release}
use token_streaming.Node.Journal.File.{Setup, Journal, Disk}
use token_streaming.Node.Journal.{claim_request, is_healthy}
use token_streaming.Node.Signature.{
  SignedGatewayCall, SignatureInput, Guard, verify_signed_gateway_call,
}
use token_streaming.Node.Requests.{
  InferenceRequest, AttestationRequest, NodeConfig, ProviderResult, parse_inference_request,
  parse_attestation_request, validate_request_against_config, validate_provider_result,
}
use token_streaming.Node.Executions.{
  IdempotencyEntry, NodeResult, Reply, Runtime, Services, attestation, awaits, caught, error_result,
  execute, health, idempotency_ttl, maximum_idempotency_entries, replied,
}

-- What a new request does once its claim is journalled.
abbrev pub claimed_execution :
    Services
    → InferenceRequest
    → Text
    → ℕ
    → ℕ
    → Runtime
    → Journal × Outcome Thrown (Unit {0})
    → Runtime × Reply
claimed_execution s request body_sha256 now acquired_at r (j, ok _) =
    let started =
      execute s request acquired_at (record r { guard = record r.guard { journal = j } }) in
    (
      record started {
        idempotency =
            set request.request_id
              (record {
                body_sha256 = body_sha256;
                expires_at = now + idempotency_ttl;
                result = length r.executions;
              })
              started.idempotency;
      },
      awaits request.request_id (length r.executions),
    )
claimed_execution s request body_sha256 now acquired_at r (j, err e) = (
  record r { guard = record r.guard { journal = j } },
  replied (error_result e (some request.request_id)),
)

abbrev pub entry_expiry : IdempotencyEntry → ℕ
entry_expiry entry = entry.expires_at

-- `handleInference`, once the request is read: from the pruning of the map on.
abbrev pub submitted :
    Services
    → Disk
    → InferenceRequest
    → Text
    → ℕ
    → ℕ
    → Option IdempotencyEntry
    → Runtime
    → Runtime × Reply
submitted s disk request body_sha256 now acquired_at (some entry) r =
    if not (entry.body_sha256 == body_sha256)
    then (r, replied (error_result (refusal idempotency_conflict 409) (some request.request_id)))
    else (r, awaits request.request_id entry.result)
submitted s disk request body_sha256 now acquired_at none r =
    if leb maximum_idempotency_entries (length r.idempotency)
    then (
      r,
      replied (
          error_result (coded (record { code = capacity_exceeded; status = 503; retryable = true }))
            (some request.request_id)),
    )
    else claimed_execution s request body_sha256 now acquired_at r (
        claim_request s.setup disk request.request_id body_sha256 (now + idempotency_ttl) now
          r.guard.journal)

unfoldable pub submit :
    Services → Disk → InferenceRequest → Text → ℕ → ℕ → Runtime → Runtime × Reply
submit s disk request body_sha256 now acquired_at r =
    let pruned = record r { idempotency = prune_map entry_expiry now r.idempotency } in
    submitted s disk request body_sha256 now acquired_at
      (lookup request.request_id pruned.idempotency) pruned

-- The request of a call that is verified.
unfoldable pub read_request :
    Services → SignedGatewayCall → SignatureInput → Outcome Thrown InferenceRequest
read_request s call input = do
  request ← parse_inference_request s.parse call.raw_body
  throw_if (not (request.request_id == input.job_id)) (refusal signature_invalid 401)
  validate_request_against_config request s.config
  ok request

abbrev pub submit_read :
    Services
    → Disk
    → SignatureInput
    → ℕ
    → ℕ
    → Outcome Thrown InferenceRequest
    → Runtime
    → Runtime × Reply
submit_read s disk input now acquired_at (err e) r =
    (r, replied (error_result e (some input.job_id)))
submit_read s disk input now acquired_at (ok request) r =
    submit s disk request input.body_sha256 now acquired_at r

abbrev pub serve_verified :
    Services
    → Disk
    → SignedGatewayCall
    → ℕ
    → ℕ
    → Runtime
    → Guard × Outcome Thrown SignatureInput
    → Runtime × Reply
serve_verified s disk call now acquired_at r (g, err e) =
    (record r { guard = g }, replied (error_result e none))
serve_verified s disk call now acquired_at r (g, ok input) =
    submit_read s disk input now acquired_at (read_request s call input) (record r { guard = g })

-- `handleInference`; the two disks are those of the nonce and of the request.
unfoldable pub handle_inference :
    Services → Disk → Disk → SignedGatewayCall → ℕ → ℕ → Runtime → Runtime × Reply
handle_inference s nonce_disk request_disk call now acquired_at r =
    if r.draining
    then (
      r,
      replied (
          error_result (coded (record { code = capacity_exceeded; status = 503; retryable = true }))
            none),
    )
    else serve_verified s request_disk call now acquired_at r
        (verify_signed_gateway_call s.setup nonce_disk call now r.guard)

-- The answer to an attestation that is verified; the health is that after the verification.
unfoldable pub attested :
    Services → SignedGatewayCall → SignatureInput → Runtime → Outcome Thrown NodeResult
attested s call input r = do
  request ← parse_attestation_request s.parse call.raw_body
  throw_if (not (request.request_id == input.job_id)) (refusal signature_invalid 401)
  ok (record { status = 200; body = attestation (health s r) request.request_id request.challenge })

abbrev pub attest_verified :
    Services
    → SignedGatewayCall
    → Runtime
    → Guard × Outcome Thrown SignatureInput
    → Runtime × NodeResult
attest_verified s call r (g, err e) = (record r { guard = g }, error_result e none)
attest_verified s call r (g, ok input) =
    let after = record r { guard = g } in (after, caught input.job_id (attested s call input after))

-- `handleAttestation`
unfoldable pub handle_attestation :
    Services → Disk → SignedGatewayCall → ℕ → Runtime → Runtime × NodeResult
handle_attestation s disk call now r =
    attest_verified s call r (verify_signed_gateway_call s.setup disk call now r.guard)

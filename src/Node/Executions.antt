-- ===== src/Node/Executions.antt =====
-- apps/supplier-node/src/runtime.ts: the state of a node, its health, and the executions that the gate
-- admits, from the call of the provider to its answer. An execution is the promise that `execute`
-- returns: its number stands in the idempotency map. Log lines are left out.
use token_streaming.Common.{
  ℕ, zero, suc, ◌+◌, ◌*◌, Bool, true, not, ◌||◌, Option, none, some, List, [], ◌∷◌, ◌++◌,
}
use token_streaming.Common.Outcome.{Outcome, ok, err, ◌>>=◌}
use token_streaming.Js.Texts.{Text, text_eq}
use token_streaming.Js.Decimal.{print}
use token_streaming.Js.Json.{Json}
use token_streaming.Js.Utf8.{utf8_length}
use token_streaming.Marketplace.Evidence.{Usage}
use token_streaming.Marketplace.Evidence.Execution.{execution_version}
use token_streaming.Node.Errors.{
  GatewayErrorCode, NodeError, Thrown, coded, normalize_supplier_node_error,
}
use token_streaming.Node.Capacity.{NodeLimits, Gate, acquire, release}
use token_streaming.Node.Journal.File.{Setup}
use token_streaming.Node.Journal.{is_healthy}
use token_streaming.Node.Signature.{Guard}
use token_streaming.Node.Requests.{
  InferenceRequest, NodeConfig, ProviderResult, validate_provider_result,
  validate_request_against_config,
}

-- What the runtime is given.
pub record Services : Type 0 where
  pub setup : Setup
  pub parse : Text → Option Json
  pub config : NodeConfig

-- `SupplierGatewayExecutionEvidence`
pub record Evidence : Type 0 where
  pub evidence_version : Text
  pub request_id : Text
  pub provider_id : Text
  pub requested_model : Text
  pub served_model : Text
  pub provider_request_id : Text
  pub input_sha256 : Text
  pub output_sha256 : Text
  pub usage : Usage
  pub completed_at : Text
  pub receipt_ref : Option Text

-- `SupplierGatewayInferenceResponse`
pub record InferenceResponse : Type 0 where
  pub output : Text
  pub usage : Usage
  pub execution_evidence : Evidence
  pub execution_evidence_signature : Text

-- `SupplierGatewayHealthResponse`; `ready` or draining.
pub record Health : Type 0 where
  pub ready : Bool
  pub config : NodeConfig

pub data Body : Type 0 where
  inference : InferenceResponse → Body
  attestation : Health → (request_id challenge : Text) → Body
  failure : GatewayErrorCode → (retryable : Bool) → (request_id : Option Text) → Body

-- `SupplierNodeResult`
pub record NodeResult : Type 0 where
  pub status : ℕ
  pub body : Body

-- Who asks the provider: `execute`, or the executor of an artifact task by the function that
-- `executeArtifactTask` gives it.
pub data Caller : Type 0 where
  inference_call artifact_call : Caller

-- How the promise of each ends.
pub data Settlement : Type 0 where
  of_inference : Outcome Thrown NodeResult → Settlement
  of_artifact : Outcome Thrown ProviderResult → Settlement

-- A running execution holds a lease of the gate; a settled one has resolved or rejected.
pub data Execution : Type 0 where
  running : Caller → InferenceRequest → (lease : ℕ) → Execution
  settled : Settlement → Execution

pub record IdempotencyEntry : Type 0 where
  pub body_sha256 : Text
  pub expires_at : ℕ
  pub result : ℕ

pub record Runtime : Type 0 where
  pub guard : Guard
  pub capacity : Gate
  pub idempotency : List (Text × IdempotencyEntry)
  pub executions : List Execution
  pub draining : Bool

-- A call is answered at once, or awaits an execution.
pub data Reply : Type 0 where
  replied : NodeResult → Reply
  awaits : (request_id : Text) → (execution : ℕ) → Reply

-- `idempotencyTtlMs`, `maximumIdempotencyEntries`
abbrev pub idempotency_ttl : ℕ
idempotency_ttl = 15 * 60_000

abbrev pub maximum_idempotency_entries : ℕ
maximum_idempotency_entries = 1_000

abbrev pub node_limits : NodeConfig → NodeLimits
node_limits config = record {
  requests_per_minute = config.requests_per_minute;
  tokens_per_minute = config.tokens_per_minute;
  concurrency = config.concurrency;
}

-- `errorResult` of the normalized error.
unfoldable pub error_result : Thrown → Option Text → NodeResult
error_result thrown request_id =
    let e = normalize_supplier_node_error thrown in
    record { status = e.status; body = failure e.code e.retryable request_id }

-- `createSupplierGatewayExecutionEvidencePayload`
abbrev pub lines : List Text → Text
lines [] = []
lines (t ∷ []) = t
lines (t ∷ u ∷ ts) = t ++ 10 ∷ lines (u ∷ ts)

abbrev pub or_empty : Option Text → Text
or_empty none = []
or_empty (some t) = t

unfoldable pub evidence_payload : Evidence → Text
evidence_payload e = lines (
    e.evidence_version
    ∷ e.request_id
    ∷ e.provider_id
    ∷ e.requested_model
    ∷ e.served_model
    ∷ e.provider_request_id
    ∷ e.input_sha256
    ∷ e.output_sha256
    ∷ print e.usage.input_tokens
    ∷ print e.usage.output_tokens
    ∷ print e.usage.total_tokens
    ∷ e.completed_at
    ∷ or_empty e.receipt_ref
    ∷ [])

unfoldable pub health : Services → Runtime → Health
health s r = record {
  ready = not (r.draining || not (is_healthy r.guard.journal));
  config = s.config;
}

-- `setDraining`; the `close` of the journal only stops its timer.
unfoldable pub set_draining : Runtime → Runtime
set_draining r = record r { draining = true }

-- `receiptRef ? { receipt_ref } : {}`
abbrev pub present : Option Text → Option Text
present none = none
present (some []) = none
present (some (c ∷ t)) = some (c ∷ t)

-- The evidence, and the response that carries it.
unfoldable pub inference_response :
    Services → InferenceRequest → ProviderResult → Usage → Text → InferenceResponse
inference_response s request result usage completed_at =
    let evidence : Evidence = record {
      evidence_version = execution_version;
      request_id = request.request_id;
      provider_id = s.config.provider_id;
      requested_model = request.model;
      served_model = result.served_model;
      provider_request_id = result.provider_request_id;
      input_sha256 = s.setup.sha256 request.input;
      output_sha256 = s.setup.sha256 result.output;
      usage = usage;
      completed_at = completed_at;
      receipt_ref = present result.receipt_ref;
    } in
    record {
      output = result.output;
      usage = usage;
      execution_evidence = evidence;
      execution_evidence_signature = s.setup.hmac s.setup.gateway_token (evidence_payload evidence);
    }

-- The `try` of `execute`, from the provider's answer on.
unfoldable pub provider_outcome :
    Services → InferenceRequest → Outcome Thrown ProviderResult → Text → Outcome Thrown NodeResult
provider_outcome s request answer completed_at = do
  result ← answer
  usage ← validate_provider_result result request.model request.max_output_tokens
  ok (record {
    status = 200;
    body = inference (inference_response s request result usage completed_at);
  })

-- `catch`
abbrev pub caught : Text → Outcome Thrown NodeResult → NodeResult
caught request_id (ok result) = result
caught request_id (err e) = error_result e (some request_id)

abbrev pub rejected : Caller → Thrown → Settlement
rejected inference_call e = of_inference (err e)
rejected artifact_call e = of_artifact (err e)

-- Where the gate refuses, the promise rejects.
abbrev pub started_execution : Caller → InferenceRequest → Outcome NodeError ℕ → Execution
started_execution caller request (ok lease) = running caller request lease
started_execution caller request (err e) = settled (rejected caller (coded e))

-- `const release = this.capacity.acquire(…)`, up to the call of the provider
abbrev pub admit : Services → Caller → InferenceRequest → ℕ → Runtime → Runtime
admit s caller request acquired_at r =
    let estimated_tokens = utf8_length request.input + request.max_output_tokens in
    let (gate, admitted) = acquire (node_limits s.config) estimated_tokens acquired_at r.capacity in
    record r {
      capacity = gate;
      executions = r.executions ++ started_execution caller request admitted ∷ [];
    }

-- `execute` up to the call of the provider.
unfoldable pub execute : Services → InferenceRequest → ℕ → Runtime → Runtime
execute s request acquired_at r = admit s inference_call request acquired_at r

abbrev pub validated_call :
    Services → InferenceRequest → ℕ → Runtime → Outcome Thrown (Unit {0}) → Runtime
validated_call s request acquired_at r (ok _) = admit s artifact_call request acquired_at r
validated_call s request acquired_at r (err e) = record r {
  executions = r.executions ++ settled (rejected artifact_call e) ∷ [];
}

-- The function that `executeArtifactTask` gives to its executor, up to the call of the provider.
unfoldable pub call_for_artifact : Services → InferenceRequest → ℕ → Runtime → Runtime
call_for_artifact s request acquired_at r =
    validated_call s request acquired_at r (validate_request_against_config request s.config)

unfoldable pub execution_at : List Execution → ℕ → Option Execution
execution_at [] n = none
execution_at (e ∷ es) zero = some e
execution_at (e ∷ es) (suc n) = execution_at es n

unfoldable pub settle_at : List Execution → ℕ → Settlement → List Execution
settle_at [] n result = []
settle_at (e ∷ es) zero result = settled result ∷ es
settle_at (e ∷ es) (suc n) result = e ∷ settle_at es n result

-- The function of `executeArtifactTask`, from the provider's answer on.
unfoldable pub artifact_outcome :
    InferenceRequest → Outcome Thrown ProviderResult → Outcome Thrown ProviderResult
artifact_outcome request answer = do
  result ← answer
  usage ← validate_provider_result result request.model request.max_output_tokens
  ok result

abbrev pub settlement :
    Services → Caller → InferenceRequest → Outcome Thrown ProviderResult → Text → Settlement
settlement s inference_call request answer completed_at =
    of_inference (ok (caught request.request_id (provider_outcome s request answer completed_at)))
settlement s artifact_call request answer completed_at =
    of_artifact (artifact_outcome request answer)

-- From the provider's answer to the `finally`.
abbrev pub answered :
    Services → ℕ → Outcome Thrown ProviderResult → Text → Option Execution → Runtime → Runtime
answered s n answer completed_at (some (running caller request lease)) r = record r {
  capacity = release lease r.capacity;
  executions = settle_at r.executions n (settlement s caller request answer completed_at);
}
answered s n answer completed_at _ r = r

unfoldable pub provider_answers :
    Services → ℕ → Outcome Thrown ProviderResult → Text → Runtime → Runtime
provider_answers s n answer completed_at r =
    answered s n answer completed_at (execution_at r.executions n) r

-- What a call that awaits an execution is answered in the end: a rejection is caught by
-- `handleInference`.
unfoldable pub awaited : Runtime → Text → ℕ → Option NodeResult
awaited r request_id n = elim (execution_at r.executions n) [
  | some (settled (of_inference outcome)) ↦ some (caught request_id outcome)
  | _ ↦ none
]

-- ===== src/Node/Runtime/Tests.antt =====
-- Runs of a node, and the theorems at inputs (apps/supplier-node/src/runtime.ts).
use token_streaming.Common.{
  Bool, map, suc, ◌≤◌, ◌≡◌, ◌↔◌, refl, true, false, some, none, List, [], ◌∷◌, length, arith,
  if◌then◌else◌, ◌==◌,
}
use token_streaming.Common.Outcome.{Outcome, ok, err}
use token_streaming.Js.{natural}
use token_streaming.Js.Texts.{Text, text, text_eq}
use token_streaming.Js.Maps.{lookup}
use token_streaming.Js.Json.{bool, num, str, object, field, end}
use token_streaming.Marketplace.Evidence.{Usage}
use token_streaming.Node.Errors.{Thrown, plain, refusal, idempotency_conflict, capacity_exceeded}
use token_streaming.Node.Code.{code}
use token_streaming.Node.Journal.File.{replaced}
use token_streaming.Node.Journal.Tests.{node, node-HexDigests, digest, good_disk, empty_journal}
use token_streaming.Node.Signature.{
  SignedGatewayCall, SignatureInput, check_call, create_gateway_signature,
  verify_signed_gateway_call,
}
use token_streaming.Node.Requests.{InferenceRequest, ProviderResult}
use token_streaming.Node.Executions.{
  Services, Runtime, IdempotencyEntry, Execution, running, settled, failure, awaited, awaits,
  replied, inference, inference_response, error_result, provider_outcome,
}
use token_streaming.Node.Runtime.{handle_inference, read_request}
use token_streaming.Node.Runtime.Events.{
  NodeEvent, NodeHost, inferred, provider_answered, artifact_called, timer_compacted, restarted,
  serving, stopped, new_runtime, node_run,
}
use token_streaming.Node.Runtime.Once.{handle_inference_once}
use token_streaming.Node.Runtime.Answers.{IsAcceptable, IsResponse, provider_outcome_iff}
use token_streaming.Node.Runtime.Admitted.{running_count}
use token_streaming.Node.Runtime.Counted.{running_executions}
use token_streaming.Node.Runtime.Replays.{handle_inference_replays}

abbrev request : InferenceRequest
request = record {
  request_id = text "job-00001";
  model = text "m";
  input = text "hello";
  data_class = text "P0";
  max_output_tokens = 20;
}

-- Every body is parsed as the request.
abbrev services : Services
services = record {
  setup = node;
  parse = λ body. some (
      object (
        field (text "protocol_version") (str (text "gongsuanyun.gateway.v3")) (
          field (text "request_id") (str (text "job-00001")) (
            field (text "model") (str (text "m")) (
              field (text "input") (str (text "hello")) (
                field (text "data_class") (str (text "P0")) (
                  field (text "max_output_tokens") (num (natural 20))
                    (field (text "stream") (bool false) end))))))));
  config = record {
    provider_id = text "provider";
    allowed_models = text "m" ∷ [];
    allowed_data_classes = text "P0" ∷ [];
    requests_per_minute = 10;
    tokens_per_minute = 1_000;
    concurrency = 1;
    max_output_tokens = 100;
    max_input_bytes = 1_000;
  };
}

abbrev input_of : Text → SignatureInput
input_of nonce = record {
  timestamp = text "1700000000000";
  nonce = nonce;
  job_id = text "job-00001";
  body_sha256 = digest (text "{}");
}

abbrev call_of : Text → SignedGatewayCall
call_of nonce = record {
  authorization = some (text "Bearer token");
  timestamp = some (text "1700000000000");
  nonce = some nonce;
  job_id = some (text "job-00001");
  signature = some (create_gateway_signature node (input_of nonce));
  raw_body = text "{}";
}

abbrev first_nonce : Text
first_nonce = text "nonce-0123456789"

abbrev second_nonce : Text
second_nonce = text "nonce-0123456780"

abbrev new_node : Runtime
new_node = new_runtime empty_journal

abbrev answer : ProviderResult
answer = record {
  output = text "hi";
  provider_request_id = text "p-1";
  served_model = text "m";
  receipt_ref = none;
  usage = record { input_tokens = natural 2; output_tokens = natural 3; total_tokens = natural 5 };
}

abbrev usage : Usage
usage = record { input_tokens = 2; output_tokens = 3; total_tokens = 5 }

abbrev first_call : NodeEvent
first_call = inferred good_disk good_disk (call_of first_nonce) 1_700_000_000_100 1_700_000_000_100

starts :
    length
      (handle_inference services good_disk good_disk
        (call_of first_nonce)
        1_700_000_000_100
        1_700_000_000_100
        new_node).0.executions
    ≡ suc (length new_node.executions)
unfolding code
starts = refl

first_passes : check_call node (call_of first_nonce) ≡ ok (input_of first_nonce)
unfolding code
first_passes = refl

second_passes : check_call node (call_of second_nonce) ≡ ok (input_of second_nonce)
unfolding code
second_passes = refl

abbrev host_of : NodeHost → Runtime
host_of (serving r) = r
host_of (stopped file) = new_node

abbrev served : Runtime
served =
    (handle_inference services good_disk good_disk (call_of first_nonce) 1_700_000_000_100
      1_700_000_000_100 new_node).0

-- The provider answers, the journal is compacted, and the node starts again.
abbrev evening : List NodeEvent
evening =
    provider_answered 0 (ok answer) (text "2023-11-14T22:13:21.000Z")
    ∷ timer_compacted good_disk 1_700_000_000_200
    ∷ restarted replaced 1_700_000_000_300
    ∷ []

abbrev restarted_node : Runtime
restarted_node = host_of (node_run services evening (serving served))

evening_comes : node_run services evening (serving served) ≡ serving restarted_node
unfolding code
evening_comes = refl

handle_inference_once_example :
    (handle_inference services good_disk good_disk
      (call_of second_nonce)
      1_700_000_000_400
      1_700_000_000_400
      restarted_node).0.executions
    ≡ restarted_node.executions
handle_inference_once_example =
    handle_inference_once services node-HexDigests good_disk good_disk good_disk good_disk
      (call_of first_nonce) (call_of second_nonce) (input_of first_nonce) (input_of second_nonce)
      1_700_000_000_100 1_700_000_000_100 1_700_000_000_400 1_700_000_000_400 new_node
      restarted_node evening first_passes (omega arith) starts
      (omega arith, (omega arith, (omega arith, tt))) evening_comes second_passes refl (omega arith)

provider_outcome_iff_example :
    (provider_outcome services request (ok answer) (text "2023-11-14T22:13:21.000Z")
      ≡ ok (record {
        status = 200;
        body =
            inference
              (inference_response services request answer usage (text "2023-11-14T22:13:21.000Z"));
      }))
    ↔ ((result : ProviderResult) × (u : Usage) × (◌≡◌ {A = Outcome Thrown ProviderResult}
          (ok answer)
          (ok result))
        × IsAcceptable request result u
        × IsResponse services request result u (text "2023-11-14T22:13:21.000Z") (record {
          status = 200;
          body =
              inference (
                inference_response services request answer usage (text "2023-11-14T22:13:21.000Z"));
        }))
provider_outcome_iff_example =
    provider_outcome_iff services request (ok answer) (text "2023-11-14T22:13:21.000Z") (record {
      status = 200;
      body =
          inference
            (inference_response services request answer usage (text "2023-11-14T22:13:21.000Z"));
    })

abbrev morning : List NodeEvent
morning = restarted replaced 1_700_000_000_000 ∷ first_call ∷ []

abbrev busy_node : Runtime
busy_node = host_of (node_run services morning (stopped []))

morning_comes : node_run services morning (stopped []) ≡ serving busy_node
unfolding code
morning_comes = refl

abbrev is_running : Execution → Bool
is_running (running caller q l) = true
is_running (settled o) = false

-- A call for an artifact task takes the one place, an inference call is refused, and the provider
-- answers the first; a second call for the task takes the place again.
abbrev crowded : List NodeEvent
crowded =
    restarted replaced 1_700_000_000_000
    ∷ artifact_called request 1_700_000_000_050
    ∷ first_call
    ∷ provider_answered 0 (ok answer) (text "2023-11-14T22:13:21.000Z")
    ∷ artifact_called request 1_700_000_000_150
    ∷ []

abbrev crowded_node : Runtime
crowded_node = host_of (node_run services crowded (stopped []))

crowded_comes : node_run services crowded (stopped []) ≡ serving crowded_node
unfolding code
crowded_comes = refl

runs_one : running_count crowded_node.executions ≡ 1
unfolding code
runs_one = refl

-- The inference call in between was refused.
waits_for_nothing : map is_running crowded_node.executions ≡ false ∷ false ∷ true ∷ []
unfolding code
waits_for_nothing = refl

running_executions_example :
    (crowded_node.capacity.active ≡ running_count crowded_node.executions)
    × (running_count crowded_node.executions ≤ services.config.concurrency)
running_executions_example = running_executions services [] crowded crowded_node crowded_comes

abbrev entry : IdempotencyEntry
entry = record { body_sha256 = digest (text "{}"); expires_at = 1_700_000_900_100; result = 0 }

abbrev noon : List NodeEvent
noon = provider_answered 0 (err plain) [] ∷ timer_compacted good_disk 1_700_000_000_200 ∷ []

abbrev noon_node : Runtime
noon_node = host_of (node_run services noon (serving busy_node))

noon_comes : node_run services noon (serving busy_node) ≡ serving noon_node
unfolding code
noon_comes = refl

knows : lookup (text "job-00001") busy_node.idempotency ≡ some entry
unfolding code
knows = refl

noon_accepts : noon_node.draining ≡ false
unfolding code
noon_accepts = refl

noon_verifies :
    (verify_signed_gateway_call node good_disk
      (call_of second_nonce)
      1_700_000_000_500
      noon_node.guard).1
    ≡ ok (input_of second_nonce)
unfolding code
noon_verifies = refl

noon_reads : read_request services (call_of second_nonce) (input_of second_nonce) ≡ ok request
unfolding code
noon_reads = refl

handle_inference_replays_example :
    ((handle_inference services good_disk good_disk
        (call_of second_nonce)
        1_700_000_000_500
        1_700_000_000_500
        noon_node).0.executions
      ≡ noon_node.executions)
    × ((handle_inference services good_disk good_disk
          (call_of second_nonce)
          1_700_000_000_500
          1_700_000_000_500
          noon_node).1
        ≡ (if entry.body_sha256 == (input_of second_nonce).body_sha256
            then awaits request.request_id entry.result
            else replied
                (error_result (refusal idempotency_conflict 409) (some request.request_id))))
handle_inference_replays_example =
    handle_inference_replays services (text "job-00001") entry noon busy_node noon_node good_disk
      good_disk (call_of second_nonce) (input_of second_nonce) request 1_700_000_000_500
      1_700_000_000_500 knows (omega arith, (omega arith, tt)) tt noon_comes noon_accepts
      noon_verifies noon_reads refl (omega arith)

-- A node whose places are taken refuses a request as one to be tried again, and gives the same refusal
-- to the next try, which asks the gate no more.
abbrev full_services : Services
full_services = record services { config = record services.config { concurrency = 0 } }

abbrev refused : Runtime
refused =
    (handle_inference full_services good_disk good_disk (call_of first_nonce) 1_700_000_000_100
      1_700_000_000_100 new_node).0

next_try :
    (handle_inference services good_disk good_disk
      (call_of second_nonce)
      1_700_000_000_400
      1_700_000_000_400
      refused).1
    ≡ awaits (text "job-00001") 0
unfolding code
next_try = refl

same_refusal :
    awaited refused (text "job-00001") 0
    ≡ some
        (record { status = 429; body = failure capacity_exceeded true (some (text "job-00001")) })
unfolding code
same_refusal = refl

-- ===== src/Node/Runtime/Events.antt =====
-- What happens to a node (apps/supplier-node/src/runtime.ts): calls, also for artifact
-- tasks, answers of the provider, the timer
-- of the journal, draining, and restarts. Where a node stops, only the file of its journal is left.
use token_streaming.Common.{ℕ, false, List, [], ◌∷◌}
use token_streaming.Common.Outcome.{Outcome}
use token_streaming.Js.Texts.{Text}
use token_streaming.Node.Errors.{Thrown}
use token_streaming.Node.Capacity.{closed_gate}
use token_streaming.Node.Journal.File.{Journal, Line, Replacing, Disk, compact_now}
use token_streaming.Node.Journal.{Host, up, down, open_journal}
use token_streaming.Node.Signature.{SignedGatewayCall}
use token_streaming.Node.Requests.{InferenceRequest, ProviderResult}
use token_streaming.Node.Executions.{
  Services, Runtime, provider_answers, set_draining, call_for_artifact,
}
use token_streaming.Node.Runtime.{handle_inference, handle_attestation}

-- `artifact_called`: the executor of an artifact task asks for a segment, at whatever time.
pub data NodeEvent : Type 0 where
  inferred :
      (nonce_disk request_disk : Disk) → SignedGatewayCall → (now acquired_at : ℕ) → NodeEvent
  attested : Disk → SignedGatewayCall → (now : ℕ) → NodeEvent
  provider_answered :
      (execution : ℕ) → Outcome Thrown ProviderResult → (completed_at : Text) → NodeEvent
  artifact_called : InferenceRequest → (acquired_at : ℕ) → NodeEvent
  timer_compacted : Disk → (now : ℕ) → NodeEvent
  drained : NodeEvent
  restarted : Replacing → (now : ℕ) → NodeEvent

pub data NodeHost : Type 0 where
  stopped : List Line → NodeHost
  serving : Runtime → NodeHost

-- A new runtime, once its journal is open.
unfoldable pub new_runtime : Journal → Runtime
new_runtime j = record {
  guard = record { seen = []; journal = j };
  capacity = closed_gate;
  idempotency = [];
  executions = [];
  draining = false;
}

abbrev pub node_file : NodeHost → List Line
node_file (stopped file) = file
node_file (serving r) = r.guard.journal.file

abbrev pub created_node : Host → NodeHost
created_node (down file) = stopped file
created_node (up j) = serving (new_runtime j)

abbrev pub serve : Services → NodeEvent → Runtime → Runtime
serve s (inferred nonce_disk request_disk call now acquired_at) r =
    (handle_inference s nonce_disk request_disk call now acquired_at r).0
serve s (attested disk call now) r = (handle_attestation s disk call now r).0
serve s (provider_answered execution answer completed_at) r =
    provider_answers s execution answer completed_at r
serve s (artifact_called request acquired_at) r = call_for_artifact s request acquired_at r
serve s (timer_compacted disk now) r = record r {
  guard = record r.guard { journal = (compact_now s.setup disk now r.guard.journal).0 };
}
serve s drained r = set_draining r
serve s (restarted disk now) r = r

abbrev pub node_step : Services → NodeEvent → NodeHost → NodeHost
node_step s (restarted disk now) host =
    created_node (open_journal s.setup disk now (node_file host))
node_step s event (stopped file) = stopped file
node_step s event (serving r) = serving (serve s event r)

abbrev pub node_run : Services → List NodeEvent → NodeHost → NodeHost
node_run s [] host = host
node_run s (event ∷ events) host = node_run s events (node_step s event host)

-- The reading of the clock, 0 where there is none.
abbrev pub node_time : NodeEvent → ℕ
node_time (inferred nonce_disk request_disk call now acquired_at) = now
node_time (attested disk call now) = now
node_time (provider_answered execution answer completed_at) = 0
node_time (artifact_called request acquired_at) = 0
node_time (timer_compacted disk now) = now
node_time drained = 0
node_time (restarted disk now) = now

-- ===== src/Marketplace/Cancellation.antt =====
-- packages/marketplace-domain/src/artifact-cancellation.ts: the two-phase cancellation of artifact
-- tasks. `PersistedStatus` is `ArtifactTaskStatus` without `cancelling`.
pub mod Phases
use token_streaming.Common.{Bool, true, false, ◌&&◌, ◌||◌, if◌then◌else◌}
use token_streaming.Common.Outcome.{ok, err}
use token_streaming.Marketplace.Errors.{Result, invalid_artifact_task_state}

pub data PrivacyMode : Type 0 where
  standard strict : PrivacyMode

pub data TaskStatus : Type 0 where
  queued claimed running cancelling completed failed cancelled : TaskStatus

pub data PersistedStatus : Type 0 where
  queued claimed running completed failed cancelled : PersistedStatus

pub data ArtifactRetention : Type 0 where
  retained purge_scheduled : ArtifactRetention

pub record CancellationDecision : Type 0 where
  pub public_status : TaskStatus
  pub persisted_status : PersistedStatus
  pub release_reservation : Bool
  pub artifact_retention : ArtifactRetention

-- A persisted status as a public one.
abbrev pub as_task_status : PersistedStatus → TaskStatus
as_task_status PersistedStatus.queued = TaskStatus.queued
as_task_status PersistedStatus.claimed = TaskStatus.claimed
as_task_status PersistedStatus.running = TaskStatus.running
as_task_status PersistedStatus.completed = TaskStatus.completed
as_task_status PersistedStatus.failed = TaskStatus.failed
as_task_status PersistedStatus.cancelled = TaskStatus.cancelled

-- `status === "claimed" || status === "running"`
abbrev pub is_leased : PersistedStatus → Bool
is_leased PersistedStatus.claimed = true
is_leased PersistedStatus.running = true
is_leased _ = false

unfoldable pub project_artifact_task_status : PersistedStatus → Bool → TaskStatus
project_artifact_task_status status cancellation_requested =
    if cancellation_requested && is_leased status
    then TaskStatus.cancelling
    else as_task_status status

abbrev pub retention_of : PrivacyMode → ArtifactRetention
retention_of strict = purge_scheduled
retention_of standard = retained

abbrev pub release_at_once : PrivacyMode → CancellationDecision
release_at_once mode = record {
  public_status = TaskStatus.cancelled;
  persisted_status = PersistedStatus.cancelled;
  release_reservation = true;
  artifact_retention = retention_of mode;
}

abbrev pub wait_for_lease : PersistedStatus → PrivacyMode → CancellationDecision
wait_for_lease status mode = record {
  public_status = TaskStatus.cancelling;
  persisted_status = status;
  release_reservation = false;
  artifact_retention = retention_of mode;
}

unfoldable pub decide_artifact_task_cancellation :
    PersistedStatus → PrivacyMode → Result CancellationDecision
decide_artifact_task_cancellation PersistedStatus.queued mode = ok (release_at_once mode)
decide_artifact_task_cancellation PersistedStatus.claimed mode =
    ok (wait_for_lease PersistedStatus.claimed mode)
decide_artifact_task_cancellation PersistedStatus.running mode =
    ok (wait_for_lease PersistedStatus.running mode)
decide_artifact_task_cancellation PersistedStatus.cancelled mode = ok (release_at_once mode)
decide_artifact_task_cancellation PersistedStatus.completed mode = err invalid_artifact_task_state
decide_artifact_task_cancellation PersistedStatus.failed mode = err invalid_artifact_task_state

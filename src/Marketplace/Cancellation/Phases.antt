-- ===== src/Marketplace/Cancellation/Phases.antt =====
-- The two phases of a cancellation (packages/marketplace-domain/src/artifact-cancellation.ts).
use token_streaming.Common.{Bool, true, false, ◌≡◌, ◌↔◌, ◌⊎◌, arith}
use token_streaming.Common.Outcome.{ok, err}
use token_streaming.Marketplace.Errors.{ErrorCode, invalid_artifact_task_state}
use token_streaming.Marketplace.Cancellation.{
  PrivacyMode, standard, strict, TaskStatus, PersistedStatus, CancellationDecision, is_leased,
  project_artifact_task_status, decide_artifact_task_cancellation,
}

-- After a cancellation that is accepted, the public status is the one that a reader is shown for the
-- persisted status with the request recorded; the reservation is released exactly when the task is
-- persisted as cancelled, and kept, with the status, exactly when the task is leased; and to cancel
-- once more decides the same again.
pub decide_artifact_task_cancellation-project :
    (status : PersistedStatus) (mode : PrivacyMode) (d : CancellationDecision)
    → decide_artifact_task_cancellation status mode ≡ ok d
    → (project_artifact_task_status d.persisted_status true ≡ d.public_status)
      × ((d.release_reservation ≡ true) ↔ (d.persisted_status ≡ PersistedStatus.cancelled))
      × ((d.release_reservation ≡ false)
          ↔ ((d.persisted_status ≡ status) × (is_leased status ≡ true)))
      × (decide_artifact_task_cancellation d.persisted_status mode ≡ ok d)
unfolding decide_artifact_task_cancellation project_artifact_task_status
decide_artifact_task_cancellation-project PersistedStatus.queued standard d h = ground arith
decide_artifact_task_cancellation-project PersistedStatus.queued strict d h = ground arith
decide_artifact_task_cancellation-project PersistedStatus.claimed standard d h = ground arith
decide_artifact_task_cancellation-project PersistedStatus.claimed strict d h = ground arith
decide_artifact_task_cancellation-project _ _ d h = ground arith

-- A cancellation is refused exactly for a task that is completed or failed, always with
-- INVALID_ARTIFACT_TASK_STATE; the public projection leaves those two as they are, with or without a
-- request for cancellation.
pub decide_artifact_task_cancellation-err :
    (status : PersistedStatus) (mode : PrivacyMode) (requested : Bool) (e : ErrorCode)
    → (decide_artifact_task_cancellation status mode ≡ err e) ↔ (
        (e ≡ invalid_artifact_task_state)
        × (((status ≡ PersistedStatus.completed)
              × (project_artifact_task_status status requested ≡ TaskStatus.completed))
            ⊎ ((status ≡ PersistedStatus.failed)
                × (project_artifact_task_status status requested ≡ TaskStatus.failed))))
unfolding decide_artifact_task_cancellation project_artifact_task_status
decide_artifact_task_cancellation-err PersistedStatus.queued mode requested e = ground arith
decide_artifact_task_cancellation-err _ mode requested e = ground arith

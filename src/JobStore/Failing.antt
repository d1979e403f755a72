-- ===== src/JobStore/Failing.antt =====
-- What ScanJobFailureHandler.HandleFailure leaves.
use sbombastic.Common.{
  ℕ, String, ◌≡◌, Bool, not, ◌⊎◌, List, [], ◌∷◌, ◌++◌, if◌then◌else◌, Result, ok,
}
use sbombastic.Conditions.{ConditionOps}
use sbombastic.Effects.Adds.{Adds}
use sbombastic.Job.{ScanJob, mark_failed, job_finished}
use sbombastic.Objects.{ObjectRef, Event, status_updated, job_counted}
use sbombastic.JobStore.{JobServices}

-- The count of a job that has finished just now.
abbrev pub counted : ConditionOps → Bool → ScanJob → List Event
counted ops was_finished stored =
    if not was_finished then if job_finished ops stored then job_counted stored ∷ [] else [] else []

module _ {W : Type 0} (ops : ConditionOps) (jobs : JobServices W) (message : String) where
  -- The update of the status: the job of the message, as it was read, the time, and the job that the
  -- API server answered with.
  pub record Failure (ref : ObjectRef) (job stored : ScanJob) (time : ℕ) : Type 0 where
    pub is_read : (w : W) × ((jobs.get_scan_job ref.name ref.namespace w).0 ≡ ok job)
    pub is_now : (w : W) × (jobs.now w ≡ time)
    pub is_answer :
        (w : W) × ((jobs.update_status (mark_failed ops time "InternalError" message job) w).0
          ≡ ok stored)

  abbrev Failed : ObjectRef → List Event → Result (ScanJob × Bool) → List Event → Type 0
  Failed ref t (ok (stored, was)) u =
      (job : ScanJob) × (time : ℕ) × (Failure ref job stored time
        × ((was ≡ job_finished ops job)
            × (u ≡ status_updated (mark_failed ops time "InternalError" message job) ∷ t)))
  Failed ref t _ u = u ≡ t

  -- Nothing has happened, or the job of the message was stored as failed, and the job that the API
  -- server answered with was counted, unless the one that was read had finished before.
  abbrev pub FailedOnce : ObjectRef → List Event → List Event → Type 0
  FailedOnce ref t u =
      (u ≡ t)
      ⊎ ((job : ScanJob) × (time : ℕ) × (stored : ScanJob) × (Failure ref job stored time
            × (u
                ≡ counted ops (job_finished ops job) stored
                  ++ status_updated (mark_failed ops time "InternalError" message job) ∷ t)))

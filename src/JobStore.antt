-- ===== src/JobStore.antt =====
-- How the workers and controllers reach ScanJobs: the Kubernetes client, the clock and the job
-- counters (RecordScanJobFinished of internal/telemetry/jobs.go), with the failure handler of
-- internal/handlers/scanjob_failure.go.
pub mod Failing
use sbombastic.Common.{
  ℕ, String, Bool, true, false, not, List, [], ◌∷◌, if◌then◌else◌, Error, Result, ok, err,
  is_not_found,
}
use sbombastic.Conditions.{ConditionOps}
use sbombastic.Job.{ScanJob, mark_failed, job_finished}
use sbombastic.Objects.{ObjectRef, Event, status_updated, job_counted}
use sbombastic.Effects.{Eff, pure, fail, lift, call, read, branch, Retry, ◌>>=◌, ◌>>◌}

-- Get by name and namespace, and Status().Update, which answers with the object the server stored.
pub record JobServices (W : Type 0) : Type 0 where
  pub now : W → ℕ
  pub get_scan_job : String → String → W → Result ScanJob × W
  pub update_status : ScanJob → W → Result ScanJob × W

module _ {W : Type 0} (ops : ConditionOps) (jobs : JobServices W) where
  abbrev pub get_job : String → String → Eff W Event ScanJob
  get_job name namespace = read (jobs.get_scan_job name namespace)

  -- metav1.Now()
  abbrev pub clock : Eff W Event ℕ
  clock = read (λ w. (ok (jobs.now w), w))

  abbrev pub put_status : ScanJob → Eff W Event ScanJob
  put_status job = call (jobs.update_status job) (λ _. status_updated job ∷ [])

  unfoldable pub record_scan_job_finished : ScanJob → Eff W Event (Unit {0})
  record_scan_job_finished job =
      if job_finished ops job then call (λ w. (ok tt, w)) (λ _. job_counted job ∷ []) else pure tt

  -- The body that is retried: the job the server stored, and whether it had finished before.
  unfoldable pub fail_job : ObjectRef → String → Eff W Event (ScanJob × Bool)
  fail_job ref message = get_job ref.name ref.namespace >>= λ job. clock >>= λ time.
      put_status (mark_failed ops time "InternalError" message job) >>= λ stored.
      pure (stored, job_finished ops job)

  -- ScanJobFailureHandler.HandleFailure; the message's JSON text is read by the caller.
  unfoldable pub handle_failure :
      Retry W Event (ScanJob × Bool) → Result ObjectRef → String → Eff W Event (Unit {0})
  handle_failure retry message error_message = lift message >>= λ ref.
      branch (retry.retry (fail_job ref error_message))
        (λ e. if is_not_found e then pure tt else fail e)
        λ (stored, was_finished).
          if not was_finished then record_scan_job_finished stored else pure tt

-- ===== src/Scheduler.antt =====
-- ScanJobReconciler (internal/controller/scanjob_controller.go): it schedules a pending ScanJob and
-- keeps the number of jobs of a registry bounded. Parameters: the API server, the broker, json.Marshal,
-- controllerutil.SetControllerReference and sort.Slice.
pub mod History
pub mod Decisions
use sbombastic.Common.{
  ℕ, ◌-◌, String, Bool, true, false, not, ◌≤◌, ◌≡◌, Option, none, some, List, [], ◌∷◌, ◌++◌,
  if◌then◌else◌, leb, ltb, length, take, drop, GoMap, lookup, assign, is_empty, is_some, Error,
  Result, ok, err, panic, is_not_found,
}
use Prim.Native.String.{◌++◌ as ◌<>◌}
use sbombastic.Conditions.{ConditionOps}
use sbombastic.Effects.{Run, Eff, pure, fail, lift, call, read, branch, for_each, ◌>>=◌, ◌>>◌}
use sbombastic.Job.{
  get_creation_timestamp_from_annotation, ScanJob, initialize_conditions, mark_scheduled,
  mark_failed, is_pending, annotation_scan_job_registry_key,
}
use sbombastic.JobStore.{JobServices, get_job, clock, put_status, record_scan_job_finished}
use sbombastic.Registry.{
  Registry, TargetError, repository_not_found, match_condition_not_found, validate_scan_job_targets,
}
use sbombastic.Objects.{
  ObjectRef, Message, create_catalog, Event, job_patched, job_deleted, published,
}

-- `list_jobs` answers with the jobs of one registry in one namespace.
pub record SchedulerServices (W : Type 0) : Type 0 where
  pub jobs : JobServices W
  pub list_jobs : String → String → W → Result (List ScanJob) × W
  pub delete_job : ScanJob → W → Result (Unit {0}) × W
  pub get_registry : String → String → W → Result Registry × W
  pub patch_job : ScanJob → W → Result ScanJob × W
  pub publish : String → String → Message → W → Result (Unit {0}) × W

-- What computes a value; `sort_slice` is sort.Slice with the given test, and `parse_time` time.Parse of
-- RFC 3339, which fails with none.
pub record SchedulerTools : Type 0 where
  pub default_registry : String
  pub marshal : Registry → Result String
  pub set_controller_reference : Registry → ScanJob → Result ScanJob
  pub parse_time : String → Option ℕ
  pub sort_slice : (ScanJob → ScanJob → Bool) → List ScanJob → List ScanJob

abbrev pub scan_jobs_history_limit : ℕ
scan_jobs_history_limit = 10

abbrev pub create_catalog_subject : String
create_catalog_subject = "sbomscanner.catalog.create"

abbrev pub create_catalog_id : ScanJob → String
create_catalog_id job = "createCatalog/" <> job.uid

abbrev pub reference_of : ScanJob → ObjectRef
reference_of job = record { name = job.name; namespace = job.namespace; uid = job.uid }

-- The reason and the message that a job with a bad target fails with.
unfoldable pub target_reason : TargetError → String
target_reason (repository_not_found name) = "RepositoryNotFound"
target_reason (match_condition_not_found condition name) = "MatchConditionNotFound"

unfoldable pub target_message : (String → String) → Registry → TargetError → String
target_message quoted registry (repository_not_found name) =
    "repository " <> (quoted name <> (" is not declared on registry " <> quoted registry.name))
target_message quoted registry (match_condition_not_found condition name) =
    "match condition "
    <> (quoted condition
        <> (" is not declared on repository "
            <> (quoted name <> (" of registry " <> quoted registry.name))))

abbrev pub annotate : String → ScanJob → ScanJob
annotate value job = record job {
  annotations = assign job.annotations annotation_scan_job_registry_key value;
}

-- When the job was created, by its annotation.
abbrev pub job_time : SchedulerTools → ScanJob → ℕ
unfolding get_creation_timestamp_from_annotation
job_time tools job = get_creation_timestamp_from_annotation tools.parse_time job

-- ti.Before(tj)
abbrev pub is_before : SchedulerTools → ScanJob → ScanJob → Bool
is_before tools a b = ltb (job_time tools a) (job_time tools b)

-- The jobs that the cleanup deletes: the oldest ones beyond the limit.
unfoldable pub surplus : SchedulerTools → List ScanJob → List ScanJob
unfolding get_creation_timestamp_from_annotation
surplus tools found =
    if leb (length found) scan_jobs_history_limit
    then []
    else take (length found - scan_jobs_history_limit) (tools.sort_slice (is_before tools) found)

module _ {W : Type 0} (ops : ConditionOps) (tools : SchedulerTools) (quoted : String → String)
    (services : SchedulerServices W) where
  unfoldable pub cleanup_old_scan_jobs : ScanJob → Eff W Event (Unit {0})
  cleanup_old_scan_jobs current =
      read (services.list_jobs current.namespace current.spec.registry) >>= λ found.
      for_each (surplus tools found)
        λ job. call (services.delete_job job) (λ _. job_deleted job.name job.namespace ∷ [])

  -- reconcileScanJob works on the job by reference and may fail: it returns the job as it left it and
  -- its own result.
  unfoldable pub snapshot_registry : ScanJob → Registry → Eff W Event (ScanJob × Result (Unit {0}))
  snapshot_registry job registry =
      branch (lift (tools.marshal registry)) (λ e. pure (job, err e))
        λ registry_data.
          branch (lift (tools.set_controller_reference registry job)) (λ e. pure (job, err e))
            λ owned.
              let patched = annotate registry_data owned in
              branch (call (services.patch_job patched) (λ stored. job_patched patched ∷ []))
                (λ e. pure (patched, err e)) λ stored. pure (stored, ok tt)

  unfoldable pub publish_job : ScanJob → Eff W Event (ScanJob × Result (Unit {0}))
  publish_job job =
      branch
        (call
          (services.publish create_catalog_subject (create_catalog_id job)
            (create_catalog (reference_of job)))
          (λ _.
            published create_catalog_subject (create_catalog_id job)
              (create_catalog (reference_of job))
            ∷ []))
        (λ e. pure (job, err e))
        λ _. pure (
          mark_scheduled ops "Scheduled"
              "ScanJob has been scheduled for processing by the controller" job,
          ok tt,
        )

  -- With what validateScanJobTargets found, and the time that MarkFailed would read.
  unfoldable pub schedule_checked :
      ScanJob → Registry → ℕ → Option TargetError → Eff W Event (ScanJob × Result (Unit {0}))
  schedule_checked job registry time (some e) =
      pure (mark_failed ops time (target_reason e) (target_message quoted registry e) job, ok tt)
  schedule_checked job registry time none =
      if is_some (lookup job.annotations annotation_scan_job_registry_key)
      then publish_job job
      else snapshot_registry job registry

  unfoldable pub schedule : ScanJob → Registry → Eff W Event (ScanJob × Result (Unit {0}))
  schedule job registry = clock ops services.jobs >>= λ time.
      schedule_checked job registry time
        (validate_scan_job_targets tools.default_registry job.spec.repositories registry)

  unfoldable pub reconcile_scan_job : ScanJob → Eff W Event (ScanJob × Result (Unit {0}))
  reconcile_scan_job job =
      branch (cleanup_old_scan_jobs job) (λ e. pure (job, err e))
        λ _.
          branch (read (services.get_registry job.spec.registry job.namespace))
            (λ e.
              if is_not_found e
              then (clock ops services.jobs >>= λ time. pure (
                mark_failed ops time "RegistryNotFound"
                    ("Registry " <> (job.spec.registry <> " not found")) job,
                ok tt,
              ))
              else pure (job, err e))
            λ registry. schedule job registry

  unfoldable pub reconcile : String → String → Eff W Event (Unit {0})
  reconcile name namespace =
      branch (get_job ops services.jobs name namespace)
        (λ e. if is_not_found e then pure tt else fail e)
        λ job.
          if is_some job.deletion_timestamp
          then pure tt
          else if not (is_pending ops job)
          then pure tt
          else (reconcile_scan_job (initialize_conditions ops job) >>= λ (left, result).
              put_status ops services.jobs left >>= λ stored.
              record_scan_job_finished ops services.jobs stored >> lift result)

-- ===== src/Admission/ScanJobs.antt =====
-- internal/webhook/v1alpha1/scanjob_webhook.go. The API reader answers from what it holds when the
-- request comes in; equality.Semantic.DeepEqual on the targets and time.Format are parameters.
use sbombastic.Common.{
  String, Bool, true, false, not, ◌&&◌, Option, none, some, List, [], ◌∷◌, ◌++◌, Result, ok, err,
  panic, is_some, is_not_found, any, lookup, assign, ◌==◌, if◌then◌else◌,
}
use sbombastic.Conditions.{ConditionOps}
use sbombastic.Job.{
  ScanJob, ScanJobRepository, annotation_scan_job_registry_key,
  annotation_scan_job_creation_timestamp_key, is_complete, is_failed,
}
use sbombastic.Registry.{Registry}
use sbombastic.Admission.{
  FieldError, already_running, registry_not_found, registry_immutable, repositories_immutable,
  Verdict, admitted, internal_error, unless_errors, Username, ServiceAccount, only_service_account,
}

-- client.List of the jobs of a registry, by the index on spec.registry, and client.Get of a Registry.
pub record Reader : Type 0 where
  pub list_scan_jobs : String → String → Result (List ScanJob)
  pub get_registry : String → String → Result Registry

-- Default, with time.Now().Format(time.RFC3339Nano).
unfoldable pub default_scan_job : String → ScanJob → ScanJob
unfolding assign
default_scan_job now job = record job {
  annotations = assign job.annotations annotation_scan_job_creation_timestamp_key now;
}

-- A guard that has answered, or the code behind it.
abbrev pub guarded : Option Verdict → Verdict → Verdict
guarded none next = next
guarded (some v) next = v

unfoldable pub has_snapshot : ScanJob → Bool
unfolding lookup
has_snapshot job = is_some (lookup job.annotations annotation_scan_job_registry_key)

module _ (ops : ConditionOps) where
  unfoldable pub is_running : ScanJob → Bool
  unfolding is_complete is_failed
  is_running job = not (is_complete ops job) && not (is_failed ops job)

  unfoldable pub running_errors : List ScanJob → List FieldError
  unfolding is_running
  running_errors jobs = if any is_running jobs then already_running ∷ [] else []

  abbrev pub registry_verdict : List FieldError → Result Registry → Verdict
  registry_verdict errors (ok r) = unless_errors errors []
  registry_verdict errors panic = internal_error
  registry_verdict errors (err e) =
      if is_not_found e
      then unless_errors (errors ++ (registry_not_found ∷ [])) []
      else internal_error

  abbrev pub create_verdict : Result (List ScanJob) → Result Registry → Verdict
  unfolding running_errors
  create_verdict (ok jobs) registry = registry_verdict (running_errors jobs) registry
  create_verdict _ registry = internal_error

  unfoldable pub validate_scan_job_create : ServiceAccount → Username → Reader → ScanJob → Verdict
  unfolding only_service_account has_snapshot running_errors
  validate_scan_job_create account user reader job =
      guarded (if has_snapshot job then only_service_account account user else none) (
        create_verdict (reader.list_scan_jobs job.namespace job.spec.registry)
          (reader.get_registry job.namespace job.spec.registry))

abbrev pub same_snapshot : Option String → Option String → Bool
same_snapshot none none = true
same_snapshot (some s) (some t) = s == t
same_snapshot _ _ = false

-- The errors of ValidateUpdate in their order.
abbrev pub update_errors : Bool → Bool → List FieldError
update_errors same_registry same_repositories =
    (if same_registry then [] else registry_immutable ∷ [])
    ++ (if same_repositories then [] else repositories_immutable ∷ [])

unfoldable pub validate_scan_job_update :
    (List ScanJobRepository → List ScanJobRepository → Bool)
    → ServiceAccount
    → Username
    → ScanJob
    → ScanJob
    → Verdict
unfolding only_service_account lookup
validate_scan_job_update deep_equal account user old new =
    guarded
      (if same_snapshot (lookup old.annotations annotation_scan_job_registry_key)
          (lookup new.annotations annotation_scan_job_registry_key)
        then none
        else only_service_account account user)
      (unless_errors
        (update_errors (old.spec.registry == new.spec.registry)
          (deep_equal old.spec.repositories new.spec.repositories))
        [])

unfoldable pub validate_scan_job_delete : ScanJob → Verdict
validate_scan_job_delete job = admitted []

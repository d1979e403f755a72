-- ===== src/Rescans/Runner.antt =====
-- RegistryScanRunner's work on one registry (internal/controller/registry_scan_runner.go):
-- checkRegistryForScan, getLastScanJob, createScanJob and removeRescanAnnotations. time.Since reads
-- the clock; a completion time in the future counts as now, which the comparison with a positive
-- interval cannot tell from Go's negative duration.
mod Removal
pub mod Creation
use sbombastic.Common.{
  ℕ, ◌-◌, String, Bool, true, false, not, ◌&&◌, ◌||◌, Option, none, some, List, [], ◌∷◌, any,
  if◌then◌else◌, is_empty, is_some, GoMap, lookup, delete, Error, Result, ok, err, is_not_found,
}
use Prim.Native.String.{◌++◌ as ◌<>◌}
use sbombastic.Conditions.{ConditionOps}
use sbombastic.Sets.{Sets}
use sbombastic.Effects.{Eff, pure, fail, call, read, branch, Retry, ◌>>=◌, ◌>>◌}
use sbombastic.Job.{ScanJob, ScanJobSpec, ScanJobRepository, is_complete, is_failed}
use sbombastic.Registry.{Registry, label_is, label_workload_scan_key, label_workload_scan_value}
use sbombastic.Rescans.{
  RescanRequest, Requests, collect_rescan_requests, job_targets, should_create_scan_job,
}

-- The object that createScanJob sends.
pub record NewScanJob : Type 0 where
  pub generate_name : String
  pub namespace : String
  pub annotations : GoMap String
  pub labels : GoMap String
  pub spec : ScanJobSpec

pub data Change : Type 0 where
  job_created : NewScanJob → Change
  registry_updated : Registry → Change

-- `list_jobs` answers with the jobs of one registry in one namespace.
pub record RunnerServices (W : Type 0) : Type 0 where
  pub now : W → ℕ
  pub list_jobs : String → String → W → Result (List ScanJob) × W
  pub create_job : NewScanJob → W → Result (Unit {0}) × W
  pub get_registry : String → String → W → Result Registry × W
  pub update_registry : Registry → W → Result (Unit {0}) × W

-- What computes a value: sort.Slice by creation time, latest first, sort.Strings, json.Unmarshal and
-- telemetry.InjectAnnotations.
pub record RunnerTools : Type 1 where
  pub ops : ConditionOps
  pub sets : Sets
  pub newest_first : List ScanJob → List ScanJob
  pub sort_strings : List String → List String
  pub unmarshal : String → Result RescanRequest
  pub inject_annotations : GoMap String → GoMap String

abbrev pub annotation_scan_job_trigger_key : String
annotation_scan_job_trigger_key = "sbomscanner.kubewarden.io/trigger"

unfoldable pub new_scan_job : RunnerTools → Registry → List ScanJobRepository → NewScanJob
new_scan_job tools registry repositories = record {
  generate_name = registry.name <> "-";
  namespace = registry.namespace;
  annotations = tools.inject_annotations ((annotation_scan_job_trigger_key, "runner") ∷ []);
  labels =
      if label_is label_workload_scan_key label_workload_scan_value registry.labels
      then (label_workload_scan_key, label_workload_scan_value) ∷ []
      else [];
  spec = record { registry = registry.name; repositories = repositories };
}

-- The loop over the keys in removeRescanAnnotations.
unfoldable pub remove_keys : List String → GoMap String → GoMap String
remove_keys [] m = m
remove_keys (key ∷ keys) m = remove_keys keys (delete m key)

unfoldable pub without_keys : List String → Registry → Registry
without_keys keys registry = record registry { annotations = remove_keys keys registry.annotations }

-- The last job runs still.
unfoldable pub is_running : ConditionOps → Option ScanJob → Bool
is_running ops none = false
is_running ops (some job) = not (is_complete ops job) && not (is_failed ops job)

module _ {W : Type 0} (tools : RunnerTools) (services : RunnerServices W)
    (retry : Retry W Change (Unit {0})) where
  unfoldable pub first_job : List ScanJob → Eff W Change ScanJob
  first_job [] = fail Error.not_found
  first_job (job ∷ others) = pure job

  unfoldable pub get_last_scan_job : Registry → Eff W Change ScanJob
  get_last_scan_job registry =
      read (services.list_jobs registry.namespace registry.name) >>= λ found.
      first_job (tools.newest_first found)

  unfoldable pub create_scan_job : Registry → List ScanJobRepository → Eff W Change (Unit {0})
  create_scan_job registry repositories =
      let job = new_scan_job tools registry repositories in
      call (services.create_job job) (λ _. job_created job ∷ [])

  -- The body that is retried.
  unfoldable pub remove_once : Registry → List String → Eff W Change (Unit {0})
  remove_once registry keys =
      read (services.get_registry registry.name registry.namespace) >>= λ current.
      if any (λ key. is_some (lookup current.annotations key)) keys
      then call (services.update_registry (without_keys keys current))
          (λ _. registry_updated (without_keys keys current) ∷ [])
      else pure tt

  unfoldable pub remove_rescan_annotations : Registry → List String → Eff W Change (Unit {0})
  remove_rescan_annotations registry keys =
      if is_empty keys then pure tt else retry.retry (remove_once registry keys)

  -- From the lookup of the last job on.
  unfoldable pub check_with : Registry → Option ScanJob → Eff W Change (Unit {0})
  check_with registry last =
      let requests =
        collect_rescan_requests tools.sets tools.sort_strings tools.unmarshal registry in
      let requested = not (is_empty requests.rescan_requests) in
      if is_running tools.ops last
      then pure tt
      else (read (λ w. (ok (services.now w), w)) >>= λ time.
          if not (should_create_scan_job (λ t. time - t) registry last requested)
          then pure tt
          else (create_scan_job registry (job_targets requests)
              >> (if requested
                  then remove_rescan_annotations registry requests.rescan_requests
                  else pure tt)))

  unfoldable pub check_registry_for_scan : Registry → Eff W Change (Unit {0})
  check_registry_for_scan registry =
      branch (get_last_scan_job registry)
        (λ e. if not (is_not_found e) then fail e else check_with registry none)
        (λ job. check_with registry (some job))

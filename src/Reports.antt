-- ===== src/Reports.antt =====
-- VulnerabilityReportReconciler (internal/controller/vulnerabilityreport_controller.go): each report
-- that is stored makes it count the reports of the report's ScanJob and write the job's status.
pub mod Progress
use sbombastic.Common.{
  ℕ, String, Bool, true, false, not, Option, none, some, List, [], ◌∷◌, if◌then◌else◌, eqb, length,
  lookup, GoMap, Error, Result, ok, err, is_not_found, is_some,
}
use sbombastic.Conditions.{ConditionOps}
use sbombastic.Effects.{Eff, pure, fail, read, branch, ◌>>=◌, ◌>>◌}
use sbombastic.Job.{ScanJob, mark_in_progress, mark_complete, is_complete, is_failed}
use sbombastic.JobStore.{JobServices, clock, put_status, record_scan_job_finished}
use sbombastic.Objects.{Event}

-- Of a report, the metadata that the reconciler fetches.
pub record ReportMetadata : Type 0 where
  pub name : String
  pub deletion_timestamp : Option ℕ
  pub labels : GoMap String

-- The second lists the jobs of a UID over all namespaces, the third the reports of a namespace that
-- carry the UID in their label.
pub record ReportServices (W : Type 0) : Type 0 where
  pub get_report : String → String → W → Result ReportMetadata × W
  pub list_jobs : String → W → Result (List ScanJob) × W
  pub list_reports : String → String → W → Result (List ReportMetadata) × W

abbrev pub label_scan_job_uid_key : String
label_scan_job_uid_key = "sbomscanner.kubewarden.io/scanjob-uid"

abbrev pub with_scanned : ℕ → ScanJob → ScanJob
with_scanned n job = record job { status = record job.status { scanned_images_count = n } }

-- The job with the number of its reports, and its new phase unless it has failed.
unfoldable pub scanned : ConditionOps → ℕ → ℕ → ScanJob → ScanJob
scanned ops time n old =
    let job = with_scanned n old in
    if is_failed ops job
    then job
    else if eqb job.status.scanned_images_count job.status.images_count
    then mark_complete ops time "AllImagesScanned" "All images scanned successfully" job
    else mark_in_progress ops time "ImageScanInProgress" "Image scan in progress" job

module _ {W : Type 0} (ops : ConditionOps) (jobs : JobServices W)
    (services : ReportServices W) where
  -- From the list of the reports to the end.
  unfoldable pub update_job : String → String → ScanJob → Eff W Event (Unit {0})
  update_job namespace uid job =
      if is_complete ops job
      then pure tt
      else (read (services.list_reports namespace uid) >>= λ reports. clock ops jobs >>= λ time.
          put_status ops jobs (scanned ops time (length reports) job) >>= λ stored.
          if is_failed ops (with_scanned (length reports) job)
          then pure tt
          else record_scan_job_finished ops jobs stored)

  unfoldable pub update_first : String → String → List ScanJob → Eff W Event (Unit {0})
  update_first namespace uid [] = pure tt
  update_first namespace uid (job ∷ others) = update_job namespace uid job

  unfoldable pub reconcile_labelled : String → Option String → Eff W Event (Unit {0})
  reconcile_labelled namespace none = pure tt
  reconcile_labelled namespace (some uid) =
      read (services.list_jobs uid) >>= update_first namespace uid

  unfoldable pub reconcile : String → String → Eff W Event (Unit {0})
  reconcile name namespace =
      branch (read (services.get_report name namespace))
        (λ e. if not (is_not_found e) then fail e else pure tt)
        λ report.
          if is_some report.deletion_timestamp
          then pure tt
          else reconcile_labelled namespace (lookup report.labels label_scan_job_uid_key)

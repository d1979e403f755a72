-- ===== src/Sboms/Scan.antt =====
-- internal/handlers/scan_sbom.go: Handle. controllerutil.CreateOrUpdate is a service: it reads the report
-- of that name, or takes the given one where there is none, applies the function, and stores the result.
use sbombastic.Common.{
  String, not, none, some, List, [], ◌∷◌, ◌==◌, if◌then◌else◌, Result, is_not_found,
}
use sbombastic.Conditions.{ConditionOps}
use sbombastic.Effects.{Eff, pure, fail, lift, call, read, branch, ◌>>=◌, ◌>>◌}
use sbombastic.Job.{ScanJob, is_failed}
use sbombastic.Registry.{Registry}
use sbombastic.Objects.{ObjectRef}
use sbombastic.Reports.{label_scan_job_uid_key}
use sbombastic.Catalog.Steps.{registry_from_scan_job}
use sbombastic.Vulnerabilities.{Summary, TargetResult, empty_summary}
use sbombastic.Sboms.{
  Sbom, VulnerabilityReport, WorkEvent, report_stored, sbom_labels, ClusterServices,
  MachineServices,
}
use sbombastic.Sboms.Temporary.{TrivySettings, ScanTools, run_trivy_scan}

pub record ScanMessage : Type 0 where
  pub scan_job : ObjectRef
  pub sbom : ObjectRef

-- The function that CreateOrUpdate applies.
unfoldable pub mutate_report :
    ScanMessage
    → Registry
    → Sbom
    → List TargetResult × Summary
    → VulnerabilityReport
    → VulnerabilityReport
unfolding sbom_labels
mutate_report m registry sbom (results, summary) report = record report {
  labels = (label_scan_job_uid_key, m.scan_job.uid) ∷ sbom_labels registry;
  metadata = some sbom.metadata;
  summary = summary;
  results = results;
}

abbrev pub empty_report : ScanMessage → String → VulnerabilityReport
empty_report m owner = record {
  name = m.sbom.name;
  namespace = m.sbom.namespace;
  labels = [];
  metadata = none;
  summary = empty_summary;
  results = [];
  owner = some owner;
}

pub record ScanHandlerTools : Type 1 where
  pub ops : ConditionOps
  pub unmarshal : String → Result Registry
  pub controller_reference : Sbom → Result String
  pub settings : TrivySettings
  pub scanning : ScanTools

module _ {W : Type 0} (tools : ScanHandlerTools) (cluster : ClusterServices W)
    (machine : MachineServices W) where
  abbrev Code : Type 0 → Type 0
  Code = Eff W WorkEvent

  unfoldable pub store_report :
      ScanMessage → Registry → Sbom → List TargetResult × Summary → Code (Unit {0})
  unfolding mutate_report
  store_report m registry sbom found = lift (tools.controller_reference sbom) >>= λ owner.
      call (cluster.create_or_update (empty_report m owner) (mutate_report m registry sbom found))
        (λ stored. report_stored stored ∷ [])
      >> pure tt

  unfoldable pub scan_sbom_of : ScanMessage → Registry → Sbom → Code (Unit {0})
  unfolding run_trivy_scan store_report
  scan_sbom_of m registry sbom =
      run_trivy_scan machine tools.settings cluster tools.scanning sbom.spdx
      >>= store_report m registry sbom

  unfoldable pub with_registry : ScanMessage → ScanJob → Code (Unit {0})
  unfolding scan_sbom_of
  with_registry m job = lift (registry_from_scan_job tools.unmarshal job) >>= λ registry.
      branch (read (cluster.get_sbom m.sbom.name m.sbom.namespace))
        (λ e. if is_not_found e then pure tt else fail e) (scan_sbom_of m registry)

  unfoldable pub scan_job_sbom : ScanMessage → ScanJob → Code (Unit {0})
  unfolding with_registry
  scan_job_sbom m job =
      if not (job.uid == m.scan_job.uid)
      then pure tt
      else if is_failed tools.ops job
      then pure tt
      else with_registry m job

  unfoldable pub handle_scan : Result ScanMessage → Code (Unit {0})
  unfolding scan_job_sbom
  handle_scan message = lift message >>= λ m.
      branch (read (cluster.get_scan_job m.scan_job.name m.scan_job.namespace))
        (λ e. if is_not_found e then pure tt else fail e) (scan_job_sbom m)

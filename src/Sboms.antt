-- ===== src/Sboms.antt =====
-- GenerateSBOMHandler and ScanSBOMHandler (internal/handlers/generate_sbom.go, scan_sbom.go and
-- scan_sbom_helpers.go): the objects that they store, what they do, and the services that they call.
-- A raw document is a text. Trivy, the file system, the environment of the process, yaml and the
-- packages dockerauth and cabundle are services; their clean-ups only log their errors. What
-- BuildDockerConfigForRegistry has left on the disk where it fails is not kept.
pub mod Temporary
pub mod Residues
pub mod Leftovers
pub mod Scanning
pub mod Generate
pub mod Scan
pub mod Documents
pub mod Acting
pub mod Handled
pub mod Summed
pub mod Scanned
use Prim.Native.String.{◌++◌ as ◌<>◌}
use sbombastic.Common.{
  String, Bool, true, false, ◌&&◌, Option, none, some, List, [], ◌∷◌, GoMap, ◌==◌, if◌then◌else◌,
  Result,
}
use sbombastic.Job.{ScanJob}
use sbombastic.Registry.{
  Registry, label_is, label_managed_by_key, label_managed_by_value, label_part_of_key,
  label_part_of_value, label_workload_scan_key, label_workload_scan_value,
}
use sbombastic.Objects.{ImageMetadata, Image, ObjectRef, Message}
use sbombastic.Vulnerabilities.{Summary, TargetResult}

-- `owner` is the controller reference.
pub record Sbom : Type 0 where
  pub name : String
  pub namespace : String
  pub labels : GoMap String
  pub metadata : ImageMetadata
  pub spdx : String
  pub owner : Option String

pub record VulnerabilityReport : Type 0 where
  pub name : String
  pub namespace : String
  pub labels : GoMap String
  pub metadata : Option ImageMetadata
  pub summary : Summary
  pub results : List TargetResult
  pub owner : Option String

-- What code may leave behind on the machine: a file or directory, and a variable of the process.
pub data Residue : Type 0 where
  path variable : String → Residue

abbrev pub same_residue : Residue → Residue → Bool
same_residue (path p) (path q) = p == q
same_residue (variable p) (variable q) = p == q
same_residue _ _ = false

-- `gone` is a removal, `stuck` one that failed and whose error was logged.
pub data WorkEvent : Type 0 where
  sbom_created : Sbom → WorkEvent
  scan_requested : String → String → Message → WorkEvent
  report_stored : VulnerabilityReport → WorkEvent
  delivery_extended : WorkEvent
  made gone stuck : Residue → WorkEvent

abbrev pub scan_sbom_subject : String
scan_sbom_subject = "sbomscanner.sbom.scan"

-- The labels that both objects have.
unfoldable pub workload_label : Registry → GoMap String
unfolding label_is
workload_label registry =
    if label_is label_workload_scan_key label_workload_scan_value registry.labels
    then (label_workload_scan_key, label_workload_scan_value) ∷ []
    else []

unfoldable pub sbom_labels : Registry → GoMap String
unfolding workload_label
sbom_labels registry =
    (label_managed_by_key, label_managed_by_value)
    ∷ (label_part_of_key, label_part_of_value)
    ∷ workload_label registry

-- VEXHub, with the fields that are read.
pub record VexHub : Type 0 where
  pub name : String
  pub url : String
  pub enabled : Bool

-- The Kubernetes client, the broker and the message.
pub record ClusterServices (W : Type 0) : Type 0 where
  pub get_scan_job : String → String → W → Result ScanJob × W
  pub get_image : String → String → W → Result Image × W
  pub get_sbom : String → String → W → Result Sbom × W
  pub find_sboms : String → String → W → Result (List Sbom) × W
  pub list_vex_hubs : W → Result (List VexHub) × W
  pub create_sbom : Sbom → W → Result (Unit {0}) × W
  pub create_or_update :
      VulnerabilityReport
      → (VulnerabilityReport → VulnerabilityReport)
      → W
      → Result VulnerabilityReport × W
  pub publish : String → String → Message → W → Result (Unit {0}) × W
  pub in_progress : W → Result (Unit {0}) × W

-- The machine: files by the pattern of their name, each answering with the path.
pub record MachineServices (W : Type 0) : Type 0 where
  pub create_temp : String → String → W → Result String × W
  pub make_temp_dir : String → String → W → Result String × W
  pub write_file : String → String → W → Result (Unit {0}) × W
  pub close_file : String → W → Result (Unit {0}) × W
  pub read_file : String → W → Result String × W
  pub remove : String → W → Result (Unit {0}) × W
  pub remove_all : String → W → Result (Unit {0}) × W
  pub set_variable : String → String → W → Result (Unit {0}) × W
  pub unset_variable : String → W → Result (Unit {0}) × W
  pub make_directory : String → W → Result (Unit {0}) × W
  pub build_docker_config : Registry → W → Result String × W
  pub resolve_ca_bundle : Registry → W → Result String × W
  pub run_trivy : List String → W → Result (Unit {0}) × W

-- ===== src/Tests/SbomRuns.antt =====
-- The SBOM and scan handlers on services that always answer the same.
use sbombastic.Common.{Error, String, ◌≡◌, refl, none, List, [], ◌∷◌, lookup, panic, ok, err}
use sbombastic.Effects.{Run}
use sbombastic.Job.{ScanJob, is_failed, annotation_scan_job_registry_key}
use sbombastic.Registry.{Registry, is_private}
use sbombastic.Objects.{Image, ObjectRef}
use sbombastic.Catalog.Steps.{registry_from_scan_job}
use sbombastic.Vulnerabilities.Trivy.{new_results_from_trivy_report}
use sbombastic.Sboms.{Sbom, WorkEvent, ClusterServices, MachineServices}
use sbombastic.Sboms.Temporary.{TrivySettings, generate_spdx, run_trivy_scan}
use sbombastic.Sboms.Residues.{residue, generate_spdx-residue}
use sbombastic.Sboms.Leftovers.{Left, run_trivy_scan-Left}
use sbombastic.Vulnerabilities.{TargetResult, Summary, empty_summary}
use sbombastic.Sboms.Acting.{acts}
use sbombastic.Sboms.Generate.{GenerateMessage, GenerateTools, handle_generate}
use sbombastic.Sboms.Handled.{Handled, handle_generate-Handled}
use sbombastic.Sboms.Scan.{ScanMessage, ScanHandlerTools, handle_scan}
use sbombastic.Sboms.Scanned.{Applies, Reported, handle_scan-Reported}
use sbombastic.Tests.ListConditions.{list_conditions}
use sbombastic.Tests.JobRuns.{fresh}
use sbombastic.Tests.RegistryRuns.{registry_of}
use sbombastic.Tests.VulnerabilityRuns.{types, plain_ops, report}

abbrev app_image : Image
app_image = record {
  name = "image";
  namespace = "default";
  labels = [];
  metadata = record {
    registry = "hub";
    registry_uri = "hub.example";
    repository = "app";
    tag = "v1";
    platform = "linux/amd64";
    digest = "sha256:i";
    index_digest = "";
  };
  layers = [];
  owner = none;
}

abbrev private_registry : Registry
private_registry = record (registry_of []) {
  spec = record (registry_of []).spec { auth_secret = "secret" };
}

abbrev job : ScanJob
job = record fresh { annotations = (annotation_scan_job_registry_key, "hub") ∷ [] }

abbrev app_sbom : Sbom
app_sbom = record {
  name = "image";
  namespace = "default";
  labels = [];
  metadata = app_image.metadata;
  spdx = "spdx";
  owner = none;
}

-- No SBOM has the digest of the image, and a scan finds no report of it.
abbrev cluster : ClusterServices (Unit {0})
cluster = record {
  get_scan_job = λ name namespace w. (ok job, w);
  get_image = λ name namespace w. (ok app_image, w);
  get_sbom = λ name namespace w. (ok app_sbom, w);
  find_sboms = λ digest namespace w. (ok [], w);
  list_vex_hubs = λ w. (ok [], w);
  create_sbom = λ sbom w. (ok tt, w);
  create_or_update = λ given f w. (ok (f given), w);
  publish = λ subject id message w. (ok tt, w);
  in_progress = λ w. (ok tt, w);
}

abbrev machine : MachineServices (Unit {0})
machine = record {
  create_temp = λ directory pattern w. (ok pattern, w);
  make_temp_dir = λ directory pattern w. (ok pattern, w);
  write_file = λ file text w. (ok tt, w);
  close_file = λ file w. (ok tt, w);
  read_file = λ file w. (ok "text", w);
  remove = λ file w. (ok tt, w);
  remove_all = λ directory w. (err Error.other, w);
  set_variable = λ name value w. (ok tt, w);
  unset_variable = λ name w. (ok tt, w);
  make_directory = λ directory w. (ok tt, w);
  build_docker_config = λ registry w. (ok "docker", w);
  resolve_ca_bundle = λ registry w. (ok "pem", w);
  run_trivy = λ args w. (ok tt, w);
}

abbrev settings : TrivySettings
settings = record {
  work_dir = "/work";
  trivy_db_repository = "db";
  trivy_java_db_repository = "java-db";
}

abbrev start : Run (Unit {0}) WorkEvent
start = record { world = tt; trace = [] }

generate_spdx-residue_example :
    residue (generate_spdx machine settings app_image private_registry start).1.trace ≡ []
unfolding residue
generate_spdx-residue_example =
    generate_spdx-residue machine settings app_image private_registry start

abbrev ref : String → ObjectRef
ref name = record { name = name; namespace = "default"; uid = "u-1" }

abbrev generate_tools : GenerateTools
generate_tools = record {
  ops = list_conditions;
  unmarshal = λ text. ok private_registry;
  controller_reference = λ image. ok image.name;
  settings = settings;
}

abbrev generate_message : GenerateMessage
generate_message = record { scan_job = ref "job"; image = ref "image" }

generated : (handle_generate generate_tools cluster machine (ok generate_message) start).0 ≡ ok tt
unfolding handle_generate is_failed list_conditions registry_from_scan_job lookup generate_spdx
    is_private
generated = refl

handle_generate-Handled_example :
    Handled generate_tools cluster machine generate_message []
      (handle_generate generate_tools cluster machine (ok generate_message) start).1.trace
unfolding acts
handle_generate-Handled_example =
    handle_generate-Handled generate_tools cluster machine generate_message start generated

abbrev scan_tools : ScanHandlerTools
scan_tools = record {
  ops = list_conditions;
  unmarshal = λ text. ok private_registry;
  controller_reference = λ sbom. ok sbom.name;
  settings = settings;
  scanning = record {
    types = types;
    trivy = plain_ops;
    marshal_hubs = λ hubs. ok "yaml";
    unmarshal_report = λ text. ok report;
    join = λ a b. a;
  };
}

abbrev message : ScanMessage
message = record { scan_job = ref "job"; sbom = ref "image" }

applies : Applies cluster
applies given f w stored h = (given, (cc, (refl, refl)))

scanned : (handle_scan scan_tools cluster machine (ok message) start).0 ≡ ok tt
unfolding handle_scan is_failed list_conditions registry_from_scan_job lookup
    new_results_from_trivy_report plain_ops
scanned = refl

handle_scan-Reported_example :
    Reported scan_tools cluster machine message [] applies
      (handle_scan scan_tools cluster machine (ok message) start).1.trace
unfolding acts
handle_scan-Reported_example =
    handle_scan-Reported scan_tools cluster machine message applies start scanned

abbrev found : List TargetResult × Summary
found = elim (run_trivy_scan machine settings cluster scan_tools.scanning "spdx" start).0 [
  | ok pair ↦ pair
  | err e ↦ ([], empty_summary)
  | panic ↦ ([], empty_summary)
]

finds : (run_trivy_scan machine settings cluster scan_tools.scanning "spdx" start).0 ≡ ok found
unfolding run_trivy_scan new_results_from_trivy_report plain_ops
finds = refl

run_trivy_scan-Left_example :
    Left machine settings cluster scan_tools.scanning [] []
      (run_trivy_scan machine settings cluster scan_tools.scanning "spdx" start).1.trace
unfolding residue
run_trivy_scan-Left_example =
    run_trivy_scan-Left machine settings cluster scan_tools.scanning [] "spdx" start found refl
      finds

-- ===== src/Tests/Cluster.antt =====
-- A small cluster: its state is the one ScanJob that it stores, and every other service answers the
-- same at all times.
use sbombastic.Common.{
  String, Bool, true, false, Option, none, some, [], ◌∷◌, refl, Error, Result, ok, err,
}
use sbombastic.Effects.{Run, Retry, attempts}
use sbombastic.Job.{ScanJob, annotation_scan_job_registry_key}
use sbombastic.JobStore.{JobServices}
use sbombastic.Objects.{Image, ObjectRef, Event}
use sbombastic.Catalog.Images.{
  Reference, Layer, History, ImageDetails, ImageIndex, ImageServices, Encoders,
}
use sbombastic.Catalog.Discovery.{Names}
use sbombastic.Catalog.Steps.{CatalogServices}
use sbombastic.Catalog.Handler.{Environment}
use sbombastic.Tests.ListConditions.{list_conditions}
use sbombastic.Tests.ListSets.{list_sets}
use sbombastic.Tests.JobRuns.{fresh}
use sbombastic.Tests.RegistryRuns.{registry_of}

abbrev pub World : Type 0
World = Option ScanJob

abbrev read_job : World → Result ScanJob
read_job none = err Error.not_found
read_job (some job) = ok job

abbrev pub cluster_jobs : JobServices World
cluster_jobs = record {
  now = λ w. 77;
  get_scan_job = λ name namespace w. (read_job w, w);
  update_status = λ job w. (ok job, some job);
}

-- RetryOnConflict with four more attempts.
abbrev pub retry_four : {A : Type 0} → Retry World Event A
retry_four = record { retry = λ body s. attempts 4 body s; retried = λ body s. (4, refl) }

abbrev pub stage : Layer
stage = record { digest = ok "sha256:l"; diff_id = ok "sha256:d" }

abbrev pub made_by : String → Bool → History
made_by command empty = record { created_by = command; empty_layer = empty }

abbrev pub amd64 : ImageDetails
amd64 = record {
  digest = "sha256:i";
  layers = stage ∷ [];
  history = made_by "COPY" false ∷ made_by "ENV" true ∷ [];
  platform = record { architecture = "amd64"; os = "linux"; variant = "" };
}

abbrev no_index : ImageIndex
no_index = record { index_manifest = err Error.other; digest = err Error.other }

abbrev pub cluster_images : ImageServices World
cluster_images = record {
  get_descriptor = λ ref w. (ok (record { is_index = false; image_index = ok no_index }), w);
  is_container_image = λ d. ok true;
  get_image_details = λ ref w. (ok amd64, w);
  get_image_details_from_index = λ index digest platform w. (err Error.other, w);
  in_progress = λ w. (ok tt, w);
}

abbrev pub plain_encoders : Encoders
plain_encoders = record {
  base64 = λ t. t;
  sha256_hex = λ t. t;
  platform_string = λ p. p.os;
  controller_reference = λ r n. ok r.name;
}

abbrev pub app_latest : Reference
app_latest = record {
  name = "hub.example/app:v1";
  context_name = "hub.example/app";
  registry_str = "hub.example";
  repository_str = "app";
  identifier = "v1";
}

abbrev pub plain_names : Names
plain_names = record {
  default_registry = "index.docker.io";
  new_registry = λ insecure uri. ok uri;
  new_repository = λ insecure n. ok (record { name = n; repository_str = "app" });
  new_digest = λ insecure n. ok app_latest;
  new_tag = λ insecure n. ok app_latest;
  parse_reference = λ insecure n. ok app_latest;
  join = λ a b. b;
  quoted = λ t. t;
  sorted = λ ts. ts;
}

abbrev pub old_image : Image
old_image = record {
  name = "old";
  namespace = "default";
  labels = [];
  metadata = record {
    registry = "hub";
    registry_uri = "hub.example";
    repository = "app";
    tag = "v0";
    platform = "linux";
    digest = "sha256:o";
    index_digest = "";
  };
  layers = [];
  owner = none;
}

abbrev pub cluster : CatalogServices World
cluster = record {
  jobs = cluster_jobs;
  images = cluster_images;
  registries = record {
    catalog = λ reg w. (ok ("app" ∷ []), w);
    list_repository_contents = λ repo w. (ok ("hub.example/app:v1" ∷ []), w);
  };
  connect = λ r w. (ok tt, w);
  list_images = λ namespace name w. (ok (old_image ∷ []), w);
  create_image = λ image w. (ok tt, w);
  delete_image = λ name namespace w. (ok tt, w);
  publish = λ subject id message w. (ok tt, w);
}

abbrev pub environment : Environment World
environment = record {
  ops = list_conditions;
  sets = list_sets;
  services = cluster;
  names = plain_names;
  encoders = plain_encoders;
  unmarshal = λ t. ok (registry_of []);
  new_tag_evaluator = ok tt;
  evaluate = λ e t. ok true;
  retry_start = retry_four;
  retry_finish = retry_four;
}

abbrev pub job_ref : ObjectRef
job_ref = record { name = "job"; namespace = "default"; uid = "u-1" }

abbrev pub annotated : ScanJob
annotated = record fresh { annotations = (annotation_scan_job_registry_key, "hub") ∷ [] }

abbrev pub start : Run World Event
start = record { world = some annotated; trace = [] }

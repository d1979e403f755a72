-- ===== src/Catalog/Steps.antt =====
-- The parts of CreateCatalogHandler.Handle, deleteObsoleteImages, and registryFromScanJob of
-- internal/handlers/registry_snapshot.go. Parameters: the API server, the registry client, the broker
-- and the decoding of JSON.
pub mod Cleanup
pub mod Outcome
use sbombastic.Common.{
  ℕ, String, Bool, true, false, not, ◌&&◌, ◌||◌, Option, none, some, List, [], ◌∷◌, ◌++◌, map,
  filter, ◌==◌, if◌then◌else◌, is_empty, length, lookup, Error, Result, ok, err, is_not_found,
  is_already_exists,
}
use Prim.Native.String.{◌++◌ as ◌<>◌}
use sbombastic.Common
use sbombastic.Conditions.{ConditionOps}
use sbombastic.Sets.{Sets, insert_all}
use sbombastic.Effects.{Eff, pure, fail, lift, call, read, branch, Retry, for_each, ◌>>=◌, ◌>>◌}
use sbombastic.Job.{
  ScanJob, mark_in_progress, mark_complete, job_finished, annotation_scan_job_registry_key,
}
use sbombastic.JobStore.{JobServices, get_job, clock, put_status, record_scan_job_finished}
use sbombastic.Registry.{Registry, get_repository, apply_targets_to_registry}
use sbombastic.Filters.{filter_by_tag}
use sbombastic.Objects.{
  Image, ObjectRef, Message, generate_sbom, Event, image_created, image_deleted, published,
}
use sbombastic.Catalog.Images.{ImageServices, Encoders, Reference, acknowledge, ref_to_images}
use sbombastic.Catalog.Discovery.{Names, RegistryServices, discover_repositories, discover_all}

pub record CatalogServices (W : Type 0) : Type 0 where
  pub jobs : JobServices W
  pub images : ImageServices W
  pub registries : RegistryServices W
  pub connect : Registry → W → Result (Unit {0}) × W
  pub list_images : String → String → W → Result (List Image) × W
  pub create_image : Image → W → Result (Unit {0}) × W
  pub delete_image : String → String → W → Result (Unit {0}) × W
  pub publish : String → String → Message → W → Result (Unit {0}) × W

-- What the first status update leaves: nothing more to do, or the stored job.
pub data Started : Type 0 where
  already_finished : Started
  started : ScanJob → Started

-- What the loop over the references leaves: it stopped because the job is gone, or it went through,
-- with the job as it was last read and the images found.
pub data Progress : Type 0 where
  stopped : Progress
  reached : ScanJob → List Image → Progress

-- The images found so far, before those found from there on.
unfoldable pub joined : List Image → Progress → Progress
joined found stopped = stopped
joined found (reached last others) = reached last (found ++ others)

-- Where the loop stopped, Handle returns at once.
unfoldable pub on_reached :
    {W A : Type 0}
    → Progress
    → Eff W Event A
    → (ScanJob → List Image → Eff W Event A)
    → Eff W Event A
on_reached stopped done next = done
on_reached (reached job found) done next = next job found

abbrev pub generate_sbom_subject : String
generate_sbom_subject = "sbomscanner.sbom.generate"

-- registryFromScanJob
unfoldable pub registry_from_scan_job : (String → Result Registry) → ScanJob → Result Registry
registry_from_scan_job unmarshal job =
    elim (lookup job.annotations annotation_scan_job_registry_key) [
      | none ↦ err Error.other
      | some data_text ↦ Common.◌>>=◌ (unmarshal data_text) λ registry.
          if not (registry.namespace == job.namespace) || not (registry.name == job.spec.registry)
          then err Error.other
          else ok registry
    ]

abbrev pub image_names : List Image → List String
image_names = map (λ image. image.name)

-- existingImageNames.Difference(discoveredImageNames), in the order that a range over it takes.
unfoldable pub obsolete_names : (S : Sets) → S.Set → S.Set → List String
obsolete_names S existing discovered =
    filter (λ n. not (S.has discovered n)) (S.unsorted_list existing)

-- The message id of one image, and the message.
unfoldable pub generate_id : ScanJob → Image → String
generate_id job image = "generateSBOM/" <> (job.uid <> ("/" <> image.name))

abbrev pub generate_message : ObjectRef → Image → Message
generate_message ref image =
    generate_sbom ref (record { name = image.name; namespace = image.namespace; uid = "" })

module _ {W : Type 0} (ops : ConditionOps) (S : Sets) (services : CatalogServices W) where
  abbrev pub refetch : ObjectRef → Eff W Event ScanJob
  refetch ref = get_job ops services.jobs ref.name ref.namespace

  -- The body of the first RetryOnConflict.
  unfoldable pub start_job : ObjectRef → Eff W Event Started
  start_job ref = refetch ref >>= λ job.
      if not (job.uid == ref.uid)
      then fail Error.not_found
      else if job_finished ops job
      then pure already_finished
      else (clock ops services.jobs >>= λ time.
          put_status ops services.jobs (
            mark_in_progress ops time "CatalogCreationInProgress" "Catalog creation in progress"
              job)
          >>= λ stored. pure (started stored))

  -- `h.k8sClient.Create` of one image, unless an image of that name was listed.
  unfoldable pub create_missing : S.Set → Image → Eff W Event (Unit {0})
  create_missing existing image =
      if S.has existing image.name
      then pure tt
      else branch (call (services.create_image image) (λ _. image_created image ∷ []))
          (λ e. if is_already_exists e then pure tt else fail e) (λ _. acknowledge services.images)

  -- The inner loop: each image of one reference, after a look whether the job is still there.
  unfoldable pub create_images : ObjectRef → S.Set → List Image → ScanJob → Eff W Event Progress
  create_images ref existing [] job = pure (reached job [])
  create_images ref existing (image ∷ images) job =
      branch (refetch ref) (λ e. if is_not_found e then pure stopped else fail e)
        λ current.
          if not (current.uid == ref.uid)
          then pure stopped
          else (create_missing existing image
              >> (create_images ref existing images current >>= λ p. pure (joined (image ∷ []) p)))

  -- deleteObsoleteImages
  unfoldable pub delete_obsolete_images : S.Set → S.Set → String → Eff W Event (Unit {0})
  delete_obsolete_images existing discovered namespace =
      for_each (obsolete_names S existing discovered) λ n.
        call (services.delete_image n namespace) (λ _. image_deleted n namespace ∷ [])
        >> acknowledge services.images

  -- The cleanup that Handle makes behind the loop: none for a job that targets a part of the registry.
  unfoldable pub cleanup : S.Set → ScanJob → Registry → List Image → Eff W Event (Unit {0})
  cleanup existing job registry found =
      if is_empty job.spec.repositories
      then delete_obsolete_images existing (insert_all S (S.new []) (image_names found))
          registry.namespace
      else pure tt

  -- The job that the second RetryOnConflict stores.
  unfoldable pub concluded : ℕ → List Image → ScanJob → ScanJob
  concluded time found job =
      if is_empty found
      then mark_complete ops time "NoImagesToScan" "No images to process" job
      else (let marked =
            mark_in_progress ops time "SBOMGenerationInProgress" "SBOM generation in progress"
              job in
          record marked {
            status = record marked.status { images_count = length found; scanned_images_count = 0 };
          })

  -- The body of the second RetryOnConflict; `last` is the job as it was last read.
  unfoldable pub conclude_job : ObjectRef → ScanJob → List Image → Eff W Event (ScanJob × Bool)
  conclude_job ref last found = get_job ops services.jobs last.name last.namespace >>= λ job.
      if not (job.uid == ref.uid)
      then fail Error.not_found
      else (clock ops services.jobs >>= λ time.
          put_status ops services.jobs (concluded time found job) >>= λ stored.
          pure (stored, job_finished ops job))

  unfoldable pub publish_all : ObjectRef → ScanJob → List Image → Eff W Event (Unit {0})
  publish_all ref job found = for_each found λ image.
      call
        (services.publish generate_sbom_subject (generate_id job image)
          (generate_message ref image))
        (λ _.
          published generate_sbom_subject (generate_id job image) (generate_message ref image) ∷ [])

  -- From the second status update to the end of Handle.
  unfoldable pub finish :
      Retry W Event (ScanJob × Bool) → ObjectRef → ScanJob → List Image → Eff W Event (Unit {0})
  finish retry ref last found =
      branch (retry.retry (conclude_job ref last found))
        (λ e. if is_not_found e then pure tt else fail e)
        λ (stored, was_finished).
          (if was_finished then pure tt else record_scan_job_finished ops services.jobs stored)
          >> publish_all ref stored found

-- ===== src/Sboms/Handled.antt =====
-- internal/handlers/generate_sbom.go: what GenerateSBOMHandler.Handle has done where it returns no error.
use sbombastic.Common.{
  ◌≡◌, refl, ap, arith, String, true, false, not, List, [], ◌∷◌, ◌==◌, Error, ok, err, is_not_found,
  is_already_exists, some, if◌then◌else◌,
}
use sbombastic.Effects.{Run, fail, lift, call, read}
use sbombastic.Effects.Keeps.{Keeps, Keeps-pure, Keeps-fail, Keeps-read, Keeps-if, Keeps-branch}
use sbombastic.Effects.Triples.{Triple, Triple-if}
use sbombastic.Effects.Ends.{
  Ends, Ends-pure, Ends-call, Ends-both, Ends-computed, Ends-branch, Ends-try, Ends-ignored, ended,
}
use sbombastic.Job.{ScanJob, is_failed}
use Prim.Native.String.{◌++◌ as ◌<>◌}
use sbombastic.Catalog.Steps.{registry_from_scan_job}
use sbombastic.Sboms.Documents.{IsDocument, spdx-IsDocument}
use sbombastic.Registry.{
  Registry, label_is, label_managed_by_key, label_managed_by_value, label_part_of_key,
  label_part_of_value, label_workload_scan_key, label_workload_scan_value,
}
use sbombastic.Objects.{Image, scan_sbom}
use sbombastic.Sboms.{
  Sbom, WorkEvent, sbom_created, scan_requested, delivery_extended, sbom_labels, workload_label,
  ClusterServices, MachineServices,
}
use sbombastic.Sboms.Generate.{
  GenerateMessage, GenerateTools, scan_id, new_sbom, find_sbom_by_digest, get_or_generate_spdx,
  get_or_generate_sbom, create_sbom, request_scan, store_sbom, with_image, handle_job,
  handle_generate, first_sbom,
}
use sbombastic.Sboms.Acting.{acts, Acted, generate_spdx-Acted}

module _ {W : Type 0} (tools : GenerateTools) (cluster : ClusterServices W)
    (machine : MachineServices W) (m : GenerateMessage) (before : List WorkEvent) where
  -- The job that the API server answered with.
  pub IsRead : ScanJob → Type 0
  IsRead job = (w : W) × ((cluster.get_scan_job m.scan_job.name m.scan_job.namespace w).0 ≡ ok job)

  -- The SBOM for the message: of the image that the API server answered with, with the registry of the
  -- job's snapshot, a document of that image and the reference of that image as its owner.
  pub record IsNew (job : ScanJob) (sbom : Sbom) : Type 0 where
    pub image : Image
    pub registry : Registry
    pub owner : String
    pub is_read : (w : W) × ((cluster.get_image m.image.name m.image.namespace w).0 ≡ ok image)
    pub is_snapshot : registry_from_scan_job tools.unmarshal job ≡ ok registry
    pub is_owner : tools.controller_reference image ≡ ok owner
    pub is_document : IsDocument tools cluster machine image registry sbom.spdx
    pub is_sbom : sbom ≡ record {
      name = m.image.name;
      namespace = m.image.namespace;
      labels =
          (label_managed_by_key, label_managed_by_value)
          ∷ (label_part_of_key, label_part_of_value)
          ∷ (if label_is label_workload_scan_key label_workload_scan_value registry.labels
              then (label_workload_scan_key, label_workload_scan_value) ∷ []
              else []);
      metadata = image.metadata;
      spdx = sbom.spdx;
      owner = some owner;
    }

  -- The SBOM was created, or the API server answered that one of that name is there.
  pub data Stored (job : ScanJob) : List WorkEvent → Type 0 where
    was_there :
        (t : List WorkEvent) (sbom : Sbom) (e : Error) (w : W)
        → IsNew job sbom
        → (cluster.create_sbom sbom w).0 ≡ err e
        → is_already_exists e ≡ true
        → acts t ≡ before
        → Stored job t
    created :
        (t : List WorkEvent) (sbom : Sbom)
        → IsNew job sbom
        → acts t ≡ sbom_created sbom ∷ before
        → Stored job t

  spdx-Acted :
      (image : Image) (registry : Registry)
      → Keeps (Acted before) (get_or_generate_spdx tools cluster machine image registry)
  unfolding get_or_generate_spdx find_sbom_by_digest
  spdx-Acted image registry =
      Keeps-branch _ _ _
        (Keeps-branch (read (cluster.find_sboms image.metadata.digest image.namespace)) fail
          (first_sbom tools cluster machine) (Keeps-read _) Keeps-fail first-Acted)
        (λ e.
          Keeps-if (is_not_found e) _ _
            (λ h. generate_spdx-Acted machine tools.settings before image registry)
            (λ h. Keeps-fail e))
        (λ sbom. Keeps-pure _)
    where
      first-Acted :
          (found : List Sbom) → Keeps (Acted before) (first_sbom tools cluster machine found)
      first-Acted [] = Keeps-fail Error.not_found
      first-Acted (sbom ∷ _) = Keeps-pure sbom

  module _ (job : ScanJob) where
    sbom-IsNew :
        (image : Image) (registry : Registry)
        → (w : W) × ((cluster.get_image m.image.name m.image.namespace w).0 ≡ ok image)
        → registry_from_scan_job tools.unmarshal job ≡ ok registry
        → Triple
            (Acted before)
            (get_or_generate_sbom tools cluster machine m image registry)
            (Ends (λ sbom t. IsNew job sbom × Acted before t))
    unfolding get_or_generate_sbom new_sbom sbom_labels workload_label
    sbom-IsNew image registry is_read is_snapshot =
        Ends-branch
          (λ spdx t. IsDocument tools cluster machine image registry spdx × Acted before t) _ _
          (Ends-both (IsDocument tools cluster machine image registry) _ (spdx-Acted image registry)
            (spdx-IsDocument tools cluster machine image registry) (λ t q. q) (λ a t v q. (v, q)))
          λ spdx.
            Ends-branch
              (λ owner t.
                (tools.controller_reference image ≡ ok owner)
                × (IsDocument tools cluster machine image registry spdx × Acted before t))
              (lift (tools.controller_reference image)) _
              (Ends-computed (tools.controller_reference image) (λ owner t e q. (e, q)))
              λ owner. Ends-pure _ (λ t (e, (doc, q)). (
                record {
                  image = image;
                  registry = registry;
                  owner = owner;
                  is_read = is_read;
                  is_snapshot = is_snapshot;
                  is_owner = e;
                  is_document = doc;
                  is_sbom = refl;
                },
                q,
              ))

    create-Stored :
        (sbom : Sbom)
        → Triple
            (λ t. IsNew job sbom × Acted before t)
            (create_sbom tools cluster machine sbom)
            (Ends (λ a t. Stored job t))
    unfolding create_sbom acts
    create-Stored sbom =
        Ends-try (λ a t. Stored job t) (cluster.create_sbom sbom) (λ _. sbom_created sbom ∷ []) _ _
          (λ a t (new, q). Stored.created _ sbom new (ap (◌∷◌ (sbom_created sbom)) q))
          (λ e w answer.
            Ends-ignored (is_already_exists e) e
              (λ h t (new, q). Stored.was_there t sbom e w new answer h q))
          (λ a w answer. Ends-pure a (λ t q. q))

  -- Why a message is dropped: the job is gone, is another one, or has failed, or the image is gone.
  pub data Dropped : Type 0 where
    no_job :
        (e : Error) (w : W)
        → (cluster.get_scan_job m.scan_job.name m.scan_job.namespace w).0 ≡ err e
        → is_not_found e ≡ true
        → Dropped
    other_job : (job : ScanJob) → IsRead job → (job.uid == m.scan_job.uid) ≡ false → Dropped
    failed_job : (job : ScanJob) → IsRead job → is_failed tools.ops job ≡ true → Dropped
    no_image :
        (e : Error) (w : W)
        → (cluster.get_image m.image.name m.image.namespace w).0 ≡ err e
        → is_not_found e ≡ true
        → Dropped

  -- Nothing was done for one of these reasons, or a scan was requested for the message behind the SBOM,
  -- on behalf of a job with the message's UID that had not failed.
  pub data Handled : List WorkEvent → Type 0 where
    nothing : (t : List WorkEvent) → Dropped → acts t ≡ before → Handled t
    requested :
        (t u : List WorkEvent) (job : ScanJob)
        → IsRead job
        → (job.uid == m.scan_job.uid) ≡ true
        → is_failed tools.ops job ≡ false
        → Stored job u
        → acts t
          ≡ scan_requested "sbomscanner.sbom.scan"
              ("scanSBOM/" <> (job.uid <> ("/" <> m.image.name)))
              (scan_sbom m.scan_job
                (record { name = m.image.name; namespace = m.image.namespace; uid = "" }))
            ∷ acts u
        → Handled t

  module _ (job : ScanJob) (is_read : IsRead job) (same : (job.uid == m.scan_job.uid) ≡ true)
      (live : is_failed tools.ops job ≡ false) where
    request-Handled :
        Triple (Stored job) (request_scan tools cluster machine m job) (Ends (λ a t. Handled t))
    unfolding request_scan scan_id acts
    request-Handled = Ends-call _ _ (λ a t q. Handled.requested _ t job is_read same live q refl)

    store-Handled :
        (image : Image)
        → (w : W) × ((cluster.get_image m.image.name m.image.namespace w).0 ≡ ok image)
        → Triple
            (Acted before)
            (store_sbom tools cluster machine m job image)
            (Ends (λ a t. Handled t))
    unfolding store_sbom acts
    store-Handled image was_read =
        Ends-branch
          (λ registry t.
            (registry_from_scan_job tools.unmarshal job ≡ ok registry) × Acted before t)
          (lift _) _ (Ends-computed _ (λ registry t e q. (e, q)))
          λ registry. record {
            after = λ s (snapshot, q).
                (Ends-branch (λ sbom t. IsNew job sbom × Acted before t) _ _
                    (sbom-IsNew job image registry was_read snapshot)
                    λ sbom.
                      Ends-branch (λ a t. IsNew job sbom × Acted before t)
                        (call cluster.in_progress (λ _. delivery_extended ∷ [])) _
                        (Ends-call _ _ (λ a t q. q))
                        λ _.
                          Ends-branch (λ a t. Stored job t) (create_sbom tools cluster machine sbom)
                            _ (create-Stored job sbom) (λ a. request-Handled)).after
                  s q;
          }

    image-Handled :
        Triple (Acted before) (with_image tools cluster machine m job) (Ends (λ a t. Handled t))
    unfolding with_image
    image-Handled =
        Ends-try (λ image t. Acted before t) (cluster.get_image m.image.name m.image.namespace) _ _
          _ (λ image t q. q)
          (λ e w answer.
            Ends-ignored (is_not_found e) e
              (λ h t q. Handled.nothing t (Dropped.no_image e w answer h) q))
          (λ image w answer. store-Handled image (w, answer))

  job-Handled :
      (job : ScanJob)
      → IsRead job
      → Triple (Acted before) (handle_job tools cluster machine m job) (Ends (λ a t. Handled t))
  unfolding handle_job
  job-Handled job is_read =
      Triple-if (not (job.uid == m.scan_job.uid)) _ _
        (λ h.
          Ends-pure tt
            (λ t q. Handled.nothing t (Dropped.other_job job is_read (ground (arith, h))) q))
        λ same.
          Triple-if (is_failed tools.ops job) _ _
            (λ h. Ends-pure tt (λ t q. Handled.nothing t (Dropped.failed_job job is_read h) q))
            λ live. image-Handled job is_read (ground (arith, same)) live

  message-Handled :
      Triple (Acted before) (handle_generate tools cluster machine (ok m)) (Ends (λ a t. Handled t))
  unfolding handle_generate IsRead
  message-Handled =
      Ends-try (λ job t. Acted before t) (cluster.get_scan_job m.scan_job.name m.scan_job.namespace)
        _ _ _ (λ job t q. q)
        (λ e w answer.
          Ends-ignored (is_not_found e) e
            (λ h t q. Handled.nothing t (Dropped.no_job e w answer h) q))
        (λ job w answer. job-Handled job (w, answer))

-- Where the handler returns no error, one of two things holds. It has done nothing that the cluster or
-- the broker sees, and the API server has answered that the job or the image does not exist, or with a
-- job of another UID or a failed one. Or it has requested a scan, once, with the message's job and the
-- name and namespace of its image, under an id that is made of the job's UID and the image's name, on
-- behalf of a job that was read, has the message's UID and had not failed. Before that it has created
-- the SBOM, or the API server answered that it exists already: under the name and the namespace of
-- the message's image, with the metadata and the owner of the image that was read, and with the document
-- of an SBOM of the same digest, or the one that trivy wrote for the image.
pub handle_generate-Handled :
    {W : Type 0} (tools : GenerateTools) (cluster : ClusterServices W) (machine : MachineServices W)
    (m : GenerateMessage) (s : Run W WorkEvent)
    → (handle_generate tools cluster machine (ok m) s).0 ≡ ok tt
    → Handled tools cluster machine m
        (acts s.trace)
        (handle_generate tools cluster machine (ok m) s).1.trace
handle_generate-Handled tools cluster machine m s h =
    ended (message-Handled tools cluster machine m (acts s.trace)) s tt refl h

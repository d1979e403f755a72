-- ===== src/Sboms/Generate.antt =====
-- internal/handlers/generate_sbom.go: Handle, getOrGenerateSBOM and findSBOMByDigest. A message's JSON text
-- is read by the caller; SetControllerReference answers with the reference of the image.
use Prim.Native.String.{◌++◌ as ◌<>◌}
use sbombastic.Common.{
  String, not, some, List, [], ◌∷◌, ◌==◌, if◌then◌else◌, Error, Result, is_not_found,
  is_already_exists,
}
use sbombastic.Conditions.{ConditionOps}
use sbombastic.Effects.{Eff, pure, fail, lift, call, read, branch, ◌>>=◌, ◌>>◌}
use sbombastic.Job.{ScanJob, is_failed}
use sbombastic.Registry.{Registry}
use sbombastic.Objects.{Image, ObjectRef, Message, scan_sbom}
use sbombastic.Catalog.Steps.{registry_from_scan_job}
use sbombastic.Sboms.{
  Sbom, WorkEvent, sbom_created, scan_requested, delivery_extended, scan_sbom_subject, sbom_labels,
  ClusterServices, MachineServices,
}
use sbombastic.Sboms.Temporary.{TrivySettings, generate_spdx}

pub record GenerateMessage : Type 0 where
  pub scan_job : ObjectRef
  pub image : ObjectRef

unfoldable pub scan_id : ScanJob → String → String
scan_id job name = "scanSBOM/" <> (job.uid <> ("/" <> name))

abbrev pub scan_message : GenerateMessage → Message
scan_message m =
    scan_sbom m.scan_job (record { name = m.image.name; namespace = m.image.namespace; uid = "" })

unfoldable pub new_sbom : GenerateMessage → Image → Registry → String → String → Sbom
unfolding sbom_labels
new_sbom m image registry spdx owner = record {
  name = m.image.name;
  namespace = m.image.namespace;
  labels = sbom_labels registry;
  metadata = image.metadata;
  spdx = spdx;
  owner = some owner;
}

-- What the handler is given besides the services.
pub record GenerateTools : Type 0 where
  pub ops : ConditionOps
  pub unmarshal : String → Result Registry
  pub controller_reference : Image → Result String
  pub settings : TrivySettings

module _ {W : Type 0} (tools : GenerateTools) (cluster : ClusterServices W)
    (machine : MachineServices W) where
  abbrev pub Code : Type 0 → Type 0
  Code = Eff W WorkEvent

  abbrev pub first_sbom : List Sbom → Code Sbom
  first_sbom [] = fail Error.not_found
  first_sbom (sbom ∷ _) = pure sbom

  unfoldable pub find_sbom_by_digest : String → String → Code Sbom
  find_sbom_by_digest digest namespace = read (cluster.find_sboms digest namespace) >>= first_sbom

  -- The document of an SBOM with the digest, or else a new one.
  unfoldable pub get_or_generate_spdx : Image → Registry → Code String
  unfolding find_sbom_by_digest
  get_or_generate_spdx image registry =
      branch (find_sbom_by_digest image.metadata.digest image.namespace)
        (λ e.
          if is_not_found e then generate_spdx machine tools.settings image registry else fail e)
        λ existing. pure existing.spdx

  unfoldable pub get_or_generate_sbom : GenerateMessage → Image → Registry → Code Sbom
  unfolding get_or_generate_spdx
  get_or_generate_sbom m image registry = get_or_generate_spdx image registry >>= λ spdx.
      lift (tools.controller_reference image) >>= λ owner.
      pure (new_sbom m image registry spdx owner)

  -- Create, unless it is there already.
  unfoldable pub create_sbom : Sbom → Code (Unit {0})
  create_sbom sbom =
      branch (call (cluster.create_sbom sbom) (λ _. sbom_created sbom ∷ []))
        (λ e. if is_already_exists e then pure tt else fail e) pure

  unfoldable pub request_scan : GenerateMessage → ScanJob → Code (Unit {0})
  unfolding scan_id
  request_scan m job =
      call (cluster.publish scan_sbom_subject (scan_id job m.image.name) (scan_message m))
        (λ _. scan_requested scan_sbom_subject (scan_id job m.image.name) (scan_message m) ∷ [])

  -- From the registry on.
  unfoldable pub store_sbom : GenerateMessage → ScanJob → Image → Code (Unit {0})
  unfolding get_or_generate_sbom create_sbom request_scan
  store_sbom m job image = lift (registry_from_scan_job tools.unmarshal job) >>= λ registry.
      get_or_generate_sbom m image registry >>= λ sbom.
      call cluster.in_progress (λ _. delivery_extended ∷ [])
      >> (create_sbom sbom >> request_scan m job)

  unfoldable pub with_image : GenerateMessage → ScanJob → Code (Unit {0})
  unfolding store_sbom
  with_image m job =
      branch (read (cluster.get_image m.image.name m.image.namespace))
        (λ e. if is_not_found e then pure tt else fail e) (store_sbom m job)

  unfoldable pub handle_job : GenerateMessage → ScanJob → Code (Unit {0})
  unfolding with_image
  handle_job m job =
      if not (job.uid == m.scan_job.uid)
      then pure tt
      else if is_failed tools.ops job
      then pure tt
      else with_image m job

  unfoldable pub handle_generate : Result GenerateMessage → Code (Unit {0})
  unfolding handle_job
  handle_generate message = lift message >>= λ m.
      branch (read (cluster.get_scan_job m.scan_job.name m.scan_job.namespace))
        (λ e. if is_not_found e then pure tt else fail e) (handle_job m)

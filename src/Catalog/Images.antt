-- ===== src/Catalog/Images.antt =====
-- From an image reference to Image objects: imageDetailsToImage, singleArchRefToImages,
-- multiArchRefToImages and refToImages. The registry client (internal/handlers/registry/client.go),
-- SHA-256, base64 and controllerutil.SetControllerReference are the parameters.
pub mod Layers
pub mod Origin
use sbombastic.Common.{
  ℕ, suc, ◌+◌, String, Bool, true, false, not, Option, none, some, List, [], ◌∷◌, ◌++◌,
  if◌then◌else◌, ltb, length, get_elem?, GoMap, Error, Result, ok, err, panic,
}
use Prim.Native.String.{◌++◌ as ◌<>◌}
use sbombastic.Common
use sbombastic.Effects.{Eff, pure, fail, lift, call, read, branch, ◌>>=◌, ◌>>◌}
use sbombastic.Registry.{
  Registry, Platform, label_is, label_managed_by_key, label_managed_by_value, label_part_of_key,
  label_part_of_value, label_workload_scan_key, label_workload_scan_value,
}
use sbombastic.Filters.{is_platform_allowed}
use sbombastic.Objects.{ImageLayer, Image, Event, extended}

-- What name.Reference of go-containerregistry answers.
pub record Reference : Type 0 where
  pub name : String
  pub context_name : String
  pub registry_str : String
  pub repository_str : String
  pub identifier : String

-- cranev1.Layer: both digests may fail to be computed.
pub record Layer : Type 0 where
  pub digest : Result String
  pub diff_id : Result String

pub record History : Type 0 where
  pub created_by : String
  pub empty_layer : Bool

pub record ImageDetails : Type 0 where
  pub digest : String
  pub layers : List Layer
  pub history : List History
  pub platform : Platform

pub record IndexEntry : Type 0 where
  pub digest : String
  pub platform : Option Platform

pub record ImageIndex : Type 0 where
  pub index_manifest : Result (List IndexEntry)
  pub digest : Result String

-- remote.Descriptor
pub record Descriptor : Type 0 where
  pub is_index : Bool
  pub image_index : Result ImageIndex

-- The registry client's answers, and the acknowledgement of the message that is being handled.
pub record ImageServices (W : Type 0) : Type 0 where
  pub get_descriptor : Reference → W → Result Descriptor × W
  pub is_container_image : Descriptor → Result Bool
  pub get_image_details : Reference → W → Result ImageDetails × W
  pub get_image_details_from_index : ImageIndex → String → Platform → W → Result ImageDetails × W
  pub in_progress : W → Result (Unit {0}) × W

-- Functions of other packages that compute a value.
pub record Encoders : Type 0 where
  pub base64 : String → String
  pub sha256_hex : String → String
  pub platform_string : Platform → String
  pub controller_reference : Registry → String → Result String

unfoldable pub compute_image_uid : Encoders → String → String → String → String → String
compute_image_uid enc registry_name name identifier digest =
    enc.sha256_hex (registry_name <> ("/" <> (name <> (":" <> (identifier <> ("@" <> digest))))))

-- The loop over details.History. The guard compares as the source does, so the index may still lie
-- outside the list: then Go panics.
unfoldable pub image_layers : Encoders → List History → List Layer → ℕ → Result (List ImageLayer)
image_layers enc [] layers layer_counter = ok []
image_layers enc (history ∷ rest) layers layer_counter =
    let skipped = image_layers enc rest layers layer_counter in
    let more = image_layers enc rest layers (suc layer_counter) in
    if history.empty_layer
    then skipped
    else if ltb (length layers) layer_counter
    then err Error.other
    else elim (get_elem? layers layer_counter) [
      | none ↦ panic
      | some layer ↦ Common.◌>>=◌ layer.digest λ digest. Common.◌>>=◌ layer.diff_id λ diff_id.
          Common.◌>>=◌ more λ ls. ok (
            record { command = enc.base64 history.created_by; digest = digest; diff_id = diff_id }
            ∷ ls)
    ]

-- The labels of an Image: those of a managed object, and the workloadscan label of its registry.
unfoldable pub image_labels : Registry → GoMap String
image_labels registry =
    let common : GoMap String =
      (label_managed_by_key, label_managed_by_value)
      ∷ (label_part_of_key, label_part_of_value)
      ∷ [] in
    if label_is label_workload_scan_key label_workload_scan_value registry.labels
    then common ++ (label_workload_scan_key, label_workload_scan_value) ∷ []
    else common

unfoldable pub image_details_to_image :
    Encoders → Reference → ImageDetails → Registry → String → Result Image
image_details_to_image enc ref details registry index_digest =
    Common.◌>>=◌ (image_layers enc details.history details.layers 0) λ layers.
      let name =
        compute_image_uid enc registry.name ref.context_name ref.identifier details.digest in
      Common.◌>>=◌ (enc.controller_reference registry name) λ owner. ok (record {
        name = name;
        namespace = registry.namespace;
        labels = image_labels registry;
        metadata = record {
          registry = registry.name;
          registry_uri = ref.registry_str;
          repository = ref.repository_str;
          tag = ref.identifier;
          platform = enc.platform_string details.platform;
          digest = details.digest;
          index_digest = index_digest;
        };
        layers = layers;
        owner = some owner;
      })

-- errors.Is
abbrev pub is_not_container_image : Error → Bool
is_not_container_image Error.not_container_image = true
is_not_container_image _ = false

abbrev pub is_no_platform : Error → Bool
is_no_platform Error.no_platform = true
is_no_platform _ = false

unfoldable pub allowed : Registry → Platform → Bool
allowed registry p = is_platform_allowed p.os p.architecture p.variant registry.spec.platforms

-- message.InProgress()
abbrev pub acknowledge : {W : Type 0} → ImageServices W → Eff W Event (Unit {0})
acknowledge services = call services.in_progress (λ _. extended ∷ [])

module _ {W : Type 0} (services : ImageServices W) (enc : Encoders) where
  unfoldable pub single_arch_ref_to_images : Reference → Registry → Eff W Event (List Image)
  single_arch_ref_to_images ref registry =
      branch (read (services.get_image_details ref))
        (λ e.
          if is_not_container_image e
          then pure []
          else if is_no_platform e
          then pure []
          else fail e)
        λ details.
          if allowed registry details.platform
          then (lift (image_details_to_image enc ref details registry "") >>= λ image.
              acknowledge services >> pure (image ∷ []))
          else pure []

  -- The loop over the manifests of the index.
  unfoldable pub index_entries :
      Reference → Registry → ImageIndex → String → List IndexEntry → Eff W Event (List Image)
  index_entries ref registry index index_digest [] = pure []
  index_entries ref registry index index_digest (m ∷ ms) =
      let rest = index_entries ref registry index index_digest ms in
      elim m.platform [
        | none ↦ rest
        | some platform ↦
            if allowed registry platform
            then branch (read (services.get_image_details_from_index index m.digest platform))
                (λ e. if is_not_container_image e then rest else fail e)
                (λ details.
                  lift (image_details_to_image enc ref details registry index_digest) >>= λ image.
                  acknowledge services >> (rest >>= λ images. pure (image ∷ images)))
            else rest
      ]

  unfoldable pub multi_arch_ref_to_images :
      Reference → Registry → Descriptor → Eff W Event (List Image)
  multi_arch_ref_to_images ref registry desc = lift desc.image_index >>= λ index.
      lift index.index_manifest >>= λ manifests.
      lift index.digest >>= λ index_digest. index_entries ref registry index index_digest manifests

  unfoldable pub ref_to_images : Reference → Registry → Eff W Event (List Image)
  ref_to_images ref registry = read (services.get_descriptor ref) >>= λ desc.
      lift (services.is_container_image desc) >>= λ is_container_image.
      if is_container_image
      then (if desc.is_index
          then multi_arch_ref_to_images ref registry desc
          else single_arch_ref_to_images ref registry)
      else pure []

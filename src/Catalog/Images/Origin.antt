-- ===== src/Catalog/Images/Origin.antt =====
-- What refToImages answers: where its images come from and what they are named.
use sbombastic.Common.{
  String, ◌≡◌, refl, Bool, true, false, Option, none, some, List, [], ◌∷◌, All, Option-cases, inl,
  inr, if◌then◌else◌, Error, Result, ok, err, panic, arith,
}
use mathlib.Core.Path.{subst}
use sbombastic.Common
use sbombastic.Effects.{Run, Eff, pure, fail, lift, branch}
use sbombastic.Effects.Yields.{
  Yields, Yields-pure, Yields-fail, Yields-if, Yields-branch, Yields-branch_with, Yields-lift,
}
use sbombastic.Registry.{Registry}
use sbombastic.Objects.{ImageLayer, Image, Event}
use sbombastic.Catalog.Images.{
  Reference, ImageDetails, IndexEntry, ImageIndex, ImageServices, Encoders, compute_image_uid,
  image_layers, image_labels, image_details_to_image, single_arch_ref_to_images, index_entries,
  multi_arch_ref_to_images, ref_to_images,
}

-- The image belongs to the registry and the reference, and its name is that of its own digest.
abbrev pub ComesFrom : Encoders → Registry → Reference → Image → Type 0
ComesFrom enc registry ref image =
    (image.namespace ≡ registry.namespace)
    × ((image.metadata.registry ≡ registry.name)
        × ((image.metadata.registry_uri ≡ ref.registry_str)
            × ((image.metadata.repository ≡ ref.repository_str)
                × ((image.metadata.tag ≡ ref.identifier)
                    × (image.name
                        ≡ compute_image_uid enc registry.name ref.context_name ref.identifier
                            image.metadata.digest)))))

module _ (enc : Encoders) (registry : Registry) (ref : Reference) where
  details-ComesFrom :
      (details : ImageDetails) (d : String) (image : Image)
      → image_details_to_image enc ref details registry d ≡ ok image
      → ComesFrom enc registry ref image
  unfolding image_details_to_image
  details-ComesFrom details d image h = go (image_layers enc details.history details.layers 0) h
    where
      uid : String
      uid = compute_image_uid enc registry.name ref.context_name ref.identifier details.digest

      built : List ImageLayer → String → Image
      built layers owner = record {
        name = uid;
        namespace = registry.namespace;
        labels = image_labels registry;
        metadata = record {
          registry = registry.name;
          registry_uri = ref.registry_str;
          repository = ref.repository_str;
          tag = ref.identifier;
          platform = enc.platform_string details.platform;
          digest = details.digest;
          index_digest = d;
        };
        layers = layers;
        owner = some owner;
      }

      owned :
          (layers : List ImageLayer) (r : Result String)
          → Common.◌>>=◌ r (λ owner. ok (built layers owner)) ≡ ok image
          → ComesFrom enc registry ref image
      owned layers (ok owner) h =
          let same : built layers owner ≡ image = cc in
          subst (ComesFrom enc registry ref) same (refl, (refl, (refl, (refl, (refl, refl)))))
      owned layers (err e) h = cc
      owned layers panic h = cc

      go :
          (r : Result (List ImageLayer))
          → Common.◌>>=◌ r (λ layers.
            Common.◌>>=◌ (enc.controller_reference registry uid) λ owner. ok (built layers owner))
            ≡ ok image
          → ComesFrom enc registry ref image
      go (ok layers) h = owned layers (enc.controller_reference registry uid) h
      go (err e) h = cc
      go panic h = cc

  module _ {W : Type 0} (services : ImageServices W) where
    abbrev Ours : List Image → Type 0
    Ours = All (ComesFrom enc registry ref)

    -- An image that was made, and what follows it.
    made-Yields :
        (details : ImageDetails) (d : String) (next : Image → Eff W Event (List Image))
        → ((image : Image) → ComesFrom enc registry ref image → Yields Ours (next image))
        → Yields Ours (branch (lift (image_details_to_image enc ref details registry d)) fail next)
    made-Yields details d next k =
        Yields-branch_with (lift (image_details_to_image enc ref details registry d)) fail next
          (Yields-lift _) Yields-fail λ image h. k image (details-ComesFrom details d image h)

    cons-Yields :
        (image : Image) (rest : Eff W Event (List Image))
        → ComesFrom enc registry ref image
        → Yields Ours rest
        → Yields Ours (branch rest fail (λ images. pure (image ∷ images)))
    cons-Yields image rest h k =
        Yields-branch_with rest fail (λ images. pure (image ∷ images)) k Yields-fail
          λ images all. Yields-pure (image ∷ images) (h, all)

    none-Yields : Yields {W = W} {E = Event} Ours (pure [])
    none-Yields = Yields-pure [] tt

    one-Yields :
        (image : Image)
        → ComesFrom enc registry ref image
        → Yields {W = W} {E = Event} Ours (pure (image ∷ []))
    one-Yields image h = Yields-pure (image ∷ []) (h, tt)

    single_arch-Yields : Yields Ours (single_arch_ref_to_images services enc ref registry)
    unfolding single_arch_ref_to_images
    single_arch-Yields =
        search (Yields-if, Yields-fail, none-Yields, one-Yields, made-Yields, Yields-branch) depth
          12

    index_entries-Yields :
        (index : ImageIndex) (d : String) (ms : List IndexEntry)
        → Yields Ours (index_entries services enc ref registry index d ms)
    unfolding index_entries
    index_entries-Yields index d [] = none-Yields
    index_entries-Yields index d (m ∷ ms) =
        let rest = index_entries-Yields index d ms in
        elim (Option-cases m.platform) [
          | inl e ↦ rw e rest
          | inr (p, e) ↦
              rw e
                (search (Yields-if, Yields-fail, made-Yields, cons-Yields, Yields-branch) depth 12)
        ]

    ref_to_images-Yields : Yields Ours (ref_to_images services enc ref registry)
    unfolding ref_to_images multi_arch_ref_to_images
    ref_to_images-Yields =
        search
          (
            Yields-if, Yields-fail, none-Yields, single_arch-Yields, index_entries-Yields,
            Yields-branch,
          )
          depth 12

-- Each image that refToImages returns lies in the namespace of the registry, carries the registry's
-- name and the reference's registry, repository and identifier, and has the name that
-- computeImageUID makes of these and of its own digest.
ref_to_images-ComesFrom :
    {W : Type 0} (services : ImageServices W) (enc : Encoders) (ref : Reference)
    (registry : Registry) (s : Run W Event) (images : List Image)
    → (ref_to_images services enc ref registry s).0 ≡ ok images
    → All (ComesFrom enc registry ref) images
ref_to_images-ComesFrom services enc ref registry s images =
    (ref_to_images-Yields enc registry ref services).yield s images

-- ===== src/Tests/CatalogRuns.antt =====
-- CreateCatalogHandler on the small cluster.
use sbombastic.Common.{
  ◌≡◌, refl, false, not, ◌&&◌, ◌||◌, inl, some, List, [], ◌∷◌, All, any, contains, is_empty, ok,
  panic,
}
use sbombastic.Effects.{Run, for_each}
use sbombastic.Common.{lookup}
use sbombastic.Registry.{label_is}
use sbombastic.Filters.{is_platform_allowed}
use sbombastic.Objects.{Image, Event}
use sbombastic.Sets.{insert_all}
use sbombastic.Catalog.Images.{
  image_layers, ref_to_images, compute_image_uid, single_arch_ref_to_images, allowed,
  image_details_to_image, image_labels,
}
use sbombastic.Catalog.Images.Layers.{image_layers-paired}
use sbombastic.Catalog.Steps.{cleanup, image_names, delete_obsolete_images, obsolete_names}
use sbombastic.Catalog.Steps.Cleanup.{cleanup-any, is_deletion}
use sbombastic.Catalog.Handler.{handle}
use sbombastic.Catalog.Handler.Identity.{handle-IsFor, IsFor}
use sbombastic.Catalog.Handler.Skips.{handle_skips}
use sbombastic.Tests.ListConditions.{list_conditions}
use sbombastic.Tests.ListSets.{list_sets, add, dedupe}
use sbombastic.Tests.RegistryRuns.{registry_of}
use sbombastic.Tests.Cluster.{
  World, stage, made_by, cluster_images, plain_encoders, app_latest, cluster, environment, job_ref,
  annotated, start,
}

-- Two entries with a layer, one of them without one in the list: the loop runs out of layers.
image_layers-paired_example :
    image_layers plain_encoders (made_by "COPY" false ∷ made_by "RUN" false ∷ []) (stage ∷ []) 0
    ≡ panic
image_layers-paired_example =
    image_layers-paired plain_encoders (made_by "COPY" false ∷ made_by "RUN" false ∷ [])
      (stage ∷ []) ((refl, refl), tt)

handle-IsFor_example : All (IsFor job_ref) (handle environment (ok job_ref) start).1.trace
handle-IsFor_example = handle-IsFor environment job_ref start tt

abbrev gone : Run World Event
gone = record { world = some (record annotated { uid = "u-2" }); trace = [] }

handle_skips_example : handle environment (ok job_ref) gone ≡ (ok tt, gone)
handle_skips_example =
    handle_skips environment job_ref gone (ok (record annotated { uid = "u-2" }))
      (some (record annotated { uid = "u-2" })) refl (inl refl)

abbrev listed : list_sets.Set
listed = list_sets.new ("old" ∷ [])

cleaned :
    (cleanup list_conditions list_sets cluster listed annotated (registry_of []) [] start).0 ≡ ok tt
unfolding cleanup delete_obsolete_images obsolete_names for_each insert_all add dedupe
cleaned = refl

cleanup-any_example :
    any
      (is_deletion "default" "old")
      (cleanup list_conditions list_sets cluster listed annotated (registry_of []) [] start).1.trace
    ≡ ((is_empty annotated.spec.repositories
          && (list_sets.has listed "old" && not (contains (image_names []) "old")))
        || any (is_deletion "default" "old") start.trace)
cleanup-any_example =
    cleanup-any list_conditions list_sets cluster listed annotated (registry_of []) [] "old" start
      cleaned

abbrev app_image : List Image
app_image =
    record {
      name = "hub/hub.example/app:v1@sha256:i";
      namespace = "default";
      labels =
          ("app.kubernetes.io/managed-by", "sbomscanner")
          ∷ ("app.kubernetes.io/part-of", "sbomscanner")
          ∷ [];
      metadata = record {
        registry = "hub";
        registry_uri = "hub.example";
        repository = "app";
        tag = "v1";
        platform = "linux";
        digest = "sha256:i";
        index_digest = "";
      };
      layers = record { command = "COPY"; digest = "sha256:l"; diff_id = "sha256:d" } ∷ [];
      owner = some "hub";
    }
    ∷ []

one_found :
    (ref_to_images cluster_images plain_encoders app_latest (registry_of []) start).0 ≡ ok app_image
unfolding ref_to_images single_arch_ref_to_images allowed is_platform_allowed image_details_to_image
    image_layers image_labels label_is lookup compute_image_uid
one_found = refl

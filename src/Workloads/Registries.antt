-- ===== src/Workloads/Registries.antt =====
-- internal/controller/workloadscan_controller_registry.go: the images of the pods by registry
-- and repository, and what a Registry becomes. Parameters: name.ParseReference, SHA-256 in hexadecimal, uuid.New, JSON and slices.Sort.
use Prim.Native.String.{◌++◌ as ◌<>◌}
use sbombastic.Common.{
  ℕ, String, Bool, Option, none, some, List, [], ◌∷◌, ◌++◌, map, ◌==◌, if◌then◌else◌, GoMap, lookup,
  assign, Result, ok,
}
use sbombastic.Sets.{Sets, insert_all}
use sbombastic.Job.{ScanJobRepository}
use sbombastic.Registry.{
  Registry, Repository, Platform, CaBundleSource, match_operator_or, label_managed_by_key,
  label_managed_by_value, label_workload_scan_key, label_workload_scan_value,
}
use sbombastic.Catalog.Images.{Reference}
use sbombastic.Rescans.{RescanRequest}
use sbombastic.Workloads.{
  ConditionKey, KeySets, RepositoryTags, tag_name, tag_expression, build_needed_match_conditions,
  NameSorts, sort_repositories, new_condition,
}

pub record Container : Type 0 where
  pub name : String
  pub image : String

-- The part of a pod that is read.
pub record Pod : Type 0 where
  pub init_containers : List Container
  pub containers : List Container

-- The fields of WorkloadScanConfigurationSpec that are read here.
pub record WorkloadConfig : Type 0 where
  pub artifacts_namespace : String
  pub scan_interval : Option ℕ
  pub scan_on_change : Bool
  pub auth_secret : String
  pub ca_bundle : String
  pub ca_bundle_ref : Option CaBundleSource
  pub insecure : Bool
  pub platforms : List Platform

-- The packages that are called.
pub record WorkloadTools : Type 1 where
  pub sets : Sets
  pub keys : KeySets
  pub sorts : NameSorts
  pub quoted : String → String
  pub parse_reference : String → Result Reference
  pub hex_sha256 : String → String
  pub sort_strings : List String → List String
  pub marshal : RescanRequest → Result String

unfoldable pub extract_images_from_pod_spec : Pod → List String
extract_images_from_pod_spec pod =
    map (λ c. c.image) pod.init_containers ++ map (λ c. c.image) pod.containers

module _ (tools : WorkloadTools) where
  abbrev pub Tags : Type 0
  Tags = RepositoryTags tools.sets

  unfoldable pub compute_registry_name : String → String
  compute_registry_name uri = "workloadscan-" <> tools.hex_sha256 uri

  unfoldable pub insert_pods : List Pod → tools.sets.Set → tools.sets.Set
  insert_pods [] images = images
  insert_pods (pod ∷ pods) images =
      insert_pods pods (insert_all tools.sets images (extract_images_from_pod_spec pod))

  -- `m[key]` of a map of maps or of sets, which is the empty one where the key is missing.
  unfoldable pub tags_of : GoMap Tags → String → Tags
  tags_of registries uri = elim (lookup registries uri) [ none ↦ [] | some tags ↦ tags ]

  unfoldable pub tag_set : Tags → String → tools.sets.Set
  tag_set tags repository = elim (lookup tags repository) [ none ↦ tools.sets.new [] | some s ↦ s ]

  unfoldable pub group_image : GoMap Tags → Reference → GoMap Tags
  unfolding tags_of tag_set
  group_image registries reference =
      let tags = tags_of registries reference.registry_str in
      assign registries reference.registry_str (
        assign tags reference.repository_str
          (tools.sets.insert (tag_set tags reference.repository_str) reference.identifier))

  unfoldable pub group_parsed : GoMap Tags → Result Reference → GoMap Tags
  unfolding group_image
  group_parsed registries (ok reference) = group_image registries reference
  group_parsed registries _ = registries

  -- The loop over the images: one that is empty or cannot be parsed is skipped.
  unfoldable pub group_images : List String → GoMap Tags → GoMap Tags
  unfolding group_parsed
  group_images [] registries = registries
  group_images (image ∷ images) registries =
      group_images images
        (if image == "" then registries else group_parsed registries (tools.parse_reference image))

  unfoldable pub needed_conditions : Tags → tools.keys.Set
  needed_conditions tags = build_needed_match_conditions tools.sets tools.keys tools.quoted tags

  unfoldable pub group_conditions : List ConditionKey → GoMap tools.sets.Set → GoMap tools.sets.Set
  unfolding tag_set
  group_conditions [] by_repo = by_repo
  group_conditions (key ∷ keys) by_repo =
      group_conditions keys (
        assign by_repo key.repository (tools.sets.insert (tag_set by_repo key.repository) key.name))

  unfoldable pub build_rescan_request : tools.keys.Set → RescanRequest
  unfolding group_conditions tag_set
  build_rescan_request added =
      let by_repo = group_conditions (tools.keys.unsorted_list added) [] in
      record {
        repositories =
            map {B = ScanJobRepository}
              (λ name. record {
                name = name;
                match_conditions =
                    tools.sort_strings (tools.sets.unsorted_list (tag_set by_repo name));
              })
              (tools.sort_strings (map (λ entry. entry.0) by_repo));
      }

  -- The registry with the new repositories and what it takes from the configuration.
  unfoldable pub configured : WorkloadConfig → List Repository → Registry → Registry
  configured config repositories registry = record registry {
    spec = record registry.spec {
      repositories = repositories;
      auth_secret = config.auth_secret;
      ca_bundle = config.ca_bundle;
      ca_bundle_ref = config.ca_bundle_ref;
      insecure = config.insecure;
      scan_interval = config.scan_interval;
      platforms = config.platforms;
    };
  }

  abbrev pub tag_key : String → String → ConditionKey
  tag_key repository tag = record {
    repository = repository;
    name = tag_name tag;
    expression = tag_expression tools.quoted tag;
  }

  unfoldable pub created_repository : String → String → tools.sets.Set → Repository
  created_repository namespace repository tag_names = record {
    name = repository;
    match_conditions =
        map (λ tag. new_condition namespace (tag_key repository tag))
          (tools.sets.unsorted_list tag_names);
    match_operator = match_operator_or;
  }

  unfoldable pub created_repositories : String → Tags → List Repository
  unfolding created_repository
  created_repositories namespace tags =
      sort_repositories tools.sorts (map (λ e. created_repository namespace (e.0) (e.1)) tags)

  unfoldable pub created_registry : String → String → String → Tags → WorkloadConfig → Registry
  unfolding created_repositories compute_registry_name
  created_registry uri namespace registry_namespace tags config = record {
    name = compute_registry_name uri;
    namespace = registry_namespace;
    annotations = [];
    labels =
        (label_managed_by_key, label_managed_by_value)
        ∷ (label_workload_scan_key, label_workload_scan_value)
        ∷ [];
    spec = record {
      uri = uri;
      catalog_type = "";
      repositories = created_repositories namespace tags;
      auth_secret = config.auth_secret;
      scan_interval = config.scan_interval;
      ca_bundle = config.ca_bundle;
      ca_bundle_ref = config.ca_bundle_ref;
      insecure = config.insecure;
      platforms = config.platforms;
    };
  }

-- ===== src/Workloads/Reconcile.antt =====
-- internal/controller/workloadscan_controller_registry.go: reconcileRegistries and what it calls. The API
-- server and uuid.New are parameters.
use Prim.Native.String.{◌++◌ as ◌<>◌}
use sbombastic.Common.{
  String, Bool, true, false, not, ◌&&◌, List, [], ◌∷◌, ◌==◌, if◌then◌else◌, is_empty, GoMap, assign,
  Result, is_not_found,
}
use sbombastic.Effects.{Eff, pure, fail, lift, call, read, branch, ◌>>=◌, ◌>>◌}
use sbombastic.Registry.{Registry, Repository}
use sbombastic.Rescans.{RescanRequest, annotation_rescan_requested_key_prefix}
use sbombastic.Workloads.{extract_conditions, updated_repositories, sort_repositories}
use sbombastic.Workloads.Registries.{
  Pod, WorkloadConfig, WorkloadTools, Tags, insert_pods, tags_of, group_images, needed_conditions,
  build_rescan_request, configured, created_registry,
}

pub data RegistryEvent : Type 0 where
  registry_created registry_updated : Registry → RegistryEvent
  registry_deleted : String → String → RegistryEvent

-- List answers with the registries of a namespace that carry the two labels of the workload scan.
pub record RegistryClient (W : Type 0) : Type 0 where
  pub list_registries : String → W → Result (List Registry) × W
  pub create_registry : Registry → W → Result (Unit {0}) × W
  pub update_registry : Registry → W → Result (Unit {0}) × W
  pub delete_registry : String → String → W → Result (Unit {0}) × W
  pub new_uuid : W → Result String × W

abbrev pub annotated : Registry → String → String → Registry
annotated registry uuid json = record registry {
  annotations = assign registry.annotations (annotation_rescan_requested_key_prefix <> uuid) json;
}

module _ {W : Type 0} (tools : WorkloadTools) (client : RegistryClient W)
    (config : WorkloadConfig) where
  abbrev Code : Type 0 → Type 0
  Code = Eff W RegistryEvent

  -- The annotation for a request: its JSON text under a fresh key.
  unfoldable pub request_rescan : RescanRequest → Registry → Code Registry
  request_rescan request registry = lift (tools.marshal request) >>= λ json.
      read client.new_uuid >>= λ uuid. pure (annotated registry uuid json)

  -- The conditions that the new registry has and the old one had not.
  unfoldable pub added_conditions : Registry → Registry → tools.keys.Set
  added_conditions old new =
      tools.keys.difference (extract_conditions tools.keys new.spec.repositories tools.keys.empty)
        (extract_conditions tools.keys old.spec.repositories tools.keys.empty)

  unfoldable pub asks_for_rescan : Registry → Registry → Bool
  unfolding added_conditions
  asks_for_rescan old new =
      config.scan_on_change && not (is_empty (tools.keys.unsorted_list (added_conditions old new)))

  abbrev pub requested : Bool → RescanRequest → Registry → Code Registry
  requested asks request registry = if asks then request_rescan request registry else pure registry

  -- The rest of updateRegistry, once the new repositories are known and are not empty.
  unfoldable pub write_registry : Registry → Registry → Code Bool
  unfolding request_rescan asks_for_rescan
  write_registry old new =
      requested (asks_for_rescan old new) (build_rescan_request tools (added_conditions old new))
        new
      >>= λ final.
          call (client.update_registry final) (λ _. registry_updated final ∷ []) >> pure false

  unfoldable pub put_registry : Registry → List Repository → Code Bool
  unfolding configured write_registry
  put_registry registry updated =
      if is_empty updated
      then pure true
      else write_registry registry
          (configured tools config (sort_repositories tools.sorts updated) registry)

  unfoldable pub update_registry : String → Tags tools → Registry → Code Bool
  unfolding put_registry needed_conditions updated_repositories
  update_registry namespace tags registry = put_registry registry (
      updated_repositories tools.keys (needed_conditions tools tags) namespace
        registry.spec.repositories)

  unfoldable pub create_registry : String → String → String → Tags tools → Code (Unit {0})
  unfolding created_registry request_rescan
  create_registry uri namespace registry_namespace tags =
      let registry = created_registry tools uri namespace registry_namespace tags config in
      requested config.scan_on_change (record { repositories = [] }) registry >>= λ final.
      call (client.create_registry final) (λ _. registry_created final ∷ [])

  unfoldable pub delete_registry : Registry → Code (Unit {0})
  delete_registry registry =
      branch
        (call (client.delete_registry registry.name registry.namespace)
          (λ _. registry_deleted registry.name registry.namespace ∷ []))
        (λ e. if is_not_found e then pure tt else fail e) pure

  -- The loop over the registries that exist, with the URIs it has met.
  unfoldable pub update_existing :
      String → GoMap (Tags tools) → List Registry → tools.sets.Set → Code tools.sets.Set
  unfolding update_registry delete_registry tags_of
  update_existing namespace by_uri [] processed = pure processed
  update_existing namespace by_uri (registry ∷ registries) processed =
      update_registry namespace (tags_of tools by_uri registry.spec.uri) registry
      >>= λ should_delete.
          (if should_delete then delete_registry registry else pure tt)
          >> update_existing namespace by_uri registries
              (tools.sets.insert processed registry.spec.uri)

  unfoldable pub create_missing :
      String → String → tools.sets.Set → GoMap (Tags tools) → Code (Unit {0})
  unfolding create_registry
  create_missing namespace registry_namespace processed [] = pure tt
  create_missing namespace registry_namespace processed ((uri, tags) ∷ by_uri) =
      if tools.sets.has processed uri
      then create_missing namespace registry_namespace processed by_uri
      else (create_registry uri namespace registry_namespace tags
          >> create_missing namespace registry_namespace processed by_uri)

  -- Where the registries of a namespace are kept.
  unfoldable pub registry_namespace_of : String → String
  registry_namespace_of namespace =
      if not (config.artifacts_namespace == "") then config.artifacts_namespace else namespace

  unfoldable pub registries_by_uri : List Pod → GoMap (Tags tools)
  registries_by_uri pods =
      group_images tools (tools.sets.unsorted_list (insert_pods tools pods (tools.sets.new []))) []

  unfoldable pub reconcile_registries : String → List Pod → Code (Unit {0})
  unfolding update_existing create_missing registry_namespace_of registries_by_uri
  reconcile_registries namespace pods =
      let by_uri = registries_by_uri pods in
      let kept_in = registry_namespace_of namespace in
      read (client.list_registries kept_in) >>= λ existing.
      update_existing namespace by_uri existing (tools.sets.new []) >>= λ processed.
      create_missing namespace kept_in processed by_uri

-- ===== src/Workloads/Managed.antt =====
-- internal/controller/workloadscan_controller_registry.go: what reconcileRegistries does to Registries,
-- whatever the API server answers.
use Prim.Native.String.{◌++◌ as ◌<>◌}
use mathlib.Core.Path.{subst}
use sbombastic.Common.{
  ◌≡◌, refl, ◌∙◌, String, Bool, true, false, some, List, [], ◌∷◌, GoMap, lookup, HasKeysOnce,
  entries-lookup, eq_refl, All, is_empty, is_not_found,
}
use sbombastic.Effects.{Eff, pure, fail, lift, call, read, branch}
use sbombastic.Effects.Keeps.{
  Keeps-lift_then, Keeps-read_then, Keeps, Keeps-pure, Keeps-fail, Keeps-read, Keeps-call, Keeps-if,
  Keeps-branch, Keeps-branch_with,
}
use sbombastic.Effects.Yields.{Yields, Yields-pure, Yields-fail, Yields-branch, Yields-if}
use sbombastic.Registry.{Registry, Repository, is_managed_by_workload_scan, label_is}
use sbombastic.Rescans.{RescanRequest}
use sbombastic.Workloads.{
  ConditionKey, namespace_label, namespace_prefix, updated_repositories, sort_repositories,
}
use sbombastic.Workloads.Wanted.{wanted, updated_repositories-wanted}
use sbombastic.Workloads.Needed.{created-wanted, group_images-HasKeysOnce}
use sbombastic.Workloads.Registries.{
  Pod, WorkloadConfig, WorkloadTools, Tags, tags_of, needed_conditions, configured,
  build_rescan_request, created_registry,
}
use sbombastic.Workloads.Grouped.{run_by, registries_by_uri-run_by}
use sbombastic.Workloads.Reconcile.{
  RegistryEvent, registry_created, registry_updated, registry_deleted, annotated, RegistryClient,
  request_rescan, put_registry, update_registry, create_registry, write_registry, requested,
  asks_for_rescan, added_conditions, delete_registry, update_existing, create_missing,
  registry_namespace_of, registries_by_uri, reconcile_registries,
}

-- Managed by the workload controller, in the namespace.
abbrev pub IsListed : String → Registry → Type 0
IsListed kept_in r = (is_managed_by_workload_scan r ≡ true) × (r.namespace ≡ kept_in)

module _ (tools : WorkloadTools) (namespace kept_in : String) (pods : List Pod) where
  -- A registry that the controller may store: its conditions with the label of the namespace are exactly
  -- those that an image of a container of the pods asks its URI for.
  unfoldable pub Suits : Registry → Type 0
  Suits r =
      IsListed kept_in r
      × ((k : ConditionKey)
          → wanted (namespace_prefix <> namespace) r.spec.repositories k
            ≡ run_by tools pods r.spec.uri k)

  unfoldable pub IsFitting : RegistryEvent → Type 0
  unfolding Suits
  IsFitting (registry_created r) = Suits r
  IsFitting (registry_updated r) = Suits r
  IsFitting (registry_deleted name where_it_was) = where_it_was ≡ kept_in

  abbrev pub Fitting : List RegistryEvent → Type 0
  Fitting = All IsFitting

module _ {W : Type 0} (tools : WorkloadTools) (client : RegistryClient W) (config : WorkloadConfig)
    (namespace kept_in : String) (pods : List Pod) (by_uri : GoMap (Tags tools))
    (grouped : (uri : String) (k : ConditionKey)
      → tools.keys.has (needed_conditions tools (tags_of tools by_uri uri)) k
        ≡ run_by tools pods uri k) where
  abbrev Q : List RegistryEvent → Type 0
  Q = Fitting tools namespace kept_in pods

  request-Suits :
      (request : RescanRequest) (r : Registry)
      → Suits tools namespace kept_in pods r
      → Yields (Suits tools namespace kept_in pods) (request_rescan tools client config request r)
  unfolding request_rescan Suits is_managed_by_workload_scan
  request-Suits request r h =
      Yields-branch (lift (tools.marshal request)) fail _ Yields-fail (λ json.
        Yields-branch (read client.new_uuid) fail _ Yields-fail
          (λ uuid. Yields-pure (annotated r uuid json) h))

  request-Keeps :
      (request : RescanRequest) (r : Registry)
      → Keeps Q (request_rescan tools client config request r)
  unfolding request_rescan
  request-Keeps request r =
      Keeps-lift_then (tools.marshal request) _
        (λ json. Keeps-read_then client.new_uuid _ (λ uuid. Keeps-pure _))

  -- A registry with the rescan request where the configuration asks for one, and the write of it.
  store-Keeps :
      {A : Type 0} (asks : Bool) (request : RescanRequest) (r : Registry)
      (next : Registry → Eff W RegistryEvent A)
      → Suits tools namespace kept_in pods r
      → ((final : Registry) → Suits tools namespace kept_in pods final → Keeps Q (next final))
      → Keeps Q (branch (requested tools client config asks request r) fail next)
  store-Keeps asks request r next h k =
      Keeps-branch_with {R = Suits tools namespace kept_in pods} _ fail next
        (Keeps-if asks _ _ (λ e. request-Keeps request r) (λ e. Keeps-pure r))
        (Yields-if asks _ _ (λ e. request-Suits request r h) (λ e. Yields-pure r h)) Keeps-fail k

  configured-Suits :
      (r : Registry)
      → IsListed kept_in r
      → Suits tools namespace kept_in pods (
          configured tools config
            (sort_repositories tools.sorts (
              updated_repositories tools.keys
                (needed_conditions tools (tags_of tools by_uri r.spec.uri))
                namespace
                r.spec.repositories))
            r)
  unfolding Suits namespace_label configured is_managed_by_workload_scan
  configured-Suits r h =
      let needed = needed_conditions tools (tags_of tools by_uri r.spec.uri) in
      (
        h,
        λ k.
            updated_repositories-wanted tools.keys tools.sorts needed namespace
              (namespace_label namespace) r.spec.repositories k
            ∙ rw (eq_refl (namespace_label namespace)) (grouped r.spec.uri k),
      )

  write-Keeps :
      (old new : Registry)
      → Suits tools namespace kept_in pods new
      → Keeps Q (write_registry tools client config old new)
  unfolding write_registry IsFitting
  write-Keeps old new h =
      store-Keeps (asks_for_rescan tools client config old new)
        (build_rescan_request tools (added_conditions tools client config old new)) new _ h
        λ final suits.
          Keeps-branch (call (client.update_registry final) (λ _. registry_updated final ∷ [])) fail
            _ (Keeps-call _ _ (λ a t q. (suits, q))) Keeps-fail (λ _. Keeps-pure false)

  put-Keeps :
      (r : Registry) (updated : List Repository)
      → Suits tools namespace kept_in pods
          (configured tools config (sort_repositories tools.sorts updated) r)
      → Keeps Q (put_registry tools client config r updated)
  unfolding put_registry
  put-Keeps r updated h =
      Keeps-if (is_empty updated) (pure true)
        (write_registry tools client config r
          (configured tools config (sort_repositories tools.sorts updated) r))
        (λ e. Keeps-pure true) (λ e. write-Keeps r _ h)

  update-Keeps :
      (r : Registry)
      → IsListed kept_in r
      → Keeps Q (update_registry tools client config namespace (tags_of tools by_uri r.spec.uri) r)
  unfolding update_registry
  update-Keeps r h = put-Keeps r _ (configured-Suits r h)

  delete-Keeps :
      (r : Registry) → IsListed kept_in r → Keeps Q (delete_registry tools client config r)
  unfolding delete_registry IsFitting
  delete-Keeps r (m, n) =
      Keeps-branch _ _ _ (Keeps-call _ _ (λ a t q. (n, q)))
        (λ e. Keeps-if (is_not_found e) _ _ (λ f. Keeps-pure tt) (λ f. Keeps-fail e))
        (λ a. Keeps-pure a)

  existing-Keeps :
      (rs : List Registry) (processed : tools.sets.Set)
      → All (IsListed kept_in) rs
      → Keeps Q (update_existing tools client config namespace by_uri rs processed)
  unfolding update_existing
  existing-Keeps [] processed h = Keeps-pure processed
  existing-Keeps (r ∷ rs) processed (listed, h) =
      Keeps-branch _ fail _ (update-Keeps r listed) Keeps-fail λ should_delete.
        Keeps-branch _ fail _
          (Keeps-if should_delete _ _ (λ e. delete-Keeps r listed) (λ e. Keeps-pure tt)) Keeps-fail
          (λ _. existing-Keeps rs (tools.sets.insert processed r.spec.uri) h)

  tags_of-found :
      (uri : String) (tags : Tags tools)
      → lookup by_uri uri ≡ some tags
      → tags_of tools by_uri uri ≡ tags
  unfolding tags_of
  tags_of-found uri tags found = rw (tags_of, found) refl

  created-Suits :
      (uri : String) (tags : Tags tools)
      → lookup by_uri uri ≡ some tags
      → Suits tools namespace kept_in pods
          (created_registry tools uri namespace kept_in tags config)
  unfolding Suits namespace_label created_registry is_managed_by_workload_scan label_is lookup
  created-Suits uri tags found = (
    (refl, refl),
    λ k.
        created-wanted tools namespace tags k
        ∙ subst (λ t. tools.keys.has (needed_conditions tools t) k ≡ run_by tools pods uri k)
            (tags_of-found uri tags found) (grouped uri k),
  )

  missing-Keeps :
      (entries : GoMap (Tags tools)) (processed : tools.sets.Set)
      → All (λ e. lookup by_uri (e.0) ≡ some (e.1)) entries
      → Keeps Q (create_missing tools client config namespace kept_in processed entries)
  unfolding create_missing create_registry IsFitting
  missing-Keeps [] processed h = Keeps-pure tt
  missing-Keeps ((uri, tags) ∷ entries) processed (found, h) =
      Keeps-if (tools.sets.has processed uri) _ _ (λ e. missing-Keeps entries processed h)
        λ e.
          Keeps-branch _ fail _
            (store-Keeps config.scan_on_change _ _ _ (created-Suits uri tags found)
              λ final suits. Keeps-call (client.create_registry final) _ (λ a t q. (suits, q)))
            Keeps-fail (λ _. missing-Keeps entries processed h)

-- Whatever the API server answers, as long as it lists registries of the namespace and with the labels
-- that are asked for: every Registry that is created, updated or deleted lies in the namespace of the
-- configuration, or else in that of the pods; and one that is stored has both labels of the workload
-- scan, and has a condition with the label of the pods' namespace exactly where a container, init or
-- not, of one of the pods runs an image that parses as a reference to the Registry's URI, to the
-- repository of the condition, and with the tag that the name and the expression of the condition give.
pub reconcile_registries-Fitting :
    {W : Type 0} (tools : WorkloadTools) (client : RegistryClient W) (config : WorkloadConfig)
    (namespace : String) (pods : List Pod)
    → Yields (All (IsListed (registry_namespace_of tools client config namespace))) (
        read {E = RegistryEvent}
          (client.list_registries (registry_namespace_of tools client config namespace)))
    → Keeps
        (Fitting tools namespace (registry_namespace_of tools client config namespace) pods)
        (reconcile_registries tools client config namespace pods)
unfolding reconcile_registries registries_by_uri HasKeysOnce
reconcile_registries-Fitting tools client config namespace pods listed =
    let kept_in = registry_namespace_of tools client config namespace in
    let by_uri = registries_by_uri tools client config pods in
    let grouped = registries_by_uri-run_by tools client config pods in
    Keeps-branch_with _ fail _ (Keeps-read _) listed Keeps-fail λ existing h.
      Keeps-branch _ fail _
        (existing-Keeps tools client config namespace kept_in pods by_uri grouped existing
          (tools.sets.new []) h)
        Keeps-fail
        (λ processed.
          missing-Keeps tools client config namespace kept_in pods by_uri grouped by_uri processed
            (entries-lookup by_uri (group_images-HasKeysOnce tools _ [] _)))

-- ===== src/Workloads/Growing.antt =====
-- internal/controller/workloadscan_controller_registry.go: what once holds of the events of
-- reconcileRegistries, and of any longer list of events, holds to the end.
use sbombastic.Common.{String, Bool, true, false, List, [], ◌∷◌, GoMap, is_empty, is_not_found}
use sbombastic.Effects.{pure, fail, call}
use sbombastic.Effects.Keeps.{
  Keeps-lift_then, Keeps-read_then, Keeps, Keeps-pure, Keeps-fail, Keeps-call, Keeps-if,
  Keeps-branch,
}
use sbombastic.Registry.{Registry, Repository}
use sbombastic.Rescans.{RescanRequest}
use sbombastic.Workloads.{sort_repositories}
use sbombastic.Workloads.Registries.{WorkloadConfig, WorkloadTools, Tags, configured}
use sbombastic.Workloads.Reconcile.{
  RegistryEvent, registry_updated, registry_created, registry_deleted, RegistryClient,
  request_rescan, requested, write_registry, put_registry, update_registry, create_registry,
  delete_registry, update_existing, create_missing,
}

module _ {ℓ} {W : Type 0} (tools : WorkloadTools) (client : RegistryClient W)
    (config : WorkloadConfig) (Q : List RegistryEvent → Type ℓ)
    (grow : (e : RegistryEvent) (t : List RegistryEvent) → Q t → Q (e ∷ t)) where
  pub requested-Keeps :
      (asks : Bool) (request : RescanRequest) (r : Registry)
      → Keeps Q (requested tools client config asks request r)
  unfolding request_rescan
  requested-Keeps asks request r =
      Keeps-if asks _ _
        (λ e.
          Keeps-lift_then (tools.marshal request) _
            (λ json. Keeps-read_then client.new_uuid _ (λ uuid. Keeps-pure _)))
        (λ e. Keeps-pure r)

  write-Keeps : (old new : Registry) → Keeps Q (write_registry tools client config old new)
  unfolding write_registry
  write-Keeps old new = Keeps-branch _ fail _ (requested-Keeps _ _ new) Keeps-fail λ final.
      Keeps-branch (call (client.update_registry final) (λ _. registry_updated final ∷ [])) fail _
        (Keeps-call _ _ (λ a t q. grow (registry_updated final) t q)) Keeps-fail
        (λ _. Keeps-pure false)

  pub put-Keeps :
      (r : Registry) (updated : List Repository)
      → Keeps Q (put_registry tools client config r updated)
  unfolding put_registry
  put-Keeps r updated =
      Keeps-if (is_empty updated) (pure true)
        (write_registry tools client config r
          (configured tools config (sort_repositories tools.sorts updated) r))
        (λ e. Keeps-pure true) (λ e. write-Keeps r _)

  pub delete-Keeps : (r : Registry) → Keeps Q (delete_registry tools client config r)
  unfolding delete_registry
  delete-Keeps r =
      Keeps-branch _ _ _ (Keeps-call _ _ (λ a t q. grow (registry_deleted r.name r.namespace) t q))
        (λ e. Keeps-if (is_not_found e) _ _ (λ f. Keeps-pure tt) (λ f. Keeps-fail e))
        (λ a. Keeps-pure a)

  pub existing-Keeps :
      (namespace : String) (by_uri : GoMap (Tags tools)) (rs : List Registry)
      (processed : tools.sets.Set)
      → Keeps Q (update_existing tools client config namespace by_uri rs processed)
  unfolding update_existing update_registry
  existing-Keeps namespace by_uri [] processed = Keeps-pure processed
  existing-Keeps namespace by_uri (r ∷ rs) processed =
      Keeps-branch _ fail _ (put-Keeps r _) Keeps-fail λ should_delete.
        Keeps-branch _ fail _
          (Keeps-if should_delete _ _ (λ e. delete-Keeps r) (λ e. Keeps-pure tt)) Keeps-fail
          (λ _. existing-Keeps namespace by_uri rs (tools.sets.insert processed r.spec.uri))

  pub create-Keeps :
      (uri namespace kept_in : String) (tags : Tags tools)
      → Keeps Q (create_registry tools client config uri namespace kept_in tags)
  unfolding create_registry
  create-Keeps uri namespace kept_in tags =
      Keeps-branch _ fail _ (requested-Keeps config.scan_on_change _ _) Keeps-fail λ final.
        Keeps-call (client.create_registry final) _ (λ a t q. grow (registry_created final) t q)

  pub missing-Keeps :
      (namespace kept_in : String) (processed : tools.sets.Set) (entries : GoMap (Tags tools))
      → Keeps Q (create_missing tools client config namespace kept_in processed entries)
  unfolding create_missing
  missing-Keeps namespace kept_in processed [] = Keeps-pure tt
  missing-Keeps namespace kept_in processed ((uri, tags) ∷ entries) =
      Keeps-if (tools.sets.has processed uri) _ _
        (λ e. missing-Keeps namespace kept_in processed entries)
        λ e.
          Keeps-branch _ fail _ (create-Keeps uri namespace kept_in tags) Keeps-fail
            (λ _. missing-Keeps namespace kept_in processed entries)

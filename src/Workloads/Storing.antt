-- ===== src/Workloads/Storing.antt =====
-- internal/controller/workloadscan_controller_registry.go: each write of a Registry of a URI, where it
-- returns no error, stores one of that URI.
use sbombastic.Common.{
  ◌≡◌, refl, ap, arith, String, Bool, true, false, List, [], ◌∷◌, any, ◌==◌, eq_refl, is_empty,
}
use sbombastic.Effects.{pure, fail, lift, call, read}
use sbombastic.Effects.Yields.{Yields, Yields-pure, Yields-fail, Yields-branch, Yields-if}
use sbombastic.Effects.Triples.{Triple}
use sbombastic.Effects.Ends.{Ends, Ends-pure, Ends-call, Ends-branch, Ends-branch_with}
use sbombastic.Registry.{Registry, Repository}
use sbombastic.Rescans.{RescanRequest}
use sbombastic.Workloads.{ConditionKey}
use sbombastic.Workloads.Wanted.{wanted}
use sbombastic.Workloads.Registries.{WorkloadConfig, WorkloadTools, Tags, created_registry}
use sbombastic.Workloads.Reconcile.{
  RegistryEvent, registry_updated, registry_created, registry_deleted, RegistryClient, annotated,
  request_rescan, requested, write_registry, create_registry,
}

-- A Registry of the URI was created or updated.
abbrev pub stores : String → RegistryEvent → Bool
stores uri (registry_created r) = r.spec.uri == uri
stores uri (registry_updated r) = r.spec.uri == uri
stores uri (registry_deleted name namespace) = false

abbrev pub IsStored : String → List RegistryEvent → Type 0
IsStored uri t = any (stores uri) t ≡ true

pub IsStored-grows :
    (uri : String) (e : RegistryEvent) (t : List RegistryEvent)
    → IsStored uri t
    → IsStored uri (e ∷ t)
IsStored-grows uri e t h = ground (arith, h)

pub empty-unwanted :
    (label : String) (k : ConditionKey) (rs : List Repository)
    → wanted label rs k ≡ true
    → is_empty rs ≡ false
unfolding wanted
empty-unwanted label k [] h = ground arith
empty-unwanted label k (r ∷ rs) h = refl

module _ {W : Type 0} (tools : WorkloadTools) (client : RegistryClient W) (config : WorkloadConfig)
    (uri : String) where
  requested-uri :
      (asks : Bool) (request : RescanRequest) (r : Registry)
      → Yields (λ final. final.spec.uri ≡ r.spec.uri) (requested tools client config asks request r)
  unfolding request_rescan
  requested-uri asks request r =
      Yields-if asks _ _
        (λ e. Yields-branch (lift (tools.marshal request)) fail _ Yields-fail (λ json.
          Yields-branch (read client.new_uuid) fail _ Yields-fail
            (λ uuid. Yields-pure (annotated r uuid json) refl)))
        (λ e. Yields-pure r refl)

  -- The write of a Registry of the URI.
  pub write-stores :
      (old new : Registry)
      → (new.spec.uri == uri) ≡ true
      → Triple
          (λ t. Unit {0})
          (write_registry tools client config old new)
          (Ends (λ a t. IsStored uri t))
  unfolding write_registry
  write-stores old new h =
      Ends-branch_with (λ final. final.spec.uri ≡ new.spec.uri) _ _ (requested-uri _ _ new)
        λ final same.
          Ends-branch (λ a t. IsStored uri t)
            (call (client.update_registry final) (λ _. registry_updated final ∷ []))
            (λ _. pure false) (Ends-call _ _ (λ a t p. ground (arith, ap (λ x. x == uri) same)))
            (λ a. Ends-pure false (λ t p. p))

  pub create-stores :
      (namespace kept_in : String) (tags : Tags tools)
      → Triple
          (λ t. Unit {0})
          (create_registry tools client config uri namespace kept_in tags)
          (Ends (λ a t. IsStored uri t))
  unfolding create_registry created_registry
  create-stores namespace kept_in tags =
      Ends-branch_with (λ final. final.spec.uri ≡ uri) _ _ (requested-uri config.scan_on_change _ _)
        λ final same.
          Ends-call (client.create_registry final) _
            (λ a t p. ground (arith, ap (λ x. x == uri) same, eq_refl uri))

-- ===== src/Catalog/Handler/Reading.antt =====
-- What CreateCatalogHandler does to read the registry keeps every property of the trace that the
-- extension of the message's deadline keeps.
use sbombastic.Common.{String, Option, none, some, List, [], ◌∷◌, Option-cases, inl, inr}
use sbombastic.Effects.Keeps.{
  Keeps, Keeps-pure, Keeps-fail, Keeps-call, Keeps-read, Keeps-branch, keeps_rules,
}
use sbombastic.Registry.{Registry}
use sbombastic.Objects.{Event, extended}
use sbombastic.Catalog.Images.{
  ImageIndex, IndexEntry, Reference, single_arch_ref_to_images, index_entries,
  multi_arch_ref_to_images, ref_to_images, acknowledge,
}
use sbombastic.Catalog.Discovery.{
  discover_repositories, RepositoryName, references_of, discover_images, discover_all,
}
use sbombastic.Catalog.Handler.{Environment}

module _ {W : Type 0} (env : Environment W) (Q : List Event → Type 0)
    (extends : (t : List Event) → Q t → Q (extended ∷ t)) where
  acknowledge-Keeps : Keeps Q (acknowledge env.services.images)
  acknowledge-Keeps = Keeps-call _ _ (λ a t q. extends t q)

  single_arch-Keeps :
      (reference : Reference) (registry : Registry)
      → Keeps Q (single_arch_ref_to_images env.services.images env.encoders reference registry)
  unfolding single_arch_ref_to_images
  single_arch-Keeps reference registry = search (keeps_rules, acknowledge-Keeps)

  index_entries-Keeps :
      (reference : Reference) (registry : Registry) (index : ImageIndex) (d : String)
      (ms : List IndexEntry)
      → Keeps Q (index_entries env.services.images env.encoders reference registry index d ms)
  unfolding index_entries
  index_entries-Keeps reference registry index d [] = Keeps-pure []
  index_entries-Keeps reference registry index d (m ∷ ms) =
      let rest = index_entries-Keeps reference registry index d ms in
      elim (Option-cases m.platform) [
        | inl e ↦ rw e rest
        | inr (p, e) ↦ rw e (search (keeps_rules, acknowledge-Keeps) depth 12)
      ]

  pub ref_to_images-Keeps :
      (reference : Reference) (registry : Registry)
      → Keeps Q (ref_to_images env.services.images env.encoders reference registry)
  unfolding ref_to_images multi_arch_ref_to_images
  ref_to_images-Keeps reference registry =
      search (keeps_rules, single_arch-Keeps, index_entries-Keeps) depth 12

  pub discover_repositories-Keeps :
      (registry : Registry)
      → Keeps Q (discover_repositories env.sets env.names env.services.registries registry)
  unfolding discover_repositories
  discover_repositories-Keeps registry = search keeps_rules depth 12

  references_of-Keeps :
      (repo : RepositoryName) (workload : Option (List String))
      → Keeps Q (references_of env.sets env.names env.services.registries repo workload)
  unfolding references_of
  references_of-Keeps repo (some references) = Keeps-pure references
  references_of-Keeps repo none = Keeps-read (env.services.registries.list_repository_contents repo)

  discover_images-Keeps :
      (registry : Registry) (repository : String)
      → Keeps Q (discover_images env.sets env.names env.services.registries registry repository)
  unfolding discover_images
  discover_images-Keeps registry repository = search (keeps_rules, references_of-Keeps) depth 12

  pub discover_all-Keeps :
      (registry : Registry) (repositories : List String) (found : env.sets.Set)
      → Keeps Q
          (discover_all env.sets env.names env.services.registries registry repositories found)
  unfolding discover_all
  discover_all-Keeps registry [] found = Keeps-pure found
  discover_all-Keeps registry (r ∷ rs) found =
      Keeps-branch _ _ _ (discover_images-Keeps registry r) Keeps-fail
        λ images. discover_all-Keeps registry rs _

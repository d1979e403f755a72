-- ===== src/Catalog/Handler.antt =====
-- CreateCatalogHandler.Handle as a whole (internal/handlers/create_catalog.go). `connect` stands for
-- transportFromRegistry and the Docker configuration of a private registry, which read Secrets and
-- ConfigMaps and write no object of the cluster; the message's JSON text is read by the caller.
mod Reading
pub mod Identity
pub mod Skips
use sbombastic.Common.{
  String, Bool, true, false, not, List, [], ◌∷◌, ◌++◌, if◌then◌else◌, Error, Result, ok, err,
  is_not_found,
}
use sbombastic.Conditions.{ConditionOps}
use sbombastic.Sets.{Sets, insert_all}
use sbombastic.Effects.{Eff, pure, fail, lift, call, read, branch, Retry, ◌>>=◌, ◌>>◌}
use sbombastic.Job.{ScanJob}
use sbombastic.Registry.{Registry, get_repository, apply_targets_to_registry}
use sbombastic.Filters.{filter_by_tag}
use sbombastic.Objects.{Image, ObjectRef, Event}
use sbombastic.Catalog.Images.{Encoders, Reference, acknowledge, ref_to_images}
use sbombastic.Catalog.Discovery.{Names, discover_repositories, discover_all}
use sbombastic.Catalog.Steps.{
  CatalogServices, Started, already_finished, started, Progress, stopped, reached,
  registry_from_scan_job, joined, on_reached, image_names, start_job, create_images, cleanup,
  finish,
}

-- What Handle is given besides the cluster.
pub record Environment (W : Type 0) : Type 1 where
  pub ops : ConditionOps
  pub sets : Sets
  pub services : CatalogServices W
  pub names : Names
  pub encoders : Encoders
  pub unmarshal : String → Result Registry
  pub new_tag_evaluator : Result (Unit {0})
  pub evaluate : String → String → Result Bool
  pub retry_start : Retry W Event Started
  pub retry_finish : Retry W Event (ScanJob × Bool)

module _ {W : Type 0} (env : Environment W) where
  -- The outer loop: one reference after the other, in the order that the range over the set takes.
  unfoldable pub process_references :
      ObjectRef → Registry → env.sets.Set → List String → ScanJob → Eff W Event Progress
  process_references ref registry existing [] job = pure (reached job [])
  process_references ref registry existing (image_name ∷ more) job =
      lift (env.names.parse_reference registry.spec.insecure image_name) >>= λ reference.
      lift (
        filter_by_tag env.evaluate
          (get_repository env.names.default_registry registry reference.repository_str)
          reference.identifier)
      >>= λ tag_is_allowed.
          if not tag_is_allowed
          then process_references ref registry existing more job
          else (ref_to_images env.services.images env.encoders reference registry >>= λ images.
              create_images env.ops env.sets env.services ref existing images job >>= λ p.
              on_reached p (pure stopped) λ current found.
                process_references ref registry existing more current >>= λ q.
                pure (joined found q))

  -- From the loop over the repositories to the end of the outer loop: the names of the listed images
  -- and what the loop leaves.
  unfoldable pub discover : ObjectRef → ScanJob → Registry → Eff W Event (env.sets.Set × Progress)
  discover ref job registry =
      read (env.services.connect registry)
      >> (discover_repositories env.sets env.names env.services.registries registry
          >>= λ repositories.
              discover_all env.sets env.names env.services.registries registry repositories
                (env.sets.new [])
              >>= λ references.
                  read (env.services.list_images registry.namespace registry.name) >>= λ listed.
                  acknowledge env.services.images
                  >> (lift env.new_tag_evaluator
                      >> (let existing =
                            insert_all env.sets (env.sets.new []) (image_names listed) in
                          process_references ref registry existing
                            (env.sets.unsorted_list references) job
                          >>= λ p. pure (existing, p))))

  unfoldable pub handle_started : ObjectRef → ScanJob → Eff W Event (Unit {0})
  handle_started ref job = lift (registry_from_scan_job env.unmarshal job) >>= λ snapshot.
      lift (
        apply_targets_to_registry env.sets env.names.default_registry job.spec.repositories
          snapshot)
      >>= λ registry. discover ref job registry >>= λ (existing, p).
          on_reached p (pure tt) λ last found.
            cleanup env.ops env.sets env.services existing last registry found
            >> finish env.ops env.sets env.services env.retry_finish ref last found

  unfoldable pub resume_started : ObjectRef → Started → Eff W Event (Unit {0})
  resume_started ref already_finished = pure tt
  resume_started ref (started job) = handle_started ref job

  unfoldable pub handle_decoded : ObjectRef → Eff W Event (Unit {0})
  handle_decoded ref =
      branch (env.retry_start.retry (start_job env.ops env.sets env.services ref))
        (λ e. if is_not_found e then pure tt else fail e) (resume_started ref)

  -- `message` is what json.Unmarshal makes of the message.
  unfoldable pub handle : Result ObjectRef → Eff W Event (Unit {0})
  handle message = lift message >>= handle_decoded

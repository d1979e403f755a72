-- ===== src/Rescans/Runner/Creation.antt =====
-- What one check of a registry by RegistryScanRunner changes.
use sbombastic.Common.{
  ℕ, ◌-◌, String, ◌≡◌, true, false, not, Option, none, some, List, [], ◌∷◌, is_empty, Result, ok,
}
use sbombastic.Effects
use sbombastic.Effects.{Eff, call, Retry}
use sbombastic.Job.{ScanJob}
use sbombastic.Registry.{Registry}
use sbombastic.Rescans.{Requests, collect_rescan_requests, job_targets, should_create_scan_job}
use sbombastic.Rescans.Runner.Removal.{Spares}
use sbombastic.Rescans.Runner.{
  NewScanJob, Change, job_created, registry_updated, RunnerServices, RunnerTools, new_scan_job,
  is_running,
}

abbrev pub requests_of : RunnerTools → Registry → Requests
requests_of tools registry =
    collect_rescan_requests tools.sets tools.sort_strings tools.unmarshal registry

-- The one job that a check may create.
abbrev pub due_job : RunnerTools → Registry → NewScanJob
due_job tools registry = new_scan_job tools registry (job_targets (requests_of tools registry))

-- The changes of a check whose last job is `last`: none; or, if that job does not run and a job is
-- due, the new job; and behind it at most one update of the registry as the API server answers with it
-- then, which loses the annotations that were read and nothing else.
pub data Changed {W : Type 0} (tools : RunnerTools) (services : RunnerServices W)
    (registry : Registry) (last : Option ScanJob) (t : List Change) : List Change → Type 0 where
  nothing : Changed tools services registry last t t
  created :
      (time : ℕ)
      → is_running tools.ops last ≡ false
      → should_create_scan_job
          (λ x. time - x)
          registry
          last
          (not (is_empty (requests_of tools registry).rescan_requests))
        ≡ true
      → Changed tools services registry last t (job_created (due_job tools registry) ∷ t)
  answered :
      (time : ℕ) (current new : Registry) (w : W)
      → is_running tools.ops last ≡ false
      → should_create_scan_job
          (λ x. time - x)
          registry
          last
          (not (is_empty (requests_of tools registry).rescan_requests))
        ≡ true
      → (services.get_registry registry.name registry.namespace w).0 ≡ ok current
      → Spares (requests_of tools registry).rescan_requests current new
      → Changed tools services registry last t
          (registry_updated new ∷ job_created (due_job tools registry) ∷ t)

module _ {W : Type 0} (tools : RunnerTools) (services : RunnerServices W)
    (retry : Retry W Change (Unit {0})) (registry : Registry) where
  module _ (last : Option ScanJob) (t : List Change) where
    abbrev Post : Result (Unit {0}) → List Change → Type 0
    Post r u = Changed tools services registry last t u

    abbrev keys : List String
    keys = (requests_of tools registry).rescan_requests

-- The last job of the registry, as the answer to the list has it.
abbrev pub head? : List ScanJob → Option ScanJob
head? [] = none
head? (job ∷ others) = some job

abbrev pub last_of : RunnerTools → Result (List ScanJob) → Option ScanJob
last_of tools (ok found) = head? (tools.newest_first found)
last_of tools _ = none

-- ===== src/Rescans.antt =====
-- The decisions of RegistryScanRunner (internal/controller/registry_scan_runner.go): which rescan
-- requests a registry carries, what they ask for together, and whether a ScanJob is due. The JSON
-- decoding of an annotation, sort.Strings and time.Since are parameters.
mod Cases
pub mod Merging
pub mod Collecting
pub mod Runner
use sbombastic.Common.{
  ℕ, String, Bool, true, false, not, ◌&&◌, ◌||◌, Option, none, some, List, [], ◌∷◌, ◌++◌, map,
  filter, ◌==◌, ltb, eqb, if◌then◌else◌, is_empty, is_some, cut_prefix, GoMap, lookup, assign,
  delete, Result, ok, err, panic,
}
use sbombastic.Sets.{Sets, insert_all}
use sbombastic.Job.{ScanJob, ScanJobRepository}
use sbombastic.Registry.{Registry}
use sbombastic.Catalog.Discovery.{RepositoryName}

abbrev pub annotation_rescan_requested_key_prefix : String
annotation_rescan_requested_key_prefix = "sbomscanner.kubewarden.io/rescan-requested-"

pub record RescanRequest : Type 0 where
  pub repositories : List ScanJobRepository

-- wildcardRepos and condsByRepo.
pub record Merged (S : Sets) : Type 0 where
  pub wildcard_repos : S.Set
  pub conds_by_repo : GoMap S.Set

-- The value of an annotation: an empty one is the empty request; `unmarshal` fails on what is not JSON.
unfoldable pub read_request : (String → Result RescanRequest) → String → Result RescanRequest
read_request unmarshal raw = if raw == "" then ok (record { repositories = [] }) else unmarshal raw

module _ (S : Sets) where
  unfoldable pub nothing_merged : Merged S
  nothing_merged = record { wildcard_repos = S.new []; conds_by_repo = [] }

  -- The body of the loop of mergeRescanRequest.
  unfoldable pub merge_repository : Merged S → ScanJobRepository → Merged S
  merge_repository s repo =
      if S.has s.wildcard_repos repo.name
      then s
      else if is_empty repo.match_conditions
      then record {
        wildcard_repos = S.insert s.wildcard_repos repo.name;
        conds_by_repo = delete s.conds_by_repo repo.name;
      }
      else (let conds : S.Set = elim (lookup s.conds_by_repo repo.name) [
        | none ↦ S.new []
        | some c ↦ c
      ] in
          record s {
            conds_by_repo =
                assign s.conds_by_repo repo.name (insert_all S conds repo.match_conditions);
          })

  unfoldable pub merge_repositories : Merged S → List ScanJobRepository → Merged S
  merge_repositories s [] = s
  merge_repositories s (repo ∷ repos) = merge_repositories (merge_repository s repo) repos

  -- The sets are changed in place: the new ones are returned, behind the function's own answer.
  unfoldable pub merge_rescan_request : RescanRequest → Merged S → Bool × Merged S
  merge_rescan_request req s =
      let merged = merge_repositories s req.repositories in
      if is_empty req.repositories then (true, s) else (false, merged)

  unfoldable pub build_merged_targets :
      (List String → List String) → Merged S → List ScanJobRepository
  build_merged_targets sort_strings s =
      let names = insert_all S s.wildcard_repos (map (λ entry. entry.0) s.conds_by_repo) in
      map
        (λ name. record {
          name = name;
          match_conditions = elim (lookup s.conds_by_repo name) [
            | none ↦ []
            | some conds ↦ sort_strings (S.unsorted_list conds)
          ];
        })
        (sort_strings (S.unsorted_list names))

  -- The body of the loop over the annotations: a malformed value is skipped.
  unfoldable pub merge_one : Result RescanRequest → Bool × Merged S → Bool × Merged S
  merge_one (ok req) s = let merged = merge_rescan_request req s.1 in (s.0 || merged.0, merged.1)
  merge_one _ s = s

  unfoldable pub merge_annotations :
      (String → Result RescanRequest) → List String → Bool × Merged S → Bool × Merged S
  merge_annotations unmarshal [] s = s
  merge_annotations unmarshal (raw ∷ more) s =
      merge_annotations unmarshal more (merge_one (read_request unmarshal raw) s)

unfoldable pub is_rescan_key : String → Bool
is_rescan_key key = is_some (cut_prefix key annotation_rescan_requested_key_prefix)

-- What collectRescanRequests returns.
pub record Requests : Type 0 where
  pub rescan_requests : List String
  pub merged_targets : List ScanJobRepository
  pub scan_everything : Bool

module _ (S : Sets) (sort_strings : List String → List String)
    (unmarshal : String → Result RescanRequest) where
  unfoldable pub collect_rescan_requests : Registry → Requests
  collect_rescan_requests registry =
      let found = filter (λ entry. is_rescan_key entry.0) registry.annotations in
      let keys = map (λ entry. entry.0) found in
      let values = map (λ entry. entry.1) found in
      let merged = merge_annotations S unmarshal values (false, nothing_merged S) in
      if is_empty found
      then record { rescan_requests = []; merged_targets = []; scan_everything = false }
      else if merged.0
      then record { rescan_requests = keys; merged_targets = []; scan_everything = true }
      else record {
        rescan_requests = keys;
        merged_targets = build_merged_targets S sort_strings merged.1;
        scan_everything = false;
      }

-- The targets of the job that checkRegistryForScan creates; none of them means the whole registry.
unfoldable pub job_targets : Requests → List ScanJobRepository
job_targets r =
    if not (is_empty r.rescan_requests) && not r.scan_everything then r.merged_targets else []

-- `since` is time.Since.
unfoldable pub should_create_scan_job : (ℕ → ℕ) → Registry → Option ScanJob → Bool → Bool
should_create_scan_job since registry last has_rescan_request =
    if has_rescan_request then true else elim registry.spec.scan_interval [
      | none ↦ false
      | some interval ↦ if eqb interval 0 then false else elim last [
        | none ↦ true
        | some job ↦ elim job.status.completion_time [
          | none ↦ true
          | some t ↦ not (ltb (since t) interval)
        ]
      ]
    ]

-- ===== src/Tests/RescanRuns.antt =====
-- Rescan requests of a registry.
use sbombastic.Common.{
  ok, String, ◌≡◌, refl, true, false, not, ◌&&◌, none, List, [], ◌∷◌, is_empty, All, cut_prefix,
  Error, Result, err,
}
use sbombastic.Job.{ScanJobRepository}
use sbombastic.Registry.{Registry}
use sbombastic.Rescans.{
  RescanRequest, nothing_merged, merge_repositories, is_rescan_key, collect_rescan_requests,
  job_targets, should_create_scan_job,
}
use sbombastic.Rescans.Merging.{is_whole, is_asked, wants, wants_whole, merge_repositories-wants}
use sbombastic.Rescans.Collecting.{unreadable_requests_widen, rescan_values, IsMalformed}
use sbombastic.Effects.{Retry, attempts}
use sbombastic.Rescans.Runner.{RunnerTools, RunnerServices, Change}
use sbombastic.Tests.Cluster.{World}
use sbombastic.Tests.ListConditions.{list_conditions}
use sbombastic.Tests.ListSets.{list_sets}
use sbombastic.Tests.RegistryRuns.{registry_of}

abbrev asked : List ScanJobRepository
asked =
    record { name = "app"; match_conditions = "stable" ∷ [] }
    ∷ record { name = "db"; match_conditions = [] }
    ∷ record { name = "app"; match_conditions = "edge" ∷ [] }
    ∷ []

merge_repositories-wants_example :
    (is_whole list_sets (merge_repositories list_sets (nothing_merged list_sets) asked) "app"
      ≡ wants_whole asked "app")
    × (is_asked list_sets
          (merge_repositories list_sets (nothing_merged list_sets) asked)
          "app"
          "edge"
        ≡ (not (wants_whole asked "app") && wants asked "app" "edge"))
merge_repositories-wants_example = merge_repositories-wants list_sets asked "app" "edge"

abbrev broken : Registry
broken = record (registry_of []) {
  annotations = ("sbomscanner.kubewarden.io/rescan-requested-1", "{") ∷ [];
}

abbrev no_json : String → Result RescanRequest
no_json t = err Error.other

broken_values : rescan_values broken ≡ "{" ∷ []
unfolding is_rescan_key cut_prefix
broken_values = refl

broken_present : is_empty (rescan_values broken) ≡ false
unfolding is_rescan_key cut_prefix
broken_present = refl

broken-IsMalformed : All (IsMalformed no_json) (rescan_values broken)
unfolding is_rescan_key cut_prefix
broken-IsMalformed = ((refl, Error.other, refl), tt)

unreadable_requests_widen_example :
    (should_create_scan_job
        (λ t. t)
        broken
        none
        (not
          (is_empty (collect_rescan_requests list_sets (λ xs. xs) no_json broken).rescan_requests))
      ≡ true)
    × (job_targets (collect_rescan_requests list_sets (λ xs. xs) no_json broken) ≡ [])
unreadable_requests_widen_example =
    unreadable_requests_widen list_sets (λ xs. xs) no_json (λ t. t) broken none (λ xs y. refl)
      broken_present broken-IsMalformed

abbrev runner_tools : RunnerTools
runner_tools = record {
  ops = list_conditions;
  sets = list_sets;
  newest_first = λ js. js;
  sort_strings = λ xs. xs;
  unmarshal = no_json;
  inject_annotations = λ m. m;
}

abbrev runner : RunnerServices World
runner = record {
  now = λ w. 100;
  list_jobs = λ namespace name w. (ok [], w);
  create_job = λ job w. (ok tt, w);
  get_registry = λ name namespace w. (ok broken, w);
  update_registry = λ r w. (ok tt, w);
}

abbrev retry_once : Retry World Change (Unit {0})
retry_once = record { retry = λ body s. attempts 1 body s; retried = λ body s. (1, refl) }

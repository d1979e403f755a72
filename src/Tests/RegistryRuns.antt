-- ===== src/Tests/RegistryRuns.antt =====
-- Targets of a ScanJob and tag filters on a registry with two repositories.
use sbombastic.Common.{
  String, ◌≡◌, refl, ◌↔◌, Bool, true, false, not, inl, none, some, List, [], ◌∷◌, arith, ◌==◌,
  Result, ok, err, Error, is_ok, is_some, All,
}
use sbombastic.Job.{ScanJobRepository}
use sbombastic.Registry.{
  MatchCondition, Repository, Registry, get_repository, validate_scan_job_targets,
  target_repositories, narrow, apply_targets_to_registry, match_operator_or,
}
use sbombastic.Registry.Targets.{is_ok-apply_targets}
use sbombastic.Registry.Duplicates.{duplicate_condition_refused}
use sbombastic.Filters.{filter_by_tag}
use sbombastic.Filters.Meaning.{Says, filter_by_tag_and}
use sbombastic.Tests.ListSets.{list_sets, dedupe}

abbrev condition : String → String → MatchCondition
condition name expression = record { name = name; expression = expression; labels = [] }

abbrev pub app : Repository
app = record {
  name = "app";
  match_conditions = condition "stable" "v1" ∷ condition "edge" "main" ∷ [];
  match_operator = "";
}

abbrev pub twice : Repository
twice = record {
  name = "twice";
  match_conditions = condition "same" "v1" ∷ condition "same" "v2" ∷ [];
  match_operator = match_operator_or;
}

abbrev pub registry_of : List Repository → Registry
registry_of repositories = record {
  name = "hub";
  namespace = "default";
  annotations = [];
  labels = [];
  spec = record {
    uri = "hub.example";
    catalog_type = "NoCatalog";
    repositories = repositories;
    auth_secret = "";
    scan_interval = none;
    ca_bundle = "";
    ca_bundle_ref = none;
    insecure = false;
    platforms = [];
  };
}

abbrev edge_of_app : List ScanJobRepository
edge_of_app = record { name = "app"; match_conditions = "edge" ∷ [] } ∷ []

is_ok-apply_targets_example :
    is_ok
      (apply_targets_to_registry list_sets "index.docker.io" edge_of_app (registry_of (app ∷ [])))
    ≡ not
        (is_some (validate_scan_job_targets "index.docker.io" edge_of_app (registry_of (app ∷ []))))
is_ok-apply_targets_example =
    is_ok-apply_targets list_sets "index.docker.io" edge_of_app (registry_of (app ∷ []))
      ((refl, (refl, tt)), tt)

abbrev edge_only : List Repository
edge_only = record app { match_conditions = condition "edge" "main" ∷ [] } ∷ []

edge_narrowed :
    target_repositories list_sets "index.docker.io" edge_of_app (registry_of (app ∷ []))
    ≡ ok edge_only
unfolding target_repositories narrow get_repository dedupe
edge_narrowed = refl

abbrev same_of_twice : ScanJobRepository
same_of_twice = record { name = "twice"; match_conditions = "same" ∷ [] }

twice_found : get_repository "index.docker.io" (registry_of (twice ∷ [])) "twice" ≡ some twice
unfolding get_repository
twice_found = refl

duplicate_condition_refused_example :
    (validate_scan_job_targets "index.docker.io" (same_of_twice ∷ []) (registry_of (twice ∷ []))
      ≡ none)
    × (apply_targets_to_registry list_sets "index.docker.io"
          (same_of_twice ∷ [])
          (registry_of (twice ∷ []))
        ≡ err Error.other)
duplicate_condition_refused_example =
    duplicate_condition_refused list_sets "index.docker.io" (registry_of (twice ∷ [])) same_of_twice
      "same" twice refl twice_found (omega arith)

-- An evaluator that compares the tag with the expression.
abbrev same_text : String → String → Result Bool
same_text expression tag = ok (expression == tag)

filter_by_tag_and_example :
    (filter_by_tag same_text (some app) "v1" ≡ ok true)
    ↔ All (Says same_text "v1" true) app.match_conditions
filter_by_tag_and_example = filter_by_tag_and same_text "v1" app (inl refl)

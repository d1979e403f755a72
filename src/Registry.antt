-- ===== src/Registry.antt =====
-- The Registry of api/v1alpha1/registry_types.go, its labels (api/labels.go), and the two functions
-- that narrow it to the targets of a ScanJob: validateScanJobTargets of
-- internal/controller/scanjob_controller.go and applyTargetsToRegistry of
-- internal/handlers/create_catalog.go.
pub mod Counting
pub mod Targets
pub mod Duplicates
use sbombastic.Common.{
  ℕ, String, Bool, true, false, not, ◌&&◌, ◌||◌, Option, none, some, List, [], ◌∷◌, ◌==◌,
  if◌then◌else◌, lookup, GoMap, trim_prefix, find?, filter, any, is_empty, length, eqb, Result, ok,
  err, Error, ◌>>=◌,
}
use sbombastic.Sets.{Sets}
use sbombastic.Job.{ScanJobRepository}

pub record MatchCondition : Type 0 where
  pub name : String
  pub expression : String
  pub labels : GoMap String

pub record Repository : Type 0 where
  pub name : String
  pub match_conditions : List MatchCondition
  pub match_operator : String

pub record Platform : Type 0 where
  pub architecture : String
  pub os : String
  pub variant : String

-- A key of a ConfigMap or of a Secret with a CA bundle.
pub record CaBundleKeySelector : Type 0 where
  pub name : String
  pub key : String

pub record CaBundleSource : Type 0 where
  pub config_map : Option CaBundleKeySelector
  pub secret : Option CaBundleKeySelector

pub record RegistrySpec : Type 0 where
  pub uri : String
  pub catalog_type : String
  pub repositories : List Repository
  pub auth_secret : String
  pub scan_interval : Option ℕ
  pub ca_bundle : String
  pub ca_bundle_ref : Option CaBundleSource
  pub insecure : Bool
  pub platforms : List Platform

pub record Registry : Type 0 where
  pub name : String
  pub namespace : String
  pub annotations : GoMap String
  pub labels : GoMap String
  pub spec : RegistrySpec

abbrev pub match_operator_and : String
match_operator_and = "And"

abbrev pub match_operator_or : String
match_operator_or = "Or"

abbrev pub label_managed_by_key : String
label_managed_by_key = "app.kubernetes.io/managed-by"

abbrev pub label_managed_by_value : String
label_managed_by_value = "sbomscanner"

abbrev pub label_part_of_key : String
label_part_of_key = "app.kubernetes.io/part-of"

abbrev pub label_part_of_value : String
label_part_of_value = "sbomscanner"

abbrev pub label_workload_scan_key : String
label_workload_scan_key = "sbomscanner.kubewarden.io/workloadscan"

abbrev pub label_workload_scan_value : String
label_workload_scan_value = "true"

-- labels[key] == value; a missing key reads as the empty text.
unfoldable pub label_is : String → String → GoMap String → Bool
label_is key value labels = elim (lookup labels key) [ none ↦ "" == value | some v ↦ v == value ]

-- The names that GetRepository accepts. name.DefaultRegistry, of go-containerregistry, is the
-- argument `default_registry`.
unfoldable pub short_name : String → Registry → String → String
short_name default_registry r repo =
    if r.spec.uri == default_registry then trim_prefix repo "library/" else repo

unfoldable pub get_repository : String → Registry → String → Option Repository
unfolding short_name
get_repository default_registry r repo =
    let short = short_name default_registry r repo in
    find? (λ p. p.name == repo || p.name == short) r.spec.repositories

unfoldable pub is_private : Registry → Bool
is_private r = not (r.spec.auth_secret == "")

unfoldable pub is_managed_by_workload_scan : Registry → Bool
unfolding label_is
is_managed_by_workload_scan r =
    label_is label_managed_by_key label_managed_by_value r.labels
    && label_is label_workload_scan_key label_workload_scan_value r.labels

-- The reason that validateScanJobTargets returns, and the names in its message.
pub data TargetError : Type 0 where
  repository_not_found : String → TargetError
  match_condition_not_found : String → String → TargetError

-- slices.ContainsFunc over the conditions of a repository.
unfoldable pub declares : Repository → String → Bool
declares p condition_name = any (λ mc. mc.name == condition_name) p.match_conditions

-- The inner loop: the first condition that the repository does not declare.
unfoldable pub validate_conditions : String → Repository → List String → Option TargetError
unfolding declares
validate_conditions target p [] = none
validate_conditions target p (c ∷ cs) =
    if declares p c
    then validate_conditions target p cs
    else some (match_condition_not_found c target)

unfoldable pub validate_scan_job_targets :
    String → List ScanJobRepository → Registry → Option TargetError
validate_scan_job_targets dr [] r = none
validate_scan_job_targets dr (target ∷ targets) r =
    let rest = validate_scan_job_targets dr targets r in
    elim (get_repository dr r target.name) [
      | none ↦ some (repository_not_found target.name)
      | some p ↦ elim (validate_conditions target.name p target.match_conditions) [
        | some e ↦ some e
        | none ↦ rest
      ]
    ]

module _ (S : Sets) where
  -- The body of the loop over the targets, for a target whose repository is declared.
  unfoldable pub narrow : ScanJobRepository → Repository → Result Repository
  narrow target p =
      if is_empty target.match_conditions
      then ok p
      else (let wanted = S.new target.match_conditions in
          let filtered = filter (λ mc. S.has wanted mc.name) p.match_conditions in
          if eqb (length filtered) (S.len wanted)
          then ok (record p { match_conditions = filtered })
          else err Error.other)

module _ (S : Sets) (default_registry : String) where
  unfoldable pub target_repositories : List ScanJobRepository → Registry → Result (List Repository)
  target_repositories [] r = ok []
  target_repositories (target ∷ targets) r =
      let rest = target_repositories targets r in
      elim (get_repository default_registry r target.name) [
        | none ↦ err Error.other
        | some p ↦ (do q ← narrow S target p; qs ← rest; ok (q ∷ qs))
      ]

  unfoldable pub apply_targets_to_registry : List ScanJobRepository → Registry → Result Registry
  unfolding target_repositories
  apply_targets_to_registry targets r = if is_empty targets then ok r else (do
    ps ← target_repositories targets r
    ok (record r { spec = record r.spec { repositories = ps } }))

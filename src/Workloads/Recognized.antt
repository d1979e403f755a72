-- ===== src/Workloads/Recognized.antt =====
-- The worker reads back from a Registry of the workload controller the tags that the controller wrote:
-- createRegistry of internal/controller/workloadscan_controller_registry.go, and the test of a
-- condition in workloadRepositoryReferences of internal/handlers/create_catalog.go.
use sbombastic.Common.{
  ◌≡◌, refl, ◌∙◌, String, Bool, false, not, ◌&&◌, Option, none, some, List, [], ◌∷◌, any, map, ◌==◌,
  eq_refl, cut_prefix, contains, is_some,
}
use sbombastic.Registry.{MatchCondition, Repository}
use sbombastic.Catalog.Discovery.{Names, workload_identifier}
use sbombastic.Workloads.{new_condition, tag_name, tag_expression}
use sbombastic.Workloads.Wanted.{any-sort}
use sbombastic.Workloads.Registries.{
  WorkloadTools, Tags, tag_key, created_repository, created_repositories,
}

-- The worker takes the condition for that of the tag.
abbrev pub reads : String → Option String → Bool
reads tag none = false
reads tag (some identifier) = identifier == tag

cut_prefix-tag_name : (tag : String) → cut_prefix (tag_name tag) "tag-" ≡ some tag
unfolding tag_name cut_prefix
cut_prefix-tag_name tag = refl

new_condition-identifier :
    (tools : WorkloadTools) (names : Names) (namespace repository tag : String)
    → tools.quoted ≡ names.quoted
    → workload_identifier names (new_condition namespace (tag_key tools repository tag)) ≡ some tag
unfolding workload_identifier tag_expression
new_condition-identifier tools names namespace repository tag same =
    rw
      (
        workload_identifier,
        cut_prefix-tag_name tag,
        same,
        eq_refl (tag_expression names.quoted tag),
      )
      refl

-- Some condition of the repository of that name is read as the tag.
abbrev pub names_tag : Names → String → String → Repository → Bool
names_tag names repository tag r =
    (r.name == repository) && any (λ c. reads tag (workload_identifier names c)) r.match_conditions

-- Some condition of the repository is not read as a tag.
abbrev pub is_foreign : Names → Repository → Bool
is_foreign names r = any (λ c. not (is_some (workload_identifier names c))) r.match_conditions

module _ (tools : WorkloadTools) (names : Names) (namespace : String)
    (same : tools.quoted ≡ names.quoted) where
  abbrev conditions : String → List String → List MatchCondition
  conditions repository = map (λ tag. new_condition namespace (tag_key tools repository tag))

  conditions-read :
      (repository tag : String) (tags : List String)
      → any (λ c. reads tag (workload_identifier names c)) (conditions repository tags)
        ≡ contains tags tag
  conditions-read repository tag [] = refl
  conditions-read repository tag (t ∷ tags) =
      rw
        (
          new_condition-identifier tools names namespace repository t same,
          conditions-read repository tag tags,
        )
        refl

  conditions-known :
      (repository : String) (tags : List String)
      → any (λ c. not (is_some (workload_identifier names c))) (conditions repository tags) ≡ false
  conditions-known repository [] = refl
  conditions-known repository (t ∷ tags) =
      rw
        (
          new_condition-identifier tools names namespace repository t same,
          conditions-known repository tags,
        )
        refl

  abbrev new_repositories : Tags tools → List Repository
  new_repositories = map (λ e. created_repository tools namespace (e.0) (e.1))

  repositories-read :
      (repository tag : String) (tags : Tags tools)
      → any (names_tag names repository tag) (new_repositories tags)
        ≡ any (λ e. (e.0 == repository) && tools.sets.has (e.1) tag) tags
  unfolding created_repository
  repositories-read repository tag [] = refl
  repositories-read repository tag ((name, s) ∷ tags) =
      rw
        (
          conditions-read name tag (tools.sets.unsorted_list s),
          tools.sets.contains-unsorted_list s tag,
          repositories-read repository tag tags,
        )
        refl

  repositories-known : (tags : Tags tools) → any (is_foreign names) (new_repositories tags) ≡ false
  unfolding created_repository
  repositories-known [] = refl
  repositories-known ((name, s) ∷ tags) =
      rw (conditions-known name (tools.sets.unsorted_list s), repositories-known tags) refl

-- Every condition of a Registry that the controller creates is one that the worker takes for a tag, and
-- the tags that it reads in the repositories of a name are those that the pods need of them.
pub created_repositories-read :
    (tools : WorkloadTools) (names : Names) (namespace repository tag : String) (tags : Tags tools)
    → tools.quoted ≡ names.quoted
    → (any (is_foreign names) (created_repositories tools namespace tags) ≡ false)
      × (any (names_tag names repository tag) (created_repositories tools namespace tags)
          ≡ any (λ e. (e.0 == repository) && tools.sets.has (e.1) tag) tags)
unfolding created_repositories
created_repositories-read tools names namespace repository tag tags same =
    let rs = new_repositories tools names namespace same tags in
    (
      any-sort tools.sorts (λ name c. not (is_some (workload_identifier names c))) (λ name b. b) rs
          ∙ repositories-known tools names namespace same tags,
      any-sort tools.sorts (λ name c. reads tag (workload_identifier names c))
            (λ name b. (name == repository) && b) rs
          ∙ repositories-read tools names namespace same repository tag tags,
    )

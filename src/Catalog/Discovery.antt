-- ===== src/Catalog/Discovery.antt =====
-- Which references a registry has: discoverRepositories, discoverImages and
-- workloadRepositoryReferences, and the loop over the repositories in Handle. The package `name` of
-- go-containerregistry, path.Join, fmt's %q and the registry client are the parameters; the order in
-- which a Go map is ranged over is that of `unsorted_list`.
use sbombastic.Common.{
  String, Bool, false, not, ◌||◌, Option, none, some, List, [], ◌∷◌, map, ◌==◌, if◌then◌else◌,
  is_empty, is_some, cut_prefix, Result, ok, ◌>>=◌,
}
use Prim.Native.String.{◌++◌ as ◌<>◌}
use sbombastic.Sets.{Sets, insert_all}
use sbombastic.Effects
use sbombastic.Effects.{Eff, pure, lift, read}
use sbombastic.Registry.{
  Registry, MatchCondition, match_operator_or, get_repository, is_managed_by_workload_scan,
}
use sbombastic.Objects.{Event}
use sbombastic.Catalog.Images.{Reference}

-- What name.Repository answers.
pub record RepositoryName : Type 0 where
  pub name : String
  pub repository_str : String

-- The first argument of each parser is registry.Spec.Insecure, all that nameOptions looks at.
pub record Names : Type 0 where
  pub default_registry : String
  pub new_registry : Bool → String → Result String
  pub new_repository : Bool → String → Result RepositoryName
  pub new_digest : Bool → String → Result Reference
  pub new_tag : Bool → String → Result Reference
  pub parse_reference : Bool → String → Result Reference
  pub join : String → String → String
  pub quoted : String → String
  pub sorted : List String → List String

pub record RegistryServices (W : Type 0) : Type 0 where
  pub catalog : String → W → Result (List String) × W
  pub list_repository_contents : RepositoryName → W → Result (List String) × W

-- What one condition of a workload repository stands for: none if it is not one of the controller's.
unfoldable pub workload_identifier : Names → MatchCondition → Option String
workload_identifier names condition = elim (cut_prefix condition.name "tag-") [
  | none ↦ none
  | some identifier ↦
      if condition.expression == ("tag == " <> names.quoted identifier)
      then some identifier
      else none
]

unfoldable pub is_digest : String → Bool
is_digest identifier = is_some (cut_prefix identifier "sha256:")

unfoldable pub workload_reference : Names → Registry → RepositoryName → String → Result Reference
workload_reference names registry repo identifier =
    if is_digest identifier
    then names.new_digest registry.spec.insecure (repo.name <> ("@" <> identifier))
    else names.new_tag registry.spec.insecure (repo.name <> (":" <> identifier))

-- The loop over the conditions, with the references so far and whether one of them was a digest.
unfoldable pub workload_references :
    (S : Sets)
    → Names
    → Registry
    → RepositoryName
    → List MatchCondition
    → S.Set
    → Bool
    → Result (Option (List String))
workload_references S names registry repo [] references has_digest =
    ok (if has_digest then some (names.sorted (S.unsorted_list references)) else none)
workload_references S names registry repo (c ∷ cs) references has_digest =
    elim (workload_identifier names c) [
      | none ↦ ok none
      | some identifier ↦ workload_reference names registry repo identifier >>= λ ref.
          workload_references S names registry repo cs (S.insert references ref.name)
            (is_digest identifier || has_digest)
    ]

-- `none` stands for the answer `nil, false, nil`.
unfoldable pub workload_repository_references :
    Sets → Names → Registry → RepositoryName → Result (Option (List String))
workload_repository_references S names registry repo =
    if not (is_managed_by_workload_scan registry)
    then ok none
    else elim (get_repository names.default_registry registry repo.repository_str) [
      | none ↦ ok none
      | some p ↦
          if not (p.match_operator == match_operator_or) || is_empty p.match_conditions
          then ok none
          else workload_references S names registry repo p.match_conditions (S.new []) false
    ]

module _ {W : Type 0} (S : Sets) (names : Names) (services : RegistryServices W) where
  unfoldable pub discover_repositories : Registry → Eff W Event (List String)
  discover_repositories registry =
      Effects.◌>>=◌ (lift (names.new_registry registry.spec.insecure registry.spec.uri)) λ reg.
        if is_empty registry.spec.repositories
        then read (services.catalog reg)
        else pure (map (λ p. names.join reg p.name) registry.spec.repositories)

  -- The references the workload controller means, or else what the registry lists.
  unfoldable pub references_of : RepositoryName → Option (List String) → Eff W Event (List String)
  references_of repo (some references) = pure references
  references_of repo none = read (services.list_repository_contents repo)

  unfoldable pub discover_images : Registry → String → Eff W Event (List String)
  discover_images registry repository =
      Effects.◌>>=◌ (lift (names.new_repository registry.spec.insecure repository)) λ repo.
        Effects.◌>>=◌ (lift (workload_repository_references S names registry repo))
          λ workload. references_of repo workload

  -- The loop over the repositories.
  unfoldable pub discover_all : Registry → List String → S.Set → Eff W Event S.Set
  discover_all registry [] found = pure found
  discover_all registry (repository ∷ rest) found =
      Effects.◌>>=◌ (discover_images registry repository)
        λ images. discover_all registry rest (insert_all S found images)

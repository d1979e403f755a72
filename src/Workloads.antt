-- ===== src/Workloads.antt =====
-- internal/controller/workloadscan_controller_registry.go: the conditions that one namespace has in a
-- Registry that the workload controller manages. A condition is a repository, a name and an
-- expression; the namespaces that want it are among its labels. The sets of conditions are those of
-- k8s.io/apimachinery, with what their documentation says of each operation; the order in which a Go
-- map or set is ranged over is that of its list. fmt's %q is a parameter.
pub mod Contributions
pub mod Wanted
pub mod Registries
pub mod Needed
pub mod Reconcile
pub mod Grouped
pub mod Managed
pub mod Growing
pub mod Storing
pub mod Stored
pub mod Recognized
use Prim.Native.String.{◌++◌ as ◌<>◌}
use sbombastic.Common.{
  ◌≡◌, String, Bool, true, false, not, ◌&&◌, ◌||◌, List, [], ◌∷◌, ◌++◌, any, map, ◌==◌,
  if◌then◌else◌, is_empty, append, GoMap, assign, delete,
}
use sbombastic.Sets.{Sets}
use sbombastic.Registry.{MatchCondition, Repository, match_operator_or}

-- matchConditionKey
pub record ConditionKey : Type 0 where
  pub repository : String
  pub name : String
  pub expression : String

abbrev pub same_key : ConditionKey → ConditionKey → Bool
same_key a b =
    (a.repository == b.repository) && ((a.name == b.name) && (a.expression == b.expression))

-- sets.Set[matchConditionKey]
pub record KeySets : Type 1 where
  pub Set : Type 0
  pub empty : Set
  pub insert : Set → ConditionKey → Set
  pub union : Set → Set → Set
  pub difference : Set → Set → Set
  pub has : Set → ConditionKey → Bool
  pub unsorted_list : Set → List ConditionKey
  pub has-empty : (k : ConditionKey) → has empty k ≡ false
  pub has-insert : (s : Set) (x k : ConditionKey) → has (insert s x) k ≡ (same_key x k || has s k)
  pub has-union : (s t : Set) (k : ConditionKey) → has (union s t) k ≡ (has s k || has t k)
  pub has-difference :
      (s t : Set) (k : ConditionKey) → has (difference s t) k ≡ (has s k && not (has t k))
  pub any-unsorted_list :
      (s : Set) (k : ConditionKey) → any (λ x. same_key x k) (unsorted_list s) ≡ has s k

-- The tags of the repositories of one registry.
abbrev pub RepositoryTags : Sets → Type 0
RepositoryTags S = GoMap S.Set

abbrev pub namespace_prefix : String
namespace_prefix = "namespace/"

-- The label that a namespace has on a condition.
unfoldable pub namespace_label : String → String
namespace_label namespace = namespace_prefix <> namespace

unfoldable pub tag_name : String → String
tag_name tag = append "tag-" tag

unfoldable pub tag_expression : (String → String) → String → String
tag_expression quoted tag = "tag == " <> quoted tag

abbrev pub condition_key : String → MatchCondition → ConditionKey
condition_key repository c = record {
  repository = repository;
  name = c.name;
  expression = c.expression;
}

module _ (S : Sets) (K : KeySets) (quoted : String → String) where
  unfoldable pub insert_tags : String → List String → K.Set → K.Set
  unfolding tag_name tag_expression
  insert_tags repository [] needed = needed
  insert_tags repository (tag ∷ tags) needed = insert_tags repository tags (
      K.insert needed (record {
        repository = repository;
        name = tag_name tag;
        expression = tag_expression quoted tag;
      }))

  unfoldable pub insert_repositories : RepositoryTags S → K.Set → K.Set
  unfolding insert_tags
  insert_repositories [] needed = needed
  insert_repositories ((repository, tags) ∷ repositories) needed =
      insert_repositories repositories (insert_tags repository (S.unsorted_list tags) needed)

  unfoldable pub build_needed_match_conditions : RepositoryTags S → K.Set
  unfolding insert_repositories
  build_needed_match_conditions repositories = insert_repositories repositories K.empty

abbrev pub with_conditions : Repository → List MatchCondition → Repository
with_conditions r conditions = record {
  name = r.name;
  match_conditions = conditions;
  match_operator = match_operator_or;
}

module _ (K : KeySets) where
  unfoldable pub insert_conditions : String → List MatchCondition → K.Set → K.Set
  insert_conditions repository [] found = found
  insert_conditions repository (c ∷ conditions) found =
      insert_conditions repository conditions (K.insert found (condition_key repository c))

  unfoldable pub extract_conditions : List Repository → K.Set → K.Set
  unfolding insert_conditions
  extract_conditions [] found = found
  extract_conditions (r ∷ repositories) found =
      extract_conditions repositories (insert_conditions r.name r.match_conditions found)

  -- The condition with the label of the namespace set or taken away.
  unfoldable pub relabel : K.Set → String → String → MatchCondition → MatchCondition
  relabel needed namespace repository c =
      if K.has needed (condition_key repository c)
      then record c { labels = assign c.labels (namespace_label namespace) "true" }
      else record c { labels = delete c.labels (namespace_label namespace) }

  -- The loop over the conditions, with those of the needed ones that it has met.
  unfoldable pub process_conditions :
      K.Set → String → String → List MatchCondition → K.Set → List MatchCondition × K.Set
  unfolding relabel
  process_conditions needed namespace repository [] matched = ([], matched)
  process_conditions needed namespace repository (c ∷ conditions) matched =
      let key = condition_key repository c in
      let new = relabel needed namespace repository c in
      let (kept, all_matched) =
        process_conditions needed namespace repository conditions
          (if K.has needed key then K.insert matched key else matched) in
      (if is_empty new.labels then kept else new ∷ kept, all_matched)

  unfoldable pub process_repository_match_conditions :
      K.Set → String → Repository → List MatchCondition × K.Set
  unfolding process_conditions
  process_repository_match_conditions needed namespace r =
      process_conditions needed namespace r.name r.match_conditions K.empty

  unfoldable pub process_existing_repositories :
      K.Set → String → List Repository → K.Set → List Repository × K.Set
  unfolding process_repository_match_conditions
  process_existing_repositories needed namespace [] processed = ([], processed)
  process_existing_repositories needed namespace (r ∷ repositories) processed =
      let (conditions, matched) = process_repository_match_conditions needed namespace r in
      let (rest, all_processed) =
        process_existing_repositories needed namespace repositories (K.union processed matched) in
      (if is_empty conditions then rest else with_conditions r conditions ∷ rest, all_processed)

abbrev pub new_condition : String → ConditionKey → MatchCondition
new_condition namespace key = record {
  name = key.name;
  expression = key.expression;
  labels = (namespace_label namespace, "true") ∷ [];
}

-- findOrAppendRepository, and the condition appended behind the pointer that it returns.
unfoldable pub add_condition : String → List Repository → ConditionKey → List Repository
add_condition namespace [] key =
    record {
      name = key.repository;
      match_conditions = new_condition namespace key ∷ [];
      match_operator = match_operator_or;
    }
    ∷ []
add_condition namespace (r ∷ repositories) key =
    let rest = add_condition namespace repositories key in
    if r.name == key.repository
    then record r { match_conditions = r.match_conditions ++ new_condition namespace key ∷ [] }
      ∷ repositories
    else r ∷ rest

unfoldable pub add_new_match_conditions :
    String → List Repository → List ConditionKey → List Repository
unfolding add_condition
add_new_match_conditions namespace repositories [] = repositories
add_new_match_conditions namespace repositories (key ∷ keys) =
    add_new_match_conditions namespace (add_condition namespace repositories key) keys

-- From the needed conditions to the updated repositories, before they are sorted.
unfoldable pub updated_repositories :
    (K : KeySets) → K.Set → String → List Repository → List Repository
unfolding process_existing_repositories add_new_match_conditions
updated_repositories K needed namespace repositories =
    let (kept, matched) = process_existing_repositories K needed namespace repositories K.empty in
    add_new_match_conditions namespace kept (K.unsorted_list (K.difference needed matched))

-- slices.SortFunc on repositories and on conditions, by name: what it sorts has the same items as before.
pub record NameSorts : Type 0 where
  pub repositories_by_name : List Repository → List Repository
  pub conditions_by_name : List MatchCondition → List MatchCondition
  pub any-repositories :
      (p : Repository → Bool) (rs : List Repository) → any p (repositories_by_name rs) ≡ any p rs
  pub any-conditions :
      (p : MatchCondition → Bool) (cs : List MatchCondition)
      → any p (conditions_by_name cs) ≡ any p cs

unfoldable pub sort_repositories : NameSorts → List Repository → List Repository
sort_repositories sorts repositories =
    map {A = Repository}
      (λ r. record r { match_conditions = sorts.conditions_by_name r.match_conditions })
      (sorts.repositories_by_name repositories)

-- ===== src/Tests/WorkloadRuns.antt =====
-- The workload controller on one pod: sets of conditions as lists, and an API server that stores nothing.
use sbombastic.Common.{
  String, ◌≡◌, refl, ap, arith, Bool, true, false, not, ◌&&◌, none, List, [], ◌∷◌, any, any-append,
  ◌++◌, assign, delete, All, ◌==◌, if◌then◌else◌, Bool-cases, inl, inr, lookup, ok,
}
use mathlib.Core.Path.{subst}
use sbombastic.Effects.{Run, read}
use sbombastic.Effects.Keeps.{Keeps}
use sbombastic.Effects.Yields.{Yields}
use sbombastic.Sets.{insert_all}
use sbombastic.Registry.{
  Registry, is_managed_by_workload_scan, label_is, label_managed_by_key, label_managed_by_value,
  label_workload_scan_key, label_workload_scan_value,
}
use sbombastic.Workloads.Managed.{IsListed, Fitting, reconcile_registries-Fitting}
use sbombastic.Workloads.Storing.{stores}
use sbombastic.Workloads.Stored.{reconcile_registries-stores}
use sbombastic.Workloads.Recognized.{is_foreign, names_tag, created_repositories-read}
use sbombastic.Workloads.{
  build_needed_match_conditions, ConditionKey, same_key, KeySets, NameSorts, sort_repositories,
  updated_repositories, namespace_label,
}
use sbombastic.Workloads.Contributions.{same_key-path}
use sbombastic.Workloads.Wanted.{wanted, updated_repositories-wanted}
use sbombastic.Workloads.Registries.{
  Pod, WorkloadConfig, WorkloadTools, needed_conditions, tags_of, insert_pods, group_images,
  group_parsed, extract_images_from_pod_spec, created_repositories, Tags,
}
use sbombastic.Workloads.Reconcile.{
  RegistryEvent, RegistryClient, reconcile_registries, registries_by_uri, update_existing,
  create_missing, registry_namespace_of,
}
use sbombastic.Tests.Cluster.{plain_names}
use sbombastic.Tests.ListSets.{list_sets, add, dedupe}
use sbombastic.Tests.RegistryRuns.{registry_of, app}

abbrev has_key : List ConditionKey → ConditionKey → Bool
has_key s k = any (λ x. same_key x k) s

without : List ConditionKey → List ConditionKey → List ConditionKey
without [] t = []
without (x ∷ s) t = let rest = without s t in if has_key t x then rest else x ∷ rest

has-without :
    (s t : List ConditionKey) (k : ConditionKey)
    → has_key (without s t) k ≡ (has_key s k && not (has_key t k))
unfolding without
has-without [] t k = refl
has-without (x ∷ s) t k = elim (Bool-cases (same_key x k)) [
  | inl e ↦
      let same : has_key t x ≡ has_key t k = ap (has_key t) (same_key-path x k e) in
      ground (arith, e, same, has-without s t k)
  | inr e ↦ ground (arith, e, has-without s t k)
]

abbrev list_keys : KeySets
list_keys = record {
  Set = List ConditionKey;
  empty = [];
  insert = λ s k. k ∷ s;
  union = λ s t. s ++ t;
  difference = without;
  has = has_key;
  unsorted_list = λ s. s;
  has-empty = λ k. refl;
  has-insert = λ s x k. refl;
  has-union = λ s t k. any-append (λ x. same_key x k) s t;
  has-difference = has-without;
  any-unsorted_list = λ s k. refl;
}

abbrev in_order : NameSorts
in_order = record {
  repositories_by_name = λ rs. rs;
  conditions_by_name = λ cs. cs;
  any-repositories = λ p rs. refl;
  any-conditions = λ p cs. refl;
}

abbrev tools : WorkloadTools
tools = record {
  sets = list_sets;
  keys = list_keys;
  sorts = in_order;
  quoted = λ text. text;
  parse_reference = λ image. ok (record {
    name = image;
    context_name = "hub.example/app";
    registry_str = "hub.example";
    repository_str = "app";
    identifier = "v1";
  });
  hex_sha256 = λ text. text;
  sort_strings = λ texts. texts;
  marshal = λ request. ok "{}";
}

abbrev other_registry : Registry
other_registry = record (registry_of (app ∷ [])) {
  labels =
      (label_managed_by_key, label_managed_by_value)
      ∷ (label_workload_scan_key, label_workload_scan_value)
      ∷ [];
  spec = record (registry_of (app ∷ [])).spec { uri = "other.example" };
}

-- One registry is listed, whose images no pod runs any more.
abbrev client : RegistryClient (Unit {0})
client = record {
  list_registries = λ namespace w. (ok (other_registry ∷ []), w);
  create_registry = λ registry w. (ok tt, w);
  update_registry = λ registry w. (ok tt, w);
  delete_registry = λ name namespace w. (ok tt, w);
  new_uuid = λ w. (ok "uuid", w);
}

abbrev config : WorkloadConfig
config = record {
  artifacts_namespace = "default";
  scan_interval = none;
  scan_on_change = true;
  auth_secret = "";
  ca_bundle = "";
  ca_bundle_ref = none;
  insecure = false;
  platforms = [];
}

abbrev pods : List Pod
pods =
    record {
      init_containers = [];
      containers = record { name = "app"; image = "hub.example/app:v1" } ∷ [];
    }
    ∷ []

abbrev app_v1 : ConditionKey
app_v1 = record { repository = "app"; name = "tag-v1"; expression = "tag == v1" }

abbrev start : Run (Unit {0}) RegistryEvent
start = record { world = tt; trace = [] }

updated_repositories-wanted_example :
    wanted "namespace/a"
      (sort_repositories in_order (updated_repositories list_keys (app_v1 ∷ []) "a" (app ∷ [])))
      app_v1
    ≡ (if namespace_label "a" == "namespace/a"
        then has_key (app_v1 ∷ []) app_v1
        else wanted "namespace/a" (app ∷ []) app_v1)
updated_repositories-wanted_example =
    updated_repositories-wanted list_keys in_order (app_v1 ∷ []) "a" "namespace/a" (app ∷ []) app_v1

listed : Yields (All (IsListed (registry_namespace_of tools client config "a"))) (
    read {E = RegistryEvent}
      (client.list_registries (registry_namespace_of tools client config "a")))
unfolding registry_namespace_of is_managed_by_workload_scan label_is lookup
listed = record {
  yield = λ s found e. subst (All (IsListed "default")) (ok_same e) ((refl, refl), tt);
}
  where
    ok_same :
        {found : List Registry} → ok (other_registry ∷ []) ≡ ok found → other_registry ∷ [] ≡ found
    ok_same e = cc

reconcile_registries-Fitting_example :
    Keeps
      (Fitting tools "a" (registry_namespace_of tools client config "a") pods)
      (reconcile_registries tools client config "a" pods)
reconcile_registries-Fitting_example =
    reconcile_registries-Fitting tools client config "a" pods listed

app_needed :
    has_key
      (needed_conditions tools
        (tags_of tools (registries_by_uri tools client config pods) "hub.example"))
      app_v1
    ≡ true
unfolding registries_by_uri insert_pods group_images needed_conditions tags_of insert_all add dedupe
    extract_images_from_pod_spec group_parsed lookup assign build_needed_match_conditions
app_needed = refl

reconciled : (reconcile_registries tools client config "a" pods start).0 ≡ ok tt
unfolding reconcile_registries registries_by_uri insert_pods group_images needed_conditions tags_of
    insert_all add dedupe extract_images_from_pod_spec group_parsed lookup assign
    build_needed_match_conditions update_existing create_missing without delete
reconciled = refl

reconcile_registries-stores_example :
    any (stores "hub.example") (reconcile_registries tools client config "a" pods start).1.trace
    ≡ true
reconcile_registries-stores_example =
    reconcile_registries-stores tools client config "a" pods "hub.example" app_v1 start app_needed
      reconciled

abbrev app_tags : Tags tools
app_tags = ("app", list_sets.new ("v1" ∷ [])) ∷ []

created_repositories-read_example :
    (any (is_foreign plain_names) (created_repositories tools "a" app_tags) ≡ false)
    × (any (names_tag plain_names "app" "v1") (created_repositories tools "a" app_tags)
        ≡ any {A = String × list_sets.Set}
            (λ e. (e.0 == "app") && list_sets.has (e.1) "v1")
            app_tags)
created_repositories-read_example =
    created_repositories-read tools plain_names "a" "app" "v1" app_tags refl

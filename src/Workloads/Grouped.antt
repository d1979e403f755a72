-- ===== src/Workloads/Grouped.antt =====
-- internal/controller/workloadscan_controller_registry.go: the conditions that the images of the pods ask
-- for, image by image, and those that the grouping by registry and repository gives.
use Prim.Native.String.{◌++◌ as ◌<>◌}
use sbombastic.Common.{
  ◌≡◌, refl, sym, ap, ◌∙◌, arith, if◌then◌else◌, String, Bool, true, false, not, ◌&&◌, ◌||◌, List,
  [], ◌∷◌, any, any-append, any-map, any-cong, map, ◌==◌, GoMap, lookup, assign, lookup-assign,
  contains, eq_iff, eq_refl, Bool-cases, inl, inr, Result, ok, err, panic, append,
}
use sbombastic.Sets.{insert_all}
use sbombastic.Catalog.Images.{Reference}
use sbombastic.Workloads.{ConditionKey, same_key, tag_name, tag_expression}
use sbombastic.Workloads.Needed.{tagged, needed_conditions-has}
use sbombastic.Workloads.Registries.{
  Pod, WorkloadConfig, WorkloadTools, Tags, tag_key, tags_of, tag_set, group_image, group_parsed,
  group_images, insert_pods, extract_images_from_pod_spec, needed_conditions,
}
use sbombastic.Workloads.Reconcile.{RegistryClient, registries_by_uri}

holds_of :
    (f : String → Bool) (xs : List String) (y : String)
    → contains xs y ≡ true
    → f y ≡ true
    → any f xs ≡ true
holds_of f [] y c h = ground arith
holds_of f (x ∷ xs) y c h = elim (Bool-cases (x == y)) [
  | inl e ↦ rw (ap f ((eq_iff x y).0 e), h) refl
  | inr e ↦ ground (arith, holds_of f xs y)
]

any-Within :
    (f : String → Bool) (xs ys : List String)
    → ((y : String) → contains xs y ≡ true → contains ys y ≡ true)
    → any f xs ≡ true
    → any f ys ≡ true
any-Within f [] ys w h = ground arith
any-Within f (x ∷ xs) ys w h = elim (Bool-cases (f x)) [
  | inl e ↦ holds_of f ys x (w x (rw (eq_refl x) refl)) e
  | inr e ↦ any-Within f xs ys (λ y c. w y (ground arith)) (ground arith)
]

-- A test holds of some item of two lists alike when they have the same items.
any-same :
    (f : String → Bool) (xs ys : List String)
    → ((y : String) → contains xs y ≡ contains ys y)
    → any f xs ≡ any f ys
any-same f xs ys same =
    ground
      (arith, any-Within f xs ys (λ y c. sym (same y) ∙ c), any-Within f ys xs (λ y c. same y ∙ c))

module _ (tools : WorkloadTools) where
  -- The reference is one of the registry, and the condition is that of its repository and tag.
  abbrev pub refers : String → ConditionKey → Result Reference → Bool
  refers uri k (ok reference) =
      (reference.registry_str == uri)
      && same_key
          (record {
            repository = reference.repository_str;
            name = append "tag-" reference.identifier;
            expression = "tag == " <> tools.quoted reference.identifier;
          })
          k
  refers uri k _ = false

  -- An image asks a registry for a condition.
  abbrev pub needs : String → ConditionKey → String → Bool
  needs uri k image = not (image == "") && refers uri k (tools.parse_reference image)

  -- Some container of some pod runs an image that asks for it.
  abbrev pub run_by : List Pod → String → ConditionKey → Bool
  run_by pods uri k =
      any
        (λ pod.
          any (λ c. needs uri k c.image) pod.init_containers
          || any (λ c. needs uri k c.image) pod.containers)
        pods

  inserted :
      (f : String → Bool) (s : tools.sets.Set) (x : String)
      → any f (tools.sets.unsorted_list (tools.sets.insert s x))
        ≡ (f x || any f (tools.sets.unsorted_list s))
  inserted f s x =
      any-same f (tools.sets.unsorted_list (tools.sets.insert s x)) (x ∷ tools.sets.unsorted_list s)
        (λ y.
          tools.sets.contains-unsorted_list (tools.sets.insert s x) y
          ∙ rw (tools.sets.has-insert s x y, tools.sets.contains-unsorted_list s y) refl)

  empty_set : (f : String → Bool) → any f (tools.sets.unsorted_list (tools.sets.new [])) ≡ false
  empty_set f =
      any-same f (tools.sets.unsorted_list (tools.sets.new [])) []
        (λ y. tools.sets.contains-unsorted_list (tools.sets.new []) y ∙ tools.sets.has-new [] y)

  abbrev stands_for : String → ConditionKey → String → Bool
  stands_for repository k tag = same_key (tag_key tools repository tag) k

  tag_set-first :
      (name repository : String) (names : tools.sets.Set) (tags : Tags tools)
      → (name == repository) ≡ true
      → tag_set tools ((name, names) ∷ tags) repository ≡ names
  unfolding tag_set lookup
  tag_set-first name repository names tags e = rw (tag_set, e) refl

  tag_set-later :
      (name repository : String) (names : tools.sets.Set) (tags : Tags tools)
      → (name == repository) ≡ false
      → tag_set tools ((name, names) ∷ tags) repository ≡ tag_set tools tags repository
  unfolding tag_set lookup
  tag_set-later name repository names tags e = rw (tag_set, e) refl

  tagged-assign :
      (tags : Tags tools) (repository identifier : String) (k : ConditionKey)
      → tagged tools
          (assign tags repository (tools.sets.insert (tag_set tools tags repository) identifier))
          k
        ≡ (stands_for repository k identifier || tagged tools tags k)
  unfolding assign tag_set lookup
  tagged-assign [] repository identifier k = ground (
    arith,
    inserted (stands_for repository k) (tools.sets.new []) identifier,
    empty_set (stands_for repository k),
  )
  tagged-assign ((name, names) ∷ tags) repository identifier k =
      elim (Bool-cases (name == repository)) [
        | inl e ↦
            rw (tag_set-first name repository names tags e, e, (eq_iff name repository).0 e)
              (ground (arith, inserted (stands_for repository k) names identifier))
        | inr e ↦
            rw (tag_set-later name repository names tags e, e)
              (ground (arith, tagged-assign tags repository identifier k))
      ]

  insert_all-any :
      (f : String → Bool) (xs : List String) (s : tools.sets.Set)
      → any f (tools.sets.unsorted_list (insert_all tools.sets s xs))
        ≡ (any f xs || any f (tools.sets.unsorted_list s))
  unfolding insert_all
  insert_all-any f [] s = refl
  insert_all-any f (x ∷ xs) s =
      ground (arith, insert_all-any f xs (tools.sets.insert s x), inserted f s x)

  extracted :
      (f : String → Bool) (pod : Pod)
      → any f (extract_images_from_pod_spec pod)
        ≡ (any (λ c. f c.image) pod.init_containers || any (λ c. f c.image) pod.containers)
  unfolding extract_images_from_pod_spec
  extracted f pod =
      any-append f (map (λ c. c.image) pod.init_containers) (map (λ c. c.image) pod.containers)
      ∙ rw (any-map f (λ c. c.image) pod.init_containers, any-map f (λ c. c.image) pod.containers)
          refl

  -- What the grouping holds of a URI.
  abbrev held : GoMap (Tags tools) → String → ConditionKey → Bool
  held registries uri k = tagged tools (tags_of tools registries uri) k

  tags_of-assign :
      (registries : GoMap (Tags tools)) (key uri : String) (tags : Tags tools)
      → tags_of tools (assign registries key tags) uri
        ≡ (if key == uri then tags else tags_of tools registries uri)
  unfolding tags_of
  tags_of-assign registries key uri tags = elim (Bool-cases (key == uri)) [
    | inl e ↦ rw (tags_of, lookup-assign registries key uri tags, e) refl
    | inr e ↦ rw (tags_of, lookup-assign registries key uri tags, e) refl
  ]

  group_image-held :
      (registries : GoMap (Tags tools)) (r : Reference) (uri : String) (k : ConditionKey)
      → held (group_image tools registries r) uri k ≡ (refers uri k (ok r) || held registries uri k)
  unfolding group_image tag_name tag_expression
  group_image-held registries r uri k =
      let tags = tags_of tools registries r.registry_str in
      let more =
        assign tags r.repository_str
          (tools.sets.insert (tag_set tools tags r.repository_str) r.identifier) in
      elim (Bool-cases (r.registry_str == uri)) [
        | inl e ↦
            rw (tags_of-assign registries r.registry_str uri more, e)
              (tagged-assign tags r.repository_str r.identifier k
                ∙ rw ((eq_iff r.registry_str uri).0 e) refl)
        | inr e ↦ rw (tags_of-assign registries r.registry_str uri more, e) refl
      ]

  group_parsed-held :
      (registries : GoMap (Tags tools)) (parsed : Result Reference) (uri : String)
      (k : ConditionKey)
      → held (group_parsed tools registries parsed) uri k
        ≡ (refers uri k parsed || held registries uri k)
  unfolding group_parsed
  group_parsed-held registries (ok r) uri k = group_image-held registries r uri k
  group_parsed-held registries (err e) uri k = refl
  group_parsed-held registries panic uri k = refl

  group_images-held :
      (images : List String) (registries : GoMap (Tags tools)) (uri : String) (k : ConditionKey)
      → held (group_images tools images registries) uri k
        ≡ (any (needs uri k) images || held registries uri k)
  unfolding group_images
  group_images-held [] registries uri k = refl
  group_images-held (image ∷ images) registries uri k = elim (Bool-cases (image == "")) [
    | inl e ↦ rw e (group_images-held images registries uri k)
    | inr e ↦ rw e (
        ground (
          arith,
          group_images-held images (group_parsed tools registries (tools.parse_reference image)) uri
              k,
          group_parsed-held registries (tools.parse_reference image) uri k,
        ))
  ]

  -- Whether an item of a set passes a test, with the images of the pods added to it.
  insert_pods-any :
      (f : String → Bool) (pods : List Pod) (s : tools.sets.Set)
      → any f (tools.sets.unsorted_list (insert_pods tools pods s)) ≡ (
          any (λ pod. any f (extract_images_from_pod_spec pod)) pods
          || any f (tools.sets.unsorted_list s))
  unfolding insert_pods
  insert_pods-any f [] s = refl
  insert_pods-any f (pod ∷ pods) s = ground (
    arith,
    insert_pods-any f pods (insert_all tools.sets s (extract_images_from_pod_spec pod)),
    insert_all-any f (extract_images_from_pod_spec pod) s,
  )

  -- The set of conditions that the grouping gives for a URI has the condition where some container of some
  -- pod runs an image that asks for it, and only there.
  pub registries_by_uri-run_by :
      {W : Type 0} (client : RegistryClient W) (config : WorkloadConfig) (pods : List Pod)
      (uri : String) (k : ConditionKey)
      → tools.keys.has
          (needed_conditions tools (tags_of tools (registries_by_uri tools client config pods) uri))
          k
        ≡ run_by pods uri k
  unfolding registries_by_uri tags_of lookup
  registries_by_uri-run_by client config pods uri k =
      needed_conditions-has tools (tags_of tools (registries_by_uri tools client config pods) uri) k
      ∙ (group_images-held (tools.sets.unsorted_list (insert_pods tools pods (tools.sets.new [])))
            [] uri k
          ∙ ground (
            arith,
            insert_pods-any (needs uri k) pods (tools.sets.new []),
            empty_set (needs uri k),
            any-cong (λ pod. any (needs uri k) (extract_images_from_pod_spec pod))
                (λ pod.
                  any (λ c. needs uri k c.image) pod.init_containers
                  || any (λ c. needs uri k c.image) pod.containers)
                (λ pod. extracted (needs uri k) pod) pods,
          ))

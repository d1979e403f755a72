-- ===== src/Workloads/Needed.antt =====
-- internal/controller/workloadscan_controller_registry.go: the conditions that tags stand for, in the set of
-- needed ones and in a new Registry.
use sbombastic.Common.{
  ◌≡◌, refl, sym, ◌∙◌, arith, String, Bool, ◌||◌, List, [], ◌∷◌, any, map, HasKeysOnce,
  HasKeysOnce-assign, ◌==◌, GoMap, eq_refl, Bool-cases, inl, inr, Result, ok, err, panic,
}
use sbombastic.Registry.{Repository}
use sbombastic.Catalog.Images.{Reference}
use sbombastic.Workloads.{
  ConditionKey, same_key, namespace_label, insert_tags, insert_repositories,
  build_needed_match_conditions, new_condition,
}
use sbombastic.Workloads.Contributions.{bears}
use sbombastic.Workloads.Wanted.{wanted, wanted-sort, new_condition-bears}
use sbombastic.Workloads.Registries.{
  WorkloadTools, Tags, tag_key, group_image, group_parsed, created_repository, group_images,
  needed_conditions, created_repositories,
}

module _ (tools : WorkloadTools) where
  group_parsed-HasKeysOnce :
      (parsed : Result Reference) (registries : GoMap (Tags tools))
      → HasKeysOnce registries
      → HasKeysOnce (group_parsed tools registries parsed)
  unfolding group_parsed group_image
  group_parsed-HasKeysOnce (ok reference) registries h =
      HasKeysOnce-assign registries reference.registry_str _ h
  group_parsed-HasKeysOnce (err e) registries h = h
  group_parsed-HasKeysOnce panic registries h = h

  pub group_images-HasKeysOnce :
      (images : List String) (registries : GoMap (Tags tools))
      → HasKeysOnce registries
      → HasKeysOnce (group_images tools images registries)
  unfolding group_images
  group_images-HasKeysOnce [] registries h = h
  group_images-HasKeysOnce (image ∷ images) registries h = elim (Bool-cases (image == "")) [
    | inl e ↦ rw e (group_images-HasKeysOnce images registries h)
    | inr e ↦ rw e (
        group_images-HasKeysOnce images _
          (group_parsed-HasKeysOnce (tools.parse_reference image) registries h))
  ]

  insert_tags-has :
      (repository : String) (tags : List String) (needed : tools.keys.Set) (k : ConditionKey)
      → tools.keys.has (insert_tags tools.sets tools.keys tools.quoted repository tags needed) k
        ≡ (any (λ t. same_key (tag_key tools repository t) k) tags || tools.keys.has needed k)
  unfolding insert_tags
  insert_tags-has repository [] needed k = refl
  insert_tags-has repository (t ∷ tags) needed k = ground (
    arith,
    insert_tags-has repository tags (tools.keys.insert needed (tag_key tools repository t)) k,
    tools.keys.has-insert needed (tag_key tools repository t) k,
  )

  -- Some tag stands for the condition.
  abbrev pub tagged : Tags tools → ConditionKey → Bool
  tagged tags k =
      any (λ e. any (λ t. same_key (tag_key tools (e.0) t) k) (tools.sets.unsorted_list (e.1))) tags

  insert_repositories-has :
      (tags : Tags tools) (needed : tools.keys.Set) (k : ConditionKey)
      → tools.keys.has (insert_repositories tools.sets tools.keys tools.quoted tags needed) k
        ≡ (tagged tags k || tools.keys.has needed k)
  unfolding insert_repositories
  insert_repositories-has [] needed k = refl
  insert_repositories-has ((repository, names) ∷ tags) needed k = ground (
    arith,
    insert_repositories-has tags
        (insert_tags tools.sets tools.keys tools.quoted repository (tools.sets.unsorted_list names)
          needed)
        k,
    insert_tags-has repository (tools.sets.unsorted_list names) needed k,
  )

  pub needed_conditions-has :
      (tags : Tags tools) (k : ConditionKey)
      → tools.keys.has (needed_conditions tools tags) k ≡ tagged tags k
  unfolding needed_conditions build_needed_match_conditions
  needed_conditions-has tags k =
      ground (arith, insert_repositories-has tags tools.keys.empty k, tools.keys.has-empty k)

  abbrev new_repository : String → String × tools.sets.Set → Repository
  new_repository namespace e = created_repository tools namespace (e.0) (e.1)

  new_repository-wanted :
      (namespace repository : String) (names : List String) (k : ConditionKey)
      → any
          (bears (namespace_label namespace) repository k)
          (map (λ tag. new_condition namespace (tag_key tools repository tag)) names)
        ≡ any (λ t. same_key (tag_key tools repository t) k) names
  new_repository-wanted namespace repository [] k = refl
  new_repository-wanted namespace repository (t ∷ names) k =
      rw
        (
          new_condition-bears namespace (namespace_label namespace) repository
              (tag_key tools repository t) k (eq_refl repository),
          eq_refl (namespace_label namespace),
          new_repository-wanted namespace repository names k,
        )
        refl

  new_repositories-wanted :
      (namespace : String) (tags : Tags tools) (k : ConditionKey)
      → wanted (namespace_label namespace) (map (new_repository namespace) tags) k ≡ tagged tags k
  unfolding wanted created_repository
  new_repositories-wanted namespace [] k = refl
  new_repositories-wanted namespace ((repository, names) ∷ tags) k =
      rw
        (
          new_repository-wanted namespace repository (tools.sets.unsorted_list names) k,
          new_repositories-wanted namespace tags k,
        )
        refl

  pub created-wanted :
      (namespace : String) (tags : Tags tools) (k : ConditionKey)
      → wanted (namespace_label namespace) (created_repositories tools namespace tags) k
        ≡ tools.keys.has (needed_conditions tools tags) k
  unfolding created_repositories
  created-wanted namespace tags k =
      wanted-sort tools.sorts (namespace_label namespace) (map (new_repository namespace) tags) k
      ∙ (new_repositories-wanted namespace tags k ∙ sym (needed_conditions-has tags k))

-- ===== src/Workloads/Stored.antt =====
-- internal/controller/workloadscan_controller_registry.go: reconcileRegistries, where it returns no
-- error, has stored what the pods need.
use mathlib.Core.Path.{subst}
use sbombastic.Common.{
  ◌≡◌, refl, sym, ap, ◌∙◌, arith, String, true, false, some, List, [], ◌∷◌, any, ◌==◌, GoMap,
  lookup, eq_iff, eq_refl, is_empty, Bool-cases, Option-cases, inl, inr, ok,
}
use sbombastic.Effects.{Run}
use sbombastic.Effects.Keeps.{Keeps-if, Keeps-pure}
use sbombastic.Effects.Triples.{Triple, Triple-if}
use sbombastic.Effects.Ends.{
  Ends, Ends-pure, Ends-call, Ends-Keeps, Ends-weaken, ended, Ends-branch,
}
use sbombastic.Registry.{Registry, Repository}
use sbombastic.Workloads.{ConditionKey, namespace_label, updated_repositories}
use sbombastic.Workloads.Wanted.{wanted-updated}
use sbombastic.Workloads.Needed.{needed_conditions-has}
use sbombastic.Workloads.Registries.{
  Pod, WorkloadConfig, WorkloadTools, Tags, tags_of, needed_conditions, configured,
}
use sbombastic.Workloads.Reconcile.{
  RegistryEvent, RegistryClient, put_registry, update_registry, update_existing, create_missing,
  registries_by_uri, reconcile_registries,
}
use sbombastic.Workloads.Growing.{put-Keeps, create-Keeps, delete-Keeps, missing-Keeps}
use sbombastic.Workloads.Storing.{
  stores, IsStored, IsStored-grows, empty-unwanted, write-stores, create-stores,
}

module _ {W : Type 0} (tools : WorkloadTools) (client : RegistryClient W) (config : WorkloadConfig)
    (namespace uri : String) (by_uri : GoMap (Tags tools)) (k : ConditionKey)
    (needs : tools.keys.has (needed_conditions tools (tags_of tools by_uri uri)) k ≡ true) where
  nonempty-updated :
      (rs : List Repository)
      → is_empty (
          updated_repositories tools.keys
            (needed_conditions tools (tags_of tools by_uri uri))
            namespace
            rs)
        ≡ false
  nonempty-updated rs =
      let needed = needed_conditions tools (tags_of tools by_uri uri) in
      empty-unwanted (namespace_label namespace) k
        (updated_repositories tools.keys needed namespace rs)
        (wanted-updated tools.keys needed namespace (namespace_label namespace) rs k
          ∙ rw (eq_refl (namespace_label namespace)) needs)

  update-stores :
      (r : Registry)
      → r.spec.uri ≡ uri
      → Triple
          (λ t. Unit {0})
          (update_registry tools client config namespace (tags_of tools by_uri r.spec.uri) r)
          (Ends (λ a t. IsStored uri t))
  unfolding update_registry put_registry configured
  update-stores r same =
      rw (same, nonempty-updated r.spec.repositories)
        (write-stores tools client config uri r _ (eq_refl uri))

  -- A URI that has been met has been stored.
  abbrev Met : tools.sets.Set → List RegistryEvent → Type 0
  Met processed t = tools.sets.has processed uri ≡ true → IsStored uri t

  Met-grows :
      (processed : tools.sets.Set) (e : RegistryEvent) (t : List RegistryEvent)
      → Met processed t
      → Met processed (e ∷ t)
  Met-grows processed e t h p = IsStored-grows uri e t (h p)

  update-Met :
      (r : Registry) (processed : tools.sets.Set)
      → Triple
          (Met processed)
          (update_registry tools client config namespace (tags_of tools by_uri r.spec.uri) r)
          (Ends (λ a t. Met (tools.sets.insert processed r.spec.uri) t))
  unfolding update_registry
  update-Met r processed = elim (Bool-cases (r.spec.uri == uri)) [
    | inl e ↦ Ends-weaken (update-stores r ((eq_iff r.spec.uri uri).0 e)) (λ t p. tt) (λ a t q h. q)
    | inr e ↦
        Ends-Keeps _ (put-Keeps tools client config (Met processed) (Met-grows processed) r _)
          (λ t p. p)
          (λ a t q. λ h. q (sym (tools.sets.has-insert processed r.spec.uri uri ∙ rw e refl) ∙ h))
  ]

  existing-Met :
      (rs : List Registry) (processed : tools.sets.Set)
      → Triple
          (Met processed)
          (update_existing tools client config namespace by_uri rs processed)
          (Ends Met)
  unfolding update_existing
  existing-Met [] processed = Ends-pure processed (λ t p. p)
  existing-Met (r ∷ rs) processed =
      let more = tools.sets.insert processed r.spec.uri in
      Ends-branch (λ a t. Met more t) _ _ (update-Met r processed)
        λ should_delete.
          Ends-branch (λ a t. Met more t) _ _
            (Ends-Keeps _
              (Keeps-if should_delete _ _
                (λ e. delete-Keeps tools client config (Met more) (Met-grows more) r)
                (λ e. Keeps-pure tt))
              (λ t p. p) (λ a t q. q))
            (λ _. existing-Met rs more)

  missing-Met :
      (kept_in : String) (processed : tools.sets.Set) (entries : GoMap (Tags tools))
      → Triple
          (Met processed)
          (create_missing tools client config namespace kept_in processed entries)
          (Ends (λ a t. any (λ e. (e.0) == uri) entries ≡ true → IsStored uri t))
  unfolding create_missing
  missing-Met kept_in processed [] = Ends-pure tt (λ t p h. ground (arith, h))
  missing-Met kept_in processed ((name, tags) ∷ entries) = elim (Bool-cases (name == uri)) [
    | inl e ↦
        let p = (eq_iff name uri).0 e in
        let rest_keeps =
          missing-Keeps tools client config (IsStored uri) (IsStored-grows uri) namespace kept_in
            processed entries in
        Triple-if (tools.sets.has processed name) _ _
          (λ h.
            Ends-Keeps _ rest_keeps (λ t met. met (ap (tools.sets.has processed) (sym p) ∙ h))
              (λ a t q here. q))
          (λ h.
            Ends-branch (λ a t. IsStored uri t) _ _
              (Ends-weaken (create-stores tools client config name namespace kept_in tags)
                (λ t met. tt) (λ a t q. subst (λ x. IsStored x t) p q))
              (λ a. Ends-Keeps _ rest_keeps (λ t q. q) (λ b t q here. q)))
    | inr e ↦
        let rest = missing-Met kept_in processed entries in
        Triple-if (tools.sets.has processed name) _ _
          (λ h. Ends-weaken rest (λ t met. met) (λ a t q here. q (sym (rw e refl) ∙ here)))
          (λ h.
            Ends-branch (λ a t. Met processed t) _ _
              (Ends-Keeps _
                (create-Keeps tools client config (Met processed) (Met-grows processed) name
                  namespace kept_in tags)
                (λ t met. met) (λ a t met. met))
              (λ a. Ends-weaken rest (λ t met. met) (λ b t q here. q (sym (rw e refl) ∙ here))))
  ]

has_entry :
    {V : Type 0} (m : GoMap V) (key : String) (v : V)
    → lookup m key ≡ some v
    → any (λ e. (e.0) == key) m ≡ true
unfolding lookup
has_entry [] key v h = ground arith
has_entry ((name, w) ∷ m) key v h = elim (Bool-cases (name == key)) [
  | inl e ↦ rw e refl
  | inr e ↦ rw e (has_entry m key v (sym (rw e refl) ∙ h))
]

needed_entry :
    (tools : WorkloadTools) (by_uri : GoMap (Tags tools)) (uri : String) (k : ConditionKey)
    → tools.keys.has (needed_conditions tools (tags_of tools by_uri uri)) k ≡ true
    → any (λ e. (e.0) == uri) by_uri ≡ true
unfolding tags_of
needed_entry tools by_uri uri k h = elim (Option-cases (lookup by_uri uri)) [
  | inl e ↦
      let nothing : tags_of tools by_uri uri ≡ [] = rw (tags_of, e) refl in
      let no : tools.keys.has (needed_conditions tools (tags_of tools by_uri uri)) k ≡ false =
        ap (λ tags. tools.keys.has (needed_conditions tools tags) k) nothing
        ∙ needed_conditions-has tools [] k in
      ground (arith, h, no)
  | inr (tags, e) ↦ has_entry by_uri uri tags e
]

-- Where reconcileRegistries returns no error, it has created or updated a Registry of each URI of which
-- the pods need a condition, whatever Registries were listed.
pub reconcile_registries-stores :
    {W : Type 0} (tools : WorkloadTools) (client : RegistryClient W) (config : WorkloadConfig)
    (namespace : String) (pods : List Pod) (uri : String) (k : ConditionKey)
    (s : Run W RegistryEvent)
    → tools.keys.has
        (needed_conditions tools (tags_of tools (registries_by_uri tools client config pods) uri))
        k
      ≡ true
    → (reconcile_registries tools client config namespace pods s).0 ≡ ok tt
    → any (stores uri) (reconcile_registries tools client config namespace pods s).1.trace ≡ true
unfolding reconcile_registries
reconcile_registries-stores tools client config namespace pods uri k s needs h =
    let by_uri = registries_by_uri tools client config pods in
    let whole : Triple (λ t. Unit {0}) (reconcile_registries tools client config namespace pods)
        (Ends (λ a t. IsStored uri t)) =
      Ends-branch (λ a t. Unit {0}) _ _ (Ends-call _ _ (λ a t p. tt))
        λ existing.
          Ends-branch (λ a t. Met tools client config namespace uri by_uri k needs a t) _ _
            (Ends-weaken
              (existing-Met tools client config namespace uri by_uri k needs existing
                (tools.sets.new []))
              (λ t p q. ground (arith, tools.sets.has-new [] uri, q)) (λ a t q. q))
            (λ processed.
              Ends-weaken
                (missing-Met tools client config namespace uri by_uri k needs _ processed by_uri)
                (λ t p. p) (λ a t q. q (needed_entry tools by_uri uri k needs))) in
    ended whole s tt tt h

-- ===== src/Rescans/Runner/Removal.antt =====
-- What removeRescanAnnotations changes.
use sbombastic.Common.{
  ◌⊎◌, inl, inr, String, ◌≡◌, ap, List, [], ◌∷◌, any, is_empty, is_some, lookup, lookup-delete,
  delete, contains, none, GoMap, refl, arith, if◌then◌else◌, Result, ok,
}
use sbombastic.Effects.{call, Retry}
use sbombastic.Effects.Triples.{
  Triple, Triple-pure, Triple-if, Triple-call, Triple-retry, Triple-asked,
}
use sbombastic.Registry.{Registry}
use sbombastic.Rescans.Runner.{
  Change, registry_updated, RunnerServices, RunnerTools, without_keys, remove_keys, remove_once,
  remove_rescan_annotations,
}

-- The registry has lost the annotations of the keys and nothing else.
pub record Spares (keys : List String) (current new : Registry) : Type 0 where
  pub annotations :
      (key : String)
      → lookup new.annotations key
        ≡ (if contains keys key then none else lookup current.annotations key)
  pub others : new ≡ record current { annotations = new.annotations }

lookup-remove_keys :
    (keys : List String) (m : GoMap String) (key : String)
    → lookup (remove_keys keys m) key ≡ (if contains keys key then none else lookup m key)
unfolding remove_keys
lookup-remove_keys [] m key = refl
lookup-remove_keys (k ∷ keys) m key =
    ground (arith, lookup-remove_keys keys (delete m k) key, lookup-delete m k key)

without_keys-Spares :
    (keys : List String) (current : Registry) → Spares keys current (without_keys keys current)
unfolding without_keys
without_keys-Spares keys current = record {
  annotations = lookup-remove_keys keys current.annotations;
  others = refl;
}

module _ {W : Type 0} (tools : RunnerTools) (services : RunnerServices W)
    (retry : Retry W Change (Unit {0})) (registry : Registry) where
  -- The API server has answered with that registry.
  abbrev pub IsRead : Registry → Type 0
  IsRead current =
      (w : W) × ((services.get_registry registry.name registry.namespace w).0 ≡ ok current)

  -- The retried body: on success at most one update, else nothing.
  abbrev pub Removed : List String → List Change → Result (Unit {0}) → List Change → Type 0
  Removed keys t (ok a) u =
      (u ≡ t)
      ⊎ ((current : Registry) × (new : Registry) × (IsRead current
            × (Spares keys current new × (u ≡ registry_updated new ∷ t))))
  Removed keys t _ u = u ≡ t

  update-Removed :
      (keys : List String) (t : List Change) (current : Registry)
      → IsRead current
      → Triple
          (λ u. u ≡ t)
          (call
            (services.update_registry (without_keys keys current))
            (λ _. registry_updated (without_keys keys current) ∷ []))
          (Removed keys t)
  update-Removed keys t current is_read =
      Triple-call _ _
        (λ a u p. inr (
          current,
          without_keys keys current,
          (
            is_read,
            (
              without_keys-Spares keys current,
              ap (λ v. registry_updated (without_keys keys current) ∷ v) p,
            ),
          ),
        ))
        (λ e u p. p) (λ u p. p)

  remove_once-Removed :
      (keys : List String) (t : List Change)
      → Triple (λ u. u ≡ t) (remove_once tools services retry registry keys) (Removed keys t)
  unfolding remove_once
  remove_once-Removed keys t =
      Triple-asked (services.get_registry registry.name registry.namespace) [] t _ (λ e. refl) refl
        λ current w answer.
          Triple-if (any (λ key. is_some (lookup current.annotations key)) keys) _ _
            (λ _. update-Removed keys t current (w, answer)) (λ _. Triple-pure tt (λ u p. inl p))

  pub remove-Removed :
      (keys : List String) (t : List Change)
      → Triple
          (λ u. u ≡ t)
          (remove_rescan_annotations tools services retry registry keys)
          (Removed keys t)
  unfolding remove_rescan_annotations
  remove-Removed keys t =
      Triple-if (is_empty keys) _ _ (λ _. Triple-pure tt (λ u p. inl p))
        (λ _.
          Triple-retry retry (remove_once tools services retry registry keys)
            (remove_once-Removed keys t) (λ u p. p))

-- ===== src/Catalog/Steps/Cleanup.antt =====
-- Which images the cleanup of CreateCatalogHandler deletes.
use sbombastic.Common.{
  String, ◌≡◌, refl, Bool, false, not, ◌&&◌, ◌||◌, List, [], ◌∷◌, ◌++◌, filter, ◌==◌, eq_iff, arith,
  contains, any, if◌then◌else◌, ok, is_empty,
}
use mathlib.Core.Path.{ap, ◌∙◌}
use sbombastic.Conditions.{ConditionOps}
use sbombastic.Sets.{Sets, insert_all, has-insert_all}
use sbombastic.Effects.{Run, pure}
use sbombastic.Effects.Adds.{Adds, Adds-call, Adds-then, Adds-for_each, loop_events}
use sbombastic.Job.{ScanJob, ScanJobRepository}
use sbombastic.Registry.{Registry}
use sbombastic.Objects.{Image, Event, image_deleted, extended}
use sbombastic.Catalog.Steps.{
  CatalogServices, image_names, obsolete_names, delete_obsolete_images, cleanup,
}

-- Does the event delete this image of this namespace?
abbrev pub is_deletion : String → String → Event → Bool
is_deletion namespace name (image_deleted n ns) = n == name && ns == namespace
is_deletion namespace name _ = false

-- What the deletion of one image adds, latest first.
abbrev deletion : String → String → List Event
deletion namespace n = extended ∷ image_deleted n namespace ∷ []

contains-filter :
    (p : String → Bool) (xs : List String) (y : String)
    → contains (filter p xs) y ≡ (contains xs y && p y)
contains-filter p [] y = refl
contains-filter p (x ∷ xs) y = ground (arith, contains-filter p xs y, eq_iff x y)

any-append : (p : Event → Bool) (xs ys : List Event) → any p (xs ++ ys) ≡ (any p xs || any p ys)
any-append p [] ys = refl
any-append p (x ∷ xs) ys = ground (arith, any-append p xs ys)

any-loop_events :
    (namespace name : String) (ns : List String)
    → any (is_deletion namespace name) (loop_events (deletion namespace) ns) ≡ contains ns name
any-loop_events namespace name [] = refl
any-loop_events namespace name (n ∷ ns) = ground (
  arith,
  any-loop_events namespace name ns,
  any-append (is_deletion namespace name) (loop_events (deletion namespace) ns)
      (deletion namespace n),
  eq_iff namespace namespace,
)

contains-obsolete_names :
    (S : Sets) (existing discovered : S.Set) (name : String)
    → contains (obsolete_names S existing discovered) name
      ≡ (S.has existing name && not (S.has discovered name))
unfolding obsolete_names
contains-obsolete_names S existing discovered name = ground (
  arith,
  contains-filter (λ n. not (S.has discovered n)) (S.unsorted_list existing) name,
  S.contains-unsorted_list existing name,
)

module _ {W : Type 0} (ops : ConditionOps) (S : Sets) (services : CatalogServices W) where
  delete_obsolete-Adds :
      (existing discovered : S.Set) (namespace : String)
      → Adds
          (loop_events (deletion namespace) (obsolete_names S existing discovered))
          (delete_obsolete_images ops S services existing discovered namespace)
  unfolding delete_obsolete_images
  delete_obsolete-Adds existing discovered namespace =
      Adds-for_each (deletion namespace) (obsolete_names S existing discovered) _ λ n.
        Adds-then (image_deleted n namespace ∷ []) (extended ∷ []) _ _
          (Adds-call (services.delete_image n namespace) _)
          (Adds-call services.images.in_progress _)

  deletion_iff :
      (existing discovered : S.Set) (namespace name : String) (s : Run W Event)
      → (delete_obsolete_images ops S services existing discovered namespace s).0 ≡ ok tt
      → any
          (is_deletion namespace name)
          (delete_obsolete_images ops S services existing discovered namespace s).1.trace
        ≡ ((S.has existing name && not (S.has discovered name))
            || any (is_deletion namespace name) s.trace)
  deletion_iff existing discovered namespace name s h =
      let gone = obsolete_names S existing discovered in
      ap (any (is_deletion namespace name))
        ((delete_obsolete-Adds existing discovered namespace).added s tt h)
      ∙ (any-append (is_deletion namespace name) (loop_events (deletion namespace) gone) s.trace
          ∙ ap (λ b. b || any (is_deletion namespace name) s.trace)
              (any-loop_events namespace name gone
                ∙ contains-obsolete_names S existing discovered name))

-- Where the cleanup goes through, it has deleted, of the registry's namespace, exactly the images
-- that were listed and were not found again, and none at all if the job targets a part of the
-- registry.
pub cleanup-any :
    {W : Type 0} (ops : ConditionOps) (S : Sets) (services : CatalogServices W) (existing : S.Set)
    (job : ScanJob) (registry : Registry) (found : List Image) (name : String) (s : Run W Event)
    → (cleanup ops S services existing job registry found s).0 ≡ ok tt
    → any
        (is_deletion registry.namespace name)
        (cleanup ops S services existing job registry found s).1.trace
      ≡ ((is_empty job.spec.repositories
            && (S.has existing name && not (contains (image_names found) name)))
          || any (is_deletion registry.namespace name) s.trace)
unfolding cleanup
cleanup-any ops S services existing job registry found name s h = go job.spec.repositories h
  where
    discovered : S.Set
    discovered = insert_all S (S.new []) (image_names found)

    go :
        (targets : List ScanJobRepository)
        → ((if is_empty targets
              then delete_obsolete_images ops S services existing discovered registry.namespace
              else pure tt)
            s).0
          ≡ ok tt
        → any
            (is_deletion registry.namespace name)
            ((if is_empty targets
                then delete_obsolete_images ops S services existing discovered registry.namespace
                else pure tt)
              s).1.trace
          ≡ ((is_empty targets && (S.has existing name && not (contains (image_names found) name)))
              || any (is_deletion registry.namespace name) s.trace)
    go [] h =
        let d = deletion_iff ops S services existing discovered registry.namespace name s h in
        ground (arith, d, has-insert_all S (S.new []) (image_names found) name, S.has-new [] name)
    go (t ∷ ts) h = refl

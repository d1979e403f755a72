-- ===== src/Catalog/Handler/Identity.antt =====
-- Which events CreateCatalogHandler.Handle causes, whatever the services answer.
use sbombastic.Common.{
  ℕ, String, ◌≡◌, refl, true, false, not, List, [], ◌∷◌, ◌==◌, eq_iff, arith, All, ok,
}
use sbombastic.Effects.{Run, Eff}
use sbombastic.Effects.Keeps.{Keeps, Keeps-pure, Keeps-call, Keeps-for_each, keeps_rules}
use sbombastic.Job.{ScanJob, mark_in_progress, mark_complete}
use sbombastic.JobStore.{put_status, record_scan_job_finished}
use sbombastic.Registry.{Registry}
use sbombastic.Objects.{
  Image, ObjectRef, Event, status_updated, job_patched, job_deleted, job_counted, image_created,
  image_deleted, published,
}
use sbombastic.Catalog.Images.{Reference, ref_to_images, acknowledge}
use sbombastic.Catalog.Discovery.{discover_repositories, discover_all}
use sbombastic.Catalog.Steps.{
  generate_sbom_subject, generate_message, start_job, create_missing, create_images,
  delete_obsolete_images, cleanup, concluded, conclude_job, publish_all, finish, Progress, stopped,
  reached, on_reached, Started, already_finished, started,
}
use sbombastic.Catalog.Handler.Reading.{
  ref_to_images-Keeps, discover_repositories-Keeps, discover_all-Keeps,
}
use sbombastic.Catalog.Handler.{
  Environment, process_references, discover, handle_started, resume_started, handle_decoded, handle,
}

-- What an event of a run for `ref` may be: a status of the job with the message's UID, a
-- GenerateSBOM message that carries the reference of that job, and no change of another job.
abbrev pub IsFor : ObjectRef → Event → Type 0
IsFor ref (status_updated job) = job.uid ≡ ref.uid
IsFor ref (published subject id message) =
    (subject ≡ generate_sbom_subject) × (image : Image) × (message ≡ generate_message ref image)
IsFor ref (job_patched job) = true ≡ false
IsFor ref (job_deleted name namespace) = true ≡ false
IsFor ref _ = Unit

module _ {W : Type 0} (env : Environment W) (ref : ObjectRef) where
  abbrev Q : List Event → Type 0
  Q = All (IsFor ref)

  acknowledge-Keeps : Keeps Q (acknowledge env.services.images)
  acknowledge-Keeps = Keeps-call _ _ (λ a t q. (tt, q))

  put_status-Keeps :
      (job : ScanJob) → job.uid ≡ ref.uid → Keeps Q (put_status env.ops env.services.jobs job)
  put_status-Keeps job same = Keeps-call _ _ (λ a t q. (same, q))

  marked-Keeps :
      (time : ℕ) (r m : String) (job : ScanJob)
      → not (job.uid == ref.uid) ≡ false
      → Keeps Q (put_status env.ops env.services.jobs (mark_in_progress env.ops time r m job))
  unfolding mark_in_progress
  marked-Keeps time r m job same = put_status-Keeps _ (ground (arith, eq_iff job.uid ref.uid))

  concluded-Keeps :
      (time : ℕ) (found : List Image) (job : ScanJob)
      → not (job.uid == ref.uid) ≡ false
      → Keeps Q (
          put_status env.ops env.services.jobs
            (concluded env.ops env.sets env.services time found job))
  unfolding mark_in_progress mark_complete concluded
  concluded-Keeps time [] job same = put_status-Keeps _ (ground (arith, eq_iff job.uid ref.uid))
  concluded-Keeps time (x ∷ xs) job same =
      put_status-Keeps _ (ground (arith, eq_iff job.uid ref.uid))

  start_job-Keeps : Keeps Q (start_job env.ops env.sets env.services ref)
  unfolding start_job
  start_job-Keeps = search (keeps_rules, marked-Keeps) depth 12

  conclude_job-Keeps :
      (last : ScanJob) (found : List Image)
      → Keeps Q (conclude_job env.ops env.sets env.services ref last found)
  unfolding conclude_job
  conclude_job-Keeps last found = search (keeps_rules, concluded-Keeps) depth 12

  -- What reads the registry only extends the message's deadline.
  reads_image :
      (reference : Reference) (registry : Registry)
      → Keeps Q (ref_to_images env.services.images env.encoders reference registry)
  reads_image = ref_to_images-Keeps env Q (λ t q. (tt, q))

  reads_repositories :
      (registry : Registry)
      → Keeps Q (discover_repositories env.sets env.names env.services.registries registry)
  reads_repositories = discover_repositories-Keeps env Q (λ t q. (tt, q))

  reads_all :
      (registry : Registry) (repositories : List String) (found : env.sets.Set)
      → Keeps Q
          (discover_all env.sets env.names env.services.registries registry repositories found)
  reads_all = discover_all-Keeps env Q (λ t q. (tt, q))

  create_missing-Keeps :
      (existing : env.sets.Set) (image : Image)
      → Keeps Q (create_missing env.ops env.sets env.services existing image)
  unfolding create_missing
  create_missing-Keeps existing image =
      let created =
        Keeps-call {Q = Q} (env.services.create_image image) (λ _. image_created image ∷ [])
          (λ a t q. (tt, q)) in
      search (keeps_rules, acknowledge-Keeps, created) depth 12

  on_reached-Keeps :
      {A : Type 0} (p : Progress) (done : Eff W Event A)
      (next : ScanJob → List Image → Eff W Event A)
      → Keeps Q done
      → ((job : ScanJob) (found : List Image) → Keeps Q (next job found))
      → Keeps Q (on_reached p done next)
  unfolding on_reached
  on_reached-Keeps stopped done next kd kn = kd
  on_reached-Keeps (reached job found) done next kd kn = kn job found

  create_images-Keeps :
      (existing : env.sets.Set) (images : List Image) (job : ScanJob)
      → Keeps Q (create_images env.ops env.sets env.services ref existing images job)
  unfolding create_images
  create_images-Keeps existing [] job = Keeps-pure (reached job [])
  create_images-Keeps existing (image ∷ images) job =
      let later = λ (j : ScanJob). create_images-Keeps existing images j in
      search (keeps_rules, create_missing-Keeps, later) depth 14

  process_references-Keeps :
      (registry : Registry) (existing : env.sets.Set) (names : List String) (job : ScanJob)
      → Keeps Q (process_references env ref registry existing names job)
  unfolding process_references
  process_references-Keeps registry existing [] job = Keeps-pure (reached job [])
  process_references-Keeps registry existing (n ∷ ns) job =
      let later = λ (j : ScanJob). process_references-Keeps registry existing ns j in
      search (keeps_rules, reads_image, create_images-Keeps, on_reached-Keeps, later) depth 16

  cleanup-Keeps :
      (existing : env.sets.Set) (job : ScanJob) (registry : Registry) (found : List Image)
      → Keeps Q (cleanup env.ops env.sets env.services existing job registry found)
  unfolding cleanup delete_obsolete_images
  cleanup-Keeps existing job registry found =
      let deleted = λ (n : String).
        Keeps-call {Q = Q} (env.services.delete_image n registry.namespace)
          (λ _. image_deleted n registry.namespace ∷ []) (λ a t q. (tt, q)) in
      search (keeps_rules, acknowledge-Keeps, deleted) depth 12

  record_finished-Keeps :
      (job : ScanJob) → Keeps Q (record_scan_job_finished env.ops env.services.jobs job)
  unfolding record_scan_job_finished
  record_finished-Keeps job =
      let counted =
        Keeps-call {Q = Q} (λ (w : W). (ok tt, w)) (λ (_ : Unit {0}). job_counted job ∷ [])
          (λ a t q. (tt, q)) in
      search (keeps_rules, counted) depth 8

  publish_all-Keeps :
      (job : ScanJob) (found : List Image)
      → Keeps Q (publish_all env.ops env.sets env.services ref job found)
  unfolding publish_all
  publish_all-Keeps job found =
      Keeps-for_each found _ λ image. Keeps-call _ _ (λ a t q. ((refl, image, refl), q))

  finish-Keeps :
      (last : ScanJob) (found : List Image)
      → Keeps Q (finish env.ops env.sets env.services env.retry_finish ref last found)
  unfolding finish
  finish-Keeps last found =
      search (keeps_rules, conclude_job-Keeps, record_finished-Keeps, publish_all-Keeps) depth 12

  discover-Keeps : (job : ScanJob) (registry : Registry) → Keeps Q (discover env ref job registry)
  unfolding discover
  discover-Keeps job registry =
      search
        (keeps_rules, reads_repositories, reads_all, acknowledge-Keeps, process_references-Keeps)
        depth 16

  handle_started-Keeps : (job : ScanJob) → Keeps Q (handle_started env ref job)
  unfolding handle_started
  handle_started-Keeps job =
      search (keeps_rules, discover-Keeps, on_reached-Keeps, cleanup-Keeps, finish-Keeps) depth 16

  after_start-Keeps : (s : Started) → Keeps Q (resume_started env ref s)
  unfolding resume_started
  after_start-Keeps already_finished = Keeps-pure tt
  after_start-Keeps (started job) = handle_started-Keeps job

  handle_decoded-Keeps : Keeps Q (handle_decoded env ref)
  unfolding handle_decoded
  handle_decoded-Keeps = search (keeps_rules, start_job-Keeps, after_start-Keeps) depth 12

-- Whatever the services answer, Handle writes the status of no job but the one with the message's
-- UID, sends nothing but GenerateSBOM messages that carry the message's job reference and the name
-- and namespace of an image, and neither patches nor deletes a job.
pub handle-IsFor :
    {W : Type 0} (env : Environment W) (ref : ObjectRef) (s : Run W Event)
    → All (IsFor ref) s.trace
    → All (IsFor ref) (handle env (ok ref) s).1.trace
unfolding handle
handle-IsFor env ref s = (handle_decoded-Keeps env ref).keep s

-- ===== src/Catalog/Steps/Outcome.antt =====
-- What the last part of CreateCatalogHandler.Handle leaves: the second status update, the count of a
-- finished job and the GenerateSBOM messages.
use sbombastic.Common.{
  ℕ, ◌≡◌, refl, Bool, false, not, List, [], ◌∷◌, ◌++◌, if◌then◌else◌, Result, ok, ◌⊎◌,
}
use sbombastic.Conditions.{ConditionOps}
use sbombastic.Sets.{Sets}
use sbombastic.Effects.Adds.{Adds, loop_events}
use sbombastic.Job.Phases.{Shows, written-Shows}
use sbombastic.Common.{length, is_empty, not}
use sbombastic.Job.{mark_in_progress, mark_complete, ScanJob, job_finished}
use sbombastic.Objects.{Image, ObjectRef, Event, status_updated, job_counted, published}
use sbombastic.Catalog.Steps.{
  CatalogServices, concluded, generate_id, generate_message, generate_sbom_subject,
}

-- The message that is published for one image.
abbrev pub announced : ObjectRef → ScanJob → Image → List Event
announced ref job image =
    published generate_sbom_subject (generate_id job image) (generate_message ref image) ∷ []

-- The count of a job that has finished just now.
abbrev pub counted : ConditionOps → Bool → ScanJob → List Event
counted ops was_finished stored =
    if was_finished then [] else if job_finished ops stored then job_counted stored ∷ [] else []

module _ {W : Type 0} (ops : ConditionOps) (S : Sets) (services : CatalogServices W)
    (ref : ObjectRef) (found : List Image) where
  -- The second update of the status: the job as it was read, the time, and the job that the API server
  -- answered with.
  pub record Second (last job stored : ScanJob) (time : ℕ) : Type 0 where
    pub is_read : (w : W) × ((services.jobs.get_scan_job last.name last.namespace w).0 ≡ ok job)
    pub is_now : (w : W) × (services.jobs.now w ≡ time)
    pub same_uid : job.uid ≡ ref.uid
    pub is_answer :
        (w : W) × ((services.jobs.update_status (concluded ops S services time found job) w).0
          ≡ ok stored)

  -- What the retried body leaves: on success one status, that of the job with the message's UID.
  abbrev Concluded : ScanJob → List Event → Result (ScanJob × Bool) → List Event → Type 0
  Concluded last t (ok (stored, was)) u =
      (job : ScanJob) × (time : ℕ) × (Second last job stored time
        × ((was ≡ job_finished ops job)
            × (u ≡ status_updated (concluded ops S services time found job) ∷ t)))
  Concluded last t _ u = u ≡ t

  -- What a run of `finish` that returns no error has added to the trace `t`: nothing, if the job is
  -- gone; or the status of the job with the message's UID, then the count of the job that the API
  -- server answered with, if that job has finished and the one that was read had not, then one message
  -- for each image, in order.
  abbrev pub Finished : ScanJob → List Event → List Event → Type 0
  Finished last t u =
      (u ≡ t)
      ⊎ ((job : ScanJob) × (time : ℕ) × (stored : ScanJob) × (Second last job stored time
            × (u
                ≡ (loop_events (announced ref stored) found
                    ++ counted ops (job_finished ops job) stored)
                  ++ status_updated (concluded ops S services time found job) ∷ t)))

-- The status that the second update stores says Complete exactly where no image was found, and
-- InProgress otherwise, with the number of images and none of them scanned; it is never pending,
-- scheduled or failed.
concluded-Shows :
    {W : Type 0} (ops : ConditionOps) (S : Sets) (services : CatalogServices W) (time : ℕ)
    (found : List Image) (job : ScanJob)
    → Shows ops
        (concluded ops S services time found job)
        false
        (not (is_empty found))
        (is_empty found)
        false
      × (is_empty found ≡ false
          → ((concluded ops S services time found job).status.images_count ≡ length found)
            × ((concluded ops S services time found job).status.scanned_images_count ≡ 0))
unfolding concluded mark_in_progress mark_complete
concluded-Shows ops S services time [] job = (written-Shows ops _ _ _ _ _ _ _ refl, λ h. cc)
concluded-Shows ops S services time (x ∷ xs) job =
    (written-Shows ops _ _ _ _ _ _ _ refl, λ h. (refl, refl))

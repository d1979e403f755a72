-- ===== src/Catalog/Handler/Skips.antt =====
-- The messages that CreateCatalogHandler.Handle leaves alone.
use sbombastic.Common.{
  ◌≡◌, refl, true, false, ◌⊎◌, inl, inr, ◌==◌, Bool-cases, Error, Result, ok, err, panic,
}
use sbombastic.Effects.{Run}
use sbombastic.Effects.Settled.{retry_settled}
use sbombastic.Job.{ScanJob, job_finished}
use sbombastic.Objects.{ObjectRef, Event}
use sbombastic.Catalog.Steps.{already_finished, start_job}
use sbombastic.Catalog.Handler.{Environment, handle, handle_decoded, resume_started}

-- The job is gone, another job has its name, or it has finished.
abbrev pub IsGone : {W : Type 0} → Environment W → ObjectRef → Result ScanJob → Type 0
IsGone env ref (ok job) = ((job.uid == ref.uid) ≡ false) ⊎ (job_finished env.ops job ≡ true)
IsGone env ref (err e) = e ≡ Error.not_found
IsGone env ref panic = true ≡ false

module _ {W : Type 0} (env : Environment W) (ref : ObjectRef) where
  -- A run whose job is gone reaches one of the two results that Handle takes for done.
  Leaves : Run W Event → Run W Event → Type 0
  Leaves s s' =
      (start_job env.ops env.sets env.services ref s ≡ (err Error.not_found, s'))
      ⊎ (start_job env.ops env.sets env.services ref s ≡ (ok already_finished, s'))

  started-Leaves :
      (s : Run W Event) (r : Result ScanJob) (w : W)
      → env.services.jobs.get_scan_job ref.name ref.namespace s.world ≡ (r, w)
      → IsGone env ref r
      → Leaves s (record { world = w; trace = s.trace })
  unfolding start_job Leaves
  started-Leaves s (ok job) w e (inl other) = inl (rw e (rw other refl))
  started-Leaves s (ok job) w e (inr finished) = elim (Bool-cases (job.uid == ref.uid)) [
    | inl same ↦ inr (rw e (rw same (rw finished refl)))
    | inr other ↦ inl (rw e (rw other refl))
  ]
  started-Leaves s (err f) w e h = inl (rw e (rw h refl))
  started-Leaves s panic w e h = cc

  decoded_skips : (s s' : Run W Event) → Leaves s s' → handle_decoded env ref s ≡ (ok tt, s')
  unfolding handle_decoded resume_started Leaves
  decoded_skips s s' (inl e) =
      rw
        (retry_settled env.retry_start (start_job env.ops env.sets env.services ref) s s'
          (err Error.not_found) e tt)
        refl
  decoded_skips s s' (inr e) =
      rw
        (retry_settled env.retry_start (start_job env.ops env.sets env.services ref) s s'
          (ok already_finished) e tt)
        refl

-- A message whose job does not exist any more, whose name another job has now, or whose job has
-- finished, is acknowledged at once: Handle reads the job once, causes no event and returns no error.
pub handle_skips :
    {W : Type 0} (env : Environment W) (ref : ObjectRef) (s : Run W Event) (r : Result ScanJob)
    (w : W)
    → env.services.jobs.get_scan_job ref.name ref.namespace s.world ≡ (r, w)
    → IsGone env ref r
    → handle env (ok ref) s ≡ (ok tt, record { world = w; trace = s.trace })
unfolding handle
handle_skips env ref s r w e gone =
    decoded_skips env ref s (record { world = w; trace = s.trace })
      (started-Leaves env ref s r w e gone)

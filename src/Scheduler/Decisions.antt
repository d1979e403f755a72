-- ===== src/Scheduler/Decisions.antt =====
-- What ScanJobReconciler does with a job whose registry it has read.
use sbombastic.Common.{
  ℕ, String, ◌≡◌, refl, sym, Bool, true, false, Option, none, some, List, [], ◌∷◌, is_some, lookup,
  Error, Result, ok, err, panic,
}
use mathlib.Core.Path.{subst}
use sbombastic.Conditions.{ConditionOps}
use sbombastic.Effects.{Run, Eff, pure, lift, call, branch}
use sbombastic.Effects.Triples.{
  Triple, Triple-pure, Triple-fail, Triple-if, Triple-branch, Triple-read, Triple-send,
}
use sbombastic.Job.{ScanJob, mark_scheduled, mark_failed, annotation_scan_job_registry_key}
use sbombastic.Registry.{Registry, TargetError, validate_scan_job_targets}
use sbombastic.Objects.{Event, create_catalog, job_patched, published}
use sbombastic.Scheduler.{
  SchedulerServices, SchedulerTools, create_catalog_subject, create_catalog_id, reference_of,
  target_reason, target_message, annotate, snapshot_registry, publish_job, schedule_checked,
  schedule,
}

-- Does the job carry the snapshot of its registry?
abbrev pub has_snapshot : ScanJob → Bool
has_snapshot job = is_some (lookup job.annotations annotation_scan_job_registry_key)

-- The message of the job was published.
abbrev pub sent_message : ScanJob → Event
sent_message job =
    published create_catalog_subject (create_catalog_id job) (create_catalog (reference_of job))

-- The ways a job may be left, with the result and the trace `u` that began as `t`.
pub data Decided (ops : ConditionOps) (tools : SchedulerTools) (quoted : String → String)
    (job : ScanJob) (registry : Registry) (found : Option TargetError) (t : List Event)
    : ScanJob → Result (Unit {0}) → List Event → Type 0 where
  refused :
      (time : ℕ) (e : TargetError)
      → found ≡ some e
      → Decided ops tools quoted job registry found t
          (mark_failed ops time (target_reason e) (target_message quoted registry e) job)
          (ok tt)
          t
  sent :
      found ≡ none
      → has_snapshot job ≡ true
      → Decided ops tools quoted job registry found t
          (mark_scheduled ops "Scheduled"
            "ScanJob has been scheduled for processing by the controller" job)
          (ok tt)
          (sent_message job ∷ t)
  not_sent :
      (e : Error)
      → found ≡ none
      → has_snapshot job ≡ true
      → Decided ops tools quoted job registry found t job (err e) t
  patched :
      (text : String) (owned stored : ScanJob)
      → found ≡ none
      → has_snapshot job ≡ false
      → tools.marshal registry ≡ ok text
      → tools.set_controller_reference registry job ≡ ok owned
      → Decided ops tools quoted job registry found t stored
          (ok tt)
          (job_patched (annotate text owned) ∷ t)
  not_patched :
      (left : ScanJob) (e : Error)
      → found ≡ none
      → has_snapshot job ≡ false
      → Decided ops tools quoted job registry found t left (err e) t

module _ {W : Type 0} (ops : ConditionOps) (tools : SchedulerTools) (quoted : String → String)
    (services : SchedulerServices W) (job : ScanJob) (registry : Registry) (t : List Event) where
  abbrev Post : Option TargetError → Result (ScanJob × Result (Unit {0})) → List Event → Type 0
  Post found (ok (left, r)) u = Decided ops tools quoted job registry found t left r u
  Post found _ u = u ≡ t

  -- The trace is as given.
  at :
      (found : Option TargetError) (left : ScanJob) (r : Result (Unit {0})) (v u : List Event)
      → Decided ops tools quoted job registry found t left r v
      → u ≡ v
      → Decided ops tools quoted job registry found t left r u
  at found left r v u d e = subst (Decided ops tools quoted job registry found t left r) (sym e) d

  publish_job-Decided :
      has_snapshot job ≡ true
      → Triple (λ u. u ≡ t) (publish_job ops tools quoted services job) (Post none)
  unfolding publish_job
  publish_job-Decided snapshot =
      Triple-branch _ _ _
        (Triple-send
          (services.publish create_catalog_subject (create_catalog_id job)
            (create_catalog (reference_of job)))
          (sent_message job ∷ []) t)
        (λ e.
          Triple-pure (job, err e) (λ u p. at none job (err e) t u (not_sent e refl snapshot) p))
        (λ a.
          Triple-pure _ (λ u p. at none _ (ok tt) (sent_message job ∷ t) u (sent refl snapshot) p))
        (λ u p. p)

  patch-Decided :
      (text : String) (owned : ScanJob)
      → has_snapshot job ≡ false
      → tools.marshal registry ≡ ok text
      → tools.set_controller_reference registry job ≡ ok owned
      → Triple
          (λ u. u ≡ t)
          (branch
            (call
              (services.patch_job (annotate text owned))
              (λ stored. job_patched (annotate text owned) ∷ []))
            (λ e. pure (annotate text owned, err e))
            (λ stored. pure (stored, ok tt)))
          (Post none)
  patch-Decided text owned bare made set =
      Triple-branch _ _ _
        (Triple-send (services.patch_job (annotate text owned))
          (job_patched (annotate text owned) ∷ []) t)
        (λ e.
          Triple-pure (annotate text owned, err e)
            (λ u p. at none _ (err e) t u (not_patched (annotate text owned) e refl bare) p))
        (λ stored.
          Triple-pure (stored, ok tt)
            (λ u p.
              at none stored (ok tt) (job_patched (annotate text owned) ∷ t) u
                (patched text owned stored refl bare made set) p))
        (λ u p. p)

  -- A value computed without a call: what follows may use the equation.
  known :
      {A B : Type 0} {Goal : Result B → List Event → Type 0} (r : Result A)
      (failed : Error → Eff W Event B) (next : A → Eff W Event B)
      → ((e : Error) → Triple (λ u. u ≡ t) (failed e) Goal)
      → ((a : A) → r ≡ ok a → Triple (λ u. u ≡ t) (next a) Goal)
      → ((u : List Event) → u ≡ t → Goal panic u)
      → Triple (λ u. u ≡ t) (branch (lift r) failed next) Goal
  known (ok a) failed next kf kn worst = record { after = λ s p. (kn a refl).after s p }
  known (err e) failed next kf kn worst = record { after = λ s p. (kf e).after s p }
  known panic failed next kf kn worst = record { after = λ s p. worst s.trace p }

  snapshot_registry-Decided :
      has_snapshot job ≡ false
      → Triple (λ u. u ≡ t) (snapshot_registry ops tools quoted services job registry) (Post none)
  unfolding snapshot_registry
  snapshot_registry-Decided bare =
      known (tools.marshal registry) _ _ left_alone
        (λ text made.
          known (tools.set_controller_reference registry job) _ _ left_alone
            (λ owned set. patch-Decided text owned bare made set) (λ u p. p))
        (λ u p. p)
    where
      left_alone : (e : Error) → Triple {W = W} (λ u. u ≡ t) (pure (job, err e)) (Post none)
      left_alone e =
          Triple-pure (job, err e) (λ u p. at none job (err e) t u (not_patched job e refl bare) p)

  checked-Decided :
      (time : ℕ) (found : Option TargetError)
      → Triple
          (λ u. u ≡ t)
          (schedule_checked ops tools quoted services job registry time found)
          (Post found)
  unfolding schedule_checked
  checked-Decided time (some e) =
      Triple-pure _ (λ u p. at (some e) _ (ok tt) t u (refused time e refl) p)
  checked-Decided time none =
      Triple-if (has_snapshot job) _ _ publish_job-Decided snapshot_registry-Decided

  schedule-Post :
      Triple
        (λ u. u ≡ t)
        (schedule ops tools quoted services job registry)
        (Post (validate_scan_job_targets tools.default_registry job.spec.repositories registry))
  unfolding schedule
  schedule-Post =
      Triple-branch _ _ _ (Triple-read (λ w. (ok (services.jobs.now w), w)) t)
        (λ e. Triple-fail e (λ u p. p))
        (λ time.
          checked-Decided time
            (validate_scan_job_targets tools.default_registry job.spec.repositories registry))
        (λ u p. p)

-- Once the registry is read, the controller leaves the job in one of these ways: a target that the
-- registry does not declare fails it with the reason and sends nothing; a job with a snapshot is
-- marked as scheduled, after its CreateCatalog message was published, or left with the broker's error;
-- a job without one gets the registry's JSON text as its annotation, or is left with an error.
pub schedule-Decided :
    {W : Type 0} (ops : ConditionOps) (tools : SchedulerTools) (quoted : String → String)
    (services : SchedulerServices W) (job : ScanJob) (registry : Registry) (s : Run W Event)
    (left : ScanJob) (r : Result (Unit {0}))
    → (schedule ops tools quoted services job registry s).0 ≡ ok (left, r)
    → Decided ops tools quoted job registry
        (validate_scan_job_targets tools.default_registry job.spec.repositories registry)
        s.trace
        left
        r
        (schedule ops tools quoted services job registry s).1.trace
schedule-Decided ops tools quoted services job registry s left r h =
    let found = validate_scan_job_targets tools.default_registry job.spec.repositories registry in
    let u = (schedule ops tools quoted services job registry s).1.trace in
    subst (λ x. Post ops tools quoted services job registry s.trace found x u) h
      ((schedule-Post ops tools quoted services job registry s.trace).after s refl)

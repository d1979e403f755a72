-- ===== src/Reports/Progress.antt =====
-- The status that VulnerabilityReportReconciler writes.
use sbombastic.Common.{
  ℕ, String, ◌≡◌, sym, ap, ◌∙◌, true, not, ◌⊎◌, inl, inr, Option, none, some, List, [], ◌∷◌, All,
  eqb, Bool-cases, ok,
}
use sbombastic.Conditions.{ConditionOps}
use sbombastic.Effects.{Run}
use sbombastic.Effects.Keeps.{Keeps, Keeps-pure, Keeps-call, keeps_rules}
use sbombastic.Job.{
  ScanJob, mark_in_progress, mark_complete, is_complete, is_failed, is_in_progress,
}
use sbombastic.Job.Phases.{Mark, apply, apply-Shows}
use sbombastic.JobStore.{JobServices, put_status, record_scan_job_finished}
use sbombastic.Objects.{Event, status_updated, job_counted}
use sbombastic.Reports.{
  ReportServices, with_scanned, scanned, update_job, update_first, reconcile_labelled, reconcile,
}

-- A status that says Complete exactly where all images are scanned, and In Progress otherwise; or a
-- failed job.
abbrev pub IsConsistent : ConditionOps → ScanJob → Type 0
IsConsistent ops job =
    (is_failed ops job ≡ true)
    ⊎ ((is_complete ops job ≡ eqb job.status.scanned_images_count job.status.images_count)
        × (is_in_progress ops job
            ≡ not (eqb job.status.scanned_images_count job.status.images_count)))

pub scanned-IsConsistent :
    (ops : ConditionOps) (time n : ℕ) (job : ScanJob) → IsConsistent ops (scanned ops time n job)
unfolding scanned mark_in_progress mark_complete apply
scanned-IsConsistent ops time n job = elim (Bool-cases (is_failed ops (with_scanned n job))) [
  | inl failed ↦ rw failed (inl failed)
  | inr going ↦ elim (Bool-cases (eqb n job.status.images_count)) [
    | inl all ↦
        let shows =
          apply-Shows ops (Mark.complete time "AllImagesScanned" "All images scanned successfully")
            (with_scanned n job) in
        rw going (rw all (inr (shows.complete ∙ sym all, shows.in_progress ∙ sym (ap not all))))
    | inr some_left ↦
        let shows =
          apply-Shows ops (Mark.progress time "ImageScanInProgress" "Image scan in progress")
            (with_scanned n job) in
        rw going (
          rw some_left
            (inr (shows.complete ∙ sym some_left, shows.in_progress ∙ sym (ap not some_left))))
  ]
]

-- A status update that a run of the reconciler makes writes a consistent status.
abbrev pub WritesConsistent : ConditionOps → Event → Type 0
WritesConsistent ops (status_updated job) = IsConsistent ops job
WritesConsistent ops _ = Unit

module _ {W : Type 0} (ops : ConditionOps) (jobs : JobServices W)
    (services : ReportServices W) where
  abbrev Q : List Event → Type 0
  Q = All (WritesConsistent ops)

  put-Keeps : (time n : ℕ) (job : ScanJob) → Keeps Q (put_status ops jobs (scanned ops time n job))
  put-Keeps time n job =
      Keeps-call (jobs.update_status _) _ (λ a t q. (scanned-IsConsistent ops time n job, q))

  record_finished-Keeps : (job : ScanJob) → Keeps Q (record_scan_job_finished ops jobs job)
  unfolding record_scan_job_finished
  record_finished-Keeps job =
      let counted =
        Keeps-call {Q = Q} (λ (w : W). (ok tt, w)) (λ (_ : Unit {0}). job_counted job ∷ [])
          (λ a t q. (tt, q)) in
      search (keeps_rules, counted) depth 8

  update_job-Keeps :
      (namespace uid : String) (job : ScanJob)
      → Keeps Q (update_job ops jobs services namespace uid job)
  unfolding update_job
  update_job-Keeps namespace uid job =
      search (keeps_rules, put-Keeps, record_finished-Keeps) depth 12

  update_first-Keeps :
      (namespace uid : String) (found : List ScanJob)
      → Keeps Q (update_first ops jobs services namespace uid found)
  unfolding update_first
  update_first-Keeps namespace uid [] = Keeps-pure tt
  update_first-Keeps namespace uid (job ∷ others) = update_job-Keeps namespace uid job

  labelled-Keeps :
      (namespace : String) (uid : Option String)
      → Keeps Q (reconcile_labelled ops jobs services namespace uid)
  unfolding reconcile_labelled
  labelled-Keeps namespace none = Keeps-pure tt
  labelled-Keeps namespace (some uid) = search (keeps_rules, update_first-Keeps) depth 8

  reconcile-Keeps : (name namespace : String) → Keeps Q (reconcile ops jobs services name namespace)
  unfolding reconcile
  reconcile-Keeps name namespace = search (keeps_rules, labelled-Keeps) depth 8

-- Whatever the services answer, each status that the reconciler writes is that of a failed job, or
-- says Complete exactly where the number of scanned images equals the number of images, and
-- InProgress otherwise.
pub reconcile-WritesConsistent :
    {W : Type 0} (ops : ConditionOps) (jobs : JobServices W) (services : ReportServices W)
    (name namespace : String) (s : Run W Event)
    → All (WritesConsistent ops) s.trace
    → All (WritesConsistent ops) (reconcile ops jobs services name namespace s).1.trace
reconcile-WritesConsistent ops jobs services name namespace s =
    (reconcile-Keeps ops jobs services name namespace).keep s

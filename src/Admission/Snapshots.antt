-- ===== src/Admission/Snapshots.antt =====
-- internal/webhook/v1alpha1/scanjob_webhook.go: which jobs are created, and what updates leave as it is.
use sbombastic.Common.{
  ◌≡◌, refl, sym, ◌∙◌, ap, arith, String, Bool, true, false, not, ◌&&◌, ◌||◌, Option, none, some,
  List, [], ◌∷◌, Result, ok, err, panic, is_ok, all, any, lookup, lookup-assign, ◌==◌, eq_iff,
  if◌then◌else◌, Bool-cases, inl, inr, ℕ,
}
use sbombastic.Conditions.{ConditionOps}
use sbombastic.Job.{
  ScanJob, ScanJobRepository, annotation_scan_job_registry_key, is_complete, is_failed,
  annotation_scan_job_creation_timestamp_key, get_creation_timestamp_from_annotation,
}
use sbombastic.Registry.{Registry}
use sbombastic.Admission.{
  FieldError, is_admitted, Username, ServiceAccount, is_service_account, only_service_account,
  unless_errors,
}
use sbombastic.Admission.ScanJobs.{
  Reader, guarded, default_scan_job, has_snapshot, validate_scan_job_create,
  validate_scan_job_update, running_errors, is_running, same_snapshot, update_errors,
  create_verdict,
}
use sbombastic.Admission.Guarding.{guard-others, guard-service}

module _ (ops : ConditionOps) where
  -- All jobs that were listed have finished.
  abbrev pub all_finished : Result (List ScanJob) → Bool
  all_finished (ok jobs) = all (λ j. is_complete ops j || is_failed ops j) jobs
  all_finished _ = false

  any-is_running :
      (jobs : List ScanJob)
      → any (is_running ops) jobs ≡ not (all (λ j. is_complete ops j || is_failed ops j) jobs)
  unfolding is_running
  any-is_running [] = refl
  any-is_running (j ∷ jobs) = ground (arith, any-is_running jobs)

  is_admitted-create_verdict :
      (jobs : Result (List ScanJob)) (registry : Result Registry)
      → is_admitted (create_verdict ops jobs registry) ≡ (all_finished jobs && is_ok registry)
  unfolding running_errors
  is_admitted-create_verdict (err e) registry = refl
  is_admitted-create_verdict panic registry = refl
  is_admitted-create_verdict (ok jobs) (ok r) = ground (arith, any-is_running jobs)
  is_admitted-create_verdict (ok jobs) panic = ground arith
  is_admitted-create_verdict (ok jobs) (err e) = ground arith

  -- A ScanJob is admitted exactly where it carries no snapshot or the service account creates it, all
  -- jobs of its registry have finished, and the registry exists.
  is_admitted-create :
      (account : ServiceAccount) (user : Username) (reader : Reader) (job : ScanJob)
      → is_admitted (validate_scan_job_create ops account user reader job) ≡ (
          (not (has_snapshot job) || is_service_account account user)
          && (all_finished (reader.list_scan_jobs job.namespace job.spec.registry)
              && is_ok (reader.get_registry job.namespace job.spec.registry)))
  unfolding validate_scan_job_create
  is_admitted-create account user reader job =
      let v =
        create_verdict ops (reader.list_scan_jobs job.namespace job.spec.registry)
          (reader.get_registry job.namespace job.spec.registry) in
      let c =
        is_admitted-create_verdict (reader.list_scan_jobs job.namespace job.spec.registry)
          (reader.get_registry job.namespace job.spec.registry) in
      elim (Bool-cases (has_snapshot job)) [
        | inr e ↦ rw e c
        | inl e ↦ rw e elim (Bool-cases (is_service_account account user)) [
          | inl s ↦ rw (guard-service account user v s, s) c
          | inr s ↦ rw (guard-others account user v s, s) refl
        ]
      ]

module _ (deep_equal : List ScanJobRepository → List ScanJobRepository → Bool)
    (account : ServiceAccount) where
  -- The job behind a sequence of update requests: one that is not admitted changes nothing.
  unfoldable pub update_all : ScanJob → List (Username × ScanJob) → ScanJob
  unfolding validate_scan_job_update
  update_all old [] = old
  update_all old ((user, new) ∷ requests) =
      let next =
        if is_admitted (validate_scan_job_update deep_equal account user old new)
        then new
        else old in
      update_all next requests

  abbrev pub snapshot_of : ScanJob → Option String
  snapshot_of job = lookup job.annotations annotation_scan_job_registry_key

  same_snapshot-path : (x y : Option String) → same_snapshot x y ≡ true → y ≡ x
  same_snapshot-path none none h = refl
  same_snapshot-path (some s) (some t) h = ap some (sym ((eq_iff s t).0 h))
  same_snapshot-path none (some t) h = ground arith
  same_snapshot-path (some s) none h = ground arith

  update_errors-none :
      (a b : Bool)
      → is_admitted (unless_errors (update_errors a b) []) ≡ true
      → (a ≡ true) × (b ≡ true)
  update_errors-none a b h = ground arith

  -- The guard of an update lets the request pass, or the request is that of the service account.
  passed :
      (same : Bool) (user : Username) (errors : List FieldError)
      → is_admitted (
          guarded
            (if same then none else only_service_account account user)
            (unless_errors errors []))
        ≡ true
      → (is_admitted (unless_errors errors []) ≡ true)
        × (is_service_account account user ≡ false → same ≡ true)
  passed true user errors h = (h, λ o. refl)
  passed false user errors h = elim (Bool-cases (is_service_account account user)) [
    | inl s ↦
        let g = guard-service account user (unless_errors errors []) s in
        (ap is_admitted (sym g) ∙ h, λ o. ground arith)
    | inr s ↦ let g = guard-others account user (unless_errors errors []) s in ground arith
  ]

  -- The registry and the targets are the same, and where others is true also the snapshot.
  unfoldable pub Keeps : ScanJob → ScanJob → Bool → Type 0
  Keeps old new others =
      (new.spec.registry ≡ old.spec.registry)
      × ((new.spec.repositories ≡ old.spec.repositories)
          × (others ≡ true → snapshot_of new ≡ snapshot_of old))

  Keeps-same : (job : ScanJob) (others : Bool) → Keeps job job others
  unfolding Keeps
  Keeps-same job others = (refl, (refl, λ o. refl))

  Keeps-trans :
      (old next new : ScanJob) (a b : Bool)
      → Keeps old next a
      → Keeps next new b
      → Keeps old new (a && b)
  unfolding Keeps
  Keeps-trans old next new a b (r, (t, s)) (r2, (t2, s2)) =
      (r2 ∙ r, (t2 ∙ t, λ o. s2 (ground arith) ∙ s (ground arith)))

  abbrev pub is_other : Username × ScanJob → Bool
  is_other request = not (is_service_account account (request.0))

  module _ (same : (xs ys : List ScanJobRepository) → deep_equal xs ys ≡ true → xs ≡ ys) where
    update-Keeps :
        (user : Username) (old new : ScanJob)
        → is_admitted (validate_scan_job_update deep_equal account user old new) ≡ true
        → Keeps old new (not (is_service_account account user))
    unfolding validate_scan_job_update Keeps
    update-Keeps user old new h =
        let (fine, others) = passed (same_snapshot (snapshot_of old) (snapshot_of new)) user _ h in
        let (r, t) =
          update_errors-none (old.spec.registry == new.spec.registry)
            (deep_equal old.spec.repositories new.spec.repositories) fine in
        (
          sym ((eq_iff old.spec.registry new.spec.registry).0 r),
          (
            sym (same old.spec.repositories new.spec.repositories t),
            λ o. same_snapshot-path (snapshot_of old) (snapshot_of new) (others (ground arith)),
          ),
        )

    -- Where DeepEqual tells different targets apart, no sequence of update requests changes the registry
    -- or the targets of a ScanJob, and one without a request of the service account does not change
    -- its snapshot of the Registry either.
    pub update_all-Keeps :
        (old : ScanJob) (requests : List (Username × ScanJob))
        → Keeps old (update_all old requests) (all is_other requests)
    unfolding update_all
    update_all-Keeps old [] = Keeps-same old true
    update_all-Keeps old ((user, new) ∷ requests) =
        elim (Bool-cases (is_admitted (validate_scan_job_update deep_equal account user old new))) [
          | inl e ↦ rw e (
              Keeps-trans old new _ _ _ (update-Keeps user old new e)
                (update_all-Keeps new requests))
          | inr e ↦
              rw e (Keeps-trans old old _ _ _ (Keeps-same old _) (update_all-Keeps old requests))
        ]

-- Where time.Parse reads back what time.Format writes, the creation timestamp that the defaulter sets is
-- the one the job's annotation yields, and the snapshot in its annotations stays.
get_creation_timestamp-default :
    (format : ℕ → String) (parse : String → Option ℕ) (now : ℕ) (job : ScanJob)
    → parse (format now) ≡ some now
    → (get_creation_timestamp_from_annotation parse (default_scan_job (format now) job) ≡ now)
      × (has_snapshot (default_scan_job (format now) job) ≡ has_snapshot job)
unfolding default_scan_job get_creation_timestamp_from_annotation has_snapshot
get_creation_timestamp-default format parse now job h = (
  rw
      (
        lookup-assign job.annotations annotation_scan_job_creation_timestamp_key
            annotation_scan_job_creation_timestamp_key (format now),
        h,
        get_creation_timestamp_from_annotation,
      )
      refl,
  rw
      (lookup-assign job.annotations annotation_scan_job_creation_timestamp_key
        annotation_scan_job_registry_key (format now))
      refl,
)

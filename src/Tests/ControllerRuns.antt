-- ===== src/Tests/ControllerRuns.antt =====
-- The controllers and the failure handler on the small cluster.
use sbombastic.Common.{String, ◌==◌, if◌then◌else◌, err, Error, some, lookup}
use sbombastic.Registry.{validate_scan_job_targets}
use sbombastic.Job.{
  mark_scheduled, annotation_scan_job_creation_timestamp_key,
  get_creation_timestamp_from_annotation,
}
use sbombastic.Scheduler.{schedule, schedule_checked, publish_job}
use sbombastic.Scheduler.Decisions.{Decided, schedule-Decided}
use sbombastic.Common.{◌≡◌, refl, none, List, [], ◌∷◌, ◌++◌, All, ok}
use sbombastic.Effects.{for_each}
use sbombastic.Effects.Adds.{loop_events}
use sbombastic.Job.{ScanJob}
use sbombastic.Objects.{ObjectRef}
use sbombastic.Subscriber.{SubscriberServices, Delivery, consume}
use sbombastic.Subscriber.Settlement.{Settled, consume-Settled}
use sbombastic.Reports.{ReportServices, reconcile, label_scan_job_uid_key}
use sbombastic.Reports.Progress.{reconcile-WritesConsistent, WritesConsistent}
use sbombastic.Scheduler.{SchedulerServices, SchedulerTools, surplus, cleanup_old_scan_jobs}
use sbombastic.Scheduler.History.{Deletes, job_deletion, cleanup_old_scan_jobs-Deletes}
use sbombastic.Tests.SliceSort.{insertion_sort, insertion_sort-Sorts}
use sbombastic.Tests.ListConditions.{list_conditions}
use sbombastic.Tests.RegistryRuns.{registry_of}
use sbombastic.Tests.Cluster.{World, cluster_jobs, job_ref, annotated, start}

abbrev one_report : ReportServices World
one_report = record {
  get_report = λ name namespace w. (
    ok (record {
      name = name;
      deletion_timestamp = none;
      labels = (label_scan_job_uid_key, "u-1") ∷ [];
    }),
    w,
  );
  list_jobs = λ uid w. (ok (annotated ∷ []), w);
  list_reports = λ namespace uid w. (ok [], w);
}

reconcile-WritesConsistent_example :
    All
      (WritesConsistent list_conditions)
      (reconcile list_conditions cluster_jobs one_report "report" "default" start).1.trace
reconcile-WritesConsistent_example =
    reconcile-WritesConsistent list_conditions cluster_jobs one_report "report" "default" start tt

abbrev created_at : String → ScanJob
created_at text = record annotated {
  name = text;
  annotations = (annotation_scan_job_creation_timestamp_key, text) ∷ [];
}

-- The oldest job is the last one but one.
abbrev eleven_jobs : List ScanJob
eleven_jobs =
    created_at "late"
    ∷ created_at "late"
    ∷ created_at "middle"
    ∷ created_at "late"
    ∷ created_at "late"
    ∷ created_at "late"
    ∷ created_at "late"
    ∷ created_at "middle"
    ∷ created_at "late"
    ∷ created_at "early"
    ∷ created_at "late"
    ∷ []

abbrev by_age : SchedulerTools
by_age = record {
  default_registry = "index.docker.io";
  marshal = λ r. ok r.name;
  set_controller_reference = λ r j. ok j;
  parse_time =
      λ text. if text == "early" then some 5 else if text == "middle" then some 20 else some 30;
  sort_slice = insertion_sort;
}

abbrev eleven : SchedulerServices World
eleven = record {
  jobs = cluster_jobs;
  list_jobs = λ namespace registry w. (ok eleven_jobs, w);
  delete_job = λ job w. (ok tt, w);
  get_registry = λ name namespace w. (ok (registry_of []), w);
  patch_job = λ job w. (ok job, w);
  publish = λ subject id message w. (ok tt, w);
}

one_deleted :
    (cleanup_old_scan_jobs list_conditions by_age (λ t. t) eleven annotated start).0 ≡ ok tt
unfolding cleanup_old_scan_jobs surplus for_each insertion_sort
    get_creation_timestamp_from_annotation lookup
one_deleted = refl

cleanup_old_scan_jobs-Deletes_example :
    (found : List ScanJob) × (((eleven.list_jobs "default" "hub" start.world).0 ≡ ok found)
      × (Deletes by_age found (surplus by_age found)
          × ((cleanup_old_scan_jobs list_conditions by_age (λ t. t) eleven annotated start).1.trace
              ≡ loop_events job_deletion (surplus by_age found) ++ start.trace)))
cleanup_old_scan_jobs-Deletes_example =
    cleanup_old_scan_jobs-Deletes list_conditions by_age (λ t. t) eleven insertion_sort-Sorts
      annotated start one_deleted

-- A handler that fails, and a broker that takes every answer.
abbrev failing_handler : SubscriberServices World ObjectRef
failing_handler = record {
  handlers = ("sbomscanner.catalog.create", λ m w. (err Error.other, w)) ∷ [];
  failure_handler = λ m e w. (ok tt, w);
  metadata = λ d w. (ok 5, w);
  ack = λ d w. (ok tt, w);
  nak = λ d w. (ok tt, w);
  nak_with_delay = λ d delay w. (ok tt, w);
}

abbrev delivered : Delivery ObjectRef
delivered = record { subject = "sbomscanner.catalog.create"; message = job_ref }

consume-Settled_example :
    Settled
      (λ n. n)
      5
      (consume failing_handler
        (λ n. n)
        delivered
        (record { world = some annotated; trace = [] })).1.trace
consume-Settled_example =
    consume-Settled failing_handler (λ n. n) delivered (some annotated) (some annotated) 5 refl

abbrev scheduled : ScanJob
scheduled =
    mark_scheduled list_conditions "Scheduled"
      "ScanJob has been scheduled for processing by the controller" annotated

one_sent :
    (schedule list_conditions by_age (λ t. t) eleven annotated (registry_of []) start).0
    ≡ ok (scheduled, ok tt)
unfolding schedule schedule_checked publish_job validate_scan_job_targets lookup
one_sent = refl

schedule-Decided_example :
    Decided list_conditions by_age
      (λ t. t)
      annotated
      (registry_of [])
      (validate_scan_job_targets "index.docker.io" annotated.spec.repositories (registry_of []))
      []
      scheduled
      (ok tt)
      (schedule list_conditions by_age (λ t. t) eleven annotated (registry_of []) start).1.trace
schedule-Decided_example =
    schedule-Decided list_conditions by_age (λ t. t) eleven annotated (registry_of []) start
      scheduled (ok tt) one_sent

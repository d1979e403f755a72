-- ===== src/Tests/JobRuns.antt =====
-- A ScanJob from InitializeConditions to completion.
use sbombastic.Common.{◌≡◌, refl, true, false, none, List, [], ◌∷◌}
use sbombastic.Job.{
  ScanJob, initialize_conditions, is_pending, is_complete, mark_scheduled, mark_in_progress,
  mark_complete,
}
use sbombastic.Job.Phases.{Mark, Shows, apply, apply-Shows}
use sbombastic.Job.History.{IsTimed, run, run-IsTimed}
use sbombastic.Tests.ListConditions.{list_conditions}

abbrev pub fresh : ScanJob
fresh = record {
  name = "job";
  namespace = "default";
  uid = "u-1";
  generation = 1;
  creation_timestamp = 10;
  deletion_timestamp = none;
  annotations = [];
  labels = [];
  spec = record { registry = "hub"; repositories = [] };
  status = record {
    conditions = [];
    images_count = 0;
    scanned_images_count = 0;
    start_time = none;
    completion_time = none;
  };
}

abbrev pub life : List Mark
life =
    Mark.schedule "Scheduled" "scheduled"
    ∷ Mark.progress 20 "CatalogCreationInProgress" "catalog"
    ∷ Mark.progress 30 "ImageScanInProgress" "scan"
    ∷ Mark.complete 40 "AllImagesScanned" "done"
    ∷ []

initialised_pending :
    is_pending list_conditions (initialize_conditions list_conditions fresh) ≡ true
unfolding is_pending initialize_conditions list_conditions
initialised_pending = refl

life_completes : is_complete list_conditions (run list_conditions life fresh) ≡ true
unfolding is_complete run apply mark_scheduled mark_in_progress mark_complete list_conditions
life_completes = refl

apply-Shows_example :
    Shows list_conditions
      (apply list_conditions (Mark.fail 50 "InternalError" "boom") fresh)
      false
      false
      false
      true
apply-Shows_example = apply-Shows list_conditions (Mark.fail 50 "InternalError" "boom") fresh

run-IsTimed_example :
    IsTimed list_conditions (run list_conditions life (initialize_conditions list_conditions fresh))
run-IsTimed_example = run-IsTimed list_conditions life fresh

-- ===== src/Job.antt =====
-- The ScanJob of api/v1alpha1/scanjob_types.go and its methods; `JobFinished` of
-- internal/telemetry/jobs.go and `jobStatus` of internal/controller/instrumentation.go.
-- A method that mutates the job returns the new one; the time that metav1.Now() reads is an argument.
pub mod Phases
pub mod History
use sbombastic.Common.{
  ℕ, String, Bool, true, not, ◌&&◌, ◌||◌, Option, none, some, List, [], ◌∷◌, if◌then◌else◌, lookup,
  GoMap,
}
use sbombastic.Conditions.{
  ConditionOps, Condition, Cell, condition_true, condition_false, condition_unknown,
  condition_type_scheduled, condition_type_in_progress, condition_type_complete,
  condition_type_failed, write_all, is_true,
}

pub record ScanJobRepository : Type 0 where
  pub name : String
  pub match_conditions : List String

pub record ScanJobSpec : Type 0 where
  pub registry : String
  pub repositories : List ScanJobRepository

pub record ScanJobStatus : Type 0 where
  pub conditions : List Condition
  pub images_count : ℕ
  pub scanned_images_count : ℕ
  pub start_time : Option ℕ
  pub completion_time : Option ℕ

-- Of the object's metadata, the fields that the program reads.
pub record ScanJob : Type 0 where
  pub name : String
  pub namespace : String
  pub uid : String
  pub generation : ℕ
  pub creation_timestamp : ℕ
  pub deletion_timestamp : Option ℕ
  pub annotations : GoMap String
  pub labels : GoMap String
  pub spec : ScanJobSpec
  pub status : ScanJobStatus

abbrev pub annotation_scan_job_registry_key : String
annotation_scan_job_registry_key = "sbomscanner.kubewarden.io/registry"

abbrev pub annotation_scan_job_creation_timestamp_key : String
annotation_scan_job_creation_timestamp_key = "sbomscanner.kubewarden.io/creation-timestamp"

-- time.Parse with the layout RFC3339Nano is the parameter.
unfoldable pub get_creation_timestamp_from_annotation : (String → Option ℕ) → ScanJob → ℕ
get_creation_timestamp_from_annotation parse s =
    elim (lookup s.annotations annotation_scan_job_creation_timestamp_key) [
      | none ↦ s.creation_timestamp
      | some text ↦ elim (parse text) [ none ↦ s.creation_timestamp | some t ↦ t ]
    ]

-- A condition that is not the one marked: False, with the reason and message of the phase.
abbrev unset : String → String → Cell
unset reason message = record { status = condition_false; reason = reason; message = message }

abbrev set : String → String → Cell
set reason message = record { status = condition_true; reason = reason; message = message }

abbrev pending : Cell
pending = record { status = condition_unknown; reason = "Pending"; message = "ScanJob is pending" }

abbrev pub with_conditions : ScanJob → List Condition → ScanJob
with_conditions s cs = record s { status = record s.status { conditions = cs } }

module _ (ops : ConditionOps) where
  unfoldable pub initialize_conditions : ScanJob → ScanJob
  unfolding write_all
  initialize_conditions s =
      with_conditions s (write_all ops s.generation [] pending pending pending pending)

  unfoldable pub mark_scheduled : String → String → ScanJob → ScanJob
  unfolding write_all
  mark_scheduled reason message s =
      let other = unset "Scheduled" "ScanJob is scheduled" in
      with_conditions s
        (write_all ops s.generation s.status.conditions (set reason message) other other other)

  unfoldable pub mark_in_progress : ℕ → String → String → ScanJob → ScanJob
  unfolding write_all
  mark_in_progress now reason message s =
      let other = unset "InProgress" "ScanJob is in progress" in
      let start : Option ℕ = elim s.status.start_time [ none ↦ some now | some t ↦ some t ] in
      record s {
        status = record s.status {
          start_time = start;
          conditions =
              write_all ops s.generation s.status.conditions other (set reason message) other other;
        };
      }

  unfoldable pub mark_complete : ℕ → String → String → ScanJob → ScanJob
  unfolding write_all
  mark_complete now reason message s =
      let other = unset "Complete" "ScanJob completed successfully" in
      record s {
        status = record s.status {
          completion_time = some now;
          conditions =
              write_all ops s.generation s.status.conditions other other (set reason message) other;
        };
      }

  unfoldable pub mark_failed : ℕ → String → String → ScanJob → ScanJob
  unfolding write_all
  mark_failed now reason message s =
      let other = unset "Failed" "ScanJob failed" in
      record s {
        status = record s.status {
          completion_time = some now;
          conditions =
              write_all ops s.generation s.status.conditions other other other (set reason message);
        };
      }

  unfoldable pub is_scheduled : ScanJob → Bool
  unfolding is_true
  is_scheduled s = is_true ops s.status.conditions condition_type_scheduled

  unfoldable pub is_in_progress : ScanJob → Bool
  unfolding is_true
  is_in_progress s = is_true ops s.status.conditions condition_type_in_progress

  unfoldable pub is_complete : ScanJob → Bool
  unfolding is_true
  is_complete s = is_true ops s.status.conditions condition_type_complete

  unfoldable pub is_failed : ScanJob → Bool
  unfolding is_true
  is_failed s = is_true ops s.status.conditions condition_type_failed

  unfoldable pub is_pending : ScanJob → Bool
  unfolding is_scheduled is_in_progress is_complete is_failed
  is_pending s =
      not (is_scheduled s) && not (is_in_progress s) && not (is_complete s) && not (is_failed s)

  unfoldable pub job_finished : ScanJob → Bool
  unfolding is_complete is_failed
  job_finished s = is_complete s || is_failed s

  unfoldable pub job_status : ScanJob → String
  unfolding is_scheduled is_in_progress is_complete is_failed
  job_status s =
      if is_failed s
      then "failed"
      else if is_complete s
      then "complete"
      else if is_in_progress s
      then "in_progress"
      else if is_scheduled s
      then "scheduled"
      else "pending"

-- ===== src/Tests/AdmissionRuns.antt =====
-- Requests for ScanJobs and Registries, of the controller's service account and of another user.
use sbombastic.Common.{
  ◌≡◌, refl, arith, String, Bool, true, false, ◌&&◌, none, some, List, [], ◌∷◌, ok, all, eq_iff,
  ◌==◌,
}
use sbombastic.Job.{ScanJob, ScanJobRepository, annotation_scan_job_registry_key}
use sbombastic.Registry.{Registry, label_managed_by_key, label_managed_by_value}
use sbombastic.Admission.{Username, ServiceAccount, is_admitted, is_service_account}
use sbombastic.Admission.ScanJobs.{Reader, validate_scan_job_create}
use sbombastic.Admission.Guarding.{
  RegistryRequest, create_it, update_it, delete_it, serve_all, stores_managed, serve_all-managed,
}
use sbombastic.Admission.Snapshots.{update_all, is_other, Keeps, update_all-Keeps}
use sbombastic.Tests.ListConditions.{list_conditions}
use sbombastic.Tests.JobRuns.{fresh}
use sbombastic.Tests.RegistryRuns.{registry_of, app}

abbrev account : ServiceAccount
account = record { namespace = "scanner"; name = "controller" }

abbrev controller : Username
controller = some "system:serviceaccount:scanner:controller"

abbrev somebody : Username
somebody = some "somebody"

-- No job of the registry is there yet.
abbrev reader : Reader
reader = record {
  list_scan_jobs = λ namespace name. ok [];
  get_registry = λ namespace name. ok (registry_of (app ∷ []));
}

abbrev with_snapshot : ScanJob
with_snapshot = record fresh { annotations = (annotation_scan_job_registry_key, "{}") ∷ [] }

controller_may :
    is_admitted (validate_scan_job_create list_conditions account controller reader with_snapshot)
    ≡ true
unfolding validate_scan_job_create
controller_may = refl

abbrev equal_texts : List String → List String → Bool
equal_texts [] [] = true
equal_texts (x ∷ xs) (y ∷ ys) = (x == y) && equal_texts xs ys
equal_texts _ _ = false

equal_texts-path : (xs ys : List String) → equal_texts xs ys ≡ true → xs ≡ ys
equal_texts-path [] [] h = refl
equal_texts-path (x ∷ xs) (y ∷ ys) h =
    let p = (eq_iff x y).0 (ground arith) in
    let q = equal_texts-path xs ys (ground arith) in λ i. p i ∷ q i
equal_texts-path [] (y ∷ ys) h = ground arith
equal_texts-path (x ∷ xs) [] h = ground arith

abbrev equal_targets : List ScanJobRepository → List ScanJobRepository → Bool
equal_targets [] [] = true
equal_targets (x ∷ xs) (y ∷ ys) =
    (x.name == y.name) && (equal_texts x.match_conditions y.match_conditions && equal_targets xs ys)
equal_targets _ _ = false

equal_targets-path : (xs ys : List ScanJobRepository) → equal_targets xs ys ≡ true → xs ≡ ys
equal_targets-path [] [] h = refl
equal_targets-path (x ∷ xs) (y ∷ ys) h =
    let p = (eq_iff x.name y.name).0 (ground arith) in
    let c = equal_texts-path x.match_conditions y.match_conditions (ground arith) in
    let q = equal_targets-path xs ys (ground arith) in
    λ i. record { name = p i; match_conditions = c i } ∷ q i
equal_targets-path [] (y ∷ ys) h = ground arith
equal_targets-path (x ∷ xs) [] h = ground arith

-- Somebody takes the snapshot away, sets a label, and asks for another registry.
abbrev updates : List (Username × ScanJob)
updates =
    (somebody, fresh)
    ∷ (somebody, record with_snapshot { labels = ("team", "a") ∷ [] })
    ∷ (somebody, record with_snapshot { spec = record { registry = "other"; repositories = [] } })
    ∷ []

label_is_set :
    (update_all equal_targets account with_snapshot updates).labels ≡ (("team", "a") ∷ [])
unfolding update_all
label_is_set = refl

update_all-Keeps_example :
    Keeps equal_targets account with_snapshot
      (update_all equal_targets account with_snapshot updates)
      (all (is_other equal_targets account) updates)
update_all-Keeps_example =
    update_all-Keeps equal_targets account equal_targets-path with_snapshot updates

abbrev managed : Registry
managed = record (registry_of (app ∷ [])) {
  labels = (label_managed_by_key, label_managed_by_value) ∷ [];
}

abbrev attempts : List RegistryRequest
attempts =
    update_it somebody (registry_of (app ∷ [])) ∷ delete_it somebody ∷ create_it none managed ∷ []

serve_all-managed_example :
    (stores_managed none account (some managed) ≡ true
      → serve_all none account (some managed) attempts ≡ some managed)
    × (stores_managed none account (some managed) ≡ false
        → stores_managed none account (serve_all none account (some managed) attempts) ≡ false)
unfolding is_service_account
serve_all-managed_example =
    serve_all-managed none account (some managed) attempts (refl, (refl, (refl, _)))

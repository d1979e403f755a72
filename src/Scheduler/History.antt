-- ===== src/Scheduler/History.antt =====
-- The bound on the number of ScanJobs of a registry: which jobs cleanupOldScanJobs deletes.
use sbombastic.Common.{
  String, Bool, true, ◌+◌, filter, ltb, sym, ap, ◌∙◌, ℕ, zero, suc, ◌-◌, ◌≤◌, ◌≡◌, refl, inl, inr,
  Bool-cases, List, [], ◌∷◌, ◌++◌, All, take, drop, length, leb, arith, Result, ok, err, panic,
}
use sbombastic.Conditions.{ConditionOps}
use sbombastic.Effects.{Run, Eff, fail, call, resume, answered, for_each}
use sbombastic.Effects.Adds.{Adds-call, Adds-for_each, loop_events}
use sbombastic.Job.{ScanJob, get_creation_timestamp_from_annotation}
use sbombastic.Objects.{Event, job_deleted}
use sbombastic.Scheduler.{
  SchedulerServices, SchedulerTools, scan_jobs_history_limit, job_time, is_before, surplus,
  cleanup_old_scan_jobs,
}

-- Each item is at most each later one.
abbrev pub IsAscending : (ScanJob → ℕ) → List ScanJob → Type 0
IsAscending time [] = Unit
IsAscending time (x ∷ xs) = All (λ y. time x ≤ time y) xs × IsAscending time xs

-- What the documentation of sort.Slice says: it sorts the slice in place, by the test, which here
-- compares a key. The slice has the same items as before: as many of them meet any test.
pub record Sorts (sort_slice : (ScanJob → ScanJob → Bool) → List ScanJob → List ScanJob)
    : Type 0 where
  pub length-filter-sort :
      (less : ScanJob → ScanJob → Bool) (p : ScanJob → Bool) (xs : List ScanJob)
      → length (filter p (sort_slice less xs)) ≡ length (filter p xs)
  pub sort-IsAscending :
      (time : ScanJob → ℕ) (xs : List ScanJob)
      → IsAscending time (sort_slice (λ a b. ltb (time a) (time b)) xs)

length-filter-all : (xs : List ScanJob) → length (filter (λ x. true) xs) ≡ length xs
length-filter-all [] = refl
length-filter-all (x ∷ xs) = ap suc (length-filter-all xs)

length-sort :
    (sort_slice : (ScanJob → ScanJob → Bool) → List ScanJob → List ScanJob)
    (less : ScanJob → ScanJob → Bool)
    → Sorts sort_slice
    → (xs : List ScanJob) → length (sort_slice less xs) ≡ length xs
length-sort sort_slice less sorts xs =
    sym (length-filter-all (sort_slice less xs))
    ∙ (sorts.length-filter-sort less (λ x. true) xs ∙ length-filter-all xs)

-- A list falls into what stands before a cut and behind it.
length-filter-cut :
    (p : ScanJob → Bool) (n : ℕ) (xs : List ScanJob)
    → length (filter p (take n xs)) + length (filter p (drop n xs)) ≡ length (filter p xs)
length-filter-cut p zero xs = omega arith
length-filter-cut p (suc n) [] = refl
length-filter-cut p (suc n) (x ∷ xs) = ground (arith, length-filter-cut p n xs)

All-take : (P : ScanJob → Type 0) (n : ℕ) (xs : List ScanJob) → All P xs → All P (take n xs)
All-take P zero xs h = tt
All-take P (suc n) [] h = tt
All-take P (suc n) (x ∷ xs) (a, h) = (a, All-take P n xs h)

IsAscending-take :
    (time : ScanJob → ℕ) (n : ℕ) (xs : List ScanJob)
    → IsAscending time xs
    → IsAscending time (take n xs)
IsAscending-take time zero xs h = tt
IsAscending-take time (suc n) [] h = tt
IsAscending-take time (suc n) (x ∷ xs) (a, h) =
    (All-take (λ y. time x ≤ time y) n xs a, IsAscending-take time n xs h)

length-take : (n : ℕ) (xs : List ScanJob) → n ≤ length xs → length (take n xs) ≡ n
length-take zero xs h = omega arith
length-take (suc n) [] h = omega arith
length-take (suc n) (x ∷ xs) h = omega (arith, length-take n xs (omega arith))

All-drop :
    (time : ScanJob → ℕ) (x : ScanJob) (n : ℕ) (xs : List ScanJob)
    → All (λ y. time x ≤ time y) xs
    → All (λ y. time x ≤ time y) (drop n xs)
All-drop time x zero xs h = h
All-drop time x (suc n) [] h = h
All-drop time x (suc n) (y ∷ ys) h = All-drop time x n ys h.1

-- The items before a cut are at most those behind it.
take-drop :
    (time : ScanJob → ℕ) (n : ℕ) (xs : List ScanJob)
    → IsAscending time xs
    → All (λ x. All (λ y. time x ≤ time y) (drop n xs)) (take n xs)
take-drop time zero xs h = tt
take-drop time (suc n) [] h = tt
take-drop time (suc n) (x ∷ xs) h = (All-drop time x n xs h.0, take-drop time n xs h.1)

-- What the cleanup deletes of the jobs it found: the others are kept, and together they are the jobs
-- that were found. They are as many as are beyond the limit, none of them is younger than one that is
-- kept, and they are in order of age.
pub record Deletes (tools : SchedulerTools) (found gone : List ScanJob) : Type 0 where
  pub kept : List ScanJob
  pub parted :
      (p : ScanJob → Bool)
      → length (filter p gone) + length (filter p kept) ≡ length (filter p found)
  pub number : length gone ≡ length found - scan_jobs_history_limit
  pub oldest : All (λ x. All (λ y. job_time tools x ≤ job_time tools y) kept) gone
  pub in_order : IsAscending (job_time tools) gone

pub surplus-Deletes :
    (tools : SchedulerTools)
    → Sorts tools.sort_slice
    → (found : List ScanJob) → Deletes tools found (surplus tools found)
unfolding surplus get_creation_timestamp_from_annotation
surplus-Deletes tools sorts found = elim (Bool-cases (leb (length found) 10)) [
  | inl few ↦ rw few (record {
    kept = found;
    parted = λ p. omega arith;
    number = ground arith;
    oldest = tt;
    in_order = tt;
  })
  | inr many ↦
      let sorted = tools.sort_slice (is_before tools) found in
      let ascending = sorts.sort-IsAscending (job_time tools) found in
      rw many (record {
        kept = drop (length found - 10) sorted;
        parted = λ p.
            length-filter-cut p (length found - 10) sorted
            ∙ sorts.length-filter-sort (is_before tools) p found;
        number =
            length-take (length found - 10) sorted
              (omega (arith, length-sort tools.sort_slice (is_before tools) sorts found));
        oldest = take-drop (job_time tools) (length found - 10) sorted ascending;
        in_order = IsAscending-take (job_time tools) (length found - 10) sorted ascending;
      })
]

-- The deletion of each job, in order, latest first.
abbrev pub job_deletion : ScanJob → List Event
job_deletion job = job_deleted job.name job.namespace ∷ []

-- Where the cleanup returns no error, it has listed the jobs of the registry and deleted all but ten
-- of those that it was answered with, or none if there are no more than ten: the oldest by the creation
-- time that GetCreationTimestampFromAnnotation gives, in order of age.
pub cleanup_old_scan_jobs-Deletes :
    {W : Type 0} (ops : ConditionOps) (tools : SchedulerTools) (quoted : String → String)
    (services : SchedulerServices W)
    → Sorts tools.sort_slice
    → (current : ScanJob) (s : Run W Event)
    → (cleanup_old_scan_jobs ops tools quoted services current s).0 ≡ ok tt
    → (found : List ScanJob) × (((services.list_jobs current.namespace current.spec.registry
            s.world).0
          ≡ ok found)
        × (Deletes tools found (surplus tools found)
            × ((cleanup_old_scan_jobs ops tools quoted services current s).1.trace
                ≡ loop_events job_deletion (surplus tools found) ++ s.trace)))
unfolding cleanup_old_scan_jobs
cleanup_old_scan_jobs-Deletes {W} ops tools quoted services sorts current s h =
    go (services.list_jobs current.namespace current.spec.registry s.world) h
  where
    body : ScanJob → Eff W Event (Unit {0})
    body job = call (services.delete_job job) (λ _. job_deleted job.name job.namespace ∷ [])

    go :
        (r : Result (List ScanJob) × W)
        → (resume
            (answered r (λ _. []) s.trace)
            fail
            (λ found. for_each (surplus tools found) body)).0
          ≡ ok tt
        → (found : List ScanJob) × ((r.0 ≡ ok found)
            × (Deletes tools found (surplus tools found)
                × ((resume
                      (answered r (λ _. []) s.trace)
                      fail
                      (λ found. for_each (surplus tools found) body)).1.trace
                    ≡ loop_events job_deletion (surplus tools found) ++ s.trace)))
    go (ok found, w) h =
        let deleted =
          Adds-for_each job_deletion (surplus tools found) body
            (λ job. Adds-call (services.delete_job job) (job_deletion job)) in
        (
          found,
          (
            refl,
            (
              surplus-Deletes tools sorts found,
              deleted.added (record { world = w; trace = s.trace }) tt h,
            ),
          ),
        )
    go (err e, w) h = cc
    go (panic, w) h = cc

-- ===== src/Rescans/Collecting.antt =====
-- What collectRescanRequests makes of the annotations of a registry.
use sbombastic.Common.{
  ℕ, String, ◌≡◌, refl, ◌∙◌, Bool, true, false, not, ◌&&◌, Option, List, [], ◌∷◌, ◌==◌, eq_iff,
  arith, contains, is_empty, if◌then◌else◌, map, filter, All, Error, Result, err, GoMap,
}
use sbombastic.Sets.{Sets, insert_all}
use sbombastic.Job.{ScanJob}
use sbombastic.Registry.{Registry}
use sbombastic.Rescans.{
  RescanRequest, Merged, nothing_merged, build_merged_targets, merge_annotations, merge_one,
  read_request, is_rescan_key, Requests, collect_rescan_requests, job_targets,
  should_create_scan_job,
}

-- The values of the rescan annotations.
abbrev pub rescan_values : Registry → List String
rescan_values registry =
    map (λ entry. entry.1) (filter (λ entry. is_rescan_key entry.0) registry.annotations)

-- A value that is not JSON of a request.
abbrev pub IsMalformed : (String → Result RescanRequest) → String → Type 0
IsMalformed unmarshal raw = ((raw == "") ≡ false) × (e : Error) × (unmarshal raw ≡ err e)

empty_of : (xs : List String) → ((y : String) → contains xs y ≡ false) → xs ≡ []
empty_of [] h = refl
empty_of (x ∷ xs) h = let no = h x in let yes = (eq_iff x x).1 refl in ground arith

module _ (S : Sets) (sort_strings : List String → List String)
    (unmarshal : String → Result RescanRequest) where
  malformed_skipped :
      (values : List String) (s : Bool × Merged S)
      → All (IsMalformed unmarshal) values
      → merge_annotations S unmarshal values s ≡ s
  unfolding merge_annotations merge_one read_request
  malformed_skipped [] s h = refl
  malformed_skipped (raw ∷ more) s ((filled, e, bad), rest) =
      rw filled (rw bad (malformed_skipped more s rest))

  nothing_built :
      ((xs : List String) (y : String) → contains (sort_strings xs) y ≡ contains xs y)
      → build_merged_targets S sort_strings (nothing_merged S) ≡ []
  unfolding build_merged_targets nothing_merged insert_all
  nothing_built keeps =
      let none_left = empty_of (sort_strings (S.unsorted_list (S.new []))) (λ y.
        keeps (S.unsorted_list (S.new [])) y
        ∙ (S.contains-unsorted_list (S.new []) y ∙ S.has-new [] y)) in
      rw none_left refl

-- Where a registry carries rescan annotations and none of them can be read, the runner counts them as
-- a request for the whole registry: a ScanJob is due, whatever the scan interval and the last job,
-- and it has no targets.
pub unreadable_requests_widen :
    (S : Sets) (sort_strings : List String → List String)
    (unmarshal : String → Result RescanRequest) (since : ℕ → ℕ) (registry : Registry)
    (last : Option ScanJob)
    → ((xs : List String) (y : String) → contains (sort_strings xs) y ≡ contains xs y)
    → is_empty (rescan_values registry) ≡ false
    → All (IsMalformed unmarshal) (rescan_values registry)
    → (should_create_scan_job since registry last (
          not
            (is_empty (collect_rescan_requests S sort_strings unmarshal registry).rescan_requests))
        ≡ true)
      × (job_targets (collect_rescan_requests S sort_strings unmarshal registry) ≡ [])
unfolding collect_rescan_requests should_create_scan_job job_targets
unreadable_requests_widen S sort_strings unmarshal since registry last keeps present bad =
    go (filter (λ entry. is_rescan_key entry.0) registry.annotations) present bad
  where
    of : GoMap String → Requests
    of found =
        let merged =
          merge_annotations S unmarshal (map (λ entry. entry.1) found) (false, nothing_merged S) in
        if is_empty found
        then record { rescan_requests = []; merged_targets = []; scan_everything = false }
        else if merged.0
        then record {
          rescan_requests = map (λ entry. entry.0) found;
          merged_targets = [];
          scan_everything = true;
        }
        else record {
          rescan_requests = map (λ entry. entry.0) found;
          merged_targets = build_merged_targets S sort_strings merged.1;
          scan_everything = false;
        }

    go :
        (found : GoMap String)
        → is_empty (map (λ entry. entry.1) found) ≡ false
        → All (IsMalformed unmarshal) (map (λ entry. entry.1) found)
        → (should_create_scan_job since registry last (not (is_empty (of found).rescan_requests))
            ≡ true)
          × ((if not (is_empty (of found).rescan_requests) && not (of found).scan_everything
                then (of found).merged_targets
                else [])
              ≡ [])
    go [] present bad = cc
    go (entry ∷ more) present bad =
        let skipped =
          malformed_skipped S sort_strings unmarshal (map (λ e. e.1) (entry ∷ more))
            (false, nothing_merged S) bad in
        let built = nothing_built S sort_strings unmarshal keeps in rw skipped (refl, built)

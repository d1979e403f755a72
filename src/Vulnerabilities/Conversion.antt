-- ===== src/Vulnerabilities/Conversion.antt =====
-- internal/handlers/trivyreport/trivy.go: nothing is lost or counted twice from trivy's report to the
-- summary.
use sbombastic.Common.{
  ℕ, suc, ◌+◌, ◌≡◌, refl, ap, ◌∙◌, arith, true, List, [], ◌∷◌, ◌++◌, length, all, ok,
}
use sbombastic.Vulnerabilities.{Vulnerability, TargetResult, Summary, new_summary_from_results}
use sbombastic.Vulnerabilities.Trivy.{
  TrivyTypes, TrivyOps, DetectedVulnerability, ModifiedFinding, TrivyResult, new_result,
  convert_detected, is_vulnerability, convert_findings, new_results_from_trivy_report,
}
use sbombastic.Vulnerabilities.Counts.{
  tally, tally-++, is_suppressed, counts, all_vulnerabilities, new_summary_from_results-counts,
  counts-is_open,
}
use sbombastic.Vulnerabilities.Loops.{Split, is_open, is_readable, Split-detected, Split-findings}

-- What a summary counts by severity.
unfoldable pub graded : Summary → ℕ
graded s = s.critical + (s.high + (s.medium + (s.low + s.unknown)))

module _ {types : TrivyTypes} (ops : TrivyOps types) where
  unfoldable pub all_detected : List (TrivyResult types) → List (DetectedVulnerability types)
  all_detected [] = []
  all_detected (r ∷ report) = r.vulnerabilities ++ all_detected report

  unfoldable pub all_findings : List (TrivyResult types) → List (ModifiedFinding types)
  all_findings [] = []
  all_findings (r ∷ report) = r.modified_findings ++ all_findings report

  new_results-cons :
      (r : TrivyResult types) (report : List (TrivyResult types)) (ds fs : List Vulnerability)
      (results : List TargetResult)
      → convert_detected ops r.vulnerabilities ≡ ok ds
      → convert_findings ops r.modified_findings ≡ ok fs
      → new_results_from_trivy_report ops report ≡ ok results
      → new_results_from_trivy_report ops (r ∷ report) ≡ ok (new_result ops r (ds ++ fs) ∷ results)
  unfolding new_results_from_trivy_report
  new_results-cons r report ds fs results d f made = rw (d, f, made) refl

  tally-every : {A : Type 0} (xs : List A) → tally (λ x. true) xs ≡ length xs
  unfolding tally
  tally-every [] = refl
  tally-every (x ∷ xs) = ap suc (tally-every xs)

  -- What the report and the results of it come to.
  abbrev Balanced : List (TrivyResult types) → List TargetResult → Type 0
  Balanced report results =
      Split (tally (λ v. true) (all_detected report))
        (tally (is_vulnerability ops) (all_findings report)) (all_vulnerabilities results)

  Balanced-cons :
      (r : TrivyResult types) (report : List (TrivyResult types)) (ds fs : List Vulnerability)
      (results : List TargetResult)
      → Split (length r.vulnerabilities) 0 ds
      → Split 0 (tally (is_vulnerability ops) r.modified_findings) fs
      → Balanced report results
      → Balanced (r ∷ report) (new_result ops r (ds ++ fs) ∷ results)
  unfolding all_detected all_findings all_vulnerabilities new_result
  Balanced-cons r report ds fs results (a, b) (c, d) (e, f) = (
    omega (
      arith,
      tally-++ is_open (ds ++ fs) (all_vulnerabilities results),
      tally-++ is_open ds fs,
      tally-++ (λ v. true) r.vulnerabilities (all_detected report),
      tally-every r.vulnerabilities,
      a,
      c,
      e,
    ),
    omega (
      arith,
      tally-++ is_suppressed (ds ++ fs) (all_vulnerabilities results),
      tally-++ is_suppressed ds fs,
      tally-++ (is_vulnerability ops) r.modified_findings (all_findings report),
      b,
      d,
      f,
    ),
  )

  Balanced-all :
      (report : List (TrivyResult types))
      → all (is_readable ops) report ≡ true
      → (results : List TargetResult) × ((new_results_from_trivy_report ops report ≡ ok results)
          × Balanced report results)
  unfolding new_results_from_trivy_report all_detected all_findings all_vulnerabilities tally
  Balanced-all [] h = ([], (refl, (refl, refl)))
  Balanced-all (r ∷ report) h =
      let (ds, (d, a)) = Split-detected ops r.vulnerabilities (ground arith) in
      let (fs, (f, b)) = Split-findings ops r.modified_findings (ground arith) in
      let (results, (made, c)) = Balanced-all report (ground arith) in
      (
        new_result ops r (ds ++ fs) ∷ results,
        (
          new_results-cons r report ds fs results d f made,
          Balanced-cons r report ds fs results a b c,
        ),
      )

  counted :
      (report : List (TrivyResult types)) (results : List TargetResult)
      → Balanced report results
      → ((new_summary_from_results results).suppressed
          ≡ tally (is_vulnerability ops) (all_findings report))
        × (graded (new_summary_from_results results) ≡ length (all_detected report))
  unfolding graded counts
  counted report results (a, b) =
      rw (new_summary_from_results-counts results)
        (b, counts-is_open (all_vulnerabilities results) ∙ a ∙ tally-every (all_detected report))

  -- Where every package URL prints and gob decodes every finding that is a vulnerability, a report of
  -- trivy converts, and the summary counts as suppressed the findings that are vulnerabilities, and
  -- under the five severities together all vulnerabilities that trivy detected.
  pub new_summary-new_results :
      (report : List (TrivyResult types))
      → all (is_readable ops) report ≡ true
      → (results : List TargetResult) × ((new_results_from_trivy_report ops report ≡ ok results)
          × (((new_summary_from_results results).suppressed
                ≡ tally (is_vulnerability ops) (all_findings report))
              × (graded (new_summary_from_results results) ≡ length (all_detected report))))
  new_summary-new_results report h =
      let (results, (made, c)) = Balanced-all report h in
      (results, (made, counted report results c))

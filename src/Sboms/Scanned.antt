-- ===== src/Sboms/Scanned.antt =====
-- internal/handlers/scan_sbom.go: what ScanSBOMHandler.Handle has done where it returns no error.
use mathlib.Core.Path.{subst}
use sbombastic.Reports.{label_scan_job_uid_key}
use sbombastic.Common.{
  lookup, some, ◌≡◌, refl, sym, ap, arith, String, true, false, not, List, [], ◌∷◌, ◌==◌, Error, ok,
  err, is_not_found,
}
use sbombastic.Effects.{Run, lift, call}
use sbombastic.Effects.Triples.{Triple, Triple-if}
use sbombastic.Effects.Ends.{
  Ends, Ends-pure, Ends-lift, Ends-answer, Ends-both, Ends-branch, Ends-try, Ends-ignored, ended,
}
use sbombastic.Job.{ScanJob, is_failed}
use sbombastic.Registry.{Registry}
use sbombastic.Vulnerabilities.{Summary, TargetResult, new_summary_from_results}
use sbombastic.Sboms.{
  Sbom, VulnerabilityReport, WorkEvent, report_stored, ClusterServices, MachineServices,
}
use sbombastic.Sboms.Scan.{
  ScanMessage, ScanHandlerTools, mutate_report, empty_report, store_report, scan_sbom_of,
  with_registry, scan_job_sbom, handle_scan,
}
use sbombastic.Sboms.Acting.{acts, Acted}
use sbombastic.Sboms.Summed.{IsSummed, scan-IsSummed, scan-Acted}

-- CreateOrUpdate answers with what the function makes of a report of the given name and namespace.
abbrev pub Applies : {W : Type 0} → ClusterServices W → Type 0
Applies {W} cluster =
    (given : VulnerabilityReport) (f : VulnerabilityReport → VulnerabilityReport) (w : W)
    (stored : VulnerabilityReport)
    → (cluster.create_or_update given f w).0 ≡ ok stored
    → (old : VulnerabilityReport) × ((stored ≡ f old)
        × ((old.name ≡ given.name) × (old.namespace ≡ given.namespace)))

-- A report for the message: of its SBOM, with its job's UID, and with the summary of its results.
pub record IsReportFor (m : ScanMessage) (r : VulnerabilityReport) : Type 0 where
  pub of_sbom : (r.name ≡ m.sbom.name) × (r.namespace ≡ m.sbom.namespace)
  pub of_job : lookup r.labels label_scan_job_uid_key ≡ some m.scan_job.uid
  pub summed : r.summary ≡ new_summary_from_results r.results

module _ {W : Type 0} (tools : ScanHandlerTools) (cluster : ClusterServices W)
    (machine : MachineServices W) (m : ScanMessage) (before : List WorkEvent)
    (applies : Applies cluster) where
  -- The job that the API server answered with.
  pub IsRead : ScanJob → Type 0
  IsRead job = (w : W) × ((cluster.get_scan_job m.scan_job.name m.scan_job.namespace w).0 ≡ ok job)

  -- Why a message is dropped: the job is gone, is another one, or has failed, or the SBOM is gone.
  pub data Dropped : Type 0 where
    no_job :
        (e : Error) (w : W)
        → (cluster.get_scan_job m.scan_job.name m.scan_job.namespace w).0 ≡ err e
        → is_not_found e ≡ true
        → Dropped
    other_job : (job : ScanJob) → IsRead job → (job.uid == m.scan_job.uid) ≡ false → Dropped
    failed_job : (job : ScanJob) → IsRead job → is_failed tools.ops job ≡ true → Dropped
    no_sbom :
        (e : Error) (w : W)
        → (cluster.get_sbom m.sbom.name m.sbom.namespace w).0 ≡ err e
        → is_not_found e ≡ true
        → Dropped

  -- Nothing was done for one of these reasons, or one report was stored.
  pub data Reported : List WorkEvent → Type 0 where
    nothing : (t : List WorkEvent) → Dropped → acts t ≡ before → Reported t
    reported :
        (t : List WorkEvent) (job : ScanJob) (r : VulnerabilityReport)
        → IsRead job
        → (job.uid == m.scan_job.uid) ≡ true
        → is_failed tools.ops job ≡ false
        → IsReportFor m r
        → acts t ≡ report_stored r ∷ before
        → Reported t

  mutated :
      (registry : Registry) (sbom : Sbom) (found : List TargetResult × Summary) (owner : String)
      → IsSummed found
      → (w : W) (stored : VulnerabilityReport)
      → (cluster.create_or_update (empty_report m owner) (mutate_report m registry sbom found) w).0
        ≡ ok stored
      → IsReportFor m stored
  unfolding mutate_report lookup
  mutated registry sbom (results, summary) owner summed w stored h =
      let (old, (e, (n, ns))) =
        applies (empty_report m owner) (mutate_report m registry sbom (results, summary)) w stored
          h in
      subst (IsReportFor m) (sym e) (record { of_sbom = (n, ns); of_job = refl; summed = summed })

  module _ (job : ScanJob) (is_read : IsRead job) (same : (job.uid == m.scan_job.uid) ≡ true)
      (live : is_failed tools.ops job ≡ false) where
    store-Reported :
        (registry : Registry) (sbom : Sbom) (found : List TargetResult × Summary)
        → IsSummed found
        → Triple
            (Acted before)
            (store_report tools cluster machine m registry sbom found)
            (Ends (λ a t. Reported t))
    unfolding store_report acts
    store-Reported registry sbom found summed =
        Ends-branch (λ owner t. Acted before t) (lift (tools.controller_reference sbom)) _
          (Ends-lift _ (λ a t q. q))
          λ owner.
            Ends-branch (λ r t. Reported t)
              (call
                (cluster.create_or_update (empty_report m owner)
                  (mutate_report m registry sbom found))
                (λ stored. report_stored stored ∷ []))
              _
              (Ends-answer (IsReportFor m) _ _ (mutated registry sbom found owner summed)
                λ r t good q.
                  Reported.reported _ job r is_read same live good (ap (◌∷◌ (report_stored r)) q))
              (λ r. Ends-pure tt (λ t q. q))

    sbom-Reported :
        (registry : Registry) (sbom : Sbom)
        → Triple
            (Acted before)
            (scan_sbom_of tools cluster machine m registry sbom)
            (Ends (λ a t. Reported t))
    unfolding scan_sbom_of
    sbom-Reported registry sbom =
        Ends-branch (λ found t. IsSummed found × Acted before t) _ _
          (Ends-both IsSummed _
            (scan-Acted machine tools.settings cluster tools.scanning before sbom.spdx)
            (scan-IsSummed machine tools.settings cluster tools.scanning sbom.spdx) (λ t q. q)
            (λ a t v q. (v, q)))
          λ found. record { after = λ s (v, q). (store-Reported registry sbom found v).after s q }

    registry-Reported :
        Triple (Acted before) (with_registry tools cluster machine m job) (Ends (λ a t. Reported t))
    unfolding with_registry
    registry-Reported =
        Ends-branch (λ registry t. Acted before t) (lift _) _ (Ends-lift _ (λ a t q. q))
          λ registry.
            Ends-try (λ sbom t. Acted before t) (cluster.get_sbom m.sbom.name m.sbom.namespace) _ _
              _ (λ sbom t q. q)
              (λ e w answer.
                Ends-ignored (is_not_found e) e
                  (λ h t q. Reported.nothing t (Dropped.no_sbom e w answer h) q))
              (λ sbom w answer. sbom-Reported registry sbom)

  job-Reported :
      (job : ScanJob)
      → IsRead job
      → Triple (Acted before) (scan_job_sbom tools cluster machine m job) (Ends (λ a t. Reported t))
  unfolding scan_job_sbom
  job-Reported job is_read =
      Triple-if (not (job.uid == m.scan_job.uid)) _ _
        (λ h.
          Ends-pure tt
            (λ t q. Reported.nothing t (Dropped.other_job job is_read (ground (arith, h))) q))
        λ same.
          Triple-if (is_failed tools.ops job) _ _
            (λ h. Ends-pure tt (λ t q. Reported.nothing t (Dropped.failed_job job is_read h) q))
            λ live. registry-Reported job is_read (ground (arith, same)) live

  message-Reported :
      Triple (Acted before) (handle_scan tools cluster machine (ok m)) (Ends (λ a t. Reported t))
  unfolding handle_scan IsRead
  message-Reported =
      Ends-try (λ job t. Acted before t) (cluster.get_scan_job m.scan_job.name m.scan_job.namespace)
        _ _ _ (λ job t q. q)
        (λ e w answer.
          Ends-ignored (is_not_found e) e
            (λ h t q. Reported.nothing t (Dropped.no_job e w answer h) q))
        (λ job w answer. job-Reported job (w, answer))

-- Where the handler returns no error, and CreateOrUpdate stores what the function makes of the report
-- that it has read or was given, one of two things holds. It has done nothing that the cluster sees, and
-- the API server has answered that the job or the SBOM does not exist, or with a job of another UID or a
-- failed one. Or it has stored one report: under the name and namespace of the message's SBOM, labelled
-- with the UID of the message's job, which was read and had not failed, with the summary of its results.
pub handle_scan-Reported :
    {W : Type 0} (tools : ScanHandlerTools) (cluster : ClusterServices W)
    (machine : MachineServices W) (m : ScanMessage) (applies : Applies cluster)
    (s : Run W WorkEvent)
    → (handle_scan tools cluster machine (ok m) s).0 ≡ ok tt
    → Reported tools cluster machine m
        (acts s.trace)
        applies
        (handle_scan tools cluster machine (ok m) s).1.trace
handle_scan-Reported tools cluster machine m applies s h =
    ended (message-Reported tools cluster machine m (acts s.trace) applies) s tt refl h

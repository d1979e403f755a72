-- ===== src/Sboms/Summed.antt =====
-- internal/handlers/scan_sbom_helpers.go: a scan answers with results and their summary, and has the cluster
-- and the broker do nothing.
use sbombastic.Common.{◌≡◌, refl, String, Bool, true, false, List, [], ◌∷◌, is_empty}
use sbombastic.Effects.{fail, lift, call, read}
use sbombastic.Effects.Deferred.{Keeps-deferred, Yields-deferred}
use sbombastic.Effects.Keeps.{
  Keeps-read_then, Keeps, Keeps-fail, Keeps-call, Keeps-if, Keeps-branch,
}
use sbombastic.Effects.Yields.{Yields, Yields-pure, Yields-fail, Yields-branch, Yields-if}
use sbombastic.Vulnerabilities.{Summary, TargetResult, new_summary_from_results}
use sbombastic.Vulnerabilities.Trivy.{new_results_from_trivy_report}
use sbombastic.Sboms.{
  path, variable, WorkEvent, delivery_extended, made, VexHub, ClusterServices, MachineServices,
}
use sbombastic.Sboms.Scanning.{Keeps-scan_report, Keeps-setup_vex_hubs}
use sbombastic.Sboms.Temporary.{
  removing, TrivySettings, ScanTools, xdg_data_home, setup_vex_hubs, with_vex_hubs, scan_report,
  run_trivy_scan, scan_file,
}
use sbombastic.Sboms.Documents.{Yields-with_temp}
use sbombastic.Sboms.Acting.{acts, note-Acted, Acted, Acted-with_temp}

-- What is found goes with its summary.
abbrev pub IsSummed : List TargetResult × Summary → Type 0
IsSummed (results, summary) = summary ≡ new_summary_from_results results

module _ {W : Type 0} (machine : MachineServices W) (settings : TrivySettings)
    (cluster : ClusterServices W) (tools : ScanTools) where
  report-IsSummed :
      (sbom_file report_file : String) (vex : Bool)
      → Yields IsSummed (scan_report machine settings cluster tools sbom_file report_file vex)
  unfolding scan_report
  report-IsSummed sbom_file report_file vex =
      Yields-branch (read (machine.run_trivy _)) fail _ Yields-fail λ _.
        Yields-branch (call cluster.in_progress (λ _. delivery_extended ∷ [])) fail _ Yields-fail
          λ _. Yields-branch (read (machine.read_file report_file)) fail _ Yields-fail λ text.
            Yields-branch (lift (tools.unmarshal_report text)) fail _ Yields-fail λ report.
              Yields-branch (lift (new_results_from_trivy_report tools.trivy report)) fail _
                Yields-fail λ results. Yields-pure _ refl

  hubs-IsSummed :
      (hubs : List VexHub) (home sbom_file report_file : String)
      → Yields IsSummed (
          with_vex_hubs machine settings cluster tools hubs home
            (scan_report machine settings cluster tools sbom_file report_file))
  unfolding with_vex_hubs
  hubs-IsSummed hubs home sbom_file report_file =
      Yields-if (is_empty hubs) _ _ (λ e. report-IsSummed sbom_file report_file false)
        λ e. Yields-branch _ fail _ Yields-fail λ _.
          Yields-deferred (removing (machine.remove_all home) (path home)) _
            (report-IsSummed sbom_file report_file true)

  pub scan-IsSummed :
      (raw : String) → Yields IsSummed (run_trivy_scan machine settings cluster tools raw)
  unfolding run_trivy_scan scan_file
  scan-IsSummed raw = Yields-branch (read cluster.list_vex_hubs) fail _ Yields-fail λ hubs.
      Yields-with_temp machine settings "trivy.sbom.*.json" _ λ sbom_file.
        Yields-branch (read (machine.write_file sbom_file raw)) fail _ Yields-fail λ _.
          Yields-with_temp machine settings "trivy.report.*.json" _ λ report_file.
            Yields-branch
              (call (machine.make_temp_dir "/tmp" "trivy-") (λ home. made (path home) ∷ [])) fail _
              Yields-fail
              λ home.
                Yields-branch
                  (call (machine.set_variable xdg_data_home home)
                    (λ _. made (variable xdg_data_home) ∷ []))
                  fail _ Yields-fail λ _. hubs-IsSummed hubs home sbom_file report_file

  module _ (events : List WorkEvent) where
    hubs-Acted :
        (hubs : List VexHub) (home sbom_file report_file : String)
        → Keeps (Acted events) (
            with_vex_hubs machine settings cluster tools hubs home
              (scan_report machine settings cluster tools sbom_file report_file))
    unfolding with_vex_hubs setup_vex_hubs acts
    hubs-Acted hubs home sbom_file report_file =
        Keeps-if (is_empty hubs) _ _
          (λ e.
            Keeps-scan_report machine settings cluster tools (Acted events) (λ t q. q) sbom_file
              report_file false)
          λ e.
            Keeps-branch _ fail _
              (Keeps-setup_vex_hubs machine settings cluster tools (Acted events) hubs _ _)
              Keeps-fail
              λ _.
                Keeps-deferred (removing (machine.remove_all home) (path home)) _ (λ t q. q)
                  (Keeps-scan_report machine settings cluster tools (Acted events) (λ t q. q)
                    sbom_file report_file true)
                  (λ w t q. note-Acted (path home) (machine.remove_all home w).0 events t q)

    pub scan-Acted :
        (raw : String) → Keeps (Acted events) (run_trivy_scan machine settings cluster tools raw)
    unfolding run_trivy_scan scan_file acts
    scan-Acted raw = Keeps-read_then cluster.list_vex_hubs _ λ hubs.
        Acted-with_temp machine settings events "trivy.sbom.*.json" _ λ sbom_file.
          Keeps-read_then (machine.write_file sbom_file raw) _ λ _.
            Acted-with_temp machine settings events "trivy.report.*.json" _ λ report_file.
              Keeps-branch
                (call (machine.make_temp_dir "/tmp" "trivy-") (λ home. made (path home) ∷ [])) fail
                _ (Keeps-call _ _ (λ a t q. q)) Keeps-fail
                λ home.
                  Keeps-branch
                    (call (machine.set_variable xdg_data_home home)
                      (λ _. made (variable xdg_data_home) ∷ []))
                    fail _ (Keeps-call _ _ (λ a t q. q)) Keeps-fail
                    λ _. hubs-Acted hubs home sbom_file report_file

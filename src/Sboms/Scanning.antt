-- ===== src/Sboms/Scanning.antt =====
-- internal/handlers/scan_sbom_helpers.go: what the parts of runTrivyScan keep of the trace.
use sbombastic.Common.{String, Bool, List, [], ◌∷◌}
use sbombastic.Effects.{fail, call}
use sbombastic.Effects.Keeps.{
  Keeps, Keeps-pure, Keeps-fail, Keeps-read, Keeps-call, Keeps-branch, Keeps-read_then,
  Keeps-lift_then,
}
use sbombastic.Vulnerabilities.Trivy.{new_results_from_trivy_report}
use sbombastic.Sboms.{WorkEvent, delivery_extended, VexHub, ClusterServices, MachineServices}
use sbombastic.Sboms.Temporary.{TrivySettings, ScanTools, setup_vex_hubs, scan_report}

module _ {ℓ} {W : Type 0} (machine : MachineServices W) (settings : TrivySettings)
    (cluster : ClusterServices W) (tools : ScanTools) (Q : List WorkEvent → Type ℓ) where
  -- From the run of trivy on, the delivery may be extended and nothing else happens.
  pub Keeps-scan_report :
      ((t : List WorkEvent) → Q t → Q (delivery_extended ∷ t))
      → (sbom_file report_file : String) (vex : Bool)
      → Keeps Q (scan_report machine settings cluster tools sbom_file report_file vex)
  unfolding scan_report
  Keeps-scan_report extended sbom_file report_file vex =
      Keeps-read_then (machine.run_trivy _) _ λ _.
        Keeps-branch (call cluster.in_progress (λ _. delivery_extended ∷ [])) fail _
          (Keeps-call _ _ (λ a t q. extended t q)) Keeps-fail
          λ _. Keeps-read_then (machine.read_file report_file) _ λ text.
            Keeps-lift_then (tools.unmarshal_report text) _ λ report.
              Keeps-lift_then (new_results_from_trivy_report tools.trivy report) _
                λ results. Keeps-pure _

  pub Keeps-setup_vex_hubs :
      (hubs : List VexHub) (directory file : String)
      → Keeps Q (setup_vex_hubs machine settings cluster tools hubs directory file)
  unfolding setup_vex_hubs
  Keeps-setup_vex_hubs hubs directory file = Keeps-lift_then (tools.marshal_hubs hubs) _ λ config.
      Keeps-read_then (machine.make_directory directory) _
        λ _. Keeps-read (machine.write_file file config)

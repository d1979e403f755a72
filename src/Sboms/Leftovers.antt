-- ===== src/Sboms/Leftovers.antt =====
-- internal/handlers/scan_sbom_helpers.go: what runTrivyScan leaves on the machine.
use mathlib.Core.Path.{subst}
use sbombastic.Common.{
  Result, err, panic, ◌≡◌, refl, sym, ap, ◌∙◌, String, Bool, true, false, List, [], ◌∷◌, ◌==◌,
  if◌then◌else◌, is_empty, eq_iff, eq_refl, Bool-cases, inl, inr, ok,
}
use sbombastic.Effects.{Run, Eff, fail, call, read, resume, answered}
use sbombastic.Effects.Triples.{Triple, Triple-if}
use sbombastic.Effects.Ends.{Ends, Ends-call, Ends-Keeps, Ends-branch, Ends-deferred, ended}
use sbombastic.Vulnerabilities.{Summary, TargetResult}
use sbombastic.Sboms.{
  Residue, path, variable, WorkEvent, made, VexHub, ClusterServices, MachineServices,
}
use sbombastic.Sboms.Scanning.{Keeps-scan_report, Keeps-setup_vex_hubs}
use sbombastic.Sboms.Temporary.{
  note, removing, scan_file, TrivySettings, ScanTools, xdg_data_home, with_temp, setup_vex_hubs,
  with_vex_hubs, scan_report, run_trivy_scan,
}
use sbombastic.Sboms.Residues.{residue, residue-note, erase, Leaves}

-- What is erased behind the first place: of two that are the same it does not matter which.
erase-second :
    (p : String) (x : Residue) (rs : List Residue) → erase (path p) (x ∷ path p ∷ rs) ≡ x ∷ rs
unfolding erase
erase-second p (variable v) rs = rw (eq_refl p) refl
erase-second p (path q) rs = elim (Bool-cases (q == p)) [
  | inl e ↦ rw e (ap (λ y. path y ∷ rs) (sym ((eq_iff q p).0 e)))
  | inr e ↦ rw (e, eq_refl p) refl
]

module _ {W : Type 0} (machine : MachineServices W) (settings : TrivySettings)
    (cluster : ClusterServices W) (tools : ScanTools) (hubs : List VexHub) where
  -- The variable, and some directory too unless there are hubs.
  unfoldable pub Left : List Residue → List WorkEvent → Type 0
  Left rs t =
      (home : String) × (residue t
        ≡ variable xdg_data_home ∷ (if is_empty hubs then path home ∷ rs else rs))

  Left-removed :
      (p : String) (r : Result (Unit {0})) (rs : List Residue) (t : List WorkEvent)
      → Left (path p ∷ rs) t
      → Left rs (note (path p) r ∷ t)
  unfolding Left residue erase
  Left-removed p r rs t (home, h) =
      (home, residue-note (path p) r t ∙ (ap (erase (path p)) h ∙ erased (is_empty hubs)))
    where
      erased :
          (b : Bool)
          → erase
              (path p)
              (variable xdg_data_home ∷ (if b then path home ∷ path p ∷ rs else path p ∷ rs))
            ≡ variable xdg_data_home ∷ (if b then path home ∷ rs else rs)
      erased true = ap (◌∷◌ (variable xdg_data_home)) (erase-second p (path home) rs)
      erased false = erase-second p (variable xdg_data_home) rs

  Left-with_temp :
      {A : Type 0} (rs : List Residue) (pattern : String) (body : String → Eff W WorkEvent A)
      → ((p : String) → Triple (Leaves (path p ∷ rs)) (body p) (Ends (λ a t. Left (path p ∷ rs) t)))
      → Triple (Leaves rs) (with_temp machine settings pattern body) (Ends (λ a t. Left rs t))
  unfolding with_temp residue
  Left-with_temp rs pattern body k =
      Ends-branch (λ p t. Leaves (path p ∷ rs) t)
        (call (machine.create_temp settings.work_dir pattern) (λ p. made (path p) ∷ [])) _
        (Ends-call _ _ (λ p t q. ap (◌∷◌ (path p)) q))
        (λ p.
          Ends-deferred (removing (machine.remove p) (path p)) (body p) (k p)
            (λ a w t q. Left-removed p _ rs t q))

  hubs-Left :
      (rs : List Residue) (home sbom_file report_file : String)
      → Triple
          (Leaves (variable xdg_data_home ∷ path home ∷ rs))
          (with_vex_hubs machine settings cluster tools hubs home
            (scan_report machine settings cluster tools sbom_file report_file))
          (Ends (λ a t. Left rs t))
  unfolding with_vex_hubs setup_vex_hubs Left residue erase
  hubs-Left rs home sbom_file report_file =
      Triple-if (is_empty hubs) _ _
        (λ e.
          Ends-Keeps _
            (Keeps-scan_report machine settings cluster tools
              (Leaves (variable xdg_data_home ∷ path home ∷ rs)) (λ t q. q) sbom_file report_file
              false)
            (λ t q. q) (λ a t q. (home, q ∙ sym (rw e refl))))
        (λ e.
          Ends-branch (λ a t. Leaves (variable xdg_data_home ∷ path home ∷ rs) t) _ _
            (Ends-Keeps _
              (Keeps-setup_vex_hubs machine settings cluster tools
                (Leaves (variable xdg_data_home ∷ path home ∷ rs)) hubs _ _)
              (λ t q. q) (λ a t q. q))
            (λ _.
              Ends-deferred (removing (machine.remove_all home) (path home)) _
                (Ends-Keeps _
                  (Keeps-scan_report machine settings cluster tools
                    (Leaves (variable xdg_data_home ∷ path home ∷ rs)) (λ t q. q) sbom_file
                    report_file true)
                  (λ t q. q) (λ a t q. q))
                (λ a w t q. (
                  home,
                  residue-note (path home) _ t
                      ∙ (ap (erase (path home)) q
                          ∙ (erase-second home (variable xdg_data_home) rs ∙ sym (rw e refl))),
                ))))

  scan-Left :
      (rs : List Residue) (raw : String)
      → Triple
          (Leaves rs)
          (with_temp machine settings "trivy.sbom.*.json"
            (scan_file machine settings cluster tools hubs raw))
          (Ends (λ a t. Left rs t))
  unfolding scan_file residue
  scan-Left rs raw = Left-with_temp rs "trivy.sbom.*.json" _ λ sbom_file.
      Ends-branch (λ a t. Leaves (path sbom_file ∷ rs) t) (read (machine.write_file sbom_file raw))
        _ (Ends-call _ _ (λ a t q. q))
        λ _. Left-with_temp (path sbom_file ∷ rs) "trivy.report.*.json" _ λ report_file.
          let os = path report_file ∷ path sbom_file ∷ rs in
          Ends-branch (λ home t. Leaves (path home ∷ os) t)
            (call (machine.make_temp_dir "/tmp" "trivy-") (λ home. made (path home) ∷ [])) _
            (Ends-call _ _ (λ home t q. ap (◌∷◌ (path home)) q))
            λ home.
              Ends-branch (λ a t. Leaves (variable xdg_data_home ∷ path home ∷ os) t)
                (call (machine.set_variable xdg_data_home home)
                  (λ _. made (variable xdg_data_home) ∷ []))
                _ (Ends-call _ _ (λ a t q. ap (◌∷◌ (variable xdg_data_home)) q))
                λ _. hubs-Left os home sbom_file report_file

-- A scan that returns results has tried to remove its two temporary files, but not to unset the
-- variable XDG_DATA_HOME; and where the list of VEXHubs that it was answered with is empty, it has not
-- tried to remove a path that it made.
pub run_trivy_scan-Left :
    {W : Type 0} (machine : MachineServices W) (settings : TrivySettings)
    (cluster : ClusterServices W) (tools : ScanTools) (hubs : List VexHub) (raw : String)
    (s : Run W WorkEvent) (found : List TargetResult × Summary)
    → (cluster.list_vex_hubs s.world).0 ≡ ok hubs
    → (run_trivy_scan machine settings cluster tools raw s).0 ≡ ok found
    → Left machine settings cluster tools hubs
        (residue s.trace)
        (run_trivy_scan machine settings cluster tools raw s).1.trace
unfolding run_trivy_scan
run_trivy_scan-Left {W} machine settings cluster tools hubs raw s found listed h =
    go (cluster.list_vex_hubs s.world) listed h
  where
    scan : List VexHub → Eff W WorkEvent (List TargetResult × Summary)
    scan listed_hubs =
        with_temp machine settings "trivy.sbom.*.json"
          (scan_file machine settings cluster tools listed_hubs raw)

    go :
        (r : Result (List VexHub) × W)
        → r.0 ≡ ok hubs
        → (resume (answered r (λ _. []) s.trace) fail scan).0 ≡ ok found
        → Left machine settings cluster tools hubs
            (residue s.trace)
            (resume (answered r (λ _. []) s.trace) fail scan).1.trace
    go (ok others, w) e h =
        let same : others ≡ hubs = cc in
        subst
          (λ x.
            Left machine settings cluster tools x (residue s.trace)
              (scan others (record { world = w; trace = s.trace })).1.trace)
          same
          (ended (scan-Left machine settings cluster tools others (residue s.trace) raw)
            (record { world = w; trace = s.trace }) found refl h)
    go (err f, w) e h = cc
    go (panic, w) e h = cc

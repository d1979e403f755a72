-- ===== src/Sboms/Temporary.antt =====
-- internal/handlers/generate_sbom.go, generateSPDX, and internal/handlers/scan_sbom_helpers.go,
-- runTrivyScan: the runs of trivy with their temporary files.
use Prim.Native.String.{◌++◌ as ◌<>◌}
use sbombastic.Common.{
  String, Bool, true, false, Option, none, some, List, [], ◌∷◌, ◌++◌, ◌==◌, if◌then◌else◌, is_empty,
  Result, ok,
}
use sbombastic.Effects.{Eff, pure, lift, call, read, ◌>>=◌, ◌>>◌}
use sbombastic.Effects.Deferred.{deferred}
use sbombastic.Registry.{Registry, is_private}
use sbombastic.Objects.{ImageMetadata, Image}
use sbombastic.Vulnerabilities.{Summary, TargetResult, new_summary_from_results}
use sbombastic.Vulnerabilities.Trivy.{
  TrivyTypes, TrivyOps, TrivyResult, new_results_from_trivy_report,
}
use sbombastic.Sboms.{
  Residue, path, variable, WorkEvent, made, gone, stuck, delivery_extended, VexHub, ClusterServices,
  MachineServices,
}

-- What the handlers are configured with.
pub record TrivySettings : Type 0 where
  pub work_dir : String
  pub trivy_db_repository : String
  pub trivy_java_db_repository : String

abbrev pub docker_config : String
docker_config = "DOCKER_CONFIG"

abbrev pub xdg_data_home : String
xdg_data_home = "XDG_DATA_HOME"

-- The image by its digest.
unfoldable pub image_reference : ImageMetadata → String
image_reference m = m.registry_uri <> ("/" <> (m.repository <> ("@" <> m.digest)))

unfoldable pub image_args :
    TrivySettings → String → Registry → Option String → ImageMetadata → List String
unfolding image_reference
image_args settings output registry ca_file metadata =
    "image"
      ∷ "--skip-version-check"
      ∷ "--disable-telemetry"
      ∷ "--cache-dir"
      ∷ settings.work_dir
      ∷ "--format"
      ∷ "spdx-json"
      ∷ "--skip-db-update"
      ∷ "--java-db-repository"
      ∷ settings.trivy_java_db_repository
      ∷ "--output"
      ∷ output
      ∷ (if registry.spec.insecure then "--insecure" ∷ [] else [])
    ++ (elim ca_file [ none ↦ [] | some file ↦ "--cacert" ∷ file ∷ [] ]
        ++ image_reference metadata ∷ [])

unfoldable pub sbom_args : TrivySettings → String → Bool → String → List String
sbom_args settings report vex input =
    "sbom"
      ∷ "--skip-version-check"
      ∷ "--disable-telemetry"
      ∷ "--cache-dir"
      ∷ settings.work_dir
      ∷ "--format"
      ∷ "json"
      ∷ "--db-repository"
      ∷ settings.trivy_db_repository
      ∷ "--java-db-repository"
      ∷ settings.trivy_java_db_repository
      ∷ "--output"
      ∷ report
      ∷ (if vex then "--vex" ∷ "repo" ∷ "--show-suppressed" ∷ [] else [])
    ++ input ∷ []

-- What a removal leaves in the trace, also where it fails.
abbrev pub note : Residue → Result (Unit {0}) → WorkEvent
note x (ok _) = gone x
note x _ = stuck x

abbrev pub removing : {W : Type 0} → (W → Result (Unit {0}) × W) → Residue → W → List WorkEvent × W
removing op x w = (note x (op w).0 ∷ [], (op w).1)

-- os.RemoveAll, and os.Unsetenv behind it in any case.
abbrev pub removing_docker_config :
    {W : Type 0} → MachineServices W → String → W → List WorkEvent × W
removing_docker_config machine directory w =
    let (events, v) = removing (machine.remove_all directory) (path directory) w in
    let (more, u) = removing (machine.unset_variable docker_config) (variable docker_config) v in
    (more ++ events, u)

module _ {W : Type 0} (machine : MachineServices W) (settings : TrivySettings) where
  abbrev Code : Type 0 → Type 0
  Code = Eff W WorkEvent

  -- A temporary file, and its deferred removal.
  unfoldable pub with_temp : {A : Type 0} → String → (String → Code A) → Code A
  with_temp pattern body =
      call (machine.create_temp settings.work_dir pattern) (λ file. made (path file) ∷ [])
      >>= λ file. deferred (removing (machine.remove file) (path file)) (body file)

  -- The Docker configuration of a private registry, and its deferred removal.
  unfoldable pub with_docker_config : {A : Type 0} → Registry → Code A → Code A
  with_docker_config registry body =
      if is_private registry
      then (call (machine.build_docker_config registry)
            (λ directory. made (variable docker_config) ∷ made (path directory) ∷ [])
          >>= λ directory. deferred (removing_docker_config machine directory) body)
      else body

  -- The CA bundle in a file, if there is one.
  unfoldable pub with_ca_file : {A : Type 0} → Registry → (Option String → Code A) → Code A
  unfolding with_temp
  with_ca_file registry body = read (machine.resolve_ca_bundle registry) >>= λ ca_bundle.
      if ca_bundle == ""
      then body none
      else with_temp "trivy.cabundle.*.crt" λ file.
        read (machine.write_file file ca_bundle)
        >> (read (machine.close_file file) >> body (some file))

  -- The run of trivy, which writes the file that is read behind it.
  unfoldable pub run_image : Image → Registry → String → Option String → Code String
  run_image image registry sbom_file ca_file =
      read (machine.run_trivy (image_args settings sbom_file registry ca_file image.metadata))
      >> read (machine.read_file sbom_file)

  unfoldable pub generate_spdx : Image → Registry → Code String
  unfolding with_temp with_docker_config with_ca_file run_image
  generate_spdx image registry = with_temp "trivy.sbom.*.json" λ sbom_file.
      with_docker_config registry (with_ca_file registry (run_image image registry sbom_file))

-- What runTrivyScan uses besides: yaml.Marshal of the hubs, and the reading of trivy's report.
pub record ScanTools : Type 1 where
  pub types : TrivyTypes
  pub trivy : TrivyOps types
  pub marshal_hubs : List VexHub → Result String
  pub unmarshal_report : String → Result (List (TrivyResult types))
  pub join : String → String → String

module _ {W : Type 0} (machine : MachineServices W) (settings : TrivySettings)
    (cluster : ClusterServices W) (tools : ScanTools) where
  -- setupVEXHubRepositories
  unfoldable pub setup_vex_hubs : List VexHub → String → String → Eff W WorkEvent (Unit {0})
  setup_vex_hubs hubs directory file = lift (tools.marshal_hubs hubs) >>= λ config.
      read (machine.make_directory directory) >> read (machine.write_file file config)

  -- With the hubs set up, the directory is removed behind the rest; without any it is not.
  unfoldable pub with_vex_hubs :
      {A : Type 0} → List VexHub → String → (Bool → Eff W WorkEvent A) → Eff W WorkEvent A
  unfolding setup_vex_hubs
  with_vex_hubs hubs home body =
      if is_empty hubs
      then body false
      else (let directory = tools.join home ".trivy/vex" in
          setup_vex_hubs hubs directory (tools.join directory "repository.yaml")
          >> deferred (removing (machine.remove_all home) (path home)) (body true))

  -- From the run of trivy to the summary.
  unfoldable pub scan_report :
      String → String → Bool → Eff W WorkEvent (List TargetResult × Summary)
  scan_report sbom_file report_file vex =
      read (machine.run_trivy (sbom_args settings report_file vex sbom_file))
      >> (call cluster.in_progress (λ _. delivery_extended ∷ [])
          >> (read (machine.read_file report_file) >>= λ text.
              lift (tools.unmarshal_report text) >>= λ report.
              lift (new_results_from_trivy_report tools.trivy report) >>= λ results.
              pure (results, new_summary_from_results results)))

  -- The rest, with the file for the document.
  unfoldable pub scan_file :
      List VexHub → String → String → Eff W WorkEvent (List TargetResult × Summary)
  unfolding with_temp with_vex_hubs scan_report
  scan_file hubs raw_spdx sbom_file =
      read (machine.write_file sbom_file raw_spdx)
      >> with_temp machine settings "trivy.report.*.json" λ report_file.
        call (machine.make_temp_dir "/tmp" "trivy-") (λ home. made (path home) ∷ []) >>= λ home.
        call (machine.set_variable xdg_data_home home) (λ _. made (variable xdg_data_home) ∷ [])
        >> with_vex_hubs hubs home (scan_report sbom_file report_file)

  unfoldable pub run_trivy_scan : String → Eff W WorkEvent (List TargetResult × Summary)
  unfolding with_temp scan_file
  run_trivy_scan raw_spdx = read cluster.list_vex_hubs >>= λ hubs.
      with_temp machine settings "trivy.sbom.*.json" (scan_file hubs raw_spdx)

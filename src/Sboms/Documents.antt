-- ===== src/Sboms/Documents.antt =====
-- internal/handlers/generate_sbom.go: where getOrGenerateSBOM has the document from.
use sbombastic.Common.{
  ◌≡◌, refl, String, Option, none, some, List, [], ◌∷◌, ◌==◌, Error, ok, is_not_found,
}
use sbombastic.Effects.{Eff, fail, call, read}
use sbombastic.Effects.Deferred.{Yields-deferred}
use sbombastic.Effects.Yields.{
  Yields, Yields-pure, Yields-fail, Yields-if, Yields-branch, Yields-branch_with, Yields-call,
}
use sbombastic.Registry.{Registry, is_private}
use sbombastic.Objects.{Image}
use sbombastic.Sboms.{Sbom, WorkEvent, path, variable, made, ClusterServices, MachineServices}
use sbombastic.Sboms.Temporary.{
  TrivySettings, docker_config, removing, removing_docker_config, image_args, with_temp,
  with_docker_config, with_ca_file, run_image, generate_spdx,
}
use sbombastic.Sboms.Generate.{GenerateTools, first_sbom, find_sbom_by_digest, get_or_generate_spdx}

module _ {ℓ} {W A : Type 0} (machine : MachineServices W) (settings : TrivySettings)
    {P : A → Type ℓ} where
  pub Yields-with_temp :
      (pattern : String) (body : String → Eff W WorkEvent A)
      → ((p : String) → Yields P (body p))
      → Yields P (with_temp machine settings pattern body)
  unfolding with_temp
  Yields-with_temp pattern body y =
      Yields-branch (call (machine.create_temp settings.work_dir pattern) (λ p. made (path p) ∷ []))
        fail _ Yields-fail
        (λ p. Yields-deferred (removing (machine.remove p) (path p)) (body p) (y p))

  Yields-with_docker_config :
      (registry : Registry) (body : Eff W WorkEvent A)
      → Yields P body
      → Yields P (with_docker_config machine settings registry body)
  unfolding with_docker_config
  Yields-with_docker_config registry body y =
      Yields-if (is_private registry) _ _
        (λ e.
          Yields-branch
            (call (machine.build_docker_config registry)
              (λ p. made (variable docker_config) ∷ made (path p) ∷ []))
            fail _ Yields-fail (λ p. Yields-deferred (removing_docker_config machine p) body y))
        (λ e. y)

  Yields-with_ca_file :
      (registry : Registry) (body : Option String → Eff W WorkEvent A)
      → ((file : Option String) → Yields P (body file))
      → Yields P (with_ca_file machine settings registry body)
  unfolding with_ca_file
  Yields-with_ca_file registry body y =
      Yields-branch (read (machine.resolve_ca_bundle registry)) fail _ Yields-fail λ ca.
        Yields-if (ca == "") _ _ (λ e. y none)
          (λ e. Yields-with_temp "trivy.cabundle.*.crt" _ λ file.
            Yields-branch (read (machine.write_file file ca)) fail _ Yields-fail λ _.
              Yields-branch (read (machine.close_file file)) fail _ Yields-fail λ _. y (some file))

module _ {W : Type 0} (tools : GenerateTools) (cluster : ClusterServices W)
    (machine : MachineServices W) (image : Image) (registry : Registry) where
  -- The document of the first SBOM that the API server listed for the digest and the namespace of the
  -- image, or what stood in the file that a run of trivy for the image was told to write.
  pub data IsDocument (spdx : String) : Type 0 where
    reused :
        (w : W) (sbom : Sbom) (others : List Sbom)
        → (cluster.find_sboms image.metadata.digest image.namespace w).0 ≡ ok (sbom ∷ others)
        → spdx ≡ sbom.spdx
        → IsDocument spdx
    generated :
        (v w : W) (file : String) (ca_file : Option String)
        → (machine.run_trivy (image_args tools.settings file registry ca_file image.metadata) v).0
          ≡ ok tt
        → (machine.read_file file w).0 ≡ ok spdx
        → IsDocument spdx

  run_image-IsDocument :
      (file : String) (ca_file : Option String)
      → Yields IsDocument (run_image machine tools.settings image registry file ca_file)
  unfolding run_image
  run_image-IsDocument file ca_file =
      let args = image_args tools.settings file registry ca_file image.metadata in
      Yields-branch_with {R = λ a. (v : W) × ((machine.run_trivy args v).0 ≡ ok tt)}
        (read (machine.run_trivy args)) fail _ (Yields-call _ _ (λ v a h. (v, h))) Yields-fail
        (λ a (v, h). Yields-call _ _ (λ w spdx e. IsDocument.generated v w file ca_file h e))

  generate_spdx-IsDocument : Yields IsDocument (generate_spdx machine tools.settings image registry)
  unfolding generate_spdx
  generate_spdx-IsDocument = Yields-with_temp machine tools.settings "trivy.sbom.*.json" _ λ file.
      Yields-with_docker_config machine tools.settings registry _
        (Yields-with_ca_file machine tools.settings registry _ (run_image-IsDocument file))

  abbrev IsFirst : Sbom → Type 0
  IsFirst sbom =
      (w : W) × (others : List Sbom) × ((cluster.find_sboms image.metadata.digest image.namespace
          w).0
        ≡ ok (sbom ∷ others))

  first_sbom-IsFirst :
      (w : W) (found : List Sbom)
      → (cluster.find_sboms image.metadata.digest image.namespace w).0 ≡ ok found
      → Yields IsFirst (first_sbom tools cluster machine found)
  first_sbom-IsFirst w [] h = Yields-fail Error.not_found
  first_sbom-IsFirst w (sbom ∷ others) h = Yields-pure sbom (w, others, h)

  pub spdx-IsDocument :
      Yields IsDocument (get_or_generate_spdx tools cluster machine image registry)
  unfolding get_or_generate_spdx find_sbom_by_digest
  spdx-IsDocument =
      Yields-branch_with {R = IsFirst} _ _ _
        (Yields-branch_with
          {R = λ found.
            (w : W) × ((cluster.find_sboms image.metadata.digest image.namespace w).0 ≡ ok found)}
          (read (cluster.find_sboms image.metadata.digest image.namespace)) fail
          (first_sbom tools cluster machine) (Yields-call _ _ (λ w found h. (w, h))) Yields-fail
          (λ found (w, h). first_sbom-IsFirst w found h))
        (λ e. Yields-if (is_not_found e) _ _ (λ h. generate_spdx-IsDocument) (λ h. Yields-fail e))
        (λ sbom (w, others, h). Yields-pure _ (IsDocument.reused w sbom others h refl))

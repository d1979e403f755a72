-- ===== src/Sboms/Residues.antt =====
-- internal/handlers/generate_sbom.go and scan_sbom_helpers.go: what the runs of trivy leave on the machine.
use sbombastic.Common.{
  Result, ok, err, panic, ◌≡◌, refl, ap, ◌∙◌, String, true, Option, none, some, List, [], ◌∷◌, ◌==◌,
  if◌then◌else◌, eq_refl,
}
use sbombastic.Effects.{Run, Eff}
use sbombastic.Effects.Deferred.{Keeps-scoped}
use sbombastic.Effects.Keeps.{Keeps-read_then, Keeps, Keeps-read, Keeps-if}
use sbombastic.Registry.{Registry, is_private}
use sbombastic.Objects.{Image}
use sbombastic.Sboms.{
  Residue, path, variable, same_residue, WorkEvent, made, gone, stuck, MachineServices,
}
use sbombastic.Sboms.Temporary.{
  note, removing, removing_docker_config, TrivySettings, docker_config, with_temp,
  with_docker_config, with_ca_file, run_image, generate_spdx,
}

unfoldable pub erase : Residue → List Residue → List Residue
erase x [] = []
erase x (y ∷ ys) = if same_residue y x then ys else y ∷ erase x ys

-- What was made and whose removal was not tried since, latest first.
unfoldable pub residue : List WorkEvent → List Residue
unfolding erase
residue [] = []
residue (made x ∷ t) = x ∷ residue t
residue (gone x ∷ t) = erase x (residue t)
residue (stuck x ∷ t) = erase x (residue t)
residue (_ ∷ t) = residue t

abbrev pub Leaves : List Residue → List WorkEvent → Type 0
Leaves rs t = residue t ≡ rs

same_residue_refl : (x : Residue) → same_residue x x ≡ true
same_residue_refl (path p) = eq_refl p
same_residue_refl (variable v) = eq_refl v

erase-head : (x : Residue) (rs : List Residue) → erase x (x ∷ rs) ≡ rs
unfolding erase
erase-head x rs = rw (same_residue_refl x) refl

pub residue-note :
    (x : Residue) (r : Result (Unit {0})) (t : List WorkEvent)
    → residue (note x r ∷ t) ≡ erase x (residue t)
unfolding residue
residue-note x (ok _) t = refl
residue-note x (err e) t = refl
residue-note x panic t = refl

removed :
    (p : String) (r : Result (Unit {0})) (rs : List Residue) (t : List WorkEvent)
    → Leaves (path p ∷ rs) t
    → Leaves rs (note (path p) r ∷ t)
removed p r rs t h = residue-note (path p) r t ∙ (ap (erase (path p)) h ∙ erase-head (path p) rs)

module _ {W A : Type 0} (machine : MachineServices W) (settings : TrivySettings)
    (rs : List Residue) where
  pub Leaves-with_temp :
      (pattern : String) (body : String → Eff W WorkEvent A)
      → ((p : String) → Keeps (Leaves (path p ∷ rs)) (body p))
      → Keeps (Leaves rs) (with_temp machine settings pattern body)
  unfolding with_temp residue
  Leaves-with_temp pattern body k =
      Keeps-scoped (λ p. Leaves (path p ∷ rs)) (machine.create_temp settings.work_dir pattern)
        (λ p. made (path p) ∷ []) (λ p. removing (machine.remove p) (path p)) body
        (λ p t q. ap (◌∷◌ (path p)) q) k (λ p w t q. removed p _ rs t q)

  Leaves-with_docker_config :
      (registry : Registry) (body : Eff W WorkEvent A)
      → ((os : List Residue) → Keeps (Leaves os) body)
      → Keeps (Leaves rs) (with_docker_config machine settings registry body)
  unfolding with_docker_config residue erase
  Leaves-with_docker_config registry body k =
      Keeps-if (is_private registry) _ _
        (λ e.
          Keeps-scoped (λ p. Leaves (variable docker_config ∷ path p ∷ rs))
            (machine.build_docker_config registry)
            (λ p. made (variable docker_config) ∷ made (path p) ∷ [])
            (removing_docker_config machine) (λ p. body)
            (λ p t q. ap (λ os. variable docker_config ∷ path p ∷ os) q) (λ p. k _)
            (λ p w t q.
              residue-note (variable docker_config) _ (note (path p) (machine.remove_all p w).0 ∷ t)
              ∙ (ap (erase (variable docker_config))
                    (residue-note (path p) _ t ∙ ap (erase (path p)) q)
                  ∙ rw (eq_refl p) refl)))
        (λ e. k rs)

  Leaves-with_ca_file :
      (registry : Registry) (body : Option String → Eff W WorkEvent A)
      → ((os : List Residue) (file : Option String) → Keeps (Leaves os) (body file))
      → Keeps (Leaves rs) (with_ca_file machine settings registry body)
  unfolding with_ca_file
  Leaves-with_ca_file registry body k = Keeps-read_then (machine.resolve_ca_bundle registry) _ λ ca.
      Keeps-if (ca == "") _ _ (λ e. k rs none)
        (λ e. Leaves-with_temp "trivy.cabundle.*.crt" _ λ file.
          Keeps-read_then (machine.write_file file ca) _ (λ _.
            Keeps-read_then (machine.close_file file) _ (λ _. k (path file ∷ rs) (some file))))

module _ {W : Type 0} (machine : MachineServices W) (settings : TrivySettings) (image : Image)
    (registry : Registry) where
  run-Keeps :
      (file : String) (ca_file : Option String) (rs : List Residue)
      → Keeps (Leaves rs) (run_image machine settings image registry file ca_file)
  unfolding run_image
  run-Keeps file ca_file rs = Keeps-read_then (machine.run_trivy _) _ (λ _. Keeps-read _)

  generate_spdx-Keeps :
      (rs : List Residue) → Keeps (Leaves rs) (generate_spdx machine settings image registry)
  unfolding generate_spdx
  generate_spdx-Keeps rs = Leaves-with_temp machine settings rs "trivy.sbom.*.json" _ λ file.
      Leaves-with_docker_config machine settings (path file ∷ rs) registry
        (with_ca_file machine settings registry (run_image machine settings image registry file))
        λ os.
          Leaves-with_ca_file machine settings os registry
            (run_image machine settings image registry file) λ qs ca_file. run-Keeps file ca_file qs

  -- Whatever fails, when generateSPDX returns it has tried to remove all that it made, and so has left
  -- nothing but what could not be removed: the temporary files, and the directory and the variable of a
  -- Docker configuration that was built.
  pub generate_spdx-residue :
      (s : Run W WorkEvent)
      → residue (generate_spdx machine settings image registry s).1.trace ≡ residue s.trace
  generate_spdx-residue s = (generate_spdx-Keeps (residue s.trace)).keep s refl

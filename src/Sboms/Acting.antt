-- ===== src/Sboms/Acting.antt =====
-- What the handlers of SBOMs have the cluster and the broker do, apart from what they do on the machine.
use sbombastic.Common.{Result, ok, err, panic, ◌≡◌, String, List, [], ◌∷◌, ◌==◌, Option}
use sbombastic.Effects.{Eff, fail, call}
use sbombastic.Effects.Deferred.{Keeps-deferred}
use sbombastic.Effects.Keeps.{
  Keeps-read_then, Keeps, Keeps-fail, Keeps-read, Keeps-call, Keeps-if, Keeps-branch,
}
use sbombastic.Registry.{Registry, is_private}
use sbombastic.Objects.{Image}
use sbombastic.Sboms.{
  Residue, path, variable, WorkEvent, delivery_extended, made, gone, stuck, MachineServices,
}
use sbombastic.Sboms.Temporary.{
  note, removing, removing_docker_config, TrivySettings, docker_config, with_temp,
  with_docker_config, with_ca_file, run_image, generate_spdx,
}

-- What the cluster and the broker see.
unfoldable pub acts : List WorkEvent → List WorkEvent
acts [] = []
acts (made x ∷ t) = acts t
acts (gone x ∷ t) = acts t
acts (stuck x ∷ t) = acts t
acts (delivery_extended ∷ t) = acts t
acts (e ∷ t) = e ∷ acts t

abbrev pub Acted : List WorkEvent → List WorkEvent → Type 0
Acted events t = acts t ≡ events

pub note-Acted :
    (x : Residue) (r : Result (Unit {0})) (events t : List WorkEvent)
    → Acted events t
    → Acted events (note x r ∷ t)
unfolding acts
note-Acted x (ok _) events t h = h
note-Acted x (err e) events t h = h
note-Acted x panic events t h = h

module _ {W : Type 0} (machine : MachineServices W) (settings : TrivySettings)
    (events : List WorkEvent) where
  pub Acted-with_temp :
      {A : Type 0} (pattern : String) (body : String → Eff W WorkEvent A)
      → ((p : String) → Keeps (Acted events) (body p))
      → Keeps (Acted events) (with_temp machine settings pattern body)
  unfolding with_temp acts
  Acted-with_temp pattern body k =
      Keeps-branch (call (machine.create_temp settings.work_dir pattern) (λ p. made (path p) ∷ []))
        fail _ (Keeps-call _ _ (λ p t q. q)) Keeps-fail
        (λ p.
          Keeps-deferred (removing (machine.remove p) (path p)) (body p) (λ t q. q) (k p)
            (λ w t q. note-Acted (path p) (machine.remove p w).0 events t q))

  pub Acted-with_docker_config :
      {A : Type 0} (registry : Registry) (body : Eff W WorkEvent A)
      → Keeps (Acted events) body
      → Keeps (Acted events) (with_docker_config machine settings registry body)
  unfolding with_docker_config acts
  Acted-with_docker_config registry body k =
      Keeps-if (is_private registry) _ _
        (λ e.
          Keeps-branch
            (call (machine.build_docker_config registry)
              (λ p. made (variable docker_config) ∷ made (path p) ∷ []))
            fail _ (Keeps-call _ _ (λ p t q. q)) Keeps-fail
            (λ p.
              Keeps-deferred (removing_docker_config machine p) body (λ t q. q) k
                (λ w t q.
                  note-Acted (variable docker_config) _ events
                    (note (path p) (machine.remove_all p w).0 ∷ t)
                    (note-Acted (path p) _ events t q))))
        (λ e. k)

  pub Acted-with_ca_file :
      {A : Type 0} (registry : Registry) (body : Option String → Eff W WorkEvent A)
      → ((file : Option String) → Keeps (Acted events) (body file))
      → Keeps (Acted events) (with_ca_file machine settings registry body)
  unfolding with_ca_file
  Acted-with_ca_file registry body k = Keeps-read_then (machine.resolve_ca_bundle registry) _ λ ca.
      Keeps-if (ca == "") _ _ (λ e. k _)
        (λ e. Acted-with_temp "trivy.cabundle.*.crt" _ λ file.
          Keeps-read_then (machine.write_file file ca) _
            (λ _. Keeps-read_then (machine.close_file file) _ (λ _. k _)))

  pub generate_spdx-Acted :
      (image : Image) (registry : Registry)
      → Keeps (Acted events) (generate_spdx machine settings image registry)
  unfolding generate_spdx run_image
  generate_spdx-Acted image registry = Acted-with_temp "trivy.sbom.*.json" _ λ file.
      Acted-with_docker_config registry
        (with_ca_file machine settings registry (run_image machine settings image registry file))
        (Acted-with_ca_file registry (run_image machine settings image registry file)
          λ ca_file. Keeps-read_then (machine.run_trivy _) _ (λ _. Keeps-read _))

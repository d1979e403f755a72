-- ===== src/Vulnerabilities/Loops.antt =====
-- internal/handlers/trivyreport/trivy.go: the loops over what one target has.
use sbombastic.Common.{
  ℕ, suc, ◌+◌, ◌≡◌, refl, ap, ◌∙◌, arith, Bool, true, false, not, ◌&&◌, List, [], ◌∷◌, ◌++◌, length,
  filter, all, Result, ok, err, panic, some, is_ok, ◌>>=◌, Bool-cases, inl, inr,
}
use sbombastic.Vulnerabilities.{Vulnerability}
use sbombastic.Vulnerabilities.Trivy.{
  TrivyTypes, TrivyOps, DetectedVulnerability, ModifiedFinding, TrivyResult, new_vulnerability,
  convert_detected, convert_finding, new_vex_status, is_vulnerability, convert_findings,
}
use sbombastic.Vulnerabilities.Counts.{tally, tally-++, is_suppressed}

returned : {A : Type 0} (x : Result A) → is_ok x ≡ true → (a : A) × (x ≡ ok a)
returned (ok a) h = (a, refl)
returned (err e) h = ground arith
returned panic h = ground arith

bound :
    {A B : Type 0} (x : Result A) (f : A → Result B)
    → is_ok (x >>= f) ≡ true
    → (a : A) × ((x ≡ ok a) × (is_ok (f a) ≡ true))
bound (ok a) f h = (a, (refl, h))
bound (err e) f h = ground arith
bound panic f h = ground arith

is_ok-bind : {A B : Type 0} (x : Result A) (f : A → B) → is_ok (x >>= λ a. ok (f a)) ≡ is_ok x
is_ok-bind (ok a) f = refl
is_ok-bind (err e) f = refl
is_ok-bind panic f = refl

abbrev pub is_open : Vulnerability → Bool
is_open v = not v.suppressed

-- Detected vulnerabilities and findings, converted.
abbrev pub Split : ℕ → ℕ → List Vulnerability → Type 0
Split n m vs = (tally is_open vs ≡ n) × (tally is_suppressed vs ≡ m)

Split-++ :
    (a b c d : ℕ) (xs ys : List Vulnerability)
    → Split a b xs
    → Split c d ys
    → Split (a + c) (b + d) (xs ++ ys)
Split-++ a b c d xs ys (p, q) (r, s) =
    (omega (arith, tally-++ is_open xs ys, p, r), omega (arith, tally-++ is_suppressed xs ys, q, s))

module _ {types : TrivyTypes} (ops : TrivyOps types) where
  -- The packages that are called answer for all that a report holds.
  abbrev pub is_printed : DetectedVulnerability types → Bool
  is_printed v = is_ok (ops.purl_string v.purl)

  abbrev pub is_decoded : ModifiedFinding types → Bool
  is_decoded f = is_ok (ops.gob_finding f.finding >>= λ v. ops.purl_string v.purl)

  abbrev pub is_readable : TrivyResult types → Bool
  is_readable r =
      all is_printed r.vulnerabilities
      && all is_decoded (filter (is_vulnerability ops) r.modified_findings)

  is_ok-new_vulnerability :
      (v : DetectedVulnerability types) → is_ok (new_vulnerability ops v) ≡ is_printed v
  unfolding new_vulnerability
  is_ok-new_vulnerability v = is_ok-bind (ops.purl_string v.purl) _

  convert_finding-made :
      (f : ModifiedFinding types) (d : DetectedVulnerability types) (w : Vulnerability)
      → ops.gob_finding f.finding ≡ ok d
      → new_vulnerability ops d ≡ ok w
      → (out : Vulnerability) × ((convert_finding ops f ≡ ok out) × (out.suppressed ≡ true))
  unfolding convert_finding
  convert_finding-made f d w e e2 = (
    record w { suppressed = true; vex_status = some (new_vex_status ops f) },
    (
      ap (λ x. x >>= λ detected. new_vulnerability ops detected >>= finish) e
          ∙ ap (λ x. x >>= finish) e2,
      refl,
    ),
  )
    where
      finish : Vulnerability → Result Vulnerability
      finish v = ok (record v { suppressed = true; vex_status = some (new_vex_status ops f) })

  made_finding :
      (f : ModifiedFinding types)
      → is_decoded f ≡ true
      → (out : Vulnerability) × ((convert_finding ops f ≡ ok out) × (out.suppressed ≡ true))
  made_finding f h =
      let (d, (e, p)) = bound (ops.gob_finding f.finding) (λ v. ops.purl_string v.purl) h in
      let (w, e2) = returned (new_vulnerability ops d) (is_ok-new_vulnerability d ∙ p) in
      convert_finding-made f d w e e2

  convert_detected-cons :
      (v : DetectedVulnerability types) (vs : List (DetectedVulnerability types))
      (w : Vulnerability) (out : List Vulnerability)
      → new_vulnerability ops v ≡ ok w
      → convert_detected ops vs ≡ ok out
      → convert_detected ops (v ∷ vs) ≡ ok (record w { suppressed = false } ∷ out)
  unfolding convert_detected
  convert_detected-cons v vs w out e made = rw (e, made) refl

  pub Split-detected :
      (vs : List (DetectedVulnerability types))
      → all is_printed vs ≡ true
      → (out : List Vulnerability) × ((convert_detected ops vs ≡ ok out) × Split (length vs) 0 out)
  unfolding convert_detected tally
  Split-detected [] h = ([], (refl, (refl, refl)))
  Split-detected (v ∷ vs) h =
      let (w, e) = returned (new_vulnerability ops v) (is_ok-new_vulnerability v ∙ ground arith) in
      let (out, (made, (a, b))) = Split-detected vs (ground arith) in
      (
        record w { suppressed = false } ∷ out,
        (convert_detected-cons v vs w out e made, (ap suc a, b)),
      )

  convert_findings-cons :
      (f : ModifiedFinding types) (fs : List (ModifiedFinding types)) (w : Vulnerability)
      (out : List Vulnerability)
      → is_vulnerability ops f ≡ true
      → convert_finding ops f ≡ ok w
      → convert_findings ops fs ≡ ok out
      → convert_findings ops (f ∷ fs) ≡ ok (w ∷ out)
  unfolding convert_findings
  convert_findings-cons f fs w out e made_it made = rw (e, made_it, made) refl

  pub Split-findings :
      (fs : List (ModifiedFinding types))
      → all is_decoded (filter (is_vulnerability ops) fs) ≡ true
      → (out : List Vulnerability) × ((convert_findings ops fs ≡ ok out)
          × Split 0 (length (filter (is_vulnerability ops) fs)) out)
  unfolding convert_findings tally
  Split-findings [] h = ([], (refl, (refl, refl)))
  Split-findings (f ∷ fs) h = elim (Bool-cases (is_vulnerability ops f)) [
    | inl e ↦
        let (v, (made_it, s)) = made_finding f (ground arith) in
        let (out, (made, (a, b))) = Split-findings fs (ground arith) in
        (v ∷ out, (convert_findings-cons f fs v out e made_it made, (rw s a, rw (s, e) (ap suc b))))
    | inr e ↦
        let (out, (made, (a, b))) = Split-findings fs (ground arith) in (out, rw e (made, (a, b)))
  ]

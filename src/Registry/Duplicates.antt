-- ===== src/Registry/Duplicates.antt =====
-- A repository that declares a condition name twice: the controller accepts a ScanJob that targets
-- the name, and the worker refuses it.
use sbombastic.Common.{
  ℕ, String, ◌≡◌, refl, suc, ◌≤◌, true, none, List, [], ◌∷◌, arith, ◌==◌, eq_iff, if◌then◌else◌,
  length, any, Within, length-le_of_Within, err, Error, some,
}
use sbombastic.Sets.{Sets}
use sbombastic.Job.{ScanJobRepository}
use sbombastic.Registry.{
  MatchCondition, Repository, Registry, declares, validate_conditions, narrow, get_repository,
  validate_scan_job_targets, target_repositories, apply_targets_to_registry,
}
use sbombastic.Registry.Counting.{kept}

-- How often a condition name is declared.
abbrev pub times : String → List MatchCondition → ℕ
times c [] = 0
times c (mc ∷ mcs) = let rest = times c mcs in if c == mc.name then suc rest else rest

module _ (S : Sets) (c : String) where
  singleton-len : S.len (S.new (c ∷ [])) ≤ 1
  singleton-len = omega (
    arith,
    S.len-length (S.new (c ∷ [])),
    length-le_of_Within (S.unsorted_list (S.new (c ∷ []))) (c ∷ [])
        (S.unsorted_list-Distinct (S.new (c ∷ []))) inside,
  )
    where
      inside : Within (S.unsorted_list (S.new (c ∷ []))) (c ∷ [])
      inside z m = ground (arith, S.contains-unsorted_list (S.new (c ∷ [])) z, S.has-new (c ∷ []) z)

  length-kept-times : (mcs : List MatchCondition) → length (kept S (c ∷ []) mcs) ≡ times c mcs
  length-kept-times [] = refl
  length-kept-times (mc ∷ mcs) = ground (arith, length-kept-times mcs, S.has-new (c ∷ []) mc.name)

  any-times : (mcs : List MatchCondition) → 1 ≤ times c mcs → any (λ mc. mc.name == c) mcs ≡ true
  any-times [] h = elim h [ ]
  any-times (mc ∷ mcs) h = ground (arith, any-times mcs, eq_iff c mc.name, eq_iff mc.name c)

  narrow-err :
      (t : ScanJobRepository) (p : Repository)
      → t.match_conditions ≡ c ∷ []
      → 2 ≤ times c p.match_conditions
      → narrow S t p ≡ err Error.other
  unfolding narrow
  narrow-err t p e h = rw e (ground (arith, length-kept-times p.match_conditions, singleton-len))

  valid_single :
      (target : String) (p : Repository)
      → 2 ≤ times c p.match_conditions
      → validate_conditions target p (c ∷ []) ≡ none
  unfolding validate_conditions declares
  valid_single target p h = ground (arith, any-times p.match_conditions (omega arith))

-- A target that asks for one condition, which its repository declares at least twice, passes the
-- controller's validation, and the worker refuses to apply it.
pub duplicate_condition_refused :
    (S : Sets) (dr : String) (r : Registry) (t : ScanJobRepository) (c : String) (p : Repository)
    → t.match_conditions ≡ c ∷ []
    → get_repository dr r t.name ≡ some p
    → 2 ≤ times c p.match_conditions
    → (validate_scan_job_targets dr (t ∷ []) r ≡ none)
      × (apply_targets_to_registry S dr (t ∷ []) r ≡ err Error.other)
unfolding validate_scan_job_targets apply_targets_to_registry target_repositories
duplicate_condition_refused S dr r t c p e g h =
    (ground (arith, valid_single S c t.name p h), ground (arith, narrow-err S c t p e h))

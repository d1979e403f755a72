-- ===== src/Registry/Targets.antt =====
-- The two readings of a ScanJob's targets: validateScanJobTargets in the controller and
-- applyTargetsToRegistry in the worker.
use sbombastic.Common.{
  String, ◌≡◌, refl, inl, inr, Bool, true, not, ◌&&◌, ◌||◌, none, some, List, [], ◌∷◌, arith,
  Bool-cases, Option-cases, is_some, contains, find?, length, eqb, eqb_iff, is_empty, All, ok,
  is_ok,
}
use mathlib.Core.Path.{subst}
use sbombastic.Sets.{Sets}
use sbombastic.Job.{ScanJobRepository}
use sbombastic.Registry.{
  Repository, Registry, validate_conditions, validate_scan_job_targets, get_repository, narrow,
  target_repositories, apply_targets_to_registry,
}
use sbombastic.Registry.Counting.{
  names, DistinctConditions, kept, contains-names, validate_conditions-none,
  validate_conditions_of_Within, lengths_eq, lengths_eq-Within,
}

-- A repository that is found is one of the list.
All-find? :
    (P : Repository → Type 0) (q : Repository → Bool) (ps : List Repository) (p : Repository)
    → All P ps
    → find? q ps ≡ some p
    → P p
All-find? P q [] p h e = cc
All-find? P q (x ∷ xs) p h e = elim (Bool-cases (q x)) [
  | inl t ↦ let same : x ≡ p = ground arith in subst P same h.0
  | inr f ↦ All-find? P q xs p h.1 (rw f at e)
]

get_repository-DistinctConditions :
    (dr : String) (r : Registry) (name : String) (p : Repository)
    → All DistinctConditions r.spec.repositories
    → get_repository dr r name ≡ some p
    → DistinctConditions p
unfolding get_repository
get_repository-DistinctConditions dr r name p d e =
    All-find? DistinctConditions _ r.spec.repositories p d e

module _ (S : Sets) (t : ScanJobRepository) (p : Repository) (d : DistinctConditions p) where
  abbrev fits : Bool
  fits =
      eqb (length (kept S t.match_conditions p.match_conditions)) (S.len (S.new t.match_conditions))

  fits-valid : fits ≡ true → validate_conditions t.name p t.match_conditions ≡ none
  fits-valid e =
      validate_conditions_of_Within t.name p t.match_conditions
        (lengths_eq-Within S t.match_conditions p.match_conditions d ((eqb_iff _ _).0 e))

  valid-fits : validate_conditions t.name p t.match_conditions ≡ none → fits ≡ true
  valid-fits e = (eqb_iff _ _).1 (
      lengths_eq S t.match_conditions p.match_conditions d
        (λ z. validate_conditions-none t.name p t.match_conditions z e))

  empty-valid : (cs : List String) → is_empty cs ≡ true → validate_conditions t.name p cs ≡ none
  unfolding validate_conditions
  empty-valid [] e = refl
  empty-valid (c ∷ cs) e = cc

  -- One target can be applied exactly when its conditions are declared.
  is_ok-narrow :
      is_ok (narrow S t p) ≡ not (is_some (validate_conditions t.name p t.match_conditions))
  unfolding narrow
  is_ok-narrow = ground (arith, fits-valid, valid-fits, empty-valid t.match_conditions)

module _ (S : Sets) (dr : String) where
  is_ok-target_repositories :
      (ts : List ScanJobRepository) (r : Registry)
      → All DistinctConditions r.spec.repositories
      → is_ok (target_repositories S dr ts r) ≡ not (is_some (validate_scan_job_targets dr ts r))
  unfolding target_repositories validate_scan_job_targets
  is_ok-target_repositories [] r d = refl
  is_ok-target_repositories (t ∷ ts) r d = elim (Option-cases (get_repository dr r t.name)) [
    | inl e ↦ ground arith
    | inr (p, e) ↦ ground (
      arith,
      is_ok-narrow S t p (get_repository-DistinctConditions dr r t.name p d e),
      is_ok-target_repositories ts r d,
    )
  ]

  -- If no repository of the registry declares a condition name twice, the worker can apply the targets
  -- of a ScanJob exactly when the controller finds nothing wrong with them.
  pub is_ok-apply_targets :
      (ts : List ScanJobRepository) (r : Registry)
      → All DistinctConditions r.spec.repositories
      → is_ok (apply_targets_to_registry S dr ts r)
        ≡ not (is_some (validate_scan_job_targets dr ts r))
  unfolding apply_targets_to_registry
  is_ok-apply_targets [] r d = unfold validate_scan_job_targets in refl
  is_ok-apply_targets (t ∷ ts) r d = ground (arith, is_ok-target_repositories (t ∷ ts) r d)

-- What a target asks of the conditions of its repository.
abbrev pub wants : ScanJobRepository → String → Bool
wants t c = is_empty t.match_conditions || contains t.match_conditions c

-- The narrowed list, target by target: the repository that GetRepository finds, under its name and
-- operator, with exactly those of its conditions that the target wants.
abbrev pub Narrowed : String → Registry → List ScanJobRepository → List Repository → Type 0
Narrowed dr r [] [] = Unit
Narrowed dr r (t ∷ ts) (q ∷ qs) = record {
  found : Repository;
  get : get_repository dr r t.name ≡ some found;
  name : q.name ≡ found.name;
  operator : q.match_operator ≡ found.match_operator;
  conditions :
      (c : String)
      → contains (names q.match_conditions) c
        ≡ (contains (names found.match_conditions) c && wants t c);
  rest : Narrowed dr r ts qs;
}
Narrowed dr r _ _ = ⊥

module _ (S : Sets) where
  narrow-names :
      (t : ScanJobRepository) (p q : Repository)
      → narrow S t p ≡ ok q
      → (q.name ≡ p.name)
        × (q.match_operator ≡ p.match_operator)
        × ((c : String)
            → contains (names q.match_conditions) c
              ≡ (contains (names p.match_conditions) c && wants t c))
  unfolding narrow
  narrow-names t p q e = (
    ground arith,
    ground arith,
    λ c. ground (
      arith,
      contains-names p.match_conditions (S.has (S.new t.match_conditions)) c,
      S.has-new t.match_conditions c,
    ),
  )

  -- The narrowed repositories are those that the targets name, in the order of the targets: each under
  -- the name and operator that the registry gives it, with exactly the conditions that the target asks
  -- for, or all of them where it asks for none.
  target_repositories-Narrowed :
      (dr : String) (ts : List ScanJobRepository) (r : Registry) (qs : List Repository)
      → target_repositories S dr ts r ≡ ok qs
      → Narrowed dr r ts qs
  unfolding target_repositories
  target_repositories-Narrowed dr [] r [] e = tt
  target_repositories-Narrowed dr [] r (q ∷ qs) e = ground arith
  target_repositories-Narrowed dr (t ∷ ts) r [] e = ground arith
  target_repositories-Narrowed dr (t ∷ ts) r (q ∷ qs) e =
      elim (Option-cases (get_repository dr r t.name)) [
        | inl x ↦ absurd (ground arith)
        | inr (p, x) ↦
            let one : narrow S t p ≡ ok q = ground arith in
            let more : target_repositories S dr ts r ≡ ok qs = ground arith in
            let (same, op, conds) = narrow-names t p q one in
            record {
              found = p;
              get = x;
              name = same;
              operator = op;
              conditions = conds;
              rest = target_repositories-Narrowed dr ts r qs more;
            }
      ]

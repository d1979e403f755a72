-- ===== src/Vulnerabilities/Counts.antt =====
-- api/storage/v1alpha1/summary.go: what the six counters are.
use sbombastic.Common.{
  ℕ, zero, suc, ◌+◌, ◌≡◌, refl, ap, ◌∙◌, arith, String, Bool, false, not, ◌&&◌, ◌||◌, List, [], ◌∷◌,
  ◌++◌, length, filter, eq_iff, ◌==◌, Bool-cases, inl, inr, ◌⊎◌,
}
use sbombastic.Vulnerabilities.{
  Vulnerability, TargetResult, Summary, empty_summary, severity_critical, severity_high,
  severity_medium, severity_low, add, add_all, add_results, new_summary_from_results,
}

-- The number of items with a property.
unfoldable pub tally {ℓ} : {A : Type ℓ} → (A → Bool) → List A → ℕ
tally p xs = length (filter p xs)

abbrev pub is_suppressed : Vulnerability → Bool
is_suppressed v = v.suppressed

abbrev pub is_rated : String → Vulnerability → Bool
is_rated severity v = not v.suppressed && (v.severity == severity)

-- Not suppressed, and of none of the four severities that are counted.
abbrev pub is_unrated : Vulnerability → Bool
is_unrated v =
    not v.suppressed
    && not (
        (v.severity == severity_critical)
        || ((v.severity == severity_high)
            || ((v.severity == severity_medium) || (v.severity == severity_low))))

-- The summary without a loop.
unfoldable pub counts : List Vulnerability → Summary
unfolding tally
counts vs = record {
  critical = tally (is_rated severity_critical) vs;
  high = tally (is_rated severity_high) vs;
  medium = tally (is_rated severity_medium) vs;
  low = tally (is_rated severity_low) vs;
  unknown = tally is_unrated vs;
  suppressed = tally is_suppressed vs;
}

-- Everything that was found, in the order of the report.
unfoldable pub all_vulnerabilities : List TargetResult → List Vulnerability
all_vulnerabilities [] = []
all_vulnerabilities (r ∷ results) = r.vulnerabilities ++ all_vulnerabilities results

-- The sum, which computes on the first number.
abbrev more : ℕ → ℕ → ℕ
more zero n = n
more (suc k) n = suc (more k n)

more_add : (k n : ℕ) → more k n ≡ k + n
more_add zero n = omega arith
more_add (suc k) n = omega (arith, more_add k n)

abbrev plus : Summary → Summary → Summary
plus a b = record {
  critical = more a.critical b.critical;
  high = more a.high b.high;
  medium = more a.medium b.medium;
  low = more a.low b.low;
  unknown = more a.unknown b.unknown;
  suppressed = more a.suppressed b.suppressed;
}

pub Severity-cases :
    (x : String)
    → (x ≡ severity_critical)
      ⊎ ((x ≡ severity_high)
          ⊎ ((x ≡ severity_medium)
              ⊎ ((x ≡ severity_low)
                  ⊎ (((x == severity_critical) ≡ false)
                      × (((x == severity_high) ≡ false)
                          × (((x == severity_medium) ≡ false) × ((x == severity_low) ≡ false)))))))
Severity-cases x = elim (Bool-cases (x == severity_critical)) [
  | inl e ↦ inl ((eq_iff x severity_critical).0 e)
  | inr c ↦ inr (elim (Bool-cases (x == severity_high)) [
    | inl e ↦ inl ((eq_iff x severity_high).0 e)
    | inr h ↦ inr (elim (Bool-cases (x == severity_medium)) [
      | inl e ↦ inl ((eq_iff x severity_medium).0 e)
      | inr m ↦ inr (elim (Bool-cases (x == severity_low)) [
        | inl e ↦ inl ((eq_iff x severity_low).0 e)
        | inr l ↦ inr (c, (h, (m, l)))
      ])
    ])
  ])
]

add-one : (s : Summary) (v : Vulnerability) → add s v ≡ plus (counts (v ∷ [])) s
unfolding add counts tally
add-one s v = elim (Bool-cases v.suppressed) [
  | inl e ↦ rw e refl
  | inr e ↦ elim (Severity-cases v.severity) [
    | inl p ↦ rw (e, p) refl
    | inr (inl p) ↦ rw (e, p) refl
    | inr (inr (inl p)) ↦ rw (e, p) refl
    | inr (inr (inr (inl p))) ↦ rw (e, p) refl
    | inr (inr (inr (inr (c, (h, (m, l)))))) ↦ rw (e, c, h, m, l) refl
  ]
]

pub tally-++ {ℓ} :
    {A : Type ℓ} (p : A → Bool) (xs ys : List A) → tally p (xs ++ ys) ≡ tally p xs + tally p ys
unfolding tally
tally-++ p [] ys = omega arith
tally-++ p (x ∷ xs) ys = ground (arith, tally-++ p xs ys)

more-tally :
    (p : Vulnerability → Bool) (xs ys : List Vulnerability) (n : ℕ)
    → more (tally p ys) (more (tally p xs) n) ≡ more (tally p (xs ++ ys)) n
more-tally p xs ys n = omega (
  arith,
  more_add (tally p ys) (more (tally p xs) n),
  more_add (tally p xs) n,
  more_add (tally p (xs ++ ys)) n,
  tally-++ p xs ys,
)

counts-++ :
    (xs ys : List Vulnerability) (s : Summary)
    → plus (counts ys) (plus (counts xs) s) ≡ plus (counts (xs ++ ys)) s
unfolding counts
counts-++ xs ys s = λ i. record {
  critical = more-tally (is_rated severity_critical) xs ys s.critical i;
  high = more-tally (is_rated severity_high) xs ys s.high i;
  medium = more-tally (is_rated severity_medium) xs ys s.medium i;
  low = more-tally (is_rated severity_low) xs ys s.low i;
  unknown = more-tally is_unrated xs ys s.unknown i;
  suppressed = more-tally is_suppressed xs ys s.suppressed i;
}

add_all-counts : (s : Summary) (vs : List Vulnerability) → add_all s vs ≡ plus (counts vs) s
unfolding add_all counts tally
add_all-counts s [] = refl
add_all-counts s (v ∷ vs) =
    add_all-counts (add s v) vs ∙ ap (plus (counts vs)) (add-one s v) ∙ counts-++ (v ∷ []) vs s

add_results-counts :
    (s : Summary) (results : List TargetResult)
    → add_results s results ≡ plus (counts (all_vulnerabilities results)) s
unfolding add_results all_vulnerabilities counts tally
add_results-counts s [] = refl
add_results-counts s (r ∷ results) =
    add_results-counts (add_all s r.vulnerabilities) results
    ∙ ap (plus (counts (all_vulnerabilities results))) (add_all-counts s r.vulnerabilities)
    ∙ counts-++ r.vulnerabilities (all_vulnerabilities results) s

more_zero : (n : ℕ) → more n 0 ≡ n
more_zero n = omega (arith, more_add n 0)

plus-empty : (s : Summary) → plus s empty_summary ≡ s
plus-empty s = λ i. record {
  critical = more_zero s.critical i;
  high = more_zero s.high i;
  medium = more_zero s.medium i;
  low = more_zero s.low i;
  unknown = more_zero s.unknown i;
  suppressed = more_zero s.suppressed i;
}

-- Each counter of a summary is a number of vulnerabilities of the results: those that are suppressed,
-- and of the others those of the counter's severity; the counter for unknown has those of none of
-- the four other severities.
pub new_summary_from_results-counts :
    (results : List TargetResult)
    → new_summary_from_results results ≡ counts (all_vulnerabilities results)
unfolding new_summary_from_results
new_summary_from_results-counts results =
    add_results-counts empty_summary results ∙ plus-empty (counts (all_vulnerabilities results))

-- The five counters of what is not suppressed.
pub counts-is_open :
    (vs : List Vulnerability)
    → (counts vs).critical
        + ((counts vs).high + ((counts vs).medium + ((counts vs).low + (counts vs).unknown)))
      ≡ tally (λ v. not v.suppressed) vs
unfolding counts tally
counts-is_open [] = refl
counts-is_open (v ∷ vs) =
    let ih = counts-is_open vs in
    elim (Bool-cases v.suppressed) [
      | inl e ↦ rw e ih
      | inr e ↦ elim (Severity-cases v.severity) [
        | inl p ↦ rw (e, p) (omega (arith, ih))
        | inr (inl p) ↦ rw (e, p) (omega (arith, ih))
        | inr (inr (inl p)) ↦ rw (e, p) (omega (arith, ih))
        | inr (inr (inr (inl p))) ↦ rw (e, p) (omega (arith, ih))
        | inr (inr (inr (inr (c, (h, (m, l)))))) ↦ rw (e, c, h, m, l) (omega (arith, ih))
      ]
    ]

-- ===== src/Registry/Counting.antt =====
-- How many conditions of a repository a target keeps, against how many names it wants: the
-- comparison by which applyTargetsToRegistry (internal/handlers/create_catalog.go) rejects a target.
use sbombastic.Common.{
  String, ◌≡◌, refl, sym, Bool, true, ◌&&◌, none, List, [], ◌∷◌, map, arith, ◌≤◌, ◌==◌, eq_iff,
  contains, filter, any, length, length-map, Distinct, Within, length-le_of_Within,
  Within-of_length,
}
use sbombastic.Sets.{Sets}
use sbombastic.Registry.{MatchCondition, Repository, declares, validate_conditions}

abbrev pub names : List MatchCondition → List String
names = map (λ mc. mc.name)

-- No condition name stands twice in a repository of the registry.
abbrev pub DistinctConditions : Repository → Type 0
DistinctConditions p = Distinct (names p.match_conditions)

pub contains-names :
    (mcs : List MatchCondition) (w : String → Bool) (z : String)
    → contains (names (filter (λ mc. w mc.name) mcs)) z ≡ (contains (names mcs) z && w z)
contains-names [] w z = refl
contains-names (mc ∷ mcs) w z = ground (arith, contains-names mcs w z, eq_iff mc.name z)

filter-Distinct :
    (mcs : List MatchCondition) (w : String → Bool)
    → Distinct (names mcs)
    → Distinct (names (filter (λ mc. w mc.name) mcs))
filter-Distinct [] w d = d
filter-Distinct (mc ∷ mcs) w d =
    ground (arith, contains-names mcs w mc.name, filter-Distinct mcs w d.1)

any-names :
    (mcs : List MatchCondition) (c : String) → any (λ mc. mc.name == c) mcs ≡ contains (names mcs) c
any-names [] c = refl
any-names (mc ∷ mcs) c = ground (arith, any-names mcs c)

-- The first loop accepts exactly the lists whose items are all declared.
pub validate_conditions-none :
    (t : String) (p : Repository) (cs : List String) (z : String)
    → validate_conditions t p cs ≡ none
    → contains cs z ≡ true
    → contains (names p.match_conditions) z ≡ true
unfolding validate_conditions declares
validate_conditions-none t p [] z h m = ground arith
validate_conditions-none t p (c ∷ cs) z h m =
    ground (arith, eq_iff c z, any-names p.match_conditions c, validate_conditions-none t p cs z)

pub validate_conditions_of_Within :
    (t : String) (p : Repository) (cs : List String)
    → Within cs (names p.match_conditions)
    → validate_conditions t p cs ≡ none
unfolding validate_conditions declares
validate_conditions_of_Within t p [] w = refl
validate_conditions_of_Within t p (c ∷ cs) w = ground (
  arith,
  any-names p.match_conditions c,
  w c,
  eq_iff c c,
  validate_conditions_of_Within t p cs (λ z m. w z (ground arith)),
)

-- What the source compares: the conditions kept, and the size of the set of wanted names.
module _ (S : Sets) (wanted : List String) (mcs : List MatchCondition) where
  abbrev pub kept : List MatchCondition
  kept = filter (λ mc. S.has (S.new wanted) mc.name) mcs

  kept-Within : Within (names kept) (S.unsorted_list (S.new wanted))
  kept-Within z m = ground (
    arith,
    contains-names mcs (S.has (S.new wanted)) z,
    S.contains-unsorted_list (S.new wanted) z,
  )

  length-kept : length kept ≡ length (names kept)
  length-kept = sym (length-map (λ mc. mc.name) kept)

  wanted-Within : Within wanted (names mcs) → Within (S.unsorted_list (S.new wanted)) (names kept)
  wanted-Within w z m = ground (
    arith,
    contains-names mcs (S.has (S.new wanted)) z,
    S.contains-unsorted_list (S.new wanted) z,
    S.has-new wanted z,
    w z,
  )

  Within-wanted : Within (S.unsorted_list (S.new wanted)) (names kept) → Within wanted (names mcs)
  Within-wanted w z m = ground (
    arith,
    contains-names mcs (S.has (S.new wanted)) z,
    S.contains-unsorted_list (S.new wanted) z,
    S.has-new wanted z,
    w z,
  )

  module _ (d : Distinct (names mcs)) where
    kept-Distinct : Distinct (names kept)
    kept-Distinct = filter-Distinct mcs (S.has (S.new wanted)) d

    kept-le : length kept ≤ S.len (S.new wanted)
    kept-le = omega (
      arith,
      length-kept,
      S.len-length (S.new wanted),
      length-le_of_Within _ _ kept-Distinct kept-Within,
    )

    -- The comparison succeeds exactly when every wanted name is declared.
    pub lengths_eq : Within wanted (names mcs) → length kept ≡ S.len (S.new wanted)
    lengths_eq w = omega (
      arith,
      kept-le,
      length-kept,
      S.len-length (S.new wanted),
      length-le_of_Within _ _ (S.unsorted_list-Distinct (S.new wanted)) (wanted-Within w),
    )

    pub lengths_eq-Within : length kept ≡ S.len (S.new wanted) → Within wanted (names mcs)
    lengths_eq-Within e = Within-wanted (
        Within-of_length _ _ kept-Distinct kept-Within
          (omega (arith, e, length-kept, S.len-length (S.new wanted))))

-- ===== src/Storage/Listing/Matching.antt =====
-- internal/storage/repository/list.go: the conditions of label selectors beside what a requirement of
-- a Kubernetes label selector means.
use sbombastic.Common.{
  ◌≡◌, arith, String, Bool, true, false, not, ◌&&◌, Option, none, some, List, [], ◌∷◌, GoMap,
  lookup, Result, ok, length, contains, is_some,
}
use sbombastic.Storage.Rows.{Kind, Row}
use sbombastic.Storage.Listing.Selectors.{
  Operator, equals, double_equals, not_equals, in_set, not_in, exists, does_not_exist, greater_than,
  less_than, LabelRequirement, Condition, label_condition, label_value, meets, is_true,
}

-- Requirement.Matches of k8s.io/apimachinery/pkg/labels, as its documentation has it, for the
-- operators that are no order of numbers.
abbrev has_in : List String → Option String → Bool
has_in values none = false
has_in values (some v) = contains values v

unfoldable pub matches : LabelRequirement → Option (GoMap String) → Bool
unfolding lookup
matches req labels = elim req.operator [
  | not_equals ↦ not (has_in req.values (label_value labels req.key))
  | not_in ↦ not (has_in req.values (label_value labels req.key))
  | exists ↦ is_some (label_value labels req.key)
  | does_not_exist ↦ not (is_some (label_value labels req.key))
  | _ ↦ has_in req.values (label_value labels req.key)
]

-- Where SQL does not find NULL: the key for the operators that deny a value, any labels at all for the
-- one that denies the key.
unfoldable pub decided : LabelRequirement → Option (GoMap String) → Bool
unfolding lookup
decided req labels = elim req.operator [
  | not_equals ↦ is_some (label_value labels req.key)
  | not_in ↦ is_some (label_value labels req.key)
  | does_not_exist ↦ is_some labels
  | _ ↦ true
]

-- What labels.NewRequirement admits.
abbrev pub IsRequirement : LabelRequirement → Type 0
IsRequirement req = elim req.operator [
  | equals ↦ length req.values ≡ 1
  | double_equals ↦ length req.values ≡ 1
  | not_equals ↦ length req.values ≡ 1
  | _ ↦ Unit
]

module _ (K : Kind) where
  abbrev pub Selects : Result Condition → Row K.Json → Bool → Type 0
  unfolding meets
  Selects (ok c) row expected = is_true K (meets K row c) ≡ expected
  Selects _ row expected = Unit

  abbrev pub expected : LabelRequirement → Row K.Json → Bool
  unfolding matches decided
  expected req row = matches req (K.labels row.object) && decided req (K.labels row.object)

  Selects-operator :
      (operator : Operator) (key : String) (values : List String) (row : Row K.Json)
      → let req : LabelRequirement = record { operator = operator; key = key; values = values } in
        IsRequirement req → Selects (label_condition req) row (expected req row)
  unfolding meets label_condition matches decided
  Selects-operator equals key (v ∷ []) row h = ground arith
  Selects-operator double_equals key (v ∷ []) row h = ground arith
  Selects-operator not_equals key (v ∷ []) row h = ground arith
  Selects-operator in_set key values row h = ground arith
  Selects-operator not_in key values row h = ground arith
  Selects-operator exists key values row h = ground arith
  Selects-operator does_not_exist key values row h = ground arith
  Selects-operator greater_than key values row h = tt
  Selects-operator less_than key values row h = tt
  Selects-operator _ key values row h = ground arith

  -- The condition that a requirement becomes selects the objects that match the requirement, less
  -- those without the key, where the requirement denies values, and less those without any labels,
  -- where it denies the key.
  pub label_condition-Selects :
      (req : LabelRequirement) (row : Row K.Json)
      → IsRequirement req
      → Selects (label_condition req) row (expected req row)
  label_condition-Selects req row h = Selects-operator req.operator req.key req.values row h

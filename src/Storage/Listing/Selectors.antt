-- ===== src/Storage/Listing/Selectors.antt =====
-- internal/storage/repository/list.go: the conditions of a list query, and when a row meets them.
use sbombastic.Common.{
  ℕ, String, Bool, true, false, not, ◌&&◌, ◌||◌, Option, none, some, List, [], ◌∷◌, GoMap, lookup,
  Error, Result, ok, err, panic, ◌>>=◌, ◌==◌, ltb, leb, contains, is_some,
}
use sbombastic.Storage.Rows.{Kind, Row}

-- selection.Operator
pub data Operator : Type 0 where
  equals double_equals not_equals in_set not_in exists does_not_exist greater_than less_than :
      Operator

-- labels.Requirement and fields.Requirement; a field is given by the parts of its name.
pub record LabelRequirement : Type 0 where
  pub operator : Operator
  pub key : String
  pub values : List String

pub record FieldRequirement : Type 0 where
  pub operator : Operator
  pub path : List String
  pub value : String

-- An expression of a WHERE clause.
pub data Condition : Type 0 where
  namespace_is : String → Condition
  id_above : Bool → ℕ → Condition
  version_from : ℕ → Condition
  label_is label_is_not : String → String → Condition
  label_in label_not_in : String → List String → Condition
  label_exists no_label : String → Condition
  field_is field_is_not : List String → String → Condition

-- `req.Values().List()[0]`
abbrev on_first : List String → (String → Condition) → Result Condition
on_first [] make = panic
on_first (v ∷ vs) make = ok (make v)

unfoldable pub label_condition : LabelRequirement → Result Condition
label_condition req = elim req.operator [
  | equals ↦ on_first req.values (label_is req.key)
  | double_equals ↦ on_first req.values (label_is req.key)
  | not_equals ↦ on_first req.values (label_is_not req.key)
  | in_set ↦ ok (label_in req.key req.values)
  | not_in ↦ ok (label_not_in req.key req.values)
  | exists ↦ ok (label_exists req.key)
  | does_not_exist ↦ ok (no_label req.key)
  | greater_than ↦ err Error.other
  | less_than ↦ err Error.other
]

unfoldable pub field_condition : FieldRequirement → Result Condition
field_condition req = elim req.operator [
  | equals ↦ ok (field_is req.path req.value)
  | double_equals ↦ ok (field_is req.path req.value)
  | not_equals ↦ ok (field_is_not req.path req.value)
  | _ ↦ err Error.other
]

abbrev all_conditions {ℓ} : {A : Type ℓ} → (A → Result Condition) → List A → Result (List Condition)
all_conditions make [] = ok []
all_conditions make (req ∷ reqs) = make req >>= λ c. all_conditions make reqs >>= λ cs. ok (c ∷ cs)

unfoldable pub build_label_selector_expressions :
    Option (List LabelRequirement) → Result (List Condition)
unfolding label_condition
build_label_selector_expressions none = ok []
build_label_selector_expressions (some reqs) = all_conditions label_condition reqs

unfoldable pub build_field_selector_expressions :
    Option (List FieldRequirement) → Result (List Condition)
unfolding field_condition
build_field_selector_expressions none = ok []
build_field_selector_expressions (some reqs) = all_conditions field_condition reqs

-- A comparison with NULL is NULL; ANY and ALL are never asked of an empty list, since
-- labels.NewRequirement wants a value for In and NotIn.
abbrev on_value {ℓ} : {A : Type ℓ} → Option A → (A → Bool) → Option Bool
on_value none test = none
on_value (some v) test = some (test v)

-- `object->'metadata'->'labels'->>key`
abbrev pub label_value : Option (GoMap String) → String → Option String
label_value none key = none
label_value (some labels) key = lookup labels key

module _ (K : Kind) where
  unfoldable pub meets : Row K.Json → Condition → Option Bool
  unfolding lookup
  meets row (namespace_is namespace) = some (row.namespace == namespace)
  meets row (id_above negative id) = some (negative || ltb id row.id)
  meets row (version_from rv) = on_value (K.stored_version row.object) (leb rv)
  meets row (label_is key value) =
      on_value (label_value (K.labels row.object) key) (λ v. value == v)
  meets row (label_is_not key value) =
      on_value (label_value (K.labels row.object) key) (λ v. not (value == v))
  meets row (label_in key values) =
      on_value (label_value (K.labels row.object) key) (λ v. contains values v)
  meets row (label_not_in key values) =
      on_value (label_value (K.labels row.object) key) (λ v. not (contains values v))
  meets row (label_exists key) =
      on_value (K.labels row.object) (λ labels. is_some (lookup labels key))
  meets row (no_label key) =
      on_value (K.labels row.object) (λ labels. not (is_some (lookup labels key)))
  meets row (field_is path value) = on_value (K.field row.object path) (λ v. v == value)
  meets row (field_is_not path value) = on_value (K.field row.object path) (λ v. not (value == v))

  abbrev pub is_true : Option Bool → Bool
  is_true (some true) = true
  is_true _ = false

  unfoldable pub holds_all : List Condition → Row K.Json → Bool
  unfolding meets
  holds_all [] row = true
  holds_all (c ∷ cs) row = is_true (meets row c) && holds_all cs row

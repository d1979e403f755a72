-- ===== src/Tests/ListConditions.antt =====
-- Status conditions as a list that holds each type once: a new condition replaces the one of its type.
use sbombastic.Common.{
  String, ◌≡◌, refl, Option, none, some, List, [], ◌∷◌, arith, ◌==◌, eq_iff, if◌then◌else◌,
}
use sbombastic.Conditions.{Condition, ConditionOps}

unfoldable pub set_condition : List Condition → Condition → List Condition
set_condition [] c = c ∷ []
set_condition (d ∷ ds) c = if d.type == c.type then c ∷ ds else d ∷ set_condition ds c

unfoldable pub find_condition : List Condition → String → Option Condition
find_condition [] t = none
find_condition (d ∷ ds) t = if d.type == t then some d else find_condition ds t

pub find-set_condition :
    (cs : List Condition) (c : Condition) (t : String)
    → find_condition (set_condition cs c) t ≡ (if c.type == t then some c else find_condition cs t)
unfolding find_condition set_condition
find-set_condition [] c t = refl
find-set_condition (d ∷ ds) c t =
    ground
      (arith, eq_iff d.type c.type, eq_iff d.type t, eq_iff c.type t, find-set_condition ds c t)

pub find-nil : (t : String) → find_condition [] t ≡ none
unfolding find_condition
find-nil t = refl

unfoldable pub list_conditions : ConditionOps
unfolding set_condition find_condition
list_conditions = record {
  set_status_condition = set_condition;
  find_status_condition = find_condition;
  find-nil = find-nil;
  find-set = find-set_condition;
}

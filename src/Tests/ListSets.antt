-- ===== src/Tests/ListSets.antt =====
-- Sets of texts as lists without repetition.
use sbombastic.Common.{
  String, ◌≡◌, refl, true, ◌||◌, List, [], ◌∷◌, arith, ◌==◌, eq_iff, if◌then◌else◌, contains,
  length, Distinct,
}
use sbombastic.Sets.{Sets}

unfoldable pub add : List String → String → List String
add xs y = if contains xs y then xs else y ∷ xs

contains_eq :
    (xs : List String) (x y : String)
    → contains xs x ≡ true
    → (x == y) ≡ true
    → contains xs y ≡ true
contains_eq [] x y h e = ground arith
contains_eq (z ∷ xs) x y h e =
    ground (arith, eq_iff x y, eq_iff z x, eq_iff z y, contains_eq xs x y)

contains-add : (xs : List String) (x y : String) → contains (add xs x) y ≡ (x == y || contains xs y)
unfolding add
contains-add xs x y = ground (arith, contains_eq xs x y)

add-Distinct : (xs : List String) (x : String) → Distinct xs → Distinct (add xs x)
unfolding add
add-Distinct xs x d = ground arith

unfoldable pub dedupe : List String → List String
unfolding add
dedupe [] = []
dedupe (x ∷ xs) = add (dedupe xs) x

contains-dedupe : (xs : List String) (y : String) → contains (dedupe xs) y ≡ contains xs y
unfolding dedupe
contains-dedupe [] y = refl
contains-dedupe (x ∷ xs) y = ground (arith, contains-add (dedupe xs) x y, contains-dedupe xs y)

pub dedupe-Distinct : (xs : List String) → Distinct (dedupe xs)
unfolding dedupe
dedupe-Distinct [] = tt
dedupe-Distinct (x ∷ xs) = add-Distinct (dedupe xs) x (dedupe-Distinct xs)

abbrev pub DistinctList : Type 0
DistinctList = (xs : List String) × Distinct xs

pub has-new : (xs : List String) (y : String) → contains (dedupe xs) y ≡ contains xs y
has-new = contains-dedupe

pub has-insert :
    (s : DistinctList) (x y : String) → contains (add s.0 x) y ≡ (x == y || contains s.0 y)
has-insert s x y = contains-add s.0 x y

pub insert-Distinct : (s : DistinctList) (x : String) → Distinct (add s.0 x)
insert-Distinct s x = add-Distinct s.0 x s.1

abbrev pub list_sets : Sets
list_sets = record {
  Set = DistinctList;
  new = λ xs. (dedupe xs, dedupe-Distinct xs);
  insert = λ s x. (add s.0 x, insert-Distinct s x);
  has = λ s y. contains s.0 y;
  len = λ s. length s.0;
  unsorted_list = λ s. s.0;
  has-new = has-new;
  has-insert = has-insert;
  contains-unsorted_list = λ s y. refl;
  unsorted_list-Distinct = λ s. s.1;
  len-length = λ s. refl;
}

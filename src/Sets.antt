-- ===== src/Sets.antt =====
-- sets.Set[string] of k8s.io/apimachinery, which the program's set arithmetic is written with, and
-- what its documentation says of each operation. The order of UnsortedList is not specified.
use sbombastic.Common.{
  refl, arith, [], ◌∷◌, ℕ, String, ◌≡◌, Bool, ◌||◌, List, ◌==◌, contains, length, Distinct,
}

pub record Sets : Type 1 where
  pub Set : Type 0
  pub new : List String → Set
  pub insert : Set → String → Set
  pub has : Set → String → Bool
  pub len : Set → ℕ
  pub unsorted_list : Set → List String
  pub has-new : (xs : List String) (y : String) → has (new xs) y ≡ contains xs y
  pub has-insert : (s : Set) (x y : String) → has (insert s x) y ≡ (x == y || has s y)
  pub contains-unsorted_list : (s : Set) (y : String) → contains (unsorted_list s) y ≡ has s y
  pub unsorted_list-Distinct : (s : Set) → Distinct (unsorted_list s)
  pub len-length : (s : Set) → len s ≡ length (unsorted_list s)

-- s.Insert(xs...)
unfoldable pub insert_all : (S : Sets) → S.Set → List String → S.Set
insert_all S s [] = s
insert_all S s (x ∷ xs) = insert_all S (S.insert s x) xs

pub has-insert_all :
    (S : Sets) (s : S.Set) (xs : List String) (y : String)
    → S.has (insert_all S s xs) y ≡ (contains xs y || S.has s y)
unfolding insert_all
has-insert_all S s [] y = refl
has-insert_all S s (x ∷ xs) y =
    ground (arith, has-insert_all S (S.insert s x) xs y, S.has-insert s x y)

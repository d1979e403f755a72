-- ===== src/Common/Pigeonhole.antt =====
-- Lists of texts without repetition, and how many items one can have inside another.
use Prim.Native.Nat.{suc, ◌≤◌}
use Prim.Native.String.{String}
use mathlib.Core.Path.{◌≡◌}
use mathlib.Core.Logic.{inl, inr}
use mathlib.Core.Bool.{true, false}
use mathlib.Core.List.{List, [], ◌∷◌}
use native.Mathlib.Omega.{arith}
use text.Mathlib.Text.{◌==◌}
use text.Mathlib.TextEquality.{eq_iff}
use sbombastic.Common.Tests.{if◌then◌else◌, Bool-cases}
use sbombastic.Common.Lists.{length}
use sbombastic.Common.Texts.{contains}

-- No text stands twice.
abbrev pub Distinct : List String → Type 0
Distinct [] = Unit
Distinct (x ∷ xs) = (contains xs x ≡ false) × Distinct xs

-- Every item of the first list stands in the second.
abbrev pub Within : List String → List String → Type 0
Within xs ys = (z : String) → contains xs z ≡ true → contains ys z ≡ true

-- The list without the first occurrence of `x`.
abbrev erase : String → List String → List String
erase x [] = []
erase x (y ∷ ys) = if y == x then ys else y ∷ erase x ys

length-erase :
    (x : String) (ys : List String) → contains ys x ≡ true → length ys ≡ suc (length (erase x ys))
length-erase x [] h = ground arith
length-erase x (y ∷ ys) h = ground (arith, length-erase x ys)

contains-erase :
    (x z : String) (ys : List String)
    → (x == z) ≡ false
    → contains ys z ≡ true
    → contains (erase x ys) z ≡ true
contains-erase x z [] n h = h
contains-erase x z (y ∷ ys) n h =
    ground (arith, contains-erase x z ys, eq_iff y x, eq_iff y z, eq_iff x z)

-- A member and a non-member differ.
ne_of_contains :
    (x z : String) (xs : List String)
    → contains xs x ≡ false
    → contains xs z ≡ true
    → (x == z) ≡ false
ne_of_contains x z [] n h = ground arith
ne_of_contains x z (y ∷ ys) n h =
    ground (arith, ne_of_contains x z ys, eq_iff y x, eq_iff y z, eq_iff x z)

tail-Within :
    (x : String) (xs ys : List String)
    → contains xs x ≡ false
    → Within (x ∷ xs) ys
    → Within xs (erase x ys)
tail-Within x xs ys n w z h = contains-erase x z ys (ne_of_contains x z xs n h) (w z (ground arith))

head-Within : (x : String) (xs ys : List String) → Within (x ∷ xs) ys → contains ys x ≡ true
head-Within x xs ys w = w x (ground (arith, eq_iff x x))

pub length-le_of_Within : (xs ys : List String) → Distinct xs → Within xs ys → length xs ≤ length ys
length-le_of_Within [] ys d w = omega arith
length-le_of_Within (x ∷ xs) ys d w = omega (
  arith,
  length-erase x ys (head-Within x xs ys w),
  length-le_of_Within xs (erase x ys) d.1 (tail-Within x xs ys d.0 w),
)

-- A list inside another that is as long holds all of it.
pub Within-of_length :
    (xs ys : List String) → Distinct xs → Within xs ys → length ys ≤ length xs → Within ys xs
Within-of_length xs ys d w l z h = elim (Bool-cases (contains xs z)) [
  | inl here ↦ here
  | inr missing ↦
      let more : Within (z ∷ xs) ys = λ u m. cons_within u m in
      absurd (omega (arith, length-le_of_Within (z ∷ xs) ys (missing, d) more))
]
  where
    cons_within : (u : String) → contains (z ∷ xs) u ≡ true → contains ys u ≡ true
    cons_within u m = ground (arith, eq_iff z u, w u, h)

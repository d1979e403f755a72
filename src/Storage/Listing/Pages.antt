-- ===== src/Storage/Listing/Pages.antt =====
-- internal/storage/repository/list.go: pages of rows in the order of their ids. The rows of a page,
-- its last id, and the rows behind it.
use sbombastic.Common.{
  ℕ, zero, suc, ◌≤◌, ◌<◌, ◌≡◌, refl, ap, arith, Bool, true, false, List, [], ◌∷◌, ◌++◌, All, filter,
  take, drop, length, ltb, Bool-cases, inl, inr,
}
use sbombastic.Storage.Rows.{Row}

module _ {Json : Type 0} where
  -- In the order of their ids, no two with the same.
  abbrev pub IsSorted : List (Row Json) → Type 0
  IsSorted [] = Unit
  IsSorted (row ∷ rows) = All (λ r. row.id < r.id) rows × IsSorted rows

  abbrev pub above : ℕ → List (Row Json) → List (Row Json)
  above id rows = filter (λ row. ltb id row.id) rows

  abbrev pub last_of : ℕ → List (Row Json) → ℕ
  last_of id [] = id
  last_of id (row ∷ rows) = last_of row.id rows

  abbrev pub has_more : ℕ → List (Row Json) → Bool
  has_more n [] = false
  has_more zero (row ∷ rows) = true
  has_more (suc n) (row ∷ rows) = has_more n rows

  All-below :
      (x y : ℕ) (rows : List (Row Json))
      → x ≤ y
      → All (λ r. y < r.id) rows
      → All (λ r. x < r.id) rows
  All-below x y [] l h = tt
  All-below x y (r ∷ rows) l (a, h) = (omega arith, All-below x y rows l h)

  pub above-every :
      (id : ℕ) (rows : List (Row Json)) → All (λ r. id < r.id) rows → above id rows ≡ rows
  above-every id [] h = refl
  above-every id (r ∷ rows) (l, h) = ground (arith, above-every id rows h)

  pub above-above :
      (x y : ℕ) (rows : List (Row Json)) → x ≤ y → above y (above x rows) ≡ above y rows
  above-above x y [] l = refl
  above-above x y (r ∷ rows) l = ground (arith, above-above x y rows l)

  last_of-le :
      (id : ℕ) (rows : List (Row Json))
      → All (λ r. id < r.id) rows
      → IsSorted rows
      → id ≤ last_of id rows
  last_of-le id [] h s = omega arith
  last_of-le id (r ∷ rows) (l, h) (a, s) = omega (arith, last_of-le r.id rows a s)

  All-take :
      (n x : ℕ) (rows : List (Row Json))
      → All (λ r. x < r.id) rows
      → All (λ r. x < r.id) (take n rows)
  All-take zero x rows h = tt
  All-take (suc n) x [] h = tt
  All-take (suc n) x (r ∷ rows) (l, h) = (l, All-take n x rows h)

  IsSorted-take : (n : ℕ) (rows : List (Row Json)) → IsSorted rows → IsSorted (take n rows)
  IsSorted-take zero rows h = tt
  IsSorted-take (suc n) [] h = tt
  IsSorted-take (suc n) (r ∷ rows) (a, h) = (All-take n r.id rows a, IsSorted-take n rows h)

  -- Behind the last id of the first rows stand the other rows.
  pub above-last_of :
      (n id : ℕ) (rows : List (Row Json))
      → IsSorted rows
      → All (λ r. id < r.id) rows
      → has_more n rows ≡ true
      → above (last_of id (take n rows)) rows ≡ drop n rows
  above-last_of n id [] s a h = ground arith
  above-last_of zero id (r ∷ rows) s a h = above-every id (r ∷ rows) a
  above-last_of (suc n) id (r ∷ rows) (b, s) a h =
      let behind = above-last_of n r.id rows s b h in
      let le = last_of-le r.id (take n rows) (All-take n r.id rows b) (IsSorted-take n rows s) in
      ground (arith, behind, le)

  pub last_of-above :
      (n id : ℕ) (rows : List (Row Json))
      → IsSorted rows
      → All (λ r. id < r.id) rows
      → All (λ r. last_of id (take n rows) < r.id) (drop n rows)
  last_of-above zero id rows s a = a
  last_of-above (suc n) id [] s a = tt
  last_of-above (suc n) id (r ∷ rows) (b, s) a = last_of-above n r.id rows s b

  pub IsSorted-drop : (n : ℕ) (rows : List (Row Json)) → IsSorted rows → IsSorted (drop n rows)
  IsSorted-drop zero rows h = h
  IsSorted-drop (suc n) [] h = tt
  IsSorted-drop (suc n) (r ∷ rows) (a, h) = IsSorted-drop n rows h

  pub take-take : (n : ℕ) (rows : List (Row Json)) → take n (take (suc n) rows) ≡ take n rows
  take-take zero rows = refl
  take-take (suc n) [] = refl
  take-take (suc n) (r ∷ rows) = ap (λ xs. r ∷ xs) (take-take n rows)

  pub has_more-take :
      (n : ℕ) (rows : List (Row Json)) → has_more n (take (suc n) rows) ≡ has_more n rows
  has_more-take n [] = refl
  has_more-take zero (r ∷ rows) = refl
  has_more-take (suc n) (r ∷ rows) = has_more-take n rows

  pub take-all : (n : ℕ) (rows : List (Row Json)) → has_more n rows ≡ false → take n rows ≡ rows
  take-all zero [] h = refl
  take-all (suc n) [] h = refl
  take-all zero (r ∷ rows) h = ground arith
  take-all (suc n) (r ∷ rows) h = ap (λ xs. r ∷ xs) (take-all n rows h)

  pub take-drop : (n : ℕ) (rows : List (Row Json)) → take n rows ++ drop n rows ≡ rows
  take-drop zero rows = refl
  take-drop (suc n) [] = refl
  take-drop (suc n) (r ∷ rows) = ap (λ xs. r ∷ xs) (take-drop n rows)

  pub length-drop_le : (n : ℕ) (rows : List (Row Json)) → length (drop n rows) ≤ length rows
  length-drop_le zero rows = omega arith
  length-drop_le (suc n) [] = omega arith
  length-drop_le (suc n) (r ∷ rows) = omega (arith, length-drop_le n rows)

  pub length-drop_lt :
      (n : ℕ) (rows : List (Row Json))
      → has_more (suc n) rows ≡ true
      → length (drop (suc n) rows) < length rows
  length-drop_lt n [] h = ground arith
  length-drop_lt n (r ∷ rows) h = omega (arith, length-drop_le n rows)

  pub last_of-below :
      (bound id : ℕ) (n : ℕ) (rows : List (Row Json))
      → id < bound
      → All (λ r. r.id < bound) rows
      → last_of id (take n rows) < bound
  last_of-below bound id zero rows l h = l
  last_of-below bound id (suc n) [] l h = l
  last_of-below bound id (suc n) (r ∷ rows) l (a, h) = last_of-below bound r.id n rows a h

  pub last_of-above_first :
      (id n : ℕ) (rows : List (Row Json))
      → IsSorted rows
      → All (λ r. id < r.id) rows
      → id ≤ last_of id (take n rows)
  last_of-above_first id n rows s a =
      last_of-le id (take n rows) (All-take n id rows a) (IsSorted-take n rows s)

  pub last_of-any :
      (x y n : ℕ) (rows : List (Row Json))
      → has_more (suc n) rows ≡ true
      → last_of x (take (suc n) rows) ≡ last_of y (take (suc n) rows)
  last_of-any x y n [] h = ground arith
  last_of-any x y n (r ∷ rows) h = refl

  pub All-drop :
      (P : Row Json → Type 0) (n : ℕ) (rows : List (Row Json)) → All P rows → All P (drop n rows)
  All-drop P zero rows h = h
  All-drop P (suc n) [] h = tt
  All-drop P (suc n) (r ∷ rows) (a, h) = All-drop P n rows h

  pub All-filter :
      (P : Row Json → Type 0) (p : Row Json → Bool) (rows : List (Row Json))
      → All P rows
      → All P (filter p rows)
  All-filter P p [] h = tt
  All-filter P p (r ∷ rows) (a, h) = elim (Bool-cases (p r)) [
    | inl e ↦ rw e (a, All-filter P p rows h)
    | inr e ↦ rw e (All-filter P p rows h)
  ]

  pub IsSorted-filter :
      (p : Row Json → Bool) (rows : List (Row Json)) → IsSorted rows → IsSorted (filter p rows)
  IsSorted-filter p [] h = tt
  IsSorted-filter p (r ∷ rows) (a, h) = elim (Bool-cases (p r)) [
    | inl e ↦ rw e (All-filter (λ x. r.id < x.id) p rows a, IsSorted-filter p rows h)
    | inr e ↦ rw e (IsSorted-filter p rows h)
  ]

-- ===== src/Tests/SliceSort.antt =====
-- sort.Slice as an insertion sort of ScanJobs.
use sbombastic.Common.{
  ℕ, ◌≤◌, ◌≡◌, refl, arith, Bool, List, [], ◌∷◌, All, filter, length, ltb, if◌then◌else◌,
  Bool-cases, inl, inr,
}
use sbombastic.Job.{ScanJob}
use sbombastic.Scheduler.History.{Sorts, IsAscending}

unfoldable pub insert : (ScanJob → ScanJob → Bool) → ScanJob → List ScanJob → List ScanJob
insert less x [] = x ∷ []
insert less x (y ∷ ys) = let rest = insert less x ys in if less y x then y ∷ rest else x ∷ y ∷ ys

unfoldable pub insertion_sort : (ScanJob → ScanJob → Bool) → List ScanJob → List ScanJob
unfolding insert
insertion_sort less [] = []
insertion_sort less (x ∷ xs) = insert less x (insertion_sort less xs)

length-filter-insert :
    (less : ScanJob → ScanJob → Bool) (p : ScanJob → Bool) (x : ScanJob) (ys : List ScanJob)
    → length (filter p (insert less x ys)) ≡ length (filter p (x ∷ ys))
unfolding insert
length-filter-insert less p x [] = refl
length-filter-insert less p x (y ∷ ys) = ground (arith, length-filter-insert less p x ys)

length-filter-sort :
    (less : ScanJob → ScanJob → Bool) (p : ScanJob → Bool) (xs : List ScanJob)
    → length (filter p (insertion_sort less xs)) ≡ length (filter p xs)
unfolding insertion_sort
length-filter-sort less p [] = refl
length-filter-sort less p (x ∷ xs) =
    ground
      (arith, length-filter-insert less p x (insertion_sort less xs), length-filter-sort less p xs)

module _ (time : ScanJob → ℕ) where
  abbrev earlier : ScanJob → ScanJob → Bool
  earlier a b = ltb (time a) (time b)

  All-insert :
      (n : ℕ) (x : ScanJob) (ys : List ScanJob)
      → n ≤ time x
      → All (λ y. n ≤ time y) ys
      → All (λ y. n ≤ time y) (insert earlier x ys)
  unfolding insert
  All-insert n x [] l h = (l, tt)
  All-insert n x (y ∷ ys) l (m, h) = elim (Bool-cases (earlier y x)) [
    | inl e ↦ rw e (m, All-insert n x ys l h)
    | inr e ↦ rw e (l, (m, h))
  ]

  All-later :
      (m n : ℕ) (ys : List ScanJob) → m ≤ n → All (λ y. n ≤ time y) ys → All (λ y. m ≤ time y) ys
  All-later m n [] l h = tt
  All-later m n (y ∷ ys) l (a, h) = (omega arith, All-later m n ys l h)

  insert-IsAscending :
      (x : ScanJob) (ys : List ScanJob)
      → IsAscending time ys
      → IsAscending time (insert earlier x ys)
  unfolding insert
  insert-IsAscending x [] h = (tt, tt)
  insert-IsAscending x (y ∷ ys) (a, h) = elim (Bool-cases (earlier y x)) [
    | inl e ↦ rw e (All-insert (time y) x ys (ground (arith, e)) a, insert-IsAscending x ys h)
    | inr e ↦
        let l : time x ≤ time y = ground (arith, e) in
        rw e ((l, All-later (time x) (time y) ys l a), (a, h))
  ]

  pub sort-IsAscending : (xs : List ScanJob) → IsAscending time (insertion_sort earlier xs)
  unfolding insertion_sort
  sort-IsAscending [] = tt
  sort-IsAscending (x ∷ xs) = insert-IsAscending x (insertion_sort earlier xs) (sort-IsAscending xs)

pub insertion_sort-Sorts : Sorts insertion_sort
insertion_sort-Sorts = record {
  length-filter-sort = length-filter-sort;
  sort-IsAscending = sort-IsAscending;
}

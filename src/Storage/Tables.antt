-- ===== src/Storage/Tables.antt =====
-- internal/storage/repository/generic_object_repository.go: what the statements keep true of the table.
use sbombastic.Common.{
  ℕ, suc, ◌≤◌, ◌<◌, ◌≡◌, refl, ◌∙◌, arith, String, Bool, false, not, List, [], ◌∷◌, ◌++◌, All, any,
  filter, eq_iff, Bool-cases, inl, inr,
}
use mathlib.Core.Path.{subst, sym}
use sbombastic.Storage.Rows.{Row, is_at, delete_rows, update_rows}
use sbombastic.Storage.Listing.Pages.{IsSorted, All-filter, IsSorted-filter}

module _ {Json : Type 0} where
  -- No two rows have the same name and namespace.
  abbrev pub IsUnique : List (Row Json) → Type 0
  IsUnique [] = Unit
  IsUnique (row ∷ rows) = (any (is_at row.name row.namespace) rows ≡ false) × IsUnique rows

  -- The ids are given by a sequence that begins with 1.
  abbrev pub IsNumbered : ℕ → List (Row Json) → Type 0
  IsNumbered next rows = All (λ r. (0 < r.id) × (r.id < next)) rows

  abbrev pub IsTable : ℕ → List (Row Json) → Type 0
  IsTable next rows = IsSorted rows × (IsNumbered next rows × IsUnique rows)

  IsNumbered-later :
      (x y : ℕ) (rows : List (Row Json)) → x ≤ y → IsNumbered x rows → IsNumbered y rows
  IsNumbered-later x y [] l h = tt
  IsNumbered-later x y (r ∷ rows) l (a, h) = (omega arith, IsNumbered-later x y rows l h)

  IsSorted-append :
      (next : ℕ) (rows : List (Row Json)) (row : Row Json)
      → row.id ≡ next
      → IsNumbered next rows
      → IsSorted rows
      → IsSorted (rows ++ (row ∷ []))
  IsSorted-append next [] row e n s = (tt, tt)
  IsSorted-append next (r ∷ rows) row e (l, n) (a, s) =
      (All-append (λ x. r.id < x.id) rows row a (omega arith), IsSorted-append next rows row e n s)
    where
      All-append :
          (P : Row Json → Type 0) (xs : List (Row Json)) (x : Row Json)
          → All P xs
          → P x
          → All P (xs ++ (x ∷ []))
      All-append P [] x h p = (p, tt)
      All-append P (y ∷ xs) x (q, h) p = (q, All-append P xs x h p)

  IsNumbered-append :
      (next : ℕ) (rows : List (Row Json)) (row : Row Json)
      → 0 < row.id
      → row.id < next
      → IsNumbered next rows
      → IsNumbered next (rows ++ (row ∷ []))
  IsNumbered-append next [] row p l n = ((p, l), tt)
  IsNumbered-append next (r ∷ rows) row p l (a, n) = (a, IsNumbered-append next rows row p l n)

  any-append :
      (p : Row Json → Bool) (rows : List (Row Json)) (row : Row Json)
      → any p rows ≡ false
      → p row ≡ false
      → any p (rows ++ (row ∷ [])) ≡ false
  any-append p [] row h q = ground arith
  any-append p (r ∷ rows) row h q = ground (arith, any-append p rows row)

  IsUnique-append :
      (rows : List (Row Json)) (row : Row Json)
      → any (is_at row.name row.namespace) rows ≡ false
      → IsUnique rows
      → IsUnique (rows ++ (row ∷ []))
  unfolding is_at
  IsUnique-append [] row h u = (refl, tt)
  IsUnique-append (r ∷ rows) row h (a, u) = (
    any-append (is_at r.name r.namespace) rows row a (
        ground (
          arith,
          eq_iff r.name row.name,
          eq_iff r.namespace row.namespace,
          eq_iff row.name r.name,
          eq_iff row.namespace r.namespace,
        )),
    IsUnique-append rows row (ground arith) u,
  )

  pub IsTable-later : (x y : ℕ) (rows : List (Row Json)) → x ≤ y → IsTable x rows → IsTable y rows
  IsTable-later x y rows l (s, (n, u)) = (s, (IsNumbered-later x y rows l n, u))

  pub IsTable-insert :
      (next : ℕ) (rows : List (Row Json)) (row : Row Json)
      → row.id ≡ next
      → 0 < next
      → any (is_at row.name row.namespace) rows ≡ false
      → IsTable next rows
      → IsTable (suc next) (rows ++ (row ∷ []))
  IsTable-insert next rows row e p free (s, (n, u)) = (
    IsSorted-append next rows row e n s,
    (
      IsNumbered-append (suc next) rows row (omega arith) (omega arith)
          (IsNumbered-later next (suc next) rows (omega arith) n),
      IsUnique-append rows row free u,
    ),
  )

  delete_rows-filter :
      (name namespace : String) (rows : List (Row Json))
      → delete_rows name namespace rows ≡ filter (λ r. not (is_at name namespace r)) rows
  unfolding delete_rows
  delete_rows-filter name namespace [] = refl
  delete_rows-filter name namespace (r ∷ rows) =
      ground (arith, delete_rows-filter name namespace rows)

  any-filter_none :
      (p q : Row Json → Bool) (rows : List (Row Json))
      → any p rows ≡ false
      → any p (filter q rows) ≡ false
  any-filter_none p q [] h = refl
  any-filter_none p q (r ∷ rows) h = ground (arith, any-filter_none p q rows)

  IsUnique-filter :
      (q : Row Json → Bool) (rows : List (Row Json)) → IsUnique rows → IsUnique (filter q rows)
  IsUnique-filter q [] h = tt
  IsUnique-filter q (r ∷ rows) (a, u) = elim (Bool-cases (q r)) [
    | inl e ↦ rw e (any-filter_none (is_at r.name r.namespace) q rows a, IsUnique-filter q rows u)
    | inr e ↦ rw e (IsUnique-filter q rows u)
  ]

  pub IsTable-delete_rows :
      (next : ℕ) (name namespace : String) (rows : List (Row Json))
      → IsTable next rows
      → IsTable next (delete_rows name namespace rows)
  IsTable-delete_rows next name namespace rows (s, (n, u)) =
      let q : Row Json → Bool = λ r. not (is_at name namespace r) in
      subst (IsTable next) (sym (delete_rows-filter name namespace rows)) (
        IsSorted-filter q rows s,
        (All-filter (λ r. (0 < r.id) × (r.id < next)) q rows n, IsUnique-filter q rows u),
      )

  -- An update changes neither the ids nor the names.
  module _ (name namespace : String) (object : Json) where
    All-update_rows :
        (P : ℕ → Type 0) (rows : List (Row Json))
        → All (λ r. P r.id) rows
        → All (λ r. P r.id) (update_rows name namespace object rows)
    unfolding update_rows
    All-update_rows P [] h = tt
    All-update_rows P (r ∷ rows) (a, h) = elim (Bool-cases (is_at name namespace r)) [
      | inl e ↦ rw e (a, All-update_rows P rows h)
      | inr e ↦ rw e (a, All-update_rows P rows h)
    ]

    any-update_rows :
        (a b : String) (rows : List (Row Json))
        → any (is_at a b) (update_rows name namespace object rows) ≡ any (is_at a b) rows
    unfolding update_rows is_at
    any-update_rows a b [] = refl
    any-update_rows a b (r ∷ rows) = ground (arith, any-update_rows a b rows)

    pub IsTable-update_rows :
        (next : ℕ) (rows : List (Row Json))
        → IsTable next rows
        → IsTable next (update_rows name namespace object rows)
    unfolding update_rows
    IsTable-update_rows next [] h = h
    IsTable-update_rows next (r ∷ rows) ((a, s), ((l, n), (f, u))) =
        let (s', (n', u')) = IsTable-update_rows next rows (s, (n, u)) in
        let a' = All-update_rows (λ id. r.id < id) rows a in
        let f' = any-update_rows r.name r.namespace rows ∙ f in
        elim (Bool-cases (is_at name namespace r)) [
          | inl e ↦ rw e ((a', s'), ((l, n'), (f', u')))
          | inr e ↦ rw e ((a', s'), ((l, n'), (f', u')))
        ]

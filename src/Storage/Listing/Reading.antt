-- ===== src/Storage/Listing/Reading.antt =====
-- internal/storage/repository/list.go: the loop that reads the rows of a page.
use sbombastic.Common.{
  ℕ, zero, suc, ◌+◌, ◌<◌, ◌≡◌, refl, arith, false, ◌&&◌, Option, none, some, List, [], ◌∷◌, ◌++◌,
  ok, All, take, ltb, eqb,
}
use sbombastic.Storage.Rows.{Kind, Row}
use sbombastic.Storage.Listing.{read_rows, page, continue_token}
use sbombastic.Storage.Listing.Pages.{take-take, has_more-take, last_of, has_more}

module _ (K : Kind) where
  abbrev pub Decodes : Row K.Json → Type 0
  Decodes row = (obj : K.Object) × (K.unmarshal row.object ≡ some obj)

  abbrev cons_decoded : Option K.Object → List K.Object → List K.Object
  cons_decoded none objs = objs
  cons_decoded (some obj) objs = obj ∷ objs

  abbrev pub objects_of : List (Row K.Json) → List K.Object
  objects_of [] = []
  objects_of (row ∷ rows) = cons_decoded (K.unmarshal row.object) (objects_of rows)

  -- With a limit, the loop reads the rows of the page and whether there are others.
  pub read_rows-page :
      (limit n count id : ℕ) (rows : List (Row K.Json))
      → All Decodes rows
      → 0 < limit
      → limit ≡ count + n
      → read_rows K limit count id rows
        ≡ ok (objects_of (take n rows), (last_of id (take n rows), has_more n rows))
  unfolding read_rows
  read_rows-page limit zero count id [] h l q = refl
  read_rows-page limit (suc n) count id [] h l q = refl
  read_rows-page limit zero count id (r ∷ rows) ((obj, e), h) l q = ground arith
  read_rows-page limit (suc n) count id (r ∷ rows) ((obj, e), h) l q =
      let rest = read_rows-page limit n (suc count) r.id rows h l (omega arith) in
      let below : (ltb 0 limit && eqb count limit) ≡ false = ground arith in
      rw (below, e, rest) refl

  pub read_rows-unlimited :
      (count id : ℕ) (rows : List (Row K.Json))
      → All Decodes rows
      → read_rows K 0 count id rows ≡ ok (objects_of rows, (last_of id rows, false))
  unfolding read_rows
  read_rows-unlimited count id [] h = refl
  read_rows-unlimited count id (r ∷ rows) ((obj, e), h) =
      rw (e, read_rows-unlimited (suc count) r.id rows h) refl

  All-Decodes-take :
      (n : ℕ) (rows : List (Row K.Json)) → All Decodes rows → All Decodes (take n rows)
  All-Decodes-take zero rows h = tt
  All-Decodes-take (suc n) [] h = tt
  All-Decodes-take (suc n) (r ∷ rows) (d, h) = (d, All-Decodes-take n rows h)

  -- With a limit, one row more than the page is enough to know whether there are others.
  pub page-take :
      (n : ℕ) (rows : List (Row K.Json))
      → All Decodes rows
      → page K (suc n) (take (suc (suc n)) rows)
        ≡ ok (
            continue_token K (
              objects_of (take (suc n) rows),
              (last_of 0 (take (suc n) rows), has_more (suc n) rows),
            ))
  unfolding page
  page-take n rows h =
      rw
        (
          read_rows-page (suc n) (suc n) 0 0 (take (suc (suc n)) rows)
              (All-Decodes-take (suc (suc n)) rows h) (omega arith) (omega arith),
          take-take (suc n) rows,
          has_more-take (suc n) rows,
        )
        refl

  pub page-unlimited :
      (rows : List (Row K.Json)) → All Decodes rows → page K 0 rows ≡ ok (objects_of rows, "")
  unfolding page
  page-unlimited rows h = rw (read_rows-unlimited 0 0 rows h) refl

  pub objects_of-append :
      (xs ys : List (Row K.Json)) → objects_of (xs ++ ys) ≡ objects_of xs ++ objects_of ys
  objects_of-append [] ys = refl
  objects_of-append (r ∷ xs) ys = ground (arith, objects_of-append xs ys)

-- ===== src/Storage/Listing/Bounds.antt =====
-- internal/storage/repository/list.go: how many objects a page has.
use sbombastic.Common.{
  ℕ, suc, ◌+◌, ◌≤◌, ◌<◌, ◌≡◌, refl, arith, String, Bool, true, false, ◌&&◌, Option, none, some,
  List, [], ◌∷◌, Result, ok, err, panic, ◌>>=◌, length, ltb, eqb, ◌==◌, inl, inr, Bool-cases,
}
use sbombastic.Storage.Rows.{Kind, Row}
use sbombastic.Storage.Repository.{Server, StoreRun, ask}
use sbombastic.Storage.Listing.Selectors.{Condition}
use sbombastic.Storage.Listing.{
  ListOptions, query_conditions, read_rows, page, list, listed, decoded, select_rows,
  continue_token,
}

module _ (K : Kind) where
  -- Beside the `count` objects that were read before.
  abbrev Read : ℕ → ℕ → Result (List K.Object × (ℕ × Bool)) → Type 0
  Read limit count (ok (items, (last_id, more))) =
      (length items + count ≤ limit) × (more ≡ true → length items + count ≡ limit)
  Read limit count _ = Unit

  Read-cons :
      (limit count : ℕ) (o : Option K.Object) (rest : Result (List K.Object × (ℕ × Bool)))
      → Read limit (suc count) rest
      → Read limit count (decoded K o >>= λ obj. rest >>= λ (items, end). ok (obj ∷ items, end))
  Read-cons limit count none rest h = tt
  Read-cons limit count (some obj) (ok (items, (l, more))) (b, m) =
      (omega arith, λ e. omega (arith, m e))
  Read-cons limit count (some obj) (err e) h = tt
  Read-cons limit count (some obj) panic h = tt

  read_rows-Read :
      (limit count last_id : ℕ) (rows : List (Row K.Json))
      → 0 < limit
      → count ≤ limit
      → Read limit count (read_rows K limit count last_id rows)
  unfolding read_rows
  read_rows-Read limit count last_id [] p l = (omega arith, λ e. ground arith)
  read_rows-Read limit count last_id (row ∷ rows) p l =
      elim (Bool-cases (ltb 0 limit && eqb count limit)) [
        | inl e ↦ rw e (omega arith, λ _. ground arith)
        | inr e ↦ rw e (
            Read-cons limit count (K.unmarshal row.object) _
              (read_rows-Read limit (suc count) row.id rows p (ground arith)))
      ]

  -- A page with a continue token is full.
  abbrev pub Paged : ℕ → Result (List K.Object × String) → Type 0
  Paged limit (ok (items, token)) =
      (length items ≤ limit) × ((token == "") ≡ false → length items ≡ limit)
  Paged limit _ = Unit

  page-Paged : (limit : ℕ) (rows : List (Row K.Json)) → 0 < limit → Paged limit (page K limit rows)
  unfolding page
  page-Paged limit rows p =
      go (read_rows K limit 0 0 rows) (read_rows-Read limit 0 0 rows p (omega arith))
    where
      go :
          (r : Result (List K.Object × (ℕ × Bool)))
          → Read limit 0 r
          → Paged limit (r >>= λ found. ok (continue_token K found))
      go (err e) h = tt
      go panic h = tt
      go (ok (items, (l, true))) (b, m) = (omega arith, λ _. omega (arith, m refl))
      go (ok (items, (l, false))) (b, m) = (omega arith, λ e. ground arith)

  rows-Paged :
      (limit : ℕ) (rows : Result (List (Row K.Json)))
      → 0 < limit
      → Paged limit (rows >>= page K limit)
  rows-Paged limit (ok rows) p = page-Paged limit rows p
  rows-Paged limit (err e) p = tt
  rows-Paged limit panic p = tt

  listed-Paged :
      (S : Server K.Object) (limit : ℕ) (conditions : Result (List Condition)) (s : StoreRun K)
      → 0 < limit
      → Paged limit (listed K S limit conditions s).0
  unfolding ask listed
  listed-Paged S limit (err e) s p = tt
  listed-Paged S limit panic s p = tt
  listed-Paged S limit (ok cs) s p = elim (Bool-cases (S.fails s.world.calls)) [
    | inl e ↦ rw e tt
    | inr e ↦ rw e (rows-Paged limit (select_rows K cs limit s.world.table) p)
  ]

  -- Whatever the table holds and whatever calls fail: an answer to a request with a limit has at most
  -- that many objects, and with a continue token it has exactly that many.
  pub list-Paged :
      (S : Server K.Object) (namespace : String) (opts : ListOptions) (s : StoreRun K)
      → 0 < opts.limit
      → Paged opts.limit (list K S namespace opts s).0
  unfolding list
  list-Paged S namespace opts s p = listed-Paged S opts.limit (query_conditions namespace opts) s p

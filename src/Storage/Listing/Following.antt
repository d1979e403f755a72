-- ===== src/Storage/Listing/Following.antt =====
-- internal/storage/repository/list.go: following the continue tokens leaves nothing out and gives
-- nothing twice.
use mathlib.Core.Path.{fun_ext}
use sbombastic.Common.{
  ℕ, zero, suc, ◌^◌, ◌≤◌, ◌<◌, ◌≡◌, refl, sym, ap, ◌∙◌, arith, String, true, false, List, Result,
  ok, err, panic, ◌>>=◌, All, filter, ltb, length-filter-le, take, drop, length, Bool-cases, inl,
  inr,
}
use sbombastic.Storage.Decimals.{format_int, format_int-nonempty}
use sbombastic.Storage.Rows.{Kind, Row}
use sbombastic.Storage.Repository.{Server, StoreRun, ask}
use sbombastic.Storage.Listing.Selectors.{Condition, holds_all}
use sbombastic.Storage.Listing.{
  ListOptions, query_conditions, select_rows, list, listed, version_conditions, continue_token,
}
use sbombastic.Storage.Listing.Pages.{
  IsSorted, above, last_of, has_more, above-last_of, above-above, last_of-above_first,
  last_of-below, last_of-above, last_of-any, IsSorted-drop, IsSorted-filter, All-drop, All-filter,
  take-all, take-drop, length-drop_lt,
}
use sbombastic.Storage.Listing.Reading.{
  Decodes, objects_of, page-take, page-unlimited, objects_of-append,
}
use sbombastic.Storage.Listing.Answers.{with_token, answered, answer, behind, follow, follow_list}
use sbombastic.Storage.Listing.Tokens.{query-token}

ltb_of : (n : ℕ) → suc (suc n) < 2 ^ 63 → ltb (suc (suc n)) (2 ^ 63) ≡ true
ltb_of n fits = ground (arith, fits)

module _ (K : Kind) (namespace : String) (opts : ListOptions) (n : ℕ) (cs : List Condition)
    (table : List (Row K.Json)) (limit : opts.limit ≡ suc n) (fits : suc (suc n) < 2 ^ 63)
    (query : query_conditions namespace (with_token opts "") ≡ ok cs) where
  abbrev selected : List (Row K.Json)
  selected = filter (holds_all K cs) table

  -- What is asked with this token selects `rows`, and what a later token selects stands among them.
  abbrev Asks : ListOptions → ℕ → List (Row K.Json) → Type 0
  Asks o id rows =
      ((ds : List Condition) × ((query_conditions namespace o ≡ ok ds)
          × (filter (holds_all K ds) table ≡ rows)))
      × ((x : ℕ) → id ≤ x → above x selected ≡ above x rows)

  answer-page :
      (token : String) (id : ℕ) (rows : List (Row K.Json))
      → Asks (with_token opts token) id rows
      → All (Decodes K) rows
      → answer K namespace (with_token opts token) table
        ≡ ok (
            continue_token K (
              objects_of K (take (suc n) rows),
              (last_of 0 (take (suc n) rows), has_more (suc n) rows),
            ))
  unfolding answer answered select_rows
  answer-page token id rows ((ds, (q, f)), _) h =
      rw (q, limit, f, ltb_of n fits) (page-take K n rows h)

  -- The token of a page asks for the rows behind it.
  Asks-next :
      (token : String) (id : ℕ) (rows : List (Row K.Json))
      → Asks (with_token opts token) id rows
      → IsSorted rows
      → All (λ r. id < r.id) rows
      → has_more (suc n) rows ≡ true
      → (let last = last_of id (take (suc n) rows) in
          last < 2 ^ 63 → Asks (with_token opts (format_int last)) last (drop (suc n) rows))
  Asks-next token id rows (_, tail) s a more l =
      let last = last_of id (take (suc n) rows) in
      let behind = above-last_of (suc n) id rows s a more in
      let (ds, (q, f)) = query-token K namespace opts cs last query l in
      let le = last_of-above_first id (suc n) rows s a in
      (
        (ds, (q, f table ∙ (tail last le ∙ behind))),
        λ x m. tail x (omega arith) ∙ (sym (above-above last x rows m) ∙ ap (above x) behind),
      )

  follow-rest :
      (fuel : ℕ) (token : String) (id : ℕ) (rows : List (Row K.Json))
      → Asks (with_token opts token) id rows
      → IsSorted rows
      → All (λ r. id < r.id) rows
      → All (λ r. r.id < 2 ^ 63) rows
      → All (Decodes K) rows
      → id < 2 ^ 63
      → length rows < fuel
      → follow K namespace (with_token opts token) table fuel ≡ ok (objects_of K rows)
  unfolding follow
  follow-rest zero token id rows asks s a b d i l = ground arith
  follow-rest (suc fuel) token id rows asks s a b d i l =
      elim (Bool-cases (has_more (suc n) rows)) [
        | inl more ↦
            let last = last_of id (take (suc n) rows) in
            let below = last_of-below (2 ^ 63) id (suc n) rows i b in
            let rest =
              follow-rest fuel (format_int last) last (drop (suc n) rows)
                (Asks-next token id rows asks s a more below) (IsSorted-drop (suc n) rows s)
                (last_of-above (suc n) id rows s a) (All-drop (λ r. r.id < 2 ^ 63) (suc n) rows b)
                (All-drop (Decodes K) (suc n) rows d) below
                (omega (arith, length-drop_lt n rows more)) in
            rw
              (
                answer-page token id rows asks d,
                more,
                last_of-any 0 id n rows more,
                format_int-nonempty last,
                rest,
              )
              (ap ok (
                sym (objects_of-append K (take (suc n) rows) (drop (suc n) rows))
                ∙ ap (objects_of K) (take-drop (suc n) rows)))
        | inr end ↦ rw (answer-page token id rows asks d, end, take-all (suc n) rows end) refl
      ]

  answer-unlimited :
      All (Decodes K) table
      → answer K namespace (record (with_token opts "") { limit = 0 }) table
        ≡ ok (objects_of K selected, "")
  unfolding answer answered select_rows query_conditions version_conditions
  answer-unlimited d =
      rw (query) (page-unlimited K selected (All-filter (Decodes K) (holds_all K cs) table d))

  pub follow-answer :
      IsSorted table
      → All (λ r. 0 < r.id) table
      → All (λ r. r.id < 2 ^ 63) table
      → All (Decodes K) table
      → (fuel : ℕ) → length table < fuel
      → follow K namespace (with_token opts "") table fuel ≡ (
          answer K namespace (record (with_token opts "") { limit = 0 }) table >>= λ (items, token).
          ok items)
  follow-answer s a b d fuel l =
      let rest =
        follow-rest fuel "" 0 selected ((cs, (query, refl)), λ x _. refl)
          (IsSorted-filter (holds_all K cs) table s)
          (All-filter (λ r. 0 < r.id) (holds_all K cs) table a)
          (All-filter (λ r. r.id < 2 ^ 63) (holds_all K cs) table b)
          (All-filter (Decodes K) (holds_all K cs) table d) (omega arith)
          (omega (arith, length-filter-le (holds_all K cs) table)) in
      rw (rest, answer-unlimited d) refl

module _ (K : Kind) (S : Server K.Object) (namespace : String)
    (up : (k : ℕ) → S.fails k ≡ false) where
  listed-answered :
      (limit : ℕ) (conditions : Result (List Condition)) (s : StoreRun K)
      → ((listed K S limit conditions s).0 ≡ answered K limit conditions s.world.table)
        × ((listed K S limit conditions s).1.world.table ≡ s.world.table)
  unfolding ask listed answered
  listed-answered limit (ok cs) s = rw (up s.world.calls) (refl, refl)
  listed-answered limit (err e) s = (refl, refl)
  listed-answered limit panic s = (refl, refl)

  -- Where no call fails, `list` answers and leaves the table as it is.
  pub list-answer :
      (opts : ListOptions) (s : StoreRun K)
      → ((list K S namespace opts s).0 ≡ answer K namespace opts s.world.table)
        × ((list K S namespace opts s).1.world.table ≡ s.world.table)
  unfolding list answer
  list-answer opts s = listed-answered opts.limit (query_conditions namespace opts) s

  follow_list-follow :
      (opts : ListOptions) (s : StoreRun K) (fuel : ℕ)
      → follow_list K S namespace opts s fuel ≡ follow K namespace opts s.world.table fuel
  unfolding follow_list follow
  follow_list-follow opts s zero = refl
  follow_list-follow opts s (suc fuel) =
      let (same, table) = list-answer opts s in
      let t = (list K S namespace opts s).1 in
      ap (λ r. behind r λ token. follow_list K S namespace (with_token opts token) t fuel) same
      ∙ ap (behind (answer K namespace opts s.world.table)) (
          fun_ext λ token.
            follow_list-follow (with_token opts token) t fuel
            ∙ ap (λ rows. follow K namespace (with_token opts token) rows fuel) table)

-- A client that asks for pages of n + 1 objects, and again with each continue token, gets in the end
-- what one request without a limit answers. The limit is below the largest int64, the query can be
-- built, no call fails, the table is in the order of its ids, which are positive and below 2 ^ 63, each
-- row can be decoded, and the client may ask once more than the table has rows.
pub follow_list-list :
    (K : Kind) (S : Server K.Object) (namespace : String) (opts : ListOptions) (n : ℕ)
    (conditions : List Condition) (s : StoreRun K) (fuel : ℕ)
    → ((k : ℕ) → S.fails k ≡ false)
    → opts.limit ≡ suc n
    → suc (suc n) < 2 ^ 63
    → query_conditions namespace (with_token opts "") ≡ ok conditions
    → IsSorted s.world.table
    → All (λ r. 0 < r.id) s.world.table
    → All (λ r. r.id < 2 ^ 63) s.world.table
    → All (Decodes K) s.world.table
    → length s.world.table < fuel
    → follow_list K S namespace (with_token opts "") s fuel ≡ (
        (list K S namespace (record (with_token opts "") { limit = 0 }) s).0 >>= λ (items, token).
        ok items)
follow_list-list K S namespace opts n conditions s fuel up limit fits query sorted positive bounds
      decodes enough =
    let unlimited = record (with_token opts "") { limit = 0 } in
    follow_list-follow K S namespace up (with_token opts "") s fuel
    ∙ (follow-answer K namespace opts n conditions s.world.table limit fits query sorted positive
          bounds decodes fuel enough
        ∙ ap (λ r. r >>= λ (items, token). ok items)
            (sym (list-answer K S namespace up unlimited s).0))

-- ===== src/Storage/Listing/Tokens.antt =====
-- internal/storage/repository/list.go: the query of a request with a continue token.
use sbombastic.Common.{
  ℕ, ◌^◌, ◌<◌, ◌≡◌, refl, ◌∙◌, arith, String, false, ◌&&◌, List, [], ◌∷◌, ◌++◌, Result, ok, ◌>>=◌,
  filter,
}
use sbombastic.Storage.Decimals.{format_int, parse_int-format_int, format_int-nonempty}
use sbombastic.Storage.Rows.{Kind, Row}
use sbombastic.Storage.Listing.Selectors.{
  Condition, holds_all, meets, build_label_selector_expressions, build_field_selector_expressions,
}
use sbombastic.Storage.Listing.{
  ListOptions, query_conditions, version_conditions, continue_conditions, namespace_conditions,
}
use sbombastic.Storage.Listing.Pages.{above}
use sbombastic.Storage.Listing.Answers.{with_token}

-- The end of `query_conditions`, behind the conditions of the token.
abbrev chain :
    List Condition
    → List Condition
    → Result (List Condition)
    → Result (List Condition)
    → Result (List Condition)
    → Result (List Condition)
chain named after version label field = version >>= λ from.
    label >>= λ labels. field >>= λ fields. ok (named ++ (after ++ (from ++ (labels ++ fields))))

module _ (K : Kind) where
  holds_all-append :
      (xs ys : List Condition) (row : Row K.Json)
      → holds_all K (xs ++ ys) row ≡ (holds_all K xs row && holds_all K ys row)
  unfolding holds_all
  holds_all-append [] ys row = refl
  holds_all-append (x ∷ xs) ys row = ground (arith, holds_all-append xs ys row)

  -- The conditions of a token are met beside the others.
  abbrev Adds : Condition → List Condition → List Condition → Type 0
  Adds c cs ds =
      (row : Row K.Json) → holds_all K ds row ≡ (holds_all K (c ∷ []) row && holds_all K cs row)

  chain-Adds :
      (named : List Condition) (c : Condition) (version label field : Result (List Condition))
      (cs : List Condition)
      → chain named [] version label field ≡ ok cs
      → (ds : List Condition) × ((chain named (c ∷ []) version label field ≡ ok ds) × Adds c cs ds)
  unfolding holds_all
  chain-Adds named c (ok from) (ok labels) (ok fields) cs e =
      let rest = from ++ (labels ++ fields) in
      (
        named ++ (c ∷ rest),
        (
          refl,
          λ row.
              ground
                (arith, holds_all-append named (c ∷ rest) row, holds_all-append named rest row, e),
        ),
      )
  chain-Adds named c _ _ _ cs e = ground arith

  filter-Adds :
      (c : Condition) (cs ds : List Condition) (rows : List (Row K.Json))
      → Adds c cs ds
      → filter (holds_all K ds) rows ≡ filter (holds_all K (c ∷ [])) (filter (holds_all K cs) rows)
  filter-Adds c cs ds [] h = refl
  filter-Adds c cs ds (r ∷ rows) h = ground (arith, filter-Adds c cs ds rows h, h r)

  filter-above :
      (id : ℕ) (rows : List (Row K.Json))
      → filter (holds_all K (Condition.id_above false id ∷ [])) rows ≡ above id rows
  unfolding holds_all meets
  filter-above id [] = refl
  filter-above id (r ∷ rows) = ground (arith, filter-above id rows)

  -- A query with a token selects what the query without it selects, above the id of the token.
  pub query-token :
      (namespace : String) (opts : ListOptions) (cs : List Condition) (id : ℕ)
      → query_conditions namespace (with_token opts "") ≡ ok cs
      → id < 2 ^ 63
      → (ds : List Condition) × ((query_conditions namespace (with_token opts (format_int id))
            ≡ ok ds)
          × ((rows : List (Row K.Json))
              → filter (holds_all K ds) rows ≡ above id (filter (holds_all K cs) rows)))
  unfolding query_conditions continue_conditions version_conditions
  query-token namespace opts cs id e l =
      let (ds, (q, a)) =
        chain-Adds (namespace_conditions namespace) (Condition.id_above false id)
          (version_conditions opts) (build_label_selector_expressions opts.label)
          (build_field_selector_expressions opts.field) cs e in
      (
        ds,
        (
          rw (format_int-nonempty id, parse_int-format_int id l) q,
          λ rows.
              filter-Adds (Condition.id_above false id) cs ds rows a
              ∙ filter-above id (filter (holds_all K cs) rows),
        ),
      )

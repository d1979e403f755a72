-- ===== src/Storage/Listing/Answers.antt =====
-- internal/storage/repository/list.go: what a list request is answered with, and a client that follows
-- the continue tokens.
use sbombastic.Common.{ℕ, zero, suc, String, List, [], ◌++◌, Result, ok, ◌>>=◌, ◌==◌, if◌then◌else◌}
use sbombastic.Storage.Rows.{Kind, Row}
use sbombastic.Storage.Repository.{Server, StoreRun}
use sbombastic.Storage.Listing.Selectors.{Condition}
use sbombastic.Storage.Listing.{ListOptions, query_conditions, select_rows, page, list}

abbrev pub with_token : ListOptions → String → ListOptions
with_token opts token = record opts { continue = token }

-- What a list request without a failing call is answered with.
unfoldable pub answered :
    (K : Kind) → ℕ → Result (List Condition) → List (Row K.Json) → Result (List K.Object × String)
unfolding select_rows page
answered K limit conditions table =
    conditions >>= λ conditions. select_rows K conditions limit table >>= page K limit

unfoldable pub answer :
    (K : Kind) → String → ListOptions → List (Row K.Json) → Result (List K.Object × String)
unfolding query_conditions answered
answer K namespace opts table = answered K opts.limit (query_conditions namespace opts) table

-- A page, and what is found behind its token.
abbrev pub behind :
    {A : Type 0} → Result (List A × String) → (String → Result (List A)) → Result (List A)
behind r rest = r >>= λ (items, token).
    let others = rest token in
    if token == "" then ok items else others >>= λ others. ok (items ++ others)

-- The objects that a client gets who asks again with the token of the last answer until there is none.
unfoldable pub follow :
    (K : Kind) → String → ListOptions → List (Row K.Json) → ℕ → Result (List K.Object)
unfolding answer
follow K namespace opts table zero = ok []
follow K namespace opts table (suc fuel) =
    behind (answer K namespace opts table)
      λ token. follow K namespace (with_token opts token) table fuel

-- The same with the store behind it, whose state each request moves on.
unfoldable pub follow_list :
    (K : Kind) (S : Server K.Object)
    → String
    → ListOptions
    → StoreRun K
    → ℕ
    → Result (List K.Object)
unfolding list
follow_list K S namespace opts s zero = ok []
follow_list K S namespace opts s (suc fuel) =
    let (r, t) = list K S namespace opts s in
    behind r λ token. follow_list K S namespace (with_token opts token) t fuel

-- ===== src/Storage/Listing.antt =====
-- internal/storage/repository/list.go: the query that a list request becomes, the rows it selects and
-- the loop that reads them.
--
-- A limit below 0 is a limit of 0: both are no limit. One that an int64 cannot hold does not occur,
-- and is treated like the largest. That a condition of SQL is neither true nor
-- false is `none`, and a row is selected where all conditions are true.
pub mod Selectors
pub mod Matching
pub mod Pages
pub mod Reading
pub mod Bounds
pub mod Answers
pub mod Tokens
pub mod Following
use sbombastic.Common.{
  ℕ, zero, suc, ◌+◌, String, Bool, true, false, not, ◌&&◌, ◌||◌, Option, none, some, List, [], ◌∷◌,
  ◌++◌, map, GoMap, lookup, Error, Result, ok, err, ◌>>=◌, ◌==◌, eqb, ltb, leb, filter, take, ◌^◌,
  contains, is_some, if◌then◌else◌,
}
use sbombastic.Effects.{read, lift}
use sbombastic.Effects
use sbombastic.Storage.Decimals.{parse_int, parse_uint, format_int}
use sbombastic.Storage.Rows.{Kind, Row}
use sbombastic.Storage.Repository.{Db, Server, Storing, ask}
use sbombastic.Storage.Listing.Selectors.{
  Condition, LabelRequirement, FieldRequirement, build_label_selector_expressions,
  build_field_selector_expressions, holds_all,
}

-- storage.ListOptions, as far as it is read. No label selector, and one that is not selectable, are
-- both `none`.
pub record ListOptions : Type 0 where
  pub resource_version : String
  pub send_initial_events : Option Bool
  pub allow_watch_bookmarks : Bool
  pub limit : ℕ
  pub continue : String
  pub label : Option (List LabelRequirement)
  pub field : Option (List FieldRequirement)

abbrev namespace_conditions : String → List Condition
namespace_conditions namespace =
    if namespace == "" then [] else Condition.namespace_is namespace ∷ []

abbrev after_id : Option (Bool × ℕ) → Result (List Condition)
after_id none = err Error.other
after_id (some (negative, id)) = ok (Condition.id_above negative id ∷ [])

unfoldable pub continue_conditions : String → Result (List Condition)
unfolding parse_int
continue_conditions token = if token == "" then ok [] else after_id (parse_int token)

abbrev from_version : Option Bool → Option ℕ → Result (List Condition)
from_version send none = err Error.other
from_version (some true) (some rv) = ok []
from_version _ (some rv) = ok (Condition.version_from rv ∷ [])

unfoldable pub version_conditions : ListOptions → Result (List Condition)
unfolding parse_uint
version_conditions opts =
    if opts.resource_version == "" || opts.resource_version == "0"
    then ok []
    else from_version opts.send_initial_events (parse_uint opts.resource_version)

-- All that is applied to the query before its limit, in the order of the code.
unfoldable pub query_conditions : String → ListOptions → Result (List Condition)
unfolding continue_conditions version_conditions build_label_selector_expressions
    build_field_selector_expressions
query_conditions namespace opts = continue_conditions opts.continue >>= λ after.
    version_conditions opts >>= λ from. build_label_selector_expressions opts.label >>= λ labels.
    build_field_selector_expressions opts.field >>= λ fields.
    ok (namespace_conditions namespace ++ (after ++ (from ++ (labels ++ fields))))

-- SELECT id, object FROM table WHERE … ORDER BY id LIMIT limit + 1, where the limit is an int64: behind
-- its largest value the sum is negative, and the server refuses a negative LIMIT.
unfoldable limited {ℓ} : {A : Type ℓ} → ℕ → List A → Result (List A)
limited zero rows = ok rows
limited (suc n) rows =
    if ltb (suc (suc n)) (2 ^ 63) then ok (take (suc (suc n)) rows) else err Error.other

module _ (K : Kind) where
  unfoldable pub select_rows : List Condition → ℕ → List (Row K.Json) → Result (List (Row K.Json))
  unfolding holds_all limited
  select_rows conditions limit rows = limited limit (filter (holds_all K conditions) rows)

  abbrev at_limit : ℕ → ℕ → Bool
  at_limit limit count = ltb 0 limit && eqb count limit

  abbrev pub decoded : Option K.Object → Result K.Object
  decoded none = err Error.other
  decoded (some obj) = ok obj

  -- The loop over the rows: the objects, lastID and hasMore.
  unfoldable pub read_rows : ℕ → ℕ → ℕ → List (Row K.Json) → Result (List K.Object × (ℕ × Bool))
  read_rows limit count last_id [] = ok ([], (last_id, false))
  read_rows limit count last_id (row ∷ rows) =
      let rest = read_rows limit (suc count) row.id rows in
      if at_limit limit count
      then ok ([], (last_id, true))
      else decoded (K.unmarshal row.object) >>= λ obj.
          rest >>= λ (items, end). ok (obj ∷ items, end)

  abbrev pub continue_token : List K.Object × (ℕ × Bool) → List K.Object × String
  continue_token (items, (last_id, true)) = (items, format_int last_id)
  continue_token (items, (last_id, false)) = (items, "")

  -- What the rows of a query become: the objects and the continue token.
  unfoldable pub page : ℕ → List (Row K.Json) → Result (List K.Object × String)
  unfolding read_rows format_int
  page limit rows = read_rows limit 0 0 rows >>= λ found. ok (continue_token found)

  -- From the query on.
  abbrev pub listed :
      (S : Server K.Object) → ℕ → Result (List Condition) → Storing K (List K.Object × String)
  unfolding select_rows page ask
  listed S limit conditions = Effects.branch (lift conditions) Effects.fail λ conditions.
      Effects.branch (read (ask K S (λ db. (select_rows conditions limit db.table, db))))
        Effects.fail λ rows. lift (rows >>= page limit)

  -- list, with List of the repository.
  unfoldable pub list :
      (S : Server K.Object) → String → ListOptions → Storing K (List K.Object × String)
  unfolding query_conditions select_rows page ask
  list S namespace opts = listed S opts.limit (query_conditions namespace opts)

-- ===== src/Filters.antt =====
-- FilterByTag (internal/filters/tag.go) and IsPlatformAllowed (internal/filters/platform.go).
-- The CEL evaluation of an expression against a tag is a parameter.
pub mod Meaning
use sbombastic.Common.{
  String, Bool, true, false, ◌&&◌, Option, none, some, List, [], ◌∷◌, ◌==◌, if◌then◌else◌, is_empty,
  any, Result, ok, ◌>>=◌,
}
use sbombastic.Registry.{
  MatchCondition, Repository, Platform, match_operator_and, match_operator_or,
}

-- An empty operator reads as And.
unfoldable pub effective_operator : String → String
effective_operator op = if op == "" then match_operator_and else op

module _ (evaluate : String → String → Result Bool) where
  -- The loop over the conditions, with the `switch` on the operator in its body.
  unfoldable pub filter_loop : String → String → List MatchCondition → Result Bool
  filter_loop op tag [] = ok (op == match_operator_and)
  filter_loop op tag (mc ∷ mcs) =
      let rest = filter_loop op tag mcs in
      evaluate mc.expression tag >>= λ allowed.
      if op == match_operator_and
      then (if allowed then rest else ok false)
      else if op == match_operator_or
      then (if allowed then ok true else rest)
      else rest

  unfoldable pub filter_by_tag : Option Repository → String → Result Bool
  filter_by_tag none tag = ok true
  filter_by_tag (some p) tag =
      if is_empty p.match_conditions
      then ok true
      else filter_loop (effective_operator p.match_operator) tag p.match_conditions

-- The test on one allowed platform.
unfoldable pub matches_platform : String → String → String → Platform → Bool
matches_platform os architecture variant allowed =
    if allowed.variant == ""
    then os == allowed.os && architecture == allowed.architecture
    else os == allowed.os && (architecture == allowed.architecture && variant == allowed.variant)

unfoldable pub is_platform_allowed : String → String → String → List Platform → Bool
unfolding matches_platform
is_platform_allowed os architecture variant allowed_platforms =
    if os == "unknown" && architecture == "unknown"
    then false
    else if is_empty allowed_platforms
    then true
    else any (matches_platform os architecture variant) allowed_platforms

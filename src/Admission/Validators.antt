-- ===== src/Admission/Validators.antt =====
-- internal/webhook/v1alpha1/registry_validators.go: platforms, scan intervals, catalog types and
-- repositories. A scan interval is a number of nanoseconds; a negative one is as short as 0. The CEL
-- evaluator is a parameter: none where it cannot be made, else its test of an expression.
use sbombastic.Common.{
  ℕ, suc, ◌*◌, ◌^◌, String, Bool, not, ◌&&◌, Option, none, some, List, [], ◌∷◌, ◌++◌, GoMap, lookup,
  contains, is_empty, ltb, ◌==◌, if◌then◌else◌,
}
use sbombastic.Registry.{Platform, Repository, MatchCondition}
use sbombastic.Admission.{
  PlatformError, unsupported_os, unsupported_arch, invalid_variant, no_variants, FieldError,
  scan_interval_too_short, catalog_type_unknown, repositories_required, no_tag_evaluator,
  expression_invalid, platform_invalid,
}

abbrev pub valid_platforms : GoMap (List String)
valid_platforms =
    ("aix", "ppc64" ∷ [])
    ∷ ("android", "386" ∷ "amd64" ∷ "arm" ∷ "arm64" ∷ [])
    ∷ ("darwin", "amd64" ∷ "arm64" ∷ [])
    ∷ ("dragonfly", "amd64" ∷ [])
    ∷ ("freebsd", "386" ∷ "amd64" ∷ "arm" ∷ [])
    ∷ ("illumos", "amd64" ∷ [])
    ∷ ("ios", "arm64" ∷ [])
    ∷ ("js", "wasm" ∷ [])
    ∷ (
      "linux",
      "386" ∷ "amd64" ∷ "arm" ∷ "arm64" ∷ "loong64" ∷ "mips" ∷ "mipsle" ∷ "mips64" ∷ "mips64le"
          ∷ "ppc64" ∷ "ppc64le" ∷ "riscv64" ∷ "s390x" ∷ [],
    )
    ∷ ("netbsd", "386" ∷ "amd64" ∷ "arm" ∷ [])
    ∷ ("openbsd", "386" ∷ "amd64" ∷ "arm" ∷ "arm64" ∷ [])
    ∷ ("plan9", "386" ∷ "amd64" ∷ "arm" ∷ [])
    ∷ ("solaris", "amd64" ∷ [])
    ∷ ("wasip1", "wasm" ∷ [])
    ∷ ("windows", "386" ∷ "amd64" ∷ "arm" ∷ "arm64" ∷ [])
    ∷ []

abbrev pub allowed_variants : GoMap (List String)
allowed_variants = ("arm", "v6" ∷ "v7" ∷ "v8" ∷ []) ∷ ("arm64", "v8" ∷ []) ∷ []

abbrev validate_variant : Option (List String) → String → Option PlatformError
validate_variant (some variants) variant =
    if not (variant == "") && not (contains variants variant) then some invalid_variant else none
validate_variant none variant = if not (variant == "") then some no_variants else none

abbrev validate_arch : Option (List String) → Platform → Option PlatformError
unfolding lookup
validate_arch none p = some unsupported_os
validate_arch (some arches) p =
    if not (contains arches p.architecture)
    then some unsupported_arch
    else validate_variant (lookup allowed_variants p.architecture) p.variant

-- The error of the platform, or none.
unfoldable pub validate_platform : Platform → Option PlatformError
unfolding lookup
validate_platform p = validate_arch (lookup valid_platforms p.os) p

abbrev pub ca_bundle_deprecation_warning : String
ca_bundle_deprecation_warning =
    "spec.caBundle is deprecated and will be removed in the following versions. Use spec.caBundleRef instead."

unfoldable pub ca_bundle_warnings : String → List String
ca_bundle_warnings ca_bundle = if ca_bundle == "" then [] else ca_bundle_deprecation_warning ∷ []

abbrev pub minute : ℕ
minute = 60 * 10 ^ 9

unfoldable pub validate_scan_interval : Option ℕ → List FieldError
validate_scan_interval none = []
validate_scan_interval (some interval) =
    if ltb interval minute then scan_interval_too_short ∷ [] else []

abbrev pub catalog_type_no_catalog : String
catalog_type_no_catalog = "NoCatalog"

abbrev pub catalog_type_oci_distribution : String
catalog_type_oci_distribution = "OCIDistribution"

abbrev pub available_catalog_types : List String
available_catalog_types = catalog_type_no_catalog ∷ catalog_type_oci_distribution ∷ []

unfoldable pub validate_catalog_type : String → List FieldError
validate_catalog_type catalog_type =
    if catalog_type == ""
    then []
    else if contains available_catalog_types catalog_type
    then []
    else catalog_type_unknown ∷ []

-- The loops over the repositories and their conditions, with their indexes.
module _ (validate : String → Bool) where
  unfoldable pub condition_errors : ℕ → ℕ → List MatchCondition → List FieldError
  condition_errors i j [] = []
  condition_errors i j (mc ∷ conditions) =
      let rest = condition_errors i (suc j) conditions in
      if validate mc.expression then rest else expression_invalid i j ∷ rest

  unfoldable pub repository_errors : ℕ → List Repository → List FieldError
  unfolding condition_errors
  repository_errors i [] = []
  repository_errors i (repo ∷ repositories) =
      condition_errors i 0 repo.match_conditions ++ repository_errors (suc i) repositories

abbrev evaluator_errors : Option (String → Bool) → List Repository → List FieldError
unfolding repository_errors
evaluator_errors none repositories = no_tag_evaluator ∷ []
evaluator_errors (some validate) repositories = repository_errors validate 0 repositories

unfoldable pub validate_repositories :
    Option (String → Bool) → List Repository → String → List FieldError
unfolding repository_errors
validate_repositories evaluator repositories catalog_type =
    (if catalog_type == catalog_type_no_catalog && is_empty repositories
      then repositories_required ∷ []
      else [])
    ++ evaluator_errors evaluator repositories

abbrev platform_error : ℕ → Option PlatformError → List FieldError → List FieldError
platform_error i none rest = rest
platform_error i (some e) rest = platform_invalid i e ∷ rest

unfoldable pub platform_errors : ℕ → List Platform → List FieldError
unfolding validate_platform
platform_errors i [] = []
platform_errors i (p ∷ platforms) =
    platform_error i (validate_platform p) (platform_errors (suc i) platforms)

unfoldable pub validate_platforms : List Platform → List FieldError
unfolding platform_errors
validate_platforms platforms = platform_errors 0 platforms

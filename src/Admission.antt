-- ===== src/Admission.antt =====
-- internal/webhook/v1alpha1/: what the admission webhooks answer. The webhook server, the decoding of
-- a request and the texts of the messages are left out; a field error is kept with its place.
pub mod ScanJobs
pub mod Validators
pub mod Registries
pub mod Guarding
pub mod Snapshots
use sbombastic.Common.{
  ℕ, String, Bool, true, false, Option, none, some, List, [], ◌∷◌, ◌++◌, append, ◌==◌,
  if◌then◌else◌,
}

-- Why validatePlatform refuses.
pub data PlatformError : Type 0 where
  unsupported_os unsupported_arch invalid_variant no_variants : PlatformError

-- A field error: at spec.registry, spec.repositories, …
pub data FieldError : Type 0 where
  already_running registry_not_found registry_immutable repositories_immutable : FieldError
  scan_interval_too_short catalog_type_unknown repositories_required no_tag_evaluator : FieldError
  expression_invalid : ℕ → ℕ → FieldError
  platform_invalid : ℕ → PlatformError → FieldError

-- The answer to a request: warnings, or an error of apierrors.
pub data Verdict : Type 0 where
  admitted : List String → Verdict
  invalid : List FieldError → Verdict
  forbidden internal_error : Verdict

abbrev pub is_admitted : Verdict → Bool
is_admitted (admitted warnings) = true
is_admitted _ = false

-- `if len(allErrs) > 0 { return nil, apierrors.NewInvalid(…) }`
abbrev pub unless_errors : List FieldError → List String → Verdict
unless_errors [] warnings = admitted warnings
unless_errors (e ∷ errors) warnings = invalid (e ∷ errors)

-- Who makes the request; none where the context has no request.
abbrev pub Username : Type 0
Username = Option String

-- The service account of the controller.
pub record ServiceAccount : Type 0 where
  pub namespace : String
  pub name : String

unfoldable pub allowed_username : ServiceAccount → String
allowed_username account =
    append "system:serviceaccount:" (append account.namespace (append ":" account.name))

-- What the two guards do that admit only the service account: none lets the request pass.
unfoldable pub only_service_account : ServiceAccount → Username → Option Verdict
unfolding allowed_username
only_service_account account none = some internal_error
only_service_account account (some user) =
    if user == allowed_username account then none else some forbidden

-- The request is that of the service account.
unfoldable pub is_service_account : ServiceAccount → Username → Bool
unfolding allowed_username
is_service_account account none = false
is_service_account account (some user) = user == allowed_username account

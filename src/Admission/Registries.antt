-- ===== src/Admission/Registries.antt =====
-- internal/webhook/v1alpha1/registry_webhook.go
use sbombastic.Common.{String, Bool, Option, none, List, [], ◌++◌, ◌==◌, if◌then◌else◌}
use sbombastic.Registry.{Registry, label_is, label_managed_by_key, label_managed_by_value}
use sbombastic.Admission.{
  FieldError, Verdict, admitted, unless_errors, Username, ServiceAccount, only_service_account,
  is_service_account,
}
use sbombastic.Admission.ScanJobs.{guarded}
use sbombastic.Admission.Validators.{
  validate_scan_interval, validate_catalog_type, validate_repositories, validate_platforms,
  ca_bundle_warnings, catalog_type_oci_distribution,
}

unfoldable pub default_registry : Registry → Registry
default_registry r =
    if r.spec.catalog_type == ""
    then record r { spec = record r.spec { catalog_type = catalog_type_oci_distribution } }
    else r

unfoldable pub is_managed : Registry → Bool
unfolding label_is
is_managed r = label_is label_managed_by_key label_managed_by_value r.labels

unfoldable pub validated_managed_registry : ServiceAccount → Username → Registry → Option Verdict
unfolding is_managed only_service_account
validated_managed_registry account user r =
    if is_managed r then only_service_account account user else none

unfoldable pub registry_warnings : ServiceAccount → Username → Registry → List String
unfolding is_service_account ca_bundle_warnings
registry_warnings account user r =
    if is_service_account account user then [] else ca_bundle_warnings r.spec.ca_bundle

unfoldable pub validate_registry : Option (String → Bool) → Registry → List FieldError
unfolding validate_scan_interval validate_catalog_type validate_repositories validate_platforms
validate_registry evaluator r =
    validate_scan_interval r.spec.scan_interval
    ++ (validate_catalog_type r.spec.catalog_type
        ++ (validate_repositories evaluator r.spec.repositories r.spec.catalog_type
            ++ validate_platforms r.spec.platforms))

module _ (evaluator : Option (String → Bool)) (account : ServiceAccount) (user : Username) where
  abbrev checked : Registry → Verdict
  unfolding validate_registry registry_warnings
  checked r = unless_errors (validate_registry evaluator r) (registry_warnings account user r)

  unfoldable pub validate_registry_create : Registry → Verdict
  unfolding validated_managed_registry validate_registry registry_warnings
  validate_registry_create r = guarded (validated_managed_registry account user r) (checked r)

  unfoldable pub validate_registry_update : Registry → Registry → Verdict
  unfolding validated_managed_registry validate_registry registry_warnings
  validate_registry_update old r =
      guarded (validated_managed_registry account user old)
        (guarded (validated_managed_registry account user r) (checked r))

  unfoldable pub validate_registry_delete : Registry → Verdict
  unfolding validated_managed_registry
  validate_registry_delete r = guarded (validated_managed_registry account user r) (admitted [])

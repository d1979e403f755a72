-- ===== src/Vulnerabilities.antt =====
-- api/storage/v1alpha1/summary.go and the types of api/storage/v1alpha1/vulnerabilityreport_types.go.
-- A counter is a number that does not overflow.
pub mod Trivy
pub mod Counts
pub mod Loops
pub mod Conversion
use sbombastic.Common.{
  ℕ, suc, String, Bool, true, false, Option, none, some, List, [], ◌∷◌, GoMap, ◌==◌, if◌then◌else◌,
}

pub record Cvss : Type 0 where
  pub v3_vector : String
  pub v3_score : String

pub record VexStatus : Type 0 where
  pub repository : String
  pub status : String
  pub statement : String

pub record Vulnerability : Type 0 where
  pub cve : String
  pub title : String
  pub package_name : String
  pub package_path : String
  pub purl : String
  pub installed_version : String
  pub fixed_versions : List String
  pub diff_id : String
  pub description : String
  pub severity : String
  pub severity_source : String
  pub references : List String
  pub cvss : GoMap Cvss
  pub cwes : List String
  pub suppressed : Bool
  pub vex_status : Option VexStatus

-- Result, a name that the results of functions have here.
pub record TargetResult : Type 0 where
  pub target : String
  pub class : String
  pub type : String
  pub vulnerabilities : List Vulnerability

abbrev pub severity_critical : String
severity_critical = "CRITICAL"

abbrev pub severity_high : String
severity_high = "HIGH"

abbrev pub severity_medium : String
severity_medium = "MEDIUM"

abbrev pub severity_low : String
severity_low = "LOW"

abbrev pub severity_unknown : String
severity_unknown = "UNKNOWN"

pub record Summary : Type 0 where
  pub critical : ℕ
  pub high : ℕ
  pub medium : ℕ
  pub low : ℕ
  pub unknown : ℕ
  pub suppressed : ℕ

abbrev pub empty_summary : Summary
empty_summary = record { critical = 0; high = 0; medium = 0; low = 0; unknown = 0; suppressed = 0 }

-- (*Summary).Add
unfoldable pub add : Summary → Vulnerability → Summary
add s v =
    if v.suppressed
    then record s { suppressed = suc s.suppressed }
    else if v.severity == severity_critical
    then record s { critical = suc s.critical }
    else if v.severity == severity_high
    then record s { high = suc s.high }
    else if v.severity == severity_medium
    then record s { medium = suc s.medium }
    else if v.severity == severity_low
    then record s { low = suc s.low }
    else record s { unknown = suc s.unknown }

unfoldable pub add_all : Summary → List Vulnerability → Summary
unfolding add
add_all s [] = s
add_all s (v ∷ vulnerabilities) = add_all (add s v) vulnerabilities

unfoldable pub add_results : Summary → List TargetResult → Summary
unfolding add_all
add_results s [] = s
add_results s (r ∷ results) = add_results (add_all s r.vulnerabilities) results

unfoldable pub new_summary_from_results : List TargetResult → Summary
unfolding add_results
new_summary_from_results results = add_results empty_summary results

-- ===== src/Tests/VulnerabilityRuns.antt =====
-- A report of trivy with one vulnerability, one that VEX suppresses, and a finding of another kind.
use sbombastic.Common.{ℕ, ◌≡◌, refl, String, Bool, true, false, none, List, [], ◌∷◌, length, ok}
use sbombastic.Vulnerabilities.{Vulnerability, TargetResult, new_summary_from_results}
use sbombastic.Vulnerabilities.Trivy.{
  TrivyTypes, TrivyOps, DetectedVulnerability, ModifiedFinding, TrivyResult, is_vulnerability,
  new_results_from_trivy_report,
}
use sbombastic.Vulnerabilities.Counts.{
  tally, counts, all_vulnerabilities, new_summary_from_results-counts,
}
use sbombastic.Vulnerabilities.Conversion.{
  graded, all_detected, all_findings, new_summary-new_results,
}

-- Findings are kept as the vulnerabilities that they encode would be named.
abbrev pub types : TrivyTypes
types = record { Float = ℕ; Purl = String; Finding = String }

abbrev detected : String → String → DetectedVulnerability types
detected id severity = record {
  vulnerability_id = id;
  title = "";
  pkg_name = "stdlib";
  pkg_path = "";
  purl = "pkg:golang/stdlib";
  installed_version = "1.23.4";
  fixed_version = "";
  diff_id = "";
  description = "";
  severity = severity;
  severity_source = "";
  references = [];
  cvss = [];
  cwe_ids = [];
}

unfoldable pub plain_ops : TrivyOps types
plain_ops = record {
  purl_string = λ purl. ok purl;
  format_float = λ f. "0";
  join_root = λ path. path;
  split_commas = λ text. text ∷ [];
  find_url = λ text. text;
  gob_finding = λ id. ok (detected id "HIGH");
  go_binary = "gobinary";
  rust_binary = "rustbinary";
  finding_type_vulnerability = "vulnerability";
}

abbrev modified : String → ModifiedFinding types
modified type = record {
  type = type;
  status = "not_affected";
  statement = "";
  source = "https://hub.example";
  finding = "CVE-2";
}

abbrev pub report : List (TrivyResult types)
report =
    record {
      target = "app";
      class = "lang-pkgs";
      type = "gobinary";
      vulnerabilities = detected "CVE-1" "MEDIUM" ∷ [];
      modified_findings = modified "vulnerability" ∷ modified "license" ∷ [];
    }
    ∷ []

new_summary-new_results_example :
    (results : List TargetResult) × ((new_results_from_trivy_report plain_ops report ≡ ok results)
      × (((new_summary_from_results results).suppressed
            ≡ tally (is_vulnerability plain_ops) (all_findings plain_ops report))
          × (graded (new_summary_from_results results) ≡ length (all_detected plain_ops report))))
unfolding plain_ops
new_summary-new_results_example = new_summary-new_results plain_ops report refl

abbrev vulnerability : String → Bool → Vulnerability
vulnerability severity suppressed = record {
  cve = "CVE-1";
  title = "";
  package_name = "stdlib";
  package_path = "";
  purl = "";
  installed_version = "";
  fixed_versions = [];
  diff_id = "";
  description = "";
  severity = severity;
  severity_source = "";
  references = [];
  cvss = [];
  cwes = [];
  suppressed = suppressed;
  vex_status = none;
}

abbrev results : List TargetResult
results =
    record {
      target = "app";
      class = "binary";
      type = "gobinary";
      vulnerabilities =
          vulnerability "LOW" false
          ∷ vulnerability "LOW" true
          ∷ vulnerability "NEGLIGIBLE" false
          ∷ [];
    }
    ∷ []

negligible_is_unknown : (new_summary_from_results results).unknown ≡ 1
unfolding new_summary_from_results
negligible_is_unknown = refl

new_summary_from_results-counts_example :
    new_summary_from_results results ≡ counts (all_vulnerabilities results)
new_summary_from_results-counts_example = new_summary_from_results-counts results

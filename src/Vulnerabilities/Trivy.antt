-- ===== src/Vulnerabilities/Trivy.antt =====
-- internal/handlers/trivyreport/trivy.go. The types of trivy keep the fields that are read. The
-- packages that the conversion calls are a parameter.
use sbombastic.Common.{
  String, Bool, true, false, ◌||◌, none, some, List, [], ◌∷◌, ◌++◌, map, GoMap, Result, ok, ◌>>=◌,
  ◌==◌, if◌then◌else◌,
}
use sbombastic.Vulnerabilities.{Vulnerability, Cvss, VexStatus, TargetResult}

-- One type for each: 64-bit floats, package URLs (a pointer), findings.
pub record TrivyTypes : Type 1 where
  pub Float : Type 0
  pub Purl : Type 0
  pub Finding : Type 0

module _ (types : TrivyTypes) where
  pub record VendorCvss : Type 0 where
    pub v3_vector : String
    pub v3_score : types.Float

  pub record DetectedVulnerability : Type 0 where
    pub vulnerability_id : String
    pub title : String
    pub pkg_name : String
    pub pkg_path : String
    pub purl : types.Purl
    pub installed_version : String
    pub fixed_version : String
    pub diff_id : String
    pub description : String
    pub severity : String
    pub severity_source : String
    pub references : List String
    pub cvss : GoMap VendorCvss
    pub cwe_ids : List String

  pub record ModifiedFinding : Type 0 where
    pub type : String
    pub status : String
    pub statement : String
    pub source : String
    pub finding : types.Finding

  pub record TrivyResult : Type 0 where
    pub target : String
    pub class : String
    pub type : String
    pub vulnerabilities : List DetectedVulnerability
    pub modified_findings : List ModifiedFinding

  -- PURL.String, which may panic; strconv.FormatFloat; path.Join("/", …); strings.Split(…, ", "); the
  -- first match of the expression for URLs; gob, encoding and decoding; and trivy's constants.
  pub record TrivyOps : Type 0 where
    pub purl_string : types.Purl → Result String
    pub format_float : types.Float → String
    pub join_root : String → String
    pub split_commas : String → List String
    pub find_url : String → String
    pub gob_finding : types.Finding → Result DetectedVulnerability
    pub go_binary : String
    pub rust_binary : String
    pub finding_type_vulnerability : String

abbrev pub class_binary : String
class_binary = "binary"

module _ {types : TrivyTypes} (ops : TrivyOps types) where
  abbrev pub new_class : TrivyResult types → String
  new_class r =
      if r.type == ops.go_binary || r.type == ops.rust_binary then class_binary else r.class

  -- With the vulnerabilities that the loops append to it.
  unfoldable pub new_result : TrivyResult types → List Vulnerability → TargetResult
  new_result r vulnerabilities = record {
    target = r.target;
    class = new_class r;
    type = r.type;
    vulnerabilities = vulnerabilities;
  }

  unfoldable pub fix_path : String → String
  fix_path input_path = if input_path == "" then "" else ops.join_root input_path

  unfoldable pub get_fixed_versions : String → List String
  get_fixed_versions input = if input == "" then [] else ops.split_commas input

  abbrev new_cvss_entry : String × VendorCvss types → String × Cvss
  new_cvss_entry (sid, cvss) =
      (sid, record { v3_vector = cvss.v3_vector; v3_score = ops.format_float cvss.v3_score })

  unfoldable pub new_cvss : GoMap (VendorCvss types) → GoMap Cvss
  new_cvss cvss = map new_cvss_entry cvss

  unfoldable pub new_vex_status : ModifiedFinding types → VexStatus
  new_vex_status f = record {
    repository = ops.find_url f.source;
    status = f.status;
    statement = f.statement;
  }

  unfoldable pub new_vulnerability : DetectedVulnerability types → Result Vulnerability
  unfolding fix_path get_fixed_versions new_cvss
  new_vulnerability v = ops.purl_string v.purl >>= λ purl. ok (record {
    cve = v.vulnerability_id;
    title = v.title;
    package_name = v.pkg_name;
    package_path = fix_path v.pkg_path;
    purl = purl;
    installed_version = v.installed_version;
    fixed_versions = get_fixed_versions v.fixed_version;
    diff_id = v.diff_id;
    description = v.description;
    severity = v.severity;
    severity_source = v.severity_source;
    references = v.references;
    cvss = new_cvss v.cvss;
    cwes = v.cwe_ids;
    suppressed = false;
    vex_status = none;
  })

  -- The loop over the vulnerabilities that VEX does not suppress.
  unfoldable pub convert_detected : List (DetectedVulnerability types) → Result (List Vulnerability)
  unfolding new_vulnerability
  convert_detected [] = ok []
  convert_detected (v ∷ detected) = new_vulnerability v >>= λ vulnerability.
      convert_detected detected >>= λ rest. ok (record vulnerability { suppressed = false } ∷ rest)

  unfoldable pub convert_finding : ModifiedFinding types → Result Vulnerability
  unfolding new_vulnerability new_vex_status
  convert_finding f = ops.gob_finding f.finding >>= λ detected.
      new_vulnerability detected >>= λ vulnerability.
      ok (record vulnerability { suppressed = true; vex_status = some (new_vex_status f) })

  abbrev pub is_vulnerability : ModifiedFinding types → Bool
  is_vulnerability f = f.type == ops.finding_type_vulnerability

  -- The loop over the findings, which skips those that are no vulnerability.
  unfoldable pub convert_findings : List (ModifiedFinding types) → Result (List Vulnerability)
  unfolding convert_finding
  convert_findings [] = ok []
  convert_findings (f ∷ findings) =
      let rest = convert_findings findings in
      if is_vulnerability f
      then (convert_finding f >>= λ vulnerability. rest >>= λ after. ok (vulnerability ∷ after))
      else rest

  unfoldable pub new_results_from_trivy_report :
      List (TrivyResult types) → Result (List TargetResult)
  unfolding new_result convert_detected convert_findings
  new_results_from_trivy_report [] = ok []
  new_results_from_trivy_report (r ∷ report) = convert_detected r.vulnerabilities >>= λ detected.
      convert_findings r.modified_findings >>= λ suppressed.
      new_results_from_trivy_report report >>= λ results.
      ok (new_result r (detected ++ suppressed) ∷ results)

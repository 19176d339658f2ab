-- ===== src/Confidence.antt =====
-- The table of confidences (src/shared/confidence.ts), in hundredths.
pub mod Bands
use logiclens.Shared.{ℕ, ◌+◌, ◌≤◌, Bool, true, false, leb, if◌then◌else◌, min}

pub data ConfidenceRule : Type 0 where
  exact_manifest exact_framework_marker exact_parser_route exact_parser_route_spec : ConfidenceRule
  strong_static_import probable_package_path probable_http_client : ConfidenceRule
  probable_http_client_spec probable_http_route probable_route_merge : ConfidenceRule
  exact_event_annotation probable_event probable_event_spec : ConfidenceRule
  heuristic_package_owner_alias heuristic_shared_symbol heuristic_config_file : ConfidenceRule
  heuristic_config_reference heuristic_section_documents_code : ConfidenceRule
  heuristic_entity_mention heuristic_schema_fields heuristic_generic_type_param : ConfidenceRule
  heuristic_request_body_type heuristic_response_body_type : ConfidenceRule
  fallback_framework_language fallback_framework_signature : ConfidenceRule
  method_unknown_fallback exact_method_path_match path_only_match : ConfidenceRule
  template_compatible_match static_path_to_template_match wildcard_path_match : ConfidenceRule
  exact_grpc_match exact_graphql_match probable_regex_route : ConfidenceRule
  probable_grpc_package_unspecified probable_grpc_package_mismatch exact_dubbo_match :
      ConfidenceRule
  probable_dubbo_group_version_unspecified : ConfidenceRule
  probable_dubbo_group_version_mismatch : ConfidenceRule

unfoldable pub confidence_for : ConfidenceRule → ℕ
confidence_for exact_manifest = 100
confidence_for exact_framework_marker = 100
confidence_for exact_parser_route = 90
confidence_for exact_parser_route_spec = 90
confidence_for strong_static_import = 90
confidence_for probable_package_path = 80
confidence_for probable_http_client = 85
confidence_for probable_http_client_spec = 85
confidence_for probable_http_route = 80
confidence_for probable_route_merge = 85
confidence_for exact_event_annotation = 90
confidence_for probable_event = 85
confidence_for probable_event_spec = 85
confidence_for heuristic_package_owner_alias = 70
confidence_for heuristic_shared_symbol = 75
confidence_for heuristic_config_file = 75
confidence_for heuristic_config_reference = 70
confidence_for heuristic_section_documents_code = 70
confidence_for heuristic_entity_mention = 60
confidence_for heuristic_schema_fields = 75
confidence_for heuristic_generic_type_param = 70
confidence_for heuristic_request_body_type = 70
confidence_for heuristic_response_body_type = 70
confidence_for fallback_framework_language = 55
confidence_for fallback_framework_signature = 70
confidence_for method_unknown_fallback = 60
confidence_for exact_method_path_match = 95
confidence_for path_only_match = 75
confidence_for template_compatible_match = 90
confidence_for static_path_to_template_match = 85
confidence_for wildcard_path_match = 80
confidence_for exact_grpc_match = 95
confidence_for exact_graphql_match = 95
confidence_for probable_regex_route = 85
confidence_for probable_grpc_package_unspecified = 90
confidence_for probable_grpc_package_mismatch = 80
confidence_for exact_dubbo_match = 95
confidence_for probable_dubbo_group_version_unspecified = 90
confidence_for probable_dubbo_group_version_mismatch = 80

pub data ConfidenceBand : Type 0 where
  exact probable heuristic : ConfidenceBand

abbrev pub probable_confidence_threshold : ℕ
probable_confidence_threshold = 80

unfoldable pub confidence_band : ℕ → ConfidenceBand
confidence_band confidence =
    if leb 90 confidence
    then exact
    else if leb probable_confidence_threshold confidence
    then probable
    else heuristic

-- The signals that a call resolution combines.
pub record CallCandidate : Type 0 where
  pub same_file : Bool
  pub imported : Bool
  pub same_repo : Bool
  pub name_exact : Bool

abbrev points : Bool → ℕ → ℕ
points signal n = if signal then n else 0

unfoldable pub score_call_resolution : CallCandidate → ℕ
score_call_resolution c =
    min
      (points c.name_exact 40
        + points c.same_file 40
        + points c.imported 30
        + points c.same_repo 10)
      100

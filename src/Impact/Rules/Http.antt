-- ===== src/Impact/Rules/Http.antt =====
-- The rules of HTTP endpoints (src/core/contracts/impact/rules/httpImpactRules.ts).
use logiclens.Shared.{
  String, Option, none, some, List, [], ◌∷◌, template, get_or_else, truthy, if◌then◌else◌,
}
use logiclens.Nodes.{ContractSpecNode, SpecKind, http_endpoint}
use logiclens.Specs.{HttpEndpointSpec}
use logiclens.Impact.Items.{ImpactItem, breaking, risky, compatible}
use logiclens.Impact.Rules.{
  ChangeType, endpoint_removed, endpoint_renamed, endpoint_schema_change, field_added,
  field_removed, field_type_changed, ChangeIntent, shown, target_item, Dependent, dependent_item,
  via_reason, via, with_payload,
}

-- `${method ?? "ANY"} ${path}`
abbrev pub http_symbol : HttpEndpointSpec → String
http_symbol p = template (get_or_else p.method "ANY" ∷ " " ∷ p.path ∷ [])

-- `${method ?? "ANY"} ${pathTemplate}`
abbrev pub template_text : HttpEndpointSpec → String
template_text p = template (get_or_else p.method "ANY" ∷ " " ∷ p.path_template ∷ [])

-- what the change means for the spec itself
unfoldable pub http_target :
    ChangeType → ChangeIntent → ContractSpecNode → HttpEndpointSpec → Option ImpactItem
http_target endpoint_removed change spec p = some (
    target_item spec breaking (http_symbol p)
      (template ("HTTP endpoint " ∷ http_symbol p ∷ " will be removed" ∷ []))
      (template ("endpoint: " ∷ template_text p ∷ [])))
http_target endpoint_renamed change spec p =
    if truthy change.detail
    then some (
        target_item spec breaking (http_symbol p)
          (template ("HTTP endpoint renamed to " ∷ get_or_else change.detail "" ∷ []))
          (template ("endpoint: " ∷ template_text p ∷ [])))
    else none
http_target endpoint_schema_change change spec p = some (
    target_item spec risky (http_symbol p)
      (template ("Request/response schema changed for " ∷ http_symbol p ∷ []))
      (template ("endpoint: " ∷ template_text p ∷ [])))
http_target _ change spec p = none

-- the cases of what the change means for a spec that is related to the changed one
unfoldable pub http_impact :
    ChangeType → ChangeIntent → Dependent → HttpEndpointSpec → List ImpactItem
http_impact endpoint_removed change d p =
    dependent_item d breaking (http_symbol p)
      (template ("Consumer calls removed endpoint " ∷ http_symbol p ∷ []))
      (via_reason d (template_text p))
    ∷ []
http_impact endpoint_renamed change d p =
    dependent_item d breaking (http_symbol p)
      (template
        ("Consumer references renamed endpoint " ∷ http_symbol p ∷ " → " ∷ shown change ∷ []))
      (via_reason d (template_text p))
    ∷ []
http_impact endpoint_schema_change change d p =
    dependent_item d risky (http_symbol p)
      (template ("Consumer may be affected by schema change on " ∷ http_symbol p ∷ []))
      (via_reason d (template_text p))
    ∷ []
http_impact field_removed change d p =
    dependent_item d risky (http_symbol p)
      (template (
        "Request/response schema field '"
        ∷ shown change
        ∷ "' removed — affects "
        ∷ http_symbol p
        ∷ []))
      (via d (template_text p))
    ∷ []
http_impact field_type_changed change d p =
    dependent_item d risky (http_symbol p)
      (template
        ("Schema field type changed for '" ∷ shown change ∷ "' — affects " ∷ http_symbol p ∷ []))
      (via d (template_text p))
    ∷ []
http_impact field_added change d p =
    dependent_item d compatible (http_symbol p)
      (template
        ("New schema field '" ∷ shown change ∷ "' added — compatible with " ∷ http_symbol p ∷ []))
      (via d (template_text p))
    ∷ []
http_impact _ change d p = []

module _ (read_kind : String → Option SpecKind) (parse : String → Option HttpEndpointSpec) where
  unfoldable pub classify_http_endpoint_target_change :
      ChangeIntent → ContractSpecNode → Option (Option ImpactItem)
  unfolding http_target
  classify_http_endpoint_target_change change spec =
      with_payload read_kind http_endpoint parse spec none
        (http_target change.change_type change spec)

  unfoldable pub assess_http_endpoint_change : ChangeIntent → Dependent → Option (List ImpactItem)
  unfolding http_impact
  assess_http_endpoint_change change d =
      with_payload read_kind http_endpoint parse d.spec [] (http_impact change.change_type change d)

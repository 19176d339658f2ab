-- ===== src/Impact/Rules/Graphql.antt =====
-- The rules of GraphQL operations (src/core/contracts/impact/rules/graphqlImpactRules.ts).
use logiclens.Shared.{String, Option, none, some, List, [], ◌∷◌, template}
use logiclens.Nodes.{ContractSpecNode, SpecKind, graphql_operation}
use logiclens.Specs.{GraphqlOperationSpec}
use logiclens.Impact.Items.{ImpactItem, breaking, risky, compatible}
use logiclens.Impact.Rules.{
  ChangeType, field_added, field_removed, field_type_changed, rpc_removed, rpc_renamed,
  rpc_signature_change, ChangeIntent, shown, target_item, Dependent, dependent_item, via_reason,
  via, with_payload,
}

abbrev pub graphql_symbol : GraphqlOperationSpec → String
graphql_symbol p = p.full_name

-- what the change means for the spec itself
unfoldable pub graphql_target :
    ChangeType → ChangeIntent → ContractSpecNode → GraphqlOperationSpec → Option ImpactItem
graphql_target rpc_removed change spec p = some (
    target_item spec breaking (graphql_symbol p)
      (template ("GraphQL operation " ∷ graphql_symbol p ∷ " will be removed" ∷ []))
      (template ("operation: " ∷ graphql_symbol p ∷ [])))
graphql_target rpc_renamed change spec p = some (
    target_item spec breaking (graphql_symbol p)
      (template ("GraphQL operation renamed to " ∷ shown change ∷ []))
      (template ("operation: " ∷ graphql_symbol p ∷ [])))
graphql_target rpc_signature_change change spec p = some (
    target_item spec risky (graphql_symbol p)
      (template ("Signature changed for GraphQL operation " ∷ graphql_symbol p ∷ []))
      (template ("operation: " ∷ graphql_symbol p ∷ [])))
graphql_target _ change spec p = none

-- the cases of what the change means for a spec that is related to the changed one
unfoldable pub graphql_impact :
    ChangeType → ChangeIntent → Dependent → GraphqlOperationSpec → List ImpactItem
graphql_impact rpc_removed change d p =
    dependent_item d breaking (graphql_symbol p)
      (template ("Consumer calls removed GraphQL operation " ∷ graphql_symbol p ∷ []))
      (via_reason d (graphql_symbol p))
    ∷ []
graphql_impact rpc_renamed change d p =
    dependent_item d breaking (graphql_symbol p)
      (template (
        "Consumer references renamed GraphQL operation "
        ∷ graphql_symbol p
        ∷ " → "
        ∷ shown change
        ∷ []))
      (via_reason d (graphql_symbol p))
    ∷ []
graphql_impact rpc_signature_change change d p =
    dependent_item d risky (graphql_symbol p)
      (template ("Consumer may be affected by signature change on " ∷ graphql_symbol p ∷ []))
      (via_reason d (graphql_symbol p))
    ∷ []
graphql_impact field_removed change d p =
    dependent_item d risky (graphql_symbol p)
      (template (
        "Request/response schema field '"
        ∷ shown change
        ∷ "' removed — affects GraphQL operation "
        ∷ graphql_symbol p
        ∷ []))
      (via d (graphql_symbol p))
    ∷ []
graphql_impact field_type_changed change d p =
    dependent_item d risky (graphql_symbol p)
      (template (
        "Schema field type changed for '"
        ∷ shown change
        ∷ "' — affects GraphQL operation "
        ∷ graphql_symbol p
        ∷ []))
      (via d (graphql_symbol p))
    ∷ []
graphql_impact field_added change d p =
    dependent_item d compatible (graphql_symbol p)
      (template (
        "New schema field '"
        ∷ shown change
        ∷ "' added — compatible with GraphQL operation "
        ∷ graphql_symbol p
        ∷ []))
      (via d (graphql_symbol p))
    ∷ []
graphql_impact _ change d p = []

module _ (read_kind : String → Option SpecKind) (parse : String → Option GraphqlOperationSpec) where
  unfoldable pub classify_graphql_operation_target_change :
      ChangeIntent → ContractSpecNode → Option (Option ImpactItem)
  unfolding graphql_target
  classify_graphql_operation_target_change change spec =
      with_payload read_kind graphql_operation parse spec none
        (graphql_target change.change_type change spec)

  unfoldable pub assess_graphql_operation_change :
      ChangeIntent → Dependent → Option (List ImpactItem)
  unfolding graphql_impact
  assess_graphql_operation_change change d =
      with_payload read_kind graphql_operation parse d.spec []
        (graphql_impact change.change_type change d)

-- ===== src/Impact/Rules/Grpc.antt =====
-- The rules of gRPC methods (src/core/contracts/impact/rules/grpcImpactRules.ts).
use logiclens.Shared.{String, Option, none, some, List, [], ◌∷◌, template}
use logiclens.Nodes.{ContractSpecNode, SpecKind, grpc_method}
use logiclens.Specs.{GrpcMethodSpec}
use logiclens.Impact.Items.{ImpactItem, breaking, risky, compatible}
use logiclens.Impact.Rules.{
  ChangeType, field_added, field_removed, field_type_changed, rpc_removed, rpc_renamed,
  rpc_signature_change, ChangeIntent, shown, target_item, Dependent, dependent_item, via_reason,
  via, with_payload,
}

-- `${service}/${method}`
abbrev pub grpc_symbol : GrpcMethodSpec → String
grpc_symbol p = template (p.service ∷ "/" ∷ p.method ∷ [])

-- what the change means for the spec itself
unfoldable pub grpc_target :
    ChangeType → ChangeIntent → ContractSpecNode → GrpcMethodSpec → Option ImpactItem
grpc_target rpc_removed change spec p = some (
    target_item spec breaking (grpc_symbol p)
      (template ("gRPC method " ∷ grpc_symbol p ∷ " will be removed" ∷ []))
      (template ("rpc: " ∷ grpc_symbol p ∷ [])))
grpc_target rpc_renamed change spec p = some (
    target_item spec breaking (grpc_symbol p)
      (template ("gRPC method renamed to " ∷ shown change ∷ []))
      (template ("rpc: " ∷ grpc_symbol p ∷ [])))
grpc_target rpc_signature_change change spec p = some (
    target_item spec risky (grpc_symbol p)
      (template ("Signature changed for gRPC method " ∷ grpc_symbol p ∷ []))
      (template ("rpc: " ∷ grpc_symbol p ∷ [])))
grpc_target _ change spec p = none

-- the cases of what the change means for a spec that is related to the changed one
unfoldable pub grpc_impact :
    ChangeType → ChangeIntent → Dependent → GrpcMethodSpec → List ImpactItem
grpc_impact rpc_removed change d p =
    dependent_item d breaking (grpc_symbol p)
      (template ("Consumer calls removed gRPC method " ∷ grpc_symbol p ∷ []))
      (via_reason d (grpc_symbol p))
    ∷ []
grpc_impact rpc_renamed change d p =
    dependent_item d breaking (grpc_symbol p)
      (template
        ("Consumer references renamed gRPC method " ∷ grpc_symbol p ∷ " → " ∷ shown change ∷ []))
      (via_reason d (grpc_symbol p))
    ∷ []
grpc_impact rpc_signature_change change d p =
    dependent_item d risky (grpc_symbol p)
      (template ("Consumer may be affected by signature change on " ∷ grpc_symbol p ∷ []))
      (via_reason d (grpc_symbol p))
    ∷ []
grpc_impact field_removed change d p =
    dependent_item d risky (grpc_symbol p)
      (template (
        "Request/response schema field '"
        ∷ shown change
        ∷ "' removed — affects gRPC method "
        ∷ grpc_symbol p
        ∷ []))
      (via d (grpc_symbol p))
    ∷ []
grpc_impact field_type_changed change d p =
    dependent_item d risky (grpc_symbol p)
      (template (
        "Schema field type changed for '"
        ∷ shown change
        ∷ "' — affects gRPC method "
        ∷ grpc_symbol p
        ∷ []))
      (via d (grpc_symbol p))
    ∷ []
grpc_impact field_added change d p =
    dependent_item d compatible (grpc_symbol p)
      (template (
        "New schema field '"
        ∷ shown change
        ∷ "' added — compatible with gRPC method "
        ∷ grpc_symbol p
        ∷ []))
      (via d (grpc_symbol p))
    ∷ []
grpc_impact _ change d p = []

module _ (read_kind : String → Option SpecKind) (parse : String → Option GrpcMethodSpec) where
  unfoldable pub classify_grpc_method_target_change :
      ChangeIntent → ContractSpecNode → Option (Option ImpactItem)
  unfolding grpc_target
  classify_grpc_method_target_change change spec =
      with_payload read_kind grpc_method parse spec none
        (grpc_target change.change_type change spec)

  unfoldable pub assess_grpc_method_change : ChangeIntent → Dependent → Option (List ImpactItem)
  unfolding grpc_impact
  assess_grpc_method_change change d =
      with_payload read_kind grpc_method parse d.spec [] (grpc_impact change.change_type change d)

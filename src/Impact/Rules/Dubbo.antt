-- ===== src/Impact/Rules/Dubbo.antt =====
-- The rules of Dubbo methods (src/core/contracts/impact/rules/dubboImpactRules.ts).
use logiclens.Shared.{String, Option, none, some, List, [], ◌∷◌, template, str_eq, if◌then◌else◌}
use logiclens.Nodes.{ContractSpecNode, SpecKind, dubbo_method}
use logiclens.Specs.{DubboMethodSpec}
use logiclens.Impact.Items.{ImpactItem, breaking, risky, compatible}
use logiclens.Impact.Rules.{
  ChangeType, field_added, field_removed, field_type_changed, rpc_removed, rpc_renamed,
  rpc_signature_change, ChangeIntent, shown, target_item, Dependent, dependent_item, via_reason,
  via, with_payload,
}

abbrev pub dubbo_symbol : DubboMethodSpec → String
dubbo_symbol p =
    template (p.interface_name ∷ "#" ∷ (if str_eq p.method "" then "*" else p.method) ∷ [])

-- what the change means for the spec itself
unfoldable pub dubbo_target :
    ChangeType → ChangeIntent → ContractSpecNode → DubboMethodSpec → Option ImpactItem
dubbo_target rpc_removed change spec p = some (
    target_item spec breaking (dubbo_symbol p)
      (template ("Dubbo method " ∷ dubbo_symbol p ∷ " will be removed" ∷ []))
      (template ("rpc: " ∷ dubbo_symbol p ∷ [])))
dubbo_target rpc_renamed change spec p = some (
    target_item spec breaking (dubbo_symbol p)
      (template ("Dubbo method renamed to " ∷ shown change ∷ []))
      (template ("rpc: " ∷ dubbo_symbol p ∷ [])))
dubbo_target rpc_signature_change change spec p = some (
    target_item spec risky (dubbo_symbol p)
      (template ("Signature changed for Dubbo method " ∷ dubbo_symbol p ∷ []))
      (template ("rpc: " ∷ dubbo_symbol p ∷ [])))
dubbo_target _ change spec p = none

-- the cases of what the change means for a spec that is related to the changed one
unfoldable pub dubbo_impact :
    ChangeType → ChangeIntent → Dependent → DubboMethodSpec → List ImpactItem
dubbo_impact rpc_removed change d p =
    dependent_item d breaking (dubbo_symbol p)
      (template ("Consumer calls removed Dubbo method " ∷ dubbo_symbol p ∷ []))
      (via_reason d (dubbo_symbol p))
    ∷ []
dubbo_impact rpc_renamed change d p =
    dependent_item d breaking (dubbo_symbol p)
      (template
        ("Consumer references renamed Dubbo method " ∷ dubbo_symbol p ∷ " -> " ∷ shown change ∷ []))
      (via_reason d (dubbo_symbol p))
    ∷ []
dubbo_impact rpc_signature_change change d p =
    dependent_item d risky (dubbo_symbol p)
      (template ("Consumer may be affected by signature change on " ∷ dubbo_symbol p ∷ []))
      (via_reason d (dubbo_symbol p))
    ∷ []
dubbo_impact field_removed change d p =
    dependent_item d risky (dubbo_symbol p)
      (template (
        "Request/response schema field '"
        ∷ shown change
        ∷ "' removed - affects Dubbo method "
        ∷ dubbo_symbol p
        ∷ []))
      (via d (dubbo_symbol p))
    ∷ []
dubbo_impact field_type_changed change d p =
    dependent_item d risky (dubbo_symbol p)
      (template (
        "Schema field type changed for '"
        ∷ shown change
        ∷ "' - affects Dubbo method "
        ∷ dubbo_symbol p
        ∷ []))
      (via d (dubbo_symbol p))
    ∷ []
dubbo_impact field_added change d p =
    dependent_item d compatible (dubbo_symbol p)
      (template (
        "New schema field '"
        ∷ shown change
        ∷ "' added - compatible with Dubbo method "
        ∷ dubbo_symbol p
        ∷ []))
      (via d (dubbo_symbol p))
    ∷ []
dubbo_impact _ change d p = []

module _ (read_kind : String → Option SpecKind) (parse : String → Option DubboMethodSpec) where
  unfoldable pub classify_dubbo_method_target_change :
      ChangeIntent → ContractSpecNode → Option (Option ImpactItem)
  unfolding dubbo_target
  classify_dubbo_method_target_change change spec =
      with_payload read_kind dubbo_method parse spec none
        (dubbo_target change.change_type change spec)

  unfoldable pub assess_dubbo_method_change : ChangeIntent → Dependent → Option (List ImpactItem)
  unfolding dubbo_impact
  assess_dubbo_method_change change d =
      with_payload read_kind dubbo_method parse d.spec [] (dubbo_impact change.change_type change d)

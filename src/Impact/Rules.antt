-- ===== src/Impact/Rules.antt =====
-- The rules of impact (src/core/contracts/impact/rules and types.ts): what a change of a contract
-- means for the changed spec and for a spec that is related to it. What the rules of the kinds
-- share is here, with a module for the rules of each kind.
pub mod Http
pub mod Event
pub mod Grpc
pub mod Dubbo
pub mod Graphql
pub mod Schema
use logiclens.Shared.{
  ℕ, String, Bool, false, Option, none, some, [], ◌∷◌, ◌>>=◌, template, get_or_else, if◌then◌else◌,
}
use logiclens.Nodes.{
  ContractSpecNode, SpecKind, same_kind, SemanticRelationKind, impacts, kind_name,
}
use logiclens.Impact.Items.{ImpactSeverity, ImpactItem}

pub data ChangeType : Type 0 where
  endpoint_removed endpoint_renamed endpoint_schema_change : ChangeType
  topic_removed topic_renamed event_payload_change : ChangeType
  field_added field_removed field_type_changed : ChangeType
  rpc_removed rpc_renamed rpc_signature_change : ChangeType

pub record ChangeIntent : Type 0 where
  pub target : String
  pub change_type : ChangeType
  pub detail : Option String

pub record ImpactAnalysisOptions : Type 0 where
  pub read_file : Option (String → String → Option String)
  pub max_hops : Option ℕ

-- change.detail ?? "unknown"
abbrev pub shown : ChangeIntent → String
shown change = get_or_else change.detail "unknown"

-- An item for the changed spec itself.
abbrev pub target_item : ContractSpecNode → ImpactSeverity → String → String → String → ImpactItem
target_item spec severity symbol description evidence = record {
  severity = severity;
  repo_id = spec.repo_id;
  repo_name = none;
  file_path = spec.file_id;
  line = none;
  symbol = symbol;
  relation_kind = impacts;
  description = description;
  evidence = evidence;
  spec_id = spec.id;
  confidence = spec.confidence;
}

-- A spec that is related to the changed one, the relation's kind, its reason and its confidence.
pub record Dependent : Type 0 where
  pub spec : ContractSpecNode
  pub relation_kind : SemanticRelationKind
  pub reason : String
  pub confidence : ℕ

abbrev pub dependent_item : Dependent → ImpactSeverity → String → String → String → ImpactItem
dependent_item d severity symbol description evidence = record {
  severity = severity;
  repo_id = d.spec.repo_id;
  repo_name = none;
  file_path = d.spec.file_id;
  line = none;
  symbol = symbol;
  relation_kind = d.relation_kind;
  description = description;
  evidence = evidence;
  spec_id = d.spec.id;
  confidence = d.confidence;
}

-- `${text} (via ${relationKind}: ${reason})`
abbrev pub via_reason : Dependent → String → String
via_reason d text =
    template (text ∷ " (via " ∷ kind_name d.relation_kind ∷ ": " ∷ d.reason ∷ ")" ∷ [])

-- `${text} (via ${relationKind})`
abbrev pub via : Dependent → String → String
via d text = template (text ∷ " (via " ∷ kind_name d.relation_kind ∷ ")" ∷ [])

-- if (spec.kind !== kind) return …: the `kind` that the payload itself has
abbrev pub has_kind : SpecKind → Option SpecKind → Bool
has_kind kind none = false
has_kind kind (some k) = same_kind k kind

-- deserializeSpec, whose exception is `none`, and what follows the test of the payload's kind.
unfoldable pub with_payload {ℓ} :
    {S : Type 0} {R : Type ℓ}
    → (String → Option SpecKind)
    → SpecKind
    → (String → Option S)
    → ContractSpecNode
    → R
    → (S → R)
    → Option R
with_payload read_kind kind parse spec otherwise rule = do
  payload ← parse spec.spec_json
  some (if has_kind kind (read_kind spec.spec_json) then rule payload else otherwise)

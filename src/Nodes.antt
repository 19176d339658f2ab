-- ===== src/Nodes.antt =====
-- The nodes and edges of the contract graph (src/core/parsing/types.ts). A confidence is a number
-- of hundredths: the code compares confidences, takes their minimum and copies them.
use logiclens.Shared.{
  ℕ, String, Bool, true, Option, [], ◌∷◌, ◌≡◌, ◌↔◌, ◌==◌, ==_iff, arith, template,
}

pub data SpecKind : Type 0 where
  http_endpoint event schema grpc_method dubbo_method graphql_operation : SpecKind

abbrev pub SpecKind_code : SpecKind → ℕ
SpecKind_code http_endpoint = 0
SpecKind_code event = 1
SpecKind_code schema = 2
SpecKind_code grpc_method = 3
SpecKind_code dubbo_method = 4
SpecKind_code graphql_operation = 5

-- a.specKind === b
abbrev pub same_kind : SpecKind → SpecKind → Bool
same_kind a b = SpecKind_code a == SpecKind_code b

SpecKind_code-injective : (a b : SpecKind) → SpecKind_code a ≡ SpecKind_code b → a ≡ b
SpecKind_code-injective a b h = ground arith

pub same_kind_iff : (a b : SpecKind) → (same_kind a b ≡ true) ↔ (a ≡ b)
same_kind_iff a b = (
  λ h. SpecKind_code-injective a b ((==_iff _ _).0 h),
  λ e. (==_iff _ _).1 (λ i. SpecKind_code (e i)),
)

pub data ContractRole : Type 0 where
  owner producer consumer shared : ContractRole

pub record ContractSpecNode : Type 0 where
  pub id : String
  pub contract_id : String
  pub spec_kind : SpecKind
  pub repo_id : String
  pub file_id : String
  pub evidence_id : String
  pub source_symbol_id : Option String
  pub canonical_key : String
  pub http_method : Option String
  pub path_template : Option String
  pub event_topic : Option String
  pub framework : Option String
  pub version : Option String
  pub spec_json : String
  pub confidence : ℕ
  pub batch_id : Option String
  pub indexed_at : Option String
  pub active : Option Bool

pub record RepoContractEdge : Type 0 where
  pub repo_id : String
  pub contract_id : String
  pub role : ContractRole
  pub evidence_id : String
  pub confidence : ℕ
  pub batch_id : Option String
  pub active : Option Bool

pub data SemanticRelationKind : Type 0 where
  implements calls_http calls_dubbo calls_grpc calls_graphql internal_call : SemanticRelationKind
  publishes_event subscribes_event uses_schema request_schema : SemanticRelationKind
  response_schema event_payload compatible_with breaks impacts : SemanticRelationKind

-- The text that stands for a kind in the keys of edges.
abbrev pub kind_name : SemanticRelationKind → String
kind_name implements = "IMPLEMENTS"
kind_name calls_http = "CALLS_HTTP"
kind_name calls_dubbo = "CALLS_DUBBO"
kind_name calls_grpc = "CALLS_GRPC"
kind_name calls_graphql = "CALLS_GRAPHQL"
kind_name internal_call = "INTERNAL_CALL"
kind_name publishes_event = "PUBLISHES_EVENT"
kind_name subscribes_event = "SUBSCRIBES_EVENT"
kind_name uses_schema = "USES_SCHEMA"
kind_name request_schema = "REQUEST_SCHEMA"
kind_name response_schema = "RESPONSE_SCHEMA"
kind_name event_payload = "EVENT_PAYLOAD"
kind_name compatible_with = "COMPATIBLE_WITH"
kind_name breaks = "BREAKS"
kind_name impacts = "IMPACTS"

pub record SemanticRelationEdge : Type 0 where
  pub from_spec_id : String
  pub to_spec_id : String
  pub kind : SemanticRelationKind
  pub evidence_id : String
  pub reason : String
  pub confidence : ℕ
  pub batch_id : Option String
  pub active : Option Bool

-- `${fromSpecId}:${toSpecId}:${kind}`
abbrev pub edge_key : SemanticRelationEdge → String
edge_key e = template (e.from_spec_id ∷ ":" ∷ e.to_spec_id ∷ ":" ∷ kind_name e.kind ∷ [])

pub record RepoDependencyEdge : Type 0 where
  pub from_repo_id : String
  pub to_repo_id : String
  pub dependency_type : String
  pub source_contract_id : String
  pub target_contract_id : String
  pub evidence_id : String
  pub raw : String
  pub confidence : ℕ
  pub batch_id : Option String
  pub active : Option Bool

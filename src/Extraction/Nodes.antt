-- ===== src/Extraction/Nodes.antt =====
-- The nodes and edges that extractors report besides those of Nodes
-- (src/core/parsing/types.ts and src/core/contracts/extraction/factCollector.ts).
use logiclens.Shared.{ℕ, String, Bool, Option}

pub data ContractKind : Type 0 where
  package_kind api_kind event_kind dto_kind schema_kind enum_kind config_kind : ContractKind

pub record ContractNode : Type 0 where
  pub id : String
  pub kind : ContractKind
  pub key : String
  pub name : String
  pub description : String

pub record EvidenceNode : Type 0 where
  pub id : String
  pub repo_id : String
  pub file_id : String
  pub file_path : String
  pub line : ℕ
  pub raw : String
  pub rule : String
  pub confidence : ℕ
  pub batch_id : Option String
  pub indexed_at : Option String
  pub active : Option Bool

pub record EntityNode : Type 0 where
  pub id : String
  pub name : String
  pub kind : String
  pub description : String

pub record OperationNode : Type 0 where
  pub id : String
  pub verb : String
  pub entity_name : String
  pub description : String

pub record ContractEntityEdge : Type 0 where
  pub contract_id : String
  pub entity_id : String
  pub evidence_id : String
  pub confidence : ℕ
  pub batch_id : Option String
  pub active : Option Bool

pub record OperationRepoEdge : Type 0 where
  pub operation_id : String
  pub repo_id : String
  pub role : String
  pub evidence_id : String
  pub confidence : ℕ
  pub batch_id : Option String
  pub active : Option Bool

pub record ContractSpecEdge : Type 0 where
  pub contract_id : String
  pub spec_id : String
  pub evidence_id : String
  pub confidence : ℕ
  pub batch_id : Option String
  pub active : Option Bool

pub record PackageUsageEntry : Type 0 where
  pub repo_id : String
  pub package_contract_id : String
  pub package_name : String
  pub evidence_id : String
  pub raw : String
  pub confidence : ℕ

-- ===== src/Tests.antt =====
-- Two specs of every kind, their payloads, and the theorems at them.
pub mod Grpc
pub mod Graphql
pub mod Dubbo
pub mod Event
pub mod Http
pub mod Graph
pub mod Whole
pub mod Extraction
pub mod Registry
pub mod Schema
pub mod Indexing
pub mod Analysis
pub mod Keys
pub mod Source
use logiclens.Shared.{String, Option, none, some, str_eq, if◌then◌else◌}
use logiclens.Nodes.{ContractSpecNode, SpecKind}

-- A spec of a repository with a payload.
abbrev pub spec_of : SpecKind → String → String → String → ContractSpecNode
spec_of kind id repo json = record {
  id = id;
  contract_id = "contract";
  spec_kind = kind;
  repo_id = repo;
  file_id = "file";
  evidence_id = "evidence";
  source_symbol_id = some "handler";
  canonical_key = "query:orders";
  http_method = none;
  path_template = none;
  event_topic = some "orders";
  framework = none;
  version = none;
  spec_json = json;
  confidence = 90;
  batch_id = none;
  indexed_at = none;
  active = none;
}

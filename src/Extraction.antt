-- ===== src/Extraction.antt =====
-- The builder that extractors write into, and the facts that it returns
-- (src/core/contracts/extraction/extractionBuilder.ts and contracts.ts).
pub mod Nodes
pub mod Dedup
use mathlib.Core.List.Memᴰ
use logiclens.Shared.{String, List, [], ◌∷◌, ◌++◌, Memᴰ}
use logiclens.Nodes.{ContractSpecNode, RepoContractEdge, SemanticRelationEdge}
use Nodes.{
  ContractNode, EvidenceNode, EntityNode, OperationNode, ContractEntityEdge, OperationRepoEdge,
  PackageUsageEntry, ContractSpecEdge,
}
use Dedup.{
  dedup_by, dedup_by_last, repo_contract_dedup_key, contract_entity_dedup_key,
  operation_repo_dedup_key, package_usage_dedup_key, contract_spec_edge_dedup_key,
  semantic_relation_dedup_key,
}

-- The lists of the builder, and those of the facts: they have the same fields.
pub record ExtractedFacts : Type 0 where
  pub contracts : List ContractNode
  pub evidence : List EvidenceNode
  pub entities : List EntityNode
  pub operations : List OperationNode
  pub repo_contracts : List RepoContractEdge
  pub contract_entities : List ContractEntityEdge
  pub operation_repos : List OperationRepoEdge
  pub package_usages : List PackageUsageEntry
  pub contract_specs : List ContractSpecNode
  pub contract_spec_edges : List ContractSpecEdge
  pub semantic_relations : List SemanticRelationEdge

abbrev pub ExtractionBuilder : Type 0
ExtractionBuilder = ExtractedFacts

abbrev pub empty : ExtractionBuilder
empty = record {
  contracts = [];
  evidence = [];
  entities = [];
  operations = [];
  repo_contracts = [];
  contract_entities = [];
  operation_repos = [];
  package_usages = [];
  contract_specs = [];
  contract_spec_edges = [];
  semantic_relations = [];
}

abbrev pub add_contract : ContractNode → ExtractionBuilder → ExtractionBuilder
add_contract x b = record b { contracts = b.contracts ++ x ∷ [] }

abbrev pub add_evidence : EvidenceNode → ExtractionBuilder → ExtractionBuilder
add_evidence x b = record b { evidence = b.evidence ++ x ∷ [] }

abbrev pub add_entity : EntityNode → ExtractionBuilder → ExtractionBuilder
add_entity x b = record b { entities = b.entities ++ x ∷ [] }

abbrev pub add_operation : OperationNode → ExtractionBuilder → ExtractionBuilder
add_operation x b = record b { operations = b.operations ++ x ∷ [] }

abbrev pub add_repo_contract : RepoContractEdge → ExtractionBuilder → ExtractionBuilder
add_repo_contract x b = record b { repo_contracts = b.repo_contracts ++ x ∷ [] }

abbrev pub add_contract_entity : ContractEntityEdge → ExtractionBuilder → ExtractionBuilder
add_contract_entity x b = record b { contract_entities = b.contract_entities ++ x ∷ [] }

abbrev pub add_operation_repo : OperationRepoEdge → ExtractionBuilder → ExtractionBuilder
add_operation_repo x b = record b { operation_repos = b.operation_repos ++ x ∷ [] }

abbrev pub add_package_usage : PackageUsageEntry → ExtractionBuilder → ExtractionBuilder
add_package_usage x b = record b { package_usages = b.package_usages ++ x ∷ [] }

abbrev pub add_contract_spec : ContractSpecNode → ExtractionBuilder → ExtractionBuilder
add_contract_spec x b = record b { contract_specs = b.contract_specs ++ x ∷ [] }

abbrev pub add_contract_spec_edge : ContractSpecEdge → ExtractionBuilder → ExtractionBuilder
add_contract_spec_edge x b = record b { contract_spec_edges = b.contract_spec_edges ++ x ∷ [] }

abbrev pub add_semantic_relation : SemanticRelationEdge → ExtractionBuilder → ExtractionBuilder
add_semantic_relation x b = record b { semantic_relations = b.semantic_relations ++ x ∷ [] }

-- dedupById(items)
abbrev pub dedup_by_id {ℓ} : {T : Type ℓ} → (T → String) → List T → List T
dedup_by_id id items = dedup_by id items

unfoldable pub build : ExtractionBuilder → ExtractedFacts
build b = record {
  contracts = dedup_by_id (λ (x : ContractNode). x.id) b.contracts;
  evidence = dedup_by_id (λ (x : EvidenceNode). x.id) b.evidence;
  entities = dedup_by_id (λ (x : EntityNode). x.id) b.entities;
  operations = dedup_by_id (λ (x : OperationNode). x.id) b.operations;
  repo_contracts = dedup_by repo_contract_dedup_key b.repo_contracts;
  contract_entities = dedup_by contract_entity_dedup_key b.contract_entities;
  operation_repos = dedup_by operation_repo_dedup_key b.operation_repos;
  package_usages = dedup_by package_usage_dedup_key b.package_usages;
  contract_specs = dedup_by_id (λ (x : ContractSpecNode). x.id) b.contract_specs;
  contract_spec_edges = dedup_by contract_spec_edge_dedup_key b.contract_spec_edges;
  semantic_relations = dedup_by semantic_relation_dedup_key b.semantic_relations;
}

-- The spec that was added last is among the facts, and so is the relation that was.
pub build-add :
    (b : ExtractionBuilder) (s : ContractSpecNode) (r : SemanticRelationEdge)
    → Memᴰ s (build (add_semantic_relation r (add_contract_spec s b))).contract_specs
      × Memᴰ r (build (add_semantic_relation r (add_contract_spec s b))).semantic_relations
unfolding build
build-add b s r = (
  dedup_by_last (λ (x : ContractSpecNode). x.id) b.contract_specs [] s
      (λ y m. absurd (Memᴰ.not-nil m)),
  dedup_by_last semantic_relation_dedup_key b.semantic_relations [] r
      (λ y m. absurd (Memᴰ.not-nil m)),
)

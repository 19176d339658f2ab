-- ===== src/Resolver.antt =====
-- The resolver of semantic relations: roles of the specs, the resolvers of every domain, and the
-- edges that are left (src/core/contracts/resolver.ts).
pub mod Laws
pub mod Schemas
use logiclens.Shared.{
  ℕ, String, Bool, ◌&&◌, Option, none, some, List, [], ◌++◌, str_eq, ltb, is_empty, find, bucket,
  insert, group_by, get_or_else, for_each, keep_best, values, if◌then◌else◌, ◌>>=◌,
}
use logiclens.Nodes.{
  ContractSpecNode, RepoContractEdge, ContractRole, shared, SemanticRelationEdge, edge_key,
}
use logiclens.Specs.{Services}
use logiclens.Matching.Schema.{resolve_schema_relations}
use logiclens.Matching.Roles.{SpecRoleMap, role_key}
use logiclens.Matching.Http.Resolve.{resolve_http_relations}
use logiclens.Matching.Event.{resolve_event_relations}
use logiclens.Matching.Grpc.{resolve_grpc_relations}
use logiclens.Matching.Dubbo.{resolve_dubbo_relations}
use logiclens.Matching.Graphql.{resolve_graphql_relations}
use logiclens.Matching.Internal.{resolve_internal_call_relations}

pub record ResolveSemanticRelationsInput : Type 0 where
  pub contract_specs : List ContractSpecNode
  pub repo_contracts : List RepoContractEdge
  pub existing_semantic_relations : List SemanticRelationEdge

-- match?.role ?? "shared"
abbrev pub role_or_shared : Option RepoContractEdge → ContractRole
role_or_shared none = shared
role_or_shared (some e) = e.role

unfoldable pub build_spec_role_map : List ContractSpecNode → List RepoContractEdge → SpecRoleMap
build_spec_role_map specs contracts =
    let by_contract_id = group_by (λ (e : RepoContractEdge). e.contract_id) contracts in
    for_each specs
      (λ s. insert (role_key s) (
        role_or_shared (
          find (λ (e : RepoContractEdge). str_eq e.repo_id s.repo_id)
            (bucket s.contract_id by_contract_id))))
      []

abbrev pub is_surer : SemanticRelationEdge → SemanticRelationEdge → Bool
is_surer edge existing = ltb existing.confidence edge.confidence

unfoldable pub deduplicate_edges : List SemanticRelationEdge → List SemanticRelationEdge
deduplicate_edges edges = values (keep_best edge_key is_surer edges)

module _ (services : Services) where
  -- The edges of all domains, in their order.
  unfoldable pub all_edges :
      List ContractSpecNode
      → SpecRoleMap
      → List SemanticRelationEdge
      → Option (List SemanticRelationEdge)
  all_edges specs roles existing = do
    http_edges ← resolve_http_relations services.parse_http specs roles
    event_edges ← resolve_event_relations services.parse_event specs roles
    grpc_edges ← resolve_grpc_relations services.parse_grpc specs roles
    dubbo_edges ← resolve_dubbo_relations services.lowercase services.parse_dubbo specs roles
    some (
        http_edges
        ++ event_edges
        ++ resolve_schema_relations services specs roles existing
        ++ grpc_edges
        ++ dubbo_edges
        ++ resolve_graphql_relations specs roles
        ++ resolve_internal_call_relations specs roles)

  unfoldable pub resolve_semantic_relations :
      ResolveSemanticRelationsInput → Option (List SemanticRelationEdge)
  unfolding all_edges deduplicate_edges build_spec_role_map
  resolve_semantic_relations input = if is_empty input.contract_specs then some [] else do
    edges ←
        all_edges input.contract_specs
          (build_spec_role_map input.contract_specs input.repo_contracts)
          input.existing_semantic_relations
    some (deduplicate_edges edges)

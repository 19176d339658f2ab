-- ===== src/Matching/Graphql.antt =====
-- GraphQL relations (src/core/contracts/matching/graphqlResolver.ts): consumers and producers with
-- the same canonical key.
pub mod Laws
use logiclens.Shared.{String, ◌||◌, none, List, [], ◌∷◌, str_eq, template, is_empty, if◌then◌else◌}
use logiclens.Nodes.{ContractSpecNode, graphql_operation, calls_graphql, SemanticRelationEdge}
use logiclens.Confidence.{confidence_for, exact_graphql_match}
use logiclens.Matching.Roles.{SpecRoleMap, Parts, split_by_role}
use logiclens.Matching.Links.{pair_up, nothing}
use logiclens.Matching.Pairs.{across}

pub graphql_edge : ContractSpecNode → ContractSpecNode → SemanticRelationEdge
graphql_edge c p = record {
  from_spec_id = c.id;
  to_spec_id = p.id;
  kind = calls_graphql;
  evidence_id = c.evidence_id;
  reason = template ("GraphQL operation match: " ∷ c.canonical_key ∷ []);
  confidence = confidence_for exact_graphql_match;
  batch_id = none;
  active = none;
}

-- the body of the inner loop
link : ContractSpecNode → ContractSpecNode → List SemanticRelationEdge
link c p = across c p (if str_eq c.canonical_key p.canonical_key then graphql_edge c p ∷ [] else [])

pair_parts : Parts → List SemanticRelationEdge
unfolding link
pair_parts parts =
    if is_empty parts.producers || is_empty parts.consumers
    then []
    else (pair_up (λ c. parts.producers) link parts.consumers nothing).edges

unfoldable pub resolve_graphql_relations :
    List ContractSpecNode → SpecRoleMap → List SemanticRelationEdge
unfolding pair_parts graphql_edge
resolve_graphql_relations specs roles = pair_parts (split_by_role graphql_operation roles specs)

-- ===== src/Matching/Frame.antt =====
-- The frame of the resolvers that parse their payloads (grpcResolver.ts and dubboResolver.ts under
-- src/core/contracts/matching): split by role, parse, pair up. What differs between them is which
-- producers a consumer is held against, and the edges of one pair.
pub mod Laws
use logiclens.Shared.{
  String, Bool, ◌||◌, Option, none, some, List, [], is_empty, if◌then◌else◌, ◌>>=◌,
}
use logiclens.Nodes.{ContractSpecNode, SpecKind, SemanticRelationEdge}
use logiclens.Specs.{Parsed, parse_all}
use logiclens.Matching.Roles.{SpecRoleMap, Parts, split_by_role}
use logiclens.Matching.Links.{pair_up, nothing}

module _ {S : Type 0} (parse : String → Option S) (kind : SpecKind)
    (candidates : List (Parsed S) → Parsed S → List (Parsed S))
    (link : Parsed S → Parsed S → List SemanticRelationEdge) where
  -- The consumers are parsed before the pairing and not within it: a text that does not parse ends
  -- the call either way, and the call has no other effect.
  pair_parts : Parts → Option (List SemanticRelationEdge)
  pair_parts parts = if is_empty parts.producers || is_empty parts.consumers then some [] else do
    producers ← parse_all parse parts.producers
    consumers ← parse_all parse parts.consumers
    some (pair_up (candidates producers) link consumers nothing).edges

  unfoldable pub resolve_pairs :
      List ContractSpecNode → SpecRoleMap → Option (List SemanticRelationEdge)
  unfolding pair_parts
  resolve_pairs specs roles = pair_parts (split_by_role kind roles specs)

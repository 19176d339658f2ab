-- ===== src/Matching/Internal.antt =====
-- Internal calls (src/core/contracts/matching/internalCallResolver.ts): from the contracts that a
-- source symbol provides to those that it consumes.
pub mod Laws
use logiclens.Shared.{
  ℕ, String, Bool, true, false, ◌||◌, ◌&&◌, Option, none, some, List, [], ◌∷◌, str_eq, template,
  truthy, get_or_else, filter, for_each, lookup, group_by, StrMap, if◌then◌else◌, min, map,
}
use logiclens.Nodes.{
  ContractSpecNode, SpecKind, http_endpoint, dubbo_method, grpc_method, graphql_operation,
  ContractRole, producer, owner, consumer, internal_call, SemanticRelationEdge,
}
use logiclens.Matching.Roles.{SpecRoleMap, role_key}
use logiclens.Matching.Links.{Emitted, pair_up, nothing}

-- CALLABLE_CONSUMER_KINDS.has(kind)
abbrev pub is_callable : SpecKind → Bool
is_callable http_endpoint = true
is_callable dubbo_method = true
is_callable grpc_method = true
is_callable graphql_operation = true
is_callable _ = false

-- A spec with no role in the map is on neither side.
abbrev is_provider : Option ContractRole → Bool
is_provider (some producer) = true
is_provider (some owner) = true
is_provider _ = false

abbrev is_client : Option ContractRole → Bool
is_client (some consumer) = true
is_client _ = false

-- `${spec.repoId}:${spec.sourceSymbolId}`
abbrev pub symbol_key : ContractSpecNode → String
symbol_key s = template (s.repo_id ∷ ":" ∷ get_or_else s.source_symbol_id "" ∷ [])

abbrev pub is_entry : SpecRoleMap → ContractSpecNode → Bool
is_entry roles s = is_provider (lookup (role_key s) roles)

abbrev pub is_outbound : SpecRoleMap → ContractSpecNode → Bool
is_outbound roles s =
    if is_callable s.spec_kind then is_client (lookup (role_key s) roles) else false

pub internal_edge : ContractSpecNode → ContractSpecNode → SemanticRelationEdge
internal_edge entry call = record {
  from_spec_id = entry.id;
  to_spec_id = call.id;
  kind = internal_call;
  evidence_id = call.evidence_id;
  reason = "Direct contract invocation in parsed source symbol";
  confidence = min entry.confidence call.confidence;
  batch_id = none;
  active = none;
}

-- the body of the inner loop
link : ContractSpecNode → ContractSpecNode → List SemanticRelationEdge
link entry call =
    if str_eq entry.id call.id || str_eq entry.contract_id call.contract_id
    then []
    else internal_edge entry call ∷ []

-- the specs that were read from a symbol, by repository and symbol, with their keys
by_source_symbol : List ContractSpecNode → StrMap (List ContractSpecNode)
by_source_symbol specs = group_by symbol_key (filter (λ s. truthy s.source_symbol_id) specs)

-- one round of the loop over bySourceSymbol.values()
visit : SpecRoleMap → String × List ContractSpecNode → Emitted → Emitted
unfolding link
visit roles (_, colocated) =
    pair_up (λ entry. filter (is_outbound roles) colocated) link (filter (is_entry roles) colocated)

unfoldable pub resolve_internal_call_relations :
    List ContractSpecNode → SpecRoleMap → List SemanticRelationEdge
unfolding by_source_symbol visit internal_edge
resolve_internal_call_relations specs roles =
    (for_each (by_source_symbol specs) (visit roles) nothing).edges

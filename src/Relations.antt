-- ===== src/Relations.antt =====
-- The table of what each kind of relation means, and what is derived from it
-- (src/core/contracts/semanticRelations.ts; the grading of an edge by its reason is left out).
pub mod Laws
use logiclens.Shared.{
  ℕ, String, Bool, true, false, not, ◌&&◌, ◌||◌, Option, none, some, List, [], ◌∷◌, ◌++◌, has,
  filter, is_empty, for_each, ◌==◌, if◌then◌else◌,
}
use logiclens.Nodes.{
  SemanticRelationKind, implements, calls_http, calls_dubbo, calls_grpc, calls_graphql,
  internal_call, publishes_event, subscribes_event, uses_schema, request_schema, response_schema,
  event_payload, compatible_with, breaks, impacts, SemanticRelationEdge,
}

pub data Direction : Type 0 where
  forward reverse : Direction

pub data Category : Type 0 where
  consumer_to_producer schema_to_use execution_flow intra_spec : Category

pub record SemanticRelMeta : Type 0 where
  pub dependency_type : Option String
  pub direction : Direction
  pub category : Category

abbrev call : SemanticRelMeta
call = record { dependency_type = some "api"; direction = forward; category = consumer_to_producer }

abbrev schema_use : SemanticRelMeta
schema_use = record { dependency_type = none; direction = forward; category = schema_to_use }

abbrev within_spec : SemanticRelMeta
within_spec = record { dependency_type = none; direction = forward; category = intra_spec }

unfoldable pub semantic_rel_meta : SemanticRelationKind → SemanticRelMeta
semantic_rel_meta calls_http = call
semantic_rel_meta calls_dubbo = call
semantic_rel_meta calls_grpc = call
semantic_rel_meta calls_graphql = call
semantic_rel_meta internal_call = record {
  dependency_type = none;
  direction = forward;
  category = execution_flow;
}
semantic_rel_meta subscribes_event = record {
  dependency_type = some "event";
  direction = forward;
  category = consumer_to_producer;
}
semantic_rel_meta publishes_event = record {
  dependency_type = some "event";
  direction = reverse;
  category = consumer_to_producer;
}
semantic_rel_meta uses_schema = record {
  dependency_type = some "shared-contract";
  direction = forward;
  category = schema_to_use;
}
semantic_rel_meta request_schema = schema_use
semantic_rel_meta response_schema = schema_use
semantic_rel_meta event_payload = schema_use
semantic_rel_meta implements = within_spec
semantic_rel_meta compatible_with = within_spec
semantic_rel_meta breaks = within_spec
semantic_rel_meta impacts = within_spec

abbrev pub Category_code : Category → ℕ
Category_code consumer_to_producer = 0
Category_code schema_to_use = 1
Category_code execution_flow = 2
Category_code intra_spec = 3

-- meta.category === c
abbrev pub is_category : Category → Category → Bool
is_category a b = Category_code a == Category_code b

abbrev pub is_forward : Direction → Bool
is_forward forward = true
is_forward reverse = false

-- the keys of the table, in its order
abbrev table_kinds : List SemanticRelationKind
table_kinds =
    calls_http ∷ calls_dubbo ∷ calls_grpc ∷ calls_graphql ∷ internal_call ∷ subscribes_event
    ∷ publishes_event ∷ uses_schema ∷ request_schema ∷ response_schema ∷ event_payload ∷ implements
    ∷ compatible_with ∷ breaks ∷ impacts ∷ []

pub derive_kinds : Category → List SemanticRelationKind
unfolding semantic_rel_meta
derive_kinds category =
    filter (λ k. is_category (semantic_rel_meta k).category category) table_kinds

abbrev pub is_dependency : Category → Bool
is_dependency c = is_category c consumer_to_producer || is_category c schema_to_use

-- the end of an edge that others depend on
abbrev pub root_end : SemanticRelationEdge → Direction → String
root_end edge forward = edge.to_spec_id
root_end edge reverse = edge.from_spec_id

-- roots.add(id) of a set
abbrev pub add : String → List String → List String
add id ids = if has ids id then ids else ids ++ id ∷ []

pub add_root : List String → SemanticRelationEdge → List String → List String
unfolding semantic_rel_meta
add_root matched edge roots =
    if not (has matched edge.from_spec_id) || not (has matched edge.to_spec_id)
    then roots
    else let meta = semantic_rel_meta edge.kind in
      if is_dependency meta.category then add (root_end edge meta.direction) roots else roots

unfoldable pub select_impact_root_ids : List String → List SemanticRelationEdge → List String
unfolding add_root
select_impact_root_ids matched relations =
    let roots = for_each relations (add_root matched) [] in
    if is_empty roots then matched else roots

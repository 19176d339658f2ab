-- ===== src/Impact.antt =====
-- The walk over the relations from a changed spec (src/core/contracts/impact/impactEngine.ts).
pub mod Laws
pub mod FieldSearch
pub mod Items
pub mod Rules
pub mod Targets
pub mod Analysis
use logiclens.Shared.{
  ℕ, zero, suc, String, Bool, true, false, not, ◌&&◌, ◌||◌, Option, none, some, List, [], ◌∷◌, ◌++◌,
  str_eq, map, is_empty, for_each, StrMap, lookup, insert, bucket, push_at, if◌then◌else◌,
}
use logiclens.Nodes.{SemanticRelationEdge}
use logiclens.Relations.{
  Direction, forward, reverse, Category, consumer_to_producer, schema_to_use, execution_flow,
  intra_spec, semantic_rel_meta, is_category, is_forward,
}

pub data TraversalMode : Type 0 where
  normal downstream : TraversalMode

pub record ImpactPathStep : Type 0 where
  pub impacted_spec_id : String
  pub edge : SemanticRelationEdge
  pub hop : ℕ

-- m.has(k)
abbrev pub has_key {ℓ} : {V : Type ℓ} → String → StrMap V → Bool
has_key k m = elim (lookup k m) [ none ↦ false | some _ ↦ true ]

unfoldable pub get_impacted_spec_id : SemanticRelationEdge → String → Option String
unfolding semantic_rel_meta
get_impacted_spec_id edge current =
    let meta = semantic_rel_meta edge.kind in
    let downwards = if str_eq edge.from_spec_id current then some edge.to_spec_id else none in
    let upwards = if str_eq edge.to_spec_id current then some edge.from_spec_id else none in
    if is_category meta.category execution_flow
    then downwards
    else if not (is_category meta.category consumer_to_producer)
        && not (is_category meta.category schema_to_use)
    then none
    else if is_forward meta.direction
    then upwards
    else downwards

-- `direct ? [...] : []`: the empty text is false
abbrev pub from_direct : TraversalMode → Option String → List (String × TraversalMode)
from_direct mode none = []
from_direct mode (some id) = if str_eq id "" then [] else (id, mode) ∷ []

unfoldable pub get_impact_step_spec_ids :
    SemanticRelationEdge → String → TraversalMode → List (String × TraversalMode)
unfolding semantic_rel_meta get_impacted_spec_id
get_impact_step_spec_ids edge current downstream =
    let meta = semantic_rel_meta edge.kind in
    if is_category meta.category execution_flow && str_eq edge.from_spec_id current
    then (edge.to_spec_id, downstream) ∷ []
    else if is_category meta.category consumer_to_producer
        && is_forward meta.direction
        && str_eq edge.from_spec_id current
    then (edge.to_spec_id, downstream) ∷ []
    else []
get_impact_step_spec_ids edge current normal =
    let meta = semantic_rel_meta edge.kind in
    from_direct (if is_category meta.category execution_flow then downstream else normal)
      (get_impacted_spec_id edge current)

abbrev pub is_untraversed : Category → Bool
is_untraversed c =
    not (is_category c consumer_to_producer)
    && not (is_category c schema_to_use)
    && not (is_category c execution_flow)

-- An edge under both of its ends, unless its kind is within a spec.
abbrev pub index_edge :
    SemanticRelationEdge → StrMap (List SemanticRelationEdge) → StrMap (List SemanticRelationEdge)
index_edge edge m =
    if is_untraversed (semantic_rel_meta edge.kind).category
    then m
    else push_at edge.to_spec_id edge (push_at edge.from_spec_id edge m)

unfoldable pub relations_by_spec_id : List SemanticRelationEdge → StrMap (List SemanticRelationEdge)
unfolding semantic_rel_meta
relations_by_spec_id relations = for_each relations index_edge []

pub record Next : Type 0 where
  pub next : StrMap TraversalMode
  pub steps : List ImpactPathStep

pub take_step : ℕ → StrMap ℕ → SemanticRelationEdge → String × TraversalMode → Next → Next
take_step hop visited edge (id, mode) st =
    if has_key id visited || has_key id st.next then st else record {
      next = insert id mode st.next;
      steps = st.steps ++ record { impacted_spec_id = id; edge = edge; hop = hop } ∷ [];
    }

-- One spec of the frontier with its edges. The set of edges is the list here: an edge from a spec
-- to itself stands in it twice, and its second round finds its ends in `next` or `visited`.
pub expand :
    ℕ → StrMap ℕ → StrMap (List SemanticRelationEdge) → String × TraversalMode → Next → Next
unfolding take_step
expand hop visited index (current, mode) st =
    for_each (bucket current index)
      (λ edge. for_each (get_impact_step_spec_ids edge current mode) (take_step hop visited edge))
      st

pub record Walk : Type 0 where
  pub visited : StrMap ℕ
  pub steps : List ImpactPathStep
  pub frontier : StrMap TraversalMode

abbrev pub set_hop : ℕ → String × TraversalMode → StrMap ℕ → StrMap ℕ
set_hop hop (id, _) = insert id hop

-- visited.set(id, hop) for the keys of a map
abbrev pub set_all : ℕ → StrMap TraversalMode → StrMap ℕ → StrMap ℕ
set_all hop ids visited = for_each ids (set_hop hop) visited

-- one round of the loop, up to the test for an empty `next`
pub expand_all : ℕ → StrMap (List SemanticRelationEdge) → Walk → Next
unfolding expand
expand_all hop index st =
    for_each st.frontier (expand hop st.visited index) (record { next = []; steps = st.steps })

pub advance : ℕ → Walk → Next → Walk
advance hop st r = record {
  visited = set_all hop r.next st.visited;
  steps = r.steps;
  frontier = r.next;
}

-- The rounds that are left, and the number of the next one. Without `next` the round has made no
-- step, and the loop ends.
pub walk : ℕ → ℕ → StrMap (List SemanticRelationEdge) → Walk → Walk
unfolding expand_all advance
walk zero hop index st = st
walk (suc left) hop index st =
    let r = expand_all hop index st in
    let later = walk left (suc hop) index (advance hop st r) in
    if is_empty r.next then record st { steps = r.steps } else later

-- A set of ids as a map, each at its first place.
abbrev pub start_frontier : List String → StrMap TraversalMode
start_frontier ids = for_each ids (λ id. insert id normal) []

abbrev pub start_walk : List String → Walk
start_walk ids = record {
  visited = set_all 0 (start_frontier ids) [];
  steps = [];
  frontier = start_frontier ids;
}

unfoldable pub traverse_impact_steps :
    List String → List SemanticRelationEdge → ℕ → StrMap ℕ × List ImpactPathStep
unfolding walk relations_by_spec_id
traverse_impact_steps starts relations max_hops =
    let st = walk max_hops 1 (relations_by_spec_id relations) (start_walk starts) in
    (st.visited, st.steps)

-- ===== src/Matching/Http/Resolve.antt =====
-- The search for HTTP matches and the choice among them
-- (src/core/contracts/matching/httpResolver.ts).
pub mod Laws
pub mod Priority
pub mod Search
use logiclens.Shared.{
  ℕ, String, Bool, true, false, not, ◌&&◌, ◌||◌, Option, none, some, List, [], ◌∷◌, ◌++◌, str_eq,
  ltb, length, get_or_else, is_empty, any, map, filter, flat_map, bucket, push_at, group_by, values,
  StrMap, firsts, collect, if◌then◌else◌, ◌>>=◌,
}
use logiclens.Nodes.{
  ContractSpecNode, same_kind, http_endpoint, calls_http, SemanticRelationEdge, edge_key,
}
use logiclens.Specs.{HttpEndpointSpec}
use logiclens.Matching.Roles.{SpecRoleMap, Parts, split_by_role}
use logiclens.Matching.Http.Paths.{bucket_key}
use logiclens.Matching.Http.Classify.{
  HttpMatchKind, exact_method_path, path_only, ClassifiedMatch, classify_http_match,
}

pub record Candidate : Type 0 where
  pub consumer_spec : ContractSpecNode
  pub producer_spec : ContractSpecNode
  pub match_kind : HttpMatchKind
  pub edge : SemanticRelationEdge

pub http_edge : ContractSpecNode → ContractSpecNode → ClassifiedMatch → SemanticRelationEdge
http_edge c p m = record {
  from_spec_id = c.id;
  to_spec_id = p.id;
  kind = calls_http;
  evidence_id = c.evidence_id;
  reason = m.reason;
  confidence = m.confidence;
  batch_id = none;
  active = none;
}

candidates_of : ContractSpecNode → ContractSpecNode → Option ClassifiedMatch → List Candidate
candidates_of c p none = []
candidates_of c p (some m) =
    record { consumer_spec = c; producer_spec = p; match_kind = m.kind; edge = http_edge c p m }
    ∷ []

abbrev pub is_exact : Candidate → Bool
is_exact c = elim c.match_kind [ exact_method_path ↦ true | _ ↦ false ]

abbrev pub is_path_only : Candidate → Bool
is_path_only c = elim c.match_kind [ path_only ↦ true | _ ↦ false ]

-- What is kept of the candidates of a consumer and a repository: the exact ones if there are any,
-- else those of the path alone if there are any, else all.
choose : List Candidate → List Candidate
choose cs =
    if any is_exact cs
    then filter is_exact cs
    else if any is_path_only cs
    then filter is_path_only cs
    else cs

repo_edges : List Candidate → List SemanticRelationEdge
unfolding choose
repo_edges cs = map (λ c. c.edge) (choose cs)

-- the groups of one consumer, by the producers' repositories
consumer_edges : List Candidate → List SemanticRelationEdge
unfolding repo_edges
consumer_edges cs = flat_map repo_edges (values (group_by (λ c. c.producer_spec.repo_id) cs))

-- the last part of the function: candidates with their first key only, grouped and chosen from
final_edges : List Candidate → List SemanticRelationEdge
unfolding consumer_edges
final_edges cs =
    flat_map consumer_edges
      (values (group_by (λ c. c.consumer_spec.id) (firsts (λ c. edge_key c.edge) cs)))

module _ (parse : String → Option HttpEndpointSpec) where
  -- the body of the inner loops, up to the key's test
  try_pair : ContractSpecNode → ContractSpecNode → Option (List Candidate)
  unfolding candidates_of http_edge
  try_pair c p =
      if str_eq c.id p.id then some [] else if str_eq c.repo_id p.repo_id then some [] else do
        from ← parse c.spec_json
        to ← parse p.spec_json
        some (candidates_of c p (classify_http_match from to))

  unfoldable pub try_all : List ContractSpecNode → List ContractSpecNode → Option (List Candidate)
  unfolding try_pair
  try_all consumers producers = collect (λ c. collect (try_pair c) producers) consumers

  -- spec.pathTemplate ?? JSON.parse(spec.specJson).path
  unfoldable pub indexed_path : ContractSpecNode → Option String
  indexed_path s = elim s.path_template [
    | some path ↦ some path
    | none ↦ do spec ← parse s.spec_json; some spec.path
  ]

  unfoldable pub bucket_specs :
      List ContractSpecNode
      → StrMap (List ContractSpecNode)
      → Option (StrMap (List ContractSpecNode))
  unfolding indexed_path
  bucket_specs [] m = some m
  bucket_specs (s ∷ specs) m = do
    path ← indexed_path s
    bucket_specs specs (push_at (bucket_key path) s m)

  -- one round of the loop over the consumers' buckets
  unfoldable pub try_bucket :
      StrMap (List ContractSpecNode) → String × List ContractSpecNode → Option (List Candidate)
  unfolding try_all
  try_bucket producer_buckets (key, consumers) =
      try_all consumers (
        bucket key producer_buckets ++ (if str_eq key "*" then [] else bucket "*" producer_buckets))

  -- the consumers that begin with a template, against every bucket of producers
  unfoldable pub try_wildcards :
      StrMap (List ContractSpecNode) → StrMap (List ContractSpecNode) → Option (List Candidate)
  unfolding try_all
  try_wildcards producer_buckets consumer_buckets =
      collect (λ e. try_all (bucket "*" consumer_buckets) e.1) producer_buckets

  match_parts : Parts → Option (List SemanticRelationEdge)
  unfolding bucket_specs try_bucket try_wildcards final_edges
  match_parts parts = if is_empty parts.producers || is_empty parts.consumers then some [] else do
    producer_buckets ← bucket_specs parts.producers []
    consumer_buckets ← bucket_specs parts.consumers []
    same ← collect (try_bucket producer_buckets) consumer_buckets
    wild ← try_wildcards producer_buckets consumer_buckets
    some (final_edges (same ++ wild))

  -- The split runs over the HTTP specs only, as the test of the kind in it does.
  unfoldable pub resolve_http_relations :
      List ContractSpecNode → SpecRoleMap → Option (List SemanticRelationEdge)
  unfolding match_parts
  resolve_http_relations specs roles =
      if ltb (length (filter (λ s. same_kind s.spec_kind http_endpoint) specs)) 2
      then some []
      else match_parts (split_by_role http_endpoint roles specs)

-- ===== src/Tests/Whole.antt =====
-- The resolver of all domains at two repositories.
use mathlib.Core.List.Memᴰ
use logiclens.Shared.{
  ◌≤◌, none, some, List, [], ◌∷◌, map, Memᴰ, ◌≡◌, refl, inl, inr, ap, ◌∙◌, sym, IsDistinct,
}
use logiclens.Nodes.{
  ContractSpecNode, RepoContractEdge, grpc_method, producer, consumer, graphql_operation,
  SemanticRelationEdge, edge_key, calls_http,
}
use logiclens.Specs.{Services, GrpcMethodSpec, Parsed, parse_all}
use logiclens.Matching.Roles.{SpecRoleMap, split_by_role, role_key, role_of}
use logiclens.Matching.Pairs.{ne_of_str_eq}
use logiclens.Matching.Frame.{resolve_pairs}
use logiclens.Matching.Links.{pair_up, emit}
use logiclens.Matching.Links.Lists.{emit_all}
use logiclens.Matching.Http.Resolve.{resolve_http_relations}
use logiclens.Matching.Event.{resolve_event_relations}
use logiclens.Matching.Grpc.{grpc_edge, resolve_grpc_relations}
use logiclens.Matching.Grpc.Laws.{IsGrpcCall}
use logiclens.Matching.Dubbo.{resolve_dubbo_relations}
use logiclens.Matching.Graphql.{graphql_edge, resolve_graphql_relations}
use logiclens.Matching.Graphql.Laws.{IsGraphqlCall}
use logiclens.Matching.Internal.{resolve_internal_call_relations}
use logiclens.Matching.Schema.{resolve_schema_relations, build_schema_index, schema_key}
use logiclens.Resolver.{
  ResolveSemanticRelationsInput, build_spec_role_map, deduplicate_edges, all_edges,
  resolve_semantic_relations,
}
use logiclens.Resolver.Laws.{
  declared_role, build_spec_role_map_lem, deduplicate_edges_covers,
  resolve_semantic_relations-IsDistinct, resolve_semantic_relations-grpc,
}
use logiclens.Tests.{spec_of}
use logiclens.Tests.Grpc.{parse_grpc, grpc_spec}

abbrev services : Services
services = record {
  parse_http = λ t. none;
  parse_event = λ t. none;
  parse_grpc = parse_grpc;
  parse_dubbo = λ t. none;
  lowercase = λ t. t;
  parse_schema = λ t. none;
  parse_graphql = λ t. none;
}

abbrev shop : ContractSpecNode
shop = spec_of grpc_method "s1" "shop" "orders"

abbrev web : ContractSpecNode
web = spec_of grpc_method "s2" "web" "orders"

abbrev shop_query : ContractSpecNode
shop_query = spec_of graphql_operation "s3" "shop" ""

abbrev web_query : ContractSpecNode
web_query = spec_of graphql_operation "s4" "web" ""

abbrev uses : RepoContractEdge
uses = record {
  repo_id = "web";
  contract_id = "contract";
  role = consumer;
  evidence_id = "evidence";
  confidence = 90;
  batch_id = none;
  active = none;
}

abbrev contracts : List RepoContractEdge
contracts = record uses { repo_id = "shop"; role = producer } ∷ uses ∷ []

abbrev input : ResolveSemanticRelationsInput
input = record {
  contract_specs = web ∷ shop ∷ web_query ∷ shop_query ∷ [];
  repo_contracts = contracts;
  existing_semantic_relations = [];
}

abbrev roles : SpecRoleMap
roles = build_spec_role_map input.contract_specs contracts

abbrev of_web : Parsed GrpcMethodSpec
of_web = record { node = web; spec = grpc_spec }

abbrev of_shop : Parsed GrpcMethodSpec
of_shop = record { node = shop; spec = grpc_spec }

abbrev edges : List SemanticRelationEdge
edges = grpc_edge of_web of_shop ∷ graphql_edge web_query shop_query ∷ []

returned : resolve_semantic_relations services input ≡ some edges
unfolding resolve_schema_relations build_schema_index schema_key resolve_semantic_relations
    all_edges deduplicate_edges build_spec_role_map resolve_http_relations resolve_event_relations
    resolve_grpc_relations resolve_dubbo_relations resolve_graphql_relations
    resolve_internal_call_relations resolve_pairs split_by_role parse_all pair_up emit emit_all
returned = refl

is_grpc_call : IsGrpcCall parse_grpc input.contract_specs roles of_web of_shop
unfolding build_spec_role_map
is_grpc_call = record {
  consumer = record { listed = Memᴰ.head refl; role = refl; read = refl };
  producer = record { listed = Memᴰ.tail (Memᴰ.head refl); role = refl; read = refl };
  apart = record { ids = ne_of_str_eq _ _ refl; repos = ne_of_str_eq _ _ refl };
  service = refl;
  method = refl;
}

is_graphql_call : IsGraphqlCall input.contract_specs roles web_query shop_query
unfolding build_spec_role_map
is_graphql_call = record {
  consumer = Memᴰ.tail (Memᴰ.tail (Memᴰ.head refl));
  consumes_it = refl;
  producer = Memᴰ.tail (Memᴰ.tail (Memᴰ.tail (Memᴰ.head refl)));
  produces_it = refl;
  apart = record { ids = ne_of_str_eq _ _ refl; repos = ne_of_str_eq _ _ refl };
  key = refl;
}

resolve_semantic_relations-grpc_example :
    (e : SemanticRelationEdge) × Memᴰ e edges × (edge_key e ≡ edge_key (grpc_edge of_web of_shop))
resolve_semantic_relations-grpc_example =
    resolve_semantic_relations-grpc services input returned of_web of_shop is_grpc_call

resolve_semantic_relations-IsDistinct_example : IsDistinct (map edge_key edges)
resolve_semantic_relations-IsDistinct_example =
    resolve_semantic_relations-IsDistinct services input returned

abbrev sure : SemanticRelationEdge
sure = record {
  from_spec_id = "a";
  to_spec_id = "b";
  kind = calls_http;
  evidence_id = "evidence";
  reason = "";
  confidence = 90;
  batch_id = none;
  active = none;
}

abbrev unsure_and_sure : List SemanticRelationEdge
unsure_and_sure = record sure { confidence = 40 } ∷ sure ∷ []

deduplicate_edges_covers_example :
    (e : SemanticRelationEdge) × Memᴰ e (deduplicate_edges unsure_and_sure)
    × Memᴰ e unsure_and_sure
    × (edge_key e ≡ edge_key sure)
    × ((x : SemanticRelationEdge)
        → Memᴰ x unsure_and_sure
        → edge_key x ≡ edge_key sure
        → x.confidence ≤ e.confidence)
    × ((x : SemanticRelationEdge)
        → Memᴰ x (deduplicate_edges unsure_and_sure)
        → edge_key x ≡ edge_key sure
        → x ≡ e)
deduplicate_edges_covers_example =
    deduplicate_edges_covers unsure_and_sure sure (Memᴰ.tail (Memᴰ.head refl))

-- Of two specs, one of each repository.
keys_apart :
    (t : ContractSpecNode)
    → Memᴰ t (web ∷ shop ∷ [])
    → role_key t ≡ role_key web
    → (t.contract_id ≡ web.contract_id) × (t.repo_id ≡ web.repo_id)
keys_apart t m e = elim (Memᴰ.cases_cons m) [
  | inl is_web ↦ rw is_web (refl, refl)
  | inr n ↦ absurd (
      ne_of_str_eq (role_key shop) (role_key web) refl
        (ap role_key (sym (Memᴰ.eq_of_singleton n)) ∙ e))
]

build_spec_role_map_lem_example :
    role_of (build_spec_role_map (web ∷ shop ∷ []) contracts) web ≡ declared_role contracts web
build_spec_role_map_lem_example =
    build_spec_role_map_lem (web ∷ shop ∷ []) contracts web (Memᴰ.head refl) keys_apart

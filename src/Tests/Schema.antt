-- ===== src/Tests/Schema.antt =====
-- An endpoint that takes an order, and the schemas of orders in two repositories.
use mathlib.Core.List.Memᴰ
use logiclens.Shared.{
  String, true, false, Option, none, some, List, [], ◌∷◌, Memᴰ, ◌≡◌, refl, sym, ap, subst, ◌∙◌, inl,
  inr, str_eq, if◌then◌else◌, ◌≢◌, IsDistinct,
}
use logiclens.Nodes.{
  ContractSpecNode, http_endpoint, schema, SemanticRelationEdge, edge_key, uses_schema,
}
use logiclens.Specs.{Services, SchemaSpec, HttpEndpointSpec, parse_all}
use logiclens.Matching.Roles.{split_by_role}
use logiclens.Matching.Pairs.{ne_of_str_eq}
use logiclens.Matching.Frame.{resolve_pairs}
use logiclens.Matching.Links.{pair_up, emit}
use logiclens.Matching.Links.Lists.{emit_all, emit_each}
use logiclens.Matching.Schema.{
  field_edges, schema_key, build_schema_index, lookup_schema_id, http_edges, grpc_edges,
  graphql_edges, event_edges, ref_edges, pending_edges, pending_contract, resolved_from_spec_ids,
  resolve_http_schema_relations, resolve_grpc_schema_relations, resolve_graphql_schema_relations,
  resolve_event_payload_relations, resolve_pending_schema_refs, resolve_schema_relations,
}
use logiclens.Matching.Schema.Lookup.{
  IsNamed, IsChosen, lookup_schema_id_complete, lookup_schema_id-ambiguous,
}
use logiclens.Matching.Schema.Laws.{IsSchemaEdge, resolve_schema_sound}
use logiclens.Matching.Schema.Reaches.{IsRequestSchema, request_edge}
use logiclens.Matching.Http.Resolve.{resolve_http_relations}
use logiclens.Matching.Event.{resolve_event_relations}
use logiclens.Matching.Grpc.{resolve_grpc_relations}
use logiclens.Matching.Dubbo.{resolve_dubbo_relations}
use logiclens.Matching.Graphql.{resolve_graphql_relations}
use logiclens.Matching.Internal.{resolve_internal_call_relations}
use logiclens.Resolver.{
  ResolveSemanticRelationsInput, build_spec_role_map, deduplicate_edges, all_edges,
  resolve_semantic_relations,
}
use logiclens.Resolver.Schemas.{resolve_semantic_relations-schema}
use logiclens.Tests.{spec_of}

abbrev parse_schema : String → Option SchemaSpec
parse_schema t =
    if str_eq t "Order"
    then some (record { name = "Order"; language = "ts"; fields = [] })
    else if str_eq t "ORDER"
    then some (record { name = "ORDER"; language = "ts"; fields = [] })
    else none

abbrev post : HttpEndpointSpec
post = record {
  method = some "POST";
  path = "/orders";
  path_template = "/orders";
  path_params = [];
  request_body_type = some "Order";
  response_body_type = none;
  declared_response_type = none;
}

abbrev services : Services
services = record {
  parse_http = λ t. if str_eq t "post" then some post else none;
  parse_event = λ t. none;
  parse_schema = parse_schema;
  parse_grpc = λ t. none;
  parse_dubbo = λ t. none;
  parse_graphql = λ t. none;
  lowercase = λ t. if str_eq t "Order" then "order" else if str_eq t "ORDER" then "order" else t;
}

abbrev endpoint : ContractSpecNode
endpoint = spec_of http_endpoint "s1" "shop" "post"

abbrev order : ContractSpecNode
order = spec_of schema "s2" "shop" "Order"

-- of another repository, with the name in another case
abbrev shouted : ContractSpecNode
shouted = spec_of schema "s3" "web" "ORDER"

abbrev specs : List ContractSpecNode
specs = endpoint ∷ order ∷ shouted ∷ []

-- an extractor's reference from the shouted schema to the other
abbrev waiting : SemanticRelationEdge
waiting = record {
  from_spec_id = "spec:contract:pending";
  to_spec_id = "schema-ref:Order";
  kind = uses_schema;
  evidence_id = "evidence";
  reason = "extends";
  confidence = 90;
  batch_id = none;
  active = none;
}

ids_differ : {a b : ContractSpecNode} → str_eq a.id b.id ≡ false → a ≢ b
ids_differ {a} {b} h e = ne_of_str_eq a.id b.id h (λ i. (e i).id)

distinct : IsDistinct specs
distinct = (
  λ m. elim (Memᴰ.cases_cons m) [
    | inl e ↦ ids_differ refl e
    | inr n ↦ ids_differ refl (Memᴰ.eq_of_singleton n)
  ],
  ((λ m. ids_differ refl (Memᴰ.eq_of_singleton m)), (Memᴰ.not-nil, tt)),
)

resolved_order :
    lookup_schema_id services (build_schema_index services specs) "Order" (some endpoint)
    ≡ some "s2"
unfolding lookup_schema_id build_schema_index schema_key
resolved_order = refl

returned :
    resolve_schema_relations services specs [] (waiting ∷ [])
    ≡ request_edge endpoint "Order" order
      ∷ record waiting { from_spec_id = "s1"; to_spec_id = "s2" }
      ∷ record waiting { from_spec_id = "s3"; to_spec_id = "s2" }
      ∷ []
unfolding resolve_schema_relations resolve_http_schema_relations resolve_grpc_schema_relations
    resolve_graphql_schema_relations resolve_event_payload_relations resolve_pending_schema_refs
    http_edges grpc_edges graphql_edges event_edges pending_edges ref_edges pending_contract
    resolved_from_spec_ids field_edges lookup_schema_id build_schema_index schema_key emit_each emit
    request_edge
returned = refl

order-IsNamed : IsNamed services specs "Order" order
order-IsNamed = record {
  listed = Memᴰ.tail (Memᴰ.head refl);
  kind = refl;
  own = "Order";
  read = refl;
  full = refl;
  same = refl;
}

order-IsChosen : IsChosen services specs "Order" (some endpoint) order
order-IsChosen = record {
  named = order-IsNamed;
  exact_first = λ t n h. refl;
  near_first = λ t n e h. refl;
  alone = λ t n e f. elim (Memᴰ.cases_cons n.listed) [
    | inl is_endpoint ↦
        let clash : http_endpoint ≡ schema =
          ap (λ (u : ContractSpecNode). u.spec_kind) (sym is_endpoint) ∙ n.kind in
        absurd (endpoint_no_schema clash)
    | inr m ↦ elim (Memᴰ.cases_cons m) [
      | inl is_order ↦ is_order
      | inr k ↦
          let far : false ≡ true =
            ap (λ (u : ContractSpecNode). str_eq u.repo_id "shop") (sym (Memᴰ.eq_of_singleton k))
            ∙ f in
          cc
    ]
  ];
}
  where
    endpoint_no_schema : http_endpoint ≡ schema → ⊥
    endpoint_no_schema h = cc

lookup_schema_id_complete_example :
    lookup_schema_id services (build_schema_index services specs) "Order" (some endpoint)
    ≡ some "s2"
lookup_schema_id_complete_example =
    lookup_schema_id_complete services specs "Order" (some endpoint) distinct order order-IsChosen

-- A second schema of the same name in the same repository.
abbrev rival : ContractSpecNode
rival = spec_of schema "s4" "shop" "Order"

abbrev rivals : List ContractSpecNode
rivals = rival ∷ specs

rival-IsNamed : IsNamed services rivals "Order" rival
rival-IsNamed = record {
  listed = Memᴰ.head refl;
  kind = refl;
  own = "Order";
  read = refl;
  full = refl;
  same = refl;
}

order_among : IsNamed services rivals "Order" order
order_among = record {
  listed = Memᴰ.tail (Memᴰ.tail (Memᴰ.head refl));
  kind = refl;
  own = "Order";
  read = refl;
  full = refl;
  same = refl;
}

lookup_schema_id-ambiguous_example :
    lookup_schema_id services (build_schema_index services rivals) "Order" (some endpoint) ≡ none
lookup_schema_id-ambiguous_example =
    lookup_schema_id-ambiguous services rivals "Order" (some endpoint) order rival
      (record { named = order_among; exact_first = λ t n e. refl; near_first = λ t n e f. refl })
      (record { named = rival-IsNamed; exact_first = λ t n e. refl; near_first = λ t n e f. refl })
      (ids_differ refl)

resolve_schema_sound_example :
    IsSchemaEdge services specs (waiting ∷ []) (request_edge endpoint "Order" order)
resolve_schema_sound_example =
    resolve_schema_sound services specs (waiting ∷ []) [] (request_edge endpoint "Order" order)
      (subst (Memᴰ (request_edge endpoint "Order" order)) (sym returned) (Memᴰ.head refl))

is_request : IsRequestSchema services specs endpoint "Order" order
is_request = record {
  distinct = distinct;
  listed = Memᴰ.head refl;
  kind = refl;
  payload = post;
  read = refl;
  field = refl;
  full = refl;
  chosen = order-IsChosen;
  full_id = refl;
}

abbrev input : ResolveSemanticRelationsInput
input = record { contract_specs = specs; repo_contracts = []; existing_semantic_relations = [] }

all_returned :
    resolve_semantic_relations services input ≡ some (request_edge endpoint "Order" order ∷ [])
unfolding resolve_semantic_relations all_edges deduplicate_edges build_spec_role_map
    resolve_http_relations resolve_event_relations resolve_grpc_relations resolve_dubbo_relations
    resolve_graphql_relations resolve_internal_call_relations resolve_pairs split_by_role parse_all
    pair_up emit emit_all resolve_schema_relations resolve_http_schema_relations
    resolve_grpc_schema_relations resolve_graphql_schema_relations resolve_event_payload_relations
    resolve_pending_schema_refs http_edges grpc_edges graphql_edges event_edges field_edges
    lookup_schema_id build_schema_index schema_key emit_each request_edge
all_returned = refl

resolve_semantic_relations-schema_example :
    (e : SemanticRelationEdge) × Memᴰ e (request_edge endpoint "Order" order ∷ [])
    × (edge_key e ≡ edge_key (request_edge endpoint "Order" order))
resolve_semantic_relations-schema_example =
    resolve_semantic_relations-schema services input all_returned endpoint "Order" order is_request

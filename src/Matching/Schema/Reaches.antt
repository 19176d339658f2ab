-- ===== src/Matching/Schema/Reaches.antt =====
-- That the schemas of endpoints are found.
use mathlib.Core.List.Memᴰ
use logiclens.Shared.{
  String, false, some, List, [], ◌∷◌, ◌++◌, Memᴰ, ◌≡◌, refl, is_empty, mem-unless, template, str_eq,
  IsDistinct,
}
use logiclens.Nodes.{
  ContractSpecNode, http_endpoint, SemanticRelationEdge, request_schema, response_schema, edge_key,
}
use logiclens.Confidence.{confidence_for, heuristic_request_body_type, heuristic_response_body_type}
use logiclens.Specs.{Services, HttpEndpointSpec}
use logiclens.Matching.Roles.{SpecRoleMap}
use logiclens.Matching.Links.Lists.{emit_each_complete}
use logiclens.Matching.Schema.{
  schema_edge, field_edges, SchemaIndex, build_schema_index, lookup_schema_id, look_from,
  http_edges, resolve_http_schema_relations, resolve_schema_relations,
}
use logiclens.Matching.Schema.Lookup.{IsChosen, lookup_schema_id_complete}
use logiclens.Matching.Schema.Laws.{field_edges-mem, of_kind-mem}

-- The edge from an endpoint to the schema of its request.
unfoldable pub request_edge : ContractSpecNode → String → ContractSpecNode → SemanticRelationEdge
request_edge from t to =
    schema_edge request_schema (template ("@RequestBody type " ∷ t ∷ []))
      (confidence_for heuristic_request_body_type) from to.id

-- An endpoint of the input, the name of its request's type, and the schema chosen for the name.
pub record IsRequestSchema (services : Services) (specs : List ContractSpecNode)
    (from : ContractSpecNode) (t : String) (to : ContractSpecNode) : Type 0 where
  pub distinct : IsDistinct specs
  pub listed : Memᴰ from specs
  pub kind : from.spec_kind ≡ http_endpoint
  pub payload : HttpEndpointSpec
  pub read : services.parse_http from.spec_json ≡ some payload
  pub field : payload.request_body_type ≡ some t
  pub full : str_eq t "" ≡ false
  pub chosen : IsChosen services specs t (some from) to
  pub full_id : str_eq to.id "" ≡ false

module _ (services : Services) (specs : List ContractSpecNode) where
  -- An index in which a name is found is not empty.
  some_entry :
      (index : SchemaIndex) (t : String) (from : ContractSpecNode) {i : String}
      → look_from services index from t ≡ some i
      → is_empty index ≡ false
  unfolding lookup_schema_id
  some_entry [] t from e = cc
  some_entry (x ∷ index) t from e = refl

  -- The type of an endpoint's request that a schema of the input is chosen for is related to it:
  -- the schema resolver returns an edge with the key of the endpoint's edge to the schema.
  pub resolve_schema_request :
      (roles : SpecRoleMap) (existing : List SemanticRelationEdge) (from : ContractSpecNode)
      (t : String) (to : ContractSpecNode)
      → IsRequestSchema services specs from t to
      → (d : SemanticRelationEdge) × Memᴰ d (resolve_schema_relations services specs roles existing)
        × (edge_key d ≡ edge_key (request_edge from t to))
  unfolding resolve_schema_relations resolve_http_schema_relations http_edges request_edge
  resolve_schema_request roles existing from t to h =
      let found = lookup_schema_id_complete services specs t (some from) h.distinct to h.chosen in
      let offered = of_kind-mem http_endpoint services.parse_http both from h.kind h.read (
        Memᴰ.append_left
          (field_edges (look_from services index from) response_schema "Response type "
            (confidence_for heuristic_response_body_type) from h.payload.response_body_type)
          (rw h.field (
            field_edges-mem (look_from services index from) request_schema "@RequestBody type "
              (confidence_for heuristic_request_body_type) from h.full found h.full_id))) in
      let (d, m, key) =
        emit_each_complete (http_edges services index) specs from (request_edge from t to) h.listed
          offered in
      (
        d,
        (mem-unless (is_empty index) _).1 (
          some_entry index t from found,
          Memᴰ.append_left _ (Memᴰ.append_left _ (Memᴰ.append_left _ (Memᴰ.append_left _ m))),
        ),
        key,
      )
    where
      index : SchemaIndex
      index = build_schema_index services specs

      both : HttpEndpointSpec → List SemanticRelationEdge
      both h =
          field_edges (look_from services index from) request_schema "@RequestBody type "
            (confidence_for heuristic_request_body_type) from h.request_body_type
          ++ field_edges (look_from services index from) response_schema "Response type "
              (confidence_for heuristic_response_body_type) from h.response_body_type

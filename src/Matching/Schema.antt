-- ===== src/Matching/Schema.antt =====
-- Schema relations (src/core/contracts/matching/schemaResolver.ts): from an endpoint, an event or a
-- schema to the schemas that its payload names. A payload that does not parse is skipped
-- (safeJsonParse returns null), so the resolver always returns.
pub mod Lookup
pub mod Laws
pub mod Reaches
use logiclens.Shared.{
  ℕ, String, Bool, true, false, not, ◌&&◌, Option, none, some, List, [], ◌∷◌, ◌++◌, map, str_eq,
  is_empty, find, flat_map, has, bucket, StrMap, index_by, prefer, the_only, template, truthy,
  if◌then◌else◌, ◌>>=◌, includes_dot, strip_prefix, strip_suffix, is_line, holds_key,
}
use logiclens.Nodes.{
  ContractSpecNode, SpecKind, http_endpoint, event, schema, grpc_method, graphql_operation,
  same_kind, SemanticRelationEdge, SemanticRelationKind, uses_schema, request_schema,
  response_schema, event_payload,
}
use logiclens.Confidence.{
  confidence_for, heuristic_request_body_type, heuristic_response_body_type,
  heuristic_generic_type_param,
}
use logiclens.Specs.{Services}
use logiclens.Matching.Roles.{SpecRoleMap}
use logiclens.Matching.Links.Lists.{emit_each}

-- name => [...candidates]
abbrev pub SchemaIndex : Type 0
SchemaIndex = StrMap (List ContractSpecNode)

-- A field as the condition `if (field)`, with its text: an empty text is false.
abbrev pub filled : Option String → Option String
filled none = none
filled (some s) = if str_eq s "" then none else some s

-- One relation to a schema that was found.
unfoldable pub schema_edge :
    SemanticRelationKind → String → ℕ → ContractSpecNode → String → SemanticRelationEdge
schema_edge kind reason confidence from schema_id = record {
  from_spec_id = from.id;
  to_spec_id = schema_id;
  kind = kind;
  evidence_id = from.evidence_id;
  reason = reason;
  confidence = confidence;
  batch_id = none;
  active = none;
}

-- if (schemaId) edges.push(…)
abbrev pub to_found :
    SemanticRelationKind → String → ℕ → ContractSpecNode → Option String → List SemanticRelationEdge
to_found kind reason confidence from none = []
to_found kind reason confidence from (some i) = schema_edge kind reason confidence from i ∷ []

-- if (type) { const schemaId = look(type); … }
unfoldable pub field_edges :
    (String → Option String)
    → SemanticRelationKind
    → String
    → ℕ
    → ContractSpecNode
    → Option String
    → List SemanticRelationEdge
field_edges look kind label confidence from none = []
field_edges look kind label confidence from (some t) =
    if str_eq t ""
    then []
    else to_found kind (template (label ∷ t ∷ [])) confidence from (filled (look t))

-- if (spec.specKind !== kind) continue; const parsed = safeJsonParse(…); if (!parsed) continue
abbrev pub of_kind {ℓ} :
    {S : Type ℓ}
    → SpecKind
    → (String → Option S)
    → (S → List SemanticRelationEdge)
    → ContractSpecNode
    → List SemanticRelationEdge
of_kind kind parse edges s =
    if same_kind s.spec_kind kind
    then (elim (parse s.spec_json) [ none ↦ [] | some spec ↦ edges spec ])
    else []

abbrev pub is_schema_ref_kind : SemanticRelationKind → Bool
is_schema_ref_kind uses_schema = true
is_schema_ref_kind request_schema = true
is_schema_ref_kind response_schema = true
is_schema_ref_kind event_payload = true
is_schema_ref_kind _ = false

-- The contract of a placeholder: the group of /^spec:(.+):pending$/.
unfoldable pub pending_contract : String → Option String
pending_contract id = do
  rest ← strip_prefix "spec:" id
  contract ← strip_suffix ":pending" rest
  if is_line contract then some contract else none

-- The name that a method's type is looked up by first: within the package of the method.
unfoldable pub grpc_key : Option String → String → String
grpc_key none t = t
grpc_key (some package_name) t =
    if not (str_eq package_name "") && not (includes_dot t)
    then template (package_name ∷ "." ∷ t ∷ [])
    else t

-- the specs that a reference, maybe of a placeholder, comes from
unfoldable pub resolved_from_spec_ids : List ContractSpecNode → String → List String
resolved_from_spec_ids specs id =
    if has (map (λ (s : ContractSpecNode). s.id) specs) id
    then id ∷ []
    else (elim (pending_contract id) [
      | none ↦ []
      | some c ↦
          bucket c (index_by (λ (s : ContractSpecNode). some s.contract_id) (λ s. s.id) specs)
    ])

-- A reference with its ends resolved; one of a spec to itself is left out.
abbrev pub resolved_ref : SemanticRelationEdge → String → Option String → List SemanticRelationEdge
resolved_ref rel id none = []
resolved_ref rel id (some to) =
    if str_eq id to
    then []
    else record rel { from_spec_id = id; to_spec_id = to; batch_id = none; active = none } ∷ []

module _ (services : Services) where
  -- the name of a schema's payload, if it parses
  abbrev pub schema_name : ContractSpecNode → Option String
  schema_name s = elim (services.parse_schema s.spec_json) [ none ↦ none | some p ↦ some p.name ]

  -- the key of a spec in the index
  unfoldable pub schema_key : ContractSpecNode → Option String
  schema_key s =
      if same_kind s.spec_kind schema
      then (do name ← filled (schema_name s); some (services.lowercase name))
      else none

  unfoldable pub build_schema_index : List ContractSpecNode → SchemaIndex
  build_schema_index = index_by schema_key (λ s. s)

  abbrev pub has_name : String → ContractSpecNode → Bool
  has_name name s = holds_key name (schema_name s)

  -- fromSpec ? spec.repoId === fromSpec.repoId : false
  abbrev pub is_near : Option ContractSpecNode → ContractSpecNode → Bool
  is_near none s = false
  is_near (some from) s = str_eq s.repo_id from.repo_id

  unfoldable pub lookup_schema_id : SchemaIndex → String → Option ContractSpecNode → Option String
  lookup_schema_id index name from =
      let candidates = bucket (services.lowercase name) index in
      if is_empty candidates
      then none
      else (do s ← the_only (prefer (is_near from) (prefer (has_name name) candidates)); some s.id)

  module _ (index : SchemaIndex) where
    abbrev pub look_from : ContractSpecNode → String → Option String
    look_from s t = lookup_schema_id index t (some s)

    unfoldable pub http_edges : ContractSpecNode → List SemanticRelationEdge
    http_edges s =
        of_kind http_endpoint services.parse_http
          (λ h.
            field_edges (look_from s) request_schema "@RequestBody type "
              (confidence_for heuristic_request_body_type) s h.request_body_type
            ++ field_edges (look_from s) response_schema "Response type "
                (confidence_for heuristic_response_body_type) s h.response_body_type)
          s

    unfoldable pub resolve_http_schema_relations : List ContractSpecNode → List SemanticRelationEdge
    resolve_http_schema_relations specs = (emit_each http_edges specs).edges

    -- and then by the name as it stands
    unfoldable pub look_in_package : Option String → ContractSpecNode → String → Option String
    look_in_package package_name s t =
        let key = grpc_key package_name t in
        let found = look_from s key in
        if not (truthy found) && not (str_eq key t) then look_from s t else found

    unfoldable pub grpc_edges : ContractSpecNode → List SemanticRelationEdge
    grpc_edges s =
        of_kind grpc_method services.parse_grpc
          (λ g.
            field_edges (look_in_package g.package_name s) request_schema "RPC request type " 100 s
              g.request_type
            ++ field_edges (look_in_package g.package_name s) response_schema "RPC response type "
                100 s g.response_type)
          s

    unfoldable pub resolve_grpc_schema_relations : List ContractSpecNode → List SemanticRelationEdge
    resolve_grpc_schema_relations specs = (emit_each grpc_edges specs).edges

    unfoldable pub graphql_edges : ContractSpecNode → List SemanticRelationEdge
    graphql_edges s =
        of_kind graphql_operation services.parse_graphql
          (λ g.
            field_edges (look_from s) request_schema "GraphQL request type " 100 s g.request_type
            ++ field_edges (look_from s) response_schema "GraphQL response type " 100 s
                g.response_type)
          s

    unfoldable pub resolve_graphql_schema_relations :
        List ContractSpecNode → List SemanticRelationEdge
    resolve_graphql_schema_relations specs = (emit_each graphql_edges specs).edges

    unfoldable pub event_edges : ContractSpecNode → List SemanticRelationEdge
    event_edges s =
        of_kind event services.parse_event
          (λ e.
            field_edges (look_from s) event_payload "Event payload type "
              (confidence_for heuristic_generic_type_param) s e.payload_type)
          s

    unfoldable pub resolve_event_payload_relations :
        List ContractSpecNode → List SemanticRelationEdge
    resolve_event_payload_relations specs = (emit_each event_edges specs).edges

    module _ (specs : List ContractSpecNode) where
      -- the body of the inner loop
      unfoldable pub ref_edges : SemanticRelationEdge → String → String → List SemanticRelationEdge
      ref_edges rel type_name id =
          let from = find (λ (s : ContractSpecNode). str_eq s.id id) specs in
          resolved_ref rel id (filled (lookup_schema_id index type_name from))

      -- the body of the outer loop
      unfoldable pub pending_edges : SemanticRelationEdge → List SemanticRelationEdge
      pending_edges rel =
          if is_schema_ref_kind rel.kind
          then (elim (strip_prefix "schema-ref:" rel.to_spec_id) [
            | none ↦ []
            | some t ↦ flat_map (ref_edges rel t) (resolved_from_spec_ids specs rel.from_spec_id)
          ])
          else []

      unfoldable pub resolve_pending_schema_refs :
          List SemanticRelationEdge → List SemanticRelationEdge
      resolve_pending_schema_refs existing = (emit_each pending_edges existing).edges

  unfoldable pub resolve_schema_relations :
      List ContractSpecNode → SpecRoleMap → List SemanticRelationEdge → List SemanticRelationEdge
  resolve_schema_relations specs _ existing =
      let index = build_schema_index specs in
      if is_empty index
      then []
      else resolve_http_schema_relations index specs
        ++ resolve_grpc_schema_relations index specs
        ++ resolve_graphql_schema_relations index specs
        ++ resolve_event_payload_relations index specs
        ++ resolve_pending_schema_refs index specs existing

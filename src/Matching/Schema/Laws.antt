-- ===== src/Matching/Schema/Laws.antt =====
-- What the schema relations are.
use mathlib.Core.List.Memᴰ
use logiclens.Shared.{
  ℕ, String, true, false, Option, none, some, List, [], ◌∷◌, ◌++◌, Memᴰ, ◌≡◌, refl, sym, subst, ◌⊎◌,
  inl, inr, Bool-cases, Option-cases, is_empty, find_of_mem, has, has_iff, map, bucket,
  bucket-index_by, mem-filter, mem-flat_map, mem-unless, mem-when, index_by, Bool, not, truthy,
  ◌&&◌, strip_prefix, template, str_eq, eq_iff,
}
use logiclens.Nodes.{
  ContractSpecNode, SpecKind, http_endpoint, event, grpc_method, graphql_operation, same_kind,
  same_kind_iff, SemanticRelationEdge, SemanticRelationKind, request_schema, response_schema,
  event_payload,
}
use logiclens.Confidence.{
  confidence_for, heuristic_request_body_type, heuristic_response_body_type,
  heuristic_generic_type_param,
}
use logiclens.Specs.{Services, HttpEndpointSpec, GrpcMethodSpec, GraphqlOperationSpec, EventSpec}
use logiclens.Matching.Roles.{SpecRoleMap}
use logiclens.Matching.Links.Lists.{emit_each_sound}
use logiclens.Matching.Schema.{
  resolved_ref, schema_edge, filled, field_edges, of_kind, is_schema_ref_kind, pending_contract,
  grpc_key, resolved_from_spec_ids, SchemaIndex, build_schema_index, lookup_schema_id, look_from,
  look_in_package, http_edges, grpc_edges, graphql_edges, event_edges, ref_edges, pending_edges,
  resolve_http_schema_relations, resolve_grpc_schema_relations, resolve_graphql_schema_relations,
  resolve_event_payload_relations, resolve_pending_schema_refs, resolve_schema_relations,
}
use logiclens.Matching.Schema.Lookup.{filled_iff, IsChosen, lookup_schema_id_sound}

mem-field_edges :
    (look : String → Option String) (kind : SemanticRelationKind) (label : String) (c : ℕ)
    (s : ContractSpecNode) (o : Option String) {d : SemanticRelationEdge}
    → Memᴰ d (field_edges look kind label c s o)
    → (t i : String) × (o ≡ some t)
      × (look t ≡ some i)
      × (d ≡ schema_edge kind (template (label ∷ t ∷ [])) c s i)
unfolding field_edges
mem-field_edges look kind label c s none m = absurd (Memᴰ.not-nil m)
mem-field_edges look kind label c s (some t) m =
    let (_, n) = (mem-unless (str_eq t "") _).0 m in
    elim (Option-cases (filled (look t))) [
      | inl no_id ↦ absurd (Memᴰ.not-nil (rw no_id at n))
      | inr (i, found) ↦
          (t, i, refl, ((filled_iff _ _).0 found).0, Memᴰ.eq_of_singleton (rw found at n))
    ]

pub field_edges-mem :
    (look : String → Option String) (kind : SemanticRelationKind) (label : String) (c : ℕ)
    (s : ContractSpecNode) {t i : String}
    → str_eq t "" ≡ false
    → look t ≡ some i
    → str_eq i "" ≡ false
    → Memᴰ
        (schema_edge kind (template (label ∷ t ∷ [])) c s i)
        (field_edges look kind label c s (some t))
unfolding field_edges
field_edges-mem look kind label c s {t} {i} full e full_id =
    let found : filled (look t) ≡ some i = (filled_iff _ _).1 (e, full_id) in
    (mem-unless (str_eq t "") _).1 (full, rw found (Memᴰ.head refl))

module _ {S : Type 0} (kind : SpecKind) (parse : String → Option S)
    (edges : S → List SemanticRelationEdge) (s : ContractSpecNode) {d : SemanticRelationEdge} where
  mem-of_kind :
      Memᴰ d (of_kind kind parse edges s)
      → (s.spec_kind ≡ kind) × ((p : S) × (parse s.spec_json ≡ some p) × Memᴰ d (edges p))
  mem-of_kind m = elim (Bool-cases (same_kind s.spec_kind kind)) [
    | inr other ↦ absurd (Memᴰ.not-nil (rw other at m))
    | inl same ↦ elim (Option-cases (parse s.spec_json)) [
      | inl bad ↦ absurd (Memᴰ.not-nil (rw (same, bad) at m))
      | inr (p, read) ↦ ((same_kind_iff _ _).0 same, (p, read, rw (same, read) at m))
    ]
  ]

  pub of_kind-mem :
      s.spec_kind ≡ kind
      → {p : S} → parse s.spec_json ≡ some p
      → Memᴰ d (edges p)
      → Memᴰ d (of_kind kind parse edges s)
  of_kind-mem k read m =
      let same : same_kind s.spec_kind kind ≡ true = (same_kind_iff _ _).1 k in rw (same, read) m

module _ (services : Services) (specs : List ContractSpecNode)
    (existing : List SemanticRelationEdge) where
  -- That a spec names a schema: a field of its payload, or an extractor's reference that waits for
  -- the schema to be known. A method's type may be named within the method's package.
  pub data Uses (from : ContractSpecNode) : String → SemanticRelationKind → Type 0 where
    http_request :
        (h : HttpEndpointSpec) {t : String}
        → from.spec_kind ≡ http_endpoint
        → services.parse_http from.spec_json ≡ some h
        → h.request_body_type ≡ some t
        → Uses from t request_schema
    http_response :
        (h : HttpEndpointSpec) {t : String}
        → from.spec_kind ≡ http_endpoint
        → services.parse_http from.spec_json ≡ some h
        → h.response_body_type ≡ some t
        → Uses from t response_schema
    grpc_request :
        (g : GrpcMethodSpec) {t n : String}
        → from.spec_kind ≡ grpc_method
        → services.parse_grpc from.spec_json ≡ some g
        → g.request_type ≡ some t
        → (n ≡ grpc_key g.package_name t) ⊎ (n ≡ t)
        → Uses from n request_schema
    grpc_response :
        (g : GrpcMethodSpec) {t n : String}
        → from.spec_kind ≡ grpc_method
        → services.parse_grpc from.spec_json ≡ some g
        → g.response_type ≡ some t
        → (n ≡ grpc_key g.package_name t) ⊎ (n ≡ t)
        → Uses from n response_schema
    graphql_request :
        (g : GraphqlOperationSpec) {t : String}
        → from.spec_kind ≡ graphql_operation
        → services.parse_graphql from.spec_json ≡ some g
        → g.request_type ≡ some t
        → Uses from t request_schema
    graphql_response :
        (g : GraphqlOperationSpec) {t : String}
        → from.spec_kind ≡ graphql_operation
        → services.parse_graphql from.spec_json ≡ some g
        → g.response_type ≡ some t
        → Uses from t response_schema
    event_use :
        (e : EventSpec) {t : String}
        → from.spec_kind ≡ event
        → services.parse_event from.spec_json ≡ some e
        → e.payload_type ≡ some t
        → Uses from t event_payload
    reference :
        (rel : SemanticRelationEdge) {t : String}
        → Memᴰ rel existing
        → is_schema_ref_kind rel.kind ≡ true
        → strip_prefix "schema-ref:" rel.to_spec_id ≡ some t
        → Memᴰ from.id (resolved_from_spec_ids specs rel.from_spec_id)
        → Uses from t rel.kind

  -- An edge from a spec of the input to the schema that is chosen for a name the spec uses.
  pub record IsSchemaEdge (d : SemanticRelationEdge) : Type 0 where
    pub from : ContractSpecNode
    pub listed : Memᴰ from specs
    pub from_id : d.from_spec_id ≡ from.id
    pub name : String
    pub uses : Uses from name d.kind
    pub to : ContractSpecNode
    pub chosen : IsChosen services specs name (some from) to
    pub to_id : d.to_spec_id ≡ to.id

  abbrev index : SchemaIndex
  index = build_schema_index services specs

  module _ (s : ContractSpecNode) where
    LooksUp : (String → Option String) → SemanticRelationKind → Option String → Type 0
    LooksUp look kind o =
        (t i : String)
        → o ≡ some t
        → look t ≡ some i
        → (n : String) × Uses s n kind × (look_from services index s n ≡ some i)

    -- A name of a method is looked up within the package or as it stands.
    look_in_package_cases :
        (package_name : Option String) (t : String) {i : String}
        → look_in_package services index package_name s t ≡ some i
        → (n : String) × ((n ≡ grpc_key package_name t) ⊎ (n ≡ t))
          × (look_from services index s n ≡ some i)
    unfolding look_in_package
    look_in_package_cases package_name t {i} e = elim (Bool-cases again) [
      | inl yes_again ↦ (t, inr refl, rw yes_again at e)
      | inr enough ↦ (key, inl refl, rw enough at e)
    ]
      where
        key : String
        key = grpc_key package_name t

        again : Bool
        again = not (truthy (look_from services index s key)) && not (str_eq key t)

  module _ (s : ContractSpecNode) (listed : Memᴰ s specs) {d : SemanticRelationEdge} where
    -- A field whose look-up is that of a name the spec uses.
    from_field :
        (look : String → Option String) (kind : SemanticRelationKind) (label : String) (c : ℕ)
        (o : Option String)
        → LooksUp s look kind o
        → Memᴰ d (field_edges look kind label c s o)
        → IsSchemaEdge d
    unfolding schema_edge LooksUp
    from_field look kind label c o uses m =
        let (t, i, e, found, same) = mem-field_edges look kind label c s o m in
        let (n, used, at) = uses t i e found in
        let (to, chosen, to_id) = lookup_schema_id_sound services specs n (some s) at in
        rw same (record {
          from = s;
          listed = listed;
          from_id = refl;
          name = n;
          uses = used;
          to = to;
          chosen = chosen;
          to_id = sym to_id;
        })

    from_fields :
        (look : String → Option String) (in_label out_label : String) (in_c out_c : ℕ)
        (in_type out_type : Option String)
        → LooksUp s look request_schema in_type
        → LooksUp s look response_schema out_type
        → Memᴰ d (
            field_edges look request_schema in_label in_c s in_type
            ++ field_edges look response_schema out_label out_c s out_type)
        → IsSchemaEdge d
    from_fields look in_label out_label in_c out_c in_type out_type taken given m =
        elim (Memᴰ.append_cases (field_edges look request_schema in_label in_c s in_type) m) [
          | inl request ↦ from_field look request_schema in_label in_c in_type taken request
          | inr response ↦ from_field look response_schema out_label out_c out_type given response
        ]

    http_edges-IsSchemaEdge : Memᴰ d (http_edges services index s) → IsSchemaEdge d
    unfolding http_edges LooksUp
    http_edges-IsSchemaEdge m =
        let (kind, (h, read, n)) = mem-of_kind http_endpoint services.parse_http _ s m in
        from_fields (look_from services index s) "@RequestBody type " "Response type "
          (confidence_for heuristic_request_body_type) (confidence_for heuristic_response_body_type)
          h.request_body_type h.response_body_type (λ t i e at. (t, http_request h kind read e, at))
          (λ t i e at. (t, http_response h kind read e, at)) n

    grpc_edges-IsSchemaEdge : Memᴰ d (grpc_edges services index s) → IsSchemaEdge d
    unfolding grpc_edges LooksUp
    grpc_edges-IsSchemaEdge m =
        let (kind, (g, read, n)) = mem-of_kind grpc_method services.parse_grpc _ s m in
        from_fields (look_in_package services index g.package_name s) "RPC request type "
          "RPC response type " 100 100 g.request_type g.response_type
          (λ t i e found.
            let (name, one_of, at) = look_in_package_cases s g.package_name t found in
            (name, grpc_request g kind read e one_of, at))
          (λ t i e found.
            let (name, one_of, at) = look_in_package_cases s g.package_name t found in
            (name, grpc_response g kind read e one_of, at))
          n

    graphql_edges-IsSchemaEdge : Memᴰ d (graphql_edges services index s) → IsSchemaEdge d
    unfolding graphql_edges LooksUp
    graphql_edges-IsSchemaEdge m =
        let (kind, (g, read, n)) = mem-of_kind graphql_operation services.parse_graphql _ s m in
        from_fields (look_from services index s) "GraphQL request type " "GraphQL response type "
          100 100 g.request_type g.response_type
          (λ t i e at. (t, graphql_request g kind read e, at))
          (λ t i e at. (t, graphql_response g kind read e, at)) n

    event_edges-IsSchemaEdge : Memᴰ d (event_edges services index s) → IsSchemaEdge d
    unfolding event_edges LooksUp
    event_edges-IsSchemaEdge m =
        let (kind, (e, read, n)) = mem-of_kind event services.parse_event _ s m in
        from_field (look_from services index s) event_payload "Event payload type "
          (confidence_for heuristic_generic_type_param) e.payload_type
          (λ t i f at. (t, event_use e kind read f, at)) n

  -- The ids that a reference comes from are ids of the input.
  resolved_from_spec_ids_sound :
      (r : String) {id : String}
      → Memᴰ id (resolved_from_spec_ids specs r)
      → (s : ContractSpecNode) × Memᴰ s specs × (s.id ≡ id)
  unfolding resolved_from_spec_ids
  resolved_from_spec_ids_sound r {id} m =
      elim (Bool-cases (has (map (λ (s : ContractSpecNode). s.id) specs) r)) [
        | inl known ↦
            Memᴰ.of_map _ specs
              (Memᴰ.cast (Memᴰ.eq_of_singleton (rw known at m)) ((has_iff _ _).0 known))
        | inr unknown ↦ elim (Option-cases (pending_contract r)) [
          | inl no_contract ↦ absurd (Memᴰ.not-nil (rw (unknown, no_contract) at m))
          | inr (c, found) ↦
              let n : Memᴰ id (bucket c (index_by contract_key (λ s. s.id) specs)) =
                rw (unknown, found) at m in
              let (s, k, e) =
                Memᴰ.of_map (λ (s : ContractSpecNode). s.id) _
                  (subst (Memᴰ id) (bucket-index_by contract_key (λ s. s.id) c specs) n) in
              (s, ((mem-filter _ specs).0 k).0, e)
        ]
      ]
    where
      contract_key : ContractSpecNode → Option String
      contract_key s = some s.contract_id

  ref_edges-IsSchemaEdge :
      (rel : SemanticRelationEdge) (t id : String) {d : SemanticRelationEdge}
      → Memᴰ rel existing
      → is_schema_ref_kind rel.kind ≡ true
      → strip_prefix "schema-ref:" rel.to_spec_id ≡ some t
      → Memᴰ id (resolved_from_spec_ids specs rel.from_spec_id)
      → Memᴰ d (ref_edges services index specs rel t id)
      → IsSchemaEdge d
  unfolding ref_edges
  ref_edges-IsSchemaEdge rel t id {d} listed kind to m n =
      let (s, ms, e) = resolved_from_spec_ids_sound rel.from_spec_id m in
      let (from, found, mf, same) =
        find_of_mem (λ (u : ContractSpecNode). str_eq u.id id) specs ms ((eq_iff _ _).1 e) in
      let is_id : from.id ≡ id = (eq_iff _ _).0 same in
      let n' : Memᴰ d
          (resolved_ref rel id (filled (lookup_schema_id services index t (some from)))) =
        subst (λ o. Memᴰ d (resolved_ref rel id (filled (lookup_schema_id services index t o))))
          found n in
      elim (Option-cases (filled (lookup_schema_id services index t (some from)))) [
        | inl no_id ↦ absurd (Memᴰ.not-nil (rw no_id at n'))
        | inr (i, known) ↦
            let (_, k) = (mem-unless (str_eq id i) _).0 (rw known at n') in
            let (target, chosen, to_id) =
              lookup_schema_id_sound services specs t (some from) ((filled_iff _ _).0 known).0 in
            rw (Memᴰ.eq_of_singleton k) (record {
              from = from;
              listed = mf;
              from_id = sym is_id;
              name = t;
              uses = reference rel listed kind to (Memᴰ.cast is_id m);
              to = target;
              chosen = chosen;
              to_id = sym to_id;
            })
      ]

  pending_edges-IsSchemaEdge :
      (rel : SemanticRelationEdge) {d : SemanticRelationEdge}
      → Memᴰ rel existing
      → Memᴰ d (pending_edges services index specs rel)
      → IsSchemaEdge d
  unfolding pending_edges
  pending_edges-IsSchemaEdge rel {d} listed m =
      let (kind, n) = (mem-when (is_schema_ref_kind rel.kind) _).0 m in
      elim (Option-cases (strip_prefix "schema-ref:" rel.to_spec_id)) [
        | inl no_ref ↦ absurd (Memᴰ.not-nil (rw no_ref at n))
        | inr (t, to) ↦
            let (id, mi, k) = mem-flat_map (ref_edges services index specs rel t) _ (rw to at n) in
            ref_edges-IsSchemaEdge rel t id listed kind to mi k
      ]

  -- Every edge of the schema resolver goes from a spec of the input to the schema that is chosen
  -- for a name which the spec's payload, or a reference that waited, uses in the role of the
  -- edge's kind: the one schema with the name, exact names and the spec's repository first.
  pub resolve_schema_sound :
      (roles : SpecRoleMap) (d : SemanticRelationEdge)
      → Memᴰ d (resolve_schema_relations services specs roles existing)
      → IsSchemaEdge d
  unfolding resolve_schema_relations resolve_http_schema_relations resolve_grpc_schema_relations
      resolve_graphql_schema_relations resolve_event_payload_relations resolve_pending_schema_refs
  resolve_schema_sound roles d m =
      elim (Memᴰ.append_cases _ ((mem-unless (is_empty index) _).0 m).1) [
        | inr pending ↦
            let (rel, mr, k) =
              emit_each_sound (pending_edges services index specs) existing d pending in
            pending_edges-IsSchemaEdge rel mr k
        | inl n ↦ elim (Memᴰ.append_cases _ n) [
          | inr of_event ↦
              let (s, ms, k) = emit_each_sound (event_edges services index) specs d of_event in
              event_edges-IsSchemaEdge s ms k
          | inl n' ↦ elim (Memᴰ.append_cases _ n') [
            | inr of_graphql ↦
                let (s, ms, k) =
                  emit_each_sound (graphql_edges services index) specs d of_graphql in
                graphql_edges-IsSchemaEdge s ms k
            | inl n'' ↦ elim (Memᴰ.append_cases _ n'') [
              | inr of_grpc ↦
                  let (s, ms, k) = emit_each_sound (grpc_edges services index) specs d of_grpc in
                  grpc_edges-IsSchemaEdge s ms k
              | inl of_http ↦
                  let (s, ms, k) = emit_each_sound (http_edges services index) specs d of_http in
                  http_edges-IsSchemaEdge s ms k
            ]
          ]
        ]
      ]

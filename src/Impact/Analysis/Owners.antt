-- ===== src/Impact/Analysis/Owners.antt =====
-- Whose the items of an analysis are: every item that a rule makes of a spec has the spec's id, and
-- the spec that is found under an id has this id.
use logiclens.Shared.{
  String, true, false, not, Option, some, List, [], ◌∷◌, map, Memᴰ, ◌≡◌, refl, sym, ap, subst, ◌∙◌,
  inl, inr, Bool-cases, is_empty, truthy, if◌then◌else◌, some_inj, >>=-eq-some, lookup, insert,
  lookup-insert, str_eq, eq_iff, for_each_keeps, StrMap, arith, get_or_else, joined_by_colon,
  has_colon, has_colon-joined, joined_cases, template-joined,
}
use logiclens.Nodes.{
  SpecKind, http_endpoint, event, schema, grpc_method, dubbo_method, graphql_operation,
  ContractSpecNode, SemanticRelationKind, implements, calls_http, calls_dubbo, calls_grpc,
  calls_graphql, internal_call, publishes_event, subscribes_event, uses_schema, request_schema,
  response_schema, event_payload, compatible_with, breaks, impacts, kind_name, SemanticRelationEdge,
}
use logiclens.Specs.{
  HttpEndpointSpec, EventSpec, SchemaSpec, GrpcMethodSpec, DubboMethodSpec, GraphqlOperationSpec,
}
use logiclens.Impact.{ImpactPathStep}
use logiclens.Impact.Items.{ImpactItem}
use logiclens.Impact.Rules.{
  ChangeType, ChangeIntent, ImpactAnalysisOptions, Dependent, with_payload, has_kind,
}
use logiclens.Impact.Rules.Http.{http_impact, assess_http_endpoint_change}
use logiclens.Impact.Rules.Event.{event_impact, assess_event_change}
use logiclens.Impact.Rules.Grpc.{grpc_impact, assess_grpc_method_change}
use logiclens.Impact.Rules.Dubbo.{dubbo_impact, assess_dubbo_method_change}
use logiclens.Impact.Rules.Graphql.{graphql_impact, assess_graphql_operation_change}
use logiclens.Impact.Rules.Schema.{file_references, schema_impact, assess_schema_field_change}
use logiclens.Impact.Analysis.{
  ReadableContractSpecNode, known, opaque, readable_id, AnalysisServices, step_key, apply_rules,
  classify_impact, spec_map,
}

-- All items are of the spec with an id.
abbrev AreOf : String → List ImpactItem → Type 0
AreOf id [] = Unit
AreOf id (item ∷ items) = (item.spec_id ≡ id) × AreOf id items

http_impact-AreOf :
    (t : ChangeType) (change : ChangeIntent) (d : Dependent) (p : HttpEndpointSpec)
    → AreOf d.spec.id (http_impact t change d p)
unfolding http_impact
http_impact-AreOf t change d p = ground arith

event_impact-AreOf :
    (t : ChangeType) (change : ChangeIntent) (d : Dependent) (p : EventSpec)
    → AreOf d.spec.id (event_impact t change d p)
unfolding event_impact
event_impact-AreOf t change d p = ground arith

grpc_impact-AreOf :
    (t : ChangeType) (change : ChangeIntent) (d : Dependent) (p : GrpcMethodSpec)
    → AreOf d.spec.id (grpc_impact t change d p)
unfolding grpc_impact
grpc_impact-AreOf t change d p = ground arith

dubbo_impact-AreOf :
    (t : ChangeType) (change : ChangeIntent) (d : Dependent) (p : DubboMethodSpec)
    → AreOf d.spec.id (dubbo_impact t change d p)
unfolding dubbo_impact
dubbo_impact-AreOf t change d p = ground arith

graphql_impact-AreOf :
    (t : ChangeType) (change : ChangeIntent) (d : Dependent) (p : GraphqlOperationSpec)
    → AreOf d.spec.id (graphql_impact t change d p)
unfolding graphql_impact
graphql_impact-AreOf t change d p = ground arith

map-AreOf :
    {A : Type 0} (id : String) (f : A → ImpactItem)
    → ((a : A) → (f a).spec_id ≡ id)
    → (xs : List A) → AreOf id (map f xs)
map-AreOf id f h [] = tt
map-AreOf id f h (x ∷ xs) = (h x, map-AreOf id f h xs)

-- A rule that is applied to a payload gives items of the spec, or none.
with_payload-AreOf :
    {S : Type 0} (id : String) (read_kind : String → Option SpecKind) (kind : SpecKind)
    (parse : String → Option S) (spec : ContractSpecNode) (rule : S → List ImpactItem)
    {items : List ImpactItem}
    → ((p : S) → AreOf id (rule p))
    → with_payload read_kind kind parse spec [] rule ≡ some items
    → AreOf id items
unfolding with_payload
with_payload-AreOf id read_kind kind parse spec rule h e =
    let (p, _, e') = >>=-eq-some (parse spec.spec_json) _ e in
    elim (Bool-cases (has_kind kind (read_kind spec.spec_json))) [
      | inl same ↦ subst (AreOf id) (some_inj (rw same at e')) (h p)
      | inr other ↦ subst (AreOf id) (some_inj (rw other at e')) tt
    ]

-- A result that depends on a kind is the result for one of the kinds.
by_kind :
    {R : Type 0} (P : Type 0) (k : SpecKind) (a b c d e f : Option R) {r : R}
    → (elim k [
      | http_endpoint ↦ a
      | event ↦ b
      | schema ↦ c
      | grpc_method ↦ d
      | dubbo_method ↦ e
      | graphql_operation ↦ f
    ])
      ≡ some r
    → (a ≡ some r → P)
    → (b ≡ some r → P)
    → (c ≡ some r → P)
    → (d ≡ some r → P)
    → (e ≡ some r → P)
    → (f ≡ some r → P)
    → P
by_kind P http_endpoint a b c d e f h i j k l m n = i h
by_kind P event a b c d e f h i j k l m n = j h
by_kind P schema a b c d e f h i j k l m n = k h
by_kind P grpc_method a b c d e f h i j k l m n = l h
by_kind P dubbo_method a b c d e f h i j k l m n = m h
by_kind P graphql_operation a b c d e f h i j k l m n = n h

module _ (services : AnalysisServices) (options : ImpactAnalysisOptions)
    (change : ChangeIntent) where
  schema_impact-AreOf :
      (d : Dependent) (p : SchemaSpec)
      → AreOf d.spec.id (schema_impact services.find_field_references options change d p)
  unfolding schema_impact
  schema_impact-AreOf d p =
      let refs =
        file_references services.find_field_references options.read_file d.spec.repo_id
          d.spec.file_id (get_or_else change.detail "") in
      elim (Bool-cases (not (truthy change.detail))) [
        | inl nothing ↦ rw nothing tt
        | inr detailed ↦ rw detailed (elim (Bool-cases (is_empty refs)) [
          | inl nowhere ↦ rw nowhere (refl, tt)
          | inr somewhere ↦ rw somewhere (map-AreOf d.spec.id _ (λ r. refl) refs)
        ])
      ]

  apply_rules-AreOf :
      (d : Dependent) {items : List ImpactItem}
      → apply_rules services options change d ≡ some items
      → AreOf d.spec.id items
  unfolding apply_rules assess_http_endpoint_change assess_event_change assess_grpc_method_change
      assess_dubbo_method_change assess_graphql_operation_change assess_schema_field_change
  apply_rules-AreOf d {items} e =
      by_kind (AreOf d.spec.id items) d.spec.spec_kind _ _ _ _ _ _ e
        (with_payload-AreOf d.spec.id services.read_kind http_endpoint services.payloads.parse_http
          d.spec (http_impact change.change_type change d)
          (http_impact-AreOf change.change_type change d))
        (with_payload-AreOf d.spec.id services.read_kind event services.payloads.parse_event d.spec
          (event_impact change.change_type change d)
          (event_impact-AreOf change.change_type change d))
        (with_payload-AreOf d.spec.id services.read_kind schema services.payloads.parse_schema
          d.spec (schema_impact services.find_field_references options change d)
          (schema_impact-AreOf d))
        (with_payload-AreOf d.spec.id services.read_kind grpc_method services.payloads.parse_grpc
          d.spec (grpc_impact change.change_type change d)
          (grpc_impact-AreOf change.change_type change d))
        (with_payload-AreOf d.spec.id services.read_kind dubbo_method services.payloads.parse_dubbo
          d.spec (dubbo_impact change.change_type change d)
          (dubbo_impact-AreOf change.change_type change d))
        (with_payload-AreOf d.spec.id services.read_kind graphql_operation
          services.payloads.parse_graphql d.spec (graphql_impact change.change_type change d)
          (graphql_impact-AreOf change.change_type change d))

  -- What a spec is classified as has an item, which is of the spec.
  pub classify_impact-owner :
      (spec : ReadableContractSpecNode) (edge : SemanticRelationEdge) {items : List ImpactItem}
      → classify_impact services options change spec edge ≡ some items
      → (i : ImpactItem) × Memᴰ i items × (i.spec_id ≡ readable_id spec)
  unfolding classify_impact
  classify_impact-owner (opaque s) edge e = (_, subst (Memᴰ _) (some_inj e) (Memᴰ.head refl), refl)
  classify_impact-owner (known s) edge {items} e =
      let (found, ruled, e') = >>=-eq-some (apply_rules services options change _) _ e in
      one_of _ found refl (apply_rules-AreOf _ ruled) (some_inj e')
    where
      one_of :
          (other : ImpactItem) (found : List ImpactItem)
          → other.spec_id ≡ s.id
          → AreOf s.id found
          → (if is_empty found then other ∷ [] else found) ≡ items
          → (i : ImpactItem) × Memᴰ i items × (i.spec_id ≡ s.id)
      one_of other [] own _ same = (other, subst (Memᴰ other) same (Memᴰ.head refl), own)
      one_of other (i ∷ found) _ (own, _) same = (i, subst (Memᴰ i) same (Memᴰ.head refl), own)

  module _ (specs : List ReadableContractSpecNode) (relations : List SemanticRelationEdge) where
    -- The spec that is found under an id has this id.
    pub lookup-spec_map :
        (k : String) {s : ReadableContractSpecNode}
        → lookup k (spec_map services options change specs relations) ≡ some s
        → readable_id s ≡ k
    unfolding spec_map
    lookup-spec_map k {s} =
        for_each_keeps
          (λ (m : StrMap ReadableContractSpecNode). lookup k m ≡ some s → readable_id s ≡ k) specs
          (λ s. insert (readable_id s) s)
          (λ t m _ h e. elim (Bool-cases (str_eq (readable_id t) k)) [
            | inl same ↦
                let t_is_s : t ≡ s =
                  some_inj (sym (rw (lookup-insert (readable_id t) k t m, same)) ∙ e) in
                ap readable_id (sym t_is_s) ∙ (eq_iff _ _).0 same
            | inr other ↦ h (rw (lookup-insert (readable_id t) k t m, other) at e)
          ])
          [] (λ e. cc)

has_colon-kind_name : (k : SemanticRelationKind) → has_colon (kind_name k) ≡ false
has_colon-kind_name implements = refl
has_colon-kind_name calls_http = refl
has_colon-kind_name calls_dubbo = refl
has_colon-kind_name calls_grpc = refl
has_colon-kind_name calls_graphql = refl
has_colon-kind_name internal_call = refl
has_colon-kind_name publishes_event = refl
has_colon-kind_name subscribes_event = refl
has_colon-kind_name uses_schema = refl
has_colon-kind_name request_schema = refl
has_colon-kind_name response_schema = refl
has_colon-kind_name event_payload = refl
has_colon-kind_name compatible_with = refl
has_colon-kind_name breaks = refl
has_colon-kind_name impacts = refl

-- Two steps with one key lead to the same spec.
pub step_key_impacted :
    (s t : ImpactPathStep) → step_key s ≡ step_key t → s.impacted_spec_id ≡ t.impacted_spec_id
step_key_impacted s t e =
    elim (joined_cases s.impacted_spec_id t.impacted_spec_id (kind_name s.edge.kind)
      (kind_name t.edge.kind)
      (sym (template-joined s.impacted_spec_id (kind_name s.edge.kind))
        ∙ e
        ∙ template-joined t.impacted_spec_id (kind_name t.edge.kind))) [
          | inl (same, _) ↦ same
          | inr (inl (z, _, longer)) ↦
              absurd (no_colon s.edge.kind z (kind_name t.edge.kind) longer)
          | inr (inr (z, _, longer)) ↦
              absurd (no_colon t.edge.kind z (kind_name s.edge.kind) longer)
        ]
  where
    no_colon : (k : SemanticRelationKind) (a b : String) → ¬ (kind_name k ≡ joined_by_colon a b)
    no_colon k a b same =
        let yes : has_colon (kind_name k) ≡ true = ap has_colon same ∙ has_colon-joined a b in
        let no = has_colon-kind_name k in cc

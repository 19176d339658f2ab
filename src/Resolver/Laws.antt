-- ===== src/Resolver/Laws.antt =====
-- What the resolver returns: the roles that the repositories declare, and of every logical edge the
-- surest of the domains' edges.
use mathlib.Core.List.Memᴰ
use logiclens.Shared.{
  false, ◌&&◌, ◌≤◌, some, List, [], ◌∷◌, ◌++◌, map, Memᴰ, ◌≡◌, refl, sym, subst, ap, ◌∙◌, inl, inr,
  arith, str_eq, eq_refl, eq_iff, is_empty, find, find-filter, bucket, insert, group_by,
  bucket-group_by, lookup, lookup-insert, for_each, for_each_settles, keep_best_origin,
  keep_best_covers, mem_of_lookup, values-mem, values-keep_best-IsDistinct, map-IsDistinct_inj,
  mem-keep_best, IsDistinct, Bool-cases, some_inj, >>=-eq-some,
}
use logiclens.Nodes.{
  ContractSpecNode, RepoContractEdge, ContractRole, SemanticRelationEdge, edge_key,
}
use logiclens.Specs.{Services, Parsed, GrpcMethodSpec}
use logiclens.Matching.Schema.{resolve_schema_relations}
use logiclens.Matching.Roles.{SpecRoleMap, role_key, role_of}
use logiclens.Matching.Grpc.{resolve_grpc_relations, grpc_edge}
use logiclens.Matching.Grpc.Laws.{IsGrpcCall, resolve_grpc_complete}
use logiclens.Matching.Graphql.{resolve_graphql_relations, graphql_edge}
use logiclens.Matching.Graphql.Laws.{IsGraphqlCall, resolve_graphql_complete}
use logiclens.Matching.Http.Resolve.{resolve_http_relations}
use logiclens.Matching.Event.{resolve_event_relations}
use logiclens.Matching.Dubbo.{resolve_dubbo_relations}
use logiclens.Matching.Internal.{resolve_internal_call_relations}
use logiclens.Resolver.{
  ResolveSemanticRelationsInput, role_or_shared, build_spec_role_map, is_surer, deduplicate_edges,
  all_edges, resolve_semantic_relations,
}

-- The role that the first edge of a repository to a contract declares.
pub declared_role : List RepoContractEdge → ContractSpecNode → ContractRole
declared_role contracts s = role_or_shared (
    find
      (λ (e : RepoContractEdge). str_eq e.contract_id s.contract_id && str_eq e.repo_id s.repo_id)
      contracts)

module _ (specs : List ContractSpecNode) (contracts : List RepoContractEdge)
    (s : ContractSpecNode) where
  abbrev indexed_role : ContractSpecNode → ContractRole
  indexed_role t = role_or_shared (
      find (λ (e : RepoContractEdge). str_eq e.repo_id t.repo_id)
        (bucket t.contract_id (group_by (λ (e : RepoContractEdge). e.contract_id) contracts)))

  indexed_role_lem : (t : ContractSpecNode) → indexed_role t ≡ declared_role contracts t
  unfolding declared_role
  indexed_role_lem t = ap role_or_shared (
      ap (find (λ (e : RepoContractEdge). str_eq e.repo_id t.repo_id))
        (bucket-group_by (λ (e : RepoContractEdge). e.contract_id) t.contract_id contracts)
      ∙ find-filter _ _ contracts)

  abbrev HasRole : SpecRoleMap → Type 0
  HasRole m = lookup (role_key s) m ≡ some (declared_role contracts s)

  abbrev set_role : ContractSpecNode → SpecRoleMap → SpecRoleMap
  set_role t = insert (role_key t) (indexed_role t)

  same_role :
      (t : ContractSpecNode)
      → (t.contract_id ≡ s.contract_id) × (t.repo_id ≡ s.repo_id)
      → declared_role contracts t ≡ declared_role contracts s
  unfolding declared_role
  same_role t (c, r) = rw (c, r)

  set_role-HasRole :
      (t : ContractSpecNode) (m : SpecRoleMap)
      → (role_key t ≡ role_key s → (t.contract_id ≡ s.contract_id) × (t.repo_id ≡ s.repo_id))
      → HasRole m
      → HasRole (set_role t m)
  set_role-HasRole t m apart h = elim (Bool-cases (str_eq (role_key t) (role_key s))) [
    | inl same ↦
        rw (lookup-insert (role_key t) (role_key s) (indexed_role t) m, same)
          (ap some (indexed_role_lem t ∙ same_role t (apart ((eq_iff _ _).0 same))))
    | inr other ↦ rw (lookup-insert (role_key t) (role_key s) (indexed_role t) m, other) h
  ]

  sets_role : (m : SpecRoleMap) → HasRole (set_role s m)
  sets_role m =
      rw (lookup-insert (role_key s) (role_key s) (indexed_role s) m, eq_refl (role_key s))
        (ap some (indexed_role_lem s))

  -- The role that the map gives to a spec of the input is that of the first edge from its
  -- repository to its contract, or shared without one, if no other spec of the input has the same
  -- key with another contract or repository.
  pub build_spec_role_map_lem :
      Memᴰ s specs
      → ((t : ContractSpecNode)
          → Memᴰ t specs
          → role_key t ≡ role_key s
          → (t.contract_id ≡ s.contract_id) × (t.repo_id ≡ s.repo_id))
      → role_of (build_spec_role_map specs contracts) s ≡ declared_role contracts s
  unfolding build_spec_role_map
  build_spec_role_map_lem listed apart =
      let found : HasRole (for_each specs set_role []) =
        for_each_settles HasRole specs set_role listed sets_role
          (λ t m mt h. set_role-HasRole t m (apart t mt) h) [] in
      rw found

abbrev IsBelow : SemanticRelationEdge → SemanticRelationEdge → Type 0
IsBelow d e = d.confidence ≤ e.confidence

deduplicate_edges_keeps :
    (edges : List SemanticRelationEdge) (d : SemanticRelationEdge)
    → Memᴰ d edges
    → (e : SemanticRelationEdge) × Memᴰ e (deduplicate_edges edges)
      × (edge_key e ≡ edge_key d)
      × (d.confidence ≤ e.confidence)
unfolding deduplicate_edges
deduplicate_edges_keeps edges d m =
    let (e, found, above) =
      keep_best_covers edge_key is_surer IsBelow (λ x. omega arith) (λ x y z p q. omega arith)
        (λ x y h. ground arith) (λ x y h. ground arith) edges m in
    let (_, same) = keep_best_origin edge_key is_surer edges found in
    (e, values-mem _ (mem_of_lookup _ found), same, above)

pub deduplicate_edges-IsDistinct :
    (edges : List SemanticRelationEdge) → IsDistinct (map edge_key (deduplicate_edges edges))
unfolding deduplicate_edges
deduplicate_edges-IsDistinct edges = values-keep_best-IsDistinct edge_key is_surer edges

deduplicate_edges_sound :
    (edges : List SemanticRelationEdge) {d : SemanticRelationEdge}
    → Memᴰ d (deduplicate_edges edges)
    → Memᴰ d edges
unfolding deduplicate_edges
deduplicate_edges_sound edges m = mem-keep_best edge_key is_surer edges m

-- For every edge of the list the deduplicated list has an edge with its key, and only one. It is an
-- edge of the list, and no edge of the list with this key has a higher confidence.
pub deduplicate_edges_covers :
    (edges : List SemanticRelationEdge) (d : SemanticRelationEdge)
    → Memᴰ d edges
    → (e : SemanticRelationEdge) × Memᴰ e (deduplicate_edges edges)
      × Memᴰ e edges
      × (edge_key e ≡ edge_key d)
      × ((x : SemanticRelationEdge)
          → Memᴰ x edges
          → edge_key x ≡ edge_key d
          → x.confidence ≤ e.confidence)
      × ((x : SemanticRelationEdge)
          → Memᴰ x (deduplicate_edges edges)
          → edge_key x ≡ edge_key d
          → x ≡ e)
deduplicate_edges_covers edges d m =
    let (e, kept, key, _) = deduplicate_edges_keeps edges d m in
    let only =
      λ (x : SemanticRelationEdge) (mx : Memᴰ x (deduplicate_edges edges))
          (same : edge_key x ≡ edge_key d).
        map-IsDistinct_inj edge_key _ (deduplicate_edges-IsDistinct edges) mx kept
          (same ∙ sym key) in
    (
      e,
      kept,
      deduplicate_edges_sound edges kept,
      key,
      λ x mx same.
          let (y, my, key_y, above) = deduplicate_edges_keeps edges x mx in
          subst (λ (z : SemanticRelationEdge). x.confidence ≤ z.confidence)
            (only y my (key_y ∙ same)) above,
      only,
    )

abbrev pub roles_of : ResolveSemanticRelationsInput → SpecRoleMap
roles_of input = build_spec_role_map input.contract_specs input.repo_contracts

-- What the domains returned, and their edges in order.
pub record Found (services : Services) (specs : List ContractSpecNode) (roles : SpecRoleMap)
    (existing edges : List SemanticRelationEdge) : Type 0 where
  pub before_schema : List SemanticRelationEdge
  pub grpc : List SemanticRelationEdge
  pub grpc_returned : resolve_grpc_relations services.parse_grpc specs roles ≡ some grpc
  pub dubbo : List SemanticRelationEdge
  pub joined :
      edges
      ≡ before_schema
        ++ resolve_schema_relations services specs roles existing
        ++ grpc
        ++ dubbo
        ++ resolve_graphql_relations specs roles
        ++ resolve_internal_call_relations specs roles

pub all_edges-Found :
    (services : Services) (specs : List ContractSpecNode) (roles : SpecRoleMap)
    (existing : List SemanticRelationEdge) {edges : List SemanticRelationEdge}
    → all_edges services specs roles existing ≡ some edges
    → Found services specs roles existing edges
unfolding all_edges
all_edges-Found services specs roles existing all =
    let (http, _, e1) =
      >>=-eq-some (resolve_http_relations services.parse_http specs roles) _ all in
    let (event, _, e2) =
      >>=-eq-some (resolve_event_relations services.parse_event specs roles) _ e1 in
    let (grpc, found, e4) =
      >>=-eq-some (resolve_grpc_relations services.parse_grpc specs roles) _ e2 in
    let (dubbo, _, e5) =
      >>=-eq-some (resolve_dubbo_relations services.lowercase services.parse_dubbo specs roles) _
        e4 in
    record {
      before_schema = http ++ event;
      grpc = grpc;
      grpc_returned = found;
      dubbo = dubbo;
      joined = sym (some_inj e5);
    }

module _ (services : Services) (input : ResolveSemanticRelationsInput)
    {es : List SemanticRelationEdge} where
  -- Input with a spec: the result is what is left of the edges of the domains.
  pub resolved :
      {s : ContractSpecNode}
      → Memᴰ s input.contract_specs
      → resolve_semantic_relations services input ≡ some es
      → (edges : List SemanticRelationEdge) × (all_edges services input.contract_specs
            (roles_of input)
            input.existing_semantic_relations
          ≡ some edges)
        × (deduplicate_edges edges ≡ es)
  unfolding resolve_semantic_relations
  resolved m e =
      let (edges, p, q) =
        >>=-eq-some
          (all_edges services input.contract_specs (roles_of input)
            input.existing_semantic_relations)
          _ (rw (some_spec input.contract_specs m) at e) in
      (edges, p, some_inj q)
    where
      some_spec :
          (specs : List ContractSpecNode) {s : ContractSpecNode}
          → Memᴰ s specs
          → is_empty specs ≡ false
      some_spec [] m = absurd (Memᴰ.not-nil m)
      some_spec (x ∷ specs) m = refl

  -- Whatever edge a domain finds, the result has one with the same key and at least its confidence.
  pub covers :
      {s : ContractSpecNode} {edges : List SemanticRelationEdge} {d : SemanticRelationEdge}
      → Memᴰ s input.contract_specs
      → resolve_semantic_relations services input ≡ some es
      → all_edges services input.contract_specs (roles_of input) input.existing_semantic_relations
        ≡ some edges
      → Memᴰ d edges
      → (e : SemanticRelationEdge) × Memᴰ e es
        × (edge_key e ≡ edge_key d)
        × (d.confidence ≤ e.confidence)
  covers {d = d} ms returned all m =
      let (edges', p, q) = resolved ms returned in
      let (e, me, k, c) =
        deduplicate_edges_keeps edges' d (subst (Memᴰ d) (some_inj (sym all ∙ p)) m) in
      (e, subst (Memᴰ e) q me, k, c)

  -- If the resolver returns, no two edges of the result have the same key of ends and kind.
  pub resolve_semantic_relations-IsDistinct :
      resolve_semantic_relations services input ≡ some es → IsDistinct (map edge_key es)
  unfolding resolve_semantic_relations
  resolve_semantic_relations-IsDistinct returned =
      elim (Bool-cases (is_empty input.contract_specs)) [
        | inl empty ↦ subst (λ l. IsDistinct (map edge_key l)) (some_inj (rw empty at returned)) tt
        | inr full ↦
            let (edges, _, q) =
              >>=-eq-some
                (all_edges services input.contract_specs (roles_of input)
                  input.existing_semantic_relations)
                _ (rw full at returned) in
            subst (λ l. IsDistinct (map edge_key l)) (some_inj q)
              (deduplicate_edges-IsDistinct edges)
      ]

  -- If the resolver returns, a consumer and a producer of the input with the same GraphQL key, in
  -- different repositories, have an edge of their key in the result.
  pub resolve_semantic_relations-graphql :
      resolve_semantic_relations services input ≡ some es
      → (c p : ContractSpecNode) → IsGraphqlCall input.contract_specs (roles_of input) c p
      → (e : SemanticRelationEdge) × Memᴰ e es × (edge_key e ≡ edge_key (graphql_edge c p))
  resolve_semantic_relations-graphql returned c p h =
      let (edges, all, q) = resolved h.consumer returned in
      let found = all_edges-Found services input.contract_specs (roles_of input) _ all in
      let (d, m, key) = resolve_graphql_complete input.contract_specs (roles_of input) c p h in
      let (e, me, k, _) =
        covers h.consumer returned all
          (subst (Memᴰ d) (sym found.joined) (Memᴰ.append_left _ (Memᴰ.append_right _ m))) in
      (e, me, k ∙ key)

  -- If the resolver returns, a consumer and a producer of the input with the same gRPC service and
  -- method, in different repositories, have an edge of their key in the result.
  pub resolve_semantic_relations-grpc :
      resolve_semantic_relations services input ≡ some es
      → (c p : Parsed GrpcMethodSpec)
      → IsGrpcCall services.parse_grpc input.contract_specs (roles_of input) c p
      → (e : SemanticRelationEdge) × Memᴰ e es × (edge_key e ≡ edge_key (grpc_edge c p))
  resolve_semantic_relations-grpc returned c p h =
      let (edges, all, q) = resolved h.consumer.listed returned in
      let found = all_edges-Found services input.contract_specs (roles_of input) _ all in
      let (d, m, key) =
        resolve_grpc_complete services.parse_grpc input.contract_specs (roles_of input)
          found.grpc_returned c p h in
      let (e, me, k, _) = covers h.consumer.listed returned all (
        subst (Memᴰ d) (sym found.joined)
          (Memᴰ.append_left _ (Memᴰ.append_left _ (Memᴰ.append_left _ (Memᴰ.append_right _ m))))) in
      (e, me, k ∙ key)

-- ===== src/Matching/Graphql/Laws.antt =====
-- What the GraphQL edges are.
use logiclens.Shared.{
  true, List, [], ◌∷◌, map, Memᴰ, ◌≡◌, refl, sym, ap, subst, for_each_idle, ◌↔◌, eq_iff, filter,
  mem-filter, mem-when, mem-singleton, IsDistinct,
}
use logiclens.Nodes.{ContractSpecNode, graphql_operation, SemanticRelationEdge, edge_key}
use logiclens.Matching.Roles.{SpecRoleMap, split_by_role_lem, produces, consumes}
use logiclens.Matching.Links.{
  Emitted, pair_up, nothing, pair_up_sound, pair_up_complete, pair_up-IsKeyed, nothing-IsKeyed,
}
use logiclens.Matching.Pairs.{IsAcross, mem-across}
use logiclens.Matching.Graphql.{graphql_edge, link, pair_parts, resolve_graphql_relations}

mem-link :
    (c p : ContractSpecNode) (d : SemanticRelationEdge)
    → Memᴰ d (link c p)
      ↔ (IsAcross c p × (c.canonical_key ≡ p.canonical_key) × (d ≡ graphql_edge c p))
unfolding link
mem-link c p d = (
  λ m.
      let (h, m') = (mem-across c p _).0 m in
      let (e, m'') = (mem-when _ _).0 m' in (h, (eq_iff _ _).0 e, (mem-singleton _).0 m''),
  λ (h, e, f). (mem-across c p _).1 (h, (mem-when _ _).1 ((eq_iff _ _).1 e, (mem-singleton _).1 f)),
)

-- With a side empty the pairing returns no edge either.
pair_parts_lem :
    (made used : List ContractSpecNode)
    → pair_parts (record { producers = made; consumers = used })
      ≡ (pair_up (λ c. made) link used nothing).edges
unfolding pair_parts pair_up
pair_parts_lem [] [] = refl
pair_parts_lem (p ∷ made) [] = refl
pair_parts_lem [] (c ∷ used) = ap (λ (st : Emitted). st.edges) (sym (for_each_idle used nothing))
pair_parts_lem (p ∷ made) (c ∷ used) = refl

module _ (specs : List ContractSpecNode) (roles : SpecRoleMap) where
  -- A consumer and a producer of the input that should be related.
  pub record IsGraphqlCall (c p : ContractSpecNode) : Type 0 where
    pub consumer : Memᴰ c specs
    pub consumes_it : consumes graphql_operation roles c ≡ true
    pub producer : Memᴰ p specs
    pub produces_it : produces graphql_operation roles p ≡ true
    pub apart : IsAcross c p
    pub key : c.canonical_key ≡ p.canonical_key

  abbrev made : List ContractSpecNode
  made = filter (produces graphql_operation roles) specs

  abbrev used : List ContractSpecNode
  used = filter (consumes graphql_operation roles) specs

  paired : resolve_graphql_relations specs roles ≡ (pair_up (λ c. made) link used nothing).edges
  unfolding resolve_graphql_relations
  paired = rw (split_by_role_lem graphql_operation roles specs) (pair_parts_lem made used)

  -- Every edge that the GraphQL resolver returns is the edge of a consumer and a producer of the
  -- input with the same canonical key, in different repositories.
  pub resolve_graphql_sound :
      (d : SemanticRelationEdge)
      → Memᴰ d (resolve_graphql_relations specs roles)
      → (c p : ContractSpecNode) × IsGraphqlCall c p × (d ≡ graphql_edge c p)
  resolve_graphql_sound d m =
      let l = pair_up_sound (λ c. made) link used d (subst (Memᴰ d) paired m) in
      let (apart, key, same) = (mem-link l.from l.to d).0 l.linked in
      let (listed_c, role_c) = (mem-filter _ specs).0 l.from_listed in
      let (listed_p, role_p) = (mem-filter _ specs).0 l.to_listed in
      (
        l.from,
        l.to,
        record {
          consumer = listed_c;
          consumes_it = role_c;
          producer = listed_p;
          produces_it = role_p;
          apart = apart;
          key = key;
        },
        same,
      )

  -- Every consumer and producer of the input with the same canonical key, in different
  -- repositories, have an edge of their key in the result.
  pub resolve_graphql_complete :
      (c p : ContractSpecNode)
      → IsGraphqlCall c p
      → (d : SemanticRelationEdge) × Memᴰ d (resolve_graphql_relations specs roles)
        × (edge_key d ≡ edge_key (graphql_edge c p))
  resolve_graphql_complete c p h = rw paired (
      pair_up_complete (λ c. made) link used c p (graphql_edge c p)
        ((mem-filter _ specs).1 (h.consumer, h.consumes_it))
        ((mem-filter _ specs).1 (h.producer, h.produces_it))
        ((mem-link c p _).1 (h.apart, h.key, refl)))

  -- No two edges of the result have the same key.
  pub resolve_graphql-IsDistinct : IsDistinct (map edge_key (resolve_graphql_relations specs roles))
  resolve_graphql-IsDistinct =
      rw paired (pair_up-IsKeyed (λ c. made) link used nothing nothing-IsKeyed).distinct

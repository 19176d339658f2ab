-- ===== src/Matching/Grpc/Laws.antt =====
-- What the gRPC edges are: one for each cross-repository pair with the same service and method.
use logiclens.Shared.{
  String, Option, none, some, List, map, Memᴰ, ◌≡◌, refl, ◌≢◌, ◌↔◌, arith, str_eq, eq_iff,
  get_or_else, mem-filter, mem-when, mem-singleton, IsDistinct, bucket-group_by,
}
use logiclens.Nodes.{ContractSpecNode, grpc_method, SemanticRelationEdge, edge_key}
use logiclens.Specs.{GrpcMethodSpec, Parsed}
use logiclens.Matching.Roles.{SpecRoleMap}
use logiclens.Matching.Pairs.{IsAcross, mem-across, IsConsumer, IsProducer}
use logiclens.Matching.Frame.Laws.{
  resolve_pairs_sound, resolve_pairs_complete, resolve_pairs-IsDistinct, resolve_pairs_total,
}
use logiclens.Matching.Grpc.{classify, grpc_edge, link, candidates, resolve_grpc_relations}

mem-candidates :
    (ps : List (Parsed GrpcMethodSpec)) (c p : Parsed GrpcMethodSpec)
    → Memᴰ p (candidates ps c) ↔ (Memᴰ p ps × (p.spec.service ≡ c.spec.service))
unfolding candidates
mem-candidates ps c p =
    let same =
      mem-filter (λ (q : Parsed GrpcMethodSpec). str_eq q.spec.service c.spec.service) ps {a = p} in
    rw (bucket-group_by (λ (q : Parsed GrpcMethodSpec). q.spec.service) c.spec.service ps) (
      (λ m. let (listed, e) = same.0 m in (listed, (eq_iff _ _).0 e)),
      (λ (listed, e). same.1 (listed, (eq_iff _ _).1 e)),
    )

mem-link :
    (c p : Parsed GrpcMethodSpec) (d : SemanticRelationEdge)
    → Memᴰ d (link c p)
      ↔ (IsAcross c.node p.node × (c.spec.method ≡ p.spec.method) × (d ≡ grpc_edge c p))
unfolding link
mem-link c p d = (
  λ m.
      let (h, m') = (mem-across c.node p.node _).0 m in
      let (e, m'') = (mem-when _ _).0 m' in (h, (eq_iff _ _).0 e, (mem-singleton _).0 m''),
  λ (h, e, f).
      (mem-across c.node p.node _).1
        (h, (mem-when _ _).1 ((eq_iff _ _).1 e, (mem-singleton _).1 f)),
)

module _ (parse : String → Option GrpcMethodSpec) (specs : List ContractSpecNode)
    (roles : SpecRoleMap) where
  -- A consumer and a producer of the input that should be related.
  pub record IsGrpcCall (c p : Parsed GrpcMethodSpec) : Type 0 where
    pub consumer : IsConsumer parse grpc_method roles specs c
    pub producer : IsProducer parse grpc_method roles specs p
    pub apart : IsAcross c.node p.node
    pub service : p.spec.service ≡ c.spec.service
    pub method : c.spec.method ≡ p.spec.method

  module _ {es : List SemanticRelationEdge}
      (returned : resolve_grpc_relations parse specs roles ≡ some es) where
    -- If the gRPC resolver returns, every edge of the result is the edge of a consumer and a
    -- producer of the input with the same service and method, in different repositories.
    pub resolve_grpc_sound :
        (d : SemanticRelationEdge)
        → Memᴰ d es
        → (c p : Parsed GrpcMethodSpec) × IsGrpcCall c p × (d ≡ grpc_edge c p)
    unfolding resolve_grpc_relations
    resolve_grpc_sound d m =
        let r = resolve_pairs_sound parse grpc_method candidates link specs roles returned d m in
        let (listed, service) = (mem-candidates r.sources r.from r.to).0 r.candidate in
        let (apart, method, same) = (mem-link r.from r.to d).0 r.linked in
        (
          r.from,
          r.to,
          record {
            consumer = r.consumer;
            producer = (r.all_sources r.to).0 listed;
            apart = apart;
            service = service;
            method = method;
          },
          same,
        )

    -- If the gRPC resolver returns, every consumer and producer of the input with the same service
    -- and method, in different repositories, have an edge of their key in the result.
    pub resolve_grpc_complete :
        (c p : Parsed GrpcMethodSpec)
        → IsGrpcCall c p
        → (d : SemanticRelationEdge) × Memᴰ d es × (edge_key d ≡ edge_key (grpc_edge c p))
    unfolding resolve_grpc_relations
    resolve_grpc_complete c p h =
        resolve_pairs_complete parse grpc_method candidates link specs roles returned c p
          (grpc_edge c p) h.consumer h.producer
          (λ ps all. (mem-candidates ps c p).1 ((all p).1 h.producer, h.service))
          ((mem-link c p _).1 (h.apart, h.method, refl))

    -- No two edges of the result have the same key.
    pub resolve_grpc-IsDistinct : IsDistinct (map edge_key es)
    unfolding resolve_grpc_relations
    resolve_grpc-IsDistinct =
        resolve_pairs-IsDistinct parse grpc_method candidates link specs roles returned

  -- The gRPC resolver returns if the payload of every gRPC spec parses.
  pub resolve_grpc_total :
      ((s : ContractSpecNode) → Memᴰ s specs → s.spec_kind ≡ grpc_method → parse s.spec_json ≢ none)
      → (es : List SemanticRelationEdge) × (resolve_grpc_relations parse specs roles ≡ some es)
  unfolding resolve_grpc_relations
  resolve_grpc_total = resolve_pairs_total parse grpc_method candidates link specs roles

-- The confidence of a pair does not depend on which side is the consumer.
pub classify_symm : (c p : GrpcMethodSpec) → (classify c p).confidence ≡ (classify p c).confidence
unfolding classify
classify_symm c p = ground (
  arith,
  eq_iff (get_or_else c.package_name "") (get_or_else p.package_name ""),
  eq_iff (get_or_else p.package_name "") (get_or_else c.package_name ""),
)

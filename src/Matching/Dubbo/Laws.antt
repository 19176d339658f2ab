-- ===== src/Matching/Dubbo/Laws.antt =====
-- What the Dubbo edges are, and which repositories a consumer is related to.
use logiclens.Shared.{
  String, true, Option, none, some, List, map, Memᴰ, ◌≡◌, refl, sym, ◌∙◌, subst, ◌≢◌, ◌↔◌, eq_iff,
  mem-filter, mem-singleton, IsDistinct, bucket, group_by, bucket-group_by,
}
use logiclens.Nodes.{ContractSpecNode, dubbo_method, SemanticRelationEdge, edge_key}
use logiclens.Specs.{DubboMethodSpec, Parsed}
use logiclens.Matching.Roles.{SpecRoleMap}
use logiclens.Matching.Pairs.{IsAcross, mem-across, IsConsumer, IsProducer}
use logiclens.Matching.Frame.Laws.{
  resolve_pairs_sound, resolve_pairs_sources, resolve_pairs-IsDistinct, resolve_pairs_total,
}
use logiclens.Matching.Dubbo.{
  interface_key, methods_compatible, selection_key, dubbo_edge, link, candidates,
  resolve_dubbo_relations,
}
use logiclens.Matching.Dubbo.Selection.{select_sound, select_covers}

mem-link :
    (c p : Parsed DubboMethodSpec) (d : SemanticRelationEdge)
    → Memᴰ d (link c p) ↔ (IsAcross c.node p.node × (d ≡ dubbo_edge c p))
unfolding link
mem-link c p d = (
  λ m. let (h, m') = (mem-across c.node p.node _).0 m in (h, (mem-singleton _).0 m'),
  λ (h, e). (mem-across c.node p.node _).1 (h, (mem-singleton _).1 e),
)

module _ (lowercase : String → String) (parse : String → Option DubboMethodSpec)
    (specs : List ContractSpecNode) (roles : SpecRoleMap) where
  -- The producers of the consumer's interface.
  abbrev rivals :
      List (Parsed DubboMethodSpec) → Parsed DubboMethodSpec → List (Parsed DubboMethodSpec)
  rivals ps c =
      bucket (interface_key lowercase c.spec) (group_by (λ p. interface_key lowercase p.spec) ps)

  mem-rivals :
      (ps : List (Parsed DubboMethodSpec)) (c : Parsed DubboMethodSpec) {p : Parsed DubboMethodSpec}
      → Memᴰ p (rivals ps c)
        ↔ (Memᴰ p ps × (interface_key lowercase p.spec ≡ interface_key lowercase c.spec))
  mem-rivals ps c {p} =
      let grouped =
        bucket-group_by (λ (q : Parsed DubboMethodSpec). interface_key lowercase q.spec)
          (interface_key lowercase c.spec) ps in
      (
        λ m.
            let (listed, e) = (mem-filter _ ps).0 (subst (Memᴰ p) grouped m) in
            (listed, (eq_iff _ _).0 e),
        λ (listed, e).
            subst (Memᴰ p) (sym grouped) ((mem-filter _ ps).1 (listed, (eq_iff _ _).1 e)),
      )

  -- A consumer and a producer of the input with the same interface and compatible methods.
  pub record IsDubboCall (c p : Parsed DubboMethodSpec) : Type 0 where
    pub consumer : IsConsumer parse dubbo_method roles specs c
    pub producer : IsProducer parse dubbo_method roles specs p
    pub apart : IsAcross c.node p.node
    pub interface : interface_key lowercase p.spec ≡ interface_key lowercase c.spec
    pub method : methods_compatible c.spec.method p.spec.method ≡ true

  module _ {es : List SemanticRelationEdge}
      (returned : resolve_dubbo_relations lowercase parse specs roles ≡ some es) where
    -- If the Dubbo resolver returns, every edge of the result is the edge of a consumer and a
    -- producer of the input with the same interface and compatible methods, in different
    -- repositories.
    pub resolve_dubbo_sound :
        (d : SemanticRelationEdge)
        → Memᴰ d es
        → (c p : Parsed DubboMethodSpec) × IsDubboCall c p × (d ≡ dubbo_edge c p)
    unfolding resolve_dubbo_relations candidates
    resolve_dubbo_sound d m =
        let r =
          resolve_pairs_sound parse dubbo_method (candidates lowercase) link specs roles returned d
            m in
        let (rival, method) = select_sound r.from.spec (rivals r.sources r.from) r.candidate in
        let (listed, interface) = (mem-rivals r.sources r.from).0 rival in
        let (apart, same) = (mem-link r.from r.to d).0 r.linked in
        (
          r.from,
          r.to,
          record {
            consumer = r.consumer;
            producer = (r.all_sources r.to).0 listed;
            apart = apart;
            interface = interface;
            method = method;
          },
          same,
        )

    -- If the Dubbo resolver returns, and the selection keys of the input's producers and the ids
    -- of its specs tell their repositories apart, then for every consumer and producer of the same
    -- interface with compatible methods, in different repositories, the result has an edge from
    -- the consumer to such a producer of that producer's repository.
    pub resolve_dubbo_reaches :
        ((v w : Parsed DubboMethodSpec)
          → IsProducer parse dubbo_method roles specs v
          → IsProducer parse dubbo_method roles specs w
          → selection_key v ≡ selection_key w
          → v.node.repo_id ≡ w.node.repo_id)
        → ((s t : ContractSpecNode)
            → Memᴰ s specs
            → Memᴰ t specs
            → s.id ≡ t.id
            → s.repo_id ≡ t.repo_id)
        → (c p : Parsed DubboMethodSpec) → IsDubboCall c p
        → (q : Parsed DubboMethodSpec) × (d : SemanticRelationEdge) × IsDubboCall c q
          × (q.node.repo_id ≡ p.node.repo_id)
          × Memᴰ d es
          × (edge_key d ≡ edge_key (dubbo_edge c q))
    unfolding resolve_dubbo_relations candidates
    resolve_dubbo_reaches keys ids c p h =
        let s =
          resolve_pairs_sources parse dubbo_method (candidates lowercase) link specs roles returned
            c p h.consumer h.producer in
        let is_made = λ (v : Parsed DubboMethodSpec) (m : Memᴰ v (rivals s.sources c)).
          (s.all_sources v).0 ((mem-rivals s.sources c).0 m).0 in
        let (q, selected, repo) =
          select_covers c.spec (rivals s.sources c)
            (λ v w mv mw. keys v w (is_made v mv) (is_made w mw)) p
            ((mem-rivals s.sources c).1 ((s.all_sources p).1 h.producer, h.interface)) h.method in
        let (rival, method) = select_sound c.spec (rivals s.sources c) selected in
        let made = is_made q rival in
        let repos = λ (e : c.node.repo_id ≡ q.node.repo_id). h.apart.repos (e ∙ repo) in
        let across : IsAcross c.node q.node = record {
          ids = λ e. repos (ids c.node q.node h.consumer.listed made.listed e);
          repos = repos;
        } in
        let (d, m, same) =
          s.reaches q (dubbo_edge c q) selected ((mem-link c q _).1 (across, refl)) in
        (
          q,
          d,
          record {
            consumer = h.consumer;
            producer = made;
            apart = across;
            interface = ((mem-rivals s.sources c).0 rival).1;
            method = method;
          },
          repo,
          m,
          same,
        )

    -- No two edges of the result have the same key.
    pub resolve_dubbo-IsDistinct : IsDistinct (map edge_key es)
    unfolding resolve_dubbo_relations
    resolve_dubbo-IsDistinct =
        resolve_pairs-IsDistinct parse dubbo_method (candidates lowercase) link specs roles returned

  -- The Dubbo resolver returns if the payload of every Dubbo spec parses.
  pub resolve_dubbo_total :
      ((s : ContractSpecNode)
        → Memᴰ s specs
        → s.spec_kind ≡ dubbo_method
        → parse s.spec_json ≢ none)
      → (es : List SemanticRelationEdge) × (resolve_dubbo_relations lowercase parse specs roles
          ≡ some es)
  unfolding resolve_dubbo_relations
  resolve_dubbo_total =
      resolve_pairs_total parse dubbo_method (candidates lowercase) link specs roles

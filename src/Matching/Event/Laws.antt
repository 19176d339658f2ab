-- ===== src/Matching/Event/Laws.antt =====
-- What the event edges are: two for each pair of a producer and a consumer of a topic.
use mathlib.Core.List.Memᴰ
use logiclens.Shared.{
  String, true, false, Option, some, List, [], ◌∷◌, map, Memᴰ, ◌≡◌, refl, sym, subst, ◌≢◌, ◌⊎◌, inl,
  inr, arith, ltb, length, length_of_ne, template, filter, mem-filter, >>=-eq-some, some_inj,
  Bool-cases, ◌∙◌, collect, collect_sound, collect_complete, IsDistinct, StrMap, str_eq,
}
use logiclens.Nodes.{
  ContractSpecNode, event, same_kind, same_kind_iff, SemanticRelationEdge, edge_key,
}
use logiclens.Specs.{EventSpec}
use logiclens.Matching.Roles.{
  SpecRoleMap, split_by_role_lem, produces, consumes, produces-kind, consumes-kind,
}
use logiclens.Matching.Links.Lists.{emit_all, emit_all_sound, emit_all_complete, emit_all-IsKeyed}
use logiclens.Matching.Pairs.{IsAcross, ne_of_str_eq, str_eq_of_ne}
use logiclens.Matching.Event.{
  topic_of, by_topic, publish_edge, subscribe_edge, both_edges, link, topic_links,
  resolve_event_relations,
}
use logiclens.Matching.Event.Topics.{mem_of_topic, topic_entry}

module _ (parse : String → Option EventSpec) where
  -- The two edges of a pair whose payloads read as `made` and `used`.
  pub record IsLinked (p c : ContractSpecNode) (d : SemanticRelationEdge) : Type 0 where
    pub made : EventSpec
    pub used : EventSpec
    pub topic : String
    pub made_read : parse p.spec_json ≡ some made
    pub used_read : parse c.spec_json ≡ some used
    pub topic_read : topic_of parse p ≡ some topic
    pub edge :
        (d ≡ publish_edge parse p c topic made used)
        ⊎ (d ≡ subscribe_edge parse p c topic made used)

  both_edges_sound :
      (p c : ContractSpecNode) (d : SemanticRelationEdge) {es : List SemanticRelationEdge}
      → both_edges parse p c ≡ some es
      → Memᴰ d es
      → IsLinked p c d
  unfolding both_edges
  both_edges_sound p c d e m =
      let (made, r, e') = >>=-eq-some (parse p.spec_json) _ e in
      let (used, s, e'') = >>=-eq-some (parse c.spec_json) _ e' in
      let (topic, t, e''') = >>=-eq-some (topic_of parse p) _ e'' in
      record {
        made = made;
        used = used;
        topic = topic;
        made_read = r;
        used_read = s;
        topic_read = t;
        edge = elim (Memᴰ.cases_cons (subst (Memᴰ d) (sym (some_inj e''')) m)) [
          | inl h ↦ inl h
          | inr h ↦ inr (Memᴰ.eq_of_singleton h)
        ];
      }

  link_sound :
      (p c : ContractSpecNode) (d : SemanticRelationEdge) {es : List SemanticRelationEdge}
      → link parse p c ≡ some es
      → Memᴰ d es
      → IsAcross p c × IsLinked p c d
  unfolding link
  link_sound p c d e m = elim (Bool-cases (str_eq p.id c.id)) [
    | inl same ↦ absurd (Memᴰ.not-nil (subst (Memᴰ d) (sym (some_inj (rw same at e))) m))
    | inr ids ↦ elim (Bool-cases (str_eq p.repo_id c.repo_id)) [
      | inl same ↦ absurd (Memᴰ.not-nil (subst (Memᴰ d) (sym (some_inj (rw (ids, same) at e))) m))
      | inr repos ↦ (
        record { ids = ne_of_str_eq _ _ ids; repos = ne_of_str_eq _ _ repos },
        both_edges_sound p c d (rw (ids, repos) at e) m,
      )
    ]
  ]

  abbrev pub publish_key : ContractSpecNode → ContractSpecNode → String
  publish_key p c = template (p.id ∷ ":" ∷ c.id ∷ ":" ∷ "PUBLISHES_EVENT" ∷ [])

  abbrev pub subscribe_key : ContractSpecNode → ContractSpecNode → String
  subscribe_key p c = template (c.id ∷ ":" ∷ p.id ∷ ":" ∷ "SUBSCRIBES_EVENT" ∷ [])

  -- An edge of the list has the key.
  abbrev pub HasKey : List SemanticRelationEdge → String → Type 0
  HasKey es k = (d : SemanticRelationEdge) × Memᴰ d es × (edge_key d ≡ k)

  link_complete :
      (p c : ContractSpecNode) {es : List SemanticRelationEdge}
      → IsAcross p c
      → link parse p c ≡ some es
      → HasKey es (publish_key p c) × HasKey es (subscribe_key p c)
  unfolding link both_edges publish_edge subscribe_edge
  link_complete p c {es} h e =
      let ids = str_eq_of_ne p.id c.id h.ids in
      let repos = str_eq_of_ne p.repo_id c.repo_id h.repos in
      let (made, r, e') = >>=-eq-some (parse p.spec_json) _ (rw (ids, repos) at e) in
      let (used, s, e'') = >>=-eq-some (parse c.spec_json) _ e' in
      let (topic, t, e''') = >>=-eq-some (topic_of parse p) _ e'' in
      (
        (
          publish_edge parse p c topic made used,
          subst (Memᴰ _) (some_inj e''') (Memᴰ.head refl),
          refl,
        ),
        (
          subscribe_edge parse p c topic made used,
          subst (Memᴰ _) (some_inj e''') (Memᴰ.tail (Memᴰ.head refl)),
          refl,
        ),
      )

  module _ (specs : List ContractSpecNode) (roles : SpecRoleMap) where
    -- A producer and a consumer of a topic that should be related.
    pub record IsEventPair (p c : ContractSpecNode) : Type 0 where
      pub producer : Memᴰ p specs
      pub produces_it : produces event roles p ≡ true
      pub consumer : Memᴰ c specs
      pub consumes_it : consumes event roles c ≡ true
      pub apart : IsAcross p c
      pub topic : String
      pub named : topic ≢ ""
      pub published : topic_of parse p ≡ some topic
      pub subscribed : topic_of parse c ≡ some topic

    abbrev events : List ContractSpecNode
    events = filter (λ s. same_kind s.spec_kind event) specs

    -- Either there are too few events, or they are filed and their links collected.
    data Run (es : List SemanticRelationEdge) : Type 0 where
      too_few : ltb (length events) 2 ≡ true → es ≡ [] → Run es
      linked :
          (topics : StrMap (List ContractSpecNode)) (links : List SemanticRelationEdge)
          → by_topic parse events [] ≡ some topics
          → collect (topic_links parse roles) topics ≡ some links
          → es ≡ (emit_all links).edges
          → Run es

    Run-of :
        {es : List SemanticRelationEdge}
        → resolve_event_relations parse specs roles ≡ some es
        → Run es
    unfolding resolve_event_relations
    Run-of h = elim (Bool-cases (ltb (length events) 2)) [
      | inl few ↦ too_few few (sym (some_inj (rw few at h)))
      | inr many ↦
          let (topics, e, h') = >>=-eq-some (by_topic parse events []) _ (rw many at h) in
          let (links, f, h'') = >>=-eq-some (collect (topic_links parse roles) topics) _ h' in
          linked topics links e f (sym (some_inj h''))
    ]

    topic_links_sound :
        (t : String) (g : List ContractSpecNode) {es : List SemanticRelationEdge}
        (d : SemanticRelationEdge)
        → topic_links parse roles (t, g) ≡ some es
        → Memᴰ d es
        → (p c : ContractSpecNode) × Memᴰ p (filter (produces event roles) g)
          × Memᴰ c (filter (consumes event roles) g)
          × IsAcross p c
          × IsLinked p c d
    unfolding topic_links
    topic_links_sound t g d e m = elim (Bool-cases (ltb (length g) 2)) [
      | inl few ↦ absurd (Memᴰ.not-nil (subst (Memᴰ d) (sym (some_inj (rw few at e))) m))
      | inr many ↦
          let e' = rw (many, split_by_role_lem event roles g) at e in
          let (p, ds, mp, f, md) = collect_sound _ (filter (produces event roles) g) e' m in
          let (c, ds', mc, f', md') =
            collect_sound (link parse p) (filter (consumes event roles) g) f md in
          let (apart, l) = link_sound p c d f' md' in (p, c, mp, mc, apart, l)
    ]

    -- If the event resolver returns, every edge of the result is the publishing or the subscribing
    -- edge of a producer and a consumer of the input with the same topic, in different
    -- repositories.
    pub resolve_event_sound :
        {es : List SemanticRelationEdge}
        → resolve_event_relations parse specs roles ≡ some es
        → (d : SemanticRelationEdge) → Memᴰ d es
        → (p c : ContractSpecNode) × IsEventPair p c × IsLinked p c d
    resolve_event_sound h d m = elim (Run-of h) [
      | too_few _ e ↦ absurd (Memᴰ.not-nil (subst (Memᴰ d) e m))
      | linked topics links filed collected e ↦
          let (tg, ds, mt, f, md) =
            collect_sound (topic_links parse roles) topics collected
              (emit_all_sound links d (subst (Memᴰ d) e m)) in
          let (p, c, mp, mc, apart, l) = topic_links_sound tg.0 tg.1 d f md in
          let (in_group, role) = (mem-filter _ tg.1).0 mp in
          let (in_group', role') = (mem-filter _ tg.1).0 mc in
          let (listed, published, named) = mem_of_topic parse events filed mt in_group in
          let (listed', subscribed, _) = mem_of_topic parse events filed mt in_group' in
          (
            p,
            c,
            record {
              producer = ((mem-filter _ specs).0 listed).0;
              produces_it = role;
              consumer = ((mem-filter _ specs).0 listed').0;
              consumes_it = role';
              apart = apart;
              topic = tg.0;
              named = named;
              published = published;
              subscribed = subscribed;
            },
            l,
          )
    ]

    two_of :
        (p c : ContractSpecNode) (g : List ContractSpecNode)
        → IsAcross p c
        → Memᴰ p g
        → Memᴰ c g
        → ltb (length g) 2 ≡ false
    two_of p c g h m n = let two = length_of_ne g m n (λ e. h.ids (λ i. (e i).id)) in ground arith

    topic_links_complete :
        (t : String) (g : List ContractSpecNode) {es : List SemanticRelationEdge}
        (p c : ContractSpecNode)
        → topic_links parse roles (t, g) ≡ some es
        → IsEventPair p c
        → Memᴰ p g
        → Memᴰ c g
        → HasKey es (publish_key p c) × HasKey es (subscribe_key p c)
    unfolding topic_links
    topic_links_complete t g p c e h mp mc =
        let e' = rw (two_of p c g h.apart mp mc, split_by_role_lem event roles g) at e in
        let (ds, f, keep) =
          collect_complete _ (filter (produces event roles) g) e'
            ((mem-filter _ g).1 (mp, h.produces_it)) in
        let (ds', f', keep') =
          collect_complete (link parse p) (filter (consumes event roles) g) f
            ((mem-filter _ g).1 (mc, h.consumes_it)) in
        let (pub_edge, sub_edge) = link_complete p c h.apart f' in
        (
          (pub_edge.0, keep pub_edge.0 (keep' pub_edge.0 pub_edge.1), pub_edge.2),
          (sub_edge.0, keep sub_edge.0 (keep' sub_edge.0 sub_edge.1), sub_edge.2),
        )

    -- If the event resolver returns, every producer and consumer of the input with the same topic,
    -- which is not empty, in different repositories, have a publishing and a subscribing edge of
    -- their keys in the result.
    pub resolve_event_complete :
        {es : List SemanticRelationEdge}
        → resolve_event_relations parse specs roles ≡ some es
        → (p c : ContractSpecNode) → IsEventPair p c
        → HasKey es (publish_key p c) × HasKey es (subscribe_key p c)
    resolve_event_complete {es} returned p c h = elim (Run-of returned) [
      | too_few few _ ↦ let two = two_of p c events h.apart is_event is_event' in cc
      | linked topics links filed collected e ↦
          let (g, mt, all) = topic_entry parse events filed h.named is_event h.published in
          let (bs, f, keep) = collect_complete (topic_links parse roles) topics collected mt in
          let (made, used) =
            topic_links_complete h.topic g p c f h (all p is_event h.published)
              (all c is_event' h.subscribed) in
          (lift links e keep made, lift links e keep used)
    ]
      where
        is_event : Memᴰ p events
        is_event =
            (mem-filter _ specs).1
              (h.producer, (same_kind_iff _ _).1 (produces-kind event roles p h.produces_it))

        is_event' : Memᴰ c events
        is_event' =
            (mem-filter _ specs).1
              (h.consumer, (same_kind_iff _ _).1 (consumes-kind event roles c h.consumes_it))

        lift :
            (links : List SemanticRelationEdge) {bs : List SemanticRelationEdge} {k : String}
            → es ≡ (emit_all links).edges
            → ((d : SemanticRelationEdge) → Memᴰ d bs → Memᴰ d links)
            → HasKey bs k
            → HasKey es k
        lift links e keep (d, m, same) =
            let (d', m', same') = emit_all_complete links d (keep d m) in
            (d', subst (Memᴰ d') (sym e) m', same' ∙ same)

    -- No two edges of the result have the same key.
    pub resolve_event-IsDistinct :
        {es : List SemanticRelationEdge}
        → resolve_event_relations parse specs roles ≡ some es
        → IsDistinct (map edge_key es)
    resolve_event-IsDistinct h = elim (Run-of h) [
      | too_few _ e ↦ rw e tt
      | linked _ links _ _ e ↦ rw e (emit_all-IsKeyed links).distinct
    ]

-- ===== src/Matching/Frame/Laws.antt =====
-- What the frame returns, whatever the candidates and the edges of a pair are.
use mathlib.Core.List.Memᴰ
use logiclens.Shared.{
  String, ◌||◌, Option, none, some, List, [], ◌∷◌, map, Memᴰ, ◌≡◌, refl, sym, subst, ◌≢◌, ◌↔◌, ◌⊎◌,
  inl, inr, is_empty, >>=-eq-some, some_inj, Bool-cases, All-of_mem, filter, mem-filter, IsDistinct,
}
use logiclens.Nodes.{ContractSpecNode, SpecKind, SemanticRelationEdge, edge_key}
use logiclens.Specs.{Parsed, parse_all}
use logiclens.Specs.Parsing.{parse_all_sound, parse_all_complete, parse_all_total}
use logiclens.Matching.Roles.{
  SpecRoleMap, split_by_role_lem, produces, consumes, produces-kind, consumes-kind,
}
use logiclens.Matching.Links.{
  pair_up, nothing, pair_up_sound, pair_up_complete, pair_up-IsKeyed, nothing-IsKeyed,
}
use logiclens.Matching.Pairs.{IsConsumer, IsProducer}
use logiclens.Matching.Frame.{pair_parts, resolve_pairs}

module _ {S : Type 0} (parse : String → Option S) (kind : SpecKind)
    (candidates : List (Parsed S) → Parsed S → List (Parsed S))
    (link : Parsed S → Parsed S → List SemanticRelationEdge) where
  -- Either a side is empty and there is no edge, or both sides are parsed and paired up.
  data Run (made used : List ContractSpecNode) (es : List SemanticRelationEdge) : Type 0 where
    unpaired : (made ≡ []) ⊎ (used ≡ []) → es ≡ [] → Run made used es
    paired :
        (ps cs : List (Parsed S))
        → parse_all parse made ≡ some ps
        → parse_all parse used ≡ some cs
        → es ≡ (pair_up (candidates ps) link cs nothing).edges
        → Run made used es

  Run-of_parts :
      (made used : List ContractSpecNode) {es : List SemanticRelationEdge}
      → pair_parts parse kind candidates link (record { producers = made; consumers = used })
        ≡ some es
      → Run made used es
  unfolding pair_parts
  Run-of_parts [] used h = unpaired (inl refl) (sym (some_inj h))
  Run-of_parts (s ∷ made) [] h = unpaired (inr refl) (sym (some_inj h))
  Run-of_parts (s ∷ made) (t ∷ used) h =
      let (ps, e, h') = >>=-eq-some (parse_all parse (s ∷ made)) _ h in
      let (cs, f, h'') = >>=-eq-some (parse_all parse (t ∷ used)) _ h' in
      paired ps cs e f (sym (some_inj h''))

  module _ (specs : List ContractSpecNode) (roles : SpecRoleMap) {es : List SemanticRelationEdge}
      (returned : resolve_pairs parse kind candidates link specs roles ≡ some es) where
    abbrev made : List ContractSpecNode
    made = filter (produces kind roles) specs

    abbrev used : List ContractSpecNode
    used = filter (consumes kind roles) specs

    run : Run made used es
    unfolding resolve_pairs
    run = Run-of_parts made used (rw (split_by_role_lem kind roles specs) at returned)

    abbrev pub Producers : List (Parsed S) → Type 0
    Producers ps = (p : Parsed S) → Memᴰ p ps ↔ IsProducer parse kind roles specs p

    Producers-of : {ps : List (Parsed S)} → parse_all parse made ≡ some ps → Producers ps
    Producers-of e p = (
      λ m.
          let (listed, read) = parse_all_sound parse made e m in
          let (there, role) = (mem-filter (produces kind roles) specs).0 listed in
          record { listed = there; role = role; read = read },
      λ h.
          parse_all_complete parse made e
            ((mem-filter (produces kind roles) specs).1 (h.listed, h.role)) h.read,
    )

    -- Where an edge of the result comes from: `sources` are all the producers, parsed.
    pub record IsResolved (d : SemanticRelationEdge) : Type 0 where
      pub sources : List (Parsed S)
      pub all_sources : Producers sources
      pub from : Parsed S
      pub to : Parsed S
      pub consumer : IsConsumer parse kind roles specs from
      pub candidate : Memᴰ to (candidates sources from)
      pub linked : Memᴰ d (link from to)

    pub resolve_pairs_sound : (d : SemanticRelationEdge) → Memᴰ d es → IsResolved d
    resolve_pairs_sound d m = elim run [
      | unpaired _ e ↦ absurd (Memᴰ.not-nil (subst (Memᴰ d) e m))
      | paired ps cs e f g ↦
          let l = pair_up_sound (candidates ps) link cs d (subst (Memᴰ d) g m) in
          let (listed, read) = parse_all_sound parse used f l.from_listed in
          let (there, role) = (mem-filter (consumes kind roles) specs).0 listed in
          record {
            sources = ps;
            all_sources = Producers-of e;
            from = l.from;
            to = l.to;
            consumer = record { listed = there; role = role; read = read };
            candidate = l.to_listed;
            linked = l.linked;
          }
    ]

    -- The producers that a consumer is held against, and the edges that this gives.
    pub record HasSources (c : Parsed S) : Type 0 where
      pub sources : List (Parsed S)
      pub all_sources : Producers sources
      pub reaches :
          (p : Parsed S) (e : SemanticRelationEdge)
          → Memᴰ p (candidates sources c)
          → Memᴰ e (link c p)
          → (d : SemanticRelationEdge) × Memᴰ d es × (edge_key d ≡ edge_key e)

    -- Where there is a producer at all, every consumer is held against the candidates.
    pub resolve_pairs_sources :
        (c p : Parsed S)
        → IsConsumer parse kind roles specs c
        → IsProducer parse kind roles specs p
        → HasSources c
    resolve_pairs_sources c p hc hp = elim run [
      | unpaired (inl none_made) _ ↦
          absurd (Memᴰ.not-nil (subst (Memᴰ p.node) none_made (is_made hp)))
      | unpaired (inr none_used) _ ↦
          absurd (Memᴰ.not-nil (subst (Memᴰ c.node) none_used (is_used hc)))
      | paired ps cs h f g ↦ record {
        sources = ps;
        all_sources = Producers-of h;
        reaches = λ q e candidate linked. rw g (
            pair_up_complete (candidates ps) link cs c q e
              (parse_all_complete parse used f (is_used hc) hc.read) candidate linked);
      }
    ]
      where
        is_made : IsProducer parse kind roles specs p → Memᴰ p.node made
        is_made h = (mem-filter (produces kind roles) specs).1 (h.listed, h.role)

        is_used : IsConsumer parse kind roles specs c → Memᴰ c.node used
        is_used h = (mem-filter (consumes kind roles) specs).1 (h.listed, h.role)

    pub resolve_pairs_complete :
        (c p : Parsed S) (e : SemanticRelationEdge)
        → IsConsumer parse kind roles specs c
        → IsProducer parse kind roles specs p
        → ((ps : List (Parsed S)) → Producers ps → Memᴰ p (candidates ps c))
        → Memᴰ e (link c p)
        → (d : SemanticRelationEdge) × Memᴰ d es × (edge_key d ≡ edge_key e)
    resolve_pairs_complete c p e hc hp candidate linked =
        let h = resolve_pairs_sources c p hc hp in
        h.reaches p e (candidate h.sources h.all_sources) linked

    pub resolve_pairs-IsDistinct : IsDistinct (map edge_key es)
    resolve_pairs-IsDistinct = elim run [
      | unpaired _ e ↦ rw e tt
      | paired ps cs _ _ g ↦
          rw g (pair_up-IsKeyed (candidates ps) link cs nothing nothing-IsKeyed).distinct
    ]

  -- The call returns if every spec of its kind parses.
  pub resolve_pairs_total :
      (specs : List ContractSpecNode) (roles : SpecRoleMap)
      → ((s : ContractSpecNode) → Memᴰ s specs → s.spec_kind ≡ kind → parse s.spec_json ≢ none)
      → (es : List SemanticRelationEdge) × (resolve_pairs parse kind candidates link specs roles
          ≡ some es)
  unfolding resolve_pairs pair_parts
  resolve_pairs_total specs roles h =
      let (ps, e) = parse_all_total parse made' (
        All-of_mem _ made' λ s m.
          let (there, role) = (mem-filter (produces kind roles) specs).0 m in
          h s there (produces-kind kind roles s role)) in
      let (cs, f) = parse_all_total parse used' (
        All-of_mem _ used' λ s m.
          let (there, role) = (mem-filter (consumes kind roles) specs).0 m in
          h s there (consumes-kind kind roles s role)) in
      rw (split_by_role_lem kind roles specs)
        (elim (Bool-cases (is_empty made' || is_empty used')) [
          | inl nobody ↦ ([], rw nobody)
          | inr both ↦ ((pair_up (candidates ps) link cs nothing).edges, rw (both, e, f))
        ])
    where
      made' : List ContractSpecNode
      made' = filter (produces kind roles) specs

      used' : List ContractSpecNode
      used' = filter (consumes kind roles) specs

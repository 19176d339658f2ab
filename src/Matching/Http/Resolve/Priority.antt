-- ===== src/Matching/Http/Resolve/Priority.antt =====
-- The search by buckets and the choice among candidates lose no exact match.
use mathlib.Core.List.Memᴰ
use logiclens.Shared.{
  String, true, false, Option, some, List, [], ◌∷◌, ◌++◌, Memᴰ, ◌≡◌, refl, sym, ap, subst, ◌∙◌, inl,
  inr, str_eq, eq_iff, filter, any-mem, mem-filter, flat_map-mem, bucket, group_by, bucket-group_by,
  group_by-mem, with_key, eq_refl, is_empty, values-mem, values, StrMap, firsts, firsts_sound,
  firsts_complete, collect, collect_complete, if◌then◌else◌, Bool-cases, some_inj, >>=-eq-some, ltb,
  length, template, length_of_ne, arith,
}
use logiclens.Nodes.{
  ContractSpecNode, same_kind, same_kind_iff, http_endpoint, SemanticRelationEdge, edge_key,
}
use logiclens.Specs.{HttpEndpointSpec}
use logiclens.Matching.Roles.{
  SpecRoleMap, Parts, split_by_role, split_by_role_lem, produces, consumes, produces-kind,
  consumes-kind,
}
use logiclens.Matching.Pairs.{IsAcross, str_eq_of_ne}
use logiclens.Matching.Http.Paths.{bucket_key}
use logiclens.Matching.Http.Paths.Laws.{MeetsOf}
use logiclens.Matching.Http.Classify.{
  ClassifiedMatch, exact_method_path, path_of, classify_http_match,
}
use logiclens.Matching.Http.Classify.Buckets.{match-bucket}
use logiclens.Matching.Http.Resolve.{
  Candidate, is_exact, http_edge, candidates_of, choose, repo_edges, consumer_edges, final_edges,
  try_pair, try_all, bucket_specs, try_bucket, try_wildcards, match_parts, resolve_http_relations,
}
use logiclens.Matching.Http.Resolve.Laws.{
  IsMatched, IsFrom, bucket_of, bucket_specs_lem, buckets_sound, wildcards_sound,
}

exact-kind : (k : Candidate) → k.match_kind ≡ exact_method_path → is_exact k ≡ true
exact-kind k e = rw (is_exact, e) refl

-- An exact candidate of a group is chosen.
choose_exact :
    (cs : List Candidate) {k : Candidate} → Memᴰ k cs → is_exact k ≡ true → Memᴰ k (choose cs)
unfolding choose
choose_exact cs m e = rw (any-mem is_exact cs m e) ((mem-filter is_exact cs).1 (m, e))

-- A group of a grouping holds each element under its key.
grouped {ℓ} :
    {A : Type ℓ} (key : A → String) (xs : List A) {x : A}
    → Memᴰ x xs
    → Memᴰ (with_key key xs (key x)) (values (group_by key xs)) × Memᴰ x (with_key key xs (key x))
grouped key xs {x} m =
    (values-mem _ (group_by-mem key xs m), (mem-filter _ xs).1 (m, eq_refl (key x)))

-- The edge of an exact candidate that is the first of its key is left at the end.
final_edges_exact :
    (cs : List Candidate) {k : Candidate}
    → Memᴰ k (firsts (λ c. edge_key c.edge) cs)
    → is_exact k ≡ true
    → Memᴰ k.edge (final_edges cs)
unfolding final_edges consumer_edges repo_edges
final_edges_exact cs {k} m e =
    let (mg, n) = grouped (λ (c : Candidate). c.consumer_spec.id) _ m in
    let (mg', n') = grouped (λ (c : Candidate). c.producer_spec.repo_id) _ n in
    flat_map-mem consumer_edges _ mg
      (flat_map-mem repo_edges _ mg' (Memᴰ.map (λ (c : Candidate). c.edge) (choose_exact _ n' e)))

module _ (parse : String → Option HttpEndpointSpec) where
  -- A consumer and a producer of different repositories whose payloads match, and whose buckets
  -- are those of the payloads' paths.
  pub record IsIndexed (c p : ContractSpecNode) (found : ClassifiedMatch) : Type 0 where
    pub apart : IsAcross c p
    pub from : HttpEndpointSpec
    pub from_read : parse c.spec_json ≡ some from
    pub from_indexed : bucket_of parse c ≡ bucket_key (path_of from)
    pub to : HttpEndpointSpec
    pub to_read : parse p.spec_json ≡ some to
    pub to_indexed : bucket_of parse p ≡ bucket_key (path_of to)
    pub matches : classify_http_match from to ≡ some found

  abbrev pub candidate : ContractSpecNode → ContractSpecNode → ClassifiedMatch → Candidate
  candidate c p found = record {
    consumer_spec = c;
    producer_spec = p;
    match_kind = found.kind;
    edge = http_edge c p found;
  }

  try_pair_complete :
      (c p : ContractSpecNode) (found : ClassifiedMatch)
      → IsIndexed c p found
      → try_pair parse c p ≡ some (candidate c p found ∷ [])
  unfolding try_pair candidates_of
  try_pair_complete c p found h =
      rw
        (
          str_eq_of_ne _ _ h.apart.ids,
          str_eq_of_ne _ _ h.apart.repos,
          h.from_read,
          h.to_read,
          h.matches,
        )
        refl

  pub try_all_complete :
      (used made : List ContractSpecNode) {cs : List Candidate} (c p : ContractSpecNode)
      (found : ClassifiedMatch)
      → try_all parse used made ≡ some cs
      → Memᴰ c used
      → Memᴰ p made
      → IsIndexed c p found
      → Memᴰ (candidate c p found) cs
  unfolding try_all
  try_all_complete used made c p found e mc mp h =
      let (ks, e', keep) = collect_complete _ used e mc in
      let (js, e'', keep') = collect_complete (try_pair parse c) made e' mp in
      let only = some_inj (sym (try_pair_complete c p found h) ∙ e'') in
      keep _ (keep' _ (subst (Memᴰ (candidate c p found)) only (Memᴰ.head refl)))

  module _ (used made : List ContractSpecNode) {mb cb : StrMap (List ContractSpecNode)}
      (em : bucket_specs parse made [] ≡ some mb) (eu : bucket_specs parse used [] ≡ some cb)
      {same wild : List Candidate} (es : collect (try_bucket parse mb) cb ≡ some same)
      (ew : try_wildcards parse mb cb ≡ some wild) where
    -- A spec stands in its bucket of the index.
    in_bucket :
        (specs : List ContractSpecNode) {m : StrMap (List ContractSpecNode)} (s : ContractSpecNode)
        → bucket_specs parse specs [] ≡ some m
        → Memᴰ s specs
        → Memᴰ s (bucket (bucket_of parse s) m)
          × ((g : List ContractSpecNode) × Memᴰ (bucket_of parse s, g) m × Memᴰ s g)
    in_bucket specs {m} s e ms =
        let filed = bucket_specs_lem parse specs e in
        let here = (mem-filter _ specs).1 (ms, eq_refl (bucket_of parse s)) in
        (
          rw (filed, bucket-group_by (bucket_of parse) (bucket_of parse s) specs) here,
          (
            with_key (bucket_of parse) specs (bucket_of parse s),
            subst (Memᴰ (bucket_of parse s, with_key (bucket_of parse) specs (bucket_of parse s)))
                (sym filed) (group_by-mem (bucket_of parse) specs ms),
            here,
          ),
        )

    pub searched :
        (c p : ContractSpecNode) (found : ClassifiedMatch)
        → Memᴰ c used
        → Memᴰ p made
        → IsIndexed c p found
        → Memᴰ (candidate c p found) (same ++ wild)
    unfolding try_bucket try_wildcards
    searched c p found mc mp h =
        let (c_in, (g, mg, c_there)) = in_bucket used c eu mc in
        let (p_in, (g', mg', p_there)) = in_bucket made p em mp in
        let (ks, e, keep) = collect_complete (try_bucket parse mb) cb es mg in
        let by_bucket =
          λ (m : Memᴰ p (
              bucket (bucket_of parse c) mb
              ++ (if str_eq (bucket_of parse c) "*" then [] else bucket "*" mb))).
            Memᴰ.append_left wild (keep _ (try_all_complete g _ c p found e c_there m h)) in
        elim (meets) [
          | inl alike ↦
              by_bucket (Memᴰ.append_left _ (subst (λ k. Memᴰ p (bucket k mb)) (sym alike) p_in))
          | inr (inl c_star) ↦
              let (js, e', keep') = collect_complete _ mb ew mg' in
              Memᴰ.append_right same (
                keep' _ (
                  try_all_complete (bucket "*" cb) g' c p found e'
                    (subst (λ k. Memᴰ c (bucket k cb)) c_star c_in) p_there h))
          | inr (inr p_star) ↦
              let p_in' = subst (λ k. Memᴰ p (bucket k mb)) p_star p_in in
              by_bucket (elim (Bool-cases (str_eq (bucket_of parse c) "*")) [
                | inl star ↦
                    Memᴰ.append_left _
                      (subst (λ k. Memᴰ p (bucket k mb)) (sym ((eq_iff _ _).0 star)) p_in')
                | inr other ↦ Memᴰ.append_right (bucket (bucket_of parse c) mb) (rw other p_in')
              ])
        ]
      where
        meets : MeetsOf (bucket_of parse c) (bucket_of parse p)
        meets =
            subst (λ k. MeetsOf k (bucket_of parse p)) (sym h.from_indexed)
              (subst (MeetsOf (bucket_key (path_of h.from))) (sym h.to_indexed)
                (match-bucket h.from h.to h.matches))

  -- A candidate for two specs has the match of their payloads.
  found_again :
      (c p : ContractSpecNode) (found : ClassifiedMatch) (k : Candidate)
      → IsIndexed c p found
      → (h : IsMatched parse k) → k.consumer_spec ≡ c
      → k.producer_spec ≡ p
      → h.found ≡ found
  found_again c p found k i h ec ep =
      let from_same : h.from ≡ i.from =
        some_inj
          (sym h.from_read ∙ ap (λ (s : ContractSpecNode). parse s.spec_json) ec ∙ i.from_read) in
      let to_same : h.to ≡ i.to =
        some_inj
          (sym h.to_read ∙ ap (λ (s : ContractSpecNode). parse s.spec_json) ep ∙ i.to_read) in
      let again : classify_http_match i.from i.to ≡ some h.found =
        subst (λ f. classify_http_match f i.to ≡ some h.found) from_same
          (subst (λ t. classify_http_match h.from t ≡ some h.found) to_same h.matches) in
      some_inj (sym again ∙ i.matches)

  -- `${consumer}:${producer}:CALLS_HTTP`
  abbrev pub call_key : ContractSpecNode → ContractSpecNode → String
  call_key c p = template (c.id ∷ ":" ∷ p.id ∷ ":" ∷ "CALLS_HTTP" ∷ [])

  key-http_edge :
      (c p : ContractSpecNode) (found : ClassifiedMatch)
      → edge_key (http_edge c p found) ≡ call_key c p
  unfolding http_edge
  key-http_edge c p found = refl

  -- The keys of calls between specs of a list tell the specs apart.
  abbrev pub AreApart : List ContractSpecNode → Type 0
  AreApart specs =
      (s t u v : ContractSpecNode)
      → Memᴰ s specs
      → Memᴰ t specs
      → Memᴰ u specs
      → Memᴰ v specs
      → call_key s t ≡ call_key u v
      → (s ≡ u) × (t ≡ v)

  -- The candidate with the key of an exact pair is that of the pair.
  kept_exact :
      (specs used made : List ContractSpecNode)
      → ((s : ContractSpecNode) → Memᴰ s used → Memᴰ s specs)
      → ((s : ContractSpecNode) → Memᴰ s made → Memᴰ s specs)
      → AreApart specs
      → (c p : ContractSpecNode) (found : ClassifiedMatch) (w : Candidate) → Memᴰ c used
      → Memᴰ p made
      → IsIndexed c p found
      → IsFrom parse used made w
      → edge_key w.edge ≡ edge_key (http_edge c p found)
      → (w.match_kind ≡ found.kind) × (w.edge ≡ http_edge c p found)
  kept_exact specs used made fu fm apart c p found w mc mp i from same =
      let h = from.matched in
      let (ec, ep) =
        apart w.consumer_spec w.producer_spec c p (fu _ from.consumer) (fm _ from.producer)
          (fu _ mc) (fm _ mp)
          (sym (key-http_edge _ _ h.found)
            ∙ ap edge_key (sym h.made)
            ∙ same
            ∙ key-http_edge c p found) in
      let again = found_again c p found w i h ec ep in
      (
        h.kinded ∙ ap (λ (f : ClassifiedMatch). f.kind) again,
        h.made
            ∙ ap (λ s. http_edge s w.producer_spec h.found) ec
            ∙ ap (λ s. http_edge c s h.found) ep
            ∙ ap (http_edge c p) again,
      )

  match_parts_exact :
      (specs : List ContractSpecNode) (parts : Parts) {es : List SemanticRelationEdge}
      → match_parts parse parts ≡ some es
      → ((s : ContractSpecNode) → Memᴰ s parts.consumers → Memᴰ s specs)
      → ((s : ContractSpecNode) → Memᴰ s parts.producers → Memᴰ s specs)
      → AreApart specs
      → (c p : ContractSpecNode) (found : ClassifiedMatch) → Memᴰ c parts.consumers
      → Memᴰ p parts.producers
      → IsIndexed c p found
      → found.kind ≡ exact_method_path
      → Memᴰ (http_edge c p found) es
  unfolding match_parts
  match_parts_exact specs parts {es} e fu fm apart c p found mc mp i kind =
      let (mb, em, e1) =
        >>=-eq-some (bucket_specs parse parts.producers []) _
          (rw (filled parts.producers mp, filled parts.consumers mc) at e) in
      let (cb, eu, e2) = >>=-eq-some (bucket_specs parse parts.consumers []) _ e1 in
      let (same, es1, e3) = >>=-eq-some (collect (try_bucket parse mb) cb) _ e2 in
      let (wild, es2, e4) = >>=-eq-some (try_wildcards parse mb cb) _ e3 in
      let cand = searched parts.consumers parts.producers em eu es1 es2 c p found mc mp i in
      let (w, mw, key) = firsts_complete (λ c. edge_key c.edge) (same ++ wild) cand in
      let listed = firsts_sound (λ c. edge_key c.edge) (same ++ wild) mw in
      let from : IsFrom parse parts.consumers parts.producers w =
        elim (Memᴰ.append_cases same listed) [
          | inl m ↦ buckets_sound parse parts.consumers parts.producers em eu es1 m
          | inr m ↦ wildcards_sound parse parts.consumers parts.producers em eu es2 m
        ] in
      let (kinded, edge) =
        kept_exact specs parts.consumers parts.producers fu fm apart c p found w mc mp i from key in
      let exact : is_exact w ≡ true = exact-kind w (kinded ∙ kind) in
      subst (λ l. Memᴰ (http_edge c p found) l) (some_inj e4)
        (Memᴰ.cast (sym edge) (final_edges_exact (same ++ wild) mw exact))
    where
      filled :
          (specs : List ContractSpecNode) {s : ContractSpecNode}
          → Memᴰ s specs
          → is_empty specs ≡ false
      filled [] m = absurd (Memᴰ.not-nil m)
      filled (x ∷ specs) m = refl

  module _ (specs : List ContractSpecNode) (roles : SpecRoleMap) where
    -- A consumer and a producer of the input with the same method and path, that are indexed by
    -- the paths of their payloads.
    pub record IsExactCall (c p : ContractSpecNode) (found : ClassifiedMatch) : Type 0 where
      pub consumer : Memᴰ c specs
      pub consumes_it : consumes http_endpoint roles c ≡ true
      pub producer : Memᴰ p specs
      pub produces_it : produces http_endpoint roles p ≡ true
      pub indexed : IsIndexed c p found
      pub exact : found.kind ≡ exact_method_path

    -- If the keys of calls tell the specs of the input apart and the resolver returns, the result
    -- has the edge of every consumer and producer of the input, in different repositories, with
    -- the same method and path, that are indexed by the paths of their payloads.
    pub resolve_http_exact :
        AreApart specs
        → (es : List SemanticRelationEdge) → resolve_http_relations parse specs roles ≡ some es
        → (c p : ContractSpecNode) (found : ClassifiedMatch) → IsExactCall c p found
        → Memᴰ (http_edge c p found) es
    unfolding resolve_http_relations
    resolve_http_exact apart es e c p found h = elim (Bool-cases (ltb (length http_specs) 2)) [
      | inl few ↦ let two = length_of_ne http_specs of_c of_p differ in absurd (ground arith)
      | inr enough ↦
          match_parts_exact specs (split_by_role http_endpoint roles specs) (rw enough at e)
            (λ s m. ((mem-filter _ specs).0 (subst (λ (q : Parts). Memᴰ s q.consumers) split m)).0)
            (λ s m. ((mem-filter _ specs).0 (subst (λ (q : Parts). Memᴰ s q.producers) split m)).0)
            apart c p found
            (subst (λ (q : Parts). Memᴰ c q.consumers) (sym split)
              ((mem-filter _ specs).1 (h.consumer, h.consumes_it)))
            (subst (λ (q : Parts). Memᴰ p q.producers) (sym split)
              ((mem-filter _ specs).1 (h.producer, h.produces_it)))
            h.indexed h.exact
    ]
      where
        http_specs : List ContractSpecNode
        http_specs = filter (λ s. same_kind s.spec_kind http_endpoint) specs

        split : split_by_role http_endpoint roles specs ≡ record {
          producers = filter (produces http_endpoint roles) specs;
          consumers = filter (consumes http_endpoint roles) specs;
        }
        split = split_by_role_lem http_endpoint roles specs

        of_c : Memᴰ c http_specs
        of_c =
            (mem-filter _ specs).1 (
              h.consumer,
              (same_kind_iff _ _).1 (consumes-kind http_endpoint roles c h.consumes_it),
            )

        of_p : Memᴰ p http_specs
        of_p =
            (mem-filter _ specs).1 (
              h.producer,
              (same_kind_iff _ _).1 (produces-kind http_endpoint roles p h.produces_it),
            )

        differ : ¬ (c ≡ p)
        differ same = h.indexed.apart.ids (ap (λ (s : ContractSpecNode). s.id) same)

-- ===== src/Matching/Http/Resolve/Laws.antt =====
-- What the HTTP edges are: the search by buckets and the choice of candidates make none up.
use mathlib.Core.List.Memᴰ
use logiclens.Shared.{
  String, true, ◌||◌, Option, none, some, List, [], ◌∷◌, ◌++◌, Memᴰ, ◌≡◌, refl, sym, subst, inl,
  inr, str_eq, filter, any, mem-filter, mem-unless, mem-flat_map, is_empty, ltb, length, bucket,
  push_at, group_by, for_each, bucket-group_by, mem-group_by, values, mem-values, StrMap,
  firsts_sound, collect, collect_sound, if◌then◌else◌, Bool-cases, some_inj, >>=-eq-some,
  get_or_else,
}
use logiclens.Nodes.{ContractSpecNode, same_kind, http_endpoint, SemanticRelationEdge, edge_key}
use logiclens.Specs.{HttpEndpointSpec}
use logiclens.Matching.Roles.{SpecRoleMap, Parts, split_by_role_lem, produces, consumes}
use logiclens.Matching.Pairs.{IsAcross, ne_of_str_eq}
use logiclens.Matching.Http.Paths.{bucket_key}
use logiclens.Matching.Http.Classify.{ClassifiedMatch, classify_http_match}
use logiclens.Matching.Http.Resolve.{
  Candidate, is_exact, is_path_only, http_edge, candidates_of, choose, repo_edges, consumer_edges,
  final_edges, try_pair, try_all, indexed_path, bucket_specs, try_bucket, try_wildcards,
  match_parts, resolve_http_relations,
}

choose_sound : (cs : List Candidate) {k : Candidate} → Memᴰ k (choose cs) → Memᴰ k cs
unfolding choose
choose_sound cs m = elim (Bool-cases (any is_exact cs)) [
  | inl exact ↦ ((mem-filter is_exact cs).0 (rw exact at m)).0
  | inr inexact ↦ elim (Bool-cases (any is_path_only cs)) [
    | inl some_path ↦ ((mem-filter is_path_only cs).0 (rw (inexact, some_path) at m)).0
    | inr rest ↦ rw (inexact, rest) at m
  ]
]

repo_edges_sound :
    (cs : List Candidate) {d : SemanticRelationEdge}
    → Memᴰ d (repo_edges cs)
    → (k : Candidate) × Memᴰ k cs × (k.edge ≡ d)
unfolding repo_edges
repo_edges_sound cs m =
    let (k, n, e) = Memᴰ.of_map (λ c. c.edge) (choose cs) m in (k, choose_sound cs n, e)

-- A group of a grouping by a key holds elements of the list.
grouped_sound {ℓ} :
    {A : Type ℓ} (key : A → String) (xs g : List A) {x : A}
    → Memᴰ g (values (group_by key xs))
    → Memᴰ x g
    → Memᴰ x xs
grouped_sound key xs g {x} m n =
    let (k, mk) = mem-values (group_by key xs) m in
    ((mem-filter _ xs).0 (subst (Memᴰ x) (mem-group_by key xs mk) n)).0

consumer_edges_sound :
    (cs : List Candidate) {d : SemanticRelationEdge}
    → Memᴰ d (consumer_edges cs)
    → (k : Candidate) × Memᴰ k cs × (k.edge ≡ d)
unfolding consumer_edges
consumer_edges_sound cs m =
    let (g, mg, n) = mem-flat_map repo_edges _ m in
    let (k, mk, e) = repo_edges_sound g n in
    (k, grouped_sound (λ c. c.producer_spec.repo_id) cs g mg mk, e)

-- Every edge that is left at the end is that of a candidate.
final_edges_sound :
    (cs : List Candidate) {d : SemanticRelationEdge}
    → Memᴰ d (final_edges cs)
    → (k : Candidate) × Memᴰ k cs × (k.edge ≡ d)
unfolding final_edges
final_edges_sound cs m =
    let (g, mg, n) = mem-flat_map consumer_edges _ m in
    let (k, mk, e) = consumer_edges_sound g n in
    (
      k,
      firsts_sound (λ c. edge_key c.edge) cs (grouped_sound (λ c. c.consumer_spec.id) _ g mg mk),
      e,
    )

module _ (parse : String → Option HttpEndpointSpec) where
  -- A candidate is a consumer and a producer of different repositories with payloads that match,
  -- and its edge is theirs.
  pub record IsMatched (k : Candidate) : Type 0 where
    pub apart : IsAcross k.consumer_spec k.producer_spec
    pub from : HttpEndpointSpec
    pub from_read : parse k.consumer_spec.spec_json ≡ some from
    pub to : HttpEndpointSpec
    pub to_read : parse k.producer_spec.spec_json ≡ some to
    pub found : ClassifiedMatch
    pub matches : classify_http_match from to ≡ some found
    pub kinded : k.match_kind ≡ found.kind
    pub made : k.edge ≡ http_edge k.consumer_spec k.producer_spec found

  record IsOf (c p : ContractSpecNode) (k : Candidate) : Type 0 where
    consumer : k.consumer_spec ≡ c
    producer : k.producer_spec ≡ p
    matched : IsMatched k

  IsOf-parsed :
      (c p : ContractSpecNode) (from to : HttpEndpointSpec) (o : Option ClassifiedMatch)
      → IsAcross c p
      → parse c.spec_json ≡ some from
      → parse p.spec_json ≡ some to
      → classify_http_match from to ≡ o
      → {k : Candidate} → Memᴰ k (candidates_of c p o)
      → IsOf c p k
  unfolding candidates_of
  IsOf-parsed c p from to none h f t e m = absurd (Memᴰ.not-nil m)
  IsOf-parsed c p from to (some found) h f t e m =
      subst (IsOf c p) (sym (Memᴰ.eq_of_singleton m)) (record {
        consumer = refl;
        producer = refl;
        matched = record {
          apart = h;
          from = from;
          from_read = f;
          to = to;
          to_read = t;
          found = found;
          matches = e;
          kinded = refl;
          made = refl;
        };
      })

  try_pair_sound :
      (c p : ContractSpecNode) {cs : List Candidate} {k : Candidate}
      → try_pair parse c p ≡ some cs
      → Memᴰ k cs
      → IsOf c p k
  unfolding try_pair
  try_pair_sound c p {cs} {k} e m = elim (Bool-cases (str_eq c.id p.id)) [
    | inl same ↦ none_here (rw same at e)
    | inr ids ↦ elim (Bool-cases (str_eq c.repo_id p.repo_id)) [
      | inl same ↦ none_here (rw (ids, same) at e)
      | inr repos ↦
          let (from, f, e') = >>=-eq-some (parse c.spec_json) _ (rw (ids, repos) at e) in
          let (to, t, e'') = >>=-eq-some (parse p.spec_json) _ e' in
          IsOf-parsed c p from to (classify_http_match from to)
            (record { ids = ne_of_str_eq _ _ ids; repos = ne_of_str_eq _ _ repos }) f t refl
            (subst (Memᴰ k) (sym (some_inj e'')) m)
    ]
  ]
    where
      none_here : some [] ≡ some cs → IsOf c p k
      none_here h = absurd (Memᴰ.not-nil (subst (Memᴰ k) (sym (some_inj h)) m))

  -- A candidate of lists of consumers and of producers.
  pub record IsFrom (used made : List ContractSpecNode) (k : Candidate) : Type 0 where
    pub consumer : Memᴰ k.consumer_spec used
    pub producer : Memᴰ k.producer_spec made
    pub matched : IsMatched k

  pub try_all_sound :
      (used made : List ContractSpecNode) {cs : List Candidate} {k : Candidate}
      → try_all parse used made ≡ some cs
      → Memᴰ k cs
      → IsFrom used made k
  unfolding try_all
  try_all_sound used made e m =
      let (c, ks, mc, e', m') = collect_sound _ used e m in
      let (p, js, mp, e'', m'') = collect_sound (try_pair parse c) made e' m' in
      let h = try_pair_sound c p e'' m'' in
      record {
        consumer = Memᴰ.cast h.consumer mc;
        producer = Memᴰ.cast h.producer mp;
        matched = h.matched;
      }

  -- The bucket in which a spec is filed.
  abbrev pub bucket_of : ContractSpecNode → String
  bucket_of s = bucket_key (get_or_else (indexed_path parse s) "")

  bucket_specs_from :
      (specs : List ContractSpecNode) (m : StrMap (List ContractSpecNode))
      {n : StrMap (List ContractSpecNode)}
      → bucket_specs parse specs m ≡ some n
      → n ≡ for_each specs (λ s. push_at (bucket_of s) s) m
  unfolding bucket_specs
  bucket_specs_from [] m e = sym (some_inj e)
  bucket_specs_from (s ∷ specs) m e =
      let (path, p, e') = >>=-eq-some (indexed_path parse s) _ e in
      rw p (bucket_specs_from specs (push_at (bucket_key path) s m) e')

  -- The index groups the specs by the bucket of their path.
  pub bucket_specs_lem :
      (specs : List ContractSpecNode) {n : StrMap (List ContractSpecNode)}
      → bucket_specs parse specs [] ≡ some n
      → n ≡ group_by bucket_of specs
  bucket_specs_lem specs e = bucket_specs_from specs [] e

  bucket_sound :
      (k : String) (specs : List ContractSpecNode) {n : StrMap (List ContractSpecNode)}
      → bucket_specs parse specs [] ≡ some n
      → (s : ContractSpecNode) → Memᴰ s (bucket k n)
      → Memᴰ s specs
  bucket_sound k specs e s m =
      ((mem-filter _ specs).0 (
        subst (Memᴰ s) (bucket-group_by bucket_of k specs)
          (subst (λ n. Memᴰ s (bucket k n)) (bucket_specs_lem specs e) m))).0

  entry_sound :
      (specs g : List ContractSpecNode) (k : String) {n : StrMap (List ContractSpecNode)}
      → bucket_specs parse specs [] ≡ some n
      → Memᴰ (k, g) n
      → (s : ContractSpecNode) → Memᴰ s g
      → Memᴰ s specs
  entry_sound specs g k e m s h =
      let filed = subst (λ n. Memᴰ (k, g) n) (bucket_specs_lem specs e) m in
      ((mem-filter _ specs).0 (subst (Memᴰ s) (mem-group_by bucket_of specs filed) h)).0

  -- Candidates of parts of two lists are candidates of the lists.
  widen :
      {xs used ys made : List ContractSpecNode}
      → ((s : ContractSpecNode) → Memᴰ s xs → Memᴰ s used)
      → ((s : ContractSpecNode) → Memᴰ s ys → Memᴰ s made)
      → (k : Candidate) → IsFrom xs ys k
      → IsFrom used made k
  widen f g k h = record {
    consumer = f _ h.consumer;
    producer = g _ h.producer;
    matched = h.matched;
  }

  module _ (used made : List ContractSpecNode) {mb cb : StrMap (List ContractSpecNode)}
      (em : bucket_specs parse made [] ≡ some mb) (eu : bucket_specs parse used [] ≡ some cb) where
    try_bucket_sound :
        (k : String) (g : List ContractSpecNode)
        → Memᴰ (k, g) cb
        → {cs : List Candidate} {c : Candidate} → try_bucket parse mb (k, g) ≡ some cs
        → Memᴰ c cs
        → IsFrom used made c
    unfolding try_bucket
    try_bucket_sound k g mg {c = c} e m =
        widen (entry_sound used g k eu mg) reached c (try_all_sound g _ e m)
      where
        reached :
            (s : ContractSpecNode)
            → Memᴰ s (bucket k mb ++ (if str_eq k "*" then [] else bucket "*" mb))
            → Memᴰ s made
        reached s h = elim (Memᴰ.append_cases (bucket k mb) h) [
          | inl here ↦ bucket_sound k made em s here
          | inr star ↦ bucket_sound "*" made em s ((mem-unless (str_eq k "*") _).0 star).1
        ]

    pub wildcards_sound :
        {cs : List Candidate} {c : Candidate}
        → try_wildcards parse mb cb ≡ some cs
        → Memᴰ c cs
        → IsFrom used made c
    unfolding try_wildcards
    wildcards_sound {c = c} e m =
        let ((k, g), ks, mg, e', m') = collect_sound _ mb e m in
        widen (bucket_sound "*" used eu) (entry_sound made g k em mg) c
          (try_all_sound (bucket "*" cb) g e' m')

    pub buckets_sound :
        {cs : List Candidate} {c : Candidate}
        → collect (try_bucket parse mb) cb ≡ some cs
        → Memᴰ c cs
        → IsFrom used made c
    buckets_sound e m =
        let ((k, g), ks, mg, e', m') = collect_sound (try_bucket parse mb) cb e m in
        try_bucket_sound k g mg e' m'

  match_parts_sound :
      (parts : Parts) {es : List SemanticRelationEdge} {d : SemanticRelationEdge}
      → match_parts parse parts ≡ some es
      → Memᴰ d es
      → (k : Candidate) × IsFrom parts.consumers parts.producers k × (k.edge ≡ d)
  unfolding match_parts
  match_parts_sound parts {es} {d} e m =
      elim (Bool-cases (is_empty parts.producers || is_empty parts.consumers)) [
        | inl empty ↦ absurd (Memᴰ.not-nil (subst (Memᴰ d) (sym (some_inj (rw empty at e))) m))
        | inr full ↦
            let (mb, em, e1) =
              >>=-eq-some (bucket_specs parse parts.producers []) _ (rw full at e) in
            let (cb, eu, e2) = >>=-eq-some (bucket_specs parse parts.consumers []) _ e1 in
            let (same, es1, e3) = >>=-eq-some (collect (try_bucket parse mb) cb) _ e2 in
            let (wild, es2, e4) = >>=-eq-some (try_wildcards parse mb cb) _ e3 in
            let (k, mk, made) =
              final_edges_sound (same ++ wild) (subst (Memᴰ d) (sym (some_inj e4)) m) in
            elim (Memᴰ.append_cases same mk) [
              | inl h ↦ (k, buckets_sound parts.consumers parts.producers em eu es1 h, made)
              | inr h ↦ (k, wildcards_sound parts.consumers parts.producers em eu es2 h, made)
            ]
      ]

  module _ (specs : List ContractSpecNode) (roles : SpecRoleMap) where
    -- An edge for a consumer and a producer of the input that match.
    pub record IsHttpCall (d : SemanticRelationEdge) : Type 0 where
      pub pair : Candidate
      pub consumer : Memᴰ pair.consumer_spec specs
      pub consumes_it : consumes http_endpoint roles pair.consumer_spec ≡ true
      pub producer : Memᴰ pair.producer_spec specs
      pub produces_it : produces http_endpoint roles pair.producer_spec ≡ true
      pub matched : IsMatched pair
      pub is_its_edge : pair.edge ≡ d

    -- If the HTTP resolver returns, every edge of the result is made for a consumer and a producer
    -- of the input, of different repositories, whose payloads match, with the reason and the
    -- confidence of that match.
    pub resolve_http_sound :
        (es : List SemanticRelationEdge)
        → resolve_http_relations parse specs roles ≡ some es
        → (d : SemanticRelationEdge) → Memᴰ d es
        → IsHttpCall d
    unfolding resolve_http_relations
    resolve_http_sound es e d m =
        elim (Bool-cases
          (ltb (length (filter (λ s. same_kind s.spec_kind http_endpoint) specs)) 2)) [
            | inl few ↦ absurd (Memᴰ.not-nil (subst (Memᴰ d) (sym (some_inj (rw few at e))) m))
            | inr enough ↦
                let (k, h, made) = match_parts_sound _ (rw enough at e) m in
                of_split k made (
                  subst (λ (p : Parts). IsFrom p.consumers p.producers k)
                    (split_by_role_lem http_endpoint roles specs) h)
          ]
      where
        of_split :
            (k : Candidate)
            → k.edge ≡ d
            → IsFrom
                (filter (consumes http_endpoint roles) specs)
                (filter (produces http_endpoint roles) specs)
                k
            → IsHttpCall d
        of_split k made h =
            let (listed_c, role_c) = (mem-filter _ specs).0 h.consumer in
            let (listed_p, role_p) = (mem-filter _ specs).0 h.producer in
            record {
              pair = k;
              consumer = listed_c;
              consumes_it = role_c;
              producer = listed_p;
              produces_it = role_p;
              matched = h.matched;
              is_its_edge = made;
            }

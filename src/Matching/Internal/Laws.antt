-- ===== src/Matching/Internal/Laws.antt =====
-- What the internal calls are.
use mathlib.Core.List.Memᴰ
use logiclens.Shared.{
  Option, none, some, ap, ◌∙◌, get_or_else, joined_by_colon, joined_cases, template-joined, String,
  Bool, true, false, ◌||◌, List, map, Memᴰ, ◌≡◌, refl, sym, subst, ◌≢◌, ◌↔◌, inl, inr, ◌⊎◌, arith,
  str_eq, eq_iff, truthy, filter, mem-filter, mem-unless, mem-singleton, IsDistinct, for_each,
  for_each_keeps, for_each_reaches, mem-group_by, group_by-mem, with_key,
}
use logiclens.Nodes.{ContractSpecNode, SemanticRelationEdge, edge_key}
use logiclens.Matching.Roles.{SpecRoleMap}
use logiclens.Matching.Links.{
  Emitted, nothing, pair_up_origin, pair_up-keeps, pair_up_reaches, pair_up-IsKeyed,
  nothing-IsKeyed, IsKeyed, edge_of_key,
}
use logiclens.Matching.Pairs.{ne_of_str_eq, str_eq_of_ne}
use logiclens.Matching.Internal.{
  internal_edge, link, by_source_symbol, visit, resolve_internal_call_relations, symbol_key,
  is_entry, is_outbound,
}

neither : (p q : Bool) → (p || q) ≡ false → (p ≡ false) × (q ≡ false)
neither p q h = ground arith

mem-link :
    (a b : ContractSpecNode) (d : SemanticRelationEdge)
    → Memᴰ d (link a b)
      ↔ ((a.id ≢ b.id) × (a.contract_id ≢ b.contract_id) × (d ≡ internal_edge a b))
unfolding link
mem-link a b d = (
  λ m.
      let (h, m') = (mem-unless (str_eq a.id b.id || str_eq a.contract_id b.contract_id) _).0 m in
      let (i, c) = neither (str_eq a.id b.id) (str_eq a.contract_id b.contract_id) h in
      (ne_of_str_eq _ _ i, ne_of_str_eq _ _ c, (mem-singleton _).0 m'),
  λ (h, k, e).
      let ids = str_eq_of_ne a.id b.id h in
      let contracts = str_eq_of_ne a.contract_id b.contract_id k in
      (mem-unless _ _).1 (rw (ids, contracts), (mem-singleton _).1 e),
)

module _ (specs : List ContractSpecNode) (roles : SpecRoleMap) where
  -- A contract that a source symbol provides, and one that it calls.
  pub record IsInternalCall (a b : ContractSpecNode) : Type 0 where
    pub entry : Memᴰ a specs
    pub call : Memᴰ b specs
    pub provides : is_entry roles a ≡ true
    pub calls : is_outbound roles b ≡ true
    pub located : truthy a.source_symbol_id ≡ true
    pub same_located : truthy b.source_symbol_id ≡ true
    pub symbol : symbol_key a ≡ symbol_key b
    pub ids : a.id ≢ b.id
    pub contracts : a.contract_id ≢ b.contract_id

  abbrev located : List ContractSpecNode
  located = filter (λ s. truthy s.source_symbol_id) specs

  -- The specs of a group have its key.
  mem_of_group :
      {k : String} {g : List ContractSpecNode} {s : ContractSpecNode}
      → Memᴰ (k, g) (by_source_symbol specs)
      → Memᴰ s g
      → Memᴰ s specs × (truthy s.source_symbol_id ≡ true) × (symbol_key s ≡ k)
  unfolding by_source_symbol
  mem_of_group {s} m n =
      let (l, e) =
        (mem-filter _ located).0 (subst (Memᴰ s) (mem-group_by symbol_key located m) n) in
      let (l', t) = (mem-filter _ specs).0 l in (l', t, (eq_iff _ _).0 e)

  IsFound : SemanticRelationEdge → Type 0
  IsFound d = (a b : ContractSpecNode) × IsInternalCall a b × (d ≡ internal_edge a b)

  visit_origin :
      (kg : String × List ContractSpecNode) (st : Emitted) (d : SemanticRelationEdge)
      → Memᴰ kg (by_source_symbol specs)
      → Memᴰ d (visit roles kg st).edges
      → Memᴰ d st.edges ⊎ IsFound d
  unfolding visit IsFound
  visit_origin (k, g) st d m n = elim (pair_up_origin _ link (filter (is_entry roles) g) d st n) [
    | inl before ↦ inl before
    | inr l ↦
        let (in_group, provides) = (mem-filter _ g).0 l.from_listed in
        let (in_group', calls) = (mem-filter _ g).0 l.to_listed in
        let (entry, place, e) = mem_of_group m in_group in
        let (call, place', e') = mem_of_group m in_group' in
        let (ids, contracts, same) = (mem-link l.from l.to d).0 l.linked in
        inr (
          l.from,
          l.to,
          record {
            entry = entry;
            call = call;
            provides = provides;
            calls = calls;
            located = place;
            same_located = place';
            symbol = rw (e, e');
            ids = ids;
            contracts = contracts;
          },
          same,
        )
  ]

  IsFound-sound :
      (d : SemanticRelationEdge) → Memᴰ d (resolve_internal_call_relations specs roles) → IsFound d
  unfolding resolve_internal_call_relations
  IsFound-sound d =
      for_each_keeps (λ st. Memᴰ d st.edges → IsFound d) (by_source_symbol specs) (visit roles)
        (λ kg st m h n. elim (visit_origin kg st d m n) [
          | inl before ↦ h before
          | inr found ↦ found
        ])
        nothing (λ m. absurd (Memᴰ.not-nil m))

  -- No spec's repository has an id that goes on, after a colon, from that of another's.
  abbrev pub AreApart : Type 0
  AreApart =
      (s t : ContractSpecNode)
      → Memᴰ s specs
      → Memᴰ t specs
      → (z : String) → t.repo_id ≢ joined_by_colon s.repo_id z

  -- Two located specs with one key are of one symbol of one repository.
  same_symbol :
      AreApart
      → (a b : ContractSpecNode) → IsInternalCall a b
      → (a.repo_id ≡ b.repo_id) × (a.source_symbol_id ≡ b.source_symbol_id)
  same_symbol apart a b h =
      elim (joined_cases a.repo_id b.repo_id (get_or_else a.source_symbol_id "")
        (get_or_else b.source_symbol_id "")
        (sym (template-joined a.repo_id (get_or_else a.source_symbol_id ""))
          ∙ h.symbol
          ∙ template-joined b.repo_id (get_or_else b.source_symbol_id ""))) [
            | inl (repos, symbols) ↦ (repos, same_some _ _ h.located h.same_located symbols)
            | inr (inl (z, longer, _)) ↦ absurd (apart a b h.entry h.call z longer)
            | inr (inr (z, longer, _)) ↦ absurd (apart b a h.call h.entry z longer)
          ]
    where
      same_some :
          (o p : Option String)
          → truthy o ≡ true
          → truthy p ≡ true
          → get_or_else o "" ≡ get_or_else p ""
          → o ≡ p
      same_some none p t u e = cc
      same_some (some s) none t u e = cc
      same_some (some s) (some r) t u e = ap (λ x. some x) e

  -- Where no repository's id goes on from another's after a colon, every internal call leads from a
  -- contract that a source symbol of a repository provides to one of another id and contract that
  -- the same symbol of the same repository consumes.
  pub resolve_internal_sound :
      AreApart
      → (d : SemanticRelationEdge) → Memᴰ d (resolve_internal_call_relations specs roles)
      → (a b : ContractSpecNode) × IsInternalCall a b
        × (a.repo_id ≡ b.repo_id)
        × (a.source_symbol_id ≡ b.source_symbol_id)
        × (d ≡ internal_edge a b)
  unfolding IsFound
  resolve_internal_sound apart d m =
      let (a, b, h, made) = IsFound-sound d m in
      let (repos, symbols) = same_symbol apart a b h in (a, b, h, repos, symbols, made)

  visit-keeps :
      (kg : String × List ContractSpecNode) (st : Emitted) (k : String)
      → Memᴰ k st.seen
      → Memᴰ k (visit roles kg st).seen
  unfolding visit
  visit-keeps (_, g) st k = pair_up-keeps _ link (filter (is_entry roles) g) k st

  visit-IsKeyed :
      (kg : String × List ContractSpecNode) (st : Emitted)
      → IsKeyed st
      → IsKeyed (visit roles kg st)
  unfolding visit
  visit-IsKeyed (_, g) = pair_up-IsKeyed _ link (filter (is_entry roles) g)

  keyed : IsKeyed (for_each (by_source_symbol specs) (visit roles) nothing)
  keyed =
      for_each_keeps IsKeyed (by_source_symbol specs) (visit roles) (λ kg st _. visit-IsKeyed kg st)
        nothing nothing-IsKeyed

  -- Every spec that a source symbol provides, and one of another id and contract that the same
  -- symbol of the repository consumes, have an edge of their key in the result.
  pub resolve_internal_complete :
      (a b : ContractSpecNode)
      → IsInternalCall a b
      → (d : SemanticRelationEdge) × Memᴰ d (resolve_internal_call_relations specs roles)
        × (edge_key d ≡ edge_key (internal_edge a b))
  unfolding resolve_internal_call_relations by_source_symbol visit
  resolve_internal_complete a b h = edge_of_key keyed seen
    where
      placed :
          {s : ContractSpecNode} → Memᴰ s specs → truthy s.source_symbol_id ≡ true → Memᴰ s located
      placed m t = (mem-filter _ specs).1 (m, t)

      group : List ContractSpecNode
      group = with_key symbol_key located (symbol_key a)

      in_group :
          {s : ContractSpecNode} → Memᴰ s located → symbol_key s ≡ symbol_key a → Memᴰ s group
      in_group m e = (mem-filter _ located).1 (m, (eq_iff _ _).1 e)

      seen :
          Memᴰ
            (edge_key (internal_edge a b))
            (for_each (by_source_symbol specs) (visit roles) nothing).seen
      seen =
          for_each_reaches (λ st. Memᴰ (edge_key (internal_edge a b)) st.seen)
            (by_source_symbol specs) (visit roles)
            (group_by-mem symbol_key located (placed h.entry h.located))
            (λ st.
              pair_up_reaches _ link (filter (is_entry roles) group) a b (internal_edge a b) st
                ((mem-filter _ group).1 (in_group (placed h.entry h.located) refl, h.provides))
                ((mem-filter _ group).1
                  (in_group (placed h.call h.same_located) (sym h.symbol), h.calls))
                ((mem-link a b _).1 (h.ids, h.contracts, refl)))
            (λ kg st. visit-keeps kg st _) nothing

  -- No two internal calls have the same key.
  pub resolve_internal-IsDistinct :
      IsDistinct (map edge_key (resolve_internal_call_relations specs roles))
  unfolding resolve_internal_call_relations
  resolve_internal-IsDistinct = keyed.distinct

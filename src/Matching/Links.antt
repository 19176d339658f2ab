-- ===== src/Matching/Links.antt =====
-- The pairing loop of the resolvers, `for consumer … for producer …`, with its set of keys that
-- were seen: an edge is kept only if its key is new.
pub mod Lists
use mathlib.Core.List.{map-append}
use mathlib.Core.List.Memᴰ
use logiclens.Shared.{
  String, true, false, List, [], ◌∷◌, ◌++◌, map, Memᴰ, ◌≡◌, refl, ◌⊎◌, inl, inr, for_each,
  for_each_keeps, for_each_reaches, has, has_iff, if◌then◌else◌, Bool-cases, IsDistinct,
  IsDistinct-concat, subst,
}
use logiclens.Nodes.{SemanticRelationEdge, edge_key}

-- the variables `edges` and `seen`
pub record Emitted : Type 0 where
  pub edges : List SemanticRelationEdge
  pub seen : List String

abbrev pub nothing : Emitted
nothing = record { edges = []; seen = [] }

-- if (seen.has(key)) continue; seen.add(key); edges.push(edge)
unfoldable pub emit : SemanticRelationEdge → Emitted → Emitted
emit e st =
    if has st.seen (edge_key e)
    then st
    else record { edges = st.edges ++ e ∷ []; seen = st.seen ++ edge_key e ∷ [] }

module _ {ℓ κ} {C : Type ℓ} {P : Type κ} where
  -- `candidates` are the producers that a consumer is held against, `link` the guards and the
  -- edges of one pair.
  unfoldable pub pair_up :
      (C → List P) → (C → P → List SemanticRelationEdge) → List C → Emitted → Emitted
  pair_up candidates link cs st =
      for_each cs (λ c. for_each (candidates c) (λ p. for_each (link c p) emit)) st

-- The set of keys always is that of the edges, and no key stands twice.
pub record IsKeyed (st : Emitted) : Type 0 where
  pub keys : st.seen ≡ map edge_key st.edges
  pub distinct : IsDistinct (map edge_key st.edges)

emit-IsKeyed : (e : SemanticRelationEdge) (st : Emitted) → IsKeyed st → IsKeyed (emit e st)
unfolding emit
emit-IsKeyed e st k = elim (Bool-cases (has st.seen (edge_key e))) [
  | inl old ↦ rw old k
  | inr new ↦ rw new (record {
    keys = simp (map-append, k.keys);
    distinct =
        simp map-append
          (IsDistinct-concat (map edge_key st.edges) k.distinct (λ m. not_seen new (rw k.keys m)));
  })
]
  where
    not_seen : has st.seen (edge_key e) ≡ false → Memᴰ (edge_key e) st.seen → ⊥
    not_seen new m = let old : has st.seen (edge_key e) ≡ true = (has_iff _ _).1 m in cc

-- The key of an edge that was offered is there afterwards, and stays.
emit-has : (e : SemanticRelationEdge) (st : Emitted) → Memᴰ (edge_key e) (emit e st).seen
unfolding emit
emit-has e st = elim (Bool-cases (has st.seen (edge_key e))) [
  | inl old ↦ rw old ((has_iff _ _).0 old)
  | inr new ↦ rw new (Memᴰ.append_right st.seen (Memᴰ.head refl))
]

emit-keeps :
    (e : SemanticRelationEdge) (st : Emitted) (k : String)
    → Memᴰ k st.seen
    → Memᴰ k (emit e st).seen
unfolding emit
emit-keeps e st k m = elim (Bool-cases (has st.seen (edge_key e))) [
  | inl old ↦ rw old m
  | inr new ↦ rw new (Memᴰ.append_left (edge_key e ∷ []) m)
]

-- An edge that is there afterwards was there, or was offered.
emit-mem :
    (e d : SemanticRelationEdge) (st : Emitted)
    → Memᴰ d (emit e st).edges
    → Memᴰ d st.edges ⊎ (d ≡ e)
unfolding emit
emit-mem e d st = elim (Bool-cases (has st.seen (edge_key e))) [
  | inl old ↦ rw old inl
  | inr new ↦ rw new (λ m. elim (Memᴰ.append_cases st.edges m) [
    | inl before ↦ inl before
    | inr here ↦ inr (Memᴰ.eq_of_singleton here)
  ])
]

pub nothing-IsKeyed : IsKeyed nothing
nothing-IsKeyed = record { keys = refl; distinct = tt }

-- The edge of a key that was seen.
pub edge_of_key :
    {st : Emitted} {k : String}
    → IsKeyed st
    → Memᴰ k st.seen
    → (d : SemanticRelationEdge) × Memᴰ d st.edges × (edge_key d ≡ k)
edge_of_key {k} h m = Memᴰ.of_map edge_key _ (subst (Memᴰ k) h.keys m)

module _ {ℓ κ} {C : Type ℓ} {P : Type κ} (candidates : C → List P)
    (link : C → P → List SemanticRelationEdge) (cs : List C) where
  pub pair_up-IsKeyed : (st : Emitted) → IsKeyed st → IsKeyed (pair_up candidates link cs st)
  unfolding pair_up
  pair_up-IsKeyed st k =
      for_each_keeps IsKeyed cs _
        (λ c s _ h.
          for_each_keeps IsKeyed (candidates c) _
            (λ p t _ i. for_each_keeps IsKeyed (link c p) emit (λ e u _. emit-IsKeyed e u) t i) s h)
        st k

  -- Where an edge of the result comes from.
  pub record IsLinked (d : SemanticRelationEdge) : Type (ℓ ⊔ κ) where
    pub from : C
    pub to : P
    pub from_listed : Memᴰ from cs
    pub to_listed : Memᴰ to (candidates from)
    pub linked : Memᴰ d (link from to)

  -- From any state: an edge was there, or comes from a pair.
  pub pair_up_origin :
      (d : SemanticRelationEdge) (st : Emitted)
      → Memᴰ d (pair_up candidates link cs st).edges
      → Memᴰ d st.edges ⊎ IsLinked d
  unfolding pair_up
  pair_up_origin d st =
      for_each_keeps Sound cs _
        (λ c s mc h.
          for_each_keeps Sound (candidates c) _
            (λ p t mp i.
              for_each_keeps Sound (link c p) emit
                (λ e u me j m. elim (emit-mem e d u m) [
                  | inl before ↦ j before
                  | inr same ↦ inr (record {
                    from = c;
                    to = p;
                    from_listed = mc;
                    to_listed = mp;
                    linked = Memᴰ.cast same me;
                  })
                ])
                t i)
            s h)
        st inl
    where
      Sound : Emitted → Type (ℓ ⊔ κ)
      Sound u = Memᴰ d u.edges → Memᴰ d st.edges ⊎ IsLinked d

  for_each_emit-keeps :
      (k : String) (es : List SemanticRelationEdge) (st : Emitted)
      → Memᴰ k st.seen
      → Memᴰ k (for_each es emit st).seen
  for_each_emit-keeps k es = for_each_keeps (λ u. Memᴰ k u.seen) es emit (λ e u _. emit-keeps e u k)

  pub pair_up-keeps :
      (k : String) (st : Emitted) → Memᴰ k st.seen → Memᴰ k (pair_up candidates link cs st).seen
  unfolding pair_up
  pair_up-keeps k st =
      for_each_keeps (λ u. Memᴰ k u.seen) cs _
        (λ c s _.
          for_each_keeps (λ u. Memᴰ k u.seen) (candidates c) _
            (λ p t _. for_each_emit-keeps k (link c p) t) s)
        st

  -- From any state: every edge of every pair has its key among those seen.
  pub pair_up_reaches :
      (c : C) (p : P) (e : SemanticRelationEdge) (st : Emitted)
      → Memᴰ c cs
      → Memᴰ p (candidates c)
      → Memᴰ e (link c p)
      → Memᴰ (edge_key e) (pair_up candidates link cs st).seen
  unfolding pair_up
  pair_up_reaches c p e st mc mp me =
      for_each_reaches Seen cs _ mc
        (λ s.
          for_each_reaches Seen (candidates c) _ mp
            (λ t. for_each_reaches Seen (link c p) emit me (emit-has e) (λ d u. emit-keeps d u _) t)
            (λ q t. for_each_emit-keeps _ (link c q) t) s)
        (λ b s.
          for_each_keeps Seen (candidates b) _ (λ q t _. for_each_emit-keeps _ (link b q) t) s)
        st
    where
      Seen : Emitted → Type 0
      Seen u = Memᴰ (edge_key e) u.seen

  pub pair_up_sound :
      (d : SemanticRelationEdge) → Memᴰ d (pair_up candidates link cs nothing).edges → IsLinked d
  pair_up_sound d m = elim (pair_up_origin d nothing m) [
    | inl before ↦ absurd (Memᴰ.not-nil before)
    | inr linked ↦ linked
  ]

  pub pair_up_complete :
      (c : C) (p : P) (e : SemanticRelationEdge)
      → Memᴰ c cs
      → Memᴰ p (candidates c)
      → Memᴰ e (link c p)
      → (d : SemanticRelationEdge) × Memᴰ d (pair_up candidates link cs nothing).edges
        × (edge_key d ≡ edge_key e)
  pair_up_complete c p e mc mp me =
      edge_of_key (pair_up-IsKeyed nothing nothing-IsKeyed) (pair_up_reaches c p e nothing mc mp me)

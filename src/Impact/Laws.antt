-- ===== src/Impact/Laws.antt =====
-- What the walk visits: only what a path of relations reaches, in as many hops as it says.
use mathlib.Core.List.Memᴰ
use logiclens.Shared.{
  ℕ, zero, suc, ◌+◌, ◌≤◌, String, ◌||◌, some, List, [], Memᴰ, ◌≡◌, refl, sym, subst, ◌∙◌, inl, inr,
  arith, str_eq, eq_iff, is_empty, for_each_keeps, StrMap, lookup, lookup-insert, mem-insert,
  bucket, bucket-push_at, push_at, Bool-cases, some_inj,
}
use logiclens.Nodes.{SemanticRelationEdge}
use logiclens.Relations.{semantic_rel_meta}
use logiclens.Impact.{
  TraversalMode, normal, ImpactPathStep, has_key, get_impact_step_spec_ids, index_edge,
  is_untraversed, relations_by_spec_id, Next, take_step, expand, Walk, set_hop, set_all, expand_all,
  advance, walk, start_frontier, start_walk, traverse_impact_steps,
}

module _ (starts : List String) (relations : List SemanticRelationEdge) where
  -- A spec that a path of so many relations reaches from a start, with the mode of the walk there.
  pub data Reach : ℕ → String → TraversalMode → Type 0 where
    begin : {id : String} → Memᴰ id starts → Reach 0 id normal
    follow :
        {n : ℕ} {current id : String} {mode next : TraversalMode} {edge : SemanticRelationEdge}
        → Reach n current mode
        → Memᴰ edge relations
        → Memᴰ (id, next) (get_impact_step_spec_ids edge current mode)
        → Reach (suc n) id next

  -- A step along an edge from a spec that is reached one hop before.
  pub record IsStep (s : ImpactPathStep) : Type 0 where
    pub before : ℕ
    pub current : String
    pub mode : TraversalMode
    pub next : TraversalMode
    pub hop : s.hop ≡ suc before
    pub reached : Reach before current mode
    pub listed : Memᴰ s.edge relations
    pub along : Memᴰ (s.impacted_spec_id, next) (get_impact_step_spec_ids s.edge current mode)

  index_sound :
      (k : String) {e : SemanticRelationEdge}
      → Memᴰ e (bucket k (relations_by_spec_id relations))
      → Memᴰ e relations
  unfolding relations_by_spec_id
  index_sound k {e} =
      for_each_keeps
        (λ (m : StrMap (List SemanticRelationEdge)). Memᴰ e (bucket k m) → Memᴰ e relations)
        relations index_edge (λ x m mx h. elim_index x m mx h) [] (λ n. absurd (Memᴰ.not-nil n))
    where
      filed :
          (i : String) (x : SemanticRelationEdge) (m : StrMap (List SemanticRelationEdge))
          → Memᴰ x relations
          → (Memᴰ e (bucket k m) → Memᴰ e relations)
          → Memᴰ e (bucket k (push_at i x m))
          → Memᴰ e relations
      filed i x m mx h n = elim (Bool-cases (str_eq i k)) [
        | inl same ↦
            elim (Memᴰ.append_cases (bucket k m) (rw (bucket-push_at i k x m, same) at n)) [
              | inl old ↦ h old
              | inr new ↦ Memᴰ.cast (Memᴰ.eq_of_singleton new) mx
            ]
        | inr other ↦ h (rw (bucket-push_at i k x m, other) at n)
      ]

      elim_index :
          (x : SemanticRelationEdge) (m : StrMap (List SemanticRelationEdge))
          → Memᴰ x relations
          → (Memᴰ e (bucket k m) → Memᴰ e relations)
          → Memᴰ e (bucket k (index_edge x m))
          → Memᴰ e relations
      elim_index x m mx h n =
          elim (Bool-cases (is_untraversed (semantic_rel_meta x.kind).category)) [
            | inl skipped ↦ h (rw skipped at n)
            | inr kept ↦ filed x.to_spec_id x _ mx (filed x.from_spec_id x m mx h) (rw kept at n)
          ]

  -- The values that a round adds, reached in one hop more than its frontier.
  record IsNext (n : ℕ) (r : Next) : Type 0 where
    next : (id : String) (mode : TraversalMode) → Memᴰ (id, mode) r.next → Reach (suc n) id mode
    steps : (s : ImpactPathStep) → Memᴰ s r.steps → IsStep s × s.hop ≤ suc n

  take_step-IsNext :
      (n : ℕ) (visited : StrMap ℕ) (edge : SemanticRelationEdge) (current : String)
      (mode : TraversalMode) (id : String) (next : TraversalMode) (r : Next)
      → Reach n current mode
      → Memᴰ edge relations
      → Memᴰ (id, next) (get_impact_step_spec_ids edge current mode)
      → IsNext n r
      → IsNext n (take_step (suc n) visited edge (id, next) r)
  unfolding take_step
  take_step-IsNext n visited edge current mode id next r reached listed along h =
      elim (Bool-cases (has_key id visited || has_key id r.next)) [
        | inl old ↦ rw old h
        | inr new ↦ rw new (record {
          next = λ i w m. elim (mem-insert id next r.next m) [
            | inl (e, f) ↦
                subst (λ u. Reach (suc n) u w) (sym e)
                  (subst (λ u. Reach (suc n) id u) (sym f) (follow reached listed along))
            | inr before ↦ h.next i w before
          ];
          steps = λ s m. elim (Memᴰ.append_cases r.steps m) [
            | inl before ↦ h.steps s before
            | inr here ↦
                subst (λ (t : ImpactPathStep). IsStep t × t.hop ≤ suc n)
                  (sym (Memᴰ.eq_of_singleton here))
                  (
                    record {
                      before = n;
                      current = current;
                      mode = mode;
                      next = next;
                      hop = refl;
                      reached = reached;
                      listed = listed;
                      along = along;
                    },
                    omega arith,
                  )
          ];
        })
      ]

  expand-IsNext :
      (n : ℕ) (visited : StrMap ℕ) (current : String) (mode : TraversalMode) (r : Next)
      → Reach n current mode
      → IsNext n r
      → IsNext n (expand (suc n) visited (relations_by_spec_id relations) (current, mode) r)
  unfolding expand
  expand-IsNext n visited current mode r reached h =
      for_each_keeps (IsNext n) (bucket current (relations_by_spec_id relations)) _
        (λ edge r' me h'.
          for_each_keeps (IsNext n) (get_impact_step_spec_ids edge current mode) _
            (λ (id, next) r'' along h''.
              take_step-IsNext n visited edge current mode id next r'' reached
                (index_sound current me) along h'')
            r' h')
        r h

  -- What was visited after so many rounds.
  IsVisited : ℕ → StrMap ℕ → Type 0
  IsVisited n visited =
      (id : String) (h : ℕ)
      → lookup id visited ≡ some h
      → (h ≤ n) × ((mode : TraversalMode) × Reach h id mode)

  record IsWalked (n : ℕ) (st : Walk) : Type 0 where
    visited : IsVisited n st.visited
    steps : (s : ImpactPathStep) → Memᴰ s st.steps → IsStep s × (s.hop ≤ n)

  IsFrontier : ℕ → StrMap TraversalMode → Type 0
  IsFrontier n ids = (id : String) (mode : TraversalMode) → Memᴰ (id, mode) ids → Reach n id mode

  set_all-IsVisited :
      (n : ℕ) (ids : StrMap TraversalMode) (visited : StrMap ℕ)
      → IsFrontier n ids
      → IsVisited n visited
      → IsVisited n (set_all n ids visited)
  unfolding IsVisited IsFrontier
  set_all-IsVisited n ids visited front =
      for_each_keeps (IsVisited n) ids (set_hop n)
        (λ (i, mode) m listed h id k e. elim (Bool-cases (str_eq i id)) [
          | inl same ↦
              let n_is_k : n ≡ k = some_inj (sym (rw (lookup-insert i id n m, same)) ∙ e) in
              (
                omega (arith, n_is_k),
                (
                  mode,
                  subst (λ j. Reach j id mode) n_is_k
                      (subst (λ j. Reach n j mode) ((eq_iff i id).0 same) (front i mode listed)),
                ),
              )
          | inr other ↦ h id k (rw (lookup-insert i id n m, other) at e)
        ])
        visited

  later-IsVisited :
      (n k : ℕ) (visited : StrMap ℕ) → n ≤ k → IsVisited n visited → IsVisited k visited
  unfolding IsVisited
  later-IsVisited n k visited l h id j e = let (b, r) = h id j e in (omega (arith, b, l), r)

  start_frontier-IsFrontier : IsFrontier 0 (start_frontier starts)
  unfolding IsFrontier
  start_frontier-IsFrontier =
      for_each_keeps (IsFrontier 0) starts _
        (λ x m mx h id mode n. elim (mem-insert x normal m n) [
          | inl (e, f) ↦ subst (λ w. Reach 0 id w) (sym f) (begin (Memᴰ.cast e mx))
          | inr before ↦ h id mode before
        ])
        [] (λ id mode n. absurd (Memᴰ.not-nil n))

  expand_all-IsNext :
      (n : ℕ) (st : Walk)
      → IsWalked n st
      → IsFrontier n st.frontier
      → IsNext n (expand_all (suc n) (relations_by_spec_id relations) st)
  unfolding expand_all IsFrontier
  expand_all-IsNext n st h front =
      for_each_keeps (IsNext n) st.frontier _
        (λ (id, mode) r m h'. expand-IsNext n st.visited id mode r (front id mode m) h') _
        (record {
          next = λ id mode m. absurd (Memᴰ.not-nil m);
          steps = λ s m. let (a, b) = h.steps s m in (a, omega (arith, b));
        })

  walk-IsWalked :
      (left n : ℕ) (st : Walk)
      → IsWalked n st
      → IsFrontier n st.frontier
      → IsWalked (left + n) (walk left (suc n) (relations_by_spec_id relations) st)
  unfolding walk advance IsFrontier
  walk-IsWalked zero n st h front = subst (λ k. IsWalked k st) (omega arith) h
  walk-IsWalked (suc left) n st h front =
      let index = relations_by_spec_id relations in
      let r = expand_all (suc n) index st in
      let hr = expand_all-IsNext n st h front in
      elim (Bool-cases (is_empty r.next)) [
        | inl over ↦ rw over (record {
          visited = later-IsVisited n (suc left + n) st.visited (omega arith) h.visited;
          steps = λ s m. let (a, b) = hr.steps s m in (a, omega (arith, b));
        })
        | inr more ↦ rw more (
            subst (λ k. IsWalked k (walk left (suc (suc n)) index (advance (suc n) st r)))
              (omega arith)
              (walk-IsWalked left (suc n) (advance (suc n) st r)
                (record {
                  visited =
                      set_all-IsVisited (suc n) r.next st.visited hr.next
                        (later-IsVisited n (suc n) st.visited (omega arith) h.visited);
                  steps = hr.steps;
                })
                hr.next))
      ]

  walked :
      (max_hops : ℕ)
      → IsWalked max_hops (walk max_hops 1 (relations_by_spec_id relations) (start_walk starts))
  unfolding IsFrontier IsVisited
  walked max_hops =
      subst (λ k. IsWalked k (walk max_hops 1 (relations_by_spec_id relations) (start_walk starts)))
        (omega arith)
        (walk-IsWalked max_hops 0 (start_walk starts)
          (record {
            visited = set_all-IsVisited 0 _ [] start_frontier-IsFrontier nothing;
            steps = λ s m. absurd (Memᴰ.not-nil m);
          })
          start_frontier-IsFrontier)
    where
      nothing : IsVisited 0 []
      nothing id h e = cc

  -- Whatever the walk visits is within the hops allowed, and a path of as many relations as the hop
  -- it is given reaches it from a start.
  pub traverse_impact_steps-visited :
      (max_hops : ℕ) (id : String) (hop : ℕ)
      → lookup id (traverse_impact_steps starts relations max_hops).0 ≡ some hop
      → (hop ≤ max_hops) × ((mode : TraversalMode) × Reach hop id mode)
  unfolding traverse_impact_steps IsVisited
  traverse_impact_steps-visited max_hops id hop e = (walked max_hops).visited id hop e

  -- Every step of the walk is along a relation of the input from a spec that is reached one hop
  -- before it, and within the hops allowed.
  pub traverse_impact_steps-steps :
      (max_hops : ℕ) (s : ImpactPathStep)
      → Memᴰ s (traverse_impact_steps starts relations max_hops).1
      → IsStep s × (s.hop ≤ max_hops)
  unfolding traverse_impact_steps
  traverse_impact_steps-steps max_hops s m = (walked max_hops).steps s m

-- ===== src/Relations/Laws.antt =====
-- What the roots of an impact analysis are.
use mathlib.Core.List.Memᴰ
use logiclens.Shared.{
  String, true, not, ◌||◌, List, [], Memᴰ, ◌≡◌, ◌⊎◌, inl, inr, arith, has, has_iff, is_empty,
  for_each, for_each_keeps, Bool-cases,
}
use logiclens.Nodes.{SemanticRelationEdge}
use logiclens.Relations.{
  semantic_rel_meta, is_dependency, root_end, add, add_root, select_impact_root_ids,
}

module _ (matched : List String) (relations : List SemanticRelationEdge) where
  -- The end that others depend on of a relation of dependency between two of the specs matched.
  pub record IsRootOf (id : String) : Type 0 where
    pub edge : SemanticRelationEdge
    pub listed : Memᴰ edge relations
    pub from : Memᴰ edge.from_spec_id matched
    pub to : Memᴰ edge.to_spec_id matched
    pub dependency : is_dependency (semantic_rel_meta edge.kind).category ≡ true
    pub root : id ≡ root_end edge (semantic_rel_meta edge.kind).direction

  AreRoots : List String → Type 0
  AreRoots roots = (id : String) → Memᴰ id roots → IsRootOf id

  mem-add :
      (id : String) (ids : List String) {i : String} → Memᴰ i (add id ids) → Memᴰ i ids ⊎ (i ≡ id)
  mem-add id ids m = elim (Bool-cases (has ids id)) [
    | inl old ↦ inl (rw old at m)
    | inr new ↦ elim (Memᴰ.append_cases ids (rw new at m)) [
      | inl before ↦ inl before
      | inr here ↦ inr (Memᴰ.eq_of_singleton here)
    ]
  ]

  add_root-AreRoots :
      (edge : SemanticRelationEdge) (roots : List String)
      → Memᴰ edge relations
      → AreRoots roots
      → AreRoots (add_root matched edge roots)
  unfolding AreRoots add_root
  add_root-AreRoots edge roots me h id m =
      elim (Bool-cases (not (has matched edge.from_spec_id) || not (has matched edge.to_spec_id))) [
        | inl apart ↦ h id (rw apart at m)
        | inr within ↦ elim (Bool-cases (is_dependency (semantic_rel_meta edge.kind).category)) [
          | inl depends ↦ elim (mem-add _ roots (rw (within, depends) at m)) [
            | inl before ↦ h id before
            | inr here ↦ record {
              edge = edge;
              listed = me;
              from = (has_iff _ _).0 (ground arith);
              to = (has_iff _ _).0 (ground arith);
              dependency = depends;
              root = here;
            }
          ]
          | inr other ↦ h id (rw (within, other) at m)
        ]
      ]

  -- The roots are the specs matched themselves, or each is the end that others depend on of a
  -- relation of dependency between two of the specs matched.
  pub select_impact_root_ids_sound :
      (select_impact_root_ids matched relations ≡ matched)
      ⊎ ((id : String) → Memᴰ id (select_impact_root_ids matched relations) → IsRootOf id)
  unfolding select_impact_root_ids AreRoots
  select_impact_root_ids_sound =
      let roots = for_each relations (add_root matched) [] in
      let h =
        for_each_keeps AreRoots relations (add_root matched) (λ e r me. add_root-AreRoots e r me) []
          (λ id m. absurd (Memᴰ.not-nil m)) in
      elim (Bool-cases (is_empty roots)) [
        | inl none_here ↦ inl (rw none_here)
        | inr some_here ↦ inr (rw some_here h)
      ]

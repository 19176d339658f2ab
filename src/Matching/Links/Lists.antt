-- ===== src/Matching/Links/Lists.antt =====
-- The loops of the resolvers that emit lists of edges without a pairing.
use mathlib.Core.List.Memᴰ
use logiclens.Shared.{List, [], ◌∷◌, Memᴰ, ◌≡◌, refl, for_each}
use logiclens.Nodes.{SemanticRelationEdge, edge_key}
use logiclens.Matching.Links.{
  Emitted, nothing, emit, pair_up, IsKeyed, nothing-IsKeyed, pair_up-IsKeyed, pair_up_sound,
  pair_up_complete,
}

-- A plain list of edges is offered as the pairs of its edges with one candidate.
module _ (es : List SemanticRelationEdge) where
  abbrev alone : SemanticRelationEdge → Unit {0} → List SemanticRelationEdge
  alone e _ = e ∷ []

  abbrev one : SemanticRelationEdge → List (Unit {0})
  one _ = tt ∷ []

  unfoldable pub emit_all : Emitted
  emit_all = for_each es emit nothing

  pub emit_all-IsKeyed : IsKeyed emit_all
  unfolding pair_up emit_all
  emit_all-IsKeyed = pair_up-IsKeyed one alone es nothing nothing-IsKeyed

  pub emit_all_sound : (d : SemanticRelationEdge) → Memᴰ d emit_all.edges → Memᴰ d es
  unfolding pair_up emit_all
  emit_all_sound d m =
      let l = pair_up_sound one alone es d m in
      Memᴰ.cast (Memᴰ.eq_of_singleton l.linked) l.from_listed

  pub emit_all_complete :
      (e : SemanticRelationEdge)
      → Memᴰ e es
      → (d : SemanticRelationEdge) × Memᴰ d emit_all.edges × (edge_key d ≡ edge_key e)
  unfolding pair_up emit_all
  emit_all_complete e m = pair_up_complete one alone es e tt e m (Memᴰ.head refl) (Memᴰ.head refl)

-- The edges of each element in turn, offered as pairs with one candidate.
module _ {ℓ} {C : Type ℓ} (link : C → List SemanticRelationEdge) (cs : List C) where
  unfoldable pub emit_each : Emitted
  emit_each = for_each cs (λ c. for_each (link c) emit) nothing

  abbrev linked : C → Unit {0} → List SemanticRelationEdge
  linked c _ = link c

  abbrev only : C → List (Unit {0})
  only _ = tt ∷ []

  pub emit_each_sound :
      (d : SemanticRelationEdge) → Memᴰ d emit_each.edges → (c : C) × Memᴰ c cs × Memᴰ d (link c)
  unfolding pair_up emit_each
  emit_each_sound d m =
      let l = pair_up_sound only linked cs d m in (l.from, l.from_listed, l.linked)

  pub emit_each_complete :
      (c : C) (e : SemanticRelationEdge)
      → Memᴰ c cs
      → Memᴰ e (link c)
      → (d : SemanticRelationEdge) × Memᴰ d emit_each.edges × (edge_key d ≡ edge_key e)
  unfolding pair_up emit_each
  emit_each_complete c e mc me = pair_up_complete only linked cs c tt e mc (Memᴰ.head refl) me

-- ===== src/Impact/Analysis/Laws.antt =====
-- What the report of an analysis holds.
use mathlib.Core.List.Memᴰ
use logiclens.Shared.{
  String, true, false, none, some, List, [], ◌∷◌, Memᴰ, has, has_iff, is_empty, lookup, >>=-eq-some,
  some_inj, Bool-cases, Option-cases, if◌then◌else◌, ◌≡◌, refl, sym, subst, ◌∙◌, ◌⊎◌, inl, inr,
  StrMap,
}
use logiclens.Nodes.{SemanticRelationEdge}
use logiclens.Impact.{ImpactPathStep}
use logiclens.Impact.Items.{ImpactItem}
use logiclens.Impact.Rules.{ChangeIntent, ImpactAnalysisOptions}
use logiclens.Impact.Analysis.{
  ReadableContractSpecNode, known, opaque, AnalysisServices, Gathered, step_key, apply_rules,
  classify_impact, gather, gather_known, gather_all,
}

module _ (services : AnalysisServices) (options : ImpactAnalysisOptions)
    (change : ChangeIntent) where
  -- A spec that is reached is never left out for want of a rule: its classification, if it returns,
  -- has an item.
  pub classify_impact-not_empty :
      (spec : ReadableContractSpecNode) (edge : SemanticRelationEdge) {items : List ImpactItem}
      → classify_impact services options change spec edge ≡ some items
      → (i : ImpactItem) × Memᴰ i items
  unfolding classify_impact
  classify_impact-not_empty (opaque s) edge e = (_, subst (Memᴰ _) (some_inj e) (Memᴰ.head refl))
  classify_impact-not_empty (known s) edge {items} e =
      let (found, _, e') = >>=-eq-some (apply_rules services options change _) _ e in
      one_of _ found (some_inj e')
    where
      one_of :
          (other : ImpactItem) (found : List ImpactItem)
          → (if is_empty found then other ∷ [] else found) ≡ items
          → (i : ImpactItem) × Memᴰ i items
      one_of other [] same = (other, subst (Memᴰ other) same (Memᴰ.head refl))
      one_of other (i ∷ found) same = (i, subst (Memᴰ i) same (Memᴰ.head refl))

  module _ (specs_by_id : StrMap ReadableContractSpecNode) (targets : List String)
      (all : List ImpactPathStep) where
    -- A step of the walk to a spec that is there and no target, and the items of the spec.
    pub record IsClassified (step : ImpactPathStep) (items : List ImpactItem) : Type 0 where
      pub listed : Memᴰ step all
      pub spec : ReadableContractSpecNode
      pub there : lookup step.impacted_spec_id specs_by_id ≡ some spec
      pub no_target : has targets step.impacted_spec_id ≡ false
      pub classified : classify_impact services options change spec step.edge ≡ some items

    -- The items of the steps whose key was seen are among those gathered.
    unfoldable pub IsCovered : Gathered → Type 0
    IsCovered st =
        (k : String)
        → Memᴰ k st.seen_edges
        → (step : ImpactPathStep) × (items : List ImpactItem) × IsClassified step items
          × (step_key step ≡ k)
          × ((i : ImpactItem) → Memᴰ i items → Memᴰ i st.impacts)

    -- An item that is gathered was there before, or is one of a step.
    unfoldable pub IsFrom : List ImpactItem → Gathered → Type 0
    IsFrom before st =
        (i : ImpactItem)
        → Memᴰ i st.impacts
        → Memᴰ i before
          ⊎ ((step : ImpactPathStep) × (items : List ImpactItem) × IsClassified step items
              × Memᴰ i items)

    pub record IsGathered (before : List ImpactItem) (st : Gathered) : Type 0 where
      pub covered : IsCovered st
      pub origin : IsFrom before st
      pub kept : (i : ImpactItem) → Memᴰ i before → Memᴰ i st.impacts

    module _ (before : List ImpactItem) where
      gather-IsGathered :
          (step : ImpactPathStep) (spec : ReadableContractSpecNode) (st : Gathered) {out : Gathered}
          → Memᴰ step all
          → lookup step.impacted_spec_id specs_by_id ≡ some spec
          → has targets step.impacted_spec_id ≡ false
          → IsGathered before st
          → gather services options change specs_by_id targets step spec st ≡ some out
          → IsGathered before out
            × Memᴰ (step_key step) out.seen_edges
            × ((k : String) → Memᴰ k st.seen_edges → Memᴰ k out.seen_edges)
      unfolding gather IsCovered IsFrom
      gather-IsGathered step spec st {out} listed there no_target h e =
          elim (Bool-cases (has st.seen_edges (step_key step))) [
            | inl old ↦
                subst
                  (λ o.
                    IsGathered before o
                    × Memᴰ (step_key step) o.seen_edges
                    × ((k : String) → Memᴰ k st.seen_edges → Memᴰ k o.seen_edges))
                  (some_inj (rw old at e))
                  (
                    record { covered = h.covered; origin = h.origin; kept = h.kept },
                    (has_iff _ _).0 old,
                    λ k m. m,
                  )
            | inr new ↦
                let (items, classified, same) =
                  >>=-eq-some (classify_impact services options change spec step.edge) _
                    (rw new at e) in
                let c : IsClassified step items = record {
                  listed = listed;
                  spec = spec;
                  there = there;
                  no_target = no_target;
                  classified = classified;
                } in
                subst
                  (λ o.
                    IsGathered before o
                    × Memᴰ (step_key step) o.seen_edges
                    × ((k : String) → Memᴰ k st.seen_edges → Memᴰ k o.seen_edges))
                  (some_inj same)
                  (
                    record {
                      covered = λ k m. elim (Memᴰ.append_cases st.seen_edges m) [
                        | inl earlier ↦
                            let (s, its, d, key, inside) = h.covered k earlier in
                            (s, its, d, key, λ i n. Memᴰ.append_left items (inside i n))
                        | inr here ↦ (
                          step,
                          items,
                          c,
                          sym (Memᴰ.eq_of_singleton here),
                          λ i n. Memᴰ.append_right st.impacts n,
                        )
                      ];
                      origin = λ i m. elim (Memᴰ.append_cases st.impacts m) [
                        | inl earlier ↦ h.origin i earlier
                        | inr here ↦ inr (step, items, c, here)
                      ];
                      kept = λ i m. Memᴰ.append_left items (h.kept i m);
                    },
                    Memᴰ.append_right st.seen_edges (Memᴰ.head refl),
                    λ k m. Memᴰ.append_left (step_key step ∷ []) m,
                  )
          ]

      -- What is known after a step, whether its spec is there or not.
      pub record IsAfter (steps : List ImpactPathStep) (st out : Gathered) : Type 0 where
        pub gathered : IsGathered before out
        pub seen :
            (step : ImpactPathStep) (spec : ReadableContractSpecNode)
            → Memᴰ step steps
            → lookup step.impacted_spec_id specs_by_id ≡ some spec
            → has targets step.impacted_spec_id ≡ false
            → Memᴰ (step_key step) out.seen_edges
        stays : (k : String) → Memᴰ k st.seen_edges → Memᴰ k out.seen_edges

      gather_known-IsAfter :
          (step : ImpactPathStep) (st : Gathered) {out : Gathered}
          → Memᴰ step all
          → IsGathered before st
          → gather_known services options change specs_by_id targets step
              (lookup step.impacted_spec_id specs_by_id)
              st
            ≡ some out
          → IsAfter (step ∷ []) st out
      unfolding gather_known
      gather_known-IsAfter step st {out} listed h e =
          elim (Option-cases (lookup step.impacted_spec_id specs_by_id)) [
            | inl missing ↦
                let same : st ≡ out = some_inj (rw missing at e) in
                record {
                  gathered = subst (IsGathered before) same h;
                  seen = λ s spec m there _.
                      let s_is : s ≡ step = Memᴰ.eq_of_singleton m in
                      let clash : some spec ≡ none = sym there ∙ rw s_is missing in
                      absurd (some_not_none clash);
                  stays = λ k m. subst (λ o. Memᴰ k o.seen_edges) same m;
                }
            | inr (spec, there) ↦ elim (Bool-cases (has targets step.impacted_spec_id)) [
              | inl target ↦
                  let same : st ≡ out = some_inj (rw (there, target) at e) in
                  record {
                    gathered = subst (IsGathered before) same h;
                    seen = λ s other m _ no_target.
                        let s_is : s ≡ step = Memᴰ.eq_of_singleton m in
                        let yes : has targets s.impacted_spec_id ≡ true = rw s_is target in cc;
                    stays = λ k m. subst (λ o. Memᴰ k o.seen_edges) same m;
                  }
              | inr no_target ↦
                  let (g, here, stays) =
                    gather-IsGathered step spec st listed there no_target h
                      (rw (there, no_target) at e) in
                  record {
                    gathered = g;
                    seen = λ s other m _ _.
                        subst (λ t. Memᴰ (step_key t) out.seen_edges) (sym (Memᴰ.eq_of_singleton m))
                          here;
                    stays = stays;
                  }
            ]
          ]
        where
          some_not_none : {spec : ReadableContractSpecNode} → some spec ≡ none → ⊥
          some_not_none clash = cc

      pub gather_all-IsAfter :
          (steps : List ImpactPathStep) (st : Gathered) {out : Gathered}
          → ((step : ImpactPathStep) → Memᴰ step steps → Memᴰ step all)
          → IsGathered before st
          → gather_all services options change specs_by_id targets steps st ≡ some out
          → IsAfter steps st out
      unfolding gather_all
      gather_all-IsAfter [] st listed h e = record {
        gathered = subst (IsGathered before) (some_inj e) h;
        seen = λ step spec m. absurd (Memᴰ.not-nil m);
        stays = λ k m. subst (λ o. Memᴰ k o.seen_edges) (some_inj e) m;
      }
      gather_all-IsAfter (step ∷ steps) st listed h e =
          let (mid, first, e') =
            >>=-eq-some
              (gather_known services options change specs_by_id targets step
                (lookup step.impacted_spec_id specs_by_id) st)
              _ e in
          let a = gather_known-IsAfter step st (listed step (Memᴰ.head refl)) h first in
          let b = gather_all-IsAfter steps mid (λ s m. listed s (Memᴰ.tail m)) a.gathered e' in
          record {
            gathered = b.gathered;
            seen = λ s spec m there no_target. elim (Memᴰ.cases_cons m) [
              | inl here ↦ b.stays _ (a.seen s spec (Memᴰ.head here) there no_target)
              | inr later ↦ b.seen s spec later there no_target
            ];
            stays = λ k m. b.stays k (a.stays k m);
          }

-- ===== src/Impact/Analysis/Report.antt =====
-- The report of an analysis as a whole.
use mathlib.Core.List.Memᴰ
use logiclens.Shared.{
  ◌≤◌, String, false, some, List, [], ◌++◌, Memᴰ, filter, has, is_empty, lookup, mem-sort, sort-mem,
  >>=-eq-some, some_inj, ◌≡◌, sym, subst, ◌∙◌, ◌⊎◌, inl, inr, arith,
}
use logiclens.Nodes.{ContractSpecNode, SemanticRelationEdge}
use logiclens.Keys.Targets.{normalize_semantic_target}
use logiclens.Impact.{ImpactPathStep}
use logiclens.Impact.Items.{
  ImpactItem, severity_rank, item_key, deduplicate_impacts_covers, deduplicate_impacts-IsDistinct,
  summarize-overall,
}
use logiclens.Impact.Rules.{ChangeIntent, ImpactAnalysisOptions}
use logiclens.Impact.Targets.{find_target_specs}
use logiclens.Impact.Analysis.{
  ReadableContractSpecNode, known_specs, AnalysisServices, ImpactReport, Gathered, step_key,
  target_items, gather_all, spec_map, field_items, report, root_ids, path_steps, analyze_targets,
  analyze_impact, by_severity_then_repo,
}
use logiclens.Impact.Analysis.Owners.{classify_impact-owner, lookup-spec_map, step_key_impacted}
use logiclens.Impact.Analysis.Laws.{IsClassified, IsCovered, IsFrom, IsAfter, gather_all-IsAfter}

module _ (services : AnalysisServices) (options : ImpactAnalysisOptions) (change : ChangeIntent)
    (specs : List ReadableContractSpecNode) (relations : List SemanticRelationEdge) where
  -- the specs that the change is about
  abbrev pub targets : List ContractSpecNode
  targets =
      find_target_specs services.read_kind services.payloads.parse_schema
        (normalize_semantic_target services.payloads.lowercase services.uppercase) change.target
        (known_specs specs)

  -- the ids of the roots of the change
  abbrev pub roots : List String
  roots = root_ids services options change specs relations targets

  abbrev pub steps : List ImpactPathStep
  steps = path_steps services options change specs relations roots

  -- the roots' specs
  abbrev pub root_specs : List ContractSpecNode
  root_specs = filter (λ (s : ContractSpecNode). has roots s.id) targets

  -- A step to a spec that is there and no root, with the items of the spec.
  abbrev pub IsAffected : ImpactPathStep → List ImpactItem → Type 0
  IsAffected =
      IsClassified services options change (spec_map services options change specs relations) roots
        steps

  -- The values of the local variables.
  record IsAnalyzed (r : ImpactReport) : Type 0 where
    intended : List ImpactItem
    classified : target_items services change root_specs ≡ some intended
    st : Gathered
    after :
        IsAfter services options change
          (spec_map services options change specs relations)
          roots
          steps
          intended
          steps
          (record { impacts = intended; seen_edges = []; inspected = roots })
          st
    reported :
        report services options change specs relations st
          (field_items services options change specs relations root_specs st.impacts)
        ≡ r

  module _ {r : ImpactReport} (some_target : is_empty targets ≡ false)
      (returned : analyze_impact services options change specs relations ≡ some r) where
    analyzed : IsAnalyzed r
    unfolding analyze_impact analyze_targets IsCovered IsFrom
    analyzed =
        let (intended, classified, e) =
          >>=-eq-some (target_items services change root_specs) _ (rw some_target at returned) in
        let (st, gathered, e') =
          >>=-eq-some
            (gather_all services options change (spec_map services options change specs relations)
              roots steps (record { impacts = intended; seen_edges = []; inspected = roots }))
            _ e in
        record {
          intended = intended;
          classified = classified;
          st = st;
          after =
              gather_all-IsAfter services options change
                (spec_map services options change specs relations) roots steps intended steps _
                (λ s m. m)
                (record {
                  covered = λ k m. absurd (Memᴰ.not-nil m);
                  origin = λ i m. inl m;
                  kept = λ i m. m;
                })
                gathered;
          reported = some_inj e';
        }

    -- An item that was found has one of its place in the report that is at least as sure.
    in_report :
        (h : IsAnalyzed r) (i : ImpactItem)
        → Memᴰ i (
            h.st.impacts
            ++ field_items services options change specs relations root_specs h.st.impacts)
        → (j : ImpactItem) × Memᴰ j r.impacts
          × (item_key services.show_number j ≡ item_key services.show_number i)
          × (i.confidence ≤ j.confidence)
    unfolding report
    in_report h i m =
        let (j, mj, key, above) = deduplicate_impacts_covers services.show_number _ i m in
        (
          j,
          subst (λ (q : ImpactReport). Memᴰ j q.impacts) h.reported
              (sort-mem (by_severity_then_repo services) _ mj),
          key,
          elim above [ inl less ↦ omega arith | inr (same, _) ↦ omega arith ],
        )

    -- If the analysis of a change of some spec returns, every spec that the walk reaches, and that
    -- is no root, is in the report: a step to it by a relation of the same kind was classified,
    -- an item of that spec came of it, and for each item that did the report has one of the same
    -- place that is at least as sure.
    pub analyze_impact_reaches :
        (step : ImpactPathStep) (spec : ReadableContractSpecNode)
        → Memᴰ step steps
        → lookup step.impacted_spec_id (spec_map services options change specs relations)
          ≡ some spec
        → has roots step.impacted_spec_id ≡ false
        → (s : ImpactPathStep) × (items : List ImpactItem) × IsAffected s items
          × (step_key s ≡ step_key step)
          × ((i : ImpactItem) × Memᴰ i items × (i.spec_id ≡ step.impacted_spec_id))
          × ((i : ImpactItem)
              → Memᴰ i items
              → (j : ImpactItem) × Memᴰ j r.impacts
                × (item_key services.show_number j ≡ item_key services.show_number i)
                × (i.confidence ≤ j.confidence))
    unfolding IsCovered
    analyze_impact_reaches step spec m there no_root =
        let h = analyzed in
        let (s, items, c, key, inside) =
          h.after.gathered.covered (step_key step) (h.after.seen step spec m there no_root) in
        let (i, n, own) =
          classify_impact-owner services options change c.spec s.edge c.classified in
        let found = lookup-spec_map services options change specs relations _ c.there in
        (
          s,
          items,
          c,
          key,
          (i, n, own ∙ found ∙ step_key_impacted s step key),
          λ k o. in_report h k (Memᴰ.append_left _ (inside k o)),
        )

    -- If the analysis of a change of some spec returns, every item of the report is one of a root
    -- itself, of a step of the walk to a spec that is no root, or of a reference to the field that
    -- changes.
    pub analyze_impact_sound :
        (i : ImpactItem)
        → Memᴰ i r.impacts
        → (found : List ImpactItem) × (((intended : List ImpactItem) × (target_items services change
                  root_specs
                ≡ some intended)
              × Memᴰ i intended)
            ⊎ (((s : ImpactPathStep) × (items : List ImpactItem) × IsAffected s items
                  × Memᴰ i items)
                ⊎ Memᴰ i (field_items services options change specs relations root_specs found)))
    unfolding report IsFrom
    analyze_impact_sound i m =
        let h = analyzed in
        let n =
          mem-sort (by_severity_then_repo services) _
            (subst (λ (q : ImpactReport). Memᴰ i q.impacts) (sym h.reported) m) in
        let k = (deduplicate_impacts-IsDistinct services.show_number _).1 i n in
        (
          h.st.impacts,
          elim (Memᴰ.append_cases h.st.impacts k) [
            | inr of_field ↦ inr (inr of_field)
            | inl gathered ↦ elim (h.after.gathered.origin i gathered) [
              | inl own ↦ inl (h.intended, h.classified, own)
              | inr (s, items, c, inside) ↦ inr (inl (s, items, c, inside))
            ]
          ],
        )

    -- No item of the report is severer than the report as a whole.
    pub analyze_impact-overall :
        (i : ImpactItem)
        → Memᴰ i r.impacts
        → severity_rank i.severity ≤ severity_rank r.summary.overall_severity
    unfolding report
    analyze_impact-overall i m =
        let h = analyzed in
        let n =
          mem-sort (by_severity_then_repo services) _
            (subst (λ (q : ImpactReport). Memᴰ i q.impacts) (sym h.reported) m) in
        subst
          (λ (q : ImpactReport).
            severity_rank i.severity ≤ severity_rank q.summary.overall_severity)
          h.reported (summarize-overall _ i n)

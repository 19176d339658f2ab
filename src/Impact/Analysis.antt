-- ===== src/Impact/Analysis.antt =====
-- analyzeImpact: from a change to the report of what it affects
-- (src/core/contracts/impact/impactEngine.ts).
use Prim.Native.Nat.{compare, Ordering}
pub mod Laws
pub mod Owners
pub mod Report
use Prim.Native.String
use logiclens.Shared.{
  ℕ, String, Bool, true, false, not, ◌&&◌, ◌||◌, Option, none, some, List, [], ◌∷◌, ◌++◌, ◌>>=◌,
  str_eq, str_lt, map, filter, has, is_empty, length, for_each, StrMap, lookup, insert, firsts,
  sort, template, truthy, get_or_else, last_part, flat_map, min, if◌then◌else◌,
}
use logiclens.Nodes.{
  ContractSpecNode, SpecKind, http_endpoint, event, schema, grpc_method, dubbo_method,
  graphql_operation, same_kind, SemanticRelationEdge, SemanticRelationKind, uses_schema, kind_name,
}
use logiclens.Specs.{Services}
use logiclens.Relations.{semantic_rel_meta, is_dependency, select_impact_root_ids, add}
use logiclens.Keys.Targets.{normalize_semantic_target}
use logiclens.Impact.{ImpactPathStep, traverse_impact_steps}
use logiclens.Impact.Items.{
  ImpactSeverity, ImpactItem, Summary, breaking, risky, compatible, severity_rank, summarize,
  deduplicate_impacts,
}
use logiclens.Impact.Rules.{
  ChangeType, field_added, field_removed, ChangeIntent, ImpactAnalysisOptions, Dependent,
}
use logiclens.Impact.Rules.Http.{classify_http_endpoint_target_change, assess_http_endpoint_change}
use logiclens.Impact.Rules.Event.{classify_event_target_change, assess_event_change}
use logiclens.Impact.Rules.Grpc.{classify_grpc_method_target_change, assess_grpc_method_change}
use logiclens.Impact.Rules.Dubbo.{classify_dubbo_method_target_change, assess_dubbo_method_change}
use logiclens.Impact.Rules.Graphql.{
  classify_graphql_operation_target_change, assess_graphql_operation_change,
}
use logiclens.Impact.Rules.Schema.{
  FieldReference, change_name, classify_schema_target_change, assess_schema_field_change,
  file_references,
}
use logiclens.Impact.Targets.{spec_kind_name, find_target_specs}

-- A spec of a kind that the program does not know.
pub record OpaqueContractSpecNode : Type 0 where
  pub id : String
  pub repo_id : String
  pub file_id : String
  pub canonical_key : String
  pub spec_kind : String
  pub confidence : ℕ
  pub warning : String

pub data ReadableContractSpecNode : Type 0 where
  known : ContractSpecNode → ReadableContractSpecNode
  opaque : OpaqueContractSpecNode → ReadableContractSpecNode

abbrev pub readable_id : ReadableContractSpecNode → String
readable_id (known s) = s.id
readable_id (opaque s) = s.id

abbrev pub readable_repo : ReadableContractSpecNode → String
readable_repo (known s) = s.repo_id
readable_repo (opaque s) = s.repo_id

abbrev pub readable_file : ReadableContractSpecNode → String
readable_file (known s) = s.file_id
readable_file (opaque s) = s.file_id

abbrev pub readable_confidence : ReadableContractSpecNode → ℕ
readable_confidence (known s) = s.confidence
readable_confidence (opaque s) = s.confidence

-- specs.filter(isKnownContractSpecNode)
abbrev pub known_specs : List ReadableContractSpecNode → List ContractSpecNode
known_specs [] = []
known_specs (known s ∷ specs) = s ∷ known_specs specs
known_specs (opaque s ∷ specs) = known_specs specs

-- What the analysis calls: payloads, the kind that a payload has, toUpperCase, the text of a
-- number, the search of a field, and localeCompare.
pub record AnalysisServices : Type 0 where
  pub payloads : Services
  pub read_kind : String → Option SpecKind
  pub uppercase : String → String
  pub show_number : ℕ → String
  pub find_field_references : String → String → String → List FieldReference
  pub locale_compare : String → String → Ordering

pub record ImpactReport : Type 0 where
  pub change : ChangeIntent
  pub summary : Summary
  pub impacts : List ImpactItem
  pub recommended_files : List String
  pub traversed_edge_count : ℕ
  pub inspected_spec_count : ℕ

-- The variables of the loop over the steps.
pub record Gathered : Type 0 where
  pub impacts : List ImpactItem
  pub seen_edges : List String
  pub inspected : List String

-- `${step.impactedSpecId}:${step.edge.kind}`
abbrev pub step_key : ImpactPathStep → String
step_key step = template (step.impacted_spec_id ∷ ":" ∷ kind_name step.edge.kind ∷ [])

module _ (services : AnalysisServices) where
  abbrev payloads : Services
  payloads = services.payloads

  unfoldable pub classify_target_change :
      ChangeIntent → ContractSpecNode → Option (Option ImpactItem)
  classify_target_change change spec = elim spec.spec_kind [
    | http_endpoint ↦
        classify_http_endpoint_target_change services.read_kind payloads.parse_http change spec
    | event ↦ classify_event_target_change services.read_kind payloads.parse_event change spec
    | schema ↦ classify_schema_target_change services.read_kind payloads.parse_schema change spec
    | grpc_method ↦
        classify_grpc_method_target_change services.read_kind payloads.parse_grpc change spec
    | dubbo_method ↦
        classify_dubbo_method_target_change services.read_kind payloads.parse_dubbo change spec
    | graphql_operation ↦
        classify_graphql_operation_target_change services.read_kind payloads.parse_graphql change
          spec
  ]

  -- IMPACT_CLASSIFIERS[spec.specKind]
  unfoldable pub apply_rules :
      ImpactAnalysisOptions → ChangeIntent → Dependent → Option (List ImpactItem)
  apply_rules options change d = elim d.spec.spec_kind [
    | http_endpoint ↦ assess_http_endpoint_change services.read_kind payloads.parse_http change d
    | event ↦ assess_event_change services.read_kind payloads.parse_event change d
    | schema ↦
        assess_schema_field_change services.find_field_references services.read_kind
          payloads.parse_schema options change d
    | grpc_method ↦ assess_grpc_method_change services.read_kind payloads.parse_grpc change d
    | dubbo_method ↦ assess_dubbo_method_change services.read_kind payloads.parse_dubbo change d
    | graphql_operation ↦
        assess_graphql_operation_change services.read_kind payloads.parse_graphql change d
  ]

  -- The item for a spec to which no rule applies.
  abbrev pub unruled_item : ChangeIntent → Dependent → ImpactItem
  unruled_item change d = record {
    severity = risky;
    repo_id = d.spec.repo_id;
    repo_name = none;
    file_path = d.spec.file_id;
    line = none;
    symbol = d.spec.canonical_key;
    relation_kind = d.relation_kind;
    description = template (
        spec_kind_name d.spec.spec_kind
        ∷ " is transitively connected to "
        ∷ change.target
        ∷ "; no specific "
        ∷ change_name change.change_type
        ∷ " rule was applied."
        ∷ []);
    evidence = d.reason;
    spec_id = d.spec.id;
    confidence = min (min d.confidence d.spec.confidence) 60;
  }

  -- The item for a spec of an unknown kind.
  abbrev pub opaque_item : OpaqueContractSpecNode → SemanticRelationKind → String → ℕ → ImpactItem
  opaque_item s kind reason confidence = record {
    severity = risky;
    repo_id = s.repo_id;
    repo_name = none;
    file_path = s.file_id;
    line = none;
    symbol = s.canonical_key;
    relation_kind = kind;
    description = template (
        "Opaque contract spec "
        ∷ s.spec_kind
        ∷ " is connected by "
        ∷ kind_name kind
        ∷ "; structured impact rules were not applied."
        ∷ []);
    evidence = if str_eq reason "" then s.warning else reason;
    spec_id = s.id;
    confidence = min confidence 40;
  }

  unfoldable pub classify_impact :
      ImpactAnalysisOptions
      → ChangeIntent
      → ReadableContractSpecNode
      → SemanticRelationEdge
      → Option (List ImpactItem)
  unfolding apply_rules
  classify_impact options change (opaque s) edge =
      some (opaque_item s edge.kind edge.reason edge.confidence ∷ [])
  classify_impact options change (known s) edge =
      let d : Dependent = record {
        spec = s;
        relation_kind = edge.kind;
        reason = edge.reason;
        confidence = edge.confidence;
      } in
      do
        items ← apply_rules options change d
        some (if is_empty items then unruled_item change d ∷ [] else items)

  -- the items of the changed specs
  unfoldable pub target_items : ChangeIntent → List ContractSpecNode → Option (List ImpactItem)
  unfolding classify_target_change
  target_items change [] = some []
  target_items change (s ∷ specs) = do
    item ← classify_target_change change s
    rest ← target_items change specs
    some (elim item [ none ↦ rest | some i ↦ i ∷ rest ])

  module _ (options : ImpactAnalysisOptions) (change : ChangeIntent)
      (spec_map : StrMap ReadableContractSpecNode) (targets : List String) where
    -- the body of the loop for a spec that is there and no target
    unfoldable pub gather : ImpactPathStep → ReadableContractSpecNode → Gathered → Option Gathered
    gather step spec st =
        let looked_at =
          add step.edge.to_spec_id
            (add step.edge.from_spec_id (add step.impacted_spec_id st.inspected)) in
        if has st.seen_edges (step_key step)
        then some (record st { inspected = looked_at })
        else (do
          items ← classify_impact options change spec step.edge
          some (record {
            impacts = st.impacts ++ items;
            seen_edges = st.seen_edges ++ step_key step ∷ [];
            inspected = looked_at;
          }))

    unfoldable pub gather_known :
        ImpactPathStep → Option ReadableContractSpecNode → Gathered → Option Gathered
    unfolding gather
    gather_known step none st = some st
    gather_known step (some spec) st =
        if has targets step.impacted_spec_id then some st else gather step spec st

    -- for (const step of pathSteps)
    unfoldable pub gather_all : List ImpactPathStep → Gathered → Option Gathered
    unfolding gather_known
    gather_all [] st = some st
    gather_all (step ∷ steps) st = do
      after ← gather_known step (lookup step.impacted_spec_id spec_map) st
      gather_all steps after

  abbrev pub reference_severity : ChangeType → ImpactSeverity
  reference_severity field_removed = breaking
  reference_severity field_added = compatible
  reference_severity _ = risky

  -- the item for a reference to the changed field
  abbrev pub reference_item : ChangeIntent → ReadableContractSpecNode → FieldReference → ImpactItem
  reference_item change spec ref =
      let field = get_or_else change.detail "" in
      record {
        severity = reference_severity change.change_type;
        repo_id = readable_repo spec;
        repo_name = none;
        file_path = readable_file spec;
        line = some ref.line;
        symbol = template (last_part 58 change.target ∷ "." ∷ field ∷ []);
        relation_kind = uses_schema;
        description = template (
            "Field '"
            ∷ field
            ∷ "' referenced in "
            ∷ readable_repo spec
            ∷ "/"
            ∷ readable_file spec
            ∷ []);
        evidence = ref.raw;
        spec_id = readable_id spec;
        confidence = readable_confidence spec;
      }

  unfoldable pub reference_items :
      ImpactAnalysisOptions → ChangeIntent → Option ReadableContractSpecNode → List ImpactItem
  reference_items options change none = []
  reference_items options change (some spec) = map (reference_item change spec) (
      file_references services.find_field_references options.read_file (readable_repo spec)
        (readable_file spec) (get_or_else change.detail ""))

  -- a.repoId.localeCompare(b.repoId) || …, of items as severe as each other
  abbrev pub by_place : ImpactItem → ImpactItem → Ordering
  by_place a b = elim (services.locale_compare a.repo_id b.repo_id) [
    | Ordering.eq ↦ services.locale_compare a.file_path b.file_path
    | Ordering.lt ↦ Ordering.lt
    | Ordering.gt ↦ Ordering.gt
  ]

  unfoldable pub by_severity_then_repo : ImpactItem → ImpactItem → Ordering
  by_severity_then_repo a b = elim (compare (severity_rank b.severity) (severity_rank a.severity)) [
    | Ordering.eq ↦ by_place a b
    | Ordering.lt ↦ Ordering.lt
    | Ordering.gt ↦ Ordering.gt
  ]

  -- the files of the items, each once
  unfoldable pub recommended_files : List ImpactItem → List String
  recommended_files items = sort String.compare (
      firsts (λ f. f)
        (map (λ (i : ImpactItem). template (i.repo_id ∷ "/" ∷ i.file_path ∷ []))
          (filter (λ (i : ImpactItem). not (str_eq i.file_path "")) items)))

  -- the first spec's kind is that of a schema
  abbrev pub is_schema_change : List ContractSpecNode → Bool
  is_schema_change [] = false
  is_schema_change (s ∷ _) = same_kind s.spec_kind schema

  module _ (options : ImpactAnalysisOptions) (change : ChangeIntent)
      (specs : List ReadableContractSpecNode) (relations : List SemanticRelationEdge) where
    unfoldable pub spec_map : StrMap ReadableContractSpecNode
    spec_map = for_each specs (λ s. insert (readable_id s) s) []

    unfoldable pub transitive_relations : List SemanticRelationEdge
    unfolding semantic_rel_meta
    transitive_relations = filter (λ e. is_dependency (semantic_rel_meta e.kind).category) relations

    -- step 3, for the items so far
    unfoldable pub field_items : List ContractSpecNode → List ImpactItem → List ImpactItem
    unfolding reference_items spec_map
    field_items roots items =
        if is_schema_change roots && truthy change.detail
        then flat_map (λ id. reference_items options change (lookup id spec_map))
            (for_each items
              (λ (i : ImpactItem) ids. if str_eq i.spec_id "" then ids else add i.spec_id ids) [])
        else []

    -- step 4
    unfoldable pub report : Gathered → List ImpactItem → ImpactReport
    unfolding by_severity_then_repo recommended_files
    report st found =
        let items = deduplicate_impacts services.show_number (st.impacts ++ found) in
        record {
          change = change;
          summary = summarize items;
          impacts = sort by_severity_then_repo items;
          recommended_files = recommended_files items;
          traversed_edge_count = length st.seen_edges;
          inspected_spec_count = length st.inspected;
        }

    -- the targets that are the roots of the change
    unfoldable pub root_ids : List ContractSpecNode → List String
    root_ids targets =
        select_impact_root_ids (firsts (λ i. i) (map (λ (s : ContractSpecNode). s.id) targets))
          relations

    -- the steps of the walk
    unfoldable pub path_steps : List String → List ImpactPathStep
    unfolding transitive_relations
    path_steps ids =
        (traverse_impact_steps ids transitive_relations (get_or_else options.max_hops 3)).1

    -- steps 1 to 4 for targets that were found
    unfoldable pub analyze_targets : List ContractSpecNode → Option ImpactReport
    unfolding root_ids path_steps target_items gather_all spec_map field_items report
    analyze_targets targets =
        let ids = root_ids targets in
        let roots = filter (λ (s : ContractSpecNode). has ids s.id) targets in
        do
          intended ← target_items change roots
          st ←
              gather_all options change spec_map ids (path_steps ids)
                (record { impacts = intended; seen_edges = []; inspected = ids })
          some (report st (field_items roots st.impacts))

    unfoldable pub analyze_impact : Option ImpactReport
    unfolding analyze_targets
    analyze_impact =
        let targets =
          find_target_specs services.read_kind payloads.parse_schema
            (normalize_semantic_target payloads.lowercase services.uppercase) change.target
            (known_specs specs) in
        if is_empty targets
        then some (record {
          change = change;
          summary = summarize [];
          impacts = [];
          recommended_files = [];
          traversed_edge_count = 0;
          inspected_spec_count = 0;
        })
        else analyze_targets targets

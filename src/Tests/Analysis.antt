-- ===== src/Tests/Analysis.antt =====
-- The removal of an endpoint of the shop that the web calls.
use Prim.Native.String
use logiclens.Shared.{
  ◌≤◌, false, Option, none, some, List, [], ◌∷◌, Memᴰ, is_empty, has, lookup, get_or_else,
  get_elem?, ◌≡◌, refl, ◌⊎◌,
}
use logiclens.Nodes.{ContractSpecNode, http_endpoint, SemanticRelationEdge, calls_http}
use logiclens.Specs.{HttpEndpointSpec}
use logiclens.Relations.{semantic_rel_meta, select_impact_root_ids}
use logiclens.Impact.{
  ImpactPathStep, traverse_impact_steps, relations_by_spec_id, get_impact_step_spec_ids,
  get_impacted_spec_id,
}
use logiclens.Impact.Items.{
  ImpactItem, severity_rank, item_key, deduplicate_impacts, summarize, breaking,
}
use logiclens.Impact.Rules.{
  target_item, ChangeIntent, endpoint_removed, ImpactAnalysisOptions, with_payload,
}
use logiclens.Impact.Rules.Http.{
  http_target, http_impact, classify_http_endpoint_target_change, assess_http_endpoint_change,
}
use logiclens.Keys.Paths.{normalize_api_path}
use logiclens.Keys.Targets.{normalize_semantic_target}
use logiclens.Impact.Targets.{parse_target, find_target_specs}
use logiclens.Impact.Analysis.{
  ReadableContractSpecNode, known, AnalysisServices, ImpactReport, step_key, classify_target_change,
  apply_rules, classify_impact, target_items, gather, gather_known, gather_all, spec_map,
  transitive_relations, field_items, report, root_ids, path_steps, analyze_targets, analyze_impact,
}
use logiclens.Impact.Analysis.Report.{
  targets, roots, steps, root_specs, IsAffected, analyze_impact_reaches, analyze_impact_sound,
  analyze_impact-overall,
}
use logiclens.Tests.{spec_of}

abbrev post : HttpEndpointSpec
post = record {
  method = some "POST";
  path = "/orders";
  path_template = "/orders";
  path_params = [];
  request_body_type = none;
  response_body_type = none;
  declared_response_type = none;
}

abbrev services : AnalysisServices
services = record {
  payloads = record {
    parse_http = λ t. some post;
    parse_event = λ t. none;
    parse_schema = λ t. none;
    parse_grpc = λ t. none;
    parse_dubbo = λ t. none;
    parse_graphql = λ t. none;
    lowercase = λ t. t;
  };
  read_kind = λ t. some http_endpoint;
  uppercase = λ t. t;
  show_number = λ n. "0";
  find_field_references = λ text field file. [];
  locale_compare = String.compare;
}

abbrev endpoint : ContractSpecNode
endpoint = record (spec_of http_endpoint "s1" "shop" "post") { canonical_key = "POST:/orders" }

abbrev call : ContractSpecNode
call = record (spec_of http_endpoint "s2" "web" "post") { canonical_key = "call" }

abbrev calls : SemanticRelationEdge
calls = record {
  from_spec_id = "s2";
  to_spec_id = "s1";
  kind = calls_http;
  evidence_id = "evidence";
  reason = "exact";
  confidence = 95;
  batch_id = none;
  active = none;
}

abbrev options : ImpactAnalysisOptions
options = record { read_file = none; max_hops = none }

abbrev change : ChangeIntent
change = record { target = "http:POST:/orders"; change_type = endpoint_removed; detail = none }

abbrev specs : List ReadableContractSpecNode
specs = known endpoint ∷ known call ∷ []

abbrev outcome : Option ImpactReport
outcome = analyze_impact services options change specs (calls ∷ [])

abbrev its_report : ImpactReport
its_report = get_or_else outcome (record {
  change = change;
  summary = summarize [];
  impacts = [];
  recommended_files = [];
  traversed_edge_count = 0;
  inspected_spec_count = 0;
})

some_target : is_empty (targets services options change specs (calls ∷ [])) ≡ false
unfolding find_target_specs parse_target normalize_semantic_target normalize_api_path
some_target = refl

returned : analyze_impact services options change specs (calls ∷ []) ≡ some its_report
unfolding analyze_impact analyze_targets find_target_specs parse_target normalize_semantic_target
    normalize_api_path root_ids select_impact_root_ids path_steps transitive_relations
    traverse_impact_steps relations_by_spec_id get_impact_step_spec_ids get_impacted_spec_id
    semantic_rel_meta target_items classify_target_change classify_http_endpoint_target_change
    http_target with_payload gather_all gather_known gather classify_impact apply_rules
    assess_http_endpoint_change http_impact spec_map field_items report deduplicate_impacts item_key
    summarize
returned = refl

abbrev no_item : ImpactItem
no_item = target_item endpoint breaking "" "" ""

-- The severest item, which is of the endpoint itself.
abbrev first_item : ImpactItem
first_item = get_or_else (get_elem? its_report.impacts 0) no_item

first_listed : Memᴰ first_item its_report.impacts
unfolding analyze_impact analyze_targets find_target_specs parse_target normalize_semantic_target
    normalize_api_path root_ids select_impact_root_ids path_steps transitive_relations
    traverse_impact_steps relations_by_spec_id get_impact_step_spec_ids get_impacted_spec_id
    semantic_rel_meta target_items classify_target_change classify_http_endpoint_target_change
    http_target with_payload gather_all gather_known gather classify_impact apply_rules
    assess_http_endpoint_change http_impact spec_map field_items report deduplicate_impacts item_key
    summarize
first_listed = Memᴰ.head refl

analyze_impact-overall_example :
    severity_rank first_item.severity ≤ severity_rank its_report.summary.overall_severity
analyze_impact-overall_example =
    analyze_impact-overall services options change specs (calls ∷ []) some_target returned
      first_item first_listed

analyze_impact_sound_example :
    (found : List ImpactItem) × (((intended : List ImpactItem) × (target_items services change
            (root_specs services options change specs (calls ∷ []))
          ≡ some intended)
        × Memᴰ first_item intended)
      ⊎ (((s : ImpactPathStep) × (items : List ImpactItem) × IsAffected services options change
              specs
              (calls ∷ [])
              s
              items
            × Memᴰ first_item items)
          ⊎ Memᴰ first_item (
              field_items services options change specs
                (calls ∷ [])
                (root_specs services options change specs (calls ∷ []))
                found)))
analyze_impact_sound_example =
    analyze_impact_sound services options change specs (calls ∷ []) some_target returned first_item
      first_listed

-- The step of the walk to the web's call.
abbrev to_call : ImpactPathStep
to_call = record { impacted_spec_id = "s2"; edge = calls; hop = 1 }

walked : Memᴰ to_call (steps services options change specs (calls ∷ []))
unfolding find_target_specs parse_target normalize_semantic_target normalize_api_path root_ids
    select_impact_root_ids path_steps transitive_relations traverse_impact_steps
    relations_by_spec_id get_impact_step_spec_ids get_impacted_spec_id semantic_rel_meta
walked = Memᴰ.head refl

call_there : lookup "s2" (spec_map services options change specs (calls ∷ [])) ≡ some (known call)
unfolding spec_map
call_there = refl

call_no_root : has (roots services options change specs (calls ∷ [])) "s2" ≡ false
unfolding find_target_specs parse_target normalize_semantic_target normalize_api_path root_ids
    select_impact_root_ids semantic_rel_meta
call_no_root = refl

analyze_impact_reaches_example :
    (s : ImpactPathStep) × (items : List ImpactItem) × IsAffected services options change specs
      (calls ∷ [])
      s
      items
    × (step_key s ≡ step_key to_call)
    × ((i : ImpactItem) × Memᴰ i items × (i.spec_id ≡ "s2"))
    × ((i : ImpactItem)
        → Memᴰ i items
        → (j : ImpactItem) × Memᴰ j its_report.impacts
          × (item_key services.show_number j ≡ item_key services.show_number i)
          × (i.confidence ≤ j.confidence))
analyze_impact_reaches_example =
    analyze_impact_reaches services options change specs (calls ∷ []) some_target returned to_call
      (known call) walked call_there call_no_root

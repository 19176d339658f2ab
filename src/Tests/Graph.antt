-- ===== src/Tests/Graph.antt =====
-- The merge of dependencies, the walk of an impact analysis and its items, at small inputs.
use mathlib.Core.List.Memᴰ
use logiclens.Shared.{
  ℕ, ◌≤◌, String, none, some, List, [], ◌∷◌, map, Memᴰ, ◌≡◌, ◌≢◌, refl, ◌⊎◌, inl, lookup, ap, sym,
  ◌∙◌,
}
use logiclens.Nodes.{RepoDependencyEdge, calls_http, SemanticRelationEdge}
use logiclens.Deps.{structural_key, evidence_key, merge_and_dedupe_deps}
use logiclens.Deps.Laws.{merge_and_dedupe_deps_sound, merge_and_dedupe_deps_complete}
use logiclens.Impact.{
  TraversalMode, ImpactPathStep, relations_by_spec_id, traverse_impact_steps,
  get_impact_step_spec_ids,
}
use logiclens.Impact.Laws.{
  Reach, IsStep, traverse_impact_steps-visited, traverse_impact_steps-steps,
}
use logiclens.Impact.Items.{ImpactItem, breaking, risky}

abbrev dep_of : String → RepoDependencyEdge
dep_of evidence = record {
  from_repo_id = "web";
  to_repo_id = "shop";
  dependency_type = "api";
  source_contract_id = "a";
  target_contract_id = "b";
  evidence_id = evidence;
  raw = "";
  confidence = 90;
  batch_id = none;
  active = none;
}

abbrev of_relation : RepoDependencyEdge
of_relation = dep_of "relation"

abbrev older : RepoDependencyEdge
older = record (dep_of "import") { target_contract_id = "c" }

abbrev merged : List RepoDependencyEdge
merged = merge_and_dedupe_deps (of_relation ∷ []) (dep_of "import" ∷ older ∷ [])

older_stays : Memᴰ older merged
unfolding merge_and_dedupe_deps
older_stays = Memᴰ.tail (Memᴰ.head refl)

merge_and_dedupe_deps_sound_example :
    Memᴰ older (of_relation ∷ [])
    ⊎ (Memᴰ older (dep_of "import" ∷ older ∷ [])
        × ((r : RepoDependencyEdge)
            → Memᴰ r (of_relation ∷ [])
            → structural_key r ≢ structural_key older))
merge_and_dedupe_deps_sound_example =
    merge_and_dedupe_deps_sound (of_relation ∷ []) (dep_of "import" ∷ older ∷ [])
      (λ r t mr mt _. ap structural_key (Memᴰ.eq_of_singleton mr ∙ sym (Memᴰ.eq_of_singleton mt)))
      older older_stays

merge_and_dedupe_deps_complete_example : Memᴰ (evidence_key of_relation) (map evidence_key merged)
merge_and_dedupe_deps_complete_example =
    merge_and_dedupe_deps_complete (of_relation ∷ []) (dep_of "import" ∷ older ∷ []) of_relation
      (inl (Memᴰ.head refl))

abbrev calls : SemanticRelationEdge
calls = record {
  from_spec_id = "client";
  to_spec_id = "server";
  kind = calls_http;
  evidence_id = "evidence";
  reason = "";
  confidence = 90;
  batch_id = none;
  active = none;
}

abbrev outer : SemanticRelationEdge
outer = record calls { from_spec_id = "page"; to_spec_id = "client" }

abbrev relations : List SemanticRelationEdge
relations = calls ∷ outer ∷ []

abbrev starts : List String
starts = "server" ∷ []

page_visited : lookup "page" (traverse_impact_steps starts relations 3).0 ≡ some 2
unfolding traverse_impact_steps relations_by_spec_id get_impact_step_spec_ids
page_visited = refl

traverse_impact_steps-visited_example :
    (2 ≤ 3) × ((mode : TraversalMode) × Reach starts relations 2 "page" mode)
traverse_impact_steps-visited_example =
    traverse_impact_steps-visited starts relations 3 "page" 2 page_visited

abbrev first_step : ImpactPathStep
first_step = record { impacted_spec_id = "client"; edge = calls; hop = 1 }

stepped : Memᴰ first_step (traverse_impact_steps starts relations 3).1
unfolding traverse_impact_steps relations_by_spec_id get_impact_step_spec_ids
stepped = Memᴰ.head refl

traverse_impact_steps-steps_example : IsStep starts relations first_step × (1 ≤ 3)
traverse_impact_steps-steps_example =
    traverse_impact_steps-steps starts relations 3 first_step stepped

abbrev item : ImpactItem
item = record {
  severity = risky;
  repo_id = "web";
  repo_name = none;
  file_path = "page.ts";
  line = some 3;
  symbol = "load";
  relation_kind = calls_http;
  description = "";
  evidence = "";
  spec_id = "client";
  confidence = 90;
}

abbrev worse : ImpactItem
worse = record item { severity = breaking }

abbrev items : List ImpactItem
items = item ∷ worse ∷ []

abbrev show_number : ℕ → String
show_number n = "n"

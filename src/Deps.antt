-- ===== src/Deps.antt =====
-- The merge of the dependencies that the relations give with those of the older scheme
-- (src/core/contracts/depsMerge.ts).
pub mod Laws
use logiclens.Shared.{String, Bool, List, [], ◌∷◌, ◌++◌, template, has, for_each, if◌then◌else◌}
use logiclens.Nodes.{RepoDependencyEdge}

-- The parts of the key are joined by colons.
abbrev pub structural_key : RepoDependencyEdge → String
structural_key e = template (
    e.from_repo_id ∷ ":" ∷ e.to_repo_id ∷ ":" ∷ e.dependency_type ∷ ":" ∷ e.source_contract_id ∷ ":"
    ∷ e.target_contract_id ∷ [])

-- `${structuralKey(dep)}:${dep.evidenceId}`
abbrev pub evidence_key : RepoDependencyEdge → String
evidence_key e = template (structural_key e ∷ ":" ∷ e.evidence_id ∷ [])

pub record Merge : Type 0 where
  pub seen_evidence : List String
  pub covered : List String
  pub result : List RepoDependencyEdge

pub add_semantic : RepoDependencyEdge → Merge → Merge
add_semantic dep st = if has st.seen_evidence (evidence_key dep) then st else record {
  seen_evidence = st.seen_evidence ++ evidence_key dep ∷ [];
  covered = st.covered ++ structural_key dep ∷ [];
  result = st.result ++ dep ∷ [];
}

pub add_legacy : RepoDependencyEdge → Merge → Merge
add_legacy dep st =
    if has st.covered (structural_key dep)
    then st
    else if has st.seen_evidence (evidence_key dep)
    then st
    else record st {
      seen_evidence = st.seen_evidence ++ evidence_key dep ∷ [];
      result = st.result ++ dep ∷ [];
    }

abbrev pub start : Merge
start = record { seen_evidence = []; covered = []; result = [] }

unfoldable pub merge_and_dedupe_deps :
    List RepoDependencyEdge → List RepoDependencyEdge → List RepoDependencyEdge
unfolding add_semantic add_legacy
merge_and_dedupe_deps semantic legacy =
    (for_each legacy add_legacy (for_each semantic add_semantic start)).result

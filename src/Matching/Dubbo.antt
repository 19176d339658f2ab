-- ===== src/Matching/Dubbo.antt =====
-- Dubbo relations (src/core/contracts/matching/dubboResolver.ts): consumers are held against the
-- producers of the same interface, of which each repository's best are selected.
pub mod Laws
pub mod Selection
use logiclens.Shared.{
  ℕ, String, Bool, true, false, not, ◌&&◌, ◌||◌, Option, none, some, List, [], ◌∷◌, ltb, ◌==◌,
  str_eq, template, truthy, get_or_else, bucket, group_by, filter, any, map, for_each, lookup,
  insert, StrMap, if◌then◌else◌, has, strip_spaces, str_lt, values, keep_best,
}
use logiclens.Nodes.{ContractSpecNode, dubbo_method, calls_dubbo, SemanticRelationEdge}
use logiclens.Confidence.{
  confidence_for, exact_dubbo_match, method_unknown_fallback, probable_dubbo_group_version_mismatch,
  probable_dubbo_group_version_unspecified,
}
use logiclens.Specs.{DubboMethodSpec, Parsed}
use logiclens.Matching.Roles.{SpecRoleMap}
use logiclens.Matching.Pairs.{across}
use logiclens.Matching.Frame.{resolve_pairs}

-- A method that names no method of the interface: missing, empty or "*".
abbrev pub is_any : String → Bool
is_any m = str_eq m "" || str_eq m "*"

abbrev pub methods_compatible : String → String → Bool
methods_compatible left right = if is_any left || is_any right then true else str_eq left right

-- `method || "*"`
abbrev method_name : DubboMethodSpec → String
method_name s = if str_eq s.method "" then "*" else s.method

module _ (lowercase : String → String) where
  -- interfaceName.replace(/\s+/g, "").toLowerCase()
  abbrev pub interface_key : DubboMethodSpec → String
  interface_key s = lowercase (strip_spaces s.interface_name)

-- [repoId, method || "*", group ?? "", version ?? ""].join(":")
abbrev pub selection_key : Parsed DubboMethodSpec → String
selection_key p = template (
    p.node.repo_id
    ∷ ":"
    ∷ method_name p.spec
    ∷ ":"
    ∷ get_or_else p.spec.group ""
    ∷ ":"
    ∷ get_or_else p.spec.version ""
    ∷ [])

-- A candidate replaces another of its key: a higher confidence, or the same and a smaller id.
abbrev pub is_preferred : Parsed DubboMethodSpec → Parsed DubboMethodSpec → Bool
is_preferred candidate existing =
    ltb existing.node.confidence candidate.node.confidence
    || candidate.node.confidence == existing.node.confidence
      && str_lt candidate.node.id existing.node.id

-- The repositories with a selected producer of the very method.
abbrev repos_with_method : String → List (Parsed DubboMethodSpec) → List String
repos_with_method m selected =
    map (λ p. p.node.repo_id) (filter (λ p. str_eq p.spec.method m) selected)

selected_for : DubboMethodSpec → List (Parsed DubboMethodSpec) → List (Parsed DubboMethodSpec)
selected_for consumer selected =
    if is_any consumer.method
    then selected
    else filter
        (λ p.
          not (str_eq p.spec.method "*")
          || not (has (repos_with_method consumer.method selected) p.node.repo_id))
        selected

pub select_producer_candidates :
    DubboMethodSpec → List (Parsed DubboMethodSpec) → List (Parsed DubboMethodSpec)
unfolding selected_for
select_producer_candidates consumer candidates =
    let compatible = filter (λ p. methods_compatible consumer.method p.spec.method) candidates in
    selected_for consumer (values (keep_best selection_key is_preferred compatible))

pub data GroupVersion : Type 0 where
  exact partial mismatch : GroupVersion

-- the loop over the pairs of group and version
compare_pairs : List (Option String × Option String) → Bool → GroupVersion
compare_pairs [] missing = if missing then partial else exact
compare_pairs ((left, right) ∷ pairs) missing =
    let rest = compare_pairs pairs (if truthy left && truthy right then missing else true) in
    if truthy left && truthy right && not (str_eq (get_or_else left "") (get_or_else right ""))
    then mismatch
    else rest

pub classify_group_version : DubboMethodSpec → DubboMethodSpec → GroupVersion
unfolding compare_pairs
classify_group_version consumer producer =
    compare_pairs ((consumer.group, producer.group) ∷ (consumer.version, producer.version) ∷ [])
      false

pub record Verdict : Type 0 where
  pub reason : String
  pub confidence : ℕ

abbrev full_method_name : DubboMethodSpec → String
full_method_name s = template (s.interface_name ∷ "#" ∷ method_name s ∷ [])

abbrev names : DubboMethodSpec → DubboMethodSpec → String
names consumer producer =
    template (full_method_name consumer ∷ " -> " ∷ full_method_name producer ∷ [])

by_group_version : GroupVersion → DubboMethodSpec → DubboMethodSpec → Verdict
by_group_version mismatch consumer producer = record {
  reason =
      template ("Dubbo method match with group/version mismatch: " ∷ names consumer producer ∷ []);
  confidence = confidence_for probable_dubbo_group_version_mismatch;
}
by_group_version partial consumer producer = record {
  reason =
      template
        ("Dubbo method match with group/version unspecified: " ∷ names consumer producer ∷ []);
  confidence = confidence_for probable_dubbo_group_version_unspecified;
}
by_group_version exact consumer producer = record {
  reason = template ("Dubbo exact match: " ∷ full_method_name consumer ∷ []);
  confidence = confidence_for exact_dubbo_match;
}

pub classify_dubbo_match : DubboMethodSpec → DubboMethodSpec → Verdict
unfolding by_group_version classify_group_version
classify_dubbo_match consumer producer =
    if is_any consumer.method || is_any producer.method
    then record {
      reason = template ("Dubbo interface-level match: " ∷ names consumer producer ∷ []);
      confidence = confidence_for method_unknown_fallback;
    }
    else by_group_version (classify_group_version consumer producer) consumer producer

pub dubbo_edge : Parsed DubboMethodSpec → Parsed DubboMethodSpec → SemanticRelationEdge
dubbo_edge c p = record {
  from_spec_id = c.node.id;
  to_spec_id = p.node.id;
  kind = calls_dubbo;
  evidence_id = c.node.evidence_id;
  reason = (classify_dubbo_match c.spec p.spec).reason;
  confidence = (classify_dubbo_match c.spec p.spec).confidence;
  batch_id = none;
  active = none;
}

-- the body of the inner loop
link : Parsed DubboMethodSpec → Parsed DubboMethodSpec → List SemanticRelationEdge
link c p = across c.node p.node (dubbo_edge c p ∷ [])

module _ (lowercase : String → String) where
  -- what the loop over consumers runs through
  candidates :
      List (Parsed DubboMethodSpec) → Parsed DubboMethodSpec → List (Parsed DubboMethodSpec)
  candidates producers c = select_producer_candidates c.spec (
      bucket (interface_key lowercase c.spec)
        (group_by (λ p. interface_key lowercase p.spec) producers))

  unfoldable pub resolve_dubbo_relations :
      (String → Option DubboMethodSpec)
      → List ContractSpecNode
      → SpecRoleMap
      → Option (List SemanticRelationEdge)
  unfolding candidates select_producer_candidates link dubbo_edge classify_dubbo_match
  resolve_dubbo_relations parse = resolve_pairs parse dubbo_method candidates link

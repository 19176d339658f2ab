-- ===== src/Impact/Targets.antt =====
-- The specs that a change is about (parseTarget and findTargetSpecs of impactEngine.ts). The
-- normalization of the target's text (normalizeSemanticTarget) is an argument.
use logiclens.Shared.{
  String, Bool, false, ◌&&◌, ◌||◌, Option, none, some, List, [], ◌∷◌, str_eq, filter, template,
  split_at, ends_with, if◌then◌else◌,
}
use logiclens.Nodes.{
  ContractSpecNode, SpecKind, http_endpoint, event, schema, grpc_method, dubbo_method,
  graphql_operation, same_kind,
}
use logiclens.Specs.{SchemaSpec}
use logiclens.Impact.Rules.{has_kind}

-- The text that stands for a kind of spec.
abbrev pub spec_kind_name : SpecKind → String
spec_kind_name http_endpoint = "http-endpoint"
spec_kind_name event = "event"
spec_kind_name schema = "schema"
spec_kind_name grpc_method = "grpc-method"
spec_kind_name dubbo_method = "dubbo-method"
spec_kind_name graphql_operation = "graphql-operation"

-- The parts of a target, its kind and its key; a text without a colon names a schema.
unfoldable pub parse_target : String → String × String
parse_target target = elim (split_at 58 target) [
  | none ↦ ("schema", target)
  | some (kind, key) ↦ (kind, key)
]

-- specKindMap[kind] ?? kind
abbrev pub target_spec_kind : String → String
target_spec_kind kind =
    if str_eq kind "api" || str_eq kind "http"
    then "http-endpoint"
    else if str_eq kind "dto"
    then "schema"
    else if str_eq kind "grpc"
    then "grpc-method"
    else if str_eq kind "dubbo"
    then "dubbo-method"
    else if str_eq kind "graphql"
    then "graphql-operation"
    else kind

module _ (read_kind : String → Option SpecKind) (parse_schema : String → Option SchemaSpec) where
  -- The name in a schema's payload, whose exception is caught.
  abbrev pub has_schema_name : String → ContractSpecNode → Bool
  has_schema_name key s =
      same_kind s.spec_kind schema
      && has_kind schema (read_kind s.spec_json)
      && (elim (parse_schema s.spec_json) [ none ↦ false | some p ↦ str_eq p.name key ])

  abbrev pub is_target : String → String → ContractSpecNode → Bool
  is_target kind key s =
      str_eq (spec_kind_name s.spec_kind) kind
      && (str_eq s.canonical_key key
          || ends_with (template (":" ∷ key ∷ [])) s.contract_id
          || has_schema_name key s)

  unfoldable pub find_target_specs :
      (String → String) → String → List ContractSpecNode → List ContractSpecNode
  unfolding parse_target
  find_target_specs normalize target specs =
      let (kind, key) = parse_target (normalize target) in
      filter (is_target (target_spec_kind kind) key) specs

-- ===== src/Impact/Rules/Schema.antt =====
-- The rules of schemas and their fields (src/core/contracts/impact/rules/schemaImpactRules.ts). The
-- search for a field in a file's text (findFieldReferences of fieldSearch.ts, which builds regular
-- expressions) is a parameter.
use logiclens.Shared.{
  ℕ, String, Bool, true, false, ◌&&◌, not, Option, none, some, List, [], ◌∷◌, map, str_eq, find,
  is_empty, template, truthy, get_or_else, if◌then◌else◌, ◌≡◌, arith,
}
use logiclens.Nodes.{ContractSpecNode, SpecKind, schema}
use logiclens.Specs.{SchemaSpec, SchemaFieldSpec}
use logiclens.Impact.Items.{ImpactSeverity, ImpactItem, breaking, risky, compatible}
use logiclens.Impact.Rules.{
  ChangeType, endpoint_removed, endpoint_renamed, endpoint_schema_change, topic_removed,
  topic_renamed, event_payload_change, field_added, field_removed, field_type_changed, rpc_removed,
  rpc_renamed, rpc_signature_change, ChangeIntent, ImpactAnalysisOptions, target_item, Dependent,
  dependent_item, with_payload,
}

pub record FieldReference : Type 0 where
  pub line : ℕ
  pub raw : String

-- The text that stands for a change's type.
abbrev pub change_name : ChangeType → String
change_name endpoint_removed = "endpoint-removed"
change_name endpoint_renamed = "endpoint-renamed"
change_name endpoint_schema_change = "endpoint-schema-change"
change_name topic_removed = "topic-removed"
change_name topic_renamed = "topic-renamed"
change_name event_payload_change = "event-payload-change"
change_name field_added = "field-added"
change_name field_removed = "field-removed"
change_name field_type_changed = "field-type-changed"
change_name rpc_removed = "rpc-removed"
change_name rpc_renamed = "rpc-renamed"
change_name rpc_signature_change = "rpc-signature-change"

unfoldable pub schema_field_change_severity : ChangeType → ImpactSeverity
schema_field_change_severity field_removed = breaking
schema_field_change_severity field_type_changed = risky
schema_field_change_severity field_added = compatible
schema_field_change_severity _ = risky

abbrev pub is_optional : Option SchemaFieldSpec → Bool
is_optional none = false
is_optional (some f) = f.optional

abbrev pub is_removal : ChangeType → Bool
is_removal field_removed = true
is_removal _ = false

unfoldable pub schema_change_severity : ChangeType → Option SchemaFieldSpec → ImpactSeverity
schema_change_severity field_removed field = if is_optional field then risky else breaking
schema_change_severity field_type_changed field = risky
schema_change_severity field_added field = compatible
schema_change_severity _ field = risky

abbrev pub find_field : SchemaSpec → String → Option SchemaFieldSpec
find_field p name = find (λ (f : SchemaFieldSpec). str_eq f.name name) p.fields

-- field ? ` (${type}${optional ? ", optional" : ""})` : ""
abbrev pub field_text : Option SchemaFieldSpec → String
field_text none = ""
field_text (some f) =
    template (" (" ∷ f.field_type ∷ (if f.optional then ", optional" else "") ∷ ")" ∷ [])

abbrev pub symbol_of : SchemaSpec → String → String
symbol_of p field = template (p.name ∷ "." ∷ field ∷ [])

-- the severity that classifySchemaTargetChange gives to a field
abbrev pub target_severity : ChangeType → Option SchemaFieldSpec → ImpactSeverity
target_severity change_type field =
    if is_optional field && is_removal change_type
    then risky
    else schema_field_change_severity change_type

unfoldable pub schema_target : ChangeIntent → ContractSpecNode → SchemaSpec → Option ImpactItem
schema_target change spec p =
    let name = get_or_else change.detail "unknown field" in
    let field = find_field p name in
    some (
      target_item spec (target_severity change.change_type field) (symbol_of p name)
        (template (change_name change.change_type ∷ ": " ∷ name ∷ " in " ∷ p.name ∷ []))
        (template ("schema: " ∷ symbol_of p name ∷ field_text field ∷ [])))

unfoldable pub format_description : ChangeType → String → String → String → String
format_description field_removed field name repo =
    template
      ("Field '" ∷ field ∷ "' removed from " ∷ name ∷ " — may break consumers in " ∷ repo ∷ [])
format_description field_type_changed field name repo =
    template
      ("Field '" ∷ field ∷ "' type changed in " ∷ name ∷ " — may affect consumers in " ∷ repo ∷ [])
format_description field_added field name repo =
    template ("Field '" ∷ field ∷ "' added to " ∷ name ∷ " — compatible change for " ∷ repo ∷ [])
format_description _ field name repo =
    template ("Schema change in " ∷ name ∷ "." ∷ field ∷ " affects " ∷ repo ∷ [])

abbrev pub field_evidence : Option SchemaFieldSpec → String → String
field_evidence none name = template (name ∷ " (not found in schema fields)" ∷ [])
field_evidence (some f) name =
    template (f.name ∷ ": " ∷ f.field_type ∷ (if f.optional then " (optional)" else "") ∷ [])

module _ (find_field_references : String → String → String → List FieldReference) where
  abbrev pub refs_in : Option String → String → String → List FieldReference
  refs_in none field file = []
  refs_in (some content) field file =
      if str_eq content "" then [] else find_field_references content field file

  -- the references in a file of a repository, if it can be read
  abbrev pub file_references :
      Option (String → String → Option String) → String → String → String → List FieldReference
  file_references none repo file field = []
  file_references (some read_file) repo file field =
      if str_eq file "" then [] else refs_in (read_file repo file) field file

  unfoldable pub schema_impact :
      ImpactAnalysisOptions → ChangeIntent → Dependent → SchemaSpec → List ImpactItem
  unfolding schema_change_severity format_description
  schema_impact options change d p =
      let name = get_or_else change.detail "" in
      let field = find_field p name in
      let item =
        dependent_item d (schema_change_severity change.change_type field) (symbol_of p name)
          (format_description change.change_type name p.name d.spec.repo_id) in
      let refs = file_references options.read_file d.spec.repo_id d.spec.file_id name in
      if not (truthy change.detail)
      then []
      else if is_empty refs
      then item (field_evidence field name) ∷ []
      else map (λ (r : FieldReference). record (item r.raw) { line = some r.line }) refs

  module _ (read_kind : String → Option SpecKind) (parse : String → Option SchemaSpec) where
    unfoldable pub assess_schema_field_change :
        ImpactAnalysisOptions → ChangeIntent → Dependent → Option (List ImpactItem)
    unfolding schema_impact
    assess_schema_field_change options change d =
        with_payload read_kind schema parse d.spec [] (schema_impact options change d)

unfoldable pub classify_schema_target_change :
    (String → Option SpecKind)
    → (String → Option SchemaSpec)
    → ChangeIntent
    → ContractSpecNode
    → Option (Option ImpactItem)
unfolding schema_target
classify_schema_target_change read_kind parse change spec =
    with_payload read_kind schema parse spec none (schema_target change spec)

-- Both rules of a field's change agree on the severity, for every type of change and for a field
-- that is optional, required or not there.
pub schema_severities_agree :
    (change_type : ChangeType) (field : Option SchemaFieldSpec)
    → target_severity change_type field ≡ schema_change_severity change_type field
unfolding schema_field_change_severity schema_change_severity
schema_severities_agree change_type field = ground arith

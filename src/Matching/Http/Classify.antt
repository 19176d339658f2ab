-- ===== src/Matching/Http/Classify.antt =====
-- The kinds of HTTP match (src/core/contracts/matching/httpResolver.ts).
pub mod Buckets
use logiclens.Shared.{
  ℕ, String, Bool, true, false, not, ◌&&◌, ◌||◌, Option, none, some, List, [], ◌∷◌, str_eq,
  template, truthy, get_or_else, if◌then◌else◌,
}
use logiclens.Confidence.{
  confidence_for, exact_method_path_match, path_only_match, static_path_to_template_match,
  template_compatible_match, wildcard_path_match,
}
use logiclens.Specs.{HttpEndpointSpec}
use logiclens.Matching.Http.Paths.{
  paths_compatible, static_fits_template, has_templates, first_is_template,
}

pub data HttpMatchKind : Type 0 where
  exact_method_path template_compatible static_to_template path_only wildcard : HttpMatchKind

pub record ClassifiedMatch : Type 0 where
  pub kind : HttpMatchKind
  pub reason : String
  pub confidence : ℕ

-- spec.pathTemplate || spec.path
abbrev pub path_of : HttpEndpointSpec → String
path_of s = if str_eq s.path_template "" then s.path else s.path_template

abbrev method_text : HttpEndpointSpec → String
method_text s = get_or_else s.method ""

abbrev both_methods : HttpEndpointSpec → HttpEndpointSpec → Bool
both_methods from to = truthy from.method && truthy to.method

abbrev same_method : HttpEndpointSpec → HttpEndpointSpec → Bool
same_method from to = str_eq (method_text from) (method_text to)

-- Both sides declare a method, and not the same.
abbrev pub methods_clash : HttpEndpointSpec → HttpEndpointSpec → Bool
methods_clash from to = both_methods from to && not (same_method from to)

abbrev method_info : HttpEndpointSpec → HttpEndpointSpec → String
method_info from to = if both_methods from to then template (" " ∷ method_text from ∷ []) else ""

-- `method: X vs unknown`, of the side that has a method
abbrev method_note : HttpEndpointSpec → HttpEndpointSpec → String
method_note from to =
    if truthy from.method || truthy to.method
    then template (
        " (method: "
        ∷ (if truthy from.method then method_text from else method_text to)
        ∷ " vs unknown)"
        ∷ [])
    else ""

exact_match : HttpEndpointSpec → ClassifiedMatch
exact_match from = record {
  kind = exact_method_path;
  reason = template ("Exact method+path match: " ∷ method_text from ∷ " " ∷ path_of from ∷ []);
  confidence = confidence_for exact_method_path_match;
}

path_match : HttpEndpointSpec → HttpEndpointSpec → ClassifiedMatch
path_match from to = record {
  kind = path_only;
  reason = template ("Path match with missing method: " ∷ path_of from ∷ method_note from to ∷ []);
  confidence = confidence_for path_only_match;
}

static_match : HttpEndpointSpec → HttpEndpointSpec → ClassifiedMatch
static_match from to = record {
  kind = static_to_template;
  reason = template (
      "Static path " ∷ path_of from ∷ " matches template " ∷ path_of to ∷ method_info from to ∷ []);
  confidence = confidence_for static_path_to_template_match;
}

template_match : HttpEndpointSpec → HttpEndpointSpec → ClassifiedMatch
template_match from to = record {
  kind = template_compatible;
  reason =
      template
        ("Template-compatible: " ∷ path_of from ∷ " ↔ " ∷ path_of to ∷ method_info from to ∷ []);
  confidence = confidence_for template_compatible_match;
}

wildcard_match : HttpEndpointSpec → HttpEndpointSpec → ClassifiedMatch
wildcard_match from to = record {
  kind = wildcard;
  reason =
      template ("Wildcard/template first-segment match: " ∷ path_of from ∷ " ↔ " ∷ path_of to ∷ []);
  confidence = confidence_for wildcard_path_match;
}

-- a match of two paths, unless the methods clash
abbrev unless_clash : HttpEndpointSpec → HttpEndpointSpec → ClassifiedMatch → Option ClassifiedMatch
unless_clash from to m = if methods_clash from to then none else some m

-- case 5: a template as first segment on either side
classify_wildcard : HttpEndpointSpec → HttpEndpointSpec → Option ClassifiedMatch
unfolding wildcard_match
classify_wildcard from to =
    if first_is_template (path_of from) || first_is_template (path_of to)
    then (if paths_compatible (path_of from) (path_of to)
        then unless_clash from to (wildcard_match from to)
        else none)
    else none

-- case 4: templates on both sides
classify_templates : HttpEndpointSpec → HttpEndpointSpec → Option ClassifiedMatch
unfolding classify_wildcard template_match
classify_templates from to =
    if has_templates (path_of from)
      && has_templates (path_of to)
      && paths_compatible (path_of from) (path_of to)
    then unless_clash from to (template_match from to)
    else classify_wildcard from to

-- case 3: templates on one side; a consumer's template does not call a producer's static path
classify_static : HttpEndpointSpec → HttpEndpointSpec → Option ClassifiedMatch
unfolding classify_templates static_match
classify_static from to =
    if has_templates (path_of from)
    then (if has_templates (path_of to) then classify_templates from to else none)
    else if has_templates (path_of to)
    then (if static_fits_template (path_of from) (path_of to)
        then unless_clash from to (static_match from to)
        else classify_templates from to)
    else classify_templates from to

unfoldable pub classify_http_match : HttpEndpointSpec → HttpEndpointSpec → Option ClassifiedMatch
unfolding classify_static exact_match path_match
classify_http_match from to =
    if both_methods from to && same_method from to && str_eq (path_of from) (path_of to)
    then some (exact_match from)
    else if str_eq (path_of from) (path_of to) && not (both_methods from to)
    then some (path_match from to)
    else classify_static from to

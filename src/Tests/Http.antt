-- ===== src/Tests/Http.antt =====
-- A call over HTTP from a fixed path to a template.
use mathlib.Core.List.Memᴰ
use logiclens.Shared.{
  Bool, true, false, sym, ◌∙◌, inl, inr, String, false, Option, none, some, List, [], ◌∷◌, Memᴰ,
  ◌≡◌, ◌≢◌, refl, str_eq, if◌then◌else◌, ◌++◌, ◌↔◌, StrMap, get_or_else, ap, some_inj, collect,
}
use logiclens.Nodes.{ContractSpecNode, http_endpoint, producer, consumer, SemanticRelationEdge}
use logiclens.Confidence.{confidence_for, exact_method_path_match, static_path_to_template_match}
use logiclens.Specs.{HttpEndpointSpec}
use logiclens.Matching.Roles.{SpecRoleMap, split_by_role}
use logiclens.Matching.Http.Paths.{
  bucket_key, has_templates, split_path, is_template_segment, static_fits_template,
}
use logiclens.Matching.Http.Classify.{
  ClassifiedMatch, static_to_template, exact_method_path, wildcard, path_of, methods_clash,
  classify_http_match,
}
use logiclens.Matching.Http.Classify.Buckets.{match-methods, match-not_wildcard}
use logiclens.Matching.Http.Resolve.{
  Candidate, try_all, try_bucket, try_wildcards, bucket_specs, http_edge, indexed_path,
  resolve_http_relations,
}
use logiclens.Matching.Http.Resolve.Laws.{IsHttpCall, resolve_http_sound}
use logiclens.Matching.Http.Resolve.Priority.{IsExactCall, AreApart, call_key, resolve_http_exact}
use logiclens.Matching.Http.Resolve.Search.{AreIndexed, buckets_iff}
use logiclens.Matching.Pairs.{ne_of_str_eq}
use logiclens.Tests.{spec_of}

abbrev endpoint : String → HttpEndpointSpec
endpoint path = record {
  method = some "GET";
  path = path;
  path_template = path;
  path_params = [];
  request_body_type = none;
  response_body_type = none;
  declared_response_type = none;
}

abbrev from : HttpEndpointSpec
from = endpoint "/orders/7"

abbrev to : HttpEndpointSpec
to = endpoint "/orders/{id}"

abbrev found : ClassifiedMatch
found = record {
  kind = static_to_template;
  reason = "Static path /orders/7 matches template /orders/{id} GET";
  confidence = confidence_for static_path_to_template_match;
}

matches : classify_http_match from to ≡ some found
unfolding classify_http_match has_templates split_path is_template_segment static_fits_template
matches = refl

match-methods_example : methods_clash from to ≡ false
match-methods_example = match-methods from to matches

match-not_wildcard_example : found.kind ≢ wildcard
match-not_wildcard_example = match-not_wildcard from to matches

abbrev parse_http : String → Option HttpEndpointSpec
parse_http t = if str_eq t "from" then some from else if str_eq t "to" then some to else none

abbrev web : ContractSpecNode
web = spec_of http_endpoint "s2" "web" "from"

abbrev shop : ContractSpecNode
shop = spec_of http_endpoint "s1" "shop" "to"

abbrev specs : List ContractSpecNode
specs = web ∷ shop ∷ []

abbrev roles : SpecRoleMap
roles = ("contract:shop", producer) ∷ ("contract:web", consumer) ∷ []

abbrev edges : List SemanticRelationEdge
edges = http_edge web shop found ∷ []

returned : resolve_http_relations parse_http specs roles ≡ some edges
unfolding resolve_http_relations split_by_role bucket_key split_path is_template_segment
    classify_http_match has_templates static_fits_template
returned = refl

abbrev made_buckets : StrMap (List ContractSpecNode)
made_buckets = get_or_else (bucket_specs parse_http (shop ∷ []) []) []

abbrev used_buckets : StrMap (List ContractSpecNode)
used_buckets = get_or_else (bucket_specs parse_http (web ∷ []) []) []

abbrev all_found : List Candidate
all_found = get_or_else (try_all parse_http (web ∷ []) (shop ∷ [])) []

web_indexed : AreIndexed parse_http (web ∷ [])
unfolding indexed_path
web_indexed s m e r =
    let s_is : s ≡ web = Memᴰ.eq_of_singleton m in
    rw s_is (ap (λ x. some (path_of x)) (some_inj (rw s_is at r)))

shop_indexed : AreIndexed parse_http (shop ∷ [])
unfolding indexed_path
shop_indexed s m e r =
    let s_is : s ≡ shop = Memᴰ.eq_of_singleton m in
    rw s_is (ap (λ x. some (path_of x)) (some_inj (rw s_is at r)))

made_returned : bucket_specs parse_http (shop ∷ []) [] ≡ some made_buckets
unfolding bucket_specs bucket_key split_path is_template_segment
made_returned = refl

used_returned : bucket_specs parse_http (web ∷ []) [] ≡ some used_buckets
unfolding bucket_specs bucket_key split_path is_template_segment
used_returned = refl

same_returned : collect (try_bucket parse_http made_buckets) used_buckets ≡ some all_found
unfolding bucket_specs bucket_key split_path is_template_segment try_bucket try_all
    classify_http_match has_templates static_fits_template
same_returned = refl

wild_returned : try_wildcards parse_http made_buckets used_buckets ≡ some []
unfolding bucket_specs bucket_key split_path is_template_segment try_wildcards try_all
wild_returned = refl

all_returned : try_all parse_http (web ∷ []) (shop ∷ []) ≡ some all_found
unfolding try_all classify_http_match has_templates static_fits_template
all_returned = refl

abbrev the_candidate : Candidate
the_candidate = record {
  consumer_spec = web;
  producer_spec = shop;
  match_kind = static_to_template;
  edge = http_edge web shop found;
}

buckets_iff_example : Memᴰ the_candidate (all_found ++ []) ↔ Memᴰ the_candidate all_found
buckets_iff_example =
    buckets_iff parse_http (web ∷ []) (shop ∷ []) web_indexed shop_indexed made_returned
      used_returned same_returned wild_returned all_returned the_candidate

resolve_http_sound_example : IsHttpCall parse_http specs roles (http_edge web shop found)
resolve_http_sound_example =
    resolve_http_sound parse_http specs roles edges returned (http_edge web shop found)
      (Memᴰ.head refl)

-- The same method and path on both sides.
abbrev exact : HttpEndpointSpec
exact = endpoint "/orders"

abbrev parse_exact : String → Option HttpEndpointSpec
parse_exact t = some exact

abbrev web_exact : ContractSpecNode
web_exact = spec_of http_endpoint "s2" "web" ""

abbrev shop_exact : ContractSpecNode
shop_exact = spec_of http_endpoint "s1" "shop" ""

abbrev exact_specs : List ContractSpecNode
exact_specs = web_exact ∷ shop_exact ∷ []

abbrev exact_found : ClassifiedMatch
exact_found = record {
  kind = exact_method_path;
  reason = "Exact method+path match: GET /orders";
  confidence = confidence_for exact_method_path_match;
}

exact_matches : classify_http_match exact exact ≡ some exact_found
unfolding classify_http_match
exact_matches = refl

exact_returned :
    resolve_http_relations parse_exact exact_specs roles
    ≡ some (http_edge web_exact shop_exact exact_found ∷ [])
unfolding resolve_http_relations split_by_role bucket_key split_path is_template_segment
    classify_http_match has_templates static_fits_template
exact_returned = refl

abbrev pick : Bool → ContractSpecNode
pick true = web_exact
pick false = shop_exact

named : (s : ContractSpecNode) → Memᴰ s exact_specs → (b : Bool) × (s ≡ pick b)
named s m = elim (Memᴰ.cases_cons m) [ inl e ↦ (true, e) | inr n ↦ (false, Memᴰ.eq_of_singleton n) ]

keys :
    (a b c d : Bool)
    → call_key parse_exact (pick a) (pick b) ≡ call_key parse_exact (pick c) (pick d)
    → (pick a ≡ pick c) × (pick b ≡ pick d)
keys true true true true e = (refl, refl)
keys true true true false e = absurd (
    ne_of_str_eq (call_key parse_exact web_exact web_exact)
      (call_key parse_exact web_exact shop_exact) refl e)
keys true true false true e = absurd (
    ne_of_str_eq (call_key parse_exact web_exact web_exact)
      (call_key parse_exact shop_exact web_exact) refl e)
keys true true false false e = absurd (
    ne_of_str_eq (call_key parse_exact web_exact web_exact)
      (call_key parse_exact shop_exact shop_exact) refl e)
keys true false true true e = absurd (
    ne_of_str_eq (call_key parse_exact web_exact shop_exact)
      (call_key parse_exact web_exact web_exact) refl e)
keys true false true false e = (refl, refl)
keys true false false true e = absurd (
    ne_of_str_eq (call_key parse_exact web_exact shop_exact)
      (call_key parse_exact shop_exact web_exact) refl e)
keys true false false false e = absurd (
    ne_of_str_eq (call_key parse_exact web_exact shop_exact)
      (call_key parse_exact shop_exact shop_exact) refl e)
keys false true true true e = absurd (
    ne_of_str_eq (call_key parse_exact shop_exact web_exact)
      (call_key parse_exact web_exact web_exact) refl e)
keys false true true false e = absurd (
    ne_of_str_eq (call_key parse_exact shop_exact web_exact)
      (call_key parse_exact web_exact shop_exact) refl e)
keys false true false true e = (refl, refl)
keys false true false false e = absurd (
    ne_of_str_eq (call_key parse_exact shop_exact web_exact)
      (call_key parse_exact shop_exact shop_exact) refl e)
keys false false true true e = absurd (
    ne_of_str_eq (call_key parse_exact shop_exact shop_exact)
      (call_key parse_exact web_exact web_exact) refl e)
keys false false true false e = absurd (
    ne_of_str_eq (call_key parse_exact shop_exact shop_exact)
      (call_key parse_exact web_exact shop_exact) refl e)
keys false false false true e = absurd (
    ne_of_str_eq (call_key parse_exact shop_exact shop_exact)
      (call_key parse_exact shop_exact web_exact) refl e)
keys false false false false e = (refl, refl)

keys_apart : AreApart parse_exact exact_specs
keys_apart s t u v ms mt mu mv e =
    let (a, s_is) = named s ms in
    let (b, t_is) = named t mt in
    let (c, u_is) = named u mu in
    let (d, v_is) = named v mv in
    let (p, q) = keys a b c d (sym (ap_two s_is t_is) ∙ e ∙ ap_two u_is v_is) in
    (s_is ∙ p ∙ sym u_is, t_is ∙ q ∙ sym v_is)
  where
    ap_two :
        {x x' y y' : ContractSpecNode}
        → x ≡ x'
        → y ≡ y'
        → call_key parse_exact x y ≡ call_key parse_exact x' y'
    ap_two f g = λ i. call_key parse_exact (f i) (g i)

is_exact_call : IsExactCall parse_exact exact_specs roles web_exact shop_exact exact_found
unfolding indexed_path
is_exact_call = record {
  consumer = Memᴰ.head refl;
  consumes_it = refl;
  producer = Memᴰ.tail (Memᴰ.head refl);
  produces_it = refl;
  indexed = record {
    apart = record { ids = ne_of_str_eq _ _ refl; repos = ne_of_str_eq _ _ refl };
    from = exact;
    from_read = refl;
    from_indexed = refl;
    to = exact;
    to_read = refl;
    to_indexed = refl;
    matches = exact_matches;
  };
  exact = refl;
}

resolve_http_exact_example :
    Memᴰ
      (http_edge web_exact shop_exact exact_found)
      (http_edge web_exact shop_exact exact_found ∷ [])
resolve_http_exact_example =
    resolve_http_exact parse_exact exact_specs roles keys_apart
      (http_edge web_exact shop_exact exact_found ∷ []) exact_returned web_exact shop_exact
      exact_found is_exact_call

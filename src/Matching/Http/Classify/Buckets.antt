-- ===== src/Matching/Http/Classify/Buckets.antt =====
-- The search by buckets loses no match, and a match never joins different methods.
use logiclens.Shared.{true, false, some, ◌≡◌, ◌≢◌, ◌⊎◌, inl, inr, arith, eq_iff, ap}
use logiclens.Specs.{HttpEndpointSpec}
use logiclens.Matching.Http.Paths.{bucket_key, paths_compatible}
use logiclens.Matching.Http.Paths.Laws.{
  MeetsOf, compatible-meets, static-compatible, compatible-static, first-templates,
}
use logiclens.Matching.Http.Classify.{
  ClassifiedMatch, wildcard, path_of, methods_clash, classify_http_match, classify_static,
  classify_templates, classify_wildcard,
}

wildcard_paths :
    (from to : HttpEndpointSpec) {m : ClassifiedMatch}
    → classify_wildcard from to ≡ some m
    → paths_compatible (path_of from) (path_of to) ≡ true
unfolding classify_wildcard
wildcard_paths from to h = ground arith

templates_paths :
    (from to : HttpEndpointSpec) {m : ClassifiedMatch}
    → classify_templates from to ≡ some m
    → paths_compatible (path_of from) (path_of to) ≡ true
unfolding classify_templates
templates_paths from to h = ground arith

static_paths :
    (from to : HttpEndpointSpec) {m : ClassifiedMatch}
    → classify_static from to ≡ some m
    → paths_compatible (path_of from) (path_of to) ≡ true
unfolding classify_static
static_paths from to h = ground (arith, static-compatible (path_of from) (path_of to))

-- The paths of a match are the same, or are compatible segment by segment.
pub match-paths :
    (from to : HttpEndpointSpec) {m : ClassifiedMatch}
    → classify_http_match from to ≡ some m
    → (path_of from ≡ path_of to) ⊎ (paths_compatible (path_of from) (path_of to) ≡ true)
unfolding classify_http_match
match-paths from to {m} h =
    ground (arith, static_paths from to {m = m}, eq_iff (path_of from) (path_of to))

-- Two endpoints that match are met by the search: their buckets are the same, or one of them is
-- that of the paths that begin with a template.
pub match-bucket :
    (from to : HttpEndpointSpec) {m : ClassifiedMatch}
    → classify_http_match from to ≡ some m
    → MeetsOf (bucket_key (path_of from)) (bucket_key (path_of to))
match-bucket from to h = elim (match-paths from to h) [
  | inl same ↦ inl (ap bucket_key same)
  | inr fits ↦ compatible-meets (path_of from) (path_of to) fits
]

-- No match joins two endpoints that declare different methods.
pub match-methods :
    (from to : HttpEndpointSpec) {m : ClassifiedMatch}
    → classify_http_match from to ≡ some m
    → methods_clash from to ≡ false
unfolding classify_http_match
match-methods from to h = ground arith

-- No match of two endpoints is of the kind wildcard.
pub match-not_wildcard :
    (from to : HttpEndpointSpec) {m : ClassifiedMatch}
    → classify_http_match from to ≡ some m
    → m.kind ≢ wildcard
unfolding classify_http_match
match-not_wildcard from to h = ground (
  arith,
  compatible-static (path_of from) (path_of to),
  first-templates (path_of from),
  first-templates (path_of to),
)

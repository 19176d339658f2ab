-- ===== src/Matching/Http/Resolve/Search.antt =====
-- The search by buckets against the comparison of every consumer with every producer.
use mathlib.Core.List.Memᴰ
use logiclens.Shared.{
  String, Option, some, List, [], ◌++◌, Memᴰ, ◌≡◌, sym, ap, ◌↔◌, inl, inr, StrMap, collect,
  get_or_else,
}
use logiclens.Nodes.{ContractSpecNode}
use logiclens.Specs.{HttpEndpointSpec}
use logiclens.Matching.Http.Paths.{bucket_key}
use logiclens.Matching.Http.Classify.{path_of}
use logiclens.Matching.Http.Resolve.{
  Candidate, try_all, indexed_path, bucket_specs, try_bucket, try_wildcards,
}
use logiclens.Matching.Http.Resolve.Laws.{IsFrom, try_all_sound, buckets_sound, wildcards_sound}
use logiclens.Matching.Http.Resolve.Priority.{IsIndexed, candidate, try_all_complete, searched}

module _ (parse : String → Option HttpEndpointSpec) where
  -- Every spec is indexed by the path of its payload.
  abbrev pub AreIndexed : List ContractSpecNode → Type 0
  AreIndexed specs =
      (s : ContractSpecNode)
      → Memᴰ s specs
      → (e : HttpEndpointSpec) → parse s.spec_json ≡ some e
      → indexed_path parse s ≡ some (path_of e)

  IsFrom-IsIndexed :
      (used made : List ContractSpecNode)
      → AreIndexed used
      → AreIndexed made
      → {k : Candidate} → (h : IsFrom parse used made k)
      → IsIndexed parse k.consumer_spec k.producer_spec h.matched.found
  IsFrom-IsIndexed used made iu im h = record {
    apart = h.matched.apart;
    from = h.matched.from;
    from_read = h.matched.from_read;
    from_indexed = ap filed_under (iu _ h.consumer _ h.matched.from_read);
    to = h.matched.to;
    to_read = h.matched.to_read;
    to_indexed = ap filed_under (im _ h.producer _ h.matched.to_read);
    matches = h.matched.matches;
  }
    where
      filed_under : Option String → String
      filed_under o = bucket_key (get_or_else o "")

  -- A candidate of two lists is the candidate of its specs.
  IsFrom-candidate :
      {used made : List ContractSpecNode} (k : Candidate) (h : IsFrom parse used made k)
      → candidate parse k.consumer_spec k.producer_spec h.matched.found ≡ k
  IsFrom-candidate k h = λ i. record {
    consumer_spec = k.consumer_spec;
    producer_spec = k.producer_spec;
    match_kind = sym h.matched.kinded i;
    edge = sym h.matched.made i;
  }

  -- Where every spec is indexed by the path of its payload, and the search by buckets and the
  -- comparison of every consumer with every producer both return, they find the same candidates.
  pub buckets_iff :
      (used made : List ContractSpecNode) {mb cb : StrMap (List ContractSpecNode)}
      {same wild all : List Candidate}
      → AreIndexed used
      → AreIndexed made
      → bucket_specs parse made [] ≡ some mb
      → bucket_specs parse used [] ≡ some cb
      → collect (try_bucket parse mb) cb ≡ some same
      → try_wildcards parse mb cb ≡ some wild
      → try_all parse used made ≡ some all
      → (k : Candidate) → Memᴰ k (same ++ wild) ↔ Memᴰ k all
  buckets_iff used made {same = same} {wild = wild} iu im em eu es ew ea k = (
    λ m.
        let h : IsFrom parse used made k = elim (Memᴰ.append_cases same m) [
          | inl n ↦ buckets_sound parse used made em eu es n
          | inr n ↦ wildcards_sound parse used made em eu ew n
        ] in
        Memᴰ.cast (sym (IsFrom-candidate k h)) (
          try_all_complete parse used made _ _ _ ea h.consumer h.producer
            (IsFrom-IsIndexed used made iu im h)),
    λ m.
        let h = try_all_sound parse used made ea m in
        Memᴰ.cast (sym (IsFrom-candidate k h)) (
          searched parse used made em eu es ew _ _ _ h.consumer h.producer
            (IsFrom-IsIndexed used made iu im h)),
  )

-- ===== src/Tests/Dubbo.antt =====
-- A call over Dubbo between two repositories.
use mathlib.Core.List.Memᴰ
use logiclens.Shared.{
  String, true, false, Option, none, some, List, [], ◌∷◌, Memᴰ, ◌≡◌, ◌≢◌, refl, inl, inr, ap, ◌∙◌,
  sym, str_eq, if◌then◌else◌,
}
use logiclens.Nodes.{
  ContractSpecNode, dubbo_method, producer, consumer, SemanticRelationEdge, edge_key,
}
use logiclens.Specs.{DubboMethodSpec, annotation, Parsed, parse_all}
use logiclens.Matching.Roles.{SpecRoleMap, split_by_role}
use logiclens.Matching.Pairs.{IsProducer, ne_of_str_eq}
use logiclens.Matching.Frame.{resolve_pairs}
use logiclens.Matching.Links.{pair_up, emit}
use logiclens.Matching.Dubbo.{dubbo_edge, resolve_dubbo_relations}
use logiclens.Matching.Dubbo.Laws.{IsDubboCall, resolve_dubbo_sound, resolve_dubbo_reaches}
use logiclens.Tests.{spec_of}

abbrev dubbo_spec : DubboMethodSpec
dubbo_spec = record {
  interface_name = "OrderService";
  method = "create";
  group = none;
  version = some "1";
  full_name = "OrderService.create";
  request_types = [];
  response_type = none;
  config = annotation;
  framework = none;
}

abbrev parse_dubbo : String → Option DubboMethodSpec
parse_dubbo t = if str_eq t "orders" then some dubbo_spec else none

-- A text is in lower case already.
abbrev lowercase : String → String
lowercase t = t

abbrev shop : ContractSpecNode
shop = spec_of dubbo_method "s1" "shop" "orders"

abbrev web : ContractSpecNode
web = spec_of dubbo_method "s2" "web" "orders"

abbrev specs : List ContractSpecNode
specs = web ∷ shop ∷ []

abbrev roles : SpecRoleMap
roles = ("contract:shop", producer) ∷ ("contract:web", consumer) ∷ []

abbrev of_web : Parsed DubboMethodSpec
of_web = record { node = web; spec = dubbo_spec }

abbrev of_shop : Parsed DubboMethodSpec
of_shop = record { node = shop; spec = dubbo_spec }

abbrev edges : List SemanticRelationEdge
edges = dubbo_edge of_web of_shop ∷ []

returned : resolve_dubbo_relations lowercase parse_dubbo specs roles ≡ some edges
unfolding resolve_dubbo_relations resolve_pairs split_by_role parse_all pair_up emit
returned = refl

is_call : IsDubboCall lowercase parse_dubbo specs roles of_web of_shop
is_call = record {
  consumer = record { listed = Memᴰ.head refl; role = refl; read = refl };
  producer = record { listed = Memᴰ.tail (Memᴰ.head refl); role = refl; read = refl };
  apart = record { ids = ne_of_str_eq _ _ refl; repos = ne_of_str_eq _ _ refl };
  interface = refl;
  method = refl;
}

resolve_dubbo_sound_example :
    (c p : Parsed DubboMethodSpec) × IsDubboCall lowercase parse_dubbo specs roles c p
    × (dubbo_edge of_web of_shop ≡ dubbo_edge c p)
resolve_dubbo_sound_example =
    resolve_dubbo_sound lowercase parse_dubbo specs roles returned (dubbo_edge of_web of_shop)
      (Memᴰ.head refl)

-- The shop is the only producer.
only_shop :
    (v : Parsed DubboMethodSpec)
    → IsProducer parse_dubbo dubbo_method roles specs v
    → v.node.repo_id ≡ "shop"
only_shop v h = elim (Memᴰ.cases_cons h.listed) [
  | inl e ↦ let role = h.role in let no : false ≡ true = rw e at role in cc
  | inr n ↦ ap (λ (s : ContractSpecNode). s.repo_id) (Memᴰ.eq_of_singleton n)
]

ids_apart :
    (s t : ContractSpecNode) → Memᴰ s specs → Memᴰ t specs → s.id ≡ t.id → s.repo_id ≡ t.repo_id
ids_apart s t m n e = elim (Memᴰ.cases_cons m) [
  | inl s_web ↦ elim (Memᴰ.cases_cons n) [
    | inl t_web ↦ repo s_web ∙ sym (repo t_web)
    | inr t_shop ↦ differ (sym (id_of s_web) ∙ e ∙ id_of (Memᴰ.eq_of_singleton t_shop))
  ]
  | inr s_shop ↦ elim (Memᴰ.cases_cons n) [
    | inl t_web ↦ differ (sym (id_of t_web) ∙ sym e ∙ id_of (Memᴰ.eq_of_singleton s_shop))
    | inr t_shop ↦ repo (Memᴰ.eq_of_singleton s_shop) ∙ sym (repo (Memᴰ.eq_of_singleton t_shop))
  ]
]
  where
    repo : {u v : ContractSpecNode} → u ≡ v → u.repo_id ≡ v.repo_id
    repo = ap (λ (u : ContractSpecNode). u.repo_id)

    id_of : {u v : ContractSpecNode} → u ≡ v → u.id ≡ v.id
    id_of = ap (λ (u : ContractSpecNode). u.id)

    differ : web.id ≡ shop.id → s.repo_id ≡ t.repo_id
    differ h = absurd (ne_of_str_eq web.id shop.id refl h)

resolve_dubbo_reaches_example :
    (q : Parsed DubboMethodSpec) × (d : SemanticRelationEdge) × IsDubboCall lowercase parse_dubbo
      specs roles of_web q
    × (q.node.repo_id ≡ "shop")
    × Memᴰ d edges
    × (edge_key d ≡ edge_key (dubbo_edge of_web q))
resolve_dubbo_reaches_example =
    resolve_dubbo_reaches lowercase parse_dubbo specs roles returned
      (λ v w p q _. only_shop v p ∙ sym (only_shop w q)) ids_apart of_web of_shop is_call

reads_all :
    (s : ContractSpecNode)
    → Memᴰ s specs
    → s.spec_kind ≡ dubbo_method
    → parse_dubbo s.spec_json ≢ none
reads_all s m _ = elim (Memᴰ.cases_cons m) [
  | inl e ↦ rw e (λ h. cc)
  | inr n ↦ rw (Memᴰ.eq_of_singleton n) (λ h. cc)
]

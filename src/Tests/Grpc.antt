-- ===== src/Tests/Grpc.antt =====
-- A call over gRPC between two repositories.
use mathlib.Core.List.Memᴰ
use logiclens.Shared.{
  String, Option, none, some, List, [], ◌∷◌, Memᴰ, ◌≡◌, ◌≢◌, refl, inl, inr, str_eq, if◌then◌else◌,
}
use logiclens.Nodes.{ContractSpecNode, grpc_method, SemanticRelationEdge, edge_key}
use logiclens.Specs.{GrpcMethodSpec, unary, Parsed, parse_all}
use logiclens.Matching.Frame.{resolve_pairs}
use logiclens.Matching.Links.{pair_up, emit}
use logiclens.Matching.Roles.{SpecRoleMap, split_by_role}
use logiclens.Matching.Pairs.{ne_of_str_eq}
use logiclens.Matching.Grpc.{grpc_edge, resolve_grpc_relations}
use logiclens.Matching.Grpc.Laws.{
  IsGrpcCall, resolve_grpc_sound, resolve_grpc_complete, resolve_grpc_total,
}
use logiclens.Tests.{spec_of}

abbrev pub grpc_spec : GrpcMethodSpec
grpc_spec = record {
  service = "Orders";
  method = "Create";
  package_name = some "shop";
  full_name = "shop.Orders/Create";
  request_type = none;
  response_type = none;
  streaming = unary;
  framework = none;
}

abbrev pub parse_grpc : String → Option GrpcMethodSpec
parse_grpc t = if str_eq t "orders" then some grpc_spec else none

abbrev shop : ContractSpecNode
shop = spec_of grpc_method "s1" "shop" "orders"

abbrev web : ContractSpecNode
web = spec_of grpc_method "s2" "web" "orders"

abbrev specs : List ContractSpecNode
specs = web ∷ shop ∷ []

abbrev roles : SpecRoleMap
roles = []

abbrev of_web : Parsed GrpcMethodSpec
of_web = record { node = web; spec = grpc_spec }

abbrev of_shop : Parsed GrpcMethodSpec
of_shop = record { node = shop; spec = grpc_spec }

abbrev edges : List SemanticRelationEdge
edges = grpc_edge of_web of_shop ∷ grpc_edge of_shop of_web ∷ []

returned : resolve_grpc_relations parse_grpc specs roles ≡ some edges
unfolding resolve_grpc_relations resolve_pairs split_by_role parse_all pair_up emit
returned = refl

is_call : IsGrpcCall parse_grpc specs roles of_web of_shop
is_call = record {
  consumer = record { listed = Memᴰ.head refl; role = refl; read = refl };
  producer = record { listed = Memᴰ.tail (Memᴰ.head refl); role = refl; read = refl };
  apart = record { ids = ne_of_str_eq _ _ refl; repos = ne_of_str_eq _ _ refl };
  service = refl;
  method = refl;
}

resolve_grpc_sound_example :
    (c p : Parsed GrpcMethodSpec) × IsGrpcCall parse_grpc specs roles c p
    × (grpc_edge of_web of_shop ≡ grpc_edge c p)
resolve_grpc_sound_example =
    resolve_grpc_sound parse_grpc specs roles returned (grpc_edge of_web of_shop) (Memᴰ.head refl)

resolve_grpc_complete_example :
    (d : SemanticRelationEdge) × Memᴰ d edges × (edge_key d ≡ edge_key (grpc_edge of_web of_shop))
resolve_grpc_complete_example =
    resolve_grpc_complete parse_grpc specs roles returned of_web of_shop is_call

reads_all :
    (s : ContractSpecNode)
    → Memᴰ s specs
    → s.spec_kind ≡ grpc_method
    → parse_grpc s.spec_json ≢ none
reads_all s m _ = elim (Memᴰ.cases_cons m) [
  | inl e ↦ rw e (λ h. cc)
  | inr n ↦ rw (Memᴰ.eq_of_singleton n) (λ h. cc)
]

resolve_grpc_total_example :
    (es : List SemanticRelationEdge) × (resolve_grpc_relations parse_grpc specs roles ≡ some es)
resolve_grpc_total_example = resolve_grpc_total parse_grpc specs roles reads_all

-- ===== src/Tests/Graphql.antt =====
-- A GraphQL operation between two repositories, and a call within a symbol.
use mathlib.Core.List.Memᴰ
use logiclens.Shared.{
  List, [], ◌∷◌, Memᴰ, ◌≡◌, refl, ap, ◌∙◌, true, false, inl, inr, has_colon, has_colon-joined,
}
use logiclens.Nodes.{
  ContractSpecNode, graphql_operation, producer, consumer, SemanticRelationEdge, edge_key,
}
use logiclens.Matching.Roles.{SpecRoleMap, split_by_role}
use logiclens.Matching.Pairs.{ne_of_str_eq}
use logiclens.Matching.Links.{pair_up, emit}
use logiclens.Matching.Graphql.{graphql_edge, resolve_graphql_relations}
use logiclens.Matching.Graphql.Laws.{IsGraphqlCall}
use logiclens.Matching.Internal.{internal_edge, resolve_internal_call_relations}
use logiclens.Matching.Internal.Laws.{
  IsInternalCall, AreApart, resolve_internal_sound, resolve_internal_complete,
}
use logiclens.Tests.{spec_of}

abbrev shop : ContractSpecNode
shop = spec_of graphql_operation "s1" "shop" "orders"

abbrev web : ContractSpecNode
web = spec_of graphql_operation "s2" "web" "orders"

abbrev specs : List ContractSpecNode
specs = web ∷ shop ∷ []

abbrev roles : SpecRoleMap
roles = []

is_call : IsGraphqlCall specs roles web shop
is_call = record {
  consumer = Memᴰ.head refl;
  consumes_it = refl;
  producer = Memᴰ.tail (Memᴰ.head refl);
  produces_it = refl;
  apart = record { ids = ne_of_str_eq _ _ refl; repos = ne_of_str_eq _ _ refl };
  key = refl;
}

found : Memᴰ (graphql_edge web shop) (resolve_graphql_relations specs roles)
unfolding resolve_graphql_relations split_by_role pair_up emit
found = Memᴰ.head refl

-- A handler of the shop that calls another contract.
abbrev entry : ContractSpecNode
entry = shop

abbrev call : ContractSpecNode
call = record (spec_of graphql_operation "s3" "shop" "orders") { contract_id = "stock" }

abbrev located : List ContractSpecNode
located = entry ∷ call ∷ []

abbrev declared : SpecRoleMap
declared = ("contract:shop", producer) ∷ ("stock:shop", consumer) ∷ []

is_internal : IsInternalCall located declared entry call
is_internal = record {
  entry = Memᴰ.head refl;
  call = Memᴰ.tail (Memᴰ.head refl);
  provides = refl;
  calls = refl;
  located = refl;
  same_located = refl;
  symbol = refl;
  ids = ne_of_str_eq _ _ refl;
  contracts = ne_of_str_eq _ _ refl;
}

found_internal : Memᴰ (internal_edge entry call) (resolve_internal_call_relations located declared)
unfolding resolve_internal_call_relations pair_up emit
found_internal = Memᴰ.head refl

of_shop : (s : ContractSpecNode) → Memᴰ s located → has_colon s.repo_id ≡ false
of_shop s m = elim (Memᴰ.cases_cons m) [
  | inl is_entry ↦ rw is_entry refl
  | inr n ↦ rw (Memᴰ.eq_of_singleton n) refl
]

located_apart : AreApart located declared
located_apart s t ms mt z longer =
    let colon : has_colon t.repo_id ≡ true = ap has_colon longer ∙ has_colon-joined s.repo_id z in
    let none_there = of_shop t mt in cc

resolve_internal_sound_example :
    (a b : ContractSpecNode) × IsInternalCall located declared a b
    × (a.repo_id ≡ b.repo_id)
    × (a.source_symbol_id ≡ b.source_symbol_id)
    × (internal_edge entry call ≡ internal_edge a b)
resolve_internal_sound_example =
    resolve_internal_sound located declared located_apart (internal_edge entry call) found_internal

resolve_internal_complete_example :
    (d : SemanticRelationEdge) × Memᴰ d (resolve_internal_call_relations located declared)
    × (edge_key d ≡ edge_key (internal_edge entry call))
resolve_internal_complete_example =
    resolve_internal_complete located declared entry call is_internal

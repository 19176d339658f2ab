-- ===== src/Tests/Event.antt =====
-- An event that one repository publishes and another subscribes to.
use logiclens.Shared.{
  String, Option, none, some, List, [], ◌∷◌, Memᴰ, ◌≡◌, refl, str_eq, if◌then◌else◌,
}
use logiclens.Nodes.{ContractSpecNode, event, producer, consumer, SemanticRelationEdge}
use logiclens.Specs.{EventSpec}
use logiclens.Matching.Roles.{SpecRoleMap, split_by_role}
use logiclens.Matching.Pairs.{ne_of_str_eq}
use logiclens.Matching.Links.{emit}
use logiclens.Matching.Links.Lists.{emit_all}
use logiclens.Matching.Event.{topic_of, publish_edge, subscribe_edge, resolve_event_relations}
use logiclens.Matching.Event.Laws.{
  IsEventPair, IsLinked, HasKey, publish_key, subscribe_key, resolve_event_sound,
  resolve_event_complete,
}
use logiclens.Tests.{spec_of}

abbrev event_spec : EventSpec
event_spec = record {
  topic = "orders";
  event_name = none;
  payload_type = some "Order";
  key_type = none;
  broker = none;
  version = none;
}

abbrev parse_event : String → Option EventSpec
parse_event t = if str_eq t "orders" then some event_spec else none

abbrev shop : ContractSpecNode
shop = spec_of event "s1" "shop" "orders"

abbrev web : ContractSpecNode
web = spec_of event "s2" "web" "orders"

abbrev specs : List ContractSpecNode
specs = web ∷ shop ∷ []

abbrev roles : SpecRoleMap
roles = ("contract:shop", producer) ∷ ("contract:web", consumer) ∷ []

abbrev edges : List SemanticRelationEdge
edges =
    publish_edge parse_event shop web "orders" event_spec event_spec
    ∷ subscribe_edge parse_event shop web "orders" event_spec event_spec
    ∷ []

returned : resolve_event_relations parse_event specs roles ≡ some edges
unfolding resolve_event_relations split_by_role emit emit_all
returned = refl

is_pair : IsEventPair parse_event specs roles shop web
unfolding topic_of
is_pair = record {
  producer = Memᴰ.tail (Memᴰ.head refl);
  produces_it = refl;
  consumer = Memᴰ.head refl;
  consumes_it = refl;
  apart = record { ids = ne_of_str_eq _ _ refl; repos = ne_of_str_eq _ _ refl };
  topic = "orders";
  named = ne_of_str_eq _ _ refl;
  published = refl;
  subscribed = refl;
}

resolve_event_sound_example :
    (p c : ContractSpecNode) × IsEventPair parse_event specs roles p c
    × IsLinked parse_event p c (subscribe_edge parse_event shop web "orders" event_spec event_spec)
resolve_event_sound_example =
    resolve_event_sound parse_event specs roles returned
      (subscribe_edge parse_event shop web "orders" event_spec event_spec)
      (Memᴰ.tail (Memᴰ.head refl))

resolve_event_complete_example :
    HasKey parse_event edges (publish_key parse_event shop web)
    × HasKey parse_event edges (subscribe_key parse_event shop web)
resolve_event_complete_example =
    resolve_event_complete parse_event specs roles returned shop web is_pair

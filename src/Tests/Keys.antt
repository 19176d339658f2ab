-- ===== src/Tests/Keys.antt =====
-- Paths and targets, and the theorems at them.
use mathlib.Core.List.Memᴰ
use logiclens.Shared.{String, ◌≡◌, refl, some, [], ◌∷◌}
use logiclens.Keys.Paths.{normalize_api_path, join_api_paths}
use logiclens.Specs.{redis_stream, rabbitmq}
use logiclens.Keys.Brokers.{infer_broker_from_imports, infer_broker_from_callee}
use logiclens.Keys.Paths.Laws.{IsCleanPath, normalize_api_path-IsCleanPath}
use logiclens.Keys.Contracts.{canonical_grpc_contract_key, canonical_dubbo_contract_key}
use logiclens.Keys.Targets.{normalize_semantic_target}
use logiclens.Keys.Targets.Laws.{joined, normalize_semantic_target-separator}

-- A text is in lower case, or in upper case, already.
abbrev same : String → String
same t = t

with_origin :
    normalize_api_path " HTTPS://shop.io//users/:id/${order}/${a.b}/?page=1"
    ≡ "/users/{id}/{order}/{param}"
unfolding normalize_api_path
with_origin = refl

root : normalize_api_path "https://shop.io" ≡ "/"
unfolding normalize_api_path
root = refl

joins : join_api_paths "/api/" "/:id-:x/" ≡ "/api/{id}-:x"
unfolding join_api_paths
joins = refl

grpc : canonical_grpc_contract_key same "shop.v1.Orders / Create" ≡ "shop.v1.Orders/Create"
unfolding canonical_grpc_contract_key
grpc = refl

dubbo : canonical_dubbo_contract_key same "shop. orders" (some "  ") ≡ "shop.orders"
unfolding canonical_dubbo_contract_key
dubbo = refl

natural : normalize_semantic_target same same "POST orders//:id/" ≡ "http:POST:/orders/{id}"
unfolding normalize_semantic_target normalize_api_path
natural = refl

query : normalize_semantic_target same same "graphql:user" ≡ "graphql:query.user"
unfolding normalize_semantic_target
query = refl

by_import :
    infer_broker_from_imports same
      (some ("express" ∷ "" ∷ "github.com/go-redis/v9" ∷ "kafkajs" ∷ []))
    ≡ redis_stream
unfolding infer_broker_from_imports
by_import = refl

by_callee : infer_broker_from_callee same (some "myamqp.channel") ≡ rabbitmq
unfolding infer_broker_from_callee
by_callee = refl

normalize_api_path-IsCleanPath_example : IsCleanPath (normalize_api_path "orders//:id/?page=1")
normalize_api_path-IsCleanPath_example = normalize_api_path-IsCleanPath "orders//:id/?page=1"

normalize_semantic_target-separator_example :
    normalize_semantic_target same same (joined "http" ":" "POST /orders")
    ≡ normalize_semantic_target same same (joined "http" " " "POST /orders")
normalize_semantic_target-separator_example =
    normalize_semantic_target-separator same same (Memᴰ.head refl) refl "POST /orders" refl

-- ===== src/Keys/Brokers.antt =====
-- The broker of an event by the imports of its file or by the receiver of the call
-- (inferBrokerFromImports and inferBrokerFromCallee of src/core/contracts/event.ts). toLowerCase is a
-- parameter.
use logiclens.Shared.{
  String, Bool, true, false, ◌||◌, Option, none, some, List, [], ◌∷◌, if◌then◌else◌, is_empty_text,
  strip_prefix,
}
use logiclens.Specs.{Broker, kafka, rabbitmq, redis_stream, nats, unknown}

abbrev is_some_text : Option String → Bool
is_some_text o = elim o [ none ↦ false | some s ↦ true ]

-- s.includes(needle)
abbrev pub includes : String → String → Bool
includes needle String.[] = is_empty_text needle
includes needle (String.◌∷◌ c s) =
    is_some_text (strip_prefix needle (String.◌∷◌ c s)) || includes needle s

abbrev includes_any : List String → String → Bool
includes_any [] s = false
includes_any (needle ∷ needles) s = includes needle s || includes_any needles s

pub record BrokerLibrary : Type 0 where
  pub broker : Broker
  pub names : List String

-- BROKER_LIBRARIES
abbrev pub broker_libraries : List BrokerLibrary
broker_libraries =
    record {
      broker = kafka;
      names = "kafka" ∷ "@nestjs/microservices" ∷ "shopify/sarama" ∷ "/sarama" ∷ [];
    }
    ∷ record {
      broker = rabbitmq;
      names =
          "amqplib" ∷ "amqp-connection-manager" ∷ "pika" ∷ "amqp091" ∷ "org.springframework.amqp"
          ∷ "com.rabbitmq" ∷ [];
    }
    ∷ record { broker = redis_stream; names = "ioredis" ∷ "go-redis" ∷ "redis" ∷ [] }
    ∷ record { broker = nats; names = "nats" ∷ [] }
    ∷ []

-- The inner loop, for the module of one import in lower case.
abbrev pub broker_of_module : List BrokerLibrary → String → Option Broker
broker_of_module [] path = none
broker_of_module (entry ∷ entries) path =
    let rest = broker_of_module entries path in
    if includes_any entry.names path then some entry.broker else rest

module _ (lowercase : String → String) where
  -- The loop over the imports, which are given by their modules.
  abbrev first_broker : List String → Broker
  first_broker [] = unknown
  first_broker (path ∷ paths) =
      let rest = first_broker paths in
      if is_empty_text (lowercase path)
      then rest
      else (elim (broker_of_module broker_libraries (lowercase path)) [
        | none ↦ rest
        | some broker ↦ broker
      ])

  unfoldable pub infer_broker_from_imports : Option (List String) → Broker
  infer_broker_from_imports imports = elim imports [
    | none ↦ unknown
    | some paths ↦ first_broker paths
  ]

  unfoldable pub infer_broker_from_callee : Option String → Broker
  infer_broker_from_callee receiver = elim receiver [
    | none ↦ unknown
    | some text ↦
        let r = lowercase text in
        if is_empty_text text
        then unknown
        else if includes "kafka" r
        then kafka
        else if includes "rabbit" r || includes "amqp" r
        then rabbitmq
        else if includes "redis" r
        then redis_stream
        else unknown
  ]

-- ===== src/Specs.antt =====
-- The payloads of contract specs (src/core/contracts/spec.ts), and the reading of `specJson`.
-- `JSON.parse` is a parameter `parse` of what reads a payload: `none` is its SyntaxError, which of
-- the resolvers only that of schemas catches. A payload is read at the type that the code casts it to.
pub mod Parsing
use logiclens.Shared.{
  ℕ, String, Bool, Option, none, some, List, [], ◌∷◌, ◌≡◌, refl, ◌>>=◌, Memᴰ, map, ◌↔◌,
}
use logiclens.Nodes.{
  ContractSpecNode, SpecKind, http_endpoint, event, schema, grpc_method, dubbo_method,
  graphql_operation,
}

pub data InteractionStyle : Type 0 where
  sync_rpc async_message shared_data : InteractionStyle

unfoldable pub interaction_style_of_spec_kind : SpecKind → InteractionStyle
interaction_style_of_spec_kind http_endpoint = sync_rpc
interaction_style_of_spec_kind grpc_method = sync_rpc
interaction_style_of_spec_kind dubbo_method = sync_rpc
interaction_style_of_spec_kind graphql_operation = sync_rpc
interaction_style_of_spec_kind event = async_message
interaction_style_of_spec_kind schema = shared_data

pub data GrpcStreaming : Type 0 where
  unary client_stream server_stream bidi_stream : GrpcStreaming

pub record GrpcMethodSpec : Type 0 where
  pub service : String
  pub method : String
  pub package_name : Option String
  pub full_name : String
  pub request_type : Option String
  pub response_type : Option String
  pub streaming : GrpcStreaming
  pub framework : Option String

pub data Broker : Type 0 where
  kafka rabbitmq redis_stream nats unknown : Broker

pub record EventSpec : Type 0 where
  pub topic : String
  pub event_name : Option String
  pub payload_type : Option String
  pub key_type : Option String
  pub broker : Option Broker
  pub version : Option String

pub data ConfigSource : Type 0 where
  annotation xml : ConfigSource

pub record DubboMethodSpec : Type 0 where
  pub interface_name : String
  pub method : String
  pub group : Option String
  pub version : Option String
  pub full_name : String
  pub request_types : List String
  pub response_type : Option String
  pub config : ConfigSource
  pub framework : Option String

pub record HttpEndpointSpec : Type 0 where
  pub method : Option String
  pub path : String
  pub path_template : String
  pub path_params : List String
  pub request_body_type : Option String
  pub response_body_type : Option String
  pub declared_response_type : Option String

pub record SchemaFieldSpec : Type 0 where
  pub name : String
  pub field_type : String
  pub optional : Bool
  pub nullable : Option Bool
  pub source_line : Option ℕ

pub record SchemaSpec : Type 0 where
  pub name : String
  pub language : String
  pub fields : List SchemaFieldSpec

pub data GraphqlOperationType : Type 0 where
  query mutation subscription : GraphqlOperationType

pub data GraphqlSource : Type 0 where
  sdl code_first client_document : GraphqlSource

pub record GraphqlOperationSpec : Type 0 where
  pub operation_type : GraphqlOperationType
  pub field : String
  pub operation_name : Option String
  pub full_name : String
  pub request_type : Option String
  pub response_type : Option String
  pub source : GraphqlSource

-- What the resolvers call: JSON.parse of each kind's payload, and toLowerCase.
pub record Services : Type 0 where
  pub parse_http : String → Option HttpEndpointSpec
  pub parse_event : String → Option EventSpec
  pub parse_schema : String → Option SchemaSpec
  pub parse_grpc : String → Option GrpcMethodSpec
  pub parse_dubbo : String → Option DubboMethodSpec
  pub parse_graphql : String → Option GraphqlOperationSpec
  pub lowercase : String → String

-- A node with its payload.
pub record Parsed (S : Type 0) : Type 0 where
  pub node : ContractSpecNode
  pub spec : S

module _ {S : Type 0} (parse : String → Option S) where
  -- deserializeSpec over a list of nodes: the first that does not parse ends the call
  unfoldable pub parse_all : List ContractSpecNode → Option (List (Parsed S))
  parse_all [] = some []
  parse_all (s ∷ specs) = do
    spec ← parse s.spec_json
    rest ← parse_all specs
    some (record { node = s; spec = spec } ∷ rest)

-- ===== src/Matching/Grpc.antt =====
-- gRPC relations (src/core/contracts/matching/grpcResolver.ts): consumers are held against the
-- producers of the same service, whatever their package.
pub mod Laws
use logiclens.Shared.{
  ℕ, String, Bool, not, ◌&&◌, Option, none, List, [], ◌∷◌, str_eq, truthy, template, get_or_else,
  bucket, group_by, if◌then◌else◌,
}
use logiclens.Nodes.{ContractSpecNode, grpc_method, calls_grpc, SemanticRelationEdge}
use logiclens.Confidence.{
  confidence_for, exact_grpc_match, probable_grpc_package_mismatch,
  probable_grpc_package_unspecified,
}
use logiclens.Specs.{GrpcMethodSpec, Parsed}
use logiclens.Matching.Roles.{SpecRoleMap}
use logiclens.Matching.Pairs.{across}
use logiclens.Matching.Frame.{resolve_pairs}

-- `service/method`, and the same behind the package
abbrev call_name : GrpcMethodSpec → String
call_name s = template (s.service ∷ "/" ∷ s.method ∷ [])

abbrev full_call_name : GrpcMethodSpec → String
full_call_name s = template (get_or_else s.package_name "" ∷ "." ∷ call_name s ∷ [])

pub record Verdict : Type 0 where
  pub reason : String
  pub confidence : ℕ

abbrev same_package : GrpcMethodSpec → GrpcMethodSpec → Bool
same_package c p = str_eq (get_or_else c.package_name "") (get_or_else p.package_name "")

-- the reason and the confidence of a consumer and a producer with the same service and method
pub classify : GrpcMethodSpec → GrpcMethodSpec → Verdict
classify consumer producer =
    if truthy consumer.package_name && truthy producer.package_name
    then (if not (same_package consumer producer)
        then record {
          reason = template (
              "gRPC match with package mismatch: "
              ∷ full_call_name consumer
              ∷ " ↔ "
              ∷ full_call_name producer
              ∷ []);
          confidence = confidence_for probable_grpc_package_mismatch;
        }
        else record {
          reason = template ("gRPC exact match: " ∷ full_call_name consumer ∷ []);
          confidence = confidence_for exact_grpc_match;
        })
    else if truthy producer.package_name
    then record {
      reason = template (
          "gRPC match (client package unspecified): "
          ∷ call_name consumer
          ∷ " ↔ "
          ∷ full_call_name producer
          ∷ []);
      confidence = confidence_for probable_grpc_package_unspecified;
    }
    else if truthy consumer.package_name
    then record {
      reason = template (
          "gRPC match (server package unspecified): "
          ∷ full_call_name consumer
          ∷ " ↔ "
          ∷ call_name producer
          ∷ []);
      confidence = confidence_for probable_grpc_package_unspecified;
    }
    else record {
      reason = template ("gRPC match: " ∷ call_name consumer ∷ []);
      confidence = confidence_for exact_grpc_match;
    }

pub grpc_edge : Parsed GrpcMethodSpec → Parsed GrpcMethodSpec → SemanticRelationEdge
grpc_edge c p = record {
  from_spec_id = c.node.id;
  to_spec_id = p.node.id;
  kind = calls_grpc;
  evidence_id = c.node.evidence_id;
  reason = (classify c.spec p.spec).reason;
  confidence = (classify c.spec p.spec).confidence;
  batch_id = none;
  active = none;
}

-- the body of the inner loop: its guards, and the edge of a pair that passes them
link : Parsed GrpcMethodSpec → Parsed GrpcMethodSpec → List SemanticRelationEdge
link c p =
    across c.node p.node (if str_eq c.spec.method p.spec.method then grpc_edge c p ∷ [] else [])

-- producerBuckets.get(consumer.service) ?? []
candidates : List (Parsed GrpcMethodSpec) → Parsed GrpcMethodSpec → List (Parsed GrpcMethodSpec)
candidates producers c = bucket c.spec.service (group_by (λ p. p.spec.service) producers)

unfoldable pub resolve_grpc_relations :
    (String → Option GrpcMethodSpec)
    → List ContractSpecNode
    → SpecRoleMap
    → Option (List SemanticRelationEdge)
unfolding candidates link grpc_edge classify
resolve_grpc_relations parse = resolve_pairs parse grpc_method candidates link

-- ===== src/Tests/Extraction.antt =====
-- The builder of facts, and the confidence of calls, at small inputs.
use logiclens.Shared.{true, false, none}
use logiclens.Nodes.{ContractSpecNode, event, SemanticRelationEdge, calls_http}
use logiclens.Confidence.{CallCandidate}
use logiclens.Tests.{spec_of}

abbrev relation : SemanticRelationEdge
relation = record {
  from_spec_id = "a";
  to_spec_id = "b";
  kind = calls_http;
  evidence_id = "evidence";
  reason = "";
  confidence = 40;
  batch_id = none;
  active = none;
}

abbrev surer : SemanticRelationEdge
surer = record relation { confidence = 90 }

abbrev spec : ContractSpecNode
spec = spec_of event "s1" "shop" ""

abbrev near : CallCandidate
near = record { same_file = true; imported = false; same_repo = true; name_exact = true }

abbrev far : CallCandidate
far = record near { same_file = false }

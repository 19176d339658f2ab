-- ===== src/Matching/Event.antt =====
-- Event relations (src/core/contracts/matching/eventResolver.ts): the producers and the consumers
-- of a topic, in both directions.
pub mod Topics
pub mod Laws
use logiclens.Shared.{
  ℕ, String, Bool, true, false, not, ◌&&◌, Option, none, some, List, [], ◌∷◌, ◌++◌, ltb, length,
  str_eq, template, truthy, get_or_else, filter, push_at, StrMap, if◌then◌else◌, ◌>>=◌, collect,
}
use logiclens.Nodes.{
  ContractSpecNode, same_kind, event, publishes_event, subscribes_event, SemanticRelationEdge,
}
use logiclens.Specs.{EventSpec}
use logiclens.Matching.Roles.{SpecRoleMap, split_by_role}
use logiclens.Matching.Links.Lists.{emit_all}

module _ (parse : String → Option EventSpec) where
  -- spec.eventTopic ?? parseEventSpec(spec).topic
  unfoldable pub topic_of : ContractSpecNode → Option String
  topic_of s = elim s.event_topic [
    | some topic ↦ some topic
    | none ↦ do spec ← parse s.spec_json; some spec.topic
  ]

  -- The loop that files the specs by topic; a spec with an empty topic is left out.
  pub by_topic :
      List ContractSpecNode
      → StrMap (List ContractSpecNode)
      → Option (StrMap (List ContractSpecNode))
  unfolding topic_of
  by_topic [] m = some m
  by_topic (s ∷ specs) m = do
    topic ← topic_of s
    by_topic specs (if str_eq topic "" then m else push_at topic s m)

  abbrev differs : Option String → Option String → Bool
  differs made used =
      truthy made && truthy used && not (str_eq (get_or_else made "") (get_or_else used ""))

  pub publish_edge :
      ContractSpecNode → ContractSpecNode → String → EventSpec → EventSpec → SemanticRelationEdge
  publish_edge p c topic made used = record {
    from_spec_id = p.id;
    to_spec_id = c.id;
    kind = publishes_event;
    evidence_id = p.evidence_id;
    reason = template (
        "Topic match: "
        ∷ topic
        ∷ (if differs made.payload_type used.payload_type
            then template (
                "; payload differs (producer="
                ∷ get_or_else made.payload_type ""
                ∷ ", consumer="
                ∷ get_or_else used.payload_type ""
                ∷ ")"
                ∷ [])
            else "")
        ∷ []);
    confidence = if differs made.payload_type used.payload_type then 85 else 95;
    batch_id = none;
    active = none;
  }

  pub subscribe_edge :
      ContractSpecNode → ContractSpecNode → String → EventSpec → EventSpec → SemanticRelationEdge
  subscribe_edge p c topic made used = record {
    from_spec_id = c.id;
    to_spec_id = p.id;
    kind = subscribes_event;
    evidence_id = c.evidence_id;
    reason = template ("Subscribes to " ∷ topic ∷ []);
    confidence = if differs made.payload_type used.payload_type then 85 else 95;
    batch_id = none;
    active = none;
  }

  -- the body of the inner loop, which parses both payloads
  both_edges : ContractSpecNode → ContractSpecNode → Option (List SemanticRelationEdge)
  unfolding topic_of publish_edge subscribe_edge
  both_edges p c = do
    made ← parse p.spec_json
    used ← parse c.spec_json
    topic ← topic_of p
    some (publish_edge p c topic made used ∷ subscribe_edge p c topic made used ∷ [])

  link : ContractSpecNode → ContractSpecNode → Option (List SemanticRelationEdge)
  unfolding both_edges
  link p c =
      if str_eq p.id c.id
      then some []
      else if str_eq p.repo_id c.repo_id
      then some []
      else both_edges p c

  -- One topic. All of its specs are events, so the split's test of the kind passes; a spec object
  -- stands once in the array, so `producers.includes(spec)` is false when it is asked.
  topic_links : SpecRoleMap → String × List ContractSpecNode → Option (List SemanticRelationEdge)
  unfolding link
  topic_links roles (_, topic_specs) =
      if ltb (length topic_specs) 2
      then some []
      else let parts = split_by_role event roles topic_specs in
        collect (λ p. collect (link p) parts.consumers) parts.producers

  unfoldable pub resolve_event_relations :
      List ContractSpecNode → SpecRoleMap → Option (List SemanticRelationEdge)
  unfolding by_topic topic_links
  resolve_event_relations specs roles =
      let events = filter (λ s. same_kind s.spec_kind event) specs in
      if ltb (length events) 2 then some [] else do
        topics ← by_topic events []
        links ← collect (topic_links roles) topics
        some (emit_all links).edges

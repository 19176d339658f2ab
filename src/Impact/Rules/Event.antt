-- ===== src/Impact/Rules/Event.antt =====
-- The rules of events (src/core/contracts/impact/rules/eventImpactRules.ts).
use logiclens.Shared.{
  String, Option, none, some, List, [], ◌∷◌, template, get_or_else, truthy, if◌then◌else◌,
}
use logiclens.Nodes.{ContractSpecNode, SpecKind, event}
use logiclens.Specs.{EventSpec, Broker, kafka, rabbitmq, redis_stream, nats, unknown}
use logiclens.Impact.Items.{ImpactItem, breaking, risky, compatible}
use logiclens.Impact.Rules.{
  ChangeType, topic_removed, topic_renamed, event_payload_change, field_added, field_removed,
  field_type_changed, ChangeIntent, shown, target_item, Dependent, dependent_item, via_reason, via,
  with_payload,
}

abbrev pub event_symbol : EventSpec → String
event_symbol p = p.topic

abbrev pub broker_name : Broker → String
broker_name kafka = "kafka"
broker_name rabbitmq = "rabbitmq"
broker_name redis_stream = "redis-stream"
broker_name nats = "nats"
broker_name unknown = "unknown"

-- broker ? ` (${broker})` : ""
abbrev pub broker_text : Option Broker → String
broker_text none = ""
broker_text (some b) = template (" (" ∷ broker_name b ∷ ")" ∷ [])

abbrev pub payload_text : EventSpec → String
payload_text p =
    template ("event: " ∷ p.topic ∷ " payload: " ∷ get_or_else p.payload_type "unknown" ∷ [])

-- what the change means for the spec itself
unfoldable pub event_target :
    ChangeType → ChangeIntent → ContractSpecNode → EventSpec → Option ImpactItem
event_target topic_removed change spec p = some (
    target_item spec breaking (event_symbol p)
      (template ("Event topic " ∷ p.topic ∷ " will be removed" ∷ []))
      (template ("event: " ∷ p.topic ∷ broker_text p.broker ∷ [])))
event_target topic_renamed change spec p =
    if truthy change.detail
    then some (
        target_item spec breaking (event_symbol p)
          (template ("Event topic renamed to " ∷ get_or_else change.detail "" ∷ []))
          (template ("event: " ∷ p.topic ∷ " → " ∷ get_or_else change.detail "" ∷ [])))
    else none
event_target event_payload_change change spec p = some (
    target_item spec risky (event_symbol p) (template ("Event payload changed for " ∷ p.topic ∷ []))
      (payload_text p))
event_target _ change spec p = none

-- the cases of what the change means for a spec that is related to the changed one
unfoldable pub event_impact : ChangeType → ChangeIntent → Dependent → EventSpec → List ImpactItem
event_impact topic_removed change d p =
    dependent_item d breaking (event_symbol p)
      (template ("Consumer subscribes to removed event topic " ∷ p.topic ∷ []))
      (via_reason d (template ("event: " ∷ p.topic ∷ broker_text p.broker ∷ [])))
    ∷ []
event_impact topic_renamed change d p =
    dependent_item d breaking (event_symbol p)
      (template ("Consumer references renamed event topic " ∷ p.topic ∷ " → " ∷ shown change ∷ []))
      (via_reason d
        (template ("event: " ∷ p.topic ∷ " → " ∷ get_or_else change.detail "undefined" ∷ [])))
    ∷ []
event_impact event_payload_change change d p =
    dependent_item d risky (event_symbol p)
      (template ("Consumer may be affected by payload change on event " ∷ p.topic ∷ []))
      (via d (payload_text p))
    ∷ []
event_impact field_removed change d p =
    dependent_item d risky (event_symbol p)
      (template ("Event payload field '" ∷ shown change ∷ "' removed — affects " ∷ p.topic ∷ []))
      (template ("event: " ∷ p.topic ∷ " (via EVENT_PAYLOAD)" ∷ []))
    ∷ []
event_impact field_type_changed change d p =
    dependent_item d risky (event_symbol p)
      (template
        ("Event payload field type changed for '" ∷ shown change ∷ "' — affects " ∷ p.topic ∷ []))
      (template ("event: " ∷ p.topic ∷ " (via EVENT_PAYLOAD)" ∷ []))
    ∷ []
event_impact field_added change d p =
    dependent_item d compatible (event_symbol p)
      (template
        ("New payload field '" ∷ shown change ∷ "' added — compatible with " ∷ p.topic ∷ []))
      (template ("event: " ∷ p.topic ∷ " (via EVENT_PAYLOAD)" ∷ []))
    ∷ []
event_impact _ change d p = []

module _ (read_kind : String → Option SpecKind) (parse : String → Option EventSpec) where
  unfoldable pub classify_event_target_change :
      ChangeIntent → ContractSpecNode → Option (Option ImpactItem)
  unfolding event_target
  classify_event_target_change change spec =
      with_payload read_kind event parse spec none (event_target change.change_type change spec)

  unfoldable pub assess_event_change : ChangeIntent → Dependent → Option (List ImpactItem)
  unfolding event_impact
  assess_event_change change d =
      with_payload read_kind event parse d.spec [] (event_impact change.change_type change d)

-- ===== src/Communication/DdsBridge/Qos.antt =====
-- The topic for which a DdsBridge of DdsBridge.cpp has a participant create its endpoints.
use Prim.Native.String.{String}
use ddsproxy.Common.{
  ◌≡◌, refl, ◌∙◌, ap, ◌||◌, List, [], ◌∷◌, ◌++◌, map, length, nat_beq, if◌then◌else◌, string_key,
  Bool-cases, inl, inr,
}
use ddsproxy.Common.Set.{member}
use ddsproxy.Configuration.{ManualTopic}
use ddsproxy.Types.TopicQos.{TopicQos, set_qos}
use ddsproxy.Types.TopicQos.Precedence.{impose, resolve, impose-resolve}
use ddsproxy.Types.Fuzzy.{fuzzy_level_hard}
use ddsproxy.Types.Topic.{DdsTopic}
use ddsproxy.Dynamic.ParticipantsDatabase.{Participant}
use ddsproxy.Communication.DdsBridge.{manual_qos, create_topic_for_participant}

-- The QoS of the manual topics that hold for a participant: those that name it or name none.
abbrev pub applicable : List ManualTopic → String → List TopicQos
applicable [] id = []
applicable ((filter, ids) ∷ rest) id =
    let qos = applicable rest id in
    if nat_beq (length ids) 0 || member id ids then filter.topic_qos.value ∷ qos else qos

-- Each field is the first one that is set in the list, unless it is at the highest level already.
abbrev pub resolve_qos : TopicQos → List TopicQos → TopicQos
resolve_qos t qs = record {
  durability_qos = resolve t.durability_qos (map (λ q. q.durability_qos) qs);
  reliability_qos = resolve t.reliability_qos (map (λ q. q.reliability_qos) qs);
  ownership_qos = resolve t.ownership_qos (map (λ q. q.ownership_qos) qs);
  use_partitions = resolve t.use_partitions (map (λ q. q.use_partitions) qs);
  keyed = resolve t.keyed (map (λ q. q.keyed) qs);
  history_depth = resolve t.history_depth (map (λ q. q.history_depth) qs);
  max_tx_rate = resolve t.max_tx_rate (map (λ q. q.max_tx_rate) qs);
  max_rx_rate = resolve t.max_rx_rate (map (λ q. q.max_rx_rate) qs);
  downsampling = resolve t.downsampling (map (λ q. q.downsampling) qs);
  transport_priority = resolve t.transport_priority (map (λ q. q.transport_priority) qs);
}

manual_qos-impose :
    (ms : List ManualTopic) (id : String) (t last : TopicQos)
    → set_qos (manual_qos ms id t) last fuzzy_level_hard
      ≡ impose t (applicable ms id ++ (last ∷ []))
unfolding manual_qos impose
manual_qos-impose [] id t last = refl
manual_qos-impose ((filter, ids) ∷ rest) id t last =
    elim (Bool-cases (nat_beq (length ids) 0 || member id ids)) [
      | inl holds ↦
          rw (holds, manual_qos)
            (manual_qos-impose rest id (set_qos t filter.topic_qos.value fuzzy_level_hard) last)
      | inr not_for_it ↦ rw (not_for_it, manual_qos) (manual_qos-impose rest id t last)
    ]

-- A participant creates its endpoints for the topic of the bridge with each field of the QoS set by
-- the first of these that sets it: the topic where its level is the highest, then the manual topics
-- that hold for the participant in their order, then the participant.
pub create_topic_for_participant-resolve_qos :
    (ms : List ManualTopic) (topic : DdsTopic) (p : Participant)
    → create_topic_for_participant ms topic p ≡ record topic {
      topic_qos = resolve_qos topic.topic_qos (applicable ms p.id ++ (p.topic_qos ∷ []));
    }
unfolding create_topic_for_participant
create_topic_for_participant-resolve_qos ms topic p =
    ap (λ q. record topic { topic_qos = q })
      (manual_qos-impose ms p.id topic.topic_qos p.topic_qos
        ∙ impose-resolve topic.topic_qos (applicable ms p.id ++ (p.topic_qos ∷ [])))

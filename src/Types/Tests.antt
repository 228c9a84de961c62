-- ===== src/Types/Tests.antt =====
-- Topics, services and Topic QoS at concrete values.
use Prim.Native.String.{String}
use ddsproxy.Common.{ℕ, ◌≡◌, refl, List, [], ◌∷◌, ◌++◌, arith, length, map}
use ddsproxy.Types.Fuzzy.{fuzzy_level_set, fuzzy_level_hard}
use ddsproxy.Types.TopicQos.{TopicQos, set_default_qos, set_qos, set_if_weaker}
use ddsproxy.Types.TopicQos.Precedence.{impose, resolve, impose-resolve}
use ddsproxy.Types.Topic.{DdsTopic, default_participant_id, internal_topic_type_rtps}
use ddsproxy.Types.Search.{codes}
use ddsproxy.Types.Rpc.{is_request_topic}
use ddsproxy.Types.Rpc.Recognise.{is_request_topic-append}

topic : String → String → DdsTopic
unfolding set_default_qos
topic name type = record {
  m_topic_name = name;
  m_internal_type_discriminator = internal_topic_type_rtps;
  m_topic_discoverer = default_participant_id;
  topic_qos = set_default_qos;
  type_name = type;
}

abbrev addition : DdsTopic
unfolding topic
addition = topic "rq/additionRequest" "AdditionRequest_"

is_request_topic-append_example :
    ((r : List ℕ) × (codes "rq/additionRequest" ≡ codes "rq/" ++ r))
    × ((a : List ℕ) × (codes "rq/additionRequest" ≡ a ++ codes "Request"))
    × ((a b : List ℕ) × (codes "AdditionRequest_" ≡ a ++ (codes "Request" ++ b)) × (length b ≡ 1))
unfolding is_request_topic topic
is_request_topic-append_example =
    is_request_topic-append addition refl (omega arith) (omega arith) (omega arith) (omega arith)

abbrev reliable_history : TopicQos
unfolding set_default_qos
reliable_history = record set_default_qos {
  history_depth = record { value = 10; fuzzy_level = fuzzy_level_set };
}

abbrev short_history : TopicQos
unfolding set_default_qos
short_history = record set_default_qos {
  history_depth = record { value = 1; fuzzy_level = fuzzy_level_set };
  downsampling = record { value = 3; fuzzy_level = fuzzy_level_hard };
}

-- The first of two QoS sets the history, the second one only the downsampling.
imposed : (impose set_default_qos (reliable_history ∷ short_history ∷ [])).history_depth.value ≡ 10
unfolding impose set_default_qos set_qos set_if_weaker
imposed = refl

abbrev two_qos : List TopicQos
two_qos = reliable_history ∷ short_history ∷ []

impose-resolve_example : impose set_default_qos two_qos ≡ record {
  durability_qos = resolve set_default_qos.durability_qos (map (λ q. q.durability_qos) two_qos);
  reliability_qos = resolve set_default_qos.reliability_qos (map (λ q. q.reliability_qos) two_qos);
  ownership_qos = resolve set_default_qos.ownership_qos (map (λ q. q.ownership_qos) two_qos);
  use_partitions = resolve set_default_qos.use_partitions (map (λ q. q.use_partitions) two_qos);
  keyed = resolve set_default_qos.keyed (map (λ q. q.keyed) two_qos);
  history_depth = resolve set_default_qos.history_depth (map (λ q. q.history_depth) two_qos);
  max_tx_rate = resolve set_default_qos.max_tx_rate (map (λ q. q.max_tx_rate) two_qos);
  max_rx_rate = resolve set_default_qos.max_rx_rate (map (λ q. q.max_rx_rate) two_qos);
  downsampling = resolve set_default_qos.downsampling (map (λ q. q.downsampling) two_qos);
  transport_priority =
      resolve set_default_qos.transport_priority (map (λ q. q.transport_priority) two_qos);
}
impose-resolve_example = impose-resolve set_default_qos two_qos

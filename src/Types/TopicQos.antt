-- ===== src/Types/TopicQos.antt =====
-- TopicQoS of ddspipe/ddspipe_core/src/cpp/types/dds/TopicQoS.cpp. The two rates are `float`s that
-- the code only copies: they stand as their bit patterns.
pub mod Precedence
use ddsproxy.Common.{ℕ, Bool, true, false, ◌&&◌, if◌then◌else◌}
use ddsproxy.Common.Int.{ℤ, ◌<ℤ?◌}
use ddsproxy.Types.Fuzzy.{
  Fuzzy, fuzzy_level_default, fuzzy_level_set, fuzzy_level_fuzzy, is_set, set_value,
}

pub data DurabilityKind : Type 0 where
  volatile transient_local transient persistent : DurabilityKind

pub data ReliabilityKind : Type 0 where
  best_effort reliable : ReliabilityKind

pub data OwnershipQosPolicyKind : Type 0 where
  shared_ownership_qos exclusive_ownership_qos : OwnershipQosPolicyKind

pub record TopicQos : Type 0 where
  pub durability_qos : Fuzzy DurabilityKind
  pub reliability_qos : Fuzzy ReliabilityKind
  pub ownership_qos : Fuzzy OwnershipQosPolicyKind
  pub use_partitions : Fuzzy Bool
  pub keyed : Fuzzy Bool
  pub history_depth : Fuzzy ℕ
  pub max_tx_rate : Fuzzy ℕ
  pub max_rx_rate : Fuzzy ℕ
  pub downsampling : Fuzzy ℕ
  pub transport_priority : Fuzzy ℕ

-- One `if` of `set_qos`.
unfoldable pub set_if_weaker : {A : Type 0} → ℤ → Fuzzy A → Fuzzy A → Fuzzy A
unfolding is_set set_value
set_if_weaker level mine other =
    if (mine.fuzzy_level <ℤ? level) && is_set other then set_value other.value level else mine

unfoldable pub set_qos : TopicQos → TopicQos → ℤ → TopicQos
set_qos t qos level = record {
  durability_qos = set_if_weaker level t.durability_qos qos.durability_qos;
  reliability_qos = set_if_weaker level t.reliability_qos qos.reliability_qos;
  ownership_qos = set_if_weaker level t.ownership_qos qos.ownership_qos;
  use_partitions = set_if_weaker level t.use_partitions qos.use_partitions;
  keyed = set_if_weaker level t.keyed qos.keyed;
  history_depth = set_if_weaker level t.history_depth qos.history_depth;
  max_tx_rate = set_if_weaker level t.max_tx_rate qos.max_tx_rate;
  max_rx_rate = set_if_weaker level t.max_rx_rate qos.max_rx_rate;
  downsampling = set_if_weaker level t.downsampling qos.downsampling;
  transport_priority = set_if_weaker level t.transport_priority qos.transport_priority;
}

unfoldable pub set_default_qos : TopicQos
unfolding set_value
set_default_qos = record {
  durability_qos = set_value volatile fuzzy_level_default;
  reliability_qos = set_value best_effort fuzzy_level_default;
  ownership_qos = set_value shared_ownership_qos fuzzy_level_default;
  use_partitions = set_value false fuzzy_level_default;
  keyed = set_value false fuzzy_level_default;
  history_depth = set_value 5000 fuzzy_level_default;
  max_tx_rate = set_value 0 fuzzy_level_default;
  max_rx_rate = set_value 0 fuzzy_level_default;
  downsampling = set_value 1 fuzzy_level_default;
  transport_priority = set_value 0 fuzzy_level_default;
}

-- The constructor, with the value of the static `default_topic_qos`.
unfoldable pub new_topic_qos : Fuzzy TopicQos → TopicQos
unfolding set_default_qos
new_topic_qos default_topic_qos =
    if is_set default_topic_qos
    then set_qos set_default_qos default_topic_qos.value fuzzy_level_set
    else set_default_qos

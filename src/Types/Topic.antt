-- ===== src/Types/Topic.antt =====
-- Topic and DdsTopic of ddspipe/ddspipe_core/src/cpp/types/topic: what tells topics apart is their
-- unique name, a concatenation.
use Prim.Native.String.{String, ◌++◌}
use ddsproxy.Common.{Bool, string_key, ◌==◌}
use ddsproxy.Types.TopicQos.{TopicQos}

abbrev pub default_participant_id : String
default_participant_id = "Undefined"

abbrev pub internal_topic_type_rtps : String
internal_topic_type_rtps = "payload::rtps::v0"

abbrev pub internal_topic_type_rpc : String
internal_topic_type_rpc = "type::rpc::v0"

pub record DdsTopic : Type 0 where
  pub m_topic_name : String
  pub m_internal_type_discriminator : String
  pub m_topic_discoverer : String
  pub topic_qos : TopicQos
  pub type_name : String

unfoldable pub topic_unique_name : DdsTopic → String
topic_unique_name t = (t.m_topic_name ++ t.m_internal_type_discriminator) ++ t.type_name

-- `Topic::operator ==`
unfoldable pub same_topic : DdsTopic → DdsTopic → Bool
unfolding topic_unique_name
same_topic a b = topic_unique_name a == topic_unique_name b

-- ===== src/Types/Filter.antt =====
-- IFilterTopic and WildcardDdsFilterTopic of ddspipe/ddspipe_core/src/cpp/types/topic/filter. The
-- wildcard match is `fnmatch` of the operating system, a parameter. Filters are compared by the
-- text that they are printed as.
use Prim.Native.String.{String, ◌++◌}
use ddsproxy.Common.{Bool, true, false, ◌&&◌, if◌then◌else◌, string_key, ◌==◌, ◌<?◌}
use ddsproxy.Common.Int.{ℤ, ◌==ℤ◌}
use ddsproxy.Types.Fuzzy.{
  Fuzzy, is_set, fuzzy_level_unset, fuzzy_level_default, fuzzy_level_fuzzy, fuzzy_level_set,
  fuzzy_level_hard,
}
use ddsproxy.Types.TopicQos.{TopicQos}
use ddsproxy.Types.Topic.{DdsTopic}

-- `ITopic`, by the dynamic type that the filters ask for.
pub data AnyTopic : Type 0 where
  dds_topic : DdsTopic → AnyTopic
  other_topic : AnyTopic

pub record WildcardDdsFilterTopic : Type 0 where
  pub topic_name : Fuzzy String
  pub type_name : Fuzzy String
  pub topic_qos : Fuzzy TopicQos

unfoldable pub get_level_as_str : ℤ → String
get_level_as_str level =
    if level ==ℤ fuzzy_level_unset
    then "UNSET"
    else if level ==ℤ fuzzy_level_default
    then "DEFAULT"
    else if level ==ℤ fuzzy_level_fuzzy
    then "FUZZY"
    else if level ==ℤ fuzzy_level_set
    then "SET"
    else if level ==ℤ fuzzy_level_hard
    then "HARD"
    else ""

unfoldable pub fuzzy_to_string : Fuzzy String → String
unfolding get_level_as_str
fuzzy_to_string f = "Fuzzy{Level(" ++ get_level_as_str f.fuzzy_level ++ ") " ++ f.value ++ "}"

unfoldable pub serialize : WildcardDdsFilterTopic → String
unfolding fuzzy_to_string
serialize f =
    "WildcardDdsFilterTopic{"
    ++ fuzzy_to_string f.topic_name
    ++ ";"
    ++ fuzzy_to_string f.type_name
    ++ "}"

-- `IFilterTopic::operator ==` and `operator <`, which turns the order round.
unfoldable pub same_filter : WildcardDdsFilterTopic → WildcardDdsFilterTopic → Bool
unfolding serialize
same_filter a b = serialize b == serialize a

unfoldable pub filter_before : WildcardDdsFilterTopic → WildcardDdsFilterTopic → Bool
unfolding serialize
filter_before a b = serialize b <? serialize a

unfoldable pub contains : WildcardDdsFilterTopic → WildcardDdsFilterTopic → Bool
contains filter other = false

module _ (match_pattern : String → String → Bool) where
  unfoldable pub matches_dds : WildcardDdsFilterTopic → DdsTopic → Bool
  unfolding is_set
  matches_dds f real_topic =
      (if is_set f.topic_name
        then match_pattern f.topic_name.value real_topic.m_topic_name
        else true)
      && (if is_set f.type_name then match_pattern f.type_name.value real_topic.type_name else true)

  unfoldable pub matches : WildcardDdsFilterTopic → AnyTopic → Bool
  unfolding matches_dds
  matches f (dds_topic t) = matches_dds f t
  matches f other_topic = false

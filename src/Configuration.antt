-- ===== src/Configuration.antt =====
-- The configuration of a pipe: ddspipe/ddspipe_core/src/cpp/configuration. A map keyed by topics is
-- keyed by their unique names.
pub mod Validity
mod Tests
use Prim.Native.String.{String}
use ddsproxy.Common.{
  Bool, true, false, not, ◌&&◌, Option, none, some, List, [], ◌∷◌, if◌then◌else◌, string_key, ◌==◌,
  keep,
}
use ddsproxy.Common.Map.{Map, find, has}
use ddsproxy.Types.Topic.{DdsTopic, topic_unique_name}
use ddsproxy.Types.Filter.{WildcardDdsFilterTopic, AnyTopic, matches}

abbrev pub RoutesMap : Type 0
RoutesMap = Map String (List String)

abbrev pub ManualTopic : Type 0
ManualTopic = WildcardDdsFilterTopic × List String

-- The loop over the destinations of one source.
unfoldable pub are_valid_destinations : Map String Bool → String → Bool → List String → Bool
are_valid_destinations participant_ids src_id is_repeater [] = true
are_valid_destinations participant_ids src_id is_repeater (dst_id ∷ rest) =
    let valid_rest = are_valid_destinations participant_ids src_id is_repeater rest in
    if not (has dst_id participant_ids)
    then false
    else if dst_id == src_id
    then (if is_repeater then valid_rest else false)
    else valid_rest

-- `RoutesConfiguration::is_valid` for the participants of the pipe.
unfoldable pub are_valid_routes : Map String Bool → RoutesMap → Bool
unfolding are_valid_destinations
are_valid_routes participant_ids [] = true
are_valid_routes participant_ids ((src_id, dst_ids) ∷ rest) =
    let valid_rest = are_valid_routes participant_ids rest in
    elim (find src_id participant_ids) [
      | none ↦ false
      | some is_repeater ↦
          if are_valid_destinations participant_ids src_id is_repeater dst_ids
          then valid_rest
          else false
    ]

-- `TopicRoutesConfiguration::is_valid`
unfoldable pub are_valid_topic_routes : Map String Bool → Map String RoutesMap → Bool
unfolding are_valid_routes
are_valid_topic_routes participant_ids [] = true
are_valid_topic_routes participant_ids ((topic, routes) ∷ rest) =
    let valid_rest = are_valid_topic_routes participant_ids rest in
    if are_valid_routes participant_ids routes then valid_rest else false

pub data DiscoveryTrigger : Type 0 where
  on_reader on_writer on_none on_any : DiscoveryTrigger

pub record DdsPipeConfiguration : Type 0 where
  pub allowlist : List WildcardDdsFilterTopic
  pub blocklist : List WildcardDdsFilterTopic
  pub builtin_topics : List DdsTopic
  pub manual_topics : List ManualTopic
  pub routes : RoutesMap
  pub topic_routes : Map String RoutesMap
  pub remove_unused_entities : Bool
  pub init_enabled : Bool
  pub master_flag : Bool
  pub discovery_trigger : DiscoveryTrigger

-- `is_valid(error_msg)`: the routes alone are always valid.
unfoldable pub is_valid_alone : DdsPipeConfiguration → Bool
is_valid_alone c =
    if c.remove_unused_entities
    then elim c.discovery_trigger [ on_reader ↦ true | _ ↦ false ]
    else true

unfoldable pub is_valid : DdsPipeConfiguration → Map String Bool → Bool
unfolding is_valid_alone are_valid_topic_routes
is_valid c participant_ids =
    if is_valid_alone c
    then are_valid_routes participant_ids c.routes
      && are_valid_topic_routes participant_ids c.topic_routes
    else false

unfoldable pub get_routes_config : DdsPipeConfiguration → DdsTopic → RoutesMap
unfolding topic_unique_name
get_routes_config c topic = elim (find (topic_unique_name topic) c.topic_routes) [
  | some routes ↦ routes
  | none ↦ c.routes
]

unfoldable pub get_manual_topics :
    (String → String → Bool) → DdsPipeConfiguration → AnyTopic → List ManualTopic
unfolding matches
get_manual_topics match_pattern c topic =
    keep (λ m. matches match_pattern m.0 topic) c.manual_topics

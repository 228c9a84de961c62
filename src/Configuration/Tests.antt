-- ===== src/Configuration/Tests.antt =====
-- Routes between concrete participants.
use Prim.Native.String.{String}
use ddsproxy.Common.{Bool, true, false, ◌≡◌, ◌↔◌, refl, [], ◌∷◌, All}
use ddsproxy.Common.Map.{Map, find, has}
use ddsproxy.Types.TopicQos.{set_default_qos}
use ddsproxy.Types.Topic.{DdsTopic, default_participant_id, internal_topic_type_rtps}
use ddsproxy.Configuration.{
  RoutesMap, DdsPipeConfiguration, on_reader, are_valid_routes, is_valid, get_routes_config,
}
use ddsproxy.Configuration.Validity.{IsRoute, are_valid_routes_iff, get_routes_config-IsRoute}

abbrev participants : Map String Bool
participants = ("lan", false) ∷ ("wan", true) ∷ []

-- The repeater may send to itself.
abbrev routes : RoutesMap
routes = ("lan", "wan" ∷ []) ∷ ("wan", "lan" ∷ "wan" ∷ []) ∷ []

are_valid_routes_iff_example :
    (are_valid_routes participants routes ≡ true) ↔ All (IsRoute participants) routes
are_valid_routes_iff_example = are_valid_routes_iff participants routes

abbrev square : DdsTopic
unfolding set_default_qos
square = record {
  m_topic_name = "Square";
  m_internal_type_discriminator = internal_topic_type_rtps;
  m_topic_discoverer = default_participant_id;
  topic_qos = set_default_qos;
  type_name = "ShapeType";
}

abbrev configuration : DdsPipeConfiguration
configuration = record {
  allowlist = [];
  blocklist = [];
  builtin_topics = square ∷ [];
  manual_topics = [];
  routes = routes;
  topic_routes = ("Squarepayload::rtps::v0ShapeType", ("wan", "lan" ∷ []) ∷ []) ∷ [];
  remove_unused_entities = true;
  init_enabled = true;
  master_flag = true;
  discovery_trigger = on_reader;
}

get_routes_config-IsRoute_example :
    All (IsRoute participants) (get_routes_config configuration square)
unfolding is_valid find has
get_routes_config-IsRoute_example = get_routes_config-IsRoute configuration participants square refl

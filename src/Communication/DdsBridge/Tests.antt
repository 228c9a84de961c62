-- ===== src/Communication/DdsBridge/Tests.antt =====
-- A pipe over the DDS bridges of the code.
use Prim.Native.String.{String}
use ddsproxy.Common.{
  ◌≡◌, refl, sym, ◌∙◌, Bool, true, false, Option, none, some, List, [], ◌∷◌, string_key, ◌==◌,
}
use ddsproxy.Common.Map
use ddsproxy.Common.Set
use ddsproxy.Communication.DdsBridge
use ddsproxy.Communication.DdsBridge.Creation.{make}
use ddsproxy.Common.Map.{find, insert, replace}
use ddsproxy.Types.TopicQos.{set_default_qos}
use ddsproxy.Types.Topic.{DdsTopic, internal_topic_type_rtps}
use ddsproxy.Types.Rpc.{is_service_topic}
use ddsproxy.Types.Endpoint.{Endpoint, reader}
use ddsproxy.Dynamic.AllowedTopicList.{make_allowed_topic_list}
use ddsproxy.Dynamic.DiscoveryDatabase.{Entities}
use ddsproxy.Dynamic.ParticipantsDatabase.{
  Participant, ParticipantsDatabase, get_participant, get_participants_ids,
  get_participants_repeater_map,
}
use ddsproxy.Configuration.{DdsPipeConfiguration, on_reader}
use ddsproxy.Pipe.Interfaces.{BridgeOps, RpcBridgeOps}
use ddsproxy.Pipe.{DdsPipe, enable, disable}
use ddsproxy.Pipe.Discovery.{new_pipe, discovered_endpoint, make_pipe, init_bridges}
use ddsproxy.Pipe.Allowed.{Distinguished, Consistent}
use ddsproxy.Pipe.Runs.{Event, enables, disables, discovers, run, step}
use ddsproxy.Communication.DdsBridge.{DdsBridge}
use ddsproxy.Communication.DdsBridge.Interface.{bridge_ops, bridge_laws, bridges-Consistent}

abbrev services : RpcBridgeOps Bool
services = record {
  make_rpc = λ t. false;
  enable_rpc = λ b. true;
  disable_rpc = λ b. false;
  discovered_service = λ id prefix b. b;
  removed_service = λ id prefix b. b;
}

literal_match : String → String → Bool
literal_match pattern text = pattern == text

accepts : Participant → DdsTopic → Bool
accepts p t = true

abbrev square : DdsTopic
unfolding set_default_qos
square = record {
  m_topic_name = "Square";
  m_internal_type_discriminator = internal_topic_type_rtps;
  m_topic_discoverer = "lan";
  topic_qos = set_default_qos;
  type_name = "ShapeType";
}

abbrev participant : String → Participant
unfolding set_default_qos
participant id = record {
  id = id;
  is_rtps_kind = true;
  is_repeater = false;
  topic_qos = set_default_qos;
}

abbrev participants : ParticipantsDatabase
participants = ("lan", participant "lan") ∷ ("wan", participant "wan") ∷ []

-- The only topic of the run.
abbrev IsSquare : DdsTopic → Type 0
IsSquare t = (t.m_topic_name ≡ "Square") × (t.type_name ≡ "ShapeType")

squares : Distinguished IsSquare
squares t u a b e = (a.0 ∙ sym b.0, a.1 ∙ sym b.1)

abbrev listener : Endpoint
listener = record {
  kind = reader;
  guid = 7;
  topic = square;
  active = true;
  discoverer_participant_id = "wan";
}

abbrev known : Entities
known = record {
  entities = (7, listener) ∷ [];
  added_endpoint_callbacks = 0 ∷ [];
  updated_endpoint_callbacks = 0 ∷ [];
  erased_endpoint_callbacks = 0 ∷ [];
}

abbrev configuration : DdsPipeConfiguration
configuration = record {
  allowlist = [];
  blocklist = [];
  builtin_topics = square ∷ [];
  manual_topics = [];
  routes = [];
  topic_routes = [];
  remove_unused_entities = true;
  init_enabled = true;
  master_flag = true;
  discovery_trigger = on_reader;
}

abbrev events : List Event
events = disables ∷ discovers known listener ∷ enables ∷ []

abbrev ops : BridgeOps DdsBridge
ops = bridge_ops accepts accepts false participants

-- A pipe that is given, or else a new one.
given : Option (DdsPipe DdsBridge Bool) → DdsPipe DdsBridge Bool
unfolding new_pipe
given none = new_pipe ops services literal_match configuration
given (some p) = p

made : Option (Option (DdsPipe DdsBridge Bool)) → DdsPipe DdsBridge Bool
unfolding given
made none = given none
made (some o) = given o

abbrev first_pipe : DdsPipe DdsBridge Bool
first_pipe = made (
    make_pipe ops services literal_match configuration (get_participants_repeater_map participants))

abbrev last_pipe : DdsPipe DdsBridge Bool
last_pipe =
    given (
      run ops services literal_match (get_participants_repeater_map participants) events first_pipe)

bridges-Consistent_example :
    Consistent ops services literal_match
      (bridge_laws accepts accepts false participants)
      IsSquare
      squares
      last_pipe
unfolding given made run square step enable disable discovered_endpoint is_service_topic insert find
    make_allowed_topic_list replace make_pipe init_bridges make get_participant accepts
    get_participants_ids Set.insert Map.erase DdsBridge.disable DdsBridge.enable
bridges-Consistent_example =
    bridges-Consistent accepts accepts false participants services literal_match IsSquare squares
      configuration events first_pipe last_pipe ((refl, refl), tt) (tt, ((refl, refl), (tt, tt)))
      refl refl

-- ===== src/Pipe/Tests.antt =====
-- A pipe over bridges that only know whether they are enabled.
use Prim.Native.String.{String}
use ddsproxy.Common.{
  ◌≡◌, refl, sym, ◌∙◌, Bool, true, false, Option, none, some, List, [], ◌∷◌, string_key, ◌==◌,
}
use ddsproxy.Common.Map.{find, insert, replace}
use ddsproxy.Types.TopicQos.{set_default_qos}
use ddsproxy.Types.Topic.{DdsTopic, internal_topic_type_rtps}
use ddsproxy.Types.Rpc.{is_service_topic}
use ddsproxy.Types.Endpoint.{Endpoint, reader}
use ddsproxy.Dynamic.AllowedTopicList.{make_allowed_topic_list}
use ddsproxy.Dynamic.DiscoveryDatabase.{Entities}
use ddsproxy.Configuration.{DdsPipeConfiguration, on_reader}
use ddsproxy.Pipe.Interfaces.{BridgeOps, RpcBridgeOps, BridgeLaws}
use ddsproxy.Pipe.{DdsPipe, enable, disable}
use ddsproxy.Pipe.Discovery.{new_pipe, discovered_endpoint, make_pipe, init_bridges}
use ddsproxy.Pipe.Allowed.{Distinguished, Consistent}
use ddsproxy.Pipe.Runs.{Event, enables, disables, discovers, run, step, run-Consistent}

abbrev flags : BridgeOps Bool
flags = record {
  make = λ t r u m ms. some false;
  enable = λ b. true;
  disable = λ b. false;
  create_writer = λ id b. some b;
  remove_writer = λ id b. b;
  change_master_flag = λ f b. b;
}

abbrev services : RpcBridgeOps Bool
services = record {
  make_rpc = λ t. false;
  enable_rpc = λ b. true;
  disable_rpc = λ b. false;
  discovered_service = λ id prefix b. b;
  removed_service = λ id prefix b. b;
}

some_bool : {a b : Bool} → some a ≡ some b → a ≡ b
some_bool e = cc

abbrev laws : BridgeLaws flags
laws = record {
  is_enabled = λ b. b;
  make-is_enabled = λ t r u m ms b e. sym (some_bool e);
  enable-is_enabled = λ b. refl;
  disable-is_enabled = λ b. refl;
  create_writer-is_enabled = λ id b b' e. sym (some_bool e);
  remove_writer-is_enabled = λ id b. refl;
  change_master_flag-is_enabled = λ f b. refl;
}

literal_match : String → String → Bool
literal_match pattern text = pattern == text

abbrev square : DdsTopic
unfolding set_default_qos
square = record {
  m_topic_name = "Square";
  m_internal_type_discriminator = internal_topic_type_rtps;
  m_topic_discoverer = "lan";
  topic_qos = set_default_qos;
  type_name = "ShapeType";
}

-- The only topic of the run.
abbrev IsSquare : DdsTopic → Type 0
IsSquare t = (t.m_topic_name ≡ "Square") × (t.type_name ≡ "ShapeType")

squares : Distinguished IsSquare
squares t u a b e = (a.0 ∙ sym b.0, a.1 ∙ sym b.1)

abbrev listener : Endpoint
listener = record {
  kind = reader;
  guid = 7;
  topic = square;
  active = true;
  discoverer_participant_id = "lan";
}

abbrev known : Entities
known = record {
  entities = (7, listener) ∷ [];
  added_endpoint_callbacks = 0 ∷ [];
  updated_endpoint_callbacks = 0 ∷ [];
  erased_endpoint_callbacks = 0 ∷ [];
}

abbrev configuration : DdsPipeConfiguration
configuration = record {
  allowlist = [];
  blocklist = [];
  builtin_topics = square ∷ [];
  manual_topics = [];
  routes = [];
  topic_routes = [];
  remove_unused_entities = true;
  init_enabled = true;
  master_flag = true;
  discovery_trigger = on_reader;
}

abbrev events : List Event
events = disables ∷ discovers known listener ∷ enables ∷ []

-- A pipe that is given, or else a new one.
given : Option (DdsPipe Bool Bool) → DdsPipe Bool Bool
unfolding new_pipe
given none = new_pipe flags services literal_match configuration
given (some p) = p

made : Option (Option (DdsPipe Bool Bool)) → DdsPipe Bool Bool
unfolding given
made none = given none
made (some o) = given o

abbrev first_pipe : DdsPipe Bool Bool
first_pipe = made (make_pipe flags services literal_match configuration [])

abbrev last_pipe : DdsPipe Bool Bool
last_pipe = given (run flags services literal_match [] events first_pipe)

-- At the end the topic is active and its bridge enabled.
last_pipe_flags :
    (find "Squarepayload::rtps::v0ShapeType" last_pipe.current_topics ≡ some (square, true))
    × (find "Squarepayload::rtps::v0ShapeType" last_pipe.bridges ≡ some true)
unfolding given made run square step enable disable discovered_endpoint is_service_topic insert find
    make_allowed_topic_list replace make_pipe init_bridges
last_pipe_flags = (refl, refl)

run-Consistent_example : Consistent flags services literal_match laws IsSquare squares last_pipe
unfolding given made run square step enable disable discovered_endpoint is_service_topic insert find
    make_allowed_topic_list replace make_pipe init_bridges
run-Consistent_example =
    run-Consistent flags services literal_match [] laws IsSquare squares configuration events
      first_pipe last_pipe ((refl, refl), tt) (tt, ((refl, refl), (tt, tt))) refl refl

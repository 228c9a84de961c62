-- ===== src/Pipe.antt =====
-- DdsPipe of ddspipe/ddspipe_core/src/cpp/core/DdsPipe.cpp: it reacts to the discovery database and
-- to its configuration by creating, enabling and disabling bridges. The bridges are behind two
-- interfaces. Each public call is one step: it holds the mutex of the pipe, but for the reload of the
-- master flag, which goes through the bridges without it and changes no other flag. Maps keyed by
-- topics are keyed by their unique names, and those keyed by services by the service names.
pub mod Interfaces
pub mod Reload
pub mod Discovery
pub mod Flags
pub mod Allowed
pub mod Loops
pub mod Serving
pub mod Steps
pub mod Topics
pub mod Reactions
pub mod Endpoints
pub mod Builtin
pub mod Runs
mod Tests
use Prim.Native.String.{String}
use ddsproxy.Common.{
  ℕ, Bool, true, false, not, ◌&&◌, ◌||◌, Option, none, some, List, [], ◌∷◌, length, if◌then◌else◌,
  string_key, nat_key, nat_beq, ◌==◌,
}
use ddsproxy.Common.Map.{Map, find, insert, replace, has}
use ddsproxy.Types.Topic.{DdsTopic, same_topic, topic_unique_name, default_participant_id}
use ddsproxy.Types.Filter.{AnyTopic, dds_topic}
use ddsproxy.Types.Rpc.{RpcTopic, is_service_topic, make_rpc_topic}
use ddsproxy.Types.Endpoint.{Endpoint, is_reader, is_writer, is_server_endpoint, guid_prefix}
use ddsproxy.Dynamic.AllowedTopicList.{
  AllowedTopicList, make_allowed_topic_list, is_topic_allowed, is_service_allowed,
  same_allowed_topics,
}
use ddsproxy.Dynamic.DiscoveryDatabase.{Entities, get_endpoints}
use ddsproxy.Configuration.{
  DdsPipeConfiguration, DiscoveryTrigger, on_reader, on_writer, on_none, on_any, is_valid,
  get_routes_config, get_manual_topics,
}
use Interfaces.{BridgeOps, RpcBridgeOps}

pub record DdsPipe (Bridge RpcBridge : Type 0) : Type 0 where
  pub configuration : DdsPipeConfiguration
  pub allowed_topics : AllowedTopicList
  pub bridges : Map String Bridge
  pub rpc_bridges : Map String RpcBridge
  pub current_topics : Map String (DdsTopic × Bool)
  pub current_services : Map String (RpcTopic × Bool)
  pub enabled : Bool

pub data ReturnCode : Type 0 where
  retcode_ok retcode_no_data retcode_precondition_not_met : ReturnCode

-- `current_topics_[topic] = active`: the key that is there stays.
unfoldable pub set_current :
    DdsTopic → Bool → Map String (DdsTopic × Bool) → Map String (DdsTopic × Bool)
unfolding topic_unique_name
set_current topic active m = elim (find (topic_unique_name topic) m) [
  | none ↦ insert (topic_unique_name topic) (topic, active) m
  | some (stored, _) ↦ replace (topic_unique_name topic) (stored, active) m
]

-- `current_topics_.emplace(topic, false)`
unfoldable pub emplace_current :
    DdsTopic → Map String (DdsTopic × Bool) → Map String (DdsTopic × Bool)
unfolding topic_unique_name
emplace_current topic m = elim (find (topic_unique_name topic) m) [
  | none ↦ insert (topic_unique_name topic) (topic, false) m
  | some _ ↦ m
]

module _ {Bridge RpcBridge : Type 0} (ops : BridgeOps Bridge) (rpc : RpcBridgeOps RpcBridge)
    (match_pattern : String → String → Bool) where
  unfoldable pub create_new_bridge :
      DdsTopic → Bool → DdsPipe Bridge RpcBridge → DdsPipe Bridge RpcBridge
  unfolding get_routes_config get_manual_topics
  create_new_bridge topic enabled p =
      elim (ops.make topic (get_routes_config p.configuration topic)
        p.configuration.remove_unused_entities p.configuration.master_flag
        (get_manual_topics match_pattern p.configuration (dds_topic topic))) [
          | none ↦ p
          | some b ↦ record p {
            bridges =
                insert (topic_unique_name topic) (if enabled then ops.enable b else b) p.bridges;
          }
        ]

  unfoldable pub activate_topic : DdsTopic → DdsPipe Bridge RpcBridge → DdsPipe Bridge RpcBridge
  unfolding create_new_bridge set_current
  activate_topic topic p =
      let p' = record p { current_topics = set_current topic true p.current_topics } in
      elim (find (topic_unique_name topic) p.bridges) [
        | none ↦ create_new_bridge topic true p'
        | some b ↦ record p' { bridges = insert (topic_unique_name topic) (ops.enable b) p.bridges }
      ]

  unfoldable pub deactivate_topic : DdsTopic → DdsPipe Bridge RpcBridge → DdsPipe Bridge RpcBridge
  unfolding set_current
  deactivate_topic topic p =
      let p' = record p { current_topics = set_current topic false p.current_topics } in
      elim (find (topic_unique_name topic) p.bridges) [
        | none ↦ p'
        | some b ↦ record p' {
          bridges = insert (topic_unique_name topic) (ops.disable b) p.bridges;
        }
      ]

  unfoldable pub is_allowed : DdsPipe Bridge RpcBridge → DdsTopic → Bool
  unfolding is_topic_allowed
  is_allowed p topic = is_topic_allowed match_pattern p.allowed_topics (dds_topic topic)

  -- The loop of `activate_all_topics_nts_`.
  unfoldable pub activate_topics :
      Map String (DdsTopic × Bool) → DdsPipe Bridge RpcBridge → DdsPipe Bridge RpcBridge
  unfolding activate_topic is_allowed
  activate_topics [] p = p
  activate_topics ((name, (topic, active)) ∷ rest) p =
      activate_topics rest (if is_allowed p topic then activate_topic topic p else p)

  unfoldable pub deactivate_topics :
      Map String (DdsTopic × Bool) → DdsPipe Bridge RpcBridge → DdsPipe Bridge RpcBridge
  unfolding deactivate_topic
  deactivate_topics [] p = p
  deactivate_topics ((name, (topic, active)) ∷ rest) p =
      deactivate_topics rest (deactivate_topic topic p)

  -- A call on a bridge of `rpc_bridges_`; without one the code calls through a null pointer.
  unfoldable pub call_rpc :
      String
      → (RpcBridge → RpcBridge)
      → DdsPipe Bridge RpcBridge
      → Option (DdsPipe Bridge RpcBridge)
  call_rpc name call p = elim (find name p.rpc_bridges) [
    | none ↦ none
    | some b ↦ some (record p { rpc_bridges = insert name (call b) p.rpc_bridges })
  ]

  -- The loop over the services in `enable`.
  unfoldable pub enable_services :
      Map String (RpcTopic × Bool) → DdsPipe Bridge RpcBridge → Option (DdsPipe Bridge RpcBridge)
  unfolding call_rpc
  enable_services [] p = some p
  enable_services ((name, (topic, allowed)) ∷ rest) p =
      elim (if allowed then call_rpc name rpc.enable_rpc p else some p) [
        | none ↦ none
        | some p' ↦ enable_services rest p'
      ]

  unfoldable pub enable : DdsPipe Bridge RpcBridge → Option (DdsPipe Bridge RpcBridge × ReturnCode)
  unfolding activate_topics enable_services
  enable p =
      if p.enabled
      then some (p, retcode_precondition_not_met)
      else elim (enable_services p.current_services
          (activate_topics p.current_topics (record p { enabled = true }))) [
            | none ↦ none
            | some p' ↦ some (p', retcode_ok)
          ]

  unfoldable pub disable : DdsPipe Bridge RpcBridge → DdsPipe Bridge RpcBridge × ReturnCode
  unfolding deactivate_topics
  disable p =
      if p.enabled
      then (deactivate_topics p.current_topics (record p { enabled = false }), retcode_ok)
      else (p, retcode_precondition_not_met)

-- ===== src/Pipe/Discovery.antt =====
-- What DdsPipe of ddspipe/ddspipe_core/src/cpp/core/DdsPipe.cpp does when it is created and when the
-- discovery database tells it of an endpoint. `none` is the end of the process: a null bridge of a
-- service, or an exception that leaves a `noexcept` function.
use Prim.Native.String.{String}
use ddsproxy.Common.{
  ℕ, Bool, true, false, not, ◌&&◌, Option, none, some, List, [], ◌∷◌, length, if◌then◌else◌,
  string_key, nat_key, nat_beq, ◌==◌,
}
use ddsproxy.Common.Map.{Map, find, insert, has}
use ddsproxy.Types.Topic.{DdsTopic, same_topic, topic_unique_name, default_participant_id}
use ddsproxy.Types.Rpc.{RpcTopic, is_service_topic, make_rpc_topic}
use ddsproxy.Types.Endpoint.{Endpoint, is_reader, is_writer, is_server_endpoint, guid_prefix}
use ddsproxy.Dynamic.AllowedTopicList.{make_allowed_topic_list, is_service_allowed}
use ddsproxy.Dynamic.DiscoveryDatabase.{Entities, get_endpoints}
use ddsproxy.Configuration.{DdsPipeConfiguration, on_reader, on_writer, on_none, on_any, is_valid}
use ddsproxy.Pipe.Interfaces.{BridgeOps, RpcBridgeOps}
use ddsproxy.Pipe.{
  DdsPipe, create_new_bridge, activate_topic, is_allowed, call_rpc, enable, emplace_current,
}

module _ {Bridge RpcBridge : Type 0} (ops : BridgeOps Bridge) (rpc : RpcBridgeOps RpcBridge)
    (match_pattern : String → String → Bool) where
  unfoldable pub is_endpoint_kind_relevant : DdsPipe Bridge RpcBridge → Endpoint → Bool
  unfolding is_reader is_writer
  is_endpoint_kind_relevant p endpoint = elim p.configuration.discovery_trigger [
    | on_reader ↦ is_reader endpoint
    | on_writer ↦ is_writer endpoint
    | on_any ↦ true
    | on_none ↦ false
  ]

  unfoldable pub is_endpoint_relevant : Entities → DdsPipe Bridge RpcBridge → Endpoint → Bool
  unfolding is_endpoint_kind_relevant get_endpoints same_topic has
  is_endpoint_relevant db p endpoint =
      let relevant_endpoints =
        get_endpoints
          (λ entity.
            entity.active
            && is_endpoint_kind_relevant p entity
            && same_topic entity.topic endpoint.topic
            && entity.discoverer_participant_id == endpoint.discoverer_participant_id)
          db in
      if is_endpoint_kind_relevant p endpoint
      then if endpoint.active
        then nat_beq (length relevant_endpoints) 1 && has endpoint.guid relevant_endpoints
        else nat_beq (length relevant_endpoints) 0
      else false

  unfoldable pub discovered_topic :
      DdsTopic → DdsPipe Bridge RpcBridge → Option (DdsPipe Bridge RpcBridge)
  unfolding emplace_current activate_topic is_allowed
  discovered_topic topic p =
      let p' = record p { current_topics = emplace_current topic p.current_topics } in
      elim (find (topic_unique_name topic) p.bridges) [
        | none ↦ some (
            if p.enabled && is_allowed ops rpc match_pattern p topic
            then activate_topic ops rpc match_pattern topic p'
            else p')
        | some b ↦
            if p.configuration.remove_unused_entities
              && not (topic.m_topic_discoverer == default_participant_id)
            then elim (ops.create_writer topic.m_topic_discoverer b) [
              | none ↦ none
              | some b' ↦
                  some (record p { bridges = insert (topic_unique_name topic) b' p.bridges })
            ]
            else some p
      ]

  -- The part of `discovered_service_nts_` for a service without a bridge.
  unfoldable pub create_new_service : RpcTopic → DdsPipe Bridge RpcBridge → DdsPipe Bridge RpcBridge
  unfolding is_service_allowed
  create_new_service topic p = if has topic.service_name p.rpc_bridges then p else record p {
    rpc_bridges = insert topic.service_name (rpc.make_rpc topic) p.rpc_bridges;
    current_services =
        insert topic.service_name (topic, is_service_allowed match_pattern p.allowed_topics topic)
          p.current_services;
  }

  -- `current_services_[topic]`: a missing entry reads as false.
  unfoldable pub current_service : String → Map String (RpcTopic × Bool) → Bool
  current_service name m = elim (find name m) [ none ↦ false | some service ↦ service.1 ]

  unfoldable pub discovered_service :
      RpcTopic → String → ℕ → DdsPipe Bridge RpcBridge → Option (DdsPipe Bridge RpcBridge)
  unfolding create_new_service call_rpc current_service
  discovered_service topic server_participant_id server_guid_prefix p =
      let call = call_rpc ops rpc match_pattern topic.service_name in
      let p' = create_new_service topic p in
      let allowed = current_service topic.service_name p'.current_services in
      elim (call (rpc.discovered_service server_participant_id server_guid_prefix) p') [
        | none ↦ none
        | some p'' ↦ if p.enabled && allowed then call rpc.enable_rpc p'' else some p''
      ]

  unfoldable pub removed_service :
      RpcTopic → String → ℕ → DdsPipe Bridge RpcBridge → DdsPipe Bridge RpcBridge
  removed_service topic server_participant_id server_guid_prefix p =
      elim (find topic.service_name p.rpc_bridges) [
        | none ↦ p
        | some b ↦ record p {
          rpc_bridges =
              insert topic.service_name
                (rpc.removed_service server_participant_id server_guid_prefix b) p.rpc_bridges;
        }
      ]

  unfoldable pub discovered_endpoint :
      Entities → Endpoint → DdsPipe Bridge RpcBridge → Option (DdsPipe Bridge RpcBridge)
  unfolding is_endpoint_kind_relevant is_endpoint_relevant discovered_service discovered_topic
  discovered_endpoint db endpoint p =
      if is_service_topic endpoint.topic
      then if is_endpoint_kind_relevant p endpoint && is_server_endpoint endpoint
        then elim (make_rpc_topic endpoint.topic) [
          | none ↦ none
          | some topic ↦
              discovered_service topic endpoint.discoverer_participant_id
                (guid_prefix endpoint.guid) p
        ]
        else some p
      else if is_endpoint_relevant db p endpoint
      then discovered_topic endpoint.topic p
      else some p

  -- The part of `removed_endpoint_nts_` that removes the subscriber from its topic.
  unfoldable pub remove_subscriber : Endpoint → DdsPipe Bridge RpcBridge → DdsPipe Bridge RpcBridge
  remove_subscriber endpoint p = elim (find (topic_unique_name endpoint.topic) p.bridges) [
    | none ↦ p
    | some b ↦
        if endpoint.discoverer_participant_id == default_participant_id then p else record p {
          bridges =
              insert (topic_unique_name endpoint.topic)
                (ops.remove_writer endpoint.discoverer_participant_id b) p.bridges;
        }
  ]

  unfoldable pub removed_endpoint :
      Entities → Endpoint → DdsPipe Bridge RpcBridge → Option (DdsPipe Bridge RpcBridge)
  unfolding is_endpoint_relevant removed_service remove_subscriber
  removed_endpoint db endpoint p =
      if is_service_topic endpoint.topic
      then if is_server_endpoint endpoint
        then elim (make_rpc_topic endpoint.topic) [
          | none ↦ none
          | some topic ↦ some (
              removed_service topic endpoint.discoverer_participant_id (guid_prefix endpoint.guid)
                p)
        ]
        else some p
      else if p.configuration.remove_unused_entities && is_endpoint_relevant db p endpoint
      then some (remove_subscriber endpoint p)
      else some p

  unfoldable pub updated_endpoint :
      Entities → Endpoint → DdsPipe Bridge RpcBridge → Option (DdsPipe Bridge RpcBridge)
  unfolding discovered_endpoint removed_endpoint
  updated_endpoint db endpoint p =
      if is_service_topic endpoint.topic
      then some p
      else if endpoint.active
      then discovered_endpoint db endpoint p
      else removed_endpoint db endpoint p

  unfoldable pub init_bridges :
      List DdsTopic → DdsPipe Bridge RpcBridge → Option (DdsPipe Bridge RpcBridge)
  unfolding discovered_topic create_new_bridge
  init_bridges [] p = some p
  init_bridges (topic ∷ rest) p = elim (discovered_topic topic p) [
    | none ↦ none
    | some p' ↦ init_bridges rest (create_new_bridge ops rpc match_pattern topic false p')
  ]

  -- The members when the body of the constructor starts, with `init_allowed_topics_` done.
  unfoldable pub new_pipe : DdsPipeConfiguration → DdsPipe Bridge RpcBridge
  new_pipe c = record {
    configuration = c;
    allowed_topics = make_allowed_topic_list c.allowlist c.blocklist;
    bridges = [];
    rpc_bridges = [];
    current_topics = [];
    current_services = [];
    enabled = false;
  }

  unfoldable pub enable_if_set : DdsPipe Bridge RpcBridge → Option (DdsPipe Bridge RpcBridge)
  unfolding enable
  enable_if_set p =
      if p.configuration.init_enabled
      then elim (enable ops rpc match_pattern p) [ none ↦ none | some r ↦ some r.0 ]
      else some p

  -- The constructor; `some none` is its ConfigurationException.
  unfoldable pub make_pipe :
      DdsPipeConfiguration → Map String Bool → Option (Option (DdsPipe Bridge RpcBridge))
  unfolding is_valid init_bridges enable_if_set new_pipe
  make_pipe c participants =
      if is_valid c participants
      then elim (init_bridges c.builtin_topics (new_pipe c)) [
        | none ↦ none
        | some p ↦ elim (enable_if_set p) [ none ↦ none | some p' ↦ some (some p') ]
      ]
      else some none

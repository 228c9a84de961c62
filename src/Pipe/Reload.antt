-- ===== src/Pipe/Reload.antt =====
-- The reloading of DdsPipe in ddspipe/ddspipe_core/src/cpp/core/DdsPipe.cpp, by a new list of
-- allowed topics and a new master flag.
use Prim.Native.String.{String}
use ddsproxy.Common.{
  Bool, true, false, not, Option, none, some, [], ◌∷◌, if◌then◌else◌, string_key, nat_key,
}
use ddsproxy.Common.Map.{Map, insert}
use ddsproxy.Types.Topic.{DdsTopic}
use ddsproxy.Types.Rpc.{RpcTopic}
use ddsproxy.Dynamic.AllowedTopicList.{
  AllowedTopicList, make_allowed_topic_list, is_service_allowed, same_allowed_topics,
}
use ddsproxy.Configuration.{DdsPipeConfiguration, is_valid}
use ddsproxy.Pipe.Interfaces.{BridgeOps, RpcBridgeOps}
use ddsproxy.Pipe.{
  DdsPipe, ReturnCode, retcode_ok, retcode_no_data, activate_topic, deactivate_topic, is_allowed,
  call_rpc,
}

module _ {Bridge RpcBridge : Type 0} (ops : BridgeOps Bridge) (rpc : RpcBridgeOps RpcBridge)
    (match_pattern : String → String → Bool) where
  -- The first loop of `reload_allowed_topics_`.
  unfoldable pub reload_topics :
      Map String (DdsTopic × Bool) → DdsPipe Bridge RpcBridge → DdsPipe Bridge RpcBridge
  unfolding activate_topic deactivate_topic is_allowed
  reload_topics [] p = p
  reload_topics ((name, (topic, true)) ∷ rest) p = reload_topics rest (
      if is_allowed ops rpc match_pattern p topic
      then p
      else deactivate_topic ops rpc match_pattern topic p)
  reload_topics ((name, (topic, false)) ∷ rest) p = reload_topics rest (
      if is_allowed ops rpc match_pattern p topic
      then activate_topic ops rpc match_pattern topic p
      else p)

  -- The second loop of `reload_allowed_topics_`.
  unfoldable pub reload_services :
      Map String (RpcTopic × Bool) → DdsPipe Bridge RpcBridge → Option (DdsPipe Bridge RpcBridge)
  unfolding call_rpc is_service_allowed
  reload_services [] p = some p
  reload_services ((name, (topic, _)) ∷ rest) p =
      let allowed = is_service_allowed match_pattern p.allowed_topics topic in
      elim (call_rpc ops rpc match_pattern name
        (if allowed then rpc.enable_rpc else rpc.disable_rpc)
        (record p { current_services = insert name (topic, allowed) p.current_services })) [
          | none ↦ none
          | some p' ↦ reload_services rest p'
        ]

  unfoldable pub reload_allowed_topics :
      AllowedTopicList → DdsPipe Bridge RpcBridge → Option (DdsPipe Bridge RpcBridge × ReturnCode)
  unfolding same_allowed_topics reload_topics reload_services
  reload_allowed_topics allowed_topics p =
      let p' = record p { allowed_topics = allowed_topics } in
      if same_allowed_topics allowed_topics p.allowed_topics
      then some (p, retcode_no_data)
      else if not p.enabled
      then some (p', retcode_ok)
      else elim (reload_services p.current_services (reload_topics p.current_topics p')) [
        | none ↦ none
        | some p'' ↦ some (p'', retcode_ok)
      ]

  unfoldable pub change_all : Bool → Map String Bridge → Map String Bridge
  change_all f [] = []
  change_all f ((name, b) ∷ bs) = (name, ops.change_master_flag f b) ∷ change_all f bs

  unfoldable pub reload_master_flag : Bool → DdsPipe Bridge RpcBridge → DdsPipe Bridge RpcBridge
  unfolding change_all
  reload_master_flag f p = record p { bridges = change_all f p.bridges }

  -- `none` where the code throws a ConfigurationException.
  unfoldable pub reload_configuration :
      DdsPipeConfiguration
      → Map String Bool
      → DdsPipe Bridge RpcBridge
      → Option (Option (DdsPipe Bridge RpcBridge × ReturnCode))
  unfolding is_valid reload_master_flag reload_allowed_topics make_allowed_topic_list
  reload_configuration new_configuration participants p =
      if is_valid new_configuration participants
      then some (
          reload_allowed_topics
            (make_allowed_topic_list new_configuration.allowlist new_configuration.blocklist)
            (reload_master_flag new_configuration.master_flag p))
      else none

-- ===== src/Pipe/Endpoints.antt =====
-- What the callbacks of the discovery database do to the flags of DdsPipe.cpp.
use Prim.Native.String.{String}
use mathlib.Core.Path.{subst}
use ddsproxy.Common.{◌≡◌, Bool, ◌&&◌, Option, none, some, string_key}
use ddsproxy.Types.Topic.{DdsTopic}
use ddsproxy.Types.Rpc.{RpcTopic, is_service_topic, make_rpc_topic}
use ddsproxy.Types.Endpoint.{Endpoint, is_server_endpoint, guid_prefix}
use ddsproxy.Dynamic.DiscoveryDatabase.{Entities}
use ddsproxy.Pipe.Interfaces.{BridgeOps, RpcBridgeOps, BridgeLaws}
use ddsproxy.Pipe.{DdsPipe}
use ddsproxy.Pipe.Discovery.{
  discovered_service, removed_service, remove_subscriber, discovered_endpoint, removed_endpoint,
  updated_endpoint, is_endpoint_relevant, is_endpoint_kind_relevant,
}
use ddsproxy.Pipe.Allowed.{Distinguished, Consistent}
use ddsproxy.Pipe.Serving.{from_some}
use ddsproxy.Pipe.Topics.{discovered_topic-Good}
use ddsproxy.Pipe.Reactions.{
  either, discovered_service-Good, removed_service-Good, remove_subscriber-Good,
}

module _ {Bridge RpcBridge : Type 0} (ops : BridgeOps Bridge) (rpc : RpcBridgeOps RpcBridge)
    (match_pattern : String → String → Bool) (laws : BridgeLaws ops) (Seen : DdsTopic → Type 0)
    (distinguished : Distinguished Seen) where
  abbrev Good : DdsPipe Bridge RpcBridge → Type 0
  Good p = Consistent ops rpc match_pattern laws Seen distinguished p

  abbrev After : Option (DdsPipe Bridge RpcBridge) → Type 0
  After o = (p : DdsPipe Bridge RpcBridge) → o ≡ some p → Good p

  returns : (p : DdsPipe Bridge RpcBridge) → Good p → After (some p)
  returns p g p' e = subst Good (from_some e) g

  optional :
      (o : Option RpcTopic) (f : RpcTopic → Option (DdsPipe Bridge RpcBridge))
      → ((t : RpcTopic) → After (f t))
      → After (elim o [ none ↦ none | some t ↦ f t ])
  optional none f h = λ p e. absurd (cc e)
  optional (some t) f h = h t

  pub removed_endpoint-Good :
      (db : Entities) (endpoint : Endpoint) (p p' : DdsPipe Bridge RpcBridge)
      → Good p
      → removed_endpoint ops rpc match_pattern db endpoint p ≡ some p'
      → Good p'
  unfolding removed_endpoint
  removed_endpoint-Good db endpoint p p' g =
      let from = endpoint.discoverer_participant_id in
      let prefix = guid_prefix endpoint.guid in
      either After (is_service_topic endpoint.topic)
        (either After (is_server_endpoint endpoint)
          (optional (make_rpc_topic endpoint.topic)
            (λ t. some (removed_service ops rpc match_pattern t from prefix p))
            (λ t. returns (removed_service ops rpc match_pattern t from prefix p) (
              removed_service-Good ops rpc match_pattern laws Seen distinguished t from prefix p
                g)))
          (returns p g))
        (either After
          (p.configuration.remove_unused_entities
            && is_endpoint_relevant ops rpc match_pattern db p endpoint)
          (returns (remove_subscriber ops rpc match_pattern endpoint p)
            (remove_subscriber-Good ops rpc match_pattern laws Seen distinguished endpoint p g))
          (returns p g))
        p'

  pub discovered_endpoint-Good :
      (db : Entities) (endpoint : Endpoint) (p p' : DdsPipe Bridge RpcBridge)
      → Seen endpoint.topic
      → Good p
      → discovered_endpoint ops rpc match_pattern db endpoint p ≡ some p'
      → Good p'
  unfolding discovered_endpoint
  discovered_endpoint-Good db endpoint p p' seen g =
      let from = endpoint.discoverer_participant_id in
      let prefix = guid_prefix endpoint.guid in
      either After (is_service_topic endpoint.topic)
        (either After
          (is_endpoint_kind_relevant ops rpc match_pattern p endpoint
            && is_server_endpoint endpoint)
          (optional (make_rpc_topic endpoint.topic)
            (λ t. discovered_service ops rpc match_pattern t from prefix p)
            (λ t q e.
              discovered_service-Good ops rpc match_pattern laws Seen distinguished t from prefix p
                q g e))
          (returns p g))
        (either After (is_endpoint_relevant ops rpc match_pattern db p endpoint)
          (λ q e.
            discovered_topic-Good ops rpc match_pattern laws Seen distinguished endpoint.topic p q
              seen g e)
          (returns p g))
        p'

  pub updated_endpoint-Good :
      (db : Entities) (endpoint : Endpoint) (p p' : DdsPipe Bridge RpcBridge)
      → Seen endpoint.topic
      → Good p
      → updated_endpoint ops rpc match_pattern db endpoint p ≡ some p'
      → Good p'
  unfolding updated_endpoint
  updated_endpoint-Good db endpoint p p' seen g =
      either After (is_service_topic endpoint.topic) (returns p g)
        (either After endpoint.active (λ q e. discovered_endpoint-Good db endpoint p q seen g e)
          (λ q e. removed_endpoint-Good db endpoint p q g e))
        p'
